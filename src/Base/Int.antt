-- ===== src/Base/Int.antt =====
-- Integers over the native numbers, and the two's complement values of a machine word.
use Prim.Native.Nat.{ℕ, ◌+◌, ◌-◌, ◌%◌, ◌<◌}
use mathlib.Core.Path.{◌≡◌, ap}
use native.Mathlib.Omega.{arith}
use native.Mathlib.Nat.{mod-eq_of_lt}
use libpressio.Base.Tests.{if◌then◌else◌, ltb}

-- `negsuc n` is -(n + 1).
pub data ℤ : Type 0 where
  pos : ℕ → ℤ
  negsuc : ℕ → ℤ

-- The value of `z` modulo `m`, for a positive `m`.
abbrev pub mod_ℤ : ℤ → ℕ → ℕ
mod_ℤ (pos n) m = n % m
mod_ℤ (negsuc n) m = m - 1 - n % m

-- The word `u` below `2 * h` read as a two's complement number.
abbrev pub signed_of : ℕ → ℕ → ℤ
signed_of h u = if ltb u h then pos u else negsuc (h + h - 1 - u)

-- Conversion to an unsigned and to a signed word with `2 * h` values.
unfoldable pub wrap_unsigned : ℕ → ℤ → ℤ
wrap_unsigned h z = pos (mod_ℤ z (h + h))

unfoldable pub wrap_signed : ℕ → ℤ → ℤ
wrap_signed h z = signed_of h (mod_ℤ z (h + h))

abbrev pub InUnsigned : ℕ → ℤ → Type 0
InUnsigned h (pos n) = n < h + h
InUnsigned h (negsuc n) = ⊥

abbrev pub InSigned : ℕ → ℤ → Type 0
InSigned h (pos n) = n < h
InSigned h (negsuc n) = n < h

pub wrap_unsigned-InUnsigned : (h : ℕ) (z : ℤ) → 0 < h → InUnsigned h (wrap_unsigned h z)
unfolding wrap_unsigned
wrap_unsigned-InUnsigned h (pos n) p = grind arith
wrap_unsigned-InUnsigned h (negsuc n) p = grind arith

pub wrap_signed-InSigned : (h : ℕ) (z : ℤ) → 0 < h → InSigned h (wrap_signed h z)
unfolding wrap_signed
wrap_signed-InSigned h (pos n) p = grind arith
wrap_signed-InSigned h (negsuc n) p = grind arith

-- A value that the word holds is unchanged.
pub wrap_unsigned-eq : (h : ℕ) (z : ℤ) → InUnsigned h z → wrap_unsigned h z ≡ z
unfolding wrap_unsigned
wrap_unsigned-eq h (pos n) p = ap pos (mod-eq_of_lt p)
wrap_unsigned-eq h (negsuc n) p = absurd p

pub wrap_signed-eq : (h : ℕ) (z : ℤ) → InSigned h z → wrap_signed h z ≡ z
unfolding wrap_signed
wrap_signed-eq h (pos n) p =
    let e : n % (h + h) ≡ n = mod-eq_of_lt (omega arith) in ground (arith, e)
wrap_signed-eq h (negsuc n) p =
    let e : n % (h + h) ≡ n = mod-eq_of_lt (omega arith) in ground (arith, e)
