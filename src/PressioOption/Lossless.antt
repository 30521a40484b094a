-- ===== src/PressioOption/Lossless.antt =====
-- Which arithmetic conversions keep the value: is_narrowing_conversion of src/pressio_option.cc
-- against `static_cast`.
use libpressio.Base.{
  Bool, Bool-cases, ap, arith, false, if◌then◌else◌, inl, inr, refl, some, subst, sym, true, ◌∙◌,
  ◌≡◌, ◌≢◌, ◌⊎◌,
}
use libpressio.Base.Int.{ℤ, pos, negsuc, InSigned, InUnsigned, wrap_signed-eq, wrap_unsigned-eq}
use libpressio.PressioOption.Host.{Host}
use libpressio.PressioOption.Numeric.{
  NumType, bool, int8, uint8, int16, uint16, int32, uint32, int64, uint64, float, double, Num,
  integer, scalar, convert, static_cast, is_same, is_same-eq, is_integral, is_narrowing_conversion,
  InRange, half_range, bit,
}
use libpressio.PressioOption.Cell.{PressioOption, monostate, num, num_option_type}
use libpressio.PressioOption.Names.{ConversionSafety, implicit}
use libpressio.PressioOption.Convert.{convert_numeric, as_numeric}
use libpressio.PressioOption.As.{as_type}

-- The integers of an integer type other than `bool`.
abbrev Holds : NumType → ℤ → Type 0
Holds int8 z = InSigned (half_range int8) z
Holds uint8 z = InUnsigned (half_range uint8) z
Holds int16 z = InSigned (half_range int16) z
Holds uint16 z = InUnsigned (half_range uint16) z
Holds int32 z = InSigned (half_range int32) z
Holds uint32 z = InUnsigned (half_range uint32) z
Holds int64 z = InSigned (half_range int64) z
Holds uint64 z = InUnsigned (half_range uint64) z
Holds _ z = ⊥

-- A type that a conversion without narrowing leads to holds what the first type holds.
Holds-mono :
    (from to : NumType) (z : ℤ)
    → is_integral to ≡ true
    → to ≢ bool
    → is_narrowing_conversion from to ≡ false
    → Holds from z
    → Holds to z
unfolding is_narrowing_conversion
Holds-mono int8 int8 (pos n) i nb w h = ground arith
Holds-mono _ _ (pos n) i nb w h = ground arith
Holds-mono _ _ (negsuc n) i nb w h = ground arith

Holds-bit :
    (to : NumType) (b : Bool)
    → is_integral to ≡ true
    → to ≢ bool
    → is_narrowing_conversion bool to ≡ false
    → Holds to (bit b)
unfolding is_narrowing_conversion
Holds-bit int8 false i nb w = omega arith
Holds-bit _ false i nb w = ground arith
Holds-bit _ true i nb w = ground arith

module _ (H : Host) where
  convert-Holds :
      (to : NumType) (z : ℤ) → Holds to z → scalar H to (convert H to (integer z)) ≡ integer z
  unfolding convert
  convert-Holds int8 z h = ap integer (wrap_signed-eq (half_range int8) z h)
  convert-Holds int16 z h = ap integer (wrap_signed-eq (half_range int16) z h)
  convert-Holds int32 z h = ap integer (wrap_signed-eq (half_range int32) z h)
  convert-Holds int64 z h = ap integer (wrap_signed-eq (half_range int64) z h)
  convert-Holds uint8 z h = ap integer (wrap_unsigned-eq (half_range uint8) z h)
  convert-Holds uint16 z h = ap integer (wrap_unsigned-eq (half_range uint16) z h)
  convert-Holds uint32 z h = ap integer (wrap_unsigned-eq (half_range uint32) z h)
  convert-Holds uint64 z h = ap integer (wrap_unsigned-eq (half_range uint64) z h)
  convert-Holds bool z h = absurd h
  convert-Holds float z h = absurd h
  convert-Holds double z h = absurd h

  -- The integer that a value of an integral type stands for.
  scalar-Holds :
      (from to : NumType) (x : Num H from)
      → is_integral from ≡ true
      → is_integral to ≡ true
      → to ≢ bool
      → is_narrowing_conversion from to ≡ false
      → InRange H from x
      → (z : ℤ) × (scalar H from x ≡ integer z) × Holds to z
  scalar-Holds bool to x f i nb w r = (bit x, refl, Holds-bit to x i nb w)
  scalar-Holds int8 to x f i nb w r = (x, refl, Holds-mono int8 to x i nb w r)
  scalar-Holds uint8 to x f i nb w r = (x, refl, Holds-mono uint8 to x i nb w r)
  scalar-Holds int16 to x f i nb w r = (x, refl, Holds-mono int16 to x i nb w r)
  scalar-Holds uint16 to x f i nb w r = (x, refl, Holds-mono uint16 to x i nb w r)
  scalar-Holds int32 to x f i nb w r = (x, refl, Holds-mono int32 to x i nb w r)
  scalar-Holds uint32 to x f i nb w r = (x, refl, Holds-mono uint32 to x i nb w r)
  scalar-Holds int64 to x f i nb w r = (x, refl, Holds-mono int64 to x i nb w r)
  scalar-Holds uint64 to x f i nb w r = (x, refl, Holds-mono uint64 to x i nb w r)
  scalar-Holds float to x f i nb w r = cc
  scalar-Holds double to x f i nb w r = cc

  -- `static_cast` keeps a value in range whenever it does not narrow and `bool` is not its target.
  pub static_cast-lossless :
      (from to : NumType) (x : Num H from)
      → is_integral from ≡ true
      → is_integral to ≡ true
      → to ≢ bool
      → is_narrowing_conversion from to ≡ false
      → InRange H from x
      → scalar H to (static_cast H to from x) ≡ scalar H from x
  unfolding static_cast
  static_cast-lossless from to x f i nb w r =
      let (z, e, h) = scalar-Holds from to x f i nb w r in
      ap (λ s. scalar H to (convert H to s)) e ∙ convert-Holds to z h ∙ sym e

  -- The option `r` holds, at the type `to`, the same scalar as `x` at the type `from`.
  abbrev pub Keeps : (from : NumType) → Num H from → NumType → PressioOption H → Type 0
  Keeps from x to r = (y : Num H to) × (r ≡ num to (some y)) × (scalar H to y ≡ scalar H from x)

  same_type : (from to : NumType) (x : Num H from) → from ≡ to → Keeps from x to (num from (some x))
  same_type from to x e = subst (λ t. Keeps from x t (num from (some x))) e (x, refl, refl)

  convert_numeric-same :
      (from to : NumType) (x : Num H from) (safety : ConversionSafety)
      → is_same from to ≡ true
      → convert_numeric H to from x safety ≡ num from (some x)
  unfolding convert_numeric
  convert_numeric-same from to x safety e = rw e

  convert_numeric-implicit :
      (from to : NumType) (x : Num H from)
      → is_same from to ≡ false
      → convert_numeric H to from x implicit ≡ (
          if is_narrowing_conversion from to
          then monostate
          else num to (some (static_cast H to from x)))
  unfolding convert_numeric
  convert_numeric-implicit from to x e = rw e

  pub as_type-numeric :
      (from to : NumType) (x : Num H from) (safety : ConversionSafety)
      → as_type H (num from (some x)) (num_option_type to) safety
        ≡ convert_numeric H to from x safety
  unfolding as_type num_option_type as_numeric
  as_type-numeric from int8 x safety = refl
  as_type-numeric from _ x safety = refl

  -- An implicit conversion of an integer in range of its type to an integral type other than `bool`
  -- either is refused because it narrows, or gives an option of the target type that holds the same
  -- integer.
  pub implicit_conversion :
      (from to : NumType) (x : Num H from)
      → is_integral from ≡ true
      → is_integral to ≡ true
      → to ≢ bool
      → InRange H from x
      → let result = as_type H (num from (some x)) (num_option_type to) implicit in
        ((is_narrowing_conversion from to ≡ true) × (result ≡ monostate)) ⊎ Keeps from x to result
  implicit_conversion from to x f i nb r =
      rw (as_type-numeric from to x implicit) (elim (Bool-cases (is_same from to)) [
        | inl e ↦
            rw (convert_numeric-same from to x implicit e)
              (inr (same_type from to x (is_same-eq from to e)))
        | inr e ↦
            rw (convert_numeric-implicit from to x e)
              (elim (Bool-cases (is_narrowing_conversion from to)) [
                | inl w ↦ inl (w, rw w)
                | inr w ↦
                    inr (static_cast H to from x, rw w, static_cast-lossless from to x f i nb w r)
              ])
      ])
