-- ===== src/PressioOption/RoundTrip.antt =====
-- Conversions to a text and back in src/pressio_option.cc: names of element types and of levels
-- of thread safety, and decimal numbers.
use libpressio.Base.{
  Option, Option-cases, Text, [], ap, arith, codes, false, inl, inr, refl, some, text_eq,
  text_eq_iff, true, ℕ, ◌^◌, ◌↔◌, ◌∷◌, ◌≡◌, ◌≢◌, ◌≤◌,
}
use libpressio.Base.Int.{ℤ, pos, negsuc, InSigned, InUnsigned, wrap_signed-eq, wrap_unsigned-eq}
use libpressio.Dtype.{Dtype}
use libpressio.PressioOption.Host.{Host, ok}
use libpressio.PressioOption.Decimal.{
  to_string, parse_signed-to_string, stoul-to_string, to_string-nonempty, stoi, stol, stoul,
}
use libpressio.PressioOption.Numeric.{
  NumType, bool, int8, uint8, int16, uint16, int32, uint32, int64, uint64, float, double, Num,
  InRange, convert, half_range, is_integral,
}
use libpressio.PressioOption.Cell.{
  OptionType, ThreadSafety, PressioOption, num, text, dtype_value, safety_value, num_option_type,
  has_value, type,
}
use libpressio.PressioOption.Names.{
  ConversionSafety, special, key_set, dtype_name, dtype_of_name, threadsafety_name,
  threadsafety_of_name,
}
use libpressio.PressioOption.Convert.{as_numeric, as_charptr, is_empty, optional}
use libpressio.PressioOption.As.{as_type, cast_set, as_dtype, as_threadsafety}

dtype_of_name-dtype_name : (d : Dtype) → dtype_of_name (dtype_name d) ≡ some d
unfolding dtype_of_name dtype_name text_eq
dtype_of_name-dtype_name Dtype.int8 = refl
dtype_of_name-dtype_name _ = refl

-- Only the name of an element type is read as that type.
dtype_name-dtype_of_name : (s : Text) (d : Dtype) → dtype_of_name s ≡ some d → dtype_name d ≡ s
unfolding dtype_of_name dtype_name
dtype_name-dtype_of_name s d e = ground (
  arith,
  text_eq_iff s (codes "int8"),
  text_eq_iff s (codes "uint8"),
  text_eq_iff s (codes "int16"),
  text_eq_iff s (codes "uint16"),
  text_eq_iff s (codes "int32"),
  text_eq_iff s (codes "uint32"),
  text_eq_iff s (codes "int64"),
  text_eq_iff s (codes "uint64"),
  text_eq_iff s (codes "float"),
  text_eq_iff s (codes "double"),
  text_eq_iff s (codes "bool"),
  text_eq_iff s (codes "byte"),
)

threadsafety_name-threadsafety_of_name :
    (s : Text) (t : ThreadSafety) → threadsafety_of_name s ≡ some t → threadsafety_name t ≡ s
unfolding threadsafety_of_name threadsafety_name
threadsafety_name-threadsafety_of_name s t e = ground (
  arith,
  text_eq_iff s (codes "single"),
  text_eq_iff s (codes "multiple"),
  text_eq_iff s (codes "serialized"),
)

threadsafety_of_name-threadsafety_name :
    (t : ThreadSafety) → threadsafety_of_name (threadsafety_name t) ≡ some t
unfolding threadsafety_of_name threadsafety_name text_eq
threadsafety_of_name-threadsafety_name ThreadSafety.single = refl
threadsafety_of_name-threadsafety_name _ = refl

InSigned-mono : {h h' : ℕ} (z : ℤ) → h ≤ h' → InSigned h z → InSigned h' z
InSigned-mono (pos n) l r = omega arith
InSigned-mono (negsuc n) l r = omega arith

stoi-to_string : (z : ℤ) → InSigned (2 ^ 31) z → stoi (to_string z) ≡ ok z
unfolding stoi
stoi-to_string z r = parse_signed-to_string (2 ^ 31) z r

stol-to_string : (z : ℤ) → InSigned (2 ^ 63) z → stol (to_string z) ≡ ok z
unfolding stol
stol-to_string z r = parse_signed-to_string (2 ^ 63) z r

stoul-unsigned : (h : ℕ) (z : ℤ) → h ≤ 2 ^ 63 → InUnsigned h z → stoul (to_string z) ≡ ok z
stoul-unsigned h (pos n) l r = stoul-to_string n (omega arith)
stoul-unsigned h (negsuc n) l r = absurd r

is_empty-to_string : (z : ℤ) → is_empty (to_string z) ≡ false
is_empty-to_string z = nonempty (to_string z) (to_string-nonempty z)
  where
    nonempty : (s : Text) → s ≢ [] → is_empty s ≡ false
    nonempty [] h = absurd (h refl)
    nonempty (c ∷ s) h = refl

module _ (H : Host) where
  -- An integer in range of any type but `bool` and `int8`, printed to a text and read back at the
  -- safety `special`, is the option it was.
  pub as_type-to_string :
      (t : NumType) (x : Num H t)
      → is_integral t ≡ true
      → t ≢ bool
      → t ≢ int8
      → InRange H t x
      → as_type H
          (as_type H (num t (some x)) OptionType.charptr special)
          (num_option_type t)
          special
        ≡ num t (some x)
  unfolding as_type as_numeric as_charptr num_option_type convert
  as_type-to_string int16 x f nb n8 r =
      rw (is_empty-to_string x, stoi-to_string x (InSigned-mono x (omega arith) r))
        (ap (λ z. num int16 (some z)) (wrap_signed-eq (half_range int16) x r))
  as_type-to_string int32 x f nb n8 r =
      rw (is_empty-to_string x, stol-to_string x (InSigned-mono x (omega arith) r))
        (ap (λ z. num int32 (some z)) (wrap_signed-eq (half_range int32) x r))
  as_type-to_string int64 x f nb n8 r =
      rw (is_empty-to_string x, stol-to_string x (InSigned-mono x (omega arith) r))
        (ap (λ z. num int64 (some z)) (wrap_signed-eq (half_range int64) x r))
  as_type-to_string uint8 x f nb n8 r =
      rw (is_empty-to_string x, stoul-unsigned (half_range uint8) x (omega arith) r)
        (ap (λ z. num uint8 (some z)) (wrap_unsigned-eq (half_range uint8) x r))
  as_type-to_string uint16 x f nb n8 r =
      rw (is_empty-to_string x, stoul-unsigned (half_range uint16) x (omega arith) r)
        (ap (λ z. num uint16 (some z)) (wrap_unsigned-eq (half_range uint16) x r))
  as_type-to_string uint32 x f nb n8 r =
      rw (is_empty-to_string x, stoul-unsigned (half_range uint32) x (omega arith) r)
        (ap (λ z. num uint32 (some z)) (wrap_unsigned-eq (half_range uint32) x r))
  as_type-to_string uint64 x f nb n8 r =
      rw (is_empty-to_string x, stoul-unsigned (half_range uint64) x (omega arith) r)
        (ap (λ z. num uint64 (some z)) (wrap_unsigned-eq (half_range uint64) x r))
  as_type-to_string bool x f nb n8 r = absurd (nb refl)
  as_type-to_string int8 x f nb n8 r = absurd (n8 refl)
  as_type-to_string float x f nb n8 r = cc
  as_type-to_string double x f nb n8 r = cc

  -- The text of any `int` converted to the 8 bit type is a 32 bit option.
  pub as_type-int8_text :
      (z : ℤ)
      → InSigned (2 ^ 31) z
      → as_type H (text (some (to_string z))) OptionType.int8 special ≡ num int32 (some z)
  unfolding as_type as_charptr
  as_type-int8_text z r = rw (is_empty-to_string z, stoi-to_string z r)

  -- An 8 bit integer option given the text of any `int` becomes a 32 bit option that holds it.
  pub cast_set-int8_text :
      (o : Option (Num H int8)) (z : ℤ)
      → InSigned (2 ^ 31) z
      → cast_set H (num int8 o) (text (some (to_string z))) special ≡ (num int32 (some z), key_set)
  unfolding cast_set as_type as_charptr type has_value num_option_type
  cast_set-int8_text o z r = rw (is_empty-to_string z, stoi-to_string z r)

  -- A text converts to an element type at the safety `special` exactly if that type
  -- converts to the text, at any safety.
  pub as_type-dtype :
      (s : Text) (d : Dtype) (safety : ConversionSafety)
      → (as_type H (text (some s)) OptionType.dtype special ≡ dtype_value (some d))
        ↔ (as_type H (dtype_value (some d)) OptionType.charptr safety ≡ text (some s))
  unfolding as_type as_charptr as_dtype
  as_type-dtype s d safety = (there, back)
    where
      there :
          optional H (λ t. dtype_value (some t)) (dtype_of_name s) ≡ dtype_value (some d)
          → ◌≡◌ {A = PressioOption H} (text (some (dtype_name d))) (text (some s))
      there e = elim (Option-cases (dtype_of_name s)) [
        | inl no_name ↦ cc (ap (optional H (λ t. dtype_value (some t))) no_name)
        | inr (d', named) ↦
            ground (
              arith,
              ap (optional H (λ t. dtype_value (some t))) named,
              dtype_name-dtype_of_name s d,
            )
      ]

      back :
          ◌≡◌ {A = PressioOption H} (text (some (dtype_name d))) (text (some s))
          → optional H (λ t. dtype_value (some t)) (dtype_of_name s) ≡ dtype_value (some d)
      back e = ground (arith, dtype_of_name-dtype_name d)

  -- A text converts to a level of thread safety at the safety `special` exactly if that level
  -- converts to the text, at any safety.
  pub as_type-threadsafety :
      (s : Text) (d : ThreadSafety) (safety : ConversionSafety)
      → (as_type H (text (some s)) OptionType.threadsafety special ≡ safety_value (some d))
        ↔ (as_type H (safety_value (some d)) OptionType.charptr safety ≡ text (some s))
  unfolding as_type as_charptr as_threadsafety
  as_type-threadsafety s d safety = (there, back)
    where
      there :
          optional H (λ t. safety_value (some t)) (threadsafety_of_name s) ≡ safety_value (some d)
          → ◌≡◌ {A = PressioOption H} (text (some (threadsafety_name d))) (text (some s))
      there e = elim (Option-cases (threadsafety_of_name s)) [
        | inl no_name ↦ cc (ap (optional H (λ t. safety_value (some t))) no_name)
        | inr (d', named) ↦ ground (
          arith,
          ap (optional H (λ t. safety_value (some t))) named,
          threadsafety_name-threadsafety_of_name s d,
        )
      ]

      back :
          ◌≡◌ {A = PressioOption H} (text (some (threadsafety_name d))) (text (some s))
          → optional H (λ t. safety_value (some t)) (threadsafety_of_name s) ≡ safety_value (some d)
      back e = ground (arith, threadsafety_of_name-threadsafety_name d)
