-- ===== src/PressioOption/Convert.antt =====
-- src/pressio_option.cc: convert_numeric, as_numeric and the conversions of a text.
use libpressio.Base.{
  Bool, List, Option, Text, [], codes, false, if◌then◌else◌, length, none, not, some, text_eq, true,
  ◌&&◌, ◌∷◌,
}
use libpressio.Base.Int.{ℤ}
use libpressio.Dtype.{Dtype}
use libpressio.PressioOption.Host.{Host, Parsed, ok, invalid_argument, out_of_range}
use libpressio.PressioOption.Decimal.{to_string, stoi, stol, stoul}
use libpressio.PressioOption.Numeric.{
  NumType, Num, Scalar, integer, single, real, scalar, convert, static_cast, is_same,
  is_narrowing_conversion,
}
use libpressio.PressioOption.Cell.{
  OptionType, PressioOption, monostate, num, text, texts, data_value, dtype_value, safety_value,
}
use libpressio.PressioOption.Names.{
  ConversionSafety, allow_explicit, allow_special, dtype_of_name, threadsafety_of_name,
}

-- `std::string::empty`
abbrev pub is_empty : Text → Bool
is_empty [] = true
is_empty (c ∷ s) = false

-- `pressio_dtype_from_type` at each arithmetic type
abbrev pub dtype_from_type : NumType → Dtype
dtype_from_type NumType.bool = Dtype.bool
dtype_from_type NumType.int8 = Dtype.int8
dtype_from_type NumType.uint8 = Dtype.uint8
dtype_from_type NumType.int16 = Dtype.int16
dtype_from_type NumType.uint16 = Dtype.uint16
dtype_from_type NumType.int32 = Dtype.int32
dtype_from_type NumType.uint32 = Dtype.uint32
dtype_from_type NumType.int64 = Dtype.int64
dtype_from_type NumType.uint64 = Dtype.uint64
dtype_from_type NumType.float = Dtype.float
dtype_from_type NumType.double = Dtype.double

module _ (H : Host) where
  -- `return {}` on a caught `std::invalid_argument` or `std::out_of_range`.
  abbrev pub caught {ℓ} : {A : Type ℓ} → (A → PressioOption H) → Parsed A → PressioOption H
  caught f (ok a) = f a
  caught f invalid_argument = monostate
  caught f out_of_range = monostate

  abbrev pub number : (t : NumType) → Num H t → PressioOption H
  number t x = num t (some x)

  -- `static_cast<To>` of what `std::stoul` and its relatives return.
  abbrev pub cast_parsed : (t : NumType) → Parsed ℤ → PressioOption H
  cast_parsed t = caught (λ z. number t (convert H t (integer z)))

  -- `pressio_data::owning` with one element, or with those of a vector.
  abbrev pub vector_data : (t : NumType) → List (Scalar H) → PressioOption H
  vector_data t xs =
      data_value (some (record { dtype = dtype_from_type t; dims = length xs ∷ []; elements = xs }))

  -- `std::to_string`, at the integers through their promotions
  abbrev scalar_to_string : Scalar H → Text
  scalar_to_string (integer z) = to_string z
  scalar_to_string (single x) = H.single_to_string x
  scalar_to_string (real x) = H.double_to_string x

  -- `convert_numeric<To>`
  unfoldable pub convert_numeric :
      (to from : NumType) → Num H from → ConversionSafety → PressioOption H
  unfolding is_narrowing_conversion static_cast
  convert_numeric to from option safety =
      if is_same from to
      then number from option
      else if is_narrowing_conversion from to
      then (if allow_explicit safety then number to (static_cast H to from option) else monostate)
      else number to (static_cast H to from option)

  -- `as_numeric<From>`
  unfoldable pub as_numeric :
      (from : NumType) → Num H from → OptionType → ConversionSafety → PressioOption H
  unfolding convert_numeric
  as_numeric from d OptionType.bool safety = convert_numeric NumType.bool from d safety
  as_numeric from d OptionType.double safety = convert_numeric NumType.double from d safety
  as_numeric from d OptionType.float safety = convert_numeric NumType.float from d safety
  as_numeric from d OptionType.int8 safety = convert_numeric NumType.int8 from d safety
  as_numeric from d OptionType.uint8 safety = convert_numeric NumType.uint8 from d safety
  as_numeric from d OptionType.int16 safety = convert_numeric NumType.int16 from d safety
  as_numeric from d OptionType.uint16 safety = convert_numeric NumType.uint16 from d safety
  as_numeric from d OptionType.int32 safety = convert_numeric NumType.int32 from d safety
  as_numeric from d OptionType.uint32 safety = convert_numeric NumType.uint32 from d safety
  as_numeric from d OptionType.int64 safety = convert_numeric NumType.int64 from d safety
  as_numeric from d OptionType.uint64 safety = convert_numeric NumType.uint64 from d safety
  as_numeric from d OptionType.charptr safety =
      if allow_special safety then text (some (scalar_to_string (scalar H from d))) else monostate
  as_numeric from d OptionType.charptr_array safety =
      if allow_special safety
      then texts (some (scalar_to_string (scalar H from d) ∷ []))
      else monostate
  as_numeric from d OptionType.buffer safety =
      if allow_special safety then vector_data from (scalar H from d ∷ []) else monostate
  as_numeric from d OptionType.userptr safety = monostate
  as_numeric from d OptionType.unset safety = monostate
  as_numeric from d OptionType.dtype safety = monostate
  as_numeric from d OptionType.threadsafety safety = monostate

  abbrev pub optional {ℓ} : {A : Type ℓ} → (A → PressioOption H) → Option A → PressioOption H
  optional f none = monostate
  optional f (some a) = f a

  -- The case `pressio_option_charptr_type` of `pressio_option::as`. The result of `std::stoi` for
  -- an `int8` is an `int`, and is stored as one.
  unfoldable pub as_charptr : Text → OptionType → ConversionSafety → PressioOption H
  unfolding dtype_of_name threadsafety_of_name
  as_charptr s OptionType.double safety =
      if allow_special safety && not (is_empty s)
      then caught (number NumType.double) (H.stod s)
      else monostate
  as_charptr s OptionType.float safety =
      if allow_special safety && not (is_empty s)
      then caught (number NumType.float) (H.stof s)
      else monostate
  as_charptr s OptionType.int8 safety =
      if allow_special safety && not (is_empty s)
      then caught (number NumType.int32) (stoi s)
      else monostate
  as_charptr s OptionType.bool safety =
      if allow_special safety then number NumType.bool (text_eq s (codes "true")) else monostate
  as_charptr s OptionType.uint8 safety =
      if allow_special safety && not (is_empty s)
      then cast_parsed NumType.uint8 (stoul s)
      else monostate
  as_charptr s OptionType.int16 safety =
      if allow_special safety && not (is_empty s)
      then cast_parsed NumType.int16 (stoi s)
      else monostate
  as_charptr s OptionType.uint16 safety =
      if allow_special safety && not (is_empty s)
      then cast_parsed NumType.uint16 (stoul s)
      else monostate
  as_charptr s OptionType.int32 safety =
      if allow_special safety && not (is_empty s)
      then cast_parsed NumType.int32 (stol s)
      else monostate
  as_charptr s OptionType.uint32 safety =
      if allow_special safety && not (is_empty s)
      then cast_parsed NumType.uint32 (stoul s)
      else monostate
  as_charptr s OptionType.int64 safety =
      if allow_special safety && not (is_empty s)
      then cast_parsed NumType.int64 (stol s)
      else monostate
  as_charptr s OptionType.uint64 safety =
      if allow_special safety && not (is_empty s)
      then cast_parsed NumType.uint64 (stoul s)
      else monostate
  as_charptr s OptionType.threadsafety safety =
      if allow_special safety
      then optional (λ t. safety_value (some t)) (threadsafety_of_name s)
      else monostate
  as_charptr s OptionType.dtype safety =
      if allow_special safety
      then optional (λ t. dtype_value (some t)) (dtype_of_name s)
      else monostate
  as_charptr s OptionType.charptr safety = text (some s)
  as_charptr s OptionType.buffer safety =
      if allow_special safety
      then caught (λ d. vector_data NumType.double (real d ∷ [])) (H.stod s)
      else monostate
  as_charptr s OptionType.charptr_array safety =
      if allow_special safety then texts (some (s ∷ [])) else monostate
  as_charptr s OptionType.userptr safety = monostate
  as_charptr s OptionType.unset safety = monostate
