-- ===== src/PressioOption/ResultType.antt =====
-- The type of what pressio_option::as and pressio_option::cast_set of src/pressio_option.cc leave.
use libpressio.Base.{
  Bool-cases, List, Text, [], ap, arith, false, inl, inr, refl, some, true, ◌∷◌, ◌≡◌, ◌⊎◌,
}
use libpressio.Dtype.{Dtype}
use libpressio.Data.Defs.{Data}
use libpressio.PressioOption.Host.{Host}
use libpressio.PressioOption.Numeric.{NumType, Num, is_same, is_same-eq, Scalar}
use libpressio.PressioOption.Cell.{
  OptionType, ThreadSafety, UserData, PressioOption, monostate, num, text, pointer, texts,
  data_value, dtype_value, safety_value, type, has_value, num_option_type,
}
use libpressio.PressioOption.Names.{ConversionSafety, KeyStatus, key_set, key_exists}
use libpressio.PressioOption.Convert.{convert_numeric, as_numeric, as_charptr}
use libpressio.PressioOption.As.{
  as_singleton, by_size, as_charptr_array, as_threadsafety, as_dtype, as_userptr, as_data, as_type,
  cast_set,
}

module _ (H : Host) where
  -- No value, or a value of the type asked for.
  abbrev Typed : OptionType → PressioOption H → Type 0
  Typed to r = (r ≡ monostate) ⊎ (type H r ≡ to)

  -- No value, or a value of the type asked for, or a 32 bit integer in place of an 8 bit one.
  abbrev pub TypedOrInt : OptionType → PressioOption H → Type 0
  TypedOrInt to r =
      (r ≡ monostate) ⊎ (type H r ≡ to) ⊎ ((to ≡ OptionType.int8) × (type H r ≡ OptionType.int32))

  same-Typed :
      (from to : NumType) (x : Num H from)
      → from ≡ to
      → Typed (num_option_type to) (num from (some x))
  unfolding type num_option_type
  same-Typed from to x e = inr (ap num_option_type e)

  convert_numeric-Typed :
      (to from : NumType) (x : Num H from) (safety : ConversionSafety)
      → Typed (num_option_type to) (convert_numeric H to from x safety)
  unfolding convert_numeric type
  convert_numeric-Typed to from x safety = elim (Bool-cases (is_same from to)) [
    | inl e ↦ rw e (same-Typed from to x (is_same-eq from to e))
    | inr e ↦ rw e (ground arith)
  ]

  as_numeric-Typed :
      (from : NumType) (x : Num H from) (to : OptionType) (safety : ConversionSafety)
      → TypedOrInt to (as_numeric H from x to safety)
  unfolding as_numeric type num_option_type
  as_numeric-Typed from x OptionType.charptr safety = ground arith
  as_numeric-Typed from x OptionType.int8 safety =
      ground (arith, convert_numeric-Typed NumType.int8 from x safety)
  as_numeric-Typed from x OptionType.uint8 safety =
      ground (arith, convert_numeric-Typed NumType.uint8 from x safety)
  as_numeric-Typed from x OptionType.int16 safety =
      ground (arith, convert_numeric-Typed NumType.int16 from x safety)
  as_numeric-Typed from x OptionType.uint16 safety =
      ground (arith, convert_numeric-Typed NumType.uint16 from x safety)
  as_numeric-Typed from x OptionType.int32 safety =
      ground (arith, convert_numeric-Typed NumType.int32 from x safety)
  as_numeric-Typed from x OptionType.uint32 safety =
      ground (arith, convert_numeric-Typed NumType.uint32 from x safety)
  as_numeric-Typed from x OptionType.int64 safety =
      ground (arith, convert_numeric-Typed NumType.int64 from x safety)
  as_numeric-Typed from x OptionType.uint64 safety =
      ground (arith, convert_numeric-Typed NumType.uint64 from x safety)
  as_numeric-Typed from x OptionType.float safety =
      ground (arith, convert_numeric-Typed NumType.float from x safety)
  as_numeric-Typed from x OptionType.double safety =
      ground (arith, convert_numeric-Typed NumType.double from x safety)
  as_numeric-Typed from x OptionType.bool safety =
      ground (arith, convert_numeric-Typed NumType.bool from x safety)
  as_numeric-Typed from x _ safety = ground arith

  as_charptr-Typed :
      (s : Text) (to : OptionType) (safety : ConversionSafety)
      → TypedOrInt to (as_charptr H s to safety)
  unfolding as_charptr type num_option_type
  as_charptr-Typed s OptionType.double safety = ground arith
  as_charptr-Typed s _ safety = ground arith

  as_singleton-Typed :
      (s : Text) (to : OptionType) (safety : ConversionSafety)
      → TypedOrInt to (as_singleton H s to safety)
  unfolding as_singleton type num_option_type
  as_singleton-Typed s OptionType.double safety = ground arith
  as_singleton-Typed s OptionType.float safety = ground arith
  as_singleton-Typed s OptionType.threadsafety safety = ground arith
  as_singleton-Typed s OptionType.dtype safety = ground arith
  as_singleton-Typed s OptionType.charptr safety = as_charptr-Typed s OptionType.charptr safety
  as_singleton-Typed s to safety = as_charptr-Typed s to safety

  by_size-Typed :
      (sa : List Text) (to : OptionType) (safety : ConversionSafety)
      → TypedOrInt to (by_size H sa to safety)
  unfolding by_size type num_option_type
  by_size-Typed [] to safety = inl refl
  by_size-Typed (s ∷ []) to safety = as_singleton-Typed s to safety
  by_size-Typed (s ∷ s' ∷ rest) OptionType.buffer safety = ground arith
  by_size-Typed (s ∷ s' ∷ rest) _ safety = ground arith

  as_charptr_array-Typed :
      (sa : List Text) (to : OptionType) (safety : ConversionSafety)
      → TypedOrInt to (as_charptr_array H sa to safety)
  unfolding as_charptr_array type
  as_charptr_array-Typed sa OptionType.charptr_array safety = ground arith
  as_charptr_array-Typed sa OptionType.charptr safety = by_size-Typed sa OptionType.charptr safety
  as_charptr_array-Typed sa to safety = by_size-Typed sa to safety

  as_threadsafety-Typed :
      (t : ThreadSafety) (to : OptionType) → TypedOrInt to (as_threadsafety H t to)
  unfolding as_threadsafety type
  as_threadsafety-Typed t OptionType.charptr = ground arith
  as_threadsafety-Typed t _ = ground arith

  as_dtype-Typed : (d : Dtype) (to : OptionType) → TypedOrInt to (as_dtype H d to)
  unfolding as_dtype type
  as_dtype-Typed d OptionType.charptr = ground arith
  as_dtype-Typed d _ = ground arith

  as_userptr-Typed : (u : UserData) (to : OptionType) → TypedOrInt to (as_userptr H u to)
  unfolding as_userptr type
  as_userptr-Typed u OptionType.userptr = ground arith
  as_userptr-Typed u _ = ground arith

  as_data-Typed : (x : Data (Scalar H)) (to : OptionType) → TypedOrInt to (as_data H x to)
  unfolding as_data type
  as_data-Typed x OptionType.buffer = ground arith
  as_data-Typed x _ = ground arith

  -- What `as` gives for the type `to` holds no value or has that type, or it is a 32 bit integer
  -- and `to` is the 8 bit one.
  pub as_type-Typed :
      (o : PressioOption H) (to : OptionType) (safety : ConversionSafety)
      → TypedOrInt to (as_type H o to safety)
  unfolding as_type
  as_type-Typed (num t (some x)) to safety = as_numeric-Typed t x to safety
  as_type-Typed (text (some s)) to safety = as_charptr-Typed s to safety
  as_type-Typed (texts (some sa)) to safety = as_charptr_array-Typed sa to safety
  as_type-Typed (safety_value (some t)) to safety = as_threadsafety-Typed t to
  as_type-Typed (dtype_value (some d)) to safety = as_dtype-Typed d to
  as_type-Typed (pointer (some u)) to safety = as_userptr-Typed u to
  as_type-Typed (data_value (some x)) to safety = as_data-Typed x to
  as_type-Typed _ to safety = inl refl

  -- The outcome of a `cast_set` of an option `lhs`: either nothing changes and the status is
  -- `key_exists`, or the option holds a value and the status is `key_set`, and the type stays, but
  -- for an 8 bit integer that may become a 32 bit one.
  abbrev pub CastOutcome : PressioOption H → PressioOption H × KeyStatus → Type 0
  CastOutcome lhs (r, status) =
      ((status ≡ key_exists) × (r ≡ lhs))
      ⊎ ((status ≡ key_set)
          × (has_value H r ≡ true)
          × ((type H r ≡ type H lhs)
              ⊎ ((type H lhs ≡ OptionType.int8) × (type H r ≡ OptionType.int32))))

  pub has_value-monostate : has_value H monostate ≡ false
  unfolding has_value
  has_value-monostate = refl

  -- `cast_set` of any value, at any safety, either leaves the option as it was and returns
  -- `key_exists`, or leaves an option that holds a value, of the type it had, and returns `key_set`;
  -- an 8 bit integer option may become a 32 bit one.
  pub cast_set-CastOutcome :
      (lhs rhs : PressioOption H) (safety : ConversionSafety)
      → CastOutcome lhs (cast_set H lhs rhs safety)
  unfolding cast_set
  cast_set-CastOutcome lhs rhs safety =
      ground (arith, as_type-Typed rhs (type H lhs) safety, has_value-monostate)
