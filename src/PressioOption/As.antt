-- ===== src/PressioOption/As.antt =====
-- src/pressio_option.cc: the conversions of an array of texts, pressio_option::as and
-- pressio_option::cast_set.
use libpressio.Base.{List, Text, [], if◌then◌else◌, some, ◌∷◌}
use libpressio.Dtype.{Dtype}
use libpressio.Data.Defs.{Data}
use libpressio.PressioOption.Host.{Host, Parsed, ok, invalid_argument, out_of_range}
use libpressio.PressioOption.Numeric.{NumType, Scalar, real}
use libpressio.PressioOption.Cell.{
  OptionType, ThreadSafety, UserData, userdata_of_pointer, PressioOption, monostate, num, text,
  pointer, texts, data_value, dtype_value, safety_value, type, has_value,
}
use libpressio.PressioOption.Names.{
  ConversionSafety, KeyStatus, key_set, key_exists, allow_special, dtype_name, threadsafety_name,
}
use libpressio.PressioOption.Convert.{caught, number, vector_data, as_numeric, as_charptr}

module _ (H : Host) where
  -- The switch over the target for an array of one text: unlike `as_charptr` it leaves an empty
  -- text to `std::stod`, and converts to neither a thread safety nor an element type.
  unfoldable pub as_singleton : Text → OptionType → ConversionSafety → PressioOption H
  unfolding as_charptr
  as_singleton s OptionType.double safety =
      if allow_special safety then caught H (number H NumType.double) (H.stod s) else monostate
  as_singleton s OptionType.float safety =
      if allow_special safety then caught H (number H NumType.float) (H.stof s) else monostate
  as_singleton s OptionType.threadsafety safety = monostate
  as_singleton s OptionType.dtype safety = monostate
  as_singleton s to safety = as_charptr H s to safety

  -- `stod` of each text, up to the first that fails.
  unfoldable pub stod_all : List Text → Parsed (List (Scalar H))
  stod_all [] = ok []
  stod_all (s ∷ rest) = elim (H.stod s) [
    | ok d ↦ elim (stod_all rest) [
      | ok ds ↦ ok (real d ∷ ds)
      | invalid_argument ↦ invalid_argument
      | out_of_range ↦ out_of_range
    ]
    | invalid_argument ↦ invalid_argument
    | out_of_range ↦ out_of_range
  ]

  unfoldable pub as_many : List Text → OptionType → ConversionSafety → PressioOption H
  unfolding stod_all
  as_many sa OptionType.buffer safety =
      if allow_special safety
      then caught H (vector_data H NumType.double) (stod_all sa)
      else monostate
  as_many sa _ safety = monostate

  unfoldable pub by_size : List Text → OptionType → ConversionSafety → PressioOption H
  unfolding as_singleton as_many
  by_size [] to safety = monostate
  by_size (s ∷ []) to safety = as_singleton s to safety
  by_size (s ∷ s' ∷ rest) to safety = as_many (s ∷ s' ∷ rest) to safety

  -- The case `pressio_option_charptr_array_type`.
  unfoldable pub as_charptr_array : List Text → OptionType → ConversionSafety → PressioOption H
  unfolding by_size
  as_charptr_array sa OptionType.charptr_array safety = texts (some sa)
  as_charptr_array sa to safety = by_size sa to safety

  unfoldable pub as_threadsafety : ThreadSafety → OptionType → PressioOption H
  unfolding threadsafety_name
  as_threadsafety t OptionType.threadsafety = safety_value (some t)
  as_threadsafety t OptionType.charptr = text (some (threadsafety_name t))
  as_threadsafety t _ = monostate

  unfoldable pub as_dtype : Dtype → OptionType → PressioOption H
  unfolding dtype_name
  as_dtype t OptionType.dtype = dtype_value (some t)
  as_dtype t OptionType.charptr = text (some (dtype_name t))
  as_dtype t _ = monostate

  -- The pointer is wrapped anew, without its metadata and callbacks.
  unfoldable pub as_userptr : UserData → OptionType → PressioOption H
  unfolding userdata_of_pointer
  as_userptr u OptionType.userptr = pointer (some (userdata_of_pointer u.ptr))
  as_userptr u _ = monostate

  unfoldable pub as_data : Data (Scalar H) → OptionType → PressioOption H
  as_data d OptionType.buffer = data_value (some d)
  as_data d _ = monostate

  -- `pressio_option::as`; an option that holds no value converts to nothing.
  unfoldable pub as_type : PressioOption H → OptionType → ConversionSafety → PressioOption H
  unfolding as_numeric as_charptr as_charptr_array as_threadsafety as_dtype as_userptr as_data
  as_type (num t (some d)) to safety = as_numeric H t d to safety
  as_type (text (some s)) to safety = as_charptr H s to safety
  as_type (texts (some sa)) to safety = as_charptr_array sa to safety
  as_type (safety_value (some t)) to safety = as_threadsafety t to
  as_type (dtype_value (some t)) to safety = as_dtype t to
  as_type (pointer (some u)) to safety = as_userptr u to
  as_type (data_value (some d)) to safety = as_data d to
  as_type _ to safety = monostate

  -- `pressio_option::cast_set`: the option after the call, and the status.
  unfoldable pub cast_set :
      PressioOption H → PressioOption H → ConversionSafety → PressioOption H × KeyStatus
  unfolding as_type has_value type
  cast_set lhs rhs safety =
      let casted = as_type rhs (type H lhs) safety in
      if has_value H casted then (casted, key_set) else (lhs, key_exists)
