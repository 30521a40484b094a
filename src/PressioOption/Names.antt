-- ===== src/PressioOption/Names.antt =====
-- src/pressio_option.cc: the levels of conversion, the status of a key, and the names by which
-- texts stand for element types and levels of thread safety.
use libpressio.Base.{Bool, Option, Text, codes, false, if◌then◌else◌, none, some, text_eq, true}
use libpressio.Dtype.{Dtype}
use libpressio.PressioOption.Cell.{ThreadSafety}

-- `enum pressio_conversion_safety`, each level allowing what those before it allow.
pub data ConversionSafety : Type 0 where
  implicit explicit special : ConversionSafety

-- `enum pressio_options_key_status`
pub data KeyStatus : Type 0 where
  key_set key_exists key_does_not_exist : KeyStatus

abbrev pub allow_explicit : ConversionSafety → Bool
allow_explicit implicit = false
allow_explicit explicit = true
allow_explicit special = true

abbrev pub allow_special : ConversionSafety → Bool
allow_special special = true
allow_special _ = false

-- The names of the element types, as a text option spells them.
unfoldable pub dtype_name : Dtype → Text
dtype_name Dtype.bool = codes "bool"
dtype_name Dtype.byte = codes "byte"
dtype_name Dtype.float = codes "float"
dtype_name Dtype.double = codes "double"
dtype_name Dtype.int8 = codes "int8"
dtype_name Dtype.uint8 = codes "uint8"
dtype_name Dtype.int16 = codes "int16"
dtype_name Dtype.uint16 = codes "uint16"
dtype_name Dtype.int32 = codes "int32"
dtype_name Dtype.uint32 = codes "uint32"
dtype_name Dtype.int64 = codes "int64"
dtype_name Dtype.uint64 = codes "uint64"

unfoldable pub threadsafety_name : ThreadSafety → Text
threadsafety_name ThreadSafety.serialized = codes "serialized"
threadsafety_name ThreadSafety.multiple = codes "multiple"
threadsafety_name ThreadSafety.single = codes "single"

-- The comparisons of a text with each name, in the order of the source.
unfoldable pub dtype_of_name : Text → Option Dtype
dtype_of_name s =
    if text_eq s (codes "int8")
    then some Dtype.int8
    else if text_eq s (codes "uint8")
    then some Dtype.uint8
    else if text_eq s (codes "int16")
    then some Dtype.int16
    else if text_eq s (codes "uint16")
    then some Dtype.uint16
    else if text_eq s (codes "int32")
    then some Dtype.int32
    else if text_eq s (codes "uint32")
    then some Dtype.uint32
    else if text_eq s (codes "int64")
    then some Dtype.int64
    else if text_eq s (codes "uint64")
    then some Dtype.uint64
    else if text_eq s (codes "float")
    then some Dtype.float
    else if text_eq s (codes "double")
    then some Dtype.double
    else if text_eq s (codes "bool")
    then some Dtype.bool
    else if text_eq s (codes "byte")
    then some Dtype.byte
    else none

unfoldable pub threadsafety_of_name : Text → Option ThreadSafety
threadsafety_of_name s =
    if text_eq s (codes "single")
    then some ThreadSafety.single
    else if text_eq s (codes "multiple")
    then some ThreadSafety.multiple
    else if text_eq s (codes "serialized")
    then some ThreadSafety.serialized
    else none
