-- ===== src/Serial/Codes.antt =====
-- The numbers of the enumerators that src/serializable.cc sends, and the casts back.
use libpressio.Base.Int.{ℤ, pos, negsuc}
use libpressio.Base.{Option, [], get_elem?, none, refl, some, ℕ, ◌∷◌, ◌≡◌}
use libpressio.Dtype.{Dtype}
use libpressio.PressioOption.Cell.{OptionType, ThreadSafety}
use libpressio.Serial.Comm.{MpiType}

-- `(int32_t) type`
unfoldable pub type_code : OptionType → ℕ
type_code OptionType.uint32 = 0
type_code OptionType.int32 = 1
type_code OptionType.float = 2
type_code OptionType.double = 3
type_code OptionType.charptr = 4
type_code OptionType.userptr = 5
type_code OptionType.unset = 6
type_code OptionType.charptr_array = 7
type_code OptionType.buffer = 8
type_code OptionType.uint8 = 9
type_code OptionType.int8 = 10
type_code OptionType.uint16 = 11
type_code OptionType.int16 = 12
type_code OptionType.uint64 = 13
type_code OptionType.int64 = 14
type_code OptionType.bool = 15
type_code OptionType.dtype = 16
type_code OptionType.threadsafety = 17

-- The enumerator with a number; the cast of any other is no enumerator.
unfoldable pub type_of_code : ℤ → Option OptionType
type_of_code (negsuc n) = none
type_of_code (pos n) =
    get_elem?
      (OptionType.uint32 ∷ OptionType.int32 ∷ OptionType.float ∷ OptionType.double
        ∷ OptionType.charptr ∷ OptionType.userptr ∷ OptionType.unset ∷ OptionType.charptr_array
        ∷ OptionType.buffer ∷ OptionType.uint8 ∷ OptionType.int8 ∷ OptionType.uint16
        ∷ OptionType.int16 ∷ OptionType.uint64 ∷ OptionType.int64 ∷ OptionType.bool
        ∷ OptionType.dtype ∷ OptionType.threadsafety ∷ [])
      n

unfoldable pub dtype_code : Dtype → ℕ
dtype_code Dtype.double = 0
dtype_code Dtype.float = 1
dtype_code Dtype.uint8 = 2
dtype_code Dtype.uint16 = 3
dtype_code Dtype.uint32 = 4
dtype_code Dtype.uint64 = 5
dtype_code Dtype.int8 = 6
dtype_code Dtype.int16 = 7
dtype_code Dtype.int32 = 8
dtype_code Dtype.int64 = 9
dtype_code Dtype.byte = 10
dtype_code Dtype.bool = 11

unfoldable pub dtype_of_code : ℤ → Option Dtype
dtype_of_code (negsuc n) = none
dtype_of_code (pos n) =
    get_elem?
      (Dtype.double ∷ Dtype.float ∷ Dtype.uint8 ∷ Dtype.uint16 ∷ Dtype.uint32 ∷ Dtype.uint64
        ∷ Dtype.int8 ∷ Dtype.int16 ∷ Dtype.int32 ∷ Dtype.int64 ∷ Dtype.byte ∷ Dtype.bool ∷ [])
      n

unfoldable pub safety_code : ThreadSafety → ℕ
safety_code ThreadSafety.single = 0
safety_code ThreadSafety.serialized = 1
safety_code ThreadSafety.multiple = 2

unfoldable pub safety_of_code : ℤ → Option ThreadSafety
safety_of_code (negsuc n) = none
safety_of_code (pos n) =
    get_elem? (ThreadSafety.single ∷ ThreadSafety.serialized ∷ ThreadSafety.multiple ∷ []) n

-- `pressio_dtype_to_mpi`
unfoldable pub dtype_to_mpi : Dtype → MpiType
dtype_to_mpi Dtype.double = MpiType.double
dtype_to_mpi Dtype.float = MpiType.float
dtype_to_mpi Dtype.int8 = MpiType.int8_t
dtype_to_mpi Dtype.int16 = MpiType.int16_t
dtype_to_mpi Dtype.int32 = MpiType.int32_t
dtype_to_mpi Dtype.int64 = MpiType.int64_t
dtype_to_mpi Dtype.uint8 = MpiType.uint8_t
dtype_to_mpi Dtype.uint16 = MpiType.uint16_t
dtype_to_mpi Dtype.uint32 = MpiType.uint32_t
dtype_to_mpi Dtype.uint64 = MpiType.uint64_t
dtype_to_mpi Dtype.byte = MpiType.byte
dtype_to_mpi Dtype.bool = MpiType.cxx_bool

pub type_of_code-type_code : (t : OptionType) → type_of_code (pos (type_code t)) ≡ some t
unfolding type_of_code type_code
type_of_code-type_code OptionType.uint32 = refl
type_of_code-type_code _ = refl

pub dtype_of_code-dtype_code : (d : Dtype) → dtype_of_code (pos (dtype_code d)) ≡ some d
unfolding dtype_of_code dtype_code
dtype_of_code-dtype_code Dtype.double = refl
dtype_of_code-dtype_code _ = refl

pub safety_of_code-safety_code : (s : ThreadSafety) → safety_of_code (pos (safety_code s)) ≡ some s
unfolding safety_of_code safety_code
safety_of_code-safety_code ThreadSafety.single = refl
safety_of_code-safety_code _ = refl
