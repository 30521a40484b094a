-- ===== src/Dtype.antt =====
-- include/pressio_dtype.h and src/pressio_dtype.cc: the element types of a buffer.
use libpressio.Base.{Bool, arith, false, true, ℕ, ◌<◌}

-- `enum pressio_dtype`, in the order of its values 0 to 11.
pub data Dtype : Type 0 where
  double float uint8 uint16 uint32 uint64 int8 int16 int32 int64 byte bool : Dtype

-- `pressio_dtype_size`; its default branch is for values outside the enumeration.
unfoldable pub dtype_size : Dtype → ℕ
dtype_size double = 8
dtype_size float = 4
dtype_size uint8 = 1
dtype_size uint16 = 2
dtype_size uint32 = 4
dtype_size uint64 = 8
dtype_size int8 = 1
dtype_size int16 = 2
dtype_size int32 = 4
dtype_size int64 = 8
dtype_size byte = 1
dtype_size bool = 1

-- `pressio_dtype_is_floating`
unfoldable pub dtype_is_floating : Dtype → Bool
dtype_is_floating double = true
dtype_is_floating float = true
dtype_is_floating _ = false

-- `pressio_dtype_is_signed`
unfoldable pub dtype_is_signed : Dtype → Bool
dtype_is_signed double = true
dtype_is_signed float = true
dtype_is_signed int8 = true
dtype_is_signed int16 = true
dtype_is_signed int32 = true
dtype_is_signed int64 = true
dtype_is_signed _ = false

-- `pressio_dtype_is_numeric`
unfoldable pub dtype_is_numeric : Dtype → Bool
dtype_is_numeric byte = false
dtype_is_numeric _ = true

pub dtype_size-pos : (d : Dtype) → 0 < dtype_size d
unfolding dtype_size
dtype_size-pos double = omega arith
dtype_size-pos _ = omega arith
