-- ===== src/Data/ForEach.antt =====
-- The element types at which the functions of the library run over a buffer:
-- `pressio_data_for_each` (include/libpressio_ext/cpp/data.h) and the switch of
-- `pressio_data::select` (src/pressio_data.cc).
use libpressio.Base.{ℕ}
use libpressio.Dtype.{Dtype}
use libpressio.Data.Buffer.{Buffer, num_elements, size_in_bytes}

-- The C++ types that the switches name.
pub data Element : Type 0 where
  double float uint8_t uint16_t uint32_t uint64_t int8_t int16_t int32_t int64_t bool : Element
  unsigned_char char void_pointer : Element

-- `sizeof`
unfoldable pub element_size : Element → ℕ
element_size double = 8
element_size float = 4
element_size uint8_t = 1
element_size uint16_t = 2
element_size uint32_t = 4
element_size uint64_t = 8
element_size int8_t = 1
element_size int16_t = 2
element_size int32_t = 4
element_size int64_t = 8
element_size bool = 1
element_size unsigned_char = 1
element_size char = 1
element_size void_pointer = 8

-- The type of a case of the switches, but for the last case, whose type is `other`.
unfoldable pub element_or : Element → Dtype → Element
element_or other Dtype.double = double
element_or other Dtype.float = float
element_or other Dtype.uint8 = uint8_t
element_or other Dtype.uint16 = uint16_t
element_or other Dtype.uint32 = uint32_t
element_or other Dtype.uint64 = uint64_t
element_or other Dtype.int8 = int8_t
element_or other Dtype.int16 = int16_t
element_or other Dtype.int32 = int32_t
element_or other Dtype.int64 = int64_t
element_or other Dtype.bool = bool
element_or other Dtype.byte = other

-- The number of elements that `pressio_data_for_each` gives for a type.
unfoldable pub for_each_length : Dtype → Buffer → ℕ
for_each_length Dtype.byte b = size_in_bytes b
for_each_length _ b = num_elements b

-- `pressio_data_for_each`: the type and the number of the elements that its function is given.
unfoldable pub for_each : Buffer → Element × ℕ
unfolding element_or for_each_length
for_each b = (element_or unsigned_char b.data_dtype, for_each_length b.data_dtype b)

-- `pressio_data_for_each` of two buffers: the type and the number for each.
unfoldable pub for_each_two : Buffer → Buffer → (Element × ℕ) × (Element × ℕ)
unfolding element_or
for_each_two a b =
    ((element_or char a.data_dtype, num_elements a), (element_or char b.data_dtype, num_elements b))

-- The type at which `select` copies.
unfoldable pub select_element : Dtype → Element
unfolding element_or
select_element t = element_or void_pointer t
