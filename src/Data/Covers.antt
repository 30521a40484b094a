-- ===== src/Data/Covers.antt =====
-- Which bytes of a buffer the element types of ForEach.antt reach.
use libpressio.Base.{List, arith, refl, ℕ, ◌%◌, ◌*◌, ◌^◌, ◌↔◌, ◌≡◌, ◌≢◌}
use libpressio.Dtype.{Dtype, dtype_size}
use libpressio.Data.Sizes.{data_size_in_bytes, data_size_in_elements}
use libpressio.Data.Buffer.{Buffer, num_elements, size_in_bytes}
use libpressio.Data.ForEach.{
  for_each_length, element_size, element_or, for_each, for_each_two, select_element, char,
  unsigned_char,
}

covers :
    (t : Dtype) (b : Buffer)
    → b.data_dtype ≡ t
    → (for_each_length t b * element_size (element_or unsigned_char t)) % 2 ^ 64
      ≡ data_size_in_bytes t b.dims
unfolding for_each_length num_elements size_in_bytes element_size element_or dtype_size
    data_size_in_bytes
covers Dtype.byte b e = rw e (omega arith)
covers Dtype.double b e = refl
covers _ b e = refl

-- The elements that `pressio_data_for_each` gives its function are the bytes of the buffer, modulo
-- 2^64.
pub for_each-covers :
    (b : Buffer) → let (e, n) = for_each b in (n * element_size e) % 2 ^ 64 ≡ size_in_bytes b
unfolding for_each size_in_bytes
for_each-covers b = covers b.data_dtype b refl

pair_covers :
    (t : Dtype) (ds : List ℕ)
    → (data_size_in_elements ds * element_size (element_or char t)) % 2 ^ 64
      ≡ data_size_in_bytes t ds
unfolding element_size element_or dtype_size data_size_in_bytes
pair_covers Dtype.double ds = refl
pair_covers _ ds = refl

-- The elements of two buffers that `pressio_data_for_each` gives its function are the bytes of each
-- buffer, modulo 2^64, whatever the two types.
pub for_each_two-covers :
    (a b : Buffer)
    → let ((e, n), (f, m)) = for_each_two a b in
      ((n * element_size e) % 2 ^ 64 ≡ size_in_bytes a)
      × ((m * element_size f) % 2 ^ 64 ≡ size_in_bytes b)
unfolding for_each_two num_elements size_in_bytes
for_each_two-covers a b = (pair_covers a.data_dtype a.dims, pair_covers b.data_dtype b.dims)

-- The elements that `select` copies have the size of the buffer's type for every type but `byte`,
-- and not for that one.
pub select_element-size :
    (t : Dtype) → (element_size (select_element t) ≡ dtype_size t) ↔ (t ≢ Dtype.byte)
unfolding element_size select_element element_or dtype_size
select_element-size Dtype.byte = ground arith
select_element-size _ = ground arith
