-- ===== src/Data/Sizes.antt =====
-- The sizes of a buffer: `data_size_in_elements` and `data_size_in_bytes` of src/pressio_data.cc,
-- with the arithmetic of a 64-bit `size_t`.
use libpressio.Base.{List, [], ℕ, ◌%◌, ◌*◌, ◌^◌, ◌∷◌}
use libpressio.Dtype.{Dtype, dtype_size}

-- The loop `totalsize *= dims[i]`.
unfoldable pub size_loop : ℕ → List ℕ → ℕ
size_loop total [] = total
size_loop total (d ∷ ds) = size_loop ((total * d) % 2 ^ 64) ds

unfoldable pub data_size_in_elements : List ℕ → ℕ
unfolding size_loop
data_size_in_elements [] = 0
data_size_in_elements (d ∷ ds) = size_loop 1 (d ∷ ds)

unfoldable pub data_size_in_bytes : Dtype → List ℕ → ℕ
unfolding data_size_in_elements
data_size_in_bytes t ds = (data_size_in_elements ds * dtype_size t) % 2 ^ 64
