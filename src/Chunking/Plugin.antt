-- ===== src/Chunking/Plugin.antt =====
-- What class chunking_plugin (src/plugins/compressors/chunking.cc) computes from dimensions, and the
-- chunks that it gives its compressor. A division by 0 and an iterator past its end are undefined.
use libpressio.Base.{
  Bool, List, [], false, if◌then◌else◌, not, true, ℕ, ◌%◌, ◌&&◌, ◌*◌, ◌/◌, ◌==◌, ◌^◌, ◌∷◌, take,
  drop, length,
}
use libpressio.Dtype.{Dtype, dtype_size}
use libpressio.Data.Defs.{Data}
use libpressio.Data.Sizes.{data_size_in_elements}
use libpressio.Memory.Heap.{Outcome, returns, undefined, ◌>>=◌}
use libpressio.Chunking.Blocks.{as_int, loop, max_idx}
use libpressio.Chunking.Run.{chunk_data}

-- The reduction in `check_valid_dims`, of lists of one length.
unfoldable pub all_divide : List ℕ → List ℕ → Outcome Bool
all_divide [] chunk = returns true
all_divide (d ∷ ds) [] = undefined
all_divide (d ∷ ds) (c ∷ cs) = do
  rest ← all_divide ds cs
  if c == 0 then undefined else returns (d % c == 0 && rest)

unfoldable pub check_valid_dims : List ℕ → List ℕ → Outcome Bool
unfolding all_divide
check_valid_dims dims chunk_size =
    if length dims == length chunk_size then all_divide dims chunk_size else returns false

-- The loop of `check_contigous`, with its `mismatch`.
unfoldable pub contigous_from : Bool → List ℕ → List ℕ → Bool
contigous_from mismatch [] chunk = true
contigous_from mismatch (d ∷ ds) [] = true
contigous_from true (d ∷ ds) (c ∷ cs) =
    let rest = contigous_from true ds cs in if c == 1 then rest else false
contigous_from false (d ∷ ds) (c ∷ cs) = contigous_from (not (d == c)) ds cs

unfoldable pub check_contigous : List ℕ → List ℕ → Bool
unfolding contigous_from
check_contigous dims chunk_size = contigous_from false dims chunk_size

-- The reduction in `compute_num_chunks` keeps its product in an `int`.
unfoldable pub num_chunks_from : ℕ → List ℕ → List ℕ → Outcome ℕ
unfolding as_int max_idx
num_chunks_from n [] chunk = returns n
num_chunks_from n (d ∷ ds) [] = undefined
num_chunks_from n (d ∷ ds) (c ∷ cs) =
    let rest = num_chunks_from (as_int (n * max_idx d c)) ds cs in
    if c == 0 then undefined else rest

unfoldable pub compute_num_chunks : List ℕ → List ℕ → Outcome ℕ
unfolding num_chunks_from
compute_num_chunks dims [] = returns 1
compute_num_chunks dims (c ∷ cs) = num_chunks_from 1 dims (c ∷ cs)

-- The bytes of a chunk, which `accumulate` keeps in an `int`.
unfoldable pub chunk_stride : ℕ → List ℕ → ℕ
unfolding as_int
chunk_stride n [] = n
chunk_stride n (c ∷ cs) = chunk_stride (as_int (n * c)) cs

module _ {A : Type 0} where
  -- The buffer of a chunk: the elements that start at `ptr+(i*stride)`.
  unfoldable pub chunk_at : Dtype → List ℕ → List A → ℕ → Data A
  unfolding chunk_stride
  chunk_at t chunk_size memory i = record {
    dtype = t;
    dims = chunk_size;
    elements =
        take (data_size_in_elements chunk_size)
          (drop (i * chunk_stride (dtype_size t) chunk_size % 2 ^ 64 / dtype_size t) memory);
  }

  unfoldable pub chunks_of : Dtype → List ℕ → List A → ℕ → List (Data A)
  unfolding loop chunk_at
  chunks_of t chunk_size memory n = loop 0 n (λ i. chunk_at t chunk_size memory i ∷ [])

  module _ (nil : A) (alloc : ℕ → List A)
      (rest : List A → List A → List ℕ → List ℕ → Outcome (List A)) where
    -- The memory that the chunks are in, when there are several: the buffer's own, or that of
    -- `chunk_data`.
    unfoldable pub chunk_memory : Data A → List ℕ → Outcome (List A)
    unfolding check_contigous check_valid_dims chunk_data
    chunk_memory x chunk_size = do
      valid ←
          if check_contigous x.dims chunk_size
          then check_valid_dims x.dims chunk_size
          else returns false
      if valid then returns x.elements else chunk_data nil alloc rest x chunk_size

    -- The inputs of the compressor in `compress_impl`.
    unfoldable pub inputs : Data A → List ℕ → Outcome (List (Data A))
    unfolding compute_num_chunks chunk_memory chunks_of
    inputs x chunk_size = do
      n ← compute_num_chunks x.dims chunk_size
      memory ← if n == 1 then returns [] else chunk_memory x chunk_size
      returns (if n == 1 then x ∷ [] else chunks_of x.dtype chunk_size memory n)
