-- ===== src/Chunking/Decompress.antt =====
-- `decompress_impl` of class chunking_plugin (src/plugins/compressors/chunking.cc), with the buffers
-- as in Compress.antt.
use libpressio.Base.{
  List, [], drop, false, get_elem?, if◌then◌else◌, length, replicate, suc, take, zero, leb, ℕ, ◌%◌,
  ◌*◌, ◌+◌, ◌/◌, ◌==◌, ◌^◌, ◌∷◌,
}
use libpressio.Base.Int.{ℤ}
use libpressio.Dtype.{Dtype, dtype_size}
use libpressio.Data.Defs.{Data}
use libpressio.Data.Sizes.{data_size_in_elements}
use libpressio.Compressor.Base.{nonzero, set_error}
use libpressio.Memory.Heap.{Outcome, returns, undefined, ◌>>=◌}
use libpressio.Chunking.Compress.{Child, ChunkingPlugin}
use libpressio.Chunking.Plugin.{check_contigous, check_valid_dims}
use libpressio.Chunking.Run.{at, block_size, restore_data}
use libpressio.Pipeline.Compress.{Bytes}
use libpressio.Pipeline.Header.{read_words}
use libpressio.Pipeline.Store.{read_word}

-- The buffers of the sizes in the header, one after another.
unfoldable pub buffers_at : ℕ → List ℕ → List ℕ → List Bytes
buffers_at accum_size [] mem = []
buffers_at accum_size (s ∷ ss) mem =
    record { dtype = Dtype.byte; dims = s ∷ []; elements = take s (drop accum_size mem) }
    ∷ buffers_at ((accum_size + s) % 2 ^ 64) ss mem

module _ {A : Type 0} where
  -- `memcpy` to an index of a buffer of elements.
  unfoldable pub put : ℕ → List A → List A → Outcome (List A)
  put zero [] mem = returns mem
  put zero (x ∷ xs) [] = undefined
  put zero (x ∷ xs) (y ∷ mem) = do mem ← put zero xs mem; returns (x ∷ mem)
  put (suc i) xs [] = undefined
  put (suc i) xs (y ∷ mem) = do mem ← put i xs mem; returns (y ∷ mem)

  -- `memcpy` from the start of a buffer.
  unfoldable pub get_front : ℕ → List A → Outcome (List A)
  get_front n xs = if leb n (length xs) then returns (take n xs) else undefined

  -- The loops that join the outputs, of elements of `size` bytes.
  unfoldable pub join_outputs : ℕ → ℕ → ℕ → List (Data A) → List A → Outcome (List A)
  unfolding get_front put
  join_outputs size accum_size_out stride_in_bytes [] mem = returns mem
  join_outputs size accum_size_out stride_in_bytes (o ∷ os) mem = do
    chunk ← get_front (stride_in_bytes / size) o.elements
    mem ← put (accum_size_out / size) chunk mem
    join_outputs size ((accum_size_out + stride_in_bytes) % 2 ^ 64) stride_in_bytes os mem

  module _ (nil : A) (alloc : ℕ → List A) where
    -- `owning` of the type of the output, with the dimensions of a chunk.
    unfoldable pub output_chunk : List ℕ → Data A → Data A
    output_chunk chunk_size output =
        let dims = if length chunk_size == 0 then output.dims else chunk_size in
        record { dtype = output.dtype; dims = dims; elements = alloc (data_size_in_elements dims) }

    -- The buffers are joined into the output.
    unfoldable pub join :
        (List A → List A → List ℕ → List ℕ → Outcome (List A))
        → List ℕ
        → ℕ
        → List (Data A)
        → Data A
        → Outcome (Data A)
    unfolding block_size check_contigous check_valid_dims join_outputs restore_data
    join rest chunk_size n outputs output = do
      let size = dtype_size output.dtype
      let stride_in_bytes = block_size size chunk_size
      valid ←
          if check_contigous output.dims chunk_size
          then check_valid_dims output.dims chunk_size
          else returns false
      if valid
          then (do
            elements ← join_outputs size 0 stride_in_bytes outputs output.elements
            returns (record output { elements = elements }))
          else (do
            combined ←
                join_outputs size 0 stride_in_bytes outputs
                  (alloc (n * stride_in_bytes % 2 ^ 64 / size))
            restore_data nil alloc rest output combined chunk_size)

module _ {M S A : Type 0} (C : Child S A) (nil : A) (alloc : ℕ → List A)
    (rest : List A → List A → List ℕ → List ℕ → Outcome (List A)) where
  -- After the code of `decompress_many`.
  unfoldable pub decompress_error : ℤ → S → ChunkingPlugin M S → ChunkingPlugin M S
  unfolding set_error
  decompress_error rc s self =
      let self' = record self { state = record self.state { compressor = s } } in
      if nonzero rc then (set_error rc (C.error_msg s) self').0 else self'

  unfoldable pub decompress_impl :
      Bytes → Data A → ChunkingPlugin M S → Outcome (ChunkingPlugin M S × Data A × ℤ)
  unfolding read_word read_words buffers_at output_chunk join decompress_error
  decompress_impl input output self = do
    n ← at (read_word 0 input.elements)
    (i, sizes) ← at (read_words 1 n input.elements)
    let chunk_size = self.state.chunk_size
    let inputs = buffers_at (8 * (n + 1) % 2 ^ 64) sizes input.elements
    let outputs = replicate n (output_chunk nil alloc chunk_size output)
    let ran = C.decompress_many inputs outputs self.state.compressor
    joined ←
        if n == 1 then at (get_elem? ran.1 0) else join nil alloc rest chunk_size n ran.1 output
    returns (decompress_error ran.2 ran.0 self, joined, ran.2)
