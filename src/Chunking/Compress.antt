-- ===== src/Chunking/Compress.antt =====
-- `compress_impl` of class chunking_plugin (src/plugins/compressors/chunking.cc). Data is a list of
-- elements; what the compressor gives for it is a list of bytes. The output, if it has data, is taken
-- to be in memory that the malloc domain can access; memory from malloc holds what `alloc` and
-- `bytes_alloc` say. The time measurements are left out.
use libpressio.Base.{List, Text, [], if◌then◌else◌, length, map, ℕ, ◌%◌, ◌*◌, ◌+◌, ◌==◌, ◌^◌, ◌∷◌}
use libpressio.Base.Int.{ℤ}
use libpressio.Dtype.{Dtype}
use libpressio.Data.Defs.{Data}
use libpressio.Compressor.Base.{Plugin, nonzero, set_error}
use libpressio.Memory.Heap.{Outcome, returns, ◌>>=◌}
use libpressio.Chunking.Plugin.{inputs}
use libpressio.Chunking.Run.{at}
use libpressio.Pipeline.Compress.{Bytes, positive, read_bytes, size_in_bytes}
use libpressio.Pipeline.Header.{write_words}
use libpressio.Pipeline.Store.{write}

-- The compressor that the plugin points at.
pub record Child (S A : Type 0) : Type 0 where
  pub compress_many : List (Data A) → List Bytes → S → S × List Bytes × ℤ
  pub decompress_many : List Bytes → List (Data A) → S → S × List (Data A) × ℤ
  pub error_code : S → ℤ
  pub error_msg : S → Text

-- The members of the plugin.
pub record Chunked (S : Type 0) : Type 0 where
  pub chunk_size : List ℕ
  pub compressor : S

-- `pressio_data::empty` of bytes, which has no dimension.
abbrev pub empty_bytes : Bytes
empty_bytes = record { dtype = Dtype.byte; dims = []; elements = [] }

-- `total_compsize`
unfoldable pub total_compsize : ℕ → List Bytes → ℕ
total_compsize acc [] = acc
total_compsize acc (o ∷ os) = total_compsize ((acc + size_in_bytes o) % 2 ^ 64) os

-- The copies of the outputs behind the header.
unfoldable pub write_outputs : ℕ → List Bytes → List ℕ → Outcome (List ℕ)
unfolding read_bytes write
write_outputs accum_size [] mem = returns mem
write_outputs accum_size (o ∷ os) mem = do
  bytes ← at (read_bytes o)
  mem ← at (write accum_size bytes mem)
  write_outputs ((accum_size + size_in_bytes o) % 2 ^ 64) os mem

module _ (bytes_alloc : ℕ → List ℕ) where
  -- The buffer that is written to: the output's own if it has data.
  unfoldable pub output_buffer : Bytes → ℕ → Bytes
  output_buffer real_output size =
      if length real_output.elements == 0
      then record { dtype = Dtype.byte; dims = size ∷ []; elements = bytes_alloc size }
      else real_output

  -- From the metadata on.
  unfoldable pub assemble : List Bytes → Bytes → Outcome Bytes
  unfolding total_compsize output_buffer write_words write_outputs
  assemble outputs real_output = do
    let header_size = 8 * (length outputs + 1) % 2 ^ 64
    let output = output_buffer real_output ((header_size + total_compsize 0 outputs) % 2 ^ 64)
    (i, mem) ← at (write_words 0 (length outputs ∷ map size_in_bytes outputs) output.elements)
    mem ← write_outputs header_size outputs mem
    returns (record output { elements = mem })

abbrev pub ChunkingPlugin : Type 0 → Type 0 → Type 0
ChunkingPlugin M S = Plugin M (Chunked S)

module _ {M S A : Type 0} (C : Child S A) where
  -- The errors of the compressor.
  unfoldable pub child_error : ℤ → S → ChunkingPlugin M S → ChunkingPlugin M S
  unfolding set_error
  child_error rc s self =
      let self' = record self { state = record self.state { compressor = s } } in
      (if nonzero rc then (set_error (C.error_code s) (C.error_msg s) self').0 else self')

  module _ (bytes_alloc : ℕ → List ℕ) (nil : A) (alloc : ℕ → List A)
      (rest : List A → List A → List ℕ → List ℕ → Outcome (List A)) where
    unfoldable pub compress_impl :
        Data A → Bytes → ChunkingPlugin M S → Outcome (ChunkingPlugin M S × Bytes × ℤ)
    unfolding inputs assemble child_error
    compress_impl real_input real_output self = do
      chunks ← inputs nil alloc rest real_input self.state.chunk_size
      let ran = C.compress_many chunks (map (λ c. empty_bytes) chunks) self.state.compressor
      let self' = child_error ran.2 ran.0 self
      assembled ←
          if positive ran.2 then returns real_output else assemble bytes_alloc ran.1 real_output
      returns (self', assembled, ran.2)
