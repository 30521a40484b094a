-- ===== src/Tests/ChunkingTests.antt =====
-- The properties of chunks at concrete inputs.
use libpressio.Base.{List, [], arith, length, map, refl, suc, zero, ℕ, ◌*◌, ◌<◌, ◌^◌, ◌∷◌, ◌≡◌}
use libpressio.Dtype.{Dtype, dtype_size}
use libpressio.Data.Defs.{Data}
use libpressio.Memory.Heap.{Outcome, returns, runtime_error, undefined}
use libpressio.Chunking.Blocks.{max_idx}
use libpressio.Chunking.Generic.{chunk_data-throws}
use libpressio.Chunking.RoundTrip.{froms, restore_data-chunk_data}
use libpressio.Chunking.Run.{chunk_data, restore_data}
use libpressio.Chunking.Sizes.{padded_elements}
use libpressio.Chunking.Undo.{content}
use libpressio.Base.Int.{pos}
use libpressio.Base.{false, none}
use libpressio.Data.Sizes.{data_size_in_bytes, data_size_in_elements, size_loop}
use libpressio.Chunking.Blocks.{loop}
use libpressio.Chunking.Chunks.{IsChunkable, chunks}
use libpressio.Chunking.Compress.{Child, ChunkingPlugin, compress_impl, empty_bytes}
use libpressio.Chunking.Decompress.{decompress_impl}
use libpressio.Chunking.Format.{written}
use libpressio.Chunking.InPlace.{chunk_memory-chunk_data}
use libpressio.Chunking.Plugin.{chunk_memory}
use libpressio.Chunking.PluginTrip.{Undoes, chunked_round_trip, with_child}
use libpressio.Pipeline.Compress.{Bytes}

abbrev zeros : ℕ → List ℕ
zeros zero = []
zeros (suc n) = 0 ∷ zeros n

length-zeros : (n : ℕ) → length (zeros n) ≡ n
length-zeros zero = refl
length-zeros (suc n) = omega (arith, length-zeros n)

abbrev others : List ℕ → List ℕ → List ℕ → List ℕ → Outcome (List ℕ)
others xs memory dims block = undefined

-- Three columns and two rows, in blocks of two by two.
abbrev grid : Data ℕ
grid = record { dtype = Dtype.uint8; dims = 3 ∷ 2 ∷ []; elements = 1 ∷ 2 ∷ 3 ∷ 4 ∷ 5 ∷ 6 ∷ [] }

grid_blocks :
    chunk_data 0 zeros others grid (2 ∷ 2 ∷ []) ≡ returns (1 ∷ 2 ∷ 4 ∷ 5 ∷ 3 ∷ 0 ∷ 6 ∷ 0 ∷ [])
unfolding chunk_data dtype_size
grid_blocks = refl

grid_size : padded_elements (3 ∷ 2 ∷ []) (2 ∷ 2 ∷ []) * dtype_size Dtype.uint8 < 2 ^ 64
unfolding dtype_size max_idx
grid_size = omega arith

restore_data-chunk_data_example :
    (chunk_data 0 zeros others grid (2 ∷ 2 ∷ [])
      ≡ returns (map (content 0 grid.elements) (froms (3 ∷ 2 ∷ []) (2 ∷ 2 ∷ []))))
    × (restore_data 0 zeros others
          (record grid { elements = zeros 6 })
          (map (content 0 grid.elements) (froms (3 ∷ 2 ∷ []) (2 ∷ 2 ∷ [])))
          (2 ∷ 2 ∷ [])
        ≡ returns grid)
restore_data-chunk_data_example =
    restore_data-chunk_data 0 zeros length-zeros others grid (2 ∷ 2 ∷ []) (zeros 6) (omega arith)
      grid_size refl refl

abbrev hypercube : Data ℕ
hypercube = record { dtype = Dtype.uint8; dims = 1 ∷ 1 ∷ 1 ∷ 2 ∷ []; elements = 1 ∷ 2 ∷ [] }

chunk_data-throws_example :
    (chunk_data 0 zeros others hypercube (1 ∷ 1 ∷ 1 ∷ 1 ∷ []) ≡ runtime_error)
    × (restore_data 0 zeros others hypercube (1 ∷ 2 ∷ []) (1 ∷ 1 ∷ 1 ∷ 1 ∷ []) ≡ runtime_error)
chunk_data-throws_example =
    chunk_data-throws 0 zeros others hypercube (1 ∷ 2 ∷ []) (1 ∷ 1 ∷ 1 ∷ 1 ∷ []) (omega arith) refl
      (omega arith) (omega arith) (omega arith)

grid-IsChunkable : IsChunkable grid (2 ∷ 2 ∷ [])
unfolding dtype_size max_idx
grid-IsChunkable = record {
  blocks = omega arith;
  whole = refl;
  bytes_fit = omega arith;
  count_fits = omega arith;
  chunk_fits = omega arith;
  not_padded = λ h. absurd (omega (arith, h));
}

chunk_memory-chunk_data_example :
    chunk_memory 0 zeros others grid (2 ∷ 2 ∷ []) ≡ chunk_data 0 zeros others grid (2 ∷ 2 ∷ [])
chunk_memory-chunk_data_example =
    chunk_memory-chunk_data 0 zeros length-zeros others grid (2 ∷ 2 ∷ []) (omega arith) grid_size
      refl

-- A compressor of planes of two by two, which keeps the elements as bytes.
abbrev stored : Data ℕ → Bytes
stored x = record { dtype = Dtype.byte; dims = length x.elements ∷ []; elements = x.elements }

abbrev loaded : Bytes → Data ℕ
loaded x = record { dtype = Dtype.uint8; dims = 2 ∷ 2 ∷ []; elements = x.elements }

abbrev planes : Child Unit ℕ
planes = record {
  compress_many = λ cs outputs s. (s, map stored cs, pos 0);
  decompress_many = λ inputs outputs s. (s, map loaded inputs, pos 0);
  error_code = λ s. pos 0;
  error_msg = λ s. [];
}

abbrev chunked : ChunkingPlugin Unit Unit
chunked = record {
  name = [];
  error_code = pos 0;
  error_msg = [];
  metrics_plugin = none;
  metrics_id = [];
  metrics_errors_fatal = false;
  metrics_copy_impl_results = false;
  state = record { chunk_size = 2 ∷ 2 ∷ []; compressor = tt };
}

abbrev grid_outputs : List Bytes
grid_outputs =
    stored (record grid { elements = 1 ∷ 2 ∷ 4 ∷ 5 ∷ [] })
    ∷ stored (record grid { elements = 3 ∷ 0 ∷ 6 ∷ 0 ∷ [] })
    ∷ []

grid_undone :
    Undoes planes tt (chunks 0 zeros length-zeros others grid (2 ∷ 2 ∷ [])) tt grid_outputs
unfolding max_idx loop data_size_in_bytes data_size_in_elements size_loop dtype_size
grid_undone = (refl, refl, (refl, (refl, tt)), λ buffers h. (tt, refl))

chunked_round_trip_example :
    (self : ChunkingPlugin Unit Unit) × (compress_impl planes zeros 0 zeros others grid empty_bytes
        chunked
      ≡ returns (
        with_child planes zeros length-zeros 0 zeros length-zeros others chunked tt,
        written grid_outputs,
        pos 0,
      ))
    × (decompress_impl planes 0 zeros others
          (written grid_outputs)
          (record grid { elements = zeros 6 })
          (with_child planes zeros length-zeros 0 zeros length-zeros others chunked tt)
        ≡ returns (self, grid, pos 0))
chunked_round_trip_example =
    chunked_round_trip planes zeros length-zeros 0 zeros length-zeros others chunked grid (zeros 6)
      empty_bytes tt grid_outputs grid-IsChunkable refl refl grid_undone (omega arith)
