-- ===== src/Chunking/PluginTrip.antt =====
-- What class chunking_plugin decompresses is what it compressed.
use libpressio.Base.{
  All, List, ap, get_elem?, if◌then◌else◌, length, map, refl, replicate, some, suc, sym, ℕ, ◌%◌,
  ◌*◌, ◌+◌, ◌<◌, ◌==◌, ◌^◌, ◌∙◌, ◌≡◌,
}
use libpressio.Base.Int.{pos}
use libpressio.Data.Defs.{Data}
use libpressio.Memory.Heap.{Outcome, returns}
use libpressio.Chunking.Compress.{
  Child, ChunkingPlugin, assemble, child_error, compress_impl, empty_bytes,
}
use libpressio.Chunking.Decompress.{
  buffers_at, decompress_impl, decompress_error, join, output_chunk,
}
use libpressio.Chunking.Format.{as_bytes, assemble_lem, joined, read-written, written}
use libpressio.Chunking.Plugin.{inputs}
use libpressio.Chunking.Run.{at}
use libpressio.Chunking.Views.{block_count}
use libpressio.Pipeline.Compress.{Bytes, size_in_bytes}
use libpressio.Pipeline.Header.{read_words}
use libpressio.Pipeline.Store.{read_word}
use libpressio.Pipeline.Output.{IsFull}
use libpressio.Chunking.Chunks.{
  IsChunkable, chunks, inputs_lem, joined_lem, length-chunks, outputs_shape, shape, shapes-chunks,
}

-- What is asked of the compressor: for the chunks it gives, without an error, as many full buffers,
-- and from their bytes it makes the chunks again, in any buffers of their types and dimensions.
abbrev pub Undoes : {S A : Type 0} → Child S A → S → List (Data A) → S → List Bytes → Type 0
Undoes {S} {A} C s cs s' os =
    (C.compress_many cs (map (λ c. empty_bytes) cs) s ≡ (s', os, pos 0))
    × (length os ≡ length cs)
    × All IsFull os
    × ((buffers : List (Data A))
        → map shape buffers ≡ map shape cs
        → (s'' : S) × (C.decompress_many (map as_bytes os) buffers s' ≡ (s'', cs, pos 0)))

module _ {M S A : Type 0} (C : Child S A) (bytes_alloc : ℕ → List ℕ)
    (bytes_alloc_length : (n : ℕ) → length (bytes_alloc n) ≡ n) (nil : A) (alloc : ℕ → List A)
    (alloc_length : (n : ℕ) → length (alloc n) ≡ n)
    (rest : List A → List A → List ℕ → List ℕ → Outcome (List A)) where
  -- The plugin with the compressor as it is after a call without an error.
  abbrev pub with_child : ChunkingPlugin M S → S → ChunkingPlugin M S
  with_child self s = record self { state = record self.state { compressor = s } }

  compress_step :
      (self : ChunkingPlugin M S) (x : Data A) (output : Bytes) (cs : List (Data A)) (s' : S)
      (os : List Bytes)
      → inputs nil alloc rest x self.state.chunk_size ≡ returns cs
      → C.compress_many cs (map (λ c. empty_bytes) cs) self.state.compressor ≡ (s', os, pos 0)
      → assemble bytes_alloc os output ≡ returns (written os)
      → compress_impl C bytes_alloc nil alloc rest x output self
        ≡ returns (with_child self s', written os, pos 0)
  unfolding compress_impl child_error
  compress_step self x output cs s' os e f g = rw (e, f, g) refl

  decompress_step :
      (self : ChunkingPlugin M S) (input : Bytes) (output result : Data A) (n i : ℕ)
      (sizes : List ℕ) (s : S) (cs : List (Data A))
      → read_word 0 input.elements ≡ some n
      → read_words 1 n input.elements ≡ some (i, sizes)
      → C.decompress_many
          (buffers_at (8 * (n + 1) % 2 ^ 64) sizes input.elements)
          (replicate n (output_chunk nil alloc self.state.chunk_size output))
          self.state.compressor
        ≡ (s, cs, pos 0)
      → (if n == 1
          then at (get_elem? cs 0)
          else join nil alloc rest self.state.chunk_size n cs output)
        ≡ returns result
      → decompress_impl C nil alloc rest input output self
        ≡ returns (with_child self s, result, pos 0)
  unfolding decompress_impl decompress_error
  decompress_step self input output result n i sizes s cs e f g h = rw (e, f, g, h) refl

  -- If the plugin's compressor undoes what it makes of the chunks of a buffer, the buffer is compressed
  -- without an error into an output without data, and decompressing what that gives, with the plugin
  -- as it then is and into any buffer of the type, dimensions and length of the first, gives the buffer
  -- back without an error. The buffer has one to three dimensions and is as long as they say, no
  -- dimension and no chunk is 0, and the arithmetic on sizes does not wrap around: the number of
  -- chunks, the bytes of a chunk and, of three dimensions, the product of the first two are below 2^31,
  -- and the chunks and the output take fewer than 2^64 bytes. If there is a single chunk, it has the
  -- dimensions of the buffer.
  pub chunked_round_trip :
      (self : ChunkingPlugin M S) (x : Data A) (ys : List A) (output : Bytes) (s' : S)
      (os : List Bytes)
      → IsChunkable x self.state.chunk_size
      → length ys ≡ length x.elements
      → length output.elements ≡ 0
      → Undoes C self.state.compressor
          (chunks nil alloc alloc_length rest x self.state.chunk_size)
          s'
          os
      → 8 * (length os + 1) + length (joined os) < 2 ^ 64
      → (self'' : ChunkingPlugin M S) × (compress_impl C bytes_alloc nil alloc rest x output self
          ≡ returns (with_child self s', written os, pos 0))
        × (decompress_impl C nil alloc rest
              (written os)
              (record x { elements = ys })
              (with_child self s')
            ≡ returns (self'', x, pos 0))
  chunked_round_trip self x ys output s' os c l z (e, m, full, undone) h =
      let block = self.state.chunk_size in
      let cs = chunks nil alloc alloc_length rest x block in
      let n = block_count x.dims block in
      let number : length os ≡ n = m ∙ length-chunks nil alloc alloc_length rest x block in
      let outs =
        replicate (length os) (output_chunk nil alloc block (record x { elements = ys })) in
      let (s'', f) = undone outs (
        outputs_shape nil alloc alloc_length rest x ys block (length os) c.blocks
        ∙ ap (λ k. replicate k (x.dtype, block)) number
        ∙ sym (shapes-chunks nil alloc alloc_length rest x block c)) in
      let (r0, r1, r2) = read-written os full h in
      let given = inputs_lem nil alloc alloc_length rest x block c in
      (
        with_child (with_child self s') s'',
        compress_step self x output cs s' os given e
            (assemble_lem bytes_alloc bytes_alloc_length os output full z h),
        decompress_step (with_child self s') (written os) (record x { elements = ys }) x (length os)
            (suc (length os)) (map size_in_bytes os) s'' cs r0 r1
            (ap (λ bs. C.decompress_many bs outs s') r2 ∙ f)
            (rw number (joined_lem nil alloc alloc_length rest x block ys c l)),
      )
