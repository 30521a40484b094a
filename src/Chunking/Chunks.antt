-- ===== src/Chunking/Chunks.antt =====
-- The chunks that class chunking_plugin gives its compressor, and the buffer that it joins from them.
use libpressio.Base.{
  Bool-cases, List, [], ap, arith, drop, false, get_elem?, if◌then◌else◌, inl, inr, length,
  length-map, map, product, refl, replicate, suc, sym, zero, ℕ, ◌%◌, ◌*◌, ◌/◌, ◌<◌, ◌==◌, ◌^◌, ◌∙◌,
  ◌∷◌, ◌≡◌,
}
use libpressio.Dtype.{Dtype, dtype_size}
use libpressio.Data.Defs.{Data}
use libpressio.Data.Sizes.{data_size_in_elements}
use libpressio.Memory.Heap.{Outcome, returns}
use libpressio.Chunking.Decompress.{join, output_chunk}
use libpressio.Chunking.Generic.{Positive}
use libpressio.Chunking.InPlace.{HasBlocks-length, chunk_memory-chunk_data, in_place}
use libpressio.Chunking.Plugin.{inputs}
use libpressio.Chunking.RoundTrip.{froms, length-froms, restore_data-chunk_data}
use libpressio.Chunking.Run.{at, block_size}
use libpressio.Chunking.Sizes.{HasBlocks, div_mul, dtype_size-pos, padded_elements, right_factor}
use libpressio.Chunking.Undo.{content}
use libpressio.Chunking.Views.{
  block_count, block_size_lem, chunk_elements, chunks_of_lem, compute_num_chunks_lem,
  join_outputs-all, pieces,
}
use libpressio.Pipeline.Header.{Shape}

HasBlocks-Positive : (dims block : List ℕ) → HasBlocks dims block → Positive dims
HasBlocks-Positive (d0 ∷ []) (b0 ∷ []) (p0, q0) = (p0, tt)
HasBlocks-Positive (d0 ∷ d1 ∷ []) (b0 ∷ b1 ∷ []) (p0, q0, p1, q1) = (p0, (p1, tt))
HasBlocks-Positive (d0 ∷ d1 ∷ d2 ∷ []) (b0 ∷ b1 ∷ b2 ∷ []) (p0, q0, p1, q1, p2, q2, r) =
    (p0, (p1, (p2, tt)))
HasBlocks-Positive _ _ h = absurd h

padded_count :
    (dims block : List ℕ)
    → HasBlocks dims block
    → padded_elements dims block ≡ block_count dims block * product block
padded_count (d0 ∷ []) (b0 ∷ []) h = omega arith
padded_count (d0 ∷ d1 ∷ []) (b0 ∷ b1 ∷ []) h = omega arith
padded_count (d0 ∷ d1 ∷ d2 ∷ []) (b0 ∷ b1 ∷ b2 ∷ []) h = omega arith
padded_count _ _ h = absurd h

some_block : (dims : List ℕ) → ¬ HasBlocks dims []
some_block [] h = h
some_block (d0 ∷ []) h = h
some_block (d0 ∷ d1 ∷ []) h = h
some_block (d0 ∷ d1 ∷ d2 ∷ []) h = h
some_block (d0 ∷ d1 ∷ d2 ∷ d3 ∷ ds) h = h

elements_of :
    (dims block : List ℕ)
    → HasBlocks dims block
    → product block < 2 ^ 64
    → data_size_in_elements block ≡ product block
elements_of dims [] h s = absurd (some_block dims h)
elements_of dims (b ∷ bs) h s = chunk_elements b bs (HasBlocks-length dims (b ∷ bs) h).1 s

-- What the plugin is given, and the sizes that its arithmetic allows.
pub record IsChunkable {A : Type 0} (x : Data A) (block : List ℕ) : Type 0 where
  pub blocks : HasBlocks x.dims block
  pub whole : length x.elements ≡ product x.dims
  pub bytes_fit : padded_elements x.dims block * dtype_size x.dtype < 2 ^ 64
  pub count_fits : block_count x.dims block < 2 ^ 31
  pub chunk_fits : dtype_size x.dtype * product block < 2 ^ 31
  pub not_padded : block_count x.dims block ≡ 1 → block ≡ x.dims

block_small :
    {A : Type 0} (x : Data A) (block : List ℕ) → IsChunkable x block → product block < 2 ^ 64
block_small x block c = omega (
  arith,
  right_factor (dtype_size x.dtype) (product block) (2 ^ 31) (dtype_size-pos x.dtype) c.chunk_fits,
)

in_word : (n : ℕ) → n < 2 ^ 64 → n % 2 ^ 64 ≡ n
in_word n h = omega (arith, h)

-- The stride of the chunks, in bytes.
chunk_length :
    {A : Type 0} (x : Data A) (block : List ℕ)
    → IsChunkable x block
    → block_size (dtype_size x.dtype) block ≡ product block * dtype_size x.dtype
chunk_length x block c =
    let s = dtype_size x.dtype in
    let exact : block_size s block ≡ s * product block =
      block_size_lem s block (HasBlocks-length x.dims block c.blocks).1
        (omega (arith, c.chunk_fits)) in
    let swapped : s * product block ≡ product block * s = omega arith in exact ∙ swapped

abbrev pub shape : {A : Type 0} → Data A → Shape
shape x = (x.dtype, x.dims)

module _ {A : Type 0} where
  shapes-pieces :
      (t : Dtype) (cs : List ℕ) (k n : ℕ) (mem : List A)
      → map shape (pieces t cs k n mem) ≡ replicate n (t, cs)
  shapes-pieces t cs k zero mem = refl
  shapes-pieces t cs k (suc n) mem = ap (λ r. (t, cs) ∷ r) (shapes-pieces t cs k n (drop k mem))

  length-pieces :
      (t : Dtype) (cs : List ℕ) (k n : ℕ) (mem : List A) → length (pieces t cs k n mem) ≡ n
  length-pieces t cs k zero mem = refl
  length-pieces t cs k (suc n) mem = ap suc (length-pieces t cs k n (drop k mem))

shapes-replicate :
    {A : Type 0} (n : ℕ) (x : Data A) → map shape (replicate n x) ≡ replicate n (shape x)
shapes-replicate zero x = refl
shapes-replicate (suc n) x = ap (λ r. shape x ∷ r) (shapes-replicate n x)

module _ {A : Type 0} (nil : A) (alloc : ℕ → List A) (alloc_length : (n : ℕ) → length (alloc n) ≡ n)
    (rest : List A → List A → List ℕ → List ℕ → Outcome (List A)) where
  -- The memory of the blocks.
  abbrev padded : Data A → List ℕ → List A
  padded x block = map (content nil x.elements) (froms x.dims block)

  -- The chunks that the compressor is given.
  abbrev pub chunks : Data A → List ℕ → List (Data A)
  chunks x block =
      if block_count x.dims block == 1
      then x ∷ []
      else pieces x.dtype block (product block) (block_count x.dims block) (padded x block)

  pub inputs_lem :
      (x : Data A) (block : List ℕ)
      → IsChunkable x block
      → inputs nil alloc rest x block ≡ returns (chunks x block)
  unfolding inputs
  inputs_lem x block c =
      let (l, p) = HasBlocks-length x.dims block c.blocks in
      let n = block_count x.dims block in
      let count =
        compute_num_chunks_lem x.dims block l (HasBlocks-Positive x.dims block c.blocks) p
          c.count_fits in
      let total : n * product block * dtype_size x.dtype < 2 ^ 64 =
        rw (padded_count x.dims block c.blocks) at c.bytes_fit in
      let size = elements_of x.dims block c.blocks (block_small x block c) in
      let copied =
        chunk_memory-chunk_data nil alloc alloc_length rest x block c.blocks c.bytes_fit c.whole
        ∙ (restore_data-chunk_data nil alloc alloc_length rest x block x.elements c.blocks
            c.bytes_fit c.whole refl).0 in
      elim (Bool-cases (n == 1)) [
        | inl t ↦ rw (count, t) refl
        | inr t ↦
            rw (count, t, copied)
              (ap returns
                (chunks_of_lem x.dtype block (padded x block) n p size c.chunk_fits total))
      ]

  length-padded :
      (x : Data A) (block : List ℕ)
      → HasBlocks x.dims block
      → length (padded x block) ≡ block_count x.dims block * product block
  length-padded x block h =
      length-map (content nil x.elements) (froms x.dims block)
      ∙ length-froms x.dims block h
      ∙ padded_count x.dims block h

  pub shapes-chunks :
      (x : Data A) (block : List ℕ)
      → IsChunkable x block
      → map shape (chunks x block) ≡ replicate (block_count x.dims block) (x.dtype, block)
  shapes-chunks x block c =
      let n = block_count x.dims block in
      elim (Bool-cases (n == 1)) [
        | inl t ↦ let one : n ≡ 1 = ground (arith, t) in rw (t, one, c.not_padded one) refl
        | inr t ↦ rw t (shapes-pieces x.dtype block (product block) n (padded x block))
      ]

  pub length-chunks :
      (x : Data A) (block : List ℕ) → length (chunks x block) ≡ block_count x.dims block
  length-chunks x block =
      let n = block_count x.dims block in
      elim (Bool-cases (n == 1)) [
        | inl t ↦ let one : n ≡ 1 = ground (arith, t) in rw (t, one) refl
        | inr t ↦ rw t (length-pieces x.dtype block (product block) n (padded x block))
      ]

  -- Several chunks are joined into the buffer.
  join-pieces :
      (x : Data A) (block : List ℕ) (ys : List A)
      → IsChunkable x block
      → length ys ≡ length x.elements
      → join nil alloc rest block
          (block_count x.dims block)
          (pieces x.dtype block (product block) (block_count x.dims block) (padded x block))
          (record x { elements = ys })
        ≡ returns x
  unfolding join
  join-pieces x block ys c l =
      let (t, e, same) = in_place nil alloc alloc_length rest x block c.blocks c.whole in
      let (size, p) = HasBlocks-length x.dims block c.blocks in
      let n = block_count x.dims block in
      let k = product block in
      let s = dtype_size x.dtype in
      let stride : block_size s block ≡ k * s = chunk_length x block c in
      let total : n * k * s < 2 ^ 64 = rw (padded_count x.dims block c.blocks) at c.bytes_fit in
      let regroup : n * (k * s) ≡ n * k * s = omega arith in
      let allocated : n * (k * s) % 2 ^ 64 / s ≡ n * k =
        rw (regroup, in_word (n * k * s) total) (div_mul (n * k) s (dtype_size-pos x.dtype)) in
      let long = length-padded x block c.blocks in
      let combined =
        join_outputs-all x.dtype block s k n (padded x block) (alloc (n * k))
          (dtype_size-pos x.dtype) long (alloc_length (n * k)) total in
      let restored =
        (restore_data-chunk_data nil alloc alloc_length rest x block ys c.blocks c.bytes_fit c.whole
          l).1 in
      elim (Bool-cases t) [
        | inl v ↦
            let filled =
              join_outputs-all x.dtype block s k n (padded x block) ys (dtype_size-pos x.dtype) long
                (l ∙ sym (ap length (same v)) ∙ long) total in
            rw (stride, e, v, filled, same v) refl
        | inr v ↦ rw (stride, e, v, allocated, combined, restored) refl
      ]

  pub outputs_shape :
      (x : Data A) (ys : List A) (block : List ℕ) (n : ℕ)
      → HasBlocks x.dims block
      → map shape (replicate n (output_chunk nil alloc block (record x { elements = ys })))
        ≡ replicate n (x.dtype, block)
  unfolding output_chunk
  outputs_shape x ys [] n h = absurd (some_block x.dims h)
  outputs_shape x ys (b ∷ bs) n h =
      let test : (suc (length bs) == 0) ≡ false = ground arith in
      rw test (
        shapes-replicate n (record {
          dtype = x.dtype;
          dims = b ∷ bs;
          elements = alloc (data_size_in_elements (b ∷ bs));
        }))

  pub joined_lem :
      (x : Data A) (block : List ℕ) (ys : List A)
      → IsChunkable x block
      → length ys ≡ length x.elements
      → (if block_count x.dims block == 1
          then at (get_elem? (chunks x block) 0)
          else join nil alloc rest block
              (block_count x.dims block)
              (chunks x block)
              (record x { elements = ys }))
        ≡ returns x
  joined_lem x block ys c l = elim (Bool-cases (block_count x.dims block == 1)) [
    | inl t ↦ rw t refl
    | inr t ↦ rw t (join-pieces x block ys c l)
  ]
