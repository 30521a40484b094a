-- ===== src/Chunking/RoundTrip.antt =====
-- `restore_data` undoes `chunk_data`.
use libpressio.Base.{
  All, List, Option, [], ap, arith, inl, length, map, product, refl, some, sym, ℕ, ◌*◌, ◌/◌, ◌<◌,
  ◌^◌, ◌∙◌, ◌∷◌, ◌≡◌,
}
use libpressio.Dtype.{Dtype, dtype_size}
use libpressio.Chunking.Sizes.{
  HasBlocks, padded_elements, sizes_1d, sizes_2d, sizes_3d, div_mul, dtype_size-pos,
}
use libpressio.Data.Defs.{Data}
use libpressio.Memory.Heap.{Outcome, returns}
use libpressio.Chunking.Blocks.{Copy, max_idx, numbered, copies_1d, copies_2d, copies_3d}
use libpressio.Chunking.Copies.{froms_1d, froms_2d, froms_3d, copies_1d-numbered}
use libpressio.Chunking.Inside.{
  InRange, froms_1d-InRange, froms_2d-InRange, froms_3d-InRange, In-froms_1d, In-froms_2d,
  In-froms_3d,
}
use libpressio.Chunking.Loops.{In, length-loop}
use libpressio.Chunking.Plane.{copies_2d-numbered, length-block_2d}
use libpressio.Chunking.Run.{chunk_data, restore_data, run_to, run_from, dispatch}
use libpressio.Chunking.Undo.{content, run_to-numbered, run_from-numbered, same_elements}
use libpressio.Chunking.Volume.{copies_3d-numbered, length-block_3d}

-- The index in the buffer of each element of the blocks, `none` for padding: block after block, the
-- first dimension fastest, and in a block in the same order.
abbrev pub froms : List ℕ → List ℕ → List (Option ℕ)
froms (d0 ∷ []) (b0 ∷ []) = froms_1d d0 b0
froms (d0 ∷ d1 ∷ []) (b0 ∷ b1 ∷ []) = froms_2d d0 d1 b0 b1
froms (d0 ∷ d1 ∷ d2 ∷ []) (b0 ∷ b1 ∷ b2 ∷ []) = froms_3d d0 d1 d2 b0 b1 b2
froms _ _ = []

length-froms_1d : (d0 b0 : ℕ) → length (froms_1d d0 b0) ≡ max_idx d0 b0 * b0
length-froms_1d d0 b0 =
    length-loop 0 (max_idx d0 b0) (b0 * 1) _ (λ i. length-loop 0 b0 1 _ (λ e. refl)) ∙ omega arith

length-froms_2d :
    (d0 d1 b0 b1 : ℕ) → length (froms_2d d0 d1 b0 b1) ≡ max_idx d0 b0 * max_idx d1 b1 * (b0 * b1)
length-froms_2d d0 d1 b0 b1 =
    length-loop 0 (max_idx d1 b1) (max_idx d0 b0 * (b1 * (b0 * 1))) _
      (λ j. length-loop 0 (max_idx d0 b0) (b1 * (b0 * 1)) _ (λ i. length-block_2d d0 d1 b0 b1 i j))
    ∙ omega arith

length-froms_3d :
    (d0 d1 d2 b0 b1 b2 : ℕ)
    → length (froms_3d d0 d1 d2 b0 b1 b2)
      ≡ max_idx d0 b0 * max_idx d1 b1 * max_idx d2 b2 * (b0 * b1 * b2)
length-froms_3d d0 d1 d2 b0 b1 b2 =
    let l = b2 * (b1 * (b0 * 1)) in
    length-loop 0 (max_idx d2 b2) (max_idx d1 b1 * (max_idx d0 b0 * l)) _ (λ k.
      length-loop 0 (max_idx d1 b1) (max_idx d0 b0 * l) _
        (λ j. length-loop 0 (max_idx d0 b0) l _ (λ i. length-block_3d d0 d1 d2 b0 b1 b2 i j k)))
    ∙ omega arith

pub length-froms :
    (dims block : List ℕ)
    → HasBlocks dims block
    → length (froms dims block) ≡ padded_elements dims block
length-froms (d0 ∷ []) (b0 ∷ []) h = length-froms_1d d0 b0 ∙ omega arith
length-froms (d0 ∷ d1 ∷ []) (b0 ∷ b1 ∷ []) h = length-froms_2d d0 d1 b0 b1 ∙ omega arith
length-froms (d0 ∷ d1 ∷ d2 ∷ []) (b0 ∷ b1 ∷ b2 ∷ []) h =
    length-froms_3d d0 d1 d2 b0 b1 b2 ∙ omega arith
length-froms _ _ h = absurd h

module _ {A : Type 0} (nil : A) where
  -- Numbered copies that reach every element fill the memory, and bring the elements back.
  undone :
      (cs : List Copy) (fs : List (Option ℕ)) (xs ys memory : List A)
      → cs ≡ numbered 0 fs
      → All (InRange (length xs)) fs
      → ((o : ℕ) → o < length xs → In (some o) fs)
      → length memory ≡ length fs
      → length ys ≡ length xs
      → (run_to nil cs xs memory ≡ returns (map (content nil xs) fs))
        × (run_from cs (map (content nil xs) fs) ys ≡ returns xs)
  undone cs fs xs ys memory e inside covers m l =
      let (ys', r, l', same) = run_from-numbered nil fs xs [] ys inside l in
      (
        rw e (run_to-numbered nil fs xs [] memory inside m),
        rw e (r ∙ ap returns (same_elements xs ys' (l' ∙ l) (λ o h. same o (inl (covers o h))))),
      )

  module _ (alloc : ℕ → List A) (alloc_length : (n : ℕ) → length (alloc n) ≡ n)
      (rest : List A → List A → List ℕ → List ℕ → Outcome (List A)) where
    -- What is shown of each number of dimensions.
    abbrev RoundTrip : Dtype → List ℕ → List ℕ → List A → List A → Type 0
    RoundTrip t dims block xs ys =
        (chunk_data nil alloc rest (record { dtype = t; dims = dims; elements = xs }) block
          ≡ returns (map (content nil xs) (froms dims block)))
        × (restore_data nil alloc rest (record { dtype = t; dims = dims; elements = ys })
              (map (content nil xs) (froms dims block)) block
            ≡ returns (record { dtype = t; dims = dims; elements = xs }))

    memory_length : (n w : ℕ) → 0 < w → length (alloc (n * w / w)) ≡ n
    memory_length n w h = alloc_length (n * w / w) ∙ div_mul n w h

    round_trip :
        (t : Dtype) (dims block : List ℕ) (xs ys : List A)
        → HasBlocks dims block
        → padded_elements dims block * dtype_size t < 2 ^ 64
        → length xs ≡ product dims
        → length ys ≡ length xs
        → RoundTrip t dims block xs ys
    unfolding chunk_data restore_data dispatch
    round_trip t (d0 ∷ []) (b0 ∷ []) xs ys (p0, q0) h l l' =
        let (size, f0, small) = sizes_1d t d0 b0 p0 q0 h in
        let n = max_idx d0 b0 * b0 in
        let whole : length xs ≡ d0 = omega (arith, l) in
        let memory = alloc (n * dtype_size t / dtype_size t) in
        let (to, from) =
          undone (copies_1d d0 b0) (froms_1d d0 b0) xs ys memory (copies_1d-numbered d0 b0 f0 small)
            (rw whole (froms_1d-InRange d0 b0))
            (λ o k. In-froms_1d o d0 b0 q0 (omega (arith, k, whole)))
            (memory_length n (dtype_size t) (dtype_size-pos t) ∙ sym (length-froms_1d d0 b0)) l' in
        (rw size to, rw from refl)
    round_trip t (d0 ∷ d1 ∷ []) (b0 ∷ b1 ∷ []) xs ys (p0, q0, p1, q1) h l l' =
        let (size, f0, f1, small, blocks) = sizes_2d t d0 d1 b0 b1 p0 q0 p1 q1 h in
        let n = max_idx d0 b0 * max_idx d1 b1 * (b0 * b1) in
        let whole : length xs ≡ d0 * d1 = omega (arith, l) in
        let memory = alloc (n * dtype_size t / dtype_size t) in
        let (to, from) =
          undone (copies_2d d0 d1 b0 b1) (froms_2d d0 d1 b0 b1) xs ys memory
            (copies_2d-numbered d0 d1 b0 b1 f0 f1 small blocks)
            (rw whole (froms_2d-InRange d0 d1 b0 b1))
            (λ o k. In-froms_2d o d0 d1 b0 b1 q0 q1 (omega (arith, k, whole)))
            (memory_length n (dtype_size t) (dtype_size-pos t) ∙ sym (length-froms_2d d0 d1 b0 b1))
            l' in
        (rw size to, rw from refl)
    round_trip t (d0 ∷ d1 ∷ d2 ∷ []) (b0 ∷ b1 ∷ b2 ∷ []) xs ys (p0, q0, p1, q1, p2, q2, r) h l l' =
        let (size, f0, f1, f2, small, blocks) = sizes_3d t d0 d1 d2 b0 b1 b2 p0 q0 p1 q1 p2 q2 h in
        let n = max_idx d0 b0 * max_idx d1 b1 * max_idx d2 b2 * (b0 * b1 * b2) in
        let whole : length xs ≡ d0 * d1 * d2 = omega (arith, l) in
        let memory = alloc (n * dtype_size t / dtype_size t) in
        let (to, from) =
          undone (copies_3d d0 d1 d2 b0 b1 b2) (froms_3d d0 d1 d2 b0 b1 b2) xs ys memory
            (copies_3d-numbered d0 d1 d2 b0 b1 b2 f0 f1 f2 small p1 r blocks)
            (rw whole (froms_3d-InRange d0 d1 d2 b0 b1 b2))
            (λ o k. In-froms_3d o d0 d1 d2 b0 b1 b2 q0 q1 q2 (omega (arith, k, whole)))
            (memory_length n (dtype_size t) (dtype_size-pos t)
              ∙ sym (length-froms_3d d0 d1 d2 b0 b1 b2))
            l' in
        (rw size to, rw from refl)
    round_trip t dims block xs ys b h l l' = absurd b

    -- A buffer of one to three dimensions that is as long as they say is chunked into the elements of
    -- its blocks, one block after another and the first dimension fastest, with 0 where a block goes
    -- over the end of the buffer, and restoring from that into a buffer of the same type, dimensions
    -- and length gives the buffer back. No dimension and no block is 0, the blocks take
    -- fewer than 2^64 bytes, and of three dimensions the first two have a product below 2^31.
    pub restore_data-chunk_data :
        (x : Data A) (block : List ℕ) (ys : List A)
        → HasBlocks x.dims block
        → padded_elements x.dims block * dtype_size x.dtype < 2 ^ 64
        → length x.elements ≡ product x.dims
        → length ys ≡ length x.elements
        → (chunk_data nil alloc rest x block
            ≡ returns (map (content nil x.elements) (froms x.dims block)))
          × (restore_data nil alloc rest
                (record x { elements = ys })
                (map (content nil x.elements) (froms x.dims block))
                block
              ≡ returns x)
    restore_data-chunk_data x block ys b h l l' =
        round_trip x.dtype x.dims block x.elements ys b h l l'
