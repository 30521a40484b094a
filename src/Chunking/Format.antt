-- ===== src/Chunking/Format.antt =====
-- What `compress_impl` of class chunking_plugin writes, and that `decompress_impl` reads it as it was
-- written.
use libpressio.Base.{
  All, List, [], ap, ap₂, arith, drop, drop-append, leb, length, length-append, length-map, map,
  refl, some, suc, sym, take, true, zero, ℕ, ◌%◌, ◌*◌, ◌++◌, ◌+◌, ◌<◌, ◌==◌, ◌^◌, ◌∙◌, ◌∷◌, ◌≡◌,
}
use mathlib.Core.List.{append_assoc}
use libpressio.Dtype.{Dtype}
use libpressio.Memory.Heap.{returns}
use libpressio.Chunking.Compress.{assemble, output_buffer, total_compsize, write_outputs}
use libpressio.Chunking.Decompress.{buffers_at}
use libpressio.Pipeline.Compress.{Bytes, read_bytes, size_in_bytes}
use libpressio.Pipeline.Header.{read_words}
use libpressio.Pipeline.HeaderTrip.{
  length-drop, length-words_bytes, read_words-append, words_bytes, write_words-append,
}
use libpressio.Pipeline.Output.{IsFull, take_all}
use libpressio.Pipeline.Store.{read_word, read_word-append, word_bytes, write-append}

-- The bytes of the outputs one after another.
abbrev pub joined : List Bytes → List ℕ
joined [] = []
joined (o ∷ os) = o.elements ++ joined os

-- A buffer as it is read from the header: bytes, in one dimension.
abbrev pub as_bytes : Bytes → Bytes
as_bytes o = record { dtype = Dtype.byte; dims = size_in_bytes o ∷ []; elements = o.elements }

total_compsize_lem :
    (acc : ℕ) (os : List Bytes)
    → All IsFull os
    → acc + length (joined os) < 2 ^ 64
    → total_compsize acc os ≡ acc + length (joined os)
unfolding total_compsize
total_compsize_lem acc [] f h = omega arith
total_compsize_lem acc (o ∷ os) f h =
    let l = length-append o.elements (joined os) in
    let exact : (acc + size_in_bytes o) % 2 ^ 64 ≡ acc + size_in_bytes o =
      omega (arith, f.0, l, h) in
    rw exact (
      omega (
        arith,
        total_compsize_lem (acc + size_in_bytes o) os f.1 (omega (arith, f.0, l, h)),
        f.0,
        l,
      ))

read_bytes_lem : (o : Bytes) → IsFull o → read_bytes o ≡ some o.elements
unfolding read_bytes
read_bytes_lem o f =
    let enough : leb (size_in_bytes o) (length o.elements) ≡ true = ground (arith, f) in
    rw (enough, take_all (size_in_bytes o) o.elements f) refl

write_outputs_lem :
    (os : List Bytes) (before rest : List ℕ)
    → All IsFull os
    → length rest ≡ length (joined os)
    → length before + length rest < 2 ^ 64
    → write_outputs (length before) os (before ++ rest) ≡ returns (before ++ joined os)
unfolding write_outputs
write_outputs_lem [] before [] f l h = refl
write_outputs_lem [] before (r ∷ rest) f l h = absurd (omega (arith, l))
write_outputs_lem (o ∷ os) before rest f l h =
    let m = length-append o.elements (joined os) in
    let next : (length before + size_in_bytes o) % 2 ^ 64 ≡ length (before ++ o.elements) =
      omega (arith, f.0, l, h, m, length-append before o.elements) in
    let left = length-drop (length o.elements) rest (omega (arith, l, m)) in
    let others =
      write_outputs_lem os (before ++ o.elements) (drop (length o.elements) rest) f.1
        (omega (arith, left, l, m)) (omega (arith, left, h, length-append before o.elements)) in
    rw
      (
        read_bytes_lem o f.0,
        write-append before o.elements rest (omega (arith, l, m)),
        next,
        sym (append_assoc before o.elements (drop (length o.elements) rest)),
        others,
      )
      (ap returns (append_assoc before o.elements (joined os)))

write_outputs_from :
    (a : ℕ) (os : List Bytes) (before rest : List ℕ)
    → a ≡ length before
    → All IsFull os
    → length rest ≡ length (joined os)
    → length before + length rest < 2 ^ 64
    → write_outputs a os (before ++ rest) ≡ returns (before ++ joined os)
write_outputs_from a os before rest e f l h =
    ap (λ k. write_outputs k os (before ++ rest)) e ∙ write_outputs_lem os before rest f l h

take_front : (xs ys : List ℕ) (n : ℕ) → length xs ≡ n → take n (xs ++ ys) ≡ xs
take_front [] ys zero h = refl
take_front [] ys (suc n) h = absurd (omega (arith, h))
take_front (x ∷ xs) ys zero h = absurd (omega (arith, h))
take_front (x ∷ xs) ys (suc n) h = ap (λ t. x ∷ t) (take_front xs ys n (omega (arith, h)))

-- The words of the header.
abbrev pub header_words : List Bytes → List ℕ
header_words os = length os ∷ map size_in_bytes os

-- The buffer that is written when the output has no data.
abbrev pub written : List Bytes → Bytes
written os = record {
  dtype = Dtype.byte;
  dims = (8 * (length os + 1) + length (joined os)) ∷ [];
  elements = words_bytes (header_words os) ++ joined os;
}

module _ (alloc : ℕ → List ℕ) (alloc_length : (n : ℕ) → length (alloc n) ≡ n) where
  pub assemble_lem :
      (os : List Bytes) (output : Bytes)
      → All IsFull os
      → length output.elements ≡ 0
      → 8 * (length os + 1) + length (joined os) < 2 ^ 64
      → assemble alloc os output ≡ returns (written os)
  unfolding assemble output_buffer
  assemble_lem os output f z h =
      let ws = header_words os in
      let size = 8 * (length os + 1) + length (joined os) in
      let words : 8 * length ws ≡ 8 * (length os + 1) =
        omega (arith, length-map size_in_bytes os) in
      let header : 8 * (length os + 1) % 2 ^ 64 ≡ 8 * (length os + 1) = omega (arith, h) in
      let total = total_compsize_lem 0 os f (omega (arith, h)) in
      let whole : (8 * (length os + 1) + total_compsize 0 os) % 2 ^ 64 ≡ size =
        omega (arith, h, total) in
      let no_data : (length output.elements == 0) ≡ true = ground (arith, z) in
      let mem = alloc size in
      let l = alloc_length size in
      let left = length-drop (8 * length ws) mem (omega (arith, l, words)) in
      let front : 8 * (length os + 1) ≡ length (words_bytes ws) =
        omega (arith, words, length-words_bytes ws) in
      rw
        (
          header,
          whole,
          no_data,
          write_words-append 0 ws [] mem refl (omega (arith, l, words)),
          write_outputs_from (8 * (length os + 1)) os (words_bytes ws) (drop (8 * length ws) mem)
              front f (omega (arith, left, l, words)) (omega (arith, left, l, words, front, h)),
        )
        refl

sizes_small :
    (os : List Bytes)
    → All IsFull os
    → length (joined os) < 2 ^ 64
    → All (λ w. w < 2 ^ 64) (map size_in_bytes os)
sizes_small [] f h = tt
sizes_small (o ∷ os) f h =
    let m = length-append o.elements (joined os) in
    (omega (arith, f.0, m, h), sizes_small os f.1 (omega (arith, m, h)))

buffers_at_lem :
    (os : List Bytes) (before : List ℕ)
    → All IsFull os
    → length before + length (joined os) < 2 ^ 64
    → buffers_at (length before) (map size_in_bytes os) (before ++ joined os) ≡ map as_bytes os
unfolding buffers_at
buffers_at_lem [] before f h = refl
buffers_at_lem (o ∷ os) before f h =
    let m = length-append o.elements (joined os) in
    let next : (length before + size_in_bytes o) % 2 ^ 64 ≡ length (before ++ o.elements) =
      omega (arith, f.0, h, m, length-append before o.elements) in
    let others =
      buffers_at_lem os (before ++ o.elements) f.1
        (omega (arith, h, m, length-append before o.elements)) in
    let front =
      ap (take (size_in_bytes o)) (drop-append before (o.elements ++ joined os))
      ∙ take_front o.elements (joined os) (size_in_bytes o) f.0 in
    let behind =
      ap₂ (λ a b. buffers_at a (map size_in_bytes os) b) next
        (sym (append_assoc before o.elements (joined os)))
      ∙ others in
    ap₂ (λ e r. record { dtype = Dtype.byte; dims = size_in_bytes o ∷ []; elements = e } ∷ r) front
      behind

-- The header is read as it was written, and the buffers behind it.
pub read-written :
    (os : List Bytes)
    → All IsFull os
    → 8 * (length os + 1) + length (joined os) < 2 ^ 64
    → (read_word 0 (written os).elements ≡ some (length os))
      × (read_words 1 (length os) (written os).elements
          ≡ some (suc (length os), map size_in_bytes os))
      × (buffers_at (8 * (length os + 1) % 2 ^ 64) (map size_in_bytes os) (written os).elements
          ≡ map as_bytes os)
read-written os f h =
    let ss = map size_in_bytes os in
    let n = length-map size_in_bytes os in
    let header : 8 * (length os + 1) % 2 ^ 64 ≡ length (words_bytes (header_words os)) =
      omega (arith, h, n, length-words_bytes (header_words os)) in
    let next : 1 + length ss ≡ suc (length os) = omega (arith, n) in
    let sizes =
      read_words-append 1 ss (word_bytes (length os)) (joined os) refl
        (sizes_small os f (omega (arith, h))) in
    (
      read_word-append 0 (length os) [] (words_bytes ss ++ joined os) refl (omega (arith, h)),
      ap (λ k. read_words 1 k (written os).elements) (sym n) ∙ sizes ∙ ap (λ k. some (k, ss)) next,
      ap (λ a. buffers_at a ss (written os).elements) header
          ∙ (buffers_at_lem os (words_bytes (header_words os)) f (omega (arith, h, header))),
    )
