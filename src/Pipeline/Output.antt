-- ===== src/Pipeline/Output.antt =====
-- What the output of a pipeline holds: the header and the last stage's bytes.
use libpressio.Base.{
  List, [], ap, arith, drop, leb, length, refl, some, suc, sym, take, true, zero, ℕ, ◌%◌, ◌*◌, ◌++◌,
  ◌+◌, ◌<◌, ◌^◌, ◌∷◌, ◌≡◌, ◌≤◌,
}
use mathlib.Core.List.{append-nil}
use libpressio.Dtype.{Dtype}
use libpressio.Pipeline.Store.{word_bytes, write-append}
use libpressio.Pipeline.Header.{Shape, header_size}
use libpressio.Pipeline.HeaderTrip.{
  words_bytes, metadata_words, length-words_bytes, write_word-append, write_words-append,
  write_metadata-write_words, header_size_exact, length-drop,
}
use libpressio.Pipeline.Compress.{Bytes, size_in_bytes, add_header, read_bytes, write_header}

-- A buffer holds as many bytes as its type and dimensions say.
abbrev pub IsFull : Bytes → Type 0
IsFull x = length x.elements ≡ size_in_bytes x

abbrev pub header_bytes : List Shape → List ℕ
header_bytes shapes = words_bytes (1 ∷ length shapes ∷ metadata_words shapes)

abbrev pub output_size : Bytes → List Shape → ℕ
output_size out shapes = length (header_bytes shapes) + length out.elements

drop_all : (n : ℕ) (xs : List ℕ) → length xs ≡ n → drop n xs ≡ []
drop_all zero [] h = refl
drop_all zero (x ∷ xs) h = ground arith
drop_all (suc n) [] h = refl
drop_all (suc n) (x ∷ xs) h = drop_all n xs (omega arith)

pub take_all : (n : ℕ) (xs : List ℕ) → length xs ≡ n → take n xs ≡ xs
take_all zero [] h = refl
take_all zero (x ∷ xs) h = ground arith
take_all (suc n) [] h = refl
take_all (suc n) (x ∷ xs) h = ap (λ t. x ∷ t) (take_all n xs (omega arith))

header_written :
    (shapes : List Shape) (mem : List ℕ)
    → length (header_bytes shapes) ≤ length mem
    → write_header shapes mem
      ≡ some (
        2 + length (metadata_words shapes),
        header_bytes shapes ++ drop (8 * length (metadata_words shapes)) (drop 8 (drop 8 mem)),
      )
unfolding write_header
header_written shapes mem h =
    let ws = metadata_words shapes in
    let n = length-words_bytes ws in
    let l1 = length-drop 8 mem (omega (arith, n)) in
    let l2 = length-drop 8 (drop 8 mem) (omega (arith, n)) in
    rw
      (
        write_word-append 0 1 [] mem refl (omega (arith, n)),
        write_word-append 1 (length shapes) (word_bytes 1) (drop 8 mem) refl (omega (arith, n)),
        write_metadata-write_words 2 shapes
            ((word_bytes 1 ++ word_bytes (length shapes)) ++ drop 8 (drop 8 mem)),
        write_words-append 2 ws (word_bytes 1 ++ word_bytes (length shapes)) (drop 8 (drop 8 mem))
            refl (omega (arith, n)),
      )
      refl

header_size-length :
    (shapes : List Shape)
    → length (header_bytes shapes) < 2 ^ 64
    → header_size 16 shapes ≡ length (header_bytes shapes)
header_size-length shapes h =
    let n = length-words_bytes (metadata_words shapes) in
    let exact = header_size_exact 16 shapes (omega (arith, n)) in omega (arith, n, exact)

total_size :
    (out : Bytes) (shapes : List Shape)
    → IsFull out
    → output_size out shapes < 2 ^ 64
    → (size_in_bytes out + length (header_bytes shapes)) % 2 ^ 64 ≡ output_size out shapes
total_size out shapes full small = omega (arith, full, small)

whole : (out : Bytes) → IsFull out → leb (size_in_bytes out) (length out.elements) ≡ true
whole out full = ground (arith, full)

module _ (alloc : ℕ → List ℕ) (alloc_length : (n : ℕ) → length (alloc n) ≡ n) where
  -- What is left of the memory after the header.
  rest_length :
      (out : Bytes) (shapes : List Shape)
      → length out.elements
        ≡ length (
            drop
              (8 * length (metadata_words shapes))
              (drop 8 (drop 8 (alloc (output_size out shapes)))))
  rest_length out shapes =
      let ws = metadata_words shapes in
      let mem = alloc (output_size out shapes) in
      let n = length-words_bytes ws in
      let m = alloc_length (output_size out shapes) in
      let l1 = length-drop 8 mem (omega (arith, n, m)) in
      let l2 = length-drop 8 (drop 8 mem) (omega (arith, n, m, l1)) in
      let l3 = length-drop (8 * length ws) (drop 8 (drop 8 mem)) (omega (arith, n, m, l1, l2)) in
      omega (arith, n, m, l1, l2, l3)

  -- The output is the header, then the bytes of the last stage; no write is outside the memory.
  pub add_header_lem :
      (out : Bytes) (shapes : List Shape)
      → IsFull out
      → output_size out shapes < 2 ^ 64
      → add_header alloc out shapes
        ≡ some (record {
          dtype = Dtype.byte;
          dims = output_size out shapes ∷ [];
          elements = header_bytes shapes ++ out.elements;
        })
  unfolding add_header read_bytes
  add_header_lem out shapes full small =
      let ws = metadata_words shapes in
      let head = header_bytes shapes in
      let rest = drop (8 * length ws) (drop 8 (drop 8 (alloc (output_size out shapes)))) in
      rw
        (
          header_size-length shapes (omega (arith, small)),
          total_size out shapes full small,
          header_written shapes (alloc (output_size out shapes))
              (omega (arith, alloc_length (output_size out shapes))),
          whole out full,
          take_all (size_in_bytes out) out.elements (full),
          write-append head out.elements rest (omega (arith, rest_length out shapes)),
          drop_all (length out.elements) rest (sym (rest_length out shapes)),
          append-nil out.elements,
        )
        refl
