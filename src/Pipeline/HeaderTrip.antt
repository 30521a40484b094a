-- ===== src/Pipeline/HeaderTrip.antt =====
-- What the header of a pipeline's output is, and that it is read as it was written.
use libpressio.Base.{
  All, List, Option-cases, [], ap, arith, drop, inl, inr, length, length-append, refl, some, suc,
  sym, zero, ℕ, ◌%◌, ◌*◌, ◌++◌, ◌+◌, ◌<◌, ◌^◌, ◌∙◌, ◌∷◌, ◌≡◌, ◌≤◌,
}
use mathlib.Core.List.{append_assoc, append-nil}
use native.Mathlib.Numerals.{unary_clauses}
use libpressio.Dtype.{Dtype}
use libpressio.Serial.Codes.{dtype_code, dtype_of_code-dtype_code}
use libpressio.Pipeline.Store.{word_bytes, write_word, write-append, read_word-append}
use libpressio.Serial.Recv.{◌>>=◌}
use libpressio.Pipeline.Header.{
  Shape, write_words, write_metadata, header_size, read_words, read_metadata,
}

abbrev pub words_bytes : List ℕ → List ℕ
words_bytes [] = []
words_bytes (w ∷ ws) = word_bytes w ++ words_bytes ws

-- The words of the table of stages.
abbrev pub metadata_words : List Shape → List ℕ
metadata_words [] = []
metadata_words ((t, ds) ∷ shapes) = length ds ∷ dtype_code t ∷ ds ++ metadata_words shapes

pub length-words_bytes : (ws : List ℕ) → length (words_bytes ws) ≡ 8 * length ws
length-words_bytes [] = refl
length-words_bytes (w ∷ ws) = omega (arith, length-words_bytes ws)

words_bytes-append : (a b : List ℕ) → words_bytes (a ++ b) ≡ words_bytes a ++ words_bytes b
words_bytes-append [] b = refl
words_bytes-append (w ∷ a) b = rw (words_bytes-append a b) refl

drop_cong : (m n : ℕ) (xs : List ℕ) → m ≡ n → drop m xs ≡ drop n xs
drop_cong m n xs e = ap (λ k. drop k xs) e

drop-drop : (m n : ℕ) (xs : List ℕ) → drop n (drop m xs) ≡ drop (m + n) xs
drop-drop zero n xs = drop_cong n (0 + n) xs (omega arith)
drop-drop (suc m) zero [] = drop_cong (suc m) (suc m + 0) [] (omega arith)
drop-drop (suc m) (suc n) [] = drop_cong (suc (m + suc n)) (suc m + suc n) [] (omega arith)
drop-drop (suc m) n (x ∷ xs) =
    drop-drop m n xs ∙ drop_cong (suc (m + n)) (suc m + n) (x ∷ xs) (omega arith)

pub length-drop : (n : ℕ) (xs : List ℕ) → n ≤ length xs → length (drop n xs) + n ≡ length xs
length-drop zero xs h = omega arith
length-drop (suc n) [] h = omega arith
length-drop (suc n) (x ∷ xs) h = omega (arith, length-drop n xs)

pub write_word-append :
    (i w : ℕ) (before rest : List ℕ)
    → 8 * i ≡ length before
    → 8 ≤ length rest
    → write_word i w (before ++ rest) ≡ some ((before ++ word_bytes w) ++ drop 8 rest)
unfolding write_word
write_word-append i w before rest h k =
    rw (h, write-append before (word_bytes w) rest k)
      (ap some (sym (append_assoc before (word_bytes w) (drop 8 rest))))

next_word :
    (i w : ℕ) (before : List ℕ)
    → 8 * i ≡ length before
    → 8 * suc i ≡ length (before ++ word_bytes w)
next_word i w before h = omega (arith, length-append before (word_bytes w))

pub write_words-append :
    (i : ℕ) (ws before rest : List ℕ)
    → 8 * i ≡ length before
    → 8 * length ws ≤ length rest
    → write_words i ws (before ++ rest)
      ≡ some (i + length ws, (before ++ words_bytes ws) ++ drop (8 * length ws) rest)
unfolding write_words
write_words-append i [] before rest h k = simp (unary_clauses, append-nil)
write_words-append i (w ∷ ws) before rest h k =
    let next : suc i + length ws ≡ i + suc (length ws) = omega arith in
    let taken : 8 + 8 * length ws ≡ 8 * suc (length ws) = omega arith in
    rw
      (
        write_word-append i w before rest h (omega (arith, k)),
        write_words-append (suc i) ws (before ++ word_bytes w) (drop 8 rest)
            (next_word i w before h) (omega (arith, length-drop 8 rest)),
        drop-drop 8 (8 * length ws) rest,
        next,
        taken,
        append_assoc before (word_bytes w) (words_bytes ws),
      )
      refl

-- The table of stages is written as its words, one after another.
write_words-split :
    (i : ℕ) (a b mem : List ℕ)
    → write_words i (a ++ b) mem ≡ (write_words i a mem >>= λ (j, mem). write_words j b mem)
unfolding write_words
write_words-split i [] b mem = refl
write_words-split i (w ∷ a) b mem = elim (Option-cases (write_word i w mem)) [
  | inl e ↦ rw e refl
  | inr (mem', e) ↦ rw e (write_words-split (suc i) a b mem')
]

pub write_metadata-write_words :
    (i : ℕ) (shapes : List Shape) (mem : List ℕ)
    → write_metadata i shapes mem ≡ write_words i (metadata_words shapes) mem
unfolding write_metadata write_words
write_metadata-write_words i [] mem = refl
write_metadata-write_words i ((t, ds) ∷ shapes) mem =
    elim (Option-cases (write_word i (length ds) mem)) [
      | inl e ↦ rw e refl
      | inr (mem', e) ↦ rw e (elim (Option-cases (write_word (suc i) (dtype_code t) mem')) [
        | inl f ↦ rw f refl
        | inr (mem'', f) ↦
            rw (f, write_words-split (suc (suc i)) ds (metadata_words shapes) mem'')
              (elim (Option-cases (write_words (suc (suc i)) ds mem'')) [
                | inl g ↦ rw g refl
                | inr ((j, m), g) ↦ rw g (write_metadata-write_words j shapes m)
              ])
      ])
    ]

pub header_size_exact :
    (total : ℕ) (shapes : List Shape)
    → total + 8 * length (metadata_words shapes) < 2 ^ 64
    → header_size total shapes ≡ total + 8 * length (metadata_words shapes)
unfolding header_size
header_size_exact total [] h = omega arith
header_size_exact total ((t, ds) ∷ shapes) h =
    let more = length-append ds (metadata_words shapes) in
    let small : (total + (8 + 8 + 8 * length ds)) % 2 ^ 64 ≡ total + (8 + 8 + 8 * length ds) =
      omega (arith, more) in
    rw small (
      omega (
        arith,
        more,
        header_size_exact (total + (8 + 8 + 8 * length ds)) shapes (omega (arith, more)),
      ))

-- The members that a header can carry: what stands in a word is less than 2 ^ 64.
abbrev pub ShapeFits : Shape → Type 0
ShapeFits (t, ds) = (length ds < 2 ^ 64) × All (λ d. d < 2 ^ 64) ds

dtype_code_small : (t : Dtype) → dtype_code t < 2 ^ 64
unfolding dtype_code
dtype_code_small Dtype.double = omega arith
dtype_code_small _ = omega arith

pub read_words-append :
    (i : ℕ) (ws before rest : List ℕ)
    → 8 * i ≡ length before
    → All (λ w. w < 2 ^ 64) ws
    → read_words i (length ws) (before ++ (words_bytes ws ++ rest)) ≡ some (i + length ws, ws)
unfolding read_words
read_words-append i [] before rest h small = ap (λ j. some (j, [])) (omega arith)
read_words-append i (w ∷ ws) before rest h small =
    let next : suc i + length ws ≡ i + suc (length ws) = omega arith in
    rw
      (
        append_assoc (word_bytes w) (words_bytes ws) rest,
        read_word-append i w before (words_bytes ws ++ rest) h small.0,
        sym (append_assoc before (word_bytes w) (words_bytes ws ++ rest)),
        read_words-append (suc i) ws (before ++ word_bytes w) rest (next_word i w before h) small.1,
        next,
      )
      refl

-- The table of stages is read as it was written, and reading stops at the word after it.
pub read_metadata-append :
    (i : ℕ) (shapes : List Shape) (before rest : List ℕ)
    → 8 * i ≡ length before
    → All ShapeFits shapes
    → read_metadata i (length shapes) (before ++ (words_bytes (metadata_words shapes) ++ rest))
      ≡ some (i + length (metadata_words shapes), shapes)
unfolding read_metadata
read_metadata-append i [] before rest h fits = ap (λ j. some (j, [])) (omega arith)
read_metadata-append i ((t, ds) ∷ shapes) before rest h fits =
    let a = word_bytes (length ds) in
    let b = word_bytes (dtype_code t) in
    let others = words_bytes (metadata_words shapes) in
    let tail = words_bytes (ds ++ metadata_words shapes) ++ rest in
    let split : tail ≡ words_bytes ds ++ (others ++ rest) =
      ap (λ z. z ++ rest) (words_bytes-append ds (metadata_words shapes))
      ∙ append_assoc (words_bytes ds) others rest in
    let at1 = next_word i (length ds) before h in
    let at2 = next_word (suc i) (dtype_code t) (before ++ a) at1 in
    let at3 : 8 * (suc (suc i) + length ds) ≡ length (((before ++ a) ++ b) ++ words_bytes ds) =
      omega
        (arith, at2, length-append ((before ++ a) ++ b) (words_bytes ds), length-words_bytes ds) in
    let end : suc (suc i) + length ds + length (metadata_words shapes)
        ≡ i + suc (suc (length (ds ++ metadata_words shapes))) =
      omega (arith, length-append ds (metadata_words shapes)) in
    rw
      (
        read_word-append i (length ds) before (b ++ tail) h fits.0.0,
        sym (append_assoc before a (b ++ tail)),
        read_word-append (suc i) (dtype_code t) (before ++ a) tail at1 (dtype_code_small t),
        dtype_of_code-dtype_code t,
        sym (append_assoc (before ++ a) b tail),
        split,
        read_words-append (suc (suc i)) ds ((before ++ a) ++ b) (others ++ rest) at2 fits.0.1,
        sym (append_assoc ((before ++ a) ++ b) (words_bytes ds) (others ++ rest)),
        read_metadata-append (suc (suc i) + length ds) shapes
            (((before ++ a) ++ b) ++ words_bytes ds) rest at3 fits.1,
        end,
      )
      refl
