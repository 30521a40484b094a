-- ===== src/Chunking/InPlace.antt =====
-- Where `check_contigous` and `check_valid_dims` hold, the chunks lie in the buffer as `chunk_data`
-- would lay them out.
use libpressio.Base.{
  length-append, Bool, Bool-cases, List, [], ap, arith, false, inl, inr, length, map, refl, suc,
  sym, true, get_or, product, ℕ, ◌%◌, ◌&&◌, ◌*◌, ◌++◌, ◌<◌, ◌==◌, ◌^◌, ◌∙◌, ◌∷◌, ◌≡◌, if◌then◌else◌,
}
use mathlib.Core.List.{append_assoc}
use mathlib.Core.Bool.{false≢true}
use libpressio.Dtype.{dtype_size}
use libpressio.Data.Defs.{Data}
use libpressio.Memory.Heap.{Outcome, returns}
use libpressio.Chunking.Blocks.{max_idx}
use libpressio.Chunking.Contigous.{range, Divides}
use libpressio.Chunking.Generic.{Positive}
use libpressio.Chunking.Plugin.{check_contigous, check_valid_dims, all_divide, chunk_memory}
use libpressio.Chunking.RoundTrip.{froms, restore_data-chunk_data}
use libpressio.Chunking.Run.{chunk_data}
use libpressio.Chunking.Sizes.{HasBlocks, padded_elements}
use libpressio.Chunking.Undo.{content}
use libpressio.Chunking.Unsplit.{AllDivide, froms-range, same}

-- What `check_valid_dims` finds where no block is 0.
divides_lem : (d b : ℕ) → 0 < b → (d % b == 0) ≡ true → Divides b d
unfolding max_idx
divides_lem d b h e = let whole = same (d % b) 0 e in rw e (grind (arith, whole))

both : (s t : Bool) → (s && t) ≡ true → (s ≡ true) × (t ≡ true)
both true t h = (refl, h)
both false t h = absurd (false≢true h)

all_divide_step :
    (d c : ℕ) (ds cs : List ℕ) (t : Bool)
    → 0 < c
    → all_divide ds cs ≡ returns t
    → all_divide (d ∷ ds) (c ∷ cs) ≡ returns (d % c == 0 && t)
unfolding all_divide
all_divide_step d c ds cs t h e =
    let some_block : (c == 0) ≡ false = ground (arith, h) in rw (e, some_block) refl

-- It always gives an answer there, and says whether the blocks divide.
pub all_divide_lem :
    (dims block : List ℕ)
    → length dims ≡ length block
    → Positive block
    → (t : Bool) × (all_divide dims block ≡ returns t) × (t ≡ true → AllDivide dims block)
unfolding all_divide
all_divide_lem [] block l h = (true, refl, λ e. tt)
all_divide_lem (d ∷ ds) [] l h = absurd (omega (arith, l))
all_divide_lem (d ∷ ds) (c ∷ cs) l h =
    let (t, e, w) = all_divide_lem ds cs (omega (arith, l)) h.1 in
    (
      d % c == 0 && t,
      all_divide_step d c ds cs t h.0 e,
      λ r. let (a, b) = both (d % c == 0) t r in (divides_lem d c h.0 a, w b),
    )

module _ {A : Type 0} (nil : A) where
  get-append :
      (before rest : List A) (x : A) → get_or (before ++ (x ∷ rest)) (length before) nil ≡ x
  get-append [] rest x = refl
  get-append (b ∷ before) rest x = get-append before rest x

  content-range_from :
      (before xs : List A)
      → map (content nil (before ++ xs)) (range (length before) (length xs)) ≡ xs
  content-range_from before [] = refl
  content-range_from before (x ∷ xs) =
      let rest = content-range_from (before ++ (x ∷ [])) xs in
      let next : length (before ++ (x ∷ [])) ≡ suc (length before) =
        omega (arith, length-append before (x ∷ [])) in
      rw (get-append before xs x)
        (ap (λ t. x ∷ t) (rw (append_assoc before (x ∷ []) xs, next) at rest))

  pub content-range : (xs : List A) (n : ℕ) → length xs ≡ n → map (content nil xs) (range 0 n) ≡ xs
  content-range xs n e =
      ap (λ k. map (content nil xs) (range 0 k)) (sym e) ∙ content-range_from [] xs

pub HasBlocks-length :
    (dims block : List ℕ) → HasBlocks dims block → (length dims ≡ length block) × Positive block
HasBlocks-length (d0 ∷ []) (b0 ∷ []) (p0, q0) = (refl, (q0, tt))
HasBlocks-length (d0 ∷ d1 ∷ []) (b0 ∷ b1 ∷ []) (p0, q0, p1, q1) = (refl, (q0, (q1, tt)))
HasBlocks-length (d0 ∷ d1 ∷ d2 ∷ []) (b0 ∷ b1 ∷ b2 ∷ []) (p0, q0, p1, q1, p2, q2, r) =
    (refl, (q0, (q1, (q2, tt))))
HasBlocks-length _ _ h = absurd h

valid_dims_lem :
    (dims block : List ℕ)
    → HasBlocks dims block
    → (t : Bool) × (check_valid_dims dims block ≡ returns t) × (t ≡ true → AllDivide dims block)
unfolding check_valid_dims
valid_dims_lem dims block h =
    let (l, p) = HasBlocks-length dims block h in
    let test : (length dims == length block) ≡ true = ground (arith, l) in
    let (t, e, w) = all_divide_lem dims block l p in (t, rw test e, w)

module _ {A : Type 0} (nil : A) (alloc : ℕ → List A) (alloc_length : (n : ℕ) → length (alloc n) ≡ n)
    (rest : List A → List A → List ℕ → List ℕ → Outcome (List A)) where
  -- Whether the chunks are taken from the buffer itself; if they are, they are what copying gives.
  pub in_place :
      (x : Data A) (block : List ℕ)
      → HasBlocks x.dims block
      → length x.elements ≡ product x.dims
      → (t : Bool) × ((if check_contigous x.dims block
            then check_valid_dims x.dims block
            else returns false)
          ≡ returns t)
        × (t ≡ true → map (content nil x.elements) (froms x.dims block) ≡ x.elements)
  in_place x block b l =
      let (t, e, w) = valid_dims_lem x.dims block b in
      elim (Bool-cases (check_contigous x.dims block)) [
        | inl c ↦ (
          t,
          rw c e,
          λ v.
              ap (map (content nil x.elements)) (froms-range x.dims block b (w v) c)
              ∙ content-range nil x.elements (product x.dims) l,
        )
        | inr c ↦ (false, rw c refl, λ v. absurd (false≢true v))
      ]

  memory_step :
      (x : Data A) (block : List ℕ) (t : Bool)
      → (if check_contigous x.dims block then check_valid_dims x.dims block else returns false)
        ≡ returns t
      → chunk_memory nil alloc rest x block
        ≡ (if t then returns x.elements else chunk_data nil alloc rest x block)
  unfolding chunk_memory
  memory_step x block t e = rw e refl

  -- The chunks of a buffer in its own memory are those that `chunk_data` makes of it: where
  -- `compress_impl` takes the buffer for the memory of the chunks, copying gives its elements as they
  -- are. The buffer has one to three dimensions and is as long as they say, no dimension and no block
  -- is 0, the blocks take fewer than 2^64 bytes, and of three dimensions the first two have a product
  -- below 2^31.
  pub chunk_memory-chunk_data :
      (x : Data A) (block : List ℕ)
      → HasBlocks x.dims block
      → padded_elements x.dims block * dtype_size x.dtype < 2 ^ 64
      → length x.elements ≡ product x.dims
      → chunk_memory nil alloc rest x block ≡ chunk_data nil alloc rest x block
  chunk_memory-chunk_data x block b h l =
      let (t, e, same) = in_place x block b l in
      let copied =
        (restore_data-chunk_data nil alloc alloc_length rest x block x.elements b h l refl).0 in
      elim (Bool-cases t) [
        | inl v ↦ memory_step x block t e ∙ rw v (sym (copied ∙ ap returns (same v)))
        | inr v ↦ memory_step x block t e ∙ rw v refl
      ]
