-- ===== src/Chunking/Views.antt =====
-- The chunks of a memory one after another, and what joins them.
use libpressio.Base.{
  List, [], ap, arith, drop, false, leb, length, length-append, product, refl, subst, suc, sym,
  take, true, zero, ℕ, ◌%◌, ◌*◌, ◌++◌, ◌+◌, ◌/◌, ◌<◌, ◌==◌, ◌^◌, ◌∙◌, ◌∷◌, ◌≡◌, ◌≤◌,
}
use mathlib.Core.List.{append_assoc}
use libpressio.Dtype.{Dtype, dtype_size}
use libpressio.Data.Defs.{Data}
use libpressio.Data.Sizes.{data_size_in_elements, size_loop}
use libpressio.Memory.Heap.{returns}
use libpressio.Chunking.Arith.{le_mul}
use libpressio.Chunking.Blocks.{loop, max_idx}
use libpressio.Chunking.Decompress.{get_front, join_outputs, put}
use libpressio.Chunking.Generic.{Positive, product-pos}
use libpressio.Chunking.Loops.{loop_cong}
use libpressio.Chunking.Plugin.{
  chunk_at, chunk_stride, chunks_of, compute_num_chunks, num_chunks_from,
}
use libpressio.Chunking.Run.{block_size}
use libpressio.Chunking.Sizes.{
  block_size-step, div_mul, dtype_size-pos, left_factor, max_idx-pos, mul_lt,
}
use libpressio.Chunking.Volume.{as_int-small}

chunk_stride_lem :
    (n : ℕ) (cs : List ℕ)
    → Positive cs
    → n * product cs < 2 ^ 31
    → chunk_stride n cs ≡ n * product cs
unfolding chunk_stride
chunk_stride_lem n [] p h = omega arith
chunk_stride_lem n (c ∷ cs) p h =
    let small = left_factor (n * c) (product cs) (2 ^ 31) (product-pos cs p.1) (omega (arith, h)) in
    rw (as_int-small (n * c) small)
      (chunk_stride_lem (n * c) cs p.1 (omega (arith, h)) ∙ omega arith)

pub block_size_lem :
    (n : ℕ) (cs : List ℕ) → Positive cs → n * product cs < 2 ^ 64 → block_size n cs ≡ n * product cs
unfolding block_size
block_size_lem n [] p h = omega arith
block_size_lem n (c ∷ cs) p h =
    let small = left_factor (n * c) (product cs) (2 ^ 64) (product-pos cs p.1) (omega (arith, h)) in
    block_size-step n c cs small ∙ block_size_lem (n * c) cs p.1 (omega (arith, h)) ∙ omega arith

-- The number of blocks.
abbrev pub block_count : List ℕ → List ℕ → ℕ
block_count (d ∷ ds) (b ∷ bs) = max_idx d b * block_count ds bs
block_count _ _ = 1

block_count-pos :
    (ds bs : List ℕ) → length ds ≡ length bs → Positive ds → Positive bs → 0 < block_count ds bs
block_count-pos [] [] l p q = omega arith
block_count-pos [] (b ∷ bs) l p q = omega arith
block_count-pos (d ∷ ds) [] l p q = omega arith
block_count-pos (d ∷ ds) (b ∷ bs) l p q =
    mul_lt (max_idx d b) (block_count ds bs) (max_idx-pos d b p.0 q.0)
      (block_count-pos ds bs (omega (arith, l)) p.1 q.1)

num_chunks_from_lem :
    (n : ℕ) (ds bs : List ℕ)
    → length ds ≡ length bs
    → Positive ds
    → Positive bs
    → n * block_count ds bs < 2 ^ 31
    → num_chunks_from n ds bs ≡ returns (n * block_count ds bs)
unfolding num_chunks_from
num_chunks_from_lem n [] [] l p q h = ap returns (omega arith)
num_chunks_from_lem n [] (b ∷ bs) l p q h = ap returns (omega arith)
num_chunks_from_lem n (d ∷ ds) [] l p q h = absurd (omega (arith, l))
num_chunks_from_lem n (d ∷ ds) (b ∷ bs) l p q h =
    let l' : length ds ≡ length bs = omega (arith, l) in
    let small =
      left_factor (n * max_idx d b) (block_count ds bs) (2 ^ 31) (block_count-pos ds bs l' p.1 q.1)
        (omega (arith, h)) in
    let some_block : (b == 0) ≡ false = ground (arith, q.0) in
    rw (some_block, as_int-small (n * max_idx d b) small)
      (num_chunks_from_lem (n * max_idx d b) ds bs l' p.1 q.1 (omega (arith, h))
        ∙ ap returns (omega arith))

pub compute_num_chunks_lem :
    (ds bs : List ℕ)
    → length ds ≡ length bs
    → Positive ds
    → Positive bs
    → block_count ds bs < 2 ^ 31
    → compute_num_chunks ds bs ≡ returns (block_count ds bs)
unfolding compute_num_chunks
compute_num_chunks_lem [] [] l p q h = refl
compute_num_chunks_lem (d ∷ ds) [] l p q h = absurd (omega (arith, l))
compute_num_chunks_lem ds (b ∷ bs) l p q h =
    num_chunks_from_lem 1 ds (b ∷ bs) l p q (omega (arith, h)) ∙ ap returns (omega arith)

chunk_offset : (i k s n : ℕ) → 0 < s → i < n → n * k * s < 2 ^ 64 → i * (s * k) % 2 ^ 64 / s ≡ i * k
chunk_offset i k s n p h l =
    let least : i * k * s ≤ n * k * s =
      le_mul (i * k) (n * k) s (le_mul i n k (omega (arith, h))) in
    let regroup : i * (s * k) ≡ i * k * s = omega arith in
    let wrapped : i * k * s % 2 ^ 64 ≡ i * k * s = omega (arith, least, l) in
    rw (regroup, wrapped) (div_mul (i * k) s p)

-- The bytes of `b` and of `k` elements, of those of `b + k + m` that do not wrap around.
in_range : (b k m s : ℕ) → (b + (k + m)) * s < 2 ^ 64 → (b * s + k * s) % 2 ^ 64 ≡ (b + k) * s
in_range b k m s h =
    let split : (b + (k + m)) * s ≡ b * s + k * s + m * s = grind arith in
    let joined : (b + k) * s ≡ b * s + k * s = grind arith in omega (arith, split, joined, h)

module _ {A : Type 0} where
  -- The memory, `k` elements at a time.
  abbrev pub pieces : Dtype → List ℕ → ℕ → ℕ → List A → List (Data A)
  pieces t cs k zero mem = []
  pieces t cs k (suc n) mem =
      record { dtype = t; dims = cs; elements = take k mem } ∷ pieces t cs k n (drop k mem)

  drop_cong : (m n : ℕ) (xs : List A) → m ≡ n → drop m xs ≡ drop n xs
  drop_cong m n xs e = ap (λ k. drop k xs) e

  drop-drop : (m n : ℕ) (xs : List A) → drop n (drop m xs) ≡ drop (m + n) xs
  drop-drop zero n xs = drop_cong n (0 + n) xs (omega arith)
  drop-drop (suc m) zero [] = drop_cong (suc m) (suc m + 0) [] (omega arith)
  drop-drop (suc m) (suc n) [] = drop_cong (suc (m + suc n)) (suc m + suc n) [] (omega arith)
  drop-drop (suc m) n (x ∷ xs) =
      drop-drop m n xs ∙ drop_cong (suc (m + n)) (suc m + n) (x ∷ xs) (omega arith)

  take-drop : (k : ℕ) (xs : List A) → take k xs ++ drop k xs ≡ xs
  take-drop zero xs = refl
  take-drop (suc k) [] = refl
  take-drop (suc k) (x ∷ xs) = ap (λ t. x ∷ t) (take-drop k xs)

  length-take : (k : ℕ) (xs : List A) → k ≤ length xs → length (take k xs) ≡ k
  length-take zero xs h = refl
  length-take (suc k) [] h = absurd (omega (arith, h))
  length-take (suc k) (x ∷ xs) h = ap suc (length-take k xs (omega (arith, h)))

  length-drop : (k n : ℕ) (xs : List A) → length xs ≡ k + n → length (drop k xs) ≡ n
  length-drop zero n xs h = omega (arith, h)
  length-drop (suc k) n [] h = absurd (omega (arith, h))
  length-drop (suc k) n (x ∷ xs) h = length-drop k n xs (omega (arith, h))

  take_all : (k : ℕ) (xs : List A) → length xs ≡ k → take k xs ≡ xs
  take_all zero [] h = refl
  take_all zero (x ∷ xs) h = absurd (omega (arith, h))
  take_all (suc k) [] h = refl
  take_all (suc k) (x ∷ xs) h = ap (λ t. x ∷ t) (take_all k xs (omega (arith, h)))

  loop-pieces :
      (t : Dtype) (cs : List ℕ) (k i n : ℕ) (mem : List A)
      → loop i n (λ i. record { dtype = t; dims = cs; elements = take k (drop (i * k) mem) } ∷ [])
        ≡ pieces t cs k n (drop (i * k) mem)
  unfolding loop
  loop-pieces t cs k i zero mem = refl
  loop-pieces t cs k i (suc n) mem =
      let next = drop-drop (i * k) k mem ∙ drop_cong (i * k + k) (suc i * k) mem (omega arith) in
      ap (λ r. record { dtype = t; dims = cs; elements = take k (drop (i * k) mem) } ∷ r)
        (loop-pieces t cs k (suc i) n mem ∙ ap (pieces t cs k n) (sym next))

  get_front_lem : (k : ℕ) (xs : List A) → length xs ≡ k → get_front k xs ≡ returns xs
  unfolding get_front
  get_front_lem k xs h =
      let enough : leb k (length xs) ≡ true = ground (arith, h) in rw (enough, take_all k xs h) refl

  put-zero :
      (xs ys rest : List A) → length ys ≡ length xs → put 0 xs (ys ++ rest) ≡ returns (xs ++ rest)
  unfolding put
  put-zero [] [] rest h = refl
  put-zero [] (y ∷ ys) rest h = absurd (omega (arith, h))
  put-zero (x ∷ xs) [] rest h = absurd (omega (arith, h))
  put-zero (x ∷ xs) (y ∷ ys) rest h = rw (put-zero xs ys rest (omega (arith, h))) refl

  put-append :
      (before xs ys rest : List A)
      → length ys ≡ length xs
      → put (length before) xs (before ++ (ys ++ rest)) ≡ returns (before ++ (xs ++ rest))
  unfolding put
  put-append [] xs ys rest h = put-zero xs ys rest h
  put-append (b ∷ before) xs ys rest h = rw (put-append before xs ys rest h) refl

  -- Joining the pieces of a memory gives it.
  join_outputs-pieces :
      (t : Dtype) (cs : List ℕ) (s k n : ℕ) (mem before rest : List A)
      → 0 < s
      → length mem ≡ n * k
      → length rest ≡ n * k
      → (length before + n * k) * s < 2 ^ 64
      → join_outputs s (length before * s) (k * s) (pieces t cs k n mem) (before ++ rest)
        ≡ returns (before ++ mem)
  unfolding join_outputs
  join_outputs-pieces t cs s k zero [] before [] p h l fits = refl
  join_outputs-pieces t cs s k zero (m ∷ mem) before rest p h l fits = absurd (omega (arith, h))
  join_outputs-pieces t cs s k zero [] before (r ∷ rest) p h l fits = absurd (omega (arith, l))
  join_outputs-pieces t cs s k (suc n) mem before rest p h l fits =
      let first = take k mem in
      let a = length-take k mem (omega (arith, h)) in
      let b = length-take k rest (omega (arith, l)) in
      let written : put (length before) first (before ++ rest)
          ≡ returns (before ++ (first ++ drop k rest)) =
        ap (λ r. put (length before) first (before ++ r)) (sym (take-drop k rest))
        ∙ put-append before first (take k rest) (drop k rest) (b ∙ sym a) in
      let here : length before + k ≡ length (before ++ first) =
        omega (arith, length-append before first, a) in
      let fewer : (length (before ++ first) + n * k) * s < 2 ^ 64 =
        rw (sym here) (grind (arith, fits)) in
      let next : (length before * s + k * s) % 2 ^ 64 ≡ length (before ++ first) * s =
        rw (sym here) (in_range (length before) k (n * k) s (omega (arith, fits))) in
      let others =
        join_outputs-pieces t cs s k n (drop k mem) (before ++ first) (drop k rest) p
          (length-drop k (n * k) mem (omega (arith, h)))
          (length-drop k (n * k) rest (omega (arith, l))) fewer in
      rw
        (
          div_mul k s p,
          div_mul (length before) s p,
          get_front_lem k first a,
          written,
          next,
          sym (append_assoc before first (drop k rest)),
          others,
        )
        (ap returns
          (append_assoc before first (drop k mem) ∙ ap (λ r. before ++ r) (take-drop k mem)))

  pub join_outputs-all :
      (t : Dtype) (cs : List ℕ) (s k n : ℕ) (mem rest : List A)
      → 0 < s
      → length mem ≡ n * k
      → length rest ≡ n * k
      → n * k * s < 2 ^ 64
      → join_outputs s 0 (k * s) (pieces t cs k n mem) rest ≡ returns mem
  join_outputs-all t cs s k n mem rest p h l fits =
      let start : length {A = A} [] * s ≡ 0 = omega arith in
      let none_before : (length {A = A} [] + n * k) * s ≡ n * k * s = omega arith in
      subst (λ a. join_outputs s a (k * s) (pieces t cs k n mem) rest ≡ returns mem) start
        (join_outputs-pieces t cs s k n mem [] rest p h l (rw none_before fits))

  chunk_at_lem :
      (t : Dtype) (cs : List ℕ) (mem : List A) (i n : ℕ)
      → Positive cs
      → data_size_in_elements cs ≡ product cs
      → dtype_size t * product cs < 2 ^ 31
      → n * product cs * dtype_size t < 2 ^ 64
      → i < n
      → chunk_at t cs mem i
        ≡ record { dtype = t; dims = cs; elements = take (product cs) (drop (i * product cs) mem) }
  unfolding chunk_at
  chunk_at_lem t cs mem i n p e h l r =
      let offset : i * (dtype_size t * product cs) % 2 ^ 64 / dtype_size t ≡ i * product cs =
        chunk_offset i (product cs) (dtype_size t) n (dtype_size-pos t) r l in
      rw (e, chunk_stride_lem (dtype_size t) cs p h, offset) refl

  -- What the chunks are.
  pub chunks_of_lem :
      (t : Dtype) (cs : List ℕ) (mem : List A) (n : ℕ)
      → Positive cs
      → data_size_in_elements cs ≡ product cs
      → dtype_size t * product cs < 2 ^ 31
      → n * product cs * dtype_size t < 2 ^ 64
      → chunks_of t cs mem n ≡ pieces t cs (product cs) n mem
  unfolding chunks_of
  chunks_of_lem t cs mem n p e h l =
      loop_cong 0 n _ _
        (λ i q r. ap (λ c. c ∷ []) (chunk_at_lem t cs mem i n p e h l (omega (arith, r))))
      ∙ loop-pieces t cs (product cs) 0 n mem
      ∙ ap (pieces t cs (product cs) n) (drop_cong (0 * product cs) 0 mem (omega arith))

size_loop_exact :
    (n : ℕ) (cs : List ℕ) → Positive cs → n * product cs < 2 ^ 64 → size_loop n cs ≡ n * product cs
unfolding size_loop
size_loop_exact n [] p h = omega arith
size_loop_exact n (c ∷ cs) p h =
    let small = left_factor (n * c) (product cs) (2 ^ 64) (product-pos cs p.1) (omega (arith, h)) in
    let exact : n * c % 2 ^ 64 ≡ n * c = omega (arith, small) in
    rw exact (size_loop_exact (n * c) cs p.1 (omega (arith, h)) ∙ omega arith)

pub chunk_elements :
    (c : ℕ) (cs : List ℕ)
    → Positive (c ∷ cs)
    → product (c ∷ cs) < 2 ^ 64
    → data_size_in_elements (c ∷ cs) ≡ product (c ∷ cs)
unfolding data_size_in_elements
chunk_elements c cs p h = size_loop_exact 1 (c ∷ cs) p (omega (arith, h)) ∙ omega arith
