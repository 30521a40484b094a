-- ===== src/Chunking/Generic.antt =====
-- Buffers of four and more dimensions, which `dispatch_generic` refuses.
use libpressio.Base.{
  All, List, [], arith, leb, length, product, refl, true, ℕ, ◌%◌, ◌&&◌, ◌*◌, ◌<◌, ◌/◌, ◌==◌, false,
  sym, subst, ◌^◌, ◌∷◌, ◌≡◌, ◌≤◌,
}
use libpressio.Dtype.{dtype_size}
use libpressio.Data.Defs.{Data}
use libpressio.Memory.Heap.{Outcome, returns, runtime_error}
use libpressio.Chunking.Blocks.{Copy, max_idx}
use libpressio.Chunking.Run.{
  strides, is_sorted, n_blocks, block_size, working_memory_size, dispatch, run_from, run_to,
  chunk_data, restore_data,
}

abbrev pub Positive : List ℕ → Type 0
Positive xs = All (λ x. 0 < x) xs

pub product-pos : (ds : List ℕ) → Positive ds → 0 < product ds
product-pos [] p = omega arith
product-pos (d ∷ ds) p = grind (arith, p.0, product-pos ds p.1)

le-times : (a b c : ℕ) → 0 < b → 0 < c → (a ≤ a * b) × (a * b ≤ a * (b * c))
le-times a b c h k = (grind arith, grind (arith, one b c k))
  where
    one : (b c : ℕ) → 0 < c → b ≤ b * c
    one b c k = grind arith

stride-step :
    (n d : ℕ) (ds : List ℕ)
    → n ≤ n * d
    → n * d < 2 ^ 64
    → is_sorted (strides (n * d) ds) ≡ true
    → is_sorted (strides n (d ∷ ds)) ≡ true
unfolding is_sorted strides
stride-step n d [] h k s = refl
stride-step n d (e ∷ ds) h k s =
    let wrapped : n * d % 2 ^ 64 ≡ n * d = omega (arith, k) in
    let step : leb n (n * d) ≡ true = ground (arith, h) in
    subst (λ t. (leb n t && is_sorted (t ∷ strides (t * e % 2 ^ 64) ds)) ≡ true) (sym wrapped)
      (rw step s)

-- The strides of dimensions whose product does not wrap around grow.
strides-is_sorted :
    (n : ℕ) (ds : List ℕ) → Positive ds → n * product ds < 2 ^ 64 → is_sorted (strides n ds) ≡ true
unfolding is_sorted strides
strides-is_sorted n [] p h = refl
strides-is_sorted n (d ∷ ds) p h =
    let (more, all) = le-times n d (product ds) p.0 (product-pos ds p.1) in
    stride-step n d ds more (omega (arith, all, h))
      (strides-is_sorted (n * d) ds p.1 (omega (arith, h)))

n_blocks-returns :
    (n : ℕ) (dims block : List ℕ)
    → length block ≡ length dims
    → Positive block
    → (m : ℕ) × (n_blocks n dims block ≡ returns m)
unfolding n_blocks
n_blocks-returns n [] block l p = (n, refl)
n_blocks-returns n (d ∷ ds) [] l p = absurd (omega (arith, l))
n_blocks-returns n (d ∷ ds) (b ∷ bs) l p =
    let (m, e) = n_blocks-returns (n * max_idx d b % 2 ^ 64) ds bs (omega (arith, l)) p.1 in
    let some_block : (b == 0) ≡ false = ground (arith, p.0) in (m, rw (some_block, e) refl)

module _ {A : Type 0} (nil : A) (alloc : ℕ → List A)
    (rest : List A → List A → List ℕ → List ℕ → Outcome (List A)) where
  dispatch-throws :
      (run : List Copy → Outcome (List A)) (other : List ℕ → List ℕ → Outcome (List A))
      (dims block : List ℕ)
      → 4 ≤ length dims
      → length block ≡ length dims
      → Positive dims
      → product dims < 2 ^ 64
      → dispatch run other dims block ≡ runtime_error
  unfolding dispatch
  dispatch-throws run other [] block h l p s = absurd (omega (arith, h))
  dispatch-throws run other (d0 ∷ []) block h l p s = absurd (omega (arith, h))
  dispatch-throws run other (d0 ∷ d1 ∷ []) block h l p s = absurd (omega (arith, h))
  dispatch-throws run other (d0 ∷ d1 ∷ d2 ∷ []) block h l p s = absurd (omega (arith, h))
  dispatch-throws run other (d0 ∷ d1 ∷ d2 ∷ d3 ∷ ds) [] h l p s = absurd (omega (arith, l))
  dispatch-throws run other (d0 ∷ d1 ∷ d2 ∷ d3 ∷ ds) (b ∷ bs) h l p s =
      rw (strides-is_sorted 1 (d0 ∷ d1 ∷ d2 ∷ d3 ∷ ds) p (omega (arith, s))) refl

  -- A buffer of four or more dimensions can neither be chunked nor restored: both throw, whatever it
  -- holds, if it has as many blocks as dimensions, none of them 0, and the product of the dimensions
  -- is below 2^64. The test for strides that are too large holds of strides that are not.
  pub chunk_data-throws :
      (x : Data A) (memory : List A) (block : List ℕ)
      → 4 ≤ length x.dims
      → length block ≡ length x.dims
      → Positive x.dims
      → Positive block
      → product x.dims < 2 ^ 64
      → (chunk_data nil alloc rest x block ≡ runtime_error)
        × (restore_data nil alloc rest x memory block ≡ runtime_error)
  unfolding chunk_data restore_data working_memory_size
  chunk_data-throws x memory block h l p q s =
      let (m, e) = n_blocks-returns 1 x.dims block l q in
      let memory' =
        alloc (m * dtype_size x.dtype * block_size 1 block % 2 ^ 64 / dtype_size x.dtype) in
      (
        rw e (
            dispatch-throws (λ cs. run_to nil cs x.elements memory') (rest x.elements memory')
              x.dims block h l p s),
        rw
            (dispatch-throws (λ cs. run_from cs memory x.elements) (rest memory x.elements) x.dims
              block h l p s)
            refl,
      )
