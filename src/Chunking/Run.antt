-- ===== src/Chunking/Run.antt =====
-- `chunk_data` and `restore_data` of src/plugins/compressors/chunking_impl.cc, over the copies of
-- Blocks.antt. A buffer is a list of elements; an access outside one is undefined.
use libpressio.Base.{
  Bool, List, Option, [], get_elem?, if◌then◌else◌, leb, none, some, suc, true, zero, ℕ, ◌%◌, ◌&&◌,
  ◌*◌, ◌/◌, ◌==◌, ◌^◌, ◌∷◌,
}
use libpressio.Dtype.{Dtype, dtype_size}
use libpressio.Data.Defs.{Data}
use libpressio.Memory.Heap.{Outcome, returns, runtime_error, undefined, ◌>>=◌}
use libpressio.Chunking.Blocks.{Copy, copies_1d, copies_2d, copies_3d, max_idx}

module _ {ℓ} {A : Type ℓ} where
  -- `p[i]` where it is read.
  abbrev pub at : Option A → Outcome A
  at none = undefined
  at (some a) = returns a

  -- `p[i] = v`
  unfoldable pub store : ℕ → A → List A → Outcome (List A)
  store i v [] = undefined
  store zero v (x ∷ xs) = returns (v ∷ xs)
  store (suc i) v (x ∷ xs) = do xs ← store i v xs; returns (x ∷ xs)

  -- What `copy_to_blocks` gives an element of the blocks: that of the buffer, or 0.
  unfoldable pub value : A → List A → Option ℕ → Outcome A
  value nil xs none = returns nil
  value nil xs (some o) = at (get_elem? xs o)

  -- The copies with `copy_to_blocks`.
  unfoldable pub run_to : A → List Copy → List A → List A → Outcome (List A)
  unfolding value store
  run_to nil [] xs memory = returns memory
  run_to nil (c ∷ cs) xs memory = do
    v ← value nil xs c.from
    memory ← store c.to v memory
    run_to nil cs xs memory

  -- One copy with `copy_from_blocks`: nothing if it is out of bounds.
  unfoldable pub copy_back : Option ℕ → ℕ → List A → List A → Outcome (List A)
  unfolding store
  copy_back none to memory xs = returns xs
  copy_back (some o) to memory xs = do v ← at (get_elem? memory to); store o v xs

  unfoldable pub run_from : List Copy → List A → List A → Outcome (List A)
  unfolding copy_back
  run_from [] memory xs = returns xs
  run_from (c ∷ cs) memory xs = do xs ← copy_back c.from c.to memory xs; run_from cs memory xs

-- The products in `working_memory_size`: the numbers of blocks, if each dimension has a block of a
-- size that is not 0.
unfoldable pub n_blocks : ℕ → List ℕ → List ℕ → Outcome ℕ
unfolding max_idx
n_blocks total [] block = returns total
n_blocks total (d ∷ ds) [] = undefined
n_blocks total (d ∷ ds) (b ∷ bs) =
    let rest = n_blocks (total * max_idx d b % 2 ^ 64) ds bs in if b == 0 then undefined else rest

unfoldable pub block_size : ℕ → List ℕ → ℕ
block_size total [] = total
block_size total (b ∷ bs) = block_size (total * b % 2 ^ 64) bs

unfoldable pub working_memory_size : Dtype → List ℕ → List ℕ → Outcome ℕ
unfolding n_blocks block_size
working_memory_size t dims block = do
  n ← n_blocks 1 dims block
  returns (n * dtype_size t * block_size 1 block % 2 ^ 64)

-- `exclusive_scan` of the dimensions by products.
unfoldable pub strides : ℕ → List ℕ → List ℕ
strides total [] = []
strides total (d ∷ ds) = total ∷ strides (total * d % 2 ^ 64) ds

unfoldable pub is_sorted : List ℕ → Bool
is_sorted [] = true
is_sorted (x ∷ []) = true
is_sorted (x ∷ y ∷ xs) = leb x y && is_sorted (y ∷ xs)

module _ {ℓ} {A : Type ℓ} where
  -- `dispatch_generic`; `rest` is `dispatch_dims`, which follows its test. There is no greatest of no
  -- dimensions.
  unfoldable pub dispatch_generic :
      (List ℕ → List ℕ → Outcome (List A)) → List ℕ → List ℕ → Outcome (List A)
  unfolding strides is_sorted
  dispatch_generic rest [] block = undefined
  dispatch_generic rest (d ∷ ds) [] = undefined
  dispatch_generic rest (d ∷ ds) (b ∷ bs) =
      if is_sorted (strides 1 (d ∷ ds)) then runtime_error else rest (d ∷ ds) (b ∷ bs)

  -- The switch over the number of dimensions, and `run` of the copies.
  unfoldable pub dispatch :
      (List Copy → Outcome (List A))
      → (List ℕ → List ℕ → Outcome (List A))
      → List ℕ
      → List ℕ
      → Outcome (List A)
  unfolding copies_1d copies_2d copies_3d dispatch_generic
  dispatch run rest (d0 ∷ []) (b0 ∷ bs) = run (copies_1d d0 b0)
  dispatch run rest (d0 ∷ d1 ∷ []) (b0 ∷ b1 ∷ bs) = run (copies_2d d0 d1 b0 b1)
  dispatch run rest (d0 ∷ d1 ∷ d2 ∷ []) (b0 ∷ b1 ∷ b2 ∷ bs) = run (copies_3d d0 d1 d2 b0 b1 b2)
  dispatch run rest (d0 ∷ []) block = undefined
  dispatch run rest (d0 ∷ d1 ∷ []) block = undefined
  dispatch run rest (d0 ∷ d1 ∷ d2 ∷ []) block = undefined
  dispatch run rest dims block = dispatch_generic rest dims block

  -- `alloc` is the memory of `owning`, of a number of elements; `nil` is 0 as an element.
  module _ (nil : A) (alloc : ℕ → List A)
      (rest : List A → List A → List ℕ → List ℕ → Outcome (List A)) where
    unfoldable pub chunk_data : Data A → List ℕ → Outcome (List A)
    unfolding working_memory_size dispatch run_to
    chunk_data x block = do
      size ← working_memory_size x.dtype x.dims block
      let memory = alloc (size / dtype_size x.dtype)
      dispatch (λ cs. run_to nil cs x.elements memory) (rest x.elements memory) x.dims block

    unfoldable pub restore_data : Data A → List A → List ℕ → Outcome (Data A)
    unfolding dispatch run_from
    restore_data x memory block = do
      elements ←
          dispatch (λ cs. run_from cs memory x.elements) (rest memory x.elements) x.dims block
      returns (record x { elements = elements })
