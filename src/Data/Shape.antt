-- ===== src/Data/Shape.antt =====
-- How the operations on shape relate the dimensions, the sizes and the memory of a buffer.
use libpressio.Base.{
  Bool-cases, List, Option, [], ap, arith, inl, inr, ltb, lt→ltb, none, product, refl, some, sym, ℕ,
  ◌%◌, ◌*◌, ◌+◌, ◌/◌, ◌<◌, ◌^◌, ◌↔◌, ◌∙◌, ◌∷◌, ◌≡◌, ◌≢◌, ◌≤◌, ◌⊎◌,
}
use native.Mathlib.Nat.{mul-le-mul_left, add-mul-mod_self_right}
use libpressio.Memory.Ownership.{IsValid, find_block-Below}
use libpressio.Dtype.{dtype_size-pos, Dtype, dtype_size}
use libpressio.Data.Sizes.{data_size_in_bytes, data_size_in_elements, size_loop}
use libpressio.Data.Buffer.{
  Buffer, reshape, same, smaller, larger, set_dimensions, size_in_bytes, capacity_in_bytes,
}
use libpressio.Memory.Heap.{malloc, returns, Heap, System, alloc, allocated, find_block}
use libpressio.Memory.Ops.{Memory, allocate, move_assign}

mod-mul_left : (m x y : ℕ) → 0 < m → (x % m * y) % m ≡ (x * y) % m
mod-mul_left m x y pos =
    let q = x / m in
    let split : x * y ≡ x % m * y + q * y * m = grind arith in
    rw (split) (sym (add-mul-mod_self_right (x % m * y) (q * y) m))

size_loop_lem :
    (total : ℕ) (ds : List ℕ) → total < 2 ^ 64 → size_loop total ds ≡ (total * product ds) % 2 ^ 64
unfolding size_loop
size_loop_lem total [] b = omega arith
size_loop_lem total (d ∷ ds) b =
    size_loop_lem ((total * d) % 2 ^ 64) ds (omega arith)
    ∙ (mod-mul_left (2 ^ 64) (total * d) (product ds) (omega arith)
        ∙ ap (λ x. x % 2 ^ 64) (grind arith))

-- `reshape` sets the dimensions and leaves the type and the memory; it says whether the number of
-- elements is as before, smaller or larger.
pub reshape_lem :
    (ds : List ℕ) (b : Buffer)
    → let (r, b') = reshape ds b in
      let old = data_size_in_elements b.dims in
      let new = data_size_in_elements ds in
      (b' ≡ record b { dims = ds })
      × ((r ≡ same) ↔ (new ≡ old))
      × ((r ≡ smaller) ↔ (new < old))
      × ((r ≡ larger) ↔ (old < new))
unfolding reshape
reshape_lem ds b = (refl, ground arith, ground arith, ground arith)

-- `set_dimensions` on a buffer of the malloc domain returns: the size of the buffer in bytes,
-- which is that of the new dimensions, and a buffer with those dimensions whose capacity is at
-- least its size, and at least what it was before.
pub set_dimensions-malloc :
    (system : System) (ds : List ℕ) (b : Buffer) (h : Heap)
    → b.memory.domain ≡ some malloc
    → (b' : Buffer) × (h' : Heap) × (set_dimensions system ds b h
        ≡ returns (size_in_bytes b', b', h'))
      × (b'.dims ≡ ds)
      × (b'.data_dtype ≡ b.data_dtype)
      × (size_in_bytes b' ≤ capacity_in_bytes b')
      × (capacity_in_bytes b ≤ capacity_in_bytes b')
      × (((data_size_in_bytes b.data_dtype ds ≤ capacity_in_bytes b)
            × (b'.memory.data_ptr ≡ b.memory.data_ptr)
            × (h' ≡ h))
          ⊎ ((capacity_in_bytes b < data_size_in_bytes b.data_dtype ds)
              × ((b'.memory.data_ptr, h')
                  ≡ allocated (system (data_size_in_bytes b.data_dtype ds) h.next) h)))
unfolding set_dimensions size_in_bytes capacity_in_bytes allocate alloc move_assign
set_dimensions-malloc system ds b h d =
    let n = data_size_in_bytes b.data_dtype ds in
    let (p, h') = allocated (system n h.next) h in
    let resized : Memory → Buffer = λ m. record b { dims = ds; memory = m } in
    let new : Memory = record { domain = some malloc; data_ptr = p; capacity = n } in
    elim (Bool-cases (ltb b.memory.capacity n)) [
      | inl e ↦ (
        resized new,
        h',
        rw (e, d) refl,
        refl,
        refl,
        omega arith,
        ground (arith, e),
        inr (ground (arith, e), refl),
      )
      | inr e ↦ (
        resized b.memory,
        h,
        rw e refl,
        refl,
        refl,
        ground (arith, e),
        omega arith,
        inl (ground (arith, e), refl, refl),
      )
    ]

-- A buffer with at least one dimension has the product of its dimensions times the size of its
-- type as its size in bytes, when that product is below 2^64.
pub data_size_in_bytes-product :
    (t : Dtype) (d : ℕ) (ds : List ℕ)
    → product (d ∷ ds) * dtype_size t < 2 ^ 64
    → data_size_in_bytes t (d ∷ ds) ≡ product (d ∷ ds) * dtype_size t
unfolding data_size_in_bytes data_size_in_elements
data_size_in_bytes-product t d ds small =
    let elements : size_loop 1 (d ∷ ds) ≡ (1 * product (d ∷ ds)) % 2 ^ 64 =
      size_loop_lem 1 (d ∷ ds) (omega arith) in
    let below : product (d ∷ ds) * 1 ≤ product (d ∷ ds) * dtype_size t =
      mul-le-mul_left (product (d ∷ ds)) (dtype_size-pos t) in
    let exact : size_loop 1 (d ∷ ds) ≡ product (d ∷ ds) = omega (arith, elements, below, small) in
    rw exact (omega (arith, small))

-- An allocation keeps what it finds and points at something new.
allocated-other :
    (o : Option (List ℕ)) (h : Heap) (p : ℕ) (bytes : List ℕ)
    → IsValid h
    → find_block p h.blocks ≡ some bytes
    → let (q, h') = allocated o h in (q ≢ some p) × (find_block p h'.blocks ≡ some bytes)
unfolding allocated
allocated-other none h p bytes v f = (λ e. cc, f)
allocated-other (some b) h p bytes v f = ground (arith, find_block-Below h.next h.blocks v)

-- When `set_dimensions` on a buffer of the malloc domain needs more room than the capacity, the
-- block that the buffer pointed at is still allocated and the buffer no longer points at it, if
-- every block has a number below the next one.
pub set_dimensions-leaks :
    (system : System) (ds : List ℕ) (b : Buffer) (h : Heap) (p : ℕ) (bytes : List ℕ)
    → IsValid h
    → b.memory.domain ≡ some malloc
    → find_block p h.blocks ≡ some bytes
    → capacity_in_bytes b < data_size_in_bytes b.data_dtype ds
    → (b' : Buffer) × (h' : Heap) × (set_dimensions system ds b h
        ≡ returns (size_in_bytes b', b', h'))
      × (b'.memory.data_ptr ≢ some p)
      × (find_block p h'.blocks ≡ some bytes)
unfolding set_dimensions size_in_bytes capacity_in_bytes allocate alloc move_assign
set_dimensions-leaks system ds b h p bytes v d f small =
    let n = data_size_in_bytes b.data_dtype ds in
    let (q, h') = allocated (system n h.next) h in
    let new : Memory = record { domain = some malloc; data_ptr = q; capacity = n } in
    let (other, kept) = allocated-other (system n h.next) h p bytes v f in
    (record b { dims = ds; memory = new }, h', rw (lt→ltb _ _ small, d) refl, other, kept)
