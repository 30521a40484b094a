-- ===== src/Iterator/Offset.antt =====
-- The element that a range finds at a position.
use libpressio.Base.{
  List, [], ap, arith, false, get_elem?, refl, some, suc, zero, ℕ, ◌%◌, ◌*◌, ◌+◌, ◌/◌, ◌<◌, ◌==◌,
  ◌^◌, ◌∙◌, ◌∷◌, ◌≡◌, ◌≤◌,
}
use libpressio.Chunking.Sizes.{left_factor, mul_lt}
use libpressio.Chunking.Volume.{as_int-small}
use libpressio.Iterator.Range.{
  Dim, current_to_offset, element_at, global_strides, local_position, local_strides,
  multi_dimensional_range, reduce_offset, requested_current, start_offset,
}

-- The index in the array of a position: each coordinate is taken from the start by strides, and the
-- first dimension is the fastest.
abbrev pub index : ℕ → List Dim → List ℕ → ℕ
index n (d ∷ ds) (p ∷ ps) = n * (d.start + p * d.stride) + index (n * d.global_dim) ds ps
index n _ _ = 0

-- A coordinate for each dimension, below its count, that lies in the array.
abbrev pub IsPosition : List Dim → List ℕ → Type 0
IsPosition [] [] = Unit
IsPosition [] (p ∷ ps) = ⊥
IsPosition (d ∷ ds) [] = ⊥
IsPosition (d ∷ ds) (p ∷ ps) =
    (p < d.count) × (d.start + p * d.stride < d.global_dim) × IsPosition ds ps

-- A coordinate for each dimension, below its count.
abbrev pub IsLocal : List Dim → List ℕ → Type 0
IsLocal [] [] = Unit
IsLocal [] (p ∷ ps) = ⊥
IsLocal (d ∷ ds) [] = ⊥
IsLocal (d ∷ ds) (p ∷ ps) = (p < d.count) × IsLocal ds ps

IsPosition-IsLocal : (ds : List Dim) (ps : List ℕ) → IsPosition ds ps → IsLocal ds ps
IsPosition-IsLocal [] [] h = tt
IsPosition-IsLocal [] (p ∷ ps) h = absurd h
IsPosition-IsLocal (d ∷ ds) [] h = absurd h
IsPosition-IsLocal (d ∷ ds) (p ∷ ps) (h, k, r) = (h, IsPosition-IsLocal ds ps r)

abbrev pub counts : List Dim → ℕ
counts [] = 1
counts (d ∷ ds) = d.count * counts ds

abbrev pub size : List Dim → ℕ
size [] = 1
size (d ∷ ds) = d.global_dim * size ds

-- The position in the view.
abbrev pub local_index : ℕ → List Dim → List ℕ → ℕ
local_index n (d ∷ ds) (p ∷ ps) = n * p + local_index (n * d.count) ds ps
local_index n _ _ = 0

abbrev start_index : ℕ → List Dim → ℕ
start_index n [] = 0
start_index n (d ∷ ds) = n * d.start + start_index (n * d.global_dim) ds

abbrev stride_index : ℕ → List Dim → List ℕ → ℕ
stride_index n (d ∷ ds) (p ∷ ps) = n * d.stride * p + stride_index (n * d.global_dim) ds ps
stride_index n _ _ = 0

counts-pos : (ds : List Dim) (ps : List ℕ) → IsLocal ds ps → 0 < counts ds
counts-pos [] [] h = omega arith
counts-pos [] (p ∷ ps) h = absurd h
counts-pos (d ∷ ds) [] h = absurd h
counts-pos (d ∷ ds) (p ∷ ps) (h, r) =
    mul_lt d.count (counts ds) (omega (arith, h)) (counts-pos ds ps r)

size-pos : (ds : List Dim) (ps : List ℕ) → IsPosition ds ps → 0 < size ds
size-pos [] [] h = omega arith
size-pos [] (p ∷ ps) h = absurd h
size-pos (d ∷ ds) [] h = absurd h
size-pos (d ∷ ds) (p ∷ ps) (h, k, r) =
    mul_lt d.global_dim (size ds) (omega (arith, k)) (size-pos ds ps r)

le_step : (n a b : ℕ) → a < b → n * a + n ≤ n * b
le_step n a b h = grind arith

-- The index lies in the array.
index_bound :
    (n : ℕ) (ds : List Dim) (ps : List ℕ) → IsPosition ds ps → index n ds ps + n ≤ n * size ds
index_bound n [] [] h = omega arith
index_bound n [] (p ∷ ps) h = absurd h
index_bound n (d ∷ ds) [] h = absurd h
index_bound n (d ∷ ds) (p ∷ ps) (h, k, r) = omega (
  arith,
  index_bound (n * d.global_dim) ds ps r,
  le_step n (d.start + p * d.stride) d.global_dim k,
)

pub local_bound :
    (n : ℕ) (ds : List Dim) (ps : List ℕ) → IsLocal ds ps → local_index n ds ps + n ≤ n * counts ds
local_bound n [] [] h = omega arith
local_bound n [] (p ∷ ps) h = absurd h
local_bound n (d ∷ ds) [] h = absurd h
local_bound n (d ∷ ds) (p ∷ ps) (h, r) =
    omega (arith, local_bound (n * d.count) ds ps r, le_step n p d.count h)

index_split :
    (n : ℕ) (ds : List Dim) (ps : List ℕ)
    → IsPosition ds ps
    → index n ds ps ≡ start_index n ds + stride_index n ds ps
index_split n [] [] h = omega arith
index_split n [] (p ∷ ps) h = absurd h
index_split n (d ∷ ds) [] h = absurd h
index_split n (d ∷ ds) (p ∷ ps) (h, k, r) = omega (arith, index_split (n * d.global_dim) ds ps r)

-- `current` of the position.
pub requested_current_lem :
    (total n : ℕ) (ds : List Dim) (ps : List ℕ)
    → IsLocal ds ps
    → n * counts ds < 2 ^ 31
    → total + local_index n ds ps < 2 ^ 31
    → requested_current total (local_strides n ds) ps ≡ total + local_index n ds ps
unfolding requested_current local_strides
requested_current_lem total n [] [] h s t = omega arith
requested_current_lem total n [] (p ∷ ps) h s t = absurd h
requested_current_lem total n (d ∷ ds) [] h s t = absurd h
requested_current_lem total n (d ∷ ds) (p ∷ ps) (h, r) s t =
    let next =
      left_factor (n * d.count) (counts ds) (2 ^ 31) (counts-pos ds ps r) (omega (arith, s)) in
    rw (as_int-small (n * d.count) next, as_int-small (total + n * p) (omega (arith, t)))
      (requested_current_lem (total + n * p) (n * d.count) ds ps r (omega (arith, s))
          (omega (arith, t))
        ∙ omega arith)

offset_step :
    (total s p : ℕ) → total + s * p < 2 ^ 31 → (total + s % 2 ^ 64 * p) % 2 ^ 64 ≡ total + s * p
offset_step total s zero h = omega (arith, h)
offset_step total s (suc p) h =
    let least : s ≤ s * suc p = grind arith in
    let wrapped : s % 2 ^ 64 ≡ s = omega (arith, least, h) in rw wrapped (omega (arith, h))

divided : (n p t : ℕ) → t < n → (t + n * p) / n ≡ p
divided n p t h = grind arith

-- The coordinates come back from it.
pub local_position_lem :
    (n t : ℕ) (ds : List Dim) (ps : List ℕ)
    → IsLocal ds ps
    → n * counts ds < 2 ^ 31
    → t < n
    → local_position (local_strides n ds) (t + local_index n ds ps) ≡ some (ps, t)
unfolding local_position local_strides
local_position_lem n t [] [] h s l = ap (λ c. some ([], c)) (omega arith)
local_position_lem n t [] (p ∷ ps) h s l = absurd h
local_position_lem n t (d ∷ ds) [] h s l = absurd h
local_position_lem n t (d ∷ ds) (p ∷ ps) (h, r) s l =
    let next =
      left_factor (n * d.count) (counts ds) (2 ^ 31) (counts-pos ds ps r) (omega (arith, s)) in
    let rest =
      local_position_lem (n * d.count) (t + n * p) ds ps r (omega (arith, s))
        (omega (arith, l, le_step n p d.count h)) in
    let regroup : t + (n * p + local_index (n * d.count) ds ps)
        ≡ t + n * p + local_index (n * d.count) ds ps =
      omega arith in
    let some_stride : (n == 0) ≡ false = ground (arith, l) in
    rw (as_int-small (n * d.count) next, regroup, rest, some_stride, divided n p t l)
      (ap (λ c. some (p ∷ ps, c)) (omega arith))

start_offset_lem :
    (total n : ℕ) (ds : List Dim) (ps : List ℕ)
    → IsPosition ds ps
    → n * size ds < 2 ^ 31
    → total + start_index n ds < 2 ^ 31
    → start_offset total n ds ≡ total + start_index n ds
unfolding start_offset
start_offset_lem total n [] [] h s t = omega arith
start_offset_lem total n [] (p ∷ ps) h s t = absurd h
start_offset_lem total n (d ∷ ds) [] h s t = absurd h
start_offset_lem total n (d ∷ ds) (p ∷ ps) (h, k, r) s t =
    let next =
      left_factor (n * d.global_dim) (size ds) (2 ^ 31) (size-pos ds ps r) (omega (arith, s)) in
    rw (as_int-small (n * d.global_dim) next, as_int-small (total + n * d.start) (omega (arith, t)))
      (start_offset_lem (total + n * d.start) (n * d.global_dim) ds ps r (omega (arith, s))
          (omega (arith, t))
        ∙ omega arith)

reduce_offset_lem :
    (total n : ℕ) (ds : List Dim) (ps : List ℕ)
    → IsPosition ds ps
    → n * size ds < 2 ^ 31
    → total + stride_index n ds ps < 2 ^ 31
    → reduce_offset total (global_strides n ds) ps ≡ total + stride_index n ds ps
unfolding reduce_offset global_strides
reduce_offset_lem total n [] [] h s t = omega arith
reduce_offset_lem total n [] (p ∷ ps) h s t = absurd h
reduce_offset_lem total n (d ∷ ds) [] h s t = absurd h
reduce_offset_lem total n (d ∷ ds) (p ∷ ps) (h, k, r) s t =
    let next =
      left_factor (n * d.global_dim) (size ds) (2 ^ 31) (size-pos ds ps r) (omega (arith, s)) in
    let moved = offset_step total (n * d.stride) p (omega (arith, t)) in
    rw (as_int-small (n * d.global_dim) next, moved)
      (reduce_offset_lem (total + n * d.stride * p) (n * d.global_dim) ds ps r (omega (arith, s))
          (omega (arith, t))
        ∙ omega arith)

range_offset :
    (ds : List Dim) (ps : List ℕ)
    → IsPosition ds ps
    → counts ds < 2 ^ 31
    → size ds < 2 ^ 31
    → current_to_offset
        (multi_dimensional_range ds)
        (requested_current 0 (multi_dimensional_range ds).local_stride ps)
      ≡ some (index 1 ds ps)
unfolding current_to_offset multi_dimensional_range
range_offset ds ps h c s =
    let i = IsPosition-IsLocal ds ps h in
    let place = local_bound 1 ds ps i in
    let inside = index_bound 1 ds ps h in
    let parts = index_split 1 ds ps h in
    let current = requested_current_lem 0 1 ds ps i (omega (arith, c)) (omega (arith, c, place)) in
    let back = local_position_lem 1 0 ds ps i (omega (arith, c)) (omega arith) in
    let start = start_offset_lem 0 1 ds ps h (omega (arith, s)) (omega (arith, s, inside, parts)) in
    let offset =
      reduce_offset_lem (0 + start_index 1 ds) 1 ds ps h (omega (arith, s))
        (omega (arith, s, inside, parts)) in
    rw (current, back, start, offset) (ap some (omega (arith, parts)))

-- The element that a range finds at a position is the one of the array whose coordinates are those of
-- the position times the strides, from the start on, and it lies in the array. Each coordinate is below
-- the count of its dimension and leads to one in the array, and neither the view nor the array has 2^31
-- elements or more.
pub element_at_lem :
    {A : Type 0} (ds : List Dim) (origin : List A) (ps : List ℕ)
    → IsPosition ds ps
    → counts ds < 2 ^ 31
    → size ds < 2 ^ 31
    → (element_at (multi_dimensional_range ds) origin ps ≡ get_elem? origin (index 1 ds ps))
      × (index 1 ds ps < size ds)
unfolding element_at
element_at_lem ds origin ps h c s =
    (rw (range_offset ds ps h c s) refl, omega (arith, index_bound 1 ds ps h))
