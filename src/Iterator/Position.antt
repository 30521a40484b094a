-- ===== src/Iterator/Position.antt =====
-- The numbers of the elements of a view, and their positions.
use libpressio.Base.{
  List, [], ap, arith, false, refl, some, ℕ, ◌*◌, ◌+◌, ◌-◌, ◌/◌, ◌<◌, ◌==◌, ◌^◌, ◌∙◌, ◌∷◌, ◌≡◌,
}
use libpressio.Chunking.Sizes.{left_factor}
use libpressio.Chunking.Volume.{as_int-small}
use libpressio.Iterator.Range.{Dim, local_position, local_strides, requested_current}
use libpressio.Iterator.Offset.{
  IsLocal, counts, local_bound, local_index, local_position_lem, requested_current_lem,
}

-- What `local_position` finds for a number, and that it is a position of that number.
Found : ℕ → List Dim → ℕ → Type 0
Found n ds c =
    (ps : List ℕ) × (t : ℕ) × (local_position (local_strides n ds) c ≡ some (ps, t))
    × IsLocal ds ps
    × (t < n)
    × (t + local_index n ds ps ≡ c)

positive_rest : (n a b c : ℕ) → c < n * (a * b) → 0 < b
positive_rest n a b c h = grind arith

left_positive : (m b c : ℕ) → c < m * b → 0 < m
left_positive m b c h = grind arith

quotient_below : (n a t : ℕ) → 0 < n → t < n * a → t / n < a
quotient_below n a t h k = grind arith

quotient_rest : (n t : ℕ) → 0 < n → (t - t / n * n < n) × (t - t / n * n + n * (t / n) ≡ t)
quotient_rest n t h = (grind arith, grind arith)

local_position-Found :
    (n c : ℕ) (ds : List Dim) → 0 < n → n * counts ds < 2 ^ 31 → c < n * counts ds → Found n ds c
unfolding local_position local_strides Found
local_position-Found n c [] p s h = ([], c, refl, tt, omega (arith, h), omega arith)
local_position-Found n c (d ∷ ds) p s h =
    let m = n * d.count in
    let next =
      left_factor m (counts ds) (2 ^ 31) (positive_rest n d.count (counts ds) c h)
        (omega (arith, s)) in
    let (ps, t, e, i, b, f) =
      local_position-Found m c ds (left_positive m (counts ds) c (omega (arith, h)))
        (omega (arith, s)) (omega (arith, h)) in
    let some_stride : (n == 0) ≡ false = ground (arith, p) in
    let (less, whole) = quotient_rest n t p in
    (
      t / n ∷ ps,
      t - t / n * n,
      rw (as_int-small m next, e, some_stride) refl,
      (quotient_below n d.count t p b, i),
      less,
      omega (arith, whole, f),
    )

-- The numbers below that of the elements of a view are those of its positions, each of one: a number
-- has a position, whose number it is, and a position is that of its number. The view has fewer than
-- 2^31 elements.
pub local_position-requested_current :
    (ds : List Dim) (c : ℕ) (ps : List ℕ)
    → counts ds < 2 ^ 31
    → c < counts ds
    → IsLocal ds ps
    → ((qs : List ℕ) × (local_position (local_strides 1 ds) c ≡ some (qs, 0))
        × IsLocal ds qs
        × (requested_current 0 (local_strides 1 ds) qs ≡ c))
      × (local_position (local_strides 1 ds) (requested_current 0 (local_strides 1 ds) ps)
          ≡ some (ps, 0))
      × (requested_current 0 (local_strides 1 ds) ps < counts ds)
unfolding Found
local_position-requested_current ds c ps s h i =
    let (qs, t, e, j, less, f) =
      local_position-Found 1 c ds (omega arith) (omega (arith, s)) (omega (arith, h)) in
    let none_left : t ≡ 0 = omega (arith, less) in
    let place = local_bound 1 ds ps i in
    let current = requested_current_lem 0 1 ds ps i (omega (arith, s)) (omega (arith, s, place)) in
    let back =
      requested_current_lem 0 1 ds qs j (omega (arith, s))
        (omega (arith, s, local_bound 1 ds qs j)) in
    (
      (qs, e ∙ ap (λ k. some (qs, k)) none_left, j, back ∙ omega (arith, f, none_left)),
      rw current (local_position_lem 1 0 ds ps i (omega (arith, s)) (omega arith)),
      omega (arith, current, place),
    )
