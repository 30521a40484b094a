-- ===== src/Chunking/Unsplit.antt =====
-- Where `check_contigous` holds and the chunks divide the dimensions, the elements of the chunks are in
-- their order in the buffer.
use libpressio.Base.{
  Bool-cases, List, [], ap, arith, false, inl, inr, refl, sym, true, product, ℕ, ◌%◌, ◌*◌, ◌+◌, ◌/◌,
  ◌<◌, ◌==◌, ◌∙◌, ◌∷◌, ◌≡◌, ◌⊎◌,
}
use mathlib.Core.Bool.{false≢true}
use libpressio.Chunking.Blocks.{max_idx}
use libpressio.Chunking.Contigous.{range, Divides, froms_1d-range, froms_2d-range, froms_3d-range}
use libpressio.Chunking.Plugin.{check_contigous, contigous_from}
use libpressio.Chunking.RoundTrip.{froms}
use libpressio.Chunking.Sizes.{HasBlocks}

-- The blocks of each dimension divide it.
abbrev pub AllDivide : List ℕ → List ℕ → Type 0
AllDivide (d ∷ ds) (b ∷ bs) = Divides b d × AllDivide ds bs
AllDivide _ _ = Unit

one_block : (d b : ℕ) → 0 < b → d ≡ b → max_idx d b ≡ 1
unfolding max_idx
one_block d b h e =
    let whole : d % b ≡ 0 = grind (arith, e) in
    let once : d / b ≡ 1 = grind (arith, e) in
    let test : (d % b == 0) ≡ true = ground (arith, whole) in rw (test, once) refl

plane_split :
    (m0 d0 b0 b1 i j ei ej : ℕ)
    → m0 * b0 ≡ d0
    → i < m0
    → ej < b1
    → ((d0 ≡ b0) × (m0 ≡ 1)) ⊎ (b1 ≡ 1)
    → i * b0 + ei + (j * b1 + ej) * d0
      ≡ 0 + j * (m0 * (b1 * (b0 * 1))) + i * (b1 * (b0 * 1)) + ej * (b0 * 1) + ei * 1
plane_split m0 d0 b0 b1 i j ei ej w p q (inl (e, m)) =
    let zero_i : i ≡ 0 = omega arith in rw (zero_i, m, e) (omega arith)
plane_split m0 d0 b0 b1 i j ei ej w p q (inr e) =
    let zero_ej : ej ≡ 0 = omega arith in rw (zero_ej, e, sym w) (omega arith)

volume_split :
    (m0 m1 d0 d1 b0 b1 b2 i j k ei ej ek : ℕ)
    → m0 * b0 ≡ d0
    → m1 * b1 ≡ d1
    → i < m0
    → j < m1
    → ej < b1
    → ek < b2
    → ((d0 ≡ b0) × (m0 ≡ 1) × (((d1 ≡ b1) × (m1 ≡ 1)) ⊎ (b2 ≡ 1))) ⊎ ((b1 ≡ 1) × (b2 ≡ 1))
    → i * b0 + ei + (j * b1 + ej) * d0 + (k * b2 + ek) * (d0 * d1)
      ≡ 0
        + k * (m1 * (m0 * (b2 * (b1 * (b0 * 1)))))
        + j * (m0 * (b2 * (b1 * (b0 * 1))))
        + i * (b2 * (b1 * (b0 * 1)))
        + ek * (b1 * (b0 * 1))
        + ej * (b0 * 1)
        + ei * 1
volume_split m0 m1 d0 d1 b0 b1 b2 i j k ei ej ek w v p q r s (inl (e, m, inl (f, n))) =
    let zero_i : i ≡ 0 = omega arith in
    let zero_j : j ≡ 0 = omega arith in rw (zero_i, zero_j, m, n, e, f) (omega arith)
volume_split m0 m1 d0 d1 b0 b1 b2 i j k ei ej ek w v p q r s (inl (e, m, inr f)) =
    let zero_i : i ≡ 0 = omega arith in
    let zero_ek : ek ≡ 0 = omega arith in rw (zero_i, zero_ek, m, e, f, sym v) (omega arith)
volume_split m0 m1 d0 d1 b0 b1 b2 i j k ei ej ek w v p q r s (inr (e, f)) =
    let zero_ej : ej ≡ 0 = omega arith in
    let zero_ek : ek ≡ 0 = omega arith in rw (zero_ej, zero_ek, sym w, sym v, e, f) (omega arith)

pub same : (d b : ℕ) → (d == b) ≡ true → d ≡ b
same d b h = ground (arith, h)

-- After a mismatch each chunk has the size 1.
mismatched_one : (d b : ℕ) → contigous_from true (d ∷ []) (b ∷ []) ≡ true → b ≡ 1
unfolding contigous_from
mismatched_one d b h = elim (Bool-cases (b == 1)) [
  | inl t ↦ same b 1 t
  | inr t ↦ absurd (false≢true (rw (contigous_from, t) at h))
]

mismatched_two :
    (d e b c : ℕ) → contigous_from true (d ∷ e ∷ []) (b ∷ c ∷ []) ≡ true → (b ≡ 1) × (c ≡ 1)
unfolding contigous_from
mismatched_two d e b c h = elim (Bool-cases (b == 1)) [
  | inl t ↦ (same b 1 t, mismatched_one e c (rw (contigous_from, t) at h))
  | inr t ↦ absurd (false≢true (rw (contigous_from, t) at h))
]

matched_one :
    (d b e c : ℕ) → contigous_from false (d ∷ e ∷ []) (b ∷ c ∷ []) ≡ true → (d ≡ b) ⊎ (c ≡ 1)
unfolding contigous_from
matched_one d b e c h = elim (Bool-cases (d == b)) [
  | inl t ↦ inl (same d b t)
  | inr t ↦ inr (mismatched_one e c (rw (contigous_from, t) at h))
]

matched_two :
    (d b e c f g : ℕ)
    → contigous_from false (d ∷ e ∷ f ∷ []) (b ∷ c ∷ g ∷ []) ≡ true
    → ((d ≡ b) × ((e ≡ c) ⊎ (g ≡ 1))) ⊎ ((c ≡ 1) × (g ≡ 1))
unfolding contigous_from
matched_two d b e c f g h = elim (Bool-cases (d == b)) [
  | inl t ↦ inl (same d b t, matched_one e c f g (rw (contigous_from, t) at h))
  | inr t ↦ inr (mismatched_two e f c g (rw (contigous_from, t) at h))
]

positive_blocks : (d b : ℕ) → (d ≡ b) → 0 < b → (d ≡ b) × (max_idx d b ≡ 1)
positive_blocks d b e h = (e, one_block d b h e)

total_2d :
    (m0 m1 b0 b1 d0 d1 : ℕ)
    → m0 * b0 ≡ d0
    → m1 * b1 ≡ d1
    → m1 * (m0 * (b1 * (b0 * 1))) ≡ d0 * (d1 * 1)
total_2d m0 m1 b0 b1 d0 d1 w v = rw (sym w, sym v) (omega arith)

total_3d :
    (m0 m1 m2 b0 b1 b2 d0 d1 d2 : ℕ)
    → m0 * b0 ≡ d0
    → m1 * b1 ≡ d1
    → m2 * b2 ≡ d2
    → m2 * (m1 * (m0 * (b2 * (b1 * (b0 * 1))))) ≡ d0 * (d1 * (d2 * 1))
total_3d m0 m1 m2 b0 b1 b2 d0 d1 d2 w v u = rw (sym w, sym v, sym u) (omega arith)

-- The elements of the buffer in its chunks are in their order in the buffer.
pub froms-range :
    (dims block : List ℕ)
    → HasBlocks dims block
    → AllDivide dims block
    → check_contigous dims block ≡ true
    → froms dims block ≡ range 0 (product dims)
unfolding check_contigous
froms-range (d0 ∷ []) (b0 ∷ []) (p0, q0) w c =
    froms_1d-range d0 b0 w.0 ∙ ap (range 0) (omega (arith, w.0))
froms-range (d0 ∷ d1 ∷ []) (b0 ∷ b1 ∷ []) (p0, q0, p1, q1) w c =
    froms_2d-range d0 d1 b0 b1 w.0 w.1.0 (λ i j ei ej p q p' q'.
      plane_split (max_idx d0 b0) d0 b0 b1 i j ei ej w.0 p q' (elim (matched_one d0 b0 d1 b1 c) [
        | inl e ↦ inl (positive_blocks d0 b0 e q0)
        | inr e ↦ inr e
      ]))
    ∙ ap (range 0) (total_2d (max_idx d0 b0) (max_idx d1 b1) b0 b1 d0 d1 w.0 w.1.0)
froms-range (d0 ∷ d1 ∷ d2 ∷ []) (b0 ∷ b1 ∷ b2 ∷ []) (p0, q0, p1, q1, p2, q2, r) w c =
    froms_3d-range d0 d1 d2 b0 b1 b2 w.0 w.1.0 w.1.1.0 (λ i j k ei ej ek p q r p' q' r'.
      volume_split (max_idx d0 b0) (max_idx d1 b1) d0 d1 b0 b1 b2 i j k ei ej ek w.0 w.1.0 p q q' r'
        (elim (matched_two d0 b0 d1 b1 d2 b2 c) [
          | inl (e, inl f) ↦ inl (e, one_block d0 b0 q0 e, inl (positive_blocks d1 b1 f q1))
          | inl (e, inr f) ↦ inl (e, one_block d0 b0 q0 e, inr f)
          | inr e ↦ inr e
        ]))
    ∙ ap (range 0) (
        total_3d (max_idx d0 b0) (max_idx d1 b1) (max_idx d2 b2) b0 b1 b2 d0 d1 d2 w.0 w.1.0
          w.1.1.0)
froms-range _ _ h w c = absurd h
