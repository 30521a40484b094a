-- ===== src/Chunking/Plane.antt =====
-- The copies of a buffer of two dimensions, as Copies.antt has those of one.
use libpressio.Base.{
  Bool, Bool-cases, [], ap, ap₂, arith, if◌then◌else◌, inl, inr, length, ltb, none, refl, some,
  true, ℕ, ◌%◌, ◌&&◌, ◌*◌, ◌+◌, ◌<◌, ◌^◌, ◌∙◌, ◌∷◌, ◌≡◌, ◌≤◌,
}
use libpressio.Chunking.Arith.{index_2d, le_mul}
use libpressio.Chunking.Blocks.{loop, numbered, max_idx, copies_2d}
use libpressio.Chunking.Copies.{
  Fits, block_2d, froms_2d, fast, slow, guarded, unguarded, offset_2d, and_true, wrap,
}
use libpressio.Chunking.Loops.{loop_cong, length-loop, loop-numbered_zero}

pub length-block_2d : (d0 d1 b0 b1 i j : ℕ) → length (block_2d d0 d1 b0 b1 i j) ≡ b1 * (b0 * 1)
length-block_2d d0 d1 b0 b1 i j =
    length-loop 0 b1 (b0 * 1) _ (λ ej. length-loop 0 b0 1 _ (λ ei. refl))

offset :
    (i j ei ej b0 b1 d0 : ℕ)
    → i * b0 + j * b1 * d0 + ei + ej * d0 ≡ (i * b0 + ei) + (j * b1 + ej) * d0
offset i j ei ej b0 b1 d0 = omega arith

pub both :
    (a b c d : Bool)
    → (a ≡ true → c ≡ true)
    → (b ≡ true → d ≡ true)
    → (a && b) ≡ true
    → (c && d) ≡ true
both a b c d f g h = let (p, q) = and_true a b h in rw (f p, g q) refl

module _ (d0 d1 b0 b1 : ℕ) (f0 : Fits d0 b0) (f1 : Fits d1 b1) (small : d0 * d1 < 2 ^ 64) where
  block_2d-quick :
      (i j : ℕ)
      → i < max_idx d0 b0
      → j < max_idx d1 b1
      → (ltb ((b0 * i + b0) % 2 ^ 64) d0 && ltb ((b1 * j + b1) % 2 ^ 64) d1) ≡ true
      → loop 0 b1
          (λ ej. loop 0 b0 (λ ei. some ((i * b0 + j * b1 * d0 + ei + ej * d0) % 2 ^ 64) ∷ []))
        ≡ block_2d d0 d1 b0 b1 i j
  block_2d-quick i j p q t = loop_cong 0 b1 _ _ (λ ej l l'. loop_cong 0 b0 _ _ (λ ei m m'.
      ap (λ o. o ∷ [])
        (unguarded (ltb (i * b0 + ei) d0 && ltb (j * b1 + ej) d1)
          (i * b0 + j * b1 * d0 + ei + ej * d0) ((i * b0 + ei) + (j * b1 + ej) * d0)
          (both _ _ _ _ (fast i ei d0 b0 f0 p (omega arith)) (fast j ej d1 b1 f1 q (omega arith)) t)
          (offset_2d _ (i * b0 + ei) (j * b1 + ej) d0 d1 (offset i j ei ej b0 b1 d0) small))))

  block_2d-checked :
      (i j : ℕ)
      → i < max_idx d0 b0
      → j < max_idx d1 b1
      → loop 0 b1 (λ ej. loop 0 b0 (λ ei.
        (if ltb ((ei + i * b0) % 2 ^ 64) d0 && ltb ((ej + j * b1) % 2 ^ 64) d1
          then some ((i * b0 + j * b1 * d0 + ei + ej * d0) % 2 ^ 64)
          else none)
        ∷ []))
        ≡ block_2d d0 d1 b0 b1 i j
  block_2d-checked i j p q = loop_cong 0 b1 _ _ (λ ej l l'. loop_cong 0 b0 _ _ (λ ei m m'.
      ap (λ t. (if t then some ((i * b0 + j * b1 * d0 + ei + ej * d0) % 2 ^ 64) else none) ∷ [])
        (ap₂ ◌&&◌ (slow i ei d0 b0 f0 p (omega arith)) (slow j ej d1 b1 f1 q (omega arith)))
      ∙ ap (λ o. o ∷ [])
          (guarded (ltb (i * b0 + ei) d0 && ltb (j * b1 + ej) d1) _ _
            (offset_2d _ (i * b0 + ei) (j * b1 + ej) d0 d1 (offset i j ei ej b0 b1 d0) small))))

  start :
      (i j : ℕ)
      → i < max_idx d0 b0
      → j < max_idx d1 b1
      → max_idx d0 b0 * max_idx d1 b1 * (b0 * b1) < 2 ^ 64
      → (i + j * max_idx d0 b0) * (b0 * b1) % 2 ^ 64
        ≡ (0 + j * (max_idx d0 b0 * (b1 * (b0 * 1)))) + i * (b1 * (b0 * 1))
  start i j p q h =
      let n = (i + j * max_idx d0 b0) * (b0 * b1) in
      let inside = index_2d i j (max_idx d0 b0) (max_idx d1 b1) p q in
      let least : n ≤ max_idx d0 b0 * max_idx d1 b1 * (b0 * b1) =
        le_mul (i + j * max_idx d0 b0) (max_idx d0 b0 * max_idx d1 b1) (b0 * b1)
          (omega (arith, inside)) in
      wrap n (omega (arith, least)) ∙ omega arith

  pub copies_2d-numbered :
      max_idx d0 b0 * max_idx d1 b1 * (b0 * b1) < 2 ^ 64
      → copies_2d d0 d1 b0 b1 ≡ numbered 0 (froms_2d d0 d1 b0 b1)
  unfolding copies_2d
  copies_2d-numbered h =
      loop-numbered_zero (max_idx d1 b1) 0 (max_idx d0 b0 * (b1 * (b0 * 1))) _ _
        (λ j.
          length-loop 0 (max_idx d0 b0) (b1 * (b0 * 1)) _ (λ i. length-block_2d d0 d1 b0 b1 i j))
        (λ j q.
          loop-numbered_zero (max_idx d0 b0) (0 + j * (max_idx d0 b0 * (b1 * (b0 * 1))))
            (b1 * (b0 * 1)) _ _ (λ i. length-block_2d d0 d1 b0 b1 i j)
            (λ i p.
              elim (Bool-cases
                (ltb ((b0 * i + b0) % 2 ^ 64) d0 && ltb ((b1 * j + b1) % 2 ^ 64) d1)) [
                  | inl t ↦ rw (t, start i j p q h) (ap (numbered _) (block_2d-quick i j p q t))
                  | inr t ↦ rw (t, start i j p q h) (ap (numbered _) (block_2d-checked i j p q))
                ]))
