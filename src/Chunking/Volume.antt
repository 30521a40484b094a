-- ===== src/Chunking/Volume.antt =====
-- The copies of a buffer of three dimensions, as Copies.antt has those of one.
use libpressio.Base.{
  Bool, Bool-cases, [], ap, ap₂, arith, if◌then◌else◌, inl, inr, length, ltb, none, refl, some,
  true, ℕ, ◌%◌, ◌&&◌, ◌*◌, ◌+◌, ◌<◌, ◌^◌, ◌∙◌, ◌∷◌, ◌≡◌, ◌≤◌,
}
use libpressio.Chunking.Arith.{index_3d, le_mul}
use libpressio.Chunking.Blocks.{loop, numbered, max_idx, copies_3d, copies_3d_by, as_int}
use libpressio.Chunking.Copies.{
  Fits, block_3d, froms_3d, fast, slow, guarded, unguarded, offset_3d, wrap,
}
use libpressio.Chunking.Loops.{loop_cong, length-loop, loop-numbered_zero}
use libpressio.Chunking.Plane.{both}

pub as_int-small : (n : ℕ) → n < 2 ^ 31 → as_int n ≡ n
unfolding as_int
as_int-small n h =
    let wrapped : n % 2 ^ 32 ≡ n = omega (arith, h) in
    let small : ltb n (2 ^ 31) ≡ true = ground (arith, h) in rw (wrapped, small) refl

le-product : (a b : ℕ) → 0 < b → a ≤ a * b
le-product a b h = grind arith

pub length-block_3d :
    (d0 d1 d2 b0 b1 b2 i j k : ℕ) → length (block_3d d0 d1 d2 b0 b1 b2 i j k) ≡ b2 * (b1 * (b0 * 1))
length-block_3d d0 d1 d2 b0 b1 b2 i j k =
    length-loop 0 b2 (b1 * (b0 * 1)) _
      (λ ek. length-loop 0 b1 (b0 * 1) _ (λ ej. length-loop 0 b0 1 _ (λ ei. refl)))

module _ (d0 d1 d2 b0 b1 b2 : ℕ) (f0 : Fits d0 b0) (f1 : Fits d1 b1) (f2 : Fits d2 b2)
    (small : d0 * d1 * d2 < 2 ^ 64) where
  -- The index that the source adds up.
  abbrev offset : ℕ → ℕ → ℕ → ℕ → ℕ → ℕ → ℕ
  offset i j k ei ej ek = i * b0 + j * d0 * b1 + k * (d0 * d1) * b2 + ei + ej * d0 + ek * (d0 * d1)

  abbrev inside : ℕ → ℕ → ℕ → ℕ → ℕ → ℕ → Bool
  inside i j k ei ej ek = ltb (i * b0 + ei) d0 && (ltb (j * b1 + ej) d1 && ltb (k * b2 + ek) d2)

  offset_lem :
      (i j k ei ej ek : ℕ)
      → inside i j k ei ej ek ≡ true
      → offset i j k ei ej ek % 2 ^ 64
        ≡ (i * b0 + ei) + (j * b1 + ej) * d0 + (k * b2 + ek) * (d0 * d1)
  offset_lem i j k ei ej ek =
      offset_3d _ (i * b0 + ei) (j * b1 + ej) (k * b2 + ek) d0 d1 d2 (omega arith) small

  block_3d-quick :
      (i j k : ℕ)
      → i < max_idx d0 b0
      → j < max_idx d1 b1
      → k < max_idx d2 b2
      → (ltb ((b0 * i + b0) % 2 ^ 64) d0
          && (ltb ((b1 * j + b1) % 2 ^ 64) d1 && ltb ((b2 * k + b2) % 2 ^ 64) d2))
        ≡ true
      → loop 0 b2
          (λ ek. loop 0 b1 (λ ej. loop 0 b0 (λ ei. some (offset i j k ei ej ek % 2 ^ 64) ∷ [])))
        ≡ block_3d d0 d1 d2 b0 b1 b2 i j k
  block_3d-quick i j k p q r t = loop_cong 0 b2 _ _ (λ ek n n'. loop_cong 0 b1 _ _ (λ ej l l'.
      loop_cong 0 b0 _ _ (λ ei m m'.
        ap (λ o. o ∷ [])
          (unguarded (inside i j k ei ej ek) (offset i j k ei ej ek) _
            (both _ _ _ _ (fast i ei d0 b0 f0 p (omega arith))
              (both _ _ _ _ (fast j ej d1 b1 f1 q (omega arith))
                (fast k ek d2 b2 f2 r (omega arith)))
              t)
            (offset_lem i j k ei ej ek)))))

  block_3d-checked :
      (i j k : ℕ)
      → i < max_idx d0 b0
      → j < max_idx d1 b1
      → k < max_idx d2 b2
      → loop 0 b2 (λ ek. loop 0 b1 (λ ej. loop 0 b0 (λ ei.
        (if ltb ((ei + i * b0) % 2 ^ 64) d0
            && (ltb ((ej + j * b1) % 2 ^ 64) d1 && ltb ((ek + k * b2) % 2 ^ 64) d2)
          then some (offset i j k ei ej ek % 2 ^ 64)
          else none)
        ∷ [])))
        ≡ block_3d d0 d1 d2 b0 b1 b2 i j k
  block_3d-checked i j k p q r = loop_cong 0 b2 _ _ (λ ek n n'. loop_cong 0 b1 _ _ (λ ej l l'.
      loop_cong 0 b0 _ _ (λ ei m m'.
        ap (λ t. (if t then some (offset i j k ei ej ek % 2 ^ 64) else none) ∷ [])
          (ap₂ ◌&&◌ (slow i ei d0 b0 f0 p (omega arith))
            (ap₂ ◌&&◌ (slow j ej d1 b1 f1 q (omega arith)) (slow k ek d2 b2 f2 r (omega arith))))
        ∙ ap (λ o. o ∷ [])
            (guarded (inside i j k ei ej ek) (offset i j k ei ej ek) _
              (offset_lem i j k ei ej ek)))))

  start :
      (i j k : ℕ)
      → i < max_idx d0 b0
      → j < max_idx d1 b1
      → k < max_idx d2 b2
      → max_idx d0 b0 * max_idx d1 b1 * max_idx d2 b2 * (b0 * b1 * b2) < 2 ^ 64
      → (i + j * max_idx d0 b0 + k * (max_idx d0 b0 * max_idx d1 b1)) * (b0 * b1 * b2) % 2 ^ 64
        ≡ (0
            + k * (max_idx d1 b1 * (max_idx d0 b0 * (b2 * (b1 * (b0 * 1)))))
            + j * (max_idx d0 b0 * (b2 * (b1 * (b0 * 1)))))
          + i * (b2 * (b1 * (b0 * 1)))
  start i j k p q r h =
      let m = i + j * max_idx d0 b0 + k * (max_idx d0 b0 * max_idx d1 b1) in
      let all = max_idx d0 b0 * max_idx d1 b1 * max_idx d2 b2 in
      let least : m * (b0 * b1 * b2) ≤ all * (b0 * b1 * b2) =
        le_mul m all (b0 * b1 * b2)
          (omega (arith, index_3d i j k (max_idx d0 b0) (max_idx d1 b1) (max_idx d2 b2) p q r)) in
      wrap (m * (b0 * b1 * b2)) (omega (arith, least)) ∙ omega arith

  copies_3d_by-numbered :
      max_idx d0 b0 * max_idx d1 b1 * max_idx d2 b2 * (b0 * b1 * b2) < 2 ^ 64
      → copies_3d_by d0 (d0 * d1) d0 d1 d2 b0 b1 b2 ≡ numbered 0 (froms_3d d0 d1 d2 b0 b1 b2)
  unfolding copies_3d_by
  copies_3d_by-numbered h =
      let l = b2 * (b1 * (b0 * 1)) in
      let m0 = max_idx d0 b0 in
      let m1 = max_idx d1 b1 in
      let row = λ (k j : ℕ). length-loop 0 m0 l _ (λ i. length-block_3d d0 d1 d2 b0 b1 b2 i j k) in
      loop-numbered_zero (max_idx d2 b2) 0 (m1 * (m0 * l)) _ _
        (λ k. length-loop 0 m1 (m0 * l) _ (row k))
        (λ k r. loop-numbered_zero m1 (0 + k * (m1 * (m0 * l))) (m0 * l) _ _ (row k) (λ j q.
          loop-numbered_zero m0 (0 + k * (m1 * (m0 * l)) + j * (m0 * l)) l _ _
            (λ i. length-block_3d d0 d1 d2 b0 b1 b2 i j k)
            (λ i p.
              elim (Bool-cases (
                ltb ((b0 * i + b0) % 2 ^ 64) d0
                && (ltb ((b1 * j + b1) % 2 ^ 64) d1 && ltb ((b2 * k + b2) % 2 ^ 64) d2))) [
                  | inl t ↦
                      rw (t, start i j k p q r h) (ap (numbered _) (block_3d-quick i j k p q r t))
                  | inr t ↦
                      rw (t, start i j k p q r h) (ap (numbered _) (block_3d-checked i j k p q r))
                ])))

  pub copies_3d-numbered :
      0 < d1
      → d0 * d1 < 2 ^ 31
      → max_idx d0 b0 * max_idx d1 b1 * max_idx d2 b2 * (b0 * b1 * b2) < 2 ^ 64
      → copies_3d d0 d1 d2 b0 b1 b2 ≡ numbered 0 (froms_3d d0 d1 d2 b0 b1 b2)
  unfolding copies_3d
  copies_3d-numbered h k l =
      let first = as_int-small d0 (omega (arith, k, le-product d0 d1 h)) in
      let second = ap (λ s. as_int (s * d1)) first ∙ as_int-small (d0 * d1) k in
      ap₂ (λ s t. copies_3d_by s t d0 d1 d2 b0 b1 b2) first second ∙ copies_3d_by-numbered l
