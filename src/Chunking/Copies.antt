-- ===== src/Chunking/Copies.antt =====
-- What the copies of a buffer of one, two or three dimensions are: the blocks are numbered from 0 on,
-- and each of their elements that lies in the buffer is copied from its index there.
use libpressio.Base.{
  Bool, Bool-cases, List, Option, [], ap, arith, false, if◌then◌else◌, inl, inr, ltb, lt→ltb,
  ltb→lt, none, refl, some, true, ℕ, ◌%◌, ◌&&◌, ◌*◌, ◌+◌, ◌<◌, ◌^◌, ◌∙◌, ◌∷◌, ◌≡◌,
}
use libpressio.Chunking.Arith.{padded, index_2d, index_3d, le_mul}
use libpressio.Chunking.Blocks.{loop, numbered, max_idx, copies_1d}
use libpressio.Chunking.Loops.{loop_cong, length-loop, loop-numbered_zero}

-- The index of an element, if it is in bounds.
abbrev pub entry_1d : ℕ → ℕ → Option ℕ
entry_1d d0 x = if ltb x d0 then some x else none

abbrev pub entry_2d : ℕ → ℕ → ℕ → ℕ → Option ℕ
entry_2d d0 d1 x y = if ltb x d0 && ltb y d1 then some (x + y * d0) else none

abbrev pub entry_3d : ℕ → ℕ → ℕ → ℕ → ℕ → ℕ → Option ℕ
entry_3d d0 d1 d2 x y z =
    if ltb x d0 && (ltb y d1 && ltb z d2) then some (x + y * d0 + z * (d0 * d1)) else none

-- The elements of a block, in the order of the blocks' memory.
abbrev pub block_1d : ℕ → ℕ → ℕ → List (Option ℕ)
block_1d d0 b0 i = loop 0 b0 (λ ei. entry_1d d0 (i * b0 + ei) ∷ [])

abbrev pub block_2d : ℕ → ℕ → ℕ → ℕ → ℕ → ℕ → List (Option ℕ)
block_2d d0 d1 b0 b1 i j =
    loop 0 b1 (λ ej. loop 0 b0 (λ ei. entry_2d d0 d1 (i * b0 + ei) (j * b1 + ej) ∷ []))

abbrev pub block_3d : ℕ → ℕ → ℕ → ℕ → ℕ → ℕ → ℕ → ℕ → ℕ → List (Option ℕ)
block_3d d0 d1 d2 b0 b1 b2 i j k = loop 0 b2 (λ ek.
    loop 0 b1
      (λ ej. loop 0 b0 (λ ei. entry_3d d0 d1 d2 (i * b0 + ei) (j * b1 + ej) (k * b2 + ek) ∷ [])))

-- All elements.
abbrev pub froms_1d : ℕ → ℕ → List (Option ℕ)
froms_1d d0 b0 = loop 0 (max_idx d0 b0) (block_1d d0 b0)

abbrev pub froms_2d : ℕ → ℕ → ℕ → ℕ → List (Option ℕ)
froms_2d d0 d1 b0 b1 =
    loop 0 (max_idx d1 b1) (λ j. loop 0 (max_idx d0 b0) (λ i. block_2d d0 d1 b0 b1 i j))

abbrev pub froms_3d : ℕ → ℕ → ℕ → ℕ → ℕ → ℕ → List (Option ℕ)
froms_3d d0 d1 d2 b0 b1 b2 = loop 0 (max_idx d2 b2) (λ k.
    loop 0 (max_idx d1 b1) (λ j. loop 0 (max_idx d0 b0) (λ i. block_3d d0 d1 d2 b0 b1 b2 i j k)))

pub wrap : (n : ℕ) → n < 2 ^ 64 → n % 2 ^ 64 ≡ n
wrap n h = omega arith

-- What a dimension and its blocks must be for sums not to wrap around.
pub record Fits (d b : ℕ) : Type 0 where
  pub positive : 0 < b
  pub small : max_idx d b * b < 2 ^ 64

pub block_end : (i d b : ℕ) → Fits d b → i < max_idx d b → b * i + b < 2 ^ 64
block_end i d b f h = grind (arith, f.small, le_mul (i + 1) (max_idx d b) b)

block_index : (i e d b : ℕ) → Fits d b → i < max_idx d b → e < b → i * b + e < 2 ^ 64
block_index i e d b f h k = omega (arith, f.small, padded i e d b h k)

-- The test of the quick branch: every element of the block is in bounds.
pub fast :
    (i e d b : ℕ)
    → Fits d b
    → i < max_idx d b
    → e < b
    → ltb ((b * i + b) % 2 ^ 64) d ≡ true
    → ltb (i * b + e) d ≡ true
fast i e d b f h k t = lt→ltb (i * b + e) d (grind (arith, wrap (b * i + b) (block_end i d b f h)))

-- The test of the other.
pub slow :
    (i e d b : ℕ)
    → Fits d b
    → i < max_idx d b
    → e < b
    → ltb ((e + i * b) % 2 ^ 64) d ≡ ltb (i * b + e) d
slow i e d b f h k =
    ap (λ t. ltb t d) (wrap (e + i * b) (omega (arith, block_index i e d b f h k)) ∙ omega arith)

pub and_true : (a b : Bool) → (a && b) ≡ true → (a ≡ true) × (b ≡ true)
and_true a b h = ground arith

-- An index is given under a test that it stands in bounds.
pub guarded :
    (t : Bool) (offset index : ℕ)
    → (t ≡ true → offset % 2 ^ 64 ≡ index)
    → (if t then some (offset % 2 ^ 64) else none) ≡ (if t then some index else none)
guarded true offset index h = ap some (h refl)
guarded false offset index h = refl

pub unguarded :
    (t : Bool) (offset index : ℕ)
    → t ≡ true
    → (t ≡ true → offset % 2 ^ 64 ≡ index)
    → some (offset % 2 ^ 64) ≡ (if t then some index else none)
unguarded t offset index e h = rw e (ap some (h e))

offset_1d : (x d0 : ℕ) → d0 < 2 ^ 64 → ltb x d0 ≡ true → x % 2 ^ 64 ≡ x
offset_1d x d0 h t = omega (arith, ltb→lt x d0 t)

pub offset_2d :
    (offset x y d0 d1 : ℕ)
    → offset ≡ x + y * d0
    → d0 * d1 < 2 ^ 64
    → (ltb x d0 && ltb y d1) ≡ true
    → offset % 2 ^ 64 ≡ x + y * d0
offset_2d offset x y d0 d1 e h t =
    let (p, q) = and_true (ltb x d0) (ltb y d1) t in
    omega (arith, e, index_2d x y d0 d1 (ltb→lt x d0 p) (ltb→lt y d1 q))

pub offset_3d :
    (offset x y z d0 d1 d2 : ℕ)
    → offset ≡ x + y * d0 + z * (d0 * d1)
    → d0 * d1 * d2 < 2 ^ 64
    → (ltb x d0 && (ltb y d1 && ltb z d2)) ≡ true
    → offset % 2 ^ 64 ≡ x + y * d0 + z * (d0 * d1)
offset_3d offset x y z d0 d1 d2 e h t =
    let (p, qr) = and_true (ltb x d0) (ltb y d1 && ltb z d2) t in
    let (q, r) = and_true (ltb y d1) (ltb z d2) qr in
    omega (arith, e, index_3d x y z d0 d1 d2 (ltb→lt x d0 p) (ltb→lt y d1 q) (ltb→lt z d2 r))

pub copies_1d-numbered :
    (d0 b0 : ℕ) → Fits d0 b0 → d0 < 2 ^ 64 → copies_1d d0 b0 ≡ numbered 0 (froms_1d d0 b0)
unfolding copies_1d
copies_1d-numbered d0 b0 f h =
    loop-numbered_zero (max_idx d0 b0) 0 (b0 * 1) _ (block_1d d0 b0)
      (λ i. length-loop 0 b0 1 _ (λ e. refl))
      (λ i p.
        let start : i * b0 % 2 ^ 64 ≡ 0 + i * (b0 * 1) = omega (arith, block_end i d0 b0 f p) in
        elim (Bool-cases (ltb ((b0 * i + b0) % 2 ^ 64) d0)) [
          | inl t ↦
              rw (t, start)
                (ap (numbered (0 + i * (b0 * 1))) (
                  loop_cong 0 b0 _ _ (λ e q r.
                    let k : e < b0 = omega arith in
                    ap (λ o. o ∷ [])
                      (unguarded (ltb (i * b0 + e) d0) (i * b0 + e) (i * b0 + e)
                        (fast i e d0 b0 f p k t) (offset_1d (i * b0 + e) d0 h)))))
          | inr t ↦
              rw (t, start)
                (ap (numbered (0 + i * (b0 * 1))) (
                  loop_cong 0 b0 _ _ (λ e q r.
                    let k : e < b0 = omega arith in
                    ap (λ t. (if t then some ((i * b0 + e) % 2 ^ 64) else none) ∷ [])
                      (slow i e d0 b0 f p k)
                    ∙ ap (λ o. o ∷ [])
                        (guarded (ltb (i * b0 + e) d0) (i * b0 + e) (i * b0 + e)
                          (offset_1d (i * b0 + e) d0 h)))))
        ])
