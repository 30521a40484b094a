-- ===== src/Chunking/Contigous.antt =====
-- The chunks of a buffer whose chunks lie in it one after another.
use libpressio.Base.{
  Bool, List, Option, [], ap, arith, none, refl, some, suc, true, zero, ltb, lt→ltb, ℕ, ◌&&◌, ◌*◌,
  ◌++◌, ◌+◌, ◌<◌, ◌∙◌, ◌∷◌, ◌≡◌, ◌≤◌, if◌then◌else◌,
}
use libpressio.Chunking.Arith.{padded}
use libpressio.Chunking.Blocks.{loop, max_idx}
use libpressio.Chunking.Copies.{froms_1d, froms_2d, froms_3d}

-- The indices from `s` on.
abbrev pub range : ℕ → ℕ → List (Option ℕ)
range s zero = []
range s (suc n) = some s ∷ range (suc s) n

range_cong : (s t m n : ℕ) → s ≡ t → m ≡ n → range s m ≡ range t n
range_cong s t m n p q = rw (p, q) refl

range-append : (s m n : ℕ) → range s m ++ range (s + m) n ≡ range s (m + n)
range-append s zero n = range_cong (s + 0) s n (0 + n) (omega arith) (omega arith)
range-append s (suc m) n =
    ap (λ t. some s ∷ (range (suc s) m ++ t))
      (range_cong (s + suc m) (suc s + m) n n (omega arith) refl)
    ∙ ap (λ t. some s ∷ t) (range-append (suc s) m n)
    ∙ range_cong s s (suc (m + n)) (suc m + n) refl (omega arith)

loop-range_from :
    (i n s l : ℕ) (f : ℕ → List (Option ℕ))
    → ((k : ℕ) → i ≤ k → k < i + n → f k ≡ range (s + k * l) l)
    → loop i n f ≡ range (s + i * l) (n * l)
unfolding loop
loop-range_from i zero s l f h = range_cong (s + i * l) (s + i * l) 0 (0 * l) refl (omega arith)
loop-range_from i (suc n) s l f h =
    let rest = loop-range_from (suc i) n s l f (λ k p q. h k (omega arith) (omega arith)) in
    let next : s + suc i * l ≡ s + i * l + l = omega arith in
    rw (h i (omega arith) (omega arith), rest, next)
      (range-append (s + i * l) l (n * l)
        ∙ range_cong (s + i * l) (s + i * l) (l + n * l) (suc n * l) refl (omega arith))

-- A loop whose rounds are ranges one after another.
loop-range :
    (n s l : ℕ) (f : ℕ → List (Option ℕ))
    → ((k : ℕ) → k < n → f k ≡ range (s + k * l) l)
    → loop 0 n f ≡ range s (n * l)
loop-range n s l f h =
    loop-range_from 0 n s l f (λ k p q. h k (omega arith))
    ∙ range_cong (s + 0 * l) s (n * l) (n * l) (omega arith) refl

-- A dimension that its blocks divide.
abbrev pub Divides : ℕ → ℕ → Type 0
Divides b d = max_idx d b * b ≡ d

inside_block : (i e d b : ℕ) → Divides b d → i < max_idx d b → e < b → ltb (i * b + e) d ≡ true
inside_block i e d b w h k = lt→ltb (i * b + e) d (omega (arith, w, padded i e d b h k))

entry-some : (t : Bool) (o p : ℕ) → t ≡ true → o ≡ p → (if t then some o else none) ∷ [] ≡ range p 1
entry-some t o p h e = rw (h, e) refl

both_true : (s t : Bool) → s ≡ true → t ≡ true → (s && t) ≡ true
both_true s t h k = rw (h, k) refl

pub froms_1d-range :
    (d0 b0 : ℕ) → Divides b0 d0 → froms_1d d0 b0 ≡ range 0 (max_idx d0 b0 * (b0 * 1))
froms_1d-range d0 b0 w0 = loop-range (max_idx d0 b0) 0 (b0 * 1) _ (λ i p.
    loop-range b0 (0 + i * (b0 * 1)) 1 _ (λ ei p'.
      entry-some (ltb (i * b0 + ei) d0) (i * b0 + ei) _ (inside_block i ei d0 b0 w0 p p')
        (omega arith)))

-- Elements of a plane lie where they do in its blocks.
pub froms_2d-range :
    (d0 d1 b0 b1 : ℕ)
    → Divides b0 d0
    → Divides b1 d1
    → ((i j ei ej : ℕ)
        → i < max_idx d0 b0
        → j < max_idx d1 b1
        → ei < b0
        → ej < b1
        → i * b0 + ei + (j * b1 + ej) * d0
          ≡ 0
            + j * (max_idx d0 b0 * (b1 * (b0 * 1)))
            + i * (b1 * (b0 * 1))
            + ej * (b0 * 1)
            + ei * 1)
    → froms_2d d0 d1 b0 b1 ≡ range 0 (max_idx d1 b1 * (max_idx d0 b0 * (b1 * (b0 * 1))))
froms_2d-range d0 d1 b0 b1 w0 w1 h = loop-range (max_idx d1 b1) 0 _ _ (λ j q.
    loop-range (max_idx d0 b0) _ _ _ (λ i p. loop-range b1 _ _ _ (λ ej q'.
      loop-range b0 _ 1 _ (λ ei p'.
        entry-some (ltb (i * b0 + ei) d0 && ltb (j * b1 + ej) d1) (i * b0 + ei + (j * b1 + ej) * d0)
          _ (both_true _ _ (inside_block i ei d0 b0 w0 p p') (inside_block j ej d1 b1 w1 q q'))
          (h i j ei ej p q p' q')))))

pub froms_3d-range :
    (d0 d1 d2 b0 b1 b2 : ℕ)
    → Divides b0 d0
    → Divides b1 d1
    → Divides b2 d2
    → ((i j k ei ej ek : ℕ)
        → i < max_idx d0 b0
        → j < max_idx d1 b1
        → k < max_idx d2 b2
        → ei < b0
        → ej < b1
        → ek < b2
        → i * b0 + ei + (j * b1 + ej) * d0 + (k * b2 + ek) * (d0 * d1)
          ≡ 0
            + k * (max_idx d1 b1 * (max_idx d0 b0 * (b2 * (b1 * (b0 * 1)))))
            + j * (max_idx d0 b0 * (b2 * (b1 * (b0 * 1))))
            + i * (b2 * (b1 * (b0 * 1)))
            + ek * (b1 * (b0 * 1))
            + ej * (b0 * 1)
            + ei * 1)
    → froms_3d d0 d1 d2 b0 b1 b2
      ≡ range 0 (max_idx d2 b2 * (max_idx d1 b1 * (max_idx d0 b0 * (b2 * (b1 * (b0 * 1))))))
froms_3d-range d0 d1 d2 b0 b1 b2 w0 w1 w2 h = loop-range (max_idx d2 b2) 0 _ _ (λ k r.
    loop-range (max_idx d1 b1) _ _ _ (λ j q. loop-range (max_idx d0 b0) _ _ _ (λ i p.
      loop-range b2 _ _ _ (λ ek r'. loop-range b1 _ _ _ (λ ej q'. loop-range b0 _ 1 _ (λ ei p'.
        entry-some (ltb (i * b0 + ei) d0 && (ltb (j * b1 + ej) d1 && ltb (k * b2 + ek) d2))
          (i * b0 + ei + (j * b1 + ej) * d0 + (k * b2 + ek) * (d0 * d1)) _
          (both_true _ _ (inside_block i ei d0 b0 w0 p p')
            (both_true _ _ (inside_block j ej d1 b1 w1 q q') (inside_block k ek d2 b2 w2 r r')))
          (h i j k ei ej ek p q r p' q' r')))))))
