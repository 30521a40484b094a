-- ===== src/Chunking/Loops.antt =====
-- Loops over copies: the copies of a nest of loops are numbered from 0 on.
use libpressio.Base.{
  All, List, Option, [], ap, arith, inl, inr, length, length-append, refl, suc, sym, zero, ℕ, ◌*◌,
  ◌++◌, ◌+◌, ◌<◌, ◌∙◌, ◌∷◌, ◌≡◌, ◌≤◌, ◌⊎◌,
}
use native.Mathlib.Decide.{ℕ_discrete}
use libpressio.Chunking.Blocks.{Copy, loop, numbered}

module _ {ℓ} {A : Type ℓ} where
  -- The rounds that are made do not differ.
  pub loop_cong :
      (i n : ℕ) (f g : ℕ → List A)
      → ((k : ℕ) → i ≤ k → k < i + n → f k ≡ g k)
      → loop i n f ≡ loop i n g
  unfolding loop
  loop_cong i zero f g h = refl
  loop_cong i (suc n) f g h =
      rw
        (
          h i (omega arith) (omega arith),
          loop_cong (suc i) n f g (λ k p q. h k (omega arith) (omega arith)),
        )
        refl

  pub length-loop :
      (i n l : ℕ) (f : ℕ → List A) → ((k : ℕ) → length (f k) ≡ l) → length (loop i n f) ≡ n * l
  unfolding loop
  length-loop i zero l f h = omega arith
  length-loop i (suc n) l f h =
      omega (arith, length-append (f i) (loop (suc i) n f), h i, length-loop (suc i) n l f h)

  pub All-append {κ} : (P : A → Type κ) (xs ys : List A) → All P xs → All P ys → All P (xs ++ ys)
  All-append P [] ys h k = k
  All-append P (x ∷ xs) ys h k = (h.0, All-append P xs ys h.1 k)

  pub All-loop {κ} :
      (P : A → Type κ) (i n : ℕ) (f : ℕ → List A) → ((k : ℕ) → All P (f k)) → All P (loop i n f)
  unfolding loop
  All-loop P i zero f h = tt
  All-loop P i (suc n) f h = All-append P (f i) (loop (suc i) n f) (h i) (All-loop P (suc i) n f h)

module _ {A : Type 0} where
  -- A member, by recursion.
  abbrev pub In : A → List A → Type 0
  In a [] = ⊥
  In a (x ∷ xs) = (x ≡ a) ⊎ In a xs

  In-append_left : (a : A) (xs ys : List A) → In a xs → In a (xs ++ ys)
  In-append_left a [] ys m = elim m [ ]
  In-append_left a (x ∷ xs) ys (inl e) = inl e
  In-append_left a (x ∷ xs) ys (inr m) = inr (In-append_left a xs ys m)

  In-append_right : (a : A) (xs ys : List A) → In a ys → In a (xs ++ ys)
  In-append_right a [] ys m = m
  In-append_right a (x ∷ xs) ys m = inr (In-append_right a xs ys m)

  pub In-loop :
      (a : A) (k i n : ℕ) (f : ℕ → List A) → i ≤ k → k < i + n → In a (f k) → In a (loop i n f)
  unfolding loop
  In-loop a k i zero f p q m = absurd (omega arith)
  In-loop a k i (suc n) f p q m = elim (ℕ_discrete k i) [
    | yes e ↦ In-append_left a (f i) (loop (suc i) n f) (rw e at m)
    | no d ↦
        In-append_right a (f i) (loop (suc i) n f)
          (In-loop a k (suc i) n f (omega arith) (omega arith) m)
  ]

pub length-numbered : (s : ℕ) (fs : List (Option ℕ)) → length (numbered s fs) ≡ length fs
unfolding numbered
length-numbered s [] = refl
length-numbered s (f ∷ fs) = ap suc (length-numbered (suc s) fs)

numbered-append :
    (s : ℕ) (fs gs : List (Option ℕ))
    → numbered s (fs ++ gs) ≡ numbered s fs ++ numbered (s + length fs) gs
unfolding numbered
numbered-append s [] gs = ap (λ k. numbered k gs) (omega arith)
numbered-append s (f ∷ fs) gs =
    ap (λ t. record { to = s; from = f } ∷ t)
      (numbered-append (suc s) fs gs ∙ ap (λ k. numbered (suc s) fs ++ numbered k gs) (omega arith))

-- A loop whose rounds are numbered one after another is numbered.
pub loop-numbered :
    (i n s l : ℕ) (cs : ℕ → List Copy) (fs : ℕ → List (Option ℕ))
    → ((k : ℕ) → length (fs k) ≡ l)
    → ((k : ℕ) → i ≤ k → k < i + n → cs k ≡ numbered (s + (k * l)) (fs k))
    → loop i n cs ≡ numbered (s + i * l) (loop i n fs)
unfolding loop numbered
loop-numbered i zero s l cs fs h e = refl
loop-numbered i (suc n) s l cs fs h e =
    let rest = loop-numbered (suc i) n s l cs fs h (λ k p q. e k (omega arith) (omega arith)) in
    let next : s + suc i * l ≡ s + i * l + length (fs i) = omega (arith, h i) in
    rw (e i (omega arith) (omega arith), rest, next)
      (sym (numbered-append (s + i * l) (fs i) (loop (suc i) n fs)))

pub loop-numbered_zero :
    (n s l : ℕ) (cs : ℕ → List Copy) (fs : ℕ → List (Option ℕ))
    → ((k : ℕ) → length (fs k) ≡ l)
    → ((k : ℕ) → k < n → cs k ≡ numbered (s + (k * l)) (fs k))
    → loop 0 n cs ≡ numbered s (loop 0 n fs)
loop-numbered_zero n s l cs fs h e =
    loop-numbered 0 n s l cs fs h (λ k p q. e k (omega arith))
    ∙ ap (λ t. numbered t (loop 0 n fs)) (omega arith)
