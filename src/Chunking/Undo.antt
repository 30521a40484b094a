-- ===== src/Chunking/Undo.antt =====
-- Copies that are numbered from 0 on fill the blocks, and bring back what they took.
use libpressio.Base.{
  All, List, Option, [], ap, arith, get_elem?, get_or, inl, inr, length, length-append, map, none,
  refl, some, subst, suc, sym, zero, ℕ, ◌++◌, ◌<◌, ◌∙◌, ◌∷◌, ◌≡◌, ◌≢◌, ◌⊎◌,
}
use mathlib.Core.List.{append_assoc}
use native.Mathlib.Decide.{ℕ_discrete}
use libpressio.Memory.Heap.{returns}
use libpressio.Chunking.Blocks.{Copy, numbered}
use libpressio.Chunking.Inside.{InRange}
use libpressio.Chunking.Loops.{In}
use libpressio.Chunking.Run.{at, store, value, run_to, run_from, copy_back}

module _ {A : Type 0} where
  -- What an element of the blocks holds.
  abbrev pub content : A → List A → Option ℕ → A
  content nil xs none = nil
  content nil xs (some o) = get_or xs o nil

  get-in : (nil : A) (xs : List A) (o : ℕ) → o < length xs → get_elem? xs o ≡ some (get_or xs o nil)
  get-in nil [] o h = absurd (omega arith)
  get-in nil (x ∷ xs) zero h = refl
  get-in nil (x ∷ xs) (suc o) h = get-in nil xs o (omega arith)

  value-content :
      (nil : A) (xs : List A) (f : Option ℕ)
      → InRange (length xs) f
      → value nil xs f ≡ returns (content nil xs f)
  unfolding value
  value-content nil xs none h = refl
  value-content nil xs (some o) h = ap at (get-in nil xs o h)

  store-append :
      (before rest : List A) (v x : A)
      → store (length before) v (before ++ (x ∷ rest)) ≡ returns ((before ++ (v ∷ [])) ++ rest)
  unfolding store
  store-append [] rest v x = refl
  store-append (b ∷ before) rest v x = rw (store-append before rest v x) refl

  get-append :
      (before rest : List A) (v : A) → get_elem? (before ++ (v ∷ rest)) (length before) ≡ some v
  get-append [] rest v = refl
  get-append (b ∷ before) rest v = get-append before rest v

  next : (before : List A) (v : A) → length (before ++ (v ∷ [])) ≡ suc (length before)
  next before v = omega (arith, length-append before (v ∷ []))

  pub run_to-numbered :
      (nil : A) (fs : List (Option ℕ)) (xs before rest : List A)
      → All (InRange (length xs)) fs
      → length rest ≡ length fs
      → run_to nil (numbered (length before) fs) xs (before ++ rest)
        ≡ returns (before ++ map (content nil xs) fs)
  unfolding run_to numbered
  run_to-numbered nil [] xs before [] h e = refl
  run_to-numbered nil [] xs before (x ∷ rest) h e = absurd (omega (arith, e))
  run_to-numbered nil (f ∷ fs) xs before [] h e = absurd (omega (arith, e))
  run_to-numbered nil (f ∷ fs) xs before (x ∷ rest) h e =
      let v = content nil xs f in
      rw (value-content nil xs f h.0, store-append before rest v x, sym (next before v))
        (run_to-numbered nil fs xs (before ++ (v ∷ [])) rest h.1 (omega (arith, e))
          ∙ ap returns (append_assoc before (v ∷ []) (map (content nil xs) fs)))

  -- The list after `ys[p] = v`.
  abbrev Stored : ℕ → A → List A → List A → Type 0
  Stored p v ys ys' =
      (store p v ys ≡ returns ys')
      × (length ys' ≡ length ys)
      × (get_elem? ys' p ≡ some v)
      × ((o : ℕ) → o ≢ p → get_elem? ys' o ≡ get_elem? ys o)

  stored : (p : ℕ) (v : A) (ys : List A) → p < length ys → (ys' : List A) × Stored p v ys ys'
  unfolding store
  stored p v [] h = absurd (omega arith)
  stored zero v (y ∷ ys) h = (v ∷ ys, (refl, refl, refl, later))
    where
      later : (o : ℕ) → o ≢ zero → get_elem? (v ∷ ys) o ≡ get_elem? (y ∷ ys) o
      later zero n = absurd (n refl)
      later (suc o) n = refl
  stored (suc p) v (y ∷ ys) h =
      let (ys', (e, l, here, there)) = stored p v ys (omega arith) in
      (y ∷ ys', (rw e refl, ap suc l, here, later p ys' there))
    where
      later :
          (p : ℕ) (ys' : List A)
          → ((o : ℕ) → o ≢ p → get_elem? ys' o ≡ get_elem? ys o)
          → (o : ℕ) → o ≢ suc p
          → get_elem? (y ∷ ys') o ≡ get_elem? (y ∷ ys) o
      later p ys' there zero n = refl
      later p ys' there (suc o) n = there o (λ e. n (ap suc e))

  -- A run with `copy_from_blocks`: where an element was copied, or was right before, it is right.
  abbrev Restored : List Copy → List A → List A → List A → List (Option ℕ) → Type 0
  Restored cs memory xs ys fs =
      (ys' : List A) × (run_from cs memory ys ≡ returns ys')
      × (length ys' ≡ length ys)
      × ((o : ℕ)
          → In (some o) fs ⊎ (get_elem? ys o ≡ get_elem? xs o)
          → get_elem? ys' o ≡ get_elem? xs o)

  pub run_from-numbered :
      (nil : A) (fs : List (Option ℕ)) (xs before ys : List A)
      → All (InRange (length xs)) fs
      → length ys ≡ length xs
      → Restored (numbered (length before) fs) (before ++ map (content nil xs) fs) xs ys fs
  unfolding run_from numbered copy_back
  run_from-numbered nil [] xs before ys h e =
      (ys, refl, refl, λ o. elim [ inl m ↦ elim m [ ] | inr s ↦ s ])
  run_from-numbered nil (none ∷ fs) xs before ys h e =
      let (ys', r, l, same) = run_from-numbered nil fs xs (before ++ (nil ∷ [])) ys h.1 e in
      (
        ys',
        rw (sym (next before nil), sym (append_assoc before (nil ∷ []) (map (content nil xs) fs)))
            r,
        l,
        λ o. elim [ inl (inl c) ↦ cc | inl (inr m) ↦ same o (inl m) | inr s ↦ same o (inr s) ],
      )
  run_from-numbered nil (some p ∷ fs) xs before ys h e =
      let v = get_or xs p nil in
      let (ys₁, (st, l₁, here, there)) = stored p v ys (omega (arith, e, h.0)) in
      let (ys', r, l, same) = run_from-numbered nil fs xs (before ++ (v ∷ [])) ys₁ h.1 (l₁ ∙ e) in
      let at_p : get_elem? ys₁ p ≡ get_elem? xs p = here ∙ sym (get-in nil xs p h.0) in
      (
        ys',
        rw
            (
              get-append before (map (content nil xs) fs) v,
              st,
              sym (next before v),
              sym (append_assoc before (v ∷ []) (map (content nil xs) fs)),
            )
            r,
        l ∙ l₁,
        λ o. elim [
          | inl (inl c) ↦
              same o
                (inr (subst (λ k. get_elem? ys₁ k ≡ get_elem? xs k) (some_injective p o c) at_p))
          | inl (inr m) ↦ same o (inl m)
          | inr s ↦ same o (
              inr (elim (ℕ_discrete o p) [
                | yes q ↦ subst (λ k. get_elem? ys₁ k ≡ get_elem? xs k) (sym q) at_p
                | no n ↦ there o n ∙ s
              ]))
        ],
      )
    where
      some_injective : (p o : ℕ) → some p ≡ some o → p ≡ o
      some_injective p o c = cc

  -- Lists of one length with the same elements.
  pub same_elements :
      (xs ys : List A)
      → length ys ≡ length xs
      → ((o : ℕ) → o < length xs → get_elem? ys o ≡ get_elem? xs o)
      → ys ≡ xs
  same_elements [] [] e h = refl
  same_elements [] (y ∷ ys) e h = absurd (omega (arith, e))
  same_elements (x ∷ xs) [] e h = absurd (omega (arith, e))
  same_elements (x ∷ xs) (y ∷ ys) e h =
      let first : some y ≡ some x = h 0 (omega arith) in
      let rest = same_elements xs ys (omega (arith, e)) (λ o k. h (suc o) (omega arith)) in cc
