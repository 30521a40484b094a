-- ===== src/Groups/Arrival.antt =====
-- The order in which the responses arrive does not matter for the outputs.
use libpressio.Base.{
  All, Bool, Bool-cases, List, Option, [], ap, arith, false, if◌then◌else◌, inl, inr, length, map,
  none, refl, some, sym, true, ◌∙◌, ◌∷◌, ◌≡◌,
}
use mathlib.Core.Bool.{false≢true}
use libpressio.Base.Int.{ℤ}
use libpressio.Compressor.Base.{Plugin, nonzero, set_error}
use libpressio.Groups.Responses.{Response, handle, handle_all, store_outputs}
use libpressio.Groups.Subgroups.{has_group, make_data_group, same_group}

-- The new outputs of the groups of which `p` holds, and the old ones of the others.
abbrev pub merged : {A : Type 0} → (ℤ → Bool) → List ℤ → List A → List A → List A
merged p (g ∷ gs) (n ∷ ns) (o ∷ os) = (if p g then n else o) ∷ merged p gs ns os
merged p _ _ _ = []

-- Lists of one length.
abbrev pub SameLength : {A : Type 0} → List ℤ → List A → List A → Type 0
SameLength gs ns os = (length ns ≡ length gs) × (length os ≡ length gs)

module _ {A : Type 0} where
  stored :
      (idx : ℤ) (p : ℤ → Bool) (gs : List ℤ) (ns os : List A)
      → SameLength gs ns os
      → (xs : List A) × (make_data_group idx gs ns ≡ some xs)
        × (store_outputs idx gs xs (merged p gs ns os)
            ≡ some (merged (λ g. if same_group g idx then true else p g) gs ns os))
  unfolding make_data_group store_outputs
  stored idx p [] [] os (h, k) = ([], refl, refl)
  stored idx p [] (n ∷ ns) os (h, k) = absurd (omega (arith, h))
  stored idx p (g ∷ gs) [] os (h, k) = absurd (omega (arith, h))
  stored idx p (g ∷ gs) (n ∷ ns) [] (h, k) = absurd (omega (arith, k))
  stored idx p (g ∷ gs) (n ∷ ns) (o ∷ os) (h, k) =
      let (xs, e, f) = stored idx p gs ns os (omega (arith, h), omega (arith, k)) in
      elim (Bool-cases (same_group g idx)) [
        | inl t ↦ (n ∷ xs, rw (e, t) refl, rw (t, f) refl)
        | inr t ↦ (xs, rw (e, t) refl, rw (t, f) refl)
      ]

-- Every group of the first list is in the second.
abbrev pub Covers : List ℤ → List ℤ → Type 0
Covers gs hs = All (λ g. has_group g hs ≡ true) gs

module _ {A : Type 0} where
  -- The response has the outputs of its group.
  abbrev pub Carries : List ℤ → List A → Response A → Type 0
  Carries gs ns r = make_data_group r.group_idx gs ns ≡ some r.output_data

  abbrev from_some : List A → Option (List A) → List A
  from_some xs none = xs
  from_some xs (some ys) = ys

  -- The groups that are stored after the responses.
  abbrev after : List (Response A) → (ℤ → Bool) → ℤ → Bool
  after [] p g = p g
  after (r ∷ rs) p g = after rs (λ h. if same_group h r.group_idx then true else p h) g

  after_kept : (rs : List (Response A)) (p : ℤ → Bool) (g : ℤ) → p g ≡ true → after rs p g ≡ true
  after_kept [] p g h = h
  after_kept (r ∷ rs) p g h =
      after_kept rs (λ h. if same_group h r.group_idx then true else p h) g
        (elim (Bool-cases (same_group g r.group_idx)) [ inl t ↦ rw t refl | inr t ↦ rw t h ])

  after_covered :
      (rs : List (Response A)) (p : ℤ → Bool) (g : ℤ)
      → has_group g (map (λ r. r.group_idx) rs) ≡ true
      → after rs p g ≡ true
  unfolding has_group
  after_covered [] p g h = absurd (false≢true h)
  after_covered (r ∷ rs) p g h = elim (Bool-cases (same_group g r.group_idx)) [
    | inl t ↦ after_kept rs (λ h. if same_group h r.group_idx then true else p h) g (rw t refl)
    | inr t ↦
        after_covered rs (λ h. if same_group h r.group_idx then true else p h) g
          (rw (has_group, t) at h)
  ]

  merged-All :
      (p : ℤ → Bool) (gs : List ℤ) (ns os : List A)
      → SameLength gs ns os
      → All (λ g. p g ≡ true) gs
      → merged p gs ns os ≡ ns
  merged-All p [] [] os l h = refl
  merged-All p [] (n ∷ ns) os (l, m) h = absurd (omega (arith, l))
  merged-All p (g ∷ gs) [] os (l, m) h = absurd (omega (arith, l))
  merged-All p (g ∷ gs) (n ∷ ns) [] (l, m) h = absurd (omega (arith, m))
  merged-All p (g ∷ gs) (n ∷ ns) (o ∷ os) (l, m) h =
      rw (h.0, merged-All p gs ns os (omega (arith, l), omega (arith, m)) h.1) refl

  merged_none :
      (gs : List ℤ) (ns os : List A) → SameLength gs ns os → merged (λ g. false) gs ns os ≡ os
  merged_none [] ns [] l = refl
  merged_none [] ns (o ∷ os) (l, m) = absurd (omega (arith, m))
  merged_none (g ∷ gs) [] os (l, m) = absurd (omega (arith, l))
  merged_none (g ∷ gs) (n ∷ ns) [] (l, m) = absurd (omega (arith, m))
  merged_none (g ∷ gs) (n ∷ ns) (o ∷ os) (l, m) =
      ap (λ t. o ∷ t) (merged_none gs ns os (omega (arith, l), omega (arith, m)))

  covered-All :
      (rs : List (Response A)) (p : ℤ → Bool) (gs : List ℤ)
      → Covers gs (map (λ r. r.group_idx) rs)
      → All (λ g. after rs p g ≡ true) gs
  covered-All rs p [] h = tt
  covered-All rs p (g ∷ gs) h = (after_covered rs p g h.0, covered-All rs p gs h.1)

  module _ {M S : Type 0} where
    handled :
        (self : Plugin M S) (gs : List ℤ) (ns os : List A) (rs : List (Response A)) (p : ℤ → Bool)
        → SameLength gs ns os
        → All (Carries gs ns) rs
        → (self' : Plugin M S) × (handle_all gs rs (self, merged p gs ns os)
            ≡ some (self', merged (after rs p) gs ns os))
    unfolding handle_all handle
    handled self gs ns os [] p l c = (self, refl)
    handled self gs ns os (r ∷ rs) p l c =
        let (xs, e, f) = stored r.group_idx p gs ns os l in
        let same : xs ≡ r.output_data = ap (from_some []) (sym e ∙ c.0) in
        let f' = ap (λ d. store_outputs r.group_idx gs d (merged p gs ns os)) (sym same) ∙ f in
        let self' = if nonzero r.status then (set_error r.status r.err_msg self).0 else self in
        let (self'', h) =
          handled self' gs ns os rs (λ g. if same_group g r.group_idx then true else p g) l c.1 in
        (self'', rw f' h)

    -- Whatever the order in which the responses arrive, and whatever the outputs were, each output is
    -- in the end that of its group's responses: if the responses carry the groups of the list of new
    -- outputs, one at least for each group that an output is in, the outputs are that list, also when
    -- some report errors. There are as many outputs as there are entries in the list of groups.
    pub handle_all-outputs :
        (self : Plugin M S) (gs : List ℤ) (ns os : List A) (rs : List (Response A))
        → length ns ≡ length gs
        → length os ≡ length gs
        → All (Carries gs ns) rs
        → Covers gs (map (λ r. r.group_idx) rs)
        → (self' : Plugin M S) × (handle_all gs rs (self, os) ≡ some (self', ns))
    handle_all-outputs self gs ns os rs l m c h =
        let (self', e) = handled self gs ns os rs (λ g. false) (l, m) c in
        (
          self',
          ap (λ o. handle_all gs rs (self, o)) (sym (merged_none gs ns os (l, m)))
              ∙ e
              ∙ ap (λ o. some (self', o))
                  (merged-All (after rs (λ g. false)) gs ns os (l, m)
                    (covered-All rs (λ g. false) gs h)),
        )
