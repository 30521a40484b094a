-- ===== src/Names/Ancestors.antt =====
-- What libpressio::names::search returns: the name, then its prefixes before each slash from the
-- longest to the shortest, then the empty name.
use libpressio.Base.{
  Bool-cases, List, Option, Text, [], ap, arith, false, if◌then◌else◌, inl, inr, length,
  length-append, length-map, map, none, refl, reverse, some, subst, suc, sym, take, true, zero, ℕ,
  ◌++◌, ◌<◌, ◌==◌, ◌∙◌, ◌∷◌, ◌≡◌, ◌≤◌,
}
use libpressio.Names.Search.{npos, before, slash, rfind, search_loop, leads, normalized, search}
use mathlib.Core.List.{map-append, reverse-append}

-- The prefixes of a name that end before a slash, the shortest first.
abbrev pub prefixes : Text → List Text
prefixes [] = []
prefixes (c ∷ s) = if c == slash then [] ∷ map (◌∷◌ c) (prefixes s) else map (◌∷◌ c) (prefixes s)

-- What the last slash at `pos` or before says of the prefixes of the first `pos + 1` bytes.
abbrev LastCut : Text → ℕ → Option ℕ → Type 0
LastCut s pos none = prefixes (take (suc pos) s) ≡ []
LastCut s pos (some i) =
    (prefixes (take (suc pos) s) ≡ prefixes (take i s) ++ (take i s ∷ [])) × (i ≤ pos)

LastCut-cons :
    (c : ℕ) (s : Text) (pos : ℕ) (r : Option ℕ)
    → LastCut s pos r
    → LastCut
        (c ∷ s)
        (suc pos)
        (elim r [ some i ↦ some (suc i) | none ↦ if c == slash then some 0 else none ])
LastCut-cons c s pos none ih = elim (Bool-cases (c == slash)) [
  | inl e ↦ rw (e, ih) (rw e, omega arith)
  | inr e ↦ rw (e, ih) (rw e)
]
LastCut-cons c s pos (some i) (e, l) = elim (Bool-cases (c == slash)) [
  | inl b ↦ (rw (b, e) (rw map-append), omega arith)
  | inr b ↦ (rw (b, e) (rw map-append), omega arith)
]

rfind-LastCut : (s : Text) (pos : ℕ) → LastCut s pos (rfind s pos)
unfolding rfind
rfind-LastCut [] pos = refl
rfind-LastCut (c ∷ s) zero = elim (Bool-cases (c == slash)) [
  | inl e ↦ rw e (rw e, omega arith)
  | inr e ↦ rw e (rw e)
]
rfind-LastCut (c ∷ s) (suc pos) = LastCut-cons c s pos (rfind s pos) (rfind-LastCut s pos)

length-prefixes-le : (s : Text) → length (prefixes s) ≤ length s
length-prefixes-le [] = omega arith
length-prefixes-le (c ∷ s) =
    let ih = length-prefixes-le s in
    let e = length-map (◌∷◌ c) (prefixes s) in
    elim (Bool-cases (c == slash)) [ inl b ↦ rw b (omega arith) | inr b ↦ rw b (omega arith) ]

take-all : (n : ℕ) (s : Text) → length s ≤ n → take n s ≡ s
take-all zero [] h = refl
take-all zero (c ∷ s) h = absurd (omega arith)
take-all (suc n) [] h = refl
take-all (suc n) (c ∷ s) h = ap (◌∷◌ c) (take-all n s (omega arith))

-- A slash found at 0 stands in front.
rfind-leads : (s : Text) (pos : ℕ) → rfind s pos ≡ some 0 → leads s ≡ true
unfolding rfind
rfind-leads [] pos e = cc
rfind-leads (c ∷ s) zero e = ground arith
rfind-leads (c ∷ s) (suc pos) e = ground arith

-- The names in the order of the search.
abbrev pub search_order : Text → List Text
search_order [] = [] ∷ []
search_order (c ∷ s) = (c ∷ s) ∷ (reverse (prefixes (c ∷ s)) ++ ([] ∷ []))

search_loop_lem :
    (fuel : ℕ) (s : Text) (len : ℕ)
    → leads s ≡ false
    → 0 < len
    → len ≤ npos
    → length (prefixes (take len s)) < fuel
    → search_loop fuel s len ≡ some (take len s ∷ (reverse (prefixes (take len s)) ++ ([] ∷ [])))
unfolding search_loop
search_loop_lem zero s len n p q h = elim h [ ]
search_loop_lem (suc fuel) s len n p q h =
    cases (search_loop_lem fuel s) (rfind s (before len)) refl (rfind-LastCut s (before len))
  where
    width : suc (before len) ≡ len
    width = omega arith

    cases :
        ((i : ℕ)
          → leads s ≡ false
          → 0 < i
          → i ≤ npos
          → length (prefixes (take i s)) < fuel
          → search_loop fuel s i ≡ some (take i s ∷ (reverse (prefixes (take i s)) ++ ([] ∷ []))))
        → (r : Option ℕ) → rfind s (before len) ≡ r
        → LastCut s (before len) r
        → search_loop (suc fuel) s len
          ≡ some (take len s ∷ (reverse (prefixes (take len s)) ++ ([] ∷ [])))
    cases ih none e cut =
        let cut' = subst (λ k. prefixes (take k s) ≡ []) width cut in rw (e, search_loop, cut') refl
    cases ih (some zero) e cut = cc (sym n ∙ rfind-leads s (before len) e)
    cases ih (some (suc i)) e (cut, l) =
        let i' : ℕ = suc i in
        let cut' =
          subst (λ k. prefixes (take k s) ≡ prefixes (take i' s) ++ (take i' s ∷ [])) width cut in
        let fewer : length (prefixes (take i' s)) < fuel =
          omega (arith, ap length cut', length-append (prefixes (take i' s)) (take i' s ∷ [])) in
        rw (e, search_loop, ih i' n (omega arith) (omega arith) fewer, cut', reverse-append) refl

nonempty_search :
    (fuel c : ℕ) (s : Text)
    → leads (c ∷ s) ≡ false
    → length (c ∷ s) ≤ npos
    → length (c ∷ s) < fuel
    → search_loop fuel (c ∷ s) npos ≡ some (search_order (c ∷ s))
nonempty_search fuel c s n l f =
    let whole = take-all npos (c ∷ s) l in
    let few = length-prefixes-le (c ∷ s) in
    search_loop_lem fuel (c ∷ s) npos n (omega arith) (omega arith)
      (subst (λ t. length (prefixes t) < fuel) (sym whole) (omega (arith, few)))
    ∙ ap (λ t. some (t ∷ (reverse (prefixes t) ++ ([] ∷ [])))) whole

-- A name whose normal form does not start with a slash and is at most `npos` bytes long is searched
-- in its order: the name without its outer slashes, then its prefixes before each slash from the
-- longest on, then the empty name; one round more than the bytes of the normal form is enough.
pub search_lem :
    (fuel : ℕ) (value : Text)
    → leads (normalized value) ≡ false
    → length (normalized value) ≤ npos
    → length (normalized value) < fuel
    → search fuel value ≡ some (search_order (normalized value))
unfolding search
search_lem fuel value n l f = by_form (normalized value) n l f
  where
    by_form :
        (t : Text)
        → leads t ≡ false
        → length t ≤ npos
        → length t < fuel
        → (elim t [ [] ↦ some ([] ∷ []) | c ∷ s ↦ search_loop fuel (c ∷ s) npos ])
          ≡ some (search_order t)
    by_form [] n l f = refl
    by_form (c ∷ s) n l f = nonempty_search fuel c s n l f
