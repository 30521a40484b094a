-- ===== src/Names/Termination.antt =====
-- Names on which the loop of libpressio::names::search never ends.
use libpressio.Base.{
  Option, Text, [], if◌then◌else◌, none, refl, some, suc, true, zero, ℕ, ◌==◌, ◌∷◌, ◌≡◌,
}
use libpressio.Names.Search.{npos, before, slash, rfind, leads, normalized, search_loop, search}

-- With a slash in front every search for a slash succeeds.
rfind-total : (s : Text) (pos : ℕ) → leads s ≡ true → (i : ℕ) × (rfind s pos ≡ some i)
unfolding rfind
rfind-total [] pos h = cc
rfind-total (c ∷ s) zero h = (0, rw h)
rfind-total (c ∷ s) (suc pos) h = found (rfind s pos)
  where
    found :
        (r : Option ℕ)
        → (i : ℕ) × ((elim r [ some j ↦ some (suc j) | none ↦ if c == slash then some 0 else none ])
            ≡ some i)
    found none = (0, rw h)
    found (some j) = (suc j, refl)

search_loop-diverges :
    (fuel : ℕ) (s : Text) (len : ℕ) → leads s ≡ true → search_loop fuel s len ≡ none
unfolding search_loop
search_loop-diverges zero s len h = refl
search_loop-diverges (suc fuel) s len h =
    let (i, e) = rfind-total s (before len) h in
    rw (e, search_loop, search_loop-diverges fuel s i h)

-- A name that still starts with a slash once one slash is taken off each end is searched without
-- end: no number of rounds is enough.
pub search-diverges :
    (fuel : ℕ) (value : Text) → leads (normalized value) ≡ true → search fuel value ≡ none
unfolding search
search-diverges fuel value h = by_form (normalized value) h
  where
    by_form :
        (t : Text)
        → leads t ≡ true
        → (elim t [ [] ↦ some ([] ∷ []) | c ∷ s ↦ search_loop fuel (c ∷ s) npos ]) ≡ none
    by_form [] h = cc
    by_form (c ∷ s) h = search_loop-diverges fuel (c ∷ s) npos h
