-- ===== src/Data/SelectBounds.antt =====
-- Which selections `validate_select_args` accepts.
use libpressio.Base.{
  Bool, List, [], arith, false, length, not, refl, true, ℕ, ◌&&◌, ◌*◌, ◌+◌, ◌-◌, ◌<◌, ◌^◌, ◌↔◌, ◌∷◌,
  ◌≡◌, ◌≢◌, ◌≤◌,
}
use libpressio.Data.Select.{
  selects, or_default, out_of_bounds, any_out_of_bounds, all_at_least_one, validate_select_args,
}

-- In every dimension the counts, blocks and strides are at least 1 and the last index
-- `start + block + (count - 1) * stride - 1` is at most `dim`; lengths agree.
abbrev pub Fits : List ℕ → List ℕ → List ℕ → List ℕ → List ℕ → Type 0
Fits [] [] [] [] [] = Unit
Fits (s ∷ ss) (t ∷ ts) (c ∷ cs) (b ∷ bs) (d ∷ ds) =
    (1 ≤ c) × (1 ≤ b) × (1 ≤ t) × (s + b + (c - 1) * t ≤ d + 1) × Fits ss ts cs bs ds
Fits _ _ _ _ _ = ⊥

-- No sum wraps around.
abbrev pub Small : List ℕ → List ℕ → List ℕ → List ℕ → Type 0
Small (s ∷ ss) (t ∷ ts) (c ∷ cs) (b ∷ bs) = (s + b + (c - 1) * t < 2 ^ 64) × Small ss ts cs bs
Small _ _ _ _ = Unit

out_of_bounds_lem :
    (s t c b d : ℕ)
    → 1 ≤ b
    → s + b + (c - 1) * t < 2 ^ 64
    → (out_of_bounds s t c b d ≡ false) ↔ (s + b + (c - 1) * t ≤ d + 1)
unfolding out_of_bounds
out_of_bounds_lem s t c b d one small = ground arith

-- The test that `validate_select_args` makes of lists of one length.
abbrev accepts : List ℕ → List ℕ → List ℕ → List ℕ → List ℕ → Bool
accepts ss ts cs bs ds =
    all_at_least_one cs
    && all_at_least_one bs
    && all_at_least_one ts
    && not (any_out_of_bounds ss ts cs bs ds)

abbrev Even : List ℕ → List ℕ → List ℕ → List ℕ → List ℕ → Type 0
Even ss ts cs bs ds =
    (length ss ≡ length ds)
    × (length ts ≡ length ds)
    × (length cs ≡ length ds)
    × (length bs ≡ length ds)

accepts→Fits :
    (ss ts cs bs ds : List ℕ)
    → Even ss ts cs bs ds
    → Small ss ts cs bs
    → accepts ss ts cs bs ds ≡ true
    → Fits ss ts cs bs ds
unfolding all_at_least_one any_out_of_bounds
accepts→Fits [] [] [] [] [] e m h = tt
accepts→Fits (s ∷ ss) (t ∷ ts) (c ∷ cs) (b ∷ bs) (d ∷ ds) e m h =
    ground (arith, out_of_bounds_lem s t c b d, accepts→Fits ss ts cs bs ds)
accepts→Fits (s ∷ ss) ts cs bs [] e m h = absurd (omega (arith, e.0))
accepts→Fits ss ts cs bs ds e m h = ground arith

Fits→accepts :
    (ss ts cs bs ds : List ℕ)
    → Small ss ts cs bs
    → Fits ss ts cs bs ds
    → (accepts ss ts cs bs ds ≡ true) × Even ss ts cs bs ds
unfolding all_at_least_one any_out_of_bounds
Fits→accepts [] [] [] [] [] m f = (refl, (refl, refl, refl, refl))
Fits→accepts (s ∷ ss) (t ∷ ts) (c ∷ cs) (b ∷ bs) (d ∷ ds) m f =
    ground (arith, out_of_bounds_lem s t c b d, Fits→accepts ss ts cs bs ds)
Fits→accepts ss ts cs bs ds m f = ground arith

-- `validate_select_args` accepts exactly the lists of the length of `dims` whose counts, blocks and
-- strides are at least 1 and whose last index, `start + block + (count - 1) * stride - 1`, is at
-- most the dimension, when there is a dimension and no such sum reaches 2^64.
pub validate_select_args_lem :
    (ss ts cs bs ds : List ℕ)
    → length ds ≢ 0
    → Small ss ts cs bs
    → (validate_select_args ss ts cs bs ds ≡ true) ↔ Fits ss ts cs bs ds
unfolding validate_select_args
validate_select_args_lem ss ts cs bs ds n m =
    ground (arith, accepts→Fits ss ts cs bs ds, Fits→accepts ss ts cs bs ds)

-- `select` goes on to copy a block as long as a dimension that starts at index 1, whose last index
-- is outside the buffer, for every length between 1 and 2^63.
pub selects-past_end :
    (n : ℕ) → 1 ≤ n → n ≤ 2 ^ 63 → selects (1 ∷ []) [] [] (n ∷ []) (n ∷ []) ≡ true
unfolding selects or_default
selects-past_end n one small =
    let f : Fits (1 ∷ []) (1 ∷ []) (1 ∷ []) (n ∷ []) (n ∷ []) =
      (omega arith, one, omega arith, omega arith, tt) in
    (validate_select_args_lem (1 ∷ []) (1 ∷ []) (1 ∷ []) (n ∷ []) (n ∷ []) (λ e. omega (arith, e))
        (omega arith, tt)).1
      f
