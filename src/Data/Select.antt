-- ===== src/Data/Select.antt =====
-- The argument check of `pressio_data::select`: `validate_select_args` of src/pressio_data.cc.
use libpressio.Base.{
  Bool, List, [], false, if◌then◌else◌, leb, length, ltb, not, replicate, true, ℕ, ◌%◌, ◌&&◌, ◌*◌,
  ◌+◌, ◌-◌, ◌==◌, ◌^◌, ◌||◌, ◌∷◌,
}

-- The sum with the arithmetic of a 64-bit `size_t`; the count is at least 1 here.
unfoldable pub out_of_bounds : ℕ → ℕ → ℕ → ℕ → ℕ → Bool
out_of_bounds start stride count block dim =
    let sum = start + block + (count - 1) * stride in ltb dim ((sum + (2 ^ 64 - 1)) % 2 ^ 64)

-- `any_of` over the vector `out_of_bounds`, whose five inputs have one length.
unfoldable pub any_out_of_bounds : List ℕ → List ℕ → List ℕ → List ℕ → List ℕ → Bool
unfolding out_of_bounds
any_out_of_bounds (s ∷ ss) (t ∷ ts) (c ∷ cs) (b ∷ bs) (d ∷ ds) =
    out_of_bounds s t c b d || any_out_of_bounds ss ts cs bs ds
any_out_of_bounds _ _ _ _ _ = false

-- `all_of` with `at_least_one`.
unfoldable pub all_at_least_one : List ℕ → Bool
all_at_least_one [] = true
all_at_least_one (x ∷ xs) = leb 1 x && all_at_least_one xs

unfoldable pub validate_select_args : List ℕ → List ℕ → List ℕ → List ℕ → List ℕ → Bool
unfolding any_out_of_bounds all_at_least_one
validate_select_args start stride count block dims =
    if length dims == 0
    then false
    else if not (
        length start == length dims
        && length stride == length dims
        && length count == length dims
        && length block == length dims)
    then false
    else if not (all_at_least_one count && all_at_least_one block && all_at_least_one stride)
    then false
    else if any_out_of_bounds start stride count block dims
    then false
    else true

-- The arguments as `select` completes them, and whether it goes on to copy.
unfoldable pub or_default : ℕ → List ℕ → List ℕ → List ℕ
or_default d dims [] = replicate (length dims) d
or_default d dims (x ∷ xs) = x ∷ xs

unfoldable pub selects : List ℕ → List ℕ → List ℕ → List ℕ → List ℕ → Bool
unfolding validate_select_args or_default
selects start stride count block dims =
    validate_select_args (or_default 0 dims start) (or_default 1 dims stride)
      (or_default 1 dims count) (or_default 1 dims block) dims
