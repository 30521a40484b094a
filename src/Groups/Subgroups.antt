-- ===== src/Groups/Subgroups.antt =====
-- struct pressio_subgroup_manager (include/libpressio_ext/cpp/subgroup_manager.h). A group is an `int`.
-- An index outside a vector is `none`.
use libpressio.Base.{
  Bool, List, Option, Text, [], codes, false, if◌then◌else◌, length, none, not, some, suc, true,
  zero, ℕ, ◌&&◌, ◌==◌, ◌∷◌,
}
use libpressio.Base.Int.{ℤ, pos, negsuc}
use libpressio.Serial.Recv.{◌>>=◌}

abbrev pub same_group : ℤ → ℤ → Bool
same_group (pos m) (pos n) = m == n
same_group (negsuc m) (negsuc n) = m == n
same_group (pos m) (negsuc n) = false
same_group (negsuc m) (pos n) = false

-- `std::iota`
unfoldable pub iota : ℕ → ℕ → List ℤ
iota i zero = []
iota i (suc n) = pos i ∷ iota (suc i) n

unfoldable pub normalize_data_group : List ℤ → ℕ → List ℤ
unfolding iota
normalize_data_group [] size = iota 0 size
normalize_data_group (g ∷ gs) size = g ∷ gs

-- Whether a group is in a `std::set`, and what there is in a set.
unfoldable pub has_group : ℤ → List ℤ → Bool
has_group g [] = false
has_group g (h ∷ hs) = if same_group g h then true else has_group g hs

unfoldable pub set_of : List ℤ → List ℤ
unfolding has_group
set_of [] = []
set_of (g ∷ gs) = let rest = set_of gs in if has_group g gs then rest else g ∷ rest

unfoldable pub has_groups : List ℤ → List ℤ → Bool
unfolding has_group
has_groups [] hs = true
has_groups (g ∷ gs) hs = has_group g hs && has_groups gs hs

unfoldable pub valid_data_groups : List ℤ → List ℤ → ℕ
unfolding has_groups set_of
valid_data_groups inputs outputs =
    if has_groups inputs outputs && has_groups outputs inputs then length (set_of inputs) else 0

-- `normalize_and_validate` of so many inputs and outputs: the effective groups, and the code with its
-- message.
unfoldable pub normalize_and_validate : List ℤ → List ℤ → ℕ → ℕ → List ℤ × List ℤ × ℤ × Text
unfolding normalize_data_group valid_data_groups
normalize_and_validate input_data_groups output_data_groups inputs outputs =
    let ins = normalize_data_group input_data_groups inputs in
    let outs = normalize_data_group output_data_groups outputs in
    if not (length ins == inputs)
    then (ins, outs, pos 1, codes "invalid input group")
    else if not (length outs == outputs)
    then (ins, outs, pos 1, codes "invalid output group")
    else if valid_data_groups ins outs == 0
    then (ins, outs, pos 2, codes "invalid data groups")
    else (ins, outs, pos 0, [])

module _ {A : Type 0} where
  -- `make_data_group`
  unfoldable pub make_data_group : ℤ → List ℤ → List A → Option (List A)
  make_data_group idx gs [] = some []
  make_data_group idx [] (x ∷ xs) = none
  make_data_group idx (g ∷ gs) (x ∷ xs) = do
    rest ← make_data_group idx gs xs
    some (if same_group g idx then x ∷ rest else rest)
