-- ===== src/Domains/Access.antt =====
-- `is_accessible` of src/pressio_domain.cc, and the configurations of the domains it asks.
use libpressio.Base.{
  Bool, List, Option, Text, [], codes, false, if◌then◌else◌, none, some, text_eq, true, ◌||◌, ◌∷◌,
}
use libpressio.Memory.Heap.{Domain, malloc, nonowning, domain_id}

-- `std::find` over texts.
unfoldable pub found : Text → List Text → Bool
found key [] = false
found key (t ∷ ts) = text_eq t key || found key ts

-- A `get` of "domains:accessible" that set the list, and a test of it.
unfoldable pub lists : Text → Option (List Text) → Bool
unfolding found
lists id none = false
lists id (some ids) = found id ids

-- `others` is the list of a registered domain that is neither of the two modelled.
module _ (others : Text → List Text) where
  -- "domains:accessible" of the domain that the registry builds for a name.
  unfoldable pub base_accessible : Text → List Text
  base_accessible id =
      if text_eq id (codes "malloc")
      then []
      else if text_eq id (codes "nonowning")
      then codes "malloc" ∷ []
      else others id

  -- "domains:accessible" in `get_configuration`: the domain of a view has the list of the domain
  -- it was set to, from `set_options_impl` in src/plugins/domains/nonowning.cc.
  unfoldable pub accessible : Domain → Option (List Text)
  unfolding base_accessible
  accessible malloc = none
  accessible (nonowning id) = some (id ∷ base_accessible id)

  -- `is_accessible`
  unfoldable pub is_accessible : Domain → Domain → Bool
  unfolding lists accessible domain_id
  is_accessible lhs rhs =
      if text_eq (domain_id lhs) (domain_id rhs)
      then true
      else if lists (domain_id rhs) (accessible lhs)
      then true
      else lists (domain_id lhs) (accessible rhs)
