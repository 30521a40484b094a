-- ===== src/Registry.antt =====
-- struct pressio_registry and class pressio_register (include/libpressio_ext/cpp/registry.h).
use libpressio.Base.{
  Bool, List, Option, Option-cases, Text, assign, erase, false, if◌then◌else◌, inl, inr, length,
  lookup, lookup-assign_self, lookup-erase, none, refl, some, text_eq, text_eq_refl, true, ℕ, ◌≡◌,
}

-- A factory runs each time it is called: from a state it gives an object and the next state.
module _ {ℓ} {F : Type ℓ} where
  -- `build`, up to the call of the factory; a missing name gives a null pointer.
  unfoldable pub build : Text → List (Text × F) → Option F
  build name factories = lookup name factories

  -- `contains`
  unfoldable pub found : Option F → Bool
  found none = false
  found (some f) = true

  unfoldable pub contains : Text → List (Text × F) → Bool
  unfolding found
  contains name factories = found (lookup name factories)

  -- `regsiter_factory`: the registry and the value returned.
  unfoldable pub regsiter_factory : Text → F → List (Text × F) → List (Text × F) × Bool
  unfolding contains
  regsiter_factory name f factories =
      if contains name factories then (factories, true) else (assign name f factories, false)

  -- `erase`: the registry and the number of entries removed.
  unfoldable pub unregister : Text → List (Text × F) → List (Text × F) × ℕ
  unfolding contains
  unregister name factories = (erase name factories, if contains name factories then 1 else 0)

  -- `size`
  unfoldable pub registered : List (Text × F) → ℕ
  registered factories = length factories

  -- After `regsiter_factory` the name is registered, with the old factory if it was registered
  -- before and with the new one if not; the value returned is whether it was.
  pub build-regsiter_factory :
      (name : Text) (f : F) (factories : List (Text × F))
      → let (factories', known) = regsiter_factory name f factories in
        (known ≡ contains name factories)
        × (contains name factories' ≡ true)
        × (build name factories'
            ≡ (if contains name factories then build name factories else some f))
  unfolding regsiter_factory contains found build
  build-regsiter_factory name f factories = elim (Option-cases (lookup name factories)) [
    | inl e ↦ rw (e, lookup-assign_self name f factories) (refl, refl, refl)
    | inr (g, e) ↦ rw e (refl, rw e refl, e)
  ]

  -- After `erase` the name is not registered and every other name has the factory it had; the value
  -- returned counts the entry that was there.
  pub build-unregister :
      (name other : Text) (factories : List (Text × F))
      → let (factories', removed) = unregister name factories in
        (removed ≡ (if contains name factories then 1 else 0))
        × (contains name factories' ≡ false)
        × (build other factories' ≡ (if text_eq name other then none else build other factories))
  unfolding unregister contains found build
  build-unregister name other factories = (
    refl,
    rw (lookup-erase name name factories, text_eq_refl name) refl,
    lookup-erase name other factories,
  )
