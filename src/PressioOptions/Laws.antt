-- ===== src/PressioOptions/Laws.antt =====
-- The changes of struct pressio_options, seen through the option that each key has afterwards.
use libpressio.Base.{
  Bool, List, Option, Option-cases, Text, [], arith, assign, if◌then◌else◌, inl, inr, lookup,
  lookup-assign, none, not, refl, some, text_eq, text_eq_iff, ◌&&◌, ◌∷◌, ◌≡◌,
}
use libpressio.PressioOption.Host.{Host}
use libpressio.PressioOption.Cell.{PressioOption, has_value}
use libpressio.PressioOption.As
use libpressio.PressioOption.Names.{ConversionSafety, key_does_not_exist}
use libpressio.PressioOption.As
use libpressio.PressioOptions.Map.{Options, copy_from, merge, cast_set, insert, status_of}

-- No key stands twice.
abbrev pub Unique {ℓ} : {V : Type ℓ} → List (Text × V) → Type ℓ
Unique [] = Unit
Unique ((key, v) ∷ m) = (lookup key m ≡ none) × Unique m

module _ (H : Host) where
  -- The option that an entry of another map leaves under its key.
  abbrev pub taken_over :
      Bool → Option (PressioOption H) → Option (PressioOption H) → Option (PressioOption H)
  taken_over ignore_empty none old = old
  taken_over ignore_empty (some o) old = if ignore_empty && not (has_value H o) then old else some o

  -- `copy_from` gives each key of the other map its option there, unless empty ones are ignored and
  -- it holds no value; the other keys keep theirs. A key that the map did not have is set as well,
  -- with `ignore_empty` too. No key stands twice in the other map.
  pub lookup-copy_from :
      (o m : Options H) (ignore_empty : Bool) (key : Text)
      → Unique o
      → lookup key (copy_from H o ignore_empty m)
        ≡ taken_over ignore_empty (lookup key o) (lookup key m)
  unfolding copy_from lookup
  lookup-copy_from [] m ignore_empty key u = refl
  lookup-copy_from ((j, o) ∷ rest) m ignore_empty key (fresh, u) =
      let m' = if ignore_empty && not (has_value H o) then m else assign j o m in
      ground (
        arith,
        fresh,
        lookup-copy_from rest m' ignore_empty key u,
        lookup-assign j key o m,
        text_eq_iff j key,
      )

  lookup-insert :
      (j key : Text) (o : PressioOption H) (m : Options H)
      → lookup key (insert H j o m) ≡ (
          if text_eq j key
          then (elim (lookup j m) [ some old ↦ some old | none ↦ some o ])
          else lookup key m)
  unfolding insert
  lookup-insert j key o m = elim (Option-cases (lookup j m)) [
    | inl e ↦ ground (arith, e, lookup-assign j key o m)
    | inr (old, e) ↦ ground (arith, e, text_eq_iff j key)
  ]

  -- `pressio_options_merge` keeps the options of the first map and adds those of the second.
  pub lookup-merge :
      (lhs rhs : Options H) (key : Text)
      → lookup key (merge H lhs rhs)
        ≡ (elim (lookup key lhs) [ some o ↦ some o | none ↦ lookup key rhs ])
  unfolding merge lookup
  lookup-merge lhs [] key = ground arith
  lookup-merge lhs ((j, o) ∷ rest) key = ground (
    arith,
    lookup-merge (insert H j o lhs) rest key,
    lookup-insert j key o lhs,
    text_eq_iff j key,
  )

  -- `cast_set` of a missing key changes nothing and says so; of a present key it casts that option
  -- alone, and returns what the option's `cast_set` returns.
  pub cast_set_lem :
      (key j : Text) (value : PressioOption H) (safety : ConversionSafety) (m : Options H)
      → let (m', status) = cast_set H key value safety m in
        (lookup j m' ≡ (elim (lookup key m) [
          | none ↦ lookup j m
          | some old ↦ if text_eq key j then some (As.cast_set H old value safety).0 else lookup j m
        ]))
        × (status ≡ (elim (lookup key m) [
          | none ↦ key_does_not_exist
          | some old ↦ (As.cast_set H old value safety).1
        ]))
  unfolding cast_set status_of
  cast_set_lem key j value safety m = elim (Option-cases (lookup key m)) [
    | inl e ↦ ground (arith, e)
    | inr (old, e) ↦ ground (arith, e, lookup-assign key j (As.cast_set H old value safety).0 m)
  ]
