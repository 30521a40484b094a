-- ===== src/PressioOptions/Reads.antt =====
-- The reads of struct pressio_options: what they return after a change, where they throw, and how
-- the path of a name is followed.
use libpressio.Base.{
  All, Bool-cases, List, Option-cases, Text, [], ap, arith, false, if◌then◌else◌, inl, inr, length,
  lookup, lookup-assign, lookup-assign_self, none, refl, some, sym, text_eq, true, ℕ, ◌++◌, ◌<◌,
  ◌^◌, ◌∙◌, ◌∷◌, ◌≡◌, ◌≢◌, ◌≤◌,
}
use libpressio.Base.Int.{InSigned, ℤ}
use libpressio.Names.Search.{format_name, leads, normalized, npos}
use libpressio.Names.Ancestors.{search_lem, search_order}
use libpressio.PressioOption.Host.{Host}
use libpressio.PressioOption.Decimal.{to_string}
use libpressio.PressioOption.Cell.{
  texts, data_value, dtype_value, safety_value, PressioOption, OptionType, type, has_value, text,
  pointer, num, num_option_type,
}
use libpressio.PressioOption.Numeric.{NumType}
use libpressio.PressioOption.Names.{
  ConversionSafety, key_set, key_exists, key_does_not_exist, special,
}
use libpressio.PressioOption.As.{as_type, as_charptr_array, as_singleton}
use libpressio.PressioOption.RoundTrip.{as_type-int8_text}
use libpressio.PressioOption.Convert.{as_numeric, as_charptr}
use libpressio.PressioOption.ResultType.{as_type-Typed, has_value-monostate}
use libpressio.PressioOptions.Map.{Options, set, set_name}
use libpressio.PressioOptions.Access.{
  same_type, same_type_iff, type_to_enum, Outcome, returns, bad_variant_access, get, cast, resolve,
  get_name, taken,
}

module _ (H : Host) where
  -- A typed read after a `set` returns the option if it holds a value of that type, only says that
  -- the key exists if the type is another, and says that it does not exist if it holds no value;
  -- a read of any other key is as before.
  pub get-set :
      (t : OptionType) (key j : Text) (o : PressioOption H) (m : Options H)
      → get H t (set H key o m) j ≡ (
          if text_eq key j
          then (if has_value H o
              then (if same_type (type H o) t
                  then returns key_set (some o)
                  else returns key_exists none)
              else returns key_does_not_exist none)
          else get H t m j)
  unfolding get set
  get-set t key j o m = ground (arith, lookup-assign key j o m)

  -- What a read at the type `t` may do: return a value of the type with `key_set`, or return
  -- another status and no value.
  abbrev pub Sound : OptionType → Outcome H → Type 0
  Sound t (returns status (some o)) = (status ≡ key_set) × (has_value H o ≡ true) × (type H o ≡ t)
  Sound t (returns status none) = status ≢ key_set
  Sound t bad_variant_access = ⊥

  type_to_enum-same : (t : OptionType) → t ≢ OptionType.threadsafety → type_to_enum t ≡ t
  type_to_enum-same OptionType.threadsafety h = absurd (h refl)
  type_to_enum-same OptionType.int8 h = refl
  type_to_enum-same _ h = refl

  exists-ne-set : key_exists ≢ key_set
  exists-ne-set e = cc

  missing-ne-set : key_does_not_exist ≢ key_set
  missing-ne-set e = cc

  taken-Sound :
      (t : OptionType) (r : PressioOption H)
      → (has_value H r ≡ true → type H r ≡ t)
      → Sound t (taken H t r)
  unfolding taken
  taken-Sound t r typed = elim (Bool-cases (has_value H r)) [
    | inl e ↦ rw (e, (same_type_iff (type H r) t).1 (typed e)) (refl, e, typed e)
    | inr e ↦ rw e exists-ne-set
  ]

  as_type-typed :
      (o : PressioOption H) (to t : OptionType) (safety : ConversionSafety)
      → t ≢ OptionType.int8
      → to ≡ t
      → has_value H (as_type H o to safety) ≡ true
      → type H (as_type H o to safety) ≡ t
  as_type-typed o to t safety n8 e full = elim (as_type-Typed H o to safety) [
    | inl nothing ↦ cc (ap (has_value H) nothing, has_value-monostate H)
    | inr (inl same) ↦ same ∙ e
    | inr (inr (int, _)) ↦ absurd (n8 (sym e ∙ int))
  ]

  -- A `cast` to a type other than `int8_t` and `pressio_thread_safety` never throws, and a value
  -- that it returns has the type asked for and is returned with `key_set`.
  pub cast-Sound :
      (t : OptionType) (m : Options H) (key : Text) (safety : ConversionSafety)
      → t ≢ OptionType.int8
      → t ≢ OptionType.threadsafety
      → Sound t (cast H t m key safety)
  unfolding cast
  cast-Sound t m key safety n8 ns = elim (Option-cases (lookup key m)) [
    | inl e ↦ rw (e, cast) missing-ne-set
    | inr (o, e) ↦
        rw (e, cast)
          (elim (Bool-cases (has_value H o)) [
            | inl full ↦
                let to = type_to_enum t in
                rw full (
                  taken-Sound t (as_type H o to safety)
                    (as_type-typed o to t safety n8 (type_to_enum-same t ns)))
            | inr empty ↦ rw empty missing-ne-set
          ])
  ]

  -- A `cast` to `int8_t` of a text that holds an `int`, at the safety `special`, throws.
  pub cast-int8_throws :
      (key : Text) (z : ℤ) (m : Options H)
      → InSigned (2 ^ 31) z
      → cast H OptionType.int8 (set H key (text (some (to_string z))) m) key special
        ≡ bad_variant_access
  unfolding cast set has_value type same_type
  cast-int8_throws key z m r =
      let o : PressioOption H = text (some (to_string z)) in
      rw (lookup-assign_self key o m, cast, as_type-int8_text H z r) (throws z)
    where
      throws : (z : ℤ) → taken H OptionType.int8 (num NumType.int32 (some z)) ≡ bad_variant_access
      throws z = refl

  num-ne-userptr : (t : NumType) → same_type (num_option_type t) OptionType.userptr ≡ false
  unfolding same_type num_option_type
  num-ne-userptr NumType.bool = refl
  num-ne-userptr _ = refl

  taken-threadsafety :
      (o : PressioOption H) (safety : ConversionSafety)
      → has_value H o ≡ true
      → taken H OptionType.threadsafety (as_type H o OptionType.userptr safety) ≡ (
          if same_type (type H o) OptionType.userptr
          then bad_variant_access
          else returns key_exists none)
  unfolding taken as_type as_numeric as_charptr as_charptr_array as_singleton type has_value
      same_type
  taken-threadsafety (num t (some x)) safety full = rw (num-ne-userptr t)
  taken-threadsafety (texts (some [])) safety full = refl
  taken-threadsafety (texts (some (s ∷ []))) safety full = refl
  taken-threadsafety (texts (some (s ∷ s' ∷ rest))) safety full = refl
  taken-threadsafety (text (some s)) safety full = refl
  taken-threadsafety (pointer (some u)) safety full = refl
  taken-threadsafety (data_value (some d)) safety full = refl
  taken-threadsafety (dtype_value (some d)) safety full = refl
  taken-threadsafety (safety_value (some d)) safety full = refl
  taken-threadsafety _ safety full = cc

  -- A `cast` to `pressio_thread_safety` gives no value: of a user pointer it throws, of any other
  -- option with a value it returns that the key exists.
  pub cast-threadsafety :
      (m : Options H) (key : Text) (safety : ConversionSafety) (o : PressioOption H)
      → lookup key m ≡ some o
      → has_value H o ≡ true
      → cast H OptionType.threadsafety m key safety ≡ (
          if same_type (type H o) OptionType.userptr
          then bad_variant_access
          else returns key_exists none)
  unfolding cast
  cast-threadsafety m key safety o e full = rw (e, cast, full) (taken-threadsafety o safety full)

  lookup-set_name :
      (name key : Text) (o : PressioOption H) (m : Options H)
      → lookup (format_name name key) (set_name H name key o m) ≡ some o
  unfolding set_name
  lookup-set_name name key o m = lookup-assign_self (format_name name key) o m

  get-there :
      (t : OptionType) (m : Options H) (key : Text) (o : PressioOption H)
      → lookup key m ≡ some o
      → has_value H o ≡ true
      → type H o ≡ t
      → get H t m key ≡ returns key_set (some o)
  unfolding get
  get-there t m key o there full e = rw (there, get, full, (same_type_iff (type H o) t).1 e)

  resolve-first :
      (before after : List Text) (name key : Text) (o : PressioOption H) (m : Options H)
      → All (λ p. lookup (format_name p key) m ≡ none) before
      → lookup (format_name name key) m ≡ some o
      → resolve H (before ++ (name ∷ after)) key m ≡ format_name name key
  unfolding resolve
  resolve-first [] after name key o m absent there = rw (there, resolve)
  resolve-first (p ∷ before) after name key o m absent there =
      rw (absent.0, resolve) (resolve-first before after name key o m absent.1 there)

  -- An option with a value set for a name on the search order of `value` is what a read of its type
  -- for `value` returns, if no name before it in that order has an option under the key. The normal
  -- form of `value` does not start with a slash, and is no longer than `npos` and shorter than
  -- the fuel.
  pub get_name-inherits :
      (fuel : ℕ) (value : Text) (before after : List Text) (name key : Text) (o : PressioOption H)
      (m : Options H)
      → leads (normalized value) ≡ false
      → length (normalized value) ≤ npos
      → length (normalized value) < fuel
      → search_order (normalized value) ≡ before ++ (name ∷ after)
      → All (λ p. lookup (format_name p key) (set_name H name key o m) ≡ none) before
      → has_value H o ≡ true
      → get_name H fuel (type H o) (set_name H name key o m) value key
        ≡ some (returns key_set (some o))
  unfolding get_name
  get_name-inherits fuel value before after name key o m front fits enough order absent full =
      let m' = set_name H name key o m in
      let there : lookup (format_name name key) m' ≡ some o = lookup-set_name name key o m in
      rw
        (
          search_lem fuel value front fits enough,
          order,
          resolve-first before after name key o m' absent there,
        )
        (ap some (get-there (type H o) m' (format_name name key) o there full refl))
