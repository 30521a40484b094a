-- ===== src/PressioOptions/Access.antt =====
-- struct pressio_options: the typed reads `get` and `cast`, of a key and along the path of a name
-- (include/libpressio_ext/cpp/options.h).
use libpressio.Base.{
  Bool, List, Option, Text, [], arith, if◌then◌else◌, lookup, none, some, true, ℕ, ◌==◌, ◌↔◌, ◌∷◌,
  ◌≡◌,
}
use libpressio.Names.Search.{format_name, search}
use libpressio.PressioOption.Host.{Host}
use libpressio.PressioOption.Cell.{PressioOption, OptionType, type, has_value}
use libpressio.PressioOption.Names.{
  ConversionSafety, KeyStatus, key_set, key_exists, key_does_not_exist,
}
use libpressio.PressioOption.As.{as_type}
use libpressio.PressioOptions.Map.{Options}

-- The values of `enum pressio_option_type`.
abbrev ordinal : OptionType → ℕ
ordinal OptionType.uint32 = 0
ordinal OptionType.int32 = 1
ordinal OptionType.float = 2
ordinal OptionType.double = 3
ordinal OptionType.charptr = 4
ordinal OptionType.userptr = 5
ordinal OptionType.unset = 6
ordinal OptionType.charptr_array = 7
ordinal OptionType.buffer = 8
ordinal OptionType.uint8 = 9
ordinal OptionType.int8 = 10
ordinal OptionType.uint16 = 11
ordinal OptionType.int16 = 12
ordinal OptionType.uint64 = 13
ordinal OptionType.int64 = 14
ordinal OptionType.bool = 15
ordinal OptionType.dtype = 16
ordinal OptionType.threadsafety = 17

-- `operator==` on types.
unfoldable pub same_type : OptionType → OptionType → Bool
same_type a b = ordinal a == ordinal b

pub same_type_iff : (a b : OptionType) → (same_type a b ≡ true) ↔ (a ≡ b)
unfolding same_type
same_type_iff OptionType.uint32 b = ground arith
same_type_iff _ b = ground arith

-- `pressio_type_to_enum` at the C++ type whose alternative has the tag `t`: there is no case for
-- `pressio_thread_safety`, which falls to the last one.
abbrev pub type_to_enum : OptionType → OptionType
type_to_enum OptionType.threadsafety = OptionType.userptr
type_to_enum t = t

module _ (H : Host) where
  -- What a read does: it returns a status, with the value that it writes through its pointer if
  -- there is one, or `std::get` throws `std::bad_variant_access`.
  pub data Outcome : Type 0 where
    returns : KeyStatus → Option (PressioOption H) → Outcome
    bad_variant_access : Outcome

  -- `get(key, T*)` for the type `T` with the tag `t`.
  unfoldable pub get : OptionType → Options H → Text → Outcome
  get t m key = elim (lookup key m) [
    | none ↦ returns key_does_not_exist none
    | some o ↦
        if has_value H o
        then (if same_type (type H o) t then returns key_set (some o) else returns key_exists none)
        else returns key_does_not_exist none
  ]

  -- `get_value<T>` of what `as` returned.
  unfoldable pub taken : OptionType → PressioOption H → Outcome
  taken t converted =
      if has_value H converted
      then (if same_type (type H converted) t
          then returns key_set (some converted)
          else bad_variant_access)
      else returns key_exists none

  -- `cast(key, T*, safety)`
  unfoldable pub cast : OptionType → Options H → Text → ConversionSafety → Outcome
  unfolding taken
  cast t m key safety = elim (lookup key m) [
    | none ↦ returns key_does_not_exist none
    | some o ↦
        if has_value H o
        then taken t (as_type H o (type_to_enum t) safety)
        else returns key_does_not_exist none
  ]

  -- The first key on the path that the map holds, and the plain key if there is none.
  unfoldable pub resolve : List Text → Text → Options H → Text
  resolve [] key m = key
  resolve (path ∷ paths) key m = elim (lookup (format_name path key) m) [
    | some o ↦ format_name path key
    | none ↦ resolve paths key m
  ]

  -- A read along the path that `search` returns; `none` while the search has not ended.
  abbrev along : Option (List Text) → Text → Options H → (Text → Outcome) → Option Outcome
  along none key m read = none
  along (some path) key m read = some (read (resolve path key m))

  -- `get(name, key, T*)` and `cast(name, key, T*, safety)`, with the rounds that the search of the
  -- name may take.
  unfoldable pub get_name : ℕ → OptionType → Options H → Text → Text → Option Outcome
  unfolding resolve get
  get_name fuel t m name key = along (search fuel name) key m (get t m)

  unfoldable pub cast_name :
      ℕ → OptionType → Options H → Text → Text → ConversionSafety → Option Outcome
  unfolding resolve cast
  cast_name fuel t m name key safety =
      along (search fuel name) key m (λ found. cast t m found safety)
