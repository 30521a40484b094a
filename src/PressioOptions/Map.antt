-- ===== src/PressioOptions/Map.antt =====
-- struct pressio_options: the operations that change the map (include/libpressio_ext/cpp/options.h,
-- src/pressio_options.cc). A map is a list of keys and options; an operation returns the new map.
use libpressio.Base.{
  Bool, List, Option, Text, [], assign, if◌then◌else◌, length, lookup, none, not, some, suc, ℕ,
  ◌&&◌, ◌∷◌,
}
use libpressio.Names.Search.{format_name}
use libpressio.PressioOption.Host.{Host}
use libpressio.PressioOption.Cell.{PressioOption, monostate, OptionType}
use libpressio.PressioOption.Cell
use libpressio.PressioOption.Names.{
  ConversionSafety, KeyStatus, key_set, key_exists, key_does_not_exist,
}
use libpressio.PressioOption.As

module _ (H : Host) where
  abbrev pub Options : Type 0
  Options = List (Text × PressioOption H)

  unfoldable pub status_of : Option (PressioOption H) → KeyStatus
  status_of none = key_does_not_exist
  status_of (some o) = if Cell.has_value H o then key_set else key_exists

  -- `key_status`
  unfoldable pub key_status : Options → Text → KeyStatus
  unfolding status_of
  key_status m key = status_of (lookup key m)

  -- `set`, of a key and of a name with a key
  unfoldable pub set : Text → PressioOption H → Options → Options
  set key value m = assign key value m

  unfoldable pub set_name : Text → Text → PressioOption H → Options → Options
  unfolding set
  set_name name key value m = set (format_name name key) value m

  -- `pressio_options_clear`
  unfoldable pub clear_key : Text → Options → Options
  unfolding set
  clear_key key m = set key monostate m

  -- What `operator[]` finds; a missing key gets a default option.
  abbrev pub cell : Option (PressioOption H) → PressioOption H
  cell none = monostate
  cell (some o) = o

  -- `cast_set`, by the status of the key: the map after the call, and the status. On a missing key
  -- nothing is inserted.
  unfoldable pub cast_set_at :
      KeyStatus → Text → PressioOption H → ConversionSafety → Options → Options × KeyStatus
  cast_set_at key_does_not_exist key value safety m = (m, key_does_not_exist)
  cast_set_at _ key value safety m =
      let (o, status) = As.cast_set H (cell (lookup key m)) value safety in (assign key o m, status)

  unfoldable pub cast_set :
      Text → PressioOption H → ConversionSafety → Options → Options × KeyStatus
  unfolding key_status cast_set_at
  cast_set key value safety m = cast_set_at (key_status m key) key value safety m

  -- `set_type`; a missing key is inserted.
  unfoldable pub set_type : Text → OptionType → Options → Options
  set_type key to m = assign key (Cell.set_type H to) m

  -- `insert_or_assign` over the entries of another map, in their order.
  unfoldable pub insert_or_assign : Options → Bool → Options → Options
  insert_or_assign [] ignore_empty m = m
  insert_or_assign ((key, o) ∷ rest) ignore_empty m =
      insert_or_assign rest ignore_empty
        (if ignore_empty && not (Cell.has_value H o) then m else assign key o m)

  -- `copy_from`
  unfoldable pub copy_from : Options → Bool → Options → Options
  unfolding insert_or_assign
  copy_from o ignore_empty m = insert_or_assign o ignore_empty m

  -- `std::map::insert`: an entry under a key that is there stays.
  unfoldable pub insert : Text → PressioOption H → Options → Options
  insert key o m = elim (lookup key m) [ none ↦ assign key o m | some old ↦ m ]

  -- `pressio_options_merge`
  unfoldable pub merge : Options → Options → Options
  unfolding insert
  merge lhs [] = lhs
  merge lhs ((key, o) ∷ rest) = merge (insert key o lhs) rest

  -- `num_set`
  unfoldable pub num_set : Options → ℕ
  num_set [] = 0
  num_set ((key, o) ∷ m) = if Cell.has_value H o then suc (num_set m) else num_set m

  -- `size`
  abbrev pub size : Options → ℕ
  size m = length m
