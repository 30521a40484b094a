-- ===== src/Tests/OptionsTests.antt =====
-- The properties of names and of struct pressio_options at concrete inputs.
use libpressio.Base.{
  List, Text, [], arith, assign, codes, if◌then◌else◌, lookup, none, refl, some, text_eq, true, ℕ,
  ◌∷◌, ◌≡◌,
}
use libpressio.Base.Int.{pos}
use libpressio.Names.Search.{search, normalized, format_name}
use libpressio.Names.Ancestors.{search_order, search_lem}
use libpressio.Names.Termination.{search-diverges}
use libpressio.PressioOption.Numeric.{NumType}
use libpressio.PressioOption.Cell.{OptionType, PressioOption, num, has_value, type}
use libpressio.PressioOption.Names.{special, key_set, key_exists, key_does_not_exist}
use libpressio.PressioOptions.Map.{Options, set, set_name, copy_from, merge}
use libpressio.PressioOptions.Access.{get, cast, get_name, returns, same_type}
use libpressio.PressioOptions.Laws.{taken_over, lookup-copy_from, lookup-merge}
use libpressio.PressioOptions.Reads.{Sound, get-set, cast-Sound, get_name-inherits}
use libpressio.Tests.Hosts.{host}

abbrev five : PressioOption host
five = num NumType.int32 (some (pos 5))

abbrev k : Text
k = codes "k"

abbrev one_option : Options host
one_option = (k, five) ∷ []

search_lem_example : search 10 (codes "/a/b/") ≡ some (search_order (normalized (codes "/a/b/")))
unfolding normalized
search_lem_example = search_lem 10 (codes "/a/b/") refl (omega arith) (omega arith)

search-diverges_example : search 1000 (codes "//a") ≡ none
unfolding normalized
search-diverges_example = search-diverges 1000 (codes "//a") refl

get-set_example : get host OptionType.int32 (set host k five []) k ≡ (
    if text_eq k k
    then (if has_value host five
        then (if same_type (type host five) OptionType.int32
            then returns key_set (some five)
            else returns key_exists none)
        else returns key_does_not_exist none)
    else get host OptionType.int32 [] k)
get-set_example = get-set host OptionType.int32 k k five []

cast-Sound_example : Sound host OptionType.double (cast host OptionType.double one_option k special)
cast-Sound_example = cast-Sound host OptionType.double one_option k special (λ e. cc) (λ e. cc)

get_name-inherits_example :
    get_name host 10 (type host five) (set_name host (codes "a") k five []) (codes "a/b") k
    ≡ some (returns key_set (some five))
unfolding normalized has_value lookup set_name assign text_eq format_name
get_name-inherits_example =
    get_name-inherits host 10 (codes "a/b") (codes "a/b" ∷ []) ([] ∷ []) (codes "a") k five [] refl
      (omega arith) (omega arith) refl (refl, tt) refl

lookup-copy_from_example :
    lookup k (copy_from host one_option true [])
    ≡ taken_over host true (lookup k one_option) (lookup k [])
unfolding lookup
lookup-copy_from_example = lookup-copy_from host one_option [] true k (refl, tt)

abbrev other_only : List (Text × ℕ)
other_only = (codes "noop", 3) ∷ []

abbrev k_only : List (Text × ℕ)
k_only = (k, 3) ∷ []

lookup-merge_example :
    lookup k (merge host [] one_option)
    ≡ (elim (lookup {V = PressioOption host} k []) [ some o ↦ some o | none ↦ lookup k one_option ])
lookup-merge_example = lookup-merge host [] one_option k
