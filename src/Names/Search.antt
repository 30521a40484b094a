-- ===== src/Names/Search.antt =====
-- The functions `search` and `format_name` of libpressio::names.
use libpressio.Base.{
  Bool, List, Option, Text, [], drop, false, if◌then◌else◌, leb, length, none, some, suc, take,
  true, zero, ℕ, ◌%◌, ◌++◌, ◌+◌, ◌-◌, ◌==◌, ◌^◌, ◌∷◌,
}

-- `std::string::npos`
abbrev pub npos : ℕ
npos = 2 ^ 64 - 1

-- `pos - 1` in `size_t`: 0 wraps to `npos`.
abbrev pub before : ℕ → ℕ
before pos = (pos + npos) % 2 ^ 64

abbrev pub slash : ℕ
slash = b'/'

-- `rfind('/', pos)`: the last slash at `pos` or before.
unfoldable pub rfind : Text → ℕ → Option ℕ
rfind [] pos = none
rfind (c ∷ s) zero = if c == slash then some 0 else none
rfind (c ∷ s) (suc pos) = elim (rfind s pos) [
  | some i ↦ some (suc i)
  | none ↦ if c == slash then some 0 else none
]

-- `front() == '/'` and `back() == '/'`, false of the empty text.
abbrev pub leads : Text → Bool
leads [] = false
leads (c ∷ s) = c == slash

abbrev pub trails : Text → Bool
trails [] = false
trails (c ∷ []) = c == slash
trails (c ∷ d ∷ s) = trails (d ∷ s)

abbrev pub bit : Bool → ℕ
bit true = 1
bit false = 0

-- The text without one slash at each end.
unfoldable pub normalized : Text → Text
normalized value =
    let size = length value in
    let kept =
      if leb 2 size
      then size - bit (leads value) - bit (trails value)
      else if size == 1
      then size - bit (leads value)
      else size in
    take kept (drop (bit (leads value)) value)

-- The loop of `search` over the length of the prefix taken next; `none` when the fuel runs out.
unfoldable pub search_loop : ℕ → Text → ℕ → Option (List Text)
search_loop zero s len = none
search_loop (suc fuel) s len = elim (rfind s (before len)) [
  | none ↦ some (take len s ∷ [] ∷ [])
  | some i ↦ elim (search_loop fuel s i) [ none ↦ none | some rest ↦ some (take len s ∷ rest) ]
]

-- `search`, given the number of rounds that its loop may take.
unfoldable pub search : ℕ → Text → Option (List Text)
unfolding search_loop
search fuel value = elim (normalized value) [
  | [] ↦ some ([] ∷ [])
  | c ∷ s ↦ search_loop fuel (c ∷ s) npos
]

-- `format_name`
unfoldable pub format_name : Text → Text → Text
format_name [] key = key
format_name (c ∷ name) key = (slash ∷ c ∷ name) ++ (b':' ∷ key)
