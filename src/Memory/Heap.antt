-- ===== src/Memory/Heap.antt =====
-- Domains and the heap they work on: src/plugins/domains/malloc.cc and nonowning.cc, and the
-- registry's `build` for these two. A pointer is the number of a block; a null pointer is `none`.
-- The cuda and user domains are not modelled.
use libpressio.Base.{
  List, Option, Text, [], codes, drop, if◌then◌else◌, leb, length, none, some, take, text_eq, ℕ,
  ◌&&◌, ◌++◌, ◌+◌, ◌==◌, ◌∷◌,
}

-- A call returns, throws `std::bad_alloc` or `std::runtime_error`, or does what C++ leaves undefined.
pub data Outcome {ℓ} (A : Type ℓ) : Type ℓ where
  returns : A → Outcome A
  bad_alloc runtime_error undefined : Outcome A

infixl 5 ◌>>=◌
abbrev pub ◌>>=◌ {ℓ κ} : {A : Type ℓ} {B : Type κ} → Outcome A → (A → Outcome B) → Outcome B
returns a >>= f = f a
bad_alloc >>= f = bad_alloc
runtime_error >>= f = runtime_error
undefined >>= f = undefined

-- The blocks that are allocated, by number, and the next number. Numbers are never used again.
pub record Heap : Type 0 where
  pub next : ℕ
  pub blocks : List (ℕ × List ℕ)

abbrev pub find_block : ℕ → List (ℕ × List ℕ) → Option (List ℕ)
find_block p [] = none
find_block p ((q, b) ∷ bs) = if q == p then some b else find_block p bs

abbrev pub remove_block : ℕ → List (ℕ × List ℕ) → List (ℕ × List ℕ)
remove_block p [] = []
remove_block p ((q, b) ∷ bs) =
    let rest = remove_block p bs in if q == p then rest else (q, b) ∷ rest

abbrev pub write_block : ℕ → List ℕ → List (ℕ × List ℕ) → List (ℕ × List ℕ)
write_block p c [] = []
write_block p c ((q, b) ∷ bs) =
    let rest = write_block p c bs in if q == p then (q, c) ∷ rest else (q, b) ∷ rest

-- `pressio_malloc_domain`, and `pressio_nonowning_domain` with its `prefix_str`.
pub data Domain : Type 0 where
  malloc : Domain
  nonowning : Text → Domain

-- `prefix`
unfoldable pub prefix : Domain → Text
prefix malloc = codes "malloc"
prefix (nonowning id) = codes "nonowning"

-- `domain_id`
unfoldable pub domain_id : Domain → Text
unfolding prefix
domain_id malloc = prefix malloc
domain_id (nonowning id) = id

-- `domain_plugins().build`; a name that is not registered gives a null pointer.
unfoldable pub build : Text → Option Domain
build name =
    if text_eq name (codes "malloc")
    then some malloc
    else if text_eq name (codes "nonowning")
    then some (nonowning (codes "malloc"))
    else none

-- `clone`
unfoldable pub clone : Domain → Option Domain
unfolding build domain_id
clone malloc = some malloc
clone (nonowning id) = build (domain_id (nonowning id))

-- `std::malloc` is `system`: from a size and the number of the new block, the bytes that stand in
-- it, or `none` when there is no memory.
abbrev pub System : Type 0
System = ℕ → ℕ → Option (List ℕ)

-- The pointer that `std::malloc` returns, and the heap.
unfoldable pub allocated : Option (List ℕ) → Heap → Option ℕ × Heap
allocated none h = (none, h)
allocated (some b) h = (some h.next, record { next = h.next + 1; blocks = (h.next, b) ∷ h.blocks })

-- `alloc`
unfoldable pub alloc : System → Domain → ℕ → Heap → Outcome (Option ℕ × Heap)
unfolding allocated
alloc system malloc n h = returns (allocated (system n h.next) h)
alloc system (nonowning id) n h = bad_alloc

-- `free`. Freeing a pointer that is no block of the heap, which C++ leaves undefined, changes nothing
-- here.
unfoldable pub free : Domain → Option ℕ → Heap → Heap
free malloc none h = h
free malloc (some p) h = record h { blocks = remove_block p h.blocks }
free (nonowning id) p h = h

-- `std::memcpy` of `n` bytes from the block that holds `new` to block `d`, which holds `old`; both
-- must hold as many.
unfoldable pub overwrite : ℕ → Option (List ℕ) → Option (List ℕ) → ℕ → Heap → Outcome Heap
overwrite d (some old) (some new) n h =
    if leb n (length old) && leb n (length new)
    then returns (record h { blocks = write_block d (take n new ++ drop n old) h.blocks })
    else undefined
overwrite d _ _ n h = undefined

unfoldable pub copy_bytes : Option ℕ → Option ℕ → ℕ → Heap → Outcome Heap
unfolding overwrite
copy_bytes (some d) (some s) n h = overwrite d (find_block d h.blocks) (find_block s h.blocks) n h
copy_bytes _ _ n h = undefined

-- `memcpy`
unfoldable pub memcpy : Domain → Option ℕ → Option ℕ → ℕ → Heap → Outcome Heap
unfolding copy_bytes
memcpy malloc d s n h = copy_bytes d s n h
memcpy (nonowning id) d s n h = returns h
