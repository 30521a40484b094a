-- ===== src/Memory/Ops.antt =====
-- class pressio_memory (include/libpressio_ext/cpp/memory.h, src/pressio_memory.cc). An operation
-- returns the objects it changes and the heap. Two arguments are two objects: an assignment of an
-- object to itself returns at once and is not modelled.
use libpressio.Base.{Option, if◌then◌else◌, ltb, min, none, some, ℕ, ◌==◌}
use libpressio.Memory.Heap.{
  Heap, Domain, Outcome, returns, undefined, ◌>>=◌, alloc, free, memcpy, clone, System,
}

-- The members `data_domain`, `data_ptr` and `data_capacity`.
pub record Memory : Type 0 where
  pub domain : Option Domain
  pub data_ptr : Option ℕ
  pub capacity : ℕ

-- The default constructor, and the one with a domain.
unfoldable pub unallocated : Domain → Memory
unallocated d = record { domain = some d; data_ptr = none; capacity = 0 }

-- The non-owning constructor.
unfoldable pub view : Option ℕ → ℕ → Domain → Memory
view p n d = record { domain = some d; data_ptr = p; capacity = n }

-- What a moved-from object is left with.
unfoldable pub moved : Memory
moved = record { domain = none; data_ptr = none; capacity = 0 }

-- The move constructor: the new object, and what is left of the old one.
unfoldable pub move_construct : Memory → Memory × Memory
unfolding moved
move_construct rhs = (rhs, moved)

-- `operator=(pressio_memory &&)`: `this` and `rhs` after it.
unfoldable pub move_assign : Memory → Memory → Heap → Memory × Memory × Heap
unfolding moved
move_assign this rhs h = (rhs, moved, h)

-- The destructor.
unfoldable pub release_block : Option ℕ → Option Domain → Heap → Heap
release_block (some p) (some d) h = free d (some p) h
release_block _ _ h = h

unfoldable pub destroy : Memory → Heap → Heap
unfolding release_block
destroy m h = release_block m.data_ptr m.domain h

-- `release`: the pointer, and the object.
unfoldable pub release : Memory → Option ℕ × Memory
release m = (m.data_ptr, record m { data_ptr = none })

-- `reset`
unfoldable pub reset : Option ℕ → Memory → Heap → Memory × Heap
unfolding destroy
reset p m h = (record m { data_ptr = p }, destroy m h)

module _ (system : System) where
  -- The owning constructor.
  unfoldable pub allocate : ℕ → Domain → Heap → Outcome (Memory × Heap)
  unfolding alloc
  allocate n d h = do
    (p, h') ← alloc system d n h
    returns (record { domain = some d; data_ptr = p; capacity = n }, h')

  -- The first test of `operator=(pressio_memory const &)`.
  unfoldable pub grow : Memory → ℕ → Heap → Outcome (Memory × Heap)
  grow m n h = elim m.domain [
    | none ↦ returns (m, h)
    | some d ↦
        if ltb m.capacity n
        then (do
          (p, h') ← alloc system d n (free d m.data_ptr h)
          returns (record m { data_ptr = p; capacity = n }, h'))
        else returns (m, h)
  ]

  -- Its second test; without a domain the call is through a null pointer.
  unfoldable pub fill : Memory → Memory → Heap → Outcome (Memory × Heap)
  fill m rhs h = if min rhs.capacity m.capacity == 0 then returns (m, h) else elim m.domain [
    | none ↦ undefined
    | some d ↦
        memcpy d m.data_ptr rhs.data_ptr (min rhs.capacity m.capacity) h >>= λ h'. returns (m, h')
  ]

  -- `operator=(pressio_memory const &)`
  unfoldable pub copy_assign : Memory → Memory → Heap → Outcome (Memory × Heap)
  unfolding grow fill
  copy_assign m rhs h = do (m', h') ← grow m rhs.capacity h; fill m' rhs h'

  -- The copy constructor with a domain: it allocates, then assigns.
  unfoldable pub copy_to : Memory → Domain → Heap → Outcome (Memory × Heap)
  unfolding allocate copy_assign
  copy_to rhs d h = do (m, h') ← allocate rhs.capacity d h; copy_assign m rhs h'

  -- The copy constructor: the domain is a clone, and is used through its pointer.
  unfoldable pub copy_construct : Memory → Heap → Outcome (Memory × Heap)
  unfolding copy_to clone
  copy_construct rhs h = elim rhs.domain [
    | none ↦ undefined
    | some d ↦ elim (clone d) [ none ↦ undefined | some d' ↦ copy_to rhs d' h ]
  ]
