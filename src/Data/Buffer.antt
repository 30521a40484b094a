-- ===== src/Data/Buffer.antt =====
-- struct pressio_data with its memory: the constructors, and the operations on type and shape
-- (include/libpressio_ext/cpp/data.h, src/pressio_data.cc).
use libpressio.Base.{
  Bool, List, Option, Text, [], codes, false, get_or, if◌then◌else◌, length, ltb, none, not, some,
  text_eq, ℕ, ◌&&◌, ◌==◌,
}
use libpressio.Dtype.{Dtype, byte}
use libpressio.Data.Sizes.{data_size_in_bytes, data_size_in_elements}
use libpressio.Memory.Heap.{
  Domain, malloc, nonowning, prefix, domain_id, build, Outcome, returns, undefined, runtime_error,
  ◌>>=◌, Heap, System,
}
use libpressio.Memory.Ops.{
  Memory, unallocated, view, allocate, copy_to, move_construct, move_assign,
}

pub record Buffer : Type 0 where
  pub data_dtype : Dtype
  pub dims : List ℕ
  pub memory : Memory

unfoldable pub num_elements : Buffer → ℕ
num_elements b = data_size_in_elements b.dims

unfoldable pub size_in_bytes : Buffer → ℕ
size_in_bytes b = data_size_in_bytes b.data_dtype b.dims

unfoldable pub capacity_in_bytes : Buffer → ℕ
capacity_in_bytes b = b.memory.capacity

-- `get_dimension`
unfoldable pub get_dimension : ℕ → Buffer → ℕ
get_dimension i b = if ltb i (length b.dims) then get_or b.dims i 0 else 0

unfoldable pub has_data : Buffer → Bool
unfolding size_in_bytes
has_data b = elim b.memory.data_ptr [ none ↦ false | some p ↦ ltb 0 (size_in_bytes b) ]

unfoldable pub set_dtype : Dtype → Buffer → Buffer
set_dtype t b = record b { data_dtype = t }

-- The private constructor. Its test reads the parameter `memory`, which hides the member of that
-- name and has been moved from.
unfoldable pub construct : Dtype → List ℕ → Memory → Outcome Buffer
unfolding move_construct size_in_bytes
construct t ds memory =
    let (member, parameter) = move_construct memory in
    let b : Buffer = record { data_dtype = t; dims = ds; memory = member } in
    if not (parameter.capacity == 0) && ltb parameter.capacity (size_in_bytes b)
    then runtime_error
    else returns b

-- The default constructor.
unfoldable pub default_data : Buffer
default_data = record { data_dtype = byte; dims = []; memory = unallocated malloc }

-- `empty`, with a domain and without.
unfoldable pub empty_in : Dtype → List ℕ → Domain → Outcome Buffer
unfolding construct
empty_in t ds d = construct t ds (unallocated d)

unfoldable pub empty : Dtype → List ℕ → Outcome Buffer
unfolding empty_in
empty t ds = empty_in t ds malloc

-- `nonowning` of a pointer, with the id of its domain and without: the domain that the registry
-- builds has the id "malloc".
unfoldable pub nonowning_in : Dtype → Option ℕ → List ℕ → Text → Outcome Buffer
unfolding construct
nonowning_in t p ds id = construct t ds (view p (data_size_in_bytes t ds) (nonowning id))

unfoldable pub nonowning_at : Dtype → Option ℕ → List ℕ → Outcome Buffer
unfolding nonowning_in
nonowning_at t p ds = nonowning_in t p ds (codes "malloc")

-- `nonowning` of a buffer; a moved-from one has no domain to ask.
unfoldable pub nonowning_of : Buffer → Outcome Buffer
unfolding nonowning_in
nonowning_of src = elim src.memory.domain [
  | none ↦ undefined
  | some d ↦ nonowning_in src.data_dtype src.memory.data_ptr src.dims (domain_id d)
]

-- `move`, with a domain that frees the pointer.
unfoldable pub move : Dtype → Option ℕ → List ℕ → Domain → Outcome Buffer
unfolding construct
move t p ds d = construct t ds (view p (data_size_in_bytes t ds) d)

module _ (system : System) where
  -- `owning`
  unfoldable pub owning : Dtype → List ℕ → Domain → Heap → Outcome (Buffer × Heap)
  unfolding construct
  owning t ds d h = do
    (m, h') ← allocate system (data_size_in_bytes t ds) d h
    b ← construct t ds m
    returns (b, h')

  -- `owning` of a buffer: its type, shape and domain, not its contents.
  unfoldable pub owning_like : Buffer → Heap → Outcome (Buffer × Heap)
  unfolding owning
  owning_like src h = elim src.memory.domain [
    | none ↦ undefined
    | some d ↦ owning src.data_dtype src.dims d h
  ]

  -- `copy` of the bytes at a pointer.
  unfoldable pub copy : Dtype → Option ℕ → List ℕ → Text → Heap → Outcome (Buffer × Heap)
  unfolding construct
  copy t src ds id h = elim (build id) [
    | none ↦ undefined
    | some d ↦ (do
      let n = data_size_in_bytes t ds
      (m, h') ← copy_to system (view src n (nonowning (codes "malloc"))) d h
      b ← construct t ds m
      returns (b, h'))
  ]

  -- The domain that `clone` copies into.
  unfoldable pub clone_domain : Domain → Option Domain
  clone_domain d = if text_eq (prefix d) (domain_id d) then some d else build (domain_id d)

  -- `clone`
  unfoldable pub clone : Buffer → Heap → Outcome (Buffer × Heap)
  unfolding construct clone_domain
  clone src h = elim src.memory.domain [
    | none ↦ undefined
    | some d ↦ elim (clone_domain d) [
      | none ↦ undefined
      | some d' ↦ (do
        (m, h') ← copy_to system src.memory d' h
        b ← construct src.data_dtype src.dims m
        returns (b, h'))
    ]
  ]

  -- `set_dimensions`: the size returned, the buffer and the heap. The local `new_mem` owns nothing
  -- when it is destroyed.
  unfoldable pub set_dimensions : List ℕ → Buffer → Heap → Outcome (ℕ × Buffer × Heap)
  unfolding size_in_bytes capacity_in_bytes
  set_dimensions ds b h =
      let resized : Memory → Buffer = λ m. record b { dims = ds; memory = m } in
      if ltb (capacity_in_bytes b) (data_size_in_bytes b.data_dtype ds)
      then elim b.memory.domain [
        | none ↦ undefined
        | some d ↦ (do
          (new, h') ← allocate system (data_size_in_bytes b.data_dtype ds) d h
          let (m, left, h'') = move_assign b.memory new h'
          returns (size_in_bytes (resized m), resized m, h''))
      ]
      else returns (size_in_bytes (resized b.memory), resized b.memory, h)

-- `reshape`: the value it returns, and the buffer. The values are 0, -1 and 1.
pub data Reshaped : Type 0 where
  same smaller larger : Reshaped

unfoldable pub reshape : List ℕ → Buffer → Reshaped × Buffer
reshape ds b =
    let old = data_size_in_elements b.dims in
    let new = data_size_in_elements ds in
    (if old == new then same else if ltb new old then smaller else larger, record b { dims = ds })
