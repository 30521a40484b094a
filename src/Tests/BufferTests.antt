-- ===== src/Tests/BufferTests.antt =====
-- The properties of memory, of struct pressio_data and of the delta encoding at concrete inputs.
use libpressio.Base.{
  Bool, List, [], arith, false, none, refl, some, suc, true, zero, ℕ, ◌%◌, ◌*◌, ◌^◌, ◌↔◌, ◌∷◌, ◌≡◌,
  ◌<◌, ◌≢◌, ◌≤◌, ◌⊎◌,
}
use libpressio.Dtype.{dtype_size, Dtype}
use libpressio.Memory.Heap.{Heap, System, allocated, malloc, returns, find_block}
use libpressio.Memory.Ops.{Memory, allocate, destroy, move_assign, copy_to}
use libpressio.Memory.Ownership.{destroy-allocate, move_assign-leaks, copy_to-malloc}
use libpressio.Data.Sizes.{data_size_in_bytes}
use libpressio.Data.Buffer.{Buffer, set_dimensions, size_in_bytes, capacity_in_bytes}
use libpressio.Data.ForEach.{for_each, element_size}
use libpressio.Data.Covers.{for_each-covers}
use libpressio.Data.Select.{validate_select_args, selects}
use libpressio.Data.SelectBounds.{Fits, validate_select_args_lem, selects-past_end}
use libpressio.Data.Shape.{set_dimensions-malloc, set_dimensions-leaks}
use libpressio.Delta.Codec.{encode, decode, decode-encode}

-- Memory that is never short and reads as zeros.
abbrev zeros : ℕ → List ℕ
zeros zero = []
zeros (suc n) = 0 ∷ zeros n

abbrev system : System
system n next = some (zeros n)

abbrev heap : Heap
heap = record { next = 1; blocks = (0, 7 ∷ 8 ∷ []) ∷ [] }

-- It points at block 0.
abbrev pair : Memory
pair = record { domain = some malloc; data_ptr = some 0; capacity = 2 }

abbrev nothing : Memory
nothing = record { domain = some malloc; data_ptr = none; capacity = 0 }

abbrev bytes : Buffer
bytes = record { data_dtype = Dtype.byte; dims = 2 ∷ []; memory = pair }

destroy-allocate_example :
    (m : Memory) × (h : Heap) × (allocate system 4 malloc heap ≡ returns (m, h))
    × ((destroy m h).blocks ≡ heap.blocks)
destroy-allocate_example = destroy-allocate system 4 heap (omega arith, tt)

move_assign-leaks_example :
    let (this, rhs, h) = move_assign pair nothing heap in
    find_block 0 (destroy rhs (destroy this h)).blocks ≡ some (7 ∷ 8 ∷ [])
move_assign-leaks_example = move_assign-leaks pair nothing heap 0 (7 ∷ 8 ∷ []) refl refl (λ e. cc)

copy_to-malloc_example :
    copy_to system pair malloc heap
    ≡ returns (
      record { domain = some malloc; data_ptr = some 1; capacity = 2 },
      record { next = 2; blocks = (1, 7 ∷ 8 ∷ []) ∷ (0, 7 ∷ 8 ∷ []) ∷ [] },
    )
copy_to-malloc_example =
    copy_to-malloc system pair heap 0 (7 ∷ 8 ∷ []) (0 ∷ 0 ∷ []) (omega arith, tt) refl refl refl
      refl refl

set_dimensions-malloc_example :
    (b : Buffer) × (h : Heap) × (set_dimensions system (3 ∷ []) bytes heap
      ≡ returns (size_in_bytes b, b, h))
    × (b.dims ≡ 3 ∷ [])
    × (b.data_dtype ≡ bytes.data_dtype)
    × (size_in_bytes b ≤ capacity_in_bytes b)
    × (capacity_in_bytes bytes ≤ capacity_in_bytes b)
    × (((data_size_in_bytes bytes.data_dtype (3 ∷ []) ≤ capacity_in_bytes bytes)
          × (b.memory.data_ptr ≡ bytes.memory.data_ptr)
          × (h ≡ heap))
        ⊎ ((capacity_in_bytes bytes < data_size_in_bytes bytes.data_dtype (3 ∷ []))
            × ((b.memory.data_ptr, h)
                ≡ allocated (system (data_size_in_bytes bytes.data_dtype (3 ∷ [])) 1) heap)))
set_dimensions-malloc_example = set_dimensions-malloc system (3 ∷ []) bytes heap refl

set_dimensions-leaks_example :
    (b : Buffer) × (h : Heap) × (set_dimensions system (3 ∷ []) bytes heap
      ≡ returns (size_in_bytes b, b, h))
    × (b.memory.data_ptr ≢ some 0)
    × (find_block 0 h.blocks ≡ some (7 ∷ 8 ∷ []))
unfolding capacity_in_bytes data_size_in_bytes dtype_size
set_dimensions-leaks_example =
    set_dimensions-leaks system (3 ∷ []) bytes heap 0 (7 ∷ 8 ∷ []) (omega arith, tt) refl refl
      (omega arith)

validate_select_args_lem_example :
    (validate_select_args (0 ∷ []) (2 ∷ []) (2 ∷ []) (1 ∷ []) (4 ∷ []) ≡ true)
    ↔ Fits (0 ∷ []) (2 ∷ []) (2 ∷ []) (1 ∷ []) (4 ∷ [])
validate_select_args_lem_example =
    validate_select_args_lem (0 ∷ []) (2 ∷ []) (2 ∷ []) (1 ∷ []) (4 ∷ []) (λ e. omega (arith, e))
      (omega arith, tt)

selects-past_end_example : selects (1 ∷ []) [] [] (4 ∷ []) (4 ∷ []) ≡ true
selects-past_end_example = selects-past_end 4 (omega arith) (omega arith)

-- Words of one bit: addition and subtraction are both the exclusive or.
abbrev xor : Bool → Bool → Bool
xor true true = false
xor true false = true
xor false y = y

cancel_right : (x y : Bool) → xor (xor x y) y ≡ x
cancel_right true true = refl
cancel_right true false = refl
cancel_right false true = refl
cancel_right false false = refl

cancel_left : (x y : Bool) → xor y (xor x y) ≡ x
cancel_left true true = refl
cancel_left true false = refl
cancel_left false true = refl
cancel_left false false = refl

decode-encode_example :
    (code : List Bool) × (encode xor xor (true ∷ true ∷ false ∷ []) ≡ some code)
    × (decode xor xor code ≡ some (true ∷ true ∷ false ∷ []))
decode-encode_example = decode-encode xor xor cancel_right cancel_left true true (false ∷ [])

for_each-covers_example :
    let (e, n) = for_each bytes in (n * element_size e) % 2 ^ 64 ≡ size_in_bytes bytes
for_each-covers_example = for_each-covers bytes
