-- ===== src/Iterator/Range.antt =====
-- Class multi_dimensional_range of src/multi_dimensional_iterator.h: its constructor from dimensions, and
-- the access to an element. The iterators that the constructor takes go on for as many elements as there
-- are dimensions: a dimension is one element of each. A division by 0 and an access outside the array
-- are `none`.
use libpressio.Base.{
  List, Option, [], get_elem?, if◌then◌else◌, none, some, ℕ, ◌%◌, ◌*◌, ◌+◌, ◌-◌, ◌/◌, ◌==◌, ◌^◌,
  ◌∷◌,
}
use libpressio.Chunking.Blocks.{as_int}
use libpressio.Serial.Recv.{◌>>=◌}

pub record Dim : Type 0 where
  pub global_dim : ℕ
  pub count : ℕ
  pub stride : ℕ
  pub start : ℕ

-- The members that an access reads.
pub record MultiDimensionalRange : Type 0 where
  pub local_stride : List ℕ
  pub global_stride : List ℕ
  pub global_offset : ℕ

-- The scans start from an `int`, and keep their products in one.
unfoldable pub local_strides : ℕ → List Dim → List ℕ
unfolding as_int
local_strides n [] = []
local_strides n (d ∷ ds) = n ∷ local_strides (as_int (n * d.count)) ds

-- `global_stride` when it accounts for the stride.
unfoldable pub global_strides : ℕ → List Dim → List ℕ
unfolding as_int
global_strides n [] = []
global_strides n (d ∷ ds) = n * d.stride % 2 ^ 64 ∷ global_strides (as_int (n * d.global_dim)) ds

-- The reduction for `global_offset`, in an `int` as well.
unfoldable pub start_offset : ℕ → ℕ → List Dim → ℕ
unfolding as_int
start_offset total n [] = total
start_offset total n (d ∷ ds) =
    start_offset (as_int (total + n * d.start)) (as_int (n * d.global_dim)) ds

-- The constructor.
unfoldable pub multi_dimensional_range : List Dim → MultiDimensionalRange
unfolding local_strides global_strides start_offset
multi_dimensional_range dims = record {
  local_stride = local_strides 1 dims;
  global_stride = global_strides 1 dims;
  global_offset = start_offset 0 1 dims;
}

-- `local_position`, from the last dimension to the first, and what is left of `current`.
unfoldable pub local_position : List ℕ → ℕ → Option (List ℕ × ℕ)
local_position [] current = some ([], current)
local_position (s ∷ ss) current = do
  (ps, c) ← local_position ss current
  if s == 0 then none else some (c / s ∷ ps, c - c / s * s)

-- The reduction in `current_to_offset`.
unfoldable pub reduce_offset : ℕ → List ℕ → List ℕ → ℕ
reduce_offset total (s ∷ ss) (p ∷ ps) = reduce_offset ((total + s * p) % 2 ^ 64) ss ps
reduce_offset total [] ps = total
reduce_offset total (s ∷ ss) [] = total

unfoldable pub current_to_offset : MultiDimensionalRange → ℕ → Option ℕ
unfolding local_position reduce_offset
current_to_offset range current = do
  (ps, c) ← local_position range.local_stride current
  some (reduce_offset range.global_offset range.global_stride ps)

-- `operator()`: `current` of the requested position, which is reduced to an `int`.
unfoldable pub requested_current : ℕ → List ℕ → List ℕ → ℕ
unfolding as_int
requested_current total (s ∷ ss) (p ∷ ps) = requested_current (as_int (total + s * p)) ss ps
requested_current total [] ps = total
requested_current total (s ∷ ss) [] = total

-- The element at a position of as many coordinates as there are dimensions.
unfoldable pub element_at {ℓ} : {A : Type ℓ} → MultiDimensionalRange → List A → List ℕ → Option A
unfolding current_to_offset requested_current
element_at range origin requested = do
  offset ← current_to_offset range (requested_current 0 range.local_stride requested)
  get_elem? origin offset
