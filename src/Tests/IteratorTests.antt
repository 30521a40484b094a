-- ===== src/Tests/IteratorTests.antt =====
-- The properties of views at a concrete input.
use libpressio.Base.{List, [], arith, get_elem?, refl, some, ℕ, ◌<◌, ◌∷◌, ◌≡◌}
use libpressio.Iterator.Position.{local_position-requested_current}
use libpressio.Iterator.Offset.{IsLocal, counts, element_at_lem, index, size}
use libpressio.Iterator.Range.{
  Dim, element_at, local_position, local_strides, requested_current, multi_dimensional_range,
}

-- Every second of four columns, and the rows from the second on.
abbrev every_second : List Dim
every_second =
    record { global_dim = 4; count = 2; stride = 2; start = 1 }
    ∷ record { global_dim = 3; count = 2; stride = 1; start = 1 }
    ∷ []

abbrev numbers : List ℕ
numbers = 10 ∷ 11 ∷ 12 ∷ 13 ∷ 20 ∷ 21 ∷ 22 ∷ 23 ∷ 30 ∷ 31 ∷ 32 ∷ 33 ∷ []

last_of_view : element_at (multi_dimensional_range every_second) numbers (1 ∷ 1 ∷ []) ≡ some 33
unfolding element_at multi_dimensional_range
last_of_view = refl

element_at_lem_example :
    (element_at (multi_dimensional_range every_second) numbers (1 ∷ 1 ∷ [])
      ≡ get_elem? numbers (index 1 every_second (1 ∷ 1 ∷ [])))
    × (index 1 every_second (1 ∷ 1 ∷ []) < size every_second)
element_at_lem_example =
    element_at_lem every_second numbers (1 ∷ 1 ∷ [])
      (omega arith, omega arith, (omega arith, omega arith, tt)) (omega arith) (omega arith)

local_position-requested_current_example :
    ((qs : List ℕ) × (local_position (local_strides 1 every_second) 2 ≡ some (qs, 0))
      × IsLocal every_second qs
      × (requested_current 0 (local_strides 1 every_second) qs ≡ 2))
    × (local_position
          (local_strides 1 every_second)
          (requested_current 0 (local_strides 1 every_second) (1 ∷ 1 ∷ []))
        ≡ some (1 ∷ 1 ∷ [], 0))
    × (requested_current 0 (local_strides 1 every_second) (1 ∷ 1 ∷ []) < counts every_second)
local_position-requested_current_example =
    local_position-requested_current every_second 2 (1 ∷ 1 ∷ []) (omega arith) (omega arith)
      (omega arith, (omega arith, tt))
