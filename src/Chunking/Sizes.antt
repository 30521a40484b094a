-- ===== src/Chunking/Sizes.antt =====
-- The size of the blocks' memory, and what it bounds.
use libpressio.Base.{
  List, [], ap, arith, false, refl, ℕ, ◌%◌, ◌*◌, ◌/◌, ◌<◌, ◌==◌, ◌^◌, ◌∙◌, ◌∷◌, ◌≡◌, ◌≤◌,
}
use libpressio.Dtype.{Dtype, dtype_size}
use libpressio.Memory.Heap.{returns}
use libpressio.Chunking.Arith.{le-padded}
use libpressio.Chunking.Blocks.{max_idx}
use libpressio.Chunking.Copies.{Fits}
use libpressio.Chunking.Run.{working_memory_size, n_blocks, block_size}

-- The elements of the blocks, padding included.
abbrev pub padded_elements : List ℕ → List ℕ → ℕ
padded_elements (d ∷ ds) (b ∷ bs) = max_idx d b * b * padded_elements ds bs
padded_elements _ _ = 1

-- One to three dimensions, each with a block; no dimension and no block is 0, and the strides of three
-- dimensions are `int`s.
abbrev pub HasBlocks : List ℕ → List ℕ → Type 0
HasBlocks (d0 ∷ []) (b0 ∷ []) = (0 < d0) × (0 < b0)
HasBlocks (d0 ∷ d1 ∷ []) (b0 ∷ b1 ∷ []) = (0 < d0) × (0 < b0) × (0 < d1) × (0 < b1)
HasBlocks (d0 ∷ d1 ∷ d2 ∷ []) (b0 ∷ b1 ∷ b2 ∷ []) =
    (0 < d0) × (0 < b0) × (0 < d1) × (0 < b1) × (0 < d2) × (0 < b2) × (d0 * d1 < 2 ^ 31)
HasBlocks _ _ = ⊥

pub dtype_size-pos : (t : Dtype) → 0 < dtype_size t
unfolding dtype_size
dtype_size-pos Dtype.byte = omega arith
dtype_size-pos _ = omega arith

pub max_idx-pos : (d b : ℕ) → 0 < d → 0 < b → 0 < max_idx d b
max_idx-pos d b h k = grind (arith, le-padded d b k)

le-times : (a b : ℕ) → 0 < b → a ≤ a * b
le-times a b h = grind arith

pub mul_lt : (a b : ℕ) → 0 < a → 0 < b → 0 < a * b
mul_lt a b h k = grind arith

mul_le : (a b c d : ℕ) → a ≤ b → c ≤ d → a * c ≤ b * d
mul_le a b c d h k = grind arith

pub div_mul : (a w : ℕ) → 0 < w → a * w / w ≡ a
div_mul a w h = grind arith

pub n_blocks-step :
    (n d b : ℕ) (ds bs : List ℕ)
    → 0 < b
    → n * max_idx d b < 2 ^ 64
    → n_blocks n (d ∷ ds) (b ∷ bs) ≡ n_blocks (n * max_idx d b) ds bs
unfolding n_blocks
n_blocks-step n d b ds bs h k =
    let wrapped : n * max_idx d b % 2 ^ 64 ≡ n * max_idx d b = omega (arith, k) in
    let some_block : (b == 0) ≡ false = ground arith in rw (some_block, wrapped) refl

pub block_size-step :
    (n b : ℕ) (bs : List ℕ) → n * b < 2 ^ 64 → block_size n (b ∷ bs) ≡ block_size (n * b) bs
unfolding block_size
block_size-step n b bs h = ap (λ t. block_size t bs) (omega (arith, h))

-- The memory is as many elements as there are in all blocks.
memory_size :
    (t : Dtype) (dims block : List ℕ) (n s : ℕ)
    → n_blocks 1 dims block ≡ returns n
    → block_size 1 block ≡ s
    → n * s * dtype_size t < 2 ^ 64
    → working_memory_size t dims block ≡ returns (n * s * dtype_size t)
unfolding working_memory_size
memory_size t dims block n s e f h =
    let regroup : n * dtype_size t * s ≡ n * s * dtype_size t = omega arith in
    rw (e, f, regroup) (ap returns (omega (arith, h)))

-- What the size of the memory bounds.
bounded : (n s w m : ℕ) → 0 < w → n * s * w < m → n * s < m
bounded n s w m h k = omega (arith, k, le-times (n * s) w h)

pub left_factor : (a b m : ℕ) → 0 < b → a * b < m → a < m
left_factor a b m h k = omega (arith, k, le-times a b h)

pub right_factor : (a b m : ℕ) → 0 < a → a * b < m → b < m
right_factor a b m h k = omega (arith, k, le-times b a h)

pub sizes_1d :
    (t : Dtype) (d0 b0 : ℕ)
    → 0 < d0
    → 0 < b0
    → padded_elements (d0 ∷ []) (b0 ∷ []) * dtype_size t < 2 ^ 64
    → (working_memory_size t (d0 ∷ []) (b0 ∷ []) ≡ returns (max_idx d0 b0 * b0 * dtype_size t))
      × Fits d0 b0
      × (d0 < 2 ^ 64)
unfolding n_blocks block_size
sizes_1d t d0 b0 p0 q0 h =
    let m0 = max_idx d0 b0 in
    let w = dtype_size-pos t in
    let total : m0 * b0 * dtype_size t < 2 ^ 64 = omega (arith, h) in
    let elements : m0 * b0 < 2 ^ 64 = bounded m0 b0 (dtype_size t) (2 ^ 64) w total in
    let blocks = left_factor m0 b0 (2 ^ 64) q0 elements in
    let size = right_factor m0 b0 (2 ^ 64) (max_idx-pos d0 b0 p0 q0) elements in
    (
      memory_size t (d0 ∷ []) (b0 ∷ []) m0 b0
          (n_blocks-step 1 d0 b0 [] [] q0 (omega (arith, blocks)) ∙ ap returns (omega arith))
          (block_size-step 1 b0 [] (omega (arith, size)) ∙ omega arith) total,
      record { positive = q0; small = elements },
      omega (arith, elements, le-padded d0 b0 q0),
    )

pub sizes_2d :
    (t : Dtype) (d0 d1 b0 b1 : ℕ)
    → 0 < d0
    → 0 < b0
    → 0 < d1
    → 0 < b1
    → padded_elements (d0 ∷ d1 ∷ []) (b0 ∷ b1 ∷ []) * dtype_size t < 2 ^ 64
    → (working_memory_size t (d0 ∷ d1 ∷ []) (b0 ∷ b1 ∷ [])
        ≡ returns (max_idx d0 b0 * max_idx d1 b1 * (b0 * b1) * dtype_size t))
      × Fits d0 b0
      × Fits d1 b1
      × (d0 * d1 < 2 ^ 64)
      × (max_idx d0 b0 * max_idx d1 b1 * (b0 * b1) < 2 ^ 64)
unfolding n_blocks block_size
sizes_2d t d0 d1 b0 b1 p0 q0 p1 q1 h =
    let m0 = max_idx d0 b0 in
    let m1 = max_idx d1 b1 in
    let r0 = max_idx-pos d0 b0 p0 q0 in
    let r1 = max_idx-pos d1 b1 p1 q1 in
    let n = m0 * m1 in
    let s = b0 * b1 in
    let total : n * s * dtype_size t < 2 ^ 64 = omega (arith, h) in
    let elements : n * s < 2 ^ 64 = bounded n s (dtype_size t) (2 ^ 64) (dtype_size-pos t) total in
    let blocks = left_factor n s (2 ^ 64) (mul_lt b0 b1 q0 q1) elements in
    let size = right_factor n s (2 ^ 64) (mul_lt m0 m1 r0 r1) elements in
    let paired : m0 * b0 * (m1 * b1) < 2 ^ 64 = omega (arith, elements) in
    let first = left_factor (m0 * b0) (m1 * b1) (2 ^ 64) (mul_lt m1 b1 r1 q1) paired in
    let second = right_factor (m0 * b0) (m1 * b1) (2 ^ 64) (mul_lt m0 b0 r0 q0) paired in
    let inside : d0 * d1 ≤ m0 * b0 * (m1 * b1) =
      mul_le d0 (m0 * b0) d1 (m1 * b1) (le-padded d0 b0 q0) (le-padded d1 b1 q1) in
    (
      memory_size t (d0 ∷ d1 ∷ []) (b0 ∷ b1 ∷ []) n s
          (n_blocks-step 1 d0 b0 (d1 ∷ []) (b1 ∷ []) q0
              (omega (arith, left_factor m0 m1 (2 ^ 64) r1 blocks))
            ∙ n_blocks-step (1 * m0) d1 b1 [] [] q1 (omega (arith, blocks))
            ∙ ap returns (omega arith))
          (block_size-step 1 b0 (b1 ∷ []) (omega (arith, left_factor b0 b1 (2 ^ 64) q1 size))
            ∙ block_size-step (1 * b0) b1 [] (omega (arith, size))
            ∙ omega arith)
          total,
      record { positive = q0; small = first },
      record { positive = q1; small = second },
      omega (arith, paired, inside),
      elements,
    )

pub sizes_3d :
    (t : Dtype) (d0 d1 d2 b0 b1 b2 : ℕ)
    → 0 < d0
    → 0 < b0
    → 0 < d1
    → 0 < b1
    → 0 < d2
    → 0 < b2
    → padded_elements (d0 ∷ d1 ∷ d2 ∷ []) (b0 ∷ b1 ∷ b2 ∷ []) * dtype_size t < 2 ^ 64
    → (working_memory_size t (d0 ∷ d1 ∷ d2 ∷ []) (b0 ∷ b1 ∷ b2 ∷ [])
        ≡ returns (max_idx d0 b0 * max_idx d1 b1 * max_idx d2 b2 * (b0 * b1 * b2) * dtype_size t))
      × Fits d0 b0
      × Fits d1 b1
      × Fits d2 b2
      × (d0 * d1 * d2 < 2 ^ 64)
      × (max_idx d0 b0 * max_idx d1 b1 * max_idx d2 b2 * (b0 * b1 * b2) < 2 ^ 64)
unfolding n_blocks block_size
sizes_3d t d0 d1 d2 b0 b1 b2 p0 q0 p1 q1 p2 q2 h =
    let m0 = max_idx d0 b0 in
    let m1 = max_idx d1 b1 in
    let m2 = max_idx d2 b2 in
    let r0 = max_idx-pos d0 b0 p0 q0 in
    let r1 = max_idx-pos d1 b1 p1 q1 in
    let r2 = max_idx-pos d2 b2 p2 q2 in
    let n = m0 * m1 * m2 in
    let s = b0 * b1 * b2 in
    let total : n * s * dtype_size t < 2 ^ 64 = omega (arith, h) in
    let elements : n * s < 2 ^ 64 = bounded n s (dtype_size t) (2 ^ 64) (dtype_size-pos t) total in
    let n_pos = mul_lt (m0 * m1) m2 (mul_lt m0 m1 r0 r1) r2 in
    let s_pos = mul_lt (b0 * b1) b2 (mul_lt b0 b1 q0 q1) q2 in
    let blocks = left_factor n s (2 ^ 64) s_pos elements in
    let size = right_factor n s (2 ^ 64) n_pos elements in
    let blocks' = left_factor (m0 * m1) m2 (2 ^ 64) r2 blocks in
    let size' = left_factor (b0 * b1) b2 (2 ^ 64) q2 size in
    let x0 = mul_lt m0 b0 r0 q0 in
    let x1 = mul_lt m1 b1 r1 q1 in
    let x2 = mul_lt m2 b2 r2 q2 in
    let all : m0 * b0 * (m1 * b1) * (m2 * b2) < 2 ^ 64 = omega (arith, elements) in
    let plane = left_factor (m0 * b0 * (m1 * b1)) (m2 * b2) (2 ^ 64) x2 all in
    let third =
      right_factor (m0 * b0 * (m1 * b1)) (m2 * b2) (2 ^ 64) (mul_lt (m0 * b0) (m1 * b1) x0 x1)
        all in
    let inside =
      mul_le (d0 * d1) (m0 * b0 * (m1 * b1)) d2 (m2 * b2)
        (mul_le d0 (m0 * b0) d1 (m1 * b1) (le-padded d0 b0 q0) (le-padded d1 b1 q1))
        (le-padded d2 b2 q2) in
    (
      memory_size t (d0 ∷ d1 ∷ d2 ∷ []) (b0 ∷ b1 ∷ b2 ∷ []) n s
          (n_blocks-step 1 d0 b0 (d1 ∷ d2 ∷ []) (b1 ∷ b2 ∷ []) q0
              (omega (arith, left_factor m0 m1 (2 ^ 64) r1 blocks'))
            ∙ n_blocks-step (1 * m0) d1 b1 (d2 ∷ []) (b2 ∷ []) q1 (omega (arith, blocks'))
            ∙ n_blocks-step (1 * m0 * m1) d2 b2 [] [] q2 (omega (arith, blocks))
            ∙ ap returns (omega arith))
          (block_size-step 1 b0 (b1 ∷ b2 ∷ []) (omega (arith, left_factor b0 b1 (2 ^ 64) q1 size'))
            ∙ block_size-step (1 * b0) b1 (b2 ∷ []) (omega (arith, size'))
            ∙ block_size-step (1 * b0 * b1) b2 [] (omega (arith, size))
            ∙ omega arith)
          total,
      record { positive = q0; small = left_factor (m0 * b0) (m1 * b1) (2 ^ 64) x1 plane },
      record { positive = q1; small = right_factor (m0 * b0) (m1 * b1) (2 ^ 64) x0 plane },
      record { positive = q2; small = third },
      omega (arith, all, inside),
      elements,
    )
