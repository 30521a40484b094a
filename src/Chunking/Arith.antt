-- ===== src/Chunking/Arith.antt =====
-- The arithmetic of blocks: where an element of a dimension lies in its blocks.
use libpressio.Base.{arith, ℕ, ◌%◌, ◌*◌, ◌+◌, ◌/◌, ◌<◌, ◌≡◌, ◌≤◌}
use libpressio.Chunking.Blocks.{max_idx}

lt_of_mul : (a c b : ℕ) → a * b < c * b → a < c
lt_of_mul a c b h = grind arith

pub le_mul : (a c b : ℕ) → a ≤ c → a * b ≤ c * b
le_mul a c b h = grind arith

-- The last block ends at the dimension or after it, and starts before it.
max_idx_bounds : (d b : ℕ) → 0 < b → (d ≤ max_idx d b * b) × (max_idx d b * b < d + b)
unfolding max_idx
max_idx_bounds d b h = (grind arith, grind arith)

-- The block and the place in it of an index.
pub block_of :
    (x d b : ℕ) → x < d → 0 < b → (x / b < max_idx d b) × (x % b < b) × (x / b * b + x % b ≡ x)
block_of x d b h k =
    let parts : x / b * b + x % b ≡ x = ground arith in
    (
      lt_of_mul (x / b) (max_idx d b) b (omega (arith, parts, max_idx_bounds d b k)),
      ground arith,
      parts,
    )

-- An index of a block lies in the padded dimension.
pub padded : (i e d b : ℕ) → i < max_idx d b → e < b → i * b + e < max_idx d b * b
padded i e d b h k = grind arith

pub le-padded : (d b : ℕ) → 0 < b → d ≤ max_idx d b * b
le-padded d b h = (max_idx_bounds d b h).0

pub index_2d : (x y d0 d1 : ℕ) → x < d0 → y < d1 → x + y * d0 < d0 * d1
index_2d x y d0 d1 h k = grind arith

pub index_3d :
    (x y z d0 d1 d2 : ℕ) → x < d0 → y < d1 → z < d2 → x + y * d0 + z * (d0 * d1) < d0 * d1 * d2
index_3d x y z d0 d1 d2 h k l = grind (arith, index_2d x y d0 d1 h k)

pub split_2d :
    (o d0 d1 : ℕ) → o < d0 * d1 → (o % d0 < d0) × (o / d0 < d1) × (o % d0 + o / d0 * d0 ≡ o)
split_2d o d0 d1 h = (grind arith, grind arith, grind arith)

pub split_3d :
    (o d0 d1 d2 : ℕ)
    → o < d0 * d1 * d2
    → let r = o % (d0 * d1) in
      (r % d0 < d0)
      × (r / d0 < d1)
      × (o / (d0 * d1) < d2)
      × (r % d0 + r / d0 * d0 + o / (d0 * d1) * (d0 * d1) ≡ o)
split_3d o d0 d1 d2 h =
    let outer = split_2d o (d0 * d1) d2 h in
    let inner = split_2d (o % (d0 * d1)) d0 d1 outer.0 in
    (inner.0, inner.1, outer.1, omega (arith, inner.2, outer.2))
