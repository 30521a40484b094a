-- ===== src/Chunking/Inside.antt =====
-- Every element of a buffer is copied, and no other index.
use libpressio.Base.{
  All, Bool, List, Option, ap, arith, false, if◌then◌else◌, inl, ltb, lt→ltb, ltb→lt, none, refl,
  some, true, ℕ, ◌%◌, ◌&&◌, ◌*◌, ◌+◌, ◌/◌, ◌<◌, ◌≡◌,
}
use libpressio.Chunking.Arith.{block_of, index_2d, index_3d, split_2d, split_3d}
use libpressio.Chunking.Blocks.{loop, max_idx}
use libpressio.Chunking.Copies.{entry_2d, entry_3d, froms_1d, froms_2d, froms_3d, and_true}
use libpressio.Chunking.Loops.{All-loop, In, In-loop}

abbrev pub InRange : ℕ → Option ℕ → Type 0
InRange n none = Unit
InRange n (some o) = o < n

guarded-InRange :
    (n : ℕ) (t : Bool) (o : ℕ) → (t ≡ true → o < n) → InRange n (if t then some o else none)
guarded-InRange n true o h = h refl
guarded-InRange n false o h = tt

pub froms_1d-InRange : (d0 b0 : ℕ) → All (InRange d0) (froms_1d d0 b0)
froms_1d-InRange d0 b0 = All-loop (InRange d0) 0 (max_idx d0 b0) _ (λ i.
    All-loop (InRange d0) 0 b0 _
      (λ e. (guarded-InRange d0 (ltb (i * b0 + e) d0) (i * b0 + e) (ltb→lt (i * b0 + e) d0), tt)))

entry_2d-InRange : (d0 d1 x y : ℕ) → InRange (d0 * d1) (entry_2d d0 d1 x y)
entry_2d-InRange d0 d1 x y = guarded-InRange (d0 * d1) (ltb x d0 && ltb y d1) (x + y * d0) (λ t.
    let (p, q) = and_true (ltb x d0) (ltb y d1) t in
    index_2d x y d0 d1 (ltb→lt x d0 p) (ltb→lt y d1 q))

pub froms_2d-InRange : (d0 d1 b0 b1 : ℕ) → All (InRange (d0 * d1)) (froms_2d d0 d1 b0 b1)
froms_2d-InRange d0 d1 b0 b1 =
    let P = InRange (d0 * d1) in
    All-loop P 0 (max_idx d1 b1) _ (λ j. All-loop P 0 (max_idx d0 b0) _ (λ i.
      All-loop P 0 b1 _
        (λ ej. All-loop P 0 b0 _ (λ ei. (entry_2d-InRange d0 d1 (i * b0 + ei) (j * b1 + ej), tt)))))

entry_3d-InRange : (d0 d1 d2 x y z : ℕ) → InRange (d0 * d1 * d2) (entry_3d d0 d1 d2 x y z)
entry_3d-InRange d0 d1 d2 x y z =
    guarded-InRange (d0 * d1 * d2) (ltb x d0 && (ltb y d1 && ltb z d2)) (x + y * d0 + z * (d0 * d1))
      (λ t.
        let (p, qr) = and_true (ltb x d0) (ltb y d1 && ltb z d2) t in
        let (q, r) = and_true (ltb y d1) (ltb z d2) qr in
        index_3d x y z d0 d1 d2 (ltb→lt x d0 p) (ltb→lt y d1 q) (ltb→lt z d2 r))

pub froms_3d-InRange :
    (d0 d1 d2 b0 b1 b2 : ℕ) → All (InRange (d0 * d1 * d2)) (froms_3d d0 d1 d2 b0 b1 b2)
froms_3d-InRange d0 d1 d2 b0 b1 b2 =
    let P = InRange (d0 * d1 * d2) in
    All-loop P 0 (max_idx d2 b2) _ (λ k. All-loop P 0 (max_idx d1 b1) _ (λ j.
      All-loop P 0 (max_idx d0 b0) _ (λ i. All-loop P 0 b2 _ (λ ek. All-loop P 0 b1 _ (λ ej.
        All-loop P 0 b0 _
          (λ ei. (entry_3d-InRange d0 d1 d2 (i * b0 + ei) (j * b1 + ej) (k * b2 + ek), tt)))))))

-- The round of a loop that a number less than its length makes.
In-round :
    (o : Option ℕ) (k n : ℕ) (f : ℕ → List (Option ℕ)) → k < n → In o (f k) → In o (loop 0 n f)
In-round o k n f h m = In-loop o k 0 n f (omega arith) (omega arith) m

pub In-froms_1d : (o d0 b0 : ℕ) → 0 < b0 → o < d0 → In (some o) (froms_1d d0 b0)
In-froms_1d o d0 b0 p h =
    let (i, e, same) = block_of o d0 b0 h p in
    In-round (some o) (o / b0) (max_idx d0 b0) _ i
      (In-round (some o) (o % b0) b0 _ e (inl (rw (same, lt→ltb o d0 h) refl)))

pub In-froms_2d :
    (o d0 d1 b0 b1 : ℕ) → 0 < b0 → 0 < b1 → o < d0 * d1 → In (some o) (froms_2d d0 d1 b0 b1)
In-froms_2d o d0 d1 b0 b1 p q h =
    let x = o % d0 in
    let y = o / d0 in
    let (hx, hy, whole) = split_2d o d0 d1 h in
    let (i, ei, sx) = block_of x d0 b0 hx p in
    let (j, ej, sy) = block_of y d1 b1 hy q in
    In-round (some o) (y / b1) (max_idx d1 b1) _ j (
      In-round (some o) (x / b0) (max_idx d0 b0) _ i (
        In-round (some o) (y % b1) b1 _ ej (
          In-round (some o) (x % b0) b0 _ ei
            (inl (rw (sx, sy, lt→ltb x d0 hx, lt→ltb y d1 hy) (ap some whole))))))

pub In-froms_3d :
    (o d0 d1 d2 b0 b1 b2 : ℕ)
    → 0 < b0
    → 0 < b1
    → 0 < b2
    → o < d0 * d1 * d2
    → In (some o) (froms_3d d0 d1 d2 b0 b1 b2)
In-froms_3d o d0 d1 d2 b0 b1 b2 p q r h =
    let n = o % (d0 * d1) in
    let x = n % d0 in
    let y = n / d0 in
    let z = o / (d0 * d1) in
    let (hx, hy, hz, whole) = split_3d o d0 d1 d2 h in
    let (i, ei, sx) = block_of x d0 b0 hx p in
    let (j, ej, sy) = block_of y d1 b1 hy q in
    let (k, ek, sz) = block_of z d2 b2 hz r in
    In-round (some o) (z / b2) (max_idx d2 b2) _ k (
      In-round (some o) (y / b1) (max_idx d1 b1) _ j (
        In-round (some o) (x / b0) (max_idx d0 b0) _ i (
          In-round (some o) (z % b2) b2 _ ek (
            In-round (some o) (y % b1) b1 _ ej (
              In-round (some o) (x % b0) b0 _ ei (
                inl (
                  rw (sx, sy, sz, lt→ltb x d0 hx, lt→ltb y d1 hy, lt→ltb z d2 hz)
                    (ap some whole))))))))
