-- ===== src/Chunking/Blocks.antt =====
-- The copies between a buffer and its blocks, as the loops of src/plugins/compressors/chunking_impl.cc
-- make them: `dispatch_1d`, `dispatch_2d` and `dispatch_3d`. Sums and products of a `size_t` are
-- taken modulo 2^64 at their ends. The OpenMP loops over the blocks are run in their order.
use libpressio.Base.{
  List, Option, [], if◌then◌else◌, ltb, none, some, suc, zero, ℕ, ◌%◌, ◌&&◌, ◌*◌, ◌++◌, ◌+◌, ◌-◌,
  ◌/◌, ◌==◌, ◌^◌, ◌∷◌,
}

module _ {ℓ} {A : Type ℓ} where
  -- `for (; n rounds; ++i)`: what the rounds give, one after another.
  unfoldable pub loop : ℕ → ℕ → (ℕ → List A) → List A
  loop i zero body = []
  loop i (suc n) body = body i ++ loop (suc i) n body

-- One round of the inner loop: `*elements` is the element `to` of the blocks, and `from` that of the
-- buffer, if it is in bounds.
pub record Copy : Type 0 where
  pub to : ℕ
  pub from : Option ℕ

-- `elements` is incremented each round.
unfoldable pub numbered : ℕ → List (Option ℕ) → List Copy
numbered n [] = []
numbered n (f ∷ fs) = record { to = n; from = f } ∷ numbered (suc n) fs

-- `max_idx[i]`
unfoldable pub max_idx : ℕ → ℕ → ℕ
max_idx d b = if d % b == 0 then d / b else d / b + 1

-- `dispatch_1d`, where `strides[0]` and `block_stide[0]` are 1.
unfoldable pub copies_1d : ℕ → ℕ → List Copy
unfolding loop numbered max_idx
copies_1d d0 b0 = loop 0 (max_idx d0 b0) (λ block_i. numbered (block_i * b0 % 2 ^ 64) (
    if ltb ((b0 * block_i + b0) % 2 ^ 64) d0
    then loop 0 b0 (λ element_i. some ((block_i * b0 + element_i) % 2 ^ 64) ∷ [])
    else loop 0 b0 (λ element_i.
      (if ltb ((element_i + block_i * b0) % 2 ^ 64) d0
        then some ((block_i * b0 + element_i) % 2 ^ 64)
        else none)
      ∷ [])))

-- `dispatch_2d`
unfoldable pub copies_2d : ℕ → ℕ → ℕ → ℕ → List Copy
unfolding loop numbered max_idx
copies_2d d0 d1 b0 b1 = loop 0 (max_idx d1 b1) (λ block_j. loop 0 (max_idx d0 b0) (λ block_i.
    let base = block_i * b0 + block_j * b1 * d0 in
    let output_idx = block_i + block_j * max_idx d0 b0 in
    numbered (output_idx * (b0 * b1) % 2 ^ 64) (
      if ltb ((b0 * block_i + b0) % 2 ^ 64) d0 && ltb ((b1 * block_j + b1) % 2 ^ 64) d1
      then loop 0 b1 (λ element_j.
        loop 0 b0 (λ element_i. some ((base + element_i + element_j * d0) % 2 ^ 64) ∷ []))
      else loop 0 b1 (λ element_j. loop 0 b0 (λ element_i.
        (if ltb ((element_i + block_i * b0) % 2 ^ 64) d0
            && ltb ((element_j + block_j * b1) % 2 ^ 64) d1
          then some ((base + element_i + element_j * d0) % 2 ^ 64)
          else none)
        ∷ [])))))

-- A `size_t` that is stored as an `int` and read as a `size_t` again.
unfoldable pub as_int : ℕ → ℕ
as_int n = if ltb (n % 2 ^ 32) (2 ^ 31) then n % 2 ^ 32 else n % 2 ^ 32 + (2 ^ 64 - 2 ^ 32)

-- The loops of `dispatch_3d`, where `s1` and `s2` are `strides[1]` and `strides[2]`.
unfoldable pub copies_3d_by : ℕ → ℕ → ℕ → ℕ → ℕ → ℕ → ℕ → ℕ → List Copy
unfolding loop numbered max_idx
copies_3d_by s1 s2 d0 d1 d2 b0 b1 b2 = loop 0 (max_idx d2 b2) (λ block_k.
    loop 0 (max_idx d1 b1) (λ block_j. loop 0 (max_idx d0 b0) (λ block_i.
      let base = block_i * b0 + block_j * s1 * b1 + block_k * s2 * b2 in
      let output_idx =
        block_i + block_j * max_idx d0 b0 + block_k * (max_idx d0 b0 * max_idx d1 b1) in
      numbered (output_idx * (b0 * b1 * b2) % 2 ^ 64) (
        if ltb ((b0 * block_i + b0) % 2 ^ 64) d0
          && (ltb ((b1 * block_j + b1) % 2 ^ 64) d1 && ltb ((b2 * block_k + b2) % 2 ^ 64) d2)
        then loop 0 b2 (λ element_k. loop 0 b1 (λ element_j.
          loop 0 b0 (λ element_i.
            some ((base + element_i + element_j * s1 + element_k * s2) % 2 ^ 64) ∷ [])))
        else loop 0 b2 (λ element_k. loop 0 b1 (λ element_j. loop 0 b0 (λ element_i.
          (if ltb ((element_i + block_i * b0) % 2 ^ 64) d0
              && (ltb ((element_j + block_j * b1) % 2 ^ 64) d1
                  && ltb ((element_k + block_k * b2) % 2 ^ 64) d2)
            then some ((base + element_i + element_j * s1 + element_k * s2) % 2 ^ 64)
            else none)
          ∷ [])))))))

-- `dispatch_3d`: the `exclusive_scan` for its strides starts from an `int`, and so its products are `int`s.
unfoldable pub copies_3d : ℕ → ℕ → ℕ → ℕ → ℕ → ℕ → List Copy
unfolding as_int copies_3d_by
copies_3d d0 d1 d2 b0 b1 b2 = copies_3d_by (as_int d0) (as_int (as_int d0 * d1)) d0 d1 d2 b0 b1 b2
