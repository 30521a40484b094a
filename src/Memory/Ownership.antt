-- ===== src/Memory/Ownership.antt =====
-- Which blocks are allocated before and after the operations of class pressio_memory.
use libpressio.Base.{
  Bool-cases, List, Option, [], ap, arith, drop, false, inl, inr, leb, length, ltb, min, none, refl,
  some, sym, take, true, ℕ, ◌++◌, ◌+◌, ◌<◌, ◌==◌, ◌∙◌, ◌∷◌, ◌≡◌, ◌≢◌,
}
use libpressio.Memory.Heap.{
  allocated, Heap, Domain, malloc, nonowning, returns, alloc, free, memcpy, copy_bytes, overwrite,
  System, find_block, remove_block, write_block, allocated,
}
use libpressio.Memory.Ops.{
  Memory, allocate, destroy, release_block, move_assign, moved, copy_to, copy_assign, grow, fill,
}

-- Every block has a number below `n`.
abbrev pub Below : ℕ → List (ℕ × List ℕ) → Type 0
Below n [] = Unit
Below n ((q, b) ∷ bs) = (q < n) × Below n bs

-- The next number is the number of no block.
abbrev pub IsValid : Heap → Type 0
IsValid h = Below h.next h.blocks

remove_block-Below : (n : ℕ) (bs : List (ℕ × List ℕ)) → Below n bs → remove_block n bs ≡ bs
remove_block-Below n [] v = refl
remove_block-Below n ((q, b) ∷ bs) v = ground (arith, remove_block-Below n bs v.1)

write_block-Below :
    (n : ℕ) (c : List ℕ) (bs : List (ℕ × List ℕ)) → Below n bs → write_block n c bs ≡ bs
write_block-Below n c [] v = refl
write_block-Below n c ((q, b) ∷ bs) v = ground (arith, write_block-Below n c bs v.1)

pub find_block-Below : (n : ℕ) (bs : List (ℕ × List ℕ)) → Below n bs → find_block n bs ≡ none
find_block-Below n [] v = refl
find_block-Below n ((q, b) ∷ bs) v = ground (arith, find_block-Below n bs v.1)

find_block-remove_block :
    (p q : ℕ) (bs : List (ℕ × List ℕ)) → p ≢ q → find_block p (remove_block q bs) ≡ find_block p bs
find_block-remove_block p q [] n = refl
find_block-remove_block p q ((i, b) ∷ bs) n = ground (arith, find_block-remove_block p q bs n)

release_block-allocated :
    (o : Option (List ℕ)) (h : Heap)
    → IsValid h
    → let (p, h') = allocated o h in (release_block p (some malloc) h').blocks ≡ h.blocks
unfolding allocated release_block free
release_block-allocated none h v = refl
release_block-allocated (some b) h v = ground (arith, remove_block-Below h.next h.blocks v)

find_block-release_block :
    (p : ℕ) (q : Option ℕ) (d : Option Domain) (h : Heap)
    → q ≢ some p
    → find_block p (release_block q d h).blocks ≡ find_block p h.blocks
unfolding release_block free
find_block-release_block p (some q) (some malloc) h n =
    find_block-remove_block p q h.blocks (λ e. n (ap some (sym e)))
find_block-release_block p (some q) (some (nonowning id)) h n = refl
find_block-release_block p (some q) none h n = refl
find_block-release_block p none d h n = refl

-- A buffer that `malloc` allocates is gone when the object is destroyed: the blocks are the ones
-- from before, if no block had the new number, and no call fails.
pub destroy-allocate :
    (system : System) (n : ℕ) (h : Heap)
    → IsValid h
    → (m : Memory) × (h' : Heap) × (allocate system n malloc h ≡ returns (m, h'))
      × ((destroy m h').blocks ≡ h.blocks)
unfolding allocate alloc destroy release_block
destroy-allocate system n h v =
    let (p, h') = allocated (system n h.next) h in
    (
      record { domain = some malloc; data_ptr = p; capacity = n },
      h',
      refl,
      release_block-allocated (system n h.next) h v,
    )

-- Move assignment loses the block of the object assigned to: when both objects are destroyed
-- after it, that block is still allocated, if `rhs` does not point at it as well.
pub move_assign-leaks :
    (this rhs : Memory) (h : Heap) (p : ℕ) (b : List ℕ)
    → this.data_ptr ≡ some p
    → find_block p h.blocks ≡ some b
    → rhs.data_ptr ≢ some p
    → let (this', rhs', h') = move_assign this rhs h in
      find_block p (destroy rhs' (destroy this' h')).blocks ≡ some b
unfolding move_assign moved destroy
move_assign-leaks this rhs h p b t f n = find_block-release_block p rhs.data_ptr rhs.domain h n ∙ f

take-drop_whole {ℓ} :
    {A : Type ℓ} (b c : List A) → length c ≡ length b → take (length b) b ++ drop (length b) c ≡ b
take-drop_whole [] [] e = refl
take-drop_whole [] (y ∷ ys) e = absurd (omega (arith, e))
take-drop_whole (x ∷ xs) [] e = absurd (omega (arith, e))
take-drop_whole (x ∷ xs) (y ∷ ys) e = ap (λ t. x ∷ t) (take-drop_whole xs ys (omega (arith, e)))

==_self : (n : ℕ) → (n == n) ≡ true
==_self n = ground arith

found-other :
    (n q : ℕ) (bs : List (ℕ × List ℕ)) (b : List ℕ)
    → Below n bs
    → find_block q bs ≡ some b
    → (n == q) ≡ false
found-other n q bs b v f = ground (arith, find_block-Below n bs v)

-- Copying all bytes of block `q` into the newest block.
overwrite-newest :
    (n q : ℕ) (bs : List (ℕ × List ℕ)) (b c : List ℕ)
    → Below n bs
    → find_block q bs ≡ some b
    → length c ≡ length b
    → memcpy malloc (some n) (some q) (length b) (record { next = n + 1; blocks = (n, c) ∷ bs })
      ≡ returns (record { next = n + 1; blocks = (n, b) ∷ bs })
unfolding memcpy copy_bytes overwrite
overwrite-newest n q bs b c v f e =
    let fits : leb (length b) (length c) ≡ true = ground arith in
    let holds : leb (length b) (length b) ≡ true = ground arith in
    rw
      (
        ==_self n,
        found-other n q bs b v f,
        f,
        fits,
        holds,
        ==_self n,
        write_block-Below n (take (length b) b ++ drop (length b) c) bs v,
        take-drop_whole b c e,
      )
      refl

both_empty : (b c : List ℕ) → length b ≡ 0 → length c ≡ length b → c ≡ b
both_empty [] [] z e = refl
both_empty (x ∷ xs) c z e = absurd (omega (arith, z))
both_empty [] (y ∷ ys) z e = absurd (omega (arith, e))

fill-newest :
    (system : System) (rhs : Memory) (n q : ℕ) (bs : List (ℕ × List ℕ)) (b c : List ℕ)
    → Below n bs
    → rhs.data_ptr ≡ some q
    → find_block q bs ≡ some b
    → length b ≡ rhs.capacity
    → length c ≡ rhs.capacity
    → let m : Memory = record {
      domain = some malloc;
      data_ptr = some n;
      capacity = rhs.capacity;
    } in
      fill system m rhs (record { next = n + 1; blocks = (n, c) ∷ bs })
      ≡ returns (m, record { next = n + 1; blocks = (n, b) ∷ bs })
unfolding fill
fill-newest system rhs n q bs b c v r f l k =
    let same : min rhs.capacity rhs.capacity ≡ length b = omega (arith, l) in
    elim (Bool-cases (length b == 0)) [
      | inl z ↦
          rw (same, z)
            (ap
              (λ x. returns (
                record { domain = some malloc; data_ptr = some n; capacity = rhs.capacity },
                record { next = n + 1; blocks = (n, x) ∷ bs },
              ))
              (both_empty b c (ground (arith, z)) (k ∙ sym l)))
      | inr z ↦ rw (same, z, r, overwrite-newest n q bs b c v f (k ∙ sym l)) refl
    ]

ltb_self : (n : ℕ) → ltb n n ≡ false
ltb_self n = ground arith

-- The copy constructor, into a domain that allocates, gives a new block with the bytes of `rhs`
-- and changes no other, if `rhs` points at a block as long as its capacity, no block has the new
-- number, and `std::malloc` finds room of that length.
pub copy_to-malloc :
    (system : System) (rhs : Memory) (h : Heap) (q : ℕ) (b c : List ℕ)
    → IsValid h
    → rhs.data_ptr ≡ some q
    → find_block q h.blocks ≡ some b
    → length b ≡ rhs.capacity
    → system rhs.capacity h.next ≡ some c
    → length c ≡ rhs.capacity
    → copy_to system rhs malloc h
      ≡ returns (
        record { domain = some malloc; data_ptr = some h.next; capacity = rhs.capacity },
        record { next = h.next + 1; blocks = (h.next, b) ∷ h.blocks },
      )
unfolding copy_to allocate alloc copy_assign grow fill allocated
copy_to-malloc system rhs h q b c v r f l s k =
    rw (s, ltb_self rhs.capacity) (fill-newest system rhs h.next q h.blocks b c v r f l k)
