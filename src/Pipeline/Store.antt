-- ===== src/Pipeline/Store.antt =====
-- Memory that src/plugins/compressors/pipeline.cc reads and writes through pointers: bytes, and
-- words of 64 bits, least significant byte first. An access outside the memory is `none`.
use libpressio.Base.{
  List, Option, [], arith, drop, drop-append, if◌then◌else◌, length, none, refl, some, suc, take,
  zero, ℕ, ◌%◌, ◌*◌, ◌++◌, ◌+◌, ◌/◌, ◌<◌, ◌==◌, ◌^◌, ◌∷◌, ◌≡◌, ◌≤◌,
}
use libpressio.Serial.Recv.{◌>>=◌}

abbrev pub word_bytes : ℕ → List ℕ
word_bytes w =
    w % 256
    ∷ w / 256 % 256
    ∷ w / 65536 % 256
    ∷ w / 16777216 % 256
    ∷ w / 4294967296 % 256
    ∷ w / 1099511627776 % 256
    ∷ w / 281474976710656 % 256
    ∷ w / 72057594037927936 % 256
    ∷ []

abbrev pub bytes_word : List ℕ → ℕ
bytes_word [] = 0
bytes_word (b ∷ bs) = b + 256 * bytes_word bs

-- `memcpy` to an offset.
unfoldable pub write : ℕ → List ℕ → List ℕ → Option (List ℕ)
write zero [] mem = some mem
write zero (x ∷ xs) [] = none
write zero (x ∷ xs) (b ∷ mem) = do written ← write zero xs mem; some (x ∷ written)
write (suc n) bs [] = none
write (suc n) bs (b ∷ mem) = do written ← write n bs mem; some (b ∷ written)

-- `metadata_ptr[i] = w`
unfoldable pub write_word : ℕ → ℕ → List ℕ → Option (List ℕ)
unfolding write
write_word i w mem = write (8 * i) (word_bytes w) mem

-- `metadata_ptr[i]`
unfoldable pub read_word : ℕ → List ℕ → Option ℕ
read_word i mem =
    let bytes = take 8 (drop (8 * i) mem) in
    if length bytes == 8 then some (bytes_word bytes) else none

bytes_word-word_bytes : (w : ℕ) → w < 2 ^ 64 → bytes_word (word_bytes w) ≡ w
bytes_word-word_bytes w h = omega arith

write-zero :
    (bs mem : List ℕ)
    → length bs ≤ length mem
    → write zero bs mem ≡ some (bs ++ drop (length bs) mem)
unfolding write
write-zero [] mem h = refl
write-zero (x ∷ xs) [] h = ground arith
write-zero (x ∷ xs) (b ∷ mem) h = rw (write-zero xs mem (omega arith)) refl

pub write-append :
    (before bs rest : List ℕ)
    → length bs ≤ length rest
    → write (length before) bs (before ++ rest) ≡ some (before ++ (bs ++ drop (length bs) rest))
unfolding write
write-append [] bs rest h = write-zero bs rest h
write-append (b ∷ before) bs rest h = rw (write-append before bs rest h) refl

pub read_word-append :
    (i w : ℕ) (before rest : List ℕ)
    → 8 * i ≡ length before
    → w < 2 ^ 64
    → read_word i (before ++ (word_bytes w ++ rest)) ≡ some w
unfolding read_word
read_word-append i w before rest h k =
    rw (h, drop-append before (word_bytes w ++ rest), bytes_word-word_bytes w k) refl
