-- ===== src/Pipeline/Header.antt =====
-- The header of a pipeline's output (src/plugins/compressors/pipeline.cc): the loops that write it
-- and read it.
use libpressio.Base.{List, Option, [], length, some, suc, zero, ℕ, ◌%◌, ◌*◌, ◌+◌, ◌^◌, ◌∷◌}
use libpressio.Base.Int.{pos}
use libpressio.Dtype.{Dtype}
use libpressio.Serial.Codes.{dtype_code, dtype_of_code}
use libpressio.Serial.Recv.{◌>>=◌}
use libpressio.Pipeline.Store.{write_word, read_word}

-- A member of `metadata`: the type and the dimensions of a stage's input.
abbrev pub Shape : Type 0
Shape = Dtype × List ℕ

-- The loop over the dimensions, from the word `i` on: the next word and the memory.
unfoldable pub write_words : ℕ → List ℕ → List ℕ → Option (ℕ × List ℕ)
unfolding write_word
write_words i [] mem = some (i, mem)
write_words i (w ∷ ws) mem = do mem ← write_word i w mem; write_words (suc i) ws mem

-- The loop over the stages.
unfoldable pub write_metadata : ℕ → List Shape → List ℕ → Option (ℕ × List ℕ)
unfolding write_words
write_metadata i [] mem = some (i, mem)
write_metadata i ((t, ds) ∷ shapes) mem = do
  mem ← write_word i (length ds) mem
  mem ← write_word (suc i) (dtype_code t) mem
  (i, mem) ← write_words (suc (suc i)) ds mem
  write_metadata i shapes mem

-- `header_size`, as it grows by each stage.
unfoldable pub header_size : ℕ → List Shape → ℕ
header_size total [] = total
header_size total ((t, ds) ∷ shapes) =
    header_size ((total + (8 + 8 + 8 * length ds)) % 2 ^ 64) shapes

-- The reading loops, over as many dimensions and as many stages as the header says.
unfoldable pub read_words : ℕ → ℕ → List ℕ → Option (ℕ × List ℕ)
unfolding read_word
read_words i zero mem = some (i, [])
read_words i (suc n) mem = do
  w ← read_word i mem
  (i, ws) ← read_words (suc i) n mem
  some (i, w ∷ ws)

unfoldable pub read_metadata : ℕ → ℕ → List ℕ → Option (ℕ × List Shape)
unfolding read_words dtype_of_code
read_metadata i zero mem = some (i, [])
read_metadata i (suc n) mem = do
  num_dims ← read_word i mem
  code ← read_word (suc i) mem
  t ← dtype_of_code (pos code)
  (i, ds) ← read_words (suc (suc i)) num_dims mem
  (i, shapes) ← read_metadata i n mem
  some (i, (t, ds) ∷ shapes)
