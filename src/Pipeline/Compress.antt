-- ===== src/Pipeline/Compress.antt =====
-- `compress_impl` of src/plugins/compressors/pipeline.cc. A buffer is its type, its dimensions and
-- the bytes of its memory: a view of a buffer, and its copy in another domain, are the same value.
-- Memory from malloc holds what `alloc` says. An access outside a buffer is `none`.
use libpressio.Base.{
  Bool, List, Option, Text, [], codes, false, if◌then◌else◌, leb, length, none, not, some, suc,
  take, ℕ, ◌%◌, ◌++◌, ◌+◌, ◌==◌, ◌^◌, ◌∷◌,
}
use libpressio.Base.Int.{ℤ, pos, negsuc}
use libpressio.Dtype.{Dtype}
use libpressio.Data.Defs.{Data}
use libpressio.Data.Sizes.{data_size_in_bytes}
use libpressio.Compressor.Base.{MetricsClass, Plugin, nonzero, set_error, view_segment}
use libpressio.PressioOption.Decimal.{to_string}
use libpressio.Serial.Recv.{◌>>=◌}
use libpressio.Pipeline.Store.{write, write_word}
use libpressio.Pipeline.Header.{Shape, write_metadata, header_size}

abbrev pub Bytes : Type 0
Bytes = Data ℕ

abbrev pub size_in_bytes : Bytes → ℕ
size_in_bytes x = data_size_in_bytes x.dtype x.dims

-- The compressors that `plugins` points at: the object and the output after a call, and its code.
pub record Stages (S : Type 0) : Type 0 where
  pub compress : Bytes → Bytes → S → S × Bytes × ℤ
  pub decompress : Bytes → Bytes → S → S × Bytes × ℤ
  pub error_msg : S → Text

abbrev pub positive : ℤ → Bool
positive (pos n) = not (n == 0)
positive (negsuc n) = false

-- `memcpy` from a buffer.
unfoldable pub read_bytes : Bytes → Option (List ℕ)
read_bytes x =
    if leb (size_in_bytes x) (length x.elements)
    then some (take (size_in_bytes x) x.elements)
    else none

-- The words of the header, in the order in which they are written: the version, the number of
-- stages, and the table.
unfoldable pub write_header : List Shape → List ℕ → Option (ℕ × List ℕ)
unfolding write_word write_metadata
write_header shapes mem = do
  mem ← write_word 0 1 mem
  mem ← write_word 1 (length shapes) mem
  write_metadata 2 shapes mem

module _ (alloc : ℕ → List ℕ) where
  -- From the allocation of the output on.
  unfoldable pub add_header : Bytes → List Shape → Option Bytes
  unfolding read_bytes write write_header header_size
  add_header out shapes =
      let header = header_size 16 shapes in
      let size = (size_in_bytes out + header) % 2 ^ 64 in
      (do
        (i, mem) ← write_header shapes (alloc size)
        payload ← read_bytes out
        mem ← write header payload mem
        some (record { dtype = Dtype.byte; dims = size ∷ []; elements = mem }))

module _ {M S Opts : Type 0} (K : MetricsClass M Bytes Opts) (P : Stages S) where
  -- The pipeline itself; its state is `plugins`.
  abbrev pub Pipeline : Type 0
  Pipeline = Plugin M (List S)

  -- After a stage that returned `ec`.
  unfoldable pub report : ℤ → S → Pipeline → Pipeline
  unfolding set_error
  report ec stage self = if nonzero ec then (set_error ec (P.error_msg stage) self).0 else self

  -- The end of the loop over the stages: an error, or `tmp_in` and `metadata`.
  pub data Looped : Type 0 where
    failed : Pipeline → List S → ℤ → Looped
    finished : Pipeline → List S → Bytes → List Shape → Looped

  abbrev pub add_stage : S → Shape → Looped → Looped
  add_stage stage shape (failed self stages ec) = failed self (stage ∷ stages) ec
  add_stage stage shape (finished self stages out shapes) =
      finished self (stage ∷ stages) out (shape ∷ shapes)

  -- The loop over the stages, from the one numbered `idx` on.
  unfoldable pub compress_stages : ℕ → List S → Bytes → Bytes → Pipeline → Looped
  unfolding report view_segment
  compress_stages idx [] tmp_in tmp_out self = finished self [] tmp_in []
  compress_stages idx (stage ∷ stages) tmp_in tmp_out self =
      let viewed = (view_segment K tmp_in (codes "stage-" ++ to_string (pos idx)) self).0 in
      let ran = P.compress tmp_in tmp_out stage in
      let reported = report ran.2 ran.0 viewed in
      let rest = compress_stages (suc idx) stages ran.1 tmp_in reported in
      if positive ran.2
      then failed reported (ran.0 ∷ stages) ran.2
      else add_stage ran.0 (tmp_in.dtype, tmp_in.dims) rest

  module _ (alloc : ℕ → List ℕ) where
    unfoldable pub finish : Bytes → Looped → Option (Pipeline × Bytes × ℤ)
    unfolding add_header
    finish output (failed self stages ec) = some (record self { state = stages }, output, ec)
    finish output (finished self stages out shapes) = do
      result ← add_header alloc out shapes
      some (record self { state = stages }, result, pos 0)

    -- `compress_impl`
    unfoldable pub compress_impl : Bytes → Bytes → Pipeline → Option (Pipeline × Bytes × ℤ)
    unfolding compress_stages finish
    compress_impl input output self =
        let empty : Bytes = record { dtype = Dtype.byte; dims = []; elements = [] } in
        finish output (compress_stages 0 self.state input empty self)
