-- ===== src/Pipeline/Decompress.antt =====
-- `decompress_impl` of src/plugins/compressors/pipeline.cc.
use libpressio.Base.{
  List, Option, [], codes, drop, get_elem?, if◌then◌else◌, ltb, none, some, suc, take, zero, ℕ, ◌%◌,
  ◌*◌, ◌+◌, ◌-◌, ◌==◌, ◌^◌, ◌∷◌,
}
use libpressio.Base.Int.{ℤ, pos}
use libpressio.Dtype.{Dtype}
use libpressio.Data.Sizes.{data_size_in_bytes}
use libpressio.Compressor.Base.{MetricsClass, set_error}
use libpressio.Serial.Recv.{◌>>=◌}
use libpressio.Pipeline.Store.{read_word}
use libpressio.Pipeline.Header.{Shape, read_metadata}
use libpressio.Pipeline.Compress.{Bytes, size_in_bytes, Stages, positive, Pipeline, report}

-- The assignment `plugins[i] = a`, of an index that is there.
unfoldable pub put_elem {ℓ} : {A : Type ℓ} → List A → ℕ → A → List A
put_elem [] i a = []
put_elem (x ∷ xs) zero a = a ∷ xs
put_elem (x ∷ xs) (suc i) a = x ∷ put_elem xs i a

-- The `int64_t` in a word counts the stages; a negative one counts none.
unfoldable pub stage_count : ℕ → ℕ
stage_count w = if ltb w (2 ^ 63) then w else 0

module _ {M S Opts : Type 0} (K : MetricsClass M Bytes Opts) (P : Stages S)
    (alloc : ℕ → List ℕ) where
  -- `owning` of a shape.
  unfoldable pub owning : Shape → Bytes
  owning shape = record {
    dtype = shape.0;
    dims = shape.1;
    elements = alloc (data_size_in_bytes shape.0 shape.1);
  }

  -- The loop from the stage `i - 1` down to 0: the object, `tmp_in` and the code it ends with,
  -- which is that of an error or 0.
  unfoldable pub decompress_stages :
      ℕ → List Shape → Bytes → Pipeline K P → Option (Pipeline K P × Bytes × ℤ)
  unfolding owning put_elem report
  decompress_stages zero outputs tmp_in self = some (self, tmp_in, pos 0)
  decompress_stages (suc i) outputs tmp_in self = do
    shape ← get_elem? outputs i
    stage ← get_elem? self.state i
    let ran = P.decompress tmp_in (owning shape) stage
    let reported = report K P ran.2 ran.0 (record self { state = put_elem self.state i ran.0 })
    let rest = decompress_stages i outputs ran.1 reported
    (if positive ran.2 then some (reported, ran.1, ran.2) else rest)

  -- The buffer after the header, of the size in bytes that `size_t` arithmetic gives.
  unfoldable pub payload : ℕ → Bytes → Bytes
  payload header input =
      let size = (size_in_bytes input + (2 ^ 64 - header % 2 ^ 64)) % 2 ^ 64 in
      record {
        dtype = Dtype.byte;
        dims = size ∷ [];
        elements = take size (drop header input.elements);
      }

  -- `decompress_impl`, from the case of format 1 on; an error of a stage leaves the output as it was.
  unfoldable pub finish_decompress :
      Bytes → Option (Pipeline K P × Bytes × ℤ) → Option (Pipeline K P × Bytes × ℤ)
  finish_decompress output none = none
  finish_decompress output (some (self, out, code)) =
      some (self, if positive code then output else out, code)

  unfoldable pub decompress_format :
      Bytes → Bytes → Pipeline K P → Option (Pipeline K P × Bytes × ℤ)
  unfolding read_word read_metadata decompress_stages payload finish_decompress stage_count
  decompress_format input output self = do
    num_metadata ← read_word 1 input.elements
    (i, outputs) ← read_metadata 2 (stage_count num_metadata) input.elements
    finish_decompress output
        (decompress_stages (stage_count num_metadata) outputs (payload (8 * i) input) self)

  unfoldable pub decompress_impl : Bytes → Bytes → Pipeline K P → Option (Pipeline K P × Bytes × ℤ)
  unfolding read_word decompress_format set_error
  decompress_impl input output self = do
    format ← read_word 0 input.elements
    if format == 1
        then decompress_format input output self
        else (let failed = set_error (pos 1) (codes "unrecognized header version") self in
            some (failed.0, output, failed.1))
