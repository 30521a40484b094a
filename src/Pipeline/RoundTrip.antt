-- ===== src/Pipeline/RoundTrip.antt =====
-- What a pipeline decompresses is what it compressed.
use libpressio.Base.{
  All, List, [], ap, arith, drop-append, length, lt→ltb, refl, some, subst, sym, ℕ, ◌%◌, ◌*◌, ◌++◌,
  ◌+◌, ◌-◌, ◌<◌, ◌^◌, ◌∙◌, ◌∷◌, ◌≡◌,
}
use libpressio.Base.Int.{pos}
use libpressio.Dtype.{Dtype, dtype_size}
use libpressio.Data.Sizes.{data_size_in_bytes, data_size_in_elements, size_loop}
use libpressio.Compressor.Base.{MetricsClass}
use libpressio.Pipeline.Store.{word_bytes, read_word, read_word-append}
use libpressio.Pipeline.Header.{Shape, read_metadata}
use libpressio.Pipeline.HeaderTrip.{
  ShapeFits, words_bytes, metadata_words, length-words_bytes, read_metadata-append,
}
use libpressio.Pipeline.Compress.{
  Bytes, size_in_bytes, Stages, Pipeline, Looped, failed, finished, compress_stages, compress_impl,
  finish,
}
use libpressio.Pipeline.Decompress.{
  decompress_impl, decompress_format, decompress_stages, payload, stage_count, finish_decompress,
}
use libpressio.Pipeline.Output.{header_bytes, output_size, add_header_lem, take_all}
use libpressio.Pipeline.Chain.{
  IsHandled, Lossless, Unwound, IsBack, IsBack-length, compress_stages-Chain,
  decompress_stages-Chain,
}

-- The output: the header, then the bytes of the last stage.
abbrev pub written : Bytes → List Shape → Bytes
written out shapes = record {
  dtype = Dtype.byte;
  dims = output_size out shapes ∷ [];
  elements = header_bytes shapes ++ out.elements;
}

size_in_bytes-written :
    (out : Bytes) (shapes : List Shape)
    → output_size out shapes < 2 ^ 64
    → size_in_bytes (written out shapes) ≡ output_size out shapes
unfolding data_size_in_bytes data_size_in_elements size_loop dtype_size
size_in_bytes-written out shapes small = omega (arith, small)

left_size :
    (out : Bytes) (shapes : List Shape)
    → output_size out shapes < 2 ^ 64
    → length out.elements
      ≡ (size_in_bytes (written out shapes) + (2 ^ 64 - length (header_bytes shapes) % 2 ^ 64))
        % 2 ^ 64
left_size out shapes small = rw (size_in_bytes-written out shapes small) (omega (arith, small))

module _ {M S Opts : Type 0} (K : MetricsClass M Bytes Opts) (P : Stages S) (alloc : ℕ → List ℕ)
    (alloc_length : (n : ℕ) → length (alloc n) ≡ n) where
  -- The bytes of the output that a run of the stages gives.
  abbrev pub run_size : Looped K P → ℕ
  run_size (failed self stages ec) = 0
  run_size (finished self stages out shapes) = output_size out shapes

  payload-written :
      (out : Bytes) (shapes : List Shape)
      → output_size out shapes < 2 ^ 64
      → (payload K P alloc (8 * (2 + length (metadata_words shapes))) (written out shapes)).elements
        ≡ out.elements
  unfolding payload
  payload-written out shapes small =
      let n = length-words_bytes (metadata_words shapes) in
      let header : 8 * (2 + length (metadata_words shapes)) ≡ length (header_bytes shapes) =
        omega (arith, n) in
      rw (header, drop-append (header_bytes shapes) out.elements, sym (left_size out shapes small))
        (take_all (length out.elements) out.elements refl)

  -- The buffer that follows the header.
  pub payload-whole :
      (out : Bytes) (shapes : List Shape)
      → output_size out shapes < 2 ^ 64
      → payload K P alloc (8 * (2 + length (metadata_words shapes))) (written out shapes)
        ≡ record { dtype = Dtype.byte; dims = length out.elements ∷ []; elements = out.elements }
  unfolding payload
  payload-whole out shapes small =
      let n = length-words_bytes (metadata_words shapes) in
      let header : 8 * (2 + length (metadata_words shapes)) ≡ length (header_bytes shapes) =
        omega (arith, n) in
      rw
        (
          header,
          drop-append (header_bytes shapes) out.elements,
          sym (left_size out shapes small),
          take_all (length out.elements) out.elements refl,
        )
        refl

  stage_count-length : (n : ℕ) → n < 2 ^ 63 → stage_count n ≡ n
  unfolding stage_count
  stage_count-length n h = rw (lt→ltb n (2 ^ 63) h) refl

  decompress_impl-reads :
      (input output : Bytes) (self : Pipeline K P) (w i : ℕ) (shapes : List Shape)
      → read_word 0 input.elements ≡ some 1
      → read_word 1 input.elements ≡ some w
      → read_metadata 2 (stage_count w) input.elements ≡ some (i, shapes)
      → decompress_impl K P alloc input output self
        ≡ finish_decompress K P alloc output (
            decompress_stages K P alloc
              (stage_count w)
              shapes
              (payload K P alloc (8 * i) input)
              self)
  unfolding decompress_impl decompress_format
  decompress_impl-reads input output self w i shapes e f g = rw (e, f, g) refl

  -- The header is read as it was written, and what follows it is undone.
  pub decompress_impl-written :
      (out output : Bytes) (shapes : List Shape) (self : Pipeline K P)
      → output_size out shapes < 2 ^ 64
      → length shapes < 2 ^ 63
      → All ShapeFits shapes
      → decompress_impl K P alloc (written out shapes) output self
        ≡ finish_decompress K P alloc output (
            decompress_stages K P alloc
              (length shapes)
              shapes
              (payload K P alloc (8 * (2 + length (metadata_words shapes))) (written out shapes))
              self)
  decompress_impl-written out output shapes self small few fits =
      let n = length shapes in
      let table = words_bytes (metadata_words shapes) in
      let bytes = (written out shapes).elements in
      let version : read_word 0 bytes ≡ some 1 =
        read_word-append 0 1 [] (word_bytes n ++ (table ++ out.elements)) refl (omega arith) in
      let number : read_word 1 bytes ≡ some n =
        read_word-append 1 n (word_bytes 1) (table ++ out.elements) refl (omega (arith, few)) in
      let listed : read_metadata 2 n bytes ≡ some (2 + length (metadata_words shapes), shapes) =
        read_metadata-append 2 shapes (word_bytes 1 ++ word_bytes n) out.elements refl fits in
      let all =
        decompress_impl-reads (written out shapes) output self n
          (2 + length (metadata_words shapes)) shapes version number
          (rw (stage_count-length n few) listed) in
      rw all (rw (stage_count-length n few) refl)

  -- If every stage is lossless, a full buffer is compressed without an error, and decompressing
  -- what that gives, with the pipeline it leaves and into any output, gives the bytes of the buffer
  -- back without an error, and the type and the dimensions as well if there is a stage. There must
  -- be fewer than 2 ^ 63 stages, and the output with its header must be smaller than 2 ^ 64 bytes.
  pub decompress_impl-compress_impl :
      (self : Pipeline K P) (input output output' : Bytes)
      → All (Lossless P) self.state
      → IsHandled input
      → length self.state < 2 ^ 63
      → run_size (
          compress_stages K P 0 self.state input
            (record { dtype = Dtype.byte; dims = []; elements = [] })
            self)
        < 2 ^ 64
      → (self' : Pipeline K P) × (compressed : Bytes) × (self'' : Pipeline K P) × (result : Bytes)
        × (compress_impl K P alloc input output self ≡ some (self', compressed, pos 0))
        × (decompress_impl K P alloc compressed output' self' ≡ some (self'', result, pos 0))
        × IsBack self.state input result
  unfolding compress_impl finish decompress_stages finish_decompress Unwound
  decompress_impl-compress_impl self input output output' lossless handled few small =
      let empty : Bytes = record { dtype = Dtype.byte; dims = []; elements = [] } in
      let (ran, stages, y, shapes, e, chain, hy, fits, m, n) =
        compress_stages-Chain P K 0 self.state input empty self lossless handled in
      let fewer : length shapes < 2 ^ 63 = omega (arith, few, n) in
      let smaller : output_size y shapes < 2 ^ 64 = subst (λ l. run_size l < 2 ^ 64) e small in
      let self' : Pipeline K P = record ran { state = stages } in
      let z = payload K P alloc (8 * (2 + length (metadata_words shapes))) (written y shapes) in
      let (self'', stages'', w, s, back, f) =
        decompress_stages-Chain P K alloc [] stages input y [] shapes z self' chain refl
          (payload-written y shapes smaller) refl in
      (
        self',
        written y shapes,
        self'',
        w,
        rw (e, add_header_lem alloc alloc_length y shapes hy.0 smaller) refl,
        decompress_impl-written y output' shapes self' smaller fewer fits
            ∙ ap
                (λ k.
                  finish_decompress K P alloc output'
                    (decompress_stages K P alloc k shapes z self'))
                (n ∙ sym m)
            ∙ ap (finish_decompress K P alloc output') f,
        IsBack-length stages self.state input w m back,
      )
