-- ===== src/Pipeline/Resize.antt =====
-- src/plugins/compressors/resize.cc: a compressor that runs another one on a buffer of other
-- dimensions. Buffers are values, as in Compress.antt.
use libpressio.Base.{List, [], ap, false, refl, sym, ℕ, ◌∙◌, ◌∷◌, ◌≡◌}
use libpressio.Base.Int.{ℤ}
use libpressio.Dtype.{Dtype}
use libpressio.Pipeline.Compress.{Bytes, Stages, positive}
use libpressio.Pipeline.Chain.{IsHandled, Lossless}

-- The members; `compressor` is the other one.
pub record Resize (S : Type 0) : Type 0 where
  pub compressor : S
  pub compressed_dims : List ℕ
  pub decompressed_dims : List ℕ

-- `if(!dims.empty()) x.reshape(dims)`
unfoldable pub reshape_unless_empty : List ℕ → Bytes → Bytes
reshape_unless_empty [] x = x
reshape_unless_empty (d ∷ ds) x = record x { dims = d ∷ ds }

module _ {S : Type 0} (P : Stages S) where
  unfoldable pub compress_impl : Bytes → Bytes → Resize S → Resize S × Bytes × ℤ
  unfolding reshape_unless_empty
  compress_impl input output self =
      let ran =
        P.compress (reshape_unless_empty self.compressed_dims input) output self.compressor in
      (record self { compressor = ran.0 }, ran.1, ran.2)

  unfoldable pub decompress_impl : Bytes → Bytes → Resize S → Resize S × Bytes × ℤ
  unfolding reshape_unless_empty
  decompress_impl input output self =
      let shaped = reshape_unless_empty self.compressed_dims output in
      let ran = P.decompress input shaped self.compressor in
      (record self { compressor = ran.0 }, reshape_unless_empty self.decompressed_dims ran.1, ran.2)

  -- The dimensions that a buffer of dimensions `ds` ends with.
  abbrev pub final_dims : Resize S → List ℕ → List ℕ
  final_dims self ds =
      (reshape_unless_empty self.decompressed_dims (
        reshape_unless_empty self.compressed_dims
          (record { dtype = Dtype.byte; dims = ds; elements = [] }))).dims

  reshape-dtype : (ds : List ℕ) (x : Bytes) → (reshape_unless_empty ds x).dtype ≡ x.dtype
  unfolding reshape_unless_empty
  reshape-dtype [] x = refl
  reshape-dtype (d ∷ ds) x = refl

  reshape-dims :
      (ds : List ℕ) (x y : Bytes)
      → x.dims ≡ y.dims
      → (reshape_unless_empty ds x).dims ≡ (reshape_unless_empty ds y).dims
  unfolding reshape_unless_empty
  reshape-dims [] x y h = h
  reshape-dims (d ∷ ds) x y h = refl

  reshape-reshape :
      (ds es : List ℕ) (x : Bytes)
      → reshape_unless_empty es (reshape_unless_empty ds x) ≡ record x {
        dims =
            (reshape_unless_empty es (
              reshape_unless_empty ds
                (record { dtype = Dtype.byte; dims = x.dims; elements = [] }))).dims;
      }
  unfolding reshape_unless_empty
  reshape-reshape [] [] x = refl
  reshape-reshape [] (e ∷ es) x = refl
  reshape-reshape (d ∷ ds) [] x = refl
  reshape-reshape (d ∷ ds) (e ∷ es) x = refl

  -- If the other compressor is lossless, and the buffer in the dimensions it is compressed in is
  -- full, then decompressing into a buffer of its type and dimensions what it is compressed to
  -- gives its bytes and its type without an error, in the dimensions for decompression, or else
  -- those for compression, or else its own. Bytes that a third buffer holds serve as well.
  pub decompress_impl-reshaped :
      (self : Resize S) (x before input output : Bytes)
      → Lossless P self.compressor
      → IsHandled (reshape_unless_empty self.compressed_dims x)
      → input.elements ≡ (compress_impl x before self).1.elements
      → output.dtype ≡ x.dtype
      → output.dims ≡ x.dims
      → let ran = compress_impl x before self in
        (positive ran.2 ≡ false)
        × ((decompress_impl input output ran.0).1 ≡ record x { dims = final_dims self x.dims })
        × (positive (decompress_impl input output ran.0).2 ≡ false)
  unfolding compress_impl decompress_impl
  decompress_impl-reshaped self x before input output l h e t d =
      let ds = self.compressed_dims in
      let here = l (reshape_unless_empty ds x) before h in
      let back =
        here.2 input (reshape_unless_empty ds output) e
          (reshape-dtype ds output ∙ t ∙ sym (reshape-dtype ds x)) (reshape-dims ds output x d) in
      (
        here.0,
        ap (reshape_unless_empty self.decompressed_dims) back.0
            ∙ reshape-reshape ds self.decompressed_dims x,
        back.1,
      )
