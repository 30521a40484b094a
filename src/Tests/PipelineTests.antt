-- ===== src/Tests/PipelineTests.antt =====
-- The properties of pipelines at concrete inputs.
use libpressio.Base.{
  All, List, [], ap, arith, codes, false, length, refl, some, suc, true, zero, ℕ, ◌+◌, ◌<◌, ◌^◌,
  ◌∙◌, ◌∷◌, ◌≡◌,
}
use libpressio.Base.Int.{ℤ, pos}
use libpressio.Dtype.{Dtype, dtype_size}
use libpressio.Data.Sizes.{data_size_in_bytes, data_size_in_elements, size_loop}
use libpressio.Compressor.Base.{MetricsClass}
use libpressio.Pipeline.Compress.{positive, Bytes, Stages, Pipeline, compress_impl, compress_stages}
use libpressio.Pipeline.Decompress.{decompress_impl}
use libpressio.Pipeline.Chain.{Lossless, IsBack, IsHandled}
use libpressio.Pipeline.Output.{IsFull}
use libpressio.Pipeline.RoundTrip.{decompress_impl-compress_impl, run_size, written}
use libpressio.Pipeline.Header.{Shape}
use libpressio.Pipeline.HeaderTrip.{ShapeFits}
use libpressio.Pipeline.Resize
use libpressio.Pipeline.Resize.{Resize, reshape_unless_empty, final_dims, decompress_impl-reshaped}
use libpressio.Pipeline.Errors.{Reports, Unwinds, compress_impl-Reports, decompress_impl-Unwinds}

-- Metrics that count what they see.
abbrev counter : MetricsClass ℕ Bytes ℕ
counter = record {
  begin_compress = λ i o m. (m, pos 0);
  end_compress = λ i o c m. (m, pos 0);
  begin_decompress = λ i o m. (m, pos 0);
  end_decompress = λ i o c m. (m, pos 0);
  begin_compress_many = λ i o m. (m, pos 0);
  end_compress_many = λ i o c m. (m, pos 0);
  begin_decompress_many = λ i o m. (m, pos 0);
  end_decompress_many = λ i o c m. (m, pos 0);
  view_segment = λ b s m. (m + 1, pos 0);
  set_options = λ o m. (o, pos 0);
  get_metrics_results = λ o m. (m, m);
  error_code = λ m. pos 3;
  error_msg = λ m. codes "refused";
  prefix = λ m. codes "counter";
  set_name = λ n m. m;
}

-- A stage exchanges the first two bytes, counts its runs and returns its code.
record Swapper : Type 0 where
  runs : ℕ
  code : ℤ

abbrev swapped : List ℕ → List ℕ
swapped (a ∷ b ∷ bs) = b ∷ a ∷ bs
swapped bs = bs

abbrev swappers : Stages Swapper
swappers = record {
  compress = λ x out s.
      (record s { runs = s.runs + 1 }, record x { elements = swapped x.elements }, s.code);
  decompress = λ y out s.
      (record s { runs = s.runs + 1 }, record out { elements = swapped y.elements }, s.code);
  error_msg = λ s. codes "swapper";
}

length-swapped : (bs : List ℕ) → length (swapped bs) ≡ length bs
length-swapped [] = refl
length-swapped (a ∷ []) = refl
length-swapped (a ∷ b ∷ bs) = refl

swapped-swapped : (bs : List ℕ) → swapped (swapped bs) ≡ bs
swapped-swapped [] = refl
swapped-swapped (a ∷ []) = refl
swapped-swapped (a ∷ b ∷ bs) = refl

abbrev good : Swapper
good = record { runs = 0; code = pos 0 }

abbrev bad : Swapper
bad = record { runs = 0; code = pos 5 }

swappers-Lossless : Lossless swappers good
swappers-Lossless x output h = (
  refl,
  (length-swapped x.elements ∙ h.0, h.1),
  λ input out e t d. (
    (λ i. record {
      dtype = t i;
      dims = d i;
      elements = (ap swapped e ∙ swapped-swapped x.elements) i;
    }),
    refl,
  ),
)

abbrev zeros : ℕ → List ℕ
zeros zero = []
zeros (suc n) = 0 ∷ zeros n

length-zeros : (n : ℕ) → length (zeros n) ≡ n
length-zeros zero = refl
length-zeros (suc n) = omega (arith, length-zeros n)

abbrev abc : Bytes
abc = record { dtype = Dtype.byte; dims = 3 ∷ []; elements = 97 ∷ 98 ∷ 99 ∷ [] }

abbrev nothing : Bytes
nothing = record { dtype = Dtype.byte; dims = []; elements = [] }

abbrev pipeline : List Swapper → Pipeline counter swappers
pipeline stages = record {
  name = [];
  error_code = pos 0;
  error_msg = [];
  metrics_plugin = some 0;
  metrics_id = codes "counter";
  metrics_errors_fatal = true;
  metrics_copy_impl_results = true;
  state = stages;
}

abc-IsFull : IsFull abc
unfolding data_size_in_bytes data_size_in_elements size_loop dtype_size
abc-IsFull = refl

small_run :
    run_size counter swappers zeros length-zeros (
      compress_stages counter swappers 0
        (good ∷ good ∷ [])
        abc
        nothing
        (pipeline (good ∷ good ∷ [])))
    < 2 ^ 64
unfolding compress_stages
small_run = omega arith

decompress_impl-compress_impl_example :
    (self' : Pipeline counter swappers) × (compressed : Bytes) × (self'' : Pipeline counter
      swappers)
    × (result : Bytes) × (compress_impl counter swappers zeros abc nothing
          (pipeline (good ∷ good ∷ []))
        ≡ some (self', compressed, pos 0))
    × (decompress_impl counter swappers zeros compressed nothing self'
        ≡ some (self'', result, pos 0))
    × IsBack (good ∷ good ∷ []) abc result
decompress_impl-compress_impl_example =
    decompress_impl-compress_impl counter swappers zeros length-zeros (pipeline (good ∷ good ∷ []))
      abc nothing nothing (swappers-Lossless, (swappers-Lossless, tt))
      (abc-IsFull, (omega arith, (omega arith, tt))) (omega arith) small_run

compress_impl-Reports_example :
    Reports counter swappers zeros
      (good ∷ bad ∷ [])
      abc
      nothing
      (compress_impl counter swappers zeros abc nothing (pipeline (good ∷ bad ∷ [])))
compress_impl-Reports_example =
    compress_impl-Reports counter swappers zeros (pipeline (good ∷ bad ∷ [])) abc nothing

abbrev two_shapes : List Shape
two_shapes = (Dtype.byte, 3 ∷ []) ∷ (Dtype.byte, 3 ∷ []) ∷ []

two_shapes-Fit : All ShapeFits two_shapes
two_shapes-Fit = ((omega arith, (omega arith, tt)), ((omega arith, (omega arith, tt)), tt))

decompress_impl-Unwinds_example :
    Unwinds counter swappers zeros two_shapes
      (bad ∷ good ∷ [])
      2
      abc
      (λ left. nothing)
      (decompress_impl counter swappers zeros
        (written abc two_shapes)
        nothing
        (pipeline (bad ∷ good ∷ [])))
decompress_impl-Unwinds_example =
    decompress_impl-Unwinds counter swappers zeros length-zeros (pipeline (bad ∷ good ∷ [])) abc
      nothing two_shapes (omega arith) (omega arith) two_shapes-Fit (omega arith)

abbrev resized : Resize Swapper
resized = record { compressor = good; compressed_dims = 1 ∷ 3 ∷ []; decompressed_dims = 3 ∷ 1 ∷ [] }

abc-resized : IsHandled (reshape_unless_empty resized.compressed_dims abc)
unfolding reshape_unless_empty data_size_in_bytes data_size_in_elements size_loop dtype_size
abc-resized = (refl, (omega arith, (omega arith, (omega arith, tt))))

decompress_impl-reshaped_example :
    (positive (Resize.compress_impl swappers abc nothing resized).2 ≡ false)
    × ((Resize.decompress_impl swappers
          (Resize.compress_impl swappers abc nothing resized).1
          abc
          (Resize.compress_impl swappers abc nothing resized).0).1
        ≡ record abc { dims = final_dims swappers resized (3 ∷ []) })
    × (positive
          (Resize.decompress_impl swappers
            (Resize.compress_impl swappers abc nothing resized).1
            abc
            (Resize.compress_impl swappers abc nothing resized).0).2
        ≡ false)
decompress_impl-reshaped_example =
    decompress_impl-reshaped swappers resized abc nothing
      (Resize.compress_impl swappers abc nothing resized).1 abc swappers-Lossless abc-resized refl
      refl refl
