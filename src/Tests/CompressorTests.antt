-- ===== src/Tests/CompressorTests.antt =====
-- The properties of the base class of the compressors at concrete inputs.
use libpressio.Base.{[], codes, if◌then◌else◌, ltb, none, some, true, ℕ, ◌+◌, ◌∷◌}
use libpressio.Base.Int.{ℤ, pos}
use libpressio.Compressor.Base.{MetricsClass, CompressorClass, Plugin, Ran, compress, decompress}
use libpressio.Compressor.Base.{compress_many, decompress_many}
use libpressio.Compressor.Many.{expected, many-HookedOutcome}
use libpressio.Compressor.Metrics.{
  Reports, HookedOutcome, CompressOutcome, compress-CompressOutcome, decompress-Reports,
}

-- Metrics that count the hooks and refuse from the third on; buffers and options are numbers.
abbrev counted : ℕ → ℤ
counted m = if ltb m 2 then pos 0 else pos 1

abbrev metrics : MetricsClass ℕ ℕ ℕ
metrics = record {
  begin_compress = λ i o m. (m + 1, counted m);
  end_compress = λ i o c m. (m + 1, counted m);
  begin_decompress = λ i o m. (m + 1, counted m);
  end_decompress = λ i o c m. (m + 1, counted m);
  begin_compress_many = λ i o m. (m + 1, counted m);
  end_compress_many = λ i o c m. (m + 1, counted m);
  begin_decompress_many = λ i o m. (m + 1, counted m);
  end_decompress_many = λ i o c m. (m + 1, counted m);
  view_segment = λ b s m. (m, pos 0);
  set_options = λ o m. (o, pos 0);
  get_metrics_results = λ o m. (m, m);
  error_code = λ m. pos 3;
  error_msg = λ m. codes "refused";
  prefix = λ m. codes "counter";
  set_name = λ n m. m;
}

-- A compressor that copies its input, counts its runs and fails on 0.
abbrev copies : ℕ → ℕ → ℕ → Ran ℕ ℕ
copies i o s = record {
  state = s + 1;
  output = i;
  code = if ltb 0 i then pos 0 else pos 2;
  error = if ltb 0 i then none else some (pos 2, codes "empty");
}

abbrev compressor : CompressorClass ℕ ℕ ℕ
compressor = record {
  compress_impl = copies;
  decompress_impl = copies;
  get_metrics_results_impl = λ s. s;
  set_name_impl = λ n s. s;
}

abbrev plugin : Plugin ℕ ℕ
plugin = record {
  name = [];
  error_code = pos 1;
  error_msg = codes "old";
  metrics_plugin = some 1;
  metrics_id = codes "counter";
  metrics_errors_fatal = true;
  metrics_copy_impl_results = true;
  state = 0;
}

compress-CompressOutcome_example :
    CompressOutcome metrics compressor 5 0 plugin (compress metrics compressor 5 0 plugin)
compress-CompressOutcome_example = compress-CompressOutcome metrics compressor 5 0 plugin

decompress-Reports_example :
    Reports metrics compressor
      (compressor.decompress_impl 5 0 plugin.state)
      (decompress metrics compressor 5 0 plugin)
decompress-Reports_example = decompress-Reports metrics compressor 5 0 plugin

many-HookedOutcome_example :
    HookedOutcome metrics compressor
      (metrics.begin_compress_many (5 ∷ []) (0 ∷ []))
      (metrics.end_compress_many (5 ∷ []))
      (expected metrics compressor copies (5 ∷ []) (0 ∷ []) 0)
      (some 1)
      (0 ∷ [])
      true
      0
      (compress_many metrics compressor (5 ∷ []) (0 ∷ []) plugin)
    × HookedOutcome metrics compressor
        (metrics.begin_decompress_many (5 ∷ []) (0 ∷ []))
        (metrics.end_decompress_many (5 ∷ []))
        (expected metrics compressor copies (5 ∷ []) (0 ∷ []) 0)
        (some 1)
        (0 ∷ [])
        true
        0
        (decompress_many metrics compressor (5 ∷ []) (0 ∷ []) plugin)
many-HookedOutcome_example = many-HookedOutcome metrics compressor (5 ∷ []) (0 ∷ []) plugin
