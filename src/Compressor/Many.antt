-- ===== src/Compressor/Many.antt =====
-- Runs of a compressor over several buffers.
use libpressio.Base.{
  Bool, Bool-cases, List, Option, [], ap₂, if◌then◌else◌, subst, codes, inl, inr, none, refl, some,
  ◌&&◌, ◌∙◌, ◌∷◌, ◌≡◌,
}
use libpressio.Base.Int.{ℤ, pos}
use libpressio.Compressor.Base.{
  MetricsClass, CompressorClass, Plugin, Ran, nonzero, many_with, many_impl, compress_many,
  decompress_many, compress_many_impl, decompress_many_impl, clear_error, set_error, metrics_failed,
  after_impl,
}
use libpressio.Compressor.Metrics.{
  EndOutcome, HookedOutcome, Reports, IsCleared, continues, stops, stored,
}

module _ {M S Buf Opts : Type 0} (K : MetricsClass M Buf Opts)
    (C : CompressorClass S Buf Opts) where
  -- The run of several buffers, `run` being that of one: with one input and one output it is `run`,
  -- and else an error that leaves the state and the outputs as they were.
  abbrev pub expected : (Buf → Buf → S → Ran S Buf) → List Buf → List Buf → S → Ran S (List Buf)
  expected run (input ∷ []) (output ∷ []) s =
      let r = run input output s in
      record { state = r.state; output = r.output ∷ []; code = r.code; error = r.error }
  expected run inputs outputs s = record {
    state = s;
    output = outputs;
    code = pos 1;
    error = some (pos 1, codes "decompress_many not supported");
  }

  -- It is reported, and the metrics are kept.
  abbrev IsRun : Ran S (List Buf) → Plugin M S → Plugin M S × List Buf × ℤ → Type 0
  IsRun r p result = Reports K C r result × (result.0.metrics_plugin ≡ p.metrics_plugin)

  many_impl-IsRun :
      (run : Buf → Buf → S → Ran S Buf) (inputs outputs : List Buf) (p : Plugin M S)
      → IsCleared K C p
      → IsRun (expected run inputs outputs p.state) p (many_impl K C run inputs outputs p)
  unfolding many_impl set_error after_impl
  many_impl-IsRun run (input ∷ []) (output ∷ []) p c =
      let r = run input output p.state in
      let (s, e, t, m) = stored K C r.error (record p { state = r.state }) c in
      ((s, refl, refl, e, t), m)
  many_impl-IsRun run [] outputs p c = ((refl, refl, refl, refl, refl), refl)
  many_impl-IsRun run (i ∷ []) [] p c = ((refl, refl, refl, refl, refl), refl)
  many_impl-IsRun run (i ∷ []) (o ∷ o' ∷ os) p c = ((refl, refl, refl, refl, refl), refl)
  many_impl-IsRun run (i ∷ i' ∷ is) outputs p c = ((refl, refl, refl, refl, refl), refl)

  -- The branches after the hook at the end of a run.
  ended :
      (r : Ran S (List Buf)) (fatal : Bool) (q : Plugin M S) (outs : List Buf) (code : ℤ)
      (last last' : M × ℤ)
      → Reports K C r (q, outs, code)
      → last ≡ last'
      → EndOutcome K C r last'.0 last'.1 fatal (
          if nonzero last.1 && fatal
          then (let (q', code') = metrics_failed K C last.0 q in (q', outs, code'))
          else (record q { metrics_plugin = some last.0 }, outs, code))
  unfolding metrics_failed set_error
  ended r fatal q outs code last last' (s, o, c, e, t) same =
      subst
        (λ (l : M × ℤ). EndOutcome K C r l.0 l.1 fatal (
          if nonzero last.1 && fatal
          then (let (q', code') = metrics_failed K C last.0 q in (q', outs, code'))
          else (record q { metrics_plugin = some last.0 }, outs, code)))
        same
        (elim (Bool-cases (nonzero last.1 && fatal)) [
          | inl f ↦ rw f (inl (stops K C fatal last.1 f, (refl, refl, refl, refl), s, o))
          | inr f ↦ rw f (inr (continues K C fatal last.1 f, (s, o, c, e, t), refl))
        ])

  many_with-HookedOutcome :
      (begin : M → M × ℤ) (end : List Buf → ℤ → M → M × ℤ)
      (impl : Plugin M S → Plugin M S × List Buf × ℤ) (r : Ran S (List Buf)) (o : Option M)
      (outputs : List Buf) (p : Plugin M S)
      → p.metrics_plugin ≡ o
      → IsRun r p (impl p)
      → HookedOutcome K C begin end r o outputs p.metrics_errors_fatal p.state
          (many_with K C begin end impl o outputs p)
  unfolding many_with metrics_failed set_error
  many_with-HookedOutcome begin end impl r none outputs p h (reports, kept) = (reports, kept ∙ h)
  many_with-HookedOutcome begin end impl r (some m) outputs p h (reports, kept) =
      let hook = begin m in
      let last = end (impl p).1 (impl p).2 hook.0 in
      elim (Bool-cases (nonzero hook.1 && p.metrics_errors_fatal)) [
        | inl e ↦
            rw e (
              inl (stops K C p.metrics_errors_fatal hook.1 e, (refl, refl, refl, refl), refl, refl))
        | inr e ↦ rw e (
            inr (
              continues K C p.metrics_errors_fatal hook.1 e,
              ended r p.metrics_errors_fatal (impl p).0 (impl p).1 (impl p).2 last
                  (end r.output r.code hook.0) reports
                  (ap₂ (λ o c. end o c hook.0) reports.1 reports.2),
            ))
      ]

  -- `compress_many` and `decompress_many` of a class that overrides neither run, for one input and
  -- one output, `compress_impl` and `decompress_impl`, and fail for other numbers with the code 1, a
  -- message, and the state and the outputs as they were. Without metrics that is reported: the state,
  -- the outputs, the code and the error. With metrics, exactly when their errors are fatal and the
  -- hook at the begin returns another code than 0, the state and the outputs are as before and the
  -- code and the message are those of the metrics after that hook; otherwise, exactly when their
  -- errors are fatal and the hook at the end, which is given those outputs and that code, returns
  -- another code than 0, the code and the message are those of the metrics after it; otherwise the
  -- above is reported.
  pub many-HookedOutcome :
      (inputs outputs : List Buf) (p : Plugin M S)
      → HookedOutcome K C
          (K.begin_compress_many inputs outputs)
          (K.end_compress_many inputs)
          (expected C.compress_impl inputs outputs p.state)
          p.metrics_plugin
          outputs
          p.metrics_errors_fatal
          p.state
          (compress_many K C inputs outputs p)
        × HookedOutcome K C
            (K.begin_decompress_many inputs outputs)
            (K.end_decompress_many inputs)
            (expected C.decompress_impl inputs outputs p.state)
            p.metrics_plugin
            outputs
            p.metrics_errors_fatal
            p.state
            (decompress_many K C inputs outputs p)
  unfolding compress_many decompress_many compress_many_impl decompress_many_impl clear_error
  many-HookedOutcome inputs outputs p = (
    many_with-HookedOutcome (K.begin_compress_many inputs outputs) (K.end_compress_many inputs)
        (compress_many_impl K C inputs outputs) (expected C.compress_impl inputs outputs p.state)
        p.metrics_plugin outputs (clear_error p) refl
        (many_impl-IsRun C.compress_impl inputs outputs (clear_error p) (refl, refl)),
    many_with-HookedOutcome (K.begin_decompress_many inputs outputs) (K.end_decompress_many inputs)
        (decompress_many_impl K C inputs outputs)
        (expected C.decompress_impl inputs outputs p.state) p.metrics_plugin outputs (clear_error p)
        refl (many_impl-IsRun C.decompress_impl inputs outputs (clear_error p) (refl, refl)),
  )
