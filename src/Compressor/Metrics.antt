-- ===== src/Compressor/Metrics.antt =====
-- What the metrics of a compressor can change about its runs.
use libpressio.Base.{
  Bool, Bool-cases, Option, Text, [], arith, inl, inr, none, refl, some, true, ap, ℕ, ◌&&◌, ◌==◌,
  ◌∙◌, false, ◌≡◌, ◌≢◌, ◌⊎◌,
}
use mathlib.Core.Bool.{false≢true}
use libpressio.Base.Int.{ℤ, pos, negsuc}
use libpressio.Compressor.Base.{
  MetricsClass, CompressorClass, Plugin, Ran, nonzero, compress, decompress, compress_observed,
  clear_error, set_error, after_impl, metrics_failed, store_error, decompress_with, compress_with,
}

-- The error that is left after `clear_error` and a run that sets `error`.
abbrev pub left : Option (ℤ × Text) → ℤ × Text
left none = (pos 0, [])
left (some e) = e

module _ {M S Buf Opts : Type 0} (K : MetricsClass M Buf Opts)
    (C : CompressorClass S Buf Opts) where
  -- The result is that of `r`: the state, the output, the code, and the error that is left.
  abbrev pub Reports : {B : Type 0} → Ran S B → Plugin M S × B × ℤ → Type 0
  Reports r result =
      (result.0.state ≡ r.state)
      × (result.1 ≡ r.output)
      × (result.2 ≡ r.code)
      × (result.0.error_code ≡ (left r.error).0)
      × (result.0.error_msg ≡ (left r.error).1)

  -- The result is a failure of the metrics `m`: the code and the message are theirs.
  abbrev pub Blames : {B : Type 0} → M → Plugin M S × B × ℤ → Type 0
  Blames m result =
      (result.0.metrics_plugin ≡ some m)
      × (result.2 ≡ K.error_code m)
      × (result.0.error_code ≡ K.error_code m)
      × (result.0.error_msg ≡ K.error_msg m)

  -- The code of a hook stops a run if it is not 0 and the errors of the metrics are fatal.
  abbrev pub Stops : Bool → ℤ → Type 0
  Stops fatal code = (code ≢ pos 0) × (fatal ≡ true)

  abbrev pub Continues : Bool → ℤ → Type 0
  Continues fatal code = (code ≡ pos 0) ⊎ (fatal ≡ false)

  -- After the run `r` and the hook at its end, which left the metrics `m` and returned `code`: the
  -- metrics are to blame, with the state and the output of the run, or it is reported.
  abbrev pub EndOutcome : {B : Type 0} → Ran S B → M → ℤ → Bool → Plugin M S × B × ℤ → Type 0
  EndOutcome r m code fatal result =
      (Stops fatal code × Blames m result × (result.0.state ≡ r.state) × (result.1 ≡ r.output))
      ⊎ (Continues fatal code × Reports r result × (result.0.metrics_plugin ≡ some m))

  -- What a call on an object with the state `s` makes of the run `r`, `begin` and `end` being the
  -- hooks. Without metrics the run is reported. With them it is not made if the hook at its begin
  -- stops it, and the state and the output are as before; else the hook at its end follows.
  abbrev pub HookedOutcome :
      {B : Type 0}
      → (M → M × ℤ)
      → (B → ℤ → M → M × ℤ)
      → Ran S B
      → Option M
      → B
      → Bool
      → S
      → Plugin M S × B × ℤ
      → Type 0
  HookedOutcome begin end r none output fatal s result =
      Reports r result × (result.0.metrics_plugin ≡ none)
  HookedOutcome begin end r (some m) output fatal s result =
      (Stops fatal (begin m).1
        × Blames (begin m).0 result
        × (result.0.state ≡ s)
        × (result.1 ≡ output))
      ⊎ (Continues fatal (begin m).1
          × EndOutcome r (end r.output r.code (begin m).0).0 (end r.output r.code (begin m).0).1
              fatal result)

  natural : ℤ → ℕ
  natural (pos n) = n
  natural (negsuc n) = 0

  pos_ne_zero : (n : ℕ) → (n == 0) ≡ false → pos n ≢ pos 0
  unfolding natural
  pos_ne_zero n t h = let zero : n ≡ 0 = ap natural h in ground (arith, zero, t)

  pub stops : (fatal : Bool) (code : ℤ) → (nonzero code && fatal) ≡ true → Stops fatal code
  stops fatal (pos n) e = elim (Bool-cases (n == 0)) [
    | inl t ↦ absurd (false≢true (rw t at e))
    | inr t ↦ ((λ h. pos_ne_zero n t h), rw t at e)
  ]
  stops fatal (negsuc n) e = (λ h. cc, e)

  pub continues : (fatal : Bool) (code : ℤ) → (nonzero code && fatal) ≡ false → Continues fatal code
  continues fatal (pos n) e = elim (Bool-cases (n == 0)) [
    | inl t ↦ inl (ap pos (ground (arith, t)))
    | inr t ↦ inr (rw t at e)
  ]
  continues fatal (negsuc n) e = inr e

  -- Both have been cleared.
  abbrev pub IsCleared : Plugin M S → Type 0
  IsCleared p = (p.error_code ≡ pos 0) × (p.error_msg ≡ [])

  pub stored :
      (e : Option (ℤ × Text)) (p : Plugin M S)
      → IsCleared p
      → let p' = store_error K C e p in
        (p'.state ≡ p.state)
        × (p'.error_code ≡ (left e).0)
        × (p'.error_msg ≡ (left e).1)
        × (p'.metrics_plugin ≡ p.metrics_plugin)
  unfolding store_error set_error
  stored none p c = (refl, c.0, c.1, refl)
  stored (some (code, msg)) p c = (refl, refl, refl, refl)

  observed :
      (r : Ran S Buf) (p : Plugin M S) (m : M)
      → IsCleared p
      → Reports r (record (after_impl K C r p) { metrics_plugin = some m }, r.output, r.code)
  unfolding after_impl
  observed r p m c =
      let (s, e, t, m) = stored r.error (record p { state = r.state }) c in (s, refl, refl, e, t)

  decompress_with-Reports :
      (o : Option M) (input output : Buf) (p : Plugin M S)
      → IsCleared p
      → Reports (C.decompress_impl input output p.state) (decompress_with K C o input output p)
  unfolding decompress_with after_impl
  decompress_with-Reports none input output p c =
      let r = C.decompress_impl input output p.state in
      let (s, e, t, m) = stored r.error (record p { state = r.state }) c in (s, refl, refl, e, t)
  decompress_with-Reports (some m) input output p c =
      let r = C.decompress_impl input output p.state in
      observed r p (K.end_decompress input r.output r.code (K.begin_decompress input output m).0).0
        c

  -- `decompress` reports the run of `decompress_impl` whatever the metrics return, also when their
  -- errors are fatal.
  pub decompress-Reports :
      (input output : Buf) (p : Plugin M S)
      → Reports (C.decompress_impl input output p.state) (decompress K C input output p)
  unfolding decompress clear_error
  decompress-Reports input output p =
      decompress_with-Reports p.metrics_plugin input output (clear_error p) (refl, refl)

  compress_observed-EndOutcome :
      (input output : Buf) (m : M) (p : Plugin M S)
      → IsCleared p
      → let r = C.compress_impl input output p.state in
        let hook = K.end_compress input r.output r.code m in
        EndOutcome r hook.0 hook.1 p.metrics_errors_fatal (compress_observed K C input output m p)
  unfolding compress_observed metrics_failed set_error after_impl
  compress_observed-EndOutcome input output m p c =
      let r = C.compress_impl input output p.state in
      let hook = K.end_compress input r.output r.code m in
      let (s, k, t, u) = stored r.error (record p { state = r.state }) c in
      elim (Bool-cases (nonzero hook.1 && p.metrics_errors_fatal)) [
        | inl e ↦
            rw e (inl (stops p.metrics_errors_fatal hook.1 e, (refl, refl, refl, refl), s, refl))
        | inr e ↦
            rw e (inr (continues p.metrics_errors_fatal hook.1 e, observed r p hook.0 c, refl))
      ]

  -- What `compress` does with the run of `compress_impl`.
  abbrev pub CompressOutcome : Buf → Buf → Plugin M S → Plugin M S × Buf × ℤ → Type 0
  CompressOutcome input output p result =
      HookedOutcome (K.begin_compress input output) (K.end_compress input)
        (C.compress_impl input output p.state) p.metrics_plugin output p.metrics_errors_fatal
        p.state result

  compress_with-HookedOutcome :
      (o : Option M) (input output : Buf) (p : Plugin M S)
      → p.metrics_plugin ≡ o
      → IsCleared p
      → HookedOutcome
          (K.begin_compress input output)
          (K.end_compress input)
          (C.compress_impl input output p.state)
          o
          output
          p.metrics_errors_fatal
          p.state
          (compress_with K C o input output p)
  unfolding compress_with after_impl metrics_failed set_error store_error
  compress_with-HookedOutcome none input output p h c =
      let r = C.compress_impl input output p.state in
      let (s, e, t, m) = stored r.error (record p { state = r.state }) c in
      ((s, refl, refl, e, t), m ∙ h)
  compress_with-HookedOutcome (some m) input output p h c =
      let hook = K.begin_compress input output m in
      elim (Bool-cases (nonzero hook.1 && p.metrics_errors_fatal)) [
        | inl e ↦
            rw e (inl (stops p.metrics_errors_fatal hook.1 e, (refl, refl, refl, refl), refl, refl))
        | inr e ↦ rw e (
            inr (
              continues p.metrics_errors_fatal hook.1 e,
              compress_observed-EndOutcome input output hook.0 p c,
            ))
      ]

  -- `compress` without metrics reports the run of `compress_impl`: its state, output and code, and the
  -- error that it sets, or none. With metrics, exactly when their errors are fatal and
  -- `begin_compress` returns another code than 0, nothing is run, the state and the output are as
  -- before, and the code and the message are those of the metrics after that hook. Otherwise, exactly
  -- when their errors are fatal and `end_compress`, which is given the output and the code of the run,
  -- returns another code than 0, the state and the output are those of the run, and the code and the
  -- message those of the metrics after this hook. Otherwise the run is reported.
  pub compress-CompressOutcome :
      (input output : Buf) (p : Plugin M S)
      → CompressOutcome input output p (compress K C input output p)
  unfolding compress clear_error
  compress-CompressOutcome input output p =
      compress_with-HookedOutcome p.metrics_plugin input output (clear_error p) refl (refl, refl)
