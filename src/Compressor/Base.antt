-- ===== src/Compressor/Base.antt =====
-- libpressio_compressor_plugin (src/plugins/compressors/compressor_base.cc) and its error state
-- (src/pressio_errorable.cc). A compressor and a metrics plugin are records of the functions
-- that classes derived from these override; an object is a value that they pass on.
use libpressio.Base.{
  Bool, List, Option, Text, [], codes, if◌then◌else◌, none, not, some, text_eq, true, ◌&&◌, ◌++◌,
  ◌==◌, ◌∷◌,
}
use libpressio.Base.Int.{ℤ, pos, negsuc}

abbrev pub nonzero : ℤ → Bool
nonzero (pos n) = not (n == 0)
nonzero (negsuc n) = true

-- The hooks of libpressio_metrics_plugin that the base class calls. `Buf` is pressio_data, `Opts`
-- pressio_options.
pub record MetricsClass (M Buf Opts : Type 0) : Type 0 where
  pub begin_compress : Buf → Buf → M → M × ℤ
  pub end_compress : Buf → Buf → ℤ → M → M × ℤ
  pub begin_decompress : Buf → Buf → M → M × ℤ
  pub end_decompress : Buf → Buf → ℤ → M → M × ℤ
  pub begin_compress_many : List Buf → List Buf → M → M × ℤ
  pub end_compress_many : List Buf → List Buf → ℤ → M → M × ℤ
  pub begin_decompress_many : List Buf → List Buf → M → M × ℤ
  pub end_decompress_many : List Buf → List Buf → ℤ → M → M × ℤ
  pub view_segment : Buf → Text → M → M × ℤ
  pub set_options : Opts → M → M × ℤ
  pub get_metrics_results : Opts → M → M × Opts
  pub error_code : M → ℤ
  pub error_msg : M → Text
  pub prefix : M → Text
  pub set_name : Text → M → M

-- What an overriding function leaves: the object, the output, the value it returns and the error
-- that it set, if it set one.
pub record Ran (S Buf : Type 0) : Type 0 where
  pub state : S
  pub output : Buf
  pub code : ℤ
  pub error : Option (ℤ × Text)

pub record CompressorClass (S Buf Opts : Type 0) : Type 0 where
  pub compress_impl : Buf → Buf → S → Ran S Buf
  pub decompress_impl : Buf → Buf → S → Ran S Buf
  pub get_metrics_results_impl : S → Opts
  pub set_name_impl : Text → S → S

-- The members; `state` is what the derived class adds.
pub record Plugin (M S : Type 0) : Type 0 where
  pub name : Text
  pub error_code : ℤ
  pub error_msg : Text
  pub metrics_plugin : Option M
  pub metrics_id : Text
  pub metrics_errors_fatal : Bool
  pub metrics_copy_impl_results : Bool
  pub state : S

module _ {M S : Type 0} where
  unfoldable pub clear_error : Plugin M S → Plugin M S
  clear_error p = record p { error_code = pos 0; error_msg = [] }

  -- `set_error`, which returns the code, and `error_code` after it.
  unfoldable pub set_error : ℤ → Text → Plugin M S → Plugin M S × ℤ
  set_error code msg p = (record p { error_code = code; error_msg = msg }, code)

  module _ {Buf Opts : Type 0} (K : MetricsClass M Buf Opts) where
    -- `view_segment`
    unfoldable pub view_segment : Buf → Text → Plugin M S → Plugin M S × ℤ
    view_segment buffer id p = elim p.metrics_plugin [
      | none ↦ (p, pos 0)
      | some m ↦
          let (m', code) = K.view_segment buffer id m in
          (record p { metrics_plugin = some m' }, code)
    ]

  module _ {Buf Opts : Type 0} (K : MetricsClass M Buf Opts) (C : CompressorClass S Buf Opts) where
    -- The plugin after an overriding function has run.
    unfoldable pub store_error : Option (ℤ × Text) → Plugin M S → Plugin M S
    unfolding set_error
    store_error none p = p
    store_error (some (code, msg)) p = (set_error code msg p).0

    unfoldable pub after_impl : Ran S Buf → Plugin M S → Plugin M S
    unfolding store_error
    after_impl r p = store_error r.error (record p { state = r.state })

    -- The branch of a failed hook.
    unfoldable pub metrics_failed : M → Plugin M S → Plugin M S × ℤ
    unfolding set_error
    metrics_failed m p =
        set_error (K.error_code m) (K.error_msg m) (record p { metrics_plugin = some m })

    -- The end of `compress`, from the call of `compress_impl` on, with a metrics plugin.
    unfoldable pub compress_observed : Buf → Buf → M → Plugin M S → Plugin M S × Buf × ℤ
    unfolding after_impl metrics_failed
    compress_observed input output m p =
        let r = C.compress_impl input output p.state in
        let (m', failed) = K.end_compress input r.output r.code m in
        if nonzero failed && p.metrics_errors_fatal
        then (let (p', code) = metrics_failed m' (after_impl r p) in (p', r.output, code))
        else (record (after_impl r p) { metrics_plugin = some m' }, r.output, r.code)

    unfoldable pub compress_with : Option M → Buf → Buf → Plugin M S → Plugin M S × Buf × ℤ
    unfolding compress_observed
    compress_with none input output p =
        let r = C.compress_impl input output p.state in (after_impl r p, r.output, r.code)
    compress_with (some m) input output p =
        let (m', failed) = K.begin_compress input output m in
        if nonzero failed && p.metrics_errors_fatal
        then (let (p', code) = metrics_failed m' p in (p', output, code))
        else compress_observed input output m' p

    -- `compress`: the object, the output and the value returned.
    unfoldable pub compress : Buf → Buf → Plugin M S → Plugin M S × Buf × ℤ
    unfolding clear_error compress_with
    compress input output p = compress_with p.metrics_plugin input output (clear_error p)

    -- `decompress`
    unfoldable pub decompress_with : Option M → Buf → Buf → Plugin M S → Plugin M S × Buf × ℤ
    unfolding after_impl
    decompress_with none input output p =
        let r = C.decompress_impl input output p.state in (after_impl r p, r.output, r.code)
    decompress_with (some m) input output p =
        let r = C.decompress_impl input output p.state in
        let m' = (K.end_decompress input r.output r.code (K.begin_decompress input output m).0).0 in
        (record (after_impl r p) { metrics_plugin = some m' }, r.output, r.code)

    unfoldable pub decompress : Buf → Buf → Plugin M S → Plugin M S × Buf × ℤ
    unfolding clear_error decompress_with
    decompress input output p = decompress_with p.metrics_plugin input output (clear_error p)

    -- `compress_many_impl` and `decompress_many_impl` of the base class, which share their text.
    unfoldable pub many_impl :
        (Buf → Buf → S → Ran S Buf) → List Buf → List Buf → Plugin M S → Plugin M S × List Buf × ℤ
    unfolding after_impl set_error
    many_impl run (input ∷ []) (output ∷ []) p =
        let r = run input output p.state in (after_impl r p, r.output ∷ [], r.code)
    many_impl run inputs outputs p =
        let (p', code) = set_error (pos 1) (codes "decompress_many not supported") p in
        (p', outputs, code)

    unfoldable pub compress_many_impl : List Buf → List Buf → Plugin M S → Plugin M S × List Buf × ℤ
    unfolding many_impl
    compress_many_impl = many_impl C.compress_impl

    unfoldable pub decompress_many_impl :
        List Buf → List Buf → Plugin M S → Plugin M S × List Buf × ℤ
    unfolding many_impl
    decompress_many_impl = many_impl C.decompress_impl

    -- The common text of `compress_many` and `decompress_many`: the hooks, the overridden function
    -- and what is left to it of the outputs.
    unfoldable pub many_with :
        (M → M × ℤ)
        → (List Buf → ℤ → M → M × ℤ)
        → (Plugin M S → Plugin M S × List Buf × ℤ)
        → Option M
        → List Buf
        → Plugin M S
        → Plugin M S × List Buf × ℤ
    unfolding metrics_failed
    many_with begin end impl none outputs p = impl p
    many_with begin end impl (some m) outputs p =
        let (m', failed) = begin m in
        if nonzero failed && p.metrics_errors_fatal
        then (let (p', code) = metrics_failed m' p in (p', outputs, code))
        else (let (p', outs, code) = impl p in
            let (m'', failed') = end outs code m' in
            if nonzero failed' && p.metrics_errors_fatal
            then (let (p'', code') = metrics_failed m'' p' in (p'', outs, code'))
            else (record p' { metrics_plugin = some m'' }, outs, code))

    -- `compress_many` and `decompress_many`, for a class that does not override the `_impl`.
    unfoldable pub compress_many : List Buf → List Buf → Plugin M S → Plugin M S × List Buf × ℤ
    unfolding many_with clear_error compress_many_impl
    compress_many inputs outputs p =
        many_with (K.begin_compress_many inputs outputs) (K.end_compress_many inputs)
          (compress_many_impl inputs outputs) p.metrics_plugin outputs (clear_error p)

    unfoldable pub decompress_many : List Buf → List Buf → Plugin M S → Plugin M S × List Buf × ℤ
    unfolding many_with clear_error decompress_many_impl
    decompress_many inputs outputs p =
        many_with (K.begin_decompress_many inputs outputs) (K.end_decompress_many inputs)
          (decompress_many_impl inputs outputs) p.metrics_plugin outputs (clear_error p)

    -- `set_metrics`
    unfoldable pub set_metrics : Option M → Plugin M S → Plugin M S
    set_metrics none p = record p { metrics_plugin = none; metrics_id = [] }
    set_metrics (some m) p =
        let named =
          if text_eq p.name [] then m else K.set_name (p.name ++ (codes "/" ++ K.prefix m)) m in
        record p { metrics_plugin = some named; metrics_id = K.prefix m }

    -- `set_name`; without a metrics plugin the call is through a null pointer.
    unfoldable pub set_name : Text → Plugin M S → Option (Plugin M S)
    set_name name p = elim p.metrics_plugin [
      | none ↦ none
      | some m ↦
          let named =
            if text_eq name []
            then K.set_name name m
            else K.set_name (name ++ (codes "/" ++ K.prefix m)) m in
          some (record p {
            name = name;
            state = C.set_name_impl name p.state;
            metrics_plugin = some named;
          })
    ]

    -- `set_metrics_options`; through a null pointer as well.
    unfoldable pub set_metrics_options : Opts → Plugin M S → Option (Plugin M S × ℤ)
    unfolding clear_error
    set_metrics_options options p = elim p.metrics_plugin [
      | none ↦ none
      | some m ↦
          let (m', code) = K.set_options options m in
          some (record (clear_error p) { metrics_plugin = some m' }, code)
    ]

    -- `get_metrics_results`, with the empty options and `copy_from` of pressio_options.
    unfoldable pub get_metrics_results :
        Opts → (Opts → Opts → Opts) → Plugin M S → Plugin M S × Opts
    get_metrics_results empty copy_from p =
        let impl = C.get_metrics_results_impl p.state in
        let results = if p.metrics_copy_impl_results then copy_from impl empty else empty in
        elim p.metrics_plugin [
          | none ↦ (p, results)
          | some m ↦
              let (m', found) = K.get_metrics_results impl m in
              (record p { metrics_plugin = some m' }, copy_from found results)
        ]
