-- ===== src/Pipeline/Errors.antt =====
-- What a pipeline returns, by the first of its stages that fails: src/plugins/compressors/pipeline.cc.
use libpressio.Base.{
  All, Bool-cases, List, Option, Option-cases, [], ap, arith, codes, false, get_elem?, inl, inr,
  length, none, refl, some, subst, suc, sym, true, zero, ℕ, ◌++◌, ◌<◌, ◌^◌, ◌∙◌, ◌∷◌, ◌≡◌, ◌≤◌, ◌⊎◌,
}
use libpressio.Base.Int.{ℤ, pos, negsuc}
use libpressio.Compressor.Base.{MetricsClass, set_error, view_segment}
use libpressio.Dtype.{Dtype}
use libpressio.PressioOption.Decimal.{to_string}
use libpressio.Pipeline.Header.{Shape}
use libpressio.Pipeline.HeaderTrip.{ShapeFits}
use libpressio.Pipeline.Output.{output_size}
use libpressio.Pipeline.Compress.{
  Bytes, Stages, Pipeline, Looped, failed, finished, add_stage, positive, report, compress_stages,
  compress_impl, finish, add_header,
}
use libpressio.Pipeline.Decompress.{
  decompress_impl, decompress_stages, finish_decompress, put_elem, owning,
}
use libpressio.Pipeline.Chain.{report-state, decompress_stages-step}
use libpressio.Pipeline.RoundTrip.{written, decompress_impl-written, payload-whole}

module _ {M S Opts : Type 0} (K : MetricsClass M Bytes Opts) (P : Stages S) where
  -- `s` is the first stage to return a positive code, after its run, and the code is `ec`. Each stage
  -- gets the buffer that the one before it gave, and writes into the buffer that that one was given.
  abbrev pub FailsAt : List S → Bytes → Bytes → S → ℤ → Type 0
  FailsAt [] x out s ec = ⊥
  FailsAt (stage ∷ stages) x out s ec =
      let ran = P.compress x out stage in
      ((positive ran.2 ≡ true) × (s ≡ ran.0) × (ec ≡ ran.2))
      ⊎ ((positive ran.2 ≡ false) × FailsAt stages ran.1 x s ec)

  -- No stage returns a positive code; the last gives `y`, and the shapes are those of the buffers that
  -- the stages were given.
  abbrev pub Passes : List S → Bytes → Bytes → Bytes → List Shape → Type 0
  Passes [] x out y shapes = (y ≡ x) × (shapes ≡ [])
  Passes (stage ∷ stages) x out y [] = ⊥
  Passes (stage ∷ stages) x out y (shape ∷ shapes) =
      let ran = P.compress x out stage in
      (positive ran.2 ≡ false) × (shape ≡ (x.dtype, x.dims)) × Passes stages ran.1 x y shapes

  -- The object holds the error of the stage `s` that returned `ec`.
  abbrev pub Holds : S → ℤ → Pipeline K P → Type 0
  Holds s ec self = (self.error_code ≡ ec) × (self.error_msg ≡ P.error_msg s)

  report-Holds :
      (ec : ℤ) (stage : S) (self : Pipeline K P)
      → positive ec ≡ true
      → Holds stage ec (report K P ec stage self)
  unfolding report set_error
  report-Holds (pos n) stage self h = rw h (refl, refl)
  report-Holds (negsuc n) stage self h = (refl, refl)

  get_elem?-below {ℓ} :
      {A : Type ℓ} (xs : List A) (i : ℕ) → i < length xs → (x : A) × (get_elem? xs i ≡ some x)
  get_elem?-below [] i h = ground arith
  get_elem?-below (x ∷ xs) zero h = (x, refl)
  get_elem?-below (x ∷ xs) (suc i) h = get_elem?-below xs i (omega (arith, h))

  get_elem?-put_elem {ℓ} :
      {A : Type ℓ} (xs : List A) (i j : ℕ) (a : A)
      → j < i
      → get_elem? (put_elem xs i a) j ≡ get_elem? xs j
  unfolding put_elem
  get_elem?-put_elem [] i j a h = refl
  get_elem?-put_elem (x ∷ xs) zero j a h = ground arith
  get_elem?-put_elem (x ∷ xs) (suc i) zero a h = refl
  get_elem?-put_elem (x ∷ xs) (suc i) (suc j) a h = get_elem?-put_elem xs i j a (omega (arith, h))

  abbrev LoopReports : List S → Bytes → Bytes → Looped K P → Type 0
  LoopReports stages x out (failed self left ec) =
      (s : S) × FailsAt stages x out s ec × Holds s ec self
  LoopReports stages x out (finished self left y shapes) = Passes stages x out y shapes

  add_stage-LoopReports :
      (stage : S) (stages : List S) (x out : Bytes) (l : Looped K P)
      → positive (P.compress x out stage).2 ≡ false
      → LoopReports stages (P.compress x out stage).1 x l
      → LoopReports
          (stage ∷ stages)
          x
          out
          (add_stage K P (P.compress x out stage).0 (x.dtype, x.dims) l)
  add_stage-LoopReports stage stages x out (failed self left ec) h (s, f, held) =
      (s, inr (h, f), held)
  add_stage-LoopReports stage stages x out (finished self left y shapes) h passes =
      (h, refl, passes)

  compress_stages-LoopReports :
      (idx : ℕ) (stages : List S) (x out : Bytes) (self : Pipeline K P)
      → LoopReports stages x out (compress_stages K P idx stages x out self)
  unfolding compress_stages
  compress_stages-LoopReports idx [] x out self = (refl, refl)
  compress_stages-LoopReports idx (stage ∷ stages) x out self =
      let ran = P.compress x out stage in
      let viewed = (view_segment K x (codes "stage-" ++ to_string (pos idx)) self).0 in
      elim (Bool-cases (positive ran.2)) [
        | inl e ↦ rw e (ran.0, inl (e, refl, refl), report-Holds ran.2 ran.0 viewed e)
        | inr e ↦ rw e (
            add_stage-LoopReports stage stages x out _ e (
              compress_stages-LoopReports (suc idx) stages ran.1 x (report K P ran.2 ran.0 viewed)))
      ]

  module _ (alloc : ℕ → List ℕ) where
    -- The first failing stage's code and error, and the output as it was; or, if no stage fails, the
    -- header and the bytes of the last, with the code 0, or an access outside that last buffer.
    abbrev pub Reports : List S → Bytes → Bytes → Option (Pipeline K P × Bytes × ℤ) → Type 0
    Reports stages x output result =
        let empty : Bytes = record { dtype = Dtype.byte; dims = []; elements = [] } in
        ((s : S) × (ec : ℤ) × (self : Pipeline K P) × FailsAt stages x empty s ec
          × Holds s ec self
          × (result ≡ some (self, output, ec)))
        ⊎ ((y : Bytes) × (shapes : List Shape) × (self : Pipeline K P) × Passes stages x empty y
              shapes
            × (((add_header alloc y shapes ≡ none) × (result ≡ none))
                ⊎ ((z : Bytes) × (add_header alloc y shapes ≡ some z)
                    × (result ≡ some (self, z, pos 0)))))

    finish-Reports :
        (stages : List S) (x output : Bytes) (l : Looped K P)
        → LoopReports stages x (record { dtype = Dtype.byte; dims = []; elements = [] }) l
        → Reports stages x output (finish K P alloc output l)
    unfolding finish
    finish-Reports stages x output (failed self left ec) (s, f, held) =
        inl (s, ec, record self { state = left }, f, held, refl)
    finish-Reports stages x output (finished self left y shapes) passes =
        elim (Option-cases (add_header alloc y shapes)) [
          | inl e ↦ rw e (inr (y, shapes, record self { state = left }, passes, inl (e, refl)))
          | inr (z, e) ↦
              rw e (inr (y, shapes, record self { state = left }, passes, inr (z, e, refl)))
        ]

    -- If a stage returns a positive code, each stage being given the buffer of the one before it, then
    -- `compress_impl` returns the code of the first that does, with the error set to that code and
    -- that stage's message, and the output as it was. Otherwise it returns 0, and the output is the
    -- header for the shapes of the stages' inputs before the bytes of the last stage's output, as
    -- `add_header` makes it, which may go outside a buffer. A negative code fails nothing.
    pub compress_impl-Reports :
        (self : Pipeline K P) (input output : Bytes)
        → Reports self.state input output (compress_impl K P alloc input output self)
    unfolding compress_impl
    compress_impl-Reports self input output =
        finish-Reports self.state input output _
          (compress_stages-LoopReports 0 self.state input _ self)

    -- The stages run from the one numbered `i - 1` down to 0, each on the buffer that the one before
    -- gave and into a new buffer of the shape in the header. `s` is the first to return a positive
    -- code, after its run, and the code is `ec`.
    abbrev pub FailsFrom : List Shape → List S → ℕ → Bytes → S → ℤ → Type 0
    FailsFrom shapes stages zero z s ec = ⊥
    FailsFrom shapes stages (suc i) z s ec =
        (shape : Shape) × (stage : S) × (get_elem? shapes i ≡ some shape)
        × (get_elem? stages i ≡ some stage)
        × (let ran = P.decompress z (owning K P alloc shape) stage in
            ((positive ran.2 ≡ true) × (s ≡ ran.0) × (ec ≡ ran.2))
            ⊎ ((positive ran.2 ≡ false) × FailsFrom shapes stages i ran.1 s ec))

    -- No stage of those returns a positive code, and the last gives `y`.
    abbrev pub PassesFrom : List Shape → List S → ℕ → Bytes → Bytes → Type 0
    PassesFrom shapes stages zero z y = y ≡ z
    PassesFrom shapes stages (suc i) z y =
        (shape : Shape) × (stage : S) × (get_elem? shapes i ≡ some shape)
        × (get_elem? stages i ≡ some stage)
        × (let ran = P.decompress z (owning K P alloc shape) stage in
            (positive ran.2 ≡ false) × PassesFrom shapes stages i ran.1 y)

    -- What a run of those stages that ends with `result` leaves: `left` is the output on a failure.
    abbrev pub Unwinds :
        List Shape
        → List S
        → ℕ
        → Bytes
        → (Bytes → Bytes)
        → Option (Pipeline K P × Bytes × ℤ)
        → Type 0
    Unwinds shapes stages i z left result =
        ((s : S) × (ec : ℤ) × (self : Pipeline K P) × (out : Bytes) × FailsFrom shapes stages i z s
            ec
          × (positive ec ≡ true)
          × Holds s ec self
          × (result ≡ some (self, left out, ec)))
        ⊎ ((y : Bytes) × (self : Pipeline K P) × PassesFrom shapes stages i z y
            × (result ≡ some (self, y, pos 0)))

    -- One round of the loop, of a stage that fails.
    decompress_stages-fails :
        (i : ℕ) (outputs : List Shape) (shape : Shape) (stage : S) (z : Bytes) (self : Pipeline K P)
        → get_elem? outputs i ≡ some shape
        → get_elem? self.state i ≡ some stage
        → positive (P.decompress z (owning K P alloc shape) stage).2 ≡ true
        → let ran = P.decompress z (owning K P alloc shape) stage in
          decompress_stages K P alloc (suc i) outputs z self
          ≡ some (
            report K P ran.2 ran.0 (record self { state = put_elem self.state i ran.0 }),
            ran.1,
            ran.2,
          )
    unfolding decompress_stages
    decompress_stages-fails i outputs shape stage z self e f g = rw (e, f, g) refl

    -- One stage that does not fail, before the others.
    Unwinds-step :
        (shapes : List Shape) (stages : List S) (i : ℕ) (z : Bytes) (shape : Shape) (stage : S)
        (result : Option (Pipeline K P × Bytes × ℤ))
        → get_elem? shapes i ≡ some shape
        → get_elem? stages i ≡ some stage
        → positive (P.decompress z (owning K P alloc shape) stage).2 ≡ false
        → Unwinds shapes stages i
            (P.decompress z (owning K P alloc shape) stage).1
            (λ out. out)
            result
        → Unwinds shapes stages (suc i) z (λ out. out) result
    Unwinds-step shapes stages i z shape stage result e f g
          (inl (s, ec, self, out, fails, p, held, r)) =
        inl (s, ec, self, out, (shape, stage, e, f, inr (g, fails)), p, held, r)
    Unwinds-step shapes stages i z shape stage result e f g (inr (y, self, passes, r)) =
        inr (y, self, (shape, stage, e, f, (g, passes)), r)

    decompress_stages-Unwinds :
        (shapes : List Shape) (stages : List S) (i : ℕ) (z : Bytes) (self : Pipeline K P)
        → i ≤ length shapes
        → i ≤ length stages
        → ((j : ℕ) → j < i → get_elem? self.state j ≡ get_elem? stages j)
        → Unwinds shapes stages i z (λ out. out) (decompress_stages K P alloc i shapes z self)
    unfolding decompress_stages
    decompress_stages-Unwinds shapes stages zero z self few fewer same = inr (z, self, refl, refl)
    decompress_stages-Unwinds shapes stages (suc i) z self few fewer same =
        let (shape, e) = get_elem?-below shapes i (omega (arith, few)) in
        let (stage, f) = get_elem?-below stages i (omega (arith, fewer)) in
        let here : get_elem? self.state i ≡ some stage = same i (omega arith) ∙ f in
        let ran = P.decompress z (owning K P alloc shape) stage in
        let next : Pipeline K P = record self { state = put_elem self.state i ran.0 } in
        let reported = report K P ran.2 ran.0 next in
        let at = Unwinds shapes stages (suc i) z (λ out. out) in
        elim (Bool-cases (positive ran.2)) [
          | inl g ↦ subst at (sym (decompress_stages-fails i shapes shape stage z self e here g)) (
              inl (
                ran.0,
                ran.2,
                reported,
                ran.1,
                (shape, stage, e, f, inl (g, refl, refl)),
                g,
                report-Holds ran.2 ran.0 next g,
                refl,
              ))
          | inr g ↦
              subst at (sym (decompress_stages-step P K alloc i shapes shape stage z self e here g))
                (Unwinds-step shapes stages i z shape stage _ e f g (
                  decompress_stages-Unwinds shapes stages i ran.1 reported (omega (arith, few))
                    (omega (arith, fewer))
                    (λ j below.
                      ap (λ t. get_elem? t j) (report-state P K ran.2 ran.0 next)
                      ∙ get_elem?-put_elem self.state i j ran.0 below
                      ∙ same j (omega (arith, below)))))
        ]

    finish-Unwinds :
        (shapes : List Shape) (stages : List S) (i : ℕ) (z output : Bytes)
        (result : Option (Pipeline K P × Bytes × ℤ))
        → Unwinds shapes stages i z (λ out. out) result
        → Unwinds shapes stages i z (λ out. output) (finish_decompress K P alloc output result)
    unfolding finish_decompress
    finish-Unwinds shapes stages i z output result (inl (s, ec, self, out, fails, p, held, r)) =
        rw (r, p) (inl (s, ec, self, out, fails, p, held, refl))
    finish-Unwinds shapes stages i z output result (inr (y, self, passes, r)) =
        rw r (inr (y, self, passes, refl))

    -- For an input that is a header, of as many shapes as there are stages or fewer, before the bytes
    -- `out`: if a stage of those returns a positive code, the last stage being given those bytes and
    -- each other the buffer of the one after it, then `decompress_impl` returns the code of the first
    -- in that order that does, with the error set to that code and that stage's message, and the
    -- output as it was. Otherwise it returns 0, and the output is what the stage numbered 0 gives.
    -- The shapes must fit the words of a header, and the input must be smaller than 2 ^ 64 bytes;
    -- malloc returns as many bytes as asked.
    pub decompress_impl-Unwinds :
        ((n : ℕ) → length (alloc n) ≡ n)
        → (self : Pipeline K P) (out output : Bytes) (shapes : List Shape)
        → output_size out shapes < 2 ^ 64
        → length shapes < 2 ^ 63
        → All ShapeFits shapes
        → length shapes ≤ length self.state
        → Unwinds shapes self.state
            (length shapes)
            (record {
              dtype = Dtype.byte;
              dims = length out.elements ∷ [];
              elements = out.elements;
            })
            (λ left. output)
            (decompress_impl K P alloc (written out shapes) output self)
    decompress_impl-Unwinds whole self out output shapes small few fits enough =
        rw
          (
            decompress_impl-written K P alloc whole out output shapes self small few fits,
            payload-whole K P alloc whole out shapes small,
          )
          (finish-Unwinds shapes self.state (length shapes) _ output _ (
            decompress_stages-Unwinds shapes self.state (length shapes) _ self (omega arith) enough
              (λ j below. refl)))
