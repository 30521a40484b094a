-- ===== src/Pipeline/Chain.antt =====
-- A run of lossless stages and its undoing, stage by stage from the last.
use libpressio.Base.{
  All, Bool-cases, List, [], ap, arith, codes, false, get_elem?, inl, inr, length, length-append,
  refl, some, subst, suc, sym, ℕ, ◌++◌, ◌∙◌, ◌∷◌, ◌≡◌,
}
use mathlib.Core.List.{append-nil, append_assoc}
use libpressio.Base.Int.{ℤ, pos}
use libpressio.Compressor.Base.{MetricsClass, nonzero, set_error, view_segment}
use libpressio.PressioOption.Decimal.{to_string}
use libpressio.Pipeline.Header.{Shape}
use libpressio.Pipeline.HeaderTrip.{ShapeFits}
use libpressio.Pipeline.Output.{IsFull}
use libpressio.Pipeline.Compress.{
  Bytes, Stages, Pipeline, report, positive, compress_stages, finished,
}
use libpressio.Pipeline.Decompress.{decompress_stages, put_elem, owning}

-- A full buffer whose shape a header can carry.
abbrev pub IsHandled : Bytes → Type 0
IsHandled x = IsFull x × ShapeFits (x.dtype, x.dims)

-- What is known of the buffer `w` that the stages give back for `x`: it is `x`, or if there is none it
-- has the bytes of `x`.
abbrev pub IsBack {ℓ} : {S : Type ℓ} → List S → Bytes → Bytes → Type 0
IsBack [] x w = w.elements ≡ x.elements
IsBack (stage ∷ stages) x w = w ≡ x

IsBack-elements {ℓ} :
    {S : Type ℓ} (stages : List S) (x w : Bytes) → IsBack stages x w → w.elements ≡ x.elements
IsBack-elements [] x w b = b
IsBack-elements (stage ∷ stages) x w b = ap (λ (z : Bytes). z.elements) b

pub IsBack-length {ℓ} :
    {S : Type ℓ} (a b : List S) (x w : Bytes) → length a ≡ length b → IsBack a x w → IsBack b x w
IsBack-length [] [] x w h c = c
IsBack-length [] (s ∷ b) x w h c = ground arith
IsBack-length (s ∷ a) [] x w h c = ground arith
IsBack-length (s ∷ a) (t ∷ b) x w h c = c

module _ {S : Type 0} (P : Stages S) where
  -- A stage gives `x` back for any buffer with the bytes of `y`, into any buffer of the shape of
  -- `x`, without an error.
  abbrev pub Undoes : S → Bytes → Bytes → Type 0
  Undoes stage x y =
      (input output : Bytes)
      → input.elements ≡ y.elements
      → output.dtype ≡ x.dtype
      → output.dims ≡ x.dims
      → ((P.decompress input output stage).1 ≡ x)
        × (positive (P.decompress input output stage).2 ≡ false)

  -- A stage compresses every buffer without an error, into one whose bytes it undoes.
  abbrev pub Lossless : S → Type 0
  Lossless stage =
      (x output : Bytes)
      → IsHandled x
      → (positive (P.compress x output stage).2 ≡ false)
        × IsHandled (P.compress x output stage).1
        × Undoes (P.compress x output stage).0 x (P.compress x output stage).1

  -- The stages lead from `x` over the buffers whose shapes are listed to `y`.
  pub Chain : Bytes → List S → List Shape → Bytes → Type 0
  Chain x [] [] y = x ≡ y
  Chain x (stage ∷ stages) (shape ∷ shapes) y =
      (shape ≡ (x.dtype, x.dims)) × (mid : Bytes) × Undoes stage x mid × Chain mid stages shapes y
  Chain x _ _ y = ⊥

  module _ {M Opts : Type 0} (K : MetricsClass M Bytes Opts) where
    -- The loop over lossless stages ends well, in a chain.
    pub compress_stages-Chain :
        (idx : ℕ) (stages : List S) (x output : Bytes) (self : Pipeline K P)
        → All Lossless stages
        → IsHandled x
        → (self' : Pipeline K P) × (stages' : List S) × (y : Bytes) × (shapes : List Shape)
          × (compress_stages K P idx stages x output self ≡ finished self' stages' y shapes)
          × Chain x stages' shapes y
          × IsHandled y
          × All ShapeFits shapes
          × (length stages' ≡ length stages)
          × (length shapes ≡ length stages)
    unfolding compress_stages Chain
    compress_stages-Chain idx [] x output self l h =
        (self, [], x, [], refl, refl, h, tt, refl, refl)
    compress_stages-Chain idx (stage ∷ stages) x output self l h =
        let ran = P.compress x output stage in
        let viewed = (view_segment K x (codes "stage-" ++ to_string (pos idx)) self).0 in
        let here = l.0 x output h in
        let (self', stages', y, shapes, e, chain, hy, fits, m, n) =
          compress_stages-Chain (suc idx) stages ran.1 x (report K P ran.2 ran.0 viewed) l.1
            here.1 in
        (
          self',
          ran.0 ∷ stages',
          y,
          (x.dtype, x.dims) ∷ shapes,
          rw (here.0, e) refl,
          (refl, ran.1, here.2, chain),
          hy,
          (h.1, fits),
          ap suc m,
          ap suc n,
        )

    pub report-state :
        (ec : ℤ) (stage : S) (self : Pipeline K P) → (report K P ec stage self).state ≡ self.state
    unfolding report set_error
    report-state ec stage self = elim (Bool-cases (nonzero ec)) [
      | inl e ↦ rw e refl
      | inr e ↦ rw e refl
    ]

    module _ (alloc : ℕ → List ℕ) where
      -- One round of the loop, of a stage that gives no error.
      pub decompress_stages-step :
          (i : ℕ) (outputs : List Shape) (shape : Shape) (stage : S) (w : Bytes)
          (self : Pipeline K P)
          → get_elem? outputs i ≡ some shape
          → get_elem? self.state i ≡ some stage
          → positive (P.decompress w (owning K P alloc shape) stage).2 ≡ false
          → let ran = P.decompress w (owning K P alloc shape) stage in
            decompress_stages K P alloc (suc i) outputs w self
            ≡ decompress_stages K P alloc i outputs ran.1
                (report K P ran.2 ran.0 (record self { state = put_elem self.state i ran.0 }))
      unfolding decompress_stages
      decompress_stages-step i outputs shape stage w self e f g = rw (e, f, g) refl

      -- The run of the loop over the stages after `before` ends where that over `before` begins,
      -- with the buffer that those stages were given.
      unfoldable pub Unwound :
          List S → List S → Bytes → ℕ → List Shape → Bytes → Pipeline K P → Type 0
      Unwound before stages x i outputs z self =
          (self' : Pipeline K P) × (stages' : List S) × (w : Bytes) × (self'.state
            ≡ before ++ stages')
          × IsBack stages x w
          × (decompress_stages K P alloc i outputs z self
              ≡ decompress_stages K P alloc (length before) outputs w self')

      get-end {ℓ} :
          {A : Type ℓ} (xs : List A) (y : A) (ys : List A)
          → get_elem? (xs ++ (y ∷ ys)) (length xs) ≡ some y
      get-end [] y ys = refl
      get-end (x ∷ xs) y ys = get-end xs y ys

      put-end {ℓ} :
          {A : Type ℓ} (xs : List A) (y y' : A) (ys : List A)
          → put_elem (xs ++ (y ∷ ys)) (length xs) y' ≡ xs ++ (y' ∷ ys)
      unfolding put_elem
      put-end [] y y' ys = refl
      put-end (x ∷ xs) y y' ys = ap (λ t. x ∷ t) (put-end xs y y' ys)

      -- One more stage.
      unwind_stage :
          (before stages : List S) (x mid : Bytes) (i : ℕ) (heads shapes : List Shape) (stage : S)
          (z : Bytes) (self : Pipeline K P)
          → length before ≡ length heads
          → Undoes stage x mid
          → (rest : List S)
          → Unwound
              (before ++ (stage ∷ []))
              rest
              mid
              i
              (heads ++ ((x.dtype, x.dims) ∷ shapes))
              z
              self
          → Unwound before (stage ∷ stages) x i (heads ++ ((x.dtype, x.dims) ∷ shapes)) z self
      unfolding Unwound owning
      unwind_stage before stages x mid i heads shapes stage z self same undo rest
            (self', stages', w, s, b, e) =
          let outputs = heads ++ ((x.dtype, x.dims) ∷ shapes) in
          let target = owning K P alloc (x.dtype, x.dims) in
          let ran = P.decompress w target stage in
          let back = undo w target (IsBack-elements rest mid w b) refl refl in
          let here : self'.state ≡ before ++ (stage ∷ stages') =
            s ∙ append_assoc before (stage ∷ []) stages' in
          let put = put_elem self'.state (length before) ran.0 in
          let last : length (before ++ (stage ∷ [])) ≡ suc (length before) =
            omega (arith, length-append before (stage ∷ [])) in
          (
            report K P ran.2 ran.0 (record self' { state = put }),
            ran.0 ∷ stages',
            ran.1,
            report-state ran.2 ran.0 (record self' { state = put })
                ∙ ap (λ t. put_elem t (length before) ran.0) here
                ∙ put-end before stage ran.0 stages',
            back.0,
            e
                ∙ ap (λ n. decompress_stages K P alloc n outputs w self') last
                ∙ decompress_stages-step (length before) outputs (x.dtype, x.dims) stage w self'
                    (rw same (get-end heads (x.dtype, x.dims) shapes))
                    (rw here (get-end before stage stages')) back.1,
          )

      pub decompress_stages-Chain :
          (before stages : List S) (x y : Bytes) (heads shapes : List Shape) (z : Bytes)
          (self : Pipeline K P)
          → Chain x stages shapes y
          → length before ≡ length heads
          → z.elements ≡ y.elements
          → self.state ≡ before ++ stages
          → Unwound before stages x (length (before ++ stages)) (heads ++ shapes) z self
      unfolding Chain Unwound
      decompress_stages-Chain before [] x y heads [] z self c same e s = (
        self,
        [],
        z,
        s,
        e ∙ ap (λ (w : Bytes). w.elements) (sym c),
        ap (λ t. decompress_stages K P alloc (length t) (heads ++ []) z self) (append-nil before),
      )
      decompress_stages-Chain before [] x y heads (shape ∷ shapes) z self c same e s = elim c [ ]
      decompress_stages-Chain before (stage ∷ stages) x y heads [] z self c same e s = elim c [ ]
      decompress_stages-Chain before (stage ∷ stages) x y heads (shape ∷ shapes) z self c same e s =
          let (at, mid, undo, chain) = c in
          let rest =
            decompress_stages-Chain (before ++ (stage ∷ [])) stages mid y (heads ++ (shape ∷ []))
              shapes z self chain
              (omega
                (arith, same, length-append before (stage ∷ []), length-append heads (shape ∷ [])))
              e (s ∙ sym (append_assoc before (stage ∷ []) stages)) in
          let at_end = length (before ++ (stage ∷ stages)) in
          let over : ℕ → List Shape → Type 0 =
            λ i outputs. Unwound (before ++ (stage ∷ [])) stages mid i outputs z self in
          let counted =
            subst (λ l. over (length l) ((heads ++ (shape ∷ [])) ++ shapes))
              (append_assoc before (stage ∷ []) stages) rest in
          let listed = subst (over at_end) (append_assoc heads (shape ∷ []) shapes) counted in
          let shaped = subst (λ u. over at_end (heads ++ (u ∷ shapes))) at listed in
          rw at (
            unwind_stage before stages x mid at_end heads shapes stage z self same undo stages
              shaped)
