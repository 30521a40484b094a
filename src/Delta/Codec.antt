-- ===== src/Delta/Codec.antt =====
-- delta_encoder and delta_decoder (src/plugins/compressors/delta_encoding.cc, lines 9 to 40). The
-- arithmetic of the element type is a parameter. An access outside a buffer is `none`.
use libpressio.Base.{List, Option, [], ap, arith, length, none, refl, some, ◌<◌, ◌↔◌, ◌∷◌, ◌≡◌}

module _ {ℓ} {T : Type ℓ} (add sub : T → T → T) where
  -- The loop of the encoder, from the element `last` on.
  unfoldable pub differences : T → List T → List T
  differences last [] = []
  differences last (x ∷ xs) = sub x last ∷ differences x xs

  unfoldable pub encode : List T → Option (List T)
  unfolding differences
  encode [] = none
  encode (x ∷ xs) = some (x ∷ differences x xs)

  -- The loop of the decoder, from the output `last` on.
  unfoldable pub sums : T → List T → List T
  sums last [] = []
  sums last (d ∷ ds) = add d last ∷ sums (add d last) ds

  unfoldable pub decode : List T → Option (List T)
  unfolding sums
  decode [] = none
  decode (x ∷ []) = none
  decode (x ∷ d ∷ ds) = some (x ∷ add x d ∷ sums (add x d) ds)

  sums-differences :
      ((x y : T) → add (sub x y) y ≡ x)
      → (last : T) (xs : List T) → sums last (differences last xs) ≡ xs
  unfolding sums differences
  sums-differences cancel last [] = refl
  sums-differences cancel last (z ∷ zs) =
      rw (cancel z last) (ap (λ t. z ∷ t) (sums-differences cancel z zs))

  -- Decoding what the encoder makes of at least two elements gives them back, when adding undoes
  -- subtracting on either side.
  pub decode-encode :
      (cancel_right : (x y : T) → add (sub x y) y ≡ x)
      (cancel_left : (x y : T) → add y (sub x y) ≡ x) (x y : T) (rest : List T)
      → (code : List T) × (encode (x ∷ y ∷ rest) ≡ some code) × (decode code ≡ some (x ∷ y ∷ rest))
  unfolding encode decode differences
  decode-encode cancel_right cancel_left x y rest = (
    x ∷ sub y x ∷ differences y rest,
    refl,
    rw (cancel_left y x) (ap (λ t. some (x ∷ y ∷ t)) (sums-differences cancel_right y rest)),
  )

  -- The decoder leaves its buffers exactly when they have fewer than two elements.
  pub decode-out_of_bounds : (xs : List T) → (decode xs ≡ none) ↔ (length xs < 2)
  unfolding decode
  decode-out_of_bounds [] = ground arith
  decode-out_of_bounds (x ∷ []) = ground arith
  decode-out_of_bounds (x ∷ d ∷ ds) = ground arith
