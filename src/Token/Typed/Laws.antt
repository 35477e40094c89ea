-- ===== src/Token/Typed/Laws.antt =====
-- Typed values, encoded and decoded.
use enkit.Common.{◌≡◌, ◌∙◌, refl, ap, sym, false, Bool-cases, inl, inr, Option, none, some}
use enkit.Common.Results.{Result, Result-cases, ok, err}
use enkit.Token.{Bytes, Context, TokenError, Decoded, BinaryEncoder, IsEncoder}
use enkit.Token.Chain.{keep_first}
use enkit.Token.Associated.{is_empty}
use enkit.Token.Typed.{
  Marshaller, Bound, encode_with_data, decode_with_data, type_encode, type_encode_with,
  finish_decode, type_decode, type_decode_with,
}

-- A marshaller gives back the values that it can write.
abbrev pub IsMarshaller {ℓ κ} : {A : Type ℓ} → (A → Type κ) → A → Marshaller A → Type (ℓ ⊔ κ)
IsMarshaller {A} writable zero_value ma =
    (a : A) (b : Bytes) → writable a → ma.marshal a ≡ ok b → ma.unmarshal b zero_value ≡ (a, none)

-- The encoders with and without associated data give back what they encoded.
pub record IsBound {ℓ κ} {W : Type ℓ} (ready : W → W → Type κ) (b : Bound W) : Type (ℓ ⊔ κ) where
  pub without : IsEncoder ready b.be
  pub decode-encode_with :
      (d aad e : Bytes) (w w' wd : W)
      → encode_with_data b d aad w ≡ (w', ok e)
      → is_empty aad ≡ false
      → ready w wd
      → (ctx : Context)
      → (ctx' : Context) × (decode_with_data b wd ctx e aad ≡ (ctx', some d, none))
  pub ready-encode_with :
      (d aad e : Bytes) (w w' wd : W)
      → encode_with_data b d aad w ≡ (w', ok e)
      → is_empty aad ≡ false
      → ready w wd
      → ready w' wd

module _ {ℓ κ ι} {W : Type ℓ} {A : Type κ} (ready : W → W → Type κ) (writable : A → Type ι)
    (zero_value : A) (ma : Marshaller A) (lossless : IsMarshaller writable zero_value ma) where
  marshalled :
      (a : A) (rest : Bytes → W → W × Result TokenError Bytes) (e : Bytes) (w w' : W)
      → (elim (ma.marshal a) as (λ x. W × Result TokenError Bytes) [
        | err x ↦ (w, err x)
        | ok b ↦ rest b w
      ])
        ≡ (w', ok e)
      → (b : Bytes) × (ma.marshal a ≡ ok b) × (rest b w ≡ (w', ok e))
  marshalled a rest e w w' h = elim (Result-cases (ma.marshal a)) [
    | inl (b, m) ↦ (
      b,
      m,
      sym (
            let x : (elim (ma.marshal a) as (λ x. W × Result TokenError Bytes) [
              | err x ↦ (w, err x)
              | ok b ↦ rest b w
            ])
                ≡ rest b w =
              rw m refl in
            x)
          ∙ h,
    )
    | inr (x, m) ↦
        (let y : (elim (ma.marshal a) as (λ x. W × Result TokenError Bytes) [
          | err x ↦ (w, err x)
          | ok b ↦ rest b w
        ])
              ≡ (w, err x) =
            rw m refl in
          let z : err x ≡ ok e = ap (λ (p : W × Result TokenError Bytes). p.1) (sym y ∙ h) in cc)
  ]

  pub type_encode-encode :
      (be : BinaryEncoder W) (a : A) (e : Bytes) (w w' : W)
      → type_encode ma be a w ≡ (w', ok e)
      → (b : Bytes) × (be.encode b w ≡ (w', ok e))
  unfolding type_encode
  type_encode-encode be a e w w' h =
      (let (b, m, x) = marshalled a (λ b w. be.encode b w) e w w' h in (b, x))

  pub type_encode_with-encode_with_data :
      (bd : Bound W) (a : A) (aad e : Bytes) (w w' : W)
      → type_encode_with ma bd a aad w ≡ (w', ok e)
      → (b : Bytes) × (encode_with_data bd b aad w ≡ (w', ok e))
  unfolding type_encode_with
  type_encode_with-encode_with_data bd a aad e w w' h =
      (let (b, m, x) = marshalled a (λ b w. encode_with_data bd b aad w) e w w' h in (b, x))

  finish_decode-some :
      (a : A) (b : Bytes) (ctx : Context) (out : Decoded)
      → writable a
      → ma.marshal a ≡ ok b
      → out ≡ (ctx, some b, none)
      → finish_decode ma out zero_value ≡ (ctx, a, none)
  unfolding finish_decode keep_first
  finish_decode-some a b ctx out can m h =
      ap (λ x. finish_decode ma x zero_value) h
      ∙ ap (λ (x : A × Option TokenError). (ctx, x.0, x.1)) (lossless a b can m)

  -- An encoder of typed values gives back the value, where the marshaller and the encoder do.
  pub type_decode-type_encode :
      (be : BinaryEncoder W) (a : A) (e : Bytes) (w w' wd : W) (ctx : Context)
      → IsEncoder ready be
      → writable a
      → type_encode ma be a w ≡ (w', ok e)
      → ready w wd
      → ((ctx' : Context) × (type_decode ma be wd ctx e zero_value ≡ (ctx', a, none))) × ready w' wd
  unfolding type_encode type_decode
  type_decode-type_encode be a e w w' wd ctx enc can h r =
      let (b, m, x) = marshalled a (λ b w. be.encode b w) e w w' h in
      let (ctx', d) = enc.decode-encode b e w w' wd x r ctx in
      (
        (ctx', finish_decode-some a b ctx' (be.decode wd ctx e) can m d),
        enc.ready-encode b e w w' wd x r,
      )

  -- Also with associated data, when it is decoded with the same data.
  pub type_decode_with-type_encode_with :
      (b : Bound W) (a : A) (aad e : Bytes) (w w' wd : W) (ctx : Context)
      → IsBound ready b
      → writable a
      → type_encode_with ma b a aad w ≡ (w', ok e)
      → ready w wd
      → ((ctx' : Context) × (type_decode_with ma b wd ctx e aad zero_value ≡ (ctx', a, none)))
        × ready w' wd
  unfolding type_encode_with type_decode_with encode_with_data decode_with_data
  type_decode_with-type_encode_with bd a aad e w w' wd ctx enc can h r =
      let (b, m, x) = marshalled a (λ b w. encode_with_data bd b aad w) e w w' h in
      elim (Bool-cases (is_empty aad)) [
        | inr k ↦
            (let (ctx', d) = enc.decode-encode_with b aad e w w' wd x k r ctx in
              (
                (ctx', finish_decode-some a b ctx' (decode_with_data bd wd ctx e aad) can m d),
                enc.ready-encode_with b aad e w w' wd x k r,
              ))
        | inl k ↦
            (let y : encode_with_data bd b aad w ≡ bd.be.encode b w =
                rw (k, encode_with_data) refl in
              let z : decode_with_data bd wd ctx e aad ≡ bd.be.decode wd ctx e =
                rw (k, decode_with_data) refl in
              let (ctx', d) = enc.without.decode-encode b e w w' wd (sym y ∙ x) r ctx in
              (
                (
                  ctx',
                  finish_decode-some a b ctx' (decode_with_data bd wd ctx e aad) can m (z ∙ d),
                ),
                enc.without.ready-encode b e w w' wd (sym y ∙ x) r,
              ))
      ]
