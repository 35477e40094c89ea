-- ===== src/Token/Associated/Laws.antt =====
-- Associated data is not dropped silently.
use enkit.Common.{
  Bool, true, false, ◌||◌, Bool-cases, ◌≡◌, ◌∙◌, ◌⊎◌, inl, inr, refl, ap, sym, arith, Option, none,
  some,
}
use enkit.Common.Results.{Result, ok, err}
use enkit.Token.{Bytes, Context, TokenError, unsupported, Decoded}
use enkit.Token.Associated.{
  Encoder, Encoders, plain_encoder, binding_encoder, chained, end, link, is_empty, is_binding,
  supports, any_supports, unless_failed, link_encode, encode_loop, link_decode,
}

module _ {ℓ} {W : Type ℓ} where
  unless_failed-ok :
      (m : W × Result TokenError Bytes) (rest : Bytes → W → W × Result TokenError Bytes)
      (out : Bytes) (w' : W)
      → unless_failed m rest ≡ (w', ok out)
      → (content : Bytes) × (w : W) × (m ≡ (w, ok content)) × (rest content w ≡ (w', ok out))
  unfolding unless_failed
  unless_failed-ok (w, err x) rest out w' h =
      let c : err x ≡ ok out = ap (λ (r : W × Result TokenError Bytes). r.1) h in cc
  unless_failed-ok (w, ok content) rest out w' h = (content, w, refl, h)

  used_at_end :
      (used : Bool) (content out aad : Bytes) (w w' : W)
      → encode_loop end used content aad w ≡ (w', ok out)
      → used ≡ true
  unfolding encode_loop
  used_at_end true content out aad w w' h = refl
  used_at_end false content out aad w w' h =
      let c : err unsupported ≡ ok out = ap (λ (r : W × Result TokenError Bytes). r.1) h in cc

mutual
  unfolding supports link_encode encode_loop is_binding

  link_encode-supports {ℓ} :
      {W : Type ℓ} (e : Encoder W) (content aad out : Bytes) (w w' : W)
      → is_empty aad ≡ false
      → is_binding e ≡ true
      → link_encode e content aad w ≡ (w', ok out)
      → supports e ≡ true
  link_encode-supports (plain_encoder be) content aad out w w' n b h = cc
  link_encode-supports (binding_encoder a) content aad out w w' n b h = refl
  link_encode-supports (chained es) content aad out w w' n b h =
      elim (encode_loop-supports es (is_empty aad) content aad out w w' n h) [
        | inl t ↦ cc
        | inr s ↦ s
      ]

  encode_loop-supports {ℓ} :
      {W : Type ℓ} (es : Encoders W) (used : Bool) (content aad out : Bytes) (w w' : W)
      → is_empty aad ≡ false
      → encode_loop es used content aad w ≡ (w', ok out)
      → (used ≡ true) ⊎ (any_supports es ≡ true)
  encode_loop-supports end used content aad out w w' n h =
      inl (used_at_end used content out aad w w' h)
  encode_loop-supports (link e es) used content aad out w w' n h =
      let (content', w1, here, there) =
        unless_failed-ok (link_encode e content aad w)
          (λ content' w'. encode_loop es (used || is_binding e) content' aad w') out w' h in
      elim (Bool-cases (is_binding e)) [
        | inl b ↦
            (let s = link_encode-supports e content aad content' w w1 n b here in inr (rw s refl))
        | inr b ↦
            elim (encode_loop-supports es (used || is_binding e) content' aad out w1 w' n there) [
              | inl t ↦ inl (ground (arith, t, b))
              | inr s ↦ inr (ground (arith, s))
            ]
      ]

module _ {ℓ} {W : Type ℓ} where
  decode-supports :
      (es : Encoders W) (content aad : Bytes) (out : Option Bytes) (wd : W) (ctx ctx' : Context)
      → is_empty aad ≡ false
      → link_decode (chained es) wd aad ctx content ≡ (ctx', out, none)
      → any_supports es ≡ true
  unfolding link_decode
  decode-supports es content aad out wd ctx ctx' n h = elim (Bool-cases (any_supports es)) [
    | inl s ↦ s
    | inr s ↦
        (let o : (link_decode (chained es) wd aad ctx content).2 ≡ some unsupported =
            rw (n, s, link_decode) refl in
          let c : some unsupported ≡ none = sym o ∙ ap (λ (r : Decoded). r.2) h in cc)
  ]

  -- When a chain encodes with associated data that is not empty, or decodes with it without an error,
  -- the chain has an encoder, in itself or in a chain within it, that binds associated data.
  pub chained-supports :
      (es : Encoders W) (content aad encoded : Bytes) (out : Option Bytes) (w w' wd : W)
      (ctx ctx' : Context)
      → is_empty aad ≡ false
      → (link_encode (chained es) content aad w ≡ (w', ok encoded))
        ⊎ (link_decode (chained es) wd aad ctx content ≡ (ctx', out, none))
      → supports (chained es) ≡ true
  unfolding is_binding supports
  chained-supports es content aad encoded out w w' wd ctx ctx' n (inl h) =
      link_encode-supports (chained es) content aad encoded w w' n refl h
  chained-supports es content aad encoded out w w' wd ctx ctx' n (inr h) =
      decode-supports es content aad out wd ctx ctx' n h
