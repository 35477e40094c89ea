-- ===== src/Token/Chain/Laws.antt =====
-- A chain of encoders is one, and reports the failure of any of them.
use enkit.Common.{
  ◌≡◌, ◌∙◌, ◌++◌, ◌↔◌, refl, ap, sym, List, [], ◌∷◌, Option, none, some, Option-cases, inl, inr,
}
use enkit.Common.Results.{Result, Result-cases, ok, err}
use enkit.Token.{Bytes, Context, TokenError, Decoded, BinaryEncoder, IsEncoder, Gives}
use enkit.Token.Chain.{bytes, keep_first, chain_encode, chain_loop, chain_decode, chained_encoder}
use mathlib.Core.List.{reverse, reverse-cons, append_assoc, append-nil}
use mathlib.Core.Path.{subst}

module _ {ℓ} {W : Type ℓ} where
  abbrev pub AreEncoders {κ} : (ready : W → W → Type κ) → List (BinaryEncoder W) → Type (ℓ ⊔ κ)
  AreEncoders ready [] = Unit
  AreEncoders ready (enc ∷ encs) = IsEncoder ready enc × AreEncoders ready encs

  chain_encode-ok :
      (enc : BinaryEncoder W) (encs : List (BinaryEncoder W)) (d e : Bytes) (w w' : W)
      → chain_encode (enc ∷ encs) d w ≡ (w', ok e)
      → (d1 : Bytes) × (w1 : W) × (enc.encode d w ≡ (w1, ok d1))
        × (chain_encode encs d1 w1 ≡ (w', ok e))
  unfolding chain_encode
  chain_encode-ok enc encs d e w w' h = elim (Result-cases ((enc.encode d w).1)) [
    | inl (d1, e1) ↦
        (let o : chain_encode (enc ∷ encs) d w ≡ chain_encode encs d1 ((enc.encode d w).0) =
            rw (e1, chain_encode) refl in
          (d1, (enc.encode d w).0, ap (λ x. ((enc.encode d w).0, x)) e1, sym o ∙ h))
    | inr (e', e1) ↦
        (let o : chain_encode (enc ∷ encs) d w ≡ ((enc.encode d w).0, err e') =
            rw (e1, chain_encode) refl in
          let c : err e' ≡ ok e = ap (λ (x : W × Result TokenError Bytes). x.1) (sym o ∙ h) in cc)
  ]

  step :
      (enc : BinaryEncoder W) (ys : List (BinaryEncoder W)) (wd : W) (ctx ctx' : Context)
      (e d : Bytes)
      → enc.decode wd ctx e ≡ (ctx', some d, none)
      → chain_loop (enc ∷ ys) wd ctx (some e) none ≡ chain_loop ys wd ctx' (some d) none
  unfolding chain_loop bytes
  step enc ys wd ctx ctx' e d h =
      let n : (enc.decode wd ctx e).2 ≡ none = ap (λ (r : Decoded). r.2) h in
      rw (n, chain_loop) (ap (λ (r : Decoded). chain_loop ys wd r.0 r.1 none) h)

  chain_loop-Gives {κ} :
      (ready : W → W → Type κ) (encs ys : List (BinaryEncoder W)) (d e : Bytes) (w w' wd : W)
      (ctx : Context)
      → AreEncoders ready encs
      → chain_encode encs d w ≡ (w', ok e)
      → ready w wd
      → (ctx' : Context) × (chain_loop (reverse encs ++ ys) wd ctx (some e) none
          ≡ chain_loop ys wd ctx' (some d) none)
  unfolding chain_encode chain_loop
  chain_loop-Gives ready [] ys d e w w' wd ctx all h r =
      let x : ok d ≡ ok e = ap (λ (p : W × Result TokenError Bytes). p.1) h in
      let y : d ≡ e = cc in (ctx, ap (λ z. chain_loop ys wd ctx (some z) none) (sym y))
  chain_loop-Gives ready (enc ∷ encs) ys d e w w' wd ctx (first, all) h r =
      let (d1, w1, here, there) = chain_encode-ok enc encs d e w w' h in
      let (ctx1, later) =
        chain_loop-Gives ready encs (enc ∷ ys) d1 e w1 w' wd ctx all there
          (first.ready-encode d d1 w w1 wd here r) in
      let (ctx2, now) = first.decode-encode d d1 w w1 wd here r ctx1 in
      (
        ctx2,
        ap (λ l. chain_loop l wd ctx (some e) none)
              (ap (λ l. l ++ ys) (reverse-cons enc encs)
                ∙ append_assoc (reverse encs) (enc ∷ []) ys)
            ∙ later
            ∙ step enc ys wd ctx1 ctx2 d1 d now,
      )

  -- Every encoder, from the last one, decodes what the one before it gave, without an error.
  abbrev pub Passed :
      List (BinaryEncoder W) → W → Context → Option Bytes → Context → Option Bytes → Type 0
  Passed [] wd ctx content ctx' out = ◌≡◌ {A = Context × Option Bytes} (ctx, content) (ctx', out)
  Passed (enc ∷ encs) wd ctx content ctx' out =
      let r = enc.decode wd ctx (bytes content) in (r.2 ≡ none) × Passed encs wd r.0 r.1 ctx' out

  chain_loop-failed :
      (encs : List (BinaryEncoder W)) (wd : W) (ctx : Context) (content : Option Bytes)
      (first : TokenError)
      → (chain_loop encs wd ctx content (some first)).2 ≡ some first
  unfolding chain_loop keep_first
  chain_loop-failed [] wd ctx content first = refl
  chain_loop-failed (enc ∷ encs) wd ctx content first =
      elim (Option-cases ((enc.decode wd ctx (bytes content)).2)) [
        | inl e ↦ rw (e, chain_loop) (chain_loop-failed encs wd _ _ first)
        | inr (e', e) ↦ elim (Option-cases ((enc.decode wd ctx (bytes content)).1)) [
          | inl n ↦ rw (e, n, chain_loop) refl
          | inr (d, n) ↦ rw (e, n, chain_loop) (chain_loop-failed encs wd _ (some d) first)
        ]
      ]

  loop_none :
      (enc : BinaryEncoder W) (encs : List (BinaryEncoder W)) (wd : W) (ctx : Context)
      (content : Option Bytes)
      → (enc.decode wd ctx (bytes content)).2 ≡ none
      → chain_loop (enc ∷ encs) wd ctx content none
        ≡ chain_loop encs wd
            ((enc.decode wd ctx (bytes content)).0)
            ((enc.decode wd ctx (bytes content)).1)
            none
  unfolding chain_loop
  loop_none enc encs wd ctx content e = rw (e, chain_loop) refl

  loop_some :
      (enc : BinaryEncoder W) (encs : List (BinaryEncoder W)) (wd : W) (ctx : Context)
      (content : Option Bytes) (first : TokenError)
      → (enc.decode wd ctx (bytes content)).2 ≡ some first
      → (chain_loop (enc ∷ encs) wd ctx content none).2 ≡ some first
  unfolding chain_loop keep_first
  loop_some enc encs wd ctx content first e =
      elim (Option-cases ((enc.decode wd ctx (bytes content)).1)) [
        | inl n ↦ rw (e, n, chain_loop) refl
        | inr (d, n) ↦ rw (e, n, chain_loop) (chain_loop-failed encs wd _ (some d) first)
      ]

  chain_loop-Passed :
      (encs : List (BinaryEncoder W)) (wd : W) (ctx ctx' : Context) (content out : Option Bytes)
      → (chain_loop encs wd ctx content none ≡ (ctx', out, none))
        ↔ Passed encs wd ctx content ctx' out
  unfolding chain_loop keep_first
  chain_loop-Passed [] wd ctx ctx' content out = (
    λ h. ap (λ (r : Decoded). (r.0, r.1)) h,
    λ h. ap (λ (p : Context × Option Bytes). (p.0, p.1, none)) h,
  )
  chain_loop-Passed (enc ∷ encs) wd ctx ctx' content out = (
    λ h. elim (Option-cases ((enc.decode wd ctx (bytes content)).2)) [
      | inl e ↦ (
        e,
        (chain_loop-Passed encs wd _ ctx' _ out).0 (sym (loop_none enc encs wd ctx content e) ∙ h),
      )
      | inr (first, e) ↦
          (let c : some first ≡ none =
              sym (loop_some enc encs wd ctx content first e) ∙ ap (λ (r : Decoded). r.2) h in
            cc)
    ],
    λ h. loop_none enc encs wd ctx content h.0 ∙ (chain_loop-Passed encs wd _ ctx' _ out).1 h.1,
  )

  -- A chain decodes without an error just if every encoder of it does, from the last one to the first,
  -- each with what the one before it gave.
  pub chain_decode-Passed :
      (encs : List (BinaryEncoder W)) (wd : W) (ctx ctx' : Context) (e : Bytes) (out : Option Bytes)
      → (chain_decode encs wd ctx e ≡ (ctx', out, none))
        ↔ Passed (reverse encs) wd ctx (some e) ctx' out
  unfolding chain_decode
  chain_decode-Passed encs wd ctx ctx' e out =
      chain_loop-Passed (reverse encs) wd ctx ctx' (some e) out

  chain-Gives {κ} :
      (ready : W → W → Type κ) (encs : List (BinaryEncoder W)) (d e : Bytes) (w w' wd : W)
      → AreEncoders ready encs
      → chain_encode encs d w ≡ (w', ok e)
      → ready w wd
      → Gives (chained_encoder encs) wd e d
  unfolding chain_decode chain_loop
  chain-Gives ready encs d e w w' wd all h r ctx =
      let (ctx', p) = chain_loop-Gives ready encs [] d e w w' wd ctx all h r in
      (ctx', ap (λ l. chain_loop l wd ctx (some e) none) (sym (append-nil (reverse encs))) ∙ p)

  chain-ready {κ} :
      (ready : W → W → Type κ) (encs : List (BinaryEncoder W)) (d e : Bytes) (w w' wd : W)
      → AreEncoders ready encs
      → chain_encode encs d w ≡ (w', ok e)
      → ready w wd
      → ready w' wd
  unfolding chain_encode
  chain-ready ready [] d e w w' wd all h r =
      subst (λ x. ready x wd) (ap (λ (p : W × Result TokenError Bytes). p.0) h) r
  chain-ready ready (enc ∷ encs) d e w w' wd (first, all) h r =
      let (d1, w1, here, there) = chain_encode-ok enc encs d e w w' h in
      chain-ready ready encs d1 e w1 w' wd all there (first.ready-encode d d1 w w1 wd here r)

  -- A chain of encoders is one: what all of them encoded, one after the other, is decoded in every
  -- world that is ready for each of them.
  pub chained_encoder-IsEncoder {κ} :
      (ready : W → W → Type κ) (encs : List (BinaryEncoder W))
      → AreEncoders ready encs
      → IsEncoder ready (chained_encoder encs)
  chained_encoder-IsEncoder ready encs all = record {
    decode-encode = λ d e w w' wd h r. chain-Gives ready encs d e w w' wd all h r;
    ready-encode = λ d e w w' wd h r. chain-ready ready encs d e w w' wd all h r;
  }
