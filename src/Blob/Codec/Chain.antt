-- ===== src/Blob/Codec/Chain.antt =====
-- What a chain of codecs gives back.
use enkit.Common.{◌≡◌, ◌∙◌, refl, ap, sym, ◌++◌, List, [], ◌∷◌, inl, inr}
use enkit.Common.Results.{Result, Result-cases, ok, err}
use mathlib.Core.List.{reverse, reverse-cons, append_assoc, append-nil}
use mathlib.Core.Path.{subst}
use enkit.Config.Text.{Text}
use enkit.Blob.Params.{Values}
use enkit.Blob.Params.Valid.{IsLike, AreValid}
use enkit.Blob.Codec.{CodecError, Parts, UrlCodec, chain_encode, decode_codecs, token_codec}
use enkit.Blob.Codec.Laws.{IsCodec}

module _ {W : Type 0} (ready : W → W → Type 0) (valid : Text → Type 0) where
  abbrev pub AreCodecs : List (UrlCodec W) → Type 0
  AreCodecs [] = Unit {0}
  AreCodecs (codec ∷ codecs) = IsCodec ready valid codec × AreCodecs codecs

  -- The first codec of a chain, and the rest.
  chain_encode-ok :
      (codec : UrlCodec W) (codecs : List (UrlCodec W)) (key key' : Text) (params params' : Values)
      (w w' : W)
      → chain_encode (codec ∷ codecs) key params w ≡ (w', ok (key', params'))
      → (k : Text) × (p : Values) × (u : W) × (codec.encode key params w ≡ (u, ok (k, p)))
        × (chain_encode codecs k p u ≡ (w', ok (key', params')))
  unfolding chain_encode
  chain_encode-ok codec codecs key key' params params' w w' h =
      elim (Result-cases ((codec.encode key params w).1)) [
        | inl (parts, e) ↦
            (let o : chain_encode (codec ∷ codecs) key params w
                  ≡ chain_encode codecs parts.0 parts.1 ((codec.encode key params w).0) =
                rw (e, chain_encode) refl in
              (
                parts.0,
                parts.1,
                (codec.encode key params w).0,
                ap (λ x. ((codec.encode key params w).0, x)) e,
                sym o ∙ h,
              ))
        | inr (x, e) ↦
            (let o : chain_encode (codec ∷ codecs) key params w
                  ≡ ((codec.encode key params w).0, err x) =
                rw (e, chain_encode) refl in
              let c : err x ≡ ok (key', params') =
                ap (λ (x : W × Result CodecError Parts). x.1) (sym o ∙ h) in
              cc)
      ]

  decode_codecs-step :
      (codec : UrlCodec W) (codecs : List (UrlCodec W)) (wd : W) (key k : Text) (q p : Values)
      → codec.decode wd key q ≡ ok (k, p)
      → decode_codecs (codec ∷ codecs) wd key q ≡ decode_codecs codecs wd k p
  unfolding decode_codecs
  decode_codecs-step codec codecs wd key k q p h = rw h refl

  chain-decode-encode :
      (codecs before : List (UrlCodec W)) (key key' : Text) (params params' q : Values)
      (w w' wd : W)
      → AreCodecs codecs
      → valid key
      → AreValid valid params
      → chain_encode codecs key params w ≡ (w', ok (key', params'))
      → ready w wd
      → IsLike params' q
      → (p : Values) × (decode_codecs (reverse codecs ++ before) wd key' q
          ≡ decode_codecs before wd key p)
        × IsLike params p
  unfolding chain_encode
  chain-decode-encode [] before key key' params params' q w w' wd laws v all h r like =
      let parts : ok (key, params) ≡ ok (key', params') =
        ap (λ (x : W × Result CodecError Parts). x.1) h in
      let same_key : key ≡ key' = cc in
      let same_params : params ≡ params' = cc in
      (
        q,
        ap (λ x. decode_codecs before wd x q) (sym same_key),
        subst (λ x. IsLike x q) (sym same_params) like,
      )
  chain-decode-encode (codec ∷ codecs) before key key' params params' q w w' wd (law, laws) v all h
        r like =
      let (k, p, u, here, there) = chain_encode-ok codec codecs key key' params params' w w' h in
      let (vk, vp) = law.valid-encode key k params p w u v all here in
      let (p', later, alike) =
        chain-decode-encode codecs (codec ∷ before) k key' p params' q u w' wd laws vk vp there
          (law.ready-encode key k params p w u wd v all here r) like in
      let (p'', now, alike') = law.decode-encode key k params p p' w u wd v all here r alike in
      let order : reverse (codec ∷ codecs) ++ before ≡ reverse codecs ++ codec ∷ before =
        ap (λ l. l ++ before) (reverse-cons codec codecs)
        ∙ append_assoc (reverse codecs) (codec ∷ []) before in
      (
        p'',
        ap (λ l. decode_codecs l wd key' q) order
            ∙ later
            ∙ decode_codecs-step codec before wd k key p' p'' now,
        alike',
      )

  chain-valid-encode :
      (codecs : List (UrlCodec W)) (key key' : Text) (params params' : Values) (w w' : W)
      → AreCodecs codecs
      → valid key
      → AreValid valid params
      → chain_encode codecs key params w ≡ (w', ok (key', params'))
      → valid key' × AreValid valid params'
  unfolding chain_encode
  chain-valid-encode [] key key' params params' w w' laws v all h =
      let parts : ok (key, params) ≡ ok (key', params') =
        ap (λ (x : W × Result CodecError Parts). x.1) h in
      let same_key : key ≡ key' = cc in
      let same_params : params ≡ params' = cc in
      (subst valid same_key v, subst (AreValid valid) same_params all)
  chain-valid-encode (codec ∷ codecs) key key' params params' w w' (law, laws) v all h =
      let (k, p, u, here, there) = chain_encode-ok codec codecs key key' params params' w w' h in
      let (vk, vp) = law.valid-encode key k params p w u v all here in
      chain-valid-encode codecs k key' p params' u w' laws vk vp there

  chain-ready-encode :
      (codecs : List (UrlCodec W)) (key key' : Text) (params params' : Values) (w w' wd : W)
      → AreCodecs codecs
      → valid key
      → AreValid valid params
      → chain_encode codecs key params w ≡ (w', ok (key', params'))
      → ready w wd
      → ready w' wd
  unfolding chain_encode
  chain-ready-encode [] key key' params params' w w' wd laws v all h r =
      subst (λ x. ready x wd) (ap (λ (x : W × Result CodecError Parts). x.0) h) r
  chain-ready-encode (codec ∷ codecs) key key' params params' w w' wd (law, laws) v all h r =
      let (k, p, u, here, there) = chain_encode-ok codec codecs key key' params params' w w' h in
      let (vk, vp) = law.valid-encode key k params p w u v all here in
      chain-ready-encode codecs k key' p params' u w' wd laws vk vp there
        (law.ready-encode key k params p w u wd v all here r)

  -- A chain of codecs is a codec: it gives back the key, and parameters that are alike.
  pub token_codec-IsCodec :
      (codecs : List (UrlCodec W)) → AreCodecs codecs → IsCodec ready valid (token_codec codecs)
  unfolding decode_codecs
  token_codec-IsCodec codecs laws = record {
    decode-encode = λ key key' params params' q w w' wd v all h r like.
        (let (p, e, alike) =
            chain-decode-encode codecs [] key key' params params' q w w' wd laws v all h r like in
          (p, ap (λ l. decode_codecs l wd key' q) (sym (append-nil (reverse codecs))) ∙ e, alike));
    valid-encode = λ key key' params params' w w' v all h.
        chain-valid-encode codecs key key' params params' w w' laws v all h;
    ready-encode = λ key key' params params' w w' wd v all h r.
        chain-ready-encode codecs key key' params params' w w' wd laws v all h r;
  }
