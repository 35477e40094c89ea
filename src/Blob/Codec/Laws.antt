-- ===== src/Blob/Codec/Laws.antt =====
-- What each codec gives back.
use enkit.Common.{ℕ, ◌≡◌, ◌∙◌, refl, ap, sym, false, Option, none, [], ◌∷◌}
use enkit.Common.Results.{Result, ok, err}
use mathlib.Core.Path.{subst}
use enkit.Config.Text.{Text, AreBytes}
use enkit.Config.KeyCodec.{encode_key, decode_key}
use enkit.Config.KeyCodec.Roundtrip.{decode_key-encode_key}
use enkit.Token.{Bytes, Context, TokenError, Decoded, BinaryEncoder, IsEncoder}
use enkit.Token.Chain.{bytes}
use enkit.Token.Associated.{is_empty}
use enkit.Token.Typed.{
  Marshaller, Bound, encode_with_data, type_encode, type_encode_with, type_decode, type_decode_with,
}
use enkit.Token.Typed.Laws.{
  IsMarshaller, IsBound, type_encode-encode, type_encode_with-encode_with_data,
  type_decode-type_encode, type_decode_with-type_encode_with,
}
use enkit.Config.Names.{has_name}
use enkit.Blob.Params.{Values, get_value, put_values, set_value, encode_params, decode_params}
use enkit.Blob.Params.Valid.{
  IsLike, decode_params-IsLike, IsLike-nil, get_value-set_value, AllValid, AreValid,
  encode_params-AllValid,
}
use enkit.Blob.Codec.{
  CodecError, missing_token, token_failed, Parts, UrlCodec, KeyParams, add_all, unless_encoded,
  unless_decoded, plain_codec, params_only_encode, params_only_decode, params_only_codec,
  params_encode, params_decode, params_codec, key_encode, key_decode, key_codec, path_encode,
  path_decode, path_codec,
}

-- A codec for valid keys and parameters: what it encoded is decoded in every world that is `ready` for
-- what was encoded, from all parameters that are like those that were encoded.
pub record IsCodec {W : Type 0} (ready : W → W → Type 0) (valid : Text → Type 0)
    (codec : UrlCodec W) : Type 0 where
  pub decode-encode :
      (key key' : Text) (params params' q : Values) (w w' wd : W)
      → valid key
      → AreValid valid params
      → codec.encode key params w ≡ (w', ok (key', params'))
      → ready w wd
      → IsLike params' q
      → (p : Values) × (codec.decode wd key' q ≡ ok (key, p)) × IsLike params p
  pub valid-encode :
      (key key' : Text) (params params' : Values) (w w' : W)
      → valid key
      → AreValid valid params
      → codec.encode key params w ≡ (w', ok (key', params'))
      → valid key' × AreValid valid params'
  pub ready-encode :
      (key key' : Text) (params params' : Values) (w w' wd : W)
      → valid key
      → AreValid valid params
      → codec.encode key params w ≡ (w', ok (key', params'))
      → ready w wd
      → ready w' wd

-- What is encoded is a valid text that is not empty, as base64 of a token is.
abbrev pub IsPrintable {ℓ} :
    {W : Type 0} → {A : Type ℓ} → (Text → Type 0) → (A → W → W × Result TokenError Bytes) → Type ℓ
IsPrintable {W} {A} valid encode =
    (a : A) (e : Bytes) (w w' : W) → encode a w ≡ (w', ok e) → valid e × (is_empty e ≡ false)

unless_encoded-ok :
    {W : Type 0} (f : Bytes → Parts) (out : W × Result TokenError Bytes) (w' : W) (parts : Parts)
    → unless_encoded f out ≡ (w', ok parts)
    → (raw : Bytes) × (out ≡ (w', ok raw)) × (f raw ≡ parts)
unfolding unless_encoded
unless_encoded-ok {W} f (w, err e) w' parts h =
    (let x : err (token_failed e) ≡ ok parts = ap (λ (x : W × Result CodecError Parts). x.1) h in
      cc)
unless_encoded-ok {W} f (w, ok raw) w' parts h =
    let x : ok (f raw) ≡ ok parts = ap (λ (x : W × Result CodecError Parts). x.1) h in
    let y : w ≡ w' = ap (λ (x : W × Result CodecError Parts). x.0) h in
    (raw, ap (λ x. (x, ok raw)) y, cc)

not_empty : (s : Text) → is_empty s ≡ false → (c : _) × (t : Text) × (s ≡ c ∷ t)
not_empty [] h = cc
not_empty (c ∷ t) h = (c, t, refl)

module _ {W : Type 0} (ready : W → W → Type 0) (valid : Text → Type 0) where
  -- PlainCodec, where the escapes of a key are valid.
  pub plain_codec-IsCodec :
      ((key : Text) → valid key → AreBytes key)
      → ((key : Text) → valid key → valid (encode_key key))
      → IsCodec ready valid plain_codec
  plain_codec-IsCodec are_bytes escapes = record {
    decode-encode = λ key key' params params' q w w' wd v all h r like.
        (let parts : ok (encode_key key, params) ≡ ok (key', params') =
            ap (λ (x : W × Result CodecError Parts). x.1) h in
          let same_key : encode_key key ≡ key' = cc in
          let same_params : params ≡ params' = cc in
          (
            q,
            ap (λ x. ok (decode_key x, q)) (sym same_key)
                ∙ ap (λ x. ok (x, q)) (decode_key-encode_key key (are_bytes key v)),
            subst (λ x. IsLike x q) (sym same_params) like,
          ));
    valid-encode = λ key key' params params' w w' v all h.
        (let parts : ok (encode_key key, params) ≡ ok (key', params') =
            ap (λ (x : W × Result CodecError Parts). x.1) h in
          let same_key : encode_key key ≡ key' = cc in
          let same_params : params ≡ params' = cc in
          (subst valid same_key (escapes key v), subst (AreValid valid) same_params all));
    ready-encode = λ key key' params params' w w' wd v all h r.
        subst (λ x. ready x wd) (ap (λ (x : W × Result CodecError Parts). x.0) h) r;
  }

  -- TokenKeyCodec, over an encoder of tokens.
  pub key_codec-IsCodec :
      (enc : BinaryEncoder W)
      → IsEncoder ready enc
      → IsPrintable valid enc.encode
      → IsCodec ready valid (key_codec enc)
  unfolding key_encode key_decode unless_decoded bytes
  key_codec-IsCodec enc law printable = record {
    decode-encode = λ key key' params params' q w w' wd v all h r like.
        (let (raw, e, parts) =
            unless_encoded-ok (λ raw. (raw, params)) (enc.encode key w) w' (key', params') h in
          let same_key : raw ≡ key' = ap (λ (x : Parts). x.0) parts in
          let same_params : params ≡ params' = ap (λ (x : Parts). x.1) parts in
          let (ctx, d) = law.decode-encode key raw w w' wd e r [] in
          (
            q,
            ap (λ x. key_decode enc wd x q) (sym same_key)
                ∙ ap (λ (x : Decoded). unless_decoded (λ raw. (bytes raw, q)) x) d,
            subst (λ x. IsLike x q) (sym same_params) like,
          ));
    valid-encode = λ key key' params params' w w' v all h.
        (let (raw, e, parts) =
            unless_encoded-ok (λ raw. (raw, params)) (enc.encode key w) w' (key', params') h in
          (
            subst valid (ap (λ (x : Parts). x.0) parts) (printable key raw w w' e).0,
            subst (AreValid valid) (ap (λ (x : Parts). x.1) parts) all,
          ));
    ready-encode = λ key key' params params' w w' wd v all h r.
        (let (raw, e, parts) =
            unless_encoded-ok (λ raw. (raw, params)) (enc.encode key w) w' (key', params') h in
          law.ready-encode key raw w w' wd e r);
  }

  -- A query that is like the one of a token has this token.
  query_token :
      (name raw : Text) (params' q : Values)
      → is_empty raw ≡ false
      → set_value name raw [] ≡ params'
      → IsLike params' q
      → (c : ℕ) × (t : Text) × (get_value name q ≡ c ∷ t) × (raw ≡ c ∷ t)
  query_token name raw params' q filled same_params like =
      let got =
        get_value-set_value name raw q filled (subst (λ x. IsLike x q) (sym same_params) like) in
      let (c, t, s) = not_empty raw filled in (c, t, got ∙ s, s)

  set_value-AreValid :
      (name raw : Text) → valid name → valid raw → AreValid valid (set_value name raw [])
  unfolding set_value put_values has_name
  set_value-AreValid name raw v u = ((refl, tt), (v, ((u, tt), tt)))

  -- What both codecs that put a token in the query do, over the encoder of the token.
  abbrev query_codec :
      Text
      → (Text → Values → W → W × Result TokenError Bytes)
      → (W → Text → Bytes → Context × Values × Option TokenError)
      → UrlCodec W
  query_codec name encode decode = record {
    encode =
        λ key params w. unless_encoded (λ raw. (key, set_value name raw [])) (encode key params w);
    decode = λ wd key params. elim (get_value name params) [
      | [] ↦ err missing_token
      | c ∷ raw ↦ unless_decoded (λ entries. (key, decode_params entries)) (decode wd key (c ∷ raw))
    ];
  }

  -- The encoder gives back the entries, and tokens that are valid and not empty.
  record IsQuery (encode : Text → Values → W → W × Result TokenError Bytes)
      (decode : W → Text → Bytes → Context × Values × Option TokenError) : Type 0 where
    gives :
        (key : Text) (params : Values) (raw : Bytes) (w w' wd : W)
        → valid key
        → AllValid valid params
        → encode key params w ≡ (w', ok raw)
        → ready w wd
        → ((ctx : Context) × (decode wd key raw ≡ (ctx, encode_params params, none))) × ready w' wd
    prints :
        (key : Text) (params : Values) (raw : Bytes) (w w' : W)
        → encode key params w ≡ (w', ok raw)
        → valid raw × (is_empty raw ≡ false)

  query_codec-IsCodec :
      (name : Text) (encode : Text → Values → W → W × Result TokenError Bytes)
      (decode : W → Text → Bytes → Context × Values × Option TokenError)
      → valid name
      → IsQuery encode decode
      → IsCodec ready valid (query_codec name encode decode)
  unfolding unless_decoded
  query_codec-IsCodec name encode decode named query = record {
    decode-encode = λ key key' params params' q w w' wd v all h r like.
        (let (raw, e, parts) =
            unless_encoded-ok (λ raw. (key, set_value name raw [])) (encode key params w) w'
              (key', params') h in
          let same_key : key ≡ key' = ap (λ (x : Parts). x.0) parts in
          let filled = (query.prints key params raw w w' e).1 in
          let (c, t, got, s) =
            query_token name raw params' q filled (ap (λ (x : Parts). x.1) parts) like in
          let ((ctx, d), r') = query.gives key params raw w w' wd v all.1 e r in
          let step : (query_codec name encode decode).decode wd key q
              ≡ unless_decoded (λ entries. (key, decode_params entries)) (decode wd key (c ∷ t)) =
            rw (got, query_codec) refl in
          (
            decode_params (encode_params params),
            ap (λ y. (query_codec name encode decode).decode wd y q) (sym same_key)
                ∙ step
                ∙ ap
                    (λ y.
                      unless_decoded (λ entries. (key, decode_params entries)) (decode wd key y))
                    (sym s)
                ∙ ap
                    (λ (y : Context × Values × Option TokenError).
                      unless_decoded (λ entries. (key, decode_params entries)) y)
                    d,
            decode_params-IsLike params all.0,
          ));
    valid-encode = λ key key' params params' w w' v all h.
        (let (raw, e, parts) =
            unless_encoded-ok (λ raw. (key, set_value name raw [])) (encode key params w) w'
              (key', params') h in
          (
            subst valid (ap (λ (x : Parts). x.0) parts) v,
            subst (AreValid valid) (ap (λ (x : Parts). x.1) parts)
                (set_value-AreValid name raw named (query.prints key params raw w w' e).0),
          ));
    ready-encode = λ key key' params params' w w' wd v all h r.
        (let (raw, e, parts) =
            unless_encoded-ok (λ raw. (key, set_value name raw [])) (encode key params w) w'
              (key', params') h in
          (query.gives key params raw w w' wd v all.1 e r).1);
  }

  module _ (json : Marshaller Values) (lossless : IsMarshaller (AllValid valid) [] json)
      (name : Text) (named : valid name) where
    -- TokenParamsOnlyCodec.
    pub params_only_codec-IsCodec :
        (enc : BinaryEncoder W)
        → IsEncoder ready enc
        → IsPrintable valid enc.encode
        → IsCodec ready valid (params_only_codec json enc name)
    unfolding params_only_encode params_only_decode
    params_only_codec-IsCodec enc law printable =
        query_codec-IsCodec name (λ key params w. type_encode json enc (encode_params params) w)
          (λ wd key raw. type_decode json enc wd [] raw []) named
          record {
            gives = λ key params raw w w' wd v all e r.
                type_decode-type_encode ready (AllValid valid) [] json lossless enc
                  (encode_params params) raw w w' wd [] law
                  (encode_params-AllValid valid params all) e r;
            prints = λ key params raw w w' e.
                (let (b, x) =
                    type_encode-encode ready (AllValid valid) [] json lossless enc
                      (encode_params params) raw w w' e in
                  printable b raw w w' x);
          }

    -- TokenParamsCodec.
    pub params_codec-IsCodec :
        (enc : Bound W)
        → IsBound ready enc
        → ((aad : Bytes) → IsPrintable valid (λ content. encode_with_data enc content aad))
        → IsCodec ready valid (params_codec json enc name)
    unfolding params_encode params_decode
    params_codec-IsCodec enc law printable =
        query_codec-IsCodec name
          (λ key params w. type_encode_with json enc (encode_params params) key w)
          (λ wd key raw. type_decode_with json enc wd [] raw key []) named
          record {
            gives = λ key params raw w w' wd v all e r.
                type_decode_with-type_encode_with ready (AllValid valid) [] json lossless enc
                  (encode_params params) key raw w w' wd [] law
                  (encode_params-AllValid valid params all) e r;
            prints = λ key params raw w w' e.
                (let (b, x) =
                    type_encode_with-encode_with_data ready (AllValid valid) [] json lossless enc
                      (encode_params params) key raw w w' e in
                  printable key b raw w w' x);
          }

  -- The payload of a path is of valid texts.
  abbrev pub IsPayload : KeyParams → Type 0
  IsPayload payload = valid payload.key × AllValid valid payload.params

  -- TokenPathCodec.
  pub path_codec-IsCodec :
      (json : Marshaller KeyParams)
      → IsMarshaller IsPayload (record { key = []; params = [] }) json
      → (enc : BinaryEncoder W) → IsEncoder ready enc
      → IsPrintable valid enc.encode
      → IsCodec ready valid (path_codec json enc)
  unfolding path_encode path_decode unless_decoded add_all
  path_codec-IsCodec json lossless enc law printable =
      let blank : KeyParams = record { key = []; params = [] } in
      let payload : Text → Values → KeyParams =
        λ key params. record { key = key; params = encode_params params } in
      record {
        decode-encode = λ key key' params params' q w w' wd v all h r like.
            (let (raw, e, parts) =
                unless_encoded-ok (λ raw. (raw, [])) (type_encode json enc (payload key params) w)
                  w' (key', params') h in
              let ((ctx, d), r') =
                type_decode-type_encode ready IsPayload blank json lossless enc (payload key params)
                  raw w w' wd [] law (v, encode_params-AllValid valid params all.1) e r in
              let none_more : q ≡ [] =
                IsLike-nil q (subst (λ x. IsLike x q) (sym (ap (λ (x : Parts). x.1) parts)) like) in
              (
                decode_params (encode_params params),
                ap (λ x. path_decode json enc wd x q) (sym (ap (λ (x : Parts). x.0) parts))
                    ∙ ap (λ x. path_decode json enc wd raw x) none_more
                    ∙ ap
                        (λ (y : Context × KeyParams × Option TokenError).
                          unless_decoded (λ (z : KeyParams). (z.key, decode_params z.params)) y)
                        d,
                decode_params-IsLike params all.0,
              ));
        valid-encode = λ key key' params params' w w' v all h.
            (let (raw, e, parts) =
                unless_encoded-ok (λ raw. (raw, [])) (type_encode json enc (payload key params) w)
                  w' (key', params') h in
              let (b, x) =
                type_encode-encode ready IsPayload blank json lossless enc (payload key params) raw
                  w w' e in
              (
                subst valid (ap (λ (x : Parts). x.0) parts) (printable b raw w w' x).0,
                subst (AreValid valid) (ap (λ (x : Parts). x.1) parts) (tt, tt),
              ));
        ready-encode = λ key key' params params' w w' wd v all h r.
            (let (raw, e, parts) =
                unless_encoded-ok (λ raw. (raw, [])) (type_encode json enc (payload key params) w)
                  w' (key', params') h in
              (type_decode-type_encode ready IsPayload blank json lossless enc (payload key params)
                raw w w' wd [] law (v, encode_params-AllValid valid params all.1) e r).1);
      }
