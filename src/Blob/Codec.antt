-- ===== src/Blob/Codec.antt =====
-- lib/config/blob/url_codec.go: the codecs of keys and parameters, and chains of them. Encoders work
-- in a world `W`, as in Token.
pub mod Laws
pub mod Chain
use enkit.Common.{Bool, true, false, Option, none, some, List, [], ◌∷◌, if◌then◌else◌}
use enkit.Common.Results.{Result, ok, err}
use enkit.Config.Text.{Text, same}
use enkit.Config.KeyCodec.{encode_key, decode_key}
use enkit.Token.{Bytes, Context, TokenError, BinaryEncoder}
use enkit.Token.Chain.{bytes, chained_encoder}
use enkit.Token.Typed.{
  Marshaller, Bound, type_encode, type_encode_with, type_decode, type_decode_with,
}
use enkit.Blob.Params.{Values, get_value, set_value, add_values, encode_params, decode_params}
use mathlib.Core.List.{reverse}

pub data CodecError : Type 0 where
  missing_token unsupported_encoder missing_rng : CodecError
  token_failed : TokenError → CodecError

-- The key and the parameters, which both functions return.
abbrev pub Parts : Type 0
Parts = Text × Values

-- The interface URLCodec.
pub record UrlCodec {ℓ} (W : Type ℓ) : Type ℓ where
  pub encode : Text → Values → W → W × Result CodecError Parts
  pub decode : W → Text → Values → Result CodecError Parts

-- tokenKeyParamsPayload.
pub record KeyParams : Type 0 where
  pub key : Text
  pub params : Values

-- Add of each value of each name.
unfoldable pub add_all : Values → Values → Values
unfolding add_values
add_all [] vs = vs
add_all ((n, xs) ∷ more) vs = add_all more (add_values n xs vs)

-- normalizeTokenParamName.
unfoldable pub normalize_token_param_name : Text → Text
normalize_token_param_name [] = b't' ∷ b'o' ∷ b'k' ∷ b'e' ∷ b'n' ∷ []
normalize_token_param_name (c ∷ s) = c ∷ s

-- `if err != nil { return "", nil, err }`, for what is returned after Decode otherwise.
unfoldable pub unless_decoded {κ} :
    {A : Type κ} → (A → Parts) → Context × A × Option TokenError → Result CodecError Parts
unless_decoded f (ctx, a, some e) = err (token_failed e)
unless_decoded f (ctx, a, none) = ok (f a)

module _ {ℓ} {W : Type ℓ} where
  -- PlainCodec.
  abbrev pub plain_codec : UrlCodec W
  plain_codec = record {
    encode = λ key params w. (w, ok (encode_key key, params));
    decode = λ wd key params. ok (decode_key key, params);
  }

  -- `if err != nil { return "", nil, err }`, for what is returned otherwise.
  unfoldable pub unless_encoded :
      (Bytes → Parts) → W × Result TokenError Bytes → W × Result CodecError Parts
  unless_encoded f (w, err e) = (w, err (token_failed e))
  unless_encoded f (w, ok raw) = (w, ok (f raw))

  -- TokenParamsOnlyCodec.
  unfoldable pub params_only_encode :
      Marshaller Values → BinaryEncoder W → Text → Text → Values → W → W × Result CodecError Parts
  unfolding type_encode encode_params set_value unless_encoded
  params_only_encode json enc name key params w =
      unless_encoded (λ raw. (key, set_value name raw []))
        (type_encode json enc (encode_params params) w)

  unfoldable pub params_only_decode :
      Marshaller Values → BinaryEncoder W → Text → W → Text → Values → Result CodecError Parts
  unfolding type_decode decode_params unless_decoded
  params_only_decode json enc name wd key params = elim (get_value name params) [
    | [] ↦ err missing_token
    | c ∷ raw ↦
        unless_decoded (λ entries. (key, decode_params entries))
          (type_decode json enc wd [] (c ∷ raw) [])
  ]

  abbrev pub params_only_codec : Marshaller Values → BinaryEncoder W → Text → UrlCodec W
  params_only_codec json enc name = record {
    encode = params_only_encode json enc name;
    decode = params_only_decode json enc name;
  }

  -- TokenParamsCodec.
  unfoldable pub params_encode :
      Marshaller Values → Bound W → Text → Text → Values → W → W × Result CodecError Parts
  unfolding type_encode_with encode_params set_value unless_encoded
  params_encode json enc name key params w =
      unless_encoded (λ raw. (key, set_value name raw []))
        (type_encode_with json enc (encode_params params) key w)

  unfoldable pub params_decode :
      Marshaller Values → Bound W → Text → W → Text → Values → Result CodecError Parts
  unfolding type_decode_with decode_params unless_decoded
  params_decode json enc name wd key params = elim (get_value name params) [
    | [] ↦ err missing_token
    | c ∷ raw ↦
        unless_decoded (λ entries. (key, decode_params entries))
          (type_decode_with json enc wd [] (c ∷ raw) key [])
  ]

  abbrev pub params_codec : Marshaller Values → Bound W → Text → UrlCodec W
  params_codec json enc name = record {
    encode = params_encode json enc name;
    decode = params_decode json enc name;
  }

  -- NewTokenParamsCodec, for an encoder that is given.
  unfoldable pub new_params_codec :
      Marshaller Values → Bound W → Text → Result CodecError (UrlCodec W)
  unfolding normalize_token_param_name
  new_params_codec json enc name =
      if enc.supports
      then ok (params_codec json enc (normalize_token_param_name name))
      else err unsupported_encoder

  -- TokenKeyCodec.
  unfoldable pub key_encode : BinaryEncoder W → Text → Values → W → W × Result CodecError Parts
  unfolding unless_encoded
  key_encode enc key params w = unless_encoded (λ raw. (raw, params)) (enc.encode key w)

  unfoldable pub key_decode : BinaryEncoder W → W → Text → Values → Result CodecError Parts
  unfolding bytes unless_decoded
  key_decode enc wd key params = unless_decoded (λ raw. (bytes raw, params)) (enc.decode wd [] key)

  abbrev pub key_codec : BinaryEncoder W → UrlCodec W
  key_codec enc = record { encode = key_encode enc; decode = key_decode enc }

  -- TokenPathCodec.
  unfoldable pub path_encode :
      Marshaller KeyParams → BinaryEncoder W → Text → Values → W → W × Result CodecError Parts
  unfolding type_encode encode_params unless_encoded
  path_encode json enc key params w =
      unless_encoded (λ raw. (raw, []))
        (type_encode json enc (record { key = key; params = encode_params params }) w)

  unfoldable pub path_decode :
      Marshaller KeyParams → BinaryEncoder W → W → Text → Values → Result CodecError Parts
  unfolding type_decode decode_params add_all unless_decoded
  path_decode json enc wd key params =
      unless_decoded
        (λ (payload : KeyParams). (payload.key, add_all params (decode_params payload.params)))
        (type_decode json enc wd [] key (record { key = []; params = [] }))

  abbrev pub path_codec : Marshaller KeyParams → BinaryEncoder W → UrlCodec W
  path_codec json enc = record { encode = path_encode json enc; decode = path_decode json enc }

  -- The loop of TokenCodec.Encode.
  unfoldable pub chain_encode : List (UrlCodec W) → Text → Values → W → W × Result CodecError Parts
  chain_encode [] key params w = (w, ok (key, params))
  chain_encode (codec ∷ codecs) key params w =
      let (w', out) = codec.encode key params w in
      elim out [ err e ↦ (w', err e) | ok parts ↦ chain_encode codecs parts.0 parts.1 w' ]

  -- The loop of TokenCodec.Decode, over the codecs from the last one.
  unfoldable pub decode_codecs : List (UrlCodec W) → W → Text → Values → Result CodecError Parts
  decode_codecs [] wd key params = ok (key, params)
  decode_codecs (codec ∷ codecs) wd key params = elim (codec.decode wd key params) [
    | err e ↦ err e
    | ok parts ↦ decode_codecs codecs wd parts.0 parts.1
  ]

  -- TokenCodec.
  abbrev pub token_codec : List (UrlCodec W) → UrlCodec W
  token_codec chain = record {
    encode = chain_encode chain;
    decode = λ wd key params. decode_codecs (reverse chain) wd key params;
  }

  -- BuildTokenEncoder: the encoder that is given, the symmetric one, `none` without a source of random
  -- numbers, and the one for an expiry, `none` without a validity.
  unfoldable pub build_token_encoder :
      Option (BinaryEncoder W)
      → Option (Result TokenError (BinaryEncoder W))
      → Option (BinaryEncoder W)
      → BinaryEncoder W
      → Result CodecError (BinaryEncoder W)
  build_token_encoder (some enc) symmetric expire base64 = ok enc
  build_token_encoder none none expire base64 = err missing_rng
  build_token_encoder none (some (err e)) expire base64 = err (token_failed e)
  build_token_encoder none (some (ok enc)) none base64 = ok (chained_encoder (enc ∷ base64 ∷ []))
  build_token_encoder none (some (ok enc)) (some expire) base64 =
      ok (chained_encoder (expire ∷ enc ∷ base64 ∷ []))

  -- NewTokenCodec, with the chain of the options, and what the factory or BuildTokenEncoder gives.
  unfoldable pub new_token_codec :
      Marshaller Values
      → List (UrlCodec W)
      → Result CodecError (BinaryEncoder W)
      → Result CodecError (UrlCodec W)
  unfolding normalize_token_param_name
  new_token_codec json (codec ∷ codecs) made = ok (token_codec (codec ∷ codecs))
  new_token_codec json [] (err e) = err e
  new_token_codec json [] (ok enc) = ok (
      token_codec (
        key_codec enc
        ∷ params_only_codec json enc
            (normalize_token_param_name (b't' ∷ b'o' ∷ b'k' ∷ b'e' ∷ b'n' ∷ []))
        ∷ []))
