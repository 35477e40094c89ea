-- ===== src/Blob/Examples.antt =====
-- Runs of the codecs, and their theorems at concrete inputs.
use enkit.Common.{ℕ, ◌≡◌, refl, ap, sym, none, some, [], ◌∷◌}
use enkit.Common.Results.{Result, ok}
use enkit.Config.Text.{Text, same, before}
use enkit.Config.Names.{has_name, sort_texts}
use enkit.Token.{Bytes, Context, TokenError, other, Decoded, BinaryEncoder, IsEncoder}
use enkit.Token.Associated.{is_empty}
use enkit.Blob.Params.{Values, find_values, encode_params, decode_params}
use enkit.Blob.Params.Roundtrip.{settle, decode_params-encode_params}
use enkit.Blob.Codec.{key_codec, token_codec}
use enkit.Blob.Codec.Laws.{IsCodec, IsPrintable, key_codec-IsCodec}
use enkit.Blob.Codec.Chain.{token_codec-IsCodec}

abbrev strip : Context → Bytes → Decoded
strip ctx [] = (ctx, none, some (other 0))
strip ctx (c ∷ content) = (ctx, some content, none)

-- An encoder that puts a byte in front.
abbrev mark : ℕ → BinaryEncoder ℕ
mark k = record {
  encode = λ content w. (w, ok (k ∷ content));
  decode = λ wd ctx content. strip ctx content;
}

abbrev Anytime : ℕ → ℕ → Type 0
Anytime w wd = Unit {0}

abbrev AnyText : Text → Type 0
AnyText s = Unit {0}

marked : (k : ℕ) (d e : Bytes) (w w' : ℕ) → (mark k).encode d w ≡ (w', ok e) → k ∷ d ≡ e
marked k d e w w' h =
    let x : ok (k ∷ d) ≡ ok e = ap (λ (r : ℕ × Result TokenError Bytes). r.1) h in cc

mark-IsEncoder : (k : ℕ) → IsEncoder Anytime (mark k)
mark-IsEncoder k = record {
  decode-encode = λ d e w w' wd h r ctx. (ctx, ap (strip ctx) (sym (marked k d e w w' h)));
  ready-encode = λ d e w w' wd h r. tt;
}

mark-IsPrintable : (k : ℕ) → IsPrintable AnyText (mark k).encode
mark-IsPrintable k d e w w' h = (tt, ap is_empty (sym (marked k d e w w' h)))

token_codec-IsCodec_example :
    IsCodec Anytime AnyText (token_codec (key_codec (mark 4) ∷ key_codec (mark 5) ∷ []))
token_codec-IsCodec_example =
    token_codec-IsCodec Anytime AnyText (key_codec (mark 4) ∷ key_codec (mark 5) ∷ []) (
      key_codec-IsCodec Anytime AnyText (mark 4) (mark-IsEncoder 4) (mark-IsPrintable 4),
      (key_codec-IsCodec Anytime AnyText (mark 5) (mark-IsEncoder 5) (mark-IsPrintable 5), tt),
    )

-- `a` has the values `y` and `x`, and `b` has none.
abbrev two_names : Values
two_names = (b'a' ∷ [], (b'y' ∷ []) ∷ (b'x' ∷ []) ∷ []) ∷ (b'b' ∷ [], []) ∷ []

decode_params-encode_params_example :
    find_values (b'a' ∷ []) (decode_params (encode_params two_names))
    ≡ some ((b'x' ∷ []) ∷ (b'y' ∷ []) ∷ [])
unfolding has_name same find_values settle sort_texts before
decode_params-encode_params_example =
    decode_params-encode_params two_names (b'a' ∷ []) (refl, (refl, tt))
