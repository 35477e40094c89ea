-- ===== src/Token/Chain.antt =====
-- lib/token/token.go: encoders in sequence, and an encoder of typed values.
pub mod Laws
use enkit.Common.{ℕ, ◌≡◌, List, [], ◌∷◌, Option, none, some}
use enkit.Common.Results.{Result, ok, err, ◌>>=◌}
use enkit.Token.{Bytes, Context, TokenError, Decoded, BinaryEncoder}
use mathlib.Core.List.{reverse}

-- A nil slice has no bytes.
unfoldable pub bytes : Option Bytes → Bytes
bytes none = []
bytes (some content) = content

-- `if first == nil { first = err }`
unfoldable pub keep_first : Option TokenError → Option TokenError → Option TokenError
keep_first none e = e
keep_first (some first) e = some first

module _ {ℓ} {W : Type ℓ} where
  -- ChainedEncoder.Encode.
  unfoldable pub chain_encode : List (BinaryEncoder W) → Bytes → W → W × Result TokenError Bytes
  chain_encode [] content w = (w, ok content)
  chain_encode (enc ∷ encs) content w =
      let (w', out) = enc.encode content w in
      elim out [ err e ↦ (w', err e) | ok content' ↦ chain_encode encs content' w' ]

  -- The loop of ChainedEncoder.Decode, over the encoders from the last one.
  unfoldable pub chain_loop :
      List (BinaryEncoder W) → W → Context → Option Bytes → Option TokenError → Decoded
  unfolding bytes keep_first
  chain_loop [] wd ctx content first = (ctx, content, first)
  chain_loop (enc ∷ encs) wd ctx content first =
      let (ctx', content', e) = enc.decode wd ctx (bytes content) in
      elim e [
        | none ↦ chain_loop encs wd ctx' content' first
        | some e' ↦ elim content' [
          | none ↦ (ctx', none, keep_first first (some e'))
          | some d ↦ chain_loop encs wd ctx' (some d) (keep_first first (some e'))
        ]
      ]

  -- ChainedEncoder.Decode.
  unfoldable pub chain_decode : List (BinaryEncoder W) → W → Context → Bytes → Decoded
  unfolding chain_loop
  chain_decode encs wd ctx content = chain_loop (reverse encs) wd ctx (some content) none

  abbrev pub chained_encoder : List (BinaryEncoder W) → BinaryEncoder W
  chained_encoder encs = record { encode = chain_encode encs; decode = chain_decode encs }
