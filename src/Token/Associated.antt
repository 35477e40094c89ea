-- ===== src/Token/Associated.antt =====
-- lib/token/token.go: data that is bound to a token without being in it.
pub mod Laws
use enkit.Common.{ℕ, Bool, true, false, not, ◌||◌, List, [], ◌∷◌, Option, none, some, if◌then◌else◌}
use enkit.Common.Results.{Result, ok, err}
use enkit.Token.{Bytes, Context, TokenError, unsupported, Decoded, BinaryEncoder}
use enkit.Token.Chain.{bytes, keep_first}

-- The interface AssociatedDataEncoder; the data is bound to the second argument.
pub record AssociatedEncoder {ℓ} (W : Type ℓ) : Type ℓ where
  pub encode_with : Bytes → Bytes → W → W × Result TokenError Bytes
  pub decode_with : W → Context → Bytes → Bytes → Decoded

-- What stands behind a BinaryEncoder: an encoder without associated data, one with it, or a
-- ChainedEncoder, which may have chains in it.
mutual
  pub data Encoder {ℓ} (W : Type ℓ) : Type ℓ where
    plain_encoder : BinaryEncoder W → Encoder W
    binding_encoder : AssociatedEncoder W → Encoder W
    chained : Encoders W → Encoder W

  pub data Encoders {ℓ} (W : Type ℓ) : Type ℓ where
    end : Encoders W
    link : Encoder W → Encoders W → Encoders W

abbrev pub is_empty : Bytes → Bool
is_empty [] = true
is_empty (c ∷ content) = false

-- `enc.(AssociatedDataEncoder)`
unfoldable pub is_binding {ℓ} : {W : Type ℓ} → Encoder W → Bool
is_binding (plain_encoder be) = false
is_binding (binding_encoder a) = true
is_binding (chained es) = true

-- SupportsAssociatedData, of an encoder that is not nil.
unfoldable mutual
  pub supports {ℓ} : {W : Type ℓ} → Encoder W → Bool
  supports (plain_encoder be) = false
  supports (binding_encoder a) = true
  supports (chained es) = any_supports es

  pub any_supports {ℓ} : {W : Type ℓ} → Encoders W → Bool
  any_supports end = false
  any_supports (link e es) = supports e || any_supports es

-- `if err != nil { return nil, err }`
unfoldable pub unless_failed {ℓ} :
    {W : Type ℓ}
    → W × Result TokenError Bytes
    → (Bytes → W → W × Result TokenError Bytes)
    → W × Result TokenError Bytes
unless_failed (w, err x) rest = (w, err x)
unless_failed (w, ok content) rest = rest content w

-- A round of ChainedEncoder.EncodeWithAssociatedData, and its loop, with what `used` is so far.
unfoldable mutual
  unfolding is_binding unless_failed

  pub link_encode {ℓ} : {W : Type ℓ} → Encoder W → Bytes → Bytes → W → W × Result TokenError Bytes
  link_encode (plain_encoder be) content aad w = be.encode content w
  link_encode (binding_encoder a) content aad w = a.encode_with content aad w
  link_encode (chained es) content aad w = encode_loop es (is_empty aad) content aad w

  pub encode_loop {ℓ} :
      {W : Type ℓ} → Encoders W → Bool → Bytes → Bytes → W → W × Result TokenError Bytes
  encode_loop end used content aad w = (w, (if used then ok content else err unsupported))
  encode_loop (link e es) used content aad w =
      unless_failed (link_encode e content aad w)
        (λ content' w'. encode_loop es (used || is_binding e) content' aad w')

-- The state of the loop of DecodeWithAssociatedData: what it would return, and whether it was left.
abbrev pub Progress : Type 0
Progress = Context × Option Bytes × Option TokenError × Bool

abbrev pub is_nil : Option Bytes → Bool
is_nil none = true
is_nil (some content) = false

unfoldable pub advance : Option TokenError → Decoded → Progress
unfolding keep_first
advance first out = elim out.2 [
  | none ↦ (out.0, out.1, first, false)
  | some e ↦ (out.0, out.1, keep_first first (some e), is_nil out.1)
]

-- A round of ChainedEncoder.DecodeWithAssociatedData, and its loop, from the last encoder. When no
-- encoder binds associated data, what it returns is joined with the first error, which is not kept here.
unfoldable mutual
  unfolding supports advance bytes

  pub link_decode {ℓ} : {W : Type ℓ} → Encoder W → W → Bytes → Context → Bytes → Decoded
  link_decode (plain_encoder be) wd aad ctx content = be.decode wd ctx content
  link_decode (binding_encoder a) wd aad ctx content = a.decode_with wd ctx content aad
  link_decode (chained es) wd aad ctx content =
      let out = decode_loop es wd aad (ctx, some content, none, false) in
      if is_empty aad || any_supports es
      then (out.0, out.1, out.2)
      else (out.0, none, some unsupported)

  pub decode_loop {ℓ} : {W : Type ℓ} → Encoders W → W → Bytes → Progress → Progress
  decode_loop end wd aad state = state
  decode_loop (link e es) wd aad state =
      let later = decode_loop es wd aad state in
      if later.3 then later else advance later.2 (link_decode e wd aad later.0 (bytes later.1))
