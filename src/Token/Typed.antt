-- ===== src/Token/Typed.antt =====
-- lib/token/token.go: an encoder of typed values, over a marshaller, which stands for a library.
pub mod Laws
use enkit.Common.{◌≡◌, [], Bool, Option, none, some, if◌then◌else◌, ◌&&◌, not}
use enkit.Common.Results.{Result, ok, err}
use enkit.Token.{Bytes, Context, TokenError, unsupported, Decoded, BinaryEncoder}
use enkit.Token.Chain.{bytes, keep_first}
use enkit.Token.Associated.{AssociatedEncoder, is_empty, is_nil}

-- Unmarshal changes the output also where it fails.
pub record Marshaller {ℓ} (A : Type ℓ) : Type ℓ where
  pub marshal : A → Result TokenError Bytes
  pub unmarshal : Bytes → A → A × Option TokenError

-- A BinaryEncoder, with what `be.(AssociatedDataEncoder)` and SupportsAssociatedData give for it.
pub record Bound {ℓ} (W : Type ℓ) : Type ℓ where
  pub be : BinaryEncoder W
  pub ade : Option (AssociatedEncoder W)
  pub supports : Bool

-- The end of Decode and of DecodeWithAssociatedData.
unfoldable pub finish_decode {κ} :
    {A : Type κ} → Marshaller A → Decoded → A → Context × A × Option TokenError
unfolding bytes keep_first
finish_decode ma (ctx, none, some derr) output = (ctx, output, some derr)
finish_decode ma (ctx, none, none) output = let out = ma.unmarshal [] output in (ctx, out.0, out.1)
finish_decode ma (ctx, some content, derr) output =
    let out = ma.unmarshal content output in (ctx, out.0, keep_first derr out.1)

module _ {ℓ} {W : Type ℓ} where
  -- EncodeWithAssociatedData.
  unfoldable pub encode_with_data : Bound W → Bytes → Bytes → W → W × Result TokenError Bytes
  encode_with_data b content aad w =
      if is_empty aad
      then b.be.encode content w
      else elim b.ade [ none ↦ (w, err unsupported) | some a ↦ a.encode_with content aad w ]

  -- DecodeWithAssociatedData.
  unfoldable pub decode_with_data : Bound W → W → Context → Bytes → Bytes → Decoded
  decode_with_data b wd ctx content aad =
      if is_empty aad then b.be.decode wd ctx content else elim b.ade [
        | none ↦ (ctx, none, some unsupported)
        | some a ↦ a.decode_with wd ctx content aad
      ]

  module _ {κ} {A : Type κ} (ma : Marshaller A) where
    -- TypeEncoder.Encode.
    unfoldable pub type_encode : BinaryEncoder W → A → W → W × Result TokenError Bytes
    type_encode be a w = elim (ma.marshal a) [ err e ↦ (w, err e) | ok buffer ↦ be.encode buffer w ]

    -- TypeEncoder.EncodeWithAssociatedData.
    unfoldable pub type_encode_with : Bound W → A → Bytes → W → W × Result TokenError Bytes
    unfolding encode_with_data
    type_encode_with b a aad w = elim (ma.marshal a) [
      | err e ↦ (w, err e)
      | ok buffer ↦ encode_with_data b buffer aad w
    ]

    -- TypeEncoder.Decode.
    unfoldable pub type_decode :
        BinaryEncoder W → W → Context → Bytes → A → Context × A × Option TokenError
    unfolding finish_decode
    type_decode be wd ctx content output = finish_decode ma (be.decode wd ctx content) output

    -- TypeEncoder.DecodeWithAssociatedData.
    unfoldable pub type_decode_with :
        Bound W → W → Context → Bytes → Bytes → A → Context × A × Option TokenError
    unfolding finish_decode decode_with_data
    type_decode_with b wd ctx content aad output =
        finish_decode ma (decode_with_data b wd ctx content aad) output
