-- ===== src/Token/MultiKey/Roundtrip.antt =====
-- A message for several keys is decoded by any holder of one of them.
use enkit.Common.{◌≤◌, ◌≡◌, ◌∙◌, ap, sym, [], length, none, some, arith}
use enkit.Common.Results.{ok}
use enkit.Token.{Bytes, Context, BinaryEncoder, Varints, IsVarints}
use enkit.Token.MultiKey.{MultiKey, split_frame, multi_encode, multi_decode}
use mathlib.Core.List.{Memᴰ}
use enkit.Token.MultiKey.Frames.{split_frame-frame, frame_fits}
use enkit.Token.MultiKey.Encoding.{encode_with-ok, multi_encode-ok}
use enkit.Token.MultiKey.Holders.{IsHonest, IsOpening, IsFilled, IsFactory, try_keys-Gives}

module _ {ℓ} {W : Type ℓ} (v : Varints) (is_v : IsVarints v) (dec : MultiKey W) (wd : W) where
  -- What was encoded for several key holders is decoded with any key holder that opens what one of
  -- these made of the key, wherever it stands in the decoder and in the message, if every other
  -- holder of the decoder also gets the key or fails with an error, an encoder can be made again from
  -- its key, no encoder gives an empty result, and the message has at most 2^31 - 1 bytes.
  pub multi_decode-multi_encode :
      (mke : MultiKey W) (d message : Bytes) (w w' : W) (kh h : BinaryEncoder W)
      → IsFactory wd mke dec
      → ((p : BinaryEncoder W) → Memᴰ p mke.keyholder → IsFilled p)
      → ((p q : BinaryEncoder W) → Memᴰ p mke.keyholder → Memᴰ q dec.keyholder → IsHonest wd p q)
      → Memᴰ kh mke.keyholder
      → Memᴰ h dec.keyholder
      → IsOpening wd kh h
      → multi_encode v mke d w ≡ (w', ok message)
      → length message ≤ 2147483647
      → (ctx : Context)
      → (ctx' : Context) × (multi_decode v dec wd ctx message ≡ (ctx', some d, none))
  unfolding multi_decode
  multi_decode-multi_encode mke d message w w' kh h factory filled honest m n opens e small ctx =
      let (sc, key, w1, made, rest) = multi_encode-ok v mke d message w w' e in
      let (c, frames, w2, enciphered, keys, at) =
        encode_with-ok v mke sc key d message w1 w' rest in
      let (sc_filled, (sc', again, opening)) = factory w w1 sc key made in
      let (framed, shorter) =
        frame_fits v is_v c frames message at (sc_filled w1 w2 d c enciphered) small in
      let split = ap (split_frame v) (sym at) ∙ split_frame-frame v is_v c frames framed in
      let (ctx', r) =
        try_keys-Gives v is_v dec wd sc' key c d again (opening w1 w2 d c enciphered) mke.keyholder
          kh h w2 w' frames (length frames) 0 ctx [] keys honest filled (omega arith) m n opens
          (omega arith) in
      (ctx', rw (split, multi_decode) r)
