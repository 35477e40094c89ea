-- ===== src/Token/MultiKey.antt =====
-- lib/token/multi.go: data that several keys can decode, as DefaultAllocator gives it room.
pub mod Frames
pub mod Encoding
pub mod Holders
pub mod Roundtrip
use enkit.Common.{
  ℕ, zero, suc, ◌+◌, Bool, true, false, ◌||◌, List, [], ◌∷◌, ◌++◌, length, take, drop, Option, none,
  some, if◌then◌else◌, ltb, leb, ◌==◌,
}
use enkit.Common.Results.{Result, ok, err, ◌>>=◌}
use enkit.Token.{
  Bytes, Context, Stage, key_not_decoded, key_not_used, not_decrypted, KeyFailure, TokenError,
  bad_ciphertext, no_valid_key, bad_key, several, Decoded, BinaryEncoder, Varints,
}

-- The fields of MultiKeyCryptoEncoder. The CryptoFactory is called without a key, to make one, and
-- with a key, which may be nil, to decode.
pub record MultiKey {ℓ} (W : Type ℓ) : Type ℓ where
  pub create : W → W × Result TokenError (BinaryEncoder W × Bytes)
  pub create_with : W → Option Bytes → Result TokenError (BinaryEncoder W)
  pub keyholder : List (BinaryEncoder W)

-- multierror.NewOr.
unfoldable pub new_or : List KeyFailure → TokenError → TokenError
new_or [] fallback = fallback
new_or (e ∷ es) fallback = several e es

module _ (v : Varints) where
  -- The closure `add` of Encode.
  unfoldable pub frame : Bytes → Bytes
  frame content = v.put_uvarint (length content) ++ content

  -- A length and what it counts, off the front of a buffer; math.MaxInt32 is the most.
  unfoldable pub split_frame : Bytes → Option (Bytes × Bytes)
  split_frame buffer = elim (v.uvarint buffer) [
    | none ↦ none
    | some (size, n) ↦
        if ltb 2147483647 size || size == 0 || ltb (length buffer) (n + size)
        then none
        else some (take size (drop n buffer), drop size (drop n buffer))
  ]

module _ {ℓ} {W : Type ℓ} (v : Varints) where
  unfoldable pub encode_keys : List (BinaryEncoder W) → Bytes → W → W × Result TokenError Bytes
  unfolding frame
  encode_keys [] key w = (w, ok [])
  encode_keys (kh ∷ khs) key w =
      let (w', ek) = kh.encode key w in
      elim ek [
        | err e ↦ (w', err e)
        | ok ek ↦
            (let rest = encode_keys khs key w' in
              (rest.0, rest.1 >>= λ frames. ok (frame v ek ++ frames)))
      ]

module _ {ℓ} {W : Type ℓ} (v : Varints) (mke : MultiKey W) where
  unfoldable pub encode_with : BinaryEncoder W → Bytes → Bytes → W → W × Result TokenError Bytes
  unfolding encode_keys
  encode_with sc key content w =
      let (w', cipherdata) = sc.encode content w in
      elim cipherdata [
        | err e ↦ (w', err e)
        | ok c ↦
            (let keys = encode_keys v mke.keyholder key w' in
              (keys.0, keys.1 >>= λ frames. ok (frame v c ++ frames)))
      ]

  -- Encode.
  unfoldable pub multi_encode : Bytes → W → W × Result TokenError Bytes
  unfolding encode_with
  multi_encode content w =
      let (w', made) = mke.create w in
      elim made [ err e ↦ (w', err e) | ok (sc, key) ↦ encode_with sc key content w' ]

  -- One round of the loop over the key holders: the context, and the data or where it failed.
  unfoldable pub try_holder :
      W → Bytes → Bytes → BinaryEncoder W → Context → Context × (Result Stage (Option Bytes))
  try_holder wd ciphertext currentkey kh ctx =
      let (ctx', decodedkey, failed) = kh.decode wd ctx currentkey in
      elim failed [
        | some e ↦ (ctx', err key_not_decoded)
        | none ↦ elim (mke.create_with wd decodedkey) [
          | err e ↦ (ctx', err key_not_used)
          | ok sc ↦
              (let (ctx2, cleartext, failed2) = sc.decode wd ctx' ciphertext in
                elim failed2 [ some e ↦ (ctx2, err not_decrypted) | none ↦ (ctx2, ok cleartext) ])
        ]
      ]

  -- The loop over the key holders, with the number of the next one: the context, and the data or
  -- the errors so far.
  unfoldable pub try_holders :
      W
      → Bytes
      → Bytes
      → ℕ
      → List (BinaryEncoder W)
      → ℕ
      → Context
      → List KeyFailure
      → Context × Result (List KeyFailure) (Option Bytes)
  unfolding try_holder
  try_holders wd ciphertext currentkey keyid [] cx ctx errors = (ctx, err errors)
  try_holders wd ciphertext currentkey keyid (kh ∷ khs) cx ctx errors =
      let (ctx', out) = try_holder wd ciphertext currentkey kh ctx in
      elim out [
        | ok cleartext ↦ (ctx', ok cleartext)
        | err stage ↦
            try_holders wd ciphertext currentkey keyid khs (suc cx) ctx'
              (errors ++ record { key = keyid; cipher = cx; stage = stage } ∷ [])
      ]

  -- The loop over the keys of the message. Each takes at least a byte, so that as many rounds as the
  -- buffer has bytes are enough.
  unfoldable pub try_keys : ℕ → W → Bytes → ℕ → Bytes → Context → List KeyFailure → Decoded
  unfolding split_frame try_holders new_or
  try_keys k wd ciphertext keyid [] ctx errors = (ctx, none, some (new_or errors no_valid_key))
  try_keys zero wd ciphertext keyid (b ∷ keybuffer) ctx errors =
      (ctx, none, some (new_or errors no_valid_key))
  try_keys (suc k) wd ciphertext keyid (b ∷ keybuffer) ctx errors =
      elim (split_frame v (b ∷ keybuffer)) [
        | none ↦ (ctx, none, some (bad_key keyid))
        | some (currentkey, rest) ↦
            (let (ctx', out) =
                try_holders wd ciphertext currentkey keyid mke.keyholder 0 ctx errors in
              elim out [
                | ok cleartext ↦ (ctx', cleartext, none)
                | err errors' ↦ try_keys k wd ciphertext (suc keyid) rest ctx' errors'
              ])
      ]

  -- Decode.
  unfoldable pub multi_decode : W → Context → Bytes → Decoded
  unfolding try_keys
  multi_decode wd ctx buffer = elim (split_frame v buffer) [
    | none ↦ (ctx, none, some bad_ciphertext)
    | some (ciphertext, keybuffer) ↦ try_keys (length keybuffer) wd ciphertext 0 keybuffer ctx []
  ]

  abbrev pub multi_encoder : BinaryEncoder W
  multi_encoder = record { encode = multi_encode; decode = multi_decode }
