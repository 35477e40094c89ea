-- ===== src/Token.antt =====
-- lib/token: encoders of binary tokens, and how they are combined. An encoder works in a world `W`,
-- which has the clock and the source of random numbers; to encode changes it, to decode reads it.
pub mod Chain
pub mod Time
pub mod MultiKey
pub mod Associated
pub mod Typed
mod Examples
use enkit.Common.{ℕ, ◌+◌, ◌≡◌, ◌<◌, List, [], ◌∷◌, ◌++◌, length, Option, none, some}
use enkit.Common.Results.{Result, ok, err}

abbrev pub Bytes : Type 0
Bytes = List ℕ

pub data ℤ : Type 0 where
  pos negsuc : ℕ → ℤ

-- A time: seconds since 1970, and nanoseconds after these, which may be more than a second.
pub record Instant : Type 0 where
  pub seconds : ℤ
  pub nanos : ℕ

pub data ContextKey : Type 0 where
  issued_time_key max_time_key expires_time_key : ContextKey

-- context.Context: the values that decoders left, the latest one first.
abbrev pub Context : Type 0
Context = List (ContextKey × Instant)

-- Where a key of a message and a key holder did not fit.
pub data Stage : Type 0 where
  key_not_decoded key_not_used not_decrypted : Stage

pub record KeyFailure : Type 0 where
  pub key : ℕ
  pub cipher : ℕ
  pub stage : Stage

-- The last one stands for the errors of other encoders, without their messages.
pub data TokenError : Type 0 where
  invalid_timestamp expired bad_ciphertext no_valid_key unsupported : TokenError
  bad_key : ℕ → TokenError
  several : KeyFailure → List KeyFailure → TokenError
  other : ℕ → TokenError

-- What Decode returns: the context, the data, which may be nil, and the error or nil.
abbrev pub Decoded : Type 0
Decoded = Context × Option Bytes × Option TokenError

-- The interface BinaryEncoder.
pub record BinaryEncoder {ℓ} (W : Type ℓ) : Type ℓ where
  pub encode : Bytes → W → W × Result TokenError Bytes
  pub decode : W → Context → Bytes → Decoded

-- What is decoded is `d`, without an error.
abbrev pub Gives {ℓ} : {W : Type ℓ} → BinaryEncoder W → W → Bytes → Bytes → Type 0
Gives enc wd e d = (ctx : Context) → (ctx' : Context) × (enc.decode wd ctx e ≡ (ctx', some d, none))

-- An encoder whose data can be decoded in every world that is `ready` for what was encoded.
pub record IsEncoder {ℓ κ} {W : Type ℓ} (ready : W → W → Type κ) (enc : BinaryEncoder W)
    : Type (ℓ ⊔ κ) where
  pub decode-encode :
      (d e : Bytes) (w w' wd : W) → enc.encode d w ≡ (w', ok e) → ready w wd → Gives enc wd e d
  pub ready-encode :
      (d e : Bytes) (w w' wd : W) → enc.encode d w ≡ (w', ok e) → ready w wd → ready w' wd

-- encoding/binary of Go's library; `none` is a count of bytes that is not positive.
pub record Varints : Type 0 where
  pub put_uvarint : ℕ → Bytes
  pub uvarint : Bytes → Option (ℕ × ℕ)
  pub put_varint : ℤ → Bytes
  pub varint : Bytes → Option (ℤ × ℕ)

pub record IsVarints (v : Varints) : Type 0 where
  pub uvarint-put_uvarint :
      (n : ℕ) (rest : Bytes)
      → n < 18446744073709551616
      → v.uvarint (v.put_uvarint n ++ rest) ≡ some (n, length (v.put_uvarint n))
  pub varint-put_varint :
      (n : ℕ) (rest : Bytes)
      → n < 9223372036854775808
      → v.varint (v.put_varint (pos n) ++ rest) ≡ some (pos n, length (v.put_varint (pos n)))
