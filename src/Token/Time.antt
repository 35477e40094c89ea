-- ===== src/Token/Time.antt =====
-- lib/token/time.go: encoders that add the time, for validities that are not negative. The clock
-- counts nanoseconds since 1970.
pub mod Laws
use enkit.Common.{
  ℕ, suc, ◌+◌, ◌*◌, ◌/◌, Bool, true, false, ◌||◌, List, [], ◌∷◌, ◌++◌, drop, Option, none, some,
  if◌then◌else◌, ltb, leb, ◌==◌,
}
use enkit.Common.Results.{Result, ok, err}
use enkit.Token.{
  Bytes, ℤ, pos, negsuc, Instant, ContextKey, issued_time_key, max_time_key, expires_time_key,
  Context, TokenError, invalid_timestamp, expired, Decoded, BinaryEncoder, Varints,
}

-- TimeEncoder and ExpireEncoder have the same fields.
pub record TimeFields {ℓ} (W : Type ℓ) : Type ℓ where
  pub validity : ℕ
  pub now : W → ℕ

abbrev pub nanos_per_second : ℕ
nanos_per_second = 1000000000

-- time.Time.Unix.
abbrev pub unix : ℕ → ℤ
unix t = pos (t / nanos_per_second)

-- time.Unix and time.Time.Add.
abbrev pub from_unix : ℤ → ℕ → Instant
from_unix seconds nanos = record { seconds = seconds; nanos = nanos }

-- time.Time.Before.
unfoldable pub is_before : Instant → ℕ → Bool
is_before i t = elim i.seconds [
  | pos s ↦ ltb (s * nanos_per_second + i.nanos) t
  | negsuc s ↦ ltb i.nanos (t + suc s * nanos_per_second)
]

-- `issued <= 0`
unfoldable pub not_positive : ℤ → Bool
not_positive (pos n) = n == 0
not_positive (negsuc n) = true

module _ {ℓ} {W : Type ℓ} (v : Varints) (t : TimeFields W) where
  -- TimeEncoder.Encode.
  unfoldable pub time_encode : Bytes → W → W × Result TokenError Bytes
  time_encode content w = (w, ok (v.put_varint (unix (t.now w)) ++ content))

  -- TimeEncoder.Decode.
  unfoldable pub time_decode : W → Context → Bytes → Decoded
  unfolding is_before not_positive
  time_decode wd ctx content = elim (v.varint content) [
    | none ↦ (ctx, none, some invalid_timestamp)
    | some (issued, parsed) ↦ (
      (max_time_key, from_unix issued t.validity) ∷ (issued_time_key, from_unix issued 0) ∷ ctx,
      some (drop parsed content),
      (if not_positive issued || is_before (from_unix issued t.validity) (t.now wd)
          then some expired
          else none),
    )
  ]

  abbrev pub time_encoder : BinaryEncoder W
  time_encoder = record { encode = time_encode; decode = time_decode }

  -- ExpireEncoder.Encode.
  unfoldable pub expire_encode : Bytes → W → W × Result TokenError Bytes
  expire_encode content w = (w, ok (v.put_varint (unix (t.now w + t.validity)) ++ content))

  -- ExpireEncoder.Decode.
  unfoldable pub expire_decode : W → Context → Bytes → Decoded
  unfolding is_before not_positive
  expire_decode wd ctx content = elim (v.varint content) [
    | none ↦ (ctx, none, some invalid_timestamp)
    | some (expires, parsed) ↦ (
      (expires_time_key, from_unix expires 0) ∷ ctx,
      some (drop parsed content),
      (if not_positive expires || is_before (from_unix expires 0) (t.now wd)
          then some expired
          else none),
    )
  ]

  abbrev pub expire_encoder : BinaryEncoder W
  expire_encoder = record { encode = expire_encode; decode = expire_decode }
