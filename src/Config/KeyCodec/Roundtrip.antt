-- ===== src/Config/KeyCodec/Roundtrip.antt =====
-- Keys survive EncodeKey and DecodeKey, and encoded keys hold neither `/` nor NUL.
use enkit.Common.{
  ℕ, ◌*◌, ◌/◌, ◌%◌, ◌<◌, ◌≡◌, ◌∙◌, refl, ap, false, some, [], ◌∷◌, ◌==◌, arith, Bool-cases, inl,
  inr, ◌⊎◌,
}
use Prim.Native.Nat.{bit_or}
use enkit.Common.Bits.{bit_or-disjoint}
use enkit.Config.Text.{Text, AreBytes, contains}
use enkit.Config.KeyCodec.{to_hex, from_hex, is_escaped, encode_key, decode_key}

from_hex-to_hex : (v : ℕ) → v < 16 → from_hex (to_hex v) ≡ some v
unfolding from_hex to_hex
from_hex-to_hex v h = ground arith

nibbles : (c : ℕ) → c < 256 → bit_or (c / 16 * 16 % 256) (c % 16) ≡ c
nibbles c h =
    let e : c / 16 * 16 % 256 ≡ c / 16 * 16 = omega arith in
    rw e (bit_or-disjoint 4 (c / 16) (c % 16) (omega arith) ∙ omega arith)

decode_key-plain : (c : ℕ) (s : Text) → (c == b'%') ≡ false → decode_key (c ∷ s) ≡ c ∷ decode_key s
unfolding decode_key
decode_key-plain c [] h = refl
decode_key-plain c (a ∷ []) h = refl
decode_key-plain c (a ∷ b ∷ s) h = rw (h, decode_key) refl

decode_key-escape :
    (c : ℕ) (s : Text)
    → c < 256
    → decode_key (b'%' ∷ to_hex (c / 16) ∷ to_hex (c % 16) ∷ s) ≡ c ∷ decode_key s
unfolding decode_key
decode_key-escape c s h =
    rw
      (
        from_hex-to_hex (c / 16) (omega arith),
        from_hex-to_hex (c % 16) (omega arith),
        nibbles c h,
        decode_key,
      )
      refl

not_percent : (c : ℕ) → is_escaped c ≡ false → (c == b'%') ≡ false
unfolding is_escaped
not_percent c h = ground arith

-- Decoding an encoded key gives the key.
pub decode_key-encode_key : (s : Text) → AreBytes s → decode_key (encode_key s) ≡ s
unfolding encode_key decode_key
decode_key-encode_key [] h = refl
decode_key-encode_key (c ∷ s) (h, t) = elim (Bool-cases (is_escaped c)) [
  | inl e ↦
      rw e (decode_key-escape c (encode_key s) h ∙ ap (λ l. c ∷ l) (decode_key-encode_key s t))
  | inr e ↦ rw e (
      decode_key-plain c (encode_key s) (not_percent c e)
      ∙ ap (λ l. c ∷ l) (decode_key-encode_key s t))
]

to_hex-ne : (v d : ℕ) → v < 16 → d < b'0' → (d == to_hex v) ≡ false
unfolding to_hex
to_hex-ne v d h k = ground arith

kept : (d c : ℕ) → is_escaped c ≡ false → d ≡ 0 ⊎ d ≡ b'/' → (d == c) ≡ false
unfolding is_escaped
kept d c h (inl e) = ground arith
kept d c h (inr e) = ground arith

contains-encode_key :
    (d : ℕ) (s : Text) → AreBytes s → d ≡ 0 ⊎ d ≡ b'/' → contains d (encode_key s) ≡ false
unfolding contains encode_key
contains-encode_key d [] h k = refl
contains-encode_key d (c ∷ s) (h, t) k = elim (Bool-cases (is_escaped c)) [
  | inl e ↦ rw e (
      let ih = contains-encode_key d s t k in
      let low : d < b'0' = ground arith in
      let p : (d == b'%') ≡ false = ground arith in
      rw (p, to_hex-ne (c / 16) d (omega arith) low, to_hex-ne (c % 16) d (omega arith) low) ih)
  | inr e ↦
      rw e
        (let ih = contains-encode_key d s t k in let p : (d == c) ≡ false = kept d c e k in rw p ih)
]

-- An encoded key holds neither a slash nor a NUL, so that it is one segment of a path.
pub encode_key-contains :
    (s : Text)
    → AreBytes s
    → (contains b'/' (encode_key s) ≡ false) × (contains 0 (encode_key s) ≡ false)
encode_key-contains s h =
    (contains-encode_key b'/' s h (inr refl), contains-encode_key 0 s h (inl refl))
