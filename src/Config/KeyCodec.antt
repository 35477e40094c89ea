-- ===== src/Config/KeyCodec.antt =====
-- lib/config/key_codec.go: keys as names that a store can hold.
pub mod Roundtrip
use enkit.Common.{
  ℕ, zero, suc, ◌+◌, ◌-◌, ◌*◌, ◌/◌, ◌%◌, Bool, true, false, ◌&&◌, ◌||◌, Option, none, some, List,
  [], ◌∷◌, if◌then◌else◌, ltb, leb, ◌==◌,
}
use enkit.Config.Text.{Text}
use Prim.Native.Nat.{bit_or}

unfoldable pub to_hex : ℕ → ℕ
to_hex v = if ltb v 10 then b'0' + v else b'A' + (v - 10)

-- `none` is the result false.
unfoldable pub from_hex : ℕ → Option ℕ
from_hex b =
    if leb b'0' b && leb b b'9'
    then some (b - b'0')
    else (if leb b'a' b && leb b b'f'
        then some (b - b'a' + 10)
        else (if leb b'A' b && leb b b'F' then some (b - b'A' + 10) else none))

-- The bytes that EncodeKey escapes.
unfoldable pub is_escaped : ℕ → Bool
is_escaped c = c == b'/' || c == b'%' || c == 0

unfoldable pub encode_key : Text → Text
unfolding is_escaped to_hex
encode_key [] = []
encode_key (c ∷ s) =
    let rest = encode_key s in
    if is_escaped c then b'%' ∷ to_hex (c / 16) ∷ to_hex (c % 16) ∷ rest else c ∷ rest

-- `(hi << 4) | lo`, of bytes.
unfoldable pub join_hex : Option ℕ → Option ℕ → Option ℕ
join_hex (some hi) (some lo) = some (bit_or (hi * 16 % 256) lo)
join_hex (some hi) none = none
join_hex none lo = none

unfoldable pub decode_key : Text → Text
unfolding from_hex join_hex
decode_key [] = []
decode_key (c ∷ []) = c ∷ []
decode_key (c ∷ a ∷ []) = c ∷ decode_key (a ∷ [])
decode_key (c ∷ a ∷ b ∷ s) = elim (c == b'%') [
  | false ↦ c ∷ decode_key (a ∷ b ∷ s)
  | true ↦ elim (join_hex (from_hex a) (from_hex b)) [
    | none ↦ c ∷ decode_key (a ∷ b ∷ s)
    | some v ↦ v ∷ decode_key s
  ]
]
