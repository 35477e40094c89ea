-- ===== src/Nasshp/Receive.antt =====
-- The ReceiveWindow of proxy/nasshp/window.go: bytes received, of which the peer may send some
-- again after a reconnection: Reset, ToFill and Fill.
pub mod Resending
use enkit.Common.{
  ℕ, zero, suc, ◌+◌, ◌-◌, ◌&&◌, Option, none, some, List, [], ◌∷◌, ◌++◌, length, if◌then◌else◌, ltb,
  ◌==◌,
}
use enkit.Common.Words.{add64, sub64}
use enkit.Nasshp.Absolute.{to_absolute}
use enkit.Nasshp.Buffer.{Buffer, fresh, room, grow, pending_bytes}

pub record ReceiveWindow : Type 0 where
  pub filled : ℕ
  -- The position of a reset; 0 if there is none.
  pub reset_position : ℕ
  pub emptied : ℕ
  pub size : ℕ
  pub buffer : List Buffer

-- Reset appends a buffer, unless the last one is empty.
unfoldable pub fresh_last : List Buffer → List Buffer
fresh_last [] = []
fresh_last (x ∷ []) = if ltb 0 (length x.bytes) then x ∷ fresh ∷ [] else x ∷ []
fresh_last (x ∷ y ∷ r) = x ∷ fresh_last (y ∷ r)

-- Reset; `none` is its error.
unfoldable pub receive_reset : ReceiveWindow → ℕ → Option ReceiveWindow
unfolding fresh_last
receive_reset w wack =
    let value = to_absolute w.emptied wack in
    if value == w.filled
    then some w
    else (if ltb w.filled value
        then none
        else some (record w { buffer = fresh_last w.buffer; reset_position = value }))

-- ToFill.
unfoldable pub receive_to_fill : ReceiveWindow → ReceiveWindow × ℕ
receive_to_fill w = let out = room w.size w.buffer in (record w { buffer = out.0 }, out.1)

-- `last.offset = …`
unfoldable pub set_last_offset : ℕ → List Buffer → List Buffer
set_last_offset k [] = []
set_last_offset k (x ∷ []) = record x { offset = k } ∷ []
set_last_offset k (x ∷ y ∷ r) = x ∷ set_last_offset k (y ∷ r)

-- Fill, once the caller has copied `new` to the slice of ToFill; Go panics, `none`, if they do not
-- fit.
unfoldable pub receive_fill : ReceiveWindow → List ℕ → Option (ReceiveWindow × ℕ)
unfolding set_last_offset
receive_fill w new =
    let sentalready = sub64 w.filled w.reset_position in
    let reset' = add64 w.reset_position (length new) in
    let skipped = add64 w.filled (sub64 (length new) sentalready) in
    let added = add64 w.filled (length new) in
    if ltb 0 w.reset_position && ltb w.reset_position w.filled
    then (if ltb (length new) sentalready
        then some (record w { reset_position = reset' }, reset')
        else elim (grow w.size new (set_last_offset sentalready w.buffer)) [
          | none ↦ none
          | some b ↦ some (record w { filled = skipped; reset_position = 0; buffer = b }, skipped)
        ])
    else elim (grow w.size new w.buffer) [
      | none ↦ none
      | some b ↦ some (record w { filled = added; buffer = b }, added)
    ]
