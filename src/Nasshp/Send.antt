-- ===== src/Nasshp/Send.antt =====
-- The SendWindow of proxy/nasshp/window.go: bytes to send, and bytes sent that are kept until they
-- are acknowledged. The statistics of the pool are not modelled.
pub mod Emptying
pub mod Rewinding
pub mod Filling
pub mod Runs
pub mod View
pub mod Acknowledging
use enkit.Common.{
  ℕ, zero, suc, ◌+◌, ◌-◌, Option, none, some, List, [], ◌∷◌, ◌++◌, length, if◌then◌else◌, ltb, ◌==◌,
}
use enkit.Common.Words.{add64}
use enkit.Nasshp.Absolute.{to_absolute}
use enkit.Nasshp.Buffer.{Buffer, room, grow, pending_bytes}

pub record SendWindow : Type 0 where
  pub filled : ℕ
  pub emptied : ℕ
  pub acknowledged : ℕ
  -- The capacity of the pool's buffers.
  pub size : ℕ
  pub buffer : List Buffer
  pub pending : List Buffer

-- NewSendWindow.
unfoldable pub new_send_window : ℕ → SendWindow
new_send_window size = record {
  filled = 0;
  emptied = 0;
  acknowledged = 0;
  size = size;
  buffer = [];
  pending = [];
}

-- ToFill: the window, and the length of the slice.
unfoldable pub to_fill : SendWindow → SendWindow × ℕ
unfolding room
to_fill w = let out = room w.size w.buffer in (record w { buffer = out.0 }, out.1)

-- Fill, once the caller has copied `new` to the slice of ToFill.
unfoldable pub fill : SendWindow → List ℕ → Option (SendWindow × ℕ)
fill w new = elim (grow w.size new w.buffer) [
  | none ↦ none
  | some buffer' ↦
      let filled' = add64 w.filled (length new) in
      some (record w { filled = filled'; buffer = buffer' }, filled')
]

-- Whether ToEmpty leaves a buffer that has been emptied.
unfoldable pub advance : List Buffer → List Buffer → List Buffer × List Buffer
unfolding pending_bytes
advance pending [] = (pending, [])
advance pending (x ∷ []) = (pending, x ∷ [])
advance pending (x ∷ y ∷ r) = elim (pending_bytes x) [
  | [] ↦ (pending ++ (record x { offset = 0 } ∷ []), y ∷ r)
  | _ ∷ _ ↦ (pending, x ∷ y ∷ r)
]

unfoldable pub first_bytes : List Buffer → List ℕ
unfolding pending_bytes
first_bytes [] = []
first_bytes (x ∷ r) = pending_bytes x

-- ToEmpty: the window, and the bytes of the slice.
unfoldable pub to_empty : SendWindow → SendWindow × List ℕ
unfolding advance first_bytes
to_empty w =
    let out = advance w.pending w.buffer in
    (record w { pending = out.0; buffer = out.1 }, first_bytes out.1)

-- The loop of Empty, over the lists `pending` and `buffer`.
unfoldable pub empty_loop : ℕ → List Buffer → List Buffer → List Buffer × List Buffer
empty_loop n pending [] = (pending, [])
empty_loop n pending (x ∷ []) =
    let occupancy = length x.bytes - x.offset in
    (pending, record x { offset = x.offset + (if ltb n occupancy then n else occupancy) } ∷ [])
empty_loop n pending (x ∷ y ∷ r) =
    let occupancy = length x.bytes - x.offset in
    let rest = empty_loop (n - occupancy) (pending ++ (record x { offset = 0 } ∷ [])) (y ∷ r) in
    if ltb n occupancy then (pending, record x { offset = x.offset + n } ∷ y ∷ r) else rest

-- Empty.
unfoldable pub empty : SendWindow → ℕ → SendWindow
unfolding empty_loop
empty w n =
    let out = empty_loop n w.pending w.buffer in
    record w { emptied = add64 w.emptied n; pending = out.0; buffer = out.1 }

-- The loop of Acknowledge over the pending buffers: those that stay, and how many bytes are left
-- for the first buffer to send, 0 if the method returns from the loop.
unfoldable pub acknowledge_loop : ℕ → List Buffer → List Buffer × ℕ
acknowledge_loop n [] = ([], n)
acknowledge_loop n (x ∷ r) =
    let occupancy = length x.bytes - x.acknowledged in
    let rest = acknowledge_loop (n - occupancy) r in
    if n == 0
    then (x ∷ r, 0)
    else (if ltb n occupancy then (record x { acknowledged = x.acknowledged + n } ∷ r, 0) else rest)

-- The end of Acknowledge, for the first buffer to send.
unfoldable pub acknowledge_first : ℕ → List Buffer → List Buffer
acknowledge_first n [] = []
acknowledge_first n (x ∷ r) =
    record x {
      acknowledged = (if ltb (x.acknowledged + n) x.offset then x.acknowledged + n else x.offset);
    }
    ∷ r

-- Acknowledge.
unfoldable pub acknowledge : SendWindow → ℕ → SendWindow
unfolding acknowledge_loop acknowledge_first
acknowledge w n =
    let out = acknowledge_loop n w.pending in
    record w {
      acknowledged = add64 w.acknowledged n;
      pending = out.0;
      buffer = (if out.1 == 0 then w.buffer else acknowledge_first out.1 w.buffer);
    }

-- The errors of AcknowledgeUntil and of Reset: data that was never sent, data already freed.
pub data AckError : Type 0 where
  never_sent already_acknowledged : AckError

pub data AckResult : Type 0 where
  accepted : SendWindow → AckResult
  rejected : AckError → AckResult

-- AcknowledgeUntil. Its first result is the `acknowledged` of the window that it leaves.
unfoldable pub acknowledge_until : SendWindow → ℕ → AckResult
acknowledge_until w trunc =
    let value = to_absolute w.acknowledged trunc in
    if ltb w.emptied value
    then rejected never_sent
    else (if ltb value w.acknowledged
        then rejected already_acknowledged
        else accepted (acknowledge w (value - w.acknowledged)))

-- `first.offset = …`, for the first buffer of a list.
unfoldable pub set_first_offset : (Buffer → ℕ) → List Buffer → List Buffer
set_first_offset f [] = []
set_first_offset f (x ∷ r) = record x { offset = f x } ∷ r

-- What Reset does to a window, once it has acknowledged.
unfoldable pub rewind : SendWindow → SendWindow
unfolding set_first_offset
rewind w = record w {
  buffer = set_first_offset (λ x. x.acknowledged) (w.pending ++ set_first_offset (λ x. 0) w.buffer);
  pending = [];
  emptied = w.acknowledged;
}

-- Reset.
unfoldable pub reset : SendWindow → ℕ → AckResult
reset w trunc =
    let value = to_absolute w.acknowledged trunc in
    if ltb w.emptied value
    then rejected never_sent
    else (if ltb value w.acknowledged
        then rejected already_acknowledged
        else accepted (rewind (acknowledge w (value - w.acknowledged))))
