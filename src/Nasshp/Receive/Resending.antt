-- ===== src/Nasshp/Receive/Resending.antt =====
-- Reset, ToFill and Fill of the ReceiveWindow: bytes that the peer sends again are skipped.
use enkit.Common.{
  ℕ, true, false, ◌+◌, ◌-◌, ◌≤◌, ◌<◌, ◌≡◌, ◌∙◌, refl, ap, sym, some, List, [], ◌∷◌, ◌++◌, length,
  drop, drop-nil, length-zero, ltb, leb, ◌==◌, Bool-cases, inl, inr, arith,
}
use enkit.Common.Words.{u64_mod, add64, add64_small, sub64, sub64_small}
use enkit.Nasshp.Absolute.{to_absolute}
use enkit.Nasshp.Buffer.{Buffer, fresh, room, grow}
use enkit.Nasshp.Receive.{
  ReceiveWindow, fresh_last, receive_reset, receive_to_fill, set_last_offset, receive_fill,
}
use mathlib.Core.List.{append_assoc, append-nil}

abbrev pub unread_bytes : List Buffer → List ℕ
unread_bytes [] = []
unread_bytes (x ∷ r) = drop x.offset x.bytes ++ unread_bytes r

abbrev pub unread : ReceiveWindow → List ℕ
unread w = unread_bytes w.buffer

module _ (size : ℕ) (z : Buffer) where
  room-snoc :
      (f : List Buffer)
      → length z.bytes < size
      → room size (f ++ z ∷ []) ≡ (f ++ z ∷ [], size - length z.bytes)
  unfolding room
  room-snoc [] h = let t : ltb (length z.bytes) size ≡ true = ground arith in rw t refl
  room-snoc (a ∷ []) h = let t : ltb (length z.bytes) size ≡ true = ground arith in rw t refl
  room-snoc (a ∷ c ∷ f) h = let e = room-snoc (c ∷ f) h in ap (λ p. (a ∷ p.0, p.1)) e

  set_last_offset-snoc :
      (k : ℕ) (f : List Buffer)
      → set_last_offset k (f ++ z ∷ []) ≡ f ++ record z { offset = k } ∷ []
  unfolding set_last_offset
  set_last_offset-snoc k [] = refl
  set_last_offset-snoc k (a ∷ []) = refl
  set_last_offset-snoc k (a ∷ c ∷ f) = ap (λ p. a ∷ p) (set_last_offset-snoc k (c ∷ f))

  grow-snoc :
      (new : List ℕ) (f : List Buffer)
      → length z.bytes + length new ≤ size
      → grow size new (f ++ z ∷ []) ≡ some (f ++ record z { bytes = z.bytes ++ new } ∷ [])
  unfolding grow
  grow-snoc new [] h =
      let t : leb (length z.bytes + length new) size ≡ true = ground arith in rw t refl
  grow-snoc new (a ∷ []) h =
      let t : leb (length z.bytes + length new) size ≡ true = ground arith in rw (t, grow) refl
  grow-snoc new (a ∷ c ∷ f) h = let e = grow-snoc new (c ∷ f) h in rw (e, grow) refl

unread-snoc :
    (f : List Buffer) (z : Buffer)
    → unread_bytes (f ++ z ∷ []) ≡ unread_bytes f ++ drop z.offset z.bytes
unread-snoc [] z = append-nil (drop z.offset z.bytes)
unread-snoc (x ∷ f) z =
    ap (λ l. drop x.offset x.bytes ++ l) (unread-snoc f z)
    ∙ sym (append_assoc (drop x.offset x.bytes) (unread_bytes f) (drop z.offset z.bytes))

-- Lists that end in an empty buffer, behind the unread bytes of `b`.
EndsEmpty : List Buffer → List Buffer → Type 0
EndsEmpty b b' =
    (f : List Buffer) × (z : Buffer) × (z.bytes ≡ [])
    × (b' ≡ f ++ z ∷ [])
    × (unread_bytes f ≡ unread_bytes b)

fresh_last-EndsEmpty : (x : Buffer) (r : List Buffer) → EndsEmpty (x ∷ r) (fresh_last (x ∷ r))
unfolding EndsEmpty fresh_last
fresh_last-EndsEmpty x [] = elim (Bool-cases (ltb 0 (length x.bytes))) [
  | inl e ↦ (x ∷ [], fresh, refl, rw e refl, refl)
  | inr e ↦
      (let none_there : x.bytes ≡ [] = length-zero x.bytes (ground arith) in
        (
          [],
          x,
          none_there,
          rw e refl,
          sym (
              ap (λ l. drop x.offset l ++ []) none_there
              ∙ append-nil (drop x.offset [])
              ∙ drop-nil x.offset),
        ))
]
fresh_last-EndsEmpty x (y ∷ r) =
    let (f, z, e, same, bytes) = fresh_last-EndsEmpty y r in
    (x ∷ f, z, e, ap (λ l. x ∷ l) same, ap (λ l. drop x.offset x.bytes ++ l) bytes)

ready :
    (size : ℕ) (b : List Buffer)
    → 0 < size
    → EndsEmpty b (room size (fresh_last b)).0 × ((room size (fresh_last b)).1 ≡ size)
unfolding EndsEmpty fresh_last room
ready size [] h = (([], fresh, refl, refl, refl), refl)
ready size (x ∷ r) h =
    let (f, z, e, same, bytes) = fresh_last-EndsEmpty x r in
    let empty_size : length z.bytes ≡ 0 = ap length e in
    let out : room size (fresh_last (x ∷ r)) ≡ (f ++ z ∷ [], size - length z.bytes) =
      ap (room size) same ∙ room-snoc size z f (omega arith) in
    ((f, z, e, ap (λ p. p.0) out, bytes), ap (λ p. p.1) out ∙ omega arith)

-- Bytes that are copied to the end of such a list, of which `k` are skipped.
skipping :
    (size k : ℕ) (new : List ℕ) (b b' : List Buffer)
    → EndsEmpty b b'
    → length new ≤ size
    → (s : List Buffer) × (grow size new (set_last_offset k b') ≡ some s)
      × (unread_bytes s ≡ unread_bytes b ++ drop k new)
unfolding EndsEmpty
skipping size k new b b' (f, z, e, same, bytes) h =
    let z' : Buffer = record z { offset = k } in
    let full : Buffer = record z' { bytes = z.bytes ++ new } in
    let empty_size : length z.bytes ≡ 0 = ap length e in
    (
      f ++ full ∷ [],
      ap (grow size new) (ap (set_last_offset k) same ∙ set_last_offset-snoc size z k f)
          ∙ grow-snoc size z' new f (omega arith),
      unread-snoc f full
          ∙ ap (λ l. l ++ drop k (z.bytes ++ new)) bytes
          ∙ ap (λ l. unread_bytes b ++ drop k (l ++ new)) e,
    )

EndsEmpty-unread : (b b' : List Buffer) → EndsEmpty b b' → unread_bytes b' ≡ unread_bytes b
unfolding EndsEmpty
EndsEmpty-unread b b' (f, z, e, same, bytes) =
    ap unread_bytes same
    ∙ unread-snoc f z
    ∙ ap (λ l. unread_bytes f ++ drop z.offset l) e
    ∙ ap (λ l. unread_bytes f ++ l) (drop-nil z.offset)
    ∙ append-nil (unread_bytes f)
    ∙ bytes

module _ (w : ReceiveWindow) (new : List ℕ) where
  fill_again :
      (b : List Buffer)
      → 0 < w.reset_position
      → w.reset_position < w.filled
      → w.filled < u64_mod
      → w.filled ≤ w.reset_position + length new
      → w.reset_position + length new < u64_mod
      → grow w.size new (set_last_offset (w.filled - w.reset_position) w.buffer) ≡ some b
      → receive_fill w new
        ≡ some (
          record w { filled = w.reset_position + length new; reset_position = 0; buffer = b },
          w.reset_position + length new,
        )
  unfolding receive_fill
  fill_again b h k small much fits e =
      let s : sub64 w.filled w.reset_position ≡ w.filled - w.reset_position =
        sub64_small w.filled w.reset_position (omega arith) small in
      let d : sub64 (length new) (w.filled - w.reset_position)
          ≡ length new - (w.filled - w.reset_position) =
        sub64_small (length new) (w.filled - w.reset_position) (omega arith) (omega arith) in
      let c : add64 w.filled (length new - (w.filled - w.reset_position))
          ≡ w.reset_position + length new =
        add64_small w.filled (length new - (w.filled - w.reset_position)) (omega arith)
        ∙ omega arith in
      let sk : add64 w.filled (sub64 (length new) (sub64 w.filled w.reset_position))
          ≡ w.reset_position + length new =
        ap (λ i. add64 w.filled (sub64 (length new) i)) s ∙ ap (add64 w.filled) d ∙ c in
      let t : ltb 0 w.reset_position ≡ true = ground arith in
      let t' : ltb w.reset_position w.filled ≡ true = ground arith in
      let t'' : ltb (length new) (w.filled - w.reset_position) ≡ false = ground arith in
      rw (t, t', s, t'', e, sk, receive_fill) refl

  fill_known :
      0 < w.reset_position
      → w.reset_position < w.filled
      → w.filled < u64_mod
      → w.reset_position + length new < w.filled
      → receive_fill w new
        ≡ some (
          record w { reset_position = w.reset_position + length new },
          w.reset_position + length new,
        )
  unfolding receive_fill
  fill_known h k small few =
      let s : sub64 w.filled w.reset_position ≡ w.filled - w.reset_position =
        sub64_small w.filled w.reset_position (omega arith) small in
      let c : add64 w.reset_position (length new) ≡ w.reset_position + length new =
        add64_small w.reset_position (length new) (omega arith) in
      let t : ltb 0 w.reset_position ≡ true = ground arith in
      let t' : ltb w.reset_position w.filled ≡ true = ground arith in
      let t'' : ltb (length new) (w.filled - w.reset_position) ≡ true = ground arith in
      rw (t, t', s, t'', c, receive_fill) refl

-- The peer has gone back to a position, not 0, before what was received. Then the window accepts
-- the position; of the bytes that are filled next those that were received already are skipped,
-- the others are added behind the unread ones, and the window counts from the position on, if they
-- fit in a buffer, reach what was received, and no count exceeds 2^64.
receive_reset-fill :
    (w : ReceiveWindow) (wack value : ℕ) (new : List ℕ)
    → to_absolute w.emptied wack ≡ value
    → 0 < value
    → value < w.filled
    → w.filled < u64_mod
    → 0 < w.size
    → length new ≤ w.size
    → w.filled ≤ value + length new
    → value + length new < u64_mod
    → (w₁ : ReceiveWindow) × (receive_reset w wack ≡ some w₁)
      × ((receive_to_fill w₁).1 ≡ w.size)
      × (w₂ : ReceiveWindow) × (receive_fill (receive_to_fill w₁).0 new
          ≡ some (w₂, value + length new))
      × (unread w₂ ≡ unread w ++ drop (w.filled - value) new)
      × (w₂.filled ≡ value + length new)
      × (w₂.reset_position ≡ 0)
unfolding receive_reset receive_to_fill
receive_reset-fill w wack value new at positive before small sized fits much bound =
    let w₁ : ReceiveWindow = record w { buffer = fresh_last w.buffer; reset_position = value } in
    let (ends, free) = ready w.size w.buffer sized in
    let (b, grown, bytes) =
      skipping w.size (w.filled - value) new w.buffer (room w.size (fresh_last w.buffer)).0 ends
        fits in
    let t : value == w.filled ≡ false = ground arith in
    let t' : ltb w.filled value ≡ false = ground arith in
    (
      w₁,
      rw (at, t, t') refl,
      free,
      record (receive_to_fill w₁).0 { filled = value + length new; reset_position = 0; buffer = b },
      fill_again (receive_to_fill w₁).0 new b positive before small much bound grown,
      bytes,
      refl,
      refl,
    )

-- As long as the peer sends only bytes that were received already, after it has gone back to a
-- position that is not 0, these are dropped: the unread bytes stay, and the position moves on.
pub receive_reset-known :
    (w : ReceiveWindow) (wack value : ℕ) (new : List ℕ)
    → to_absolute w.emptied wack ≡ value
    → 0 < value
    → value + length new < w.filled
    → w.filled < u64_mod
    → 0 < w.size
    → (w₁ : ReceiveWindow) × (receive_reset w wack ≡ some w₁)
      × (w₂ : ReceiveWindow) × (receive_fill (receive_to_fill w₁).0 new
          ≡ some (w₂, value + length new))
      × (unread w₂ ≡ unread w)
      × (w₂.filled ≡ w.filled)
      × (w₂.reset_position ≡ value + length new)
unfolding receive_reset receive_to_fill
receive_reset-known w wack value new at positive few small sized =
    let w₁ : ReceiveWindow = record w { buffer = fresh_last w.buffer; reset_position = value } in
    let (ends, free) = ready w.size w.buffer sized in
    let t : value == w.filled ≡ false = ground arith in
    let t' : ltb w.filled value ≡ false = ground arith in
    (
      w₁,
      rw (at, t, t') refl,
      record (receive_to_fill w₁).0 { reset_position = value + length new },
      fill_known (receive_to_fill w₁).0 new positive (omega arith) small few,
      EndsEmpty-unread w.buffer (room w.size (fresh_last w.buffer)).0 ends,
      refl,
      refl,
    )

-- A reset to position 0 is accepted but leaves no trace: the bytes that are filled next are counted
-- as new ones, although all that was received is sent again, if they fit in a buffer and no count
-- exceeds 2^64.
pub receive_reset-zero :
    (w : ReceiveWindow) (wack : ℕ) (new : List ℕ)
    → to_absolute w.emptied wack ≡ 0
    → 0 < w.filled
    → 0 < w.size
    → length new ≤ w.size
    → w.filled + length new < u64_mod
    → (w₁ : ReceiveWindow) × (receive_reset w wack ≡ some w₁)
      × (w₂ : ReceiveWindow) × (receive_fill (receive_to_fill w₁).0 new
          ≡ some (w₂, w.filled + length new))
unfolding receive_reset receive_to_fill receive_fill EndsEmpty
receive_reset-zero w wack new at some_filled sized fits bound =
    let w₁ : ReceiveWindow = record w { buffer = fresh_last w.buffer; reset_position = 0 } in
    let ((f, z, e, same, bytes), free) = ready w.size w.buffer sized in
    let empty_size : length z.bytes ≡ 0 = ap length e in
    let grown = ap (grow w.size new) same ∙ grow-snoc w.size z new f (omega arith) in
    let c : add64 w.filled (length new) ≡ w.filled + length new =
      add64_small w.filled (length new) bound in
    let t : 0 == w.filled ≡ false = ground arith in
    let t' : ltb w.filled 0 ≡ false = ground arith in
    (
      w₁,
      rw (at, t, t') refl,
      record w₁ {
        filled = w.filled + length new;
        buffer = f ++ record z { bytes = z.bytes ++ new } ∷ [];
      },
      rw (grown, c, receive_fill) refl,
    )
