-- ===== src/Nasshp/Send/Rewinding.antt =====
-- Reset and AcknowledgeUntil of proxy/nasshp/window.go: a position of the peer is acknowledged, and
-- after a reconnection what follows it is sent again.
use enkit.Common.{
  ℕ, false, ◌+◌, ◌-◌, ◌%◌, ◌≤◌, ◌<◌, ◌≡◌, ◌∙◌, refl, ap, sym, List, [], ◌∷◌, ◌++◌, length, drop,
  arith, ltb, inr,
}
use enkit.Common.Words.{u64_mod, add64, add64_small}
use enkit.Nasshp.Absolute.{wrap, to_absolute-mod}
use enkit.Nasshp.Buffer.{Buffer}
use enkit.Nasshp.Send.{
  SendWindow, acknowledge, acknowledge_until, accepted, set_first_offset, rewind, reset,
}
use enkit.Nasshp.Send.View.{
  kept_bytes, unsent_bytes, kept, unsent, NoOffsets, FirstAcked, FirstSent, IsSendWindow,
  NoOffsets-append, kept-offset, FirstAcked-offset, plain,
}
use enkit.Nasshp.Send.Acknowledging.{acknowledge-drop}

kept-set_first_offset :
    (f : Buffer → ℕ) (p b : List Buffer)
    → kept_bytes (p ++ set_first_offset f b) ≡ kept_bytes (p ++ b)
unfolding set_first_offset
kept-set_first_offset f p [] = refl
kept-set_first_offset f p (x ∷ r) = kept-offset p x (f x) r

FirstAcked-set_first_offset :
    (f : Buffer → ℕ) (p b : List Buffer)
    → FirstAcked (p ++ b)
    → FirstAcked (p ++ set_first_offset f b)
unfolding set_first_offset
FirstAcked-set_first_offset f p [] a = a
FirstAcked-set_first_offset f p (x ∷ r) a = FirstAcked-offset p x (f x) r a

NoOffsets-set_first_offset :
    (b : List Buffer) → FirstSent b → NoOffsets (set_first_offset (λ x. 0) b)
unfolding set_first_offset
NoOffsets-set_first_offset [] s = tt
NoOffsets-set_first_offset (x ∷ r) s = (refl, s.2)

-- Buffers that start where they are acknowledged have all that is kept still to be sent.
start_acked :
    (l : List Buffer)
    → FirstAcked l
    → NoOffsets l
    → FirstSent (set_first_offset (λ x. x.acknowledged) l)
      × (unsent_bytes (set_first_offset (λ x. x.acknowledged) l) ≡ kept_bytes l)
unfolding set_first_offset
start_acked [] a o = (tt, refl)
start_acked (x ∷ r) a o =
    ((a.0, omega arith, o.1), ap (λ l. drop x.acknowledged x.bytes ++ l) (plain r a.1 o.1))

-- After a rewind all that is kept is to be sent, and nothing else.
pub rewind-unsent :
    (w : SendWindow)
    → IsSendWindow w
    → (unsent (rewind w) ≡ kept w) × (kept (rewind w) ≡ kept w) × IsSendWindow (rewind w)
unfolding rewind
rewind-unsent w i =
    let b = set_first_offset (λ x. 0) w.buffer in
    let acked = FirstAcked-set_first_offset (λ x. 0) w.pending w.buffer i.acked in
    let all = NoOffsets-append w.pending b i.rewound (NoOffsets-set_first_offset w.buffer i.sent) in
    let same = kept-set_first_offset (λ x. 0) w.pending w.buffer in
    let (sent, bytes) = start_acked (w.pending ++ b) acked all in
    let same' = kept-set_first_offset (λ x. x.acknowledged) [] (w.pending ++ b) in
    (
      bytes ∙ same,
      same' ∙ same,
      record {
        acked = FirstAcked-set_first_offset (λ x. x.acknowledged) [] (w.pending ++ b) acked;
        sent = sent;
        rewound = tt;
        unsent_length = i.kept_length ∙ ap (λ l. w.acknowledged + length l) (sym (bytes ∙ same));
        kept_length = i.kept_length ∙ ap (λ l. w.acknowledged + length l) (sym (same' ∙ same));
        small = i.small;
      },
    )

-- The 24 bits of any position that was sent, is not acknowledged and lies within 2^23 bytes of the
-- last acknowledged one are accepted, and drop just the bytes before that position; the last acknowledged position is 2^24
-- short of 2^64.
pub acknowledge_until-mod :
    (w : SendWindow) (value : ℕ)
    → IsSendWindow w
    → w.acknowledged ≤ value
    → value ≤ w.emptied
    → value ≤ w.acknowledged + 0x7fffff
    → w.acknowledged + wrap < u64_mod
    → (w' : SendWindow) × (acknowledge_until w (value % wrap) ≡ accepted w')
      × (w'.acknowledged ≡ value)
      × (kept w' ≡ drop (value - w.acknowledged) (kept w))
      × (unsent w' ≡ unsent w)
      × IsSendWindow w'
unfolding acknowledge_until acknowledge
acknowledge_until-mod w value i low high near small =
    let v = to_absolute-mod w.acknowledged value (omega arith) near small (inr low) in
    let (same, bytes, i') = acknowledge-drop w (value - w.acknowledged) i (omega arith) in
    let a : ltb w.emptied value ≡ false = ground arith in
    let b : ltb value w.acknowledged ≡ false = ground arith in
    (
      acknowledge w (value - w.acknowledged),
      rw (v, a, b) refl,
      omega (
        arith,
        add64_small w.acknowledged (value - w.acknowledged),
        i.kept_length,
        i.small,
        i.unsent_length,
      ),
      same,
      bytes,
      i',
    )

-- When the peer reconnects and says, in 24 bits, how much it has received, a position that was sent
-- and lies less than 2^23 bytes after the last acknowledged one, the window has all bytes from that
-- position on still to be sent, keeps just these, and counts from that position; the last
-- acknowledged position is 2^24 short of 2^64.
pub reset-mod :
    (w : SendWindow) (value : ℕ)
    → IsSendWindow w
    → w.acknowledged ≤ value
    → value ≤ w.emptied
    → value ≤ w.acknowledged + 0x7fffff
    → w.acknowledged + wrap < u64_mod
    → (w' : SendWindow) × (reset w (value % wrap) ≡ accepted w')
      × (w'.acknowledged ≡ value)
      × (w'.emptied ≡ value)
      × (unsent w' ≡ drop (value - w.acknowledged) (kept w))
      × (kept w' ≡ drop (value - w.acknowledged) (kept w))
      × IsSendWindow w'
unfolding reset rewind acknowledge
reset-mod w value i low high near small =
    let v = to_absolute-mod w.acknowledged value (omega arith) near small (inr low) in
    let (same, bytes, i') = acknowledge-drop w (value - w.acknowledged) i (omega arith) in
    let (resent, still, i'') = rewind-unsent (acknowledge w (value - w.acknowledged)) i' in
    let a : ltb w.emptied value ≡ false = ground arith in
    let b : ltb value w.acknowledged ≡ false = ground arith in
    let count : add64 w.acknowledged (value - w.acknowledged) ≡ value = omega (
      arith,
      add64_small w.acknowledged (value - w.acknowledged),
      i.kept_length,
      i.small,
      i.unsent_length,
    ) in
    (
      rewind (acknowledge w (value - w.acknowledged)),
      rw (v, a, b) refl,
      count,
      count,
      resent ∙ same,
      still ∙ same,
      i'',
    )
