-- ===== src/Nasshp/Send/Runs.antt =====
-- A SendWindow of proxy/nasshp/window.go as the proxy uses it: it reads into the slice of ToFill,
-- writes from the slice of ToEmpty, and passes on the positions that the peer reports.
use enkit.Common.{
  ℕ, ◌+◌, ◌-◌, ◌≤◌, ◌<◌, ◌≡◌, ◌∙◌, refl, ap, sym, none, some, List, [], ◌∷◌, ◌++◌, length,
  length-append, drop, drop-append_left, drop-drop, arith, ltb, Bool-cases, inl, inr,
}
use enkit.Common.Words.{u64_mod, add64, add64_small}
use enkit.Nasshp.Absolute.{to_absolute}
use enkit.Nasshp.Send.{
  SendWindow, new_send_window, to_fill, fill, to_empty, empty, acknowledge, acknowledge_until,
  AckResult, accepted, rejected, rewind, reset,
}
use enkit.Nasshp.Send.View.{kept, unsent, IsSendWindow}
use enkit.Nasshp.Send.Filling.{fill-append}
use enkit.Nasshp.Send.Emptying.{empty-drop, to_empty-prefix}
use enkit.Nasshp.Send.Acknowledging.{acknowledge-drop}
use enkit.Nasshp.Send.Rewinding.{rewind-unsent}
use mathlib.Core.Path.{subst}
use mathlib.Core.List.{append_assoc, append-nil}

-- A window that is filled with bytes, sends some bytes, or hears from the peer.
pub data WindowEvent : Type 0 where
  fills : List ℕ → WindowEvent
  sends : ℕ → WindowEvent
  acks : ℕ → WindowEvent
  resets : ℕ → WindowEvent

-- The window after an acknowledgement or a reset, which an error leaves alone.
unfoldable pub outcome : SendWindow → AckResult → SendWindow
outcome w (accepted w') = w'
outcome w (rejected e) = w

unfoldable pub window_step : SendWindow → WindowEvent → SendWindow
unfolding outcome
window_step w (fills new) = elim (fill (to_fill w).0 new) [ none ↦ w | some out ↦ out.0 ]
window_step w (sends n) = empty (to_empty w).0 n
window_step w (acks trunc) = outcome w (acknowledge_until w trunc)
window_step w (resets trunc) = outcome w (reset w trunc)

unfoldable pub window_run : SendWindow → List WindowEvent → SendWindow
window_run w [] = w
window_run w (e ∷ es) = window_run (window_step w e) es

-- What was filled, in order.
abbrev pub written : List WindowEvent → List ℕ
written [] = []
written (fills new ∷ es) = new ++ written es
written (sends n ∷ es) = written es
written (acks trunc ∷ es) = written es
written (resets trunc ∷ es) = written es

-- The caller keeps to the two slices; the peer may report any position.
abbrev pub Allowed : SendWindow → WindowEvent → Type 0
Allowed w (fills new) = (length new ≤ (to_fill w).1) × (w.filled + length new < u64_mod)
Allowed w (sends n) = n ≤ length (to_empty w).1
Allowed w (acks trunc) = Unit
Allowed w (resets trunc) = Unit

abbrev pub AllAllowed : SendWindow → List WindowEvent → Type 0
AllAllowed w [] = Unit {0}
AllAllowed w (e ∷ es) = Allowed w e × AllAllowed (window_step w e) es

-- The window stands at two positions of the stream `s`.
pub record Tracks (s : List ℕ) (w : SendWindow) : Type 0 where
  pub is_window : IsSendWindow w
  pub unsent_stream : unsent w ≡ drop w.emptied s
  pub kept_stream : kept w ≡ drop w.acknowledged s
  pub filled_stream : length s ≡ w.filled

new_send_window-Tracks : (size : ℕ) → Tracks [] (new_send_window size)
unfolding new_send_window
new_send_window-Tracks size = record {
  is_window = record {
    acked = tt;
    sent = tt;
    rewound = tt;
    unsent_length = refl;
    kept_length = refl;
    small = omega arith;
  };
  unsent_stream = refl;
  kept_stream = refl;
  filled_stream = refl;
}

fills-Tracks :
    (s new : List ℕ) (w : SendWindow)
    → Tracks s w
    → Allowed w (fills new)
    → Tracks (s ++ new) (window_step w (fills new))
unfolding window_step
fills-Tracks s new w t (room, small) =
    let (w', e, more, all, at_sent, at_acked, i) = fill-append w new t.is_window room small in
    let step : window_step w (fills new) ≡ w' = rw (e, window_step) refl in
    let sent : w.emptied ≤ length s = omega (arith, t.is_window.unsent_length, t.filled_stream) in
    let acked : w.acknowledged ≤ length s =
      omega (arith, t.is_window.kept_length, t.filled_stream) in
    subst (Tracks (s ++ new)) (sym step) (record {
      is_window = i;
      unsent_stream =
          rw at_sent (
            more
            ∙ ap (λ l. l ++ new) t.unsent_stream
            ∙ sym (drop-append_left w.emptied s new sent));
      kept_stream = rw at_acked (
          all
          ∙ ap (λ l. l ++ new) t.kept_stream
          ∙ sym (drop-append_left w.acknowledged s new acked));
      filled_stream = omega (
        arith,
        i.unsent_length,
        at_sent,
        ap length more,
        length-append s new,
        length-append (unsent w) new,
        t.is_window.unsent_length,
        t.filled_stream,
      );
    })

empty-Tracks :
    (s : List ℕ) (n : ℕ) (w : SendWindow)
    → Tracks s w
    → n ≤ length (unsent w)
    → Tracks s (empty w n)
unfolding empty
empty-Tracks s n w t h =
    let (bytes, same, i) = empty-drop w n t.is_window h in
    let count : add64 w.emptied n ≡ w.emptied + n =
      add64_small w.emptied n (omega (arith, t.is_window.unsent_length, t.is_window.small)) in
    record {
      is_window = i;
      unsent_stream =
          bytes ∙ ap (drop n) t.unsent_stream ∙ drop-drop n w.emptied (add64 w.emptied n) s count;
      kept_stream = same ∙ t.kept_stream;
      filled_stream = t.filled_stream;
    }

to_empty-Tracks : (s : List ℕ) (w : SendWindow) → Tracks s w → Tracks s (to_empty w).0
unfolding to_empty
to_empty-Tracks s w t =
    let (rest, cut, bytes, same, i) = to_empty-prefix w t.is_window in
    record {
      is_window = i;
      unsent_stream = bytes ∙ t.unsent_stream;
      kept_stream = same ∙ t.kept_stream;
      filled_stream = t.filled_stream;
    }

sends-Tracks :
    (s : List ℕ) (n : ℕ) (w : SendWindow)
    → Tracks s w
    → Allowed w (sends n)
    → Tracks s (empty (to_empty w).0 n)
sends-Tracks s n w t h =
    let (rest, cut, bytes, same, i) = to_empty-prefix w t.is_window in
    empty-Tracks s n (to_empty w).0 (to_empty-Tracks s w t)
      (omega (arith, h, ap length cut, ap length bytes, length-append (to_empty w).1 rest))

acknowledge-Tracks :
    (s : List ℕ) (n : ℕ) (w : SendWindow)
    → Tracks s w
    → w.acknowledged + n ≤ w.emptied
    → Tracks s (acknowledge w n)
unfolding acknowledge
acknowledge-Tracks s n w t h =
    let (same, bytes, i) = acknowledge-drop w n t.is_window h in
    let count : add64 w.acknowledged n ≡ w.acknowledged + n =
      add64_small w.acknowledged n
        (omega (arith, h, t.is_window.unsent_length, t.is_window.small)) in
    record {
      is_window = i;
      unsent_stream = bytes ∙ t.unsent_stream;
      kept_stream =
          same
          ∙ ap (drop n) t.kept_stream
          ∙ drop-drop n w.acknowledged (add64 w.acknowledged n) s count;
      filled_stream = t.filled_stream;
    }

rewind-Tracks : (s : List ℕ) (w : SendWindow) → Tracks s w → Tracks s (rewind w)
unfolding rewind
rewind-Tracks s w t =
    let (bytes, same, i) = rewind-unsent w t.is_window in
    record {
      is_window = i;
      unsent_stream = bytes ∙ t.kept_stream;
      kept_stream = same ∙ t.kept_stream;
      filled_stream = t.filled_stream;
    }

acks-Tracks :
    (s : List ℕ) (trunc : ℕ) (w : SendWindow)
    → Tracks s w
    → Tracks s (outcome w (acknowledge_until w trunc))
unfolding acknowledge_until outcome
acks-Tracks s trunc w t = elim (Bool-cases (ltb w.emptied (to_absolute w.acknowledged trunc))) [
  | inl e ↦ rw e t
  | inr e ↦ elim (Bool-cases (ltb (to_absolute w.acknowledged trunc) w.acknowledged)) [
    | inl f ↦ rw (e, f) t
    | inr f ↦
        rw (e, f)
          (acknowledge-Tracks s (to_absolute w.acknowledged trunc - w.acknowledged) w t
            (ground arith))
  ]
]

resets-Tracks :
    (s : List ℕ) (trunc : ℕ) (w : SendWindow) → Tracks s w → Tracks s (outcome w (reset w trunc))
unfolding reset outcome
resets-Tracks s trunc w t = elim (Bool-cases (ltb w.emptied (to_absolute w.acknowledged trunc))) [
  | inl e ↦ rw e t
  | inr e ↦ elim (Bool-cases (ltb (to_absolute w.acknowledged trunc) w.acknowledged)) [
    | inl f ↦ rw (e, f) t
    | inr f ↦
        (let w' = acknowledge w (to_absolute w.acknowledged trunc - w.acknowledged) in
          rw (e, f)
            (rewind-Tracks s w' (
              acknowledge-Tracks s (to_absolute w.acknowledged trunc - w.acknowledged) w t
                (ground arith))))
  ]
]

run-Tracks :
    (s : List ℕ) (w : SendWindow) (es : List WindowEvent)
    → Tracks s w
    → AllAllowed w es
    → Tracks (s ++ written es) (window_run w es)
unfolding window_run window_step
run-Tracks s w [] t h = subst (λ l. Tracks l w) (sym (append-nil s)) t
run-Tracks s w (fills new ∷ es) t (a, h) =
    subst (λ l. Tracks l (window_run (window_step w (fills new)) es))
      (append_assoc s new (written es))
      (run-Tracks (s ++ new) (window_step w (fills new)) es (fills-Tracks s new w t a) h)
run-Tracks s w (sends n ∷ es) t (a, h) =
    run-Tracks s (window_step w (sends n)) es (sends-Tracks s n w t a) h
run-Tracks s w (acks trunc ∷ es) t (a, h) =
    run-Tracks s (window_step w (acks trunc)) es (acks-Tracks s trunc w t) h
run-Tracks s w (resets trunc ∷ es) t (a, h) =
    run-Tracks s (window_step w (resets trunc)) es (resets-Tracks s trunc w t) h

-- However filling, sending, acknowledging and resetting follow each other on a new window, and
-- whatever positions the peer reports, the window has still to send just the bytes of the filled
-- stream from its position `emptied` on, and keeps those from its position `acknowledged` on, if
-- the caller keeps to the slices of ToFill and ToEmpty and fills fewer than 2^64 bytes.
pub window_run-Tracks :
    (size : ℕ) (es : List WindowEvent)
    → AllAllowed (new_send_window size) es
    → Tracks (written es) (window_run (new_send_window size) es)
window_run-Tracks size es h =
    run-Tracks [] (new_send_window size) es (new_send_window-Tracks size) h
