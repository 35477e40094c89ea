-- ===== src/Nasshp/Examples.antt =====
-- The windows of proxy/nasshp/window.go with buffers of four bytes.
use enkit.Common.{ℕ, ◌+◌, ◌%◌, ◌≡◌, refl, some, List, [], ◌∷◌, arith, inl, inr}
use enkit.Common.Words.{add64}
use enkit.Nasshp.Absolute.{to_absolute, to_absolute-mod, to_absolute_late, wrap}
use enkit.Nasshp.Buffer.{Buffer, grow}
use enkit.Nasshp.Receive.{ReceiveWindow, receive_reset, receive_to_fill, receive_fill}
use enkit.Nasshp.Receive.Resending.{receive_reset-zero}
use enkit.Nasshp.Send.{
  SendWindow, new_send_window, rewind, to_fill, fill, to_empty, empty, acknowledge,
  acknowledge_until, reset, accepted,
}
use enkit.Nasshp.Send.View.{kept, unsent, IsSendWindow}
use enkit.Nasshp.Send.Filling.{fill-append}
use enkit.Nasshp.Send.Runs.{
  WindowEvent, fills, sends, acks, resets, window_step, window_run, Tracks, window_run-Tracks,
}
use enkit.Nasshp.Send.Rewinding.{reset-mod}

abbrev buffer_of : List ℕ → ℕ → ℕ → Buffer
buffer_of l o a = record { bytes = l; offset = o; acknowledged = a }

-- Six bytes to send, in two buffers.
abbrev filled_window : SendWindow
filled_window = record {
  filled = 6;
  emptied = 0;
  acknowledged = 0;
  size = 4;
  buffer = buffer_of (1 ∷ 2 ∷ 3 ∷ 4 ∷ []) 0 0 ∷ buffer_of (5 ∷ 6 ∷ []) 0 0 ∷ [];
  pending = [];
}

filled_window-IsSendWindow : IsSendWindow filled_window
filled_window-IsSendWindow = record {
  acked = (omega arith, (refl, tt));
  sent = (omega arith, omega arith, (refl, tt));
  rewound = tt;
  unsent_length = refl;
  kept_length = refl;
  small = omega arith;
}

-- The same bytes, five of them sent and one acknowledged.
abbrev sent_window : SendWindow
sent_window = record {
  filled = 6;
  emptied = 5;
  acknowledged = 1;
  size = 4;
  buffer = buffer_of (5 ∷ 6 ∷ []) 1 0 ∷ [];
  pending = buffer_of (1 ∷ 2 ∷ 3 ∷ 4 ∷ []) 0 1 ∷ [];
}

sent_window-IsSendWindow : IsSendWindow sent_window
sent_window-IsSendWindow = record {
  acked = (omega arith, (refl, tt));
  sent = (omega arith, omega arith, tt);
  rewound = (refl, tt);
  unsent_length = refl;
  kept_length = refl;
  small = omega arith;
}

to_absolute-mod_example : to_absolute 33554435 (33554433 % wrap) ≡ 33554433
to_absolute-mod_example =
    to_absolute-mod 33554435 33554433 (omega arith) (omega arith) (omega arith) (inl (omega arith))

to_absolute_late_example : to_absolute 16777226 (16777200 % wrap) ≡ 16777200 + wrap
to_absolute_late_example =
    to_absolute_late 16777226 16777200 (omega arith) (omega arith) (omega arith)

fill-append_example :
    (w' : SendWindow) × (fill (to_fill filled_window).0 (7 ∷ 8 ∷ []) ≡ some (w', 8))
    × (unsent w' ≡ 1 ∷ 2 ∷ 3 ∷ 4 ∷ 5 ∷ 6 ∷ 7 ∷ 8 ∷ [])
    × (kept w' ≡ 1 ∷ 2 ∷ 3 ∷ 4 ∷ 5 ∷ 6 ∷ 7 ∷ 8 ∷ [])
    × (w'.emptied ≡ 0)
    × (w'.acknowledged ≡ 0)
    × IsSendWindow w'
unfolding to_fill
fill-append_example =
    fill-append filled_window (7 ∷ 8 ∷ []) filled_window-IsSendWindow (omega arith) (omega arith)

reset-mod_example :
    (w' : SendWindow) × (reset sent_window (3 % wrap) ≡ accepted w')
    × (w'.acknowledged ≡ 3)
    × (w'.emptied ≡ 3)
    × (unsent w' ≡ 4 ∷ 5 ∷ 6 ∷ [])
    × (kept w' ≡ 4 ∷ 5 ∷ 6 ∷ [])
    × IsSendWindow w'
reset-mod_example =
    reset-mod sent_window 3 sent_window-IsSendWindow (omega arith) (omega arith) (omega arith)
      (omega arith)

-- Two reads, two writes, an acknowledgement, and a reconnection.
abbrev events : List WindowEvent
events =
    fills (1 ∷ 2 ∷ 3 ∷ 4 ∷ []) ∷ fills (5 ∷ 6 ∷ []) ∷ sends 4 ∷ sends 1 ∷ acks 2 ∷ resets 3 ∷ []

window_run-Tracks_example :
    Tracks (1 ∷ 2 ∷ 3 ∷ 4 ∷ 5 ∷ 6 ∷ []) (window_run (new_send_window 4) events)
unfolding new_send_window to_fill to_empty window_step fill grow add64 empty
window_run-Tracks_example = window_run-Tracks 4 events (
  (omega arith, omega arith),
  ((omega arith, omega arith), (omega arith, (omega arith, (tt, (tt, tt))))),
)

after_events : (window_run (new_send_window 4) events).emptied ≡ 3
unfolding window_run window_step new_send_window to_fill fill grow to_empty empty acknowledge_until
    reset rewind acknowledge to_absolute add64
after_events = refl

-- Six bytes received, of which three are read.
abbrev received : ReceiveWindow
received = record {
  filled = 6;
  reset_position = 0;
  emptied = 3;
  size = 4;
  buffer = buffer_of (1 ∷ 2 ∷ 3 ∷ 4 ∷ []) 3 0 ∷ buffer_of (5 ∷ 6 ∷ []) 0 0 ∷ [];
}

-- As `received`, with nothing read.
abbrev unread_window : ReceiveWindow
unread_window = record received { emptied = 0 }

receive_reset-zero_example :
    (w₁ : ReceiveWindow) × (receive_reset unread_window 0 ≡ some w₁)
    × (w₂ : ReceiveWindow) × (receive_fill (receive_to_fill w₁).0 (1 ∷ 2 ∷ 3 ∷ []) ≡ some (w₂, 9))
receive_reset-zero_example =
    receive_reset-zero unread_window 0 (1 ∷ 2 ∷ 3 ∷ [])
      (to_absolute-mod 0 0 (omega arith) (omega arith) (omega arith) (inr (omega arith)))
      (omega arith) (omega arith) (omega arith) (omega arith)
