-- ===== src/Nasshp/Send/Filling.antt =====
-- ToFill and Fill of proxy/nasshp/window.go: what is read is added behind what is to be sent.
use enkit.Common.{
  ℕ, true, ◌+◌, ◌≤◌, ◌<◌, ◌≡◌, ◌∙◌, refl, ap, sym, Option, none, some, List, [], ◌∷◌, ◌++◌, length,
  length-append, drop, drop-append_left, arith, if◌then◌else◌, ltb, leb, Bool-cases, inl, inr,
}
use enkit.Common.Words.{u64_mod, add64, add64_small}
use enkit.Nasshp.Buffer.{Buffer, fresh, room, grow}
use enkit.Nasshp.Send.{SendWindow, to_fill, fill}
use mathlib.Core.List.{append_assoc, append-nil}
use enkit.Nasshp.Send.View.{
  kept_bytes, unsent_bytes, kept, unsent, NoAcks, NoOffsets, FirstAcked, FirstSent, IsSendWindow,
  FirstAcked-tail,
}

abbrev Fits : List Buffer → Type 0
Fits [] = Unit {0}
Fits (x ∷ r) = (x.offset ≤ length x.bytes) × (x.acknowledged ≤ length x.bytes) × Fits r

Fits-fresh : (l : List Buffer) → NoAcks l → NoOffsets l → Fits l
Fits-fresh [] a o = tt
Fits-fresh (x ∷ r) a o = (omega (arith, o.0), omega (arith, a.0), Fits-fresh r a.1 o.1)

Fits-buffer : (p b : List Buffer) → FirstAcked (p ++ b) → FirstSent b → Fits b
Fits-buffer p [] a s = tt
Fits-buffer p (x ∷ r) a (fits, order, rewound) =
    (fits, omega arith, Fits-fresh r (FirstAcked-tail p x r a) rewound)

-- `new` was added behind the buffers `b`.
record Grown (new : List ℕ) (b b' : List Buffer) : Type 0 where
  unsent_grown : unsent_bytes b' ≡ unsent_bytes b ++ new
  kept_grown : kept_bytes b' ≡ kept_bytes b ++ new
  acks : NoAcks b → NoAcks b'
  offsets : NoOffsets b → NoOffsets b'
  acked : FirstAcked b → FirstAcked b'
  sent : FirstSent b → FirstSent b'

Grown-nil : (new : List ℕ) → Grown new [] (record fresh { bytes = new } ∷ [])
Grown-nil new = record {
  unsent_grown = append-nil new;
  kept_grown = append-nil new;
  acks = λ a. (refl, tt);
  offsets = λ a. (refl, tt);
  acked = λ a. (omega arith, tt);
  sent = λ a. (omega arith, omega arith, tt);
}

Grown-last :
    (new : List ℕ) (x : Buffer)
    → Fits (x ∷ [])
    → Grown new (x ∷ []) (record x { bytes = x.bytes ++ new } ∷ [])
Grown-last new x (o, a, u) = record {
  unsent_grown =
      append-nil (drop x.offset (x.bytes ++ new))
      ∙ drop-append_left x.offset x.bytes new o
      ∙ ap (λ l. l ++ new) (sym (append-nil (drop x.offset x.bytes)));
  kept_grown =
      append-nil (drop x.acknowledged (x.bytes ++ new))
      ∙ drop-append_left x.acknowledged x.bytes new a
      ∙ ap (λ l. l ++ new) (sym (append-nil (drop x.acknowledged x.bytes)));
  acks = λ h. h;
  offsets = λ h. h;
  acked = λ h. (omega (arith, length-append x.bytes new), tt);
  sent = λ h. (omega (arith, length-append x.bytes new), h.1, tt);
}

Grown-cons :
    (new : List ℕ) (x : Buffer) (b b' : List Buffer) → Grown new b b' → Grown new (x ∷ b) (x ∷ b')
Grown-cons new x b b' g = record {
  unsent_grown =
      ap (λ l. drop x.offset x.bytes ++ l) g.unsent_grown
      ∙ sym (append_assoc (drop x.offset x.bytes) (unsent_bytes b) new);
  kept_grown =
      ap (λ l. drop x.acknowledged x.bytes ++ l) g.kept_grown
      ∙ sym (append_assoc (drop x.acknowledged x.bytes) (kept_bytes b) new);
  acks = λ h. (h.0, g.acks h.1);
  offsets = λ h. (h.0, g.offsets h.1);
  acked = λ h. (h.0, g.acks h.1);
  sent = λ h. (h.0, h.1, g.offsets h.2);
}

room-cons :
    (size : ℕ) (b : List Buffer) → (z : Buffer) × (r : List Buffer) × ((room size b).0 ≡ z ∷ r)
unfolding room
room-cons size [] = (fresh, [], refl)
room-cons size (x ∷ []) = elim (Bool-cases (ltb (length x.bytes) size)) [
  | inl e ↦ (x, [], rw e refl)
  | inr e ↦ (x, fresh ∷ [], rw e refl)
]
room-cons size (x ∷ y ∷ r) = (x, (room size (y ∷ r)).0, refl)

grow_last :
    (size : ℕ) (new : List ℕ) (x : Buffer)
    → length x.bytes + length new ≤ size
    → grow size new (x ∷ []) ≡ some (record x { bytes = x.bytes ++ new } ∷ [])
unfolding grow
grow_last size new x h =
    let e : leb (length x.bytes + length new) size ≡ true = ground arith in
    ap (λ t. if t then some (record x { bytes = x.bytes ++ new } ∷ []) else none) e

grow_cons :
    (size : ℕ) (new : List ℕ) (x y : Buffer) (r s : List Buffer)
    → grow size new (y ∷ r) ≡ some s
    → grow size new (x ∷ y ∷ r) ≡ some (x ∷ s)
unfolding grow
grow_cons size new x y r s e =
    ap (λ (t : Option (List Buffer)). elim t [ none ↦ none | some s ↦ some (x ∷ s) ]) e

-- A list with room is not empty, so only its last buffer grows.
grow_tail :
    (size : ℕ) (new : List ℕ) (x : Buffer) (b s : List Buffer)
    → grow size new (room size b).0 ≡ some s
    → grow size new (x ∷ (room size b).0) ≡ some (x ∷ s)
grow_tail size new x b s e =
    let (z, r, c) = room-cons size b in
    ap (λ l. grow size new (x ∷ l)) c ∙ grow_cons size new x z r s (ap (grow size new) (sym c) ∙ e)

grow-room :
    (size : ℕ) (new : List ℕ) (b : List Buffer)
    → Fits b
    → length new ≤ (room size b).1
    → (b' : List Buffer) × (grow size new (room size b).0 ≡ some b') × Grown new b b'
unfolding room
grow-room size new [] f h =
    (record fresh { bytes = new } ∷ [], grow_last size new fresh (omega arith), Grown-nil new)
grow-room size new (x ∷ []) f h = elim (Bool-cases (ltb (length x.bytes) size)) [
  | inl e ↦ rw e (
      let h' : length x.bytes + length new ≤ size = ground arith in
      (record x { bytes = x.bytes ++ new } ∷ [], grow_last size new x h', Grown-last new x f))
  | inr e ↦ rw e (
      let h' : length new ≤ size = ground arith in
      (
        x ∷ record fresh { bytes = new } ∷ [],
        grow_cons size new x fresh [] (record fresh { bytes = new } ∷ [])
            (grow_last size new fresh (omega arith)),
        Grown-cons new x [] (record fresh { bytes = new } ∷ []) (Grown-nil new),
      ))
]
grow-room size new (x ∷ y ∷ r) f h =
    let (b', e, g) = grow-room size new (y ∷ r) f.2 h in
    (x ∷ b', grow_tail size new x (y ∷ r) b' e, Grown-cons new x (y ∷ r) b' g)

NoAcks-Grown :
    (new : List ℕ) (p b b' : List Buffer) → Grown new b b' → NoAcks (p ++ b) → NoAcks (p ++ b')
NoAcks-Grown new [] b b' g a = g.acks a
NoAcks-Grown new (x ∷ p) b b' g a = (a.0, NoAcks-Grown new p b b' g a.1)

FirstAcked-Grown :
    (new : List ℕ) (p b b' : List Buffer)
    → Grown new b b'
    → FirstAcked (p ++ b)
    → FirstAcked (p ++ b')
FirstAcked-Grown new [] b b' g a = g.acked a
FirstAcked-Grown new (x ∷ p) b b' g a = (a.0, NoAcks-Grown new p b b' g a.1)

kept-Grown :
    (new : List ℕ) (p b b' : List Buffer)
    → Grown new b b'
    → kept_bytes (p ++ b') ≡ kept_bytes (p ++ b) ++ new
kept-Grown new [] b b' g = g.kept_grown
kept-Grown new (x ∷ p) b b' g =
    ap (λ l. drop x.acknowledged x.bytes ++ l) (kept-Grown new p b b' g)
    ∙ sym (append_assoc (drop x.acknowledged x.bytes) (kept_bytes (p ++ b)) new)

fill-some :
    (w : SendWindow) (new : List ℕ) (b : List Buffer) (n : ℕ)
    → grow w.size new w.buffer ≡ some b
    → add64 w.filled (length new) ≡ n
    → fill w new ≡ some (record w { filled = n; buffer = b }, n)
unfolding fill
fill-some w new b n e c = rw (e, c, fill) refl

-- Filling the slice of ToFill with no more bytes than it has room for never panics: the bytes are
-- added behind what is to be sent and behind what is kept, the other positions stay, and the
-- window's counters stay right, if the count of filled bytes does not overflow.
pub fill-append :
    (w : SendWindow) (new : List ℕ)
    → IsSendWindow w
    → length new ≤ (to_fill w).1
    → w.filled + length new < u64_mod
    → (w' : SendWindow) × (fill (to_fill w).0 new ≡ some (w', w.filled + length new))
      × (unsent w' ≡ unsent w ++ new)
      × (kept w' ≡ kept w ++ new)
      × (w'.emptied ≡ w.emptied)
      × (w'.acknowledged ≡ w.acknowledged)
      × IsSendWindow w'
unfolding to_fill
fill-append w new i h small =
    let (b, e, g) =
      grow-room w.size new w.buffer (Fits-buffer w.pending w.buffer i.acked i.sent) h in
    let count = add64_small w.filled (length new) small in
    let more = kept-Grown new w.pending w.buffer b g in
    (
      record w { filled = w.filled + length new; buffer = b },
      fill-some (to_fill w).0 new b (w.filled + length new) e count,
      g.unsent_grown,
      more,
      refl,
      refl,
      record {
        acked = FirstAcked-Grown new w.pending w.buffer b g i.acked;
        sent = g.sent i.sent;
        rewound = i.rewound;
        unsent_length =
            omega (arith, i.unsent_length, ap length g.unsent_grown, length-append (unsent w) new);
        kept_length = omega (arith, i.kept_length, ap length more, length-append (kept w) new);
        small = small;
      },
    )

room-positive : (size : ℕ) (b : List Buffer) → 0 < size → 0 < (room size b).1
unfolding room
room-positive size [] h = h
room-positive size (x ∷ []) h = elim (Bool-cases (ltb (length x.bytes) size)) [
  | inl e ↦ rw e (ground arith)
  | inr e ↦ rw e h
]
room-positive size (x ∷ y ∷ r) h = room-positive size (y ∷ r) h

-- ToFill always has room for a byte, if the buffers of the pool have.
pub to_fill-positive : (w : SendWindow) → 0 < w.size → 0 < (to_fill w).1
unfolding to_fill
to_fill-positive w h = room-positive w.size w.buffer h
