-- ===== src/Nasshp/Send/Emptying.antt =====
-- Empty and ToEmpty of proxy/nasshp/window.go: bytes that were sent leave what is to be sent, and
-- stay kept.
use enkit.Common.{
  ℕ, ◌+◌, ◌-◌, ◌≤◌, ◌≡◌, ◌∙◌, refl, ap, sym, List, [], ◌∷◌, ◌++◌, length, length-append, drop,
  length-drop, drop-append_left, drop-append_right, drop-drop, arith, if◌then◌else◌, ltb,
  Bool-cases, List-cases, inl, inr,
}
use enkit.Common.Words.{add64_small}
use enkit.Nasshp.Buffer.{Buffer, pending_bytes}
use enkit.Nasshp.Send.{SendWindow, empty_loop, empty, advance, first_bytes, to_empty}
use mathlib.Core.Path.{subst}
use mathlib.Core.List.{append_assoc}
use enkit.Nasshp.Send.View.{
  kept_bytes, unsent_bytes, kept, unsent, NoOffsets, FirstAcked, FirstSent, IsSendWindow,
  FirstAcked-tail, NoOffsets-append, kept-offset, FirstAcked-offset, FirstSent-fresh,
}

-- `n` bytes of the buffers `b` were emptied, after those of `p`.
abbrev Emptied : ℕ → List Buffer → List Buffer → List Buffer × List Buffer → Type 0
Emptied n p b out =
    (kept_bytes (out.0 ++ out.1) ≡ kept_bytes (p ++ b))
    × FirstAcked (out.0 ++ out.1)
    × NoOffsets out.0
    × FirstSent out.1
    × (unsent_bytes out.1 ≡ drop n (unsent_bytes b))

-- The first buffer holds more than what is emptied.
Emptied-part :
    (n : ℕ) (p : List Buffer) (x : Buffer) (r : List Buffer)
    → FirstAcked (p ++ x ∷ r)
    → NoOffsets p
    → FirstSent (x ∷ r)
    → n ≤ length x.bytes - x.offset
    → Emptied n p (x ∷ r) (p, record x { offset = x.offset + n } ∷ r)
Emptied-part n p x r a o (fits, order, rewound) h = (
  kept-offset p x (x.offset + n) r,
  FirstAcked-offset p x (x.offset + n) r a,
  o,
  (omega arith, omega arith, rewound),
  sym (
      drop-append_left n (drop x.offset x.bytes) (unsent_bytes r)
        (omega (arith, length-drop x.offset x.bytes))
      ∙ ap (λ l. l ++ unsent_bytes r) (drop-drop n x.offset (x.offset + n) x.bytes refl)),
)

-- The first buffer is emptied, and is pending from now on.
Emptied-whole :
    (n : ℕ) (p : List Buffer) (x : Buffer) (r : List Buffer) (out : List Buffer × List Buffer)
    → length x.bytes - x.offset ≤ n
    → Emptied (n - (length x.bytes - x.offset)) (p ++ (record x { offset = 0 } ∷ [])) r out
    → Emptied n p (x ∷ r) out
Emptied-whole n p x r out h (same, acked, rewound, sent, bytes) = (
  same ∙ ap kept_bytes (append_assoc p (record x { offset = 0 } ∷ []) r) ∙ kept-offset p x 0 r,
  acked,
  rewound,
  sent,
  bytes
      ∙ sym (
          drop-append_right n (n - (length x.bytes - x.offset)) (drop x.offset x.bytes)
            (unsent_bytes r) (omega (arith, length-drop x.offset x.bytes))),
)

empty_loop-Emptied :
    (n : ℕ) (p b : List Buffer)
    → FirstAcked (p ++ b)
    → NoOffsets p
    → FirstSent b
    → n ≤ length (unsent_bytes b)
    → Emptied n p b (empty_loop n p b)
unfolding empty_loop
empty_loop-Emptied n p [] a o s h = let z : n ≡ 0 = omega arith in rw z (refl, a, o, tt, refl)
empty_loop-Emptied n p (x ∷ []) a o s h =
    let part : n ≤ length x.bytes - x.offset =
      omega (arith, length-drop x.offset x.bytes, length-append (drop x.offset x.bytes) []) in
    let e : (if ltb n (length x.bytes - x.offset) then n else length x.bytes - x.offset) ≡ n =
      ground arith in
    rw e (Emptied-part n p x [] a o s part)
empty_loop-Emptied n p (x ∷ y ∷ r) a o s h = elim (Bool-cases (ltb n (length x.bytes - x.offset))) [
  | inl e ↦ rw e (Emptied-part n p x (y ∷ r) a o s (ground arith))
  | inr e ↦
      (let all : length x.bytes - x.offset ≤ n = ground arith in
        let x' : Buffer = record x { offset = 0 } in
        let acked =
          subst FirstAcked (sym (append_assoc p (x' ∷ []) (y ∷ r)))
            (FirstAcked-offset p x 0 (y ∷ r) a) in
        let rest =
          empty_loop-Emptied (n - (length x.bytes - x.offset)) (p ++ (x' ∷ [])) (y ∷ r) acked
            (NoOffsets-append p (x' ∷ []) o (refl, tt))
            (FirstSent-fresh (y ∷ r) (FirstAcked-tail p x (y ∷ r) a) s.2)
            (omega (
              arith,
              length-drop x.offset x.bytes,
              length-append (drop x.offset x.bytes) (unsent_bytes (y ∷ r)),
            )) in
        rw e (
          Emptied-whole n p x (y ∷ r)
            (empty_loop (n - (length x.bytes - x.offset)) (p ++ (x' ∷ [])) (y ∷ r)) all rest))
]

-- Emptying no more than what is to be sent drops just these bytes from what is to be sent, keeps
-- all of them for a resend, and keeps the window's counters right.
pub empty-drop :
    (w : SendWindow) (n : ℕ)
    → IsSendWindow w
    → n ≤ length (unsent w)
    → (unsent (empty w n) ≡ drop n (unsent w))
      × (kept (empty w n) ≡ kept w)
      × IsSendWindow (empty w n)
unfolding empty
empty-drop w n i h =
    let (same, acked, rewound, sent, bytes) =
      empty_loop-Emptied n w.pending w.buffer i.acked i.rewound i.sent h in
    (
      bytes,
      same,
      record {
        acked = acked;
        sent = sent;
        rewound = rewound;
        unsent_length = omega (
          arith,
          i.unsent_length,
          i.small,
          ap length bytes,
          length-drop n (unsent w),
          add64_small w.emptied n,
        );
        kept_length = rw same i.kept_length;
        small = i.small;
      },
    )

advance-Emptied :
    (p b : List Buffer)
    → FirstAcked (p ++ b)
    → NoOffsets p
    → FirstSent b
    → Emptied 0 p b (advance p b)
unfolding advance pending_bytes
advance-Emptied p [] a o s = (refl, a, o, s, refl)
advance-Emptied p (x ∷ []) a o s = (refl, a, o, s, refl)
advance-Emptied p (x ∷ y ∷ r) a o s = elim (List-cases (drop x.offset x.bytes)) [
  | inl e ↦
      (let none_left : length x.bytes - x.offset ≤ 0 =
          omega (arith, length-drop x.offset x.bytes, ap length e) in
        let z : 0 - (length x.bytes - x.offset) ≡ 0 = omega arith in
        let x' : Buffer = record x { offset = 0 } in
        let acked =
          subst FirstAcked (sym (append_assoc p (x' ∷ []) (y ∷ r)))
            (FirstAcked-offset p x 0 (y ∷ r) a) in
        let out : advance p (x ∷ y ∷ r) ≡ (p ++ (x' ∷ []), y ∷ r) = rw (e, advance) refl in
        subst (Emptied 0 p (x ∷ y ∷ r)) (sym out) (
          Emptied-whole 0 p x (y ∷ r) (p ++ (x' ∷ []), y ∷ r) none_left
            (rw z (
              refl,
              acked,
              NoOffsets-append p (x' ∷ []) o (refl, tt),
              FirstSent-fresh (y ∷ r) (FirstAcked-tail p x (y ∷ r) a) s.2,
              refl,
            ))))
  | inr (c, l, e) ↦
      (let out : advance p (x ∷ y ∷ r) ≡ (p, x ∷ y ∷ r) = rw (e, advance) refl in
        subst (Emptied 0 p (x ∷ y ∷ r)) (sym out) (refl, a, o, s, refl))
]

first_bytes-prefix : (b : List Buffer) → (rest : List ℕ) × (unsent_bytes b ≡ first_bytes b ++ rest)
unfolding first_bytes pending_bytes
first_bytes-prefix [] = ([], refl)
first_bytes-prefix (x ∷ r) = (unsent_bytes r, refl)

-- ToEmpty returns the start of what is to be sent, and neither changes what is to be sent nor what
-- is kept.
pub to_empty-prefix :
    (w : SendWindow)
    → IsSendWindow w
    → (rest : List ℕ) × (unsent w ≡ (to_empty w).1 ++ rest)
      × (unsent (to_empty w).0 ≡ unsent w)
      × (kept (to_empty w).0 ≡ kept w)
      × IsSendWindow (to_empty w).0
unfolding to_empty
to_empty-prefix w i =
    let (same, acked, rewound, sent, bytes) =
      advance-Emptied w.pending w.buffer i.acked i.rewound i.sent in
    let (rest, cut) = first_bytes-prefix (advance w.pending w.buffer).1 in
    (
      rest,
      sym bytes ∙ cut,
      bytes,
      same,
      record {
        acked = acked;
        sent = sent;
        rewound = rewound;
        unsent_length = i.unsent_length ∙ ap (λ l. w.emptied + length l) (sym bytes);
        kept_length = i.kept_length ∙ ap (λ l. w.acknowledged + length l) (sym same);
        small = i.small;
      },
    )
