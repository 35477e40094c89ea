-- ===== src/Nasshp/Send/Acknowledging.antt =====
-- Acknowledge of proxy/nasshp/window.go drops bytes from the front of what is kept.
use enkit.Common.{
  ℕ, zero, suc, false, ◌+◌, ◌-◌, ◌≤◌, ◌≡◌, ◌∙◌, refl, ap, sym, List, [], ◌∷◌, ◌++◌, length,
  length-append, drop, length-drop, drop-append_right, drop-drop, arith, if◌then◌else◌, ltb,
  Bool-cases, inl, inr, ◌⊎◌, ◌==◌,
}
use enkit.Common.Words.{add64, add64_small}
use enkit.Nasshp.Buffer.{Buffer}
use enkit.Nasshp.Send.{SendWindow, acknowledge_loop, acknowledge_first, acknowledge}
use mathlib.Core.Path.{subst}
use enkit.Nasshp.Send.View.{
  kept_bytes, unsent_bytes, kept, unsent, NoOffsets, FirstAcked, FirstSent, IsSendWindow,
  NoAcks→FirstAcked, length-kept, drop_more, plain,
}

-- What the loop leaves: `b` stands for the buffers that are still to be sent.
abbrev Left : ℕ → List Buffer → List Buffer → List Buffer × ℕ → Type 0
Left n p b out =
    (kept_bytes (out.0 ++ b) ≡ drop (n - out.1) (kept_bytes (p ++ b)))
    × FirstAcked (out.0 ++ b)
    × ((out.1 ≡ 0) ⊎ (out.0 ≡ []))
    × NoOffsets out.0
    × (out.1 ≡ n - length (kept_bytes p))

-- A buffer that is acknowledged whole.
Left-whole :
    (n : ℕ) (x : Buffer) (r b : List Buffer) (out : List Buffer × ℕ)
    → length x.bytes - x.acknowledged ≤ n
    → Left (n - (length x.bytes - x.acknowledged)) r b out
    → Left n (x ∷ r) b out
Left-whole n x r b out h (same, acked, done, rewound, left) =
    let len = length-drop x.acknowledged x.bytes in
    let len' = length-append (drop x.acknowledged x.bytes) (kept_bytes r) in
    (
      same
          ∙ sym (
              drop-append_right (n - out.1) (n - (length x.bytes - x.acknowledged) - out.1)
                (drop x.acknowledged x.bytes) (kept_bytes (r ++ b)) (omega (arith, len))),
      acked,
      done,
      rewound,
      omega (arith, len, len'),
    )

acknowledge_loop-Left :
    (n : ℕ) (p b : List Buffer)
    → FirstAcked (p ++ b)
    → NoOffsets p
    → Left n p b (acknowledge_loop n p)
unfolding acknowledge_loop
acknowledge_loop-Left n [] b a o =
    let e : n - n ≡ 0 = omega arith in rw e (refl, a, inr refl, tt, omega arith)
acknowledge_loop-Left n (x ∷ r) b a o =
    let len = length-drop x.acknowledged x.bytes in
    let len' = length-append (drop x.acknowledged x.bytes) (kept_bytes r) in
    elim (Bool-cases (n == 0)) [
      | inl e ↦ (let z : n ≡ 0 = ground arith in rw z (refl, a, inl refl, o, omega arith))
      | inr e ↦ elim (Bool-cases (ltb n (length x.bytes - x.acknowledged))) [
        | inl f ↦
            (let z : n - 0 ≡ n = omega arith in
              rw (e, f, z)
                (
                  sym (drop_more n x (kept_bytes (r ++ b)) (ground arith)),
                  (ground arith, a.1),
                  inl refl,
                  o,
                  ground (arith, len, len'),
                ))
        | inr f ↦
            (let rest =
                acknowledge_loop-Left (n - (length x.bytes - x.acknowledged)) r b
                  (NoAcks→FirstAcked (r ++ b) a.1) o.1 in
              rw (e, f)
                (Left-whole n x r b (acknowledge_loop (n - (length x.bytes - x.acknowledged)) r)
                  (ground arith) rest))
      ]
    ]

-- The first buffer to send, when all that was sent before it is acknowledged.
acknowledge_first-drop :
    (n : ℕ) (b : List Buffer)
    → FirstSent b
    → FirstAcked b
    → n + length (unsent_bytes b) ≤ length (kept_bytes b)
    → (kept_bytes (acknowledge_first n b) ≡ drop n (kept_bytes b))
      × FirstAcked (acknowledge_first n b)
      × FirstSent (acknowledge_first n b)
      × (unsent_bytes (acknowledge_first n b) ≡ unsent_bytes b)
unfolding acknowledge_first
acknowledge_first-drop n [] s a h = let z : n ≡ 0 = omega arith in rw z (refl, tt, tt, refl)
acknowledge_first-drop n (x ∷ r) (fits, order, rewound) (acked, whole) h =
    let same = ap length (plain r whole rewound) in
    let part : x.acknowledged + n ≤ x.offset = omega (
      arith,
      same,
      length-drop x.acknowledged x.bytes,
      length-drop x.offset x.bytes,
      length-append (drop x.acknowledged x.bytes) (kept_bytes r),
      length-append (drop x.offset x.bytes) (unsent_bytes r),
      h,
    ) in
    let e : (if ltb (x.acknowledged + n) x.offset then x.acknowledged + n else x.offset)
        ≡ x.acknowledged + n =
      ground arith in
    rw e (
      sym (drop_more n x (kept_bytes r) (omega arith)),
      (omega arith, whole),
      (fits, part, rewound),
      refl,
    )

-- The first `n` bytes that are kept are gone, and the rest of the window is as it was.
abbrev Acknowledged : SendWindow → ℕ → SendWindow → Type 0
Acknowledged w n w' = (kept w' ≡ drop n (kept w)) × (unsent w' ≡ unsent w) × IsSendWindow w'

acknowledged_window :
    (w : SendWindow) (n : ℕ) (p b : List Buffer)
    → IsSendWindow w
    → w.acknowledged + n ≤ w.emptied
    → (kept_bytes (p ++ b) ≡ drop n (kept w))
    → FirstAcked (p ++ b)
    → NoOffsets p
    → FirstSent b
    → (unsent_bytes b ≡ unsent w)
    → Acknowledged w n (record w { acknowledged = add64 w.acknowledged n; pending = p; buffer = b })
acknowledged_window w n p b i h same acked rewound sent bytes = (
  same,
  bytes,
  record {
    acked = acked;
    sent = sent;
    rewound = rewound;
    unsent_length = rw bytes i.unsent_length;
    kept_length = omega (
      arith,
      i.kept_length,
      i.unsent_length,
      i.small,
      ap length same,
      length-drop n (kept w),
      add64_small w.acknowledged n,
    );
    small = i.small;
  },
)

-- The loop passes `m` bytes on to the buffers that are still to be sent.
passed_on :
    (w : SendWindow) (n m : ℕ) (p : List Buffer)
    → IsSendWindow w
    → w.acknowledged + n ≤ w.emptied
    → Left n w.pending w.buffer (p, m)
    → Acknowledged w n (record w {
      acknowledged = add64 w.acknowledged n;
      pending = p;
      buffer = (if m == 0 then w.buffer else acknowledge_first m w.buffer);
    })
passed_on w n zero p i h (same, acked, done, rewound, left) =
    let z : n - 0 ≡ n = omega arith in
    acknowledged_window w n p w.buffer i h
      (subst (λ k. kept_bytes (p ++ w.buffer) ≡ drop k (kept w)) z same) acked rewound i.sent refl
passed_on w n (suc m) p i h (same, acked, inl d, rewound, left) = absurd (omega arith)
passed_on w n (suc m) p i h (same, acked, inr d, rewound, left) =
    let first =
      acknowledge_first-drop (suc m) w.buffer i.sent
        (subst (λ l. FirstAcked (l ++ w.buffer)) d acked)
        (omega (arith, i.unsent_length, i.kept_length, length-kept w.pending w.buffer)) in
    let same' : kept_bytes w.buffer ≡ drop (n - suc m) (kept w) =
      subst (λ l. kept_bytes (l ++ w.buffer) ≡ drop (n - suc m) (kept w)) d same in
    let t : (suc m == 0) ≡ false = ground arith in
    rw (d, t)
      (acknowledged_window w n [] (acknowledge_first (suc m) w.buffer) i h
        (first.0 ∙ ap (drop (suc m)) same' ∙ drop-drop (suc m) (n - suc m) n (kept w) (omega arith))
        first.1 tt first.2 first.3)

-- Acknowledging no more than what was sent drops just the acknowledged bytes from what is kept,
-- changes nothing of what is still to be sent, and keeps the window's counters right.
pub acknowledge-drop :
    (w : SendWindow) (n : ℕ)
    → IsSendWindow w
    → w.acknowledged + n ≤ w.emptied
    → (kept (acknowledge w n) ≡ drop n (kept w))
      × (unsent (acknowledge w n) ≡ unsent w)
      × IsSendWindow (acknowledge w n)
unfolding acknowledge
acknowledge-drop w n i h =
    passed_on w n (acknowledge_loop n w.pending).1 (acknowledge_loop n w.pending).0 i h
      (acknowledge_loop-Left n w.pending w.buffer i.acked i.rewound)
