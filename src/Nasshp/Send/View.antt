-- ===== src/Nasshp/Send/View.antt =====
-- The SendWindow of proxy/nasshp/window.go as two byte strings: what is still to be sent, and what
-- is kept until it is acknowledged.
use enkit.Common.{
  ℕ, ◌+◌, ◌≤◌, ◌<◌, ◌≡◌, ◌∙◌, refl, ap, List, [], ◌∷◌, ◌++◌, length, length-append, drop,
  length-drop, drop-append_left, drop-drop, arith,
}
use enkit.Common.Words.{u64_mod}
use enkit.Nasshp.Buffer.{Buffer}
use enkit.Nasshp.Send.{SendWindow}

abbrev pub kept_bytes : List Buffer → List ℕ
kept_bytes [] = []
kept_bytes (x ∷ r) = drop x.acknowledged x.bytes ++ kept_bytes r

abbrev pub unsent_bytes : List Buffer → List ℕ
unsent_bytes [] = []
unsent_bytes (x ∷ r) = drop x.offset x.bytes ++ unsent_bytes r

abbrev pub kept : SendWindow → List ℕ
kept w = kept_bytes (w.pending ++ w.buffer)

abbrev pub unsent : SendWindow → List ℕ
unsent w = unsent_bytes w.buffer

abbrev pub NoAcks : List Buffer → Type 0
NoAcks [] = Unit {0}
NoAcks (x ∷ r) = (x.acknowledged ≡ 0) × NoAcks r

abbrev pub NoOffsets : List Buffer → Type 0
NoOffsets [] = Unit {0}
NoOffsets (x ∷ r) = (x.offset ≡ 0) × NoOffsets r

-- Only the first buffer is acknowledged in part.
abbrev pub FirstAcked : List Buffer → Type 0
FirstAcked [] = Unit {0}
FirstAcked (x ∷ r) = (x.acknowledged ≤ length x.bytes) × NoAcks r

-- Only the first buffer to send is sent in part, and nothing is acknowledged that is not sent.
abbrev pub FirstSent : List Buffer → Type 0
FirstSent [] = Unit {0}
FirstSent (x ∷ r) = (x.offset ≤ length x.bytes) × (x.acknowledged ≤ x.offset) × NoOffsets r

-- The counters of a window measure its two byte strings.
pub record IsSendWindow (w : SendWindow) : Type 0 where
  pub acked : FirstAcked (w.pending ++ w.buffer)
  pub sent : FirstSent w.buffer
  pub rewound : NoOffsets w.pending
  pub unsent_length : w.filled ≡ w.emptied + length (unsent w)
  pub kept_length : w.filled ≡ w.acknowledged + length (kept w)
  pub small : w.filled < u64_mod

pub FirstAcked-tail :
    (p : List Buffer) (x : Buffer) (r : List Buffer) → FirstAcked (p ++ x ∷ r) → NoAcks r
FirstAcked-tail [] x r a = a.1
FirstAcked-tail (y ∷ p) x r a = tail_of p x r a.1
  where
    tail_of : (p : List Buffer) (x : Buffer) (r : List Buffer) → NoAcks (p ++ x ∷ r) → NoAcks r
    tail_of [] x r a = a.1
    tail_of (y ∷ p) x r a = tail_of p x r a.1

pub NoAcks→FirstAcked : (l : List Buffer) → NoAcks l → FirstAcked l
NoAcks→FirstAcked [] a = tt
NoAcks→FirstAcked (x ∷ r) a = (omega arith, a.1)

pub NoOffsets-append : (p q : List Buffer) → NoOffsets p → NoOffsets q → NoOffsets (p ++ q)
NoOffsets-append [] q a b = b
NoOffsets-append (x ∷ p) q a b = (a.0, NoOffsets-append p q a.1 b)

-- The length of what is kept, of the sent buffers and of the others.
pub length-kept :
    (p q : List Buffer)
    → length (kept_bytes (p ++ q)) ≡ length (kept_bytes p) + length (kept_bytes q)
length-kept [] q = omega arith
length-kept (x ∷ p) q = omega (
  arith,
  length-kept p q,
  length-append (drop x.acknowledged x.bytes) (kept_bytes (p ++ q)),
  length-append (drop x.acknowledged x.bytes) (kept_bytes p),
)

-- With no offset and no acknowledgement both strings are the same.
pub plain : (l : List Buffer) → NoAcks l → NoOffsets l → unsent_bytes l ≡ kept_bytes l
plain [] a o = refl
plain (x ∷ r) a o = rw (a.0, o.0, plain r a.1 o.1)

-- Dropping from the front of a buffer, and from all that follows.
pub drop_more :
    (n : ℕ) (x : Buffer) (rest : List ℕ)
    → x.acknowledged + n ≤ length x.bytes
    → drop n (drop x.acknowledged x.bytes ++ rest) ≡ drop (x.acknowledged + n) x.bytes ++ rest
drop_more n x rest h =
    drop-append_left n (drop x.acknowledged x.bytes) rest
      (omega (arith, length-drop x.acknowledged x.bytes))
    ∙ ap (λ l. l ++ rest) (drop-drop n x.acknowledged (x.acknowledged + n) x.bytes refl)

-- The offset of a buffer in a list is no part of what is kept.
pub kept-offset :
    (p : List Buffer) (x : Buffer) (k : ℕ) (r : List Buffer)
    → kept_bytes (p ++ record x { offset = k } ∷ r) ≡ kept_bytes (p ++ x ∷ r)
kept-offset [] x k r = refl
kept-offset (y ∷ p) x k r = ap (λ l. drop y.acknowledged y.bytes ++ l) (kept-offset p x k r)

NoAcks-offset :
    (p : List Buffer) (x : Buffer) (k : ℕ) (r : List Buffer)
    → NoAcks (p ++ x ∷ r)
    → NoAcks (p ++ record x { offset = k } ∷ r)
NoAcks-offset [] x k r a = a
NoAcks-offset (y ∷ p) x k r a = (a.0, NoAcks-offset p x k r a.1)

pub FirstAcked-offset :
    (p : List Buffer) (x : Buffer) (k : ℕ) (r : List Buffer)
    → FirstAcked (p ++ x ∷ r)
    → FirstAcked (p ++ record x { offset = k } ∷ r)
FirstAcked-offset [] x k r a = a
FirstAcked-offset (y ∷ p) x k r a = (a.0, NoAcks-offset p x k r a.1)

-- A list that was not sent at all starts at an offset that is not acknowledged.
pub FirstSent-fresh : (l : List Buffer) → NoAcks l → NoOffsets l → FirstSent l
FirstSent-fresh [] a o = tt
FirstSent-fresh (x ∷ r) a o = (ground (arith, o.0), ground (arith, a.0), o.1)
