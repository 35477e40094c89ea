-- ===== src/Retry/Delays.antt =====
-- The delays of lib/retry/retry.go, over a clock.
use enkit.Common.{
  ℕ, ◌+◌, ◌≤◌, ◌<◌, ◌≡◌, refl, Option, none, some, ltb, ◌==◌, Bool-cases, inl, inr, arith,
  if◌then◌else◌,
}
use enkit.Common.Words.{add64, add64_small, sub64, i64_half, leb_i64, is_positive}
use enkit.Retry.{Runtime, Flags, delay, sub_time, delay_since, once_attempt, pause}
use enkit.Retry.Attempts.{next}

-- `time` is read by Now, Sleep lets at least its duration pass, and Int63n stays below its bound.
pub record IsClock {ℓ κ} {W : Type ℓ} {E : Type κ} (r : Runtime W E) (time : W → ℕ) : Type ℓ where
  pub now_reads : (w : W) → (r.now w).1 ≤ time (r.now w).0
  pub sleep_passes : (d : ℕ) (w : W) → d < i64_half → time w + d ≤ time (r.sleep d w)
  pub int63n_below : (n : ℕ) (w : W) → 0 < n → (r.int63n n w).1 < n

module _ {ℓ κ} {W : Type ℓ} {E : Type κ} (r : Runtime W E) (fl : Flags) (time : W → ℕ)
    (c : IsClock r time) where
  delay-wait :
      (w : W)
      → fl.wait + fl.fuzzy < i64_half
      → (fl.wait ≤ (delay r fl w).1) × ((delay r fl w).1 ≤ fl.wait + fl.fuzzy)
  unfolding delay
  delay-wait w fits = elim (Bool-cases (ltb 0 fl.fuzzy)) [
    | inl e ↦
        let below = c.int63n_below fl.fuzzy w (ground arith) in
        let sum = add64_small fl.wait (r.int63n fl.fuzzy w).1 (omega (arith, below, fits)) in
        rw e (omega (arith, sum), omega (arith, sum, below))
    | inr e ↦ rw e (omega arith, omega arith)
  ]

  -- What is left of a delay after the time that has passed.
  left-wait :
      (d t start : ℕ)
      → start + d < i64_half
      → let left = if leb_i64 d (sub_time t start) then 0 else sub64 d (sub_time t start) in
        (start + d ≤ t + left) × (left < i64_half)
  unfolding leb_i64 sub_time sub64 add64
  left-wait d t start fits = (ground arith, ground arith)

  delay_since-wait :
      (start : ℕ) (w : W)
      → start + fl.wait + fl.fuzzy < i64_half
      → let d = delay_since r fl start w in (start + fl.wait ≤ time d.0 + d.1) × (d.1 < i64_half)
  unfolding delay_since
  delay_since-wait start w fits =
      let (least, most) = delay-wait w (omega (arith, fits)) in
      elim (Bool-cases (start == 0)) [
        | inl e ↦
            let zero_start : start ≡ 0 = ground arith in
            rw (e, delay_since) (omega (arith, least, zero_start), omega (arith, most, fits))
        | inr e ↦
            let n = r.now (delay r fl w).0 in
            let (passes, small) =
              left-wait (delay r fl w).1 n.1 start (omega (arith, most, fits)) in
            rw (e, delay_since) (omega (arith, least, passes, c.now_reads (delay r fl w).0), small)
      ]

  module _ (runner : ℕ → W → W × Option E) where
    pause-passes : (d : ℕ) (w : W) → d < i64_half → time w + d ≤ time (pause r fl runner d w)
    unfolding pause is_positive
    pause-passes d w small = ground (arith, c.sleep_passes d w small)

    once_delayed :
        (ix : ℕ) (w : W) (e : E)
        → (runner ix (r.now w).0).1 ≡ some e
        → r.as_fatal e ≡ none
        → once_attempt r fl runner ix w ≡ (
          (delay_since r fl (r.now w).1 (runner ix (r.now w).0).0).0,
          (delay_since r fl (r.now w).1 (runner ix (r.now w).0).0).1,
          some e,
        )
    unfolding once_attempt
    once_delayed ix w e o f = rw (o, f, once_attempt) refl

    -- After a failure that is not fatal, the next attempt starts no earlier than `wait` after this
    -- one did, whatever time the operation itself took, if the start of this one, `wait` and `fuzzy`
    -- together fit into an int64.
    pub next-wait :
        (ix : ℕ) (w : W) (e : E)
        → (runner ix (r.now w).0).1 ≡ some e
        → r.as_fatal e ≡ none
        → (r.now w).1 + fl.wait + fl.fuzzy < i64_half
        → (r.now w).1 + fl.wait ≤ time (next r fl runner ix w)
    next-wait ix w e o f fits =
        let d = delay_since r fl (r.now w).1 (runner ix (r.now w).0).0 in
        let same : once_attempt r fl runner ix w ≡ (d.0, d.1, some e) = once_delayed ix w e o f in
        let (wait, small) = delay_since-wait (r.now w).1 (runner ix (r.now w).0).0 fits in
        let passes = pause-passes d.1 d.0 small in rw same (omega (arith, passes, wait))
