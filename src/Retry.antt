-- ===== src/Retry.antt =====
-- lib/retry: the loop that repeats an operation until it succeeds, fails for good, or has used up
-- its attempts. A duration is an int64, as its bit pattern. Messages and logging are not modelled,
-- nor flags that are negative.
pub mod Attempts
pub mod Delays
mod Examples
use enkit.Common.{
  ℕ, zero, suc, ◌+◌, ◌-◌, Bool, true, false, ◌||◌, Option, none, some, List, [], ◌∷◌, ◌++◌, length,
  if◌then◌else◌, ltb, leb, ◌==◌,
}
use enkit.Common.Words.{add64, sub64, i64_half, leb_i64, is_positive}

-- What Options and the libraries give: the clock, the source of random numbers below a bound,
-- sleeping, and errors.As for a FatalError, with its `Original`; `none` is nil there.
pub record Runtime {ℓ κ} (W : Type ℓ) (E : Type κ) : Type (ℓ ⊔ κ) where
  pub now : W → W × ℕ
  pub int63n : ℕ → W → W × ℕ
  pub sleep : ℕ → W → W
  pub as_fatal : E → Option (Option E)

-- The zero time is 0.
pub record Flags : Type 0 where
  pub at_most : ℕ
  pub wait : ℕ
  pub fuzzy : ℕ
  pub max_errors : ℕ

-- What RunAttempt returns instead of nil.
pub data RunError {κ} (E : Type κ) : Type κ where
  original : E → RunError E
  -- The MultiError of an ExaustedError; nil without errors.
  exhausted : Option (List E) → RunError E

-- time.Time.Sub, which stops at the least and at the greatest int64.
unfoldable pub sub_time : ℕ → ℕ → ℕ
unfolding sub64
sub_time t u =
    if leb u t
    then (if ltb (t - u) i64_half then t - u else i64_half - 1)
    else (if ltb (u - t) i64_half then sub64 0 (u - t) else i64_half)

module _ {ℓ κ} {W : Type ℓ} {E : Type κ} (r : Runtime W E) (fl : Flags) where
  -- Delay.
  unfoldable pub delay : W → W × ℕ
  unfolding add64
  delay w =
      if ltb 0 fl.fuzzy
      then (let delta = r.int63n fl.fuzzy w in (delta.0, add64 fl.wait delta.1))
      else (w, fl.wait)

  -- DelaySince.
  unfoldable pub delay_since : ℕ → W → W × ℕ
  unfolding delay leb_i64 sub64 sub_time
  delay_since start w =
      let d = delay w in
      let n = r.now d.0 in
      let elapsed = sub_time n.1 start in
      if start == 0 then d else (n.0, (if leb_i64 d.1 elapsed then 0 else sub64 d.1 elapsed))

  module _ (runner : ℕ → W → W × Option E) where
    unfoldable pub once_attempt : ℕ → W → W × ℕ × Option E
    once_attempt attempt w =
        let start = r.now w in
        let out = runner attempt start.0 in
        elim out.1 [
          | none ↦ (out.0, 0, none)
          | some e ↦ elim (r.as_fatal e) [
            | some stop ↦ (out.0, 0, some e)
            | none ↦ (let d = delay_since start.1 out.0 in (d.0, d.1, some e))
          ]
        ]

    -- `errs = append(errs, err)`, while there is room.
    unfoldable pub store : List E → E → List E
    store errs e = if leb (length errs) fl.max_errors then errs ++ e ∷ [] else errs

    -- `if delay > 0 { sleep(delay) }`
    unfoldable pub pause : ℕ → W → W
    unfolding is_positive
    pause d w = if is_positive d then r.sleep d w else w

    -- multierror.New, for errors that are not nil.
    unfoldable pub multi_error : List E → Option (List E)
    multi_error [] = none
    multi_error (e ∷ errs) = some (e ∷ errs)

    abbrev pub may_run : ℕ → Bool
    may_run ix = (fl.at_most == 0) || ltb ix fl.at_most

    -- The loop of RunAttempt, from attempt `ix` on; `none` is out of fuel.
    unfoldable pub run_loop : ℕ → ℕ → List E → W → Option (W × Option (RunError E))
    run_loop zero ix errs w = none
    run_loop (suc fuel) ix errs w = elim (may_run ix) [
      | false ↦ some (w, some (exhausted (multi_error errs)))
      | true ↦
          let out = once_attempt ix w in
          elim out.2 [
            | none ↦ some (out.0, none)
            | some e ↦ elim (r.as_fatal e) [
              | some none ↦ some (out.0, none)
              | some (some stop) ↦ some (out.0, some (original stop))
              | none ↦ run_loop fuel (ix + 1) (store errs e) (pause out.1 out.0)
            ]
          ]
    ]

    -- RunAttempt.
    unfoldable pub run_attempt : ℕ → W → Option (W × Option (RunError E))
    run_attempt fuel w = run_loop fuel 0 [] w
