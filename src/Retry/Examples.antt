-- ===== src/Retry/Examples.antt =====
-- An operation of lib/retry that fails twice, with a clock that counts nanoseconds.
use enkit.Common.{
  ℕ, ◌+◌, ◌≤◌, ◌≡◌, refl, Option, none, some, List, take, length, arith, [], ◌∷◌, ltb,
  if◌then◌else◌,
}
use enkit.Retry.{
  delay, sub_time, delay_since, once_attempt, pause, Runtime, Flags, RunError, run_attempt,
}
use enkit.Common.Words.{add64, sub64, leb_i64, is_positive}
use enkit.Retry.Attempts.{AllFail, after, next, Ended, run_attempt-Ended, run_attempt-unlimited}
use enkit.Retry.Delays.{IsClock, next-wait}

-- Errors are numbers, of which 9 is fatal.
abbrev runtime : Runtime ℕ ℕ
runtime = record {
  now = λ w. (w, w);
  int63n = λ n w. (w, 0);
  sleep = λ d w. w + d;
  as_fatal = λ e. if ltb 8 e then some (some e) else none;
}

abbrev twice : Flags
twice = record { at_most = 2; wait = 10; fuzzy = 0; max_errors = 0 }

-- It takes one nanosecond.
abbrev fails : ℕ → ℕ → ℕ × Option ℕ
fails ix w = (w + 1, some ix)

runtime-IsClock : IsClock runtime (λ w. w)
runtime-IsClock = record {
  now_reads = λ w. omega arith;
  sleep_passes = λ d w small. omega arith;
  int63n_below = λ n w h. h;
}

run_attempt-Ended_example :
    (es : List ℕ) × AllFail runtime twice fails 0 5 es
    × (result : ℕ × Option (RunError ℕ)) × (run_attempt runtime twice fails 3 5 ≡ some result)
    × Ended runtime twice fails (length es) (after runtime twice fails 0 5 es) (take 1 es) result
run_attempt-Ended_example = run_attempt-Ended runtime twice fails 5 (omega arith)

next-wait_example : 15 ≤ next runtime twice fails 0 5
next-wait_example =
    next-wait runtime twice (λ w. w) runtime-IsClock fails 0 5 0 refl refl (omega arith)

-- A wait that is as long as can be turns into a negative delay when it is fuzzied.
negative :
    (delay
      (record runtime { int63n = λ n w. (w, 1) })
      (record twice { wait = 9223372036854775807; fuzzy = 2 })
      5).1
    ≡ 9223372036854775808
unfolding delay add64
negative = refl

abbrev unlimited : Flags
unlimited = record { at_most = 0; wait = 10; fuzzy = 0; max_errors = 0 }

-- It succeeds at the third attempt.
abbrev third : ℕ → ℕ → ℕ × Option ℕ
third ix w = (w + 1, (if ltb ix 2 then some 7 else none))

run_attempt-unlimited_example : run_attempt runtime unlimited third 3 5 ≡ some (26, none)
unfolding once_attempt delay_since delay sub_time leb_i64 is_positive sub64 add64 pause
run_attempt-unlimited_example =
    run_attempt-unlimited runtime unlimited third 5 (7 ∷ 7 ∷ []) refl (refl, refl, (refl, refl, tt))
      refl
