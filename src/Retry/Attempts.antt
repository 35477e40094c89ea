-- ===== src/Retry/Attempts.antt =====
-- RunAttempt of lib/retry/retry.go: how it ends, after which attempts, and what errors it reports.
use enkit.Common.{
  ℕ, zero, suc, ◌+◌, ◌≤◌, ◌<◌, ◌≡◌, ◌∙◌, refl, sym, true, false, Option, none, some, Option-cases,
  List, [], ◌∷◌, ◌++◌, length, length-append, take, take-nil, leb, ◌⊎◌, inl, inr, arith,
}
use enkit.Retry.{
  Runtime, Flags, RunError, original, exhausted, once_attempt, store, pause, multi_error, may_run,
  run_loop, run_attempt,
}
use mathlib.Core.Path.{subst}
use mathlib.Core.List.{append_assoc, append-nil}

module _ {ℓ κ} {W : Type ℓ} {E : Type κ} (r : Runtime W E) (fl : Flags)
    (runner : ℕ → W → W × Option E) where
  -- The world in which the next attempt starts.
  abbrev pub next : ℕ → W → W
  next ix w = let out = once_attempt r fl runner ix w in pause r fl runner out.1 out.0

  -- The attempts from `ix` on fail with these errors, none of them fatal.
  abbrev pub AllFail : ℕ → W → List E → Type κ
  AllFail ix w [] = Unit
  AllFail ix w (e ∷ es) =
      ((once_attempt r fl runner ix w).2 ≡ some e)
      × (r.as_fatal e ≡ none)
      × AllFail (ix + 1) (next ix w) es

  abbrev pub after : ℕ → W → List E → W
  after ix w [] = w
  after ix w (e ∷ es) = after (ix + 1) (next ix w) es

  abbrev stores : List E → List E → List E
  stores errs [] = errs
  stores errs (e ∷ es) = stores (store r fl runner errs e) es

  store_room :
      (errs : List E) (e : E)
      → length errs ≤ fl.max_errors
      → store r fl runner errs e ≡ errs ++ e ∷ []
  unfolding store
  store_room errs e h =
      let t : leb (length errs) fl.max_errors ≡ true = ground arith in rw (t, store) refl

  store_full :
      (errs : List E) (e : E) → fl.max_errors < length errs → store r fl runner errs e ≡ errs
  unfolding store
  store_full errs e h =
      let t : leb (length errs) fl.max_errors ≡ false = ground arith in rw (t, store) refl

  stores_full : (errs es : List E) → fl.max_errors < length errs → stores errs es ≡ errs
  stores_full errs [] h = refl
  stores_full errs (e ∷ es) h = rw (store_full errs e h) (stores_full errs es h)

  stores-take :
      (n : ℕ) (errs es : List E)
      → n + length errs ≡ suc fl.max_errors
      → stores errs es ≡ errs ++ take n es
  stores-take n errs [] h =
      let t : take {A = E} n [] ≡ [] = take-nil n in rw t (sym (append-nil errs))
  stores-take zero errs (e ∷ es) h = stores_full errs (e ∷ es) (omega arith) ∙ sym (append-nil errs)
  stores-take (suc n) errs (e ∷ es) h = rw (store_room errs e (omega arith)) (
      stores-take n (errs ++ e ∷ []) es (omega (arith, length-append errs (e ∷ [])))
      ∙ append_assoc errs (e ∷ []) (take n es))

  abbrev pub fatal_result : Option E → Option (RunError E)
  fatal_result none = none
  fatal_result (some stop) = some (original stop)

  -- How the loop ends in attempt `j`, after failures that left `errs`: with a success, a fatal
  -- error, or no more attempts.
  abbrev pub Ended : ℕ → W → List E → W × Option (RunError E) → Type (ℓ ⊔ κ)
  Ended j w errs result =
      ((j < fl.at_most)
        × ((once_attempt r fl runner j w).2 ≡ none)
        × (result ≡ ((once_attempt r fl runner j w).0, none)))
      ⊎ (((e : E) × (stop : Option E) × (j < fl.at_most)
            × ((once_attempt r fl runner j w).2 ≡ some e)
            × (r.as_fatal e ≡ some stop)
            × (result ≡ ((once_attempt r fl runner j w).0, fatal_result stop)))
          ⊎ ((j ≡ fl.at_most) × (result ≡ (w, some (exhausted (multi_error r fl runner errs))))))

  module _ (n ix : ℕ) (errs : List E) (w : W) where
    loop_done :
        may_run r fl runner ix ≡ false
        → run_loop r fl runner (suc n) ix errs w
          ≡ some (w, some (exhausted (multi_error r fl runner errs)))
    unfolding run_loop
    loop_done m = rw (m, run_loop) refl

    module _ (m : may_run r fl runner ix ≡ true) where
      loop_success :
          (once_attempt r fl runner ix w).2 ≡ none
          → run_loop r fl runner (suc n) ix errs w ≡ some ((once_attempt r fl runner ix w).0, none)
      unfolding run_loop
      loop_success o = rw (m, o, run_loop) refl

      loop_fatal :
          (e : E) (stop : Option E)
          → (once_attempt r fl runner ix w).2 ≡ some e
          → r.as_fatal e ≡ some stop
          → run_loop r fl runner (suc n) ix errs w
            ≡ some ((once_attempt r fl runner ix w).0, fatal_result stop)
      unfolding run_loop
      loop_fatal e none o f = rw (m, o, f, run_loop) refl
      loop_fatal e (some stop) o f = rw (m, o, f, run_loop) refl

      loop_next :
          (e : E)
          → (once_attempt r fl runner ix w).2 ≡ some e
          → r.as_fatal e ≡ none
          → run_loop r fl runner (suc n) ix errs w
            ≡ run_loop r fl runner n (ix + 1) (store r fl runner errs e) (next ix w)
      unfolding run_loop
      loop_next e o f = rw (m, o, f, run_loop) refl

  run_loop-Ended :
      (left ix : ℕ) (errs : List E) (w : W)
      → ix + left ≡ fl.at_most
      → 0 < fl.at_most
      → (es : List E) × AllFail ix w es
        × (j : ℕ) × (j ≡ ix + length es)
        × (result : W × Option (RunError E)) × (run_loop r fl runner (suc left) ix errs w
            ≡ some result)
        × Ended j (after ix w es) (stores errs es) result
  run_loop-Ended zero ix errs w h k =
      let m : may_run r fl runner ix ≡ false = ground arith in
      (
        [],
        tt,
        ix,
        omega arith,
        (w, some (exhausted (multi_error r fl runner errs))),
        loop_done 0 ix errs w m,
        inr (inr (omega arith, refl)),
      )
  run_loop-Ended (suc left) ix errs w h k =
      let m : may_run r fl runner ix ≡ true = ground arith in
      let out = once_attempt r fl runner ix w in
      elim (Option-cases out.2) [
        | inl o ↦ (
          [],
          tt,
          ix,
          omega arith,
          (out.0, none),
          loop_success (suc left) ix errs w m o,
          inl (omega arith, o, refl),
        )
        | inr (e, o) ↦ elim (Option-cases (r.as_fatal e)) [
          | inr (stop, f) ↦ (
            [],
            tt,
            ix,
            omega arith,
            (out.0, fatal_result stop),
            loop_fatal (suc left) ix errs w m e stop o f,
            inr (inl (e, stop, omega arith, o, f, refl)),
          )
          | inl f ↦
              (let (es, fail, j, at, result, eq, ended) =
                  run_loop-Ended left (ix + 1) (store r fl runner errs e) (next ix w) (omega arith)
                    k in
                (
                  e ∷ es,
                  (o, f, fail),
                  j,
                  omega arith,
                  result,
                  loop_next (suc left) ix errs w m e o f ∙ eq,
                  ended,
                ))
        ]
      ]

  -- With a limit RunAttempt ends after at most that many attempts: after failures that are not
  -- fatal, with a success, or with the original of a fatal error, or when the limit is reached,
  -- with the first `max_errors + 1` of the errors.
  pub run_attempt-Ended :
      (w : W)
      → 0 < fl.at_most
      → (es : List E) × AllFail 0 w es
        × (result : W × Option (RunError E)) × (run_attempt r fl runner (suc fl.at_most) w
            ≡ some result)
        × Ended (length es) (after 0 w es) (take (suc fl.max_errors) es) result
  unfolding run_attempt
  run_attempt-Ended w k =
      let (es, fail, j, at, result, eq, ended) = run_loop-Ended fl.at_most 0 [] w (omega arith) k in
      let same : j ≡ length es = omega arith in
      (
        es,
        fail,
        result,
        eq,
        subst (λ i. Ended i (after 0 w es) (take (suc fl.max_errors) es) result) same
            (subst (λ l. Ended j (after 0 w es) l result)
              (stores-take (suc fl.max_errors) [] es (omega arith)) ended),
      )

  -- Without a limit the loop goes on after any failures that are not fatal.
  loop_failures :
      (es : List E) (k n ix j : ℕ) (errs : List E) (w : W)
      → fl.at_most ≡ 0
      → AllFail ix w es
      → k ≡ n + length es
      → j ≡ ix + length es
      → run_loop r fl runner k ix errs w ≡ run_loop r fl runner n j (stores errs es) (after ix w es)
  loop_failures [] k n ix j errs w u a e i =
      let e' : k ≡ n = omega arith in let i' : j ≡ ix = omega arith in rw (e', i') refl
  loop_failures (x ∷ es) zero n ix j errs w u a e i = absurd (omega arith)
  loop_failures (x ∷ es) (suc k) n ix j errs w u (o, f, a) e i =
      let m : may_run r fl runner ix ≡ true = ground arith in
      loop_next k ix errs w m x o f
      ∙ loop_failures es k n (ix + 1) j (store r fl runner errs x) (next ix w) u a (omega arith)
          (omega arith)

  -- Without a limit RunAttempt returns nil once an attempt succeeds after failures that were not
  -- fatal, however many these were.
  pub run_attempt-unlimited :
      (w : W) (es : List E)
      → fl.at_most ≡ 0
      → AllFail 0 w es
      → (once_attempt r fl runner (length es) (after 0 w es)).2 ≡ none
      → run_attempt r fl runner (suc (length es)) w
        ≡ some ((once_attempt r fl runner (length es) (after 0 w es)).0, none)
  unfolding run_attempt
  run_attempt-unlimited w es u a o =
      let m : may_run r fl runner (length es) ≡ true = ground arith in
      loop_failures es (suc (length es)) 1 0 (length es) [] w u a (omega arith) (omega arith)
      ∙ loop_success 0 (length es) (stores [] es) (after 0 w es) m o
