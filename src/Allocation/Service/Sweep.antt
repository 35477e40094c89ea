-- ===== src/Allocation/Service/Sweep.antt =====
-- Loops over the units that take invocations away, as the janitor and Release do.
use enkit.Common.{
  ◌≡◌, ◌∙◌, refl, ap, sym, Bool, true, false, Bool-cases, Option-cases, inl, inr, Option, none,
  some, List, [], ◌∷◌, if◌then◌else◌, arith,
}
use mathlib.Core.Path.{subst}
use enkit.Config.Text.{Text, same, same_iff}
use enkit.Allocation.Store.{Ref, Host, Invocation, State}
use enkit.Config.Names.{has_name}

-- A unit keeps its invocation just if the test says so.
unfoldable pub kept_by : (Ref → Bool) → Option Ref → Host → Host
kept_by keep none h = h
kept_by keep (some r) h = if keep r then h else record h { invocation = none }

abbrev pub kept : (Ref → Bool) → Host → Host
kept keep h = kept_by keep h.invocation h

pub kept-free : (keep : Ref → Bool) (h : Host) → h.invocation ≡ none → kept keep h ≡ h
unfolding kept_by
kept-free keep h e = ap (λ o. kept_by keep o h) e

pub kept-held :
    (keep : Ref → Bool) (h : Host) (r : Ref)
    → h.invocation ≡ some r
    → kept keep h ≡ (if keep r then h else record h { invocation = none })
unfolding kept_by
kept-held keep h r e = ap (λ o. kept_by keep o h) e

-- A unit that has an invocation afterwards had it before, and the test is true of it.
pub kept-holder :
    (keep : Ref → Bool) (h : Host) (r : Ref)
    → (kept keep h).invocation ≡ some r
    → (h.invocation ≡ some r) × (keep r ≡ true)
kept-holder keep h r e = elim (Option-cases h.invocation) [
  | inl f ↦ (let k = ap (λ (x : Host). x.invocation) (kept-free keep h f) in cc)
  | inr (q, f) ↦ elim (Bool-cases (keep q)) [
    | inl t ↦
        (let k : kept keep h ≡ h = kept-held keep h q f ∙ rw t refl in
          let k' : (kept keep h).invocation ≡ h.invocation = ap (λ (x : Host). x.invocation) k in
          let same_ref : q ≡ r = cc in
          (f ∙ ap some same_ref, subst (λ x. keep x ≡ true) same_ref t))
    | inr t ↦
        (let k : kept keep h ≡ record h { invocation = none } = kept-held keep h q f ∙ rw t refl in
          let k' : (kept keep h).invocation ≡ none = ap (λ (x : Host). x.invocation) k in cc)
  ]
]

kept-twice : (keep : Ref → Bool) (h : Host) → kept keep (kept keep h) ≡ kept keep h
kept-twice keep h = elim (Option-cases h.invocation) [
  | inl e ↦ (let k = kept-free keep h e in ap (kept keep) k)
  | inr (r, e) ↦ elim (Bool-cases (keep r)) [
    | inl t ↦ (let k : kept keep h ≡ h = kept-held keep h r e ∙ rw t refl in ap (kept keep) k)
    | inr t ↦
        (let k : kept keep h ≡ record h { invocation = none } = kept-held keep h r e ∙ rw t refl in
          ap (kept keep) k ∙ kept-free keep (record h { invocation = none }) refl ∙ sym k)
  ]
]

-- The invocations, and the queue.
abbrev pub shared : State → (Ref → Invocation) × List Ref × Ref
shared s = (s.cells, s.queue, s.next)

-- What the loop does at one unit.
pub record Sweeps (keep : (Ref → Invocation) → Ref → Bool) (step : Text → State → State)
    : Type 0 where
  pub at_unit : (n : Text) (s : State) → (step n s).hosts n ≡ kept (keep s.cells) (s.hosts n)
  pub other : (n m : Text) (s : State) → same n m ≡ false → (step n s).hosts m ≡ s.hosts m
  pub rest : (n : Text) (s : State) → shared (step n s) ≡ shared s

abbrev pub sweep : (Text → State → State) → List Text → State → State
sweep step [] s = s
sweep step (n ∷ ns) s = sweep step ns (step n s)

module _ (keep : (Ref → Invocation) → Ref → Bool) (step : Text → State → State)
    (sweeps : Sweeps keep step) where
  pub sweep-shared : (ns : List Text) (s : State) → shared (sweep step ns s) ≡ shared s
  sweep-shared [] s = refl
  sweep-shared (n ∷ ns) s = sweep-shared ns (step n s) ∙ sweeps.rest n s

  -- A loop applies the test to each of its units.
  pub sweep-kept :
      (ns : List Text) (m : Text) (s : State)
      → (sweep step ns s).hosts m
        ≡ (if has_name m ns then kept (keep s.cells) (s.hosts m) else s.hosts m)
  unfolding has_name
  sweep-kept [] m s = refl
  sweep-kept (n ∷ ns) m s =
      let s' = step n s in
      let ih = sweep-kept ns m s' in
      let cells : keep s'.cells ≡ keep s.cells = ap (λ x. keep x.0) (sweeps.rest n s) in
      let moved : kept (keep s'.cells) (s'.hosts m) ≡ kept (keep s.cells) (s'.hosts m) =
        ap (λ k. kept k (s'.hosts m)) cells in
      elim (Bool-cases (same n m)) [
        | inl e ↦
            (let first : s'.hosts m ≡ kept (keep s.cells) (s.hosts m) =
                subst (λ x. s'.hosts x ≡ kept (keep s.cells) (s.hosts x)) ((same_iff n m).0 e)
                  (sweeps.at_unit n s) in
              let again =
                moved ∙ ap (kept (keep s.cells)) first ∙ kept-twice (keep s.cells) (s.hosts m) in
              ground (arith, ih, first, again, e))
        | inr e ↦
            (let first = sweeps.other n m s e in
              let again = moved ∙ ap (kept (keep s.cells)) first in
              ground (arith, ih, first, again, e))
      ]
