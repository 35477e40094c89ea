-- ===== src/Allocation/Service/Release.antt =====
-- Release, against what a unit keeps.
use enkit.Common.{
  ◌≡◌, ◌∙◌, refl, ap, Bool, true, false, not, ◌||◌, Bool-cases, Option-cases, inl, inr, none, some,
  List, [], ◌∷◌, if◌then◌else◌, arith,
}
use enkit.Config.Text.{Text, same, same_refl}
use enkit.Allocation.Store.{Ref, Invocation, State, set_host}
use enkit.Config.Names.{has_name}
use enkit.Allocation.Units.{is_some, get_invocation, unit_forget}
use enkit.Allocation.Matching.Progress.{set_host-other}
use enkit.Allocation.Matching.Whole.{set_host-same}
use enkit.Allocation.Service.Sweep.{kept, kept-free, kept-held, Sweeps, sweep, sweep-kept}
use enkit.Allocation.Service.{release_loop, release}

-- What Forget keeps.
abbrev pub is_other : Text → (Ref → Invocation) → Ref → Bool
is_other id cells r = not (same (cells r).id id)

-- Whether one of the units has an invocation of the id.
abbrev pub any_holds : Text → List Text → State → Bool
any_holds id [] s = false
any_holds id (n ∷ ns) s = is_some (get_invocation n s id) || any_holds id ns s

pub get_invocation-free :
    (n id : Text) (s : State) → (s.hosts n).invocation ≡ none → get_invocation n s id ≡ none
unfolding get_invocation
get_invocation-free n id s e = rw (e, get_invocation) refl

pub get_invocation-held :
    (n id : Text) (s : State) (r : Ref)
    → (s.hosts n).invocation ≡ some r
    → is_some (get_invocation n s id) ≡ same (s.cells r).id id
unfolding get_invocation
get_invocation-held n id s r e = elim (Bool-cases (same (s.cells r).id id)) [
  | inl k ↦ rw (e, get_invocation, k) refl
  | inr k ↦ rw (e, get_invocation, k) refl
]

unit_forget-if :
    (id n : Text) (s : State)
    → (unit_forget id n s).0 ≡ (
        if is_some (get_invocation n s id)
        then set_host n (record (s.hosts n) { invocation = none }) s
        else s)
unfolding unit_forget
unit_forget-if id n s = ground arith

pub unit_forget-Sweeps : (id : Text) → Sweeps (is_other id) (λ n s. (unit_forget id n s).0)
unfolding set_host
unit_forget-Sweeps id = record {
  at_unit = λ n s.
      let x = unit_forget-if id n s in
      let y = set_host-same n n (record (s.hosts n) { invocation = none }) s (same_refl n) in
      elim (Option-cases ((s.hosts n).invocation)) [
        | inl e ↦
            (let free = get_invocation-free n id s e in
              let k = kept-free (is_other id s.cells) (s.hosts n) e in ground (arith, x, free, k))
        | inr (r, e) ↦
            (let held = get_invocation-held n id s r e in
              let k = kept-held (is_other id s.cells) (s.hosts n) r e in
              ground (arith, x, y, held, k))
      ];
  other = λ n m s h.
      let x = unit_forget-if id n s in
      let y = set_host-other n m (record (s.hosts n) { invocation = none }) s h in
      ground (arith, x, y);
  rest = λ n s. elim (Bool-cases (is_some (get_invocation n s id))) [
    | inl e ↦ rw (unit_forget-if id n s, e) refl
    | inr e ↦ rw (unit_forget-if id n s, e) refl
  ];
}

pub release_loop-sweep :
    (id : Text) (ns : List Text) (s : State)
    → (release_loop id ns s).0 ≡ sweep (λ n s. (unit_forget id n s).0) ns s
unfolding release_loop
release_loop-sweep id [] s = refl
release_loop-sweep id (n ∷ ns) s = release_loop-sweep id ns ((unit_forget id n s).0)

module _ (id : Text) (s : State) (given : same id [] ≡ false) where
  released : (release id s).0 ≡ sweep (λ n s. (unit_forget id n s).0) s.names s
  unfolding release
  released = rw given (release_loop-sweep id s.names s)

  -- Release with an id takes just the units that have an invocation of the id away from it.
  pub release-kept :
      (n : Text)
      → has_name n s.names ≡ true
      → (release id s).0.hosts n ≡ kept (is_other id s.cells) (s.hosts n)
  release-kept n known =
      ap (λ (x : State). x.hosts n) released
      ∙ sweep-kept (is_other id) (λ n s. (unit_forget id n s).0) (unit_forget-Sweeps id) s.names n s
      ∙ rw known refl
