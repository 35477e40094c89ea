-- ===== src/Allocation/Matching/Settled.antt =====
-- Who waits after Promote.
use enkit.Common.{
  ◌≡◌, ◌∙◌, refl, ap, sym, true, false, Bool-cases, inl, inr, ◌⊎◌, List, [], ◌∷◌, ◌==◌, arith,
}
use mathlib.Core.Path.{subst}
use enkit.Config.Text.{Text, same, same_refl}
use enkit.Allocation.Store.{Ref, TopologyRequest, State}
use enkit.Allocation.Units.{is_allocated, can_be_allocated}
use enkit.Allocation.Queue.{forget}
use enkit.Allocation.Matching.{
  Topologies, match_loop, matchmaker, promote_one, promote_loop, promote,
}
use enkit.Allocation.Matching.Progress.{
  has_ref, Progress, forget-Forgets, promote_one-cases, allocate_matches-queue,
  promote_loop-Progress,
}

-- No topology of the name that the invocation asks for is free.
abbrev pub IsStuck : Topologies → State → Ref → Type 0
IsStuck ts s r = matchmaker ts (s.cells r).topology_request s false ≡ []

can_be_allocated-false :
    (ns : List Text) (s s' : State)
    → Progress s s'
    → can_be_allocated ns s ≡ false
    → can_be_allocated ns s' ≡ false
unfolding can_be_allocated
can_be_allocated-false [] s s' p h = cc
can_be_allocated-false (n ∷ ns) s s' p h = elim (Bool-cases (is_allocated (s.hosts n))) [
  | inl a ↦ (let e = ap is_allocated (p.hosts n a) ∙ a in rw e refl)
  | inr a ↦
      (let rest = can_be_allocated-false ns s s' p in
        let h' : can_be_allocated ns s ≡ false = ground arith in ground (arith, rest h'))
]

match_loop-none :
    (ts : Topologies) (name : Text) (s s' : State)
    → Progress s s'
    → match_loop ts name s false ≡ []
    → match_loop ts name s' false ≡ []
unfolding match_loop
match_loop-none [] name s s' p h = refl
match_loop-none ((key, t) ∷ ts) name s s' p h = elim (Bool-cases (can_be_allocated t.units s)) [
  | inr e ↦
      (let rest : match_loop ts name s false ≡ [] = ground arith in
        rw (can_be_allocated-false t.units s s' p e) (match_loop-none ts name s s' p rest))
  | inl e ↦ elim (Bool-cases (same key name)) [
    | inl k ↦
        (let x : match_loop ((key, t) ∷ ts) name s false ≡ t ∷ match_loop ts name s false =
            rw (e, k, match_loop) refl in
          cc)
    | inr k ↦
        (let x : match_loop ((key, t) ∷ ts) name s false ≡ match_loop ts name s false =
            rw (e, k, match_loop) refl in
          let rest = match_loop-none ts name s s' p (sym x ∙ h) in ground (arith, rest, k))
  ]
]

matchmaker-none :
    (ts : Topologies) (request : TopologyRequest) (s s' : State)
    → Progress s s'
    → matchmaker ts request s false ≡ []
    → matchmaker ts request s' false ≡ []
unfolding matchmaker
matchmaker-none ts request s s' p h = elim (Bool-cases (same request.name [])) [
  | inl e ↦ rw e refl
  | inr e ↦
      (let x : match_loop ts request.name s false ≡ [] = ground arith in
        rw e (match_loop-none ts request.name s s' p x))
]

pub IsStuck-Progress :
    (ts : Topologies) (r : Ref) (s s' : State) → Progress s s' → IsStuck ts s r → IsStuck ts s' r
IsStuck-Progress ts r s s' p h =
    ap (λ q. matchmaker ts q s' false) (p.requests r)
    ∙ matchmaker-none ts (s.cells r).topology_request s s' p h

-- The round of an invocation either leaves it because it is stuck, or takes it from the queue.
own_round :
    (ts : Topologies) (r : Ref) (s : State)
    → IsStuck ts (promote_one ts r s) r ⊎ (has_ref r (promote_one ts r s).queue ≡ false)
own_round ts r s = elim (promote_one-cases ts r s) [
  | inl (e, p) ↦ inl (subst (λ x. IsStuck ts x r) (sym p) e)
  | inr (m, ms, e, p) ↦
      (let (hosts, ids, requests, queue) = forget-Forgets (s.cells r).id s in
        inr (
          ap (λ (x : State). has_ref r x.queue) p
          ∙ ap (has_ref r) (allocate_matches-queue (m ∷ ms) r (forget (s.cells r).id s))
          ∙ queue r
          ∙ ground (arith, same_refl (s.cells r).id)))
]

promote_loop-IsStuck :
    (ts : Topologies) (rs : List Ref) (s : State) (r : Ref)
    → has_ref r rs ≡ true
    → has_ref r (promote_loop ts rs s).queue ≡ true
    → IsStuck ts (promote_loop ts rs s) r
unfolding promote_loop
promote_loop-IsStuck ts [] s r m h = cc
promote_loop-IsStuck ts (q ∷ rs) s r m h = elim (Bool-cases (r == q)) [
  | inr e ↦
      (let m' : has_ref r rs ≡ true = ground arith in
        promote_loop-IsStuck ts rs (promote_one ts q s) r m' h)
  | inl e ↦
      (let k : q ≡ r = ground arith in
        let p = promote_loop-Progress ts rs (promote_one ts q s) in
        elim (own_round ts q s) [
          | inl stuck ↦
              subst (IsStuck ts (promote_loop ts rs (promote_one ts q s))) k
                (IsStuck-Progress ts q (promote_one ts q s) _ p stuck)
          | inr gone ↦
              (let gone' =
                  p.queue r (subst (λ x. has_ref x (promote_one ts q s).queue ≡ false) k gone) in
                cc)
        ])
]

-- Promote takes no unit away from an invocation that holds it.
pub promote-keeps :
    (ts : Topologies) (s : State) (n : Text)
    → is_allocated (s.hosts n) ≡ true
    → (promote ts s).hosts n ≡ s.hosts n
unfolding promote
promote-keeps ts s n a = (promote_loop-Progress ts s.queue s).hosts n a

-- After Promote an invocation waits only if no topology of the name that it asks for is free.
pub promote-IsStuck :
    (ts : Topologies) (s : State) (r : Ref)
    → has_ref r (promote ts s).queue ≡ true
    → IsStuck ts (promote ts s) r
unfolding promote
promote-IsStuck ts s r h = elim (Bool-cases (has_ref r s.queue)) [
  | inl m ↦ promote_loop-IsStuck ts s.queue s r m h
  | inr m ↦ (let gone = (promote_loop-Progress ts s.queue s).queue r m in cc)
]
