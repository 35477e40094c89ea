-- ===== src/Allocation/Matching/Origin.antt =====
-- Which invocation a unit has after Promote: its own, or one that waited.
use enkit.Common.{
  ◌≡◌, ◌∙◌, refl, ap, sym, true, Bool-cases, inl, inr, ◌⊎◌, some, List, [], ◌∷◌, arith,
}
use mathlib.Core.Path.{subst}
use enkit.Config.Text.{Text, same}
use enkit.Allocation.Store.{Ref, Host, Topology, State}
use enkit.Allocation.Units.{is_some, get_invocation, unit_allocate, topology_allocate}
use enkit.Allocation.Queue.{forget}
use enkit.Allocation.Matching.{Topologies, allocate_matches, promote_one, promote_loop, promote}
use enkit.Allocation.Matching.Progress.{
  has_ref, forget-Forgets, promote_one-cases, unit_allocate-other,
}
use enkit.Allocation.Matching.Whole.{set_host-same}

-- The unit is as it was, or has the invocation.
abbrev pub Gets : Ref → Text → State → State → Type 0
Gets r n s s' = (s'.hosts n ≡ s.hosts n) ⊎ ((s'.hosts n).invocation ≡ some r)

Gets-trans : (r : Ref) (n : Text) (s t u : State) → Gets r n s t → Gets r n t u → Gets r n s u
Gets-trans r n s t u p (inr e) = inr e
Gets-trans r n s t u (inl d) (inl e) = inl (e ∙ d)
Gets-trans r n s t u (inr d) (inl e) = inr (ap (λ (h : Host). h.invocation) e ∙ d)

pub unit_allocate-Gets : (m n : Text) (r : Ref) (s : State) → Gets r n s (unit_allocate m r s).0
unfolding unit_allocate
unit_allocate-Gets m n r s = elim (Bool-cases (same m n)) [
  | inr e ↦ inl (unit_allocate-other m n r s e)
  | inl e ↦ elim (Bool-cases (is_some (get_invocation m s (s.cells r).id))) [
    | inl k ↦ inl (rw (k, unit_allocate) refl)
    | inr k ↦ inr (
        rw (k, unit_allocate)
          (ap (λ (h : Host). h.invocation)
            (set_host-same m n (record (s.hosts m) { invocation = some r }) s e)))
  ]
]

topology_allocate-Gets :
    (ns : List Text) (n : Text) (r : Ref) (s : State) → Gets r n s (topology_allocate ns r s).0
unfolding topology_allocate
topology_allocate-Gets [] n r s = inl refl
topology_allocate-Gets (m ∷ ns) n r s =
    let first = unit_allocate-Gets m n r s in
    let rest = topology_allocate-Gets ns n r ((unit_allocate m r s).0) in
    elim (Bool-cases ((unit_allocate m r s).1)) [
      | inl k ↦
          rw (k, topology_allocate)
            (Gets-trans r n s ((unit_allocate m r s).0)
              ((topology_allocate ns r ((unit_allocate m r s).0)).0) first rest)
      | inr k ↦ rw (k, topology_allocate) first
    ]

allocate_matches-Gets :
    (ms : List Topology) (n : Text) (r : Ref) (s : State) → Gets r n s (allocate_matches ms r s)
unfolding allocate_matches
allocate_matches-Gets [] n r s = inl refl
allocate_matches-Gets (m ∷ ms) n r s =
    Gets-trans r n s ((topology_allocate m.units r s).0)
      (allocate_matches ms r ((topology_allocate m.units r s).0))
      (topology_allocate-Gets m.units n r s)
      (allocate_matches-Gets ms n r ((topology_allocate m.units r s).0))

promote_one-Gets :
    (ts : Topologies) (r : Ref) (n : Text) (s : State) → Gets r n s (promote_one ts r s)
promote_one-Gets ts r n s = elim (promote_one-cases ts r s) [
  | inl (e, p) ↦ inl (ap (λ (x : State). x.hosts n) p)
  | inr (m, ms, e, p) ↦
      (let (hosts, ids, requests, queue) = forget-Forgets (s.cells r).id s in
        let forgets : Gets r n s (forget (s.cells r).id s) = inl (ap (λ h. h n) hosts) in
        subst (Gets r n s) (sym p) (
          Gets-trans r n s (forget (s.cells r).id s)
            (allocate_matches (m ∷ ms) r (forget (s.cells r).id s)) forgets
            (allocate_matches-Gets (m ∷ ms) n r (forget (s.cells r).id s))))
]

-- The unit is as it was, or has one of the invocations.
abbrev pub GetsOne : List Ref → Text → State → State → Type 0
GetsOne rs n s s' =
    (s'.hosts n ≡ s.hosts n)
    ⊎ ((r : Ref) × ((s'.hosts n).invocation ≡ some r) × (has_ref r rs ≡ true))

add_round :
    (q : Ref) (rs : List Ref) (n : Text) (s t u : State)
    → Gets q n s t
    → GetsOne rs n t u
    → GetsOne (q ∷ rs) n s u
add_round q rs n s t u first (inr (r, e, m)) = inr (r, e, ground (arith, m))
add_round q rs n s t u (inl first) (inl e) = inl (e ∙ first)
add_round q rs n s t u (inr first) (inl e) =
    inr (q, ap (λ (h : Host). h.invocation) e ∙ first, ground arith)

promote_loop-GetsOne :
    (ts : Topologies) (rs : List Ref) (n : Text) (s : State) → GetsOne rs n s (promote_loop ts rs s)
unfolding promote_loop
promote_loop-GetsOne ts [] n s = inl refl
promote_loop-GetsOne ts (q ∷ rs) n s =
    add_round q rs n s (promote_one ts q s) (promote_loop ts rs (promote_one ts q s))
      (promote_one-Gets ts q n s) (promote_loop-GetsOne ts rs n (promote_one ts q s))

pub promote-GetsOne : (ts : Topologies) (n : Text) (s : State) → GetsOne s.queue n s (promote ts s)
unfolding promote
promote-GetsOne ts n s = promote_loop-GetsOne ts s.queue n s
