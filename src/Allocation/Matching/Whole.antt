-- ===== src/Allocation/Matching/Whole.antt =====
-- What Promote gives to an invocation that it takes from the queue.
use enkit.Common.{
  ◌≡◌, ◌∙◌, refl, ap, sym, Bool, true, false, Bool-cases, Option-cases, inl, inr, none, some, List,
  [], ◌∷◌, arith,
}
use mathlib.Core.List.{Memᴰ}
use mathlib.Core.List.Memᴰ.{head, tail}
use mathlib.Core.Path.{subst}
use enkit.Config.Text.{Text, same, same_iff, same_refl}
use enkit.Allocation.Store.{Ref, Host, Topology, TopologyRequest, State, set_host}
use enkit.Config.Names.{has_name, AreOnce}
use enkit.Allocation.Units.{
  is_some, get_invocation, unit_allocate, topology_allocate, can_be_allocated,
}
use enkit.Allocation.Queue.{forget}
use enkit.Allocation.Matching.{
  Topologies, match_loop, matchmaker, allocate_matches, promote_one, promote_loop, promote,
}
use enkit.Allocation.Matching.Progress.{
  has_ref, Progress, set_host-other, can_be_allocated-free, AllFree, matchmaker-AllFree,
  forget-Forgets, promote_one-cases, allocate_matches-queue, allocate_matches-cells,
  promote_one-Progress, promote_loop-Progress,
}

-- No host is twice in a topology.
abbrev pub AllOnce : Topologies → Type 0
AllOnce [] = Unit {0}
AllOnce ((key, t) ∷ ts) = AreOnce t.units × AllOnce ts

-- The invocation has all the units.
abbrev pub Holds : State → Ref → List Text → Type 0
Holds s r ns = (n : Text) → has_name n ns ≡ true → (s.hosts n).invocation ≡ some r

pub set_host-same :
    (n m : Text) (h : Host) (s : State) → same n m ≡ true → (set_host n h s).hosts m ≡ h
unfolding set_host
set_host-same n m h s e = rw e refl

unit_allocate-free :
    (n : Text) (r : Ref) (s : State)
    → (s.hosts n).invocation ≡ none
    → unit_allocate n r s ≡ (set_host n (record (s.hosts n) { invocation = some r }) s, true)
unfolding unit_allocate get_invocation
unit_allocate-free n r s h =
    let g : get_invocation n s (s.cells r).id ≡ none = rw (h, get_invocation) refl in
    rw (g, unit_allocate) refl

-- A unit that holds the invocation keeps it.
unit_allocate-holder :
    (n m : Text) (r : Ref) (s : State)
    → (s.hosts m).invocation ≡ some r
    → ((unit_allocate n r s).0.hosts m).invocation ≡ some r
unfolding unit_allocate set_host
unit_allocate-holder n m r s h = elim (Bool-cases (same n m)) [
  | inl e ↦ ground (arith, e, h)
  | inr e ↦ ground (arith, e, h)
]

topology_allocate-holder :
    (ns : List Text) (m : Text) (r : Ref) (s : State)
    → (s.hosts m).invocation ≡ some r
    → ((topology_allocate ns r s).0.hosts m).invocation ≡ some r
unfolding topology_allocate
topology_allocate-holder [] m r s h = h
topology_allocate-holder (n ∷ ns) m r s h =
    let first = unit_allocate-holder n m r s h in
    let rest = topology_allocate-holder ns m r ((unit_allocate n r s).0) first in
    ground (arith, first, rest)

apart :
    (n x : Text) (ns : List Text) → has_name n ns ≡ false → has_name x ns ≡ true → same n x ≡ false
apart n x ns new k = elim (Bool-cases (same n x)) [
  | inr e ↦ e
  | inl e ↦ (let c : has_name n ns ≡ true = ap (λ y. has_name y ns) ((same_iff n x).0 e) ∙ k in cc)
]

topology_allocate-Holds :
    (ns : List Text) (r : Ref) (s : State)
    → AreOnce ns
    → ((n : Text) → has_name n ns ≡ true → (s.hosts n).invocation ≡ none)
    → Holds (topology_allocate ns r s).0 r ns
unfolding topology_allocate has_name
topology_allocate-Holds [] r s once free m h = cc
topology_allocate-Holds (n ∷ ns) r s (new, once) free m h =
    let h0 : has_name n (n ∷ ns) ≡ true = ground (arith, same_refl n) in
    let s1 = set_host n (record (s.hosts n) { invocation = some r }) s in
    let first = unit_allocate-free n r s (free n h0) in
    let step : topology_allocate (n ∷ ns) r s ≡ topology_allocate ns r s1 =
      rw (ap (λ (x : State × Bool). x.1) first, topology_allocate)
        (ap (λ (x : State × Bool). topology_allocate ns r x.0) first) in
    let held : ((topology_allocate ns r s1).0.hosts m).invocation ≡ some r =
      elim (Bool-cases (same n m)) [
        | inl e ↦ topology_allocate-holder ns m r s1 (
            ap (λ (x : Host). x.invocation)
              (set_host-same n m (record (s.hosts n) { invocation = some r }) s e))
        | inr e ↦
            (let h' : has_name m ns ≡ true = ground arith in
              topology_allocate-Holds ns r s1 once
                (λ x k.
                  let other : same n x ≡ false = apart n x ns new k in
                  let k' : has_name x (n ∷ ns) ≡ true = ground arith in
                  ap (λ (y : Host). y.invocation)
                    (set_host-other n x (record (s.hosts n) { invocation = some r }) s other)
                  ∙ free x k')
                m h')
      ] in
    ap (λ (x : State × Bool). (x.0.hosts m).invocation) step ∙ held

can_be_allocated-none :
    (ns : List Text) (s : State)
    → can_be_allocated ns s ≡ true
    → (n : Text) → has_name n ns ≡ true
    → (s.hosts n).invocation ≡ none
can_be_allocated-none ns s h n m = elim (Option-cases ((s.hosts n).invocation)) [
  | inl e ↦ e
  | inr (r, e) ↦ (let c = can_be_allocated-free ns n s h (ap is_some e) in cc)
]

allocate_matches-Holds :
    (m : Topology) (ms : List Topology) (r : Ref) (s : State)
    → AreOnce m.units
    → ((n : Text) → has_name n m.units ≡ true → (s.hosts n).invocation ≡ none)
    → Holds (allocate_matches (m ∷ ms) r s) r m.units
unfolding allocate_matches
allocate_matches-Holds m ms r s once free n k =
    later ms ((topology_allocate m.units r s).0) (topology_allocate-Holds m.units r s once free n k)
  where
    later :
        (ms : List Topology) (t : State)
        → (t.hosts n).invocation ≡ some r
        → ((allocate_matches ms r t).hosts n).invocation ≡ some r
    later [] t h = h
    later (x ∷ xs) t h =
        later xs ((topology_allocate x.units r t).0) (topology_allocate-holder x.units n r t h)

-- The topology is known under the name.
abbrev pub IsNamed : Topologies → Text → Topology → Type 0
IsNamed ts name t = (key : Text) × (same key name ≡ true) × Memᴰ (key, t) ts

-- A match is a topology of the name, in which no host is twice if none is in any topology.
match_loop-IsNamed :
    (ts : Topologies) (name : Text) (s : State) (m : Topology) (ms : List Topology)
    → AllOnce ts
    → match_loop ts name s false ≡ m ∷ ms
    → IsNamed ts name m × AreOnce m.units
unfolding match_loop
match_loop-IsNamed [] name s m ms once h = cc
match_loop-IsNamed ((key, t) ∷ ts) name s m ms (o, once) h =
    elim (Bool-cases (can_be_allocated t.units s)) [
      | inr e ↦
          (let x : match_loop ((key, t) ∷ ts) name s false ≡ match_loop ts name s false =
              rw (e, match_loop) refl in
            let ((k, same_name, mem), a) = match_loop-IsNamed ts name s m ms once (sym x ∙ h) in
            ((k, same_name, tail mem), a))
      | inl e ↦ elim (Bool-cases (same key name)) [
        | inl k ↦
            (let x : match_loop ((key, t) ∷ ts) name s false ≡ t ∷ match_loop ts name s false =
                rw (e, k, match_loop) refl in
              let y : t ≡ m = cc in
              (
                (key, k, head (ap (λ z. (key, z)) (sym y))),
                subst (λ (z : Topology). AreOnce z.units) y o,
              ))
        | inr k ↦
            (let x : match_loop ((key, t) ∷ ts) name s false ≡ match_loop ts name s false =
                rw (e, k, match_loop) refl in
              let ((j, same_name, mem), a) = match_loop-IsNamed ts name s m ms once (sym x ∙ h) in
              ((j, same_name, tail mem), a))
      ]
    ]

matchmaker-IsNamed :
    (ts : Topologies) (request : TopologyRequest) (s : State) (m : Topology) (ms : List Topology)
    → AllOnce ts
    → matchmaker ts request s false ≡ m ∷ ms
    → IsNamed ts request.name m × AreOnce m.units
unfolding matchmaker
matchmaker-IsNamed ts request s m ms once h = elim (Bool-cases (same request.name [])) [
  | inl e ↦ (let x : matchmaker ts request s false ≡ [] = rw (e, matchmaker) refl in cc)
  | inr e ↦
      (let x : matchmaker ts request s false ≡ match_loop ts request.name s false =
          rw (e, matchmaker) refl in
        match_loop-IsNamed ts request.name s m ms once (sym x ∙ h))
]

-- The invocation has all units of a topology of the name that it asks for.
abbrev pub IsServed : Topologies → State → Ref → Type 0
IsServed ts s r =
    (t : Topology) × IsNamed ts (s.cells r).topology_request.name t × Holds s r t.units

IsServed-Progress :
    (ts : Topologies) (r : Ref) (s s' : State) → Progress s s' → IsServed ts s r → IsServed ts s' r
IsServed-Progress ts r s s' p (t, named, holds) = (
  t,
  subst (λ (q : TopologyRequest). IsNamed ts q.name t) (sym (p.requests r)) named,
  λ n m. (let h = holds n m in ap (λ (x : Host). x.invocation) (p.hosts n (ap is_some h)) ∙ h),
)

round_of_own :
    (ts : Topologies) (r : Ref) (s : State) (m : Topology) (ms : List Topology)
    → AllOnce ts
    → matchmaker ts (s.cells r).topology_request s false ≡ m ∷ ms
    → IsServed ts (allocate_matches (m ∷ ms) r (forget (s.cells r).id s)) r
round_of_own ts r s m ms once e =
    let (hosts, ids, requests, queue) = forget-Forgets (s.cells r).id s in
    let (named, a) = matchmaker-IsNamed ts (s.cells r).topology_request s m ms once e in
    let (free, rest) = subst (AllFree s) e (matchmaker-AllFree ts (s.cells r).topology_request s) in
    let cells = allocate_matches-cells (m ∷ ms) r (forget (s.cells r).id s) in
    (
      m,
      subst (λ (q : TopologyRequest). IsNamed ts q.name m)
          (sym (ap (λ c. (c r).topology_request) cells ∙ requests r)) named,
      allocate_matches-Holds m ms r (forget (s.cells r).id s) a
          (λ n k. ap (λ h. (h n).invocation) hosts ∙ can_be_allocated-none m.units s free n k),
    )

same_sym : (a b : Text) → same a b ≡ false → same b a ≡ false
same_sym a b h = elim (Bool-cases (same b a)) [
  | inr e ↦ e
  | inl e ↦ (let x : same a b ≡ true = (same_iff a b).1 (sym ((same_iff b a).0 e)) in cc)
]

promote_loop-IsServed :
    (ts : Topologies) (rs : List Ref) (s : State) (r : Ref)
    → AllOnce ts
    → ((q : Ref) → has_ref q rs ≡ true → same (s.cells q).id (s.cells r).id ≡ true → q ≡ r)
    → has_ref r s.queue ≡ true
    → has_ref r (promote_loop ts rs s).queue ≡ false
    → IsServed ts (promote_loop ts rs s) r
unfolding promote_loop
promote_loop-IsServed ts [] s r once alone m h = cc
promote_loop-IsServed ts (q ∷ rs) s r once alone m h =
    let alone' =
      λ (s' : State) (p : Progress s s') (x : Ref) (k : has_ref x rs ≡ true)
          (e : same (s'.cells x).id (s'.cells r).id ≡ true).
        alone x (ground (arith, k)) (
          ap (λ a. same a (s.cells r).id) (sym (p.ids x))
          ∙ ap (same (s'.cells x).id) (sym (p.ids r))
          ∙ e) in
    let p = promote_one-Progress ts q s in
    elim (promote_one-cases ts q s) [
      | inl (e, same_state) ↦
          promote_loop-IsServed ts rs (promote_one ts q s) r once (alone' (promote_one ts q s) p)
            (ap (λ (x : State). has_ref r x.queue) same_state ∙ m) h
      | inr (t, ms, e, next) ↦ elim (Bool-cases (same (s.cells q).id (s.cells r).id)) [
        | inl i ↦
            (let k : q ≡ r = alone q (ground arith) i in
              let served =
                subst (λ x. IsServed ts x q) (sym next) (round_of_own ts q s t ms once e) in
              IsServed-Progress ts r (promote_one ts q s) _
                (promote_loop-Progress ts rs (promote_one ts q s))
                (subst (IsServed ts (promote_one ts q s)) k served))
        | inr i ↦
            (let (hosts, ids, requests, queue) = forget-Forgets (s.cells q).id s in
              let other : same (s.cells r).id (s.cells q).id ≡ false =
                same_sym (s.cells q).id (s.cells r).id i in
              let m' : has_ref r (promote_one ts q s).queue ≡ true =
                ap (λ (x : State). has_ref r x.queue) next
                ∙ ap (has_ref r) (allocate_matches-queue (t ∷ ms) q (forget (s.cells q).id s))
                ∙ queue r
                ∙ ground (arith, m, other) in
              promote_loop-IsServed ts rs (promote_one ts q s) r once
                (alone' (promote_one ts q s) p) m' h)
      ]
    ]

-- An invocation that Promote takes from the queue has all units of a topology of the name that it
-- asks for, if no other one that waits has its id and no topology has a host twice.
pub promote-IsServed :
    (ts : Topologies) (s : State) (r : Ref)
    → AllOnce ts
    → ((q : Ref) → has_ref q s.queue ≡ true → same (s.cells q).id (s.cells r).id ≡ true → q ≡ r)
    → has_ref r s.queue ≡ true
    → has_ref r (promote ts s).queue ≡ false
    → IsServed ts (promote ts s) r
unfolding promote
promote-IsServed ts s r once alone m h = promote_loop-IsServed ts s.queue s r once alone m h
