-- ===== src/Allocation/Matching/Progress.antt =====
-- What Promote leaves as it is.
use enkit.Common.{
  ℕ, suc, ◌≡◌, ◌∙◌, refl, ap, sym, Bool, true, false, not, ◌&&◌, ◌||◌, Bool-cases, inl, inr, some,
  List, List-cases, [], ◌∷◌, ◌⊎◌, if◌then◌else◌, ◌==◌, arith,
}
use enkit.Common.Words.{sub64}
use mathlib.Core.Path.{subst}
use enkit.Config.Text.{Text, same, same_iff}
use enkit.Allocation.Store.{Ref, Host, Topology, TopologyRequest, State, set_host, set_cell}
use enkit.Config.Names.{has_name}
use enkit.Allocation.Units.{is_allocated, unit_allocate, topology_allocate, can_be_allocated}
use enkit.Allocation.Queue.{forget_loop, forget}
use enkit.Allocation.Matching.{
  Topologies, match_loop, matchmaker, allocate_matches, promote_one, promote_loop, promote,
}

abbrev pub has_ref : Ref → List Ref → Bool
has_ref r [] = false
has_ref r (q ∷ qs) = r == q || has_ref r qs

-- A unit that is allocated stays as it is, and so do the requests, and nothing joins the queue.
pub record Progress (s s' : State) : Type 0 where
  pub hosts : (n : Text) → is_allocated (s.hosts n) ≡ true → s'.hosts n ≡ s.hosts n
  pub ids : (r : Ref) → (s'.cells r).id ≡ (s.cells r).id
  pub requests : (r : Ref) → (s'.cells r).topology_request ≡ (s.cells r).topology_request
  pub queue : (r : Ref) → has_ref r s.queue ≡ false → has_ref r s'.queue ≡ false

pub Progress-refl : (s : State) → Progress s s
Progress-refl s = record {
  hosts = λ n h. refl;
  ids = λ r. refl;
  requests = λ r. refl;
  queue = λ r h. h;
}

pub Progress-trans : (s t u : State) → Progress s t → Progress t u → Progress s u
Progress-trans s t u p q = record {
  hosts = λ n h. (let e = p.hosts n h in q.hosts n (ap is_allocated e ∙ h) ∙ e);
  ids = λ r. q.ids r ∙ p.ids r;
  requests = λ r. q.requests r ∙ p.requests r;
  queue = λ r h. q.queue r (p.queue r h);
}

pub set_host-other :
    (n m : Text) (h : Host) (s : State) → same n m ≡ false → (set_host n h s).hosts m ≡ s.hosts m
unfolding set_host
set_host-other n m h s e = rw e refl

pub unit_allocate-other :
    (n m : Text) (r : Ref) (s : State)
    → same n m ≡ false
    → (unit_allocate n r s).0.hosts m ≡ s.hosts m
unfolding unit_allocate
unit_allocate-other n m r s e =
    ground (arith, set_host-other n m (record (s.hosts n) { invocation = some r }) s e)

pub unit_allocate-cells : (n : Text) (r : Ref) (s : State) → (unit_allocate n r s).0.cells ≡ s.cells
unfolding unit_allocate set_host
unit_allocate-cells n r s = ground arith

pub unit_allocate-queue : (n : Text) (r : Ref) (s : State) → (unit_allocate n r s).0.queue ≡ s.queue
unfolding unit_allocate set_host
unit_allocate-queue n r s = ground arith

pub topology_allocate-other :
    (ns : List Text) (m : Text) (r : Ref) (s : State)
    → has_name m ns ≡ false
    → (topology_allocate ns r s).0.hosts m ≡ s.hosts m
unfolding topology_allocate has_name
topology_allocate-other [] m r s e = refl
topology_allocate-other (n ∷ ns) m r s e =
    let e1 : same n m ≡ false = ground arith in
    let e2 : has_name m ns ≡ false = ground arith in
    let first = unit_allocate-other n m r s e1 in
    let later = topology_allocate-other ns m r ((unit_allocate n r s).0) e2 in ground arith

pub topology_allocate-cells :
    (ns : List Text) (r : Ref) (s : State) → (topology_allocate ns r s).0.cells ≡ s.cells
unfolding topology_allocate
topology_allocate-cells [] r s = refl
topology_allocate-cells (n ∷ ns) r s =
    ground
      (arith, unit_allocate-cells n r s, topology_allocate-cells ns r ((unit_allocate n r s).0))

pub topology_allocate-queue :
    (ns : List Text) (r : Ref) (s : State) → (topology_allocate ns r s).0.queue ≡ s.queue
unfolding topology_allocate
topology_allocate-queue [] r s = refl
topology_allocate-queue (n ∷ ns) r s =
    ground
      (arith, unit_allocate-queue n r s, topology_allocate-queue ns r ((unit_allocate n r s).0))

pub can_be_allocated-free :
    (ns : List Text) (m : Text) (s : State)
    → can_be_allocated ns s ≡ true
    → is_allocated (s.hosts m) ≡ true
    → has_name m ns ≡ false
unfolding can_be_allocated has_name
can_be_allocated-free [] m s h a = refl
can_be_allocated-free (n ∷ ns) m s h a = elim (Bool-cases (same n m)) [
  | inl e ↦
      (let n_is : n ≡ m = (same_iff n m).0 e in
        let busy : is_allocated (s.hosts n) ≡ true = ap (λ x. is_allocated (s.hosts x)) n_is ∙ a in
        let c : can_be_allocated (n ∷ ns) s ≡ false = rw (busy, can_be_allocated) refl in cc)
  | inr e ↦
      (let rest : can_be_allocated ns s ≡ true = ground arith in
        rw e (can_be_allocated-free ns m s rest a))
]

-- A new number leaves the rest of the invocations.
renumber-ids :
    (q r : Ref) (number : ℕ) (s : State)
    → ((set_cell q (record (s.cells q) { queue_id = number }) s).cells r).id ≡ (s.cells r).id
unfolding set_cell
renumber-ids q r number s = elim (Bool-cases (q == r)) [
  | inl e ↦ (let x : q ≡ r = ground arith in rw e (ap (λ y. (s.cells y).id) x))
  | inr e ↦ rw e refl
]

renumber-requests :
    (q r : Ref) (number : ℕ) (s : State)
    → ((set_cell q (record (s.cells q) { queue_id = number }) s).cells r).topology_request
      ≡ (s.cells r).topology_request
unfolding set_cell
renumber-requests q r number s = elim (Bool-cases (q == r)) [
  | inl e ↦ (let x : q ≡ r = ground arith in rw e (ap (λ y. (s.cells y).topology_request) x))
  | inr e ↦ rw e refl
]

-- What the loop of Forget does to a reference, and to the invocations.
record Forgets (id : Text) (rs : List Ref) (s : State) (out : List Ref × State) : Type 0 where
  hosts : out.1.hosts ≡ s.hosts
  ids : (r : Ref) → (out.1.cells r).id ≡ (s.cells r).id
  requests : (r : Ref) → (out.1.cells r).topology_request ≡ (s.cells r).topology_request
  queue : (r : Ref) → has_ref r out.0 ≡ has_ref r rs && not (same (s.cells r).id id)

forget_loop-Forgets :
    (id : Text) (rs : List Ref) (count : ℕ) (s : State)
    → Forgets id rs s (forget_loop id rs count s)
unfolding forget_loop set_cell
forget_loop-Forgets id [] count s = record {
  hosts = refl;
  ids = λ r. refl;
  requests = λ r. refl;
  queue = λ r. refl;
}
forget_loop-Forgets id (r ∷ rs) count s =
    let found = same (s.cells r).id id in
    let number = if found then 0 else sub64 (s.cells r).queue_id count in
    let s' = set_cell r (record (s.cells r) { queue_id = number }) s in
    let ih = forget_loop-Forgets id rs (if found then suc count else count) s' in
    record {
      hosts = ih.hosts;
      ids = λ q. ih.ids q ∙ renumber-ids r q number s;
      requests = λ q. ih.requests q ∙ renumber-requests r q number s;
      queue = λ q.
          let rest = (forget_loop id rs (if found then suc count else count) s').0 in
          let a : has_ref q rest ≡ has_ref q rs && not (same (s.cells q).id id) =
            ih.queue q ∙ ap (λ x. has_ref q rs && not (same x id)) (renumber-ids r q number s) in
          let b : has_ref q (if found then rest else r ∷ rest)
              ≡ (if found then has_ref q rest else q == r || has_ref q rest) =
            ground arith in
          elim (Bool-cases (q == r)) [
            | inl e ↦
                (let k : q ≡ r = ground arith in
                  let c : same (s.cells q).id id ≡ found = ap (λ x. same (s.cells x).id id) k in
                  b ∙ ground (arith, a, c, e))
            | inr e ↦ b ∙ ground (arith, a, e)
          ];
    }

pub forget-Forgets :
    (id : Text) (s : State)
    → ((forget id s).hosts ≡ s.hosts)
      × ((r : Ref) → ((forget id s).cells r).id ≡ (s.cells r).id)
      × ((r : Ref) → ((forget id s).cells r).topology_request ≡ (s.cells r).topology_request)
      × ((r : Ref)
          → has_ref r (forget id s).queue ≡ has_ref r s.queue && not (same (s.cells r).id id))
unfolding forget
forget-Forgets id s =
    let f = forget_loop-Forgets id s.queue 0 s in (f.hosts, f.ids, f.requests, f.queue)

-- Free units of all the topologies that were matched.
abbrev pub AllFree : State → List Topology → Type 0
AllFree s [] = Unit
AllFree s (t ∷ ts) = (can_be_allocated t.units s ≡ true) × AllFree s ts

match_loop-AllFree :
    (ts : Topologies) (name : Text) (s : State) → AllFree s (match_loop ts name s false)
unfolding match_loop
match_loop-AllFree [] name s = tt
match_loop-AllFree ((key, t) ∷ ts) name s =
    let rest = match_loop-AllFree ts name s in
    elim (Bool-cases (can_be_allocated t.units s)) [
      | inr e ↦ rw e rest
      | inl e ↦ elim (Bool-cases (same key name)) [
        | inl k ↦ rw (e, k) (e, rest)
        | inr k ↦ rw (e, k) rest
      ]
    ]

pub matchmaker-AllFree :
    (ts : Topologies) (request : TopologyRequest) (s : State)
    → AllFree s (matchmaker ts request s false)
unfolding matchmaker
matchmaker-AllFree ts request s = elim (Bool-cases (same request.name [])) [
  | inl e ↦ rw e tt
  | inr e ↦ rw e (match_loop-AllFree ts request.name s)
]

allocate_matches-other :
    (ms : List Topology) (r : Ref) (n : Text) (s s0 : State)
    → AllFree s0 ms
    → is_allocated (s0.hosts n) ≡ true
    → (allocate_matches ms r s).hosts n ≡ s.hosts n
unfolding allocate_matches
allocate_matches-other [] r n s s0 free a = refl
allocate_matches-other (m ∷ ms) r n s s0 (f, free) a =
    allocate_matches-other ms r n ((topology_allocate m.units r s).0) s0 free a
    ∙ topology_allocate-other m.units n r s (can_be_allocated-free m.units n s0 f a)

pub allocate_matches-cells :
    (ms : List Topology) (r : Ref) (s : State) → (allocate_matches ms r s).cells ≡ s.cells
unfolding allocate_matches
allocate_matches-cells [] r s = refl
allocate_matches-cells (m ∷ ms) r s =
    allocate_matches-cells ms r ((topology_allocate m.units r s).0)
    ∙ topology_allocate-cells m.units r s

pub allocate_matches-queue :
    (ms : List Topology) (r : Ref) (s : State) → (allocate_matches ms r s).queue ≡ s.queue
unfolding allocate_matches
allocate_matches-queue [] r s = refl
allocate_matches-queue (m ∷ ms) r s =
    allocate_matches-queue ms r ((topology_allocate m.units r s).0)
    ∙ topology_allocate-queue m.units r s

pub matched-Progress :
    (ms : List Topology) (r : Ref) (s : State)
    → AllFree s ms
    → Progress s (allocate_matches ms r (forget (s.cells r).id s))
matched-Progress ms r s free =
    let id = (s.cells r).id in
    let (hosts, ids, requests, queue) = forget-Forgets id s in
    let cells = allocate_matches-cells ms r (forget id s) in
    record {
      hosts = λ n a. allocate_matches-other ms r n (forget id s) s free a ∙ ap (λ h. h n) hosts;
      ids = λ q. ap (λ c. (c q).id) cells ∙ ids q;
      requests = λ q. ap (λ c. (c q).topology_request) cells ∙ requests q;
      queue = λ q h.
          ap (has_ref q) (allocate_matches-queue ms r (forget id s))
          ∙ queue q
          ∙ ap (λ b. b && not (same (s.cells q).id id)) h;
    }

-- A round of Promote finds no match, or takes the first of some free ones.
pub promote_one-cases :
    (ts : Topologies) (r : Ref) (s : State)
    → ((matchmaker ts (s.cells r).topology_request s false ≡ []) × (promote_one ts r s ≡ s))
      ⊎ ((m : Topology) × (ms : List Topology) × (matchmaker ts (s.cells r).topology_request s false
            ≡ m ∷ ms)
          × (promote_one ts r s ≡ allocate_matches (m ∷ ms) r (forget (s.cells r).id s)))
unfolding promote_one
promote_one-cases ts r s = elim (List-cases (matchmaker ts (s.cells r).topology_request s false)) [
  | inl e ↦ inl (e, rw (e, promote_one) refl)
  | inr (m, ms, e) ↦ inr (m, ms, e, rw (e, promote_one) refl)
]

pub promote_one-Progress : (ts : Topologies) (r : Ref) (s : State) → Progress s (promote_one ts r s)
promote_one-Progress ts r s = elim (promote_one-cases ts r s) [
  | inl (e, p) ↦ subst (Progress s) (sym p) (Progress-refl s)
  | inr (m, ms, e, p) ↦ subst (Progress s) (sym p) (
      matched-Progress (m ∷ ms) r s
        (subst (AllFree s) e (matchmaker-AllFree ts (s.cells r).topology_request s)))
]

pub promote_loop-Progress :
    (ts : Topologies) (rs : List Ref) (s : State) → Progress s (promote_loop ts rs s)
unfolding promote_loop
promote_loop-Progress ts [] s = Progress-refl s
promote_loop-Progress ts (r ∷ rs) s =
    Progress-trans s (promote_one ts r s) _ (promote_one-Progress ts r s)
      (promote_loop-Progress ts rs (promote_one ts r s))

pub promote-Progress : (ts : Topologies) (s : State) → Progress s (promote ts s)
unfolding promote
promote-Progress ts s = promote_loop-Progress ts s.queue s
