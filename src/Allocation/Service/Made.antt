-- ===== src/Allocation/Service/Made.antt =====
-- The pointers of units and the queue, against those that were made.
use enkit.Common.{
  ℕ, ◌-◌, ◌≡◌, ◌∙◌, refl, ap, sym, Bool, true, ◌&&◌, ◌||◌, Bool-cases, Option-cases, inl, inr,
  Option, some, List, List-cases, [], ◌∷◌, ◌++◌, length, if◌then◌else◌, ◌==◌, ltb, arith,
}
use mathlib.Core.Path.{subst}
use enkit.Config.Text.{Text, same}
use enkit.Allocation.Store.{Ref, Invocation, Host, State, make, set_cell, check_in}
use enkit.Config.Names.{has_name}
use enkit.Allocation.Units.{expire_allocations, unit_forget}
use enkit.Allocation.Queue.{enqueue, get}
use enkit.Allocation.Matching.{Topologies, matchmaker, promote}
use enkit.Allocation.Matching.Progress.{has_ref, promote_loop-Progress}
use enkit.Allocation.Matching.Origin.{promote-GetsOne}
use enkit.Allocation.Matching.Next.{promote-next}
use enkit.Allocation.Service.Sweep.{kept, kept-holder, Sweeps, sweep, sweep-shared, sweep-kept}
use enkit.Allocation.Service.Janitor.{is_fresh, expire_allocations-Sweeps, expire_loop-sweep}
use enkit.Allocation.Service.Release.{is_other, unit_forget-Sweeps, release_loop-sweep}
use enkit.Allocation.Service.{
  Service, InvocationMsg, Clock, invocation_of, expire_loop, janitor, find_unit, requeue, answer,
  admit, allocate, release,
}

pub record IsMade (s : State) : Type 0 where
  pub hosts : (n : Text) (r : Ref) → (s.hosts n).invocation ≡ some r → ltb r s.next ≡ true
  pub queue : (r : Ref) → has_ref r s.queue ≡ true → ltb r s.next ≡ true

sweep-IsMade :
    (keep : (Ref → Invocation) → Ref → Bool) (step : Text → State → State)
    → Sweeps keep step
    → (ns : List Text) (s : State) → IsMade s
    → IsMade (sweep step ns s)
sweep-IsMade keep step sweeps ns s made =
    let rest = sweep-shared keep step sweeps ns s in
    let queue = ap (λ (x : (Ref → Invocation) × List Ref × Ref). x.1) rest in
    let next = ap (λ (x : (Ref → Invocation) × List Ref × Ref). x.2) rest in
    record {
      hosts = λ n r h.
          (let x = sweep-kept keep step sweeps ns n s in
            let held : (s.hosts n).invocation ≡ some r = elim (Bool-cases (has_name n ns)) [
              | inl k ↦
                  (let y : (sweep step ns s).hosts n ≡ kept (keep s.cells) (s.hosts n) =
                      x ∙ rw k refl in
                    (kept-holder (keep s.cells) (s.hosts n) r
                      (sym (ap (λ (z : Host). z.invocation) y) ∙ h)).0)
              | inr k ↦
                  (let y : (sweep step ns s).hosts n ≡ s.hosts n = x ∙ rw k refl in
                    sym (ap (λ (z : Host). z.invocation) y) ∙ h)
            ] in
            ap (ltb r) next ∙ made.hosts n r held);
      queue = λ r h. ap (ltb r) next ∙ made.queue r (ap (has_ref r) (sym queue) ∙ h);
    }

promote-IsMade : (ts : Topologies) (s : State) → IsMade s → IsMade (promote ts s)
unfolding promote
promote-IsMade ts s made =
    let next = promote-next ts s in
    record {
      hosts = λ n r h. elim (promote-GetsOne ts n s) [
        | inl e ↦ ap (ltb r) next ∙ made.hosts n r (sym (ap (λ (y : Host). y.invocation) e) ∙ h)
        | inr (q, e, m) ↦
            (let k : q ≡ r = cc in
              ap (ltb r) next ∙ made.queue r (subst (λ x. has_ref x s.queue ≡ true) k m))
      ];
      queue = λ r h. elim (Bool-cases (has_ref r s.queue)) [
        | inl m ↦ ap (ltb r) next ∙ made.queue r m
        | inr m ↦ (let gone = (promote_loop-Progress ts s.queue s).queue r m in cc)
      ];
    }

pub janitor-IsMade : (svc : Service) (now : ℕ) (s : State) → IsMade s → IsMade (janitor svc now s)
unfolding janitor
janitor-IsMade svc now s made = elim (Bool-cases svc.running) [
  | inr e ↦ rw e made
  | inl e ↦
      (let expiry = now - svc.allocation_refresh in
        rw e (
          promote-IsMade svc.topologies (expire_loop expiry s.names s) (
            subst IsMade (sym (expire_loop-sweep expiry s.names s)) (
              sweep-IsMade (is_fresh expiry) (expire_allocations expiry)
                (expire_allocations-Sweeps expiry) s.names s made))))
]

pub release-IsMade : (id : Text) (s : State) → IsMade s → IsMade (release id s).0
unfolding release
release-IsMade id s made = elim (Bool-cases (same id [])) [
  | inl e ↦ rw e made
  | inr e ↦ rw e (
      subst IsMade (sym (release_loop-sweep id s.names s)) (
        sweep-IsMade (is_other id) (λ n s. (unit_forget id n s).0) (unit_forget-Sweeps id) s.names s
          made))
]

pub check_in-IsMade : (r : Ref) (now : ℕ) (s : State) → IsMade s → IsMade (check_in r now s)
unfolding check_in set_cell
check_in-IsMade r now s made = record { hosts = made.hosts; queue = made.queue }

has_ref-last : (q r : Ref) (qs : List Ref) → has_ref q (qs ++ r ∷ []) ≡ has_ref q qs || (q == r)
has_ref-last q r [] = ground arith
has_ref-last q r (x ∷ qs) = ground (arith, has_ref-last q r qs)

-- A new invocation joins the queue.
join-IsMade :
    (inv : Invocation) (s : State) → IsMade s → IsMade (enqueue (make inv s).1 (make inv s).0).0
unfolding make enqueue set_cell
join-IsMade inv s made = record {
  hosts = λ n r h. (let b = made.hosts n r h in ground arith);
  queue = λ r h.
      (let b = made.queue r in
        let x = has_ref-last r s.next s.queue in
        elim (Bool-cases (has_ref r s.queue)) [
          | inl m ↦ (let c = b m in ground arith)
          | inr m ↦ ground arith
        ]);
}

requeue-IsMade :
    (svc : Service) (id : Text) (msg : InvocationMsg) (clock : Clock) (s : State)
    → IsMade s
    → IsMade (requeue svc id msg clock s).0
unfolding requeue
requeue-IsMade svc id msg clock s made = elim (Bool-cases svc.running) [
  | inl e ↦ rw e made
  | inr e ↦ rw e (join-IsMade (invocation_of id msg clock.created) s made)
]

answer-IsMade :
    (svc : Service) (id : Text) (msg : InvocationMsg) (clock : Clock) (s : State)
    → IsMade s
    → IsMade (answer svc id msg clock s).0
unfolding answer
answer-IsMade svc id msg clock s made = elim (Option-cases (find_unit id s.names s)) [
  | inr ((r, hostname), e) ↦ rw (e, answer) (check_in-IsMade r clock.checkin s made)
  | inl e ↦ elim (Option-cases (get id s)) [
    | inr ((r, pos), f) ↦ rw (e, answer, f) (check_in-IsMade r clock.checkin s made)
    | inl f ↦ rw (e, answer, f) (requeue-IsMade svc id msg clock s made)
  ]
]

if_running :
    (svc : Service) (s : State)
    → IsMade s
    → IsMade (if svc.running then promote svc.topologies s else s)
if_running svc s made = elim (Bool-cases svc.running) [
  | inl e ↦ rw e (promote-IsMade svc.topologies s made)
  | inr e ↦ rw e made
]

admit-IsMade :
    (svc : Service) (fresh : Option Text) (msg : InvocationMsg) (clock : Clock) (s : State)
    → IsMade s
    → IsMade (admit svc fresh msg clock s).0
unfolding admit
admit-IsMade svc fresh msg clock s made =
    elim (List-cases (matchmaker svc.topologies msg.request s true)) [
      | inl e ↦ rw (e, admit) made
      | inr (m, ms, e) ↦ elim (Option-cases fresh) [
        | inl f ↦ rw (e, admit, f) made
        | inr (id, f) ↦
            (let j = join-IsMade (invocation_of id msg clock.created) s made in
              let t =
                enqueue (make (invocation_of id msg clock.created) s).1
                  (make (invocation_of id msg clock.created) s).0 in
              rw (e, admit, f)
                (answer-IsMade svc id msg clock
                  (if svc.running then promote svc.topologies t.0 else t.0) (if_running svc t.0 j)))
      ]
    ]

pub allocate-IsMade :
    (svc : Service) (fresh : Option Text) (msg : InvocationMsg) (clock : Clock) (s : State)
    → IsMade s
    → IsMade (allocate svc fresh msg clock s).0
unfolding allocate
allocate-IsMade svc fresh msg clock s made =
    elim (Bool-cases (same msg.request.name [] && (length msg.request.hosts == 0))) [
      | inl e ↦ rw (e, allocate) made
      | inr e ↦ elim (Bool-cases (same msg.id [])) [
        | inl f ↦ rw (e, allocate, f) (admit-IsMade svc fresh msg clock s made)
        | inr f ↦ rw (e, allocate, f) (answer-IsMade svc msg.id msg clock s made)
      ]
    ]
