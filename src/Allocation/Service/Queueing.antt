-- ===== src/Allocation/Service/Queueing.antt =====
-- The queue position that Allocate answers, against the one that Get gives afterwards.
use enkit.Common.{
  ℕ, suc, ◌+◌, ◌≡◌, ◌∙◌, refl, ap, true, false, Bool-cases, inl, inr, none, some, List, [], ◌∷◌,
  ◌++◌, length, arith,
}
use enkit.Common.Results.{ok}
use enkit.Common.Words.{to_u32}
use enkit.Config.Text.{Text, same, same_refl}
use enkit.Allocation.Store.{Ref, Invocation, State, make, set_cell}
use enkit.Allocation.Queue.{enqueue, get_loop, get}
use enkit.Allocation.Matching.Progress.{has_ref}
use enkit.Allocation.Service.Made.{IsMade}
use enkit.Allocation.Service.{
  Service, InvocationMsg, Clock, Answer, queued, invocation_of, find_unit, requeue, answer,
}

get_loop-cells :
    (id : Text) (qs : List Ref) (pos : ℕ) (s t : State)
    → ((q : Ref) → has_ref q qs ≡ true → t.cells q ≡ s.cells q)
    → get_loop id qs pos t ≡ get_loop id qs pos s
unfolding get_loop
get_loop-cells id [] pos s t h = refl
get_loop-cells id (q ∷ qs) pos s t h =
    let here : has_ref q (q ∷ qs) ≡ true = ground arith in
    let first = ap (λ (x : Invocation). same x.id id) (h q here) in
    let rest =
      get_loop-cells id qs (suc pos) s t
        (λ r m. h r (let k : has_ref r (q ∷ qs) ≡ true = ground (arith, m) in k)) in
    ground (arith, first, rest)

get_loop-last :
    (id : Text) (qs : List Ref) (r : Ref) (pos : ℕ) (s : State)
    → get_loop id qs pos s ≡ none
    → same (s.cells r).id id ≡ true
    → get_loop id (qs ++ r ∷ []) pos s ≡ some (r, pos + length qs)
unfolding get_loop
get_loop-last id [] r pos s none_yet h =
    rw h (ap (λ (p : ℕ). some (r, p)) (let e : pos ≡ pos + 0 = omega arith in e))
get_loop-last id (q ∷ qs) r pos s none_yet h = elim (Bool-cases (same (s.cells q).id id)) [
  | inl e ↦ (let x : get_loop id (q ∷ qs) pos s ≡ some (q, pos) = rw (e, get_loop) refl in cc)
  | inr e ↦
      (let x : get_loop id qs (suc pos) s ≡ none = ground arith in
        let y = get_loop-last id qs r (suc pos) s x h in
        let z : suc pos + length qs ≡ pos + suc (length qs) = omega arith in
        rw (e, get_loop) (y ∙ ap (λ (p : ℕ). some (r, p)) z))
]

-- The invocation that joins the queue is the last one.
enqueue-get :
    (inv : Invocation) (s : State)
    → IsMade s
    → get inv.id s ≡ none
    → get inv.id (enqueue (make inv s).1 (make inv s).0).0 ≡ some (s.next, suc (length s.queue))
unfolding get enqueue make set_cell
enqueue-get inv s made h =
    let t = (enqueue (make inv s).1 (make inv s).0).0 in
    let cells = λ (q : Ref) (m : has_ref q s.queue ≡ true).
      (let b = made.queue q m in let e : t.cells q ≡ s.cells q = ground arith in e) in
    let new : same (t.cells s.next).id inv.id ≡ true = ground (arith, same_refl inv.id) in
    let old = get_loop-cells inv.id s.queue 1 s t cells ∙ h in
    get_loop-last inv.id s.queue s.next 1 t old new
    ∙ ap (λ (p : ℕ). some (s.next, p))
        (let e : 1 + length s.queue ≡ suc (length s.queue) = omega arith in e)

enqueue-position :
    (inv : Invocation) (s : State) → (enqueue (make inv s).1 (make inv s).0).1 ≡ length s.queue
unfolding enqueue make
enqueue-position inv s = refl

-- An invocation that is queued again while the service starts, because neither a unit nor the queue
-- has it, is told the number of those before it, and Get then gives a position that is one greater.
pub answer-get :
    (svc : Service) (id : Text) (msg : InvocationMsg) (clock : Clock) (s : State)
    → IsMade s
    → svc.running ≡ false
    → find_unit id s.names s ≡ none
    → get id s ≡ none
    → ((answer svc id msg clock s).1
        ≡ ok (queued id (clock.answered + svc.queue_refresh) (to_u32 (length s.queue))))
      × (get id (answer svc id msg clock s).0 ≡ some (s.next, suc (length s.queue)))
unfolding answer requeue
answer-get svc id msg clock s made starting no_unit not_queued =
    let inv = invocation_of id msg clock.created in
    let e : answer svc id msg clock s ≡ requeue svc id msg clock s =
      rw (no_unit, not_queued, answer) refl in
    let found = enqueue-get inv s made not_queued in
    let r : requeue svc id msg clock s ≡ (
      (enqueue (make inv s).1 (make inv s).0).0,
      ok (
          queued id (clock.answered + svc.queue_refresh)
            (to_u32 (enqueue (make inv s).1 (make inv s).0).1)),
    ) =
      rw (starting, requeue) refl in
    let p = enqueue-position inv s in
    (
      ap (λ (x : Answer). x.1) (e ∙ r)
          ∙ ap (λ (x : ℕ). ok (queued id (clock.answered + svc.queue_refresh) (to_u32 x))) p,
      ap (λ (x : Answer). get id x.0) (e ∙ r) ∙ found,
    )
