-- ===== src/Allocation/Service/Rounds.antt =====
-- The rounds of the loop of Refresh.
use enkit.Common.{
  ℕ, suc, ◌≡◌, ◌∙◌, refl, ap, sym, Bool, true, false, Bool-cases, Option-cases, inl, inr, ◌⊎◌, none,
  some, List, ◌∷◌, length, if◌then◌else◌, ltb, arith,
}
use mathlib.Core.Path.{subst}
use enkit.Common.Results.{err}
use enkit.Config.Text.{Text, same, same_iff}
use enkit.Allocation.Store.{Ref, Invocation, Host, State, make, set_host, check_in}
use enkit.Allocation.Units.{get_invocation, unit_allocate}
use enkit.Allocation.Matching.Progress.{set_host-other}
use enkit.Allocation.Matching.Whole.{set_host-same}
use enkit.Allocation.Service.Made.{IsMade}
use enkit.Allocation.Service.{
  Service, InvocationMsg, failed_precondition, invocation_of, refresh_loop,
}

pub get_invocation-if :
    (n id : Text) (s : State) (r : Ref)
    → (s.hosts n).invocation ≡ some r
    → get_invocation n s id ≡ (if same (s.cells r).id id then some r else none)
unfolding get_invocation
get_invocation-if n id s r e = rw (e, get_invocation) refl

pub get_invocation-holder :
    (n id : Text) (s : State) (r : Ref)
    → get_invocation n s id ≡ some r
    → ((s.hosts n).invocation ≡ some r) × ((s.cells r).id ≡ id)
unfolding get_invocation
get_invocation-holder n id s r h = elim (Option-cases ((s.hosts n).invocation)) [
  | inl e ↦ (let x : get_invocation n s id ≡ none = rw (e, get_invocation) refl in cc)
  | inr (q, e) ↦
      (let x = get_invocation-if n id s q e in
        elim (Bool-cases (same (s.cells q).id id)) [
          | inr k ↦ (let y : get_invocation n s id ≡ none = x ∙ rw k refl in cc)
          | inl k ↦
              (let y : get_invocation n s id ≡ some q = x ∙ rw k refl in
                let same_ref : q ≡ r = cc in
                (
                  e ∙ ap some same_ref,
                  subst (λ x. (s.cells x).id ≡ id) same_ref ((same_iff (s.cells q).id id).0 k),
                ))
        ])
]

pub make-below :
    (inv : Invocation) (r : Ref) (s : State)
    → ltb r s.next ≡ true
    → (make inv s).0.cells r ≡ s.cells r
unfolding make
make-below inv r s below = ground arith

pub make-new : (inv : Invocation) (s : State) → (make inv s).0.cells s.next ≡ inv
unfolding make
make-new inv s = ground arith

-- The unit takes a new invocation.
abbrev pub adopt : Text → InvocationMsg → State → State
adopt n msg s =
    set_host n (record (s.hosts n) { invocation = some s.next })
      (make (invocation_of msg.id msg 0) s).0

make-none :
    (n : Text) (msg : InvocationMsg) (s : State)
    → IsMade s
    → get_invocation n s msg.id ≡ none
    → get_invocation n (make (invocation_of msg.id msg 0) s).0 msg.id ≡ none
unfolding make get_invocation
make-none n msg s made h = elim (Option-cases ((s.hosts n).invocation)) [
  | inl e ↦ rw (e, get_invocation) refl
  | inr (r, e) ↦
      (let cell = make-below (invocation_of msg.id msg 0) r s (made.hosts n r e) in
        get_invocation-if n msg.id (make (invocation_of msg.id msg 0) s).0 r e
        ∙ ap (λ (x : Invocation). if same x.id msg.id then some r else none) cell
        ∙ sym (get_invocation-if n msg.id s r e)
        ∙ h)
]

-- The new invocation is no other's, so that the unit takes it.
unit_allocate-adopt :
    (n : Text) (msg : InvocationMsg) (s : State)
    → IsMade s
    → get_invocation n s msg.id ≡ none
    → unit_allocate n
        (make (invocation_of msg.id msg 0) s).1
        (make (invocation_of msg.id msg 0) s).0
      ≡ (adopt n msg s, true)
unfolding unit_allocate make
unit_allocate-adopt n msg s made h =
    let g = make-none n msg s made h in
    let id = ap (λ (x : Invocation). x.id) (make-new (invocation_of msg.id msg 0) s) in
    let k : get_invocation n (make (invocation_of msg.id msg 0) s).0
          ((make (invocation_of msg.id msg 0) s).0.cells s.next).id
        ≡ none =
      ap (get_invocation n (make (invocation_of msg.id msg 0) s).0) id ∙ g in
    rw (k, unit_allocate) refl

pub adopt-same :
    (n m : Text) (msg : InvocationMsg) (s : State)
    → same n m ≡ true
    → ((adopt n msg s).hosts m).invocation ≡ some s.next
adopt-same n m msg s e =
    ap (λ (x : Host). x.invocation)
      (set_host-same n m (record (s.hosts n) { invocation = some s.next })
        (make (invocation_of msg.id msg 0) s).0 e)

pub adopt-other :
    (n m : Text) (msg : InvocationMsg) (s : State)
    → same n m ≡ false
    → (adopt n msg s).hosts m ≡ s.hosts m
unfolding make
adopt-other n m msg s e =
    set_host-other n m (record (s.hosts n) { invocation = some s.next })
      (make (invocation_of msg.id msg 0) s).0 e

pub adopt-IsMade : (n : Text) (msg : InvocationMsg) (s : State) → IsMade s → IsMade (adopt n msg s)
unfolding make set_host
adopt-IsMade n msg s made = record {
  hosts = λ m r h. elim (Bool-cases (same n m)) [
    | inl e ↦
        (let held = adopt-same n m msg s e in
          let k : s.next ≡ r = cc in let below : ltb r (suc s.next) ≡ true = ground arith in below)
    | inr e ↦
        (let b =
            made.hosts m r (ap (λ (x : Host). x.invocation) (sym (adopt-other n m msg s e)) ∙ h) in
          let below : ltb r (suc s.next) ≡ true = ground arith in below)
  ];
  queue = λ r h. (let b = made.queue r h in ground arith);
}

module _ (svc : Service) (msg : InvocationMsg) (now : ℕ → ℕ) where
  starting_round :
      (n : Text) (ns : List Text) (s t : State)
      → get_invocation n s msg.id ≡ none
      → svc.running ≡ false
      → unit_allocate n
          (make (invocation_of msg.id msg 0) s).1
          (make (invocation_of msg.id msg 0) s).0
        ≡ (t, true)
      → refresh_loop svc msg now (n ∷ ns) s
        ≡ refresh_loop svc msg now ns
            (check_in (make (invocation_of msg.id msg 0) s).1 (now (length ns)) t)
  unfolding refresh_loop
  starting_round n ns s t e k a =
      rw (e, k, ap (λ (x : State × Bool). x.1) a, refresh_loop)
        (ap
          (λ (x : State × Bool).
            refresh_loop svc msg now ns
              (check_in (make (invocation_of msg.id msg 0) s).1 (now (length ns)) x.0))
          a)

  -- A round of the loop finds the invocation, or fails, or the unit takes a new one.
  pub refresh_loop-cases :
      (n : Text) (ns : List Text) (s : State)
      → IsMade s
      → ((r : Ref) × (get_invocation n s msg.id ≡ some r)
          × (refresh_loop svc msg now (n ∷ ns) s
              ≡ refresh_loop svc msg now ns (check_in r (now (length ns)) s)))
        ⊎ (((get_invocation n s msg.id ≡ none)
              × (svc.running ≡ true)
              × (refresh_loop svc msg now (n ∷ ns) s ≡ (s, err failed_precondition)))
            ⊎ ((svc.running ≡ false)
                × (refresh_loop svc msg now (n ∷ ns) s
                    ≡ refresh_loop svc msg now ns
                        (check_in s.next (now (length ns)) (adopt n msg s)))))
  unfolding refresh_loop make
  refresh_loop-cases n ns s made = elim (Option-cases (get_invocation n s msg.id)) [
    | inr (r, e) ↦ inl (r, e, rw (e, refresh_loop) refl)
    | inl e ↦ elim (Bool-cases svc.running) [
      | inl k ↦ inr (inl (e, k, rw (e, k, refresh_loop) refl))
      | inr k ↦
          inr (
            inr (k, starting_round n ns s (adopt n msg s) e k (unit_allocate-adopt n msg s made e)))
    ]
  ]
