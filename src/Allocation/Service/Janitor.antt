-- ===== src/Allocation/Service/Janitor.antt =====
-- What a run of the janitor does to units and to those who wait.
use enkit.Common.{
  ℕ, ◌-◌, ◌≡◌, ◌∙◌, refl, ap, sym, Bool, true, false, Bool-cases, Option-cases, inl, inr, ◌⊎◌, none,
  some, List, [], ◌∷◌, if◌then◌else◌, ltb, arith,
}
use mathlib.Core.Path.{subst}
use enkit.Config.Text.{Text, same_refl}
use enkit.Allocation.Store.{Ref, Host, Invocation, State, set_host}
use enkit.Config.Names.{has_name}
use enkit.Allocation.Units.{is_some, is_allocated, expire_allocations}
use enkit.Allocation.Matching.{promote}
use enkit.Allocation.Matching.Progress.{promote-Progress, has_ref, set_host-other}
use enkit.Allocation.Matching.Settled.{IsStuck, promote-keeps, promote-IsStuck}
use enkit.Allocation.Matching.Whole.{set_host-same}
use enkit.Allocation.Matching.Origin.{promote-GetsOne}
use enkit.Allocation.Service.Sweep.{
  kept, kept-free, kept-held, kept-holder, shared, Sweeps, sweep, sweep-shared, sweep-kept,
}
use enkit.Allocation.Service.{Service, expire_loop, janitor}

-- What ExpireAllocations keeps.
abbrev pub is_fresh : ℕ → (Ref → Invocation) → Ref → Bool
is_fresh expiry cells r = ltb expiry (cells r).last_checkin

expire_allocations-free :
    (expiry : ℕ) (n : Text) (s : State)
    → (s.hosts n).invocation ≡ none
    → expire_allocations expiry n s ≡ s
unfolding expire_allocations
expire_allocations-free expiry n s e = rw (e, expire_allocations) refl

expire_allocations-held :
    (expiry : ℕ) (n : Text) (s : State) (r : Ref)
    → (s.hosts n).invocation ≡ some r
    → expire_allocations expiry n s ≡ (
        if ltb expiry (s.cells r).last_checkin
        then s
        else set_host n (record (s.hosts n) { invocation = none }) s)
unfolding expire_allocations
expire_allocations-held expiry n s r e = rw (e, expire_allocations) refl

pub expire_allocations-Sweeps : (expiry : ℕ) → Sweeps (is_fresh expiry) (expire_allocations expiry)
unfolding set_host
expire_allocations-Sweeps expiry = record {
  at_unit = λ n s. elim (Option-cases ((s.hosts n).invocation)) [
    | inl e ↦
        ap (λ (x : State). x.hosts n) (expire_allocations-free expiry n s e)
        ∙ sym (kept-free (is_fresh expiry s.cells) (s.hosts n) e)
    | inr (r, e) ↦
        (let k = kept-held (is_fresh expiry s.cells) (s.hosts n) r e in
          let x = expire_allocations-held expiry n s r e in
          let y = set_host-same n n (record (s.hosts n) { invocation = none }) s (same_refl n) in
          ground (arith, k, x, y))
  ];
  other = λ n m s h. elim (Option-cases ((s.hosts n).invocation)) [
    | inl e ↦ ap (λ (x : State). x.hosts m) (expire_allocations-free expiry n s e)
    | inr (r, e) ↦
        (let x = expire_allocations-held expiry n s r e in
          let y = set_host-other n m (record (s.hosts n) { invocation = none }) s h in
          ground (arith, x, y))
  ];
  rest = λ n s. elim (Option-cases ((s.hosts n).invocation)) [
    | inl e ↦ ap shared (expire_allocations-free expiry n s e)
    | inr (r, e) ↦ elim (Bool-cases (ltb expiry (s.cells r).last_checkin)) [
      | inl t ↦ rw (expire_allocations-held expiry n s r e, t) refl
      | inr t ↦ rw (expire_allocations-held expiry n s r e, t) refl
    ]
  ];
}

pub expire_loop-sweep :
    (expiry : ℕ) (ns : List Text) (s : State)
    → expire_loop expiry ns s ≡ sweep (expire_allocations expiry) ns s
unfolding expire_loop
expire_loop-sweep expiry [] s = refl
expire_loop-sweep expiry (n ∷ ns) s = expire_loop-sweep expiry ns (expire_allocations expiry n s)

expire_loop-kept :
    (expiry : ℕ) (ns : List Text) (m : Text) (s : State)
    → (expire_loop expiry ns s).hosts m
      ≡ (if has_name m ns then kept (is_fresh expiry s.cells) (s.hosts m) else s.hosts m)
expire_loop-kept expiry ns m s =
    ap (λ (x : State). x.hosts m) (expire_loop-sweep expiry ns s)
    ∙ sweep-kept (is_fresh expiry) (expire_allocations expiry) (expire_allocations-Sweeps expiry) ns
        m s

pub janitor-starting :
    (svc : Service) (now : ℕ) (s : State) → svc.running ≡ false → janitor svc now s ≡ s
unfolding janitor
janitor-starting svc now s h = rw h refl

running :
    (svc : Service) (now : ℕ) (s : State)
    → svc.running ≡ true
    → janitor svc now s
      ≡ promote svc.topologies (expire_loop (now - svc.allocation_refresh) s.names s)
unfolding janitor
running svc now s h = rw h refl

-- A running janitor leaves a unit to an invocation that checked in within the time of a refresh.
pub janitor-keeps :
    (svc : Service) (now : ℕ) (s : State) (n : Text) (r : Ref)
    → svc.running ≡ true
    → (s.hosts n).invocation ≡ some r
    → ltb (now - svc.allocation_refresh) (s.cells r).last_checkin ≡ true
    → (janitor svc now s).hosts n ≡ s.hosts n
janitor-keeps svc now s n r h e fresh =
    let expiry = now - svc.allocation_refresh in
    let t = expire_loop expiry s.names s in
    let stays : kept (is_fresh expiry s.cells) (s.hosts n) ≡ s.hosts n =
      kept-held (is_fresh expiry s.cells) (s.hosts n) r e ∙ rw fresh refl in
    let same_host : t.hosts n ≡ s.hosts n =
      ground (arith, expire_loop-kept expiry s.names n s, stays) in
    let held : is_allocated (t.hosts n) ≡ true = ap is_allocated same_host ∙ ap is_some e in
    ap (λ (x : State). x.hosts n) (running svc now s h)
    ∙ promote-keeps svc.topologies t n held
    ∙ same_host

-- After a running janitor, the invocation that has a unit had it before and checked in within the
-- time of a refresh, or waited before.
pub janitor-holder :
    (svc : Service) (now : ℕ) (s : State) (n : Text) (r : Ref)
    → svc.running ≡ true
    → has_name n s.names ≡ true
    → ((janitor svc now s).hosts n).invocation ≡ some r
    → (((s.hosts n).invocation ≡ some r)
        × (ltb (now - svc.allocation_refresh) (s.cells r).last_checkin ≡ true))
      ⊎ (has_ref r s.queue ≡ true)
janitor-holder svc now s n r h known e =
    let expiry = now - svc.allocation_refresh in
    let t = expire_loop expiry s.names s in
    let e' = sym (ap (λ (x : State). (x.hosts n).invocation) (running svc now s h)) ∙ e in
    let after : t.hosts n ≡ kept (is_fresh expiry s.cells) (s.hosts n) =
      expire_loop-kept expiry s.names n s ∙ rw known refl in
    let queue : t.queue ≡ s.queue =
      ap (λ (x : (Ref → Invocation) × List Ref × Ref). x.1)
        (ap shared (expire_loop-sweep expiry s.names s)
          ∙ sweep-shared (is_fresh expiry) (expire_allocations expiry)
              (expire_allocations-Sweeps expiry) s.names s) in
    elim (promote-GetsOne svc.topologies n t) [
      | inr (q, f, m) ↦
          (let k : q ≡ r = cc in
            inr (subst (λ x. has_ref x s.queue ≡ true) k (ap (has_ref q) (sym queue) ∙ m)))
      | inl f ↦ inl (
          kept-holder (is_fresh expiry s.cells) (s.hosts n) r
            (ap (λ (x : Host). x.invocation) (sym (f ∙ after)) ∙ e'))
    ]

-- After a running janitor, an invocation waits only if no topology of the name that it asks for is
-- free.
pub janitor-IsStuck :
    (svc : Service) (now : ℕ) (s : State) (r : Ref)
    → svc.running ≡ true
    → has_ref r (janitor svc now s).queue ≡ true
    → IsStuck svc.topologies (janitor svc now s) r
janitor-IsStuck svc now s r h m =
    let p = running svc now s h in
    let m' = sym (ap (λ (x : State). has_ref r x.queue) p) ∙ m in
    subst (λ x. IsStuck svc.topologies x r) (sym p)
      (promote-IsStuck svc.topologies (expire_loop (now - svc.allocation_refresh) s.names s) r m')

pub janitor-ids :
    (svc : Service) (now : ℕ) (s : State) (r : Ref)
    → ((janitor svc now s).cells r).id ≡ (s.cells r).id
unfolding janitor
janitor-ids svc now s r = elim (Bool-cases svc.running) [
  | inr h ↦ rw h refl
  | inl h ↦
      (let expiry = now - svc.allocation_refresh in
        let t = expire_loop expiry s.names s in
        let cells : t.cells ≡ s.cells =
          ap (λ (x : (Ref → Invocation) × List Ref × Ref). x.0)
            (ap shared (expire_loop-sweep expiry s.names s)
              ∙ sweep-shared (is_fresh expiry) (expire_allocations expiry)
                  (expire_allocations-Sweeps expiry) s.names s) in
        ap (λ (x : State). (x.cells r).id) (running svc now s h)
        ∙ (promote-Progress svc.topologies t).ids r
        ∙ ap (λ c. (c r).id) cells)
]
