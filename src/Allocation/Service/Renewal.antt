-- ===== src/Allocation/Service/Renewal.antt =====
-- The loop of Refresh, while the service runs and while it starts.
use enkit.Common.{
  ℕ, ◌≡◌, ◌∙◌, refl, ap, sym, Bool, true, false, ◌&&◌, Bool-cases, Option-cases, inl, inr, ◌⊎◌,
  none, some, List, [], ◌∷◌, length, if◌then◌else◌, ◌==◌, arith,
}
use mathlib.Core.Path.{subst}
use enkit.Common.Results.{Result, ok, err}
use enkit.Config.Text.{Text, same, same_iff}
use enkit.Allocation.Store.{Ref, Invocation, Host, State, make, set_host, set_cell, check_in}
use enkit.Config.Names.{has_name}
use enkit.Allocation.Units.{is_some, get_invocation}
use enkit.Allocation.Service.Made.{IsMade, check_in-IsMade}
use enkit.Allocation.Service.Release.{get_invocation-free}
use enkit.Allocation.Service.Rounds.{
  get_invocation-if, get_invocation-holder, make-below, make-new, adopt, adopt-same, adopt-other,
  adopt-IsMade, refresh_loop-cases,
}
use enkit.Allocation.Service.{
  Service, Code, InvocationMsg, failed_precondition, invocation_of, refresh_loop,
}

-- Whether all of the units have an invocation of the id.
abbrev pub all_hold : Text → List Text → State → Bool
all_hold id [] s = true
all_hold id (n ∷ ns) s = is_some (get_invocation n s id) && all_hold id ns s

check_in-hosts : (r : Ref) (t : ℕ) (s : State) → (check_in r t s).hosts ≡ s.hosts
unfolding check_in set_cell
check_in-hosts r t s = refl

check_in-ids : (r q : Ref) (t : ℕ) (s : State) → ((check_in r t s).cells q).id ≡ (s.cells q).id
unfolding check_in set_cell
check_in-ids r q t s = elim (Bool-cases (r == q)) [
  | inl e ↦ (let x : r ≡ q = ground arith in rw e (ap (λ y. (s.cells y).id) x))
  | inr e ↦ rw e refl
]

get_invocation-check_in :
    (n id : Text) (r : Ref) (t : ℕ) (s : State)
    → get_invocation n (check_in r t s) id ≡ get_invocation n s id
get_invocation-check_in n id r t s = elim (Option-cases ((s.hosts n).invocation)) [
  | inl e ↦
      get_invocation-free n id (check_in r t s)
        (ap (λ h. (h n).invocation) (check_in-hosts r t s) ∙ e)
      ∙ sym (get_invocation-free n id s e)
  | inr (q, e) ↦
      get_invocation-if n id (check_in r t s) q
        (ap (λ h. (h n).invocation) (check_in-hosts r t s) ∙ e)
      ∙ ap (λ x. if same x id then some q else none) (check_in-ids r q t s)
      ∙ sym (get_invocation-if n id s q e)
]

all_hold-check_in :
    (id : Text) (ns : List Text) (r : Ref) (t : ℕ) (s : State)
    → all_hold id ns (check_in r t s) ≡ all_hold id ns s
all_hold-check_in id [] r t s = refl
all_hold-check_in id (n ∷ ns) r t s =
    ground (arith, all_hold-check_in id ns r t s, get_invocation-check_in n id r t s)

-- The unit has an invocation of the id, which checked in at one of the times.
abbrev pub IsRefreshed : Text → (ℕ → ℕ) → Text → State → Type 0
IsRefreshed id now m s =
    (r : Ref) × ((s.hosts m).invocation ≡ some r)
    × ((s.cells r).id ≡ id)
    × ((k : ℕ) × ((s.cells r).last_checkin ≡ now k))

check_in-new : (r : Ref) (t : ℕ) (s : State) → ((check_in r t s).cells r).last_checkin ≡ t
unfolding check_in set_cell
check_in-new r t s = ground arith

check_in-other :
    (r q : Ref) (t : ℕ) (s : State) → (r == q) ≡ false → (check_in r t s).cells q ≡ s.cells q
unfolding check_in set_cell
check_in-other r q t s e = rw e refl

check_in-starts :
    (id : Text) (now : ℕ → ℕ) (m : Text) (r : Ref) (k : ℕ) (s : State)
    → (s.hosts m).invocation ≡ some r
    → (s.cells r).id ≡ id
    → IsRefreshed id now m (check_in r (now k) s)
check_in-starts id now m r k s held e = (
  r,
  ap (λ h. (h m).invocation) (check_in-hosts r (now k) s) ∙ held,
  check_in-ids r r (now k) s ∙ e,
  (k, check_in-new r (now k) s),
)

check_in-IsRefreshed :
    (id : Text) (now : ℕ → ℕ) (m : Text) (r : Ref) (k : ℕ) (s : State)
    → IsRefreshed id now m s
    → IsRefreshed id now m (check_in r (now k) s)
check_in-IsRefreshed id now m r k s (q, held, e, (j, t)) = elim (Bool-cases (r == q)) [
  | inl same_ref ↦
      (let x : r ≡ q = ground arith in
        subst (λ y. IsRefreshed id now m (check_in y (now k) s)) (sym x)
          (check_in-starts id now m q k s held e))
  | inr other ↦ (
    q,
    ap (λ h. (h m).invocation) (check_in-hosts r (now k) s) ∙ held,
    check_in-ids r q (now k) s ∙ e,
    (j, ap (λ (x : Invocation). x.last_checkin) (check_in-other r q (now k) s other) ∙ t),
  )
]

-- A unit that takes a new invocation leaves the other units.
adopt-IsRefreshed :
    (n : Text) (msg : InvocationMsg) (now : ℕ → ℕ) (m : Text) (k : ℕ) (s : State)
    → IsMade s
    → IsRefreshed msg.id now m s ⊎ (same n m ≡ true)
    → IsRefreshed msg.id now m (check_in s.next (now k) (adopt n msg s))
unfolding make set_host
adopt-IsRefreshed n msg now m k s made h = elim (Bool-cases (same n m)) [
  | inl e ↦
      check_in-starts msg.id now m s.next k (adopt n msg s) (adopt-same n m msg s e)
        (ap (λ (x : Invocation). x.id) (make-new (invocation_of msg.id msg 0) s))
  | inr e ↦ elim h [
    | inr other ↦ absurd (let x : true ≡ false = sym other ∙ e in cc)
    | inl done ↦
        (let (q, held, id, (j, t)) = done in
          let below = made.hosts m q held in
          let cell = make-below (invocation_of msg.id msg 0) q s below in
          check_in-IsRefreshed msg.id now m s.next k (adopt n msg s) (
            q,
            ap (λ (x : Host). x.invocation) (adopt-other n m msg s e) ∙ held,
            ap (λ (x : Invocation). x.id) cell ∙ id,
            (j, ap (λ (x : Invocation). x.last_checkin) cell ∙ t),
          ))
  ]
]

module _ (svc : Service) (msg : InvocationMsg) (now : ℕ → ℕ) where
  pub refresh_loop-IsMade :
      (ns : List Text) (s : State) → IsMade s → IsMade (refresh_loop svc msg now ns s).0
  unfolding refresh_loop
  refresh_loop-IsMade [] s made = made
  refresh_loop-IsMade (n ∷ ns) s made = elim (refresh_loop-cases svc msg now n ns s made) [
    | inl (r, g, e) ↦
        subst (λ (x : State × Result Code (Unit {0})). IsMade x.0) (sym e)
          (refresh_loop-IsMade ns (check_in r (now (length ns)) s)
            (check_in-IsMade r (now (length ns)) s made))
    | inr (inl (g, k, e)) ↦ subst (λ (x : State × Result Code (Unit {0})). IsMade x.0) (sym e) made
    | inr (inr (k, e)) ↦
        subst (λ (x : State × Result Code (Unit {0})). IsMade x.0) (sym e)
          (refresh_loop-IsMade ns (check_in s.next (now (length ns)) (adopt n msg s))
            (check_in-IsMade s.next (now (length ns)) (adopt n msg s) (adopt-IsMade n msg s made)))
  ]

  -- While it starts, the service refuses no unit.
  pub refresh_loop-starting :
      (ns : List Text) (s : State)
      → IsMade s
      → svc.running ≡ false
      → (refresh_loop svc msg now ns s).1 ≡ ok tt
  unfolding refresh_loop
  refresh_loop-starting [] s made k = refl
  refresh_loop-starting (n ∷ ns) s made k = elim (refresh_loop-cases svc msg now n ns s made) [
    | inl (r, g, e) ↦
        ap (λ (x : State × Result Code (Unit {0})). x.1) e
        ∙ refresh_loop-starting ns (check_in r (now (length ns)) s)
            (check_in-IsMade r (now (length ns)) s made) k
    | inr (inl (g, h, e)) ↦ cc
    | inr (inr (h, e)) ↦
        ap (λ (x : State × Result Code (Unit {0})). x.1) e
        ∙ refresh_loop-starting ns (check_in s.next (now (length ns)) (adopt n msg s))
            (check_in-IsMade s.next (now (length ns)) (adopt n msg s) (adopt-IsMade n msg s made)) k
  ]

  -- While it runs, the loop leaves the units, and fails just if one of them has no such invocation.
  pub refresh_loop-running :
      (ns : List Text) (s : State)
      → IsMade s
      → svc.running ≡ true
      → ((refresh_loop svc msg now ns s).0.hosts ≡ s.hosts)
        × ((refresh_loop svc msg now ns s).1
            ≡ (if all_hold msg.id ns s then ok tt else err failed_precondition))
  unfolding refresh_loop
  refresh_loop-running [] s made k = (refl, refl)
  refresh_loop-running (n ∷ ns) s made k = elim (refresh_loop-cases svc msg now n ns s made) [
    | inl (r, g, e) ↦
        (let t = check_in r (now (length ns)) s in
          let (hosts, code) =
            refresh_loop-running ns t (check_in-IsMade r (now (length ns)) s made) k in
          let others = all_hold-check_in msg.id ns r (now (length ns)) s in
          (
            ap (λ (x : State × Result Code (Unit {0})). x.0.hosts) e
                ∙ hosts
                ∙ check_in-hosts r (now (length ns)) s,
            ap (λ (x : State × Result Code (Unit {0})). x.1) e ∙ code ∙ rw (others, g) refl,
          ))
    | inr (inl (g, h, e)) ↦ (
      ap (λ (x : State × Result Code (Unit {0})). x.0.hosts) e,
      ap (λ (x : State × Result Code (Unit {0})). x.1) e ∙ rw g refl,
    )
    | inr (inr (h, e)) ↦ absurd (let x : true ≡ false = sym k ∙ h in cc)
  ]

  -- A loop leaves what was refreshed.
  refresh_loop-keeps :
      (ns : List Text) (m : Text) (s : State)
      → IsMade s
      → IsRefreshed msg.id now m s
      → IsRefreshed msg.id now m (refresh_loop svc msg now ns s).0
  unfolding refresh_loop
  refresh_loop-keeps [] m s made d = d
  refresh_loop-keeps (n ∷ ns) m s made d = elim (refresh_loop-cases svc msg now n ns s made) [
    | inl (r, g, e) ↦
        subst (λ (x : State × Result Code (Unit {0})). IsRefreshed msg.id now m x.0) (sym e)
          (refresh_loop-keeps ns m (check_in r (now (length ns)) s)
            (check_in-IsMade r (now (length ns)) s made)
            (check_in-IsRefreshed msg.id now m r (length ns) s d))
    | inr (inl (g, k, e)) ↦
        subst (λ (x : State × Result Code (Unit {0})). IsRefreshed msg.id now m x.0) (sym e) d
    | inr (inr (k, e)) ↦
        subst (λ (x : State × Result Code (Unit {0})). IsRefreshed msg.id now m x.0) (sym e)
          (refresh_loop-keeps ns m (check_in s.next (now (length ns)) (adopt n msg s))
            (check_in-IsMade s.next (now (length ns)) (adopt n msg s) (adopt-IsMade n msg s made))
            (adopt-IsRefreshed n msg now m (length ns) s made (inl d)))
  ]

  -- A loop that succeeds refreshes each of its units.
  pub refresh_loop-IsRefreshed :
      (ns : List Text) (m : Text) (s : State)
      → IsMade s
      → (refresh_loop svc msg now ns s).1 ≡ ok tt
      → has_name m ns ≡ true
      → IsRefreshed msg.id now m (refresh_loop svc msg now ns s).0
  unfolding refresh_loop has_name
  refresh_loop-IsRefreshed [] m s made h known = cc
  refresh_loop-IsRefreshed (n ∷ ns) m s made h known =
      let later =
        λ (t : State) (made' : IsMade t) (first : same n m ≡ true → IsRefreshed msg.id now m t)
            (e : refresh_loop svc msg now (n ∷ ns) s ≡ refresh_loop svc msg now ns t).
          subst (λ (x : State × Result Code (Unit {0})). IsRefreshed msg.id now m x.0) (sym e)
            (elim (Bool-cases (same n m))
              as (λ x. IsRefreshed msg.id now m (refresh_loop svc msg now ns t).0) [
                | inl i ↦ refresh_loop-keeps ns m t made' (first i)
                | inr i ↦
                    (let k : has_name m ns ≡ true = ground arith in
                      refresh_loop-IsRefreshed ns m t made'
                        (sym (ap (λ (x : State × Result Code (Unit {0})). x.1) e) ∙ h) k)
              ]) in
      elim (refresh_loop-cases svc msg now n ns s made) [
        | inl (r, g, e) ↦
            (let (held, id) = get_invocation-holder n msg.id s r g in
              later (check_in r (now (length ns)) s) (check_in-IsMade r (now (length ns)) s made)
                (λ i.
                  check_in-starts msg.id now m r (length ns) s
                    (subst (λ x. (s.hosts x).invocation ≡ some r) ((same_iff n m).0 i) held) id)
                e)
        | inr (inl (g, k, e)) ↦ (let x = ap (λ (x : State × Result Code (Unit {0})). x.1) e in cc)
        | inr (inr (k, e)) ↦
            later (check_in s.next (now (length ns)) (adopt n msg s))
              (check_in-IsMade s.next (now (length ns)) (adopt n msg s) (adopt-IsMade n msg s made))
              (λ i. adopt-IsRefreshed n msg now m (length ns) s made (inr i)) e
      ]
