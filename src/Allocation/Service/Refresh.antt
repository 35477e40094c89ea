-- ===== src/Allocation/Service/Refresh.antt =====
-- Refresh, and a run of the janitor after it.
use enkit.Common.{
  ℕ, ◌+◌, ◌-◌, ◌≡◌, ◌∙◌, refl, ap, sym, true, false, Bool-cases, Option-cases, inl, inr, Option,
  none, some, [], ltb,
}
use mathlib.Core.Path.{subst}
use enkit.Common.Results.{Result, ok, err, Result-cases}
use enkit.Config.Text.{Text, same, same_refl}
use enkit.Allocation.Store.{Host, Topology, State}
use enkit.Config.Names.{has_name}
use enkit.Allocation.Units.{is_some, get_invocation}
use enkit.Allocation.Service.Made.{IsMade}
use enkit.Allocation.Service.Janitor.{janitor-keeps, janitor-ids, janitor-starting}
use enkit.Allocation.Service.Release.{get_invocation-held}
use enkit.Allocation.Service.Renewal.{
  IsRefreshed, refresh_loop-IsMade, refresh_loop-starting, refresh_loop-IsRefreshed,
}
use enkit.Allocation.Service.{
  Service, Code, InvocationMsg, janitor, refresh_loop, lookup_topology, refresh,
}

module _ (svc : Service) (msg : InvocationMsg) (now : ℕ → ℕ) (answered : ℕ) where
  -- Where it finds the topology, Refresh is its loop.
  abbrev renew : Topology → State → State × Result Code (Text × ℕ)
  renew t s =
      let out = refresh_loop svc msg now t.units s in
      elim out.1 [
        | err e ↦ (out.0, err e)
        | ok done ↦ (out.0, ok (msg.id, answered + svc.allocation_refresh))
      ]

  refresh-renew :
      (name : Text) (t : Topology) (s : State)
      → lookup_topology name svc.topologies ≡ some t
      → same msg.id [] ≡ false
      → refresh svc msg (some name) now answered s ≡ renew t s
  unfolding refresh
  refresh-renew name t s h id = rw (h, refresh, id) refl

  renew-ok :
      (t : Topology) (s : State)
      → (refresh_loop svc msg now t.units s).1 ≡ ok tt
      → renew t s
        ≡ ((refresh_loop svc msg now t.units s).0, ok (msg.id, answered + svc.allocation_refresh))
  renew-ok t s h = rw (h, renew) refl

  renew-err :
      (t : Topology) (s : State) (e : Code)
      → (refresh_loop svc msg now t.units s).1 ≡ err e
      → renew t s ≡ ((refresh_loop svc msg now t.units s).0, err e)
  renew-err t s e h = rw (h, renew) refl

  refresh-IsRefreshed :
      (name : Text) (t : Topology) (s : State) (m : Text) (out : Text × ℕ)
      → IsMade s
      → lookup_topology name svc.topologies ≡ some t
      → same msg.id [] ≡ false
      → (refresh svc msg (some name) now answered s).1 ≡ ok out
      → has_name m t.units ≡ true
      → IsRefreshed msg.id now m (refresh svc msg (some name) now answered s).0
  refresh-IsRefreshed name t s m out made h id done known =
      let e = refresh-renew name t s h id in
      elim (Result-cases (refresh_loop svc msg now t.units s).1) [
        | inr (code, f) ↦
            (let x = ap (λ (x : State × Result Code (Text × ℕ)). x.1) (e ∙ renew-err t s code f) in
              cc)
        | inl (u, f) ↦
            subst (λ (x : State × Result Code (Text × ℕ)). IsRefreshed msg.id now m x.0)
              (sym (e ∙ renew-ok t s f))
              (refresh_loop-IsRefreshed svc msg now t.units m s made f known)
      ]

  -- While the service starts, and units and the queue have only invocations that were made, Refresh
  -- of a known topology, with an id, succeeds. Each unit of the topology then has an invocation of the
  -- id, whose last check-in is a time of this call, also if the unit was free or another one had it.
  pub refresh-starting :
      (name : Text) (t : Topology) (s : State) (m : Text)
      → IsMade s
      → svc.running ≡ false
      → lookup_topology name svc.topologies ≡ some t
      → same msg.id [] ≡ false
      → has_name m t.units ≡ true
      → ((refresh svc msg (some name) now answered s).1
          ≡ ok (msg.id, answered + svc.allocation_refresh))
        × IsRefreshed msg.id now m (refresh svc msg (some name) now answered s).0
  refresh-starting name t s m made k h id known =
      let done =
        ap (λ (x : State × Result Code (Text × ℕ)). x.1)
          (refresh-renew name t s h id
            ∙ renew-ok t s (refresh_loop-starting svc msg now t.units s made k)) in
      (done, refresh-IsRefreshed name t s m _ made h id done known)

  -- After a Refresh that succeeds, a run of the janitor that comes within the time of a refresh
  -- leaves each unit of the topology with an invocation of the id.
  pub refresh-janitor :
      (name : Text) (t : Topology) (s : State) (m : Text) (out : Text × ℕ) (later : ℕ)
      → IsMade s
      → lookup_topology name svc.topologies ≡ some t
      → same msg.id [] ≡ false
      → (refresh svc msg (some name) now answered s).1 ≡ ok out
      → has_name m t.units ≡ true
      → ((k : ℕ) → ltb (later - svc.allocation_refresh) (now k) ≡ true)
      → is_some (
          get_invocation m
            (janitor svc later (refresh svc msg (some name) now answered s).0)
            msg.id)
        ≡ true
  refresh-janitor name t s m out later made h id done known soon =
      let s' = (refresh svc msg (some name) now answered s).0 in
      let (r, held, e, (k, time)) = refresh-IsRefreshed name t s m out made h id done known in
      let fresh : ltb (later - svc.allocation_refresh) (s'.cells r).last_checkin ≡ true =
        ap (ltb (later - svc.allocation_refresh)) time ∙ soon k in
      let stays : ((janitor svc later s').hosts m).invocation ≡ some r =
        elim (Bool-cases svc.running) [
          | inl run ↦
              ap (λ (x : Host). x.invocation) (janitor-keeps svc later s' m r run held fresh) ∙ held
          | inr run ↦
              ap (λ (x : State). (x.hosts m).invocation) (janitor-starting svc later s' run) ∙ held
        ] in
      let same_id = janitor-ids svc later s' r ∙ e in
      get_invocation-held m msg.id (janitor svc later s') r stays
      ∙ ap (λ x. same x msg.id) same_id
      ∙ same_refl msg.id

  pub refresh-IsMade :
      (name : Option Text) (s : State) → IsMade s → IsMade (refresh svc msg name now answered s).0
  unfolding refresh
  refresh-IsMade name s made =
      elim (Option-cases
        (lookup_topology (elim name as (λ x. Text) [ none ↦ [] | some n ↦ n ]) svc.topologies)) [
          | inl h ↦ rw (h, refresh) made
          | inr (t, h) ↦ elim (Bool-cases (same msg.id [])) [
            | inl id ↦ rw (h, refresh, id) made
            | inr id ↦
                (let made' = refresh_loop-IsMade svc msg now t.units s made in
                  elim (Result-cases (refresh_loop svc msg now t.units s).1) [
                    | inl (u, e) ↦ rw (h, refresh, id, e) made'
                    | inr (c, e) ↦ rw (h, refresh, id, e) made'
                  ])
          ]
        ]
