-- ===== src/Flextape/Service/Calls.antt =====
-- Each handler of flextape/service/service.go keeps the books of all licenses.
use enkit.Common.{
  ℕ, ◌+◌, ◌<◌, ◌≡◌, ◌≢◌, ap, sym, ◌∙◌, inl, inr, String, Bool-cases, Option, none, some, List, [],
  ◌∷◌, str_dec, arith, Option-cases,
}
use mathlib.Core.Path.{subst}
use enkit.Common.Words.{u32_mod}
use enkit.Flextape.Invocation.{Invocation}
use enkit.Flextape.Queue.Totals.{total, has_id}
use enkit.Flextape.License.{License, Allocations, lookup}
use enkit.Flextape.License
use enkit.Flextape.License.Books.{held, uses, Books, lookup-absent}
use enkit.Flextape.License.Keeping.{
  enqueue-Books, allocate-Books, expire_allocations-Books, expire_queued-Books, forget-Books,
}
use enkit.Flextape.License.Promotion.{promote-Books}
use enkit.Flextape.Service.Touch.{touch_allocated-Books}
use enkit.Flextape.Messages.{InvocationMsg, Clock, LicenseSpec}
use enkit.Flextape.Service.{
  new, Service, starting, set_license, touch_allocated, janitor, new_invocation, allocate_known,
  admit, allocate, adopt, refresh, forget_all, release, Event, allocates, refreshes, releases,
  ticks, adopted, single, format_license_type,
}
use enkit.Flextape.Service.Books.{
  Every-lookup, Every-map, State-cases, ServiceBooks, ServiceBooks-mono, set_license-Books,
  allocate_known-Books, Every,
}

allocated_absent :
    {n : ℕ} (id : String) (l : License)
    → Books n l
    → License.get_allocated id l ≡ none
    → held (has_id id) l.allocations ≡ 0
unfolding License.get_allocated
allocated_absent id l b e = lookup-absent id l.allocations b.keyed e

-- The ids that generateRandomID makes are new, and a client does not refresh what still waits in the
-- queue.
abbrev pub Proper : Service → Event → Type 0
Proper s (allocates msg generated clock) =
    (name : String) (l : License) (id : String)
    → lookup name s.licenses ≡ some l
    → generated ≡ some id
    → uses id l ≡ 0
Proper s (refreshes msg clock) =
    (name : String) (l : License)
    → lookup name s.licenses ≡ some l
    → s.current_state ≡ starting
    → total (has_id msg.id) l.queue ≡ 0
Proper s (releases id) = Unit {0}
Proper s (ticks now_allocations now_queue) = Unit {0}
Proper s adopted = Unit {0}

admit-Books :
    (n : ℕ) (s : Service) (msg : InvocationMsg) (clock : Clock) (l : License) (id : String)
    → n + 2 < u32_mod
    → Books n l
    → uses id l ≡ 0
    → Books (n + 1) (admit s msg clock l id)
unfolding admit new_invocation
admit-Books n s msg clock l id room b new =
    let queued = enqueue-Books n l (new_invocation id msg clock.created) b new room in
    elim (State-cases s.current_state) [
      | inl t ↦ rw (t, admit) queued
      | inr t ↦ rw (t, admit) (promote-Books (n + 1) _ queued).0
    ]

module _ (s : Service) (msg : InvocationMsg) (spec : LicenseSpec) (l : License) (clock : Clock)
    (one : single msg.licenses ≡ some spec)
    (known : lookup (format_license_type spec) s.licenses ≡ some l) where
  allocate_again :
      (generated : Option String)
      → msg.id ≢ ""
      → allocate s msg generated clock
        ≡ allocate_known s msg clock (format_license_type spec) l msg.id
  unfolding allocate
  allocate_again generated h = ground arith

  allocate_first :
      (id : String)
      → msg.id ≡ ""
      → allocate s msg (some id) clock
        ≡ allocate_known s msg clock (format_license_type spec) (admit s msg clock l id) id
  unfolding allocate
  allocate_first id h = ground arith

  refresh_held :
      (inv : Invocation)
      → msg.id ≢ ""
      → License.get_allocated msg.id l ≡ some inv
      → (refresh s msg clock).0
        ≡ set_license s (format_license_type spec) (touch_allocated msg.id clock.checkin l)
  unfolding refresh
  refresh_held inv h e = ground arith

  refresh_unheld :
      msg.id ≢ ""
      → License.get_allocated msg.id l ≡ none
      → refresh s msg clock ≡ adopt s msg clock (format_license_type spec) l
  unfolding refresh
  refresh_unheld h e = ground arith

-- The requests that are refused before a license is looked at.
allocate_refused :
    (s : Service) (msg : InvocationMsg) (generated : Option String) (clock : Clock)
    → ((spec : LicenseSpec) (l : License)
        → single msg.licenses ≡ some spec
        → lookup (format_license_type spec) s.licenses ≡ some l
        → (msg.id ≡ "") × (generated ≡ none))
    → (allocate s msg generated clock).0 ≡ s
unfolding allocate
allocate_refused s msg generated clock h = elim (Option-cases (single msg.licenses)) [
  | inl e ↦ ground arith
  | inr (spec, e) ↦ elim (Option-cases (lookup (format_license_type spec) s.licenses)) [
    | inl f ↦ ground arith
    | inr (l, f) ↦ ground (arith, h spec l e f)
  ]
]

pub allocate_call-Books :
    (n : ℕ) (s : Service) (msg : InvocationMsg) (generated : Option String) (clock : Clock)
    → n + 3 < u32_mod
    → Proper s (allocates msg generated clock)
    → ServiceBooks n s
    → ServiceBooks (n + 1 + 1) (allocate s msg generated clock).0
allocate_call-Books n s msg generated clock room fresh all =
    elim (Option-cases (single msg.licenses)) [
      | inl e ↦ refused (λ spec l e' f. cc)
      | inr (spec, e) ↦ elim (Option-cases (lookup (format_license_type spec) s.licenses)) [
        | inl f ↦ refused (λ spec' l e' f'. cc)
        | inr (l, f) ↦
            let name = format_license_type spec in
            let b = Every-lookup (Books n) name s.licenses l all f in
            elim (str_dec msg.id "") [
              | no p ↦ at _ (ap (λ r. r.0) (allocate_again s msg spec l clock e f generated p)) (
                  ServiceBooks-mono (n + 1) (allocate_known s msg clock name l msg.id).0
                    (allocate_known-Books n s msg clock name l msg.id (omega arith) all b))
              | yes p ↦ elim (Option-cases generated) [
                | inl g ↦ refused (λ spec' l' e' f'. (p, g))
                | inr (id, g) ↦
                    at _
                      (ap (λ o. (allocate s msg o clock).0) g
                        ∙ ap (λ r. r.0) (allocate_first s msg spec l clock e f id p))
                      (allocate_known-Books (n + 1) s msg clock name (admit s msg clock l id) id
                        (omega arith) (ServiceBooks-mono n s all)
                        (admit-Books n s msg clock l id (omega arith) b (fresh name l id f g)))
              ]
            ]
      ]
    ]
  where
    at :
        (t : Service)
        → (allocate s msg generated clock).0 ≡ t
        → ServiceBooks (n + 1 + 1) t
        → ServiceBooks (n + 1 + 1) (allocate s msg generated clock).0
    at t e b = subst (ServiceBooks (n + 1 + 1)) (sym e) b

    refused :
        ((spec : LicenseSpec) (l : License)
          → single msg.licenses ≡ some spec
          → lookup (format_license_type spec) s.licenses ≡ some l
          → (msg.id ≡ "") × (generated ≡ none))
        → ServiceBooks (n + 1 + 1) (allocate s msg generated clock).0
    refused h =
        at s (allocate_refused s msg generated clock h)
          (ServiceBooks-mono (n + 1) s (ServiceBooks-mono n s all))

adopt-Books :
    (n : ℕ) (s : Service) (msg : InvocationMsg) (clock : Clock) (name : String) (l : License)
    → ServiceBooks n s
    → Books n l
    → (s.current_state ≡ starting → uses msg.id l ≡ 0)
    → ServiceBooks n (adopt s msg clock name l).0
unfolding adopt new_invocation
adopt-Books n s msg clock name l all b new = elim (State-cases s.current_state) [
  | inr t ↦ rw (t, adopt) all
  | inl t ↦
      let taken = License.allocate l (new_invocation msg.id msg clock.created) in
      elim (Bool-cases taken.1) [
        | inl r ↦
            rw (t, r, adopt)
              (set_license-Books n s name _ all
                (allocate-Books n l (new_invocation msg.id msg clock.created) b (new t)))
        | inr r ↦ rw (t, r, adopt) all
      ]
]

refresh_refused :
    (s : Service) (msg : InvocationMsg) (clock : Clock)
    → ((spec : LicenseSpec) (l : License)
        → single msg.licenses ≡ some spec
        → lookup (format_license_type spec) s.licenses ≡ some l
        → msg.id ≡ "")
    → (refresh s msg clock).0 ≡ s
unfolding refresh
refresh_refused s msg clock h = elim (Option-cases (single msg.licenses)) [
  | inl e ↦ ground arith
  | inr (spec, e) ↦ elim (Option-cases (lookup (format_license_type spec) s.licenses)) [
    | inl f ↦ ground arith
    | inr (l, f) ↦ ground (arith, h spec l e f)
  ]
]

pub refresh_call-Books :
    (n : ℕ) (s : Service) (msg : InvocationMsg) (clock : Clock)
    → Proper s (refreshes msg clock)
    → ServiceBooks n s
    → ServiceBooks n (refresh s msg clock).0
refresh_call-Books n s msg clock waits all = elim (Option-cases (single msg.licenses)) [
  | inl e ↦ at s (refresh_refused s msg clock (λ spec l e' f. cc)) all
  | inr (spec, e) ↦ elim (Option-cases (lookup (format_license_type spec) s.licenses)) [
    | inl f ↦ at s (refresh_refused s msg clock (λ spec' l e' f'. cc)) all
    | inr (l, f) ↦
        let name = format_license_type spec in
        let b = Every-lookup (Books n) name s.licenses l all f in
        elim (str_dec msg.id "") [
          | yes p ↦ at s (refresh_refused s msg clock (λ spec' l' e' f'. p)) all
          | no p ↦ elim (Option-cases (License.get_allocated msg.id l)) [
            | inr (inv, g) ↦ at _ (refresh_held s msg spec l clock e f inv p g) (
                set_license-Books n s name _ all (touch_allocated-Books msg.id clock.checkin n l b))
            | inl g ↦ at _ (ap (λ r. r.0) (refresh_unheld s msg spec l clock e f p g)) (
                adopt-Books n s msg clock name l all b
                  (λ t. omega (arith, waits name l f t, allocated_absent msg.id l b g)))
          ]
        ]
  ]
]
  where
    at :
        (t : Service)
        → (refresh s msg clock).0 ≡ t
        → ServiceBooks n t
        → ServiceBooks n (refresh s msg clock).0
    at t e b = subst (ServiceBooks n) (sym e) b

forget_all-Books :
    (id : String) (n : ℕ) (m : List (String × License))
    → Every (Books n) m
    → Every (Books n) (forget_all id m).0
unfolding forget_all
forget_all-Books id n [] all = tt
forget_all-Books id n ((k, l) ∷ m) all = (forget-Books id n l all.0, forget_all-Books id n m all.1)

release_refused : (s : Service) (id : String) → id ≡ "" → (release s id).0 ≡ s
unfolding release
release_refused s id h = ground arith

release_named :
    (s : Service) (id : String)
    → id ≢ ""
    → (release s id).0 ≡ record s { licenses = (forget_all id s.licenses).0 }
unfolding release
release_named s id h = ground arith

pub release_call-Books :
    (n : ℕ) (s : Service) (id : String) → ServiceBooks n s → ServiceBooks n (release s id).0
release_call-Books n s id all = elim (str_dec id "") [
  | yes p ↦ subst (ServiceBooks n) (sym (release_refused s id p)) all
  | no p ↦
      subst (ServiceBooks n) (sym (release_named s id p)) (forget_all-Books id n s.licenses all)
]

pub janitor-Books :
    (n now_allocations now_queue : ℕ) (s : Service)
    → ServiceBooks n s
    → ServiceBooks n (janitor now_allocations now_queue s)
unfolding janitor
janitor-Books n now_allocations now_queue s all = elim (State-cases s.current_state) [
  | inl t ↦ rw (t, janitor) all
  | inr t ↦
      rw (t, janitor)
        (Every-map (Books n) (Books n) _ s.licenses
          (λ l b.
            (promote-Books n _ (expire_queued-Books _ n _ (expire_allocations-Books _ n l b))).0)
          all)
]
