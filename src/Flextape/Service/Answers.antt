-- ===== src/Flextape/Service/Answers.antt =====
-- What the answers of Allocate in flextape/service/service.go say of the state after the call.
use enkit.Common.{
  ℕ, ◌+◌, ◌<◌, ◌≡◌, refl, ◌∙◌, inl, inr, String, none, some, Option-cases, List, [], ◌∷◌, str_dec,
  arith,
}
use enkit.Common.Words.{u32_mod}
use enkit.Flextape.Invocation.{Invocation}
use enkit.Flextape.Queue.{Queue, get, get_walker, walk, walk_from}
use enkit.Flextape.License.{License, Allocations, lookup}
use enkit.Flextape.License
use enkit.Flextape.License.Books.{Books}
use enkit.Flextape.License.Priority.{enqueue-get_queued}
use enkit.Flextape.Messages.{
  Result, ok, err, AllocateResponse, license_allocated, queued, InvocationMsg, Clock,
}
use enkit.Flextape.Service.{
  Service, modify, set_license, touch_allocated, touch_queue, touch_queued, new_invocation,
  allocate_known,
}
use enkit.Flextape.Service.Books.{State-cases, uses-absent}

lookup-modify {ℓ} :
    {V : Type ℓ} (name : String) (f : V → V) (m : List (String × V)) (v : V)
    → lookup name m ≡ some v
    → lookup name (modify name f m) ≡ some (f v)
unfolding lookup modify
lookup-modify name f [] v e = cc
lookup-modify name f ((k, w) ∷ m) v e = elim (str_dec k name) [
  | yes p ↦ ground arith
  | no p ↦ ground (arith, lookup-modify name f m v)
]

walk_from-touch :
    (id : String) (now pos : ℕ) (q : Queue) (x : Invocation) (p : ℕ)
    → (walk_from (get_walker id) none pos q).1 ≡ some (x, p)
    → (walk_from (get_walker id) none pos (touch_queue id now q)).1
      ≡ some (record x { last_checkin = now }, p)
unfolding walk_from get_walker touch_queue
walk_from-touch id now pos [] x p e = cc
walk_from-touch id now pos (y ∷ q) x p e = ground (arith, walk_from-touch id now (pos + 1) q x p)

get-touch :
    (id : String) (now : ℕ) (l : License) (x : Invocation) (p : ℕ)
    → License.get_queued id l ≡ some (x, p)
    → License.get_queued id (touch_queued id now l) ≡ some (record x { last_checkin = now }, p)
unfolding License.get_queued get walk touch_queued
get-touch id now l x p e = walk_from-touch id now 0 l.queue x p e

get_allocated-touch :
    (id : String) (now : ℕ) (l : License) (x : Invocation)
    → License.get_allocated id l ≡ some x
    → License.get_allocated id (touch_allocated id now l) ≡ some (record x { last_checkin = now })
unfolding License.get_allocated touch_allocated
get_allocated-touch id now l x e = lookup-modify id _ l.allocations x e

touch_queued-get_allocated :
    (id : String) (now : ℕ) (l : License)
    → License.get_allocated id (touch_queued id now l) ≡ License.get_allocated id l
unfolding License.get_allocated touch_queued
touch_queued-get_allocated id now l = refl

enqueue-get_allocated :
    (id : String) (l : License) (inv : Invocation)
    → License.get_allocated id (License.enqueue l inv).0 ≡ License.get_allocated id l
unfolding License.get_allocated License.enqueue
enqueue-get_allocated id l inv = refl

-- A granted id holds a license, a queued one waits at the place that the answer names, and a
-- refused one does neither.
abbrev pub IsTrue : String → License → Result AllocateResponse → Type 0
IsTrue asked l (ok (license_allocated id deadline)) =
    (id ≡ asked) × ((x : Invocation) × (License.get_allocated id l ≡ some x))
IsTrue asked l (ok (queued id next_poll place)) =
    (id ≡ asked)
    × (License.get_allocated id l ≡ none)
    × ((x : Invocation) × (License.get_queued id l ≡ some (x, place)))
IsTrue asked l (err code) =
    (License.get_allocated asked l ≡ none) × (License.get_queued asked l ≡ none)

-- The answer of Allocate for a known id is true of the license as the call leaves it.
pub allocate_known-IsTrue :
    (n : ℕ) (s : Service) (msg : InvocationMsg) (clock : Clock) (name : String) (before l : License)
    (id : String)
    → n + 2 < u32_mod
    → lookup name s.licenses ≡ some before
    → Books n l
    → let out = allocate_known s msg clock name l id in
      (after : License) × (lookup name out.0.licenses ≡ some after) × IsTrue id after out.1
unfolding allocate_known set_license new_invocation
allocate_known-IsTrue n s msg clock name before l id room known b =
    elim (Option-cases (License.get_allocated id l)) [
      | inr (x, e) ↦
          rw (e, allocate_known)
            (
              touch_allocated id clock.checkin l,
              lookup-modify name _ s.licenses before known,
              (
                refl,
                (
                  record x { last_checkin = clock.checkin },
                  get_allocated-touch id clock.checkin l x e,
                ),
              ),
            )
      | inl e ↦ elim (Option-cases (License.get_queued id l)) [
        | inr ((x, p), f) ↦
            rw (e, f, allocate_known)
              (
                touch_queued id clock.checkin l,
                lookup-modify name _ s.licenses before known,
                (
                  refl,
                  touch_queued-get_allocated id clock.checkin l ∙ e,
                  (record x { last_checkin = clock.checkin }, get-touch id clock.checkin l x p f),
                ),
              )
        | inl f ↦ elim (State-cases s.current_state) [
          | inr t ↦
              rw (e, f, t, allocate_known) (l, lookup-modify name _ s.licenses before known, (e, f))
          | inl t ↦
              let inv = new_invocation id msg clock.created in
              let (x, place) = enqueue-get_queued n l inv b (uses-absent n id l b e f) room in
              rw (e, f, t, allocate_known)
                (
                  (License.enqueue l inv).0,
                  lookup-modify name _ s.licenses before known,
                  (refl, enqueue-get_allocated id l inv ∙ e, (x, place)),
                )
        ]
      ]
    ]
