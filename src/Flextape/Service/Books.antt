-- ===== src/Flextape/Service/Books.antt =====
-- The books of all licenses through any run of flextape/service/service.go.
use enkit.Common.{
  ℕ, ◌+◌, ◌<◌, ◌≡◌, refl, inl, inr, String, none, some, List, [], ◌∷◌, str_dec, arith, Option-cases,
  ◌⊎◌, if_pos, if_neg,
}
use mathlib.Core.Path.{subst}
use enkit.Common.Words.{u32_mod}
use enkit.Flextape.Queue.Totals.{get-absent}
use enkit.Flextape.License.{License, Allocations, lookup}
use enkit.Flextape.License
use enkit.Flextape.License.Books.{uses, Books, lookup-absent}
use enkit.Flextape.License.Keeping.{enqueue-Books}
use enkit.Flextape.Service.Touch.{touch_allocated-Books, touch_queued-Books}
use enkit.Flextape.Messages.{InvocationMsg, Clock}
use enkit.Flextape.Service.{
  Service, ServerState, starting, running, modify, set_license, map_licenses, new_invocation,
  allocate_known,
}

-- Every license of the map.
abbrev pub Every : (License → Type 0) → List (String × License) → Type 0
Every P [] = Unit {0}
Every P ((k, v) ∷ m) = P v × Every P m

module _ (P : License → Type 0) where
  pub Every-lookup :
      (name : String) (m : List (String × License)) (l : License)
      → Every P m
      → lookup name m ≡ some l
      → P l
  unfolding lookup
  Every-lookup name [] l all e = cc
  Every-lookup name ((k, v) ∷ m) l all e = elim (str_dec k name) [
    | yes p ↦ let same : v ≡ l = ground arith in subst P same all.0
    | no p ↦ Every-lookup name m l all.1 (ground arith)
  ]

  pub Every-modify :
      (name : String) (l : License) (m : List (String × License))
      → Every P m
      → P l
      → Every P (modify name (λ v. l) m)
  unfolding modify
  Every-modify name l [] all h = tt
  Every-modify name l ((k, v) ∷ m) all h = elim (str_dec k name) [
    | yes p ↦ rw (if_pos _ p) (h, all.1)
    | no p ↦ rw (if_neg _ p) (all.0, Every-modify name l m all.1 h)
  ]

pub Every-map :
    (P Q : License → Type 0) (f : License → License) (m : List (String × License))
    → ((l : License) → P l → Q (f l))
    → Every P m
    → Every Q (map_licenses f m)
unfolding map_licenses
Every-map P Q f [] h all = tt
Every-map P Q f ((k, v) ∷ m) h all = (h v all.0, Every-map P Q f m h all.1)

Every-mono :
    (P Q : License → Type 0) (m : List (String × License))
    → ((l : License) → P l → Q l)
    → Every P m
    → Every Q m
Every-mono P Q [] h all = tt
Every-mono P Q ((k, v) ∷ m) h all = (h v all.0, Every-mono P Q m h all.1)

pub Books-mono : (n : ℕ) (l : License) → Books n l → Books (n + 1) l
Books-mono n l b = record {
  keyed = b.keyed;
  unique = b.unique;
  numbered = b.numbered;
  short = omega (arith, b.short);
  capacity = b.capacity;
  small = b.small;
  counted = b.counted;
}

pub State-cases : (t : ServerState) → (t ≡ starting) ⊎ (t ≡ running)
State-cases starting = inl refl
State-cases running = inr refl

-- The books of every license; `n` bounds what was ever queued on any of them.
abbrev pub ServiceBooks : ℕ → Service → Type 0
ServiceBooks n s = Every (Books n) s.licenses

pub ServiceBooks-mono : (n : ℕ) (s : Service) → ServiceBooks n s → ServiceBooks (n + 1) s
ServiceBooks-mono n s all = Every-mono (Books n) (Books (n + 1)) s.licenses (Books-mono n) all

pub set_license-Books :
    (n : ℕ) (s : Service) (name : String) (l : License)
    → ServiceBooks n s
    → Books n l
    → ServiceBooks n (set_license s name l)
unfolding set_license
set_license-Books n s name l all b = Every-modify (Books n) name l s.licenses all b

pub set_later-Books :
    (n : ℕ) (s : Service) (name : String) (l : License)
    → ServiceBooks n s
    → Books n l
    → ServiceBooks (n + 1) (set_license s name l)
set_later-Books n s name l all b =
    set_license-Books (n + 1) s name l (ServiceBooks-mono n s all) (Books-mono n l b)

-- An id that a license finds neither among its allocations nor in its queue.
pub uses-absent :
    (n : ℕ) (id : String) (l : License)
    → Books n l
    → License.get_allocated id l ≡ none
    → License.get_queued id l ≡ none
    → uses id l ≡ 0
unfolding License.get_allocated License.get_queued
uses-absent n id l b e f =
    omega (arith, lookup-absent id l.allocations b.keyed e, get-absent id l.queue f)

pub allocate_known-Books :
    (n : ℕ) (s : Service) (msg : InvocationMsg) (clock : Clock) (name : String) (l : License)
    (id : String)
    → n + 2 < u32_mod
    → ServiceBooks n s
    → Books n l
    → ServiceBooks (n + 1) (allocate_known s msg clock name l id).0
unfolding allocate_known new_invocation
allocate_known-Books n s msg clock name l id room all b =
    elim (Option-cases (License.get_allocated id l)) [
      | inr (inv, e) ↦
          rw (e, allocate_known)
            (set_later-Books n s name _ all (touch_allocated-Books id clock.checkin n l b))
      | inl e ↦ elim (Option-cases (License.get_queued id l)) [
        | inr ((inv, pos), f) ↦
            rw (e, f, allocate_known)
              (set_later-Books n s name _ all (touch_queued-Books id clock.checkin n l b))
        | inl f ↦ elim (State-cases s.current_state) [
          | inl t ↦
              rw (e, f, t, allocate_known)
                (set_license-Books (n + 1) s name _ (ServiceBooks-mono n s all) (
                  enqueue-Books n l (new_invocation id msg clock.created) b
                    (uses-absent n id l b e f) room))
          | inr t ↦ rw (e, f, t, allocate_known) (set_later-Books n s name l all b)
        ]
      ]
    ]
