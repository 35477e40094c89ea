-- ===== src/Flextape/Examples.antt =====
-- Runs of the flextape model, and its theorems at concrete inputs.
use enkit.Common.{
  ℕ, ◌+◌, ◌-◌, ◌*◌, ◌≡◌, ◌≢◌, refl, String, some, List, [], ◌∷◌, length, arith, str_dec,
  if◌then◌else◌, ◌==◌, ltb, ◌⊎◌,
}
use text.Mathlib.TextEquality.{eq_iff}
use enkit.Flextape.Invocation.{Invocation}
use enkit.Flextape.Queue.{Queue}
use enkit.Flextape.Queue
use enkit.Flextape.Queue.Numbering.{IsNumbered, IsNumbered-intro, ids}
use enkit.Flextape.Queue.Sorting.{IsSortedBy, AllFrom, class, stable_lem}
use enkit.Flextape.Prioritizer.{
  EvenOwners, even_owners, even_key, sorter, new_even_owners, even_on_allocate, on_enqueue,
  on_allocate, on_release, update,
}
use enkit.Flextape.Prioritizer.Requests.{IsIn}
use enkit.Flextape.License.{License, lookup}
use enkit.Flextape.License
use enkit.Flextape.License.Books.{Books, uses}
use enkit.Flextape.License.Keeping.{enqueue-Books, allocate-Books}
use enkit.Flextape.License.Promotion.{promote-Books}
use enkit.Flextape.License.Requests.{enqueue_all}
use enkit.Flextape.License.Priority.{share, promoted-least, enqueue-get_queued}
use enkit.Flextape.Messages.{
  LicenseConfig, even_owners_config, ServerConfig, InvocationMsg, Clock, ok, err,
  failed_precondition,
}
use enkit.Flextape.Service.{
  Service, starting, running, new, new_license, format_license_type, default_uint32, licenses_from,
  Event, allocates, ticks, adopted, run, allocate_known, clean, janitor, prioritizer_of, release,
  second,
}
use enkit.Flextape.Service.Books.{Every, Every-lookup, ServiceBooks}
use enkit.Flextape.Service.Runs.{run-new-Books, new_license-Books}
use enkit.Flextape.Service.Cleaning.{IsBusy, janitor-IsBusy, all_uses, AllForgot, release-uses}
use enkit.Flextape.Service.Answers.{IsTrue, allocate_known-IsTrue}

abbrev vivado : LicenseConfig
vivado = record {
  spec = record { vendor = "xilinx"; feature = "vivado" };
  quantity = 1;
  policy = even_owners_config;
}

abbrev server : ServerConfig
server = record {
  queue_refresh_seconds = 0;
  allocation_refresh_seconds = 20;
  janitor_interval_seconds = 0;
  adoption_seconds = 0;
}

abbrev started : Service
started = record {
  current_state = starting;
  licenses = ("xilinx::vivado", new_license vivado) ∷ [];
  queue_refresh = 15 * second;
  allocation_refresh = 20 * second;
}

new-started : new (some server) (vivado ∷ []) ≡ some started
unfolding new licenses_from License.insert format_license_type default_uint32
new-started = refl

abbrev request : InvocationMsg
request = record { licenses = vivado.spec ∷ []; owner = "alice"; build_tag = "nightly"; id = "" }

abbrev clock : Clock
clock = record { created = 100 * second; checkin = 100 * second; answered = 101 * second }

abbrev history : List Event
history = allocates request (some "id1") clock ∷ adopted ∷ ticks (110 * second) (110 * second) ∷ []

started-uses : (id : String) → uses id (new_license vivado) ≡ 0
unfolding new_license
started-uses id = refl

run-new-Books_example : ServiceBooks (length history + length history) (run started history)
run-new-Books_example =
    run-new-Books server (vivado ∷ []) started history new-started (omega arith, tt) (omega arith)
      (
        λ name l id e g.
            Every-lookup (λ v. (j : String) → uses j v ≡ 0) name started.licenses l
              (started-uses, tt) e id,
        (tt, (tt, tt)),
      )

vivado-Books : Books 0 (new_license vivado)
vivado-Books = new_license-Books vivado (omega arith)

allocate_known-IsTrue_example :
    let out = allocate_known started request clock "xilinx::vivado" (new_license vivado) "id1" in
    (after : License) × (lookup "xilinx::vivado" out.0.licenses ≡ some after)
    × IsTrue "id1" after out.1
unfolding lookup str_dec
allocate_known-IsTrue_example =
    allocate_known-IsTrue 0 started request clock "xilinx::vivado" (new_license vivado)
      (new_license vivado) "id1" (omega arith) refl vivado-Books

abbrev alice : Invocation
alice = record {
  id = "id1";
  owner = "alice";
  build_tag = "nightly";
  last_checkin = 7;
  queue_id = 0;
}

-- Bob asks for the license that Alice holds.
abbrev alice_holding : License
alice_holding = (License.allocate (new_license vivado) alice).0

abbrev bob : Invocation
bob = record alice { id = "id2"; owner = "bob"; last_checkin = 20 * second }

abbrev contended : License
contended = (License.enqueue alice_holding bob).0

bob-new : uses "id2" alice_holding ≡ 0
unfolding License.allocate License.insert new_license str_dec
bob-new = refl

contended-Books : Books 1 contended
contended-Books =
    enqueue-Books 0 alice_holding bob
      (allocate-Books 0 (new_license vivado) alice vivado-Books (started-uses "id1")) bob-new
      (omega arith)

abbrev busy : Service
busy = record started { licenses = ("xilinx::vivado", contended) ∷ [] }

-- Alice has not checked in for 20 seconds.
abbrev later : ℕ
later = 30 * second

janitor-IsBusy_example :
    Every IsBusy (janitor later later (record busy { current_state = running })).licenses
janitor-IsBusy_example =
    janitor-IsBusy 1 later later (record busy { current_state = running }) refl
      (contended-Books, tt)

-- The tick takes the license from Alice, and gives it to Bob.
bob_served :
    lookup "id2"
      (clean (later - busy.allocation_refresh) (later - busy.queue_refresh) contended).allocations
    ≡ some bob
unfolding lookup clean License.promote License.promote_loop License.promote_one
    License.expire_allocations License.expire_queued License.release_where License.is_expired
    License.expire_filter Queue.filter Queue.dequeue Queue.sort Queue.stable Queue.insert_all
    Queue.sift Queue.enqueue License.enqueue License.allocate License.insert new_license
    prioritizer_of on_enqueue on_allocate on_release sorter even_key update str_dec
bob_served = refl

id1-named : ◌≢◌ {A = String} "id1" ""
id1-named e = let same = (eq_iff "id1" "").1 e in cc

release-uses_example :
    ((release busy "id1").1
      ≡ (if all_uses "id1" busy.licenses == 0 then err failed_precondition else ok tt))
    × AllForgot "id1" busy.licenses (release busy "id1").0.licenses
release-uses_example = release-uses 1 busy "id1" id1-named (contended-Books, tt)

abbrev waiting : License
waiting = (License.enqueue (new_license vivado) alice).0

waiting-Books : Books 1 waiting
waiting-Books =
    enqueue-Books 0 (new_license vivado) alice vivado-Books (started-uses "id1") (omega arith)

promote-Books_example :
    let l' = License.promote waiting in
    Books 1 l'
    × (length l'.allocations + length l'.queue ≡ length waiting.allocations + length waiting.queue)
    × ((length l'.allocations ≡ l'.total_available) ⊎ (l'.queue ≡ []))
promote-Books_example = promote-Books 1 waiting waiting-Books

enqueue-get_queued_example :
    (x : Invocation) × (License.get_queued "id1" waiting
      ≡ some (x, (License.enqueue (new_license vivado) alice).1))
enqueue-get_queued_example =
    enqueue-get_queued 0 (new_license vivado) alice vivado-Books (started-uses "id1") (omega arith)

abbrev two : Queue
two = record alice { queue_id = 1 } ∷ record bob { queue_id = 2 } ∷ []

-- Alice holds one of two licenses, and asks for another one, before Bob does.
abbrev shared : License
shared = (License.allocate (new_license (record vivado { quantity = 2 })) alice).0

abbrev asked : Queue
asked = record alice { id = "id3" } ∷ bob ∷ []

abbrev alice_counted : EvenOwners
alice_counted = even_on_allocate new_even_owners alice

shared-Books : Books 0 shared
unfolding new_license
shared-Books =
    allocate-Books 0 (new_license (record vivado { quantity = 2 })) alice
      (new_license-Books (record vivado { quantity = 2 }) (omega arith)) refl

shared_policy : shared.prioritizer ≡ even_owners alice_counted
unfolding License.allocate on_allocate new_license prioritizer_of
shared_policy = refl

shared_queue : shared.queue ≡ []
unfolding License.allocate new_license
shared_queue = refl

promoted-least_example :
    (y : Invocation) × IsIn y asked
    × ((License.promote_one (enqueue_all shared asked)).allocations
        ≡ License.insert y.id (record y { queue_id = 0 }) shared.allocations)
    × AllFrom (share shared asked) (share shared asked y) asked
unfolding str_dec
promoted-least_example =
    promoted-least 0 alice_counted shared asked shared-Books shared_policy shared_queue
      (refl, (refl, tt)) (omega arith) (omega arith)

-- Bob's first request, with no license held, comes before Alice's.
bob_shares : share shared asked bob ≡ 1
unfolding License.allocate License.insert new_license str_dec
bob_shares = refl

alice_shares : share shared asked (record alice { id = "id3" }) ≡ 2
unfolding License.allocate License.insert new_license str_dec
alice_shares = refl

two-IsNumbered : IsNumbered two
two-IsNumbered = IsNumbered-intro 1 two (omega arith) (omega arith) (refl, (refl, tt))

abbrev by_checkin : Invocation → ℕ
by_checkin x = x.last_checkin

stable_lem_example :
    let q = Queue.stable (λ x y. ltb (by_checkin x) (by_checkin y)) two in
    IsSortedBy by_checkin q
    × ((n : ℕ) → class by_checkin n q ≡ class by_checkin n two)
    × (ids q ≡ ids two)
stable_lem_example = stable_lem by_checkin (λ x n. refl) two
