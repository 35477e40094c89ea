-- ===== src/Flextape/Service.antt =====
-- The gRPC service of flextape/service/service.go. A handler holds the mutex from its first
-- statement to its last, so a call is one step on the state. Request metrics are not modelled.
pub mod Touch
pub mod Books
pub mod Calls
pub mod Runs
pub mod Cleaning
pub mod Answers
use enkit.Common.{
  ℕ, ◌+◌, ◌-◌, ◌*◌, String, Bool, true, false, Option, none, some, List, [], ◌∷◌, map, ite,
  if◌then◌else◌, ◌==◌, str_dec,
}
use enkit.Flextape.Invocation.{Invocation}
use enkit.Flextape.Queue.{Queue}
use enkit.Flextape.Prioritizer.{Prioritizer, fifo, even_owners, new_even_owners}
use enkit.Flextape.License.{License, Allocations}
use enkit.Flextape.License
use enkit.Flextape.Messages.{
  LicenseSpec, PrioritizerConfig, fifo_config, even_owners_config, unset, LicenseConfig,
  ServerConfig, InvocationMsg, Result, ok, err, invalid_argument, not_found, internal,
  failed_precondition, resource_exhausted, AllocateResponse, license_allocated, queued,
  RefreshResponse, Clock,
}
use Prim.Native.String.{◌++◌}

pub data ServerState : Type 0 where
  starting running : ServerState

pub record Service : Type 0 where
  pub current_state : ServerState
  pub licenses : List (String × License)
  pub queue_refresh : ℕ
  pub allocation_refresh : ℕ

-- formatLicenseType.
unfoldable pub format_license_type : LicenseSpec → String
format_license_type l = l.vendor ++ ("::" ++ l.feature)

unfoldable pub prioritizer_of : PrioritizerConfig → Prioritizer
prioritizer_of fifo_config = fifo
prioritizer_of even_owners_config = even_owners new_even_owners
prioritizer_of unset = fifo

unfoldable pub new_license : LicenseConfig → License
new_license c = record {
  name = format_license_type c.spec;
  total_available = c.quantity;
  allocations = [];
  queue = [];
  prioritizer = prioritizer_of c.policy;
}

-- The loop of licensesFromConfig: a later config of one name replaces an earlier one.
unfoldable pub licenses_from :
    List (String × License) → List LicenseConfig → List (String × License)
licenses_from m [] = m
licenses_from m (c ∷ cs) =
    licenses_from (License.insert (format_license_type c.spec) (new_license c) m) cs

-- defaultUint32.
unfoldable pub default_uint32 : ℕ → ℕ → ℕ
default_uint32 v d = if v == 0 then d else v

abbrev pub second : ℕ
second = 1000000000

-- New; `none` is a config with no `server` section. The two goroutines that it starts are the
-- events `ticks` and `adopted` below.
unfoldable pub new : Option ServerConfig → List LicenseConfig → Option Service
new none configs = none
new (some c) configs = some (record {
  current_state = starting;
  licenses = licenses_from [] configs;
  queue_refresh = default_uint32 c.queue_refresh_seconds 15 * second;
  allocation_refresh = default_uint32 c.allocation_refresh_seconds 30 * second;
})

-- m[k] = f(m[k]), for a key that is there: the update through the pointer `lic`.
unfoldable pub modify {ℓ} : {V : Type ℓ} → String → (V → V) → List (String × V) → List (String × V)
modify k f [] = []
modify k f ((j, v) ∷ m) = ite (str_dec j k) ((j, f v) ∷ m) ((j, v) ∷ modify k f m)

unfoldable pub set_license : Service → String → License → Service
set_license s name l = record s { licenses = modify name (λ _. l) s.licenses }

-- `inv.LastCheckin = now`, through the pointer that GetAllocated or GetQueued returned.
unfoldable pub touch_allocated : String → ℕ → License → License
unfolding modify
touch_allocated id now l = record l {
  allocations = modify id (λ v. record v { last_checkin = now }) l.allocations;
}

unfoldable pub touch_queue : String → ℕ → Queue → Queue
touch_queue id now [] = []
touch_queue id now (x ∷ q) =
    ite (str_dec x.id id) (record x { last_checkin = now } ∷ q) (x ∷ touch_queue id now q)

unfoldable pub touch_queued : String → ℕ → License → License
unfolding touch_queue
touch_queued id now l = record l { queue = touch_queue id now l.queue }

-- What janitor does to one license.
unfoldable pub clean : ℕ → ℕ → License → License
clean allocation_expiry queue_expiry l =
    License.promote
      (License.expire_queued queue_expiry (License.expire_allocations allocation_expiry l))

unfoldable pub map_licenses {ℓ} : {V : Type ℓ} → (V → V) → List (String × V) → List (String × V)
map_licenses f [] = []
map_licenses f ((k, v) ∷ m) = (k, f v) ∷ map_licenses f m

-- janitor, at the times that its two calls of timeNow return. It does nothing while starting.
unfoldable pub janitor : ℕ → ℕ → Service → Service
unfolding clean map_licenses
janitor now_allocations now_queue s = elim s.current_state [
  | starting ↦ s
  | running ↦ record s {
    licenses =
        map_licenses (clean (now_allocations - s.allocation_refresh) (now_queue - s.queue_refresh))
          s.licenses;
  }
]

-- `len(licenses) != 1`; `none` is the refusal.
unfoldable pub single : List LicenseSpec → Option LicenseSpec
single (l ∷ []) = some l
single _ = none

unfoldable pub new_invocation : String → InvocationMsg → ℕ → Invocation
new_invocation id msg now = record {
  id = id;
  owner = msg.owner;
  build_tag = msg.build_tag;
  last_checkin = now;
  queue_id = 0;
}

-- The rest of Allocate, once the id is known: `lic` is the license as it is by then.
unfoldable pub allocate_known :
    Service → InvocationMsg → Clock → String → License → String → Service × Result AllocateResponse
allocate_known s msg clock name lic id = elim (License.get_allocated id lic) [
  | some inv ↦ (
    set_license s name (touch_allocated id clock.checkin lic),
    ok (license_allocated id (clock.answered + s.allocation_refresh)),
  )
  | none ↦ elim (License.get_queued id lic) [
    | some (inv, pos) ↦ (
      set_license s name (touch_queued id clock.checkin lic),
      ok (queued id (clock.answered + s.queue_refresh) pos),
    )
    | none ↦ elim s.current_state [
      | running ↦ (set_license s name lic, err failed_precondition)
      | starting ↦
          let out = License.enqueue lic (new_invocation id msg clock.created) in
          (set_license s name out.0, ok (queued id (clock.answered + s.queue_refresh) out.1))
    ]
  ]
]

-- A first request: the new invocation is queued, and promoted if the service is running.
unfoldable pub admit : Service → InvocationMsg → Clock → License → String → License
unfolding new_invocation
admit s msg clock lic id =
    let lic' = (License.enqueue lic (new_invocation id msg clock.created)).0 in
    elim s.current_state [ running ↦ License.promote lic' | starting ↦ lic' ]

-- Allocate. `generated` is the answer of generateRandomID, `none` its error.
unfoldable pub allocate :
    Service → InvocationMsg → Option String → Clock → Service × Result AllocateResponse
unfolding single
allocate s msg generated clock = elim (single msg.licenses) [
  | none ↦ (s, err invalid_argument)
  | some spec ↦
      let name = format_license_type spec in
      elim (License.lookup name s.licenses) [
        | none ↦ (s, err not_found)
        | some lic ↦
            ite (str_dec msg.id "")
              (elim generated [
                | none ↦ (s, err internal)
                | some id ↦ allocate_known s msg clock name (admit s msg clock lic id) id
              ])
              (allocate_known s msg clock name lic msg.id)
      ]
]

-- The rest of Refresh, for an id that holds no license.
unfoldable pub adopt :
    Service → InvocationMsg → Clock → String → License → Service × Result RefreshResponse
adopt s msg clock name lic = elim s.current_state [
  | running ↦ (s, err failed_precondition)
  | starting ↦
      let out = License.allocate lic (new_invocation msg.id msg clock.created) in
      if out.1
      then (
        set_license s name out.0,
        ok (record {
          invocation_id = msg.id;
          refresh_deadline = clock.answered + s.allocation_refresh;
        }),
      )
      else (s, err resource_exhausted)
]

-- Refresh.
unfoldable pub refresh : Service → InvocationMsg → Clock → Service × Result RefreshResponse
unfolding single
refresh s msg clock = elim (single msg.licenses) [
  | none ↦ (s, err invalid_argument)
  | some spec ↦
      let name = format_license_type spec in
      elim (License.lookup name s.licenses) [
        | none ↦ (s, err not_found)
        | some lic ↦
            ite (str_dec msg.id "") (s, err invalid_argument)
              (elim (License.get_allocated msg.id lic) [
                | none ↦ adopt s msg clock name lic
                | some inv ↦ (
                  set_license s name (touch_allocated msg.id clock.checkin lic),
                  ok (record {
                    invocation_id = msg.id;
                    refresh_deadline = clock.answered + s.allocation_refresh;
                  }),
                )
              ])
      ]
]

-- The loop of Release over all licenses, and how often the id was found.
unfoldable pub forget_all : String → List (String × License) → List (String × License) × ℕ
forget_all id [] = ([], 0)
forget_all id ((k, l) ∷ m) =
    let out = License.forget id l in
    let rest = forget_all id m in ((k, out.0) ∷ rest.0, out.1 + rest.1)

-- Release.
unfoldable pub release : Service → String → Service × Result (Unit {0})
unfolding forget_all
release s id =
    ite (str_dec id "") (s, err invalid_argument)
      (let out = forget_all id s.licenses in
        let s' = record s { licenses = out.0 } in
        if out.1 == 0 then (s', err failed_precondition) else (s', ok tt))

-- The end of the adoption period.
unfoldable pub finish_adoption : Service → Service
finish_adoption s = record s { current_state = running }

-- One step of the server: a call, a tick of the janitor, or the end of the adoption period.
pub data Event : Type 0 where
  allocates : InvocationMsg → Option String → Clock → Event
  refreshes : InvocationMsg → Clock → Event
  releases : String → Event
  ticks : ℕ → ℕ → Event
  adopted : Event

unfoldable pub step : Service → Event → Service
step s (allocates msg generated clock) = (allocate s msg generated clock).0
step s (refreshes msg clock) = (refresh s msg clock).0
step s (releases id) = (release s id).0
step s (ticks now_allocations now_queue) = janitor now_allocations now_queue s
step s adopted = finish_adoption s

unfoldable pub run : Service → List Event → Service
run s [] = s
run s (e ∷ es) = run (step s e) es
