-- ===== src/Allocation/Service.antt =====
-- service.go: the handlers, which hold the lock of the service throughout, and the janitor. Metrics
-- and logging are left out.
pub mod Sweep
pub mod Janitor
pub mod Release
pub mod Rounds
pub mod Renewal
pub mod Refresh
pub mod Made
pub mod Queueing
pub mod Runs
use enkit.Common.{
  ℕ, suc, ◌+◌, ◌-◌, ◌*◌, Bool, true, false, ◌&&◌, ◌||◌, not, Option, none, some, List, [], ◌∷◌,
  ◌++◌, length, if◌then◌else◌, ◌==◌,
}
use enkit.Common.Results.{Result, ok, err}
use enkit.Common.Words.{to_u32}
use enkit.Config.Text.{Text, same}
use enkit.Allocation.Store.{
  Ref, TopologyRequest, Invocation, Host, unknown, Topology, State, make, check_in,
}
use enkit.Config.Names.{has_name}
use enkit.Allocation.Units.{get_invocation, unit_allocate, expire_allocations, unit_forget}
use enkit.Allocation.Queue.{enqueue, get}
use enkit.Allocation.Matching.{Topologies, matchmaker, promote}

pub data Code : Type 0 where
  invalid_argument internal not_found failed_precondition resource_exhausted : Code
  -- Go panics at a nil pointer.
  nil_pointer : Code

pub record Service : Type 0 where
  pub running : Bool
  pub topologies : Topologies
  pub queue_refresh : ℕ
  pub allocation_refresh : ℕ

-- apb.Invocation.
pub record InvocationMsg : Type 0 where
  pub id : Text
  pub owner : Text
  pub purpose : Text
  pub request : TopologyRequest

-- What timeNow returns where a new request is made, where it checks in, and where it is answered.
pub record Clock : Type 0 where
  pub created : ℕ
  pub checkin : ℕ
  pub answered : ℕ

pub data AllocateResponse : Type 0 where
  -- id, topology name, hosts and refresh deadline
  allocated : Text → Text → List Text → ℕ → AllocateResponse
  -- id, next poll time and queue position
  queued : Text → ℕ → ℕ → AllocateResponse

abbrev pub Answer : Type 0
Answer = State × Result Code AllocateResponse

-- UnitsFromInventory, from the names and the hosts of a map, whose names are different: the error
-- for a duplicate never happens.
unfoldable pub units_from_inventory : List (Text × Text) → List Text × (Text → Host)
units_from_inventory [] = ([], λ n. record { health = unknown; invocation = none; hostname = [] })
units_from_inventory ((n, hostname) ∷ rest) =
    let out = units_from_inventory rest in
    (
      n ∷ out.0,
      λ m.
          if same n m
          then record { health = unknown; invocation = none; hostname = hostname }
          else out.1 m,
    )

-- A name without a unit is logged and left out.
unfoldable pub known_hosts : List Text → List Text → List Text
unfolding has_name
known_hosts names [] = []
known_hosts names (h ∷ hs) =
    let rest = known_hosts names hs in if has_name h names then h ∷ rest else rest

-- TopologiesFromConfigAndUnits.
unfoldable pub topologies_from_config : List Text → List (Text × List Text) → List Topology
unfolding known_hosts
topologies_from_config names [] = []
topologies_from_config names ((name, hosts) ∷ rest) =
    record { topology_name = name; units = known_hosts names hosts }
    ∷ topologies_from_config names rest

unfoldable pub put_topology : Topology → Topologies → Topologies
put_topology t [] = (t.topology_name, t) ∷ []
put_topology t ((n, u) ∷ ts) =
    let rest = put_topology t ts in if same n t.topology_name then (n, t) ∷ ts else (n, u) ∷ rest

-- The map of topologies that New makes: a later one of the same name replaces an earlier one.
unfoldable pub topology_map : List Topology → Topologies → Topologies
unfolding put_topology
topology_map [] ts = ts
topology_map (t ∷ rest) ts = topology_map rest (put_topology t ts)

abbrev pub second : ℕ
second = 1000000000

unfoldable pub default_uint32 : ℕ → ℕ → ℕ
default_uint32 v d = if v == 0 then d else v

-- New, for a configuration with a server section: the refresh durations of that section, the names and hosts of
-- the inventory, and the topologies. The queue is global, and empty before the first service.
unfoldable pub new : ℕ → ℕ → List (Text × Text) → List (Text × List Text) → Service × State
unfolding units_from_inventory topologies_from_config topology_map default_uint32
new queue_seconds allocation_seconds inventory config =
    let units = units_from_inventory inventory in
    (
      record {
        running = false;
        topologies = topology_map (topologies_from_config units.0 config) [];
        queue_refresh = default_uint32 queue_seconds 15 * second;
        allocation_refresh = default_uint32 allocation_seconds 30 * second;
      },
      record {
        cells = λ r. record {
          id = [];
          owner = [];
          purpose = [];
          last_checkin = 0;
          queue_id = 0;
          topology_request = record { name = []; hosts = [] };
        };
        next = 0;
        queue = [];
        names = units.0;
        hosts = units.1;
      },
    )

-- The loop over the units of the janitor.
unfoldable pub expire_loop : ℕ → List Text → State → State
unfolding expire_allocations
expire_loop expiry [] s = s
expire_loop expiry (n ∷ ns) s = expire_loop expiry ns (expire_allocations expiry n s)

-- janitor. `-` stops at 0, the start of time.
unfoldable pub janitor : Service → ℕ → State → State
unfolding expire_loop promote
janitor svc now s =
    if svc.running
    then promote svc.topologies (expire_loop (now - svc.allocation_refresh) s.names s)
    else s

abbrev pub invocation_of : Text → InvocationMsg → ℕ → Invocation
invocation_of id msg now = record {
  id = id;
  owner = msg.owner;
  purpose = msg.purpose;
  last_checkin = now;
  queue_id = 0;
  topology_request = msg.request;
}

-- The loop over the units of Allocate: it ends at the first unit that has the invocation.
unfoldable pub find_unit : Text → List Text → State → Option (Ref × Text)
unfolding get_invocation
find_unit id [] s = none
find_unit id (n ∷ ns) s =
    let rest = find_unit id ns s in
    elim (get_invocation n s id) [ none ↦ rest | some r ↦ some (r, (s.hosts n).hostname) ]

-- The end of Allocate, for an invocation that has no unit and is not queued.
unfoldable pub requeue : Service → Text → InvocationMsg → Clock → State → Answer
unfolding make enqueue
requeue svc id msg clock s =
    if svc.running
    then (s, err failed_precondition)
    else (let made = make (invocation_of id msg clock.created) s in
        let out = enqueue made.1 made.0 in
        (out.0, ok (queued id (clock.answered + svc.queue_refresh) (to_u32 out.1))))

-- Allocate, from the update of LastCheckin on.
unfoldable pub answer : Service → Text → InvocationMsg → Clock → State → Answer
unfolding find_unit check_in requeue get
answer svc id msg clock s = elim (find_unit id s.names s) [
  | some (r, hostname) ↦ (
    check_in r clock.checkin s,
    ok (allocated id msg.request.name (hostname ∷ []) (clock.answered + svc.allocation_refresh)),
  )
  | none ↦ elim (get id s) [
    | some (r, pos) ↦ (
      check_in r clock.checkin s,
      ok (queued id (clock.answered + svc.queue_refresh) (to_u32 pos)),
    )
    | none ↦ requeue svc id msg clock s
  ]
]

-- A request without an id: it is queued under a new one, `none` if there is none.
unfoldable pub admit : Service → Option Text → InvocationMsg → Clock → State → Answer
unfolding matchmaker make enqueue promote answer
admit svc fresh msg clock s = elim (matchmaker svc.topologies msg.request s true) [
  | [] ↦ (s, err invalid_argument)
  | m ∷ ms ↦ elim fresh [
    | none ↦ (s, err internal)
    | some id ↦
        (let made = make (invocation_of id msg clock.created) s in
          let s' = (enqueue made.1 made.0).0 in
          answer svc id msg clock (if svc.running then promote svc.topologies s' else s'))
  ]
]

-- Allocate.
unfoldable pub allocate : Service → Option Text → InvocationMsg → Clock → State → Answer
unfolding admit answer
allocate svc fresh msg clock s =
    if same msg.request.name [] && (length msg.request.hosts == 0)
    then (s, err invalid_argument)
    else (if same msg.id [] then admit svc fresh msg clock s else answer svc msg.id msg clock s)

-- The loop of Refresh over the units of the topology. `now` is what timeNow returns, by the number of
-- units that are left.
unfoldable pub refresh_loop :
    Service → InvocationMsg → (ℕ → ℕ) → List Text → State → State × Result Code (Unit {0})
unfolding get_invocation unit_allocate make check_in
refresh_loop svc msg now [] s = (s, ok tt)
refresh_loop svc msg now (n ∷ ns) s = elim (get_invocation n s msg.id) [
  | some r ↦ refresh_loop svc msg now ns (check_in r (now (length ns)) s)
  | none ↦ elim svc.running [
    | true ↦ (s, err failed_precondition)
    | false ↦
        (let made = make (invocation_of msg.id msg 0) s in
          let out = unit_allocate n made.1 made.0 in
          elim out.1 [
            | false ↦ (out.0, err resource_exhausted)
            | true ↦ refresh_loop svc msg now ns (check_in made.1 (now (length ns)) out.0)
          ])
  ]
]

unfoldable pub lookup_topology : Text → Topologies → Option Topology
lookup_topology name [] = none
lookup_topology name ((key, t) ∷ ts) =
    let rest = lookup_topology name ts in if same key name then some t else rest

-- Refresh, with the name of the allocated topology, `none` if the request has no topology: the id and the deadline.
unfoldable pub refresh :
    Service → InvocationMsg → Option Text → (ℕ → ℕ) → ℕ → State → State × Result Code (Text × ℕ)
unfolding refresh_loop lookup_topology
refresh svc msg topology now answered s =
    elim (lookup_topology (elim topology as (λ x. Text) [ none ↦ [] | some name ↦ name ])
      svc.topologies) [
        | none ↦ (s, err (elim topology [ none ↦ nil_pointer | some name ↦ not_found ]))
        | some t ↦ elim (same msg.id []) [
          | true ↦ (s, err invalid_argument)
          | false ↦
              (let out = refresh_loop svc msg now t.units s in
                elim out.1 [
                  | err e ↦ (out.0, err e)
                  | ok done ↦ (out.0, ok (msg.id, answered + svc.allocation_refresh))
                ])
        ]
      ]

-- The loop of Release.
unfoldable pub release_loop : Text → List Text → State → State × ℕ
unfolding unit_forget
release_loop id [] s = (s, 0)
release_loop id (n ∷ ns) s =
    let out = unit_forget id n s in let rest = release_loop id ns out.0 in (rest.0, out.1 + rest.1)

-- Release.
unfoldable pub release : Text → State → State × Result Code (Unit {0})
unfolding release_loop
release id s =
    if same id []
    then (s, err invalid_argument)
    else (let out = release_loop id s.names s in
        (out.0, (if out.1 == 0 then err failed_precondition else ok tt)))
