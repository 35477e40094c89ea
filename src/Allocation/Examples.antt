-- ===== src/Allocation/Examples.antt =====
-- Runs of the allocation manager, and its theorems at concrete inputs.
use enkit.Common.{
  ◌≡◌, refl, true, false, ◌==◌, ◌⊎◌, none, some, List, [], ◌∷◌, if◌then◌else◌, ltb, arith,
}
use enkit.Common.Results.{ok, err}
use enkit.Common.Words.{to_u32}
use enkit.Config.Text.{Text, same}
use enkit.Allocation.Store.{TopologyRequest, Invocation, Host, unknown, Topology, State}
use enkit.Config.Names.{has_name}
use enkit.Allocation.Units.{is_some, get_invocation}
use enkit.Allocation.Queue.{get}
use enkit.Allocation.Matching.{Topologies, promote}
use enkit.Allocation.Matching.Progress.{has_ref}
use enkit.Allocation.Matching.Settled.{IsStuck}
use enkit.Allocation.Matching.Whole.{IsServed, promote-IsServed}
use enkit.Allocation.Service.{
  Service, InvocationMsg, Clock, failed_precondition, queued, find_unit, lookup_topology, new,
  answer, allocate, janitor, refresh, release,
}
use enkit.Allocation.Service.Sweep.{kept}
use enkit.Allocation.Service.Made.{IsMade}
use enkit.Allocation.Service.Janitor.{janitor-holder, janitor-IsStuck}
use enkit.Allocation.Service.Release.{is_other, release-kept}
use enkit.Allocation.Service.Renewal.{IsRefreshed}
use enkit.Allocation.Service.Refresh.{refresh-starting, refresh-janitor}
use enkit.Allocation.Service.Queueing.{answer-get}
use enkit.Allocation.Service.Runs.{Event, allocates, adoption_ends, ticks, run}

abbrev host_a : Text
host_a = b'a' ∷ []

abbrev host_b : Text
host_b = b'b' ∷ []

abbrev pair_name : Text
pair_name = b'p' ∷ []

abbrev pair : Topology
pair = record { topology_name = pair_name; units = host_a ∷ host_b ∷ [] }

abbrev topologies : Topologies
topologies = (pair_name, pair) ∷ []

abbrev starting : Service
starting = record {
  running = false;
  topologies = topologies;
  queue_refresh = 15;
  allocation_refresh = 30;
}

abbrev running : Service
running = record starting { running = true }

abbrev request : TopologyRequest
request = record { name = pair_name; hosts = [] }

abbrev id_i : Text
id_i = b'i' ∷ []

abbrev id_j : Text
id_j = b'j' ∷ []

abbrev invocation : Text → Invocation
invocation id = record {
  id = id;
  owner = [];
  purpose = [];
  last_checkin = 100;
  queue_id = 1;
  topology_request = request;
}

abbrev message : Text → InvocationMsg
message id = record { id = id; owner = []; purpose = []; request = request }

abbrev free_host : Text → Host
free_host n = record { health = unknown; invocation = none; hostname = n }

-- One invocation waits, and all hosts are free.
abbrev waiting : State
waiting = record {
  cells = λ r. invocation id_i;
  next = 1;
  queue = 0 ∷ [];
  names = host_a ∷ host_b ∷ [];
  hosts = free_host;
}

-- One invocation has all hosts.
abbrev holding : State
holding = record waiting { queue = []; hosts = λ n. record (free_host n) { invocation = some 0 } }

-- One invocation has all hosts, and another one waits.
abbrev contended : State
contended = record holding {
  cells = λ r. if r == 0 then invocation id_i else invocation id_j;
  next = 2;
  queue = 1 ∷ [];
}

waiting-IsMade : IsMade waiting
waiting-IsMade = record { hosts = λ n r h. cc; queue = λ r h. ground arith }

holding-IsMade : IsMade holding
holding-IsMade = record { hosts = λ n r h. (let k : 0 ≡ r = cc in ground arith); queue = λ r h. cc }

promote-IsServed_example : IsServed topologies (promote topologies waiting) 0
unfolding promote has_name same
promote-IsServed_example =
    promote-IsServed topologies waiting 0 ((refl, (refl, tt)), tt) (λ q m e. ground arith) refl refl

janitor-holder_example :
    (((contended.hosts host_a).invocation ≡ some 1)
      × (ltb 110 (contended.cells 1).last_checkin ≡ true))
    ⊎ (has_ref 1 contended.queue ≡ true)
unfolding janitor has_name same
janitor-holder_example = janitor-holder running 140 contended host_a 1 refl refl refl

janitor-IsStuck_example : IsStuck topologies (janitor running 120 contended) 1
unfolding janitor same
janitor-IsStuck_example = janitor-IsStuck running 120 contended 1 refl refl

release-kept_example :
    (release id_i contended).0.hosts host_b
    ≡ kept (is_other id_i contended.cells) (contended.hosts host_b)
unfolding has_name same
release-kept_example = release-kept id_i contended refl host_b refl

refresh-starting_example :
    ((refresh starting (message id_j) (some pair_name) (λ k. 120) 120 holding).1 ≡ ok (id_j, 150))
    × IsRefreshed id_j
        (λ k. 120)
        host_a
        (refresh starting (message id_j) (some pair_name) (λ k. 120) 120 holding).0
unfolding lookup_topology same has_name
refresh-starting_example =
    refresh-starting starting (message id_j) (λ k. 120) 120 pair_name pair holding host_a
      holding-IsMade refl refl refl refl

refresh-janitor_example :
    is_some (
      get_invocation host_a
        (janitor running 140
          (refresh running (message id_i) (some pair_name) (λ k. 120) 120 holding).0)
        id_i)
    ≡ true
unfolding refresh has_name same
refresh-janitor_example =
    refresh-janitor running (message id_i) (λ k. 120) 120 pair_name pair holding host_a (id_i, 150)
      140 holding-IsMade refl refl refl refl (λ k. refl)

abbrev clock : Clock
clock = record { created = 110; checkin = 111; answered = 112 }

answer-get_example :
    ((answer starting id_j (message id_j) clock waiting).1 ≡ ok (queued id_j 127 1))
    × (get id_j (answer starting id_j (message id_j) clock waiting).0 ≡ some (1, 2))
unfolding find_unit get to_u32 same
answer-get_example =
    answer-get starting id_j (message id_j) clock waiting waiting-IsMade refl refl refl

abbrev inventory : List (Text × Text)
inventory = (host_a, host_a) ∷ (host_b, host_b) ∷ []

abbrev config : List (Text × List Text)
config = (pair_name, host_a ∷ host_b ∷ []) ∷ []

abbrev events : List Event
events = allocates (some id_i) (message []) clock ∷ adoption_ends ∷ ticks 130 ∷ []

-- The tick gives the hosts to the one that waits.
served : (((run events (new 15 30 inventory config)).1.hosts host_b).invocation ≡ some 0)
unfolding run new same has_name
served = refl

-- A topology of unknown hosts is matched, but a request for it has no unit and no place in the queue.
hostless :
    (allocate
      (record running { topologies = (pair_name, record pair { units = [] }) ∷ [] })
      (some id_i)
      (message [])
      clock
      (record waiting { queue = [] })).1
    ≡ err failed_precondition
unfolding allocate same
hostless = refl
