-- ===== src/Allocation/Store.antt =====
-- What the allocation manager keeps: units, and invocations that units and the queue share.
use enkit.Common.{ℕ, suc, Option, List, if◌then◌else◌, ◌==◌}
use enkit.Config.Text.{Text, same}

-- apb.TopologyRequest.
pub record TopologyRequest : Type 0 where
  pub name : Text
  pub hosts : List Text

pub record Invocation : Type 0 where
  pub id : Text
  pub owner : Text
  pub purpose : Text
  pub last_checkin : ℕ
  pub queue_id : ℕ
  pub topology_request : TopologyRequest

pub data Health : Type 0 where
  unknown broken ready other_health : Health

-- A pointer to an invocation.
abbrev pub Ref : Type 0
Ref = ℕ

-- Units come from the inventory only, so that the host is there.
pub record Host : Type 0 where
  pub health : Health
  pub invocation : Option Ref
  pub hostname : Text

pub record Topology : Type 0 where
  pub topology_name : Text
  -- pointers to units, as the names of these in the map
  pub units : List Text

-- The map of units: each name has one unit, and `names` is the order of a loop over the map.
pub record State : Type 0 where
  pub cells : Ref → Invocation
  pub next : Ref
  pub queue : List Ref
  pub names : List Text
  pub hosts : Text → Host

-- new(invocation).
unfoldable pub make : Invocation → State → State × Ref
make inv s =
    (record s { cells = λ r. if s.next == r then inv else s.cells r; next = suc s.next }, s.next)

unfoldable pub set_host : Text → Host → State → State
set_host n h s = record s { hosts = λ m. if same n m then h else s.hosts m }

unfoldable pub set_cell : Ref → Invocation → State → State
set_cell r inv s = record s { cells = λ q. if r == q then inv else s.cells q }

-- `inv.LastCheckin = now`
unfoldable pub check_in : Ref → ℕ → State → State
unfolding set_cell
check_in r now s = set_cell r (record (s.cells r) { last_checkin = now }) s
