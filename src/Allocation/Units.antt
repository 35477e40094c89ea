-- ===== src/Allocation/Units.antt =====
-- unit.go: units and topologies. Metrics and logging are left out.
use enkit.Common.{ℕ, Bool, true, false, Option, none, some, List, [], ◌∷◌, if◌then◌else◌, ltb}
use enkit.Config.Text.{Text, same}
use enkit.Allocation.Store.{Ref, Host, State, set_host}

abbrev pub is_some {ℓ} : {A : Type ℓ} → Option A → Bool
is_some none = false
is_some (some a) = true

-- Unit.IsAllocated.
abbrev pub is_allocated : Host → Bool
is_allocated u = is_some u.invocation

-- Unit.GetInvocation.
unfoldable pub get_invocation : Text → State → Text → Option Ref
get_invocation n s id = elim ((s.hosts n).invocation) [
  | none ↦ none
  | some r ↦ if same (s.cells r).id id then some r else none
]

-- Unit.Allocate.
unfoldable pub unit_allocate : Text → Ref → State → State × Bool
unfolding get_invocation set_host
unit_allocate n r s =
    if is_some (get_invocation n s (s.cells r).id)
    then (s, false)
    else (set_host n (record (s.hosts n) { invocation = some r }) s, true)

-- Unit.ExpireAllocations.
unfoldable pub expire_allocations : ℕ → Text → State → State
unfolding set_host
expire_allocations expiry n s = elim ((s.hosts n).invocation) [
  | none ↦ s
  | some r ↦
      if ltb expiry (s.cells r).last_checkin
      then s
      else set_host n (record (s.hosts n) { invocation = none }) s
]

-- Unit.Forget: the state and the number of invocations removed.
unfoldable pub unit_forget : Text → Text → State → State × ℕ
unfolding get_invocation set_host
unit_forget id n s =
    if is_some (get_invocation n s id)
    then (set_host n (record (s.hosts n) { invocation = none }) s, 1)
    else (s, 0)

-- Topology.Allocate, for the units of the topology.
unfoldable pub topology_allocate : List Text → Ref → State → State × Bool
unfolding unit_allocate
topology_allocate [] r s = (s, true)
topology_allocate (n ∷ ns) r s =
    let out = unit_allocate n r s in
    let rest = topology_allocate ns r out.0 in if out.1 then rest else (out.0, false)

-- Topology.CanBeAllocated, for the units of the topology.
unfoldable pub can_be_allocated : List Text → State → Bool
can_be_allocated [] s = true
can_be_allocated (n ∷ ns) s =
    let rest = can_be_allocated ns s in if is_allocated (s.hosts n) then false else rest
