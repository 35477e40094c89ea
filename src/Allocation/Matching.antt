-- ===== src/Allocation/Matching.antt =====
-- service.go, Matchmaker, and queue.go, Promote.
pub mod Progress
pub mod Settled
pub mod Whole
pub mod Origin
pub mod Next
use enkit.Common.{
  ℕ, Bool, true, false, not, ◌&&◌, ◌||◌, Option, none, some, List, [], ◌∷◌, if◌then◌else◌,
}
use enkit.Config.Text.{Text, same}
use enkit.Allocation.Store.{Ref, Invocation, Topology, TopologyRequest, State}
use enkit.Allocation.Units.{can_be_allocated, topology_allocate}
use enkit.Allocation.Queue.{forget}

-- The map of topologies, in the order of a loop over it.
abbrev pub Topologies : Type 0
Topologies = List (Text × Topology)

-- The loop of Matchmaker.
unfoldable pub match_loop : Topologies → Text → State → Bool → List Topology
unfolding can_be_allocated
match_loop [] name s all = []
match_loop ((key, t) ∷ ts) name s all =
    let rest = match_loop ts name s all in
    if not all && not (can_be_allocated t.units s)
    then rest
    else (if same key name then t ∷ rest else rest)

-- Matchmaker, which returns no error. A match is a topology that is known.
unfoldable pub matchmaker : Topologies → TopologyRequest → State → Bool → List Topology
unfolding match_loop
matchmaker ts request s all = if same request.name [] then [] else match_loop ts request.name s all

-- The loop over the matches. That an allocation fails is only logged.
unfoldable pub allocate_matches : List Topology → Ref → State → State
unfolding topology_allocate
allocate_matches [] r s = s
allocate_matches (t ∷ ts) r s = allocate_matches ts r (topology_allocate t.units r s).0

-- One round of Promote.
unfoldable pub promote_one : Topologies → Ref → State → State
unfolding matchmaker forget allocate_matches
promote_one ts r s = elim (matchmaker ts (s.cells r).topology_request s false) [
  | [] ↦ s
  | m ∷ ms ↦ allocate_matches (m ∷ ms) r (forget (s.cells r).id s)
]

-- Promote goes over the queue that it found: Forget makes a new one.
unfoldable pub promote_loop : Topologies → List Ref → State → State
unfolding promote_one
promote_loop ts [] s = s
promote_loop ts (r ∷ rs) s = promote_loop ts rs (promote_one ts r s)

unfoldable pub promote : Topologies → State → State
unfolding promote_loop
promote ts s = promote_loop ts s.queue s
