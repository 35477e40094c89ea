-- ===== src/Allocation/Matching/Next.antt =====
-- The next pointer after Promote.
use enkit.Common.{ℕ, suc, ◌≡◌, ◌∙◌, refl, ap, inl, inr, List, [], ◌∷◌, if◌then◌else◌, arith}
use enkit.Common.Words.{sub64}
use enkit.Config.Text.{Text, same}
use enkit.Allocation.Store.{Ref, Topology, State, set_host, set_cell}
use enkit.Allocation.Units.{unit_allocate, topology_allocate}
use enkit.Allocation.Queue.{forget_loop, forget}
use enkit.Allocation.Matching.{Topologies, allocate_matches, promote_one, promote_loop, promote}
use enkit.Allocation.Matching.Progress.{promote_one-cases}

pub unit_allocate-next : (n : Text) (r : Ref) (s : State) → (unit_allocate n r s).0.next ≡ s.next
unfolding unit_allocate set_host
unit_allocate-next n r s = ground arith

topology_allocate-next :
    (ns : List Text) (r : Ref) (s : State) → (topology_allocate ns r s).0.next ≡ s.next
unfolding topology_allocate
topology_allocate-next [] r s = refl
topology_allocate-next (n ∷ ns) r s =
    ground (arith, unit_allocate-next n r s, topology_allocate-next ns r ((unit_allocate n r s).0))

allocate_matches-next :
    (ms : List Topology) (r : Ref) (s : State) → (allocate_matches ms r s).next ≡ s.next
unfolding allocate_matches
allocate_matches-next [] r s = refl
allocate_matches-next (m ∷ ms) r s =
    allocate_matches-next ms r ((topology_allocate m.units r s).0)
    ∙ topology_allocate-next m.units r s

forget_loop-next :
    (id : Text) (rs : List Ref) (count : ℕ) (s : State)
    → (forget_loop id rs count s).1.next ≡ s.next
unfolding forget_loop set_cell
forget_loop-next id [] count s = refl
forget_loop-next id (r ∷ rs) count s =
    let found = same (s.cells r).id id in
    let number = if found then 0 else sub64 (s.cells r).queue_id count in
    forget_loop-next id rs (if found then suc count else count)
      (set_cell r (record (s.cells r) { queue_id = number }) s)

promote_one-next : (ts : Topologies) (r : Ref) (s : State) → (promote_one ts r s).next ≡ s.next
unfolding forget
promote_one-next ts r s = elim (promote_one-cases ts r s) [
  | inl (e, p) ↦ ap (λ (x : State). x.next) p
  | inr (m, ms, e, p) ↦
      ap (λ (x : State). x.next) p
      ∙ allocate_matches-next (m ∷ ms) r (forget (s.cells r).id s)
      ∙ forget_loop-next (s.cells r).id s.queue 0 s
]

promote_loop-next :
    (ts : Topologies) (rs : List Ref) (s : State) → (promote_loop ts rs s).next ≡ s.next
unfolding promote_loop
promote_loop-next ts [] s = refl
promote_loop-next ts (r ∷ rs) s =
    promote_loop-next ts rs (promote_one ts r s) ∙ promote_one-next ts r s

pub promote-next : (ts : Topologies) (s : State) → (promote ts s).next ≡ s.next
unfolding promote
promote-next ts s = promote_loop-next ts s.queue s
