-- ===== src/Allocation/Service/Runs.antt =====
-- Runs of the service, from New on: calls, ticks of the janitor, and the end of the adoption of
-- invocations.
use enkit.Common.{arith, ℕ, ◌≡◌, refl, true, Option, none, List, [], ◌∷◌}
use enkit.Config.Text.{Text}
use enkit.Allocation.Store.{State}
use enkit.Allocation.Service.Made.{IsMade, allocate-IsMade, janitor-IsMade, release-IsMade}
use enkit.Allocation.Service.Refresh.{refresh-IsMade}
use enkit.Allocation.Service.{
  Service, InvocationMsg, Clock, units_from_inventory, new, janitor, allocate, refresh, release,
}

pub data Event : Type 0 where
  -- Allocate, with a new id, `none` if there is none
  allocates : Option Text → InvocationMsg → Clock → Event
  -- Refresh, with the name of the topology, the times of the loop, and the time of the answer
  refreshes : InvocationMsg → Option Text → (ℕ → ℕ) → ℕ → Event
  releases : Text → Event
  ticks : ℕ → Event
  adoption_ends : Event

unfoldable pub step : Event → Service × State → Service × State
unfolding allocate refresh release janitor
step (allocates fresh msg clock) (svc, s) = (svc, (allocate svc fresh msg clock s).0)
step (refreshes msg name now answered) (svc, s) = (svc, (refresh svc msg name now answered s).0)
step (releases id) (svc, s) = (svc, (release id s).0)
step (ticks now) (svc, s) = (svc, janitor svc now s)
step adoption_ends (svc, s) = (record svc { running = true }, s)

unfoldable pub run : List Event → Service × State → Service × State
unfolding step
run [] x = x
run (e ∷ es) x = run es (step e x)

step-IsMade : (e : Event) (x : Service × State) → IsMade x.1 → IsMade (step e x).1
unfolding step
step-IsMade (allocates fresh msg clock) (svc, s) made = allocate-IsMade svc fresh msg clock s made
step-IsMade (refreshes msg name now answered) (svc, s) made =
    refresh-IsMade svc msg now answered name s made
step-IsMade (releases id) (svc, s) made = release-IsMade id s made
step-IsMade (ticks now) (svc, s) made = janitor-IsMade svc now s made
step-IsMade adoption_ends (svc, s) made = made

run-IsMade : (es : List Event) (x : Service × State) → IsMade x.1 → IsMade (run es x).1
unfolding run
run-IsMade [] x made = made
run-IsMade (e ∷ es) x made = run-IsMade es (step e x) (step-IsMade e x made)

units-free :
    (inventory : List (Text × Text)) (n : Text)
    → ((units_from_inventory inventory).1 n).invocation ≡ none
unfolding units_from_inventory
units-free [] n = refl
units-free ((m, hostname) ∷ rest) n = ground (arith, units-free rest n)

-- After every run of the service that New makes, units and the queue have only invocations that were
-- made before, so that none is shared with the next one.
run-new-IsMade :
    (es : List Event) (queue_seconds allocation_seconds : ℕ) (inventory : List (Text × Text))
    (config : List (Text × List Text))
    → IsMade (run es (new queue_seconds allocation_seconds inventory config)).1
unfolding new
run-new-IsMade es queue_seconds allocation_seconds inventory config =
    run-IsMade es (new queue_seconds allocation_seconds inventory config)
      record { hosts = λ n r h. (let free = units-free inventory n in cc); queue = λ r h. cc }
