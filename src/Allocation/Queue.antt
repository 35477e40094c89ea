-- ===== src/Allocation/Queue.antt =====
-- queue.go: the queue of all requests, as far as the service uses it.
use enkit.Common.{ℕ, suc, Option, none, some, List, [], ◌∷◌, ◌++◌, length, if◌then◌else◌}
use enkit.Common.Words.{add64, sub64}
use enkit.Config.Text.{Text, same}
use enkit.Allocation.Store.{Ref, State, set_cell}

-- `offset`
abbrev pub first_id : List Ref → State → ℕ
first_id [] s = 1
first_id (q ∷ qs) s = (s.cells q).queue_id

-- Enqueue: the state and the returned position.
unfoldable pub enqueue : Ref → State → State × ℕ
unfolding set_cell add64
enqueue r s =
    let position = length s.queue in
    let s' = set_cell r (record (s.cells r) { queue_id = add64 (first_id s.queue s) position }) s in
    (record s' { queue = s.queue ++ r ∷ [] }, position)

-- The loop of Filter with the callback of Forget, after `count` entries were removed: the new queue, and
-- the state with the new numbers.
unfoldable pub forget_loop : Text → List Ref → ℕ → State → List Ref × State
unfolding set_cell sub64
forget_loop id [] count s = ([], s)
forget_loop id (r ∷ rs) count s =
    let found = same (s.cells r).id id in
    let number = if found then 0 else sub64 (s.cells r).queue_id count in
    let s' = set_cell r (record (s.cells r) { queue_id = number }) s in
    let rest = forget_loop id rs (if found then suc count else count) s' in
    ((if found then rest.0 else r ∷ rest.0), rest.1)

-- Forget. The caller does not use what it returns.
unfoldable pub forget : Text → State → State
unfolding forget_loop
forget id s = let out = forget_loop id s.queue 0 s in record out.1 { queue = out.0 }

-- Walk, as Get uses it, from position `pos` on.
unfoldable pub get_loop : Text → List Ref → ℕ → State → Option (Ref × ℕ)
get_loop id [] pos s = none
get_loop id (r ∷ rs) pos s =
    let rest = get_loop id rs (suc pos) s in if same (s.cells r).id id then some (r, pos) else rest

-- Get.
unfoldable pub get : Text → State → Option (Ref × ℕ)
unfolding get_loop
get id s = get_loop id s.queue 1 s
