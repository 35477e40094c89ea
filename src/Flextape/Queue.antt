-- ===== src/Flextape/Queue.antt =====
-- The invocationQueue of flextape/service/queue.go.
pub mod Numbering
pub mod Sorting
pub mod Totals
pub mod Least
pub mod Span
use enkit.Common.{
  ℕ, ◌+◌, String, Bool, true, false, Option, none, some, List, [], ◌∷◌, ◌++◌, ite, if◌then◌else◌,
  ◌==◌, length, str_dec,
}
use enkit.Common.Words.{add64, sub64, to_u32}
use enkit.Flextape.Invocation.{Invocation}
use mathlib.Core.List.{reverse}

abbrev pub Queue : Type 0
Queue = List Invocation

-- The QueueID of the first element, or 1 in an empty queue.
unfoldable pub head_id : Queue → ℕ
head_id [] = 1
head_id (x ∷ q) = x.queue_id

-- Enqueue: the queue, and the Position that it returns (which counts from 0).
unfoldable pub enqueue : Queue → Invocation → Queue × ℕ
enqueue q x =
    let position : ℕ = to_u32 (length q) in
    (q ++ (record x { queue_id = add64 (head_id q) position } ∷ []), position)

-- Dequeue: `none` is the nil of an empty queue.
unfoldable pub dequeue : Queue → Option (Invocation × Queue)
dequeue [] = none
dequeue (x ∷ q) = some (record x { queue_id = 0 }, q)

-- Filter, whose callback has a state of its own. `pos` is the index of the range loop, and
-- `count` the number of elements removed so far, which the remaining QueueIDs are lowered by.
module _ {ℓ} {S : Type ℓ} (callback : S → ℕ → Invocation → S × Bool) where
  unfoldable pub filter_from : S → ℕ → ℕ → Queue → S × Queue × ℕ
  filter_from s pos count [] = (s, [], count)
  filter_from s pos count (x ∷ q) =
      let called = callback s (to_u32 (pos + 1)) x in
      let rest = filter_from called.0 (pos + 1) (if called.1 then count + 1 else count) q in
      if called.1
      then rest
      else (rest.0, record x { queue_id = sub64 x.queue_id count } ∷ rest.1, rest.2)

  unfoldable pub filter : S → Queue → S × Queue × ℕ
  unfolding filter_from
  filter s q = filter_from s 0 0 q

  -- Walk: where the walker answered false, or (nil, 0).
  unfoldable pub walk_from : S → ℕ → Queue → S × Option (Invocation × ℕ)
  walk_from s pos [] = (s, none)
  walk_from s pos (x ∷ q) =
      let called = callback s (to_u32 (pos + 1)) x in
      let rest = walk_from called.0 (pos + 1) q in
      if called.1 then rest else (called.0, some (x, to_u32 (pos + 1)))

  unfoldable pub walk : S → Queue → S × Option (Invocation × ℕ)
  unfolding walk_from
  walk s q = walk_from s 0 q

-- The callback of Forget, whose state is the variable `retinv`.
unfoldable pub forget_filter :
    String → Option Invocation → ℕ → Invocation → Option Invocation × Bool
forget_filter id found pos x =
    ite (str_dec x.id id) (some (record x { queue_id = 0 }), true) (found, false)

-- Forget: the queue, and the invocation removed.
unfoldable pub forget : String → Queue → Option Invocation × Queue
unfolding filter forget_filter
forget id q = let out = filter (forget_filter id) none q in (out.0, out.1)

-- The walker of Get stops at the id; it keeps no state.
unfoldable pub get_walker : String → Option Invocation → ℕ → Invocation → Option Invocation × Bool
get_walker id s pos x = (s, ite (str_dec x.id id) false true)

-- Get: the invocation with an id, and its Position, which counts from 1.
unfoldable pub get : String → Queue → Option (Invocation × ℕ)
unfolding walk get_walker
get id q = (walk (get_walker id) none q).1

-- Swap of two elements, in their order after it: the QueueIDs stay where they are.
unfoldable pub swap : Invocation → Invocation → Invocation × Invocation
swap x y = (record y { queue_id = x.queue_id }, record x { queue_id = y.queue_id })

-- Sort. Go's sort.Stable, read as the insertion sort that it runs on a block: an element moves
-- towards the front by Swap as long as it is less than its neighbour. `front` holds the sorted
-- elements, the last one first.
module _ (less : Invocation → Invocation → Bool) where
  unfoldable pub sift : Invocation → Queue → Queue
  unfolding swap
  sift x [] = x ∷ []
  sift x (y ∷ front) =
      let swapped = swap y x in
      let rest = sift swapped.0 front in if less x y then swapped.1 ∷ rest else x ∷ y ∷ front

  unfoldable pub insert_all : Queue → Queue → Queue
  insert_all front [] = front
  insert_all front (x ∷ q) = insert_all (sift x front) q

  unfoldable pub stable : Queue → Queue
  stable q = reverse (insert_all [] q)

-- Sort: a nil Sorter leaves the queue alone.
unfoldable pub sort : Option (Invocation → Invocation → Bool) → Queue → Queue
sort none q = q
sort (some less) q = stable less q

-- Position of an invocation that carries a QueueID, counted from 1.
unfoldable pub position : Queue → Invocation → ℕ
position [] x = 0
position (y ∷ q) x = if x.queue_id == 0 then 0 else to_u32 (sub64 (add64 1 x.queue_id) y.queue_id)
