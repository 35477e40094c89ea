-- ===== src/Flextape/License.antt =====
-- The license of flextape/service/license.go: the allocations and the queue of one license type.
-- The Prometheus gauges and counters, which are only written, are not modelled.
pub mod Books
pub mod Keeping
pub mod Promotion
pub mod Expiry
pub mod Requests
pub mod Priority
use enkit.Common.{
  ℕ, zero, suc, ◌+◌, ◌-◌, String, Bool, true, false, Option, none, some, List, [], ◌∷◌, ite,
  if◌then◌else◌, leb, ltb, length, str_dec,
}
use enkit.Flextape.Invocation.{Invocation}
use enkit.Flextape.Queue.{Queue}
use enkit.Flextape.Queue
use enkit.Flextape.Prioritizer.{
  Prioritizer, on_enqueue, on_dequeue, on_allocate, on_release, sorter,
}

-- map[string]*invocation.
abbrev pub Allocations : Type 0
Allocations = List (String × Invocation)

unfoldable pub lookup {ℓ} : {V : Type ℓ} → String → List (String × V) → Option V
lookup k [] = none
lookup k ((j, v) ∷ m) = ite (str_dec j k) (some v) (lookup k m)

-- m[k] = v.
unfoldable pub insert {ℓ} : {V : Type ℓ} → String → V → List (String × V) → List (String × V)
insert k v [] = (k, v) ∷ []
insert k v ((j, w) ∷ m) = ite (str_dec j k) ((k, v) ∷ m) ((j, w) ∷ insert k v m)

pub record License : Type 0 where
  pub name : String
  pub total_available : ℕ
  pub allocations : Allocations
  pub queue : Queue
  pub prioritizer : Prioritizer

-- What a pointer to an invocation that was put into the queue shows.
unfoldable pub deref : Queue → Invocation → Invocation
deref q inv = elim (Queue.get inv.id q) [ none ↦ inv | some (x, pos) ↦ x ]

-- Enqueue: the license, and the position of the invocation in the sorted queue.
unfoldable pub enqueue : License → Invocation → License × ℕ
enqueue l inv =
    let queued = (Queue.enqueue l.queue inv).0 in
    let prioritizer' = on_enqueue l.prioritizer inv in
    let queue' = Queue.sort (sorter prioritizer') queued in
    (
      record l { queue = queue'; prioritizer = prioritizer' },
      Queue.position queue' (deref queue' inv),
    )

-- Allocate: whether a license was free.
unfoldable pub allocate : License → Invocation → License × Bool
allocate l inv = if leb l.total_available (length l.allocations) then (l, false) else (
  record l {
    prioritizer = on_allocate l.prioritizer inv;
    allocations = insert inv.id inv l.allocations;
  },
  true,
)

-- The body of the loop of Promote. A nil invocation, of an empty queue, does not occur there.
unfoldable pub promote_one : License → License
promote_one l = elim (Queue.dequeue (Queue.sort (sorter l.prioritizer) l.queue)) [
  | none ↦ l
  | some (inv, rest) ↦ record l {
    queue = rest;
    prioritizer = on_allocate (on_dequeue l.prioritizer inv) inv;
    allocations = insert inv.id inv l.allocations;
  }
]

-- The loop of Promote, with the number of rounds left.
unfoldable pub promote_loop : ℕ → License → License
promote_loop zero l = l
promote_loop (suc n) l = elim l.queue [ [] ↦ l | _ ∷ _ ↦ promote_loop n (promote_one l) ]

-- Promote. A negative number of free licenses gives no rounds, as 0 does.
unfoldable pub promote : License → License
promote l = promote_loop (l.total_available - length l.allocations) l

-- GetAllocated; `none` is nil.
unfoldable pub get_allocated : String → License → Option Invocation
get_allocated id l = lookup id l.allocations

-- The range loops of ExpireAllocations and of Forget: entries for which `drop` holds are
-- released, and the others are copied to the new map.
unfoldable pub release_where :
    (String → Invocation → Bool) → Prioritizer → Allocations → Prioritizer × Allocations × ℕ
release_where drop p [] = (p, [], 0)
release_where drop p ((k, v) ∷ m) =
    let rest = release_where drop (if drop k v then on_release p v else p) m in
    if drop k v then (rest.0, rest.1, rest.2 + 1) else (rest.0, (k, v) ∷ rest.1, rest.2)

-- `!v.LastCheckin.After(expiry)`
unfoldable pub is_expired : ℕ → Invocation → Bool
is_expired expiry v = leb v.last_checkin expiry

-- ExpireAllocations.
unfoldable pub expire_allocations : ℕ → License → License
expire_allocations expiry l =
    let out = release_where (λ k v. is_expired expiry v) l.prioritizer l.allocations in
    record l { prioritizer = out.0; allocations = out.1 }

-- The callback of ExpireQueued, whose state is the prioritizer.
unfoldable pub expire_filter : ℕ → Prioritizer → ℕ → Invocation → Prioritizer × Bool
expire_filter expiry p pos inv =
    if is_expired expiry inv then (on_dequeue p inv, true) else (p, false)

-- ExpireQueued.
unfoldable pub expire_queued : ℕ → License → License
unfolding expire_filter
expire_queued expiry l =
    let out = Queue.filter (expire_filter expiry) l.prioritizer l.queue in
    record l { prioritizer = out.0; queue = out.1 }

-- GetQueued; `none` is nil.
unfoldable pub get_queued : String → License → Option (Invocation × ℕ)
get_queued id l = Queue.get id l.queue

-- Forget: the license, and how often the id was found.
unfoldable pub forget : String → License → License × ℕ
forget id l =
    let out = release_where (λ k v. ite (str_dec k id) true false) l.prioritizer l.allocations in
    let dropped = Queue.forget id l.queue in
    elim dropped.0 [
      | none ↦ (record l { prioritizer = out.0; allocations = out.1; queue = dropped.1 }, out.2)
      | some inv ↦ (
        record l { prioritizer = on_dequeue out.0 inv; allocations = out.1; queue = dropped.1 },
        out.2 + 1,
      )
    ]
