-- ===== src/Flextape/License/Expiry.antt =====
-- What ExpireAllocations, ExpireQueued and Forget of flextape/service/license.go leave behind.
use enkit.Common.{
  ℕ, ◌+◌, ◌≤◌, ◌≡◌, refl, ◌∙◌, inl, inr, String, Bool, Option, Option-cases, none, some, keep, true,
  false, [], ◌∷◌, map, ite, if_pos, if_neg, str_dec, dec_lt, arith,
}
use enkit.Flextape.Invocation.{Invocation}
use enkit.Flextape.Queue.{Queue, filter_from, forget_filter}
use enkit.Flextape.Queue
use enkit.Flextape.Queue.Sorting.{unqueued}
use enkit.Flextape.Queue.Totals.{total, has_id, forget-cases}
use enkit.Flextape.Prioritizer.{Prioritizer, on_release, on_dequeue}
use enkit.Flextape.License.{
  License, Allocations, release_where, is_expired, expire_allocations, expire_filter, expire_queued,
  forget,
}
use enkit.Flextape.License.Books.{held, IsKeyed, Books, uses}
use mathlib.Core.List.{filter}
use mathlib.Core.Path.{subst}

release_where-filter :
    (expiry : ℕ) (p : Prioritizer) (m : Allocations)
    → (release_where (λ k v. is_expired expiry v) p m).1
      ≡ filter (λ (e : String × Invocation). dec_lt expiry e.1.last_checkin) m
unfolding release_where is_expired
release_where-filter expiry p [] = refl
release_where-filter expiry p ((k, v) ∷ m) =
    ground (arith, release_where-filter expiry (on_release p v) m, release_where-filter expiry p m)

expire_from-filter :
    (expiry : ℕ) (p : Prioritizer) (pos count : ℕ) (q : Queue)
    → map unqueued (filter_from (expire_filter expiry) p pos count q).1
      ≡ map unqueued (filter (λ x. dec_lt expiry x.last_checkin) q)
unfolding filter_from expire_filter is_expired
expire_from-filter expiry p pos count [] = refl
expire_from-filter expiry p pos count (x ∷ q) = ground (
  arith,
  expire_from-filter expiry (on_dequeue p x) (pos + 1) (count + 1) q,
  expire_from-filter expiry p (pos + 1) count q,
)

-- Expiry keeps exactly the invocations that checked in after the given time, in their order.
expire-filter :
    (expiry : ℕ) (l : License)
    → ((expire_allocations expiry l).allocations
        ≡ filter (λ (e : String × Invocation). dec_lt expiry e.1.last_checkin) l.allocations)
      × (map unqueued (expire_queued expiry l).queue
          ≡ map unqueued (filter (λ x. dec_lt expiry x.last_checkin) l.queue))
unfolding expire_allocations expire_queued Queue.filter
expire-filter expiry l = (
  release_where-filter expiry l.prioritizer l.allocations,
  expire_from-filter expiry l.prioritizer 0 0 l.queue,
)

-- The loop of Forget over the allocations counts the id, drops it, and keeps the rest.
release_id :
    (id : String) (p : Prioritizer) (m : Allocations)
    → IsKeyed m
    → let out = release_where (λ k v. ite (str_dec k id) true false) p m in
      (out.2 ≡ held (has_id id) m)
      × ((j : String) → held (has_id j) out.1 ≡ ite (str_dec id j) 0 (held (has_id j) m))
unfolding release_where
release_id id p [] key = (refl, λ j. ground arith)
release_id id p ((k, v) ∷ m) key = elim (str_dec k id) [
  | yes q ↦
      let (count, rest) = release_id id (on_release p v) m key.1 in
      (ground (arith, key.0), λ j. ground (arith, key.0, rest j))
  | no q ↦
      let (count, rest) = release_id id p m key.1 in
      (ground (arith, key.0), λ j. ground (arith, key.0, rest j))
]

forget_queue :
    (id j : String) (q : Queue)
    → total (has_id id) q ≤ 1
    → total (has_id j) (Queue.forget id q).1 ≡ ite (str_dec id j) 0 (total (has_id j) q)
forget_queue id j q single = elim (forget-cases id (has_id j) (λ x k. refl) q single) [
  | inl (absent, nothing, same) ↦ elim (str_dec id j) [
    | yes p ↦ rw (if_pos _ p) (same ∙ subst (λ k. total (has_id k) q ≡ 0) p absent)
    | no p ↦ rw (if_neg _ p) same
  ]
  | inr (x, found, same, sum, one) ↦ elim (str_dec id j) [
    | yes p ↦
        let all_of : total (has_id j) q ≡ 1 = subst (λ k. total (has_id k) q ≡ 1) p one in
        rw (if_pos _ p) (ground arith)
    | no p ↦ rw (if_neg _ p) (ground arith)
  ]
]

-- Forget reports how often the id stood in the license; afterwards the id is gone, and every
-- other id stands there as before.
pub forget-uses :
    (id : String) (n : ℕ) (l : License)
    → Books n l
    → ((forget id l).1 ≡ uses id l)
      × ((j : String) → uses j (forget id l).0 ≡ ite (str_dec id j) 0 (uses j l))
unfolding forget
forget-uses id n l b =
    let (count, rest) = release_id id l.prioritizer l.allocations b.keyed in
    let single : total (has_id id) l.queue ≤ 1 = omega (arith, b.unique id) in
    elim (forget-cases id (λ x. 0) (λ x k. refl) l.queue single) [
      | inl (absent, nothing, same) ↦
          rw (nothing, forget)
            (omega arith, λ j. ground (arith, rest j, forget_queue id j l.queue single))
      | inr (x, found, same, sum, one) ↦
          rw (found, forget)
            (omega arith, λ j. ground (arith, rest j, forget_queue id j l.queue single))
    ]

-- The id is another one.
abbrev pub differs : String → String → Bool
differs id k = ite (str_dec k id) false true

-- The license without the id: the other allocations are the same, and so are the others that wait, but
-- for their QueueIDs, each in its order.
pub record Forgot (id : String) (l l' : License) : Type 0 where
  pub name : l'.name ≡ l.name
  pub total : l'.total_available ≡ l.total_available
  pub allocations :
      l'.allocations ≡ keep (λ (e : String × Invocation). differs id e.0) l.allocations
  pub queue : map unqueued l'.queue ≡ map unqueued (keep (λ x. differs id x.id) l.queue)

release_where-keep :
    (id : String) (p : Prioritizer) (m : Allocations)
    → (release_where (λ k v. ite (str_dec k id) true false) p m).1
      ≡ keep (λ (e : String × Invocation). differs id e.0) m
unfolding release_where
release_where-keep id p [] = refl
release_where-keep id p ((k, v) ∷ m) = elim (str_dec k id) [
  | yes q ↦ ground (arith, release_where-keep id (on_release p v) m)
  | no q ↦ ground (arith, release_where-keep id p m)
]

filter_from-keep :
    (id : String) (found : Option Invocation) (pos count : ℕ) (q : Queue)
    → map unqueued (filter_from (forget_filter id) found pos count q).1
      ≡ map unqueued (keep (λ x. differs id x.id) q)
unfolding filter_from forget_filter
filter_from-keep id found pos count [] = refl
filter_from-keep id found pos count (x ∷ q) = elim (str_dec x.id id) [
  | yes e ↦
      ground (arith, filter_from-keep id (some (record x { queue_id = 0 })) (pos + 1) (count + 1) q)
  | no e ↦ ground (arith, filter_from-keep id found (pos + 1) count q)
]

pub forget-Forgot : (id : String) (l : License) → Forgot id l (forget id l).0
unfolding forget Queue.forget Queue.filter
forget-Forgot id l =
    let kept = release_where-keep id l.prioritizer l.allocations in
    let waiting = filter_from-keep id none 0 0 l.queue in
    elim (Option-cases (Queue.forget id l.queue).0) [
      | inl e ↦
          rw (e, forget) record { name = refl; total = refl; allocations = kept; queue = waiting }
      | inr (x, e) ↦
          rw (e, forget) record { name = refl; total = refl; allocations = kept; queue = waiting }
    ]
