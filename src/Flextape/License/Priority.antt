-- ===== src/Flextape/License/Priority.antt =====
-- Whom Promote of flextape/service/license.go serves, and where Enqueue says that a request stands.
use enkit.Common.{
  ℕ, ◌+◌, ◌<◌, ◌≤◌, ◌≡◌, refl, sym, ap, ◌∙◌, inl, inr, some, Option-cases, [], length, arith,
}
use enkit.Common.Words.{u32_mod, u64_mod, add64, sub64}
use mathlib.Core.Path.{subst}
use enkit.Flextape.Invocation.{Invocation}
use enkit.Flextape.Queue.{Queue}
use enkit.Flextape.Queue
use enkit.Flextape.Queue.Numbering.{position-get}
use enkit.Flextape.Queue.Sorting.{AllFrom}
use enkit.Flextape.Queue.Totals.{
  total, has_id, Blind, total-sort, total-dequeue, length-sort, get-absent,
}
use enkit.Flextape.Queue.Least.{
  below, below-none, none-below, dequeue-least, dequeue-unqueued, dequeue-none, total-one, matches,
  matches_self, unqueued_eq, total-IsIn, AllFrom-congr,
}
use enkit.Flextape.Prioritizer.{EvenOwners, even_owners, even_key, sorter}
use enkit.Flextape.Prioritizer.Counts.{Counts, HasCounts, has_owner}
use enkit.Flextape.Prioritizer.Requests.{
  requested, place, AreApart, IsIn, place-le, requested-keeps, requested-position,
}
use enkit.Flextape.License.{License, insert, promote_one, deref, enqueue, get_queued}
use enkit.Flextape.License.Books.{Books, uses, held, held-owner-le}
use enkit.Flextape.License.Keeping.{enqueue-Books, queue_grows}
use enkit.Flextape.License.Requests.{enqueue_all, enqueue_all-total, enqueue_all-requested}

-- The licenses that the owner of an invocation holds, and its place among the owner's requests.
abbrev pub share : License → Queue → Invocation → ℕ
share l xs v = place v xs + held (has_owner v.owner) l.allocations

module _ (n : ℕ) (so : EvenOwners) (l : License) (xs : Queue) (books : Books n l)
    (policy : l.prioritizer ≡ even_owners so) (nobody : l.queue ≡ []) (apart : AreApart xs)
    (few : length xs + u32_mod < u64_mod) where
  even_key-share : (v : Invocation) → IsIn v xs → even_key (requested so xs) v ≡ share l xs v
  unfolding even_key add64 sub64
  even_key-share v i =
      let c : Counts so (λ o. total (has_owner o) l.queue) (λ o. held (has_owner o) l.allocations) =
        subst
          (λ p.
            HasCounts p (λ o. total (has_owner o) l.queue) (λ o. held (has_owner o) l.allocations))
          policy books.counted in
      let (allocated, dequeued) = requested-keeps so xs in
      let h : (requested so xs).allocated v.owner ≡ held (has_owner v.owner) l.allocations =
        ap (λ m. m v.owner) allocated ∙ c.allocated v.owner in
      let d : (requested so xs).dequeued v.owner ≡ so.dequeued v.owner =
        ap (λ m. m v.owner) dequeued in
      omega (
        arith,
        requested-position so v xs apart i,
        h,
        d,
        c.enqueued v.owner,
        c.dequeued_small v.owner,
        ap (total (has_owner v.owner)) nobody,
        place-le v xs,
        held-owner-le v.owner l.allocations,
        books.capacity,
        books.small,
      )

  -- Of an invocation that leaves the sorted queue after the requests.
  dequeued-least :
      (rest : Queue) (x : Invocation)
      → Queue.dequeue (Queue.sort (sorter (even_owners (requested so xs))) (enqueue_all l xs).queue)
        ≡ some (x, rest)
      → (y : Invocation) × IsIn y xs
        × (record y { queue_id = 0 } ≡ x)
        × AllFrom (share l xs) (share l xs y) xs
  unfolding matches below even_key sorter Queue.sort
  dequeued-least rest x e =
      let so' = requested so xs in
      let key = even_key so' in
      let sum : (w : Invocation → ℕ) → Blind w → total w (enqueue_all l xs).queue ≡ total w xs =
        λ w blind. omega (arith, enqueue_all-total l xs w blind, ap (total w) nobody) in
      let found : 1 ≤ total (matches x) xs = omega (
        arith,
        total-dequeue (matches x) _ rest x (λ v k. refl) e,
        total-sort (matches x) (λ v k. refl) (sorter (even_owners so')) (enqueue_all l xs).queue,
        sum (matches x) (λ v k. refl),
        matches_self x,
      ) in
      let (y, i, m) = total-IsIn (matches x) xs found in
      let same = unqueued_eq x y m (dequeue-unqueued _ rest x e) in
      let least : AllFrom key (key x) xs = none-below key (key x) xs (
        sym (sum (below key (key x)) (λ v k. refl))
        ∙ below-none key (key x) _ (dequeue-least (even_key so') _ rest x (λ v k. refl) e)) in
      let level : key x ≡ share l xs y = ap key (sym same) ∙ even_key-share y i in
      (
        y,
        i,
        same,
        AllFrom-congr key (share l xs) _ xs even_key-share
            (subst (λ k. AllFrom key k xs) level least),
      )

-- With EvenOwnersPrioritizer, requests of different ids (at least one, and fewer than 2^64 - 2^32) are
-- enqueued one after the other in a license whose books balance and in which nobody waits. A round of
-- the loop of Promote then allocates one of them, as it is but for its QueueID, for which the sum of
-- its place among its owner's requests and the number of licenses that the owner holds is the least.
pub promoted-least :
    (n : ℕ) (so : EvenOwners) (l : License) (xs : Queue)
    → Books n l
    → l.prioritizer ≡ even_owners so
    → l.queue ≡ []
    → AreApart xs
    → length xs + u32_mod < u64_mod
    → 0 < length xs
    → (y : Invocation) × IsIn y xs
      × ((promote_one (enqueue_all l xs)).allocations
          ≡ insert y.id (record y { queue_id = 0 }) l.allocations)
      × AllFrom (share l xs) (share l xs y) xs
unfolding promote_one
promoted-least n so l xs books policy nobody apart few some_request =
    let (p, held_on) = enqueue_all-requested so l xs policy in
    let out =
      Queue.dequeue
        (Queue.sort (sorter (even_owners (requested so xs))) (enqueue_all l xs).queue) in
    elim (Option-cases out) [
      | inl e ↦ absurd (
          omega (
            arith,
            dequeue-none _ e,
            length-sort (sorter (even_owners (requested so xs))) (enqueue_all l xs).queue,
            enqueue_all-total l xs (λ v. 1) (λ v k. refl),
            total-one (enqueue_all l xs).queue,
            total-one xs,
            some_request,
          ))
      | inr ((x, rest), e) ↦
          let (y, i, same, least) =
            dequeued-least n so l xs books policy nobody apart few rest x e in
          (
            y,
            i,
            rw (p, e, held_on, promote_one) (ap (λ v. insert v.id v l.allocations) (sym same)),
            least,
          )
    ]

deref-get :
    (q : Queue) (inv x : Invocation) (p : ℕ) → Queue.get inv.id q ≡ some (x, p) → deref q inv ≡ x
unfolding deref
deref-get q inv x p e = ground arith

-- Enqueue answers with the place, counted from 1, at which the new request then stands in the queue.
pub enqueue-get_queued :
    (n : ℕ) (l : License) (inv : Invocation)
    → Books n l
    → uses inv.id l ≡ 0
    → n + 2 < u32_mod
    → (x : Invocation) × (get_queued inv.id (enqueue l inv).0 ≡ some (x, (enqueue l inv).1))
unfolding enqueue get_queued
enqueue-get_queued n l inv b new room =
    let b' = enqueue-Books n l inv b new room in
    let q = (enqueue l inv).0.queue in
    elim (Option-cases (Queue.get inv.id q)) [
      | inl e ↦
          absurd
            (ground (arith, get-absent inv.id q e, queue_grows l inv (has_id inv.id) (λ x k. refl)))
      | inr ((x, p), e) ↦
          let short : length q < u32_mod = omega (arith, b'.short, b'.numbered.positive) in
          let place = (position-get q inv.id x p b'.numbered short e).0 in
          (
            x,
            e ∙ ap (λ k. some (x, k)) (sym (ap (Queue.position q) (deref-get q inv x p e) ∙ place)),
          )
    ]
