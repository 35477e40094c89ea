-- ===== src/Flextape/Queue/Numbering.antt =====
-- QueueIDs of flextape/service/queue.go: consecutive numbers, from which a Position is computed.
use enkit.Common.{
  ℕ, zero, suc, ◌+◌, ◌-◌, ◌≤◌, ◌<◌, ◌≡◌, ◌∙◌, refl, ap, String, none, some, List, [], ◌∷◌, ◌++◌,
  map, length, length-append, length-map, get_elem?, arith, Bool, Bool-cases, inl, inr,
}
use enkit.Common.Words.{
  u64_mod, u32_mod, add64, sub64, to_u32, add64_small, sub64_small, to_u32_small,
}
use enkit.Flextape.Invocation.{Invocation}
use enkit.Flextape.Queue.{
  Queue, head_id, enqueue, dequeue, filter_from, filter, forget_filter, forget, walk_from, walk,
  get_walker, get, position,
}

-- The QueueIDs are k, k + 1, k + 2 and so on.
abbrev pub Numbered : ℕ → List ℕ → Type 0
Numbered k [] = Unit {0}
Numbered k (i ∷ ids) = (i ≡ k) × Numbered (suc k) ids

abbrev pub ids : Queue → List ℕ
ids = map (λ x. x.queue_id)

-- What the queue's methods keep: consecutive QueueIDs, none of them 0 nor beyond a uint64.
pub record IsNumbered (q : Queue) : Type 0 where
  pub consecutive : Numbered (head_id q) (ids q)
  pub positive : 0 < head_id q
  pub fits : head_id q + length q ≤ u64_mod

Numbered-append :
    (k : ℕ) (is : List ℕ) (i : ℕ) → Numbered k is → i ≡ k + length is → Numbered k (is ++ i ∷ [])
Numbered-append k [] i n e = (omega arith, tt)
Numbered-append k (j ∷ is) i n e = (n.0, Numbered-append (suc k) is i n.1 (omega arith))

ids-append : (q : Queue) (x : Invocation) → ids (q ++ x ∷ []) ≡ ids q ++ x.queue_id ∷ []
ids-append [] x = refl
ids-append (y ∷ q) x = ap (◌∷◌ y.queue_id) (ids-append q x)

-- A queue is numbered as soon as its QueueIDs run from some k that is in range.
pub IsNumbered-intro :
    (k : ℕ) (q : Queue) → 0 < k → k + length q ≤ u64_mod → Numbered k (ids q) → IsNumbered q
unfolding head_id
IsNumbered-intro k [] p f n = record {
  consecutive = tt;
  positive = omega arith;
  fits = omega arith;
}
IsNumbered-intro k (x ∷ q) p f n = ground arith

append-IsNumbered :
    (q : Queue) (y : Invocation)
    → IsNumbered q
    → head_id q + length q < u64_mod
    → y.queue_id ≡ head_id q + length q
    → IsNumbered (q ++ y ∷ [])
append-IsNumbered q y n room e =
    IsNumbered-intro (head_id q) (q ++ y ∷ []) n.positive (omega (arith, length-append q (y ∷ [])))
      (rw (ids-append q y) (
        Numbered-append (head_id q) (ids q) y.queue_id n.consecutive
          (omega (arith, length-map (λ (x : Invocation). x.queue_id) q))))

-- Enqueue numbers the new last element by its place.
pub enqueue-IsNumbered :
    (q : Queue) (x : Invocation)
    → IsNumbered q
    → length q < u32_mod
    → head_id q + length q < u64_mod
    → IsNumbered (enqueue q x).0
unfolding enqueue
enqueue-IsNumbered q x n short room =
    append-IsNumbered q _ n room
      (rw (to_u32_small (length q) short) (add64_small (head_id q) (length q) room))

pub dequeue-IsNumbered :
    (q r : Queue) (x : Invocation) → IsNumbered q → dequeue q ≡ some (x, r) → IsNumbered r
unfolding dequeue head_id
dequeue-IsNumbered [] r x n e = cc
dequeue-IsNumbered (y ∷ q) r x n e =
    let e' : q ≡ r = cc in
    rw (← e') (IsNumbered-intro (suc y.queue_id) q (omega arith) (omega arith) n.consecutive.1)

module _ {ℓ} {S : Type ℓ} (callback : S → ℕ → Invocation → S × Bool) where
  pub length-filter_from :
      (s : S) (pos count : ℕ) (q : Queue) → length (filter_from callback s pos count q).1 ≤ length q
  unfolding filter_from
  length-filter_from s pos count [] = omega arith
  length-filter_from s pos count (x ∷ q) =
      let called = callback s (to_u32 (pos + 1)) x in
      ground (
        arith,
        length-filter_from called.0 (pos + 1) (count + 1) q,
        length-filter_from called.0 (pos + 1) count q,
      )

  pub filter_from-Numbered :
      (k m : ℕ) (s : S) (pos count : ℕ) (q : Queue)
      → m ≡ k + count
      → m + length q ≤ u64_mod
      → Numbered m (ids q)
      → Numbered k (ids (filter_from callback s pos count q).1)
  unfolding filter_from
  filter_from-Numbered k m s pos count [] e f n = tt
  filter_from-Numbered k m s pos count (x ∷ q) e f n =
      let called = callback s (to_u32 (pos + 1)) x in
      elim (Bool-cases called.1) [
        | inl dropped ↦
            rw (dropped, filter_from)
              (filter_from-Numbered k (suc m) called.0 (pos + 1) (count + 1) q (omega arith)
                (omega arith) n.1)
        | inr kept ↦
            rw (kept, filter_from)
              (
                omega (arith, sub64_small x.queue_id count),
                filter_from-Numbered (suc k) (suc m) called.0 (pos + 1) count q (omega arith)
                    (omega arith) n.1,
              )
      ]

  -- Filter closes the gaps that it makes, whatever its callback answers.
  pub filter-IsNumbered : (s : S) (q : Queue) → IsNumbered q → IsNumbered (filter callback s q).1
  unfolding filter
  filter-IsNumbered s q n =
      IsNumbered-intro (head_id q) _ n.positive (omega (arith, n.fits, length-filter_from s 0 0 q))
        (filter_from-Numbered (head_id q) (head_id q) s 0 0 q (omega arith) n.fits n.consecutive)

  -- The element that a walk stops at, and the place that it reports.
  walk_from-at :
      (s : S) (pos : ℕ) (q : Queue) (x : Invocation) (p : ℕ)
      → pos + length q < u32_mod
      → (walk_from callback s pos q).1 ≡ some (x, p)
      → (i : ℕ) × (get_elem? q i ≡ some x) × (p ≡ pos + i + 1)
  unfolding walk_from
  walk_from-at s pos [] x p short e = cc
  walk_from-at s pos (y ∷ q) x p short e =
      let called = callback s (to_u32 (pos + 1)) y in
      elim (Bool-cases called.1) [
        | inl on ↦
            let (i, at, place) =
              walk_from-at called.0 (pos + 1) q x p (omega arith) (ground arith) in
            (suc i, at, omega arith)
        | inr off ↦ (0, ground arith, ground (arith, to_u32_small (pos + 1)))
      ]

pub forget-IsNumbered : (id : String) (q : Queue) → IsNumbered q → IsNumbered (forget id q).1
unfolding forget
forget-IsNumbered id q n = filter-IsNumbered (forget_filter id) none q n

Numbered-at :
    (k : ℕ) (q : Queue) (i : ℕ) (x : Invocation)
    → Numbered k (ids q)
    → get_elem? q i ≡ some x
    → (x.queue_id ≡ k + i) × (i < length q)
Numbered-at k [] i x n e = cc
Numbered-at k (y ∷ q) zero x n e = let same : y ≡ x = cc in (rw (← same) (omega arith), omega arith)
Numbered-at k (y ∷ q) (suc i) x n e =
    let (place, inside) = Numbered-at (suc k) q i x n.1 e in (omega arith, omega arith)

-- Position: of the element at index i, the number i + 1, read off the two QueueIDs.
pub position-at :
    (q : Queue) (i : ℕ) (x : Invocation)
    → IsNumbered q
    → length q < u32_mod
    → get_elem? q i ≡ some x
    → position q x ≡ i + 1
unfolding position head_id sub64 add64 to_u32
position-at [] i x n short e = cc
position-at (y ∷ q) i x n short e =
    let (place, inside) = Numbered-at y.queue_id (y ∷ q) i x n.consecutive e in
    let start : 0 < y.queue_id = n.positive in
    let end : y.queue_id + length (y ∷ q) ≤ u64_mod = n.fits in ground arith

-- Get and Position agree: both give the place of the element in the queue.
pub position-get :
    (q : Queue) (id : String) (x : Invocation) (p : ℕ)
    → IsNumbered q
    → length q < u32_mod
    → get id q ≡ some (x, p)
    → (position q x ≡ p) × (get_elem? q (p - 1) ≡ some x)
unfolding get walk
position-get q id x p n short e =
    let (i, at, place) = walk_from-at (get_walker id) none 0 q x p (omega arith) e in
    let same : p - 1 ≡ i = omega arith in (position-at q i x n short at ∙ omega arith, rw same at)
