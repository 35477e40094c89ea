-- ===== src/Flextape/Queue/Sorting.antt =====
-- Sort of flextape/service/queue.go: what sort.Stable promises, for a Sorter that compares keys.
use enkit.Common.{
  ℕ, ◌≤◌, ◌≡◌, ◌≢◌, refl, ap, sym, ◌∙◌, List, [], ◌∷◌, ◌++◌, map, arith, ltb, Bool, ℕ_discrete,
}
use enkit.Flextape.Invocation.{Invocation}
use enkit.Flextape.Queue.{Queue, sift, insert_all, stable}
use enkit.Flextape.Queue.Numbering.{ids}
use mathlib.Core.List.{reverse, reverse-cons, filter, append_assoc, append-nil, reverse-reverse}

-- An invocation as it is before it is queued. Sorting moves these, and leaves QueueIDs in place.
abbrev pub unqueued : Invocation → Invocation
unqueued x = record x { queue_id = 0 }

-- Keys rise along the queue.
abbrev pub AllFrom : (Invocation → ℕ) → ℕ → Queue → Type 0
AllFrom key n [] = Unit {0}
AllFrom key n (x ∷ q) = (n ≤ key x) × AllFrom key n q

abbrev pub IsSortedBy : (Invocation → ℕ) → Queue → Type 0
IsSortedBy key [] = Unit {0}
IsSortedBy key (x ∷ q) = AllFrom key (key x) q × IsSortedBy key q

-- The invocations with a given key, in their order.
abbrev pub class : (Invocation → ℕ) → ℕ → Queue → List Invocation
class key n q = map unqueued (filter (λ x. ℕ_discrete (key x) n) q)

-- Keys fall along a list that is kept last element first.
abbrev AllTo : (Invocation → ℕ) → ℕ → Queue → Type 0
AllTo key n [] = Unit {0}
AllTo key n (x ∷ q) = (key x ≤ n) × AllTo key n q

abbrev Falls : (Invocation → ℕ) → Queue → Type 0
Falls key [] = Unit {0}
Falls key (x ∷ q) = AllTo key (key x) q × Falls key q

ids-append : (xs ys : Queue) → ids (xs ++ ys) ≡ ids xs ++ ids ys
ids-append [] ys = refl
ids-append (x ∷ xs) ys = ap (◌∷◌ x.queue_id) (ids-append xs ys)

ids-reverse : (q : Queue) → ids (reverse q) ≡ reverse (ids q)
ids-reverse [] = refl
ids-reverse (x ∷ q) =
    ap ids (reverse-cons x q)
    ∙ ids-append (reverse q) (x ∷ [])
    ∙ ap (λ l. l ++ x.queue_id ∷ []) (ids-reverse q)
    ∙ sym (reverse-cons x.queue_id (ids q))

-- Any Sorter: the QueueIDs stay in their places.
module _ (less : Invocation → Invocation → Bool) where
  ids-sift : (x : Invocation) (front : Queue) → ids (sift less x front) ≡ x.queue_id ∷ ids front
  unfolding sift
  ids-sift x [] = refl
  ids-sift x (y ∷ front) = ground (arith, ids-sift (record x { queue_id = y.queue_id }) front)

  ids-insert_all : (front q : Queue) → ids (insert_all less front q) ≡ reverse (ids q) ++ ids front
  unfolding insert_all
  ids-insert_all front [] = refl
  ids-insert_all front (x ∷ q) =
      rw (ids-insert_all (sift less x front) q, ids-sift x front, reverse-cons, append_assoc)

  pub ids-stable : (q : Queue) → ids (stable less q) ≡ ids q
  unfolding stable
  ids-stable q =
      ids-reverse (insert_all less [] q)
      ∙ ap reverse (ids-insert_all [] q ∙ append-nil (reverse (ids q)))
      ∙ reverse-reverse (ids q)

-- A Sorter that compares by a key which the QueueID has no part in.
module _ (key : Invocation → ℕ)
    (keeps : (x : Invocation) (n : ℕ) → key (record x { queue_id = n }) ≡ key x) where
  abbrev by_key : Invocation → Invocation → Bool
  by_key x y = ltb (key x) (key y)

  AllTo-mono : (m n : ℕ) (q : Queue) → m ≤ n → AllTo key m q → AllTo key n q
  AllTo-mono m n [] h a = tt
  AllTo-mono m n (x ∷ q) h a = (omega arith, AllTo-mono m n q h a.1)

  sift-AllTo :
      (n : ℕ) (x : Invocation) (front : Queue)
      → key x ≤ n
      → AllTo key n front
      → AllTo key n (sift by_key x front)
  unfolding sift
  sift-AllTo n x [] h a = (h, tt)
  sift-AllTo n x (y ∷ front) h a = ground (
    arith,
    keeps y x.queue_id,
    keeps x y.queue_id,
    sift-AllTo n (record x { queue_id = y.queue_id }) front,
  )

  sift-Falls : (x : Invocation) (front : Queue) → Falls key front → Falls key (sift by_key x front)
  unfolding sift
  sift-Falls x [] f = (tt, tt)
  sift-Falls x (y ∷ front) f = ground (
    arith,
    keeps y x.queue_id,
    keeps x y.queue_id,
    sift-Falls (record x { queue_id = y.queue_id }) front,
    sift-AllTo (key y) (record x { queue_id = y.queue_id }) front,
    AllTo-mono (key y) (key x) front,
  )

  class-sift :
      (n : ℕ) (x : Invocation) (front : Queue)
      → class key n (sift by_key x front) ≡ class key n (x ∷ front)
  unfolding sift
  class-sift n x [] = refl
  class-sift n x (y ∷ front) = ground (
    arith,
    keeps y x.queue_id,
    keeps x y.queue_id,
    class-sift n (record x { queue_id = y.queue_id }) front,
  )

  insert_all-Falls : (front q : Queue) → Falls key front → Falls key (insert_all by_key front q)
  unfolding insert_all
  insert_all-Falls front [] f = f
  insert_all-Falls front (x ∷ q) f = insert_all-Falls (sift by_key x front) q (sift-Falls x front f)

  class-hit :
      (n : ℕ) (x : Invocation) (q : Queue)
      → key x ≡ n
      → class key n (x ∷ q) ≡ unqueued x ∷ class key n q
  class-hit n x q p = ground arith

  class-miss :
      (n : ℕ) (x : Invocation) (q : Queue) → key x ≢ n → class key n (x ∷ q) ≡ class key n q
  class-miss n x q p = ground arith

  class-insert_all :
      (n : ℕ) (front q : Queue)
      → class key n (insert_all by_key front q) ≡ reverse (class key n q) ++ class key n front
  unfolding insert_all
  class-insert_all n front [] = refl
  class-insert_all n front (x ∷ q) =
      class-insert_all n (sift by_key x front) q
      ∙ ap (◌++◌ (reverse (class key n q))) (class-sift n x front)
      ∙ elim (ℕ_discrete (key x) n) [
        | yes p ↦
            ap (◌++◌ (reverse (class key n q))) (class-hit n x front p)
            ∙ sym (append_assoc (reverse (class key n q)) (unqueued x ∷ []) (class key n front))
            ∙ ap (λ l. l ++ class key n front)
                (sym (reverse-cons (unqueued x) (class key n q))
                  ∙ ap reverse (sym (class-hit n x q p)))
        | no p ↦
            ap (◌++◌ (reverse (class key n q))) (class-miss n x front p)
            ∙ ap (λ l. reverse l ++ class key n front) (sym (class-miss n x q p))
      ]

  AllTo→sorted :
      (q : Queue) (y : Invocation) (n : ℕ)
      → n ≤ key y
      → AllFrom key n q
      → AllFrom key n (q ++ y ∷ [])
  AllTo→sorted [] y n h a = (h, tt)
  AllTo→sorted (x ∷ q) y n h a = (a.0, AllTo→sorted q y n h a.1)

  AllTo-append : (n : ℕ) (xs ys : Queue) → AllTo key n xs → AllTo key n ys → AllTo key n (xs ++ ys)
  AllTo-append n [] ys a b = b
  AllTo-append n (x ∷ xs) ys a b = (a.0, AllTo-append n xs ys a.1 b)

  AllTo-reverse : (n : ℕ) (q : Queue) → AllTo key n q → AllTo key n (reverse q)
  AllTo-reverse n [] a = tt
  AllTo-reverse n (x ∷ q) a =
      rw (reverse-cons x q) (AllTo-append n (reverse q) (x ∷ []) (AllTo-reverse n q a.1) (a.0, tt))

  IsSortedBy-append :
      (q : Queue) (y : Invocation)
      → IsSortedBy key q
      → AllTo key (key y) q
      → IsSortedBy key (q ++ y ∷ [])
  IsSortedBy-append [] y s a = (tt, tt)
  IsSortedBy-append (x ∷ q) y s a =
      (AllTo→sorted q y (key x) a.0 s.0, IsSortedBy-append q y s.1 a.1)

  reverse-IsSortedBy : (q : Queue) → Falls key q → IsSortedBy key (reverse q)
  reverse-IsSortedBy [] f = tt
  reverse-IsSortedBy (x ∷ q) f =
      rw (reverse-cons x q)
        (IsSortedBy-append (reverse q) x (reverse-IsSortedBy q f.1) (AllTo-reverse (key x) q f.0))

  class-append : (n : ℕ) (xs ys : Queue) → class key n (xs ++ ys) ≡ class key n xs ++ class key n ys
  class-append n [] ys = refl
  class-append n (x ∷ xs) ys = ground (arith, class-append n xs ys)

  class-reverse : (n : ℕ) (q : Queue) → class key n (reverse q) ≡ reverse (class key n q)
  class-reverse n [] = refl
  class-reverse n (x ∷ q) =
      ap (class key n) (reverse-cons x q)
      ∙ class-append n (reverse q) (x ∷ [])
      ∙ ap (λ l. l ++ class key n (x ∷ [])) (class-reverse n q)
      ∙ elim (ℕ_discrete (key x) n) [
        | yes p ↦
            ap (◌++◌ (reverse (class key n q))) (class-hit n x [] p)
            ∙ sym (reverse-cons (unqueued x) (class key n q))
            ∙ ap reverse (sym (class-hit n x q p))
        | no p ↦
            ap (◌++◌ (reverse (class key n q))) (class-miss n x [] p)
            ∙ append-nil (reverse (class key n q))
            ∙ ap reverse (sym (class-miss n x q p))
      ]

  -- Sort orders the queue by key, keeps the order of the invocations that have one key, loses or
  -- adds none, and leaves the sequence of QueueIDs as it was.
  pub stable_lem :
      (q : Queue)
      → IsSortedBy key (stable by_key q)
        × ((n : ℕ) → class key n (stable by_key q) ≡ class key n q)
        × (ids (stable by_key q) ≡ ids q)
  unfolding stable
  stable_lem q = (
    reverse-IsSortedBy _ (insert_all-Falls [] q tt),
    λ n.
        class-reverse n (insert_all by_key [] q)
        ∙ ap reverse (class-insert_all n [] q ∙ append-nil (reverse (class key n q)))
        ∙ reverse-reverse (class key n q),
    ids-stable by_key q,
  )
