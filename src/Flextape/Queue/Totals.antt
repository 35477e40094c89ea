-- ===== src/Flextape/Queue/Totals.antt =====
-- Sums over the queue of flextape/service/queue.go, which say what its methods add and remove.
use enkit.Common.{
  ℕ, ◌+◌, ◌≤◌, ◌<◌, ◌≡◌, refl, ap, sym, ◌∙◌, ◌⊎◌, inl, inr, String, Bool, Option, none, some, [],
  ◌∷◌, ◌++◌, length, ite, str_dec, arith, ℕ_discrete, length-map,
}
use enkit.Common.Words.{to_u32, sub64}
use enkit.Flextape.Invocation.{Invocation}
use enkit.Flextape.Queue.{
  Queue, head_id, dequeue, filter_from, filter, forget_filter, forget, sift, insert_all, stable,
  sort, walk_from, walk, get_walker, get,
}
use enkit.Flextape.Queue.Numbering.{ids, IsNumbered, IsNumbered-intro, Numbered}
use enkit.Flextape.Queue.Sorting.{ids-stable}
use mathlib.Core.List.{reverse, reverse-cons}
use mathlib.Core.Path.{subst}

abbrev pub total : (Invocation → ℕ) → Queue → ℕ
total w [] = 0
total w (x ∷ q) = w x + total w q

-- 1 for the invocation with an id, and 0 for any other.
abbrev pub has_id : String → Invocation → ℕ
has_id id x = ite (str_dec x.id id) 1 0

-- A weight that the QueueID has no part in.
abbrev pub Blind : (Invocation → ℕ) → Type 0
Blind w = (x : Invocation) (n : ℕ) → w (record x { queue_id = n }) ≡ w x

pub total-append :
    (w : Invocation → ℕ) (xs ys : Queue) → total w (xs ++ ys) ≡ total w xs + total w ys
total-append w [] ys = omega arith
total-append w (x ∷ xs) ys = omega (arith, total-append w xs ys)

total-reverse : (w : Invocation → ℕ) (q : Queue) → total w (reverse q) ≡ total w q
total-reverse w [] = refl
total-reverse w (x ∷ q) =
    ap (total w) (reverse-cons x q)
    ∙ omega (arith, total-append w (reverse q) (x ∷ []), total-reverse w q)

module _ (less : Invocation → Invocation → Bool) (w : Invocation → ℕ) (blind : Blind w) where
  total-sift : (x : Invocation) (front : Queue) → total w (sift less x front) ≡ w x + total w front
  unfolding sift
  total-sift x [] = omega arith
  total-sift x (y ∷ front) = ground (
    arith,
    blind y x.queue_id,
    blind x y.queue_id,
    total-sift (record x { queue_id = y.queue_id }) front,
  )

  total-insert_all :
      (front q : Queue) → total w (insert_all less front q) ≡ total w front + total w q
  unfolding insert_all
  total-insert_all front [] = omega arith
  total-insert_all front (x ∷ q) =
      omega (arith, total-insert_all (sift less x front) q, total-sift x front)

  pub total-stable : (q : Queue) → total w (stable less q) ≡ total w q
  unfolding stable
  total-stable q = total-reverse w (insert_all less [] q) ∙ omega (arith, total-insert_all [] q)

pub total-sort :
    (w : Invocation → ℕ)
    → Blind w
    → (p : Option (Invocation → Invocation → Bool)) (q : Queue) → total w (sort p q) ≡ total w q
unfolding sort
total-sort w blind none q = refl
total-sort w blind (some less) q = total-stable less w blind q

pub ids-sort : (p : Option (Invocation → Invocation → Bool)) (q : Queue) → ids (sort p q) ≡ ids q
unfolding sort
ids-sort none q = refl
ids-sort (some less) q = ids-stable less q

pub IsNumbered-ids : (q r : Queue) → ids r ≡ ids q → IsNumbered q → IsNumbered r
unfolding head_id
IsNumbered-ids [] [] e n = n
IsNumbered-ids [] (y ∷ r) e n = cc
IsNumbered-ids (x ∷ q) [] e n = cc
IsNumbered-ids (x ∷ q) (y ∷ r) e n =
    let hd : y.queue_id ≡ x.queue_id = cc in
    let len : length (ids (y ∷ r)) ≡ length (ids (x ∷ q)) = ap length e in
    IsNumbered-intro x.queue_id (y ∷ r) n.positive
      (omega (
        arith,
        n.fits,
        length-map (λ (v : Invocation). v.queue_id) r,
        length-map (λ (v : Invocation). v.queue_id) q,
      ))
      (subst (Numbered x.queue_id) (sym e) n.consecutive)

-- Sort keeps the queue numbered, whatever its Sorter answers.
pub sort-IsNumbered :
    (p : Option (Invocation → Invocation → Bool)) (q : Queue) → IsNumbered q → IsNumbered (sort p q)
sort-IsNumbered p q n = IsNumbered-ids q (sort p q) (ids-sort p q) n

pub length-sort :
    (p : Option (Invocation → Invocation → Bool)) (q : Queue) → length (sort p q) ≡ length q
length-sort p q = omega (
  arith,
  ap length (ids-sort p q),
  length-map (λ (v : Invocation). v.queue_id) (sort p q),
  length-map (λ (v : Invocation). v.queue_id) q,
)

module _ {ℓ} {S : Type ℓ} (callback : S → ℕ → Invocation → S × Bool) (w : Invocation → ℕ)
    (blind : Blind w) where
  -- Filter adds nothing.
  pub total-filter_from-le :
      (s : S) (pos count : ℕ) (q : Queue)
      → total w (filter_from callback s pos count q).1 ≤ total w q
  unfolding filter_from
  total-filter_from-le s pos count [] = omega arith
  total-filter_from-le s pos count (x ∷ q) =
      let called = callback s (to_u32 (pos + 1)) x in
      ground (
        arith,
        blind x (sub64 x.queue_id count),
        total-filter_from-le called.0 (pos + 1) (count + 1) q,
        total-filter_from-le called.0 (pos + 1) count q,
      )

module _ (id : String) (w : Invocation → ℕ) (blind : Blind w) where
  forget_absent :
      (found : Option Invocation) (pos count : ℕ) (q : Queue)
      → total (has_id id) q ≡ 0
      → let out = filter_from (forget_filter id) found pos count q in
        (out.0 ≡ found) × (total w out.1 ≡ total w q)
  unfolding filter_from forget_filter
  forget_absent found pos count [] e = (refl, refl)
  forget_absent found pos count (x ∷ q) e =
      ground (arith, blind x (sub64 x.queue_id count), forget_absent found (pos + 1) count q)

  forget_present :
      (found : Option Invocation) (pos count : ℕ) (q : Queue)
      → total (has_id id) q ≡ 1
      → let out = filter_from (forget_filter id) found pos count q in
        (x : Invocation) × (out.0 ≡ some x) × (x.id ≡ id) × (total w q ≡ w x + total w out.1)
  unfolding filter_from forget_filter
  forget_present found pos count [] e = absurd (omega arith)
  forget_present found pos count (x ∷ q) e = elim (str_dec x.id id) [
    | yes p ↦
        let (kept, sum) =
          forget_absent (some (record x { queue_id = 0 })) (pos + 1) (count + 1) q (ground arith) in
        (record x { queue_id = 0 }, ground arith, p, ground (arith, blind x 0))
    | no p ↦
        let (y, at, same, sum) = forget_present found (pos + 1) count q (ground arith) in
        (y, ground arith, same, ground (arith, blind x (sub64 x.queue_id count)))
  ]

-- What Forget does to a queue in which the id stands at most once.
module _ (id : String) (w : Invocation → ℕ) (blind : Blind w) (q : Queue)
    (single : total (has_id id) q ≤ 1) where
  pub forget-cases :
      ((total (has_id id) q ≡ 0) × ((forget id q).0 ≡ none) × (total w (forget id q).1 ≡ total w q))
      ⊎ ((x : Invocation) × ((forget id q).0 ≡ some x)
          × (x.id ≡ id)
          × (total w q ≡ w x + total w (forget id q).1)
          × (total (has_id id) q ≡ 1))
  unfolding forget filter
  forget-cases = elim (ℕ_discrete (total (has_id id) q) 0) [
    | yes e ↦ let (kept, sum) = forget_absent id w blind none 0 0 q e in inl (e, kept, sum)
    | no e ↦
        let one : total (has_id id) q ≡ 1 = omega arith in
        let (x, at, same, sum) = forget_present id w blind none 0 0 q one in
        inr (x, at, same, sum, one)
  ]

walk_from-absent :
    (id : String) (pos : ℕ) (q : Queue)
    → (walk_from (get_walker id) none pos q).1 ≡ none
    → total (has_id id) q ≡ 0
unfolding walk_from get_walker
walk_from-absent id pos [] e = refl
walk_from-absent id pos (x ∷ q) e = ground (arith, walk_from-absent id (pos + 1) q)

walk_from-present :
    (id : String) (pos : ℕ) (q : Queue) (x : Invocation) (p : ℕ)
    → (walk_from (get_walker id) none pos q).1 ≡ some (x, p)
    → (x.id ≡ id) × (0 < total (has_id id) q)
unfolding walk_from get_walker
walk_from-present id pos [] x p e = cc
walk_from-present id pos (y ∷ q) x p e = ground (arith, walk_from-present id (pos + 1) q x p)

-- Get finds an id exactly if it stands in the queue.
pub get-absent : (id : String) (q : Queue) → get id q ≡ none → total (has_id id) q ≡ 0
unfolding get walk
get-absent id q e = walk_from-absent id 0 q e

pub get-present :
    (id : String) (q : Queue) (x : Invocation) (p : ℕ)
    → get id q ≡ some (x, p)
    → (x.id ≡ id) × (0 < total (has_id id) q)
unfolding get walk
get-present id q x p e = walk_from-present id 0 q x p e

pub total-dequeue :
    (w : Invocation → ℕ) (q rest : Queue) (x : Invocation)
    → Blind w
    → dequeue q ≡ some (x, rest)
    → total w q ≡ total w rest + w x
unfolding dequeue
total-dequeue w [] rest x blind e = cc
total-dequeue w (y ∷ q) rest x blind e = ground (arith, blind y 0)

module _ (id : String) (q : Queue) (single : total (has_id id) q ≤ 1) where
  pub total-forget_absent :
      (w : Invocation → ℕ) → Blind w → (forget id q).0 ≡ none → total w (forget id q).1 ≡ total w q
  total-forget_absent w blind e = elim (forget-cases id w blind q single) [
    | inl (absent, nothing, same) ↦ same
    | inr (x, found, same, sum, one) ↦ cc
  ]

  pub total-forget_present :
      (w : Invocation → ℕ) (x : Invocation)
      → Blind w
      → (forget id q).0 ≡ some x
      → total w q ≡ w x + total w (forget id q).1
  total-forget_present w x blind e = elim (forget-cases id w blind q single) [
    | inl (absent, nothing, same) ↦ cc
    | inr (y, found, same, sum, one) ↦
        let eq : y ≡ x = cc in subst (λ v. total w q ≡ w v + total w (forget id q).1) eq sum
  ]
