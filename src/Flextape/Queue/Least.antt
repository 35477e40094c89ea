-- ===== src/Flextape/Queue/Least.antt =====
-- The invocation that leaves a sorted queue of flextape/service/queue.go.
use enkit.Common.{
  ℕ, ◌≤◌, ◌≡◌, refl, sym, ap, ◌∙◌, inl, inr, none, some, [], ◌∷◌, length, arith, ltb, if◌then◌else◌,
  ◌==◌, ite, str_dec, ℕ_discrete,
}
use mathlib.Core.Path.{subst}
use native.Mathlib.Nat.{le_refl}
use enkit.Flextape.Invocation.{Invocation}
use enkit.Flextape.Queue.{Queue}
use enkit.Flextape.Queue
use enkit.Flextape.Queue.Sorting.{IsSortedBy, AllFrom, stable_lem}
use enkit.Flextape.Queue.Totals.{total, Blind, total-stable}
use enkit.Flextape.Prioritizer.Requests.{IsIn}

-- Nobody in a queue has a key below n.
unfoldable pub below : (Invocation → ℕ) → ℕ → Invocation → ℕ
below key n x = if ltb (key x) n then 1 else 0

pub below-none :
    (key : Invocation → ℕ) (n : ℕ) (q : Queue) → AllFrom key n q → total (below key n) q ≡ 0
unfolding below
below-none key n [] a = refl
below-none key n (x ∷ q) a = ground (arith, below-none key n q)

pub none-below :
    (key : Invocation → ℕ) (n : ℕ) (q : Queue) → total (below key n) q ≡ 0 → AllFrom key n q
unfolding below
none-below key n [] e = tt
none-below key n (x ∷ q) e = ground (arith, none-below key n q)

first-least :
    (key : Invocation → ℕ) (q rest : Queue) (x : Invocation)
    → Blind key
    → IsSortedBy key q
    → Queue.dequeue q ≡ some (x, rest)
    → AllFrom key (key x) q
unfolding Queue.dequeue
first-least key [] rest x blind s e = cc
first-least key (y ∷ q) rest x blind s e =
    let same : record y { queue_id = 0 } ≡ x = cc in
    let eq : key y ≡ key x = sym (blind y 0) ∙ ap key same in
    subst (λ n. AllFrom key n (y ∷ q)) eq (le_refl (key y), s.0)

below-Blind : (key : Invocation → ℕ) (n : ℕ) → Blind key → Blind (below key n)
unfolding below
below-Blind key n blind y m = ap (λ k. if ltb k n then 1 else 0) (blind y m)

-- The invocation that leaves the sorted queue first has the least key.
pub dequeue-least :
    (key : Invocation → ℕ) (q rest : Queue) (x : Invocation)
    → Blind key
    → Queue.dequeue (Queue.stable (λ a b. ltb (key a) (key b)) q) ≡ some (x, rest)
    → AllFrom key (key x) q
dequeue-least key q rest x blind e = none-below key (key x) q (
    sym (
      total-stable (λ a b. ltb (key a) (key b)) (below key (key x)) (below-Blind key (key x) blind)
        q)
    ∙ below-none key (key x) _ (first-least key _ rest x blind (stable_lem key blind q).0 e))

pub dequeue-unqueued :
    (q rest : Queue) (x : Invocation) → Queue.dequeue q ≡ some (x, rest) → x.queue_id ≡ 0
unfolding Queue.dequeue
dequeue-unqueued [] rest x e = cc
dequeue-unqueued (y ∷ q) rest x e =
    let same : record y { queue_id = 0 } ≡ x = cc in sym (ap (λ (v : Invocation). v.queue_id) same)

pub dequeue-none : (q : Queue) → Queue.dequeue q ≡ none → length q ≡ 0
unfolding Queue.dequeue
dequeue-none [] e = refl
dequeue-none (y ∷ q) e = cc

pub total-one : (q : Queue) → total (λ v. 1) q ≡ length q
total-one [] = refl
total-one (x ∷ q) = omega (arith, total-one q)

-- 1 for an invocation that differs from x at most in its QueueID.
unfoldable pub matches : Invocation → Invocation → ℕ
matches x v =
    ite (str_dec v.id x.id)
      (ite (str_dec v.owner x.owner)
        (ite (str_dec v.build_tag x.build_tag) (if v.last_checkin == x.last_checkin then 1 else 0)
          0)
        0)
      0

pub matches_self : (x : Invocation) → matches x x ≡ 1
unfolding matches
matches_self x = ground arith

matches-fields :
    (x v : Invocation)
    → 1 ≤ matches x v
    → (v.id ≡ x.id)
      × (v.owner ≡ x.owner)
      × (v.build_tag ≡ x.build_tag)
      × (v.last_checkin ≡ x.last_checkin)
unfolding matches
matches-fields x v h = ground arith

pub unqueued_eq :
    (x v : Invocation) → 1 ≤ matches x v → x.queue_id ≡ 0 → record v { queue_id = 0 } ≡ x
unqueued_eq x v h z = let (i, o, t, c) = matches-fields x v h in cc

pub total-IsIn :
    (w : Invocation → ℕ) (xs : Queue) → 1 ≤ total w xs → (y : Invocation) × IsIn y xs × (1 ≤ w y)
total-IsIn w [] h = absurd (omega arith)
total-IsIn w (x ∷ xs) h = elim (ℕ_discrete (w x) 0) [
  | yes e ↦ let (y, i, k) = total-IsIn w xs (omega arith) in (y, inr i, k)
  | no e ↦ (x, inl refl, omega arith)
]

pub AllFrom-congr :
    (key share : Invocation → ℕ) (n : ℕ) (xs : Queue)
    → ((v : Invocation) → IsIn v xs → key v ≡ share v)
    → AllFrom key n xs
    → AllFrom share n xs
AllFrom-congr key share n [] e a = tt
AllFrom-congr key share n (x ∷ xs) e a =
    (omega (arith, a.0, e x (inl refl)), AllFrom-congr key share n xs (λ v i. e v (inr i)) a.1)
