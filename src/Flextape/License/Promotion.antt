-- ===== src/Flextape/License/Promotion.antt =====
-- Promote of flextape/service/license.go keeps the books, and leaves no license idle.
use enkit.Common.{
  ℕ, zero, suc, ◌+◌, ◌-◌, ◌≤◌, ◌<◌, ◌≡◌, refl, ap, sym, ◌∙◌, inl, inr, none, some, [], ◌∷◌, ◌⊎◌,
  List-cases, length, arith, Option-cases,
}
use mathlib.Core.Path.{subst}
use enkit.Flextape.Invocation.{Invocation}
use enkit.Flextape.Queue.{Queue, filter_from}
use enkit.Flextape.Queue
use enkit.Flextape.Queue.Numbering.{IsNumbered, dequeue-IsNumbered}
use enkit.Flextape.Queue.Totals.{
  total, has_id, Blind, total-sort, sort-IsNumbered, length-sort, total-dequeue,
}
use enkit.Flextape.Queue.Span.{end, end-sort, end-dequeue}
use enkit.Flextape.Prioritizer.{on_dequeue, sorter}
use enkit.Flextape.Prioritizer.Counts.{has_owner, on_dequeue-HasCounts}
use enkit.Flextape.License.{License, promote_one, promote_loop, promote}
use enkit.Flextape.License.Books.{uses, Books, total-owner-le, insert_new}
use enkit.Flextape.License.Keeping.{taken}

-- The entry that Promote takes out of the queue, which is a reordering of the license's.
dequeued-Books :
    (n : ℕ) (l : License) (q : Queue) (inv : Invocation) (rest : Queue)
    → Books n l
    → ((w : Invocation → ℕ) → Blind w → total w q ≡ total w l.queue)
    → IsNumbered q
    → end q ≡ end l.queue
    → Queue.dequeue q ≡ some (inv, rest)
    → Books n (record l { queue = rest; prioritizer = on_dequeue l.prioritizer inv })
      × (uses inv.id (record l { queue = rest; prioritizer = on_dequeue l.prioritizer inv }) ≡ 0)
dequeued-Books n l q inv rest b same numbered ends e = (
  record {
    keyed = b.keyed;
    unique = λ id. omega (arith, b.unique id, sum (has_id id) (λ x k. refl));
    numbered = dequeue-IsNumbered q rest inv numbered e;
    short = omega (arith, (end-dequeue q rest inv numbered e).0, b.short);
    capacity = b.capacity;
    small = b.small;
    counted =
        on_dequeue-HasCounts inv _ _ _ l.prioritizer (λ o. sum (has_owner o) (λ x k. refl))
          (λ o. omega (arith, total-owner-le o l.queue, b.numbered.fits, b.numbered.positive))
          b.counted;
  },
  ground (arith, b.unique inv.id, sum (has_id inv.id) (λ x k. refl)),
)
  where
    sum : (w : Invocation → ℕ) → Blind w → total w l.queue ≡ total w rest + w inv
    sum w blind = sym (same w blind) ∙ total-dequeue w q rest inv blind e

dequeue-none : (q : Queue) → Queue.dequeue q ≡ none → length q ≡ 0
unfolding Queue.dequeue
dequeue-none [] e = refl
dequeue-none (x ∷ q) e = cc

-- What one round of Promote does to the sizes.
abbrev Moves : License → License → Type 0
Moves l l' =
    (length l'.allocations ≡ length l.allocations + 1)
    × (length l.queue ≡ length l'.queue + 1)
    × (l'.total_available ≡ l.total_available)

promote_one-Books :
    (n : ℕ) (l : License)
    → Books n l
    → length l.allocations < l.total_available
    → 0 < length l.queue
    → Books n (promote_one l) × Moves l (promote_one l)
unfolding promote_one
promote_one-Books n l b free waiting =
    let q = Queue.sort (sorter l.prioritizer) l.queue in
    let numbered = sort-IsNumbered (sorter l.prioritizer) l.queue b.numbered in
    let len = length-sort (sorter l.prioritizer) l.queue in
    elim (Option-cases (Queue.dequeue q)) [
      | inl e ↦ absurd (omega (arith, dequeue-none q e))
      | inr ((inv, rest), e) ↦
          let (kept, new) =
            dequeued-Books n l q inv rest b
              (λ w blind. total-sort w blind (sorter l.prioritizer) l.queue) numbered
              (end-sort (sorter l.prioritizer) l.queue) e in
          let l1 = record l { queue = rest; prioritizer = on_dequeue l.prioritizer inv } in
          rw (e, promote_one)
            (
              taken n l1 inv kept new free,
              (
                (insert_new inv (λ x. 0) l.allocations b.keyed (omega arith)).1,
                omega (arith, len, (end-dequeue q rest inv numbered e).1),
                refl,
              ),
            )
    ]

promote_loop-empty : (k : ℕ) (l : License) → l.queue ≡ [] → promote_loop (suc k) l ≡ l
unfolding promote_loop
promote_loop-empty k l e = ground arith

promote_loop-next :
    (k : ℕ) (l : License) (x : Invocation) (q : Queue)
    → l.queue ≡ x ∷ q
    → promote_loop (suc k) l ≡ promote_loop k (promote_one l)
unfolding promote_loop
promote_loop-next k l x q e = ground arith

-- After k rounds: nobody is lost, and all rounds were used or nobody waits.
abbrev Promoted : ℕ → ℕ → License → License → Type 0
Promoted n k l l' =
    Books n l'
    × (length l'.allocations + length l'.queue ≡ length l.allocations + length l.queue)
    × ((length l'.allocations ≡ length l.allocations + k) ⊎ (l'.queue ≡ []))
    × (l'.total_available ≡ l.total_available)

promote_loop-Books :
    (k n : ℕ) (l : License)
    → Books n l
    → k + length l.allocations ≤ l.total_available
    → Promoted n k l (promote_loop k l)
unfolding promote_loop
promote_loop-Books zero n l b room = (b, refl, inl (omega arith), refl)
promote_loop-Books (suc k) n l b room = elim (List-cases l.queue) [
  | inl e ↦ subst (Promoted n (suc k) l) (sym (promote_loop-empty k l e)) (b, refl, inr e, refl)
  | inr (x, q, e) ↦
      let (b1, (more, fewer, same)) =
        promote_one-Books n l b (omega arith) (omega (arith, ap length e)) in
      let (b2, sum, done, still) = promote_loop-Books k n (promote_one l) b1 (omega arith) in
      subst (Promoted n (suc k) l) (sym (promote_loop-next k l x q e))
        (b2, omega arith, finish k l (promote_loop k (promote_one l)) more done, still ∙ same)
]
  where
    finish :
        (k : ℕ) (l l' : License) {m : ℕ}
        → m ≡ length l.allocations + 1
        → ((length l'.allocations ≡ m + k) ⊎ (l'.queue ≡ []))
        → (length l'.allocations ≡ length l.allocations + suc k) ⊎ (l'.queue ≡ [])
    finish k l l' e (inl h) = inl (omega arith)
    finish k l l' e (inr h) = inr h

-- Promote loses nobody, and leaves nobody waiting while a license is free.
pub promote-Books :
    (n : ℕ) (l : License)
    → Books n l
    → let l' = promote l in
      Books n l'
      × (length l'.allocations + length l'.queue ≡ length l.allocations + length l.queue)
      × ((length l'.allocations ≡ l'.total_available) ⊎ (l'.queue ≡ []))
unfolding promote
promote-Books n l b =
    let (b', sum, done, same) =
      promote_loop-Books (l.total_available - length l.allocations) n l b
        (omega (arith, b.capacity)) in
    (b', sum, full (promote l) done same)
  where
    full :
        (l' : License)
        → ((length l'.allocations
              ≡ length l.allocations + (l.total_available - length l.allocations))
            ⊎ (l'.queue ≡ []))
        → l'.total_available ≡ l.total_available
        → (length l'.allocations ≡ l'.total_available) ⊎ (l'.queue ≡ [])
    full l' (inl h) same = inl (omega (arith, b.capacity))
    full l' (inr h) same = inr h
