-- ===== src/Flextape/Queue/Span.antt =====
-- How far the QueueIDs of flextape/service/queue.go reach: only Enqueue takes a new one.
use enkit.Common.{
  ℕ, ◌+◌, ◌≤◌, ◌<◌, ◌≡◌, refl, String, Bool, Option, none, some, [], ◌∷◌, length, length-append,
  arith,
}
use enkit.Common.Words.{u32_mod, add64, to_u32}
use enkit.Flextape.Invocation.{Invocation}
use enkit.Flextape.Queue.{Queue, head_id, enqueue, dequeue, filter, forget_filter, forget, sort}
use enkit.Flextape.Queue.Numbering.{
  ids, IsNumbered, Numbered, filter_from-Numbered, length-filter_from,
}
use enkit.Flextape.Queue.Totals.{ids-sort, length-sort}

-- One more than the last QueueID.
abbrev pub end : Queue → ℕ
end q = head_id q + length q

pub head_id_of_ids : (q r : Queue) → ids r ≡ ids q → head_id r ≡ head_id q
unfolding head_id
head_id_of_ids [] [] e = refl
head_id_of_ids [] (y ∷ r) e = cc
head_id_of_ids (x ∷ q) [] e = cc
head_id_of_ids (x ∷ q) (y ∷ r) e = cc

pub end-sort : (p : Option (Invocation → Invocation → Bool)) (q : Queue) → end (sort p q) ≡ end q
end-sort p q = omega (arith, head_id_of_ids q (sort p q) (ids-sort p q), length-sort p q)

pub end-enqueue :
    (q : Queue) (x : Invocation) → length q < u32_mod → end (enqueue q x).0 ≡ end q + 1
unfolding enqueue head_id add64 to_u32
end-enqueue [] x h = omega arith
end-enqueue (y ∷ q) x h = omega (arith, length-append {0} q)

pub length-enqueue : (q : Queue) (x : Invocation) → length (enqueue q x).0 ≡ length q + 1
unfolding enqueue
length-enqueue q x = omega (arith, length-append {0} q)

pub end-dequeue :
    (q r : Queue) (x : Invocation)
    → IsNumbered q
    → dequeue q ≡ some (x, r)
    → (end r ≤ end q) × (length q ≡ length r + 1)
unfolding dequeue head_id
end-dequeue [] r x n e = cc
end-dequeue (y ∷ []) r x n e = ground arith
end-dequeue (y ∷ z ∷ q) r x n e = ground (arith, n.consecutive.1.0)

end-le : (k m : ℕ) (q : Queue) → 0 < k → Numbered k (ids q) → length q ≤ m → end q ≤ k + m
unfolding head_id
end-le k m [] p n h = omega arith
end-le k m (x ∷ q) p n h = omega arith

pub end-filter {ℓ} :
    {S : Type ℓ} (callback : S → ℕ → Invocation → S × Bool) (s : S) (q : Queue)
    → IsNumbered q
    → end (filter callback s q).1 ≤ end q
unfolding filter
end-filter callback s q n =
    end-le (head_id q) (length q) _ n.positive
      (filter_from-Numbered callback (head_id q) (head_id q) s 0 0 q (omega arith) n.fits
        n.consecutive)
      (length-filter_from callback s 0 0 q)

pub end-forget : (id : String) (q : Queue) → IsNumbered q → end (forget id q).1 ≤ end q
unfolding forget
end-forget id q n = end-filter (forget_filter id) none q n
