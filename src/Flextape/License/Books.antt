-- ===== src/Flextape/License/Books.antt =====
-- The books of a license (flextape/service/license.go): what holds between any two of its methods.
use enkit.Common.{
  ℕ, ◌+◌, ◌≤◌, ◌<◌, ◌≡◌, refl, String, Bool, Bool-cases, inl, inr, none, some, [], ◌∷◌, length,
  str_dec, arith,
}
use enkit.Common.Words.{u32_mod}
use enkit.Flextape.Invocation.{Invocation}
use enkit.Flextape.Queue.{Queue}
use enkit.Flextape.Queue.Numbering.{IsNumbered}
use enkit.Flextape.Queue.Totals.{total, has_id}
use enkit.Flextape.Queue.Span.{end}
use enkit.Flextape.Prioritizer.{Prioritizer, on_release}
use enkit.Flextape.Prioritizer.Counts.{has_owner, HasCounts, on_release-HasCounts, HasCounts-congr}
use enkit.Flextape.License.{License, Allocations, lookup, insert, release_where}

-- A sum over the invocations that hold a license.
abbrev pub held : (Invocation → ℕ) → Allocations → ℕ
held w [] = 0
held w ((k, v) ∷ m) = w v + held w m

-- Allocations stand under the ids of their invocations.
abbrev pub IsKeyed : Allocations → Type 0
IsKeyed [] = Unit {0}
IsKeyed ((k, v) ∷ m) = (v.id ≡ k) × IsKeyed m

-- How often an id stands in the license, queued or allocated.
abbrev pub uses : String → License → ℕ
uses id l = total (has_id id) l.queue + held (has_id id) l.allocations

-- `n` bounds the number of requests that were ever queued.
pub record Books (n : ℕ) (l : License) : Type 0 where
  pub keyed : IsKeyed l.allocations
  pub unique : (id : String) → uses id l ≤ 1
  pub numbered : IsNumbered l.queue
  pub short : end l.queue ≤ n + 1
  pub capacity : length l.allocations ≤ l.total_available
  pub small : l.total_available < u32_mod
  pub counted :
      HasCounts l.prioritizer
        (λ o. total (has_owner o) l.queue)
        (λ o. held (has_owner o) l.allocations)

pub total-owner-le : (o : String) (q : Queue) → total (has_owner o) q ≤ length q
total-owner-le o [] = omega arith
total-owner-le o (x ∷ q) = ground (arith, total-owner-le o q)

pub held-owner-le : (o : String) (m : Allocations) → held (has_owner o) m ≤ length m
held-owner-le o [] = omega arith
held-owner-le o ((k, v) ∷ m) = ground (arith, held-owner-le o m)

-- A key that no allocation has.
pub lookup-absent :
    (id : String) (m : Allocations) → IsKeyed m → lookup id m ≡ none → held (has_id id) m ≡ 0
unfolding lookup
lookup-absent id [] key e = refl
lookup-absent id ((k, v) ∷ m) key e = ground (arith, key.0, lookup-absent id m key.1)

pub lookup-present :
    (id : String) (m : Allocations) (x : Invocation)
    → IsKeyed m
    → lookup id m ≡ some x
    → (x.id ≡ id) × (0 < held (has_id id) m)
unfolding lookup
lookup-present id [] x key e = cc
lookup-present id ((k, v) ∷ m) x key e = ground (arith, key.0, lookup-present id m x key.1)

-- Assigning to a new key adds one entry.
module _ (inv : Invocation) where
  pub insert_new :
      (w : Invocation → ℕ) (m : Allocations)
      → IsKeyed m
      → held (has_id inv.id) m ≡ 0
      → (held w (insert inv.id inv m) ≡ held w m + w inv)
        × (length (insert inv.id inv m) ≡ length m + 1)
        × IsKeyed (insert inv.id inv m)
  unfolding insert
  insert_new w [] key e = (omega arith, omega arith, (refl, tt))
  insert_new w ((k, v) ∷ m) key e = elim (str_dec k inv.id) [
    | yes p ↦ absurd (ground (arith, key.0))
    | no p ↦
        let (sum, len, keyed) = insert_new w m key.1 (ground arith) in
        (ground (arith, sum), ground (arith, len), ground (arith, key.0, keyed))
  ]

-- What the loops of ExpireAllocations and Forget leave.
module _ (drop : String → Invocation → Bool) where
  pub held-release_where-le :
      (w : Invocation → ℕ) (p : Prioritizer) (m : Allocations)
      → held w (release_where drop p m).1 ≤ held w m
  unfolding release_where
  held-release_where-le w p [] = omega arith
  held-release_where-le w p ((k, v) ∷ m) =
      ground (arith, held-release_where-le w (on_release p v) m, held-release_where-le w p m)

  pub length-release_where :
      (p : Prioritizer) (m : Allocations)
      → let out = release_where drop p m in length out.1 + out.2 ≡ length m
  unfolding release_where
  length-release_where p [] = omega arith
  length-release_where p ((k, v) ∷ m) =
      ground (arith, length-release_where (on_release p v) m, length-release_where p m)

  pub release_where-IsKeyed :
      (p : Prioritizer) (m : Allocations) → IsKeyed m → IsKeyed (release_where drop p m).1
  unfolding release_where
  release_where-IsKeyed p [] key = tt
  release_where-IsKeyed p ((k, v) ∷ m) key =
      ground (arith, release_where-IsKeyed (on_release p v) m, release_where-IsKeyed p m)

  -- The prioritizer is told of each allocation that goes.
  pub release_where-HasCounts :
      (queued base : String → ℕ) (p : Prioritizer) (m : Allocations)
      → HasCounts p queued (λ o. base o + held (has_owner o) m)
      → let out = release_where drop p m in
        HasCounts out.0 queued (λ o. base o + held (has_owner o) out.1)
  unfolding release_where
  release_where-HasCounts queued base p [] c = c
  release_where-HasCounts queued base p ((k, v) ∷ m) c = elim (Bool-cases (drop k v)) [
    | inl e ↦
        rw (e, release_where)
          (release_where-HasCounts queued base (on_release p v) m (
            on_release-HasCounts v queued (λ o. base o + held (has_owner o) ((k, v) ∷ m))
              (λ o. base o + held (has_owner o) m) p (λ o. omega arith) c))
    | inr e ↦
        rw (e, release_where)
          (HasCounts-congr _ (λ o. refl) (λ o. omega arith)
            (release_where-HasCounts queued (λ o. base o + has_owner o v) p m
              (HasCounts-congr p (λ o. refl) (λ o. omega arith) c)))
  ]
