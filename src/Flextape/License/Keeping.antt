-- ===== src/Flextape/License/Keeping.antt =====
-- Each method of flextape/service/license.go keeps the books.
use enkit.Common.{
  ℕ, ◌+◌, ◌≤◌, ◌<◌, ◌≡◌, refl, sym, ◌∙◌, inl, inr, String, Bool, true, false, Bool-cases, none,
  some, [], ◌∷◌, leb, length, ite, str_dec, arith, Option-cases,
}
use mathlib.Core.Path.{subst}
use enkit.Common.Words.{u32_mod, u64_mod}
use enkit.Flextape.Invocation.{Invocation}
use enkit.Flextape.Queue.{Queue, filter_from}
use enkit.Flextape.Queue
use enkit.Flextape.Queue.Numbering.{enqueue-IsNumbered, filter-IsNumbered, forget-IsNumbered}
use enkit.Flextape.Queue.Totals.{
  total, has_id, Blind, total-append, total-sort, sort-IsNumbered, total-filter_from-le,
  total-forget_absent, total-forget_present,
}
use enkit.Flextape.Queue.Span.{end-sort, end-enqueue, end-filter, end-forget}
use enkit.Flextape.Prioritizer.{Prioritizer, on_dequeue, on_allocate}
use enkit.Flextape.Prioritizer.Counts.{
  has_owner, HasCounts, HasCounts-congr, on_enqueue-HasCounts, on_dequeue-HasCounts,
  on_allocate-HasCounts,
}
use enkit.Flextape.License.{
  License, enqueue, allocate, release_where, is_expired, expire_allocations, expire_filter,
  expire_queued, forget, insert,
}
use enkit.Flextape.License.Books.{
  held, uses, Books, total-owner-le, held-owner-le, insert_new, held-release_where-le,
  length-release_where, release_where-IsKeyed, release_where-HasCounts,
}

one_more :
    (l : License) (inv : Invocation) (id : String)
    → uses inv.id l ≡ 0
    → uses id l ≤ 1
    → uses id l + has_id id inv ≤ 1
one_more l inv id new once = elim (str_dec inv.id id) [
  | yes p ↦ let none_yet : uses id l ≡ 0 = subst (λ k. uses k l ≡ 0) p new in ground arith
  | no p ↦ ground arith
]

pub queue_grows :
    (l : License) (inv : Invocation) (w : Invocation → ℕ)
    → Blind w
    → total w (enqueue l inv).0.queue ≡ total w l.queue + w inv
unfolding enqueue Queue.enqueue
queue_grows l inv w blind =
    total-sort w blind _ _ ∙ total-append w l.queue _ ∙ omega (arith, blind inv)

-- Enqueue, of an invocation that is new to the license.
pub enqueue-Books :
    (n : ℕ) (l : License) (inv : Invocation)
    → Books n l
    → uses inv.id l ≡ 0
    → n + 2 < u32_mod
    → Books (n + 1) (enqueue l inv).0
unfolding enqueue
enqueue-Books n l inv b new room = record {
  keyed = b.keyed;
  unique = λ id.
      let grows = queue_grows l inv (has_id id) (λ x k. refl) in
      omega (arith, one_more l inv id new (b.unique id));
  numbered =
      sort-IsNumbered _ _ (
        enqueue-IsNumbered l.queue inv b.numbered (omega (arith, b.short))
          (omega (arith, b.short)));
  short = omega (arith, end-sort _ (Queue.enqueue l.queue inv).0, end-enqueue l.queue inv, b.short);
  capacity = b.capacity;
  small = b.small;
  counted =
      on_enqueue-HasCounts inv _ _ _ l.prioritizer
        (λ o. queue_grows l inv (has_owner o) (λ x k. refl)) b.counted;
}

-- The entry that Allocate and Promote add.
pub taken :
    (n : ℕ) (l : License) (inv : Invocation)
    → Books n l
    → uses inv.id l ≡ 0
    → length l.allocations < l.total_available
    → Books n (record l {
      prioritizer = on_allocate l.prioritizer inv;
      allocations = insert inv.id inv l.allocations;
    })
taken n l inv b new free =
    let added = λ (w : Invocation → ℕ). insert_new inv w l.allocations b.keyed (omega arith) in
    record {
      keyed = (added (λ x. 0)).2;
      unique = λ id. omega (arith, one_more l inv id new (b.unique id), (added (has_id id)).0);
      numbered = b.numbered;
      short = b.short;
      capacity = omega (arith, (added (λ x. 0)).1);
      small = b.small;
      counted =
          on_allocate-HasCounts inv _ _ _ l.prioritizer (λ o. (added (has_owner o)).0)
            (λ o. omega (
              arith,
              held-owner-le o (insert inv.id inv l.allocations),
              (added (λ x. 0)).1,
              b.small,
            ))
            b.counted;
    }

-- Allocate, of an invocation that is new to the license.
pub allocate-Books :
    (n : ℕ) (l : License) (inv : Invocation)
    → Books n l
    → uses inv.id l ≡ 0
    → Books n (allocate l inv).0
unfolding allocate
allocate-Books n l inv b new = elim (Bool-cases (leb l.total_available (length l.allocations))) [
  | inl full ↦ rw full b
  | inr free ↦ rw free (taken n l inv b new (ground arith))
]

-- The loops of ExpireAllocations and Forget.
pub release_where-Books :
    (drop : String → Invocation → Bool) (n : ℕ) (l : License)
    → Books n l
    → let out = release_where drop l.prioritizer l.allocations in
      Books n (record l { prioritizer = out.0; allocations = out.1 })
release_where-Books drop n l b = record {
  keyed = release_where-IsKeyed drop l.prioritizer l.allocations b.keyed;
  unique = λ id.
      omega
        (arith, b.unique id, held-release_where-le drop (has_id id) l.prioritizer l.allocations);
  numbered = b.numbered;
  short = b.short;
  capacity = omega (arith, length-release_where drop l.prioritizer l.allocations, b.capacity);
  small = b.small;
  counted =
      HasCounts-congr _ (λ o. refl) (λ o. omega arith)
        (release_where-HasCounts drop _ (λ o. 0) l.prioritizer l.allocations
          (HasCounts-congr l.prioritizer (λ o. refl) (λ o. omega arith) b.counted));
}

pub expire_allocations-Books :
    (expiry n : ℕ) (l : License) → Books n l → Books n (expire_allocations expiry l)
unfolding expire_allocations
expire_allocations-Books expiry n l b = release_where-Books (λ k v. is_expired expiry v) n l b

-- The prioritizer is told of each queued invocation that ExpireQueued drops.
expire_from-HasCounts :
    (expiry : ℕ) (base holding : String → ℕ) (p : Prioritizer) (pos count : ℕ) (q : Queue)
    → ((o : String) → base o + total (has_owner o) q < u64_mod)
    → HasCounts p (λ o. base o + total (has_owner o) q) holding
    → let out = filter_from (expire_filter expiry) p pos count q in
      HasCounts out.0 (λ o. base o + total (has_owner o) out.1) holding
unfolding filter_from expire_filter
expire_from-HasCounts expiry base holding p pos count [] small c = c
expire_from-HasCounts expiry base holding p pos count (x ∷ q) small c =
    elim (Bool-cases (is_expired expiry x)) [
      | inl gone ↦
          rw (gone, filter_from, expire_filter)
            (expire_from-HasCounts expiry base holding (on_dequeue p x) (pos + 1) (count + 1) q
              (λ o. omega (arith, small o))
              (on_dequeue-HasCounts x _ _ holding p (λ o. omega arith) small c))
      | inr stays ↦
          rw (stays, filter_from, expire_filter)
            (HasCounts-congr _ (λ o. omega arith) (λ o. refl)
              (expire_from-HasCounts expiry (λ o. base o + has_owner o x) holding p (pos + 1) count
                q (λ o. omega (arith, small o))
                (HasCounts-congr p (λ o. omega arith) (λ o. refl) c)))
    ]

pub expire_queued-Books :
    (expiry n : ℕ) (l : License) → Books n l → Books n (expire_queued expiry l)
unfolding expire_queued Queue.filter
expire_queued-Books expiry n l b = record {
  keyed = b.keyed;
  unique = λ id. omega (
    arith,
    b.unique id,
    total-filter_from-le (expire_filter expiry) (has_id id) (λ x k. refl) l.prioritizer 0 0 l.queue,
  );
  numbered = filter-IsNumbered (expire_filter expiry) l.prioritizer l.queue b.numbered;
  short =
      omega (arith, end-filter (expire_filter expiry) l.prioritizer l.queue b.numbered, b.short);
  capacity = b.capacity;
  small = b.small;
  counted =
      HasCounts-congr _ (λ o. omega arith) (λ o. refl)
        (expire_from-HasCounts expiry (λ o. 0) (λ o. held (has_owner o) l.allocations) l.prioritizer
          0 0 l.queue
          (λ o. omega (arith, total-owner-le o l.queue, b.numbered.fits, b.numbered.positive))
          (HasCounts-congr l.prioritizer (λ o. omega arith) (λ o. refl) b.counted));
}

-- What Forget does to the queue of a license.
forget-Books_absent :
    (id : String) (n : ℕ) (l : License)
    → Books n l
    → (Queue.forget id l.queue).0 ≡ none
    → Books n (record l { queue = (Queue.forget id l.queue).1 })
forget-Books_absent id n l b e =
    let single : total (has_id id) l.queue ≤ 1 = omega (arith, b.unique id) in
    let same =
      λ (w : Invocation → ℕ) (blind : Blind w). total-forget_absent id l.queue single w blind e in
    record {
      keyed = b.keyed;
      unique = λ j. omega (arith, b.unique j, same (has_id j) (λ x k. refl));
      numbered = forget-IsNumbered id l.queue b.numbered;
      short = omega (arith, end-forget id l.queue b.numbered, b.short);
      capacity = b.capacity;
      small = b.small;
      counted =
          HasCounts-congr l.prioritizer (λ o. sym (same (has_owner o) (λ x k. refl))) (λ o. refl)
            b.counted;
    }

forget-Books_present :
    (id : String) (n : ℕ) (l : License) (inv : Invocation)
    → Books n l
    → (Queue.forget id l.queue).0 ≡ some inv
    → Books n (record l {
      queue = (Queue.forget id l.queue).1;
      prioritizer = on_dequeue l.prioritizer inv;
    })
forget-Books_present id n l inv b e =
    let single : total (has_id id) l.queue ≤ 1 = omega (arith, b.unique id) in
    let sum = λ (w : Invocation → ℕ) (blind : Blind w).
      total-forget_present id l.queue single w inv blind e in
    record {
      keyed = b.keyed;
      unique = λ j. omega (arith, b.unique j, sum (has_id j) (λ x k. refl));
      numbered = forget-IsNumbered id l.queue b.numbered;
      short = omega (arith, end-forget id l.queue b.numbered, b.short);
      capacity = b.capacity;
      small = b.small;
      counted =
          on_dequeue-HasCounts inv _ _ _ l.prioritizer
            (λ o. omega (arith, sum (has_owner o) (λ x k. refl)))
            (λ o. omega (arith, total-owner-le o l.queue, b.numbered.fits, b.numbered.positive))
            b.counted;
    }

-- Forget, of any id.
pub forget-Books : (id : String) (n : ℕ) (l : License) → Books n l → Books n (forget id l).0
unfolding forget
forget-Books id n l b =
    let named = λ (k : String) (v : Invocation). ite (str_dec k id) true false in
    let out = release_where named l.prioritizer l.allocations in
    let l1 = record l { prioritizer = out.0; allocations = out.1 } in
    let b1 = release_where-Books named n l b in
    elim (Option-cases (Queue.forget id l.queue).0) [
      | inl e ↦ rw (e, forget) (forget-Books_absent id n l1 b1 e)
      | inr (inv, e) ↦ rw (e, forget) (forget-Books_present id n l1 inv b1 e)
    ]
