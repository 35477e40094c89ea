-- ===== src/Flextape/Service/Touch.antt =====
-- LastCheckin updates of flextape/service/service.go: no book depends on that time.
use enkit.Common.{ℕ, ◌≡◌, refl, sym, String, [], ◌∷◌, length, arith}
use enkit.Flextape.Invocation.{Invocation}
use enkit.Flextape.Queue.{Queue}
use enkit.Flextape.Queue.Numbering.{ids}
use enkit.Flextape.Queue.Totals.{total, has_id, IsNumbered-ids}
use enkit.Flextape.Queue.Span.{head_id_of_ids}
use enkit.Flextape.Prioritizer.Counts.{has_owner, HasCounts-congr}
use enkit.Flextape.License.{License, Allocations}
use enkit.Flextape.License.Books.{held, IsKeyed, Books}
use enkit.Flextape.Service.{modify, touch_allocated, touch_queue, touch_queued}

-- A sum that does not look at the time of the last checkin.
abbrev Timeless : (Invocation → ℕ) → Type 0
Timeless w = (x : Invocation) (t : ℕ) → w (record x { last_checkin = t }) ≡ w x

held-modify :
    (id : String) (now : ℕ) (w : Invocation → ℕ)
    → Timeless w
    → (m : Allocations)
    → let m' = modify id (λ v. record v { last_checkin = now }) m in
      (held w m' ≡ held w m) × (length m' ≡ length m)
unfolding modify
held-modify id now w free [] = (refl, refl)
held-modify id now w free ((k, v) ∷ m) =
    let (sum, len) = held-modify id now w free m in ground (arith, free v now, sum, len)

modify-IsKeyed :
    (id : String) (now : ℕ) (m : Allocations)
    → IsKeyed m
    → IsKeyed (modify id (λ v. record v { last_checkin = now }) m)
unfolding modify
modify-IsKeyed id now [] key = tt
modify-IsKeyed id now ((k, v) ∷ m) key = ground (arith, modify-IsKeyed id now m key.1)

pub touch_allocated-Books :
    (id : String) (now n : ℕ) (l : License) → Books n l → Books n (touch_allocated id now l)
unfolding touch_allocated
touch_allocated-Books id now n l b = record {
  keyed = modify-IsKeyed id now l.allocations b.keyed;
  unique =
      λ j. omega (arith, b.unique j, (held-modify id now (has_id j) (λ x t. refl) l.allocations).0);
  numbered = b.numbered;
  short = b.short;
  capacity = omega (arith, (held-modify id now (λ x. 0) (λ x t. refl) l.allocations).1, b.capacity);
  small = b.small;
  counted =
      HasCounts-congr l.prioritizer (λ o. refl)
        (λ o. sym (held-modify id now (has_owner o) (λ x t. refl) l.allocations).0) b.counted;
}

total-touch_queue :
    (id : String) (now : ℕ) (w : Invocation → ℕ)
    → Timeless w
    → (q : Queue) → total w (touch_queue id now q) ≡ total w q
unfolding touch_queue
total-touch_queue id now w free [] = refl
total-touch_queue id now w free (x ∷ q) =
    ground (arith, free x now, total-touch_queue id now w free q)

ids-touch_queue :
    (id : String) (now : ℕ) (q : Queue)
    → (ids (touch_queue id now q) ≡ ids q) × (length (touch_queue id now q) ≡ length q)
unfolding touch_queue
ids-touch_queue id now [] = (refl, refl)
ids-touch_queue id now (x ∷ q) =
    let (same, len) = ids-touch_queue id now q in ground (arith, same, len)

pub touch_queued-Books :
    (id : String) (now n : ℕ) (l : License) → Books n l → Books n (touch_queued id now l)
unfolding touch_queued
touch_queued-Books id now n l b =
    let (same, len) = ids-touch_queue id now l.queue in
    record {
      keyed = b.keyed;
      unique =
          λ j. omega (arith, b.unique j, total-touch_queue id now (has_id j) (λ x t. refl) l.queue);
      numbered = IsNumbered-ids l.queue (touch_queue id now l.queue) same b.numbered;
      short = omega (arith, head_id_of_ids l.queue (touch_queue id now l.queue) same, len, b.short);
      capacity = b.capacity;
      small = b.small;
      counted =
          HasCounts-congr l.prioritizer
            (λ o. sym (total-touch_queue id now (has_owner o) (λ x t. refl) l.queue)) (λ o. refl)
            b.counted;
    }
