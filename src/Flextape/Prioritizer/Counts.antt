-- ===== src/Flextape/Prioritizer/Counts.antt =====
-- EvenOwnersPrioritizer of flextape/service/prioritizer.go: what its maps count.
use enkit.Common.{ℕ, ◌+◌, ◌%◌, ◌<◌, ◌≡◌, ◌∙◌, String, ite, str_dec, arith}
use enkit.Common.Words.{u64_mod, add64, sub64}
use enkit.Flextape.Invocation.{Invocation}
use enkit.Flextape.Prioritizer.{
  EvenOwners, Prioritizer, fifo, even_owners, update, even_on_enqueue, even_on_dequeue,
  even_on_allocate, even_on_release, on_enqueue, on_dequeue, on_allocate, on_release,
}

-- 1 if the invocation belongs to the owner, and 0 otherwise.
abbrev pub has_owner : String → Invocation → ℕ
has_owner o x = ite (str_dec x.owner o) 1 0

-- `queued` and `held` give each owner's number of queued invocations and of held licenses. The two
-- counters of requests differ by the first, as uint64 values do.
pub record Counts (so : EvenOwners) (queued held : String → ℕ) : Type 0 where
  pub allocated : (o : String) → so.allocated o ≡ held o
  pub dequeued_small : (o : String) → so.dequeued o < u64_mod
  pub enqueued : (o : String) → so.enqueued o ≡ (so.dequeued o + queued o) % u64_mod

-- FIFOPrioritizer counts nothing.
abbrev pub HasCounts : Prioritizer → (String → ℕ) → (String → ℕ) → Type 0
HasCounts fifo queued held = Unit {0}
HasCounts (even_owners so) queued held = Counts so queued held

module _ (x : Invocation) (queued queued' held : String → ℕ) where
  pub on_enqueue-HasCounts :
      (p : Prioritizer)
      → ((o : String) → queued' o ≡ queued o + has_owner o x)
      → HasCounts p queued held
      → HasCounts (on_enqueue p x) queued' held
  unfolding on_enqueue even_on_enqueue update add64
  on_enqueue-HasCounts fifo more c = tt
  on_enqueue-HasCounts (even_owners so) more c = record {
    allocated = c.allocated;
    dequeued_small = c.dequeued_small;
    enqueued = λ o. ground (arith, c.enqueued o, more o, c.dequeued_small o);
  }

  pub on_dequeue-HasCounts :
      (p : Prioritizer)
      → ((o : String) → queued o ≡ queued' o + has_owner o x)
      → ((o : String) → queued o < u64_mod)
      → HasCounts p queued held
      → HasCounts (on_dequeue p x) queued' held
  unfolding on_dequeue even_on_dequeue update add64 sub64
  on_dequeue-HasCounts fifo less small c = tt
  on_dequeue-HasCounts (even_owners so) less small c = record {
    allocated = λ o. ground (arith, c.allocated o);
    dequeued_small = λ o. ground (arith, c.dequeued_small o);
    enqueued = λ o. ground (
      arith,
      c.enqueued o,
      less o,
      small o,
      c.dequeued_small o,
      c.enqueued x.owner,
      less x.owner,
      small x.owner,
      c.dequeued_small x.owner,
    );
  }

module _ (x : Invocation) (queued held held' : String → ℕ) where
  pub on_allocate-HasCounts :
      (p : Prioritizer)
      → ((o : String) → held' o ≡ held o + has_owner o x)
      → ((o : String) → held' o < u64_mod)
      → HasCounts p queued held
      → HasCounts (on_allocate p x) queued held'
  unfolding on_allocate even_on_allocate update add64
  on_allocate-HasCounts fifo more small c = tt
  on_allocate-HasCounts (even_owners so) more small c = record {
    allocated = λ o. ground (arith, c.allocated o, more o, small o);
    dequeued_small = c.dequeued_small;
    enqueued = c.enqueued;
  }

  pub on_release-HasCounts :
      (p : Prioritizer)
      → ((o : String) → held o ≡ held' o + has_owner o x)
      → HasCounts p queued held
      → HasCounts (on_release p x) queued held'
  unfolding on_release even_on_release update
  on_release-HasCounts fifo less c = tt
  on_release-HasCounts (even_owners so) less c = record {
    allocated = λ o. ground (arith, c.allocated o, less o);
    dequeued_small = λ o. ground (arith, c.dequeued_small o);
    enqueued = λ o. ground (arith, c.enqueued o);
  }

-- Counts that agree owner by owner are the same counts.
pub HasCounts-congr :
    {queued queued' held held' : String → ℕ} (p : Prioritizer)
    → ((o : String) → queued o ≡ queued' o)
    → ((o : String) → held o ≡ held' o)
    → HasCounts p queued held
    → HasCounts p queued' held'
HasCounts-congr fifo eq eh c = tt
HasCounts-congr (even_owners so) eq eh c = record {
  allocated = λ o. c.allocated o ∙ eh o;
  dequeued_small = c.dequeued_small;
  enqueued = λ o. ground (arith, c.enqueued o, eq o);
}
