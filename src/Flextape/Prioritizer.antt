-- ===== src/Flextape/Prioritizer.antt =====
-- The prioritizers of flextape/service/prioritizer.go.
pub mod Counts
pub mod Requests
use enkit.Common.{ℕ, ◌-◌, String, Option, none, some, Bool, ite, str_dec, if◌then◌else◌, leb, ltb}
use enkit.Common.Words.{add64, sub64}
use enkit.Flextape.Invocation.{Invocation}

-- A Go map of uint64 that is only indexed, assigned and deleted from: a missing key reads as 0.
abbrev pub Counter : Type 0
Counter = String → ℕ

-- m[k] = v, and delete(m, k) for v = 0.
unfoldable pub update : Counter → String → ℕ → Counter
update m k v j = ite (str_dec k j) v (m j)

pub record EvenOwners : Type 0 where
  pub position : Counter
  pub enqueued : Counter
  pub dequeued : Counter
  pub allocated : Counter

pub data Prioritizer : Type 0 where
  fifo : Prioritizer
  even_owners : EvenOwners → Prioritizer

-- NewEvenOwnersPrioritizer.
unfoldable pub new_even_owners : EvenOwners
new_even_owners = record {
  position = λ k. 0;
  enqueued = λ k. 0;
  dequeued = λ k. 0;
  allocated = λ k. 0;
}

-- The four callbacks of EvenOwnersPrioritizer.
unfoldable pub even_on_enqueue : EvenOwners → Invocation → EvenOwners
unfolding update
even_on_enqueue so inv =
    let enqueued' = update so.enqueued inv.owner (add64 (so.enqueued inv.owner) 1) in
    record so { enqueued = enqueued'; position = update so.position inv.id (enqueued' inv.owner) }

unfoldable pub even_on_dequeue : EvenOwners → Invocation → EvenOwners
unfolding update
even_on_dequeue so inv =
    let dequeued' = update so.dequeued inv.owner (add64 (so.dequeued inv.owner) 1) in
    let position' = update so.position inv.id 0 in
    if leb (sub64 (dequeued' inv.owner) (so.enqueued inv.owner)) 0
    then record so {
      position = position';
      enqueued = update so.enqueued inv.owner 0;
      dequeued = update dequeued' inv.owner 0;
    }
    else record so { position = position'; dequeued = dequeued' }

unfoldable pub even_on_allocate : EvenOwners → Invocation → EvenOwners
unfolding update
even_on_allocate so inv = record so {
  allocated = update so.allocated inv.owner (add64 (so.allocated inv.owner) 1);
}

unfoldable pub even_on_release : EvenOwners → Invocation → EvenOwners
unfolding update
even_on_release so inv =
    let value = so.allocated inv.owner in
    if leb value 1
    then record so { allocated = update so.allocated inv.owner 0 }
    else record so { allocated = update so.allocated inv.owner (value - 1) }

-- The number that the Sorter of EvenOwnersPrioritizer compares, `ap - am + aa`.
unfoldable pub even_key : EvenOwners → Invocation → ℕ
even_key so x = add64 (sub64 (so.position x.id) (so.dequeued x.owner)) (so.allocated x.owner)

-- The methods of the interface: FIFOPrioritizer does nothing, and its Sorter is nil.
unfoldable pub on_enqueue : Prioritizer → Invocation → Prioritizer
on_enqueue fifo inv = fifo
on_enqueue (even_owners so) inv = even_owners (even_on_enqueue so inv)

unfoldable pub on_dequeue : Prioritizer → Invocation → Prioritizer
on_dequeue fifo inv = fifo
on_dequeue (even_owners so) inv = even_owners (even_on_dequeue so inv)

unfoldable pub on_allocate : Prioritizer → Invocation → Prioritizer
on_allocate fifo inv = fifo
on_allocate (even_owners so) inv = even_owners (even_on_allocate so inv)

unfoldable pub on_release : Prioritizer → Invocation → Prioritizer
on_release fifo inv = fifo
on_release (even_owners so) inv = even_owners (even_on_release so inv)

unfoldable pub sorter : Prioritizer → Option (Invocation → Invocation → Bool)
sorter fifo = none
sorter (even_owners so) = some (λ a b. ltb (even_key so a) (even_key so b))
