-- ===== src/Flextape/License/Requests.antt =====
-- Enqueue of flextape/service/license.go, for a row of requests.
use enkit.Common.{ℕ, ◌+◌, ◌≡◌, refl, ap, [], ◌∷◌, arith}
use enkit.Flextape.Invocation.{Invocation}
use enkit.Flextape.Queue.{Queue}
use enkit.Flextape.Queue.Totals.{total, Blind}
use enkit.Flextape.Prioritizer.{EvenOwners, even_owners, even_on_enqueue, on_enqueue}
use enkit.Flextape.Prioritizer.Requests.{requested}
use enkit.Flextape.License.{License, enqueue}
use enkit.Flextape.License.Keeping.{queue_grows}

-- One Enqueue after the other.
abbrev pub enqueue_all : License → Queue → License
enqueue_all l [] = l
enqueue_all l (x ∷ xs) = enqueue_all (enqueue l x).0 xs

pub enqueue_all-total :
    (l : License) (xs : Queue) (w : Invocation → ℕ)
    → Blind w
    → total w (enqueue_all l xs).queue ≡ total w l.queue + total w xs
enqueue_all-total l [] w blind = omega arith
enqueue_all-total l (x ∷ xs) w blind =
    omega (arith, enqueue_all-total (enqueue l x).0 xs w blind, queue_grows l x w blind)

pub enqueue_all-requested :
    (so : EvenOwners) (l : License) (xs : Queue)
    → l.prioritizer ≡ even_owners so
    → ((enqueue_all l xs).prioritizer ≡ even_owners (requested so xs))
      × ((enqueue_all l xs).allocations ≡ l.allocations)
unfolding enqueue on_enqueue
enqueue_all-requested so l [] e = (e, refl)
enqueue_all-requested so l (x ∷ xs) e =
    enqueue_all-requested (even_on_enqueue so x) (enqueue l x).0 xs (ap (λ p. on_enqueue p x) e)
