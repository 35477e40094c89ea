-- ===== src/Flextape/Prioritizer/Requests.antt =====
-- EvenOwnersPrioritizer of flextape/service/prioritizer.go: the positions after a row of requests.
use enkit.Common.{
  ℕ, ◌+◌, ◌%◌, ◌≤◌, ◌≡◌, ◌⊎◌, refl, sym, ap, ◌∙◌, inl, inr, [], ◌∷◌, length, ite, str_dec, arith,
}
use enkit.Common.Words.{u64_mod, add64}
use enkit.Flextape.Invocation.{Invocation}
use enkit.Flextape.Queue.{Queue}
use enkit.Flextape.Queue.Totals.{total, has_id}
use enkit.Flextape.Prioritizer.{EvenOwners, update, even_on_enqueue}
use enkit.Flextape.Prioritizer.Counts.{has_owner}

-- One OnEnqueue after the other.
abbrev pub requested : EvenOwners → Queue → EvenOwners
requested so [] = so
requested so (x ∷ xs) = requested (even_on_enqueue so x) xs

-- The place of an invocation among the requests of its owner, counted from 1.
abbrev pub place : Invocation → Queue → ℕ
place v [] = 0
place v (x ∷ xs) = ite (str_dec x.id v.id) 1 (has_owner v.owner x + place v xs)

-- Requests of different ids.
abbrev pub AreApart : Queue → Type 0
AreApart [] = Unit {0}
AreApart (x ∷ xs) = (total (has_id x.id) xs ≡ 0) × AreApart xs

abbrev pub IsIn : Invocation → Queue → Type 0
IsIn v [] = ⊥
IsIn v (x ∷ xs) = (x ≡ v) ⊎ IsIn v xs

IsIn-has_id : (v : Invocation) (xs : Queue) → IsIn v xs → 1 ≤ total (has_id v.id) xs
IsIn-has_id v [] i = absurd i
IsIn-has_id v (x ∷ xs) (inl e) =
    let same : x.id ≡ v.id = ap (λ (y : Invocation). y.id) e in ground arith
IsIn-has_id v (x ∷ xs) (inr i) = ground (arith, IsIn-has_id v xs i)

pub place-le : (v : Invocation) (xs : Queue) → place v xs ≤ length xs
place-le v [] = omega arith
place-le v (x ∷ xs) = ground (arith, place-le v xs)

pub requested-keeps :
    (so : EvenOwners) (xs : Queue)
    → ((requested so xs).allocated ≡ so.allocated) × ((requested so xs).dequeued ≡ so.dequeued)
unfolding even_on_enqueue
requested-keeps so [] = (refl, refl)
requested-keeps so (x ∷ xs) = requested-keeps (even_on_enqueue so x) xs

-- OnEnqueue sets one position, and counts one request.
module _ (so : EvenOwners) (x v : Invocation) where
  enqueue-here : x ≡ v → (even_on_enqueue so x).position v.id ≡ (so.enqueued v.owner + 1) % u64_mod
  unfolding even_on_enqueue update add64
  enqueue-here e =
      let id : x.id ≡ v.id = ap (λ (y : Invocation). y.id) e in
      let owner : x.owner ≡ v.owner = ap (λ (y : Invocation). y.owner) e in ground arith

  enqueue-there : has_id v.id x ≡ 0 → (even_on_enqueue so x).position v.id ≡ so.position v.id
  unfolding even_on_enqueue update
  enqueue-there other = ground arith

  enqueue-counts :
      (xs : Queue)
      → ((even_on_enqueue so x).enqueued v.owner + place v xs) % u64_mod
        ≡ (so.enqueued v.owner + (has_owner v.owner x + place v xs)) % u64_mod
  unfolding even_on_enqueue update add64
  enqueue-counts xs = ground arith

requested-absent :
    (so : EvenOwners) (v : Invocation) (xs : Queue)
    → total (has_id v.id) xs ≡ 0
    → (requested so xs).position v.id ≡ so.position v.id
requested-absent so v [] new = refl
requested-absent so v (x ∷ xs) new =
    requested-absent (even_on_enqueue so x) v xs (omega arith) ∙ enqueue-there so x v (omega arith)

-- Each request's position is what its owner had requested before, and its place.
pub requested-position :
    (so : EvenOwners) (v : Invocation) (xs : Queue)
    → AreApart xs
    → IsIn v xs
    → (requested so xs).position v.id ≡ (so.enqueued v.owner + place v xs) % u64_mod
requested-position so v [] apart i = absurd i
requested-position so v (x ∷ xs) (new, apart) (inl e) =
    let id : x.id ≡ v.id = ap (λ (y : Invocation). y.id) e in
    requested-absent (even_on_enqueue so x) v xs (ap (λ j. total (has_id j) xs) (sym id) ∙ new)
    ∙ enqueue-here so x v e
    ∙ ground arith
requested-position so v (x ∷ xs) (new, apart) (inr i) =
    requested-position (even_on_enqueue so x) v xs apart i
    ∙ enqueue-counts so x v xs
    ∙ (let there = IsIn-has_id v xs i in
        elim (str_dec x.id v.id) [
          | yes e ↦ absurd (omega (arith, ap (λ j. total (has_id j) xs) e, new, there))
          | no e ↦ ground arith
        ])
