-- ===== src/Config/ListOptions/StartFrom.antt =====
-- The start of a listing, found by binary search, against a plain filter.
use enkit.Common.{
  ℕ, zero, suc, ◌+◌, ◌/◌, ◌≤◌, ◌<◌, ◌≡◌, refl, ap, sym, Bool, true, false, not, List, [], ◌∷◌,
  length, drop, drop-nil, keep, get_elem?, ltb, arith, Bool-cases, inl, inr,
}
use enkit.Config.Text.{Text, before, before_trans, before-nil}
use enkit.Config.ListOptions.{search_loop, search, reaches, apply_start_from}

-- `f` is false below `r`, and true from `r` on.
record Splits (f : ℕ → Bool) (r : ℕ) : Type 0 where
  below : (a : ℕ) → a < r → f a ≡ false
  above : (a : ℕ) → r ≤ a → f a ≡ true

search_loop-Splits :
    (k i j : ℕ) (f : ℕ → Bool)
    → ((a b : ℕ) → a ≤ b → f a ≡ true → f b ≡ true)
    → i ≤ j
    → j ≤ i + k
    → ((a : ℕ) → a < i → f a ≡ false)
    → ((a : ℕ) → j ≤ a → f a ≡ true)
    → Splits f (search_loop k i j f)
unfolding search_loop
search_loop-Splits zero i j f mono h fuel low high = record {
  below = low;
  above = λ a l. high a (omega arith);
}
search_loop-Splits (suc k) i j f mono h fuel low high = elim (Bool-cases (ltb i j)) [
  | inr e ↦ rw (e, search_loop) (record { below = low; above = λ a l. high a (ground arith) })
  | inl e ↦ elim (Bool-cases (f ((i + j) / 2))) [
    | inl t ↦
        rw (e, t, search_loop)
          (let less : i < j = ground arith in
            search_loop-Splits k i ((i + j) / 2) f mono (omega arith) (omega arith) low
              (λ a l. mono ((i + j) / 2) a l t))
    | inr t ↦
        rw (e, t, search_loop)
          (let less : i < j = ground arith in
            search_loop-Splits k ((i + j) / 2 + 1) j f mono (omega arith) (omega arith)
              (λ a l. not_yet f mono a ((i + j) / 2) (omega arith) t) high)
  ]
]
  where
    not_yet :
        (f : ℕ → Bool)
        → ((a b : ℕ) → a ≤ b → f a ≡ true → f b ≡ true)
        → (a b : ℕ) → a ≤ b
        → f b ≡ false
        → f a ≡ false
    not_yet f mono a b l t = elim (Bool-cases (f a)) [
      | inl e ↦ absurd (ground (arith, mono a b l e))
      | inr e ↦ e
    ]

search-Splits :
    (n : ℕ) (f : ℕ → Bool)
    → ((a b : ℕ) → a ≤ b → f a ≡ true → f b ≡ true)
    → ((a : ℕ) → n ≤ a → f a ≡ true)
    → Splits f (search n f)
unfolding search
search-Splits n f mono high =
    search_loop-Splits n 0 n f mono (omega arith) (omega arith) (λ a l. absurd (omega arith)) high

module _ {ℓ} {D : Type ℓ} (key : D → Text) where
  -- Every key is at or after those in front of it.
  abbrev pub AllAfter : Text → List D → Type 0
  AllAfter k [] = Unit {0}
  AllAfter k (d ∷ descs) = (before (key d) k ≡ false) × AllAfter k descs

  abbrev pub IsSorted : List D → Type 0
  IsSorted [] = Unit {0}
  IsSorted (d ∷ descs) = AllAfter (key d) descs × IsSorted descs

  reaches_all :
      (start : Text) (d : D) (descs : List D) (b : ℕ)
      → AllAfter (key d) descs
      → before (key d) start ≡ false
      → reaches key start (get_elem? descs b) ≡ true
  unfolding reaches
  reaches_all start d [] b a e = refl
  reaches_all start d (x ∷ descs) zero a e = ap not (before_trans start (key d) (key x) e a.0)
  reaches_all start d (x ∷ descs) (suc b) a e = reaches_all start d descs b a.1 e

  reaches_mono :
      (start : Text) (descs : List D) (a b : ℕ)
      → IsSorted descs
      → a ≤ b
      → reaches key start (get_elem? descs a) ≡ true
      → reaches key start (get_elem? descs b) ≡ true
  unfolding reaches
  reaches_mono start [] a b s l e = refl
  reaches_mono start (d ∷ descs) zero zero s l e = e
  reaches_mono start (d ∷ descs) zero (suc b) s l e =
      reaches_all start d descs b s.0 (not_true (before (key d) start) e)
    where
      not_true : (t : Bool) → not t ≡ true → t ≡ false
      not_true true e = cc
      not_true false e = refl
  reaches_mono start (d ∷ descs) (suc a) zero s l e = absurd (omega arith)
  reaches_mono start (d ∷ descs) (suc a) (suc b) s l e =
      reaches_mono start descs a b s.1 (omega arith) e

  reaches_end :
      (start : Text) (descs : List D) (a : ℕ)
      → length descs ≤ a
      → reaches key start (get_elem? descs a) ≡ true
  unfolding reaches
  reaches_end start [] a h = refl
  reaches_end start (d ∷ descs) zero h = absurd (omega arith)
  reaches_end start (d ∷ descs) (suc a) h = reaches_end start descs a (omega arith)

  drop-keep :
      (start : Text) (descs : List D) (r : ℕ)
      → Splits (λ i. reaches key start (get_elem? descs i)) r
      → drop r descs ≡ keep (λ d. not (before (key d) start)) descs
  unfolding reaches
  drop-keep start [] r s = drop-nil r
  drop-keep start (d ∷ descs) zero s = rw (s.above 0 (omega arith)) (
      ap (λ l. d ∷ l)
        (drop-keep start descs zero (record {
          below = λ a l. absurd (omega arith);
          above = λ a l. s.above (suc a) (omega arith);
        })))
  drop-keep start (d ∷ descs) (suc r) s = rw (s.below 0 (omega arith)) (
      drop-keep start descs r (record {
        below = λ a l. s.below (suc a) (omega arith);
        above = λ a l. s.above (suc a) (omega arith);
      }))

  keep_all : (descs : List D) → keep (λ d. not (before (key d) [])) descs ≡ descs
  keep_all [] = refl
  keep_all (d ∷ descs) = rw (before-nil (key d)) (ap (λ l. d ∷ l) (keep_all descs))

  -- On a listing in the order of its keys the binary search leaves just the entries whose keys are
  -- at or after the start.
  pub apply_start_from-keep :
      (descs : List D) (start : Text)
      → IsSorted descs
      → apply_start_from key descs start ≡ keep (λ d. not (before (key d) start)) descs
  unfolding apply_start_from
  apply_start_from-keep descs [] s = sym (keep_all descs)
  apply_start_from-keep descs (c ∷ start) s =
      drop-keep (c ∷ start) descs
        (search (length descs) (λ i. reaches key (c ∷ start) (get_elem? descs i)))
        (search-Splits (length descs) (λ i. reaches key (c ∷ start) (get_elem? descs i))
          (λ a b. reaches_mono (c ∷ start) descs a b s) (reaches_end (c ∷ start) descs))
