-- ===== src/Config/Names.antt =====
-- Lists of names, and sort.Strings.
use enkit.Common.{
  ◌≡◌, ◌∙◌, refl, ap, sym, Bool, false, ◌||◌, Bool-cases, inl, inr, List, [], ◌∷◌, if◌then◌else◌,
  arith,
}
use enkit.Config.Text.{Text, same, before, before_trans, before_asym}

-- Whether a name is in a list.
unfoldable pub has_name : Text → List Text → Bool
has_name n [] = false
has_name n (m ∷ ms) = let rest = has_name n ms in same m n || rest

-- No name is twice in the list.
abbrev pub AreOnce : List Text → Type 0
AreOnce [] = Unit {0}
AreOnce (n ∷ ns) = (has_name n ns ≡ false) × AreOnce ns

-- A name into a sorted list.
unfoldable pub place : Text → List Text → List Text
place k [] = k ∷ []
place k (j ∷ ks) = let rest = place k ks in if before k j then k ∷ j ∷ ks else j ∷ rest

-- sort.Strings.
unfoldable pub sort_texts : List Text → List Text
unfolding place
sort_texts [] = []
sort_texts (k ∷ ks) = place k (sort_texts ks)

has_name-place : (n k : Text) (ks : List Text) → has_name n (place k ks) ≡ same k n || has_name n ks
unfolding has_name place
has_name-place n k [] = refl
has_name-place n k (j ∷ ks) = elim (Bool-cases (before k j)) [
  | inl e ↦ rw e refl
  | inr e ↦ rw (e, has_name-place n k ks) (ground arith)
]

pub has_name-sort_texts : (n : Text) (ks : List Text) → has_name n (sort_texts ks) ≡ has_name n ks
unfolding has_name sort_texts
has_name-sort_texts n [] = refl
has_name-sort_texts n (k ∷ ks) =
    has_name-place n k (sort_texts ks) ∙ ap (λ b. same k n || b) (has_name-sort_texts n ks)

same-sym : (a b : Text) → same a b ≡ same b a
unfolding same
same-sym [] [] = refl
same-sym [] (d ∷ b) = refl
same-sym (c ∷ a) [] = refl
same-sym (c ∷ a) (d ∷ b) = ground (arith, same-sym a b)

place-AreOnce :
    (k : Text) (ks : List Text) → has_name k ks ≡ false → AreOnce ks → AreOnce (place k ks)
unfolding place has_name
place-AreOnce k [] h a = (refl, tt)
place-AreOnce k (j ∷ ks) h (new, a) = elim (Bool-cases (before k j)) [
  | inl e ↦ rw e (h, (new, a))
  | inr e ↦
      rw e
        (has_name-place j k ks ∙ ground (arith, same-sym k j), place-AreOnce k ks (ground arith) a)
]

pub sort_texts-AreOnce : (ks : List Text) → AreOnce ks → AreOnce (sort_texts ks)
unfolding sort_texts
sort_texts-AreOnce [] a = tt
sort_texts-AreOnce (k ∷ ks) (new, a) =
    place-AreOnce k (sort_texts ks) (has_name-sort_texts k ks ∙ new) (sort_texts-AreOnce ks a)

-- None is before the name.
abbrev NoneBefore : Text → List Text → Type 0
NoneBefore k [] = Unit {0}
NoneBefore k (j ∷ js) = (before j k ≡ false) × NoneBefore k js

abbrev IsOrdered : List Text → Type 0
IsOrdered [] = Unit {0}
IsOrdered (k ∷ ks) = NoneBefore k ks × IsOrdered ks

before-same : (a b : Text) → before a b ≡ false → before b a ≡ false → a ≡ b
unfolding before
before-same [] [] h k = refl
before-same [] (d ∷ b) h k = cc
before-same (c ∷ a) [] h k = cc
before-same (c ∷ a) (d ∷ b) h k =
    (let e : c ≡ d = ground arith in let f = before-same a b (ground arith) (ground arith) in cc)

place-first : (k : Text) (ks : List Text) → IsOrdered (k ∷ ks) → place k ks ≡ k ∷ ks
unfolding place
place-first k [] o = refl
place-first k (j ∷ ks) ((h, hs), o) = elim (Bool-cases (before k j)) [
  | inl e ↦ rw e refl
  | inr e ↦
      (let x = before-same k j e h in
        rw e (
          ap (λ l. j ∷ l) (ap (λ y. place y ks) x ∙ place-first j ks o)
          ∙ ap (λ y. y ∷ j ∷ ks) (sym x)))
]

NoneBefore-later :
    (k j : Text) (ks : List Text) → before j k ≡ false → NoneBefore j ks → NoneBefore k ks
NoneBefore-later k j [] h all = tt
NoneBefore-later k j (i ∷ ks) h (first, all) =
    (before_trans k j i h first, NoneBefore-later k j ks h all)

place-NoneBefore :
    (j k : Text) (ks : List Text) → before k j ≡ false → NoneBefore j ks → NoneBefore j (place k ks)
unfolding place
place-NoneBefore j k [] h all = (h, tt)
place-NoneBefore j k (i ∷ ks) h (first, all) = elim (Bool-cases (before k i)) [
  | inl e ↦ rw e (h, (first, all))
  | inr e ↦ rw e (first, place-NoneBefore j k ks h all)
]

place-IsOrdered : (k : Text) (ks : List Text) → IsOrdered ks → IsOrdered (place k ks)
unfolding place
place-IsOrdered k [] o = (tt, tt)
place-IsOrdered k (j ∷ ks) (all, o) = elim (Bool-cases (before k j)) [
  | inl e ↦ (let h = before_asym k j e in rw e ((h, NoneBefore-later k j ks h all), (all, o)))
  | inr e ↦ rw e (place-NoneBefore j k ks e all, place-IsOrdered k ks o)
]

sort_texts-IsOrdered : (ks : List Text) → IsOrdered (sort_texts ks)
unfolding sort_texts
sort_texts-IsOrdered [] = tt
sort_texts-IsOrdered (k ∷ ks) = place-IsOrdered k (sort_texts ks) (sort_texts-IsOrdered ks)

sort_texts-ordered : (ks : List Text) → IsOrdered ks → sort_texts ks ≡ ks
unfolding sort_texts
sort_texts-ordered [] o = refl
sort_texts-ordered (k ∷ ks) (all, o) =
    ap (place k) (sort_texts-ordered ks o) ∙ place-first k ks (all, o)

-- Sorting again changes nothing.
pub sort_texts-twice : (ks : List Text) → sort_texts (sort_texts ks) ≡ sort_texts ks
sort_texts-twice ks = sort_texts-ordered (sort_texts ks) (sort_texts-IsOrdered ks)
