-- ===== src/Config/Memory/Laws.antt =====
-- The in-memory loader is a Loader, and its listing is sorted.
use enkit.Common.{
  ℕ, ◌≡◌, ◌∙◌, refl, Bool, true, false, Option, none, some, Option-cases, List, [], ◌∷◌,
  if◌then◌else◌, arith, Bool-cases, inl, inr, keep, not, ◌||◌, ◌↔◌,
}
use enkit.Common.Results.{ok}
use enkit.Config.Text.{Text, same, same_iff, before, before_trans, before_asym}
use enkit.Config.Loader.{IsLoader}
use enkit.Config.Memory.{
  Entries, find, read, insert, write, remove, delete, sorted_names, list, memory_loader,
}
use enkit.Config.Names.{place}
use enkit.Config.ListOptions.StartFrom.{AllAfter, IsSorted, apply_start_from-keep}
use enkit.Config.ListOptions.Paging.{apply_offset_limit_lem}
use enkit.Config.ListOptions.{apply, apply_start_from}

find-insert :
    (n m : Text) (d : List ℕ) (es : Entries)
    → find m (insert n d es) ≡ (if same n m then some d else find m es)
unfolding find insert
find-insert n m d [] = refl
find-insert n m d ((k, e) ∷ es) =
    ground (arith, same_iff k n, same_iff k m, same_iff n m, find-insert n m d es)

find-remove :
    (n m : Text) (es : Entries) → find m (remove n es) ≡ (if same n m then none else find m es)
unfolding find remove
find-remove n m [] = ground arith
find-remove n m ((k, e) ∷ es) =
    ground (arith, same_iff k n, same_iff k m, same_iff n m, find-remove n m es)

-- The in-memory loader meets the interface.
pub memory_loader-IsLoader : IsLoader memory_loader
unfolding read write delete
memory_loader-IsLoader = record {
  read-write = λ n d w w' e. ground (arith, e, find-insert n n d w, same_iff n n);
  read-write_other = λ n m d w w' e o. ground (arith, e, o, find-insert n m d w);
  read-delete = λ n w w' e. ground (arith, e, find-remove n n w, same_iff n n);
  read-delete_other = λ n m w w' e o. ground (arith, e, o, find-remove n m w);
  read-delete_missing = λ n w e. ground (arith, e);
}

abbrev pub id_key : Text → Text
id_key k = k

AllAfter-trans :
    (j k : Text) (ks : List Text) → before j k ≡ false → AllAfter id_key j ks → AllAfter id_key k ks
AllAfter-trans j k [] h a = tt
AllAfter-trans j k (x ∷ ks) h a = (before_trans k j x h a.0, AllAfter-trans j k ks h a.1)

AllAfter-place :
    (j k : Text) (ks : List Text)
    → before k j ≡ false
    → AllAfter id_key j ks
    → AllAfter id_key j (place k ks)
unfolding place
AllAfter-place j k [] h a = (h, tt)
AllAfter-place j k (x ∷ ks) h a = elim (Bool-cases (before k x)) [
  | inl e ↦ rw e (h, a)
  | inr e ↦ rw e (a.0, AllAfter-place j k ks h a.1)
]

place-IsSorted : (k : Text) (ks : List Text) → IsSorted id_key ks → IsSorted id_key (place k ks)
unfolding place
place-IsSorted k [] s = (tt, tt)
place-IsSorted k (j ∷ ks) (a, s) = elim (Bool-cases (before k j)) [
  | inl e ↦
      (let back : before j k ≡ false = before_asym k j e in
        rw e ((back, AllAfter-trans j k ks back a), (a, s)))
  | inr e ↦ rw e (AllAfter-place j k ks e a, place-IsSorted k ks s)
]

sorted_names-IsSorted : (es : Entries) → IsSorted id_key (sorted_names es)
unfolding sorted_names
sorted_names-IsSorted [] = tt
sorted_names-IsSorted ((n, d) ∷ es) = place-IsSorted n (sorted_names es) (sorted_names-IsSorted es)

abbrev pub contains_name : Text → List Text → Bool
contains_name n [] = false
contains_name n (k ∷ ks) = same k n || contains_name n ks

contains_name-place :
    (n k : Text) (ks : List Text) → contains_name n (place k ks) ≡ same k n || contains_name n ks
unfolding place
contains_name-place n k [] = refl
contains_name-place n k (j ∷ ks) = elim (Bool-cases (before k j)) [
  | inl e ↦ rw e refl
  | inr e ↦ rw e (ground (arith, contains_name-place n k ks))
]

abbrev is_some : Option (List ℕ) → Bool
is_some none = false
is_some (some d) = true

contains_name-sorted_names :
    (n : Text) (es : Entries) → contains_name n (sorted_names es) ≡ is_some (find n es)
unfolding sorted_names find
contains_name-sorted_names n [] = refl
contains_name-sorted_names n ((k, e) ∷ es) =
    contains_name-place n k (sorted_names es) ∙ ground (arith, contains_name-sorted_names n es)

listed :
    (n : Text) (es : Entries)
    → contains_name n (sorted_names es) ≡ true
    → (d : List ℕ) × (read n es ≡ ok d)
unfolding read
listed n es h = elim (Option-cases (find n es)) [
  | inl e ↦ absurd (ground (arith, e, contains_name-sorted_names n es))
  | inr (d, e) ↦ (d, rw (e, read) refl)
]

-- A listing of the in-memory loader from a start holds the names at or after it, in their order,
-- and just the names that can be read.
list_lem :
    (es : Entries) (start n : Text)
    → (list (record { limit = 0; offset = 0; start_from = start }) es
        ≡ keep (λ k. not (before k start)) (sorted_names es))
      × IsSorted id_key (sorted_names es)
      × ((contains_name n (sorted_names es) ≡ true) ↔ ((d : List ℕ) × (read n es ≡ ok d)))
unfolding list apply read
list_lem es start n = (
  (apply_offset_limit_lem (apply_start_from id_key (sorted_names es) start) 0 0).1 refl
      ∙ apply_start_from-keep id_key (sorted_names es) start (sorted_names-IsSorted es),
  sorted_names-IsSorted es,
  (listed n es, λ h. ground (arith, h.1, contains_name-sorted_names n es)),
)
