-- ===== src/Config/Memory.antt =====
-- lib/config/memory/memory.go: a loader whose data is a map.
pub mod Laws
use enkit.Common.{ℕ, Bool, Option, none, some, List, [], ◌∷◌, ◌++◌, if◌then◌else◌}
use enkit.Common.Results.{Result, ok, err}
use enkit.Config.Names.{place}
use enkit.Config.Text.{Text, same, before}
use enkit.Config.Loader.{Loader, StoreError, not_exist}
use enkit.Config.ListOptions.{ListOptions, apply_keys}

abbrev pub Entries : Type 0
Entries = List (Text × List ℕ)

-- Open.
abbrev pub open_memory : Entries
open_memory = []

unfoldable pub find : Text → Entries → Option (List ℕ)
find n [] = none
find n ((m, d) ∷ es) = let rest = find n es in if same m n then some d else rest

-- Read.
unfoldable pub read : Text → Entries → Result StoreError (List ℕ)
unfolding find
read n es = elim (find n es) [ none ↦ err not_exist | some d ↦ ok d ]

unfoldable pub insert : Text → List ℕ → Entries → Entries
insert n d [] = (n, d) ∷ []
insert n d ((m, e) ∷ es) =
    let rest = insert n d es in if same m n then (m, d) ∷ es else (m, e) ∷ rest

-- Write.
unfoldable pub write : Text → List ℕ → Entries → Result StoreError Entries
unfolding insert
write n d es = ok (insert n d es)

unfoldable pub remove : Text → Entries → Entries
remove n [] = []
remove n ((m, e) ∷ es) = let rest = remove n es in if same m n then rest else (m, e) ∷ rest

-- Delete.
unfoldable pub delete : Text → Entries → Result StoreError Entries
unfolding find remove
delete n es = elim (find n es) [ none ↦ err not_exist | some d ↦ ok (remove n es) ]

-- sort.Strings of the keys.
unfoldable pub sorted_names : Entries → List Text
unfolding place
sorted_names [] = []
sorted_names ((n, d) ∷ es) = place n (sorted_names es)

-- List, without callbacks.
unfoldable pub list : ListOptions → Entries → List Text
unfolding sorted_names
list opts es = apply_keys opts (sorted_names es) 0

abbrev pub memory_loader : Loader Entries
memory_loader = record {
  read = read;
  write = write;
  delete = delete;
  list = λ opts es. ok (list opts es);
}
