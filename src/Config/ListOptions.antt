-- ===== src/Config/ListOptions.antt =====
-- lib/config/list_options.go: where a listing starts, and which part of it is returned.
pub mod Paging
pub mod StartFrom
use enkit.Common.{
  ℕ, zero, suc, ◌+◌, ◌-◌, ◌/◌, ◌≤◌, ◌<◌, Bool, true, false, not, ◌&&◌, ◌||◌, Option, none, some,
  List, [], ◌∷◌, length, take, drop, get_elem?, if◌then◌else◌, ltb, leb, ◌==◌,
}
use enkit.Config.Text.{Text, before}
use Prim.Native.Nat.{bit_and}

-- The loop of sort.Search of Go's library; every round halves `j - i`, so that `n` rounds are
-- enough.
unfoldable pub search_loop : ℕ → ℕ → ℕ → (ℕ → Bool) → ℕ
search_loop zero i j f = i
search_loop (suc k) i j f = elim (ltb i j) [
  | false ↦ i
  | true ↦ elim (f ((i + j) / 2)) [
    | true ↦ search_loop k i ((i + j) / 2) f
    | false ↦ search_loop k ((i + j) / 2 + 1) j f
  ]
]

unfoldable pub search : ℕ → (ℕ → Bool) → ℕ
unfolding search_loop
search n f = search_loop n 0 n f

-- Offsets and limits are not negative: Go panics at a negative offset.
pub record ListOptions : Type 0 where
  pub limit : ℕ
  pub offset : ℕ
  pub start_from : Text

module _ {ℓ} {D : Type ℓ} where
  unfoldable pub apply_offset_limit : List D → ℕ → ℕ → List D
  apply_offset_limit descs offset limit =
      let start = if ltb (length descs) offset then length descs else offset in
      let end =
        if ltb 0 limit && ltb (start + limit) (length descs) then start + limit else length descs in
      take (end - start) (drop start descs)

  module _ (key : D → Text) where
    -- `descs[i].Key() >= start`
    unfoldable pub reaches : Text → Option D → Bool
    reaches start none = true
    reaches start (some d) = not (before (key d) start)

    -- ApplyStartFrom, and ApplyStartFromKeys where an entry is its key.
    unfoldable pub apply_start_from : List D → Text → List D
    unfolding search reaches
    apply_start_from descs [] = descs
    apply_start_from descs (c ∷ start) =
        drop (search (length descs) (λ i. reaches (c ∷ start) (get_elem? descs i))) descs

    -- Apply and ApplyKeys; bit 0 of `optimized` says that the start is dealt with, bit 1 that the
    -- offset and the limit are.
    unfoldable pub apply : ListOptions → List D → ℕ → List D
    apply opts descs optimized =
        let descs' =
          if bit_and optimized 1 == 0 then apply_start_from descs opts.start_from else descs in
        if bit_and optimized 2 == 0
        then apply_offset_limit descs' opts.offset opts.limit
        else descs'

-- The same on keys, which are their own keys.
abbrev pub apply_start_from_keys : List Text → Text → List Text
apply_start_from_keys = apply_start_from (λ k. k)

abbrev pub apply_offset_limit_keys : List Text → ℕ → ℕ → List Text
apply_offset_limit_keys = apply_offset_limit

abbrev pub apply_keys : ListOptions → List Text → ℕ → List Text
apply_keys = apply (λ k. k)
