-- ===== src/Config/ListOptions/Paging.antt =====
-- Pages of a listing, by offset and limit.
use enkit.Common.{
  ℕ, zero, suc, ◌+◌, ◌-◌, ◌*◌, ◌≤◌, ◌<◌, ◌≡◌, ◌∙◌, refl, ap, sym, true, false, ◌&&◌, List, [], ◌∷◌,
  ◌++◌, length, take, drop, take-nil, drop-nil, length-drop, drop-length, if◌then◌else◌, ltb, leb,
  arith, Bool-cases, inl, inr,
}
use enkit.Config.ListOptions.{apply_offset_limit}

module _ {ℓ} {D : Type ℓ} where
  take_all : (n : ℕ) (xs : List D) → length xs ≤ n → take n xs ≡ xs
  take_all n [] h = take-nil n
  take_all zero (x ∷ xs) h = absurd (omega arith)
  take_all (suc n) (x ∷ xs) h = ap (λ l. x ∷ l) (take_all n xs (omega arith))

  drop_all : (n : ℕ) (xs : List D) → length xs ≤ n → drop n xs ≡ []
  drop_all n [] h = drop-nil n
  drop_all zero (x ∷ xs) h = absurd (omega arith)
  drop_all (suc n) (x ∷ xs) h = drop_all n xs (omega arith)

  take_both : (k m n : ℕ) (xs : List D) → k ≡ m + n → take k xs ≡ take m xs ++ take n (drop m xs)
  take_both k zero n xs e = let e' : k ≡ n = omega arith in rw e' refl
  take_both zero (suc m) n xs e = absurd (omega arith)
  take_both (suc k) (suc m) n [] e = sym (take-nil n)
  take_both (suc k) (suc m) n (x ∷ xs) e = ap (λ l. x ∷ l) (take_both k m n xs (omega arith))

  past_end :
      (xs : List D) (offset limit : ℕ)
      → length xs < offset
      → apply_offset_limit xs offset limit ≡ []
  unfolding apply_offset_limit
  past_end xs offset limit h =
      let e : ltb (length xs) offset ≡ true = ground arith in
      rw (e, drop-length xs)
        (take-nil (
          (if ltb 0 limit && ltb (length xs + limit) (length xs)
            then length xs + limit
            else length xs)
          - length xs))

  within :
      (xs : List D) (offset limit : ℕ)
      → offset ≤ length xs
      → apply_offset_limit xs offset limit
        ≡ take
            ((if ltb 0 limit && ltb (offset + limit) (length xs) then offset + limit else length xs)
              - offset)
            (drop offset xs)
  unfolding apply_offset_limit
  within xs offset limit h = let e : ltb (length xs) offset ≡ false = ground arith in rw e refl

  limited :
      (xs : List D) (offset limit : ℕ)
      → 0 < limit
      → offset ≤ length xs
      → take
          ((if ltb 0 limit && ltb (offset + limit) (length xs) then offset + limit else length xs)
            - offset)
          (drop offset xs)
        ≡ take limit (drop offset xs)
  limited xs offset limit h fits =
      let t : ltb 0 limit ≡ true = ground arith in
      elim (Bool-cases (ltb (offset + limit) (length xs))) [
        | inl e ↦ (let z : offset + limit - offset ≡ limit = omega arith in rw (t, e, z) refl)
        | inr e ↦
            rw (t, e)
              (take_all (length xs - offset) (drop offset xs) (omega (arith, length-drop offset xs))
                ∙ sym (take_all limit (drop offset xs) (ground (arith, length-drop offset xs))))
      ]

  unlimited :
      (xs : List D) (offset limit : ℕ)
      → limit ≡ 0
      → offset ≤ length xs
      → take
          ((if ltb 0 limit && ltb (offset + limit) (length xs) then offset + limit else length xs)
            - offset)
          (drop offset xs)
        ≡ drop offset xs
  unlimited xs offset limit h fits =
      let t : ltb 0 limit ≡ false = ground arith in
      rw t (take_all (length xs - offset) (drop offset xs) (omega (arith, length-drop offset xs)))

  -- With a limit the result holds at most that many entries, from the offset on; without, all from
  -- the offset on.
  pub apply_offset_limit_lem :
      (xs : List D) (offset limit : ℕ)
      → (0 < limit → apply_offset_limit xs offset limit ≡ take limit (drop offset xs))
        × (limit ≡ 0 → apply_offset_limit xs offset limit ≡ drop offset xs)
  apply_offset_limit_lem xs offset limit = elim (Bool-cases (leb offset (length xs))) [
    | inr far ↦
        (let over : length xs < offset = ground arith in
          let none_left = drop_all offset xs (omega arith) in
          (
            λ h. past_end xs offset limit over ∙ sym (ap (take limit) none_left ∙ take-nil limit),
            λ h. past_end xs offset limit over ∙ sym none_left,
          ))
    | inl near ↦
        (let fits : offset ≤ length xs = ground arith in
          let rest = length-drop offset xs in
          (
            λ h. within xs offset limit fits ∙ limited xs offset limit h fits,
            λ h. within xs offset limit fits ∙ unlimited xs offset limit h fits,
          ))
  ]

  -- The first `n` pages, one after the other.
  abbrev pub pages : List D → ℕ → ℕ → List D
  pages xs limit zero = []
  pages xs limit (suc n) = pages xs limit n ++ apply_offset_limit xs (n * limit) limit

  first_pages : (xs : List D) (limit n : ℕ) → 0 < limit → pages xs limit n ≡ take (n * limit) xs
  first_pages xs limit zero h = let z : 0 * limit ≡ 0 = omega arith in rw z refl
  first_pages xs limit (suc n) h =
      ap (λ l. l ++ apply_offset_limit xs (n * limit) limit) (first_pages xs limit n h)
      ∙ ap (λ l. take (n * limit) xs ++ l) ((apply_offset_limit_lem xs (n * limit) limit).0 h)
      ∙ sym (take_both (suc n * limit) (n * limit) limit xs (grind arith))

  -- Pages of a limit that is not 0 follow each other without gaps and without repetitions: the
  -- first `n` of them are the first `n * limit` entries of the listing.
  pages-take : (xs : List D) (limit n : ℕ) → 0 < limit → pages xs limit n ≡ take (n * limit) xs
  pages-take xs limit n h = first_pages xs limit n h
