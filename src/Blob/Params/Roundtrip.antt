-- ===== src/Blob/Params/Roundtrip.antt =====
-- What encodeTokenParams and decodeTokenParams do to the values of a name.
use enkit.Common.{
  ◌≡◌, ◌∙◌, refl, ap, sym, Bool, true, false, Bool-cases, inl, inr, Option, none, some, List,
  List-cases, [], ◌∷◌, ◌++◌, map, if◌then◌else◌, arith,
}
use mathlib.Core.List.{append_assoc}
use enkit.Config.Text.{Text, same, same_iff, same_refl}
use enkit.Config.Names.{
  has_name, AreOnce, sort_texts, has_name-sort_texts, sort_texts-AreOnce, sort_texts-twice,
}
use enkit.Blob.Params.{
  Values, find_values, values_or_nil, put_values, set_value, add_value, add_values, keys,
  encode_params, decode_entry, decode_loop, decode_params,
}

-- A name without values gets an empty one.
unfoldable pub pad : List Text → List Text
pad [] = [] ∷ []
pad (x ∷ xs) = x ∷ xs

-- The values of a name after both functions.
unfoldable pub settle : Option (List Text) → Option (List Text)
unfolding pad
settle none = none
settle (some xs) = some (pad (sort_texts xs))

find_values-put_values :
    (m n : Text) (xs : List Text) (vs : Values)
    → find_values m (put_values n xs vs) ≡ (if same n m then some xs else find_values m vs)
unfolding find_values put_values
find_values-put_values m n xs [] = refl
find_values-put_values m n xs ((k, ys) ∷ vs) =
    let ih = find_values-put_values m n xs vs in
    elim (Bool-cases (same k n)) [
      | inl e ↦
          (let x : same k m ≡ same n m = ap (λ y. same y m) ((same_iff k n).0 e) in
            ground (arith, x, e))
      | inr e ↦ elim (Bool-cases (same n m)) [
        | inl f ↦
            (let x : same k m ≡ false = ap (same k) (sym ((same_iff n m).0 f)) ∙ e in
              ground (arith, ih, x, e, f))
        | inr f ↦ ground (arith, ih, e, f)
      ]
    ]

find_values-add_values :
    (m n : Text) (x : Text) (xs : List Text) (vs : Values)
    → find_values m (add_values n (x ∷ xs) vs)
      ≡ (if same n m then some (values_or_nil (find_values n vs) ++ x ∷ xs) else find_values m vs)
unfolding add_values add_value
find_values-add_values m n x [] vs =
    find_values-put_values m n (values_or_nil (find_values n vs) ++ x ∷ []) vs
find_values-add_values m n x (y ∷ xs) vs =
    let old = values_or_nil (find_values n vs) in
    let put : find_values n (add_value n x vs) ≡ some (old ++ x ∷ []) =
      find_values-put_values n n (old ++ x ∷ []) vs ∙ rw (same_refl n) refl in
    let here : values_or_nil (find_values n (add_value n x vs)) ≡ old ++ x ∷ [] =
      ap values_or_nil put in
    let joined : values_or_nil (find_values n (add_value n x vs)) ++ y ∷ xs ≡ old ++ x ∷ y ∷ xs =
      ap (λ l. l ++ y ∷ xs) here ∙ append_assoc old (x ∷ []) (y ∷ xs) in
    let there = find_values-put_values m n (old ++ x ∷ []) vs in
    find_values-add_values m n y xs (add_value n x vs) ∙ ground (arith, joined, there)

find_values-decode_entry :
    (m n : Text) (xs : List Text) (vs : Values)
    → find_values n vs ≡ none
    → find_values m (decode_entry n xs vs) ≡ (if same n m then some (pad xs) else find_values m vs)
unfolding decode_entry set_value pad
find_values-decode_entry m n [] vs h = find_values-put_values m n ([] ∷ []) vs
find_values-decode_entry m n (x ∷ xs) vs h =
    find_values-add_values m n x xs vs
    ∙ ap (λ l. if same n m then some (values_or_nil l ++ x ∷ xs) else find_values m vs) h

find_values-decode_loop :
    (m : Text) (f : Text → List Text) (ns : List Text) (vs : Values)
    → AreOnce ns
    → ((n : Text) → has_name n ns ≡ true → find_values n vs ≡ none)
    → find_values m (decode_loop (map (λ n. (n, f n)) ns) vs)
      ≡ (if has_name m ns then some (pad (f m)) else find_values m vs)
unfolding decode_loop has_name
find_values-decode_loop m f [] vs once new = refl
find_values-decode_loop m f (n ∷ ns) vs (first, once) new =
    let h0 : has_name n (n ∷ ns) ≡ true = ground (arith, same_refl n) in
    let entry = λ (k : Text). find_values-decode_entry k n (f n) vs (new n h0) in
    let ih = find_values-decode_loop m f ns (decode_entry n (f n) vs) once (λ k known.
      elim (Bool-cases (same n k)) [
        | inl e ↦
            (let c : has_name n ns ≡ true = ap (λ y. has_name y ns) ((same_iff n k).0 e) ∙ known in
              cc)
        | inr e ↦
            (let here : has_name k (n ∷ ns) ≡ true = ground (arith, known) in
              entry k ∙ rw e (new k here))
      ]) in
    elim (Bool-cases (same n m)) [
      | inl e ↦
          (let x : n ≡ m = (same_iff n m).0 e in
            let gone : has_name m ns ≡ false = ap (λ y. has_name y ns) (sym x) ∙ first in
            let value : find_values m (decode_entry n (f n) vs) ≡ some (pad (f m)) =
              entry m ∙ rw e (ap (λ y. some (pad (f y))) x) in
            ground (arith, ih, gone, value, e))
      | inr e ↦ (let value = entry m in ground (arith, ih, value, e))
    ]

has_name-keys :
    (m : Text) (vs : Values)
    → find_values m vs
      ≡ (if has_name m (keys vs) then some (values_or_nil (find_values m vs)) else none)
unfolding find_values has_name
has_name-keys m [] = refl
has_name-keys m ((n, xs) ∷ vs) = ground (arith, has_name-keys m vs)

-- After both functions, a name of parameters whose names are different has its values in the order of
-- sort.Strings, and has an empty one if it had none.
pub decode_params-encode_params :
    (vs : Values) (m : Text)
    → AreOnce (keys vs)
    → find_values m (decode_params (encode_params vs)) ≡ settle (find_values m vs)
unfolding decode_params encode_params settle
decode_params-encode_params vs m once =
    let f = λ (n : Text). sort_texts (values_or_nil (find_values n vs)) in
    let x =
      find_values-decode_loop m f (sort_texts (keys vs)) [] (sort_texts-AreOnce (keys vs) once)
        (λ n h. refl) in
    let known = has_name-keys m vs in
    x ∙ elim (Bool-cases (has_name m (keys vs))) [
      | inl e ↦
          (let k : find_values m vs ≡ some (values_or_nil (find_values m vs)) =
              known
              ∙ ap (λ (b : Bool). if b then some (values_or_nil (find_values m vs)) else none) e in
            ap (λ (b : Bool). if b then some (pad (f m)) else none)
              (has_name-sort_texts m (keys vs) ∙ e)
            ∙ sym (ap settle k))
      | inr e ↦
          (let k : find_values m vs ≡ none =
              known
              ∙ ap (λ (b : Bool). if b then some (values_or_nil (find_values m vs)) else none) e in
            ap (λ (b : Bool). if b then some (pad (f m)) else none)
              (has_name-sort_texts m (keys vs) ∙ e)
            ∙ sym (ap settle k))
    ]

-- To settle again changes nothing.
pub settle-twice : (o : Option (List Text)) → settle (settle o) ≡ settle o
unfolding settle pad sort_texts
settle-twice none = refl
settle-twice (some xs) = elim (List-cases (sort_texts xs)) [
  | inl e ↦ rw e refl
  | inr (y, ys, e) ↦
      (let t : sort_texts (y ∷ ys) ≡ y ∷ ys = ap sort_texts (sym e) ∙ sort_texts-twice xs ∙ e in
        rw e (ap (λ l. some (pad l)) t))
]
