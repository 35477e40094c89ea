-- ===== src/Blob/Params/Valid.antt =====
-- Parameters of texts that a marshaller can write, and parameters that are alike.
use enkit.Common.{
  ◌≡◌, ◌∙◌, refl, ap, sym, true, false, Bool-cases, inl, inr, Option, none, some, List, [], ◌∷◌,
  map,
}
use enkit.Config.Text.{Text, same, same_refl, before}
use enkit.Config.Names.{AreOnce, place, sort_texts}
use enkit.Token.Associated.{is_empty}
use enkit.Blob.Params.{
  Values, find_values, values_or_nil, first_or_empty, get_value, put_values, set_value, keys,
  encode_params, decode_params,
}
use enkit.Blob.Params.Roundtrip.{pad, settle, settle-twice, decode_params-encode_params}

-- The same names with the same values, in whatever order, but for an empty value in place of none.
abbrev pub IsLike : Values → Values → Type 0
IsLike p q = (n : Text) → settle (find_values n p) ≡ settle (find_values n q)

pub decode_params-IsLike :
    (vs : Values) → AreOnce (keys vs) → IsLike vs (decode_params (encode_params vs))
decode_params-IsLike vs once n =
    sym (settle-twice (find_values n vs)) ∙ sym (ap settle (decode_params-encode_params vs n once))

pub IsLike-nil : (q : Values) → IsLike [] q → q ≡ []
unfolding find_values settle
IsLike-nil [] h = refl
IsLike-nil ((n, xs) ∷ q) h =
    let x : find_values n ((n, xs) ∷ q) ≡ some xs = rw (same_refl n, find_values) refl in
    let y : none ≡ some (pad (sort_texts xs)) = h n ∙ ap settle x in cc

place-cons : (k : Text) (ks : List Text) → (j : Text) × (js : List Text) × (place k ks ≡ j ∷ js)
unfolding place
place-cons k [] = (k, [], refl)
place-cons k (j ∷ ks) = elim (Bool-cases (before k j)) [
  | inl e ↦ (k, j ∷ ks, rw e refl)
  | inr e ↦ (j, place k ks, rw e refl)
]

place-two :
    (k j : Text) (ks : List Text)
    → (a : Text) × (b : Text) × (c : List Text) × (place k (j ∷ ks) ≡ a ∷ b ∷ c)
unfolding place
place-two k j ks = elim (Bool-cases (before k j)) [
  | inl e ↦ (k, j, ks, rw e refl)
  | inr e ↦ (let (a, l, p) = place-cons k ks in (j, a, l, rw e (ap (λ x. j ∷ x) p)))
]

-- One value that is not empty is the first value of all that are alike.
single-first :
    (o : Option (List Text)) (raw : Text)
    → is_empty raw ≡ false
    → settle o ≡ some (raw ∷ [])
    → first_or_empty (values_or_nil o) ≡ raw
unfolding settle pad sort_texts place
single-first none raw filled h = cc
single-first (some []) raw filled h =
    let x : [] ≡ raw = cc in let y : true ≡ false = ap is_empty x ∙ filled in cc
single-first (some (x ∷ [])) raw filled h = cc
single-first (some (x ∷ y ∷ ys)) raw filled h =
    let (j, js, p) = place-cons y (sort_texts ys) in
    let (a, b, c, q) = place-two x j js in
    let e : settle (some (x ∷ y ∷ ys)) ≡ some (a ∷ b ∷ c) =
      ap (λ l. some (pad (place x l))) p ∙ ap (λ l. some (pad l)) q in
    let k : some (a ∷ b ∷ c) ≡ some (raw ∷ []) = sym e ∙ h in cc

pub get_value-set_value :
    (name raw : Text) (q : Values)
    → is_empty raw ≡ false
    → IsLike (set_value name raw []) q
    → get_value name q ≡ raw
unfolding set_value put_values find_values settle pad sort_texts place
get_value-set_value name raw q filled h =
    let x : find_values name (set_value name raw []) ≡ some (raw ∷ []) =
      rw (same_refl name, find_values) refl in
    single-first (find_values name q) raw filled (sym (h name) ∙ ap settle x)

module _ (valid : Text → Type 0) where
  abbrev pub AllTexts : List Text → Type 0
  AllTexts [] = Unit {0}
  AllTexts (x ∷ xs) = valid x × AllTexts xs

  abbrev pub AllValid : Values → Type 0
  AllValid [] = Unit {0}
  AllValid ((n, xs) ∷ vs) = valid n × (AllTexts xs × AllValid vs)

  -- The keys are different, as those of a map are, and all texts are valid.
  abbrev pub AreValid : Values → Type 0
  AreValid vs = AreOnce (keys vs) × AllValid vs

  place-AllTexts : (k : Text) (ks : List Text) → valid k → AllTexts ks → AllTexts (place k ks)
  unfolding place
  place-AllTexts k [] v all = (v, tt)
  place-AllTexts k (j ∷ ks) v (first, all) = elim (Bool-cases (before k j)) [
    | inl e ↦ rw e (v, (first, all))
    | inr e ↦ rw e (first, place-AllTexts k ks v all)
  ]

  sort_texts-AllTexts : (ks : List Text) → AllTexts ks → AllTexts (sort_texts ks)
  unfolding sort_texts
  sort_texts-AllTexts [] all = tt
  sort_texts-AllTexts (k ∷ ks) (v, all) =
      place-AllTexts k (sort_texts ks) v (sort_texts-AllTexts ks all)

  keys-AllTexts : (vs : Values) → AllValid vs → AllTexts (keys vs)
  keys-AllTexts [] all = tt
  keys-AllTexts ((n, xs) ∷ vs) (v, (here, all)) = (v, keys-AllTexts vs all)

  find_values-AllTexts :
      (n : Text) (vs : Values) → AllValid vs → AllTexts (values_or_nil (find_values n vs))
  unfolding find_values
  find_values-AllTexts n [] all = tt
  find_values-AllTexts n ((m, xs) ∷ vs) (v, (here, all)) = elim (Bool-cases (same m n)) [
    | inl e ↦ rw e here
    | inr e ↦ rw e (find_values-AllTexts n vs all)
  ]

  map-AllValid :
      (f : Text → List Text) (ns : List Text)
      → AllTexts ns
      → ((n : Text) → AllTexts (f n))
      → AllValid (map (λ n. (n, f n)) ns)
  map-AllValid f [] all each = tt
  map-AllValid f (n ∷ ns) (v, all) each = (v, (each n, map-AllValid f ns all each))

  pub encode_params-AllValid : (vs : Values) → AllValid vs → AllValid (encode_params vs)
  unfolding encode_params
  encode_params-AllValid vs all =
      map-AllValid (λ n. sort_texts (values_or_nil (find_values n vs))) (sort_texts (keys vs))
        (sort_texts-AllTexts (keys vs) (keys-AllTexts vs all))
        (λ n.
          sort_texts-AllTexts (values_or_nil (find_values n vs)) (find_values-AllTexts n vs all))
