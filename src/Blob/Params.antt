-- ===== src/Blob/Params.antt =====
-- lib/config/blob/url_codec.go: the parameters of a URL as the entries of a token, and back.
pub mod Roundtrip
pub mod Valid
use enkit.Common.{Bool, true, false, Option, none, some, List, [], ◌∷◌, ◌++◌, map, if◌then◌else◌}
use enkit.Config.Text.{Text, same}
use enkit.Config.Names.{sort_texts}

-- url.Values: a map whose keys are different. A nil map is an empty one.
abbrev pub Values : Type 0
Values = List (Text × List Text)

unfoldable pub find_values : Text → Values → Option (List Text)
find_values n [] = none
find_values n ((m, xs) ∷ vs) = let rest = find_values n vs in if same m n then some xs else rest

-- `values[k]`
abbrev pub values_or_nil : Option (List Text) → List Text
values_or_nil none = []
values_or_nil (some xs) = xs

abbrev pub first_or_empty : List Text → Text
first_or_empty [] = []
first_or_empty (x ∷ xs) = x

-- url.Values.Get.
abbrev pub get_value : Text → Values → Text
get_value n vs = first_or_empty (values_or_nil (find_values n vs))

unfoldable pub put_values : Text → List Text → Values → Values
put_values n xs [] = (n, xs) ∷ []
put_values n xs ((m, ys) ∷ vs) =
    let rest = put_values n xs vs in if same m n then (m, xs) ∷ vs else (m, ys) ∷ rest

-- url.Values.Set.
unfoldable pub set_value : Text → Text → Values → Values
unfolding put_values
set_value n x vs = put_values n (x ∷ []) vs

-- url.Values.Add.
unfoldable pub add_value : Text → Text → Values → Values
unfolding put_values find_values
add_value n x vs = put_values n (values_or_nil (find_values n vs) ++ x ∷ []) vs

-- Add of each of the values.
unfoldable pub add_values : Text → List Text → Values → Values
unfolding add_value
add_values n [] vs = vs
add_values n (x ∷ xs) vs = add_values n xs (add_value n x vs)

abbrev pub keys : Values → List Text
keys [] = []
keys ((n, xs) ∷ vs) = n ∷ keys vs

-- encodeTokenParams. The entries are tokenParamEntry: a key and its values.
unfoldable pub encode_params : Values → Values
unfolding sort_texts find_values
encode_params vs =
    map (λ n. (n, sort_texts (values_or_nil (find_values n vs)))) (sort_texts (keys vs))

-- An entry of decodeTokenParams.
unfoldable pub decode_entry : Text → List Text → Values → Values
unfolding set_value add_values
decode_entry n [] vs = set_value n [] vs
decode_entry n (x ∷ xs) vs = add_values n (x ∷ xs) vs

-- The loop of decodeTokenParams.
unfoldable pub decode_loop : Values → Values → Values
unfolding decode_entry
decode_loop [] vs = vs
decode_loop ((n, xs) ∷ entries) vs = decode_loop entries (decode_entry n xs vs)

-- decodeTokenParams.
unfoldable pub decode_params : Values → Values
unfolding decode_loop
decode_params entries = decode_loop entries []
