-- ===== src/Config/Path.antt =====
-- lib/config/path.go: paths of the form app/namespace/key.
pub mod Roundtrip
pub mod Within
use enkit.Common.{
  ℕ, zero, suc, ◌+◌, ◌-◌, ◌≤◌, ◌<◌, Bool, true, false, not, ◌&&◌, ◌||◌, Option, none, some, List,
  [], ◌∷◌, ◌++◌, length, take, drop, if◌then◌else◌, ltb, leb, ◌==◌,
}
use enkit.Common.Results.{Result, ok, err, ◌>>=◌}
use enkit.Config.Text.{
  Text, same, trim_space, has_prefix, trim_suffix, split, split_first, join, ext,
}
use enkit.Config.KeyCodec.{decode_key}
use enkit.Config.Descriptor.{Descriptor, plain, hinted, multi, key_of, requested_format_key}
use mathlib.Core.List.{reverse}

pub record StoreRoot : Type 0 where
  pub app_name : Text
  pub namespaces : List Text

pub record ParsedPath {ℓ} (M : Type ℓ) : Type ℓ where
  pub store_root : StoreRoot
  pub descriptor : Descriptor M

-- The messages of the errors, without their arguments.
pub data PathError : Type 0 where
  empty_path too_short invalid_path no_app_name not_relative home_relative no_file escapes :
      PathError
  wrong_extension unknown_extension : PathError

abbrev pub dot : Text
dot = b'.' ∷ []

abbrev pub dots : Text
dots = b'.' ∷ b'.' ∷ []

-- `part == "" || part == "." || part == ".."`
unfoldable pub is_invalid_part : Text → Bool
unfolding same
is_invalid_part part = same part [] || same part dot || same part dots

unfoldable pub has_invalid_part : List Text → Bool
unfolding is_invalid_part
has_invalid_part [] = false
has_invalid_part (part ∷ parts) = is_invalid_part part || has_invalid_part parts

-- `parts[:len(parts)-1]` and `parts[len(parts)-1]`, for the list `part ∷ parts`.
unfoldable pub init : Text → List Text → List Text
init part [] = []
init part (x ∷ parts) = part ∷ init x parts

unfoldable pub last : Text → List Text → Text
last part [] = part
last part (x ∷ parts) = last x parts

unfoldable pub parse_parts {ℓ} : {M : Type ℓ} → List Text → Result PathError (ParsedPath M)
unfolding has_invalid_part init last
parse_parts [] = err too_short
parse_parts (part ∷ []) = err too_short
parse_parts (app ∷ part ∷ parts) =
    if has_invalid_part (app ∷ part ∷ parts)
    then err invalid_path
    else ok (record {
      store_root = record { app_name = app; namespaces = init part parts };
      descriptor = plain (decode_key (last part parts));
    })

-- DefaultParsePath.
unfoldable pub default_parse_path {ℓ} : {M : Type ℓ} → Text → Result PathError (ParsedPath M)
unfolding parse_parts
default_parse_path path =
    let path' = trim_space path in
    if same path' [] then err empty_path else parse_parts (split path')

-- path.Clean of Go's library, for a path that does not start with a slash: the segments that
-- stand, last first, and how many `..` stand in front of them.
unfoldable pub clean_step : List Text → ℕ → Text → List Text × ℕ
unfolding same
clean_step stack ups part =
    if same part [] || same part dot
    then (stack, ups)
    else (if same part dots
        then elim stack [ [] ↦ ([], suc ups) | x ∷ rest ↦ (rest, ups) ]
        else (part ∷ stack, ups))

unfoldable pub climb : ℕ → List Text → List Text
climb zero parts = parts
climb (suc ups) parts = dots ∷ climb ups parts

unfoldable pub clean_loop : List Text → ℕ → List Text → List Text
unfolding clean_step climb
clean_loop stack ups [] = climb ups (reverse stack)
clean_loop stack ups (part ∷ parts) =
    let step = clean_step stack ups part in clean_loop step.0 step.1 parts

unfoldable pub join_clean : List Text → Text
join_clean [] = dot
join_clean (part ∷ parts) = join (part ∷ parts)

unfoldable pub clean : Text → Text
unfolding clean_loop join_clean
clean name = join_clean (clean_loop [] 0 (split name))

-- strings.TrimPrefix(ext, ".")
unfoldable pub trim_dot : Text → Text
trim_dot [] = []
trim_dot (c ∷ s) = if c == b'.' then s else c ∷ s

-- The end of ResolvePathWithinStore: the key and the format of the last segment.
unfoldable pub resolve_base {ℓ} :
    {M : Type ℓ} → StoreRoot → List Text → Text → Result PathError (ParsedPath M)
unfolding trim_dot
resolve_base root parents base =
    let key = if same (ext base) [] then base else trim_suffix base (ext base) in
    if same key []
    then err no_file
    else ok (record {
      store_root = record { app_name = root.app_name; namespaces = root.namespaces ++ parents };
      descriptor = requested_format_key (decode_key key) (trim_dot (ext base));
    })

unfoldable pub resolve_clean {ℓ} : {M : Type ℓ} → StoreRoot → Text → Result PathError (ParsedPath M)
unfolding resolve_base has_invalid_part init last
resolve_clean root name =
    if same name dot || same name []
    then err no_file
    else (if same name dots || has_prefix name (b'.' ∷ b'.' ∷ b'/' ∷ [])
        then err escapes
        else (let (first, rest) = split_first name in
            if has_invalid_part (first ∷ rest)
            then err invalid_path
            else resolve_base root (init first rest) (last first rest)))

-- ResolvePathWithinStore.
unfoldable pub resolve_path_within_store {ℓ} :
    {M : Type ℓ} → StoreRoot → Text → Result PathError (ParsedPath M)
unfolding resolve_clean
resolve_path_within_store root name =
    let name' = trim_space name in
    if same name' []
    then err empty_path
    else (if same root.app_name []
        then err no_app_name
        else (if has_prefix name' (b'/' ∷ [])
            then err not_relative
            else (if same name' (b'~' ∷ []) || has_prefix name' (b'~' ∷ b'/' ∷ [])
                then err home_relative
                else resolve_clean root (clean name'))))

-- resolveSimpleParsedPath, for the extension of the marshaller.
unfoldable pub resolve_simple_parsed_path {ℓ} :
    {M : Type ℓ} → Text → ParsedPath M → Result PathError (ParsedPath M)
resolve_simple_parsed_path extension parsed = elim parsed.descriptor [
  | hinted k format ↦
      if same format extension
      then ok (record parsed { descriptor = plain k })
      else err wrong_extension
  | _ ↦ ok (record parsed { descriptor = plain (key_of parsed.descriptor) })
]

-- resolveMultiParsedPath; `by_format` finds a marshaller by its extension.
unfoldable pub resolve_multi_parsed_path {ℓ} :
    {M : Type ℓ} → (Text → Option M) → ParsedPath M → Result PathError (ParsedPath M)
resolve_multi_parsed_path by_format parsed = elim parsed.descriptor [
  | hinted k format ↦ elim (by_format format) [
    | none ↦ err unknown_extension
    | some m ↦ ok (record parsed { descriptor = multi (some m) k })
  ]
  | _ ↦ ok (record parsed { descriptor = plain (key_of parsed.descriptor) })
]
