-- ===== src/Config/Examples.antt =====
-- Runs of the configuration model, and its theorems at concrete inputs.
use enkit.Common.{ap, ◌≡◌, refl, false, not, none, some, [], ◌∷◌, ◌++◌, keep, take, drop, arith}
use enkit.Common.Results.{each, ok, err}
use enkit.Config.Text.{
  Text, AreBytes, before, same, contains, join, is_space, trim_left, put_unless_space, trim_right,
  trim_space, ext, ext_from,
}
use enkit.Config.KeyCodec.{encode_key, decode_key}
use enkit.Config.KeyCodec.Roundtrip.{decode_key-encode_key}
use enkit.Config.ListOptions.{ListOptions, apply, apply_start_from, apply_offset_limit}
use enkit.Config.ListOptions.StartFrom.{IsSorted, apply_start_from-keep}
use enkit.Config.Descriptor.{plain, hinted, multi}
use enkit.Config.Path.{StoreRoot, trim_dot, is_invalid_part}
use enkit.Config.Path.Roundtrip.{AreNames, IsTrimmed}
use enkit.Config.Loader.{
  loader_options, default_key_codec, default_key_codec-IsCodec, Marshaller, by_format, not_exist,
  nil_marshaller,
}
use enkit.Config.Memory.{
  Entries, memory_loader, list, find, read, insert, write, remove, delete, sorted_names,
}
use enkit.Config.Names.{place}
use enkit.Config.Memory.Laws.{memory_loader-IsLoader, id_key}
use enkit.Config.Simple.{SimpleStore}
use enkit.Config.Simple
use enkit.Config.Simple.Laws.{unmarshal-marshal}
use enkit.Config.Multi.{MultiFormat, marshallers, descriptor_of_path}
use enkit.Config.Multi
use enkit.Config.Multi.Laws.{target, unmarshal-put}
use enkit.Config.Multi.Listing.{Entry, AreKnown, list-known}
use enkit.Config.Multi.Deletion.{AllGone, unmarshal-delete_key}

-- `a/b`
abbrev slashed : Text
slashed = b'a' ∷ b'/' ∷ b'b' ∷ []

abbrev astore : Text
astore = b'a' ∷ b's' ∷ b't' ∷ []

abbrev work : Text
work = b'w' ∷ []

abbrev toml_name : Text
toml_name = b't' ∷ b'm' ∷ []

-- A format that stores texts as they are.
abbrev toml : Marshaller Text
toml = record { marshal = λ v. ok v; unmarshal = λ c old. ok c; extension = toml_name }

-- A format with a leading byte.
abbrev json : Marshaller Text
json = record {
  marshal = λ v. ok (b'"' ∷ v);
  unmarshal = λ c old. ok (elim c [ [] ↦ [] | x ∷ r ↦ r ]);
  extension = b'j' ∷ [];
}

abbrev simple : SimpleStore Entries Text
simple = record { loader = memory_loader; marshaller = toml; key_codec = default_key_codec }

abbrev several : MultiFormat Entries Text
several = record {
  loader = memory_loader;
  preferred = toml;
  others = json ∷ [];
  key_codec = default_key_codec;
}

-- `ab.tm` and `ab.j`
abbrev files : Entries
files =
    (b'a' ∷ b'b' ∷ b'.' ∷ toml_name, 1 ∷ [])
    ∷ (b'a' ∷ b'b' ∷ b'.' ∷ b'j' ∷ [], b'"' ∷ 2 ∷ [])
    ∷ (b'c' ∷ b'.' ∷ b'x' ∷ [], 3 ∷ [])
    ∷ []

abbrev ab : Text
ab = b'a' ∷ b'b' ∷ []

encoded_slash : encode_key slashed ≡ b'a' ∷ b'%' ∷ b'2' ∷ b'F' ∷ b'b' ∷ []
unfolding encode_key
encoded_slash = refl

slashed-AreBytes : AreBytes slashed
slashed-AreBytes = (omega arith, (omega arith, (omega arith, tt)))

ab-AreBytes : AreBytes ab
ab-AreBytes = (omega arith, (omega arith, tt))

decode_key-encode_key_example : decode_key (encode_key slashed) ≡ slashed
decode_key-encode_key_example = decode_key-encode_key slashed slashed-AreBytes

ordered : IsSorted id_key (ab ∷ astore ∷ work ∷ [])
unfolding before
ordered = ((refl, (refl, tt)), ((refl, tt), (tt, tt)))

apply_start_from-keep_example :
    apply_start_from id_key (ab ∷ astore ∷ work ∷ []) astore
    ≡ keep (λ d. not (before d astore)) (ab ∷ astore ∷ work ∷ [])
apply_start_from-keep_example =
    apply_start_from-keep id_key (ab ∷ astore ∷ work ∷ []) astore ordered

astore-work-AreNames : AreNames (astore ∷ work ∷ [])
unfolding contains is_invalid_part same
astore-work-AreNames = (refl, refl, (refl, refl, tt))

proper_slash : is_invalid_part (encode_key slashed) ≡ false
unfolding is_invalid_part encode_key same
proper_slash = refl

IsTrimmed-path : IsTrimmed (join (astore ∷ work ∷ encode_key slashed ∷ []))
unfolding join encode_key trim_space trim_left trim_right put_unless_space is_space
IsTrimmed-path = refl

abbrev root : StoreRoot
root = record { app_name = astore; namespaces = [] }

abbrev file : Text
file = encode_key ab ++ b'.' ∷ toml_name

work-file-AreNames : AreNames (work ∷ file ∷ [])
unfolding contains is_invalid_part same encode_key
work-file-AreNames = (refl, refl, (refl, refl, tt))

IsTrimmed-file : IsTrimmed (join (work ∷ file ∷ []))
unfolding join encode_key trim_space trim_left trim_right put_unless_space is_space
IsTrimmed-file = refl

-- `ab` is stored, and read back under its name and format.
simple_after : Simple.marshal simple (plain ab) (7 ∷ []) files ≡ ok ((file, 7 ∷ []) ∷ drop 1 files)
unfolding Simple.marshal Simple.name_of Simple.parse_desc Simple.path_for_key write insert
    encode_key same
simple_after = refl

hinted_key : Simple.parse_desc simple (hinted ab toml_name) ≡ ok ab
unfolding Simple.parse_desc same
hinted_key = refl

plain_key : (key : Text) → Simple.parse_desc simple (plain key) ≡ ok key
unfolding Simple.parse_desc
plain_key key = refl

unmarshal-marshal_example :
    (Simple.unmarshal simple (hinted ab toml_name) [] ((file, 7 ∷ []) ∷ drop 1 files)).1
    ≡ ok (7 ∷ [])
unfolding same
unmarshal-marshal_example =
    unmarshal-marshal simple memory_loader-IsLoader default_key_codec-IsCodec (plain ab)
      (hinted ab toml_name) ab ab (7 ∷ []) [] (7 ∷ []) files ((file, 7 ∷ []) ∷ drop 1 files)
      ab-AreBytes ab-AreBytes simple_after (plain_key ab) hinted_key refl refl refl

simple_deleted : Simple.delete simple (plain ab) files ≡ ok (drop 1 files)
unfolding Simple.delete Simple.name_of Simple.parse_desc Simple.path_for_key delete find remove
    encode_key same
simple_deleted = refl

abbrev file_json : Text
file_json = encode_key ab ++ b'.' ∷ json.extension

-- `ab` is stored as its second format.
multi_after :
    Multi.marshal several (hinted ab json.extension) (7 ∷ []) files
    ≡ ok (take 1 files ++ (file_json, b'"' ∷ 7 ∷ []) ∷ drop 2 files)
unfolding Multi.marshal Multi.parse_desc Multi.put Multi.path_for_key by_format write insert
    encode_key same
multi_after = refl

second_target :
    target several memory_loader-IsLoader default_key_codec-IsCodec (hinted ab json.extension)
    ≡ some (ab, json)
unfolding by_format same
second_target = refl

unmarshal-put_example :
    Multi.unmarshal several
      (hinted ab json.extension)
      []
      (take 1 files ++ (file_json, b'"' ∷ 7 ∷ []) ∷ drop 2 files)
    ≡ ok (multi (some json) ab, 7 ∷ [])
unfolding same
unmarshal-put_example =
    unmarshal-put several memory_loader-IsLoader default_key_codec-IsCodec ab json (7 ∷ []) []
      (b'"' ∷ 7 ∷ []) files (take 1 files ++ (file_json, b'"' ∷ 7 ∷ []) ∷ drop 2 files) ab-AreBytes
      refl refl refl (hinted ab json.extension) multi_after second_target

-- `c.x`
abbrev stray : Text
stray = b'c' ∷ b'.' ∷ b'x' ∷ []

-- List gives back a file whose extension no format has, and Unmarshal panics at the descriptor.
stray_listed : descriptor_of_path several stray ≡ ok (multi none stray)
unfolding descriptor_of_path by_format same trim_dot ext ext_from decode_key
stray_listed = refl

stray_panics : Multi.unmarshal several (multi none stray) [] files ≡ err nil_marshaller
unfolding Multi.unmarshal Multi.path_for_key Multi.parse_desc encode_key read find same
stray_panics = refl

multi_deleted : Multi.delete several (plain ab) files ≡ (drop 2 files, none)
unfolding Multi.delete Multi.parse_desc Multi.delete_key Multi.delete_all Multi.delete_one
    Multi.path_for_key Multi.all_errors delete find remove encode_key same
multi_deleted = refl

unmarshal-delete_key_example :
    AllGone several ab (drop 2 files) (marshallers several)
    × (Multi.unmarshal several (plain ab) [] (drop 2 files) ≡ err not_exist)
unmarshal-delete_key_example =
    unmarshal-delete_key several memory_loader-IsLoader ab [] files (drop 2 files) multi_deleted

abbrev all_names : ListOptions
all_names = record { limit = 0; offset = 0; start_from = [] }

two_listed : list all_names (take 2 files) ≡ file_json ∷ file ∷ []
unfolding list sorted_names place before apply apply_start_from apply_offset_limit encode_key
two_listed = refl

no_start : loader_options default_key_codec all_names ≡ ok all_names
unfolding loader_options same
no_start = refl

two_files :
    each
      (λ (e : Entry several memory_loader-IsLoader default_key_codec-IsCodec).
        Multi.path_for_key several e.0 (some e.1))
      ((ab, json) ∷ (ab, toml) ∷ [])
    ≡ ok (file_json ∷ file ∷ [])
unfolding each Multi.path_for_key
two_files = refl

both_known :
    AreKnown several memory_loader-IsLoader default_key_codec-IsCodec ((ab, json) ∷ (ab, toml) ∷ [])
unfolding by_format same contains
both_known = ((ab-AreBytes, refl, refl, refl, refl), ((ab-AreBytes, refl, refl, refl, refl), tt))

list-known_example :
    Multi.list several all_names (take 2 files)
    ≡ ok (multi (some json) ab ∷ multi (some toml) ab ∷ [])
list-known_example =
    list-known several memory_loader-IsLoader default_key_codec-IsCodec all_names all_names
      ((ab, json) ∷ (ab, toml) ∷ []) (file_json ∷ file ∷ []) (take 2 files) both_known no_start
      (ap ok two_listed) two_files
