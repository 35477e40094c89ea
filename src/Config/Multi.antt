-- ===== src/Config/Multi.antt =====
-- lib/config/multi.go: a store of several formats. Of what Unmarshal returns, the descriptor that
-- comes with an error is not modelled, nor what a failed decoding leaves in the target.
pub mod Laws
pub mod Listing
pub mod Deletion
use enkit.Common.{
  ℕ, zero, suc, ◌+◌, Bool, true, false, Option, none, some, List, [], ◌∷◌, ◌++◌, length,
  if◌then◌else◌, ◌==◌,
}
use enkit.Common.Results.{each, Result, ok, err, ◌>>=◌}
use enkit.Config.Text.{Text, same, trim_suffix, ext}
use enkit.Config.Path.{trim_dot}
use enkit.Config.Descriptor.{key_of, Descriptor, plain, hinted, multi, namespace}
use enkit.Config.ListOptions.{ListOptions, apply}
use enkit.Config.Loader.{
  loader_options, Loader, StoreError, not_exist, unknown_format, api_usage, failed, nil_marshaller,
  Codec, Marshaller, by_format,
}

-- OpenMulti sees to it that there is a marshaller.
pub record MultiFormat {ℓ κ} (W : Type ℓ) (V : Type κ) : Type (ℓ ⊔ κ) where
  pub loader : Loader W
  pub preferred : Marshaller V
  pub others : List (Marshaller V)
  pub key_codec : Codec

module _ {ℓ κ} {W : Type ℓ} {V : Type κ} (ss : MultiFormat W V) where
  abbrev pub marshallers : List (Marshaller V)
  marshallers = ss.preferred ∷ ss.others

  abbrev Desc : Type κ
  Desc = Descriptor (Marshaller V)

  unfoldable pub path_for_key : Text → Option (Marshaller V) → Result StoreError Text
  path_for_key key none = ss.key_codec.encode key
  path_for_key key (some m) = do
    encoded ← ss.key_codec.encode key
    ok (encoded ++ b'.' ∷ m.extension)

  -- parseDesc: a name, which for a Key is not encoded yet, and a marshaller that may be nil.
  unfoldable pub parse_desc : Desc → Result StoreError (Text × Option (Marshaller V))
  unfolding path_for_key
  parse_desc (plain k) = ok (k, none)
  parse_desc (hinted k format) = elim (by_format marshallers format) [
    | none ↦ err unknown_format
    | some m ↦ (do name ← path_for_key k (some m); ok (name, some m))
  ]
  parse_desc (multi m k) = do name ← path_for_key k m; ok (name, m)
  parse_desc (namespace name path) = err api_usage

  unfoldable pub put : Marshaller V → Text → V → W → Result StoreError W
  put m name value w = do content ← m.marshal value; ss.loader.write name content w

  -- Marshal.
  unfoldable pub marshal : Desc → V → W → Result StoreError W
  unfolding parse_desc put
  marshal desc value w = do
    parsed ← parse_desc desc
    elim parsed.1 [
      | some m ↦ put m parsed.0 value w
      | none ↦ (do name ← path_for_key parsed.0 (some ss.preferred); put ss.preferred name value w)
    ]

  unfoldable pub decode : Marshaller V → List ℕ → V → Result StoreError V
  decode m [] value = ok value
  decode m (c ∷ content) value = m.unmarshal (c ∷ content) value

  -- The closure `load` of Unmarshal.
  unfoldable pub load : Marshaller V → Text → V → W → Result StoreError (Desc × V)
  unfolding decode
  load m path value w = do
    content ← ss.loader.read path w
    key ← ss.key_codec.decode (trim_suffix path (b'.' ∷ m.extension))
    value' ← decode m content value
    ok (multi (some m) key, value')

  unfoldable pub load_as : Marshaller V → Text → V → W → Result StoreError (Desc × V)
  unfolding path_for_key load
  load_as m key value w = do path ← path_for_key key (some m); load m path value w

  -- The loop over the formats of a Key: the first that loads, or the last error. An error of
  -- pathForKey ends the loop, and would be the same in every round.
  unfoldable pub load_first :
      Marshaller V → List (Marshaller V) → Text → V → W → Result StoreError (Desc × V)
  unfolding load_as
  load_first m [] key value w = load_as m key value w
  load_first m (n ∷ ms) key value w =
      let rest = load_first n ms key value w in
      elim (load_as m key value w) [ ok r ↦ ok r | err e ↦ rest ]

  -- Unmarshal.
  unfoldable pub unmarshal : Desc → V → W → Result StoreError (Desc × V)
  unfolding load_first load_as
  unmarshal (plain k) value w = load_first ss.preferred ss.others k value w
  unmarshal (multi (some m) k) value w = load_as m k value w
  unmarshal (multi none k) value w = do
    path ← path_for_key k none
    content ← ss.loader.read path w
    err nil_marshaller
  unmarshal (hinted k format) value w = elim (by_format marshallers format) [
    | none ↦ err unknown_format
    | some m ↦ load_as m k value w
  ]
  unmarshal (namespace name path) value w = err api_usage

  -- One round of the loop of Delete: the world, whether the file did not exist, and an error.
  unfoldable pub delete_one : Marshaller V → Text → W → W × ℕ × List StoreError
  unfolding path_for_key
  delete_one m key w = elim (path_for_key key (some m)) [
    | err e ↦ (w, 0, e ∷ [])
    | ok name ↦ elim (ss.loader.delete name w) [
      | ok w' ↦ (w', 0, [])
      | err not_exist ↦ (w, 1, [])
      | err e ↦ (w, 0, e ∷ [])
    ]
  ]

  unfoldable pub delete_all : List (Marshaller V) → Text → W → W × ℕ × List StoreError
  unfolding delete_one
  delete_all [] key w = (w, 0, [])
  delete_all (m ∷ ms) key w =
      let one = delete_one m key w in
      let rest = delete_all ms key one.0 in (rest.0, one.1 + rest.1, one.2 ++ rest.2)

  -- multierror.New, of errors that are not nil.
  unfoldable pub all_errors : List StoreError → Option (List StoreError)
  all_errors [] = none
  all_errors (e ∷ es) = some (e ∷ es)

  -- The end of Delete, for a Key.
  unfoldable pub delete_key : Text → W → W × Option (List StoreError)
  unfolding delete_all all_errors
  delete_key key w =
      let out = delete_all marshallers key w in
      (out.0, (if out.1 == length marshallers then some (not_exist ∷ []) else all_errors out.2))

  unfoldable pub delete_file : Text → W → W × Option (List StoreError)
  delete_file name w = elim (ss.loader.delete name w) [
    | ok w' ↦ (w', none)
    | err e ↦ (w, some (e ∷ []))
  ]

  -- Delete: the world, and the errors, `none` for nil.
  unfoldable pub delete : Desc → W → W × Option (List StoreError)
  unfolding parse_desc delete_key delete_file
  delete desc w = elim (parse_desc desc) [
    | err e ↦ (w, some (e ∷ []))
    | ok parsed ↦ elim parsed.1 [ none ↦ delete_key parsed.0 w | some m ↦ delete_file parsed.0 w ]
  ]

  -- newMultiDescriptorFromPath, for a name that List finds.
  unfoldable pub descriptor_of_path : Text → Result StoreError Desc
  descriptor_of_path path = elim (same (trim_dot (ext path)) []) [
    | true ↦ (do key ← ss.key_codec.decode path; ok (multi none key))
    | false ↦ elim (by_format marshallers (trim_dot (ext path))) [
      | none ↦ (do key ← ss.key_codec.decode path; ok (multi none key))
      | some m ↦ (do
        key ← ss.key_codec.decode (trim_suffix path (b'.' ∷ m.extension))
        ok (multi (some m) key))
    ]
  ]

  -- List, without callbacks.
  unfoldable pub list : ListOptions → W → Result StoreError (List Desc)
  unfolding descriptor_of_path
  list opts w = do
    loader_opts ← loader_options ss.key_codec opts
    names ← ss.loader.list loader_opts w
    descs ← each descriptor_of_path names
    ok (apply key_of opts descs 7)
