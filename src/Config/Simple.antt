-- ===== src/Config/Simple.antt =====
-- lib/config/simple.go: a store of one format.
pub mod Laws
pub mod Listing
use enkit.Common.{ℕ, Bool, Option, none, some, List, [], ◌∷◌, ◌++◌, if◌then◌else◌}
use enkit.Common.Results.{each, Result, ok, err, ◌>>=◌}
use enkit.Config.Text.{Text, same, trim_suffix}
use enkit.Config.Descriptor.{Descriptor, plain, hinted, multi, namespace, key_of}
use enkit.Config.ListOptions.{ListOptions, apply}
use enkit.Config.Loader.{loader_options, Loader, StoreError, unknown_format, Codec, Marshaller}

pub record SimpleStore {ℓ κ} (W : Type ℓ) (V : Type κ) : Type (ℓ ⊔ κ) where
  pub loader : Loader W
  pub marshaller : Marshaller V
  pub key_codec : Codec

module _ {ℓ κ} {W : Type ℓ} {V : Type κ} (ss : SimpleStore W V) where
  abbrev Desc : Type κ
  Desc = Descriptor (Marshaller V)

  unfoldable pub path_for_key : Text → Result StoreError Text
  path_for_key key = do
    encoded ← ss.key_codec.encode key
    ok (encoded ++ b'.' ∷ ss.marshaller.extension)

  unfoldable pub parse_desc : Desc → Result StoreError Text
  parse_desc (hinted k format) =
      if same format ss.marshaller.extension then ok k else err unknown_format
  parse_desc (plain k) = ok k
  parse_desc (multi m k) = ok k
  parse_desc (namespace name path) = ok name

  -- The name of the file of a descriptor, as Marshal and Delete find it.
  unfoldable pub name_of : Desc → Result StoreError Text
  unfolding path_for_key parse_desc
  name_of desc = do key ← parse_desc desc; path_for_key key

  -- Marshal, of a descriptor that is not nil.
  unfoldable pub marshal : Desc → V → W → Result StoreError W
  unfolding name_of
  marshal desc value w = do
    name ← name_of desc
    content ← ss.marshaller.marshal value
    ss.loader.write name content w

  -- An empty file leaves the target as it is.
  unfoldable pub decode : List ℕ → V → Result StoreError V
  decode [] value = ok value
  decode (c ∷ content) value = ss.marshaller.unmarshal (c ∷ content) value

  -- Unmarshal, of a descriptor that is not nil: the key of the returned descriptor, and the value.
  unfoldable pub unmarshal : Desc → V → W → Text × Result StoreError V
  unfolding name_of decode
  unmarshal desc value w = elim (parse_desc desc) [
    | err e ↦ (key_of desc, err e)
    | ok key ↦
        (key, (do name ← path_for_key key; content ← ss.loader.read name w; decode content value))
  ]

  -- Delete, of a descriptor that is not nil.
  unfoldable pub delete : Desc → W → Result StoreError W
  unfolding name_of
  delete desc w = do name ← name_of desc; ss.loader.delete name w

  -- The key of a file that List finds.
  unfoldable pub key_of_name : Text → Result StoreError Text
  key_of_name name = ss.key_codec.decode (trim_suffix name (b'.' ∷ ss.marshaller.extension))

  unfoldable pub describe : Text → Result StoreError Desc
  unfolding key_of_name
  describe name = do key ← key_of_name name; ok (plain key)

  -- List, without callbacks.
  unfoldable pub list : ListOptions → W → Result StoreError (List Desc)
  unfolding describe
  list opts w = do
    loader_opts ← loader_options ss.key_codec opts
    names ← ss.loader.list loader_opts w
    descs ← each describe names
    ok (apply key_of opts descs 7)
