-- ===== src/Config/Loader.antt =====
-- The interfaces of lib/config between stores, loaders, marshallers and key codecs.
use enkit.Common.{ℕ, ◌≡◌, ◌∙◌, ap, sym, false, Option, none, some, List, [], ◌∷◌, if◌then◌else◌}
use enkit.Common.Results.{◌>>=◌, Result, ok, err}
use enkit.Config.Text.{Text, AreBytes, same}
use enkit.Config.ListOptions.{ListOptions}
use enkit.Config.KeyCodec.{encode_key, decode_key}
use enkit.Config.KeyCodec.Roundtrip.{decode_key-encode_key}

-- `not_exist` is what os.IsNotExist recognises.
pub data StoreError : Type 0 where
  not_exist unknown_format api_usage : StoreError
  failed : ℕ → StoreError
  -- Go panics: a method of a marshaller that is nil.
  nil_marshaller : StoreError

-- The interface Loader, over a world `W` that holds the data.
pub record Loader {ℓ} (W : Type ℓ) : Type ℓ where
  pub read : Text → W → Result StoreError (List ℕ)
  pub write : Text → List ℕ → W → Result StoreError W
  pub delete : Text → W → Result StoreError W
  pub list : ListOptions → W → Result StoreError (List Text)

-- What stores rely on: names are independent, and errors change nothing.
pub record IsLoader {ℓ} {W : Type ℓ} (l : Loader W) : Type ℓ where
  pub read-write : (n : Text) (d : List ℕ) (w w' : W) → l.write n d w ≡ ok w' → l.read n w' ≡ ok d
  pub read-write_other :
      (n m : Text) (d : List ℕ) (w w' : W)
      → l.write n d w ≡ ok w'
      → same n m ≡ false
      → l.read m w' ≡ l.read m w
  pub read-delete : (n : Text) (w w' : W) → l.delete n w ≡ ok w' → l.read n w' ≡ err not_exist
  pub read-delete_other :
      (n m : Text) (w w' : W) → l.delete n w ≡ ok w' → same n m ≡ false → l.read m w' ≡ l.read m w
  pub read-delete_missing :
      (n : Text) (w : W) → l.delete n w ≡ err not_exist → l.read n w ≡ err not_exist

-- The interface KeyCodec.
pub record Codec : Type 0 where
  pub encode : Text → Result StoreError Text
  pub decode : Text → Result StoreError Text

pub record IsCodec (c : Codec) : Type 0 where
  pub decode-encode : (k e : Text) → AreBytes k → c.encode k ≡ ok e → c.decode e ≡ ok k

-- DefaultKeyCodec.
abbrev pub default_key_codec : Codec
default_key_codec = record { encode = λ k. ok (encode_key k); decode = λ k. ok (decode_key k) }

pub default_key_codec-IsCodec : IsCodec default_key_codec
default_key_codec-IsCodec = record {
  decode-encode = λ k e bytes h.
      let p : encode_key k ≡ e = cc in
      ap ok (ap decode_key (sym p) ∙ decode_key-encode_key k bytes);
}

-- The interface FileMarshaller, for values of a type `V`; `unmarshal` also takes what the target
-- held before.
pub record Marshaller {ℓ} (V : Type ℓ) : Type ℓ where
  pub marshal : V → Result StoreError (List ℕ)
  pub unmarshal : List ℕ → V → Result StoreError V
  pub extension : Text

-- ByFormat.
unfoldable pub by_format {ℓ} : {V : Type ℓ} → List (Marshaller V) → Text → Option (Marshaller V)
by_format [] format = none
by_format (m ∷ ms) format =
    let rest = by_format ms format in if same m.extension format then some m else rest

-- The options that the List of a store passes to that of its loader.
unfoldable pub loader_options : Codec → ListOptions → Result StoreError ListOptions
loader_options codec opts =
    if same opts.start_from []
    then ok opts
    else (do encoded ← codec.encode opts.start_from; ok (record opts { start_from = encoded }))
