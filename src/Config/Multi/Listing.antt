-- ===== src/Config/Multi/Listing.antt =====
-- What List of a MultiFormat store gives back.
use enkit.Common.{◌≡◌, ◌∙◌, refl, ap, sym, false, some, List, [], ◌∷◌, map}
use enkit.Common.Results.{each, each-ok, ok}
use enkit.Config.Text.{Text, AreBytes, same, contains}
use enkit.Config.Descriptor.{Descriptor, multi}
use enkit.Config.ListOptions.{ListOptions, apply}
use enkit.Config.Loader.{IsLoader, IsCodec, Marshaller, by_format, loader_options}
use enkit.Config.Multi.{MultiFormat, marshallers, path_for_key, descriptor_of_path, list}
use enkit.Config.Multi.Laws.{descriptor_of_path-path_for_key}

module _ {ℓ κ} {W : Type ℓ} {V : Type κ} (ss : MultiFormat W V) (l : IsLoader ss.loader)
    (c : IsCodec ss.key_codec) where
  abbrev pub Entry : Type κ
  Entry = Text × Marshaller V

  abbrev pub described_as : Entry → Descriptor (Marshaller V)
  described_as e = multi (some e.1) e.0

  -- The format is the first one of its extension, which is a name without dots and slashes.
  abbrev pub IsKnown : Entry → Type κ
  IsKnown e =
      AreBytes e.0
      × (by_format (marshallers ss) e.1.extension ≡ some e.1)
      × (same e.1.extension [] ≡ false)
      × (contains b'.' e.1.extension ≡ false)
      × (contains b'/' e.1.extension ≡ false)

  abbrev pub AreKnown : List Entry → Type κ
  AreKnown [] = Unit
  AreKnown (e ∷ es) = IsKnown e × AreKnown es

  described :
      (es : List Entry) (names : List Text)
      → AreKnown es
      → each (λ (e : Entry). path_for_key ss e.0 (some e.1)) es ≡ ok names
      → each (descriptor_of_path ss) names ≡ ok (map described_as es)
  unfolding each
  described [] names known h =
      let h' : ok [] ≡ ok names = h in
      let e : [] ≡ names = cc in ap (each (descriptor_of_path ss)) (sym e)
  described (e ∷ es) names (k, known) h =
      let (n, ns, p, q, r) = each-ok (λ (e : Entry). path_for_key ss e.0 (some e.1)) e es names h in
      let (bytes, first, named, undotted, unslashed) = k in
      let desc =
        descriptor_of_path-path_for_key ss l c e.0 n e.1 bytes p first named undotted unslashed in
      ap (each (descriptor_of_path ss)) (sym r) ∙ rw (desc, described es ns known q, each) refl

  -- When the loader lists just the files of some keys in some formats, List gives back these keys and
  -- formats, in the order of the files, if each format is found by its extension; where to start
  -- and how many to list is left to the loader.
  pub list-known :
      (opts loader_opts : ListOptions) (es : List Entry) (names : List Text) (w : W)
      → AreKnown es
      → loader_options ss.key_codec opts ≡ ok loader_opts
      → ss.loader.list loader_opts w ≡ ok names
      → each (λ (e : Entry). path_for_key ss e.0 (some e.1)) es ≡ ok names
      → list ss opts w ≡ ok (map described_as es)
  unfolding list apply
  list-known opts loader_opts es names w known o n h =
      rw (o, n, described es names known h, list) refl
