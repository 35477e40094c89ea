-- ===== src/Config/Simple/Listing.antt =====
-- What List of a SimpleStore gives back.
use enkit.Common.{◌≡◌, ◌∙◌, refl, ap, sym, List, [], ◌∷◌, map}
use enkit.Common.Results.{each, each-ok, ok}
use enkit.Config.Text.{Text, AreBytes}
use enkit.Config.Descriptor.{plain}
use enkit.Config.ListOptions.{ListOptions, apply}
use enkit.Config.Loader.{IsLoader, IsCodec, loader_options}
use enkit.Config.Simple.{SimpleStore, path_for_key, describe, list}
use enkit.Config.Simple.Laws.{key_of_name-path_for_key}

abbrev pub AllBytes : List Text → Type 0
AllBytes [] = Unit {0}
AllBytes (k ∷ ks) = AreBytes k × AllBytes ks

module _ {ℓ κ} {W : Type ℓ} {V : Type κ} (ss : SimpleStore W V) (l : IsLoader ss.loader)
    (c : IsCodec ss.key_codec) where
  described :
      (keys names : List Text)
      → AllBytes keys
      → each (path_for_key ss) keys ≡ ok names
      → each (describe ss) names ≡ ok (map plain keys)
  unfolding each describe
  described [] names bytes h =
      let h' : ok [] ≡ ok names = h in let e : [] ≡ names = cc in ap (each (describe ss)) (sym e)
  described (k ∷ ks) names (b, bytes) h =
      let (n, ns, p, q, r) = each-ok (path_for_key ss) k ks names h in
      let key = key_of_name-path_for_key ss l c k n b p in
      let desc : describe ss n ≡ ok (plain k) = rw (key, describe) refl in
      ap (each (describe ss)) (sym r) ∙ rw (desc, described ks ns bytes q, each) refl

  -- When the loader lists just the files of some keys, List gives back these keys, in the order of the
  -- files; where to start and how many to list is left to the loader.
  pub list-path_for_key :
      (opts loader_opts : ListOptions) (keys names : List Text) (w : W)
      → AllBytes keys
      → loader_options ss.key_codec opts ≡ ok loader_opts
      → ss.loader.list loader_opts w ≡ ok names
      → each (path_for_key ss) keys ≡ ok names
      → list ss opts w ≡ ok (map plain keys)
  unfolding list apply
  list-path_for_key opts loader_opts keys names w bytes o n h =
      rw (o, n, described keys names bytes h, list) refl
