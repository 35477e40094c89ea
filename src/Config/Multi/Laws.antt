-- ===== src/Config/Multi/Laws.antt =====
-- What a MultiFormat store promises, over any loader and codec that meet their interfaces.
use enkit.Common.{
  ℕ, ◌≡◌, ◌∙◌, refl, ap, sym, false, Option, none, some, Option-cases, List, [], ◌∷◌, ◌++◌, inl,
  inr,
}
use enkit.Common.Results.{>>=-ok, Result-cases, ok, err}
use mathlib.Core.Path.{subst}
use enkit.Config.Text.{Text, AreBytes, same, contains, trim_suffix, ext}
use enkit.Config.Path.{trim_dot}
use enkit.Config.Path.Within.{trim_suffix-append, ext-append}
use enkit.Config.Descriptor.{Descriptor, plain, hinted, multi, namespace}
use enkit.Config.Loader.{IsLoader, IsCodec, Marshaller, by_format}
use enkit.Config.Multi.{
  MultiFormat, marshallers, path_for_key, parse_desc, put, marshal, decode, load, load_as,
  load_first, unmarshal, descriptor_of_path,
}

some_inj {ℓ} : {A : Type ℓ} {a b : A} → some a ≡ some b → a ≡ b
some_inj {A} {a} h = ap (λ o. elim o [ none ↦ a | some x ↦ x ]) h

module _ {ℓ κ} {W : Type ℓ} {V : Type κ} (ss : MultiFormat W V) (l : IsLoader ss.loader)
    (c : IsCodec ss.key_codec) where
  abbrev Desc : Type κ
  Desc = Descriptor (Marshaller V)

  -- The key and the format that a descriptor stands for when it is stored.
  abbrev pub target : Desc → Option (Text × Marshaller V)
  target (plain k) = some (k, ss.preferred)
  target (hinted k format) = elim (by_format (marshallers ss) format) [
    | none ↦ none
    | some m ↦ some (k, m)
  ]
  target (multi none k) = none
  target (multi (some m) k) = some (k, m)
  target (namespace name path) = none

  path_for_key-ok :
      (key name : Text) (m : Marshaller V)
      → path_for_key ss key (some m) ≡ ok name
      → (e : Text) × (ss.key_codec.encode key ≡ ok e) × (e ++ b'.' ∷ m.extension ≡ name)
  unfolding path_for_key
  path_for_key-ok key name m h =
      let (e, p, q) =
        >>=-ok (ss.key_codec.encode key) (λ (x : Text). ok (x ++ b'.' ∷ m.extension)) name h in
      (e, p, cc)

  decode-path :
      (key name : Text) (m : Marshaller V)
      → AreBytes key
      → path_for_key ss key (some m) ≡ ok name
      → ss.key_codec.decode (trim_suffix name (b'.' ∷ m.extension)) ≡ ok key
  decode-path key name m bytes h =
      let (e, p, q) = path_for_key-ok key name m h in
      ap (λ n. ss.key_codec.decode (trim_suffix n (b'.' ∷ m.extension))) (sym q)
      ∙ ap ss.key_codec.decode (trim_suffix-append e (b'.' ∷ m.extension))
      ∙ c.decode-encode key e bytes p

  decode-some :
      (m : Marshaller V) (content : List ℕ) (old : V)
      → same content [] ≡ false
      → decode ss m content old ≡ m.unmarshal content old
  unfolding decode same
  decode-some m [] old h = cc
  decode-some m (x ∷ content) old h = refl

  module _ (k : Text) (x : Marshaller V) (value : V) (w w' : W) where
    marshal_multi :
        marshal ss (multi (some x) k) value w ≡ ok w'
        → (name : Text) × (path_for_key ss k (some x) ≡ ok name) × (put ss x name value w ≡ ok w')
    unfolding marshal
    marshal_multi h = elim (Result-cases (path_for_key ss k (some x))) [
      | inl (name, n) ↦
          (let eq : marshal ss (multi (some x) k) value w ≡ put ss x name value w =
              rw (n, marshal) refl in
            (name, n, sym eq ∙ h))
      | inr (e, n) ↦
          (let eq : marshal ss (multi (some x) k) value w ≡ err e = rw (n, marshal) refl in cc)
    ]

    marshal_hinted :
        (format : Text)
        → by_format (marshallers ss) format ≡ some x
        → marshal ss (hinted k format) value w ≡ marshal ss (multi (some x) k) value w
    unfolding marshal parse_desc
    marshal_hinted format e = rw (e, parse_desc, marshal) refl

  module _ (key : Text) (m : Marshaller V) (value old : V) (content : List ℕ) (w w' : W)
      (bytes : AreBytes key) (encoded : m.marshal value ≡ ok content)
      (some_content : same content [] ≡ false) (decoded : m.unmarshal content old ≡ ok value) where
    load_as-put :
        (name : Text)
        → path_for_key ss key (some m) ≡ ok name
        → put ss m name value w ≡ ok w'
        → load_as ss m key old w' ≡ ok (multi (some m) key, value)
    unfolding load_as load put
    load_as-put name n h =
        let (content', e, written) =
          >>=-ok (m.marshal value) (λ x. ss.loader.write name x w) w' h in
        let x : content' ≡ content = cc in
        let r = l.read-write name content' w w' written ∙ ap ok x in
        let d = decode-some m content old some_content ∙ decoded in
        rw (n, r, decode-path key name m bytes n, d) refl

    load_first-put :
        (ms : List (Marshaller V)) (name : Text)
        → path_for_key ss key (some m) ≡ ok name
        → put ss m name value w ≡ ok w'
        → load_first ss m ms key old w' ≡ ok (multi (some m) key, value)
    unfolding load_first
    load_first-put [] name n h = load_as-put name n h
    load_first-put (p ∷ ms) name n h = rw (load_as-put name n h, load_first) refl

    stored_as :
        (k : Text) (x : Marshaller V)
        → marshal ss (multi (some x) k) value w ≡ ok w'
        → ◌≡◌ {A = Text × Marshaller V} (k, x) (key, m)
        → load_as ss x k old w' ≡ ok (multi (some m) key, value)
    stored_as k x h t =
        let (name, n, written) = marshal_multi k x value w w' h in
        let e : k ≡ key = ap (λ p. p.0) t in
        let p : x ≡ m = ap (λ p. p.1) t in
        ap (λ (q : Text × Marshaller V). load_as ss q.1 q.0 old w') t
        ∙ load_as-put name
            (sym (ap (λ (q : Text × Marshaller V). path_for_key ss q.0 (some q.1)) t) ∙ n)
            (sym (ap (λ q. put ss q name value w) p) ∙ written)

    -- What is stored under a descriptor is read back under it, with its key and format, if the
    -- format reads what it wrote and does not write an empty file. A Key is stored in the preferred
    -- format.
    pub unmarshal-put :
        (desc : Desc)
        → marshal ss desc value w ≡ ok w'
        → target desc ≡ some (key, m)
        → unmarshal ss desc old w' ≡ ok (multi (some m) key, value)
    unfolding marshal unmarshal
    unmarshal-put (plain k) h t =
        let (name, n, written) =
          >>=-ok (path_for_key ss k (some ss.preferred)) (λ name. put ss ss.preferred name value w)
            w' h in
        let e : k ≡ key = ap (λ (p : Text × Marshaller V). p.0) (some_inj t) in
        let p : ss.preferred ≡ m = ap (λ (p : Text × Marshaller V). p.1) (some_inj t) in
        subst (λ x. load_first ss x ss.others k old w' ≡ ok (multi (some m) key, value)) (sym p)
          (subst (λ x. load_first ss m ss.others x old w' ≡ ok (multi (some m) key, value)) (sym e)
            (load_first-put ss.others name
              (subst (λ x. path_for_key ss x (some m) ≡ ok name) e
                (subst (λ x. path_for_key ss k (some x) ≡ ok name) p n))
              (subst (λ x. put ss x name value w ≡ ok w') p written)))
    unmarshal-put (hinted k format) h t = elim (Option-cases (by_format (marshallers ss) format)) [
      | inl e ↦ (let t' : target (hinted k format) ≡ none = rw (e, target) refl in cc)
      | inr (x, e) ↦
          (let t' : target (hinted k format) ≡ some (k, x) = rw (e, target) refl in
            rw (e, unmarshal)
              (stored_as k x (sym (marshal_hinted k x value w w' format e) ∙ h)
                (some_inj (sym t' ∙ t))))
    ]
    unmarshal-put (multi none k) h t = cc
    unmarshal-put (multi (some x) k) h t = stored_as k x h (some_inj t)
    unmarshal-put (namespace name path) h t = cc

  -- List gives a file with the extension of a format back as its key and that format.
  pub descriptor_of_path-path_for_key :
      (key name : Text) (m : Marshaller V)
      → AreBytes key
      → path_for_key ss key (some m) ≡ ok name
      → by_format (marshallers ss) m.extension ≡ some m
      → same m.extension [] ≡ false
      → contains b'.' m.extension ≡ false
      → contains b'/' m.extension ≡ false
      → descriptor_of_path ss name ≡ ok (multi (some m) key)
  unfolding descriptor_of_path trim_dot
  descriptor_of_path-path_for_key key name m bytes n known some_extension undotted unslashed =
      let (e, p, q) = path_for_key-ok key name m n in
      let x : ext name ≡ b'.' ∷ m.extension =
        ap ext (sym q) ∙ ext-append e m.extension undotted unslashed in
      let y : trim_dot (ext name) ≡ m.extension = ap trim_dot x in
      let f : same (trim_dot (ext name)) [] ≡ false = ap (λ t. same t []) y ∙ some_extension in
      let g : by_format (marshallers ss) (trim_dot (ext name)) ≡ some m =
        ap (by_format (marshallers ss)) y ∙ known in
      rw (f, g, decode-path key name m bytes n, descriptor_of_path) refl
