-- ===== src/Config/Simple/Laws.antt =====
-- What a SimpleStore promises, over any loader, codec and marshaller that meet their interfaces.
use enkit.Common.{
  if◌then◌else◌, ℕ, ◌≡◌, ◌∙◌, refl, ap, sym, false, List, [], ◌∷◌, ◌++◌, arith, Bool-cases, inl,
  inr,
}
use enkit.Common.Results.{>>=-ok, Result-cases, ok, err, ◌>>=◌}
use enkit.Config.Text.{Text, AreBytes, same, same_iff}
use enkit.Config.Descriptor.{Descriptor}
use enkit.Config.Loader.{IsLoader, not_exist, IsCodec, Marshaller}
use enkit.Config.Simple.{
  SimpleStore, path_for_key, parse_desc, name_of, marshal, decode, unmarshal, delete, key_of_name,
}
use enkit.Config.Text.{trim_suffix}
use enkit.Config.Path.Within.{trim_suffix-append}

module _ {ℓ κ} {W : Type ℓ} {V : Type κ} (ss : SimpleStore W V) (l : IsLoader ss.loader)
    (c : IsCodec ss.key_codec) where
  abbrev Desc : Type κ
  Desc = Descriptor (Marshaller V)

  decode-some :
      (content : List ℕ) (old : V)
      → same content [] ≡ false
      → decode ss content old ≡ ss.marshaller.unmarshal content old
  unfolding decode same
  decode-some [] old h = cc
  decode-some (x ∷ content) old h = refl

  path_for_key-ok :
      (key name : Text)
      → path_for_key ss key ≡ ok name
      → (e : Text) × (ss.key_codec.encode key ≡ ok e) × (e ++ b'.' ∷ ss.marshaller.extension ≡ name)
  unfolding path_for_key
  path_for_key-ok key name h =
      let (e, p, q) =
        >>=-ok (ss.key_codec.encode key) (λ (x : Text). ok (x ++ b'.' ∷ ss.marshaller.extension))
          name h in
      (e, p, cc)

  -- The key of an entry is read back from the name of its file.
  pub key_of_name-path_for_key :
      (key name : Text)
      → AreBytes key
      → path_for_key ss key ≡ ok name
      → key_of_name ss name ≡ ok key
  unfolding key_of_name
  key_of_name-path_for_key key name bytes h =
      let (e, p, q) = path_for_key-ok key name h in
      ap (λ n. ss.key_codec.decode (trim_suffix n (b'.' ∷ ss.marshaller.extension))) (sym q)
      ∙ ap ss.key_codec.decode (trim_suffix-append e (b'.' ∷ ss.marshaller.extension))
      ∙ c.decode-encode key e bytes p

  other_name :
      (k k' n n' : Text)
      → AreBytes k
      → AreBytes k'
      → path_for_key ss k ≡ ok n
      → path_for_key ss k' ≡ ok n'
      → same k k' ≡ false
      → same n n' ≡ false
  other_name k k' n n' b b' h h' d = elim (Bool-cases (same n n')) [
    | inr e ↦ e
    | inl e ↦
        (let keys : ok k ≡ ok k' =
            sym (key_of_name-path_for_key k n b h)
            ∙ ap (key_of_name ss) ((same_iff n n').0 e)
            ∙ key_of_name-path_for_key k' n' b' h' in
          let e' : k ≡ k' = cc in absurd (ground (arith, d, (same_iff k k').1 e')))
  ]

  at_file :
      (desc : Desc) (key name : Text) (old : V) (w : W)
      → parse_desc ss desc ≡ ok key
      → path_for_key ss key ≡ ok name
      → (unmarshal ss desc old w).1 ≡ (ss.loader.read name w >>= λ content. decode ss content old)
  unfolding unmarshal
  at_file desc key name old w p n = rw (p, n, unmarshal) refl

  file_of :
      (desc : Desc) (key name : Text)
      → parse_desc ss desc ≡ ok key
      → name_of ss desc ≡ ok name
      → path_for_key ss key ≡ ok name
  unfolding name_of
  file_of desc key name p h =
      let (k, q, r) = >>=-ok (parse_desc ss desc) (path_for_key ss) name h in
      let e : key ≡ k = cc in rw e r

  -- An entry is read from the file of its key.
  unchanged :
      (desc' : Desc) (key key' name : Text) (old : V) (w w' : W)
      → AreBytes key
      → AreBytes key'
      → parse_desc ss desc' ≡ ok key'
      → path_for_key ss key ≡ ok name
      → same key key' ≡ false
      → ((m : Text) → same name m ≡ false → ss.loader.read m w' ≡ ss.loader.read m w)
      → (unmarshal ss desc' old w').1 ≡ (unmarshal ss desc' old w).1
  unfolding unmarshal
  unchanged desc' key key' name old w w' b b' p n d same_read =
      elim (Result-cases (path_for_key ss key')) [
        | inl (name', n') ↦
            at_file desc' key' name' old w' p n'
            ∙ ap (λ r. r >>= λ content. decode ss content old)
                (same_read name' (other_name key key' name name' b b' n n' d))
            ∙ sym (at_file desc' key' name' old w p n')
        | inr (e, n') ↦ rw (p, n', unmarshal) refl
      ]

  -- After a value was stored under a descriptor, it is what every descriptor of the same key reads,
  -- if it is not encoded as an empty file, and descriptors of other keys read what they did before.
  pub unmarshal-marshal :
      (desc desc' : Desc) (key key' : Text) (value old : V) (content : List ℕ) (w w' : W)
      → AreBytes key
      → AreBytes key'
      → marshal ss desc value w ≡ ok w'
      → parse_desc ss desc ≡ ok key
      → parse_desc ss desc' ≡ ok key'
      → ss.marshaller.marshal value ≡ ok content
      → same content [] ≡ false
      → ss.marshaller.unmarshal content old ≡ ok value
      → (unmarshal ss desc' old w').1
        ≡ (if same key key' then ok value else (unmarshal ss desc' old w).1)
  unfolding marshal
  unmarshal-marshal desc desc' key key' value old content w w' b b' h p p' m some_content u =
      let (name, at_name, rest) =
        >>=-ok (name_of ss desc)
          (λ name. ss.marshaller.marshal value >>= λ content. ss.loader.write name content w) w'
          h in
      let (content', m', written) =
        >>=-ok (ss.marshaller.marshal value) (λ content. ss.loader.write name content w) w' rest in
      let n = file_of desc key name p at_name in
      let e : content' ≡ content = cc in
      elim (Bool-cases (same key key')) [
        | inl t ↦ rw t (
            let k : key ≡ key' = (same_iff key key').0 t in
            (at_file desc' key' name old w' p' (ap (path_for_key ss) (sym k) ∙ n)
              ∙ ap (λ r. r >>= λ content. decode ss content old)
                  (l.read-write name content' w w' written)
              ∙ ap (λ x. decode ss x old) e
              ∙ decode-some content old some_content
              ∙ u))
        | inr d ↦ rw d (
            unchanged desc' key key' name old w w' b b' p' n d
              (λ o. l.read-write_other name o content' w w' written))
      ]

  -- After an entry was deleted, its key is not found, and descriptors of other keys read what they did
  -- before.
  unmarshal-delete :
      (desc desc' : Desc) (key key' : Text) (old : V) (w w' : W)
      → AreBytes key
      → AreBytes key'
      → delete ss desc w ≡ ok w'
      → parse_desc ss desc ≡ ok key
      → parse_desc ss desc' ≡ ok key'
      → (unmarshal ss desc' old w').1
        ≡ (if same key key' then err not_exist else (unmarshal ss desc' old w).1)
  unfolding delete
  unmarshal-delete desc desc' key key' old w w' b b' h p p' =
      let (name, at_name, deleted) =
        >>=-ok (name_of ss desc) (λ name. ss.loader.delete name w) w' h in
      let n = file_of desc key name p at_name in
      elim (Bool-cases (same key key')) [
        | inl t ↦ rw t (
            let k : key ≡ key' = (same_iff key key').0 t in
            (at_file desc' key' name old w' p' (ap (path_for_key ss) (sym k) ∙ n)
              ∙ ap (λ r. r >>= λ content. decode ss content old) (l.read-delete name w w' deleted)))
        | inr d ↦ rw d (
            unchanged desc' key key' name old w w' b b' p' n d
              (λ o. l.read-delete_other name o w w' deleted))
      ]
