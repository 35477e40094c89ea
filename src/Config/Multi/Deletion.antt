-- ===== src/Config/Multi/Deletion.antt =====
-- Delete of a Key removes it in every format.
use enkit.Common.{
  ℕ, ◌≡◌, ◌∙◌, refl, ap, sym, Option, none, some, List, [], ◌∷◌, ◌++◌, length, ◌==◌, Bool-cases,
  inl, inr, ◌⊎◌,
}
use enkit.Common.Results.{Result-cases, ok, err}
use enkit.Config.Text.{Text, same, same_iff}
use enkit.Config.Descriptor.{plain}
use enkit.Config.Loader.{
  IsLoader, StoreError, not_exist, unknown_format, api_usage, failed, nil_marshaller, Marshaller,
}
use enkit.Config.Multi.{
  MultiFormat, marshallers, path_for_key, load, load_as, load_first, unmarshal, parse_desc,
  delete_one, delete_all, all_errors, delete_key, delete,
}
use mathlib.Core.Path.{subst}

module _ {ℓ κ} {W : Type ℓ} {V : Type κ} (ss : MultiFormat W V) where
  -- There is no file for the key in the format.
  abbrev pub Gone : Text → W → Marshaller V → Type 0
  Gone key w m =
      (name : Text) × (path_for_key ss key (some m) ≡ ok name)
      × (ss.loader.read name w ≡ err not_exist)

  abbrev pub AllGone : Text → W → List (Marshaller V) → Type 0
  AllGone key w [] = Unit
  AllGone key w (m ∷ ms) = Gone key w m × AllGone key w ms

  load_as-Gone :
      (m : Marshaller V) (key : Text) (old : V) (w : W)
      → Gone key w m
      → load_as ss m key old w ≡ err not_exist
  unfolding load_as load
  load_as-Gone m key old w (name, n, r) = rw (n, r) refl

  load_first-AllGone :
      (m : Marshaller V) (ms : List (Marshaller V)) (key : Text) (old : V) (w : W)
      → AllGone key w (m ∷ ms)
      → load_first ss m ms key old w ≡ err not_exist
  unfolding load_first
  load_first-AllGone m [] key old w (g, gs) = load_as-Gone m key old w g
  load_first-AllGone m (n ∷ ms) key old w (g, gs) =
      rw (load_as-Gone m key old w g, load_first) (load_first-AllGone n ms key old w gs)

  some_errors : (es : List StoreError) → all_errors ss es ≡ none → es ≡ []
  unfolding all_errors
  some_errors [] h = refl
  some_errors (e ∷ es) h = cc

  append_nil : (a b : List StoreError) → a ++ b ≡ [] → (a ≡ []) × (b ≡ [])
  append_nil [] b h = (refl, h)
  append_nil (e ∷ a) b h = cc

  module _ (l : IsLoader ss.loader) where
    still_gone :
        (n m : Text) (w w' : W)
        → ss.loader.read n w ≡ err not_exist
        → ss.loader.delete m w ≡ ok w'
        → ss.loader.read n w' ≡ err not_exist
    still_gone n m w w' gone d = elim (Bool-cases (same m n)) [
      | inl e ↦
          (let e' : m ≡ n = (same_iff m n).0 e in
            subst (λ x. ss.loader.read x w' ≡ err not_exist) e' (l.read-delete m w w' d))
      | inr e ↦ l.read-delete_other m n w w' d e ∙ gone
    ]

    -- A round fails, deletes a file or does not find one.
    delete_one-cases :
        (m : Marshaller V) (key : Text) (w : W)
        → ((e : StoreError) × (delete_one ss m key w ≡ (w, 0, e ∷ [])))
          ⊎ ((name : Text) × (w' : W) × (path_for_key ss key (some m) ≡ ok name)
              × (ss.loader.delete name w ≡ ok w')
              × (delete_one ss m key w ≡ (w', 0, [])))
          ⊎ ((name : Text) × (path_for_key ss key (some m) ≡ ok name)
              × (ss.loader.delete name w ≡ err not_exist)
              × (delete_one ss m key w ≡ (w, 1, [])))
    unfolding delete_one
    delete_one-cases m key w = elim (Result-cases (path_for_key ss key (some m))) [
      | inr (e, h) ↦ inl (e, rw (h, delete_one) refl)
      | inl (name, h) ↦ elim (Result-cases (ss.loader.delete name w)) [
        | inl (w', d) ↦ inr (inl (name, w', h, d, rw (h, d, delete_one) refl))
        | inr (not_exist, d) ↦ inr (inr (name, h, d, rw (h, d, delete_one) refl))
        | inr (unknown_format, d) ↦ inl (unknown_format, rw (h, d, delete_one) refl)
        | inr (api_usage, d) ↦ inl (api_usage, rw (h, d, delete_one) refl)
        | inr (failed e, d) ↦ inl (failed e, rw (h, d, delete_one) refl)
        | inr (nil_marshaller, d) ↦ inl (nil_marshaller, rw (h, d, delete_one) refl)
      ]
    ]

    Gone-delete_one :
        (key : Text) (m p : Marshaller V) (w : W)
        → Gone key w p
        → Gone key ((delete_one ss m key w).0) p
    Gone-delete_one key m p w (n, at, gone) = elim (delete_one-cases m key w) [
      | inl (e, h) ↦ rw h (n, at, gone)
      | inr (inl (name, w', h, d, o)) ↦ rw o (n, at, still_gone n name w w' gone d)
      | inr (inr (name, h, d, o)) ↦ rw o (n, at, gone)
    ]

    delete_one-Gone :
        (key : Text) (m : Marshaller V) (w : W)
        → (delete_one ss m key w).2 ≡ []
        → Gone key ((delete_one ss m key w).0) m
    delete_one-Gone key m w none_failed = elim (delete_one-cases m key w) [
      | inl (e, h) ↦
          (let some_failed : e ∷ [] ≡ [] =
              sym (ap (λ (o : W × ℕ × List StoreError). o.2) h) ∙ none_failed in
            cc)
      | inr (inl (name, w', h, d, o)) ↦ rw o (name, h, l.read-delete name w w' d)
      | inr (inr (name, h, d, o)) ↦ rw o (name, h, l.read-delete_missing name w d)
    ]

    Gone-delete_all :
        (key : Text) (ms : List (Marshaller V)) (p : Marshaller V) (w : W)
        → Gone key w p
        → Gone key ((delete_all ss ms key w).0) p
    unfolding delete_all
    Gone-delete_all key [] p w g = g
    Gone-delete_all key (m ∷ ms) p w g = Gone-delete_all key ms p _ (Gone-delete_one key m p w g)

    delete_all-AllGone :
        (key : Text) (ms : List (Marshaller V)) (w : W)
        → (delete_all ss ms key w).2 ≡ []
        → AllGone key ((delete_all ss ms key w).0) ms
    unfolding delete_all
    delete_all-AllGone key [] w none_failed = tt
    delete_all-AllGone key (m ∷ ms) w none_failed =
        let (here, later) =
          append_nil ((delete_one ss m key w).2)
            ((delete_all ss ms key ((delete_one ss m key w).0)).2) none_failed in
        (
          Gone-delete_all key ms m _ (delete_one-Gone key m w here),
          delete_all-AllGone key ms _ later,
        )

    delete_key-none :
        (key : Text) (w w' : W)
        → delete_key ss key w ≡ (w', none)
        → ((delete_all ss (marshallers ss) key w).0 ≡ w')
          × ((delete_all ss (marshallers ss) key w).2 ≡ [])
    unfolding delete_key
    delete_key-none key w w' h =
        let out = delete_all ss (marshallers ss) key w in
        elim (Bool-cases (out.1 == length (marshallers ss))) [
          | inl e ↦
              (let o : delete_key ss key w ≡ (out.0, some (not_exist ∷ [])) =
                  rw (e, delete_key) refl in
                let c : some (not_exist ∷ []) ≡ none =
                  ap (λ (p : W × Option (List StoreError)). p.1) (sym o ∙ h) in
                cc)
          | inr e ↦
              (let o : delete_key ss key w ≡ (out.0, all_errors ss out.2) =
                  rw (e, delete_key) refl in
                (
                  ap (λ (p : W × Option (List StoreError)). p.0) (sym o ∙ h),
                  some_errors out.2 (ap (λ (p : W × Option (List StoreError)). p.1) (sym o ∙ h)),
                ))
        ]

    -- When Delete of a Key reports no error, no format has a file for the key, and the key is not
    -- found.
    pub unmarshal-delete_key :
        (key : Text) (old : V) (w w' : W)
        → delete ss (plain key) w ≡ (w', none)
        → AllGone key w' (marshallers ss) × (unmarshal ss (plain key) old w' ≡ err not_exist)
    unfolding delete unmarshal parse_desc
    unmarshal-delete_key key old w w' h =
        let (world, none_failed) = delete_key-none key w w' h in
        let gone : AllGone key w' (marshallers ss) =
          subst (λ x. AllGone key x (marshallers ss)) world
            (delete_all-AllGone key (marshallers ss) w none_failed) in
        (gone, load_first-AllGone ss.preferred ss.others key old w' gone)
