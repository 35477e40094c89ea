-- ===== src/Config/Path/Within.antt =====
-- ResolvePathWithinStore: what a relative path in a store stands for.
use enkit.Common.{
  ◌-◌, ◌≡◌, ◌∙◌, refl, ap, sym, true, false, List, [], ◌∷◌, ◌++◌, length, length-append, take, drop,
  drop-append_right, leb, ◌==◌, arith, Bool-cases, inl, inr,
}
use enkit.Common.Results.{ok}
use enkit.Config.Text.{
  Text, AreBytes, same, same_iff, same_refl, contains, has_prefix, trim_suffix, split_first, split,
  join, ext_from, ext,
}
use enkit.Config.KeyCodec.{is_escaped, encode_key}
use enkit.Config.KeyCodec.Roundtrip.{decode_key-encode_key}
use enkit.Config.Descriptor.{hinted, requested_format_key}
use enkit.Config.Path.{
  StoreRoot, dot, dots, is_invalid_part, init, last, clean_step, climb, clean_loop, join_clean,
  clean, trim_dot, resolve_base, resolve_clean, resolve_path_within_store,
}
use enkit.Config.Path.Roundtrip.{
  AreNames, split_first-append, split_first-name, split_first-join, names_valid, init-snoc,
  last-snoc, IsTrimmed,
}
use mathlib.Core.List.{reverse, reverse-cons, append_assoc, append-nil}

take-append : (s t : Text) → take (length s) (s ++ t) ≡ s
take-append [] t = refl
take-append (c ∷ s) t = ap (λ l. c ∷ l) (take-append s t)

pub trim_suffix-append : (s t : Text) → trim_suffix (s ++ t) t ≡ s
unfolding trim_suffix
trim_suffix-append s t =
    let n : length (s ++ t) - length t ≡ length s = omega (arith, length-append s t) in
    let d : drop (length s) (s ++ t) ≡ t = drop-append_right (length s) 0 s t (omega arith) in
    let l : leb (length t) (length (s ++ t)) ≡ true = ground (arith, length-append s t) in
    rw (n, d, l, same_refl t) (take-append s t)

ext-none : (f : Text) → contains b'.' f ≡ false → ext f ≡ []
unfolding ext contains
ext-none [] h = refl
ext-none (c ∷ f) h =
    let tail : contains b'.' f ≡ false = ground arith in
    let head : (c == b'.') ≡ false = ground arith in rw (ext-none f tail, head) refl

pub ext-append :
    (k f : Text)
    → contains b'.' f ≡ false
    → contains b'/' f ≡ false
    → ext (k ++ b'.' ∷ f) ≡ b'.' ∷ f
unfolding ext ext_from
ext-append [] f h g = rw (ext-none f h, g) refl
ext-append (c ∷ k) f h g = rw (ext-append k f h g) refl

-- A path of proper names is clean.
clean_step-name :
    (stack : List Text) (s : Text)
    → is_invalid_part s ≡ false
    → clean_step stack 0 s ≡ (s ∷ stack, 0)
unfolding clean_step is_invalid_part
clean_step-name stack s h = ground arith

clean_loop-names : (stack l : List Text) → AreNames l → clean_loop stack 0 l ≡ reverse stack ++ l
unfolding clean_loop climb
clean_loop-names stack [] a = sym (append-nil (reverse stack))
clean_loop-names stack (s ∷ r) (h, v, a) = rw (clean_step-name stack s v) (
    clean_loop-names (s ∷ stack) r a
    ∙ ap (λ l. l ++ r) (reverse-cons s stack)
    ∙ append_assoc (reverse stack) (s ∷ []) r)

clean-join : (s : Text) (r : List Text) → AreNames (s ∷ r) → clean (join (s ∷ r)) ≡ join (s ∷ r)
unfolding clean split join_clean
clean-join s r a =
    let parts = split_first-join s r a in
    let kept = clean_loop-names [] (s ∷ r) a in rw (parts, kept) refl

absurd_same : (s p : Text) → s ≡ p → same s p ≡ false → ⊥
absurd_same s p e n = ground (arith, (same_iff s p).1 e)

-- Where a joined path is some text, or starts with some segment.
same_first :
    (s : Text) (r : List Text) (p : Text)
    → AreNames (s ∷ r)
    → contains b'/' p ≡ false
    → same s p ≡ false
    → same (join (s ∷ r)) p ≡ false
same_first s r p a h n = elim (Bool-cases (same (join (s ∷ r)) p)) [
  | inr e ↦ e
  | inl e ↦
      (let path : join (s ∷ r) ≡ p = (same_iff (join (s ∷ r)) p).0 e in
        let first : s ≡ p =
          ap (λ (q : Text × List Text). q.0)
            (sym (split_first-join s r a) ∙ ap split_first path ∙ split_first-name p h) in
        absurd (absurd_same s p first n))
]

prefix_rest : (x p : Text) → has_prefix x (p ++ b'/' ∷ []) ≡ true → (t : Text) × (x ≡ p ++ b'/' ∷ t)
unfolding has_prefix
prefix_rest [] [] h = cc
prefix_rest [] (d ∷ p) h = cc
prefix_rest (c ∷ x) [] h = (x, ap (λ d. d ∷ x) (ground arith))
prefix_rest (c ∷ x) (d ∷ p) h = let (t, e) = prefix_rest x p (ground arith) in (t, ground arith)

prefix_first :
    (s : Text) (r : List Text) (p : Text)
    → AreNames (s ∷ r)
    → contains b'/' p ≡ false
    → same s p ≡ false
    → has_prefix (join (s ∷ r)) (p ++ b'/' ∷ []) ≡ false
prefix_first s r p a h n = elim (Bool-cases (has_prefix (join (s ∷ r)) (p ++ b'/' ∷ []))) [
  | inr e ↦ e
  | inl e ↦
      (let (t, path) = prefix_rest (join (s ∷ r)) p e in
        let first : s ≡ p =
          ap (λ (q : Text × List Text). q.0)
            (sym (split_first-join s r a) ∙ ap split_first path ∙ split_first-append p t h) in
        absurd (absurd_same s p first n))
]

is_invalid_parts :
    (s : Text)
    → is_invalid_part s ≡ false
    → (same s [] ≡ false) × (same s dot ≡ false) × (same s dots ≡ false)
unfolding is_invalid_part
is_invalid_parts s h = ground arith

resolve_clean-names {ℓ} :
    {M : Type ℓ} (root : StoreRoot) (s : Text) (r : List Text)
    → AreNames (s ∷ r)
    → resolve_clean {M = M} root (join (s ∷ r)) ≡ resolve_base root (init s r) (last s r)
unfolding resolve_clean contains
resolve_clean-names root s r a =
    let (h, v, b) = a in
    let (not_empty, not_dot, not_dots) = is_invalid_parts s v in
    rw
      (
        same_first s r dot a refl not_dot,
        same_first s r [] a refl not_empty,
        same_first s r dots a refl not_dots,
        prefix_first s r dots a refl not_dots,
        split_first-join s r a,
        names_valid (s ∷ r) a,
      )
      refl

encode_key-some : (key : Text) → same key [] ≡ false → same (encode_key key) [] ≡ false
unfolding encode_key same
encode_key-some [] h = h
encode_key-some (c ∷ s) h = elim (Bool-cases (is_escaped c)) [
  | inl e ↦ rw e refl
  | inr e ↦ rw e refl
]

requested_some {ℓ} :
    {M : Type ℓ} (key format : Text)
    → same format [] ≡ false
    → requested_format_key {M = M} key format ≡ hinted key format
unfolding requested_format_key same
requested_some key [] h = cc
requested_some key (c ∷ format) h = refl

resolve_base-encoded {ℓ} :
    {M : Type ℓ} (root : StoreRoot) (parents : List Text) (key format : Text)
    → AreBytes key
    → same key [] ≡ false
    → same format [] ≡ false
    → contains b'.' format ≡ false
    → contains b'/' format ≡ false
    → resolve_base {M = M} root parents (encode_key key ++ b'.' ∷ format)
      ≡ ok (record {
        store_root = record { app_name = root.app_name; namespaces = root.namespaces ++ parents };
        descriptor = hinted key format;
      })
unfolding resolve_base trim_dot same
resolve_base-encoded root parents key format bytes some_key some_format undotted unslashed =
    rw
      (
        ext-append (encode_key key) format undotted unslashed,
        trim_suffix-append (encode_key key) (b'.' ∷ format),
        encode_key-some key some_key,
        decode_key-encode_key key bytes,
        requested_some key format some_format,
      )
      refl

abbrev inits : List Text → List Text
inits [] = []
inits (s ∷ r) = init s r

abbrev lasts : List Text → Text
lasts [] = []
lasts (s ∷ r) = last s r

inits-snoc : (l : List Text) (x : Text) → inits (l ++ x ∷ []) ≡ l
unfolding init
inits-snoc [] x = refl
inits-snoc (s ∷ r) x = init-snoc s r x

lasts-snoc : (l : List Text) (x : Text) → lasts (l ++ x ∷ []) ≡ x
unfolding last
lasts-snoc [] x = refl
lasts-snoc (s ∷ r) x = last-snoc s r x

-- A relative path of proper names, whose last one is an encoded key with the extension of a format,
-- stands for that key in the namespaces that the path goes down to from the root of the store, if it
-- does not start with the segment `~` and no white space is at its ends.
resolve_path_within_store-join {ℓ} :
    {M : Type ℓ} (root : StoreRoot) (s : Text) (r parents : List Text) (key format : Text)
    → s ∷ r ≡ parents ++ (encode_key key ++ b'.' ∷ format) ∷ []
    → AreNames (s ∷ r)
    → AreBytes key
    → same key [] ≡ false
    → same format [] ≡ false
    → contains b'.' format ≡ false
    → contains b'/' format ≡ false
    → same root.app_name [] ≡ false
    → same s (b'~' ∷ []) ≡ false
    → IsTrimmed (join (s ∷ r))
    → resolve_path_within_store {M = M} root (join (s ∷ r))
      ≡ ok (record {
        store_root = record { app_name = root.app_name; namespaces = root.namespaces ++ parents };
        descriptor = hinted key format;
      })
unfolding resolve_path_within_store contains
resolve_path_within_store-join root s r parents key format path a bytes some_key some_format
      undotted unslashed app home trimmed =
    let (h, v, b) = a in
    let (not_empty, not_dot, not_dots) = is_invalid_parts s v in
    rw
      (
        trimmed,
        same_first s r [] a refl not_empty,
        app,
        prefix_first s r [] a refl not_empty,
        same_first s r (b'~' ∷ []) a refl home,
        prefix_first s r (b'~' ∷ []) a refl home,
        clean-join s r a,
        resolve_clean-names root s r a,
      )
      (ap (λ l. resolve_base root (inits l) (lasts l)) path
        ∙ ap (λ l. resolve_base root l (lasts (parents ++ (encode_key key ++ b'.' ∷ format) ∷ [])))
            (inits-snoc parents (encode_key key ++ b'.' ∷ format))
        ∙ ap (resolve_base root parents) (lasts-snoc parents (encode_key key ++ b'.' ∷ format))
        ∙ resolve_base-encoded root parents key format bytes some_key some_format undotted
            unslashed)
