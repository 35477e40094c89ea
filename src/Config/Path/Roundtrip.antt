-- ===== src/Config/Path/Roundtrip.antt =====
-- Paths that are joined from segments are read back.
use enkit.Common.{◌≡◌, ◌∙◌, refl, ap, false, List, [], ◌∷◌, ◌++◌, ◌==◌, arith}
use enkit.Common.Results.{ok}
use enkit.Config.Text.{Text, AreBytes, same, contains, trim_space, split_first, split, join}
use enkit.Config.KeyCodec.{encode_key, decode_key}
use enkit.Config.KeyCodec.Roundtrip.{decode_key-encode_key, encode_key-contains}
use enkit.Config.Descriptor.{plain}
use enkit.Config.Path.{
  is_invalid_part, has_invalid_part, init, last, parse_parts, default_parse_path,
}

-- The segments of a path hold no slash, and are proper names.
abbrev pub AreNames : List Text → Type 0
AreNames [] = Unit {0}
AreNames (s ∷ r) = (contains b'/' s ≡ false) × (is_invalid_part s ≡ false) × AreNames r

pub split_first-append :
    (s t : Text)
    → contains b'/' s ≡ false
    → split_first (s ++ b'/' ∷ t) ≡ (s, (split_first t).0 ∷ (split_first t).1)
unfolding split_first contains
split_first-append [] t h = refl
split_first-append (c ∷ s) t h =
    let tail : contains b'/' s ≡ false = ground arith in
    let head : (c == b'/') ≡ false = ground arith in rw (head, split_first-append s t tail) refl

pub split_first-name : (s : Text) → contains b'/' s ≡ false → split_first s ≡ (s, [])
unfolding split_first contains
split_first-name [] h = refl
split_first-name (c ∷ s) h =
    let tail : contains b'/' s ≡ false = ground arith in
    let head : (c == b'/') ≡ false = ground arith in rw (head, split_first-name s tail) refl

-- Splitting a joined path gives its segments.
pub split_first-join :
    (s : Text) (r : List Text) → AreNames (s ∷ r) → split_first (join (s ∷ r)) ≡ (s, r)
unfolding join
split_first-join s [] (h, v, a) = split_first-name s h
split_first-join s (t ∷ r) (h, v, a) =
    split_first-append s (join (t ∷ r)) h
    ∙ ap (λ (p : Text × List Text). (s, p.0 ∷ p.1)) (split_first-join t r a)

pub names_valid : (l : List Text) → AreNames l → has_invalid_part l ≡ false
unfolding has_invalid_part
names_valid [] a = refl
names_valid (s ∷ r) (h, v, a) = rw (v, names_valid r a) refl

-- A text that neither starts nor ends with white space.
abbrev pub IsTrimmed : Text → Type 0
IsTrimmed s = trim_space s ≡ s

pub init-snoc : (s : Text) (r : List Text) (x : Text) → init s (r ++ x ∷ []) ≡ s ∷ r
unfolding init
init-snoc s [] x = refl
init-snoc s (t ∷ r) x = ap (λ l. s ∷ l) (init-snoc t r x)

pub last-snoc : (s : Text) (r : List Text) (x : Text) → last s (r ++ x ∷ []) ≡ x
unfolding last
last-snoc s [] x = refl
last-snoc s (t ∷ r) x = last-snoc t r x

pub AreNames-snoc :
    (l : List Text) (x : Text)
    → AreNames l
    → contains b'/' x ≡ false
    → is_invalid_part x ≡ false
    → AreNames (l ++ x ∷ [])
AreNames-snoc [] x a h v = (h, v, tt)
AreNames-snoc (s ∷ r) x (k, w, a) h v = (k, w, AreNames-snoc r x a h v)

join_some : (s : Text) (r : List Text) (x : Text) → same (join (s ∷ r ++ x ∷ [])) [] ≡ false
unfolding join same
join_some [] [] x = refl
join_some (c ∷ s) [] x = refl
join_some [] (t ∷ r) x = refl
join_some (c ∷ s) (t ∷ r) x = refl

parse_parts-snoc {ℓ} :
    {M : Type ℓ} (app : Text) (namespaces : List Text) (x : Text)
    → has_invalid_part (app ∷ namespaces ++ x ∷ []) ≡ false
    → parse_parts {M = M} (app ∷ namespaces ++ x ∷ [])
      ≡ ok (record {
        store_root = record { app_name = app; namespaces = namespaces };
        descriptor = plain (decode_key x);
      })
unfolding parse_parts init last
parse_parts-snoc app [] x h = rw h refl
parse_parts-snoc app (s ∷ r) x h = rw (h, init-snoc s r x, last-snoc s r x) refl

-- The path of a key in a namespace of an application reads back as these, whatever bytes are in the
-- key, if the segments are proper names, none of which is empty, `.` or `..`, and no white space
-- is at the ends.
default_parse_path-join {ℓ} :
    {M : Type ℓ} (app : Text) (namespaces : List Text) (key : Text)
    → AreNames (app ∷ namespaces)
    → AreBytes key
    → is_invalid_part (encode_key key) ≡ false
    → IsTrimmed (join (app ∷ namespaces ++ encode_key key ∷ []))
    → default_parse_path {M = M} (join (app ∷ namespaces ++ encode_key key ∷ []))
      ≡ ok (record {
        store_root = record { app_name = app; namespaces = namespaces };
        descriptor = plain key;
      })
unfolding default_parse_path split
default_parse_path-join app namespaces key names bytes proper trimmed =
    let x = encode_key key in
    let all = AreNames-snoc (app ∷ namespaces) x names (encode_key-contains key bytes).0 proper in
    let parts = split_first-join app (namespaces ++ x ∷ []) all in
    rw (trimmed, join_some app namespaces x, parts)
      (parse_parts-snoc app namespaces x (names_valid (app ∷ namespaces ++ x ∷ []) all)
        ∙ ap
            (λ k. ok (record {
              store_root = record { app_name = app; namespaces = namespaces };
              descriptor = plain k;
            }))
            (decode_key-encode_key key bytes))
