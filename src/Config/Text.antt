-- ===== src/Config/Text.antt =====
-- Go strings as lists of bytes, with the functions of `strings` that lib/config uses.
use enkit.Common.{
  ℕ, ◌-◌, ◌<◌, ◌≡◌, refl, ◌↔◌, Bool, true, false, ◌&&◌, ◌||◌, List, [], ◌∷◌, ◌++◌, length, take,
  drop, not, arith, if◌then◌else◌, ltb, leb, ◌==◌,
}

-- The bytes of a string are below 256.
abbrev pub Text : Type 0
Text = List ℕ

abbrev pub AreBytes : Text → Type 0
AreBytes [] = Unit {0}
AreBytes (c ∷ s) = (c < 256) × AreBytes s

unfoldable pub same : Text → Text → Bool
same [] [] = true
same [] (d ∷ t) = false
same (c ∷ s) [] = false
same (c ∷ s) (d ∷ t) = (c == d) && same s t

pub same_iff : (s t : Text) → (same s t ≡ true) ↔ (s ≡ t)
unfolding same
same_iff [] [] = (λ e. refl, λ e. refl)
same_iff [] (d ∷ t) = (λ e. cc, λ e. cc)
same_iff (c ∷ s) [] = (λ e. cc, λ e. cc)
same_iff (c ∷ s) (d ∷ t) = (λ e. ground (arith, same_iff s t), λ e. ground (arith, same_iff s t))

pub same_refl : (s : Text) → same s s ≡ true
same_refl s = (same_iff s s).1 refl

-- Membership of a byte, as a test.
unfoldable pub contains : ℕ → Text → Bool
contains c [] = false
contains c (d ∷ s) = (c == d) || contains c s

-- Go's `<` on strings.
unfoldable pub before : Text → Text → Bool
before [] [] = false
before [] (d ∷ t) = true
before (c ∷ s) [] = false
before (c ∷ s) (d ∷ t) = ltb c d || ((c == d) && before s t)

-- If s is not after t, nor t after u, then s is not after u.
pub before_trans : (s t u : Text) → before t s ≡ false → before u t ≡ false → before u s ≡ false
unfolding before
before_trans [] t [] h k = refl
before_trans [] [] (e ∷ u) h k = cc
before_trans [] (d ∷ t) (e ∷ u) h k = refl
before_trans (c ∷ s) [] u h k = cc
before_trans (c ∷ s) (d ∷ t) [] h k = cc
before_trans (c ∷ s) (d ∷ t) (e ∷ u) h k = ground (arith, before_trans s t u)

pub before-nil : (s : Text) → before s [] ≡ false
unfolding before
before-nil [] = refl
before-nil (c ∷ s) = refl

-- strings.TrimSpace, of the white space that is ASCII.
unfoldable pub is_space : ℕ → Bool
is_space c = c == 32 || (leb 9 c && leb c 13)

unfoldable pub trim_left : Text → Text
unfolding is_space
trim_left [] = []
trim_left (c ∷ s) = let rest = trim_left s in if is_space c then rest else c ∷ s

unfoldable pub put_unless_space : ℕ → Text → Text
unfolding is_space
put_unless_space c [] = if is_space c then [] else c ∷ []
put_unless_space c (d ∷ s) = c ∷ d ∷ s

unfoldable pub trim_right : Text → Text
unfolding put_unless_space
trim_right [] = []
trim_right (c ∷ s) = put_unless_space c (trim_right s)

unfoldable pub trim_space : Text → Text
unfolding trim_left trim_right
trim_space s = trim_right (trim_left s)

unfoldable pub has_prefix : Text → Text → Bool
has_prefix s [] = true
has_prefix [] (d ∷ t) = false
has_prefix (c ∷ s) (d ∷ t) = (c == d) && has_prefix s t

-- strings.TrimSuffix.
unfoldable pub trim_suffix : Text → Text → Text
unfolding same
trim_suffix s t =
    if leb (length t) (length s) && same (drop (length s - length t) s) t
    then take (length s - length t) s
    else s

-- strings.Split at slashes: the first segment, and the others.
unfoldable pub split_first : Text → Text × List Text
split_first [] = ([], [])
split_first (c ∷ s) =
    let rest = split_first s in if c == b'/' then ([], rest.0 ∷ rest.1) else (c ∷ rest.0, rest.1)

unfoldable pub split : Text → List Text
unfolding split_first
split s = (split_first s).0 ∷ (split_first s).1

-- strings.Join with slashes.
unfoldable pub join : List Text → Text
join [] = []
join (s ∷ []) = s
join (s ∷ t ∷ r) = s ++ b'/' ∷ join (t ∷ r)

-- path.Ext: from the last dot of the last segment.
unfoldable pub ext_from : ℕ → Text → Text → Text
unfolding contains
ext_from c s [] = if c == b'.' && not (contains b'/' s) then c ∷ s else []
ext_from c s (d ∷ rest) = d ∷ rest

unfoldable pub ext : Text → Text
unfolding ext_from
ext [] = []
ext (c ∷ s) = ext_from c s (ext s)

pub before_asym : (s t : Text) → before s t ≡ true → before t s ≡ false
unfolding before
before_asym [] [] h = cc
before_asym [] (d ∷ t) h = refl
before_asym (c ∷ s) [] h = cc
before_asym (c ∷ s) (d ∷ t) h = ground (arith, before_asym s t)
