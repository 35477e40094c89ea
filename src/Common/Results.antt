-- ===== src/Common/Results.antt =====
-- Go's pairs of a value and an error, of which one is nil.
use mathlib.Core.Path.{◌≡◌, refl}
use mathlib.Core.List.{List, [], ◌∷◌}
use mathlib.Core.Logic.{◌⊎◌, inl, inr}

pub data Result {ℓ κ} (E : Type κ) (A : Type ℓ) : Type (ℓ ⊔ κ) where
  ok : A → Result E A
  err : E → Result E A

infixl 5 ◌>>=◌ ◌>>◌
abbrev pub ◌>>=◌ {ℓ κ ι} :
    {E : Type κ} {A : Type ℓ} {B : Type ι} → Result E A → (A → Result E B) → Result E B
ok a >>= f = f a
err e >>= f = err e

abbrev pub ◌>>◌ {ℓ κ} : {E : Type κ} {B : Type ℓ} → Result E (Unit {0}) → Result E B → Result E B
m >> k = m >>= λ _. k

-- A loop that ends at the first error.
unfoldable pub each {ℓ κ ι} :
    {E : Type κ} {A : Type ℓ} {B : Type ι} → (A → Result E B) → List A → Result E (List B)
each f [] = ok []
each f (a ∷ xs) = let rest = each f xs in (f a >>= λ b. rest >>= λ bs. ok (b ∷ bs))

pub >>=-ok {ℓ κ ι} :
    {E : Type κ} {A : Type ℓ} {B : Type ι} (m : Result E A) (f : A → Result E B) (b : B)
    → (m >>= f) ≡ ok b
    → (a : A) × (m ≡ ok a) × (f a ≡ ok b)
>>=-ok (ok a) f b h = (a, refl, h)
>>=-ok (err e) f b h = cc

pub Result-cases {ℓ κ} :
    {E : Type κ} {A : Type ℓ} (m : Result E A) → ((a : A) × (m ≡ ok a)) ⊎ ((e : E) × (m ≡ err e))
Result-cases (ok a) = inl (a, refl)
Result-cases (err e) = inr (e, refl)

pub each-ok {ℓ κ ι} :
    {E : Type κ} {A : Type ℓ} {B : Type ι} (f : A → Result E B) (a : A) (xs : List A) (bs : List B)
    → each f (a ∷ xs) ≡ ok bs
    → (b : B) × (bs' : List B) × (f a ≡ ok b) × (each f xs ≡ ok bs') × (b ∷ bs' ≡ bs)
unfolding each
each-ok {B} f a xs bs h =
    let (b, p, h') = >>=-ok (f a) (λ b. each f xs >>= λ bs. ok (b ∷ bs)) bs h in
    let (bs', q, r) = >>=-ok (each f xs) (λ (bs : List B). ok (b ∷ bs)) bs h' in (b, bs', p, q, cc)
