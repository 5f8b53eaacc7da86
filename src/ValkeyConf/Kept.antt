-- ===== src/ValkeyConf/Kept.antt =====
-- What holds of the items that a test keeps, and of lists that are joined.
use velkir.ValkeyConf.{keep}
use velkir.Prelude.{
  if_intro, ◌≡◌, refl, inl, inr, ap, Bool, true, false, ◌||◌, List, [], ◌∷◌, ◌++◌, map, Bool-cases,
  any, All,
}

pub keep-append {ℓ} :
    {A : Type ℓ} (p : A → Bool) (xs ys : List A) → keep p (xs ++ ys) ≡ keep p xs ++ keep p ys
unfolding keep
keep-append p [] ys = refl
keep-append p (x ∷ xs) ys = elim (Bool-cases (p x)) [
  | inl same ↦ rw same (ap (λ r. x ∷ r) (keep-append p xs ys))
  | inr other ↦ rw other (keep-append p xs ys)
]

-- What is kept has what all have, and passes the test.
pub keep-All {ℓ κ} :
    {A : Type ℓ} (P : A → Type κ) (p : A → Bool) (xs : List A)
    → All P xs
    → All (λ x. P x × (p x ≡ true)) (keep p xs)
unfolding keep
keep-All P p [] h = tt
keep-All P p (x ∷ xs) (h, hs) =
    if_intro (All (λ y. P y × (p y ≡ true))) (p x) (x ∷ keep p xs) (keep p xs)
      (λ yes. ((h, yes), keep-All P p xs hs)) (λ _. keep-All P p xs hs)

pub All-mono {ℓ κ μ} :
    {A : Type ℓ} (P : A → Type κ) (Q : A → Type μ) (xs : List A)
    → ((x : A) → P x → Q x)
    → All P xs
    → All Q xs
All-mono P Q [] f h = tt
All-mono P Q (x ∷ xs) f (h, hs) = (f x h, All-mono P Q xs f hs)

pub any-append {ℓ} :
    {A : Type ℓ} (p : A → Bool) (xs ys : List A) → any p (xs ++ ys) ≡ (any p xs || any p ys)
any-append p [] ys = refl
any-append p (x ∷ xs) ys = elim (Bool-cases (p x)) [
  | inl h ↦ rw h refl
  | inr h ↦ rw h (any-append p xs ys)
]

pub keep_same {ℓ} :
    {A : Type ℓ} (p : A → Bool) (xs : List A) → All (λ x. p x ≡ true) xs → keep p xs ≡ xs
unfolding keep
keep_same p [] h = refl
keep_same p (x ∷ xs) (h, hs) = rw h (ap (λ r. x ∷ r) (keep_same p xs hs))

pub keep_pass {ℓ κ} :
    {A : Type ℓ} (P : A → Type κ) (p : A → Bool) (xs : List A)
    → ((x : A) → p x ≡ true → P x)
    → All P (keep p xs)
unfolding keep
keep_pass P p [] f = tt
keep_pass P p (x ∷ xs) f =
    if_intro (All P) (p x) (x ∷ keep p xs) (keep p xs) (λ h. (f x h, keep_pass P p xs f))
      (λ _. keep_pass P p xs f)

pub All-append {ℓ κ} :
    {A : Type ℓ} (P : A → Type κ) (xs ys : List A) → All P xs → All P ys → All P (xs ++ ys)
All-append P [] ys h k = k
All-append P (x ∷ xs) ys (h, hs) k = (h, All-append P xs ys hs k)

pub All-map {ℓ κ μ} :
    {A : Type ℓ} {B : Type κ} (P : B → Type μ) (f : A → B) (xs : List A)
    → All (λ x. P (f x)) xs
    → All P (map f xs)
All-map P f [] h = tt
All-map P f (x ∷ xs) (h, hs) = (h, All-map P f xs hs)

pub or_false : (a b : Bool) → (a || b) ≡ false → (a ≡ false) × (b ≡ false)
or_false false false h = (refl, refl)
or_false false true h = cc
or_false true b h = cc
