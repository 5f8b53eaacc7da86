-- ===== src/Sentinel/Stranded/Keep.antt =====
-- What holds of the items that a test keeps.
use velkir.Prelude.{if_intro, ◌≡◌, Bool, true, List, [], ◌∷◌, ◌++◌, All}
use velkir.Sentinel.Types.{Endpoint}
use velkir.Sentinel.Stranded.{keep}

pub All-mono :
    (P Q : Endpoint → Type 0) (eps : List Endpoint)
    → ((ep : Endpoint) → P ep → Q ep)
    → All P eps
    → All Q eps
All-mono P Q [] f h = tt
All-mono P Q (ep ∷ eps) f (h, hs) = (f ep h, All-mono P Q eps f hs)

pub keep-All :
    (P : Endpoint → Type 0) (p : Endpoint → Bool) (eps : List Endpoint)
    → ((ep : Endpoint) → p ep ≡ true → P ep)
    → All P (keep p eps)
unfolding keep
keep-All P p [] f = tt
keep-All P p (ep ∷ eps) f =
    if_intro (All P) (p ep) (ep ∷ keep p eps) (keep p eps) (λ yes. (f ep yes, keep-All P p eps f))
      (λ _. keep-All P p eps f)

-- Both that it passes the test and what all of the list have.
pub keep-both :
    (P : Endpoint → Type 0) (p : Endpoint → Bool) (eps : List Endpoint)
    → All P eps
    → All (λ ep. P ep × (p ep ≡ true)) (keep p eps)
unfolding keep
keep-both P p [] h = tt
keep-both P p (ep ∷ eps) (h, hs) =
    if_intro (All (λ x. P x × (p x ≡ true))) (p ep) (ep ∷ keep p eps) (keep p eps)
      (λ yes. ((h, yes), keep-both P p eps hs)) (λ _. keep-both P p eps hs)

pub All-append :
    (P : Endpoint → Type 0) (xs ys : List Endpoint) → All P xs → All P ys → All P (xs ++ ys)
All-append P [] ys h k = k
All-append P (x ∷ xs) ys (h, hs) k = (h, All-append P xs ys hs k)

pub All-both :
    (P Q : Endpoint → Type 0) (eps : List Endpoint)
    → All P eps
    → All Q eps
    → All (λ ep. P ep × Q ep) eps
All-both P Q [] h k = tt
All-both P Q (ep ∷ eps) (h, hs) (k, ks) = ((h, k), All-both P Q eps hs ks)
