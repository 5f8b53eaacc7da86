-- ===== src/ValkeyConf/Order.antt =====
-- Overrides sorted by their keys, and lists of them in other orders.
use velkir.ValkeyConf.{Override, keep, place, sort_by_key, text_le}
use velkir.ValkeyConf.Kept.{All-mono, keep-All}
use mathlib.Core.Path.{subst}
use velkir.Decimal.{Text}
use velkir.Prelude.{
  if_intro, Permᴰ, ◌≡◌, ◌≢◌, refl, inl, inr, sym, ap, ◌∙◌, Bool, true, false, ◌||◌, List, [], ◌∷◌,
  map, arith, Bool-cases, any, All,
}

pub text_le_total : (s t : Text) → text_le s t ≡ false → text_le t s ≡ true
unfolding text_le
text_le_total [] t h = cc
text_le_total (c ∷ s) [] h = refl
text_le_total (c ∷ s) (d ∷ t) h = ground (arith, h, text_le_total s t)

pub text_le_antisym : (s t : Text) → text_le s t ≡ true → text_le t s ≡ true → s ≡ t
unfolding text_le
text_le_antisym [] [] h k = refl
text_le_antisym [] (d ∷ t) h k = cc
text_le_antisym (c ∷ s) [] h k = cc
text_le_antisym (c ∷ s) (d ∷ t) h k = ground (arith, h, k, text_le_antisym s t)

pub text_le_trans : (s t u : Text) → text_le s t ≡ true → text_le t u ≡ true → text_le s u ≡ true
unfolding text_le
text_le_trans [] t u h k = refl
text_le_trans (c ∷ s) [] u h k = cc
text_le_trans (c ∷ s) (d ∷ t) [] h k = cc
text_le_trans (c ∷ s) (d ∷ t) (e ∷ u) h k = ground (arith, h, k, text_le_trans s t u)

pub or_swap : (a b c : Bool) → (a || (b || c)) ≡ (b || (a || c))
or_swap true true c = refl
or_swap true false c = refl
or_swap false b c = refl

pub place_before :
    (o p : Override) (os : List Override)
    → text_le o.key p.key ≡ true
    → text_le p.key o.key ≡ false
    → place o (place p os) ≡ place p (place o os)
unfolding place
place_before o p [] h k = rw (h, k) refl
place_before o p (q ∷ qs) h k = elim (Bool-cases (text_le p.key q.key)) [
  | inl pq ↦ rw (pq, text_le_trans o.key p.key q.key h pq) (rw (h, k, pq) refl)
  | inr qp ↦ elim (Bool-cases (text_le o.key q.key)) [
    | inl oq ↦ rw (qp, oq) (rw (k, qp) refl)
    | inr qo ↦ rw (qp, qo) (rw qp (ap (λ r. q ∷ r) (place_before o p qs h k)))
  ]
]

-- Entries with other keys are placed in either order.
pub place_comm :
    (o p : Override) (os : List Override)
    → o.key ≢ p.key
    → place o (place p os) ≡ place p (place o os)
place_comm o p os h = elim (Bool-cases (text_le o.key p.key)) [
  | inl op ↦ elim (Bool-cases (text_le p.key o.key)) [
    | inl po ↦ absurd (h (text_le_antisym o.key p.key op po))
    | inr not_po ↦ place_before o p os op not_po
  ]
  | inr not_op ↦ sym (place_before p o os (text_le_total o.key p.key not_op) not_op)
]

-- A map has an entry at most for each key.
abbrev pub Distinct : List Override → Type 0
Distinct [] = Unit
Distinct (o ∷ os) = All (λ p. o.key ≢ p.key) os × Distinct os

pub All-Perm : (P : Override → Type 0) {os ps : List Override} → Permᴰ os ps → All P os → All P ps
All-Perm P Permᴰ.nil h = h
All-Perm P (Permᴰ.cons e d) (h, hs) = (subst P e h, All-Perm P d hs)
All-Perm P (Permᴰ.swap e f) (h, (k, hs)) = (subst P f k, (subst P e h, hs))
All-Perm P (Permᴰ.trans d e) h = All-Perm P e (All-Perm P d h)

pub Distinct-Perm : {os ps : List Override} → Permᴰ os ps → Distinct os → Distinct ps
Distinct-Perm Permᴰ.nil h = h
Distinct-Perm (Permᴰ.cons {a} {b} {l₁} {l₂} e d) (h, hs) =
    (All-Perm _ d (subst (λ x. All (λ p. x.key ≢ p.key) l₁) e h), Distinct-Perm d hs)
Distinct-Perm (Permᴰ.swap {a} {b} {a'} {b'} {l} e f) ((h, hs), (k, ks)) = (
  (
    λ q. h (ap (λ x. x.key) e ∙ sym q ∙ ap (λ x. x.key) (sym f)),
    subst (λ x. All (λ p. x.key ≢ p.key) l) f k,
  ),
  (subst (λ x. All (λ p. x.key ≢ p.key) l) e hs, ks),
)
Distinct-Perm (Permᴰ.trans d e) h = Distinct-Perm e (Distinct-Perm d h)

pub sort_by_key-Perm :
    {os ps : List Override} → Permᴰ os ps → Distinct os → sort_by_key os ≡ sort_by_key ps
unfolding sort_by_key
sort_by_key-Perm Permᴰ.nil h = refl
sort_by_key-Perm (Permᴰ.cons {a} {b} {l₁} {l₂} e d) (h, hs) =
    ap (λ x. place x (sort_by_key l₁)) e ∙ ap (place b) (sort_by_key-Perm d hs)
sort_by_key-Perm (Permᴰ.swap {a} {b} {a'} {b'} {l} e f) ((h, hs), ks) =
    place_comm a b (sort_by_key l) h
    ∙ ap (λ x. place x (place a (sort_by_key l))) f
    ∙ ap (λ x. place a' (place x (sort_by_key l))) e
sort_by_key-Perm (Permᴰ.trans d e) h = sort_by_key-Perm d h ∙ sort_by_key-Perm e (Distinct-Perm d h)

pub Perm_refl : (os : List Override) → Permᴰ os os
Perm_refl [] = Permᴰ.nil
Perm_refl (o ∷ os) = Permᴰ.cons refl (Perm_refl os)

pub keep-Perm :
    (p : Override → Bool) {os ps : List Override} → Permᴰ os ps → Permᴰ (keep p os) (keep p ps)
unfolding keep
keep-Perm p Permᴰ.nil = Permᴰ.nil
keep-Perm p (Permᴰ.cons {a} {b} e d) = elim (Bool-cases (p a)) [
  | inl ha ↦ rw (ha, sym (ap p e) ∙ ha) (Permᴰ.cons e (keep-Perm p d))
  | inr ha ↦ rw (ha, sym (ap p e) ∙ ha) (keep-Perm p d)
]
keep-Perm p (Permᴰ.swap {a} {b} {a'} {b'} {l} e f) = elim (Bool-cases (p a)) [
  | inl ha ↦ elim (Bool-cases (p b)) [
    | inl hb ↦ rw (ha, hb, sym (ap p e) ∙ ha, sym (ap p f) ∙ hb) (Permᴰ.swap e f)
    | inr hb ↦
        rw (ha, hb, sym (ap p e) ∙ ha, sym (ap p f) ∙ hb) (Permᴰ.cons e (Perm_refl (keep p l)))
  ]
  | inr ha ↦ elim (Bool-cases (p b)) [
    | inl hb ↦
        rw (ha, hb, sym (ap p e) ∙ ha, sym (ap p f) ∙ hb) (Permᴰ.cons f (Perm_refl (keep p l)))
    | inr hb ↦ rw (ha, hb, sym (ap p e) ∙ ha, sym (ap p f) ∙ hb) (Perm_refl (keep p l))
  ]
]
keep-Perm p (Permᴰ.trans d e) = Permᴰ.trans (keep-Perm p d) (keep-Perm p e)

pub Distinct-keep : (p : Override → Bool) (os : List Override) → Distinct os → Distinct (keep p os)
unfolding keep
Distinct-keep p [] h = tt
Distinct-keep p (o ∷ os) (h, hs) =
    if_intro Distinct (p o) (o ∷ keep p os) (keep p os)
      (λ _. (
        All-mono _ (λ q. o.key ≢ q.key) (keep p os) (λ q k. k.0)
            (keep-All (λ q. o.key ≢ q.key) p os h),
        Distinct-keep p os hs,
      ))
      (λ _. Distinct-keep p os hs)

pub any-Perm :
    {A : Type 0} (f : Override → A) (t : A → Bool) {os ps : List Override}
    → Permᴰ os ps
    → any t (map f os) ≡ any t (map f ps)
any-Perm f t Permᴰ.nil = refl
any-Perm f t (Permᴰ.cons {a} {b} {l₁} e d) =
    ap (λ x. t (f x) || any t (map f l₁)) e ∙ ap (λ r. t (f b) || r) (any-Perm f t d)
any-Perm f t (Permᴰ.swap {a} {b} {a'} {b'} {l} e f') =
    ap (λ x. t (f x) || (t (f b) || any t (map f l))) e
    ∙ ap (λ x. t (f b') || (t (f x) || any t (map f l))) f'
    ∙ or_swap (t (f b')) (t (f a')) (any t (map f l))
any-Perm f t (Permᴰ.trans d e) = any-Perm f t d ∙ any-Perm f t e
