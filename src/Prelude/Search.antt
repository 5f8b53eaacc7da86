-- ===== src/Prelude/Search.antt =====
-- The value at the first item that passes a test, and when the order of the items does not matter.
use Prim.Native.Nat.{◌≤◌}
use mathlib.Core.Path.{◌≡◌, refl, ◌∙◌}
use mathlib.Core.Bool.{Bool, true, false}
use mathlib.Core.List.{List, [], ◌∷◌, ◌++◌, Permᴰ}
use native.Mathlib.Omega.{arith}
use velkir.Prelude.Lists.{count_if}

module _ {ℓ} {A : Type ℓ} (p : A → Bool) where
  pub count_if-perm : {xs ys : List A} → Permᴰ xs ys → count_if p xs ≡ count_if p ys
  count_if-perm Permᴰ.nil = refl
  count_if-perm (Permᴰ.cons e q) = ground (arith, count_if-perm q)
  count_if-perm (Permᴰ.swap e e') = ground arith
  count_if-perm (Permᴰ.trans q r) = count_if-perm q ∙ count_if-perm r

module _ {ℓ κ} {A : Type ℓ} {B : Type κ} (p : A → Bool) (f : A → B) (d : B) where
  unfoldable pub first_of_list : List A → B
  first_of_list [] = d
  first_of_list (x ∷ xs) = elim (p x) [ true ↦ f x | false ↦ first_of_list xs ]

  pub first_of_list-none : (xs : List A) → count_if p xs ≤ 0 → first_of_list xs ≡ d
  unfolding first_of_list
  first_of_list-none [] h = refl
  first_of_list-none (x ∷ xs) h = ground (arith, first_of_list-none xs)

  -- The items before the first that passes do not matter, nor those behind it.
  pub first_of_list-append :
      (xs : List A) (x : A) (ys : List A)
      → count_if p xs ≤ 0
      → p x ≡ true
      → first_of_list (xs ++ x ∷ ys) ≡ f x
  unfolding first_of_list
  first_of_list-append [] x ys h hit = ground arith
  first_of_list-append (z ∷ xs) x ys h hit = ground (arith, first_of_list-append xs x ys)

  -- Where at most one item passes, every order of the items gives the same value.
  pub first_of_list-perm :
      {xs ys : List A} → Permᴰ xs ys → count_if p xs ≤ 1 → first_of_list xs ≡ first_of_list ys
  unfolding first_of_list
  first_of_list-perm Permᴰ.nil h = refl
  first_of_list-perm (Permᴰ.cons {a = a} {b = b} {l₁ = xs} {l₂ = ys} e q) h =
      ground (arith, first_of_list-perm q)
  first_of_list-perm (Permᴰ.swap {a = a} {b = b} {a' = a'} {b' = b'} {l = l} e e') h = ground arith
  first_of_list-perm (Permᴰ.trans {l₁ = xs} {l₂ = ys} q r) h =
      first_of_list-perm q h ∙ first_of_list-perm r (omega (arith, count_if-perm p q))
