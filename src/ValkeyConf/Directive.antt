-- ===== src/ValkeyConf/Directive.antt =====
-- internal/valkeyconf/render.go: the directive of a line, and of the line of an override.
use velkir.ValkeyConf.{
  Override, directive, directive_of, first_field, is_empty, is_space, override_line, trim_left,
  trim_right, trim_space,
}
use velkir.Prelude.{
  if_intro, ℕ, ◌≡◌, refl, inl, inr, sym, ap, ◌∙◌, Bool, true, false, [], ◌∷◌, ◌++◌, arith, ◌==◌,
  if◌then◌else◌, Bool-cases, and_iff,
}
use velkir.Decimal.{Text}
use velkir.Sentinel.Wire.Fields.{text_eq}

abbrev Starts : Text → Type 0
Starts [] = Unit
Starts (c ∷ t) = is_space c ≡ false

trim_left-Starts : (t : Text) → Starts (trim_left t)
unfolding trim_left
trim_left-Starts [] = tt
trim_left-Starts (c ∷ t) =
    if_intro Starts (is_space c) (trim_left t) (c ∷ t) (λ _. trim_left-Starts t) (λ no. no)

first_field-trim_right : (t : Text) → first_field (trim_right is_space t) ≡ first_field t
unfolding first_field trim_right
first_field-trim_right [] = refl
first_field-trim_right (c ∷ t) = elim (Bool-cases (is_space c)) [
  | inl space ↦ elim (Bool-cases (is_empty (trim_right is_space t))) [
    | inl last ↦ rw (space, last) refl
    | inr more ↦ rw (space, more) (rw space refl)
  ]
  | inr other ↦ rw other (rw other (ap (λ r. c ∷ r) (first_field-trim_right t)))
]

first_field-append : (k v : Text) → first_field (k ++ b' ' ∷ v) ≡ first_field k
unfolding first_field is_space
first_field-append [] v = refl
first_field-append (c ∷ k) v = rw (first_field-append k v) refl

trim_left-append :
    (k s : Text)
    → trim_left (k ++ s) ≡ (if is_empty (trim_left k) then trim_left s else trim_left k ++ s)
unfolding trim_left
trim_left-append [] s = refl
trim_left-append (c ∷ k) s = elim (Bool-cases (is_space c)) [
  | inl space ↦ rw space (trim_left-append k s)
  | inr other ↦ rw other refl
]

-- A key of spaces only.
unfoldable pub is_blank : Text → Bool
is_blank k = is_empty (trim_left k)

pub text_eq→eq : (a b : Text) → text_eq a b ≡ true → a ≡ b
unfolding text_eq
text_eq→eq [] [] h = refl
text_eq→eq [] (d ∷ b) h = cc
text_eq→eq (c ∷ a) [] h = cc
text_eq→eq (c ∷ a) (d ∷ b) h = ground (arith, h, and_iff (c == d) (text_eq a b), text_eq→eq a b)

pub text_eq_sym : (a b : Text) → text_eq a b ≡ text_eq b a
unfolding text_eq
text_eq_sym [] [] = refl
text_eq_sym [] (d ∷ b) = refl
text_eq_sym (c ∷ a) [] = refl
text_eq_sym (c ∷ a) (d ∷ b) = ground (arith, text_eq_sym a b)

pub text_eq_refl : (a : Text) → text_eq a a ≡ true
unfolding text_eq
text_eq_refl [] = refl
text_eq_refl (c ∷ a) = ground (arith, text_eq_refl a)

module _ (lower_wide : ℕ → ℕ) where
  directive_of-trim_right :
      (t : Text)
      → Starts t
      → directive_of lower_wide (trim_right is_space t) ≡ directive_of lower_wide t
  unfolding directive_of trim_right first_field
  directive_of-trim_right [] h = refl
  directive_of-trim_right (c ∷ t) h = rw h (rw (h, first_field-trim_right t) refl)

  pub directive-start : (t : Text) → directive lower_wide t ≡ directive_of lower_wide (trim_left t)
  unfolding directive trim_space
  directive-start t = directive_of-trim_right (trim_left t) (trim_left-Starts t)

  directive_of-append :
      (k v : Text)
      → is_empty k ≡ false
      → directive_of lower_wide (k ++ b' ' ∷ v) ≡ directive_of lower_wide k
  unfolding directive_of
  directive_of-append [] v h = cc
  directive_of-append (c ∷ k) v h = rw (first_field-append (c ∷ k) v) refl

  spaced :
      (v : Text)
      → directive_of lower_wide (trim_left (b' ' ∷ v)) ≡ directive_of lower_wide (trim_left v)
  unfolding trim_left is_space
  spaced v = refl

  -- A key that is blank lets the value name the directive.
  pub directive-override_line :
      (o : Override)
      → directive lower_wide (override_line o)
        ≡ (if is_blank o.key then directive lower_wide o.value else directive lower_wide o.key)
  unfolding is_blank
  directive-override_line o =
      directive-start (override_line o)
      ∙ ap (directive_of lower_wide) (trim_left-append o.key (b' ' ∷ o.value))
      ∙ elim (Bool-cases (is_empty (trim_left o.key))) [
        | inl blank ↦ rw blank (spaced o.value ∙ sym (directive-start o.value))
        | inr named ↦
            rw named
              (directive_of-append (trim_left o.key) o.value named ∙ sym (directive-start o.key))
      ]
