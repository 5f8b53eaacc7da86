-- ===== src/ValkeyConf/Last.antt =====
-- The last line for a directive, which is the one that counts.
use velkir.ValkeyConf.{directive, has_directive, is_empty, keep}
use velkir.ValkeyConf.Directive.{text_eq→eq}
use mathlib.Core.Path.{ap}
use velkir.Sentinel.Wire.Fields.{text_eq}
use velkir.Decimal.{Text}
use velkir.Prelude.{
  ℕ, ◌≡◌, ◌≢◌, refl, inl, inr, sym, ◌∙◌, Bool, true, false, not, List, [], ◌∷◌, ◌++◌, Option, none,
  some, if◌then◌else◌, Bool-cases, All,
}

-- The first, or else the second.
abbrev pub or_else : Option Text → Option Text → Option Text
or_else (some l) other = some l
or_else none other = other

pub or_else_assoc : (a b c : Option Text) → or_else a (or_else b c) ≡ or_else (or_else a b) c
or_else_assoc (some l) b c = refl
or_else_assoc none b c = refl

pub or_else-none : (o : Option Text) → o ≡ or_else o none
or_else-none (some l) = refl
or_else-none none = refl

pub true≢false : true ≢ false
true≢false e = cc (e)

module _ (lower_wide : ℕ → ℕ) where
  -- The last of the lines that names the directive.
  unfoldable pub last_setting : Text → List Text → Option Text
  last_setting d [] = none
  last_setting d (l ∷ ls) =
      or_else (last_setting d ls) (if text_eq (directive lower_wide l) d then some l else none)

  pub last_setting-append :
      (d : Text) (xs ys : List Text)
      → last_setting d (xs ++ ys) ≡ or_else (last_setting d ys) (last_setting d xs)
  unfolding last_setting
  last_setting-append d [] ys = elim (last_setting d ys) as (λ o. o ≡ or_else o none) [
    | none ↦ refl
    | some l ↦ refl
  ]
  last_setting-append d (x ∷ xs) ys =
      ap (λ r. or_else r (if text_eq (directive lower_wide x) d then some x else none))
        (last_setting-append d xs ys)
      ∙ sym (or_else_assoc (last_setting d ys) (last_setting d xs) _)

  pub last_setting-none :
      (d : Text) (ls : List Text)
      → All (λ l. text_eq (directive lower_wide l) d ≡ false) ls
      → last_setting d ls ≡ none
  unfolding last_setting
  last_setting-none d [] h = refl
  last_setting-none d (l ∷ ls) (h, hs) = rw (last_setting-none d ls hs, h) refl

  -- A test that all the lines for the directive pass does not change the last of them.
  pub last_setting-keep :
      (d : Text) (p : Text → Bool) (ls : List Text)
      → ((l : Text) → text_eq (directive lower_wide l) d ≡ true → p l ≡ true)
      → last_setting d (keep p ls) ≡ last_setting d ls
  unfolding last_setting keep
  last_setting-keep d p [] f = refl
  last_setting-keep d p (l ∷ ls) f = elim (Bool-cases (p l)) [
    | inl h ↦ rw h (
        ap (λ r. or_else r (if text_eq (directive lower_wide l) d then some l else none))
          (last_setting-keep d p ls f))
    | inr h ↦ rw h (
        last_setting-keep d p ls f ∙ elim (Bool-cases (text_eq (directive lower_wide l) d)) [
          | inl same ↦ absurd (true≢false (sym (f l same) ∙ h))
          | inr other ↦ rw other (or_else-none (last_setting d ls))
        ])
  ]

  pub last_setting-live :
      (d : Text) (ls : List Text)
      → is_empty d ≡ false
      → last_setting d (keep (has_directive lower_wide) ls) ≡ last_setting d ls
  last_setting-live d ls h = last_setting-keep d (has_directive lower_wide) ls (λ l same.
      ap (λ u. not (is_empty u)) (text_eq→eq (directive lower_wide l) d same) ∙ rw h refl)
