-- ===== src/ValkeyConf/Determinism.antt =====
-- internal/valkeyconf/render.go: Go ranges over the map of overrides in no fixed order.
use velkir.ValkeyConf.{
  user_section, Inputs, Override, banned_directive_keys, directive, emitted_overrides, end_line,
  filter_overrides, has_directive, header_lines, keep, lower, mandatory_directives,
  mandatory_keys_of, member, newline, override_line, override_section, override_title, render,
  skip_keys, sort_by_key, strip_user_directives, trim_right, trim_space, unlines,
}
use velkir.ValkeyConf.Precedence.{member-skip_keys}
use velkir.ValkeyConf.Order.{Distinct, Distinct-keep, any-Perm, keep-Perm, sort_by_key-Perm}
use velkir.Prelude.{
  Permᴰ, ℕ, ◌≡◌, refl, inl, inr, sym, ap, ◌∙◌, Bool, true, not, ◌&&◌, ◌||◌, List, [], ◌∷◌, ◌++◌,
  map, ◌==◌, if◌then◌else◌, Bool-cases, any,
}
use velkir.Decimal.{Text}
use velkir.Sentinel.Wire.Fields.{text_eq}
use velkir.Version.{split_on}

keep_ext {ℓ} :
    {A : Type ℓ} (p q : A → Bool) (xs : List A) → ((x : A) → p x ≡ q x) → keep p xs ≡ keep q xs
unfolding keep
keep_ext p q [] f = refl
keep_ext p q (x ∷ xs) f = elim (Bool-cases (p x)) [
  | inl h ↦ rw (h, sym (f x) ∙ h) (ap (λ r. x ∷ r) (keep_ext p q xs f))
  | inr h ↦ rw (h, sym (f x) ∙ h) (keep_ext p q xs f)
]

-- The inputs with these overrides.
abbrev pub with_overrides : Inputs → List Override → Inputs
with_overrides i os = record i { overrides = os }

module _ (lower_wide : ℕ → ℕ) where
  strip_ext :
      (raw : Text) (skip skip' : List Text)
      → ((d : Text) → member skip d ≡ member skip' d)
      → strip_user_directives lower_wide raw skip ≡ strip_user_directives lower_wide raw skip'
  unfolding strip_user_directives
  strip_ext raw skip skip' same =
      ap (λ ls. end_line (trim_right (λ c. c == newline) (unlines ls)))
        (keep_ext _ _ (split_on newline raw)
          (λ l. ap (λ b. not (has_directive lower_wide l && b)) (same (directive lower_wide l))))

  abbrev titled : List Override → Text
  titled os = newline ∷ (override_title ++ newline ∷ unlines (map override_line os))

  section_form :
      (os : List Override)
      → override_section os
        ≡ (if any (λ _. true) (map (λ o. o) os) then titled (sort_by_key os) else [])
  unfolding override_section
  section_form [] = refl
  section_form (o ∷ os) = refl

  emitted-Perm :
      (i : Inputs) {os ps : List Override}
      → Permᴰ os ps
      → Permᴰ
          (emitted_overrides lower_wide (with_overrides i os))
          (emitted_overrides lower_wide (with_overrides i ps))
  unfolding emitted_overrides filter_overrides mandatory_keys_of mandatory_directives
  emitted-Perm i d = keep-Perm _ d

  skip-Perm :
      (i : Inputs) {os ps : List Override} (k : Text)
      → Permᴰ os ps
      → member (skip_keys lower_wide (with_overrides i os)) k
        ≡ member (skip_keys lower_wide (with_overrides i ps)) k
  unfolding mandatory_keys_of mandatory_directives
  skip-Perm i {os} {ps} k d =
      member-skip_keys lower_wide (with_overrides i os) k
      ∙ ap
          (λ b.
            (member (mandatory_keys_of lower_wide (with_overrides i ps)) k || b)
            || member (banned_directive_keys lower_wide) k)
          (any-Perm (λ o. map (lower lower_wide) (trim_space o.key)) (text_eq k) (emitted-Perm i d))
      ∙ sym (member-skip_keys lower_wide (with_overrides i ps) k)

  emitted-Distinct :
      (i : Inputs) (os : List Override)
      → Distinct os
      → Distinct (emitted_overrides lower_wide (with_overrides i os))
  unfolding emitted_overrides filter_overrides
  emitted-Distinct i os h = Distinct-keep _ os h

  section_ext :
      {os ps : List Override}
      → Permᴰ os ps
      → Distinct os
      → override_section os ≡ override_section ps
  section_ext {os} {ps} d h =
      section_form os
      ∙ ap (λ b. if b then titled (sort_by_key os) else []) (any-Perm (λ o. o) (λ _. true) d)
      ∙ ap (λ r. if any (λ _. true) (map (λ o. o) ps) then titled r else []) (sort_by_key-Perm d h)
      ∙ sym (section_form ps)

  -- The order in which a map with distinct keys is ranged over makes no difference to the file, so that the
  -- hash over it changes with the inputs only.
  pub render-Perm :
      (i : Inputs) {os ps : List Override}
      → Permᴰ os ps
      → Distinct os
      → render lower_wide (with_overrides i os) ≡ render lower_wide (with_overrides i ps)
  unfolding render mandatory_directives
  render-Perm i {os} {ps} d h =
      let before = unlines (mandatory_directives (with_overrides i os)) in
      let kept = user_section (
        strip_user_directives lower_wide i.configuration
          (skip_keys lower_wide (with_overrides i ps))) in
      ap
        (λ u.
          unlines header_lines
          ++ (before
              ++ (user_section u
                  ++ override_section (emitted_overrides lower_wide (with_overrides i os)))))
        (strip_ext i.configuration (skip_keys lower_wide (with_overrides i os))
          (skip_keys lower_wide (with_overrides i ps)) (λ k. skip-Perm i k d))
      ∙ ap (λ r. unlines header_lines ++ (before ++ (kept ++ r)))
          (section_ext (emitted-Perm i d) (emitted-Distinct i os h))
