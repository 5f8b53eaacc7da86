-- ===== src/ValkeyConf/Precedence.antt =====
-- internal/valkeyconf/render.go: which layer wins, as Valkey reads a file, where the last line that names a
-- directive counts.
use velkir.ValkeyConf.{
  Inputs, Override, banned_directive_keys, directive, directive_keys, emitted_overrides,
  has_directive, is_empty, keep, lower, mandatory_directives, mandatory_keys_of, member,
  merge_keysets, newline, override_line, render, skip_keys, sort_by_key, trim_space,
}
use velkir.ValkeyConf.Kept.{All-map, All-mono, any-append, keep_pass, or_false}
use velkir.ValkeyConf.Lines.{settings}
use velkir.ValkeyConf.Layers.{
  All-sort_by_key, HasPassed, emitted_overrides-both, kept_lines, override_lines, settings-render,
}
use velkir.ValkeyConf.Directive.{directive-override_line, is_blank, text_eq_sym, text_eq→eq}
use velkir.ValkeyConf.Last.{
  last_setting, last_setting-append, last_setting-keep, last_setting-live, last_setting-none,
  or_else, or_else-none, true≢false,
}
use velkir.Prelude.{
  ap, ℕ, ◌≡◌, refl, inl, inr, sym, ◌∙◌, Bool, true, false, not, ◌&&◌, ◌||◌, List, [], ◌∷◌, map,
  Option, none, if◌then◌else◌, Bool-cases, All,
}
use velkir.Decimal.{Text}
use velkir.Version.{split_on}
use velkir.Sentinel.Wire.Fields.{text_eq}

not_and_false : (b : Bool) → not (b && false) ≡ true
not_and_false true = refl
not_and_false false = refl

any_of_three : (a b c : Bool) → (a || c) ≡ true → ((a || b) || c) ≡ true
any_of_three true b c h = refl
any_of_three false true c h = refl
any_of_three false false c h = h

differs :
    (u d : Text) (skip : List Text)
    → not (not (is_empty u) && member skip u) ≡ true
    → is_empty d ≡ false
    → member skip d ≡ true
    → text_eq u d ≡ false
differs u d skip passed h m = elim (Bool-cases (text_eq u d)) [
  | inl same ↦ absurd (
      true≢false (
        sym passed
        ∙ ap (λ x. not (not (is_empty x) && member skip x)) (text_eq→eq u d same)
        ∙ rw (h, m) refl))
  | inr other ↦ other
]

module _ (lower_wide : ℕ → ℕ) where
  -- What the operator reserves: the directives of the mandatory lines, and the banned ones.
  abbrev pub is_owned : Inputs → Text → Bool
  is_owned i d =
      member (mandatory_keys_of lower_wide i) d || member (banned_directive_keys lower_wide) d

  abbrev pub override_keys : Inputs → List Text
  override_keys i =
      map (λ o. map (lower lower_wide) (trim_space o.key)) (emitted_overrides lower_wide i)

  -- The three layers, the mandatory one first: the user's snippet sets what neither of the others does.
  unfoldable pub layered : Inputs → Text → Option Text
  layered i d =
      if is_owned i d
      then last_setting lower_wide d (mandatory_directives i)
      else or_else (last_setting lower_wide d (override_lines lower_wide i)) (
          if member (override_keys i) d
          then none
          else last_setting lower_wide d (split_on newline i.configuration))

  pub member-skip_keys :
      (i : Inputs) (d : Text)
      → member (skip_keys lower_wide i) d ≡ (
          (member (mandatory_keys_of lower_wide i) d || member (override_keys i) d)
          || member (banned_directive_keys lower_wide) d)
  unfolding skip_keys merge_keysets
  member-skip_keys i d =
      any-append (text_eq d)
        (merge_keysets lower_wide (mandatory_keys_of lower_wide i) (emitted_overrides lower_wide i))
        (banned_directive_keys lower_wide)
      ∙ ap (λ b. b || member (banned_directive_keys lower_wide) d)
          (any-append (text_eq d) (mandatory_keys_of lower_wide i) (override_keys i))

  kept_stripped :
      (i : Inputs) (d : Text)
      → is_empty d ≡ false
      → member (skip_keys lower_wide i) d ≡ true
      → last_setting lower_wide d (kept_lines lower_wide i) ≡ none
  kept_stripped i d h m = last_setting-none lower_wide d (kept_lines lower_wide i) (
      keep_pass (λ l. text_eq (directive lower_wide l) d ≡ false) _
        (split_on newline i.configuration)
        (λ l passed. differs (directive lower_wide l) d (skip_keys lower_wide i) passed h m))

  kept_free :
      (i : Inputs) (d : Text)
      → member (skip_keys lower_wide i) d ≡ false
      → last_setting lower_wide d (kept_lines lower_wide i)
        ≡ last_setting lower_wide d (split_on newline i.configuration)
  kept_free i d m = last_setting-keep lower_wide d _ (split_on newline i.configuration) (λ l same.
      ap (λ u. not (not (is_empty u) && member (skip_keys lower_wide i) u))
        (text_eq→eq (directive lower_wide l) d same)
      ∙ rw m (not_and_false (not (is_empty d))))

  last_setting-kept :
      (i : Inputs) (d : Text)
      → is_empty d ≡ false
      → is_owned i d ≡ false
      → last_setting lower_wide d (kept_lines lower_wide i) ≡ (
          if member (override_keys i) d
          then none
          else last_setting lower_wide d (split_on newline i.configuration))
  last_setting-kept i d h free =
      let skip = member-skip_keys i d in
      let (m, b) =
        or_false (member (mandatory_keys_of lower_wide i) d)
          (member (banned_directive_keys lower_wide) d) free in
      elim (Bool-cases (member (override_keys i) d)) [
        | inl over ↦ rw over (kept_stripped i d h (skip ∙ rw (m, over) refl))
        | inr free_of ↦ rw free_of (kept_free i d (skip ∙ rw (m, free_of, b) refl))
      ]

  owned_skip :
      (i : Inputs) (d : Text) → is_owned i d ≡ true → member (skip_keys lower_wide i) d ≡ true
  owned_skip i d owned =
      member-skip_keys i d
      ∙ any_of_three (member (mandatory_keys_of lower_wide i) d) (member (override_keys i) d)
          (member (banned_directive_keys lower_wide) d) owned

  named_line :
      (o : Override)
      → is_blank o.key ≡ false
      → directive lower_wide (override_line o) ≡ directive lower_wide o.key
  named_line o key = directive-override_line lower_wide o ∙ rw key refl

  overrides_free :
      (i : Inputs) (d : Text)
      → All (λ o. is_blank o.key ≡ false) i.overrides
      → is_owned i d ≡ true
      → last_setting lower_wide d (override_lines lower_wide i) ≡ none
  unfolding HasPassed
  overrides_free i d named owned = last_setting-none lower_wide d (override_lines lower_wide i) (
      All-map (λ l. text_eq (directive lower_wide l) d ≡ false) override_line
        (sort_by_key (emitted_overrides lower_wide i))
        (All-mono (λ o. (is_blank o.key ≡ false) × HasPassed lower_wide i o) _
          (sort_by_key (emitted_overrides lower_wide i))
          (λ o (key, (_, _, m, b)). other_directive o key m b)
          (All-sort_by_key lower_wide _ (emitted_overrides lower_wide i)
            (emitted_overrides-both lower_wide i (λ o. is_blank o.key ≡ false) named))))
    where
      other_directive :
          (o : Override)
          → is_blank o.key ≡ false
          → member (mandatory_keys_of lower_wide i) (directive lower_wide o.key) ≡ false
          → member (banned_directive_keys lower_wide) (directive lower_wide o.key) ≡ false
          → text_eq (directive lower_wide (override_line o)) d ≡ false
      other_directive o key m b =
          elim (Bool-cases (text_eq (directive lower_wide (override_line o)) d)) [
            | inl same ↦ absurd (
                true≢false (
                  sym owned
                  ∙ ap (is_owned i) (
                      sym (text_eq→eq (directive lower_wide (override_line o)) d same)
                      ∙ named_line o key)
                  ∙ rw (m, b) refl))
            | inr other ↦ other
          ]

  mandatory_free :
      (i : Inputs) (d : Text)
      → is_empty d ≡ false
      → member (mandatory_keys_of lower_wide i) d ≡ false
      → last_setting lower_wide d (mandatory_directives i) ≡ none
  unfolding mandatory_keys_of directive_keys
  mandatory_free i d h m =
      sym (last_setting-live lower_wide d (mandatory_directives i) h)
      ∙ last_setting-none lower_wide d (keep (has_directive lower_wide) (mandatory_directives i))
          (unnamed (keep (has_directive lower_wide) (mandatory_directives i)) m)
    where
      unnamed :
          (ls : List Text)
          → member (map (directive lower_wide) ls) d ≡ false
          → All (λ l. text_eq (directive lower_wide l) d ≡ false) ls
      unnamed [] k = tt
      unnamed (l ∷ ls) k =
          let (k0, k1) = or_false (text_eq d (directive lower_wide l)) _ k in
          (text_eq_sym (directive lower_wide l) d ∙ k0, unnamed ls k1)

  -- If no key of an override is blank, the last line that a rendered file has for a directive, which is not
  -- empty, is the one of the layers: of a directive that the operator reserves, the mandatory line, or none
  -- where it is only banned; else the last line of an override that is not dropped, in the order of the keys,
  -- and else the last one of the user's snippet, unless the whole key of such an override spells the
  -- directive.
  pub last_setting-render :
      (i : Inputs) (d : Text)
      → All (λ o. is_blank o.key ≡ false) i.overrides
      → is_empty d ≡ false
      → last_setting lower_wide d (settings lower_wide (render lower_wide i)) ≡ layered i d
  unfolding layered
  last_setting-render i d named h =
      ap (last_setting lower_wide d) (settings-render lower_wide i)
      ∙ last_setting-append lower_wide d (mandatory_directives i) _
      ∙ ap (λ r. or_else r (last_setting lower_wide d (mandatory_directives i)))
          (last_setting-append lower_wide d
            (keep (has_directive lower_wide) (kept_lines lower_wide i))
            (keep (has_directive lower_wide) (override_lines lower_wide i)))
      ∙ rw
          (
            last_setting-live lower_wide d (kept_lines lower_wide i) h,
            last_setting-live lower_wide d (override_lines lower_wide i) h,
          )
          (elim (Bool-cases (is_owned i d)) [
            | inl owned ↦
                rw
                  (
                    owned,
                    overrides_free i d named owned,
                    kept_stripped i d h (owned_skip i d owned),
                  )
                  refl
            | inr free ↦
                rw
                  (
                    free,
                    last_setting-kept i d h free,
                    mandatory_free i d h
                        (or_false (member (mandatory_keys_of lower_wide i) d) _ free).0,
                  )
                  (sym (or_else-none _))
          ])
