-- ===== src/Webhook/Overrides.antt =====
-- internal/webhook/v1beta1/valkey_validator.go and internal/valkeyconf/render.go: what the webhook admits, and what
-- the renderer makes of it.
use velkir.ValkeyConf.{
  Inputs, Override, banned_directive_keys, contains_injection_chars, contains_nul, directive,
  directive_keys, directive_of, emitted_overrides, filter_overrides, first_field, has_directive,
  is_empty, is_space, keep, lower, mandatory_directives, member, newline, operator_owned_directives,
  override_line, place, render, sort_by_key, text_le, trim_left, trim_right, trim_space,
}
use velkir.ValkeyConf.Kept.{All-mono}
use velkir.ValkeyConf.Lines.{is_empty_nil, settings}
use velkir.ValkeyConf.Layers.{kept_lines, override_lines, settings-render}
use velkir.ValkeyConf.Directive.{directive-override_line, directive-start, is_blank, text_eq_refl}
use velkir.ValkeyConf.Last.{last_setting, last_setting-append, or_else}
use velkir.ValkeyConf.Determinism.{with_overrides}
use velkir.Webhook.{
  FieldError, concat_map, control_errors, control_in_key, control_in_value, key_errors,
  lines_errors, owned_key, validate_config_banlist, validate_config_control_chars, when,
}
use velkir.Webhook.Reserved.{dir, mandatory_free, or_false_right}
use velkir.Prelude.{
  ℕ, ◌≡◌, refl, inl, inr, sym, ap, ◌∙◌, Bool, true, false, not, List, [], ◌∷◌, ◌++◌, map, some,
  if◌then◌else◌, Bool-cases, All,
}
use velkir.Sentinel.Wire.Fields.{text_eq}
use velkir.Decimal.{Text}
use velkir.Version.{split_on}

append_nil_both : (xs ys : List FieldError) → xs ++ ys ≡ [] → (xs ≡ []) × (ys ≡ [])
append_nil_both [] ys h = (refl, h)
append_nil_both (x ∷ xs) ys h = cc

when_nil : (b : Bool) (e : FieldError) → when b e ≡ [] → b ≡ false
when_nil true e h = cc
when_nil false e h = refl

concat_map-nil :
    (f : Override → List FieldError) (os : List Override)
    → concat_map f os ≡ []
    → All (λ o. f o ≡ []) os
unfolding concat_map
concat_map-nil f [] h = tt
concat_map-nil f (o ∷ os) h =
    let (h0, hs) = append_nil_both (f o) (concat_map f os) h in (h0, concat_map-nil f os hs)

All-place :
    (P : Override → Type 0) (o : Override) (os : List Override)
    → All P (place o os)
    → P o × All P os
unfolding place
All-place P o [] h = h
All-place P o (p ∷ ps) h = place_case (text_le o.key p.key) (All-place P o ps) h
  where
    place_case :
        (b : Bool)
        → (All P (place o ps) → P o × All P ps)
        → All P (if b then o ∷ p ∷ ps else p ∷ place o ps)
        → P o × (P p × All P ps)
    place_case true later k = k
    place_case false later (k, ks) = let (k0, k1) = later ks in (k0, (k, k1))

-- What all of the sorted entries have, all have.
All-sorted : (P : Override → Type 0) (os : List Override) → All P (sort_by_key os) → All P os
unfolding sort_by_key
All-sorted P [] h = tt
All-sorted P (o ∷ os) h =
    let (h0, hs) = All-place P o (sort_by_key os) h in (h0, All-sorted P os hs)

keep_agree {ℓ} :
    {A : Type ℓ} (p q : A → Bool) (xs : List A) → All (λ x. p x ≡ q x) xs → keep p xs ≡ keep q xs
unfolding keep
keep_agree p q [] f = refl
keep_agree p q (x ∷ xs) (f, fs) = elim (Bool-cases (p x)) [
  | inl h ↦ rw (h, sym f ∙ h) (ap (λ r. x ∷ r) (keep_agree p q xs fs))
  | inr h ↦ rw (h, sym f ∙ h) (keep_agree p q xs fs)
]

All-both :
    (P Q : Override → Type 0) (os : List Override) → All P os → All Q os → All (λ o. P o × Q o) os
All-both P Q [] h k = tt
All-both P Q (o ∷ os) (h, hs) (k, ks) = ((h, k), All-both P Q os hs ks)

module _ (lower_wide : ℕ → ℕ) where
  -- What the two checks report for the overrides, the raw snippet being empty.
  abbrev pub override_errors : List Override → List FieldError
  override_errors os =
      validate_config_control_chars [] os ++ validate_config_banlist lower_wide [] os

  -- An entry that neither check has an error for.
  HasNoError : Override → Type 0
  HasNoError o =
      (contains_injection_chars o.key ≡ false)
      × (contains_injection_chars o.value ≡ false)
      × (member (banned_directive_keys lower_wide) (directive lower_wide o.key) ≡ false)

  errors-HasNoError : (os : List Override) → override_errors os ≡ [] → All HasNoError os
  unfolding HasNoError validate_config_control_chars validate_config_banlist contains_nul
  errors-HasNoError os h =
      let (control, banned) = append_nil_both (validate_config_control_chars [] os) _ h in
      let keys = (append_nil_both (lines_errors lower_wide 1 (split_on newline [])) _ banned).1 in
      All-sorted HasNoError os (
        All-mono _ HasNoError (sort_by_key os) (λ o (c, k). admitted o c k)
          (All-both _ _ (sort_by_key os) (concat_map-nil control_errors (sort_by_key os) control)
            (concat_map-nil (key_errors lower_wide) (sort_by_key os) keys)))
    where
      admitted :
          (o : Override) → control_errors o ≡ [] → key_errors lower_wide o ≡ [] → HasNoError o
      admitted o c k =
          let (c0, c1) =
            append_nil_both (when (contains_injection_chars o.key) (control_in_key o.key)) _ c in
          (
            when_nil _ (control_in_key o.key) c0,
            when_nil _ (control_in_value o.key) c1,
            when_nil _ (owned_key o.key (directive lower_wide o.key)) k,
          )

  -- Of overrides that neither the check of the banned directives nor that of the control characters has an
  -- error for, the renderer drops those for the directive `dir`, and no other.
  pub admitted-emitted :
      (i : Inputs)
      → override_errors i.overrides ≡ []
      → emitted_overrides lower_wide i
        ≡ keep (λ o. not (text_eq (directive lower_wide o.key) dir)) i.overrides
  unfolding emitted_overrides filter_overrides HasNoError
  admitted-emitted i h = keep_agree _ _ i.overrides (
      All-mono HasNoError _ i.overrides
        (λ o (k, v, b).
          rw (k, v, b, mandatory_free lower_wide i (directive lower_wide o.key) b)
            (ap not (or_false_right (text_eq (directive lower_wide o.key) dir))))
        (errors-HasNoError i.overrides h))

  blank-directive : (k : Text) → is_blank k ≡ true → directive lower_wide k ≡ []
  unfolding is_blank directive_of
  blank-directive k h =
      directive-start lower_wide k ∙ ap (directive_of lower_wide) (is_empty_nil (trim_left k) h)

  banned_nil : member (banned_directive_keys lower_wide) [] ≡ false
  unfolding banned_directive_keys directive_keys operator_owned_directives keep lower directive
      trim_space trim_left trim_right directive_of first_field is_space text_eq
  banned_nil = refl

  blank-admitted :
      (o : Override)
      → is_blank o.key ≡ true
      → contains_injection_chars o.key ≡ false
      → contains_injection_chars o.value ≡ false
      → override_errors (o ∷ []) ≡ []
  unfolding validate_config_control_chars validate_config_banlist contains_nul concat_map
      sort_by_key place lines_errors split_on trim_space trim_left trim_right
  blank-admitted o blank k v = rw (k, v, blank-directive o.key blank, banned_nil) refl

  keep_blank :
      (o : Override)
      → is_blank o.key ≡ true
      → keep (λ p. not (text_eq (directive lower_wide p.key) dir)) (o ∷ []) ≡ o ∷ []
  unfolding keep text_eq
  keep_blank o blank = rw (blank-directive o.key blank) refl

  blank-emitted :
      (i : Inputs) (o : Override)
      → is_blank o.key ≡ true
      → override_errors (o ∷ []) ≡ []
      → override_lines lower_wide (with_overrides i (o ∷ [])) ≡ override_line o ∷ []
  unfolding keep sort_by_key place text_eq
  blank-emitted i o blank h =
      ap (λ os. map override_line (sort_by_key os))
        (admitted-emitted (with_overrides i (o ∷ [])) h ∙ keep_blank o blank)

  last_of_one :
      (l : Text) (xs ys : List Text)
      → has_directive lower_wide l ≡ true
      → last_setting lower_wide
          (directive lower_wide l)
          (xs ++ (ys ++ keep (has_directive lower_wide) (l ∷ [])))
        ≡ some l
  unfolding last_setting keep
  last_of_one l xs ys live = rw live (
      last_setting-append lower_wide (directive lower_wide l) xs (ys ++ l ∷ [])
      ∙ ap (λ r. or_else r (last_setting lower_wide (directive lower_wide l) xs))
          (last_setting-append lower_wide (directive lower_wide l) ys (l ∷ []))
      ∙ rw (text_eq_refl (directive lower_wide l)) refl)

  -- A single entry with a blank key and a value that names a directive, both free of control characters, has
  -- no error in either check, and what the file has last for that directive is the line of the entry, also
  -- where the operator reserves the directive.
  pub blank_key-wins :
      (i : Inputs) (o : Override)
      → is_blank o.key ≡ true
      → contains_injection_chars o.key ≡ false
      → contains_injection_chars o.value ≡ false
      → has_directive lower_wide o.value ≡ true
      → (override_errors (o ∷ []) ≡ [])
        × (last_setting lower_wide
              (directive lower_wide o.value)
              (settings lower_wide (render lower_wide (with_overrides i (o ∷ []))))
            ≡ some (override_line o))
  blank_key-wins i o blank k v live =
      let admitted = blank-admitted o blank k v in
      let line = directive-override_line lower_wide o ∙ rw blank refl in
      (
        admitted,
        ap
              (λ d.
                last_setting lower_wide d
                  (settings lower_wide (render lower_wide (with_overrides i (o ∷ [])))))
              (sym line)
            ∙ ap (last_setting lower_wide (directive lower_wide (override_line o)))
                (settings-render lower_wide (with_overrides i (o ∷ [])))
            ∙ rw (blank-emitted i o blank admitted) (
                last_of_one (override_line o) (mandatory_directives (with_overrides i (o ∷ [])))
                  (keep (has_directive lower_wide)
                    (kept_lines lower_wide (with_overrides i (o ∷ []))))
                  (ap (λ d. not (is_empty d)) line ∙ live)),
      )
