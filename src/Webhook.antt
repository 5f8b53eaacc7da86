-- ===== src/Webhook.antt =====
-- internal/webhook/v1beta1/valkey_validator.go: the checks of the user's configuration at admission. An error is
-- what it is about: the number of a line or the key of an entry, with the directive or the token that is named.
pub mod Reserved
pub mod Overrides
pub mod Snippet
use velkir.ValkeyConf.{
  Override, banned_directive_keys, contains_injection_chars, contains_nul, directive, is_empty,
  keep, lower, member, newline, operator_owned_directives, pod_ip_placeholder, sort_by_key,
  trim_space,
}
use velkir.Sentinel.Wire.Fields.{text_eq}
use velkir.Sentinel.SurgeryGuard.{codes, contains}
use velkir.Decimal.{Text}
use velkir.Version.{split_on}
use velkir.Prelude.{
  ℕ, zero, suc, ◌+◌, ◌-◌, ◌*◌, ◌≤◌, ◌<◌, ◌≡◌, ◌≢◌, ◌↔◌, ◌⊎◌, refl, inl, inr, sym, ap, ◌∙◌, Bool,
  true, false, not, ◌&&◌, ◌||◌, List, [], ◌∷◌, ◌++◌, map, Option, none, some, String, arith, str_eq,
  eq_iff, ltb, leb, ◌==◌, if◌then◌else◌, Bool-cases, Option-cases, if_intro, and_iff, or_iff,
  length, any, all, All, count_if,
}
use velkir.Prelude.Int.{
  ℤ, pos, negsuc, ◌+ℤ◌, ◌-ℤ◌, ◌≤ℤ◌, ◌<ℤ◌, ltb_ℤ, leb_ℤ, eq_ℤ, min_ℤ, max_ℤ, int_laws,
}
use velkir.Prelude.Time.{
  Time, Duration, second, zero_time, is_zero, time_sub, time_add, before, after, time_sub_ge,
}

pub data FieldError : Type 0 where
  owned_line : ℕ → Text → FieldError
  owned_key : Text → Text → FieldError
  nul_byte : FieldError
  control_in_key control_in_value : Text → FieldError
  reserved_in_configuration : Text → FieldError
  reserved_in_value : Text → Text → FieldError

unfoldable pub is_letter : ℕ → Bool
is_letter c = (leb b'A' c && leb c b'Z') || (leb b'a' c && leb c b'z')

unfoldable pub is_name_rune : ℕ → Bool
is_name_rune c = is_letter c || ((leb b'0' c && leb c b'9') || c == b'-')

-- `\s` of a regular expression.
unfoldable pub is_pattern_space : ℕ → Bool
is_pattern_space c = c == 9 || (c == 10 || (c == 12 || (c == 13 || c == 32)))

unfoldable pub take_name : Text → Text
take_name [] = []
take_name (c ∷ t) = let rest = take_name t in if is_name_rune c then c ∷ rest else []

unfoldable pub drop_while : (ℕ → Bool) → Text → Text
drop_while p [] = []
drop_while p (c ∷ t) = let rest = drop_while p t in if p c then rest else c ∷ t

abbrev pub name_at : Text → Option Text
name_at [] = none
name_at (c ∷ t) = if is_letter c then some (c ∷ take_name t) else none

-- The second word that `configLineRegexp` takes: after a space at least, if it starts with a letter.
unfoldable pub second_word : Text → Option Text
second_word [] = none
second_word (c ∷ t) = if is_pattern_space c then name_at (drop_while is_pattern_space t) else none

abbrev pub with_second : Text → Option Text → Text
with_second first none = first
with_second first (some word) = first ++ b' ' ∷ word

abbrev pub named_with : Text → Text → Text
named_with rest first =
    if text_eq first (codes "sentinel") then with_second first (second_word rest) else first

abbrev pub directive_from : Text → Option Text → Text
directive_from line none = []
directive_from line (some first) = named_with (drop_while is_name_rune line) first

unfoldable pub extract_directive : Text → Text
extract_directive line = directive_from line (name_at line)

-- The placeholders of the renderers; both are one text, which `dedupStrings` leaves once.
unfoldable pub dedup_strings : List Text → List Text
dedup_strings [] = []
dedup_strings (t ∷ ts) = t ∷ keep (λ u. not (text_eq t u)) (dedup_strings ts)

unfoldable pub reserved_render_tokens : List Text
reserved_render_tokens = dedup_strings (pod_ip_placeholder ∷ pod_ip_placeholder ∷ [])

abbrev pub when : Bool → FieldError → List FieldError
when true e = e ∷ []
when false e = []

unfoldable pub concat_map {ℓ} : {A : Type ℓ} → (A → List FieldError) → List A → List FieldError
concat_map f [] = []
concat_map f (x ∷ xs) = f x ++ concat_map f xs

-- `validateReservedRenderTokens`, with the entries in the order of the list.
unfoldable pub validate_reserved_render_tokens : Text → List Override → List FieldError
validate_reserved_render_tokens raw overrides =
    concat_map
      (λ token.
        when (not (is_empty raw) && contains raw token) (reserved_in_configuration token)
        ++ concat_map (λ o. when (contains o.value token) (reserved_in_value o.key token))
            overrides)
      reserved_render_tokens

abbrev pub control_errors : Override → List FieldError
control_errors o =
    when (contains_injection_chars o.key) (control_in_key o.key)
    ++ when (contains_injection_chars o.value) (control_in_value o.key)

unfoldable pub validate_config_control_chars : Text → List Override → List FieldError
validate_config_control_chars raw overrides =
    when (contains_nul raw) nul_byte ++ concat_map control_errors (sort_by_key overrides)

module _ (lower_wide : ℕ → ℕ) where
  abbrev pub banned_line : ℕ → Text → List FieldError
  banned_line n directive =
      when
        (not (is_empty directive)
          && member operator_owned_directives (map (lower lower_wide) directive))
        (owned_line n (map (lower lower_wide) directive))

  abbrev pub line_errors : ℕ → Text → List FieldError
  line_errors n [] = []
  line_errors n (c ∷ t) = if c == b'#' then [] else banned_line n (extract_directive (c ∷ t))

  unfoldable pub lines_errors : ℕ → List Text → List FieldError
  lines_errors n [] = []
  lines_errors n (l ∷ ls) = line_errors n (trim_space l) ++ lines_errors (suc n) ls

  abbrev pub key_errors : Override → List FieldError
  key_errors o =
      when (member (banned_directive_keys lower_wide) (directive lower_wide o.key))
        (owned_key o.key (directive lower_wide o.key))

  unfoldable pub validate_config_banlist : Text → List Override → List FieldError
  validate_config_banlist raw overrides =
      lines_errors 1 (split_on newline raw) ++ concat_map key_errors (sort_by_key overrides)
