-- ===== src/ValkeyConf.antt =====
-- internal/valkeyconf/render.go: the valkey.conf that the operator writes. A text is the list of its runes.
-- `lower_wide` is what Go's `unicode.ToLower` makes of the runes outside ASCII. A Go map is the list of its
-- entries, in any order.
pub mod Kept
pub mod Lines
pub mod Mandatory
pub mod Last
pub mod Order
pub mod Layers
pub mod Directive
pub mod Precedence
pub mod Determinism
use velkir.Decimal.{Text, itoa}
use velkir.Version.{split_on}
use velkir.Sentinel.SurgeryGuard.{codes}
use velkir.Sentinel.Wire.Fields.{text_eq}
use velkir.Prelude.{
  ℕ, zero, suc, ◌+◌, ◌-◌, ◌*◌, ◌≤◌, ◌<◌, ◌≡◌, ◌≢◌, ◌↔◌, ◌⊎◌, refl, inl, inr, sym, ap, ◌∙◌, Bool,
  true, false, not, ◌&&◌, ◌||◌, List, [], ◌∷◌, ◌++◌, map, Option, none, some, String, arith, str_eq,
  eq_iff, ltb, leb, ◌==◌, if◌then◌else◌, Bool-cases, Option-cases, if_intro, and_iff, or_iff,
  length, any, all, All, count_if,
}
use velkir.Prelude.Int.{
  ℤ, pos, negsuc, ◌+ℤ◌, ◌-ℤ◌, ◌≤ℤ◌, ◌<ℤ◌, ltb_ℤ, leb_ℤ, eq_ℤ, min_ℤ, max_ℤ, int_laws,
}
use velkir.Prelude.Time.{
  Time, Duration, second, zero_time, is_zero, time_sub, time_add, before, after, time_sub_ge,
}

abbrev pub newline : ℕ
newline = b'\n'

-- `unicode.IsSpace`.
unfoldable pub is_space : ℕ → Bool
is_space c =
    (leb 9 c && leb c 13)
    || (c == 32
        || (c == 133
            || (c == 160
                || (c == 5_760
                    || ((leb 8_192 c && leb c 8_202)
                        || (c == 8_232
                            || (c == 8_233 || (c == 8_239 || (c == 8_287 || c == 12_288)))))))))

unfoldable pub trim_left : Text → Text
trim_left [] = []
trim_left (c ∷ t) = let rest = trim_left t in if is_space c then rest else c ∷ t

abbrev pub is_empty : Text → Bool
is_empty [] = true
is_empty (c ∷ t) = false

-- `strings.TrimRight` with the runes that pass the test.
unfoldable pub trim_right : (ℕ → Bool) → Text → Text
trim_right p [] = []
trim_right p (c ∷ t) = let rest = trim_right p t in if p c && is_empty rest then [] else c ∷ rest

unfoldable pub trim_space : Text → Text
trim_space t = trim_right is_space (trim_left t)

-- The first of `strings.Fields` of a text that starts with none of the spaces.
unfoldable pub first_field : Text → Text
first_field [] = []
first_field (c ∷ t) = let rest = first_field t in if is_space c then [] else c ∷ rest

unfoldable pub keep {ℓ} : {A : Type ℓ} → (A → Bool) → List A → List A
keep p [] = []
keep p (x ∷ xs) = let rest = keep p xs in if p x then x ∷ rest else rest

abbrev pub member : List Text → Text → Bool
member ts t = any (text_eq t) ts

unfoldable pub operator_owned_directives : List Text
operator_owned_directives =
    codes "bind"
    ∷ codes "daemonize"
    ∷ codes "masterauth"
    ∷ codes "min-replicas-max-lag"
    ∷ codes "min-replicas-to-write"
    ∷ codes "port"
    ∷ codes "protected-mode"
    ∷ codes "replica-announce-ip"
    ∷ codes "replica-announce-port"
    ∷ codes "replicaof"
    ∷ codes "requirepass"
    ∷ codes "sentinel announce-hostnames"
    ∷ codes "sentinel monitor"
    ∷ codes "sentinel resolve-hostnames"
    ∷ codes "slaveof"
    ∷ codes "unixsocket"
    ∷ []

unfoldable pub contains_nul : Text → Bool
contains_nul t = any (λ c. c == 0) t

unfoldable pub contains_injection_chars : Text → Bool
contains_injection_chars t = any (λ c. c == b'\n' || c == b'\r') t || contains_nul t

pub record Override : Type 0 where
  pub key : Text
  pub value : Text

pub record Inputs : Type 0 where
  pub persistent : Bool
  pub configuration : Text
  pub overrides : List Override
  pub min_replicas_to_write : Option ℤ
  pub min_replicas_max_lag : Option ℤ

-- `%d`.
unfoldable pub print_int : ℤ → Text
print_int (pos n) = itoa n
print_int (negsuc n) = b'-' ∷ itoa (suc n)

abbrev pub numbered : Text → Option ℤ → List Text
numbered name none = []
numbered name (some n) = (name ++ print_int n) ∷ []

abbrev pub pod_ip_placeholder : Text
pod_ip_placeholder = codes "_POD_IP_"

unfoldable pub mandatory_directives : Inputs → List Text
mandatory_directives i =
    (codes "dir " ++ (if i.persistent then codes "/data" else codes "/tmp"))
    ∷ codes "port 6379"
    ∷ codes "protected-mode no"
    ∷ (codes "replica-announce-ip " ++ pod_ip_placeholder)
    ∷ codes "replica-announce-port 6379"
    ∷ (numbered (codes "min-replicas-to-write ") i.min_replicas_to_write
        ++ numbered (codes "min-replicas-max-lag ") i.min_replicas_max_lag)

-- Every line with its end.
unfoldable pub unlines : List Text → Text
unlines [] = []
unlines (l ∷ ls) = l ++ newline ∷ unlines ls

unfoldable pub header_lines : List Text
header_lines =
    codes "# Managed by velkir. Do not edit by hand; this ConfigMap is"
    ∷ codes "# overwritten on every reconcile."
    ∷ codes "#"
    ∷ codes "# _POD_IP_ is substituted by the render-config init container at pod"
    ∷ codes "# start using $(POD_IP) from the Downward API."
    ∷ []

-- `sort.Strings` orders by bytes, which is the order of the runes.
unfoldable pub text_le : Text → Text → Bool
text_le [] t = true
text_le (c ∷ s) [] = false
text_le (c ∷ s) (d ∷ t) = ltb c d || c == d && text_le s t

unfoldable pub place : Override → List Override → List Override
place o [] = o ∷ []
place o (p ∷ ps) = let rest = place o ps in if text_le o.key p.key then o ∷ p ∷ ps else p ∷ rest

-- The entries in the order of their keys.
unfoldable pub sort_by_key : List Override → List Override
sort_by_key [] = []
sort_by_key (o ∷ os) = place o (sort_by_key os)

abbrev pub override_line : Override → Text
override_line o = o.key ++ b' ' ∷ o.value

unfoldable pub user_title : Text
user_title = codes "# spec.valkey.configuration"

unfoldable pub override_title : Text
override_title = codes "# spec.valkey.configurationOverrides"

unfoldable pub user_section : Text → Text
user_section [] = []
user_section (c ∷ t) = newline ∷ (user_title ++ newline ∷ c ∷ t)

unfoldable pub override_section : List Override → Text
override_section [] = []
override_section (o ∷ os) =
    newline ∷ (override_title ++ newline ∷ unlines (map override_line (sort_by_key (o ∷ os))))

unfoldable pub end_line : Text → Text
end_line [] = []
end_line (c ∷ t) = c ∷ (t ++ newline ∷ [])

module _ (lower_wide : ℕ → ℕ) where
  unfoldable pub lower : ℕ → ℕ
  lower c = if ltb c 128 then (if leb b'A' c && leb c b'Z' then c + 32 else c) else lower_wide c

  unfoldable pub directive_of : Text → Text
  directive_of [] = []
  directive_of (c ∷ t) = if c == b'#' then [] else map lower (first_field (c ∷ t))

  unfoldable pub directive : Text → Text
  directive line = directive_of (trim_space line)

  abbrev pub has_directive : Text → Bool
  has_directive line = not (is_empty (directive line))

  -- `mandatoryKeyset` and `bannedDirectiveKeys`.
  unfoldable pub directive_keys : List Text → List Text
  directive_keys lines = map directive (keep has_directive lines)

  unfoldable pub filter_overrides : List Override → List Text → List Text → List Override
  filter_overrides overrides mandatory_keys banned_keys =
      keep
        (λ o.
          not (contains_injection_chars o.key || contains_injection_chars o.value)
          && not (member mandatory_keys (directive o.key) || member banned_keys (directive o.key)))
        overrides

  unfoldable pub merge_keysets : List Text → List Override → List Text
  merge_keysets mandatory_keys overrides =
      mandatory_keys ++ map (λ o. map lower (trim_space o.key)) overrides

  abbrev pub is_stripped : List Text → Text → Bool
  is_stripped skip line = has_directive line && member skip (directive line)

  unfoldable pub strip_user_directives : Text → List Text → Text
  strip_user_directives raw skip = end_line (
      trim_right (λ c. c == newline)
        (unlines (keep (λ l. not (is_stripped skip l)) (split_on newline raw))))

  unfoldable pub mandatory_keys_of : Inputs → List Text
  mandatory_keys_of i = directive_keys (mandatory_directives i)

  unfoldable pub banned_directive_keys : List Text
  banned_directive_keys = directive_keys operator_owned_directives

  unfoldable pub emitted_overrides : Inputs → List Override
  emitted_overrides i = filter_overrides i.overrides (mandatory_keys_of i) banned_directive_keys

  unfoldable pub skip_keys : Inputs → List Text
  skip_keys i = merge_keysets (mandatory_keys_of i) (emitted_overrides i) ++ banned_directive_keys

  unfoldable pub render : Inputs → Text
  render i =
      unlines header_lines
      ++ (unlines (mandatory_directives i)
          ++ (user_section (strip_user_directives i.configuration (skip_keys i))
              ++ override_section (emitted_overrides i)))
