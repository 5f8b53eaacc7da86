-- ===== src/Webhook/Reserved.antt =====
-- internal/webhook/v1beta1/valkey_validator.go and internal/valkeyconf/render.go: which mandatory directives the list
-- of banned ones has.
use velkir.ValkeyConf.{
  Inputs, banned_directive_keys, directive, directive_keys, directive_of, first_field,
  has_directive, is_space, keep, lower, mandatory_directives, mandatory_keys_of, member, numbered,
  operator_owned_directives, pod_ip_placeholder, print_int, trim_left, trim_right, trim_space,
}
use velkir.ValkeyConf.Kept.{All-append, All-map, keep_same}
use velkir.ValkeyConf.Mandatory.{dir_line, live_mandatory}
use velkir.ValkeyConf.Directive.{directive-start, text_eq→eq}
use velkir.ValkeyConf.Last.{true≢false}
use mathlib.Core.Path.{ap}
use mathlib.Core.List.{map}
use velkir.Sentinel.Wire.Fields.{text_eq}
use velkir.Sentinel.SurgeryGuard.{codes}
use velkir.Decimal.{Text}
use velkir.Prelude.{
  ℕ, ◌≡◌, refl, inl, inr, sym, ◌∙◌, Bool, true, false, ◌||◌, List, [], ◌∷◌, ◌++◌, Option, none,
  some, Bool-cases, All,
}
use velkir.Prelude.Int.{ℤ}

abbrev pub numbers : Inputs → List Text
numbers i =
    numbered (codes "min-replicas-to-write ") i.min_replicas_to_write
    ++ numbered (codes "min-replicas-max-lag ") i.min_replicas_max_lag

abbrev pub tail_lines : Inputs → List Text
tail_lines i =
    codes "port 6379"
    ∷ codes "protected-mode no"
    ∷ (codes "replica-announce-ip " ++ pod_ip_placeholder)
    ∷ codes "replica-announce-port 6379"
    ∷ numbers i

pub or_false_right : (b : Bool) → (b || false) ≡ b
or_false_right true = refl
or_false_right false = refl

abbrev pub dir : Text
dir = codes "dir"

module _ (lower_wide : ℕ → ℕ) where
  unfoldable pub IsReserved : Text → Type 0
  IsReserved d = member (banned_directive_keys lower_wide) d ≡ true

  pub banned_numbers :
      (n : ℤ)
      → (IsReserved (directive lower_wide (codes "min-replicas-to-write " ++ print_int n)))
        × (IsReserved (directive lower_wide (codes "min-replicas-max-lag " ++ print_int n)))
  unfolding IsReserved banned_directive_keys directive_keys operator_owned_directives keep lower
      directive trim_space trim_left trim_right directive_of first_field is_space text_eq
  banned_numbers n = (
    ap (member (banned_directive_keys lower_wide))
        (directive-start lower_wide (codes "min-replicas-to-write " ++ print_int n)),
    ap (member (banned_directive_keys lower_wide))
        (directive-start lower_wide (codes "min-replicas-max-lag " ++ print_int n)),
  )

  pub banned_words :
      (IsReserved (directive lower_wide (codes "port 6379")))
      × (IsReserved (directive lower_wide (codes "protected-mode no")))
      × (IsReserved (directive lower_wide (codes "replica-announce-ip " ++ pod_ip_placeholder)))
      × (IsReserved (directive lower_wide (codes "replica-announce-port 6379")))
  unfolding IsReserved banned_directive_keys directive_keys operator_owned_directives keep lower
      directive trim_space trim_left trim_right directive_of first_field is_space text_eq
  banned_words = (refl, refl, refl, refl)

  pub banned_numbered :
      (name : Text) (n : Option ℤ)
      → ((m : ℤ) → IsReserved (directive lower_wide (name ++ print_int m)))
      → All (λ l. IsReserved (directive lower_wide l)) (numbered name n)
  banned_numbered name none h = tt
  banned_numbered name (some n) h = (h n, tt)

  pub directive-dir_line : (p : Bool) → directive lower_wide (dir_line p) ≡ dir
  unfolding dir_line lower directive trim_space trim_left trim_right directive_of first_field
      is_space
  directive-dir_line true = refl
  directive-dir_line false = refl

  -- Of the mandatory directives, `dir` alone is not among the banned ones.
  pub mandatory_rest :
      (i : Inputs)
      → (rest : List Text) × (mandatory_keys_of lower_wide i ≡ dir ∷ rest) × All IsReserved rest
  unfolding mandatory_keys_of directive_keys mandatory_directives dir_line
  mandatory_rest i = (
    map (directive lower_wide) (tail_lines i),
    ap (map (directive lower_wide)) (
          keep_same (has_directive lower_wide) (mandatory_directives i)
            (live_mandatory lower_wide i))
        ∙ ap (λ d. d ∷ map (directive lower_wide) (tail_lines i)) (directive-dir_line i.persistent),
    (
      banned_words.0,
      (
        banned_words.1,
        (
          banned_words.2,
          (
            banned_words.3,
            All-map IsReserved (directive lower_wide) (numbers i) (
                All-append _ (numbered (codes "min-replicas-to-write ") i.min_replicas_to_write)
                  (numbered (codes "min-replicas-max-lag ") i.min_replicas_max_lag)
                  (banned_numbered (codes "min-replicas-to-write ") i.min_replicas_to_write
                    (λ n. (banned_numbers n).0))
                  (banned_numbered (codes "min-replicas-max-lag ") i.min_replicas_max_lag
                    (λ n. (banned_numbers n).1))),
          ),
        ),
      ),
    ),
  )

  pub rest_free :
      (d : Text) (rest : List Text)
      → All IsReserved rest
      → member (banned_directive_keys lower_wide) d ≡ false
      → member rest d ≡ false
  unfolding IsReserved
  rest_free d [] h free = refl
  rest_free d (k ∷ rest) (h, hs) free = elim (Bool-cases (text_eq d k)) [
    | inl same ↦ absurd (
        true≢false (
          sym h
          ∙ sym (ap (member (banned_directive_keys lower_wide)) (text_eq→eq d k same))
          ∙ free))
    | inr other ↦ rw other (rest_free d rest hs free)
  ]

  pub mandatory_free :
      (i : Inputs) (d : Text)
      → member (banned_directive_keys lower_wide) d ≡ false
      → member (mandatory_keys_of lower_wide i) d ≡ text_eq d dir
  mandatory_free i d free =
      let (rest, e, banned) = mandatory_rest i in
      ap (λ ks. member ks d) e ∙ rw (rest_free d rest banned free) (or_false_right (text_eq d dir))
