-- ===== src/Examples/Config.antt =====
-- internal/valkeyconf and internal/webhook: a rendered file with entries of each layer.
use velkir.ValkeyConf.{
  Inputs, Override, banned_directive_keys, contains_injection_chars, contains_nul, directive,
  directive_keys, directive_of, emitted_overrides, end_line, filter_overrides, first_field,
  has_directive, is_space, keep, lower, mandatory_directives, mandatory_keys_of, merge_keysets,
  operator_owned_directives, override_line, override_section, override_title, place, print_int,
  render, skip_keys, sort_by_key, strip_user_directives, text_le, trim_left, trim_right, trim_space,
  unlines,
}
use velkir.ValkeyConf.Lines.{settings}
use velkir.ValkeyConf.Layers.{kept_lines, override_lines, settings-render}
use velkir.ValkeyConf.Directive.{is_blank}
use velkir.ValkeyConf.Last.{last_setting}
use velkir.ValkeyConf.Precedence.{last_setting-render, layered}
use velkir.ValkeyConf.Determinism.{render-Perm, with_overrides}
use velkir.Webhook.{
  concat_map, drop_while, extract_directive, is_letter, is_name_rune, is_pattern_space,
  lines_errors, owned_line, second_word, take_name, validate_config_banlist,
  validate_config_control_chars,
}
use velkir.Webhook.Overrides.{admitted-emitted, blank_key-wins, override_errors}
use velkir.Prelude.{Permᴰ, ℕ, ◌≡◌, refl, true, false, not, List, [], ◌∷◌, ◌++◌, none, some, String}
use velkir.Prelude.Int.{pos}
use velkir.Decimal.{Text, digits, itoa}
use velkir.Version.{split_on}
use velkir.Sentinel.Wire.Fields.{text_eq}
use velkir.Sentinel.SurgeryGuard.{codes}

abbrev same : ℕ → ℕ
same c = c

abbrev entry : String → String → Override
entry k v = record { key = codes k; value = codes v }

abbrev sample : Inputs
sample = record {
  persistent = true;
  configuration = codes "maxmemory 1gb\nPORT 1234\nappendonly no\n\n# tail";
  overrides = entry "hz" "20" ∷ entry "appendonly" "yes" ∷ [];
  min_replicas_to_write = some (pos 1);
  min_replicas_max_lag = none;
}

abbrev swapped : List Override
swapped = entry "appendonly" "yes" ∷ entry "hz" "20" ∷ []

abbrev smuggled : Override
smuggled = entry " " "requirepass open"

rendered_tail :
    override_section (emitted_overrides same sample)
    ≡ codes "\n# spec.valkey.configurationOverrides\nappendonly yes\nhz 20\n"
unfolding keep contains_injection_chars contains_nul mandatory_keys_of directive_keys
    mandatory_directives directive directive_of trim_space trim_right trim_left is_space first_field
    text_eq digits itoa banned_directive_keys lower operator_owned_directives print_int
    emitted_overrides filter_overrides sort_by_key place text_le override_section override_title
    unlines
rendered_tail = refl

rendered_user :
    strip_user_directives same sample.configuration (skip_keys same sample)
    ≡ codes "maxmemory 1gb\n\n# tail\n"
unfolding keep contains_injection_chars contains_nul mandatory_keys_of directive_keys
    mandatory_directives directive directive_of trim_space trim_right trim_left is_space first_field
    text_eq digits itoa banned_directive_keys lower operator_owned_directives print_int
    emitted_overrides filter_overrides sort_by_key place text_le strip_user_directives end_line
    unlines skip_keys merge_keysets split_on
rendered_user = refl

scanned :
    validate_config_banlist same (codes "maxmemory 1gb\n Port 1\nsentinel monitor x") []
    ≡ owned_line 2 (codes "port") ∷ owned_line 3 (codes "sentinel monitor") ∷ []
unfolding keep contains_injection_chars contains_nul mandatory_keys_of directive_keys
    mandatory_directives directive directive_of trim_space trim_right trim_left is_space first_field
    text_eq digits itoa banned_directive_keys lower operator_owned_directives print_int
    emitted_overrides filter_overrides sort_by_key place text_le validate_config_banlist
    lines_errors split_on extract_directive is_letter take_name is_name_rune second_word drop_while
    is_pattern_space concat_map
scanned = refl

-- The facts that the theorems ask for.
facts :
    ((is_blank (codes "hz") ≡ false) × (is_blank (codes "appendonly") ≡ false))
    × (override_errors same sample.overrides ≡ [])
    × ((is_blank smuggled.key ≡ true)
        × (contains_injection_chars smuggled.key ≡ false)
        × (contains_injection_chars smuggled.value ≡ false)
        × (has_directive same smuggled.value ≡ true))
unfolding keep contains_injection_chars contains_nul mandatory_keys_of directive_keys
    mandatory_directives directive directive_of trim_space trim_right trim_left is_space first_field
    text_eq digits itoa banned_directive_keys lower operator_owned_directives print_int
    emitted_overrides filter_overrides sort_by_key place text_le validate_config_banlist
    lines_errors split_on extract_directive is_letter take_name is_name_rune second_word drop_while
    is_pattern_space concat_map is_blank validate_config_control_chars
facts = ((refl, refl), refl, (refl, refl, refl, refl))

settings-render_example :
    settings same (render same sample)
    ≡ mandatory_directives sample
      ++ (keep (has_directive same) (kept_lines same sample)
          ++ keep (has_directive same) (override_lines same sample))
settings-render_example = settings-render same sample

last_setting-render_example :
    last_setting same (codes "port") (settings same (render same sample))
    ≡ layered same sample (codes "port")
last_setting-render_example =
    last_setting-render same sample (codes "port") (facts.0.0, (facts.0.1, tt)) refl

sample-Perm : Permᴰ sample.overrides swapped
sample-Perm = Permᴰ.swap refl refl

render-Perm_example :
    render same (with_overrides sample sample.overrides)
    ≡ render same (with_overrides sample swapped)
render-Perm_example = render-Perm same sample sample-Perm (((λ e. cc), tt), (tt, tt))

admitted-emitted_example :
    emitted_overrides same sample
    ≡ keep (λ o. not (text_eq (directive same o.key) (codes "dir"))) sample.overrides
admitted-emitted_example = admitted-emitted same sample facts.1

blank_key-wins_example :
    (override_errors same (smuggled ∷ []) ≡ [])
    × (last_setting same
          (directive same smuggled.value)
          (settings same (render same (with_overrides sample (smuggled ∷ []))))
        ≡ some (override_line smuggled))
blank_key-wins_example = blank_key-wins same sample smuggled facts.2.0 facts.2.1 facts.2.2 facts.2.3

abbrev port_line : Text
port_line = codes " Port 1"
