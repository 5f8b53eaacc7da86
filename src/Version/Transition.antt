-- ===== src/Version/Transition.antt =====
-- Which changes of the image are refused.
use velkir.Prelude.{◌<◌, ◌≡◌, ◌≢◌, ◌↔◌, refl, Bool, true, false, [], ◌∷◌, Option, none, some, arith}
use velkir.Version.{
  Text, ValkeyVersion, Parsed, no_tag, malformed_tag, parsed, parse_valkey_tag, is_downgrade,
  compare_versions, between, check_valkey_image_transition,
}

-- Both images name a version, and the major version falls.
abbrev pub Downgrades : Parsed → Parsed → Type 0
Downgrades (parsed from) (parsed to) = to.major < from.major
Downgrades _ _ = ⊥

compare-refuses :
    (gate : Option Bool) (from to : ValkeyVersion)
    → ((compare_versions gate from to).0 ≡ false) ↔ ((to.major < from.major) × (gate ≢ some false))
unfolding compare_versions is_downgrade
compare-refuses none from to = (λ h. (ground (arith, h), λ e. cc), λ h. ground (arith, h))
compare-refuses (some true) from to = (λ h. (ground (arith, h), λ e. cc), λ h. ground (arith, h))
compare-refuses (some false) from to = (λ h. absurd (ground (arith, h)), λ h. absurd (h.1 refl))

between-refuses :
    (gate : Option Bool) (from to : Parsed)
    → ((between gate from to).0 ≡ false) ↔ (Downgrades from to × (gate ≢ some false))
between-refuses gate (parsed from) (parsed to) = compare-refuses gate from to
between-refuses gate (parsed from) no_tag = (λ h. cc, λ h. absurd h.0)
between-refuses gate (parsed from) malformed_tag = (λ h. cc, λ h. absurd h.0)
between-refuses gate no_tag to = (λ h. cc, λ h. absurd h.0)
between-refuses gate malformed_tag to = (λ h. cc, λ h. absurd h.0)

-- An image that runs is kept against the one that is wanted exactly when both name a version, the major
-- version would fall, and the preflight is not switched off.
pub check-refuses :
    (gate : Option Bool) (current desired : Text)
    → current ≢ []
    → ((check_valkey_image_transition gate current desired).0 ≡ false)
      ↔ (Downgrades (parse_valkey_tag current) (parse_valkey_tag desired) × (gate ≢ some false))
unfolding check_valkey_image_transition
check-refuses gate [] desired h = absurd (h refl)
check-refuses gate (c ∷ current) desired h =
    between-refuses gate (parse_valkey_tag (c ∷ current)) (parse_valkey_tag desired)
