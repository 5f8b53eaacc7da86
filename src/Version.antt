-- ===== src/Version.antt =====
-- internal/version/compat.go: the version that an image reference names, and the rules on a change of it;
-- with the check of the controller that applies them. A text is the list of its bytes.
pub mod RoundTrip
pub mod Transition
use velkir.Prelude.{
  ℕ, ◌+◌, ◌-◌, Bool, true, false, ◌&&◌, ◌||◌, List, [], ◌∷◌, ◌++◌, Option, none, some, ltb, ◌==◌,
  if◌then◌else◌,
}
use velkir.Prelude.Int.{pos, negsuc}
use velkir.Decimal.{Text, itoa, atoi}

-- What stands before the first such byte, or the whole.
unfoldable pub before_first : ℕ → Text → Text
before_first c [] = []
before_first c (x ∷ xs) = let rest = before_first c xs in if x == c then [] else x ∷ rest

-- What stands after the last such byte.
unfoldable pub after_last : ℕ → Text → Option Text
after_last c [] = none
after_last c (x ∷ xs) = elim (after_last c xs) [
  | some t ↦ some t
  | none ↦ if x == c then some xs else none
]

unfoldable pub contains : ℕ → Text → Bool
contains c [] = false
contains c (x ∷ xs) = x == c || contains c xs

abbrev pub onto_first : ℕ → List Text → List Text
onto_first x [] = (x ∷ []) ∷ []
onto_first x (p ∷ ps) = (x ∷ p) ∷ ps

unfoldable pub split_on : ℕ → Text → List Text
split_on c [] = [] ∷ []
split_on c (x ∷ xs) = let rest = split_on c xs in if x == c then [] ∷ rest else onto_first x rest

pub record ValkeyVersion : Type 0 where
  pub major : ℕ
  pub minor : ℕ

-- `String`.
unfoldable pub render : ValkeyVersion → Text
render v = itoa v.major ++ b'.' ∷ itoa v.minor

pub data Parsed : Type 0 where
  no_tag malformed_tag : Parsed
  parsed : ValkeyVersion → Parsed

-- A component that must not be negative.
unfoldable pub component : Text → Option ℕ
component s = elim (atoi s) [ none ↦ none | some (pos n) ↦ some n | some (negsuc n) ↦ none ]

-- The patch is read for its shape only, and parts after it are not looked at.
unfoldable pub patch_reads : List Text → Bool
patch_reads [] = true
patch_reads (p ∷ ps) = elim (atoi p) [ none ↦ false | some n ↦ true ]

unfoldable pub parse_parts : List Text → Parsed
parse_parts (major ∷ minor ∷ patch) = elim (component major) [
  | none ↦ malformed_tag
  | some m ↦ elim (component minor) [
    | none ↦ malformed_tag
    | some n ↦ if patch_reads patch then parsed (record { major = m; minor = n }) else malformed_tag
  ]
]
parse_parts _ = malformed_tag

unfoldable pub parse_tag : Option Text → Parsed
parse_tag none = no_tag
parse_tag (some tag) =
    if contains b'/' tag then no_tag else parse_parts (split_on b'.' (before_first b'-' tag))

unfoldable pub parse_valkey_tag : Text → Parsed
parse_valkey_tag ref = parse_tag (after_last b':' (before_first b'@' ref))

unfoldable pub is_downgrade : ValkeyVersion → ValkeyVersion → Bool
is_downgrade from to = ltb to.major from.major

unfoldable pub is_skip_minor : ValkeyVersion → ValkeyVersion → Bool
is_skip_minor from to = to.major == from.major && ltb (from.minor + 1) to.minor

unfoldable pub is_supported_major : ValkeyVersion → Bool
is_supported_major v = v.major == 8 || v.major == 9

-- What the check emits.
pub data Note : Type 0 where
  silent overridden rejected warned : Note

unfoldable pub compare_versions : Option Bool → ValkeyVersion → ValkeyVersion → Bool × Note
compare_versions gate from to =
    if from.major == to.major && from.minor == to.minor
    then (true, silent)
    else if is_downgrade from to
    then elim gate [
      | some enabled ↦ if enabled then (false, rejected) else (true, overridden)
      | none ↦ (false, rejected)
    ]
    else if is_skip_minor from to
    then (true, warned)
    else (true, silent)

abbrev pub between : Option Bool → Parsed → Parsed → Bool × Note
between gate (parsed from) (parsed to) = compare_versions gate from to
between gate _ _ = (true, silent)

-- `checkValkeyImageTransition`, with the value of the feature gate if its key is set: whether the image may
-- change, and what is emitted.
unfoldable pub check_valkey_image_transition : Option Bool → Text → Text → Bool × Note
check_valkey_image_transition gate [] desired = (true, silent)
check_valkey_image_transition gate (c ∷ current) desired =
    between gate (parse_valkey_tag (c ∷ current)) (parse_valkey_tag desired)
