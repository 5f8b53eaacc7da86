-- ===== src/Examples/Images.antt =====
-- internal/version: concrete images.
use velkir.Prelude.{◌≡◌, [], ◌∷◌, ◌++◌, Option, some, arith}
use velkir.Decimal.{Text}
use velkir.Version.{ValkeyVersion, render, parsed, parse_valkey_tag}
use velkir.Version.RoundTrip.{image_ref, variant_of, parse-render}

-- `reg:5000/valkey`.
abbrev repository : Text
repository =
    b'r' ∷ b'e' ∷ b'g' ∷ b':' ∷ b'5' ∷ b'0' ∷ b'0' ∷ b'0' ∷ b'/' ∷ b'v' ∷ b'a' ∷ b'l' ∷ b'k' ∷ b'e'
    ∷ b'y' ∷ []

abbrev alpine : Option Text
alpine = some (b'a' ∷ b'l' ∷ b'p' ∷ [])

abbrev digest : Option Text
digest = some (b's' ∷ b'h' ∷ b'a' ∷ b':' ∷ b'0' ∷ [])

abbrev newer : ValkeyVersion
newer = record { major = 9; minor = 10 }

parse-render_example :
    parse_valkey_tag (image_ref repository (render newer ++ variant_of alpine) digest)
    ≡ parsed newer
parse-render_example =
    parse-render repository newer alpine digest (omega arith) (omega arith) (omega arith)
      (omega arith) (omega arith) (omega arith)
