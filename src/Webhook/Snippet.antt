-- ===== src/Webhook/Snippet.antt =====
-- internal/webhook/v1beta1/valkey_validator.go and internal/valkeyconf/render.go: one line of the user's snippet, as
-- the webhook's scan and the renderer's strip read it.
use velkir.Webhook.{is_letter, is_name_rune}
use velkir.Prelude.{Bool, false, ◌&&◌, [], ◌∷◌, all}
use velkir.Decimal.{Text}

-- A letter, and then letters, digits and dashes.
abbrev pub is_plain : Text → Bool
is_plain [] = false
is_plain (c ∷ t) = is_letter c && all is_name_rune t
