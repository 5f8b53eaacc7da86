-- ===== src/Sentinel/Wire/Fields.antt =====
-- internal/sentinel/parse.go and conn.go: what is read from a reply. Go's `x.(string)` on another reply gives
-- the empty text.
use velkir.Prelude.{
  Bool, true, false, ◌&&◌, ◌||◌, [], ◌∷◌, ◌++◌, Option, none, some, ◌==◌, if◌then◌else◌, any,
}
use velkir.Prelude.Int.{ℤ}
use velkir.Decimal.{Text, atoi}
use velkir.Sentinel.SurgeryGuard.{codes, is_prefix}
use velkir.Sentinel.Wire.{Reply, text, array, Replies, more}

unfoldable pub text_eq : Text → Text → Bool
text_eq [] [] = true
text_eq (x ∷ xs) (y ∷ ys) = x == y && text_eq xs ys
text_eq _ _ = false

abbrev pub as_text : Reply → Text
as_text (text t) = t
as_text _ = []

-- The value after the first such key of a flat array of keys and values.
unfoldable pub master_field : Text → Replies → Option Text
master_field key (more k (more v rest)) =
    let later = master_field key rest in if text_eq (as_text k) key then some (as_text v) else later
master_field key _ = none

abbrev pub field_of : Text → Reply → Option Text
field_of key (array rs) = master_field key rs
field_of key _ = none

abbrev pub number_of : Option Text → Option ℤ
number_of none = none
number_of (some v) = atoi v

abbrev pub config_epoch : Text
config_epoch = codes "config-epoch"

unfoldable pub parse_sentinel_master_epoch : Reply → Option ℤ
parse_sentinel_master_epoch r = number_of (field_of config_epoch r)

unfoldable pub parse_num_other_sentinels : Reply → Option ℤ
parse_num_other_sentinels r = number_of (field_of (codes "num-other-sentinels") r)

unfoldable pub parse_num_slaves : Reply → Option ℤ
parse_num_slaves r = number_of (field_of (codes "num-slaves") r)

unfoldable pub parse_auth_pass : Reply → Option Text
parse_auth_pass r = field_of (codes "auth-pass") r

-- Go's `net.JoinHostPort`.
unfoldable pub join_host_port : Text → Text → Text
join_host_port host port =
    if any (λ c. c == b':' || c == b'%') host
    then b'[' ∷ (host ++ (b']' ∷ b':' ∷ port))
    else host ++ (b':' ∷ port)

unfoldable pub master_addr : Text → Text → Option Text
master_addr [] port = none
master_addr (c ∷ host) port = elim (atoi port) [
  | none ↦ none
  | some n ↦ some (join_host_port (c ∷ host) port)
]

unfoldable pub parse_get_master_addr : Reply → Option Text
parse_get_master_addr (array (more (text host) (more (text port) rest))) = master_addr host port
parse_get_master_addr _ = none

unfoldable pub parse_ckquorum : Reply → Bool
parse_ckquorum (text s) = is_prefix (codes "OK ") s || text_eq s (codes "OK")
parse_ckquorum _ = false

-- `readPubsubMessage`, from the reply on: a channel and a payload, empty ones for a frame to skip, or `none`
-- for a frame that is too short.
unfoldable pub pubsub_message : Reply → Option (Text × Text)
pubsub_message (array (more k rest)) =
    if text_eq (as_text k) (codes "pmessage")
    then pattern_message rest
    else if text_eq (as_text k) (codes "message")
    then plain_message rest
    else some ([], [])
  where
    pattern_message : Replies → Option (Text × Text)
    pattern_message (more p (more c (more m rs))) = some (as_text c, as_text m)
    pattern_message _ = none

    plain_message : Replies → Option (Text × Text)
    plain_message (more c (more m rs)) = some (as_text c, as_text m)
    plain_message _ = none
pubsub_message _ = some ([], [])
