-- ===== src/Examples/Wire.antt =====
-- internal/resp and the readers of internal/sentinel: concrete bytes.
use velkir.Prelude.{◌≡◌, List, [], ◌∷◌, ◌++◌, some, arith}
use velkir.Prelude.Int.{pos}
use velkir.Decimal
use velkir.Decimal.{Text, itoa}
use velkir.Sentinel.Wire.{encode_command, Reply, array, read_reply}
use velkir.Sentinel.Wire.RoundTrip.{texts, read_reply-encode_command}
use velkir.Sentinel.Wire.Fields.{config_epoch, parse_sentinel_master_epoch}
use velkir.Sentinel.Wire.Master.{flat, epoch-encoded}

-- `PING` and `x`.
abbrev ping : List Text
ping = (b'P' ∷ b'I' ∷ b'N' ∷ b'G' ∷ []) ∷ (b'x' ∷ []) ∷ []

read_reply-encode_command_example :
    read_reply (encode_command ping ++ b'+' ∷ []) ≡ some (array (texts ping), b'+' ∷ [])
read_reply-encode_command_example =
    read_reply-encode_command ping (b'+' ∷ []) (omega arith) (omega arith, (omega arith, tt))

-- `*1`, `:5`.
abbrev nested : Text
nested = b'*' ∷ b'1' ∷ 13 ∷ 10 ∷ b':' ∷ b'5' ∷ 13 ∷ 10 ∷ []

abbrev earlier_fields : List (Text × Text)
earlier_fields = ((b'n' ∷ []), (b'a' ∷ [])) ∷ []

epoch-encoded_example :
    (r : Reply) × (read_reply
        (encode_command (flat (earlier_fields ++ (config_epoch, itoa 12) ∷ [])) ++ [])
      ≡ some (r, []))
    × (parse_sentinel_master_epoch r ≡ some (pos 12))
unfolding itoa Decimal.digits
epoch-encoded_example =
    epoch-encoded 12 earlier_fields [] [] (omega arith) ((λ e. cc), tt) (omega arith)
      (omega arith, (omega arith, (omega arith, (ground arith, tt))))
