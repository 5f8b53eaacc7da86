-- ===== src/Sentinel/Wire/Master.antt =====
-- The reply to SENTINEL MASTER, from its bytes to its fields.
use velkir.Prelude.{
  ℕ, ◌≤◌, ◌≡◌, ◌≢◌, ◌↔◌, refl, ap, ◌∙◌, true, List, [], ◌∷◌, ◌++◌, some, arith, length, All,
}
use velkir.Prelude.Int.{pos}
use velkir.Prelude.Time.{before}
use velkir.Decimal.{Text, itoa, max_int, atoi-itoa}
use velkir.Sentinel.Wire.{encode_command, Reply, array, read_reply, max_bulk_size}
use velkir.Sentinel.Wire.RoundTrip.{texts, read_reply-encode_command}
use velkir.Sentinel.Wire.Fields.{
  text_eq, master_field, number_of, config_epoch, parse_sentinel_master_epoch,
}

-- Keys and values in one list.
abbrev pub flat : List (Text × Text) → List Text
flat [] = []
flat ((k, v) ∷ rest) = k ∷ v ∷ flat rest

text_eq_iff : (x y : Text) → (text_eq x y ≡ true) ↔ (x ≡ y)
unfolding text_eq
text_eq_iff [] [] = (λ _. refl, λ _. refl)
text_eq_iff [] (y ∷ ys) = (λ h. cc, λ h. cc)
text_eq_iff (x ∷ xs) [] = (λ h. cc, λ h. cc)
text_eq_iff (x ∷ xs) (y ∷ ys) =
    let (out, into) = text_eq_iff xs ys in
    (λ h. ground (arith, h, out), λ h. ground (arith, h, into))

master_field-flat :
    (key v : Text) (before after_it : List (Text × Text))
    → All (λ kv. kv.0 ≢ key) before
    → master_field key (texts (flat (before ++ (key, v) ∷ after_it))) ≡ some v
unfolding master_field
master_field-flat key v [] after_it h = ground (arith, text_eq_iff key key)
master_field-flat key v ((k, w) ∷ before) after_it (h, hs) =
    ground (arith, h, text_eq_iff k key, master_field-flat key v before after_it hs)

-- The epoch in the bytes of a SENTINEL MASTER reply, an array of keys and values, is the number that is
-- parsed, whatever follows the reply, if it fits an int, no earlier key is that of the epoch, the number of
-- the fields fits an int, and none of them is longer than the cap of a bulk string.
pub epoch-encoded :
    (n : ℕ) (before after_it : List (Text × Text)) (s : Text)
    → n ≤ max_int
    → All (λ kv. kv.0 ≢ config_epoch) before
    → length (flat (before ++ (config_epoch, itoa n) ∷ after_it)) ≤ max_int
    → All (λ a. length a ≤ max_bulk_size) (flat (before ++ (config_epoch, itoa n) ∷ after_it))
    → (r : Reply) × (read_reply
          (encode_command (flat (before ++ (config_epoch, itoa n) ∷ after_it)) ++ s)
        ≡ some (r, s))
      × (parse_sentinel_master_epoch r ≡ some (pos n))
unfolding parse_sentinel_master_epoch
epoch-encoded n before after_it s fits other count small =
    let fields = flat (before ++ (config_epoch, itoa n) ∷ after_it) in
    (
      array (texts fields),
      read_reply-encode_command fields s count small,
      ap number_of (master_field-flat config_epoch (itoa n) before after_it other)
          ∙ atoi-itoa n fits,
    )
