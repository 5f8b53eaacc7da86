-- ===== src/Sentinel/Wire.antt =====
-- internal/resp and the readers of internal/sentinel/conn.go and parse.go: how a command is written and how a
-- reply is read, over bytes. A connection that ends early is an input that ends.
pub mod RoundTrip
pub mod Fuel
pub mod Fields
pub mod Master
use velkir.Prelude.{
  ℕ, zero, suc, ◌+◌, ◌-◌, ◌*◌, Bool, ◌||◌, List, [], ◌∷◌, ◌++◌, Option, none, some, ltb, ◌==◌,
  if◌then◌else◌, length, all,
}
use velkir.Prelude.Int.{ℤ, pos, negsuc}
use velkir.Decimal.{Text, itoa, atoi}

abbrev pub crlf : Text
crlf = 13 ∷ 10 ∷ []

-- `EncodeCommand`, each argument after its length.
unfoldable pub encode_arg : Text → Text
encode_arg a = b'$' ∷ (itoa (length a) ++ (crlf ++ (a ++ crlf)))

unfoldable pub encode_args : List Text → Text
encode_args [] = []
encode_args (a ∷ rest) = encode_arg a ++ encode_args rest

unfoldable pub encode_command : List Text → Text
encode_command args = b'*' ∷ (itoa (length args) ++ (crlf ++ encode_args args))

-- A reply, and the elements of an array.
mutual
  pub data Reply : Type 0 where
    text : Text → Reply
    integer : ℤ → Reply
    array : Replies → Reply

  pub data Replies : Type 0 where
    no_more : Replies
    more : Reply → Replies → Replies

unfoldable pub prepend : ℕ → Option (Text × Text) → Option (Text × Text)
prepend c none = none
prepend c (some (l, t)) = some (c ∷ l, t)

-- A line up to its line feed, and what is left; `none` if there is no line feed.
unfoldable pub read_line : Text → Option (Text × Text)
read_line [] = none
read_line (c ∷ s) = let rest = read_line s in if c == 10 then some ([], s) else prepend c rest

abbrev pub is_line_end : ℕ → Bool
is_line_end c = c == 13 || c == 10

abbrev pub all_line_ends : Text → Bool
all_line_ends s = all is_line_end s

-- `strings.TrimRight(s, "\r\n")`.
unfoldable pub trim_line : Text → Text
trim_line [] = []
trim_line (c ∷ s) = let rest = trim_line s in if all_line_ends (c ∷ s) then [] else c ∷ rest

abbrev pub max_bulk_size : ℕ
max_bulk_size = 1_048_576

-- `io.ReadFull` of so many bytes.
unfoldable pub read_full : ℕ → Text → Option (Text × Text)
read_full zero s = some ([], s)
read_full (suc n) [] = none
read_full (suc n) (c ∷ s) = prepend c (read_full n s)

-- `Discard(2)`.
abbrev pub discard_two : Text → Option Text
discard_two (x ∷ y ∷ s) = some s
discard_two _ = none

unfoldable pub read_body : Option (Text × Text) → Option (Reply × Text)
read_body none = none
read_body (some (b, t)) = elim (discard_two t) [ none ↦ none | some s ↦ some (text b, s) ]

unfoldable pub read_bulk : Option ℤ → Text → Option (Reply × Text)
read_bulk none s = none
read_bulk (some (negsuc n)) s = some (text [], s)
read_bulk (some (pos n)) s =
    let body = read_body (read_full n s) in if ltb max_bulk_size n then none else body

abbrev pub Reader : Type 0
Reader = Text → Option (Reply × Text)

-- The next read, from what this one leaves.
unfoldable pub then_read {ℓ κ} :
    {A : Type ℓ} {B : Type κ}
    → Option (A × Text)
    → (A → Text → Option (B × Text))
    → Option (B × Text)
then_read none k = none
then_read (some (x, t)) k = k x t

-- So many elements.
unfoldable pub read_elements : Reader → ℕ → Text → Option (Replies × Text)
read_elements read zero s = some (no_more, s)
read_elements read (suc n) s =
    then_read (read s) (λ x t. then_read (read_elements read n t) (λ xs u. some (more x xs, u)))

unfoldable pub as_array : Option (Replies × Text) → Option (Reply × Text)
as_array none = none
as_array (some (xs, s)) = some (array xs, s)

unfoldable pub read_array : Reader → Option ℤ → Text → Option (Reply × Text)
read_array read none s = none
read_array read (some (negsuc n)) s = some (array no_more, s)
read_array read (some (pos n)) s = as_array (read_elements read n s)

abbrev pub as_integer : Option ℤ → Text → Option (Reply × Text)
as_integer none s = none
as_integer (some n) s = some (integer n, s)

-- After the header: its prefix decides.
unfoldable pub by_prefix : ℕ → Text → Text → Option (Reply × Text) → Option (Reply × Text)
by_prefix p body s elements =
    let bulk = read_bulk (atoi body) s in
    if p == b'+'
    then some (text body, s)
    else if p == b'-'
    then none
    else if p == b':'
    then as_integer (atoi body) s
    else if p == b'$'
    then bulk
    else if p == b'*'
    then elements
    else none

unfoldable pub read_header : Reader → Text → Reader
read_header read [] s = none
read_header read (p ∷ body) s = by_prefix p body s (read_array read (atoi body) s)

unfoldable pub after_line : Reader → Option (Text × Text) → Option (Reply × Text)
after_line read none = none
after_line read (some (l, s)) = read_header read (trim_line l) s

-- `readReply`, on fuel for the depth of nested arrays: each level takes a byte at least, so the length of
-- the input is enough.
unfoldable pub read_nested : ℕ → Reader
read_nested zero s = none
read_nested (suc f) s = after_line (read_nested f) (read_line s)

unfoldable pub read_reply : Reader
read_reply s = read_nested (suc (length s)) s
