-- ===== src/Sentinel/Wire/RoundTrip.antt =====
-- A command that is written is read back.
use mathlib.Core.List.{append_assoc}
use velkir.Prelude.{
  ℕ, suc, ◌≤◌, ◌≡◌, refl, inl, ap, ◌∙◌, false, List, [], ◌∷◌, ◌++◌, some, arith, length, All,
}
use velkir.Prelude.Int.{pos}
use velkir.Decimal.{Text, itoa, max_int, atoi-itoa, Without, Without-itoa}
use velkir.Sentinel.Wire.{
  crlf, encode_arg, encode_args, encode_command, Reply, text, array, Replies, no_more, more,
  read_line, is_line_end, trim_line, max_bulk_size, read_full, read_body, read_bulk, Reader,
  read_elements, as_array, read_array, by_prefix, prepend, then_read, read_header, after_line,
  read_nested, read_reply,
}

read_line-crlf : (x s : Text) → Without 10 x → read_line (x ++ (crlf ++ s)) ≡ some (x ++ 13 ∷ [], s)
unfolding read_line prepend
read_line-crlf [] s h = refl
read_line-crlf (c ∷ x) s (h, hs) = ground (arith, h, read_line-crlf x s hs)

trim_line-cr : (x : Text) → All (λ c. is_line_end c ≡ false) x → trim_line (x ++ 13 ∷ []) ≡ x
unfolding trim_line
trim_line-cr [] h = refl
trim_line-cr (c ∷ x) (h, hs) = ground (arith, h, trim_line-cr x hs)

read_full-append : (a s : Text) → read_full (length a) (a ++ s) ≡ some (a, s)
unfolding read_full prepend
read_full-append [] s = refl
read_full-append (c ∷ a) s = rw (read_full-append a s) refl

no_line_ends : (x : Text) → Without 10 x → Without 13 x → All (λ c. is_line_end c ≡ false) x
no_line_ends [] h k = tt
no_line_ends (c ∷ x) (h, hs) (k, ks) = (ground (arith, h, k), no_line_ends x hs ks)

-- A header with a number in it.
after_line-number :
    (read : Reader) (p n : ℕ) (s : Text)
    → b'$' ≤ p
    → after_line read (read_line (p ∷ (itoa n ++ (crlf ++ s)))) ≡ read_header read (p ∷ itoa n) s
unfolding after_line
after_line-number read p n s h =
    let tens = Without-itoa 10 n (inl (omega arith)) in
    let thirteens = Without-itoa 13 n (inl (omega arith)) in
    rw
      (
        read_line-crlf (p ∷ itoa n) s (λ e. absurd (omega (arith, e, h)), tens),
        trim_line-cr (p ∷ itoa n) (
            no_line_ends (p ∷ itoa n) (λ e. absurd (omega (arith, e, h)), tens)
              (λ e. absurd (omega (arith, e, h)), thirteens)),
      )
      refl

read_header-bulk :
    (read : Reader) (n : ℕ) (s : Text)
    → n ≤ max_int
    → read_header read (b'$' ∷ itoa n) s ≡ read_bulk (some (pos n)) s
unfolding read_header by_prefix
read_header-bulk read n s h = rw (atoi-itoa n h) refl

read_header-array :
    (read : Reader) (n : ℕ) (s : Text)
    → n ≤ max_int
    → read_header read (b'*' ∷ itoa n) s ≡ read_array read (some (pos n)) s
unfolding read_header by_prefix
read_header-array read n s h = rw (atoi-itoa n h) refl

read_bulk-append :
    (a s : Text)
    → length a ≤ max_bulk_size
    → read_bulk (some (pos (length a))) (a ++ (crlf ++ s)) ≡ some (text a, s)
unfolding read_bulk read_body
read_bulk-append a s h = rw (read_full-append a (crlf ++ s)) (ground (arith, h))

-- An argument is read as a bulk string, whatever follows.
read_nested-arg :
    (f : ℕ) (a s : Text)
    → length a ≤ max_bulk_size
    → read_nested (suc f) (b'$' ∷ (itoa (length a) ++ (crlf ++ (a ++ (crlf ++ s)))))
      ≡ some (text a, s)
unfolding read_nested
read_nested-arg f a s h =
    after_line-number (read_nested f) b'$' (length a) (a ++ (crlf ++ s)) (omega arith)
    ∙ (read_header-bulk (read_nested f) (length a) (a ++ (crlf ++ s)) (omega (arith, h))
        ∙ read_bulk-append a s h)

-- The arguments as bulk strings.
abbrev pub texts : List Text → Replies
texts [] = no_more
texts (a ∷ rest) = more (text a) (texts rest)

encode_arg-append :
    (a s : Text) → encode_arg a ++ s ≡ b'$' ∷ (itoa (length a) ++ (crlf ++ (a ++ (crlf ++ s))))
unfolding encode_arg
encode_arg-append a s =
    ap (λ t. b'$' ∷ t)
      (append_assoc (itoa (length a)) (crlf ++ (a ++ crlf)) s
        ∙ ap (λ t. itoa (length a) ++ (crlf ++ t)) (append_assoc a crlf s))

read_elements-cons :
    (read : Reader) (n : ℕ) (s t u : Text) (x : Reply) (xs : Replies)
    → read s ≡ some (x, t)
    → read_elements read n t ≡ some (xs, u)
    → read_elements read (suc n) s ≡ some (more x xs, u)
unfolding read_elements then_read
read_elements-cons read n s t u x xs h k = rw (read_elements, h, then_read, k) refl

read_elements-args :
    (f : ℕ) (args : List Text) (s : Text)
    → All (λ a. length a ≤ max_bulk_size) args
    → read_elements (read_nested (suc f)) (length args) (encode_args args ++ s)
      ≡ some (texts args, s)
unfolding read_elements encode_args
read_elements-args f [] s h = refl
read_elements-args f (a ∷ rest) s (h, hs) =
    ap (read_elements (read_nested (suc f)) (suc (length rest))) (
      append_assoc (encode_arg a) (encode_args rest) s
      ∙ encode_arg-append a (encode_args rest ++ s))
    ∙ read_elements-cons (read_nested (suc f)) (length rest)
        (b'$' ∷ (itoa (length a) ++ (crlf ++ (a ++ (crlf ++ (encode_args rest ++ s))))))
        (encode_args rest ++ s) s (text a) (texts rest)
        (read_nested-arg f a (encode_args rest ++ s) h) (read_elements-args f rest s hs)

read_nested-command :
    (f : ℕ) (args : List Text) (s : Text)
    → length args ≤ max_int
    → All (λ a. length a ≤ max_bulk_size) args
    → read_nested (suc (suc f)) (b'*' ∷ (itoa (length args) ++ (crlf ++ (encode_args args ++ s))))
      ≡ some (array (texts args), s)
unfolding read_nested read_array as_array
read_nested-command f args s count small =
    after_line-number (read_nested (suc f)) b'*' (length args) (encode_args args ++ s) (omega arith)
    ∙ (read_header-array (read_nested (suc f)) (length args) (encode_args args ++ s) count
        ∙ ap as_array (read_elements-args f args s small))

-- What is written as a command is read as the array of its arguments, and what follows it is left, if the
-- number of the arguments fits an int and none of them is longer than the cap of a bulk string.
pub read_reply-encode_command :
    (args : List Text) (s : Text)
    → length args ≤ max_int
    → All (λ a. length a ≤ max_bulk_size) args
    → read_reply (encode_command args ++ s) ≡ some (array (texts args), s)
unfolding read_reply encode_command
read_reply-encode_command args s count small =
    let whole = encode_args args ++ s in
    ap (λ t. read_reply (b'*' ∷ t)) (append_assoc (itoa (length args)) (crlf ++ encode_args args) s)
    ∙ read_nested-command (length (itoa (length args) ++ (crlf ++ whole))) args s count small
