-- ===== src/Decimal.antt =====
-- Numbers in decimal digits, as Go's strconv prints and reads them. A text is the list of its bytes.
use velkir.Prelude.{
  if_intro, ℕ, zero, suc, ◌+◌, ◌-◌, ◌*◌, ◌≤◌, ◌<◌, ◌≡◌, ◌≢◌, ◌⊎◌, refl, ◌||◌, List, [], ◌∷◌, ◌++◌,
  Option, none, some, arith, ltb, ◌==◌, if◌then◌else◌, All,
}
use velkir.Prelude.Int.{ℤ, pos, negsuc}
use Prim.Native.Nat.{◌/◌, ◌%◌}

abbrev pub Text : Type 0
Text = List ℕ

-- Go's `strconv.Itoa` of a number from zero on: the digits, with fuel for one round for each.
unfoldable pub digits : ℕ → ℕ → Text
digits zero n = (b'0' + n % 10) ∷ []
digits (suc f) n =
    let front = digits f (n / 10) in
    if ltb n 10 then (b'0' + n) ∷ [] else front ++ (b'0' + n % 10) ∷ []

-- A number has no more digits than its value, so it is fuel enough.
unfoldable pub itoa : ℕ → Text
itoa n = digits n n

unfoldable pub scan : Text → ℕ → Option ℕ
scan [] n = some n
scan (c ∷ s) n =
    let rest = scan s (n * 10 + (c - b'0')) in if ltb c b'0' || ltb b'9' c then none else rest

abbrev pub max_int : ℕ
max_int = 9_223_372_036_854_775_807

-- The digits after the sign, as a number up to this one.
unfoldable pub atoi_digits : Text → ℕ → Option ℕ
atoi_digits [] limit = none
atoi_digits (c ∷ s) limit = elim (scan (c ∷ s) 0) [
  | none ↦ none
  | some n ↦ if ltb limit n then none else some n
]

-- `-n`.
abbrev pub negate : ℕ → ℤ
negate zero = pos 0
negate (suc n) = negsuc n

-- Go's `strconv.Atoi`.
unfoldable pub atoi : Text → Option ℤ
atoi [] = none
atoi (c ∷ s) =
    if c == b'+'
    then elim (atoi_digits s max_int) [ none ↦ none | some n ↦ some (pos n) ]
    else if c == b'-'
    then elim (atoi_digits s (max_int + 1)) [ none ↦ none | some n ↦ some (negate n) ]
    else elim (atoi_digits (c ∷ s) max_int) [ none ↦ none | some n ↦ some (pos n) ]

scan-append : (xs ys : Text) (a b : ℕ) → scan xs a ≡ some b → scan (xs ++ ys) a ≡ scan ys b
unfolding scan
scan-append [] ys a b h = ground (arith, h)
scan-append (c ∷ xs) ys a b h = ground (arith, h, scan-append xs ys (a * 10 + (c - b'0')) b)

scan-digits : (f n : ℕ) → n ≤ f → scan (digits f n) 0 ≡ some n
unfolding digits scan
scan-digits zero n h = ground arith
scan-digits (suc f) n h = ground (
  arith,
  scan-digits f (n / 10),
  scan-append (digits f (n / 10)) ((b'0' + n % 10) ∷ []) 0 (n / 10),
)

abbrev pub Digit : ℕ → Type 0
Digit c = (b'0' ≤ c) × (c ≤ b'9')

All-snoc : (xs : Text) (c : ℕ) → All Digit xs → Digit c → All Digit (xs ++ c ∷ [])
All-snoc [] c h d = (d, tt)
All-snoc (x ∷ xs) c (h, hs) d = (h, All-snoc xs c hs d)

pub digits-Digit : (f n : ℕ) → All Digit (digits f n)
unfolding digits
digits-Digit zero n = (omega arith, tt)
digits-Digit (suc f) n =
    if_intro (All Digit) (ltb n 10) ((b'0' + n) ∷ []) (digits f (n / 10) ++ (b'0' + n % 10) ∷ [])
      (λ small. (ground (arith, small), tt))
      (λ _. All-snoc (digits f (n / 10)) (b'0' + n % 10) (digits-Digit f (n / 10)) (omega arith))

atoi-scan :
    (s : Text) (n : ℕ)
    → All Digit s
    → s ≢ []
    → scan s 0 ≡ some n
    → n ≤ max_int
    → atoi s ≡ some (pos n)
unfolding atoi atoi_digits
atoi-scan [] n digit full h fits = absurd (full refl)
atoi-scan (c ∷ s) n (d, ds) full h fits = ground (arith, h, d)

snoc-ne-nil : (xs : Text) (c : ℕ) → (xs ++ c ∷ []) ≢ []
snoc-ne-nil [] c = λ e. cc
snoc-ne-nil (x ∷ xs) c = λ e. cc

pub digits-ne-nil : (f n : ℕ) → digits f n ≢ []
unfolding digits
digits-ne-nil zero n = λ e. cc
digits-ne-nil (suc f) n =
    if_intro (λ s. s ≢ []) (ltb n 10) ((b'0' + n) ∷ []) (digits f (n / 10) ++ (b'0' + n % 10) ∷ [])
      (λ _ e. cc) (λ _. snoc-ne-nil (digits f (n / 10)) (b'0' + n % 10))

-- A number that fits an int is read back.
pub atoi-itoa : (n : ℕ) → n ≤ max_int → atoi (itoa n) ≡ some (pos n)
unfolding itoa
atoi-itoa n fits =
    atoi-scan (digits n n) n (digits-Digit n n) (digits-ne-nil n n) (scan-digits n n (omega arith))
      fits

-- No byte of the text is this one.
abbrev pub Without : ℕ → Text → Type 0
Without c = All (λ x. x ≢ c)

pub Without-digits : (c : ℕ) (s : Text) → (c < b'0') ⊎ (b'9' < c) → All Digit s → Without c s
Without-digits c [] h d = tt
Without-digits c (x ∷ s) h (d, ds) = (λ e. ground (arith, e, d, h), Without-digits c s h ds)

-- A byte that is no digit is not in what is printed.
pub Without-itoa : (c n : ℕ) → (c < b'0') ⊎ (b'9' < c) → Without c (itoa n)
unfolding itoa
Without-itoa c n h = Without-digits c (digits n n) h (digits-Digit n n)
