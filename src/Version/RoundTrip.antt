-- ===== src/Version/RoundTrip.antt =====
-- What is rendered is parsed back.
use velkir.Prelude.{
  refl, ℕ, ◌≤◌, ◌<◌, ◌≡◌, ◌⊎◌, inl, inr, false, [], ◌∷◌, ◌++◌, Option, none, some, arith,
}
use velkir.Decimal.{Text, digits, itoa, max_int, atoi-itoa, Without, Without-digits, digits-Digit}
use mathlib.Core.List.{append-nil}
use velkir.Version.{
  before_first, after_last, contains, split_on, ValkeyVersion, render, parsed, component,
  patch_reads, parse_parts, parse_tag, parse_valkey_tag,
}

component-itoa : (n : ℕ) → n ≤ max_int → component (itoa n) ≡ some n
unfolding component
component-itoa n fits = ground (arith, atoi-itoa n fits)

Without-append : (c : ℕ) (xs ys : Text) → Without c xs → Without c ys → Without c (xs ++ ys)
Without-append c [] ys h k = k
Without-append c (x ∷ xs) ys (h, hs) k = (h, Without-append c xs ys hs k)

before_first-Without : (c : ℕ) (xs : Text) → Without c xs → before_first c xs ≡ xs
unfolding before_first
before_first-Without c [] h = refl
before_first-Without c (x ∷ xs) (h, hs) = ground (arith, h, before_first-Without c xs hs)

before_first-append : (c : ℕ) (xs ys : Text) → Without c xs → before_first c (xs ++ c ∷ ys) ≡ xs
unfolding before_first
before_first-append c [] ys h = ground arith
before_first-append c (x ∷ xs) ys (h, hs) = ground (arith, h, before_first-append c xs ys hs)

contains-Without : (c : ℕ) (xs : Text) → Without c xs → contains c xs ≡ false
unfolding contains
contains-Without c [] h = refl
contains-Without c (x ∷ xs) (h, hs) = ground (arith, h, contains-Without c xs hs)

after_last-Without : (c : ℕ) (xs : Text) → Without c xs → after_last c xs ≡ none
unfolding after_last
after_last-Without c [] h = refl
after_last-Without c (x ∷ xs) (h, hs) = ground (arith, h, after_last-Without c xs hs)

after_last-append : (c : ℕ) (xs ys : Text) → Without c ys → after_last c (xs ++ c ∷ ys) ≡ some ys
unfolding after_last
after_last-append c [] ys h = ground (arith, after_last-Without c ys h)
after_last-append c (x ∷ xs) ys h = ground (arith, after_last-append c xs ys h)

split_on-Without : (c : ℕ) (xs : Text) → Without c xs → split_on c xs ≡ xs ∷ []
unfolding split_on
split_on-Without c [] h = refl
split_on-Without c (x ∷ xs) (h, hs) = ground (arith, h, split_on-Without c xs hs)

split_on-append :
    (c : ℕ) (xs ys : Text) → Without c xs → Without c ys → split_on c (xs ++ c ∷ ys) ≡ xs ∷ ys ∷ []
unfolding split_on
split_on-append c [] ys h k = ground (arith, split_on-Without c ys k)
split_on-append c (x ∷ xs) ys (h, hs) k = ground (arith, h, split_on-append c xs ys hs k)

-- A byte that is no digit and no dot is not in what is rendered.
render-Without :
    (c : ℕ) (v : ValkeyVersion)
    → (c < b'.') ⊎ ((b'.' < c) × (c < b'0')) ⊎ (b'9' < c)
    → Without c (render v)
unfolding render itoa
render-Without c v h =
    Without-append c (digits v.major v.major) (b'.' ∷ digits v.minor v.minor)
      (Without-digits c (digits v.major v.major) (ground (arith, h)) (digits-Digit v.major v.major))
      (
        λ e. ground (arith, e, h),
        Without-digits c (digits v.minor v.minor) (ground (arith, h))
            (digits-Digit v.minor v.minor),
      )

parse_parts-two :
    (v : ValkeyVersion)
    → v.major ≤ max_int
    → v.minor ≤ max_int
    → parse_parts (itoa v.major ∷ itoa v.minor ∷ []) ≡ parsed v
unfolding parse_parts patch_reads
parse_parts-two v fits fits' =
    ground (arith, component-itoa v.major fits, component-itoa v.minor fits')

split_on-render : (v : ValkeyVersion) → split_on b'.' (render v) ≡ itoa v.major ∷ itoa v.minor ∷ []
unfolding render itoa
split_on-render v =
    split_on-append b'.' (digits v.major v.major) (digits v.minor v.minor)
      (Without-digits b'.' (digits v.major v.major) (inl (omega arith))
        (digits-Digit v.major v.major))
      (Without-digits b'.' (digits v.minor v.minor) (inl (omega arith))
        (digits-Digit v.minor v.minor))

-- A tag is what is rendered, alone or with a variant after a dash.
abbrev pub variant_of : Option Text → Text
variant_of none = []
variant_of (some t) = b'-' ∷ t

before-variant :
    (v : ValkeyVersion) (variant : Option Text)
    → before_first b'-' (render v ++ variant_of variant) ≡ render v
before-variant v none =
    rw (append-nil (render v))
      (before_first-Without b'-' (render v) (render-Without b'-' v (inl (omega arith))))
before-variant v (some t) =
    before_first-append b'-' (render v) t (render-Without b'-' v (inl (omega arith)))

Without-variant :
    (c : ℕ) (v : ValkeyVersion) (variant : Option Text)
    → (c < b'.') ⊎ ((b'.' < c) × (c < b'0')) ⊎ (b'9' < c)
    → Without c (variant_of variant)
    → Without c (render v ++ variant_of variant)
Without-variant c v variant h clean =
    Without-append c (render v) (variant_of variant) (render-Without c v h) clean

parse_tag-render :
    (v : ValkeyVersion) (variant : Option Text)
    → v.major ≤ max_int
    → v.minor ≤ max_int
    → Without b'/' (variant_of variant)
    → parse_tag (some (render v ++ variant_of variant)) ≡ parsed v
unfolding parse_tag
parse_tag-render v variant fits fits' clean =
    rw
      (
        contains-Without b'/' (render v ++ variant_of variant)
            (Without-variant b'/' v variant (inr (inl (omega arith, omega arith))) clean),
        before-variant v variant,
        split_on-render v,
      )
      (parse_parts-two v fits fits')

-- The reference of an image: its repository, the tag, and a digest after an at sign if there is one.
abbrev pub image_ref : Text → Text → Option Text → Text
image_ref repo tag none = repo ++ b':' ∷ tag
image_ref repo tag (some digest) = (repo ++ b':' ∷ tag) ++ b'@' ∷ digest

before-digest :
    (repo tag : Text) (digest : Option Text)
    → Without b'@' repo
    → Without b'@' tag
    → before_first b'@' (image_ref repo tag digest) ≡ repo ++ b':' ∷ tag
before-digest repo tag none h k =
    before_first-Without b'@' (repo ++ b':' ∷ tag)
      (Without-append b'@' repo (b':' ∷ tag) h (λ e. absurd (omega (arith, e)), k))
before-digest repo tag (some digest) h k =
    before_first-append b'@' (repo ++ b':' ∷ tag) digest
      (Without-append b'@' repo (b':' ∷ tag) h (λ e. absurd (omega (arith, e)), k))

-- A version whose two numbers fit an int and which is rendered into the tag of an image is parsed back. The
-- repository has no at sign, but it may have a port; a variant after the tag, if there is one, has no at
-- sign, colon or slash; and a digest may follow.
pub parse-render :
    (repo : Text) (v : ValkeyVersion) (variant digest : Option Text)
    → v.major ≤ max_int
    → v.minor ≤ max_int
    → Without b'@' repo
    → Without b'@' (variant_of variant)
    → Without b':' (variant_of variant)
    → Without b'/' (variant_of variant)
    → parse_valkey_tag (image_ref repo (render v ++ variant_of variant) digest) ≡ parsed v
unfolding parse_valkey_tag
parse-render repo v variant digest fits fits' repo_clean at colon slash =
    let tag = render v ++ variant_of variant in
    rw
      (
        before-digest repo tag digest repo_clean
            (Without-variant b'@' v variant (inr (inr (omega arith))) at),
        after_last-append b':' repo tag
            (Without-variant b':' v variant (inr (inr (omega arith))) colon),
      )
      (parse_tag-render v variant fits fits' slash)
