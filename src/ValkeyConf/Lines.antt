-- ===== src/ValkeyConf/Lines.antt =====
-- internal/valkeyconf/render.go: a text as its lines, and the directive of a line.
use velkir.ValkeyConf.{
  directive, directive_of, end_line, has_directive, is_empty, keep, newline, trim_left, trim_right,
  trim_space, unlines,
}
use velkir.ValkeyConf.Kept.{All-append, keep-append, or_false}
use velkir.Prelude.{
  if_intro, ap, ℕ, zero, suc, ◌≡◌, ◌≢◌, refl, inl, inr, sym, ◌∙◌, true, false, ◌&&◌, List, [], ◌∷◌,
  ◌++◌, arith, ◌==◌, Bool-cases, and_iff, or_iff, any, All,
}
use mathlib.Core.List.{append-nil, append_assoc}
use velkir.Decimal.{Text, Without}
use velkir.Version.{split_on, onto_first}

pub onto_first-append :
    (c : ℕ) (xs ys : List Text) (l : Text) (ls : List Text)
    → xs ≡ l ∷ ls
    → onto_first c (xs ++ ys) ≡ onto_first c xs ++ ys
onto_first-append c [] ys l ls e = cc
onto_first-append c (x ∷ xs) ys l ls e = refl

pub split_on-cons : (c : ℕ) (t : Text) → (l : Text) × (ls : List Text) × (split_on c t ≡ l ∷ ls)
unfolding split_on
split_on-cons c [] = ([], [], refl)
split_on-cons c (x ∷ t) =
    let (l, ls, e) = split_on-cons c t in
    elim (Bool-cases (x == c)) [
      | inl same ↦ ([], split_on c t, rw same refl)
      | inr other ↦ (x ∷ l, ls, rw (other, e) refl)
    ]

-- A line end between two texts is where their lines meet.
pub split_on-append : (c : ℕ) (s t : Text) → split_on c (s ++ c ∷ t) ≡ split_on c s ++ split_on c t
unfolding split_on
split_on-append c [] t = ground arith
split_on-append c (x ∷ s) t =
    let (l, ls, e) = split_on-cons c s in
    elim (Bool-cases (x == c)) [
      | inl same ↦ rw same (ap (λ r. [] ∷ r) (split_on-append c s t))
      | inr other ↦ rw other (
          ap (onto_first x) (split_on-append c s t)
          ∙ onto_first-append x (split_on c s) (split_on c t) l ls e)
    ]

pub split_on-Without : (c : ℕ) (t : Text) → Without c t → split_on c t ≡ t ∷ []
unfolding split_on
split_on-Without c [] h = refl
split_on-Without c (x ∷ t) (h, hs) = ground (arith, h, split_on-Without c t hs)

onto_first-Without :
    (c x : ℕ) (ls : List Text) → x ≢ c → All (Without c) ls → All (Without c) (onto_first x ls)
onto_first-Without c x [] h k = ((h, tt), tt)
onto_first-Without c x (l ∷ ls) h (k, ks) = ((h, k), ks)

pub Without-split_on : (c : ℕ) (t : Text) → All (Without c) (split_on c t)
unfolding split_on
Without-split_on c [] = (tt, tt)
Without-split_on c (x ∷ t) =
    if_intro (All (Without c)) (x == c) ([] ∷ split_on c t) (onto_first x (split_on c t))
      (λ yes. (tt, Without-split_on c t))
      (λ no.
        onto_first-Without c x (split_on c t) (λ e. ground (arith, e, no)) (Without-split_on c t))

pub Without-append : (c : ℕ) (s t : Text) → Without c s → Without c t → Without c (s ++ t)
Without-append c s t h k = All-append (λ x. x ≢ c) s t h k

pub Without-any : (c : ℕ) (t : Text) → any (λ x. x == c) t ≡ false → Without c t
Without-any c [] h = tt
Without-any c (x ∷ t) h = (
  λ e. ground (arith, e, h, or_iff (x == c) (any (λ y. y == c) t)),
  Without-any c t (ground (arith, h)),
)

pub All-lines :
    (ls : List Text) → any (λ l. any (λ c. c == newline) l) ls ≡ false → All (Without newline) ls
All-lines [] h = tt
All-lines (l ∷ ls) h = (
  Without-any newline l (or_false (any (λ c. c == newline) l) _ h).0,
  All-lines ls (or_false (any (λ c. c == newline) l) _ h).1,
)

-- As many line ends as there are.
abbrev newlines : ℕ → Text
newlines zero = []
newlines (suc n) = newline ∷ newlines n

pub is_empty_nil : (t : Text) → is_empty t ≡ true → t ≡ []
is_empty_nil [] h = refl
is_empty_nil (c ∷ t) h = cc

pub trim_right-newlines :
    (t : Text) → (n : ℕ) × (t ≡ trim_right (λ c. c == newline) t ++ newlines n)
unfolding trim_right
trim_right-newlines [] = (0, refl)
trim_right-newlines (c ∷ t) =
    let (n, e) = trim_right-newlines t in
    elim (Bool-cases (c == newline && is_empty (trim_right (λ x. x == newline) t))) [
      | inl last ↦ (
        suc n,
        rw last (
            ground (
              arith,
              last,
              and_iff (c == newline) (is_empty (trim_right (λ x. x == newline) t)),
              is_empty_nil (trim_right (λ x. x == newline) t),
              e,
            )),
      )
      | inr inner ↦ (n, rw inner (ap (λ r. c ∷ r) e))
    ]

module _ (lower_wide : ℕ → ℕ) where
  -- The lines that set something, in the order in which Valkey reads them.
  abbrev pub settings : Text → List Text
  settings t = keep (has_directive lower_wide) (split_on newline t)

  pub settings-append : (s t : Text) → settings (s ++ newline ∷ t) ≡ settings s ++ settings t
  settings-append s t =
      ap (keep (has_directive lower_wide)) (split_on-append newline s t)
      ∙ keep-append (has_directive lower_wide) (split_on newline s) (split_on newline t)

  pub settings_empty : settings [] ≡ []
  unfolding keep split_on directive trim_space trim_left trim_right directive_of
  settings_empty = refl

  settings-newlines : (n : ℕ) → settings (newlines n) ≡ []
  settings-newlines zero = settings_empty
  settings-newlines (suc n) =
      settings-append [] (newlines n) ∙ rw (settings_empty, settings-newlines n) refl

  pub settings_trailing : (t : Text) (n : ℕ) → settings (t ++ newlines n) ≡ settings t
  settings_trailing t zero = rw append-nil refl
  settings_trailing t (suc n) =
      settings-append t (newlines n) ∙ rw (settings-newlines n, append-nil) refl

  pub settings-end_line : (t : Text) → settings (end_line t) ≡ settings t
  unfolding end_line
  settings-end_line [] = refl
  settings-end_line (c ∷ t) = settings_trailing (c ∷ t) 1

  pub settings-trim_right : (t : Text) → settings (trim_right (λ c. c == newline) t) ≡ settings t
  settings-trim_right t =
      let (n, e) = trim_right-newlines t in
      sym (settings_trailing (trim_right (λ c. c == newline) t) n) ∙ sym (ap settings e)

  pub settings-unlines :
      (ls : List Text) (t : Text)
      → All (Without newline) ls
      → settings (unlines ls ++ t) ≡ keep (has_directive lower_wide) ls ++ settings t
  unfolding unlines keep
  settings-unlines [] t h = refl
  settings-unlines (l ∷ ls) t (h, hs) = rw append_assoc (
      settings-append l (unlines ls ++ t)
      ∙ rw (split_on-Without newline l h, settings-unlines ls t hs)
          (sym (
              append_assoc (keep (has_directive lower_wide) (l ∷ []))
                (keep (has_directive lower_wide) ls) (settings t))
            ∙ ap (λ r. r ++ settings t) (sym (keep-append (has_directive lower_wide) (l ∷ []) ls))))

  -- A section under a title that sets nothing.
  pub settings_titled :
      (title t : Text)
      → settings title ≡ []
      → settings (newline ∷ (title ++ newline ∷ t)) ≡ settings t
  settings_titled title t h =
      settings-append [] (title ++ newline ∷ t)
      ∙ rw settings_empty (settings-append title t ∙ rw h refl)
