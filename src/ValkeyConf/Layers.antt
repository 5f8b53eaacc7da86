-- ===== src/ValkeyConf/Layers.antt =====
-- internal/valkeyconf/render.go: the layers that a rendered file is made of.
use velkir.ValkeyConf.{
  user_title, user_section, Inputs, Override, banned_directive_keys, contains_injection_chars,
  directive, directive_of, emitted_overrides, end_line, filter_overrides, has_directive,
  header_lines, is_space, is_stripped, keep, mandatory_directives, mandatory_keys_of, member,
  newline, override_line, override_section, override_title, place, render, skip_keys, sort_by_key,
  strip_user_directives, text_le, trim_left, trim_right, trim_space, unlines,
}
use velkir.ValkeyConf.Kept.{All-map, All-mono, keep-All, keep_same}
use velkir.ValkeyConf.Lines.{
  All-lines, Without-any, Without-append, Without-split_on, settings, settings-append,
  settings-end_line, settings-trim_right, settings-unlines, settings_empty, settings_titled,
}
use velkir.ValkeyConf.Mandatory.{Without-mandatory, live_mandatory}
use velkir.Prelude.{
  ℕ, ◌≡◌, refl, sym, ap, ◌∙◌, Bool, true, false, not, ◌&&◌, ◌||◌, List, [], ◌∷◌, ◌++◌, map, arith,
  ◌==◌, if_intro, any, All,
}
use velkir.Decimal.{Text, Without}
use velkir.Version.{split_on}
use mathlib.Core.List.{append-nil, append_assoc}

-- The lines of the user's snippet that are not stripped.
abbrev pub kept_lines : (ℕ → ℕ) → Inputs → List Text
kept_lines lower_wide i =
    keep (λ l. not (is_stripped lower_wide (skip_keys lower_wide i) l))
      (split_on newline i.configuration)

Without-injection : (t : Text) → contains_injection_chars t ≡ false → Without newline t
unfolding contains_injection_chars
Without-injection t h = Without-any newline t (any-line t (ground (arith, h)))
  where
    any-line :
        (s : Text)
        → any (λ c. c == b'\n' || c == b'\r') s ≡ false
        → any (λ c. c == newline) s ≡ false
    any-line [] k = refl
    any-line (c ∷ s) k = ground (arith, k, any-line s (ground (arith, k)))

all_false :
    (a b c d : Bool)
    → (not (a || b) && not (c || d)) ≡ true
    → (a ≡ false) × (b ≡ false) × (c ≡ false) × (d ≡ false)
all_false false false false false h = (refl, refl, refl, refl)
all_false true b c d h = cc
all_false false true c d h = cc
all_false false false true d h = cc
all_false false false false true h = cc

All-Unit : (os : List Override) → All {0, 0} (λ o. Unit) os
All-Unit [] = tt
All-Unit (o ∷ os) = (tt, All-Unit os)

module _ (lower_wide : ℕ → ℕ) where
  -- What a kept entry has passed.
  unfoldable pub HasPassed : Inputs → Override → Type 0
  HasPassed i o =
      (contains_injection_chars o.key ≡ false)
      × (contains_injection_chars o.value ≡ false)
      × (member (mandatory_keys_of lower_wide i) (directive lower_wide o.key) ≡ false)
      × (member (banned_directive_keys lower_wide) (directive lower_wide o.key) ≡ false)

  -- What all overrides have, those have that are emitted, and these have passed the tests.
  pub emitted_overrides-both :
      (i : Inputs) (P : Override → Type 0)
      → All P i.overrides
      → All (λ o. P o × HasPassed i o) (emitted_overrides lower_wide i)
  unfolding emitted_overrides filter_overrides HasPassed
  emitted_overrides-both i P h =
      All-mono _ (λ o. P o × HasPassed i o) (emitted_overrides lower_wide i)
        (λ o (kept, passed). (
          kept,
          all_false (contains_injection_chars o.key) (contains_injection_chars o.value)
              (member (mandatory_keys_of lower_wide i) (directive lower_wide o.key))
              (member (banned_directive_keys lower_wide) (directive lower_wide o.key)) passed,
        ))
        (keep-All P _ i.overrides h)

  pub emitted_overrides-HasPassed :
      (i : Inputs) → All (HasPassed i) (emitted_overrides lower_wide i)
  emitted_overrides-HasPassed i =
      All-mono _ (HasPassed i) (emitted_overrides lower_wide i) (λ o h. h.1)
        (emitted_overrides-both i (λ o. Unit) (All-Unit i.overrides))

  Without-override_line :
      (i : Inputs) (o : Override) → HasPassed i o → Without newline (override_line o)
  unfolding HasPassed
  Without-override_line i o (k, v, _, _) =
      Without-append newline o.key (b' ' ∷ o.value) (Without-injection o.key k)
        (λ e. omega (arith, e), Without-injection o.value v)

  pub settings-strip :
      (raw : Text) (skip : List Text)
      → settings lower_wide (strip_user_directives lower_wide raw skip)
        ≡ keep
            (has_directive lower_wide)
            (keep (λ l. not (is_stripped lower_wide skip l)) (split_on newline raw))
  unfolding strip_user_directives
  settings-strip raw skip =
      let kept = keep (λ l. not (is_stripped lower_wide skip l)) (split_on newline raw) in
      settings-end_line lower_wide (trim_right (λ c. c == newline) (unlines kept))
      ∙ settings-trim_right lower_wide (unlines kept)
      ∙ ap (settings lower_wide) (sym (append-nil (unlines kept)))
      ∙ settings-unlines lower_wide kept [] (
          All-mono _ (Without newline) kept (λ l h. h.0)
            (keep-All (Without newline) (λ l. not (is_stripped lower_wide skip l))
              (split_on newline raw) (Without-split_on newline raw)))
      ∙ rw (settings_empty, append-nil) refl

  settings_titles :
      (settings lower_wide user_title ≡ []) × (settings lower_wide override_title ≡ [])
  unfolding user_title override_title keep split_on directive trim_space trim_left trim_right
      directive_of is_space
  settings_titles = (refl, refl)

  settings_header : keep (has_directive lower_wide) header_lines ≡ []
  unfolding header_lines keep directive trim_space trim_left trim_right directive_of is_space
  settings_header = refl

  Without-header : All (Without newline) header_lines
  unfolding header_lines
  Without-header = All-lines header_lines refl

  pub settings-user_section :
      (u rest : Text)
      → settings lower_wide (user_section (end_line u) ++ rest)
        ≡ settings lower_wide (end_line u) ++ settings lower_wide rest
  unfolding user_section end_line
  settings-user_section [] rest = rw settings_empty refl
  settings-user_section (c ∷ u) rest =
      ap (λ r. settings lower_wide (newline ∷ r))
        (append_assoc user_title (newline ∷ c ∷ (u ++ newline ∷ [])) rest)
      ∙ settings_titled lower_wide user_title (c ∷ ((u ++ newline ∷ []) ++ rest)) settings_titles.0
      ∙ ap (λ r. settings lower_wide (c ∷ r)) (append_assoc u (newline ∷ []) rest)
      ∙ settings-append lower_wide (c ∷ u) rest
      ∙ ap (λ r. r ++ settings lower_wide rest) (sym (settings-end_line lower_wide (c ∷ u)))

  settings_user :
      (raw : Text) (skip : List Text) (rest : Text)
      → settings lower_wide (user_section (strip_user_directives lower_wide raw skip) ++ rest)
        ≡ keep
            (has_directive lower_wide)
            (keep (λ l. not (is_stripped lower_wide skip l)) (split_on newline raw))
          ++ settings lower_wide rest
  unfolding strip_user_directives
  settings_user raw skip rest =
      settings-user_section
        (trim_right (λ c. c == newline)
          (unlines (keep (λ l. not (is_stripped lower_wide skip l)) (split_on newline raw))))
        rest
      ∙ ap (λ r. r ++ settings lower_wide rest) (settings-strip raw skip)

  settings-override_section :
      (os : List Override)
      → All (Without newline) (map override_line (sort_by_key os))
      → settings lower_wide (override_section os)
        ≡ keep (has_directive lower_wide) (map override_line (sort_by_key os))
  unfolding override_section sort_by_key keep
  settings-override_section [] h = settings_empty lower_wide
  settings-override_section (o ∷ os) h =
      settings_titled lower_wide override_title
        (unlines (map override_line (place o (sort_by_key os)))) settings_titles.1
      ∙ ap (settings lower_wide)
          (sym (append-nil (unlines (map override_line (place o (sort_by_key os))))))
      ∙ settings-unlines lower_wide (map override_line (place o (sort_by_key os))) [] h
      ∙ rw (settings_empty, append-nil) refl

  All-place :
      (P : Override → Type 0) (o : Override) (os : List Override)
      → P o
      → All P os
      → All P (place o os)
  unfolding place
  All-place P o [] h k = (h, tt)
  All-place P o (p ∷ ps) h (k, ks) =
      if_intro (All P) (text_le o.key p.key) (o ∷ p ∷ ps) (p ∷ place o ps) (λ _. (h, (k, ks)))
        (λ _. (k, All-place P o ps h ks))

  pub All-sort_by_key :
      (P : Override → Type 0) (os : List Override) → All P os → All P (sort_by_key os)
  unfolding sort_by_key
  All-sort_by_key P [] h = tt
  All-sort_by_key P (o ∷ os) (h, hs) = All-place P o (sort_by_key os) h (All-sort_by_key P os hs)

  -- The lines of the layer of overrides, in the order in which they are written.
  abbrev pub override_lines : Inputs → List Text
  override_lines i = map override_line (sort_by_key (emitted_overrides lower_wide i))

  -- What a rendered file sets, in its order: the mandatory lines, then the lines of the snippet that are not
  -- stripped, then the overrides that are not dropped, sorted by their keys; the last two less the lines that
  -- set nothing. No input adds a line to these.
  pub settings-render :
      (i : Inputs)
      → settings lower_wide (render lower_wide i)
        ≡ mandatory_directives i
          ++ (keep (has_directive lower_wide) (kept_lines lower_wide i)
              ++ keep (has_directive lower_wide) (override_lines i))
  unfolding render
  settings-render i =
      let rest = override_section (emitted_overrides lower_wide i) in
      let user = strip_user_directives lower_wide i.configuration (skip_keys lower_wide i) in
      settings-unlines lower_wide header_lines
        (unlines (mandatory_directives i) ++ (user_section user ++ rest)) Without-header
      ∙ rw settings_header (
          settings-unlines lower_wide (mandatory_directives i) (user_section user ++ rest)
            (Without-mandatory i)
          ∙ rw
              (
                keep_same (has_directive lower_wide) (mandatory_directives i)
                    (live_mandatory lower_wide i),
                settings_user i.configuration (skip_keys lower_wide i) rest,
              )
              (ap
                (λ r.
                  mandatory_directives i
                  ++ (keep (has_directive lower_wide) (kept_lines lower_wide i) ++ r))
                (settings-override_section (emitted_overrides lower_wide i) (
                  All-map (Without newline) override_line
                    (sort_by_key (emitted_overrides lower_wide i))
                    (All-mono (HasPassed i) (λ o. Without newline (override_line o))
                      (sort_by_key (emitted_overrides lower_wide i)) (Without-override_line i)
                      (All-sort_by_key (HasPassed i) (emitted_overrides lower_wide i)
                        (emitted_overrides-HasPassed i)))))))
