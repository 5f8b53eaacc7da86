-- ===== src/Controller/Pacing/Spacing.antt =====
-- The wipes of one address are spaced.
use velkir.Prelude.{
  ◌≤◌, ◌≡◌, true, false, not, List, [], ◌∷◌, some, String, arith, str_eq, if_intro, All,
}
use velkir.Prelude.Int.{◌≤ℤ◌}
use velkir.Prelude.Time.{Time, time_sub}
use mathlib.Core.Path.{subst}
use velkir.Sentinel.Types.{Endpoint}
use velkir.Sentinel.Stranded.{is_among}
use velkir.Sentinel.Stranded.Keep.{keep-All}
use velkir.Sentinel.Stranded.Recover.{to_reset}
use velkir.Controller.Pacing.{
  StrandedAddrState, NoProgress, stranded_addr_backoff_level, paced, is_paced, stranded_skip_set,
  state_of,
}

-- If its last wipes brought no progress, its pause at that level is over.
abbrev pub PauseOver : Time → NoProgress → String → Type 0
PauseOver now m a =
    (r : StrandedAddrState)
    → state_of a m ≡ some r
    → 1 ≤ stranded_addr_backoff_level r.no_progress
    → paced (stranded_addr_backoff_level r.no_progress) ≤ℤ time_sub now r.last_wiped

-- An address that is not skipped: neither its first entry is paced, nor is it skipped by the others.
not_skipped :
    (now : Time) (b a : String) (q : StrandedAddrState) (m : NoProgress)
    → is_among (stranded_skip_set now ((b, q) ∷ m)) a ≡ false
    → ((str_eq b a ≡ true) → is_paced now q ≡ false)
      × (is_among (stranded_skip_set now m) a ≡ false)
unfolding stranded_skip_set is_among
not_skipped now b a q m =
    if_intro
      (λ l.
        is_among l a ≡ false
        → ((str_eq b a ≡ true) → is_paced now q ≡ false)
          × (is_among (stranded_skip_set now m) a ≡ false))
      (is_paced now q) (b ∷ stranded_skip_set now m) (stranded_skip_set now m)
      (λ _ h. ((λ same. absurd (ground (arith, h, same))), ground (arith, h)))
      (λ no h. ((λ _. no), h))

skip-paced :
    (now : Time) (m : NoProgress) (a : String) (r : StrandedAddrState)
    → state_of a m ≡ some r
    → is_among (stranded_skip_set now m) a ≡ false
    → is_paced now r ≡ false
unfolding state_of stranded_skip_set is_among
skip-paced now [] a r = λ e h. absurd (ground (arith, e))
skip-paced now ((b, q) ∷ m) a r =
    if_intro
      (λ o.
        o ≡ some r
        → is_among (stranded_skip_set now ((b, q) ∷ m)) a ≡ false
        → is_paced now r ≡ false)
      (str_eq b a) (some q) (state_of a m)
      (λ same e h.
        let found : q ≡ r = cc in
        subst (λ x. is_paced now x ≡ false) found ((not_skipped now b a q m h).0 same))
      (λ _ e h. skip-paced now m a r e (not_skipped now b a q m h).1)

paced-over :
    (now : Time) (r : StrandedAddrState)
    → is_paced now r ≡ false
    → 1 ≤ stranded_addr_backoff_level r.no_progress
    → paced (stranded_addr_backoff_level r.no_progress) ≤ℤ time_sub now r.last_wiped
unfolding is_paced
paced-over now r h le = ground (arith, h, le)

-- An empty sentinel that a pass wipes has none of its address's wipes behind it that is too recent: the
-- pause after the third wipe in a row without progress is a minute, and it doubles twice.
pub reset-PauseOver :
    (now : Time) (m : NoProgress) (targets : List Endpoint)
    → All (λ ep. PauseOver now m ep.addr) (to_reset (stranded_skip_set now m) targets)
unfolding to_reset
reset-PauseOver now m targets =
    keep-All (λ ep. PauseOver now m ep.addr)
      (λ ep. not (is_among (stranded_skip_set now m) ep.addr)) targets
      (λ ep stays r e le.
        paced-over now r (skip-paced now m ep.addr r e (ground (arith, stays))) le)
