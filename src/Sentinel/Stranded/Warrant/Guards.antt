-- ===== src/Sentinel/Stranded/Warrant/Guards.antt =====
-- The surgery and the guards before it.
use velkir.Prelude.{
  if_intro, ◌≡◌, refl, inl, inr, true, false, not, ◌&&◌, List, [], ◌∷◌, String, arith, str_eq,
  eq_iff, or_iff, All,
}
use velkir.Sentinel.Types.{Endpoint}
use velkir.Sentinel.SurgeryGuard.{
  MasterRead, is_quiet, recheck_election_quiet, destination_cohort_quiet,
}
use velkir.Sentinel.Stranded.{keep, is_among, RepointClassification, is_empty}
use velkir.Sentinel.Stranded.Keep.{All-mono}
use velkir.Sentinel.Stranded.Recover.{
  RecoveryInput, names, dropped_names, quiet_targets, electing_names,
}

-- A fresh read of a sentinel of its name shows no election, and neither does one of the destination's.
abbrev pub StillQuiet : RecoveryInput → RepointClassification → Endpoint → Type 0
StillQuiet i c ep =
    ((q : Endpoint) × (q.name ≡ ep.name) × (is_quiet (i.target_read q) ≡ true))
    × (destination_cohort_quiet i.destination_read c.stale.cohort c.stale.agree_epoch ≡ true)

recheck-quiet :
    (read : Endpoint → MasterRead) (eps : List Endpoint) (n : String)
    → is_among (names (recheck_election_quiet read eps)) n ≡ true
    → (q : Endpoint) × (q.name ≡ n) × (is_quiet (read q) ≡ true)
unfolding recheck_election_quiet is_among
recheck-quiet read [] n = λ h. absurd (ground (arith, h))
recheck-quiet read (ep ∷ eps) n =
    if_intro
      (λ r.
        is_among (names r) n ≡ true → (q : Endpoint) × (q.name ≡ n) × (is_quiet (read q) ≡ true))
      (is_quiet (read ep)) (ep ∷ recheck_election_quiet read eps) (recheck_election_quiet read eps)
      (λ quiet h.
        elim ((or_iff (str_eq ep.name n) (is_among (names (recheck_election_quiet read eps)) n)).0
          h) [
            | inl same ↦ (ep, (eq_iff ep.name n).0 same, quiet)
            | inr there ↦ recheck-quiet read eps n there
          ])
      (λ _ h. recheck-quiet read eps n h)

not_among-tail :
    (ep : Endpoint) (eps quiet : List Endpoint) (n : String)
    → is_among (dropped_names (ep ∷ eps) quiet) n ≡ false
    → is_among (dropped_names eps quiet) n ≡ false
unfolding dropped_names is_among keep
not_among-tail ep eps quiet n =
    let tail = keep (λ x. not (is_among (names quiet) x.name)) eps in
    if_intro (λ r. is_among (names r) n ≡ false → is_among (names tail) n ≡ false)
      (not (is_among (names quiet) ep.name)) (ep ∷ tail) tail (λ _ h. ground (arith, h)) (λ _ h. h)

not_among-head :
    (ep : Endpoint) (eps quiet : List Endpoint)
    → is_among (dropped_names (ep ∷ eps) quiet) ep.name ≡ false
    → is_among (names quiet) ep.name ≡ true
unfolding dropped_names is_among keep
not_among-head ep eps quiet =
    let tail = keep (λ x. not (is_among (names quiet) x.name)) eps in
    if_intro (λ r. is_among (names r) ep.name ≡ false → is_among (names quiet) ep.name ≡ true)
      (not (is_among (names quiet) ep.name)) (ep ∷ tail) tail
      (λ _ h. absurd (ground (arith, h, eq_iff ep.name ep.name))) (λ e _. ground (arith, e))

-- A stale target that is not dropped is among the quiet ones.
dropped-among :
    (stale quiet : List Endpoint)
    → All
        (λ ep.
          is_among (dropped_names stale quiet) ep.name ≡ false
          → is_among (names quiet) ep.name ≡ true)
        stale
dropped-among [] quiet = tt
dropped-among (ep ∷ eps) quiet = (
  not_among-head ep eps quiet,
  All-mono
      (λ x.
        is_among (dropped_names eps quiet) x.name ≡ false → is_among (names quiet) x.name ≡ true)
      (λ x.
        is_among (dropped_names (ep ∷ eps) quiet) x.name ≡ false
        → is_among (names quiet) x.name ≡ true)
      eps (λ x f h. f (not_among-tail ep eps quiet x.name h)) (dropped-among eps quiet),
)

All-empty : (P : Endpoint → Type 0) (eps : List Endpoint) → is_empty eps ≡ true → All P eps
All-empty P [] h = tt
All-empty P (ep ∷ eps) h = absurd (ground (arith, h))

among-full :
    (eps : List Endpoint) (n : String) → is_among (names eps) n ≡ true → is_empty eps ≡ false
unfolding is_among
among-full [] n h = absurd (ground (arith, h))
among-full (ep ∷ eps) n h = refl

among-StillQuiet :
    (i : RecoveryInput) (c : RepointClassification) (ep : Endpoint)
    → is_among (names (quiet_targets i c)) ep.name ≡ true
    → StillQuiet i c ep
unfolding quiet_targets is_among
among-StillQuiet i c ep =
    let still = recheck_election_quiet i.target_read c.stale.stale_epoch in
    let quiet = destination_cohort_quiet i.destination_read c.stale.cohort c.stale.agree_epoch in
    if_intro (λ r. is_among (names r) ep.name ≡ true → StillQuiet i c ep)
      (not (is_empty still) && not quiet) [] still (λ _ h. absurd (ground (arith, h)))
      (λ e h. (
        recheck-quiet i.target_read c.stale.stale_epoch ep.name h,
        ground (arith, e, among-full still ep.name h),
      ))

pub keeps-StillQuiet :
    (i : RecoveryInput) (c : RepointClassification)
    → All
        (λ ep. is_among (electing_names i c) ep.name ≡ false → StillQuiet i c ep)
        c.stale.stale_epoch
unfolding electing_names
keeps-StillQuiet i c =
    let stale = c.stale.stale_epoch in
    let dropped = dropped_names stale (quiet_targets i c) in
    if_intro (λ r. All (λ ep. is_among r ep.name ≡ false → StillQuiet i c ep) stale)
      (is_empty stale) [] dropped
      (λ e. All-empty (λ ep. is_among [] ep.name ≡ false → StillQuiet i c ep) stale e)
      (λ _.
        All-mono
          (λ ep.
            is_among dropped ep.name ≡ false → is_among (names (quiet_targets i c)) ep.name ≡ true)
          (λ ep. is_among dropped ep.name ≡ false → StillQuiet i c ep) stale
          (λ ep f h. among-StillQuiet i c ep (f h)) (dropped-among stale (quiet_targets i c)))
