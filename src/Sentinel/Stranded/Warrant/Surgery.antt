-- ===== src/Sentinel/Stranded/Warrant/Surgery.antt =====
-- The surgery and the guards before it.
use velkir.Prelude.{
  if_intro, ◌≡◌, ◌≢◌, refl, true, false, not, ◌&&◌, ◌||◌, [], arith, str_eq, eq_iff, if◌then◌else◌,
}
use velkir.Sentinel.SurgeryGuard.{any_failover_in_progress}
use velkir.Sentinel.Stranded.{is_empty, quorum_reachable}
use velkir.Sentinel.Stranded.Ghosts.{Seen}
use velkir.Sentinel.Stranded.Recover.{
  RecoveryInput, RecoveryResult, Selection, nothing, select, reset_of, wiped_of, reported,
  none_left, surgery, guarded, untouched_survivors, recover_stranded_sentinels,
}

-- What the guards want before the surgery.
abbrev pub Cleared : RecoveryInput → Selection → Type 0
Cleared i s =
    (i.master_ip ≢ "")
    × (i.deferred && not i.bypass_deferral ≡ false)
    × (quorum_reachable s.classified i.endpoints ≡ true)
    × (i.master_answers ≡ true)
    × (any_failover_in_progress i.survivor_read
          (untouched_survivors i.peers_of s.ghost (wiped_of i s) i.endpoints)
        ≡ false)

-- A pass removes nothing, or it is the surgery behind the guards.
guarded-cases :
    (i : RecoveryInput) (s : Selection) (Q : RecoveryResult → Type 0)
    → ((r : RecoveryResult) → r.removed ≡ [] → Q r)
    → ((quorum_reachable s.classified i.endpoints ≡ true)
        → (i.master_answers ≡ true)
        → (any_failover_in_progress i.survivor_read
              (untouched_survivors i.peers_of s.ghost (wiped_of i s) i.endpoints)
            ≡ false)
        → Q (surgery i s))
    → Q (guarded i s)
unfolding guarded
guarded-cases i s Q idle act =
    let out = reported i s in
    let quorum = quorum_reachable s.classified i.endpoints in
    let healthy : RecoveryResult = record out { healthy = quorum } in
    let resting = if not (is_empty out.skipped_stranded) then out else healthy in
    let refused : RecoveryResult = record nothing { probed = true } in
    let electing =
      any_failover_in_progress i.survivor_read
        (untouched_survivors i.peers_of s.ghost (wiped_of i s) i.endpoints) in
    let last = if electing then refused else surgery i s in
    let third = if not i.master_answers then refused else last in
    let second = if not quorum then refused else third in
    if_intro Q (none_left (reset_of i s) s.ghost) resting second
      (λ _.
        if_intro Q (not (is_empty out.skipped_stranded)) out healthy (λ _. idle out refl)
          (λ _. idle healthy refl))
      (λ _.
        if_intro Q (not quorum) refused third (λ _. idle refused refl)
          (λ q.
            if_intro Q (not i.master_answers) refused last (λ _. idle refused refl)
              (λ a.
                if_intro Q electing refused (surgery i s) (λ _. idle refused refl)
                  (λ e. act (ground (arith, q)) (ground (arith, a)) e))))

pub recover-cases :
    (i : RecoveryInput) (seen : Seen) (Q : RecoveryResult → Type 0)
    → ((r : RecoveryResult) → r.removed ≡ [] → Q r)
    → (Cleared i (select i seen).0 → Q (surgery i (select i seen).0))
    → Q (recover_stranded_sentinels i seen).0
unfolding recover_stranded_sentinels
recover-cases i seen Q idle act =
    let R = RecoveryResult × Seen in
    let selected = select i seen in
    let idle_pair : R = (nothing, seen) in
    let run : R = (guarded i selected.0, selected.1) in
    let later = if i.deferred && not i.bypass_deferral then idle_pair else run in
    if_intro (λ (r : R). Q r.0) (is_empty i.endpoints || str_eq i.master_ip "") idle_pair later
      (λ _. idle nothing refl)
      (λ full.
        if_intro (λ (r : R). Q r.0) (i.deferred && not i.bypass_deferral) idle_pair run
          (λ _. idle nothing refl)
          (λ free. guarded-cases i selected.0 Q idle (λ q a e.
            act (λ same. ground (arith, full, same, eq_iff i.master_ip ""), free, q, a, e))))
