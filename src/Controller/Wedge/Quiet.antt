-- ===== src/Controller/Wedge/Quiet.antt =====
-- No sound sentinel is wiped while an election may be brewing.
use velkir.Prelude.{
  ◌<◌, ◌≡◌, inl, inr, Bool, true, false, List, [], ◌∷◌, String, arith, Bool-cases, All, count_if,
}
use velkir.Prelude.Int.{ℤ, ◌≤ℤ◌}
use velkir.Prelude.Time.{Time, Duration, time_sub}
use velkir.Sentinel.Types.{Endpoint, Snapshot, StampMap}
use velkir.Sentinel.Stranded.Keep.{All-mono}
use velkir.Sentinel.Stranded.Debounce.{ReapPass, seen_after}
use velkir.Sentinel.Stranded.Recover.{RecoveryInput, select, recover_stranded_sentinels}
use velkir.Sentinel.Stranded.Warrant.Removed.{Warranted, recover-Warranted}
use velkir.Sentinel.Stranded.Warrant.Sound.{is_sound, Unsound-is_sound}
use velkir.Controller.Wedge.{
  failover_ttl, any_fresh, ghost_reap_allowed, wedge_input, detect_and_recover_stranded_sentinels,
}

-- Every stamp is at least this old.
abbrev pub AllOld : Duration → Time → StampMap → Type 0
AllOld ttl now [] = Unit
AllOld ttl now ((k, t) ∷ m) = (ttl ≤ℤ time_sub now t) × AllOld ttl now m

any_fresh-AllOld :
    (ttl : Duration) (now : Time) (m : StampMap) → any_fresh ttl now m ≡ false → AllOld ttl now m
unfolding any_fresh
any_fresh-AllOld ttl now [] h = tt
any_fresh-AllOld ttl now ((k, t) ∷ m) h =
    (ground (arith, h), any_fresh-AllOld ttl now m (ground (arith, h)))

-- The snapshot is there, and no sentinel has reported its master objectively down within the failover
-- timeout, neither by a frame nor in a poll.
abbrev pub NoElection : Snapshot → ℤ → Time → Type 0
NoElection snap failover_timeout now =
    (snap.present ≡ true)
    × AllOld (failover_ttl failover_timeout) now snap.primary.odown
    × AllOld (failover_ttl failover_timeout) now snap.primary.odown_pull

allowed-NoElection :
    (snap : Snapshot) (failover_timeout : ℤ) (now : Time)
    → ghost_reap_allowed snap failover_timeout now ≡ true
    → NoElection snap failover_timeout now
unfolding ghost_reap_allowed
allowed-NoElection snap failover_timeout now h = (
  ground (arith, h),
  any_fresh-AllOld (failover_ttl failover_timeout) now snap.primary.odown (ground (arith, h)),
  any_fresh-AllOld (failover_ttl failover_timeout) now snap.primary.odown_pull (ground (arith, h)),
)

count-some :
    (p : Endpoint → Bool) (b : Bool) (eps : List Endpoint)
    → All (λ ep. p ep ≡ true → b ≡ true) eps
    → 0 < count_if p eps
    → b ≡ true
count-some p b [] h k = absurd (omega (arith, k))
count-some p b (ep ∷ eps) (h, hs) k = elim (Bool-cases (p ep)) [
  | inl e ↦ h e
  | inr e ↦ count-some p b eps hs (ground (arith, k, e))
]

-- A pass wipes a sentinel that gossips and monitors the resolved master only while no election may be
-- brewing: the snapshot is there, and each o_down stamp in it is at least one failover timeout old.
pub detect-NoElection :
    (snap : Snapshot) (failover_timeout : ℤ) (live : List String) (i : RecoveryInput)
    (ps : List ReapPass)
    → 0
      < count_if
          (is_sound (wedge_input snap failover_timeout live i))
          (detect_and_recover_stranded_sentinels snap failover_timeout live i
            (seen_after ps)).0.removed
    → NoElection snap failover_timeout i.now
unfolding detect_and_recover_stranded_sentinels wedge_input
detect-NoElection snap failover_timeout live i ps h =
    let j = wedge_input snap failover_timeout live i in
    let c = (select j (seen_after ps)).0.repoint in
    let removed = (recover_stranded_sentinels j (seen_after ps)).0.removed in
    allowed-NoElection snap failover_timeout i.now (
      count-some (is_sound j) (ghost_reap_allowed snap failover_timeout i.now) removed
        (All-mono (Warranted j ps c)
          (λ ep. is_sound j ep ≡ true → ghost_reap_allowed snap failover_timeout i.now ≡ true)
          removed
          (λ ep w sound. elim w [
            | inl unsound ↦ absurd (ground (arith, sound, Unsound-is_sound j c ep unsound))
            | inr ghost ↦ ghost.0
          ])
          (recover-Warranted j ps))
        h)
