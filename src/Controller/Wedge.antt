-- ===== src/Controller/Wedge.antt =====
-- internal/controller/valkey_controller.go: when a pass may reap ghosts and re-point sentinels, and the call
-- of the recovery of stranded sentinels. The cooldown and the pacing of each address are left out: the
-- addresses to skip come with the input.
pub mod Quiet
use velkir.Prelude.{
  ℕ, zero, suc, ◌+◌, ◌-◌, ◌*◌, ◌≤◌, ◌<◌, ◌≡◌, ◌≢◌, ◌↔◌, ◌⊎◌, refl, inl, inr, sym, ap, ◌∙◌, Bool,
  true, false, not, ◌&&◌, ◌||◌, List, [], ◌∷◌, ◌++◌, map, Option, none, some, String, arith, str_eq,
  eq_iff, ltb, leb, ◌==◌, if◌then◌else◌, Bool-cases, Option-cases, if_intro, and_iff, or_iff,
  length, any, all, All, count_if,
}
use velkir.Prelude.Int.{
  ℤ, pos, negsuc, ◌+ℤ◌, ◌-ℤ◌, ◌≤ℤ◌, ◌<ℤ◌, ltb_ℤ, leb_ℤ, eq_ℤ, min_ℤ, max_ℤ, int_laws,
}
use velkir.Prelude.Time.{
  Time, Duration, second, zero_time, is_zero, time_sub, time_add, before, after, time_sub_ge,
}
use velkir.Sentinel.Types.{Snapshot, ObservedPrimary, StampMap}
use velkir.Sentinel.Live.{is_live}
use velkir.Sentinel.Stranded.Ghosts.{Seen}
use velkir.Sentinel.Stranded.Recover.{RecoveryInput, RecoveryResult, recover_stranded_sentinels}
use velkir.Prelude.HostPort.{split_host_port}

unfoldable pub live_host : List String → Option String → Bool
live_host live none = false
live_host live (some host) = not (str_eq host "") && is_live live host

unfoldable pub repoint_class_armed : Snapshot → List String → Bool
repoint_class_armed snap live =
    if not snap.present
    then false
    else if not snap.primary.quorum_ok
    then true
    else not (live_host live (split_host_port snap.primary.addr))

-- The failover timeout in milliseconds as a duration, 180 seconds if it is not positive.
unfoldable pub failover_ttl : ℤ → Duration
failover_ttl (pos (suc n)) = pos (suc n * 1_000_000)
failover_ttl _ = pos 180_000_000_000

unfoldable pub any_fresh : Duration → Time → StampMap → Bool
any_fresh ttl now [] = false
any_fresh ttl now ((k, t) ∷ m) = ltb_ℤ (time_sub now t) ttl || any_fresh ttl now m

unfoldable pub ghost_reap_allowed : Snapshot → ℤ → Time → Bool
ghost_reap_allowed snap failover_timeout now =
    let ttl = failover_ttl failover_timeout in
    if not snap.present
    then false
    else if any_fresh ttl now snap.primary.odown
    then false
    else not (any_fresh ttl now snap.primary.odown_pull)

-- The input of the recovery, with what the snapshot allows.
unfoldable pub wedge_input : Snapshot → ℤ → List String → RecoveryInput → RecoveryInput
wedge_input snap failover_timeout live i =
    let allowed = ghost_reap_allowed snap failover_timeout i.now in
    record i {
      allow_ghost_reap = allowed;
      allow_stale_repoint = allowed;
      live_valkey_ips = if repoint_class_armed snap live then live else [];
    }

-- `detectAndRecoverStrandedSentinels`, once a master is known and the probe is due.
unfoldable pub detect_and_recover_stranded_sentinels :
    Snapshot → ℤ → List String → RecoveryInput → Seen → RecoveryResult × Seen
detect_and_recover_stranded_sentinels snap failover_timeout live i seen =
    recover_stranded_sentinels (wedge_input snap failover_timeout live i) seen
