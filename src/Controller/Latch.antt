-- ===== src/Controller/Latch.antt =====
-- internal/controller/primary_rollout.go: the failover-in-flight latch in memory and its durable marker
-- on the status of the resource. No entry for a resource in memory is an entry without a latch.
use velkir.Prelude.{Bool, true, false, not, ◌&&◌, Option, none, some, String, str_eq, if◌then◌else◌}
use velkir.Prelude.Int.{ℤ, pos, ltb_ℤ, leb_ℤ}
use velkir.Prelude.Time.{Time, Duration, time_sub, after, before}
use velkir.Sentinel.Types.{Snapshot}

abbrev pub latch_ttl : Duration
latch_ttl = pos 210_000_000_000

abbrev pub nogoodslave_cooldown_ttl : Duration
nogoodslave_cooldown_ttl = pos 15_000_000_000

abbrev pub max_rollout_snapshot_age : Duration
max_rollout_snapshot_age = pos 30_000_000_000

unfoldable pub snapshot_stale : Snapshot → Time → Duration → Bool
snapshot_stale snap now max_age =
    if leb_ℤ max_age (pos 0)
    then false
    else ltb_ℤ max_age (time_sub now snap.primary.last_polled_at)

pub record FailoverLatch : Type 0 where
  pub pre_strip_addr : String
  pub deadline : Time
  pub pre_strip_epoch : ℤ

-- The decision of `active`.
unfoldable pub active : FailoverLatch → Time → String → ℤ → Bool
active l now observed_addr observed_epoch =
    if after now l.deadline
    then false
    else if not (str_eq observed_addr "") && not (str_eq observed_addr l.pre_strip_addr)
    then ltb_ℤ (pos 0) l.pre_strip_epoch && ltb_ℤ observed_epoch l.pre_strip_epoch
    else true

-- What an observer publishes of the primary: `observedPrimaryAddrEpoch`.
unfoldable pub observed_addr_epoch : Option Snapshot → String × ℤ
observed_addr_epoch none = ("", pos 0)
observed_addr_epoch (some snap) =
    if snap.present then (snap.primary.addr, snap.primary.epoch) else ("", pos 0)

unfoldable pub failover_latch_active_pure : Option FailoverLatch → Time → String × ℤ → Bool
failover_latch_active_pure none now observed = false
failover_latch_active_pure (some l) now (addr, epoch) = active l now addr epoch

-- The answer, and the latch that is left: a latch that does not hold any more is dropped.
unfoldable pub failover_latch_active :
    Option FailoverLatch → Time → String × ℤ → Bool × Option FailoverLatch
failover_latch_active none now observed = (false, none)
failover_latch_active (some l) now (addr, epoch) =
    if active l now addr epoch then (true, some l) else (false, none)

-- `Status.Rollout.FailoverDispatch`.
pub record Marker : Type 0 where
  pub pre_strip_addr : String
  pub pre_strip_epoch : ℤ
  pub deadline : Option Time

-- The latch that the first half of `maintainFailoverDispatchMarker` leaves.
unfoldable pub rehydrate : Marker → Option FailoverLatch → Time → Option FailoverLatch
rehydrate m (some l) now = some l
rehydrate m none now = elim m.deadline [
  | none ↦ none
  | some d ↦
      if before now d
      then some (record {
        pre_strip_addr = m.pre_strip_addr;
        deadline = d;
        pre_strip_epoch = m.pre_strip_epoch;
      })
      else none
]

-- The latch in memory and the marker that the API server stores.
abbrev pub Memory : Type 0
Memory = Option FailoverLatch × Option Marker

-- `maintainFailoverDispatchMarker`: the clock is read twice, and `cleared` says whether the patch that
-- clears the marker succeeds.
unfoldable pub maintain : Time → Time → Option Snapshot → Bool → Memory → Memory
maintain now later snap cleared (latch, none) = (latch, none)
maintain now later snap cleared (latch, some m) =
    let (held, left) =
      failover_latch_active (rehydrate m latch now) later (observed_addr_epoch snap) in
    (left, if held then some m else (if cleared then none else some m))
