-- ===== src/Controller/Quorum/MasterInfo.antt =====
-- internal/controller/valkey_controller.go: for how long the probes of the master have failed.
pub mod Lost
use velkir.Prelude.{◌+◌, ◌-◌, ◌*◌, Bool, true, false, ◌||◌, Option, none, some, if◌then◌else◌}
use velkir.Prelude.Int.{ℤ, pos, negsuc, ltb_ℤ, leb_ℤ}
use velkir.Prelude.Time.{Time, Duration, is_zero, time_sub}
use velkir.Controller.Quorum.{CrQuorumState}

-- The state, and for how long the probes have failed.
unfoldable pub observe_master_info_timeout : Bool → Time → CrQuorumState → CrQuorumState × Duration
observe_master_info_timeout true now st =
    (record st { master_info_timeout_since = none; master_info_observed_at = now }, pos 0)
observe_master_info_timeout false now st = elim st.master_info_timeout_since [
  | none ↦
      (record st { master_info_timeout_since = some now; master_info_observed_at = now }, pos 0)
  | some since ↦ (record st { master_info_observed_at = now }, time_sub now since)
]

abbrev pub master_info_probe_freshness_window : Duration
master_info_probe_freshness_window = pos 60_000_000_000

-- `time.Duration(n) * time.Millisecond`, for a 32-bit count, so that the product fits.
unfoldable pub milliseconds : ℤ → Duration
milliseconds (pos n) = pos (n * 1_000_000)
milliseconds (negsuc n) = negsuc ((n + 1) * 1_000_000 - 1)

unfoldable pub master_lost_from_timeout : Option Time → Time → ℤ → Time → Bool
master_lost_from_timeout none observed_at down_after now = false
master_lost_from_timeout (some since) observed_at down_after now =
    if leb_ℤ down_after (pos 0)
    then false
    else if is_zero observed_at
        || ltb_ℤ master_info_probe_freshness_window (time_sub now observed_at)
    then false
    else leb_ℤ (milliseconds down_after) (time_sub now since)
