-- ===== src/Controller/Quorum/MasterInfo/Lost.antt =====
-- When the master counts as lost, over every history of probes.
use velkir.Prelude.{◌≡◌, ◌↔◌, refl, Bool, true, false, List, [], ◌∷◌, Option, none, some, arith}
use velkir.Prelude.Int.{ℤ, pos, ◌≤ℤ◌, ◌<ℤ◌}
use velkir.Prelude.Time.{Time, zero_time, is_zero, time_sub}
use velkir.Controller.Quorum.{CrQuorumState, new_state}
use velkir.Controller.Quorum.MasterInfo.{
  observe_master_info_timeout, master_lost_from_timeout, master_info_probe_freshness_window,
  milliseconds,
}

-- A probe: whether the master answered, and when.
abbrev pub Probe : Type 0
Probe = Bool × Time

-- The state after these probes, the latest first.
unfoldable pub probed : List Probe → CrQuorumState
probed [] = new_state
probed ((ok, now) ∷ ps) = (observe_master_info_timeout ok now (probed ps)).0

-- When the run of failed probes at the end of the history began.
abbrev pub failing_since : List Probe → Option Time
failing_since [] = none
failing_since ((true, now) ∷ ps) = none
failing_since ((false, now) ∷ ps) = elim (failing_since ps) [
  | none ↦ some now
  | some since ↦ some since
]

abbrev pub last_probe : List Probe → Time
last_probe [] = zero_time
last_probe ((ok, now) ∷ ps) = now

probed-since : (ps : List Probe) → (probed ps).master_info_timeout_since ≡ failing_since ps
unfolding probed observe_master_info_timeout
probed-since [] = refl
probed-since ((true, now) ∷ ps) = refl
probed-since ((false, now) ∷ ps) = ground (arith, probed-since ps)

probed-observed : (ps : List Probe) → (probed ps).master_info_observed_at ≡ last_probe ps
unfolding probed observe_master_info_timeout
probed-observed [] = refl
probed-observed ((true, now) ∷ ps) = refl
probed-observed ((false, now) ∷ ps) = ground arith

-- What makes the master lost at this time.
abbrev pub Silent : List Probe → ℤ → Time → Type 0
Silent ps down_after now =
    (since : Time) × (failing_since ps ≡ some since)
    × (pos 0 <ℤ down_after)
    × (is_zero (last_probe ps) ≡ false)
    × (time_sub now (last_probe ps) ≤ℤ master_info_probe_freshness_window)
    × (milliseconds down_after ≤ℤ time_sub now since)

lost_iff :
    (since : Option Time) (observed_at : Time) (down_after : ℤ) (now : Time)
    → (master_lost_from_timeout since observed_at down_after now ≡ true) ↔ (
        (t : Time) × (since ≡ some t)
        × (pos 0 <ℤ down_after)
        × (is_zero observed_at ≡ false)
        × (time_sub now observed_at ≤ℤ master_info_probe_freshness_window)
        × (milliseconds down_after ≤ℤ time_sub now t))
unfolding master_lost_from_timeout
lost_iff none observed_at down_after now = (λ h. cc, λ (t, e, _, _, _, _). cc)
lost_iff (some since) observed_at down_after now = (
  λ h. (since, refl, ground (arith, h), ground (arith, h), ground (arith, h), ground (arith, h)),
  λ (t, e, a, b, c, d). ground (arith, e, a, b, c, d),
)

-- The master counts as lost exactly when the latest probes have failed without a break for at least the
-- down-after window, and the latest one ran recently.
pub master_lost-probed :
    (ps : List Probe) (down_after : ℤ) (now : Time)
    → (master_lost_from_timeout
          (probed ps).master_info_timeout_since
          (probed ps).master_info_observed_at
          down_after
          now
        ≡ true)
      ↔ Silent ps down_after now
master_lost-probed ps down_after now =
    rw (probed-since ps, probed-observed ps)
      (lost_iff (failing_since ps) (last_probe ps) down_after now)
