-- ===== src/Orchestration/Watchdog/Rearm.antt =====
-- The watchdog under repeated arming: a storm of reconciles does not put the deadline off.
use velkir.Prelude.{
  ◌≡◌, ◌≢◌, refl, true, false, not, List, [], ◌∷◌, none, some, String, str_eq, eq_iff, arith,
}
use text.Mathlib.TextPositions.{eq_refl}
use velkir.Prelude.Int.{ℤ, pos, ◌≤ℤ◌, int_laws}
use velkir.Prelude.Time.{Time, time_add, before, scale}
use velkir.Orchestration.Watchdog.{MasterAwareRolloutStatus, check, arm, clamp_timeout}

scale_clamp :
    (n : ℤ)
    → (pos 60_000_000_000 ≤ℤ scale (clamp_timeout n))
      × (scale (clamp_timeout n) ≤ℤ pos 3_600_000_000_000)
unfolding scale
scale_clamp n = (ground arith, ground arith)

time_add-mono : (t a b : ℤ) → a ≤ℤ b → time_add t a ≤ℤ time_add t b
time_add-mono t a b h = omega (int_laws, h)

-- A fresh arming for a named pod is active at once, with a deadline between one minute and one hour
-- away whatever the timeout asked for, and expires exactly when that deadline has come.
pub check-arm :
    (now later : Time) (pod : String) (timeout_seconds : ℤ)
    → pod ≢ ""
    → let v = check later (some (arm now pod timeout_seconds none)) in
      (v.active ≡ true)
      × (v.pod_name ≡ pod)
      × (v.expired ≡ not (before later v.deadline))
      × (time_add now (pos 60_000_000_000) ≤ℤ v.deadline)
      × (v.deadline ≤ℤ time_add now (pos 3_600_000_000_000))
unfolding check arm
check-arm now later pod timeout_seconds named =
    let blank : str_eq pod "" ≡ false = ground (arith, eq_iff pod "") in
    let (lo, hi) = scale_clamp timeout_seconds in
    rw blank (refl, refl, refl, time_add-mono now _ _ lo, time_add-mono now _ _ hi)

-- The substate after one arming and a list of further ones for the same pod.
pub rearm : String → MasterAwareRolloutStatus → List (Time × ℤ) → MasterAwareRolloutStatus
rearm pod status [] = status
rearm pod status ((now, timeout_seconds) ∷ more) =
    rearm pod (arm now pod timeout_seconds (some status)) more

arm_again :
    (now t : Time) (pod : String) (timeout n : ℤ)
    → arm t pod n (some (arm now pod timeout none)) ≡ arm now pod timeout none
unfolding arm
arm_again now t pod timeout n = rw (eq_refl pod)

rearm-arm :
    (now : Time) (pod : String) (timeout : ℤ) (more : List (Time × ℤ))
    → rearm pod (arm now pod timeout none) more ≡ arm now pod timeout none
unfolding rearm
rearm-arm now pod timeout [] = refl
rearm-arm now pod timeout ((t, n) ∷ more) =
    rw (arm_again now t pod timeout n) (rearm-arm now pod timeout more)

-- Arming again for the same pod, at any times and with any timeouts, leaves the first substate as
-- it is, so an hour after the first arming the watchdog has expired.
pub check-rearm :
    (now later : Time) (pod : String) (timeout_seconds : ℤ) (more : List (Time × ℤ))
    → pod ≢ ""
    → time_add now (pos 3_600_000_000_000) ≤ℤ later
    → let status = rearm pod (arm now pod timeout_seconds none) more in
      (status ≡ arm now pod timeout_seconds none)
      × ((check later (some status)).active ≡ true)
      × ((check later (some status)).expired ≡ true)
check-rearm now later pod timeout_seconds more named late =
    let same = rearm-arm now pod timeout_seconds more in
    let (live, name, ends, lo, hi) = check-arm now later pod timeout_seconds named in
    (same, rw same live, rw (same, ends) (ground (arith, hi, late)))
