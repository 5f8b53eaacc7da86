-- ===== src/Controller/Trackers.antt =====
-- internal/controller/percrstate.go: the budget of the self-heal, the rate-bounded edge of its deferral,
-- and the settling count of the observed primary.
pub mod Budget
pub mod Settling
use velkir.Prelude.{
  ℕ, suc, ◌+◌, ◌-◌, ◌*◌, ◌^◌, ◌%◌, Bool, true, false, not, ◌&&◌, ◌||◌, Option, none, some, String,
  str_eq, ltb, leb, ◌==◌, if◌then◌else◌,
}
use velkir.Prelude.Int.{ℤ, pos, negsuc, ltb_ℤ, leb_ℤ}
use velkir.Prelude.Time.{Time, Duration, time_sub, time_add, before, after, is_zero}

pub record DualMasterSelfHealState : Type 0 where
  pub last_attempt : Time
  pub attempt_count : ℕ

-- The 64-bit pattern of a number, read with its sign.
unfoldable pub to_int64 : ℕ → ℤ
to_int64 n =
    let m = n % 18_446_744_073_709_551_616 in
    if ltb m 9_223_372_036_854_775_808 then pos m else negsuc (18_446_744_073_709_551_615 - m)

-- `d << k` on an int64.
unfoldable pub shift_left : Duration → ℕ → Duration
shift_left (pos n) k = to_int64 (n * 2 ^ k)
shift_left (negsuc n) k =
    to_int64 (18_446_744_073_709_551_616 - suc n * 2 ^ k % 18_446_744_073_709_551_616)

unfoldable pub backoff : Duration → Duration → ℕ → Duration
backoff base_cooldown max_backoff attempts =
    let b = shift_left base_cooldown (attempts - 1) in
    if leb_ℤ b (pos 0) || ltb_ℤ max_backoff b then max_backoff else b

unfoldable pub self_heal_attempt_allowed :
    Option DualMasterSelfHealState → Time → Duration → Duration → ℕ → Bool
self_heal_attempt_allowed none now base_cooldown max_backoff max_attempts = true
self_heal_attempt_allowed (some st) now base_cooldown max_backoff max_attempts =
    if st.attempt_count == 0
    then true
    else if leb max_attempts st.attempt_count
    then false
    else not
        (before now (time_add st.last_attempt (backoff base_cooldown max_backoff st.attempt_count)))

abbrev pub attempts_of : Option DualMasterSelfHealState → ℕ
attempts_of none = 0
attempts_of (some st) = st.attempt_count

unfoldable pub record_self_heal_attempt :
    Option DualMasterSelfHealState → Time → Option DualMasterSelfHealState
record_self_heal_attempt st now =
    some (record { last_attempt = now; attempt_count = attempts_of st + 1 })

-- The last signature emitted, and when.
pub record DeferEdge : Type 0 where
  pub signature : String
  pub last_at : Time

abbrev pub defer_min_interval : Duration
defer_min_interval = pos 60_000_000_000

unfoldable pub fire_dual_master_defer_edge : DeferEdge → String → Time → Bool × DeferEdge
fire_dual_master_defer_edge e sig now =
    if str_eq e.signature sig
    then (false, e)
    else if not (is_zero e.last_at) && ltb_ℤ (time_sub now e.last_at) defer_min_interval
    then (false, e)
    else (true, record { signature = sig; last_at = now })

unfoldable pub reset_dual_master_defer_edge : DeferEdge → DeferEdge
reset_dual_master_defer_edge e = record e { signature = "" }

pub record PrimaryStabilityState : Type 0 where
  pub addr : String
  pub first_polled : Time
  pub last_polled : Time
  pub fresh_count : ℕ

abbrev pub first_poll : String → Time → PrimaryStabilityState
first_poll addr polled_at = record {
  addr = addr;
  first_polled = polled_at;
  last_polled = polled_at;
  fresh_count = 1;
}

unfoldable pub advance : PrimaryStabilityState → Time → PrimaryStabilityState
advance st polled_at =
    if after polled_at st.last_polled
    then record st { fresh_count = st.fresh_count + 1; last_polled = polled_at }
    else st

-- The tracker after a poll.
unfoldable pub stability_after :
    Option PrimaryStabilityState → String → Time → Option PrimaryStabilityState
stability_after st addr polled_at = if str_eq addr "" then none else elim st [
  | none ↦ some (first_poll addr polled_at)
  | some s ↦
      if not (str_eq s.addr addr)
      then some (first_poll addr polled_at)
      else some (advance s polled_at)
]

abbrev pub reading : Option PrimaryStabilityState → ℕ × Duration
reading none = (0, pos 0)
reading (some s) = (s.fresh_count, time_sub s.last_polled s.first_polled)

-- `observePrimaryStability`: the count and the dwell, and the tracker.
unfoldable pub observe_primary_stability :
    Option PrimaryStabilityState → String → Time → (ℕ × Duration) × Option PrimaryStabilityState
observe_primary_stability st addr polled_at =
    let next = stability_after st addr polled_at in (reading next, next)
