-- ===== src/Controller/Pacing.antt =====
-- internal/controller/valkey_controller.go: how often a sentinel that knows no peer is wiped. The map from an
-- address to its state is a list of pairs. The event on a new set of stuck addresses is left out.
pub mod Spacing
use velkir.Prelude.{
  not, ◌^◌, ℕ, zero, suc, ◌+◌, ◌-◌, ◌*◌, ◌≤◌, ◌<◌, ◌≡◌, ◌≢◌, ◌↔◌, ◌⊎◌, refl, inl, inr, sym, ap, ◌∙◌,
  Bool, true, false, ◌&&◌, ◌||◌, List, [], ◌∷◌, ◌++◌, map, Option, none, some, String, arith,
  str_eq, eq_iff, ltb, leb, ◌==◌, if◌then◌else◌, Bool-cases, Option-cases, if_intro, and_iff,
  or_iff, length, any, all, All, count_if,
}
use velkir.Prelude.Int.{
  ℤ, pos, negsuc, ◌+ℤ◌, ◌-ℤ◌, ◌≤ℤ◌, ◌<ℤ◌, ltb_ℤ, leb_ℤ, eq_ℤ, min_ℤ, max_ℤ, int_laws,
}
use velkir.Prelude.Time.{
  Time, Duration, second, zero_time, is_zero, time_sub, time_add, before, after, time_sub_ge,
}

-- The wipes in a row that brought no progress, and the last of them.
pub record StrandedAddrState : Type 0 where
  pub no_progress : ℕ
  pub last_wiped : Time

abbrev pub NoProgress : Type 0
NoProgress = List (String × StrandedAddrState)

abbrev pub stuck_threshold : ℕ
stuck_threshold = 3

abbrev pub max_backoff_level : ℕ
max_backoff_level = 3

unfoldable pub stranded_addr_backoff_level : ℕ → ℕ
stranded_addr_backoff_level n =
    if ltb n stuck_threshold
    then 0
    else if ltb (n - stuck_threshold + 1) max_backoff_level
    then n - stuck_threshold + 1
    else max_backoff_level

-- `strandedRecoveryCooldown << level`, in nanoseconds.
abbrev pub paced : ℕ → Duration
paced level = pos (30_000_000_000 * 2 ^ level)

abbrev pub freshness_window : Duration
freshness_window = pos 480_000_000_000

unfoldable pub stranded_probe_cooling_down : Time → Time → Bool
stranded_probe_cooling_down now last_fired = ltb_ℤ (time_sub now last_fired) (paced 0)

unfoldable pub is_paced : Time → StrandedAddrState → Bool
is_paced now r =
    let level = stranded_addr_backoff_level r.no_progress in
    not (ltb level 1) && ltb_ℤ (time_sub now r.last_wiped) (paced level)

unfoldable pub stranded_skip_set : Time → NoProgress → List String
stranded_skip_set now [] = []
stranded_skip_set now ((a, r) ∷ m) =
    let rest = stranded_skip_set now m in if is_paced now r then a ∷ rest else rest

unfoldable pub state_of : String → NoProgress → Option StrandedAddrState
state_of a [] = none
state_of a ((b, r) ∷ m) = if str_eq b a then some r else state_of a m

unfoldable pub put_state : String → StrandedAddrState → NoProgress → NoProgress
put_state a r [] = (a, r) ∷ []
put_state a r ((b, q) ∷ m) = if str_eq b a then (b, r) ∷ m else (b, q) ∷ put_state a r m

-- The state of an address that is wiped now: a new episode if the last wipe is too long ago.
unfoldable pub wiped_again : Time → Option StrandedAddrState → StrandedAddrState
wiped_again now none = record { no_progress = 1; last_wiped = now }
wiped_again now (some r) = record {
  no_progress = if ltb_ℤ freshness_window (time_sub now r.last_wiped) then 1 else r.no_progress + 1;
  last_wiped = now;
}

unfoldable pub wipe_all : Time → NoProgress → List String → NoProgress → NoProgress
wipe_all now old [] next = next
wipe_all now old (a ∷ rest) next =
    wipe_all now old rest (put_state a (wiped_again now (state_of a old)) next)

-- A wrong password is stuck at once.
unfoldable pub auth_failed : List String → NoProgress → NoProgress
auth_failed [] next = next
auth_failed (a ∷ rest) next = elim (state_of a next) [
  | none ↦ auth_failed rest next
  | some r ↦
      if ltb r.no_progress stuck_threshold
      then auth_failed rest (put_state a (record r { no_progress = stuck_threshold }) next)
      else auth_failed rest next
]

unfoldable pub carry_skipped : NoProgress → List String → NoProgress → NoProgress
carry_skipped old [] next = next
carry_skipped old (a ∷ rest) next = elim (state_of a old) [
  | none ↦ carry_skipped old rest next
  | some r ↦ carry_skipped old rest (put_state a r next)
]

-- `detectStrandedPeerLinkupStuck`: the next states.
unfoldable pub detect_stranded_peer_linkup_stuck :
    Time → List String → List String → List String → NoProgress → NoProgress
detect_stranded_peer_linkup_stuck now wiped skipped failed old =
    carry_skipped old skipped (auth_failed failed (wipe_all now old wiped []))
