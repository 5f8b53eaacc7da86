-- ===== src/Controller/Trackers/Budget.antt =====
-- The budget of the self-heal and the rate of its deferral events, over sequences of passes.
use mathlib.Core.Path.{subst}
use velkir.Prelude.{
  ℕ, suc, ◌+◌, ◌-◌, ◌*◌, ◌^◌, ◌≤◌, ◌<◌, ◌≡◌, ◌⊎◌, refl, inl, inr, true, false, List, [], ◌∷◌,
  Option, none, some, String, arith, length, Bool-cases,
}
use velkir.Prelude.Int.{pos, ◌≤ℤ◌, ◌<ℤ◌, min_ℤ, ◌-ℤ◌}
use velkir.Prelude.Time.{time_sub_ge, Time, Duration, time_add, is_zero}
use velkir.Controller.Trackers.{
  DualMasterSelfHealState, to_int64, shift_left, backoff, self_heal_attempt_allowed, attempts_of,
  record_self_heal_attempt, DeferEdge, defer_min_interval, fire_dual_master_defer_edge,
  reset_dual_master_defer_edge,
}

-- Whatever the number of attempts, and wherever the shift leaves the range of an int64, the wait before the
-- next attempt is positive and no longer than the bound.
pub backoff-bounds :
    (base max_backoff : Duration) (attempts : ℕ)
    → pos 0 <ℤ max_backoff
    → (pos 0 <ℤ backoff base max_backoff attempts)
      × (backoff base max_backoff attempts ≤ℤ max_backoff)
unfolding backoff
backoff-bounds base max_backoff attempts h = (ground (arith, h), ground (arith, h))

to_int64-small : (n : ℕ) → n < 9_223_372_036_854_775_808 → to_int64 n ≡ pos n
unfolding to_int64
to_int64-small n h = ground (arith, h)

-- As long as the doubled base fits an int64, the wait is the smaller of that and the bound.
pub backoff-min_ℤ :
    (base attempts : ℕ) (max_backoff : Duration)
    → 0 < base * 2 ^ (attempts - 1)
    → base * 2 ^ (attempts - 1) < 9_223_372_036_854_775_808
    → backoff (pos base) max_backoff attempts ≡ min_ℤ (pos (base * 2 ^ (attempts - 1))) max_backoff
unfolding backoff shift_left
backoff-min_ℤ base attempts max_backoff some_wait fits =
    rw (to_int64-small (base * 2 ^ (attempts - 1)) fits) (ground (arith, some_wait))

module _ (base max_backoff : Duration) (max_attempts : ℕ) where
  -- The times of the attempts, for passes that heal whenever they may.
  unfoldable pub heal_all : Option DualMasterSelfHealState → List Time → List Time
  heal_all st [] = []
  heal_all st (now ∷ nows) = elim (self_heal_attempt_allowed st now base max_backoff max_attempts) [
    | true ↦ now ∷ heal_all (record_self_heal_attempt st now) nows
    | false ↦ heal_all st nows
  ]

  -- An attempt comes first, or the wait since the last one is over.
  abbrev pub Due : Option DualMasterSelfHealState → Time → Type 0
  Due none t = Unit
  Due (some st) t =
      (st.attempt_count ≡ 0)
      ⊎ (time_add st.last_attempt (backoff base max_backoff st.attempt_count) ≤ℤ t)

  abbrev pub Spaced : Option DualMasterSelfHealState → List Time → Type 0
  Spaced st [] = Unit
  Spaced st (t ∷ ts) = Due st t × Spaced (record_self_heal_attempt st t) ts

  allowed-Due :
      (st : Option DualMasterSelfHealState) (now : Time)
      → 0 < max_attempts
      → self_heal_attempt_allowed st now base max_backoff max_attempts ≡ true
      → Due st now × (suc (attempts_of st) ≤ max_attempts)
  unfolding self_heal_attempt_allowed
  allowed-Due none now some_budget h = (tt, omega (arith, some_budget))
  allowed-Due (some st) now some_budget h = (ground (arith, h), ground (arith, h, some_budget))

  heal-allowed :
      (st : Option DualMasterSelfHealState) (now : Time) (nows : List Time)
      → self_heal_attempt_allowed st now base max_backoff max_attempts ≡ true
      → heal_all st (now ∷ nows) ≡ now ∷ heal_all (record_self_heal_attempt st now) nows
  unfolding heal_all
  heal-allowed st now nows h = rw (h, heal_all)

  heal-refused :
      (st : Option DualMasterSelfHealState) (now : Time) (nows : List Time)
      → self_heal_attempt_allowed st now base max_backoff max_attempts ≡ false
      → heal_all st (now ∷ nows) ≡ heal_all st nows
  unfolding heal_all
  heal-refused st now nows h = rw (h, heal_all)

  heal-nil : (st : Option DualMasterSelfHealState) → heal_all st [] ≡ []
  unfolding heal_all
  heal-nil st = refl

  -- Over any sequence of passes there are no more attempts than the budget has left, and each attempt
  -- after the first waits out the backoff of the attempts before it.
  pub heal_all-Spaced :
      (st : Option DualMasterSelfHealState) (nows : List Time)
      → 0 < max_attempts
      → attempts_of st ≤ max_attempts
      → Spaced st (heal_all st nows) × (length (heal_all st nows) + attempts_of st ≤ max_attempts)
  unfolding record_self_heal_attempt
  heal_all-Spaced st [] some_budget h = rw (heal-nil st) (tt, omega (arith, h))
  heal_all-Spaced st (now ∷ nows) some_budget h =
      elim (Bool-cases (self_heal_attempt_allowed st now base max_backoff max_attempts)) [
        | inl allowed ↦
            let (due, room) = allowed-Due st now some_budget allowed in
            let (spaced, count) =
              heal_all-Spaced (record_self_heal_attempt st now) nows some_budget
                (omega (arith, room)) in
            rw (heal-allowed st now nows allowed) ((due, spaced), omega (arith, count))
        | inr waits ↦ rw (heal-refused st now nows waits) (heal_all-Spaced st nows some_budget h)
      ]

-- A pass that defers the self-heal for a reason, or one that re-arms the edge.
pub data DeferStep : Type 0 where
  defers : String → Time → DeferStep
  rearms : DeferStep

-- The times of the events that a sequence of such passes emits.
unfoldable pub defer_all : DeferEdge → List DeferStep → List Time
defer_all e [] = []
defer_all e (rearms ∷ steps) = defer_all (reset_dual_master_defer_edge e) steps
defer_all e (defers sig now ∷ steps) = elim (fire_dual_master_defer_edge e sig now).0 [
  | true ↦ now ∷ defer_all (fire_dual_master_defer_edge e sig now).1 steps
  | false ↦ defer_all (fire_dual_master_defer_edge e sig now).1 steps
]

-- Every event comes a minute after the one before it.
abbrev pub MinuteApart : Time → List Time → Type 0
MinuteApart last [] = Unit
MinuteApart last (t ∷ ts) =
    ((is_zero last ≡ true) ⊎ (defer_min_interval ≤ℤ t -ℤ last)) × MinuteApart t ts

fires-late :
    (e : DeferEdge) (sig : String) (now : Time)
    → (fire_dual_master_defer_edge e sig now).0 ≡ true
    → ((is_zero e.last_at ≡ true) ⊎ (defer_min_interval ≤ℤ now -ℤ e.last_at))
      × ((fire_dual_master_defer_edge e sig now).1.last_at ≡ now)
unfolding fire_dual_master_defer_edge
fires-late e sig now h =
    let late = time_sub_ge now e.last_at defer_min_interval (omega arith) in
    (ground (arith, h, late), ground (arith, h))

keeps_quiet :
    (e : DeferEdge) (sig : String) (now : Time)
    → (fire_dual_master_defer_edge e sig now).0 ≡ false
    → (fire_dual_master_defer_edge e sig now).1.last_at ≡ e.last_at
unfolding fire_dual_master_defer_edge
keeps_quiet e sig now h = ground (arith, h)

defer-fires :
    (e : DeferEdge) (sig : String) (now : Time) (steps : List DeferStep)
    → (fire_dual_master_defer_edge e sig now).0 ≡ true
    → defer_all e (defers sig now ∷ steps)
      ≡ now ∷ defer_all (fire_dual_master_defer_edge e sig now).1 steps
unfolding defer_all
defer-fires e sig now steps h = rw (h, defer_all)

defer-quiet :
    (e : DeferEdge) (sig : String) (now : Time) (steps : List DeferStep)
    → (fire_dual_master_defer_edge e sig now).0 ≡ false
    → defer_all e (defers sig now ∷ steps)
      ≡ defer_all (fire_dual_master_defer_edge e sig now).1 steps
unfolding defer_all
defer-quiet e sig now steps h = rw (h, defer_all)

apart_nil : (e : DeferEdge) → MinuteApart e.last_at (defer_all e [])
unfolding defer_all
apart_nil e = tt

apart_rearmed :
    (e : DeferEdge) (steps : List DeferStep)
    → MinuteApart e.last_at (defer_all (reset_dual_master_defer_edge e) steps)
    → MinuteApart e.last_at (defer_all e (rearms ∷ steps))
unfolding defer_all
apart_rearmed e steps h = h

-- Over any sequence of deferrals and re-armings, whatever their reasons, two events are at least a minute
-- apart.
pub defer_all-MinuteApart :
    (e : DeferEdge) (steps : List DeferStep) → MinuteApart e.last_at (defer_all e steps)
unfolding reset_dual_master_defer_edge
defer_all-MinuteApart e [] = apart_nil e
defer_all-MinuteApart e (rearms ∷ steps) =
    apart_rearmed e steps (defer_all-MinuteApart (reset_dual_master_defer_edge e) steps)
defer_all-MinuteApart e (defers sig now ∷ steps) =
    let rest = defer_all-MinuteApart (fire_dual_master_defer_edge e sig now).1 steps in
    elim (Bool-cases (fire_dual_master_defer_edge e sig now).0) [
      | inl fires ↦
          let (late, stamped) = fires-late e sig now fires in
          rw (defer-fires e sig now steps fires) (
            late,
            subst (λ t. MinuteApart t (defer_all (fire_dual_master_defer_edge e sig now).1 steps))
                stamped rest,
          )
      | inr quiet ↦ rw (defer-quiet e sig now steps quiet) (
          subst (λ t. MinuteApart t (defer_all (fire_dual_master_defer_edge e sig now).1 steps))
            (keeps_quiet e sig now quiet) rest)
    ]
