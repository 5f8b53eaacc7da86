-- ===== src/Sentinel/SurgeryGuard/Quiet.antt =====
-- The pre-surgery checks as statements about each member of the cohort.
use velkir.Prelude.{
  or_iff, and_iff, ◌≡◌, ◌↔◌, ◌≢◌, ◌⊎◌, refl, inl, inr, Bool, true, false, ◌&&◌, ◌||◌, List, [], ◌∷◌,
  Option, none, some, any, all, All, arith,
}
use velkir.Prelude.Int.{ℤ, leb_ℤ}
use velkir.Sentinel.Types.{Endpoint}
use velkir.Sentinel.SurgeryGuard.{
  MasterRead, failed, replied, is_quiet, epoch_of, raise, cohort_loop, reads_of, holds_frontier,
  destination_cohort_quiet,
}

-- Whether a read shows an epoch at the frontier of the classification.
unfoldable pub at_frontier : ℤ → MasterRead → Bool
at_frontier agree_epoch (replied flags (some e)) = leb_ℤ agree_epoch e
at_frontier agree_epoch _ = false

raise-holds :
    (frontier : Option ℤ) (r : MasterRead) (agree_epoch : ℤ)
    → holds_frontier (raise frontier (epoch_of r)) agree_epoch
      ≡ holds_frontier frontier agree_epoch || at_frontier agree_epoch r
unfolding holds_frontier at_frontier
raise-holds none failed agree_epoch = refl
raise-holds none (replied flags none) agree_epoch = refl
raise-holds none (replied flags (some e)) agree_epoch = refl
raise-holds (some m) failed agree_epoch = ground arith
raise-holds (some m) (replied flags none) agree_epoch = ground arith
raise-holds (some m) (replied flags (some e)) agree_epoch = ground arith

cohort_loop-any :
    (rs : List MasterRead) (frontier : Option ℤ) (agree_epoch : ℤ)
    → cohort_loop rs frontier agree_epoch
      ≡ all is_quiet rs && (holds_frontier frontier agree_epoch || any (at_frontier agree_epoch) rs)
unfolding cohort_loop holds_frontier at_frontier
cohort_loop-any [] frontier agree_epoch = ground arith
cohort_loop-any (r ∷ rs) frontier agree_epoch = ground (
  arith,
  cohort_loop-any rs (raise frontier (epoch_of r)) agree_epoch,
  raise-holds frontier r agree_epoch,
)

-- Every read of the cohort proves its member to be outside an election.
abbrev pub AllQuiet : List MasterRead → Type 0
AllQuiet = All (λ r. is_quiet r ≡ true)

-- Some read of the cohort shows an epoch that is no older than the one agreed on.
abbrev pub SomeAtFrontier : ℤ → List MasterRead → Type 0
SomeAtFrontier agree_epoch [] = ⊥
SomeAtFrontier agree_epoch (r ∷ rs) =
    (at_frontier agree_epoch r ≡ true) ⊎ SomeAtFrontier agree_epoch rs

all-AllQuiet : (rs : List MasterRead) → (all is_quiet rs ≡ true) ↔ AllQuiet rs
all-AllQuiet [] = (λ h. tt, λ h. refl)
all-AllQuiet (r ∷ rs) =
    let (apart, together) = and_iff (is_quiet r) (all is_quiet rs) in
    let (out, into) = all-AllQuiet rs in
    (λ h. ((apart h).0, out (apart h).1), λ h. together (h.0, into h.1))

any-SomeAtFrontier :
    (agree_epoch : ℤ) (rs : List MasterRead)
    → (any (at_frontier agree_epoch) rs ≡ true) ↔ SomeAtFrontier agree_epoch rs
any-SomeAtFrontier agree_epoch [] = (λ h. cc, λ h. absurd h)
any-SomeAtFrontier agree_epoch (r ∷ rs) =
    let (apart, together) = or_iff (at_frontier agree_epoch r) (any (at_frontier agree_epoch) rs) in
    let (out, into) = any-SomeAtFrontier agree_epoch rs in
    (
      λ h. elim (apart h) [ inl here ↦ inl here | inr there ↦ inr (out there) ],
      λ h. elim h [ inl here ↦ together (inl here) | inr there ↦ together (inr (into there)) ],
    )

cohort_loop-safe :
    (rs : List MasterRead) (agree_epoch : ℤ)
    → (cohort_loop rs none agree_epoch ≡ true) ↔ (AllQuiet rs × SomeAtFrontier agree_epoch rs)
unfolding holds_frontier
cohort_loop-safe rs agree_epoch =
    let (apart, together) = and_iff (all is_quiet rs) (any (at_frontier agree_epoch) rs) in
    rw (cohort_loop-any rs none agree_epoch) (
      λ h. ((all-AllQuiet rs).0 (apart h).0, (any-SomeAtFrontier agree_epoch rs).0 (apart h).1),
      λ h. together ((all-AllQuiet rs).1 h.0, (any-SomeAtFrontier agree_epoch rs).1 h.1),
    )

-- The destination of a surgery is safe exactly when its cohort is not empty, every member answered
-- with flags that show no election, and some member still holds the agreed epoch or a later one: a
-- single member that lags behind does not disarm the surgery.
pub destination_safe :
    (read : Endpoint → MasterRead) (cohort : List Endpoint) (agree_epoch : ℤ)
    → (destination_cohort_quiet read cohort agree_epoch ≡ true) ↔ (
        (cohort ≢ [])
        × AllQuiet (reads_of read cohort)
        × SomeAtFrontier agree_epoch (reads_of read cohort))
unfolding destination_cohort_quiet
destination_safe read [] agree_epoch = (λ h. cc, λ h. absurd (h.0 refl))
destination_safe read (ep ∷ eps) agree_epoch =
    let (out, into) = cohort_loop-safe (reads_of read (ep ∷ eps)) agree_epoch in
    (λ h. (λ e. cc, (out h).0, (out h).1), λ h. into (h.1, h.2))
