-- ===== src/PvcResize.antt =====
-- internal/pvcresize/detect.go and gating.go: whether a resize is due, when it counts as stuck, and how
-- long an aborted one waits. A quantity is an integer, in a unit that is small enough; a request or a
-- capacity that is missing reads as zero.
pub mod Transitions
pub mod Detection
use velkir.Prelude.{
  ℕ, zero, suc, Bool, true, false, not, ◌||◌, List, [], ◌∷◌, Option, some, String, if◌then◌else◌,
}
use velkir.Prelude.Int.{ℤ, pos, ◌-ℤ◌, ltb_ℤ, leb_ℤ, eq_ℤ}
use velkir.Prelude.Time.{Time, Duration, time_sub, is_zero}

abbrev pub Quantity : Type 0
Quantity = ℤ

-- A claim: the storage that it requests, and its capacity.
pub record Pvc : Type 0 where
  pub name : String
  pub requested : Quantity
  pub capacity : Quantity

pub data Outcome : Type 0 where
  no_change shrink_rejected expansion_not_supported resize_needed : Outcome

-- The class is `none` if it was not found, and its permission `none` if it is not set.
pub record Inputs : Type 0 where
  pub desired_size : Quantity
  pub pvcs : List Pvc
  pub storage_class : Option (Option Bool)

unfoldable pub smaller : Quantity → List Pvc → Quantity
smaller smallest [] = smallest
smaller smallest (p ∷ ps) =
    smaller (if ltb_ℤ p.requested smallest then p.requested else smallest) ps

unfoldable pub smallest_current_size : List Pvc → Quantity
smallest_current_size [] = pos 0
smallest_current_size (p ∷ ps) = smaller p.requested ps

abbrev pub allows_expansion : Option (Option Bool) → Bool
allows_expansion (some (some b)) = b
allows_expansion _ = false

abbrev pub is_empty : List Pvc → Bool
is_empty [] = true
is_empty (p ∷ ps) = false

unfoldable pub detect : Inputs → Outcome
detect i =
    let current = smallest_current_size i.pvcs in
    if eq_ℤ i.desired_size (pos 0) || is_empty i.pvcs
    then no_change
    else if eq_ℤ i.desired_size current
    then no_change
    else if ltb_ℤ i.desired_size current
    then shrink_rejected
    else if not (allows_expansion i.storage_class)
    then expansion_not_supported
    else resize_needed

abbrev pub stall_threshold : Duration
stall_threshold = pos 600_000_000_000

unfoldable pub stall_elapsed : Time → Time → Duration
stall_elapsed last_transition now =
    if is_zero last_transition then pos 0 else time_sub now last_transition

unfoldable pub is_stalled : Time → Time → Bool
is_stalled last_transition now = leb_ℤ stall_threshold (stall_elapsed last_transition now)

-- The table of backoffs, from its index on.
abbrev pub backoff_at : ℕ → Duration
backoff_at zero = pos 60_000_000_000
backoff_at (suc zero) = pos 300_000_000_000
backoff_at (suc (suc zero)) = pos 900_000_000_000
backoff_at _ = pos 3_600_000_000_000

-- `max(int(attempt)-1, 0)`.
abbrev pub backoff_index : ℤ → ℕ
backoff_index (pos (suc n)) = n
backoff_index _ = 0

unfoldable pub backoff_for_attempt : ℤ → Duration
backoff_for_attempt attempt = backoff_at (backoff_index attempt)

unfoldable pub backoff_remaining : Time → ℤ → Time → Duration
backoff_remaining last_transition attempt now =
    if is_zero last_transition
    then pos 0
    else if leb_ℤ (backoff_for_attempt attempt) (time_sub now last_transition)
    then pos 0
    else backoff_for_attempt attempt -ℤ time_sub now last_transition
