-- ===== src/Controller/Resize.antt =====
-- internal/controller/valkey_controller_pvcresize.go: one pass of the resize of the claims, its status and
-- its events. The resource has persistence; what the API server answers is a parameter, and of the
-- texts only the events' reasons are kept.
pub mod Stall
pub mod Order
pub mod Passes
use velkir.Prelude.{
  ℕ, ◌+◌, Bool, true, false, not, ◌&&◌, List, [], ◌∷◌, Option, none, some, String, ◌==◌,
  if◌then◌else◌,
}
use velkir.Prelude.Int.{ℤ, pos, negsuc, ◌+ℤ◌, eq_ℤ, ltb_ℤ}
use velkir.Prelude.Time.{Time, Duration, before}
use velkir.PvcResize.{
  Outcome, Inputs, detect, is_stalled, backoff_remaining, no_change, shrink_rejected,
  expansion_not_supported, resize_needed,
}
use velkir.PvcResize.Transitions.{
  Phase, validated, sts_orphaned, pvcs_patched, sts_recreated, verified, aborted, Step, requeue,
  advance, abort, complete, Answers, step_of,
}

-- `status.rollout.pvcResize`; an attempt is an int32.
pub record ResizeStatus : Type 0 where
  pub phase : Phase
  pub started_at : Option Time
  pub last_transition_at : Option Time
  pub attempt : ℤ
  pub last_stuck_event_at : Option Time

abbrev pub phase_code : Phase → ℕ
phase_code validated = 0
phase_code sts_orphaned = 1
phase_code pvcs_patched = 2
phase_code sts_recreated = 3
phase_code verified = 4
phase_code aborted = 5

abbrev pub current_phase : Option ResizeStatus → Option Phase
current_phase none = none
current_phase (some st) = some st.phase

unfoldable pub is_pvc_resize_in_flight : Option Phase → Bool
is_pvc_resize_in_flight none = false
is_pvc_resize_in_flight (some aborted) = false
is_pvc_resize_in_flight (some p) = true

unfoldable pub is_pvc_resize_guarding_phase2 : Option Phase → Bool
is_pvc_resize_guarding_phase2 (some validated) = true
is_pvc_resize_guarding_phase2 (some sts_orphaned) = true
is_pvc_resize_guarding_phase2 (some pvcs_patched) = true
is_pvc_resize_guarding_phase2 _ = false

-- `attempt + 1` on an int32.
unfoldable pub next_attempt : ℤ → ℤ
next_attempt a = if eq_ℤ a (pos 2_147_483_647) then negsuc 2_147_483_647 else a +ℤ pos 1

unfoldable pub next_status : Time → Phase → Option ResizeStatus → ResizeStatus
next_status now p none = record {
  phase = p;
  started_at = some now;
  last_transition_at = some now;
  attempt = pos 1;
  last_stuck_event_at = none;
}
next_status now p (some prior) = elim prior.started_at [
  | none ↦ record {
    phase = p;
    started_at = some now;
    last_transition_at = some now;
    attempt = pos 1;
    last_stuck_event_at = none;
  }
  | some t ↦ record {
    phase = p;
    started_at = some t;
    last_transition_at = some now;
    attempt =
        if phase_code p == phase_code validated && not (phase_code prior.phase == phase_code p)
        then next_attempt prior.attempt
        else prior.attempt;
    last_stuck_event_at = none;
  }
]

-- A patch of the status: done, lost to another writer, or failed.
pub data PatchReply : Type 0 where
  done conflict failed : PatchReply

-- The status after a write, or `none` for an error.
abbrev pub patched_to :
    PatchReply → Option ResizeStatus → Option ResizeStatus → Option (Option ResizeStatus)
patched_to done next prior = some next
patched_to conflict next prior = some prior
patched_to failed next prior = none

abbrev pub in_phase : Phase → Option ResizeStatus → Bool
in_phase p none = false
in_phase p (some st) = phase_code st.phase == phase_code p

unfoldable pub write_status :
    Time → PatchReply → Phase → Option ResizeStatus → Option (Option ResizeStatus)
write_status now reply p st =
    if in_phase p st then some st else patched_to reply (some (next_status now p st)) st

unfoldable pub clear_status : PatchReply → Option ResizeStatus → Option (Option ResizeStatus)
clear_status reply none = some none
clear_status reply (some st) = patched_to reply none (some st)

unfoldable pub pvc_resize_is_stalled : Time → Option ResizeStatus → Bool
pvc_resize_is_stalled now none = false
pvc_resize_is_stalled now (some st) =
    is_pvc_resize_in_flight (some st.phase)
    && elim st.last_transition_at [ none ↦ false | some t ↦ is_stalled t now ]

unfoldable pub aborted_wait_remaining : Time → Option ResizeStatus → Duration
aborted_wait_remaining now none = pos 0
aborted_wait_remaining now (some st) = elim st.last_transition_at [
  | none ↦ pos 0
  | some t ↦ backoff_remaining t st.attempt now
]

-- What a pass leaves: the status, the reasons of its events, and whether it returned an error.
pub record Done : Type 0 where
  pub status : Option ResizeStatus
  pub events : List String
  pub is_error : Bool

abbrev pub quiet : Option ResizeStatus → Done
quiet st = record { status = st; events = []; is_error = false }

-- A write with the events that follow it; an error leaves the status and drops the later events.
unfoldable pub then_done :
    Option ResizeStatus → List String → List String → Bool → Option (Option ResizeStatus) → Done
then_done st before_it after_it fails none = record {
  status = st;
  events = before_it;
  is_error = true;
}
then_done st before_it after_it fails (some next) = record {
  status = next;
  events = after_it;
  is_error = fails;
}

-- What one pass meets: the clock, the replies to the patches of the status, and the API server's answers.
pub record ResizePass : Type 0 where
  pub now : Time
  pub inputs : Inputs
  pub start_reply : PatchReply
  pub stuck_reply : PatchReply
  pub write_reply : PatchReply
  pub answers : Answers

-- The second half of `drivePVCResize`.
unfoldable pub apply_step : ResizePass → Step → Option ResizeStatus → Done
apply_step d requeue st = quiet st
apply_step d (advance p) st = then_done st [] [] false (write_status d.now d.write_reply p st)
apply_step d (abort reason) st =
    then_done st (reason ∷ []) (reason ∷ []) true (write_status d.now d.write_reply aborted st)
apply_step d (complete reason) st =
    then_done st (reason ∷ []) (reason ∷ []) false (clear_status d.write_reply st)

unfoldable pub drive_pvc_resize : ResizePass → Phase → Option ResizeStatus → Done
drive_pvc_resize d aborted st = quiet st
drive_pvc_resize d p st = apply_step d (step_of d.answers d.inputs.desired_size p) st

abbrev pub stuck_known : ResizeStatus → Bool
stuck_known st = elim st.last_stuck_event_at [
  | none ↦ false
  | some e ↦ elim st.last_transition_at [ none ↦ true | some t ↦ not (before e t) ]
]

unfoldable pub stuck_patched : Time → ResizeStatus → PatchReply → Done
stuck_patched now st done = record {
  status = some (record st { last_stuck_event_at = some now });
  events = "PVCExpansionStuck" ∷ [];
  is_error = false;
}
stuck_patched now st conflict = quiet (some st)
stuck_patched now st failed = record { status = some st; events = []; is_error = true }

unfoldable pub maybe_emit_pvc_stuck_event : Time → PatchReply → Option ResizeStatus → Done
maybe_emit_pvc_stuck_event now reply none = quiet none
maybe_emit_pvc_stuck_event now reply (some st) =
    if stuck_known st then quiet (some st) else stuck_patched now st reply

abbrev pub prepend : List String → Done → Done
prepend events r = elim events [ [] ↦ r | e ∷ es ↦ record r { events = e ∷ r.events } ]

-- The tail of the case of a needed resize, in this phase.
unfoldable pub resize_in : ResizePass → List String → Phase → Option ResizeStatus → Done
resize_in d events p st = prepend events (
    if pvc_resize_is_stalled d.now st
    then maybe_emit_pvc_stuck_event d.now d.stuck_reply st
    else drive_pvc_resize d p st)

unfoldable pub started : ResizePass → Option ResizeStatus → Option (Option ResizeStatus) → Done
started d st none = record { status = st; events = []; is_error = true }
started d st (some next) = resize_in d ("PVCResizeInitiated" ∷ []) validated next

unfoldable pub resize_from : ResizePass → Option ResizeStatus → Option Phase → Done
resize_from d st none = started d st (write_status d.now d.start_reply validated st)
resize_from d st (some aborted) =
    if ltb_ℤ (pos 0) (aborted_wait_remaining d.now st)
    then quiet st
    else started d st (write_status d.now d.start_reply validated st)
resize_from d st (some p) = resize_in d [] p st

unfoldable pub settled : ResizePass → Option ResizeStatus → Option Phase → Done
settled d st none = then_done st [] [] false (clear_status d.write_reply st)
settled d st (some p) = drive_pvc_resize d p st

unfoldable pub on_outcome : ResizePass → Option ResizeStatus → Outcome → Done
on_outcome d st no_change = settled d st (current_phase st)
on_outcome d st shrink_rejected =
    then_done st [] ("PVCExpansionShrinkRejected" ∷ []) true
      (write_status d.now d.write_reply aborted st)
on_outcome d st expansion_not_supported =
    then_done st [] ("PVCExpansionNotSupported" ∷ []) true
      (write_status d.now d.write_reply aborted st)
on_outcome d st resize_needed = resize_from d st (current_phase st)

-- `reconcilePVCResize`, once the claims and the class are read.
unfoldable pub reconcile_pvc_resize : ResizePass → Option ResizeStatus → Done
reconcile_pvc_resize d st = on_outcome d st (detect d.inputs)
