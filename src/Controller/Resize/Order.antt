-- ===== src/Controller/Resize/Order.antt =====
-- The order of the phases: what a write and a step of the transitions do to the phase.
use mathlib.Core.Path.{subst}
use velkir.Prelude.{
  Option-cases, ap, sym, ◌≡◌, ◌⊎◌, refl, inl, inr, Bool, true, false, List, [], ◌∷◌, Option, none,
  some, String, arith, if_intro,
}
use velkir.Prelude.Time.{Time}
use velkir.PvcResize.Transitions.Order.{Follows, gives_up, StepFollows, step_of-StepFollows}
use velkir.PvcResize.Transitions.{
  Phase, validated, sts_orphaned, pvcs_patched, sts_recreated, verified, aborted, Step, requeue,
  advance, abort, complete,
}
use velkir.Controller.Resize.{
  ResizeStatus, ResizePass, PatchReply, Done, done, conflict, failed, current_phase, next_status,
  patched_to, write_status, clear_status, then_done, apply_step, drive_pvc_resize, stuck_patched,
  maybe_emit_pvc_stuck_event, resize_in, pvc_resize_is_stalled, prepend, in_phase,
}

pub next_status-phase :
    (now : Time) (q : Phase) (st : Option ResizeStatus) → (next_status now q st).phase ≡ q
unfolding next_status
next_status-phase now q none = refl
next_status-phase now q (some prior) = elim (Option-cases prior.started_at) [
  | inl blank ↦ ground (arith, blank)
  | inr (t, since) ↦ ground (arith, since)
]

-- The status keeps its phase, or moves to this one.
abbrev pub Moves : Option Phase → Option ResizeStatus → Option Phase → Type 0
Moves q st r = (r ≡ current_phase st) ⊎ (r ≡ q)

patched-Moves :
    (now : Time) (reply : PatchReply) (q : Phase) (st : Option ResizeStatus) (b a : List String)
    (f : Bool)
    → Moves (some q) st (
        current_phase
          (then_done st b a f (patched_to reply (some (next_status now q st)) st)).status)
unfolding then_done
patched-Moves now done q st b a f = inr (ap some (next_status-phase now q st))
patched-Moves now conflict q st b a f = inl refl
patched-Moves now failed q st b a f = inl refl

pub write-Moves :
    (now : Time) (reply : PatchReply) (q : Phase) (st : Option ResizeStatus) (b a : List String)
    (f : Bool)
    → Moves (some q) st (current_phase (then_done st b a f (write_status now reply q st)).status)
unfolding write_status then_done
write-Moves now reply q st b a f =
    if_intro (λ x. Moves (some q) st (current_phase (then_done st b a f x).status)) (in_phase q st)
      (some st) (patched_to reply (some (next_status now q st)) st) (λ _. inl refl)
      (λ _. patched-Moves now reply q st b a f)

pub clear-Moves :
    (reply : PatchReply) (st : Option ResizeStatus) (b a : List String) (f : Bool)
    → Moves none st (current_phase (then_done st b a f (clear_status reply st)).status)
unfolding clear_status then_done
clear-Moves reply none b a f = inl refl
clear-Moves done (some st) b a f = inr refl
clear-Moves conflict (some st) b a f = inl refl
clear-Moves failed (some st) b a f = inl refl

-- The status keeps its phase, or has one that follows this phase.
abbrev pub MovesFrom : Phase → Option ResizeStatus → Option ResizeStatus → Type 0
MovesFrom p st r = (current_phase r ≡ current_phase st) ⊎ Follows (some p) (current_phase r)

moved :
    (p : Phase) (q : Option Phase) (st r : Option ResizeStatus)
    → Follows (some p) q
    → Moves q st (current_phase r)
    → MovesFrom p st r
moved p q st r next (inl same) = inl same
moved p q st r next (inr e) = inr (subst (Follows (some p)) (sym e) next)

apply_step-MovesFrom :
    (d : ResizePass) (p : Phase) (s : Step) (st : Option ResizeStatus)
    → StepFollows p s
    → MovesFrom p st (apply_step d s st).status
unfolding apply_step
apply_step-MovesFrom d p requeue st next = inl refl
apply_step-MovesFrom d p (advance q) st next =
    moved p (some q) st _ next (write-Moves d.now d.write_reply q st [] [] false)
apply_step-MovesFrom d p (abort reason) st next =
    moved p (some aborted) st _ gives_up
      (write-Moves d.now d.write_reply aborted st (reason ∷ []) (reason ∷ []) true)
apply_step-MovesFrom d p (complete reason) st next =
    moved p none st _ next (clear-Moves d.write_reply st (reason ∷ []) (reason ∷ []) false)

pub drive-MovesFrom :
    (d : ResizePass) (p : Phase) (st : Option ResizeStatus)
    → MovesFrom p st (drive_pvc_resize d p st).status
unfolding drive_pvc_resize
drive-MovesFrom d aborted st = inl refl
drive-MovesFrom d validated st =
    apply_step-MovesFrom d validated _ st
      (step_of-StepFollows d.answers d.inputs.desired_size validated)
drive-MovesFrom d sts_orphaned st =
    apply_step-MovesFrom d sts_orphaned _ st
      (step_of-StepFollows d.answers d.inputs.desired_size sts_orphaned)
drive-MovesFrom d pvcs_patched st =
    apply_step-MovesFrom d pvcs_patched _ st
      (step_of-StepFollows d.answers d.inputs.desired_size pvcs_patched)
drive-MovesFrom d sts_recreated st =
    apply_step-MovesFrom d sts_recreated _ st
      (step_of-StepFollows d.answers d.inputs.desired_size sts_recreated)
drive-MovesFrom d verified st =
    apply_step-MovesFrom d verified _ st
      (step_of-StepFollows d.answers d.inputs.desired_size verified)

stuck_event-phase :
    (now : Time) (reply : PatchReply) (st : Option ResizeStatus)
    → current_phase (maybe_emit_pvc_stuck_event now reply st).status ≡ current_phase st
unfolding maybe_emit_pvc_stuck_event stuck_patched
stuck_event-phase now reply none = refl
stuck_event-phase now done (some st) = ground arith
stuck_event-phase now conflict (some st) = ground arith
stuck_event-phase now failed (some st) = ground arith

prepend-status : (events : List String) (r : Done) → (prepend events r).status ≡ r.status
prepend-status [] r = refl
prepend-status (e ∷ es) r = refl

pub resize_in-MovesFrom :
    (d : ResizePass) (events : List String) (p : Phase) (st : Option ResizeStatus)
    → MovesFrom p st (resize_in d events p st).status
unfolding resize_in
resize_in-MovesFrom d events p st = rw (prepend-status events _) (
    if_intro (λ r. MovesFrom p st r.status) (pvc_resize_is_stalled d.now st)
      (maybe_emit_pvc_stuck_event d.now d.stuck_reply st) (drive_pvc_resize d p st)
      (λ _. inl (stuck_event-phase d.now d.stuck_reply st)) (λ _. drive-MovesFrom d p st))
