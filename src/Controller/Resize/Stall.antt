-- ===== src/Controller/Resize/Stall.antt =====
-- A resize that does not move on.
use velkir.Prelude.{ap, ◌∙◌, ◌≡◌, refl, true, false, [], ◌∷◌, Option, none, some, arith}
use velkir.Prelude.Int.{◌≤ℤ◌}
use velkir.Prelude.Time.{Time}
use velkir.PvcResize.{detect, is_stalled, resize_needed}
use velkir.PvcResize.Transitions.{Phase, validated, aborted}
use velkir.Controller.Resize.{
  ResizeStatus, ResizePass, PatchReply, quiet, on_outcome, reconcile_pvc_resize, done,
  pvc_resize_is_stalled, is_pvc_resize_in_flight, maybe_emit_pvc_stuck_event, stuck_patched,
  resize_in, resize_from,
}

resize_from-in_flight :
    (d : ResizePass) (st : Option ResizeStatus) (p : Phase)
    → is_pvc_resize_in_flight (some p) ≡ true
    → resize_from d st (some p) ≡ resize_in d [] p st
unfolding resize_from is_pvc_resize_in_flight
resize_from-in_flight d st aborted h = cc
resize_from-in_flight d st validated h = refl
resize_from-in_flight d st _ h = refl

stalled_of :
    (now t : Time) (st : ResizeStatus)
    → is_pvc_resize_in_flight (some st.phase) ≡ true
    → st.last_transition_at ≡ some t
    → is_stalled t now ≡ true
    → pvc_resize_is_stalled now (some st) ≡ true
unfolding pvc_resize_is_stalled
stalled_of now t st flying since stuck = ground (arith, flying, since, stuck)

reconcile-stalled :
    (d : ResizePass) (st : ResizeStatus)
    → detect d.inputs ≡ resize_needed
    → is_pvc_resize_in_flight (some st.phase) ≡ true
    → pvc_resize_is_stalled d.now (some st) ≡ true
    → reconcile_pvc_resize d (some st) ≡ maybe_emit_pvc_stuck_event d.now d.stuck_reply (some st)
unfolding reconcile_pvc_resize on_outcome resize_in maybe_emit_pvc_stuck_event
reconcile-stalled d st needed flying stuck =
    rw (needed, on_outcome)
      (resize_from-in_flight d (some st) st.phase flying ∙ rw (stuck, resize_in) refl)

reported_now :
    (now : Time) (st : ResizeStatus)
    → st.last_stuck_event_at ≡ none
    → maybe_emit_pvc_stuck_event now done (some st) ≡ record {
      status = some (record st { last_stuck_event_at = some now });
      events = "PVCExpansionStuck" ∷ [];
      is_error = false;
    }
unfolding maybe_emit_pvc_stuck_event stuck_patched
reported_now now st fresh = ground (arith, fresh)

reported_before :
    (now earlier t : Time) (reply : PatchReply) (st : ResizeStatus)
    → st.last_stuck_event_at ≡ some earlier
    → st.last_transition_at ≡ some t
    → t ≤ℤ earlier
    → maybe_emit_pvc_stuck_event now reply (some st) ≡ quiet (some st)
unfolding maybe_emit_pvc_stuck_event
reported_before now earlier t reply st told since order = ground (arith, told, since, order)

-- While the detector still asks for a resize, a phase in flight that has not moved for ten minutes is
-- reported once: a pass whose patch succeeds emits the event and stamps it, keeping the phase, and every
-- further pass in which the phase is still stuck does nothing.
pub reconcile-stuck_once :
    (d again : ResizePass) (st : ResizeStatus) (t : Time)
    → detect d.inputs ≡ resize_needed
    → detect again.inputs ≡ resize_needed
    → is_pvc_resize_in_flight (some st.phase) ≡ true
    → st.last_transition_at ≡ some t
    → st.last_stuck_event_at ≡ none
    → d.stuck_reply ≡ done
    → t ≤ℤ d.now
    → is_stalled t d.now ≡ true
    → is_stalled t again.now ≡ true
    → let told = record st { last_stuck_event_at = some d.now } in
      (reconcile_pvc_resize d (some st)
        ≡ record { status = some told; events = "PVCExpansionStuck" ∷ []; is_error = false })
      × (reconcile_pvc_resize again (some told) ≡ quiet (some told))
reconcile-stuck_once d again st t needed needed' flying since fresh written order stuck stuck' =
    let told : ResizeStatus = record st { last_stuck_event_at = some d.now } in
    (
      reconcile-stalled d st needed flying (stalled_of d.now t st flying since stuck)
          ∙ (ap (λ r. maybe_emit_pvc_stuck_event d.now r (some st)) written
              ∙ reported_now d.now st fresh),
      reconcile-stalled again told needed' flying (stalled_of again.now t told flying since stuck')
          ∙ reported_before again.now d.now t again.stuck_reply told refl since order,
    )
