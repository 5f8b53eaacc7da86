-- ===== src/Controller/Resize/Passes.antt =====
-- The order of the phases in a whole pass.
use mathlib.Core.Path.{subst}
use velkir.Prelude.{
  ◌∙◌, ap, sym, ◌≡◌, ◌⊎◌, refl, inl, inr, true, false, List, [], ◌∷◌, Option, none, some, String,
  if_intro,
}
use velkir.Prelude.Int.{pos, ltb_ℤ}
use velkir.Prelude.Time.{Time}
use velkir.PvcResize.{
  Outcome, detect, no_change, shrink_rejected, expansion_not_supported, resize_needed,
}
use velkir.PvcResize.Transitions.Order.{Follows, stays, starts, retries, gives_up}
use velkir.PvcResize.Transitions.{Phase, validated, aborted}
use velkir.Controller.Resize.{
  ResizeStatus, ResizePass, PatchReply, quiet, done, conflict, failed, current_phase, next_status,
  patched_to, write_status, then_done, resize_in, started, resize_from, settled, on_outcome,
  reconcile_pvc_resize, aborted_wait_remaining, in_phase,
}
use velkir.Controller.Resize.Order.{
  next_status-phase, Moves, write-Moves, clear-Moves, MovesFrom, drive-MovesFrom,
  resize_in-MovesFrom,
}

-- Within one pass the phase moves at most twice: a resize that starts takes its first step at once.
abbrev pub Reaches : Option Phase → Option Phase → Type 0
Reaches p q = Follows p q ⊎ (Follows p (some validated) × Follows (some validated) q)

same-Follows : {p q : Option Phase} → q ≡ p → Follows p q
same-Follows {p} e = subst (Follows p) (sym e) stays

reached :
    (p : Phase) (st r : Option ResizeStatus)
    → Follows (current_phase st) (some p)
    → (p ≡ validated) ⊎ (current_phase st ≡ some p)
    → MovesFrom p st r
    → Reaches (current_phase st) (current_phase r)
reached p st r entry _ (inl same) = inl (same-Follows same)
reached p st r entry (inl e) (inr next) = inr (
  subst (λ x. Follows (current_phase st) (some x)) e entry,
  subst (λ x. Follows (some x) (current_phase r)) e next,
)
reached p st r entry (inr e) (inr next) =
    inl (subst (λ x. Follows x (current_phase r)) (sym e) next)

-- What a write of the phase leaves, if it does not fail.
abbrev Written : Phase → Option ResizeStatus → Option (Option ResizeStatus) → Type 0
Written q st none = Unit
Written q st (some next) = Moves (some q) st (current_phase next)

patched-Written :
    (now : Time) (reply : PatchReply) (q : Phase) (st : Option ResizeStatus)
    → Written q st (patched_to reply (some (next_status now q st)) st)
patched-Written now done q st = inr (ap some (next_status-phase now q st))
patched-Written now conflict q st = inl refl
patched-Written now failed q st = tt

write-Written :
    (now : Time) (reply : PatchReply) (q : Phase) (st : Option ResizeStatus)
    → Written q st (write_status now reply q st)
unfolding write_status
write-Written now reply q st =
    if_intro (Written q st) (in_phase q st) (some st)
      (patched_to reply (some (next_status now q st)) st) (λ _. inl refl)
      (λ _. patched-Written now reply q st)

started-Reaches :
    (d : ResizePass) (st : Option ResizeStatus) (w : Option (Option ResizeStatus))
    → Follows (current_phase st) (some validated)
    → Written validated st w
    → Reaches (current_phase st) (current_phase (started d st w).status)
unfolding started
started-Reaches d st none entry written = inl stays
started-Reaches d st (some next) entry written =
    elim (resize_in-MovesFrom d ("PVCResizeInitiated" ∷ []) validated next) [
      | inr after_it ↦ inr (entry, after_it)
      | inl same ↦ elim written [
        | inl kept ↦ inl (same-Follows (same ∙ kept))
        | inr e ↦ inl (subst (Follows (current_phase st)) (sym (same ∙ e)) entry)
      ]
    ]

begin :
    (d : ResizePass) (st : Option ResizeStatus)
    → Follows (current_phase st) (some validated)
    → Reaches
        (current_phase st)
        (current_phase (started d st (write_status d.now d.start_reply validated st)).status)
begin d st entry = started-Reaches d st _ entry (write-Written d.now d.start_reply validated st)

flying-Reaches :
    (d : ResizePass) (st : ResizeStatus)
    → Reaches (some st.phase) (current_phase (resize_in d [] st.phase (some st)).status)
flying-Reaches d st =
    reached st.phase (some st) _ stays (inr refl) (resize_in-MovesFrom d [] st.phase (some st))

retry-Reaches :
    (d : ResizePass) (st : ResizeStatus)
    → st.phase ≡ aborted
    → Reaches (some st.phase) (current_phase (resize_from d (some st) (some aborted)).status)
unfolding resize_from
retry-Reaches d st e =
    if_intro (λ r. Reaches (some st.phase) (current_phase r.status))
      (ltb_ℤ (pos 0) (aborted_wait_remaining d.now (some st))) (quiet (some st))
      (started d (some st) (write_status d.now d.start_reply validated (some st))) (λ _. inl stays)
      (λ _. begin d (some st) (subst (λ p. Follows (some p) (some validated)) (sym e) retries))

resize_from-Reaches :
    (d : ResizePass) (st : ResizeStatus) (p : Phase)
    → st.phase ≡ p
    → Reaches (some st.phase) (current_phase (resize_from d (some st) (some p)).status)
unfolding resize_from
resize_from-Reaches d st aborted e = retry-Reaches d st e
resize_from-Reaches d st validated e =
    subst (λ p. Reaches (some st.phase) (current_phase (resize_in d [] p (some st)).status)) e
      (flying-Reaches d st)
resize_from-Reaches d st _ e =
    subst (λ p. Reaches (some st.phase) (current_phase (resize_in d [] p (some st)).status)) e
      (flying-Reaches d st)

rejected-Reaches :
    (d : ResizePass) (st : Option ResizeStatus) (events : List String)
    → Reaches (current_phase st) (
        current_phase
          (then_done st [] events true (write_status d.now d.write_reply aborted st)).status)
rejected-Reaches d st events = elim (write-Moves d.now d.write_reply aborted st [] events true) [
  | inl same ↦ inl (same-Follows same)
  | inr e ↦ inl (subst (Follows (current_phase st)) (sym e) gives_up)
]

outcome-Reaches :
    (d : ResizePass) (st : Option ResizeStatus) (o : Outcome)
    → Reaches (current_phase st) (current_phase (on_outcome d st o).status)
unfolding on_outcome settled resize_from
outcome-Reaches d st shrink_rejected = rejected-Reaches d st _
outcome-Reaches d st expansion_not_supported = rejected-Reaches d st _
outcome-Reaches d none no_change = elim (clear-Moves d.write_reply none [] [] false) [
  | inl same ↦ inl (same-Follows same)
  | inr same ↦ inl (same-Follows same)
]
outcome-Reaches d (some st) no_change =
    reached st.phase (some st) _ stays (inr refl) (drive-MovesFrom d st.phase (some st))
outcome-Reaches d none resize_needed = begin d none starts
outcome-Reaches d (some st) resize_needed = resize_from-Reaches d st st.phase refl

-- No phase of a resize is skipped: whatever the detector says and the API server answers, a pass keeps the
-- phase, gives up, or moves it to the next one in the order validated, orphaned, patched, recreated,
-- verified and done; only a pass that starts or retries a resize may take its first step as well.
pub reconcile-Reaches :
    (d : ResizePass) (st : Option ResizeStatus)
    → Reaches (current_phase st) (current_phase (reconcile_pvc_resize d st).status)
unfolding reconcile_pvc_resize
reconcile-Reaches d st = outcome-Reaches d st (detect d.inputs)
