-- ===== src/PvcResize/Transitions/Order.antt =====
-- The order of the phases.
use velkir.Prelude.{List, [], ◌∷◌, Option, none, some, if_intro}
use velkir.Prelude.Int.{leb_ℤ, ltb_ℤ}
use velkir.PvcResize.{Quantity, Pvc}
use velkir.PvcResize.Transitions.{
  Phase, validated, sts_orphaned, pvcs_patched, sts_recreated, verified, aborted, Step, requeue,
  advance, abort, complete, Answers, StsRead, read_failed, absent, present, DeleteReply, deleted,
  already_gone, delete_failed, after_delete, from_validated, PatchReply, patched, vanished, refused,
  patch_failed, patch_all, from_sts_orphaned, from_pvcs_patched, all_expanded, from_sts_recreated,
  templates_grown, from_verified, desired_replicas, step_of,
}

-- One move of the phase, where `none` is no resize at all.
pub data Follows : Option Phase → Option Phase → Type 0 where
  stays : {p : Option Phase} → Follows p p
  starts : Follows none (some validated)
  retries : Follows (some aborted) (some validated)
  orphans : Follows (some validated) (some sts_orphaned)
  patches : Follows (some sts_orphaned) (some pvcs_patched)
  recreates : Follows (some pvcs_patched) (some sts_recreated)
  verifies : Follows (some sts_recreated) (some verified)
  completes : Follows (some verified) none
  gives_up : {p : Option Phase} → Follows p (some aborted)

-- What a step may do in a phase.
abbrev pub StepFollows : Phase → Step → Type 0
StepFollows p requeue = Unit
StepFollows p (advance q) = Follows (some p) (some q)
StepFollows p (abort reason) = Unit
StepFollows p (complete reason) = Follows (some p) none

patch_one-StepFollows :
    (r : PatchReply) (p : Pvc) (ps : List Pvc) (desired : Quantity) (rest : List Pvc × Step)
    → StepFollows sts_orphaned rest.1
    → StepFollows sts_orphaned
        (elim r as (λ _. List Pvc × Step) [
          | patched ↦ (record p { requested = desired } ∷ rest.0, rest.1)
          | vanished ↦ (rest.0, rest.1)
          | refused ↦ (p ∷ ps, abort "PVCExpansionFailed")
          | patch_failed ↦ (p ∷ ps, requeue)
        ]).1
patch_one-StepFollows patched p ps desired rest h = h
patch_one-StepFollows vanished p ps desired rest h = h
patch_one-StepFollows refused p ps desired rest h = tt
patch_one-StepFollows patch_failed p ps desired rest h = tt

patch_all-StepFollows :
    (reply : Pvc → PatchReply) (desired : Quantity) (ps : List Pvc)
    → StepFollows sts_orphaned (patch_all reply desired ps).1
unfolding patch_all
patch_all-StepFollows reply desired [] = patches
patch_all-StepFollows reply desired (p ∷ ps) =
    let (rest, step) = patch_all reply desired ps in
    if_intro {A = List Pvc × Step} (λ x. StepFollows sts_orphaned x.1) (leb_ℤ desired p.requested)
      (p ∷ rest, step)
      (elim (reply p) as (λ _. List Pvc × Step) [
        | patched ↦ (record p { requested = desired } ∷ rest, step)
        | vanished ↦ (rest, step)
        | refused ↦ (p ∷ ps, abort "PVCExpansionFailed")
        | patch_failed ↦ (p ∷ ps, requeue)
      ])
      (λ _. patch_all-StepFollows reply desired ps)
      (λ _.
        patch_one-StepFollows (reply p) p ps desired (rest, step)
          (patch_all-StepFollows reply desired ps))

from_validated-StepFollows :
    (r : StsRead) (reply : DeleteReply) → StepFollows validated (from_validated r reply)
unfolding from_validated after_delete
from_validated-StepFollows absent reply = orphans
from_validated-StepFollows read_failed reply = tt
from_validated-StepFollows (present sts) deleted = orphans
from_validated-StepFollows (present sts) already_gone = orphans
from_validated-StepFollows (present sts) delete_failed = tt

from_sts_orphaned-StepFollows :
    (r : StsRead) (listed : Option (List Pvc)) (reply : Pvc → PatchReply) (desired : Quantity)
    → StepFollows sts_orphaned (from_sts_orphaned r listed reply desired).1
unfolding from_sts_orphaned
from_sts_orphaned-StepFollows absent (some ps) reply desired =
    patch_all-StepFollows reply desired ps
from_sts_orphaned-StepFollows absent none reply desired = tt
from_sts_orphaned-StepFollows read_failed (some ps) reply desired = tt
from_sts_orphaned-StepFollows read_failed none reply desired = tt
from_sts_orphaned-StepFollows (present sts) (some ps) reply desired = tt
from_sts_orphaned-StepFollows (present sts) none reply desired = tt

from_pvcs_patched-StepFollows :
    (listed : Option (List Pvc)) (desired : Quantity)
    → StepFollows pvcs_patched (from_pvcs_patched listed desired)
unfolding from_pvcs_patched
from_pvcs_patched-StepFollows none desired = tt
from_pvcs_patched-StepFollows (some []) desired = tt
from_pvcs_patched-StepFollows (some (p ∷ ps)) desired =
    if_intro (StepFollows pvcs_patched) (all_expanded desired (p ∷ ps)) (advance sts_recreated)
      requeue (λ _. recreates) (λ _. tt)

from_sts_recreated-StepFollows :
    (r : StsRead) (desired : Quantity) → StepFollows sts_recreated (from_sts_recreated r desired)
unfolding from_sts_recreated
from_sts_recreated-StepFollows read_failed desired = tt
from_sts_recreated-StepFollows absent desired = tt
from_sts_recreated-StepFollows (present sts) desired =
    if_intro (StepFollows sts_recreated) (templates_grown desired sts.templates) (advance verified)
      requeue (λ _. verifies) (λ _. tt)

from_verified-StepFollows : (r : StsRead) → StepFollows verified (from_verified r)
unfolding from_verified
from_verified-StepFollows read_failed = tt
from_verified-StepFollows absent = tt
from_verified-StepFollows (present sts) =
    if_intro (StepFollows verified) (ltb_ℤ sts.ready_replicas (desired_replicas sts.replicas))
      requeue (complete "PVCResizeComplete") (λ _. tt) (λ _. completes)

-- The transition of a phase moves it to the next one at most.
pub step_of-StepFollows :
    (a : Answers) (desired : Quantity) (p : Phase) → StepFollows p (step_of a desired p)
unfolding step_of
step_of-StepFollows a desired validated = from_validated-StepFollows a.sts a.delete_reply
step_of-StepFollows a desired sts_orphaned =
    from_sts_orphaned-StepFollows a.sts a.listed a.patch_reply desired
step_of-StepFollows a desired pvcs_patched = from_pvcs_patched-StepFollows a.listed desired
step_of-StepFollows a desired sts_recreated = from_sts_recreated-StepFollows a.sts desired
step_of-StepFollows a desired verified = from_verified-StepFollows a.sts
step_of-StepFollows a desired aborted = tt
