-- ===== src/PvcResize/Transitions.antt =====
-- internal/pvcresize/transitions.go: one function for each phase. What the API server answers is a
-- parameter. Texts and waits are left out: a step says what the controller does next.
pub mod Growth
pub mod Order
use velkir.Prelude.{Bool, true, false, List, [], ◌∷◌, Option, none, some, String, if◌then◌else◌}
use velkir.Prelude.Int.{ℤ, pos, ltb_ℤ, leb_ℤ}
use velkir.PvcResize.{Quantity, Pvc}

pub data Phase : Type 0 where
  validated sts_orphaned pvcs_patched sts_recreated verified aborted : Phase

-- `requeue`, `advance` with the next phase, `abort` and `complete` with the reason of their event.
pub data Step : Type 0 where
  requeue : Step
  advance : Phase → Step
  abort : String → Step
  complete : String → Step

-- The StatefulSet: spec.replicas, status.readyReplicas and the sizes that its claim templates request.
pub record Sts : Type 0 where
  pub replicas : Option ℤ
  pub ready_replicas : ℤ
  pub templates : List Quantity

pub data StsRead : Type 0 where
  read_failed absent : StsRead
  present : Sts → StsRead

pub data DeleteReply : Type 0 where
  deleted already_gone delete_failed : DeleteReply

unfoldable pub after_delete : DeleteReply → Step
after_delete delete_failed = requeue
after_delete _ = advance sts_orphaned

unfoldable pub from_validated : StsRead → DeleteReply → Step
from_validated absent reply = advance sts_orphaned
from_validated read_failed reply = requeue
from_validated (present sts) reply = after_delete reply

pub data PatchReply : Type 0 where
  patched vanished refused patch_failed : PatchReply

-- The claims after the loop of patches, and the step.
unfoldable pub patch_all : (Pvc → PatchReply) → Quantity → List Pvc → List Pvc × Step
patch_all reply desired [] = ([], advance pvcs_patched)
patch_all reply desired (p ∷ ps) =
    let (rest, step) = patch_all reply desired ps in
    if leb_ℤ desired p.requested then (p ∷ rest, step) else elim (reply p) [
      | patched ↦ (record p { requested = desired } ∷ rest, step)
      | vanished ↦ (rest, step)
      | refused ↦ (p ∷ ps, abort "PVCExpansionFailed")
      | patch_failed ↦ (p ∷ ps, requeue)
    ]

-- The claims that were listed, and what becomes of them; `none` if the list fails.
unfoldable pub from_sts_orphaned :
    StsRead → Option (List Pvc) → (Pvc → PatchReply) → Quantity → List Pvc × Step
from_sts_orphaned absent (some ps) reply desired = patch_all reply desired ps
from_sts_orphaned absent none reply desired = ([], requeue)
from_sts_orphaned _ (some ps) reply desired = (ps, requeue)
from_sts_orphaned _ none reply desired = ([], requeue)

unfoldable pub all_expanded : Quantity → List Pvc → Bool
all_expanded desired [] = true
all_expanded desired (p ∷ ps) = if ltb_ℤ p.capacity desired then false else all_expanded desired ps

unfoldable pub from_pvcs_patched : Option (List Pvc) → Quantity → Step
from_pvcs_patched none desired = requeue
from_pvcs_patched (some []) desired = abort "PVCMissing"
from_pvcs_patched (some (p ∷ ps)) desired =
    if all_expanded desired (p ∷ ps) then advance sts_recreated else requeue

unfoldable pub templates_grown : Quantity → List Quantity → Bool
templates_grown desired [] = true
templates_grown desired (q ∷ qs) = if ltb_ℤ q desired then false else templates_grown desired qs

unfoldable pub from_sts_recreated : StsRead → Quantity → Step
from_sts_recreated (present sts) desired =
    if templates_grown desired sts.templates then advance verified else requeue
from_sts_recreated _ desired = requeue

abbrev pub desired_replicas : Option ℤ → ℤ
desired_replicas none = pos 0
desired_replicas (some n) = n

unfoldable pub from_verified : StsRead → Step
from_verified (present sts) =
    if ltb_ℤ sts.ready_replicas (desired_replicas sts.replicas)
    then requeue
    else complete "PVCResizeComplete"
from_verified _ = requeue

-- What the API server answers in one pass.
pub record Answers : Type 0 where
  pub sts : StsRead
  pub delete_reply : DeleteReply
  pub listed : Option (List Pvc)
  pub patch_reply : Pvc → PatchReply

-- The transition of each phase; the aborted phase has none.
unfoldable pub step_of : Answers → Quantity → Phase → Step
step_of a desired validated = from_validated a.sts a.delete_reply
step_of a desired sts_orphaned = (from_sts_orphaned a.sts a.listed a.patch_reply desired).1
step_of a desired pvcs_patched = from_pvcs_patched a.listed desired
step_of a desired sts_recreated = from_sts_recreated a.sts desired
step_of a desired verified = from_verified a.sts
step_of a desired aborted = requeue
