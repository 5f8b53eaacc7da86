-- ===== src/Examples/Resize.antt =====
-- internal/pvcresize and the controller's resize: concrete claims and passes.
use velkir.Prelude.{str_eq, if◌then◌else◌, true, [], ◌∷◌, none, some}
use velkir.Prelude.Int.{pos}
use velkir.PvcResize.{Pvc, Inputs, no_change, resize_needed}
use velkir.PvcResize
use velkir.PvcResize.Transitions
use velkir.PvcResize.Transitions.{
  PatchReply, patched, vanished, patch_all, absent, present, deleted, Sts, Answers, validated,
  sts_orphaned, pvcs_patched, advance,
}
use velkir.PvcResize.Transitions.Growth.{Grown, patch_all-Grown}
use velkir.Controller.Resize.{done, ResizeStatus, ResizePass, current_phase, reconcile_pvc_resize}
use velkir.Controller.Resize.Passes.{Reaches, reconcile-Reaches}

abbrev claim : Pvc
claim = record { name = "data-a-0"; requested = pos 10; capacity = pos 10 }

abbrev grown_claim : Pvc
grown_claim = record claim { requested = pos 20 }

abbrev lost_claim : Pvc
lost_claim = record claim { name = "data-a-1" }

abbrev growing : Inputs
growing = record {
  desired_size = pos 20;
  pvcs = grown_claim ∷ claim ∷ [];
  storage_class = some (some true);
}

-- The second claim has vanished when it is patched.
abbrev patches_to : Pvc → PatchReply
patches_to p = if str_eq p.name "data-a-1" then vanished else patched

patch_all-Grown_example :
    Grown
      (pos 20)
      (claim ∷ lost_claim ∷ [])
      (patch_all patches_to (pos 20) (claim ∷ lost_claim ∷ [])).0
patch_all-Grown_example = (patch_all-Grown patches_to (pos 20) (claim ∷ lost_claim ∷ [])).0

abbrev pass : ResizePass
pass = record {
  now = pos 700_000_000_001;
  inputs = growing;
  start_reply = done;
  stuck_reply = done;
  write_reply = done;
  answers = record {
    sts = absent;
    delete_reply = deleted;
    listed = some (claim ∷ []);
    patch_reply = λ p. patched;
  };
}

-- The claims have been patched, and the second one has not expanded yet.
abbrev settled_pass : ResizePass
settled_pass = record pass {
  inputs = record growing { pvcs = grown_claim ∷ [] };
  answers = record pass.answers { listed = some (grown_claim ∷ []) };
}

abbrev waiting : ResizeStatus
waiting = record {
  phase = pvcs_patched;
  started_at = some (pos 1);
  last_transition_at = some (pos 1);
  attempt = pos 1;
  last_stuck_event_at = none;
}

abbrev orphaned : ResizeStatus
orphaned = record waiting { phase = sts_orphaned }

abbrev told : ResizeStatus
told = record orphaned { last_stuck_event_at = some (pos 700_000_000_001) }

reconcile-Reaches_example : Reaches none (current_phase (reconcile_pvc_resize pass none).status)
reconcile-Reaches_example = reconcile-Reaches pass none
