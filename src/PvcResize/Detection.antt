-- ===== src/PvcResize/Detection.antt =====
-- What the detector says of the claims.
use velkir.Prelude.{◌≡◌, ◌↔◌, Bool, true, false, ◌||◌, List, [], ◌∷◌, arith, any, if◌then◌else◌}
use velkir.Prelude.Int.{pos, ltb_ℤ, eq_ℤ}
use velkir.PvcResize.{
  Quantity, Pvc, resize_needed, Inputs, smaller, smallest_current_size, allows_expansion, is_empty,
  detect,
}

-- A claim that requests less than the size.
unfoldable pub wants_more : Quantity → Pvc → Bool
wants_more desired p = ltb_ℤ p.requested desired

smaller-below :
    (desired smallest : Quantity) (ps : List Pvc)
    → ltb_ℤ (smaller smallest ps) desired ≡ ltb_ℤ smallest desired || any (wants_more desired) ps
unfolding smaller wants_more
smaller-below desired smallest [] = ground arith
smaller-below desired smallest (p ∷ ps) =
    ground (
      arith,
      smaller-below desired (if ltb_ℤ p.requested smallest then p.requested else smallest) ps,
    )

smallest-below :
    (desired : Quantity) (ps : List Pvc)
    → is_empty ps ≡ false
    → ltb_ℤ (smallest_current_size ps) desired ≡ any (wants_more desired) ps
unfolding smallest_current_size wants_more
smallest-below desired [] h = cc
smallest-below desired (p ∷ ps) h = ground (arith, smaller-below desired p.requested ps)

-- A resize is due exactly when a size is asked for, some claim requests less than it, and the storage
-- class is known to allow an expansion.
pub detect-resize_needed :
    (i : Inputs)
    → (detect i ≡ resize_needed) ↔ (
        (eq_ℤ i.desired_size (pos 0) ≡ false)
        × (is_empty i.pvcs ≡ false)
        × (any (wants_more i.desired_size) i.pvcs ≡ true)
        × (allows_expansion i.storage_class ≡ true))
unfolding detect
detect-resize_needed i = (
  ground (arith, smallest-below i.desired_size i.pvcs),
  ground (arith, smallest-below i.desired_size i.pvcs),
)
