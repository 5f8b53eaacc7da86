-- ===== src/PvcResize/Transitions/Growth.antt =====
-- The patches of the claims.
use velkir.Prelude.{◌≡◌, List, [], ◌∷◌, arith, All, if_intro}
use velkir.Prelude.Int.{◌≤ℤ◌, ◌<ℤ◌, leb_ℤ}
use velkir.PvcResize.{Quantity, Pvc}
use velkir.PvcResize.Transitions.{
  Step, PatchReply, patched, vanished, refused, patch_failed, patch_all, pvcs_patched, advance,
  abort, requeue,
}

-- The claims of the second list are those of the first, in their order: each kept, raised to the size, or
-- gone.
pub data Grown (desired : Quantity) : List Pvc → List Pvc → Type 0 where
  all_seen : Grown desired [] []
  kept : {p : Pvc} {ps qs : List Pvc} → Grown desired ps qs → Grown desired (p ∷ ps) (p ∷ qs)
  raised :
      {p : Pvc} {ps qs : List Pvc}
      → p.requested <ℤ desired
      → Grown desired ps qs
      → Grown desired (p ∷ ps) (record p { requested = desired } ∷ qs)
  gone : {p : Pvc} {ps qs : List Pvc} → Grown desired ps qs → Grown desired (p ∷ ps) qs

abbrev pub AtLeast : Quantity → List Pvc → Type 0
AtLeast desired = All (λ p. desired ≤ℤ p.requested)

Grown-same : (desired : Quantity) (ps : List Pvc) → Grown desired ps ps
Grown-same desired [] = all_seen
Grown-same desired (p ∷ ps) = kept (Grown-same desired ps)

module _ (reply : Pvc → PatchReply) (desired : Quantity) where
  abbrev Good : List Pvc → List Pvc × Step → Type 0
  Good ps (qs, step) = Grown desired ps qs × (step ≡ advance pvcs_patched → AtLeast desired qs)

  patch_one :
      (p : Pvc) (ps : List Pvc) (r : PatchReply) (rest : List Pvc × Step)
      → p.requested <ℤ desired
      → Good ps rest
      → Good (p ∷ ps) (elim r as (λ _. List Pvc × Step) [
        | patched ↦ (record p { requested = desired } ∷ rest.0, rest.1)
        | vanished ↦ (rest.0, rest.1)
        | refused ↦ (p ∷ ps, abort "PVCExpansionFailed")
        | patch_failed ↦ (p ∷ ps, requeue)
      ])
  patch_one p ps patched rest h (grows, done) = (raised h grows, λ e. (omega arith, done e))
  patch_one p ps vanished rest h (grows, done) = (gone grows, done)
  patch_one p ps refused rest h good = (Grown-same desired (p ∷ ps), λ e. cc)
  patch_one p ps patch_failed rest h good = (Grown-same desired (p ∷ ps), λ e. cc)

  -- The loop of patches never shrinks a claim, on any branch: of the listed claims it keeps, raises or
  -- loses each. If it advances, every claim left requests at least the desired size.
  pub patch_all-Grown :
      (ps : List Pvc)
      → Grown desired ps (patch_all reply desired ps).0
        × ((patch_all reply desired ps).1 ≡ advance pvcs_patched
            → AtLeast desired (patch_all reply desired ps).0)
  unfolding patch_all
  patch_all-Grown [] = (all_seen, λ e. tt)
  patch_all-Grown (p ∷ ps) =
      let rest = patch_all-Grown ps in
      if_intro (Good (p ∷ ps)) (leb_ℤ desired p.requested)
        (p ∷ (patch_all reply desired ps).0, (patch_all reply desired ps).1)
        (elim (reply p) as (λ _. List Pvc × Step) [
          | patched ↦ (
            record p { requested = desired } ∷ (patch_all reply desired ps).0,
            (patch_all reply desired ps).1,
          )
          | vanished ↦ ((patch_all reply desired ps).0, (patch_all reply desired ps).1)
          | refused ↦ (p ∷ ps, abort "PVCExpansionFailed")
          | patch_failed ↦ (p ∷ ps, requeue)
        ])
        (λ enough. (kept rest.0, λ e. (ground (arith, enough), rest.1 e)))
        (λ short.
          patch_one p ps (reply p) (patch_all reply desired ps) (ground (arith, short)) rest)
