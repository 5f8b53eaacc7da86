-- ===== src/Controller/Recovery/Spacing.antt =====
-- The promotions of a sequence of passes.
use velkir.Prelude.{◌≡◌, refl, sym, ap, ◌∙◌, List, [], ◌∷◌, Option, none, some, arith}
use velkir.Prelude.Int.{◌≤ℤ◌}
use velkir.Prelude.Time.{Time, time_sub}
use velkir.Controller.Survey.{SurveyedPod, Survey}
use mathlib.Core.Path.{subst}
use velkir.Sentinel.Types.{Snapshot}
use velkir.Controller.Recovery.Safety.{promote-Promoted}
use velkir.Controller.Recovery.{
  RecoveryPass, elect, admitted, promote_candidate, maybe_recovery_promote,
  recovery_promotion_cooldown,
}

-- When the passes promote, from this stamp of the last promotion on.
unfoldable pub promotions : Time → List RecoveryPass → List Time
promotions last [] = []
promotions last (d ∷ ds) =
    let (promoted, stamp) = maybe_recovery_promote d last in
    let rest = promotions stamp ds in elim promoted [ none ↦ rest | some p ↦ d.issued_at ∷ rest ]

abbrev pub Spaced : Time → List Time → Type 0
Spaced last [] = Unit
Spaced last (t ∷ ts) = (recovery_promotion_cooldown ≤ℤ time_sub t last) × Spaced t ts

admitted-none :
    (d : RecoveryPass) (last : Time) (survey : Option Survey) (observer : Option Snapshot)
    → (admitted d last survey observer).0 ≡ none
    → (admitted d last survey observer).1 ≡ last
unfolding admitted elect promote_candidate
admitted-none d last none none h = refl
admitted-none d last none (some snap) h = refl
admitted-none d last (some s) none h = refl
admitted-none d last (some s) (some snap) h = ground (arith, h)

promote-none :
    (d : RecoveryPass) (last : Time)
    → (maybe_recovery_promote d last).0 ≡ none
    → (maybe_recovery_promote d last).1 ≡ last
unfolding maybe_recovery_promote
promote-none d last h = ground (arith, h, admitted-none d last d.survey d.observer)

pass-Spaced :
    (d : RecoveryPass) (last stamp : Time) (promoted : Option SurveyedPod) (rest : List Time)
    → maybe_recovery_promote d last ≡ (promoted, stamp)
    → Spaced stamp rest
    → Spaced last (elim promoted as (λ _. List Time) [ none ↦ rest | some p ↦ d.issued_at ∷ rest ])
pass-Spaced d last stamp none rest e h =
    subst (λ t. Spaced t rest) (sym (ap (λ x. x.1) e) ∙ promote-none d last (ap (λ x. x.0) e)) h
pass-Spaced d last stamp (some p) rest e h =
    let out = promote-Promoted d last p (ap (λ x. x.0) e) in
    (out.4.1.cooled, subst (λ t. Spaced t rest) (sym (ap (λ x. x.1) e) ∙ out.5) h)

-- However the passes come and whatever they meet, two promotions are at least a minute apart.
pub promotions-Spaced : (last : Time) (ds : List RecoveryPass) → Spaced last (promotions last ds)
unfolding promotions
promotions-Spaced last [] = tt
promotions-Spaced last (d ∷ ds) =
    let (promoted, stamp) = maybe_recovery_promote d last in
    pass-Spaced d last stamp promoted (promotions stamp ds) refl (promotions-Spaced stamp ds)
