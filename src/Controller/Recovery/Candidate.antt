-- ===== src/Controller/Recovery/Candidate.antt =====
-- The choice of the candidate.
use velkir.Prelude.{
  ◌≡◌, ◌⊎◌, refl, inl, inr, ◌&&◌, ◌||◌, List, [], ◌∷◌, ◌++◌, Option, none, some, arith, if_intro,
}
use velkir.Prelude.Int.{ℤ, ◌≤ℤ◌, ltb_ℤ, eq_ℤ}
use mathlib.Core.List.{append-nil, append_assoc}
use velkir.Controller.Survey.{SurveyedPod}
use velkir.Controller.Recovery.{text_before, better, considered, choose_promotion_candidate}

-- A replica of the list, with its offset.
abbrev pub Ranked : SurveyedPod → ℤ → List SurveyedPod → Type 0
Ranked p n [] = ⊥
Ranked p n (q ∷ qs) = ((q ≡ p) × (q.state.slave_repl_offset ≡ some n)) ⊎ Ranked p n qs

abbrev Best : Option (SurveyedPod × ℤ) → ℤ → Type 0
Best none n = ⊥
Best (some (b, m)) n = n ≤ℤ m

better-le :
    (b : SurveyedPod × ℤ) (p : SurveyedPod) (n : ℤ)
    → (b.1 ≤ℤ (better b (p, n)).1) × (n ≤ℤ (better b (p, n)).1)
unfolding better
better-le (b, m) p n = ground arith

considered-grows :
    (best : Option (SurveyedPod × ℤ)) (p : SurveyedPod) (o : Option ℤ) (n : ℤ)
    → Best best n
    → Best (considered best p o) n
unfolding considered
considered-grows best p none n h = h
considered-grows none p (some m) n h = elim h [ ]
considered-grows (some b) p (some m) n h = ground (arith, better-le b p m, h)

considered-new :
    (best : Option (SurveyedPod × ℤ)) (p : SurveyedPod) (o : Option ℤ) (n : ℤ)
    → o ≡ some n
    → Best (considered best p o) n
unfolding considered
considered-new best p none n e = cc
considered-new none p (some m) n e = ground (arith, e)
considered-new (some b) p (some m) n e = ground (arith, e, better-le b p m)

choose-grows :
    (best : Option (SurveyedPod × ℤ)) (ps : List SurveyedPod) (n : ℤ)
    → Best best n
    → Best (choose_promotion_candidate best ps) n
unfolding choose_promotion_candidate
choose-grows best [] n h = h
choose-grows best (p ∷ ps) n h =
    choose-grows (considered best p p.state.slave_repl_offset) ps n
      (considered-grows best p p.state.slave_repl_offset n h)

choose-greatest :
    (best : Option (SurveyedPod × ℤ)) (ps : List SurveyedPod) (q : SurveyedPod) (n : ℤ)
    → Ranked q n ps
    → Best (choose_promotion_candidate best ps) n
unfolding choose_promotion_candidate
choose-greatest best [] q n h = elim h [ ]
choose-greatest best (p ∷ ps) q n (inl (e, o)) =
    choose-grows (considered best p p.state.slave_repl_offset) ps n
      (considered-new best p p.state.slave_repl_offset n o)
choose-greatest best (p ∷ ps) q n (inr h) =
    choose-greatest (considered best p p.state.slave_repl_offset) ps q n h

-- The best so far is a replica of this list.
abbrev From : List SurveyedPod → Option (SurveyedPod × ℤ) → Type 0
From ps none = Unit
From ps (some (b, m)) = Ranked b m ps

Ranked-append :
    (p : SurveyedPod) (n : ℤ) (ps qs : List SurveyedPod) → Ranked p n ps → Ranked p n (ps ++ qs)
Ranked-append p n [] qs h = elim h [ ]
Ranked-append p n (x ∷ ps) qs (inl e) = inl e
Ranked-append p n (x ∷ ps) qs (inr h) = inr (Ranked-append p n ps qs h)

Ranked-snoc :
    (p : SurveyedPod) (n : ℤ) (ps : List SurveyedPod)
    → p.state.slave_repl_offset ≡ some n
    → Ranked p n (ps ++ p ∷ [])
Ranked-snoc p n [] e = inl (refl, e)
Ranked-snoc p n (x ∷ ps) e = inr (Ranked-snoc p n ps e)

considered-From :
    (seen : List SurveyedPod) (best : Option (SurveyedPod × ℤ)) (p : SurveyedPod) (o : Option ℤ)
    → p.state.slave_repl_offset ≡ o
    → From seen best
    → From (seen ++ p ∷ []) (considered best p o)
unfolding considered better
considered-From seen none p none e h = tt
considered-From seen (some (b, m)) p none e h = Ranked-append b m seen (p ∷ []) h
considered-From seen none p (some n) e h = Ranked-snoc p n seen e
considered-From seen (some (b, m)) p (some n) e h =
    if_intro {A = SurveyedPod × ℤ} (λ x. Ranked x.0 x.1 (seen ++ p ∷ []))
      (ltb_ℤ m n || (eq_ℤ n m && text_before p.name b.name)) (p, n) (b, m)
      (λ _. Ranked-snoc p n seen e) (λ _. Ranked-append b m seen (p ∷ []) h)

choose-From :
    (seen ps : List SurveyedPod) (best : Option (SurveyedPod × ℤ))
    → From seen best
    → From (seen ++ ps) (choose_promotion_candidate best ps)
unfolding choose_promotion_candidate
choose-From seen [] best h = rw (append-nil seen) h
choose-From seen (p ∷ ps) best h = rw⁻¹ (append_assoc seen (p ∷ []) ps) (
    choose-From (seen ++ p ∷ []) ps (considered best p p.state.slave_repl_offset)
      (considered-From seen best p p.state.slave_repl_offset refl h))

-- What a choice says of the replicas.
abbrev pub Chosen : List SurveyedPod → Option (SurveyedPod × ℤ) → Type 0
Chosen ps none = (q : SurveyedPod) (n : ℤ) → ¬ Ranked q n ps
Chosen ps (some (p, m)) = Ranked p m ps × ((q : SurveyedPod) (n : ℤ) → Ranked q n ps → n ≤ℤ m)

chosen :
    (ps : List SurveyedPod) (best : Option (SurveyedPod × ℤ))
    → From ps best
    → ((q : SurveyedPod) (n : ℤ) → Ranked q n ps → Best best n)
    → Chosen ps best
chosen ps none from greatest = greatest
chosen ps (some (p, m)) from greatest = (from, greatest)

-- The candidate is a replica of the survey with the offset that it reports, and no replica reports a
-- greater one; there is none only if no replica reports an offset.
pub choose-Chosen : (ps : List SurveyedPod) → Chosen ps (choose_promotion_candidate none ps)
choose-Chosen ps =
    chosen ps (choose_promotion_candidate none ps) (choose-From [] ps none tt)
      (choose-greatest none ps)
