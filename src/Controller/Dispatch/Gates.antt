-- ===== src/Controller/Dispatch/Gates.antt =====
-- What a dispatch requires before it asks for a failover, and whom it promotes.
use velkir.Prelude.{
  ◌∙◌, sym, ap, ◌≡◌, ◌⊎◌, inl, inr, true, false, List, [], ◌∷◌, Option, none, some, arith,
}
use velkir.Prelude.Int.{ℤ, pos, ◌≤ℤ◌}
use velkir.Controller.Pods.{Pod}
use velkir.Controller.Dispatch.{LagState, score, scored, better, scored_before, pick}

-- A pod that the preflight lets through, with the lag it is scored with.
abbrev pub EligibleState : ℤ → ℤ → Option LagState → Type 0
EligibleState max_lag a none = ⊥
EligibleState max_lag a (some st) =
    ((st.is_master ≡ true) × (a ≡ pos 0))
    ⊎ ((st.is_master ≡ false) × (st.link_up ≡ true) × (a ≡ st.lag_bytes) × (a ≤ℤ max_lag))

-- The lag is no worse than the best one found.
abbrev Beats : Option (Pod × ℤ) → ℤ → Type 0
Beats none b = ⊥
Beats (some (p, a)) b = a ≤ℤ b

abbrev pub Among : Pod → List Pod → Type 0
Among p [] = ⊥
Among p (q ∷ ps) = (q ≡ p) ⊎ Among p ps

score-EligibleState :
    (max_lag a : ℤ) (st : Option LagState) → score max_lag st ≡ some a → EligibleState max_lag a st
unfolding score
score-EligibleState max_lag a none h = cc
score-EligibleState max_lag a (some st) h = ground (arith, h)

Beats-of : {r x : Option (Pod × ℤ)} → r ≡ x → (b : ℤ) → Beats r b → Beats x b
Beats-of e b h = rw⁻¹ e h

better-Beats :
    (best : Option (Pod × ℤ)) (p : Pod) (a b : ℤ) → Beats best b → Beats (better best (p, a)) b
unfolding better scored_before
better-Beats none p a b h = absurd h
better-Beats (some (q, c)) p a b h = ground (arith, h)

better-Beats_new : (best : Option (Pod × ℤ)) (p : Pod) (a : ℤ) → Beats (better best (p, a)) a
unfolding better scored_before
better-Beats_new none p a = omega arith
better-Beats_new (some (q, c)) p a = ground arith

scored-Beats :
    (best : Option (Pod × ℤ)) (p : Pod) (s : Option ℤ) (b : ℤ)
    → Beats best b
    → Beats (scored best p s) b
unfolding scored
scored-Beats best p none b h = h
scored-Beats best p (some a) b h = better-Beats best p a b h

module _ (check : Pod → Option LagState) (max_lag : ℤ) where
  pick-Beats :
      (best : Option (Pod × ℤ)) (ps : List Pod) (b : ℤ)
      → Beats best b
      → Beats (pick check max_lag best ps) b
  unfolding pick
  pick-Beats best [] b h = h
  pick-Beats best (p ∷ ps) b h =
      pick-Beats (scored best p (score max_lag (check p))) ps b (scored-Beats best p _ b h)

  pick-Beats_all :
      (best : Option (Pod × ℤ)) (ps : List Pod) (q : Pod) (b : ℤ)
      → Among q ps
      → score max_lag (check q) ≡ some b
      → Beats (pick check max_lag best ps) b
  unfolding pick scored
  pick-Beats_all best [] q b h scores = absurd h
  pick-Beats_all best (p ∷ ps) q b (inl e) scores =
      let mine : score max_lag (check p) ≡ some b = ap (λ x. score max_lag (check x)) e ∙ scores in
      pick-Beats (scored best p (score max_lag (check p))) ps b
        (rw mine (better-Beats_new best p b))
  pick-Beats_all best (p ∷ ps) q b (inr h) scores =
      pick-Beats_all (scored best p (score max_lag (check p))) ps q b h scores

  -- Where a pick comes from.
  abbrev From : Option (Pod × ℤ) → List Pod → Pod × ℤ → Type 0
  From best ps (p, a) = (best ≡ some (p, a)) ⊎ (Among p ps × EligibleState max_lag a (check p))

  scored-From :
      (best : Option (Pod × ℤ)) (q : Pod) (s : Option ℤ) (p : Pod) (a : ℤ)
      → scored best q s ≡ some (p, a)
      → (best ≡ some (p, a)) ⊎ ((q ≡ p) × (s ≡ some a))
  unfolding scored better
  scored-From best q none p a h = inl h
  scored-From none q (some c) p a h = ground (arith, h)
  scored-From (some y) q (some c) p a h = ground (arith, h)

  pick-From :
      (best : Option (Pod × ℤ)) (ps : List Pod) (p : Pod) (a : ℤ)
      → pick check max_lag best ps ≡ some (p, a)
      → From best ps (p, a)
  unfolding pick
  pick-From best [] p a h = inl h
  pick-From best (q ∷ ps) p a h =
      elim (pick-From (scored best q (score max_lag (check q))) ps p a h) [
        | inl early ↦ elim (scored-From best q (score max_lag (check q)) p a early) [
          | inl before ↦ inl before
          | inr (e, scores) ↦ inr (
            inl e,
            score-EligibleState max_lag a (check p)
                (ap (λ x. score max_lag (check x)) (sym e) ∙ scores),
          )
        ]
        | inr (there, good) ↦ inr (inr there, good)
      ]

  -- The pod that is picked for the promotion is one of the candidates whose check returned, which says
  -- it is the master already or has its link up and a lag within the bound; and no other candidate
  -- that passes has a lower lag.
  pub pick-EligibleState :
      (ps : List Pod) (p : Pod) (a : ℤ)
      → pick check max_lag none ps ≡ some (p, a)
      → Among p ps
        × EligibleState max_lag a (check p)
        × ((q : Pod) (b : ℤ) → Among q ps → score max_lag (check q) ≡ some b → a ≤ℤ b)
  pick-EligibleState ps p a h = elim (pick-From none ps p a h) [
    | inl nothing ↦ cc
    | inr (there, good) ↦
        (there, good, λ q b among scores. Beats-of h b (pick-Beats_all none ps q b among scores))
  ]

  -- The preflight finds no one exactly when no candidate passes.
  pick-none :
      (ps : List Pod)
      → pick check max_lag none ps ≡ none
      → (q : Pod) (b : ℤ) → Among q ps
      → ¬ (score max_lag (check q) ≡ some b)
  pick-none ps h q b among scores = Beats-of h b (pick-Beats_all none ps q b among scores)
