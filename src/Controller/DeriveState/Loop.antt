-- ===== src/Controller/DeriveState/Loop.antt =====
-- What the loop over the pods finds.
use velkir.Prelude.{
  Bool-cases, ◌+◌, ◌≡◌, refl, inl, inr, Bool, true, false, not, ◌&&◌, ◌||◌, List, [], ◌∷◌, Option,
  none, some, String, arith, all, any, count_if, if◌then◌else◌,
}
use velkir.Controller.Pods.{Pod}
use velkir.Controller.DeriveState.{Survey, at_target, is_settled, survey_one, survey}

-- The last pod with the label of the primary, with the one found so far.
unfoldable pub last_primary : Option Pod → List Pod → Option Pod
last_primary found [] = found
last_primary found (p ∷ ps) = last_primary (if p.is_primary then some p else found) ps

abbrev pub is_current : String → Option Pod → Bool
is_current target none = false
is_current target (some p) = at_target target p

abbrev pub is_replica : Pod → Bool
is_replica p = not p.is_primary

-- A replica is at the target, and settled; a primary passes.
abbrev pub current_replica : String → Pod → Bool
current_replica target p = p.is_primary || at_target target p

abbrev pub settled_replica : Pod → Bool
settled_replica p = p.is_primary || is_settled p

module _ (target : String) where
  pub survey-primary_seen :
      (s : Survey) (ps : List Pod)
      → (survey target s ps).primary_seen ≡ s.primary_seen || any (λ p. p.is_primary) ps
  unfolding survey survey_one
  survey-primary_seen s [] = ground arith
  survey-primary_seen s (p ∷ ps) = ground (arith, survey-primary_seen (survey_one target s p) ps)

  pub survey-any_replica :
      (s : Survey) (ps : List Pod)
      → (survey target s ps).any_replica_seen ≡ s.any_replica_seen || any is_replica ps
  unfolding survey survey_one
  survey-any_replica s [] = ground arith
  survey-any_replica s (p ∷ ps) = ground (arith, survey-any_replica (survey_one target s p) ps)

  pub survey-replica_count :
      (s : Survey) (ps : List Pod)
      → (survey target s ps).replica_count ≡ s.replica_count + count_if is_replica ps
  unfolding survey survey_one
  survey-replica_count s [] = ground arith
  survey-replica_count s (p ∷ ps) = ground (arith, survey-replica_count (survey_one target s p) ps)

  pub survey-replicas_at_target :
      (s : Survey) (ps : List Pod)
      → (survey target s ps).replicas_at_target
        ≡ s.replicas_at_target && all (current_replica target) ps
  unfolding survey survey_one
  survey-replicas_at_target s [] = ground arith
  survey-replicas_at_target s (p ∷ ps) =
      ground (arith, survey-replicas_at_target (survey_one target s p) ps)

  pub survey-replicas_settled :
      (s : Survey) (ps : List Pod)
      → (survey target s ps).replicas_settled ≡ s.replicas_settled && all settled_replica ps
  unfolding survey survey_one
  survey-replicas_settled s [] = ground arith
  survey-replicas_settled s (p ∷ ps) =
      ground (arith, survey-replicas_settled (survey_one target s p) ps)

  pub survey-primary_at_target :
      (s : Survey) (found : Option Pod) (ps : List Pod)
      → s.primary_at_target ≡ is_current target found
      → (survey target s ps).primary_at_target ≡ is_current target (last_primary found ps)
  unfolding survey survey_one last_primary
  survey-primary_at_target s found [] h = h
  survey-primary_at_target s found (p ∷ ps) h =
      survey-primary_at_target (survey_one target s p) (if p.is_primary then some p else found) ps
        (ground (arith, h))

pick-marked :
    (p : Pod) (found : Option Pod)
    → p.is_primary ≡ true
    → (if p.is_primary then some p else found) ≡ some p
pick-marked p found h = ground (arith, h)

pick-plain :
    (p : Pod) (found : Option Pod)
    → p.is_primary ≡ false
    → (if p.is_primary then some p else found) ≡ found
pick-plain p found h = ground (arith, h)

last_primary_found : (q : Pod) (ps : List Pod) → (p : Pod) × (last_primary (some q) ps ≡ some p)
unfolding last_primary
last_primary_found q [] = (q, refl)
last_primary_found q (p ∷ ps) = elim (Bool-cases p.is_primary) [
  | inl marked ↦ rw (pick-marked p (some q) marked) (last_primary_found p ps)
  | inr plain ↦ rw (pick-plain p (some q) plain) (last_primary_found q ps)
]

pub last_primary_seen :
    (ps : List Pod)
    → any (λ p. p.is_primary) ps ≡ true
    → (p : Pod) × (last_primary none ps ≡ some p)
unfolding last_primary
last_primary_seen [] h = cc
last_primary_seen (p ∷ ps) h = elim (Bool-cases p.is_primary) [
  | inl marked ↦ rw (pick-marked p none marked) (last_primary_found p ps)
  | inr plain ↦ rw (pick-plain p none plain) (last_primary_seen ps (ground (arith, h, plain)))
]

last_primary_unseen :
    (ps : List Pod) → any (λ p. p.is_primary) ps ≡ false → last_primary none ps ≡ none
unfolding last_primary
last_primary_unseen [] h = refl
last_primary_unseen (p ∷ ps) h = ground (arith, last_primary_unseen ps)

pub marked_seen :
    (ps : List Pod) (p : Pod) → last_primary none ps ≡ some p → any (λ q. q.is_primary) ps ≡ true
marked_seen ps p found = elim (Bool-cases (any (λ q. q.is_primary) ps)) [
  | inl seen ↦ seen
  | inr unseen ↦ ground (arith, found, last_primary_unseen ps unseen)
]
