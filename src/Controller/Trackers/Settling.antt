-- ===== src/Controller/Trackers/Settling.antt =====
-- The settling count of the observed primary.
use velkir.Prelude.{
  Bool-cases, ℕ, suc, ◌+◌, ◌≡◌, ◌≢◌, refl, inl, inr, ◌∙◌, List, [], ◌∷◌, Option, none, some, String,
  arith, eq_iff, if◌then◌else◌,
}
use velkir.Prelude.Time.{Time, after}
use velkir.Controller.Trackers.{
  first_poll, PrimaryStabilityState, advance, stability_after, reading, observe_primary_stability,
}

-- The tracker after a sequence of polls.
unfoldable pub observe_all :
    Option PrimaryStabilityState → List (String × Time) → Option PrimaryStabilityState
observe_all st [] = st
observe_all st ((addr, polled_at) ∷ polls) =
    observe_all (observe_primary_stability st addr polled_at).1 polls

-- How many of these times are later than the last one before them that was.
pub fresh_polls : Time → List Time → ℕ
fresh_polls last [] = 0
fresh_polls last (t ∷ ts) = if after t last then suc (fresh_polls t ts) else fresh_polls last ts

abbrev pub naming : String → List Time → List (String × Time)
naming addr [] = []
naming addr (t ∷ ts) = (addr, t) ∷ naming addr ts

advances :
    (s : PrimaryStabilityState) (addr : String) (t : Time)
    → addr ≢ ""
    → s.addr ≡ addr
    → stability_after (some s) addr t ≡ some (advance s t)
unfolding stability_after
advances s addr t named same = ground (arith, same, eq_iff addr "", eq_iff s.addr addr)

advance-addr : (s : PrimaryStabilityState) (t : Time) → (advance s t).addr ≡ s.addr
unfolding advance
advance-addr s t = ground arith

advance-count :
    (s : PrimaryStabilityState) (t : Time) (ts : List Time)
    → (advance s t).fresh_count + fresh_polls (advance s t).last_polled ts
      ≡ s.fresh_count + fresh_polls s.last_polled (t ∷ ts)
unfolding advance fresh_polls
advance-count s t ts = elim (Bool-cases (after t s.last_polled)) [
  | inl newer ↦ rw newer (omega arith)
  | inr replay ↦ rw replay refl
]

observe_all-fresh :
    (s : PrimaryStabilityState) (addr : String) (ts : List Time)
    → addr ≢ ""
    → s.addr ≡ addr
    → (reading (observe_all (some s) (naming addr ts))).0
      ≡ s.fresh_count + fresh_polls s.last_polled ts
unfolding observe_all observe_primary_stability fresh_polls
observe_all-fresh s addr [] named same = omega arith
observe_all-fresh s addr (t ∷ ts) named same =
    rw (advances s addr t named same, reading, observe_all)
      (observe_all-fresh (advance s t) addr ts named (advance-addr s t ∙ same)
        ∙ advance-count s t ts)

-- The tracker does not name this address.
abbrev pub Elsewhere : Option PrimaryStabilityState → String → Type 0
Elsewhere none addr = Unit
Elsewhere (some s) addr = s.addr ≢ addr

stability-Elsewhere :
    (st : Option PrimaryStabilityState) (addr : String) (t : Time)
    → addr ≢ ""
    → Elsewhere st addr
    → stability_after st addr t ≡ some (first_poll addr t)
unfolding stability_after
stability-Elsewhere none addr t named new = ground (arith, named, eq_iff addr "")
stability-Elsewhere (some s) addr t named new =
    ground (arith, named, new, eq_iff addr "", eq_iff s.addr addr)

-- From the first poll that names an address on, the count is one more than the polls after it that are
-- later than every one before them: a replay of an old poll does not count.
pub observe_all-count :
    (st : Option PrimaryStabilityState) (addr : String) (t : Time) (ts : List Time)
    → addr ≢ ""
    → Elsewhere st addr
    → (reading (observe_all st (naming addr (t ∷ ts)))).0 ≡ 1 + fresh_polls t ts
unfolding observe_primary_stability observe_all
observe_all-count st addr t ts named new =
    rw (stability-Elsewhere st addr t named new, reading, observe_all)
      (observe_all-fresh (first_poll addr t) addr ts named refl)
