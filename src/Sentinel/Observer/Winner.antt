-- ===== src/Sentinel/Observer/Winner.antt =====
-- The address that wins a count.
use velkir.Prelude.{ℕ, ◌≤◌, ◌<◌, ◌≡◌, ◌⊎◌, inl, inr, sym, List, [], ◌∷◌, String, arith, eq_iff}
use mathlib.Core.Path.{subst}
use velkir.Sentinel.Observer.{stand, winner_of, break_addr_tie}

-- The address has these votes in the count.
abbrev pub Counted : String → ℕ → List (String × ℕ) → Type 0
Counted a n [] = ⊥
Counted a n ((b, m) ∷ xs) = ((b ≡ a) × (m ≡ n)) ⊎ Counted a n xs

stand-le :
    (incumbent : String) (best : String × ℕ) (x : String × ℕ)
    → (best.1 ≤ (stand incumbent best x).1) × (x.1 ≤ (stand incumbent best x).1)
unfolding stand
stand-le incumbent (w, v) (a, n) = ground arith

-- The incumbent is beaten by votes, or it is the best.
abbrev Held : String → ℕ → String × ℕ → Type 0
Held incumbent n (w, v) = (n < v) ⊎ ((n ≡ v) × (w ≡ incumbent))

stand-Held :
    (incumbent : String) (n : ℕ) (best x : String × ℕ)
    → Held incumbent n best
    → Held incumbent n (stand incumbent best x)
unfolding stand break_addr_tie
stand-Held incumbent n (w, v) (a, m) h = ground (arith, h, eq_iff w incumbent)

stand-incumbent :
    (incumbent : String) (n : ℕ) (best : String × ℕ)
    → Held incumbent n (stand incumbent best (incumbent, n))
unfolding stand break_addr_tie
stand-incumbent incumbent n (w, v) = ground (arith, eq_iff w incumbent, eq_iff incumbent incumbent)

winner-Held :
    (incumbent : String) (n : ℕ) (best : String × ℕ) (xs : List (String × ℕ))
    → Held incumbent n best
    → Held incumbent n (winner_of incumbent best xs)
unfolding winner_of
winner-Held incumbent n best [] h = h
winner-Held incumbent n best (x ∷ xs) h =
    winner-Held incumbent n (stand incumbent best x) xs (stand-Held incumbent n best x h)

-- In whatever order the count is read, an incumbent that is counted loses only to an address with more
-- votes: a tie leaves it in place.
pub winner_incumbent :
    (incumbent : String) (n : ℕ) (best : String × ℕ) (xs : List (String × ℕ))
    → Counted incumbent n xs
    → (n < (winner_of incumbent best xs).1)
      ⊎ ((n ≡ (winner_of incumbent best xs).1) × ((winner_of incumbent best xs).0 ≡ incumbent))
unfolding winner_of
winner_incumbent incumbent n best [] h = elim h [ ]
winner_incumbent incumbent n best ((a, m) ∷ xs) (inr h) =
    winner_incumbent incumbent n (stand incumbent best (a, m)) xs h
winner_incumbent incumbent n best ((a, m) ∷ xs) (inl (same, votes)) =
    let counted : ◌≡◌ {A = String × ℕ} (incumbent, n) (a, m) = λ i. (sym same i, sym votes i) in
    winner-Held incumbent n (stand incumbent best (a, m)) xs (
      subst (λ x. Held incumbent n (stand incumbent best x)) counted
        (stand-incumbent incumbent n best))
