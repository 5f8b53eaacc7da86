-- ===== src/Sentinel/Wire/Fuel.antt =====
-- The length of the input is fuel enough for the nesting of a reply.
use velkir.Prelude.{ℕ, ◌≤◌, ◌≡◌, Option, none, some, length}
use velkir.Decimal.{Text}
use velkir.Sentinel.Wire.{Reader}

-- What is left is no longer than this.
abbrev pub Leaves {ℓ} : {A : Type ℓ} → ℕ → Option (A × Text) → Type 0
Leaves l none = Unit
Leaves l (some (x, t)) = length t ≤ l

-- A reader that leaves no more than it is given.
abbrev pub Shortens : Reader → Type 0
Shortens read = (s : Text) → Leaves (length s) (read s)

-- Two readers that agree on what is this long.
abbrev pub Agree : ℕ → Reader → Reader → Type 0
Agree l read read' = (s : Text) → length s ≤ l → read s ≡ read' s
