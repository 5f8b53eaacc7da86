-- ===== src/Prelude/HostPort.antt =====
-- Go's `net.SplitHostPort`, which the program reads addresses with: the host, or `none` for an error.
use Prim.Native.Char.{code}
use Prim.Native.String.{String}
use Prim.Native.Nat.{ℕ}
use mathlib.Core.Bool.{Bool, false, not, ◌&&◌, ◌||◌}
use mathlib.Core.Option.{Option, none, some}
use velkir.Prelude.Bools.{◌==◌, if◌then◌else◌}

-- Whether the character with this code occurs in a text.
unfoldable pub has : ℕ → String → Bool
has c String.[] = false
has c (String.◌∷◌ d s) = code d == c || has c s

-- What stands before and after its first place.
unfoldable pub cut : ℕ → String → Option (String × String)
cut c String.[] = none
cut c (String.◌∷◌ d s) =
    let rest = cut c s in
    if code d == c
    then some (String.[], s)
    else elim rest [ none ↦ none | some (h, t) ↦ some (String.◌∷◌ d h, t) ]

unfoldable pub plain_host : String → Option String
plain_host s = elim (cut b':' s) [
  | none ↦ none
  | some (host, port) ↦ if has b':' port || has b'[' s || has b']' s then none else some host
]

unfoldable pub after_bracket : String → String → Option String
after_bracket host String.[] = none
after_bracket host (String.◌∷◌ c port) =
    if code c == b':' && not (has b':' port || has b'[' host || has b'[' port || has b']' port)
    then some host
    else none

unfoldable pub bracketed_host : String → Option String
bracketed_host s = elim (cut b']' s) [ none ↦ none | some (host, t) ↦ after_bracket host t ]

unfoldable pub split_host_port : String → Option String
split_host_port String.[] = none
split_host_port (String.◌∷◌ c s) =
    if code c == b'[' then bracketed_host s else plain_host (String.◌∷◌ c s)
