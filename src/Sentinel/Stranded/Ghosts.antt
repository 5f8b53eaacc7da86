-- ===== src/Sentinel/Stranded/Ghosts.antt =====
-- internal/sentinel/manager.go, `selectGhostReapTarget`: the survivor that loses its ghosts, and since when
-- each ghost has been absent.
use velkir.Prelude.{
  Bool, true, false, not, ◌||◌, List, [], ◌∷◌, ◌++◌, Option, none, some, String, str_eq,
  if◌then◌else◌, any,
}
use velkir.Prelude.Int.{ℤ, pos, leb_ℤ}
use velkir.Prelude.Time.{Time, time_sub}
use velkir.Sentinel.Types.{Endpoint}
use velkir.Sentinel.Live.{is_live}
use velkir.Sentinel.Stranded.{GhostHolder}
use Prim.Native.Nat.{Ordering}
use Prim.Native.String.{compare}

abbrev pub Seen : Type 0
Seen = List (String × Time)

unfoldable pub seen_at : String → Seen → Option Time
seen_at ip [] = none
seen_at ip ((k, t) ∷ m) = if str_eq k ip then some t else seen_at ip m

unfoldable pub detected : List GhostHolder → List String
detected [] = []
detected (h ∷ hs) = h.ghost_ips ++ detected hs

-- The entries of ghosts that are still detected and not live again.
unfoldable pub prune : List String → List String → Seen → Seen
prune live ips [] = []
prune live ips ((k, t) ∷ m) =
    let rest = prune live ips m in
    if is_live live k || not (is_live ips k) then rest else (k, t) ∷ rest

-- A stamp for each ghost that has none.
unfoldable pub stamp_new : Time → List String → Seen → Seen
stamp_new now [] m = m
stamp_new now (ip ∷ ips) m = elim (seen_at ip m) [
  | some t ↦ stamp_new now ips m
  | none ↦ stamp_new now ips ((ip, now) ∷ m)
]

unfoldable pub refresh : Time → List GhostHolder → List String → Seen → Seen
refresh now holders live m = stamp_new now (detected holders) (prune live (detected holders) m)

abbrev pub ghost_reap_debounce : ℤ
ghost_reap_debounce = pos 30_000_000_000

abbrev pub is_debounced : Time → Option Time → Bool
is_debounced now none = false
is_debounced now (some t) = leb_ℤ ghost_reap_debounce (time_sub now t)

unfoldable pub is_reapable : Time → Seen → List String → Bool
is_reapable now m ips = any (λ ip. is_debounced now (seen_at ip m)) ips

abbrev pub name_before : String → String → Bool
name_before s t = elim (compare s t) [ Ordering.lt ↦ true | _ ↦ false ]

-- The survivor chosen so far, after one more.
unfoldable pub choose : Option Endpoint → Endpoint → Option Endpoint
choose none ep = some ep
choose (some c) ep = if name_before ep.name c.name then some ep else some c

unfoldable pub choose_reapable : Time → Seen → Option Endpoint → List GhostHolder → Option Endpoint
choose_reapable now m chosen [] = chosen
choose_reapable now m chosen (h ∷ hs) =
    let skipped = choose_reapable now m chosen hs in
    let taken = choose_reapable now m (choose chosen h.endpoint) hs in
    if is_reapable now m h.ghost_ips then taken else skipped

unfoldable pub select_ghost_reap_target :
    Time → List GhostHolder → List String → Bool → Seen → Option Endpoint × Seen
select_ghost_reap_target now holders live allow m =
    let m' = refresh now holders live m in
    (if allow then choose_reapable now m' none holders else none, m')
