-- ===== src/Sentinel/Stranded/Debounce.antt =====
-- How long the ghosts of a survivor have been absent when it is reaped.
use velkir.Prelude.{
  ◌≡◌, ◌⊎◌, refl, inl, inr, sym, ap, ◌∙◌, Bool, true, false, not, ◌||◌, List, [], ◌∷◌, Option, none,
  some, String, arith, str_eq, eq_iff, if◌then◌else◌, Option-cases, if_intro, or_iff,
}
use velkir.Prelude.Int.{◌≤ℤ◌}
use velkir.Prelude.Time.{Time, time_sub, before}
use velkir.Sentinel.Types.{Endpoint}
use velkir.Sentinel.Live.{is_live}
use velkir.Sentinel.Stranded.{GhostHolder}
use velkir.Sentinel.Stranded.Ghosts.{
  name_before, Seen, seen_at, detected, prune, stamp_new, refresh, ghost_reap_debounce,
  is_debounced, is_reapable, choose, choose_reapable, select_ghost_reap_target,
}

-- One pass: when it was, and what it found.
pub record ReapPass : Type 0 where
  pub now : Time
  pub holders : List GhostHolder
  pub live : List String

-- The stamps after these passes, the latest first.
unfoldable pub seen_after : List ReapPass → Seen
seen_after [] = []
seen_after (p ∷ ps) = refresh p.now p.holders p.live (seen_after ps)

-- Every pass back to one at this time found the address to be a ghost.
abbrev pub Absent : String → Time → List ReapPass → Type 0
Absent ip t [] = ⊥
Absent ip t (p ∷ ps) = (is_live (detected p.holders) ip ≡ true) × ((t ≡ p.now) ⊎ Absent ip t ps)

seen_at-prune :
    (ip : String) (live ips : List String) (m : Seen) (t : Time)
    → seen_at ip (prune live ips m) ≡ some t
    → (is_live live ip ≡ false) × (is_live ips ip ≡ true) × (seen_at ip m ≡ some t)
unfolding seen_at prune
seen_at-prune ip live ips [] t = λ h. ground (arith, h)
seen_at-prune ip live ips ((k, u) ∷ m) t =
    if_intro
      (λ m'.
        seen_at ip m' ≡ some t
        → (is_live live ip ≡ false) × (is_live ips ip ≡ true) × (seen_at ip ((k, u) ∷ m) ≡ some t))
      (is_live live k || not (is_live ips k)) (prune live ips m) ((k, u) ∷ prune live ips m)
      (λ gone h. ground (arith, h, gone, seen_at-prune ip live ips m t, eq_iff k ip))
      (λ stays h. ground (arith, h, stays, seen_at-prune ip live ips m t, eq_iff k ip))

seen_at-cons :
    (ip j : String) (now : Time) (m : Seen)
    → seen_at ip ((j, now) ∷ m) ≡ (if str_eq j ip then some now else seen_at ip m)
unfolding seen_at
seen_at-cons ip j now m = refl

is_live-cons :
    (ip j : String) (ips : List String) → is_live (j ∷ ips) ip ≡ str_eq j ip || is_live ips ip
unfolding is_live
is_live-cons ip j ips = refl

stamp_new-stamped :
    (now : Time) (j : String) (ips : List String) (m : Seen) (t : Time)
    → seen_at j m ≡ some t
    → stamp_new now (j ∷ ips) m ≡ stamp_new now ips m
unfolding stamp_new
stamp_new-stamped now j ips m t e = rw (stamp_new, e) refl

stamp_new-unstamped :
    (now : Time) (j : String) (ips : List String) (m : Seen)
    → seen_at j m ≡ none
    → stamp_new now (j ∷ ips) m ≡ stamp_new now ips ((j, now) ∷ m)
unfolding stamp_new
stamp_new-unstamped now j ips m e = rw (stamp_new, e) refl

seen_at-stamp_new :
    (ip : String) (now : Time) (ips : List String) (m : Seen) (t : Time)
    → seen_at ip (stamp_new now ips m) ≡ some t
    → (seen_at ip m ≡ some t) ⊎ ((is_live ips ip ≡ true) × (t ≡ now))
unfolding stamp_new
seen_at-stamp_new ip now [] m t h = inl h
seen_at-stamp_new ip now (j ∷ ips) m t h = elim (Option-cases (seen_at j m)) [
  | inl e ↦ ground (
    arith,
    seen_at-cons ip j now m,
    is_live-cons ip j ips,
    seen_at-stamp_new ip now ips ((j, now) ∷ m) t
        (sym (ap (seen_at ip) (stamp_new-unstamped now j ips m e)) ∙ h),
  )
  | inr (u, e) ↦ ground (
    arith,
    is_live-cons ip j ips,
    seen_at-stamp_new ip now ips m t
        (sym (ap (seen_at ip) (stamp_new-stamped now j ips m u e)) ∙ h),
  )
]

seen-Absent :
    (ps : List ReapPass) (ip : String) (t : Time)
    → seen_at ip (seen_after ps) ≡ some t
    → Absent ip t ps
unfolding seen_after refresh seen_at
seen-Absent [] ip t h = ground (arith, h)
seen-Absent (p ∷ ps) ip t h =
    elim (seen_at-stamp_new ip p.now (detected p.holders)
      (prune p.live (detected p.holders) (seen_after ps)) t h) [
        | inl old ↦
            let kept = seen_at-prune ip p.live (detected p.holders) (seen_after ps) t old in
            (kept.1, inr (seen-Absent ps ip t kept.2))
        | inr (found, same) ↦ (found, inl same)
      ]

-- The endpoint is of one of the holders, with this property.
abbrev pub HolderOf : (GhostHolder → Type 0) → Endpoint → List GhostHolder → Type 0
HolderOf P ep [] = ⊥
HolderOf P ep (h ∷ hs) = ((h.endpoint ≡ ep) × P h) ⊎ HolderOf P ep hs

choose-either :
    (chosen : Option Endpoint) (x ep : Endpoint)
    → choose chosen x ≡ some ep
    → (chosen ≡ some ep) ⊎ (x ≡ ep)
unfolding choose
choose-either none x ep = λ e. inr cc
choose-either (some c) x ep =
    if_intro (λ r. r ≡ some ep → (some c ≡ some ep) ⊎ (x ≡ ep)) (name_before x.name c.name) (some x)
      (some c) (λ _ e. inr cc) (λ _ e. inl e)

choose_reapable-HolderOf :
    (now : Time) (m : Seen) (chosen : Option Endpoint) (hs : List GhostHolder) (ep : Endpoint)
    → choose_reapable now m chosen hs ≡ some ep
    → (chosen ≡ some ep) ⊎ HolderOf (λ h. is_reapable now m h.ghost_ips ≡ true) ep hs
unfolding choose_reapable choose
choose_reapable-HolderOf now m chosen [] ep = λ e. inl e
choose_reapable-HolderOf now m chosen (h ∷ hs) ep =
    if_intro
      (λ r.
        r ≡ some ep
        → (chosen ≡ some ep) ⊎ HolderOf (λ h. is_reapable now m h.ghost_ips ≡ true) ep (h ∷ hs))
      (is_reapable now m h.ghost_ips) (choose_reapable now m (choose chosen h.endpoint) hs)
      (choose_reapable now m chosen hs)
      (λ old e. elim (choose_reapable-HolderOf now m (choose chosen h.endpoint) hs ep e) [
        | inl c ↦ elim (choose-either chosen h.endpoint ep c) [
          | inl before ↦ inl before
          | inr here ↦ inr (inl (here, old))
        ]
        | inr later ↦ inr (inr later)
      ])
      (λ _ e. elim (choose_reapable-HolderOf now m chosen hs ep e) [
        | inl c ↦ inl c
        | inr later ↦ inr (inr later)
      ])

-- One of the addresses is a ghost that every pass has found since a time that is the debounce ago.
abbrev pub LongAbsent : ReapPass → List ReapPass → List String → Type 0
LongAbsent p ps ips =
    (ip : String) × (t : Time) × (is_live ips ip ≡ true)
    × Absent ip t (p ∷ ps)
    × (ghost_reap_debounce ≤ℤ time_sub p.now t)

debounced-HasStamp :
    (now : Time) (stamped : Option Time)
    → is_debounced now stamped ≡ true
    → (t : Time) × (stamped ≡ some t) × (ghost_reap_debounce ≤ℤ time_sub now t)
debounced-HasStamp now none h = absurd (ground (arith, h))
debounced-HasStamp now (some t) h = (t, refl, ground (arith, h))

reapable-HasOld :
    (now : Time) (m : Seen) (ips : List String)
    → is_reapable now m ips ≡ true
    → (ip : String) × (is_live ips ip ≡ true) × (is_debounced now (seen_at ip m) ≡ true)
unfolding is_reapable is_live
reapable-HasOld now m [] h = absurd (ground (arith, h))
reapable-HasOld now m (ip ∷ ips) h =
    elim ((or_iff (is_debounced now (seen_at ip m)) (is_reapable now m ips)).0 h) [
      | inl here ↦ (ip, ground (arith, eq_iff ip ip), here)
      | inr there ↦
          let (ip', found, old) = reapable-HasOld now m ips there in
          (ip', (or_iff (str_eq ip ip') (is_live ips ip')).1 (inr found), old)
    ]

reapable-LongAbsent :
    (p : ReapPass) (ps : List ReapPass) (ips : List String)
    → is_reapable p.now (seen_after (p ∷ ps)) ips ≡ true
    → LongAbsent p ps ips
reapable-LongAbsent p ps ips h =
    let (ip, found, old) = reapable-HasOld p.now (seen_after (p ∷ ps)) ips h in
    let (t, stamped, long) = debounced-HasStamp p.now (seen_at ip (seen_after (p ∷ ps))) old in
    (ip, t, found, seen-Absent (p ∷ ps) ip t stamped, long)

HolderOf-map :
    (P Q : GhostHolder → Type 0) (ep : Endpoint) (hs : List GhostHolder)
    → ((h : GhostHolder) → P h → Q h)
    → HolderOf P ep hs
    → HolderOf Q ep hs
HolderOf-map P Q ep [] f h = h
HolderOf-map P Q ep (x ∷ hs) f (inl (same, p)) = inl (same, f x p)
HolderOf-map P Q ep (x ∷ hs) f (inr h) = inr (HolderOf-map P Q ep hs f h)

-- The survivor that a pass reaps is one that holds a ghost, and every pass has found that ghost since one
-- that is at least the debounce of 30 seconds ago: a ghost that was away in between starts anew.
pub reap-LongAbsent :
    (p : ReapPass) (ps : List ReapPass) (allow : Bool) (ep : Endpoint)
    → (select_ghost_reap_target p.now p.holders p.live allow (seen_after ps)).0 ≡ some ep
    → (allow ≡ true) × HolderOf (λ h. LongAbsent p ps h.ghost_ips) ep p.holders
unfolding select_ghost_reap_target seen_after
reap-LongAbsent p ps false ep e = absurd cc
reap-LongAbsent p ps true ep e = (
  refl,
  HolderOf-map (λ h. is_reapable p.now (seen_after (p ∷ ps)) h.ghost_ips ≡ true)
      (λ h. LongAbsent p ps h.ghost_ips) ep p.holders
      (λ h old. reapable-LongAbsent p ps h.ghost_ips old)
      (elim (choose_reapable-HolderOf p.now (seen_after (p ∷ ps)) none p.holders ep e) [
        | inl c ↦ absurd cc
        | inr found ↦ found
      ]),
)
