-- ===== src/Sentinel/Stranded/Epochs.antt =====
-- The re-pointed sentinels: what the probes say of them.
use velkir.Prelude.Int.{eq_ℤ→eq, ℤ, pos, ◌≤ℤ◌, ◌<ℤ◌, eq_ℤ, max_ℤ}
use mathlib.Core.Path.{subst}
use velkir.Prelude.{
  ◌≡◌, ◌≢◌, ◌⊎◌, refl, inl, inr, sym, ap, ◌∙◌, true, false, not, ◌||◌, List, [], ◌∷◌, Option, none,
  some, String, arith, str_eq, eq_iff, if◌then◌else◌, if_intro, All,
}
use velkir.Sentinel.Types.{Endpoint}
use velkir.Sentinel.Live.{is_live}
use velkir.Sentinel.SurgeryGuard.{Bytes, flags_indicate_election}
use velkir.Sentinel.Stranded.Keep.{All-mono, keep-All}
use velkir.Sentinel.Stranded.{
  ProbeRead, monitored, epoch_of, flags_of, Frontier, join_frontier, join_probe, frontier_of,
  stale_view, is_stale, keep, StaleTargets, disarmed, behind_frontier, classify_stale_epoch_targets,
}

-- An epoch that can be read and is at most this one, if the sentinel monitors something.
abbrev pub WithinEpoch : ℤ → Option String → Option ℤ → Type 0
WithinEpoch g none epoch = Unit
WithinEpoch g (some host) none = ⊥
WithinEpoch g (some host) (some e) = e ≤ℤ g

-- A sentinel that monitors the master at this epoch, outside an election.
abbrev pub Leads : String → ℤ → Option String → Option ℤ → Bytes → Type 0
Leads master g host epoch flags =
    (host ≡ some master) × (epoch ≡ some g) × (flags_indicate_election flags ≡ false)

abbrev pub SomeLeads : String → ℤ → (Endpoint → ProbeRead) → List Endpoint → Type 0
SomeLeads master g read [] = ⊥
SomeLeads master g read (ep ∷ eps) =
    Leads master g (monitored (read ep)) (epoch_of (read ep)) (flags_of (read ep))
    ⊎ SomeLeads master g read eps

abbrev pub AllWithin : ℤ → (Endpoint → ProbeRead) → List Endpoint → Type 0
AllWithin g read = All (λ ep. WithinEpoch g (monitored (read ep)) (epoch_of (read ep)))

-- What one more probe does to the frontier.
abbrev Joined : String → Option String → Option ℤ → Bytes → Frontier → Option Frontier → Type 0
Joined master host epoch flags f none = Unit
Joined master host epoch flags f (some f') =
    (f.frontier_epoch ≤ℤ f'.frontier_epoch)
    × WithinEpoch f'.frontier_epoch host epoch
    × ((f'.agree_epoch ≡ f.agree_epoch) ⊎ Leads master f'.agree_epoch host epoch flags)

max-either : (a b : ℤ) → (max_ℤ a b ≡ a) ⊎ (max_ℤ a b ≡ b)
max-either a b = ground arith

join-Joined :
    (master : String) (ep : Endpoint) (host : Option String) (epoch : Option ℤ) (flags : Bytes)
    (f : Frontier)
    → Joined master host epoch flags f (join_frontier master ep host epoch flags f)
unfolding join_frontier
join-Joined master ep none epoch flags f = (omega arith, tt, inl refl)
join-Joined master ep (some host) none flags f = tt
join-Joined master ep (some host) (some e) flags f =
    let other : Option Frontier = some (record f { frontier_epoch = max_ℤ f.frontier_epoch e }) in
    let member : Option Frontier = some (record {
      frontier_epoch = max_ℤ f.frontier_epoch e;
      cohort_exists = true;
      cohort = ep ∷ f.cohort;
      agree_epoch = max_ℤ f.agree_epoch e;
    }) in
    let electing = flags_indicate_election flags in
    let Holds : Option Frontier → Type 0 = Joined master (some host) (some e) flags f in
    if_intro Holds (not (str_eq host master)) other (if electing then none else member)
      (λ _. (ground arith, ground arith, inl refl))
      (λ same.
        if_intro Holds electing none member (λ _. tt)
          (λ quiet. (
            ground arith,
            ground arith,
            elim (max-either f.agree_epoch e) [
              | inl kept ↦ inl kept
              | inr raised ↦
                  inr (
                    ap some (ground (arith, same, eq_iff host master)),
                    sym (ap some raised),
                    quiet,
                  )
            ],
          )))

-- What the loop has found.
abbrev Found : String → (Endpoint → ProbeRead) → List Endpoint → Option Frontier → Type 0
Found master read eps none = Unit
Found master read eps (some f) =
    AllWithin f.frontier_epoch read eps
    × ((f.agree_epoch ≡ pos 0) ⊎ SomeLeads master f.agree_epoch read eps)

Within-mono :
    (g g' : ℤ) (host : Option String) (epoch : Option ℤ)
    → g ≤ℤ g'
    → WithinEpoch g host epoch
    → WithinEpoch g' host epoch
Within-mono g g' none epoch le h = tt
Within-mono g g' (some host) none le h = h
Within-mono g g' (some host) (some e) le h = omega (arith, le, h)

Found-cons :
    (master : String) (read : Endpoint → ProbeRead) (ep : Endpoint) (eps : List Endpoint)
    (f : Frontier) (o : Option Frontier)
    → Found master read eps (some f)
    → Joined master (monitored (read ep)) (epoch_of (read ep)) (flags_of (read ep)) f o
    → Found master read (ep ∷ eps) o
Found-cons master read ep eps f none found joined = tt
Found-cons master read ep eps f (some f') (within, leads) (le, here, agree) = (
  (
    here,
    All-mono (λ x. WithinEpoch f.frontier_epoch (monitored (read x)) (epoch_of (read x)))
        (λ x. WithinEpoch f'.frontier_epoch (monitored (read x)) (epoch_of (read x))) eps
        (λ x.
          Within-mono f.frontier_epoch f'.frontier_epoch (monitored (read x)) (epoch_of (read x))
            le)
        within,
  ),
  elim agree [
    | inr lead ↦ inr (inl lead)
    | inl same ↦ elim leads [
      | inl initial ↦ inl (same ∙ initial)
      | inr some_lead ↦ inr (inr (subst (λ g. SomeLeads master g read eps) (sym same) some_lead))
    ]
  ],
)

join_probe-Found :
    (master : String) (read : Endpoint → ProbeRead) (ep : Endpoint) (eps : List Endpoint)
    (o : Option Frontier)
    → Found master read eps o
    → Found master read (ep ∷ eps) (join_probe master ep (read ep) o)
join_probe-Found master read ep eps none h = tt
join_probe-Found master read ep eps (some f) h =
    Found-cons master read ep eps f
      (join_frontier master ep (monitored (read ep)) (epoch_of (read ep)) (flags_of (read ep)) f) h
      (join-Joined master ep (monitored (read ep)) (epoch_of (read ep)) (flags_of (read ep)) f)

frontier-Found :
    (master : String) (read : Endpoint → ProbeRead) (eps : List Endpoint)
    → Found master read eps (frontier_of master read eps)
unfolding frontier_of
frontier-Found master read [] = (tt, inl refl)
frontier-Found master read (ep ∷ eps) =
    join_probe-Found master read ep eps (frontier_of master read eps)
      (frontier-Found master read eps)

-- A sentinel that monitors another live pod, outside an election.
abbrev pub Strays : String → List String → ℤ → Option String → Option ℤ → Bytes → Type 0
Strays master live e host epoch flags =
    (epoch ≡ some e)
    × ((h : String) × (host ≡ some h) × (h ≢ master) × (is_live live h ≡ true))
    × (flags_indicate_election flags ≡ false)

-- It strays at an epoch that is behind another, which no sentinel that monitors anything exceeds, and at
-- which a sentinel monitors the master outside an election. (No sentinel reports a negative epoch.)
abbrev pub Behind :
    String → List String → (Endpoint → ProbeRead) → List Endpoint → Endpoint → Type 0
Behind master live read eps ep =
    (e : ℤ) × (g : ℤ) × Strays master live e (monitored (read ep)) (epoch_of (read ep))
      (flags_of (read ep))
    × (e <ℤ g)
    × AllWithin g read eps
    × ((pos 0 ≤ℤ e) → SomeLeads master g read eps)

stale_view-Strays :
    (master : String) (live : List String) (agree : ℤ) (host : Option String) (epoch : Option ℤ)
    (flags : Bytes)
    → stale_view master live agree host epoch flags ≡ true
    → (e : ℤ) × Strays master live e host epoch flags × (e <ℤ agree)
unfolding stale_view
stale_view-Strays master live agree none epoch flags h = absurd (ground (arith, h))
stale_view-Strays master live agree (some host) none flags h = absurd (ground (arith, h))
stale_view-Strays master live agree (some host) (some e) flags h = (
  e,
  (
    refl,
    (host, refl, λ same. ground (arith, same, h, eq_iff host master), ground (arith, h)),
    ground (arith, h),
  ),
  ground (arith, h),
)

same_epoch :
    (f : Frontier)
    → not f.cohort_exists || not (eq_ℤ f.agree_epoch f.frontier_epoch) ≡ false
    → f.agree_epoch ≡ f.frontier_epoch
same_epoch f h = eq_ℤ→eq f.agree_epoch f.frontier_epoch (ground (arith, h))

behind_frontier-Behind :
    (master : String) (live : List String) (read : Endpoint → ProbeRead) (eps : List Endpoint)
    (o : Option Frontier)
    → Found master read eps o
    → All (Behind master live read eps) (behind_frontier master live read eps o).stale_epoch
unfolding behind_frontier
behind_frontier-Behind master live read eps none h = tt
behind_frontier-Behind master live read eps (some f) (within, leads) =
    let stale = keep (λ ep. is_stale master live f.agree_epoch (read ep)) eps in
    let armed : StaleTargets = record {
      stale_epoch = stale;
      cohort = f.cohort;
      agree_epoch = f.agree_epoch;
    } in
    if_intro (λ t. All (Behind master live read eps) t.stale_epoch)
      (not f.cohort_exists || not (eq_ℤ f.agree_epoch f.frontier_epoch)) disarmed armed (λ _. tt)
      (λ agree.
        keep-All (Behind master live read eps) (λ ep. is_stale master live f.agree_epoch (read ep))
          eps
          (λ ep yes.
            let (e, strays, less) =
              stale_view-Strays master live f.agree_epoch (monitored (read ep)) (epoch_of (read ep))
                (flags_of (read ep)) yes in
            (
              e,
              f.agree_epoch,
              strays,
              less,
              subst (λ g. AllWithin g read eps) (sym (same_epoch f agree)) within,
              λ positive. elim leads [
                | inl initial ↦ absurd (ground (arith, initial, positive, less))
                | inr lead ↦ lead
              ],
            )))

-- Every sentinel of the stale class is behind the sentinels that monitor the master.
pub classify_stale-Behind :
    (master : String) (live : List String) (read : Endpoint → ProbeRead) (eps : List Endpoint)
    → All
        (Behind master live read eps)
        (classify_stale_epoch_targets master live read eps).stale_epoch
unfolding classify_stale_epoch_targets
classify_stale-Behind master live read eps =
    behind_frontier-Behind master live read eps (frontier_of master read eps)
      (frontier-Found master read eps)
