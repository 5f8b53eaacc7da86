-- ===== src/Sentinel/TripleCheck/Decision.antt =====
-- When the operator may fail over, and how the decision ages.
use velkir.Prelude.{
  ◌≤◌, ◌≡◌, ◌↔◌, refl, Bool, true, false, not, ◌&&◌, List, [], ◌∷◌, String, count_if, arith,
}
use velkir.Prelude.Int.{pos, ◌-ℤ◌, ◌≤ℤ◌, ◌<ℤ◌, leb_ℤ, -ℤ_parts}
use velkir.Prelude.Time.{Time, is_zero, max_duration, time_sub_le}
use velkir.Sentinel.TripleCheck.{Inputs, is_recent, consensus_odown, evaluate_triple_check}

-- The bounds that production sets: both ages are positive, and shorter than the longest duration.
abbrev pub HasBounds : Inputs → Type 0
HasBounds i =
    (pos 0 <ℤ i.odown_staleness)
    × (pos 0 <ℤ i.max_snapshot_age)
    × (i.max_snapshot_age <ℤ max_duration)

-- A sentinel's report of an objectively down primary that is no older than the staleness bound.
unfoldable pub reports_down : Inputs → String × Time → Bool
reports_down i (name, t) = not (is_zero t) && leb_ℤ (i.now -ℤ i.odown_staleness) t

reports_down-is_recent :
    (i : Inputs) (p : String × Time) → is_recent (i.now -ℤ i.odown_staleness) p ≡ reports_down i p
unfolding is_recent reports_down
reports_down-is_recent i (name, t) = ground arith

count_if-ext {ℓ} :
    {A : Type ℓ} (p q : A → Bool) (xs : List A)
    → ((x : A) → p x ≡ q x)
    → count_if p xs ≡ count_if q xs
count_if-ext p q [] h = refl
count_if-ext p q (x ∷ xs) h = ground (arith, h x, count_if-ext p q xs h)

consensus-reports_down :
    (i : Inputs)
    → pos 0 <ℤ i.odown_staleness
    → consensus_odown i.snapshot.primary.odown i.now i.odown_staleness
      ≡ count_if (reports_down i) i.snapshot.primary.odown
unfolding consensus_odown
consensus-reports_down i h = ground (
  arith,
  count_if-ext (is_recent (i.now -ℤ i.odown_staleness)) (reports_down i) i.snapshot.primary.odown
      (reports_down-is_recent i),
)

pub triple_check :
    (i : Inputs)
    → HasBounds i
    → ((evaluate_triple_check i).allow ≡ true) ↔ (
        (i.snapshot.present ≡ true)
        × (i.now -ℤ i.snapshot.primary.updated_at ≤ℤ i.max_snapshot_age)
        × (i.snapshot.primary.quorum_ok ≡ true)
        × (i.quorum ≤ℤ pos (count_if (reports_down i) i.snapshot.primary.odown))
        × (i.pod_is_ready ≡ false))
unfolding evaluate_triple_check
triple_check i b =
    let age =
      time_sub_le i.now i.snapshot.primary.updated_at i.max_snapshot_age (omega arith) b.2 in
    let count = consensus-reports_down i b.0 in
    (ground (arith, age.0, count), ground (arith, age.1, count))

count_if_mono {ℓ} :
    {A : Type ℓ} (p q : A → Bool) (xs : List A)
    → ((x : A) → p x ≡ true → q x ≡ true)
    → count_if p xs ≤ count_if q xs
count_if_mono p q [] h = omega arith
count_if_mono p q (x ∷ xs) h = ground (arith, h x, count_if_mono p q xs h)

abbrev pub at_time : Inputs → Time → Inputs
at_time i later = record i { now = later }

reports_down-earlier :
    (i : Inputs) (later : Time) (p : String × Time)
    → i.now ≤ℤ later
    → reports_down (at_time i later) p ≡ true
    → reports_down i p ≡ true
unfolding reports_down
reports_down-earlier i later (name, t) h r =
    ground (arith, -ℤ_parts i.now i.odown_staleness, -ℤ_parts later i.odown_staleness)

-- A permission only runs out: what the same observations permit at a later time they permitted
-- before, so with no new snapshot a refusal is never turned into a failover by waiting.
pub permit-earlier :
    (i : Inputs) (later : Time)
    → HasBounds i
    → i.now ≤ℤ later
    → (evaluate_triple_check (at_time i later)).allow ≡ true
    → (evaluate_triple_check i).allow ≡ true
permit-earlier i later b h p =
    let (here, young, agreed, enough, down) = (triple_check (at_time i later) b).0 p in
    let more =
      count_if_mono (reports_down (at_time i later)) (reports_down i) i.snapshot.primary.odown
        (λ x. reports_down-earlier i later x h) in
    (triple_check i b).1 (
      here,
      omega (
        arith,
        young,
        -ℤ_parts i.now i.snapshot.primary.updated_at,
        -ℤ_parts later i.snapshot.primary.updated_at,
      ),
      agreed,
      omega (arith, enough, more),
      down,
    )
