-- ===== src/Sentinel/Observer.antt =====
-- internal/sentinel/observer.go: what the observer of one resource publishes. A frame is given as it is
-- parsed, and a poll by what each endpoint answers; the connections are left out. Go ranges over the map of
-- the counted addresses in no fixed order: the order is a parameter that rearranges them. Each frame and
-- each poll holds the lock and is one step; metrics, the per-endpoint readings and the wake-up of the
-- controller are left out.
pub mod Agreement
pub mod Runs
pub mod Winner
use velkir.Prelude.{
  ℕ, suc, ◌+◌, Bool, true, false, not, ◌&&◌, List, [], ◌∷◌, Option, none, some, String, str_eq, ltb,
  leb, ◌==◌, if◌then◌else◌, length,
}
use velkir.Prelude.Int.{ℤ, pos, max_ℤ}
use velkir.Prelude.Time.{Time}
use Prim.Native.Nat.{Ordering, ◌/◌}
use Prim.Native.String.{compare}
use velkir.Sentinel.Types.{QuorumStatus, Source, StampMap, ObservedPrimary}

-- The published primary, and the two maps of o_down stamps.
pub record Observer : Type 0 where
  pub published : ObservedPrimary
  pub odown : StampMap
  pub odown_pull : StampMap

pub record SwitchMasterEvent : Type 0 where
  pub master_name : String
  pub old_addr : String
  pub new_addr : String

pub record MasterEvent : Type 0 where
  pub master_name : String
  pub addr : String

-- A frame of the subscription; `none` is a payload that does not parse.
pub data Frame : Type 0 where
  switch_master : Option SwitchMasterEvent → Frame
  odown odown_clear failover_end : Option MasterEvent → Frame
  other_kind : Frame

-- A map of stamps: a write and a deletion.
unfoldable pub stamp : String → Time → StampMap → StampMap
stamp k t [] = (k, t) ∷ []
stamp k t ((j, u) ∷ m) = if str_eq j k then (k, t) ∷ m else (j, u) ∷ stamp k t m

unfoldable pub unstamp : String → StampMap → StampMap
unstamp k [] = []
unstamp k ((j, u) ∷ m) = let rest = unstamp k m in if str_eq j k then rest else (j, u) ∷ rest

unfoldable pub stamped_at : String → StampMap → Option Time
stamped_at k [] = none
stamped_at k ((j, u) ∷ m) = if str_eq j k then some u else stamped_at k m

abbrev pub is_reachable : QuorumStatus → Bool
is_reachable QuorumStatus.reachable = true
is_reachable _ = false

unfoldable pub publish_locked :
    Time → QuorumStatus → String → ℤ → Source → Time → Observer → Observer
publish_locked now q addr epoch src last_polled_at o = record o {
  published = record {
    addr = addr;
    epoch = epoch;
    quorum = q;
    quorum_ok = is_reachable q;
    updated_at = now;
    last_polled_at = last_polled_at;
    source = src;
    odown = o.odown;
    odown_pull = o.odown_pull;
  };
}

-- A republication that carries the quorum, the epoch and the poll stamp forward.
unfoldable pub carry : Time → String → Source → Observer → Observer
carry now addr src o =
    let prev = o.published in
    publish_locked now prev.quorum addr prev.epoch src prev.last_polled_at o

unfoldable pub on_switch_master : Time → SwitchMasterEvent → Observer → Observer
on_switch_master now ev o =
    if not (str_eq o.published.addr "") && not (str_eq ev.old_addr o.published.addr)
    then o
    else carry now ev.new_addr Source.pubsub o

unfoldable pub on_odown : Time → String → Observer → Observer
on_odown now ep o =
    carry now o.published.addr o.published.source (record o { odown = stamp ep now o.odown })

unfoldable pub on_odown_clear : Time → String → Observer → Observer
on_odown_clear now ep o =
    carry now o.published.addr o.published.source (record o { odown = unstamp ep o.odown })

-- A frame from this endpoint, for the master of this name.
unfoldable pub dispatch : String → Time → String → Frame → Observer → Observer
dispatch master now ep (switch_master (some ev)) o =
    if str_eq ev.master_name master then on_switch_master now ev o else o
dispatch master now ep (odown (some ev)) o =
    if str_eq ev.master_name master then on_odown now ep o else o
dispatch master now ep (odown_clear (some ev)) o =
    if str_eq ev.master_name master then on_odown_clear now ep o else o
dispatch master now ep (failover_end (some ev)) o =
    if str_eq ev.master_name master then carry now ev.addr Source.pubsub o else o
dispatch master now ep _ o = o

-- What an endpoint answers: the address that it names, the epoch, whether it reaches a quorum, and whether
-- its flags say o_down, if it has them.
pub record Answer : Type 0 where
  pub addr : String
  pub epoch : ℤ
  pub quorum_ok : Bool
  pub odown : Option Bool

-- An endpoint with its answer, or `none` for an error.
abbrev pub Polled : Type 0
Polled = String × Option Answer

unfoldable pub reconcile_odown_pull : Time → List Polled → StampMap → StampMap
reconcile_odown_pull now [] m = m
reconcile_odown_pull now ((ep, none) ∷ rest) m = reconcile_odown_pull now rest m
reconcile_odown_pull now ((ep, some a) ∷ rest) m = reconcile_odown_pull now rest (elim a.odown [
  | none ↦ m
  | some down ↦
      if down then elim (stamped_at ep m) [ none ↦ stamp ep now m | some t ↦ m ] else unstamp ep m
])

unfoldable pub reachable_count : List Polled → ℕ
reachable_count [] = 0
reachable_count ((ep, none) ∷ rest) = reachable_count rest
reachable_count ((ep, some a) ∷ rest) = suc (reachable_count rest)

unfoldable pub max_epoch : List Polled → ℤ
max_epoch [] = pos 0
max_epoch ((ep, none) ∷ rest) = max_epoch rest
max_epoch ((ep, some a) ∷ rest) = max_ℤ (max_epoch rest) a.epoch

-- One more vote for an address.
unfoldable pub count_vote : String → List (String × ℕ) → List (String × ℕ)
count_vote addr [] = (addr, 1) ∷ []
count_vote addr ((a, n) ∷ m) = if str_eq a addr then (a, suc n) ∷ m else (a, n) ∷ count_vote addr m

unfoldable pub addr_count : List Polled → List (String × ℕ)
addr_count [] = []
addr_count ((ep, none) ∷ rest) = addr_count rest
addr_count ((ep, some a) ∷ rest) =
    let m = addr_count rest in if str_eq a.addr "" then m else count_vote a.addr m

-- How many endpoints name this address and reach a quorum.
unfoldable pub quorum_votes : String → List Polled → ℕ
quorum_votes addr [] = 0
quorum_votes addr ((ep, none) ∷ rest) = quorum_votes addr rest
quorum_votes addr ((ep, some a) ∷ rest) =
    let n = quorum_votes addr rest in
    if not (str_eq a.addr "") && str_eq a.addr addr && a.quorum_ok then suc n else n

abbrev pub text_before : String → String → Bool
text_before s t = elim (compare s t) [ Ordering.lt ↦ true | _ ↦ false ]

unfoldable pub break_addr_tie : String → String → String → String
break_addr_tie x y incumbent =
    if str_eq x incumbent
    then x
    else if str_eq y incumbent
    then y
    else if text_before x y
    then x
    else y

-- The winner so far, with its votes, after one address of the map.
unfoldable pub stand : String → String × ℕ → String × ℕ → String × ℕ
stand incumbent (winner, votes) (a, n) =
    if ltb votes n
    then (a, n)
    else if n == votes
    then (break_addr_tie winner a incumbent, votes)
    else (winner, votes)

unfoldable pub winner_of : String → String × ℕ → List (String × ℕ) → String × ℕ
winner_of incumbent best [] = best
winner_of incumbent best (x ∷ xs) = winner_of incumbent (stand incumbent best x) xs

unfoldable pub quorum_threshold : ℕ → ℕ
quorum_threshold n = if leb n 2 then n else n / 2 + 1

abbrev pub Order : Type 0
Order = List (String × ℕ) → List (String × ℕ)

unfoldable pub publish_poll : Order → Time → List Polled → Observer → Observer
publish_poll order now polls o =
    let prev = o.published in
    let epoch = max_ℤ prev.epoch (max_epoch polls) in
    let threshold = quorum_threshold (length polls) in
    let winner = (winner_of prev.addr ("", 0) (order (addr_count polls))).0 in
    let src =
      if not (str_eq prev.addr "") && str_eq prev.addr winner then Source.merge else Source.poll in
    if ltb (reachable_count polls) threshold
    then publish_locked now QuorumStatus.unknown prev.addr epoch Source.poll now o
    else if leb threshold (quorum_votes winner polls)
    then publish_locked now QuorumStatus.reachable winner epoch src now o
    else publish_locked now QuorumStatus.lost prev.addr epoch src now o

-- `pollOnce`, once the endpoints have answered.
unfoldable pub poll_once : Order → Time → List Polled → Observer → Observer
poll_once order now polls o =
    publish_poll order now polls
      (record o { odown_pull = reconcile_odown_pull now polls o.odown_pull })
