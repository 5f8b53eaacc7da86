-- ===== src/Sentinel/SurgeryGuard.antt =====
-- internal/sentinel/surgery_guard.go: the checks before a sentinel is wiped. What the network returns
-- for each endpoint is a parameter: the source reads every endpoint once, in parallel, and waits for
-- all the reads. A text of flags is the list of its bytes.
pub mod Quiet
use velkir.Prelude.{
  ℕ, Bool, true, false, not, ◌&&◌, ◌||◌, List, [], ◌∷◌, Option, none, some, String, any, ◌==◌,
  if◌then◌else◌,
}
use Prim.Native.Char.{code}
use velkir.Prelude.Int.{ℤ, ltb_ℤ, leb_ℤ}
use velkir.Sentinel.Types.{Endpoint}

abbrev pub Bytes : Type 0
Bytes = List ℕ

abbrev pub codes : String → Bytes
codes String.[] = []
codes (String.◌∷◌ c s) = code c ∷ codes s

unfoldable pub is_prefix : Bytes → Bytes → Bool
is_prefix [] ys = true
is_prefix (x ∷ xs) [] = false
is_prefix (x ∷ xs) (y ∷ ys) = x == y && is_prefix xs ys

-- `strings.Contains(s, sub)`.
unfoldable pub contains : Bytes → Bytes → Bool
contains [] sub = is_prefix sub []
contains (c ∷ s) sub = is_prefix sub (c ∷ s) || contains s sub

abbrev pub failover_in_progress : Bytes
failover_in_progress = codes "failover_in_progress"

abbrev pub o_down : Bytes
o_down = codes "o_down"

abbrev pub s_down : Bytes
s_down = codes "s_down"

unfoldable pub flags_indicate_election : Bytes → Bool
flags_indicate_election flags =
    contains flags failover_in_progress || (contains flags o_down || contains flags s_down)

-- What `masterFlagsOne` and `masterFlagsEpochOne` read from one endpoint: a failure on the wire, or a
-- reply with the fields that it carries.
pub data MasterRead : Type 0 where
  failed : MasterRead
  replied : Option Bytes → Option ℤ → MasterRead

abbrev progress_in : MasterRead → Bool
progress_in (replied (some flags) epoch) = contains flags failover_in_progress
progress_in _ = false

-- `anyFailoverInProgress`: endpoints that fail to answer cannot veto.
unfoldable pub any_failover_in_progress : (Endpoint → MasterRead) → List Endpoint → Bool
any_failover_in_progress read endpoints = any (λ ep. progress_in (read ep)) endpoints

-- A read that proves the member to be outside an election.
abbrev pub is_quiet : MasterRead → Bool
is_quiet (replied (some flags) epoch) = not (flags_indicate_election flags)
is_quiet _ = false

-- `recheckElectionQuiet`: the targets that are proved quiet, in their order.
unfoldable pub recheck_election_quiet : (Endpoint → MasterRead) → List Endpoint → List Endpoint
recheck_election_quiet read [] = []
recheck_election_quiet read (ep ∷ eps) =
    if is_quiet (read ep)
    then ep ∷ recheck_election_quiet read eps
    else recheck_election_quiet read eps

abbrev pub epoch_of : MasterRead → Option ℤ
epoch_of (replied flags epoch) = epoch
epoch_of failed = none

-- The frontier after one more read: the greatest epoch that was readable.
abbrev pub raise : Option ℤ → Option ℤ → Option ℤ
raise frontier none = frontier
raise none (some e) = some e
raise (some m) (some e) = if ltb_ℤ m e then some e else some m

pub holds_frontier : Option ℤ → ℤ → Bool
holds_frontier none agree_epoch = false
holds_frontier (some m) agree_epoch = leb_ℤ agree_epoch m

-- The loop over the reads, with the frontier so far.
unfoldable pub cohort_loop : List MasterRead → Option ℤ → ℤ → Bool
unfolding holds_frontier
cohort_loop [] frontier agree_epoch = holds_frontier frontier agree_epoch
cohort_loop (r ∷ rs) frontier agree_epoch =
    let rest = cohort_loop rs (raise frontier (epoch_of r)) agree_epoch in
    if not (is_quiet r) then false else rest

abbrev pub reads_of : (Endpoint → MasterRead) → List Endpoint → List MasterRead
reads_of read [] = []
reads_of read (ep ∷ eps) = read ep ∷ reads_of read eps

unfoldable pub destination_cohort_quiet : (Endpoint → MasterRead) → List Endpoint → ℤ → Bool
destination_cohort_quiet read [] agree_epoch = false
destination_cohort_quiet read (ep ∷ eps) agree_epoch =
    cohort_loop (reads_of read (ep ∷ eps)) none agree_epoch
