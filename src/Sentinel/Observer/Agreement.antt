-- ===== src/Sentinel/Observer/Agreement.antt =====
-- What stands behind a published quorum.
use velkir.Prelude.{
  ℕ, ◌+◌, ◌≤◌, ◌<◌, ◌≡◌, ◌≢◌, List, [], ◌∷◌, none, some, String, arith, eq_iff, length,
}
use velkir.Prelude.Time.{Time}
use velkir.Sentinel.Types.{QuorumStatus}
use velkir.Sentinel.Observer.{
  Observer, Polled, Order, publish_locked, publish_poll, poll_once, quorum_votes, quorum_threshold,
  reconcile_odown_pull,
}

-- No endpoint votes for two addresses.
votes_of_two :
    (a b : String) (polls : List Polled)
    → a ≢ b
    → quorum_votes a polls + quorum_votes b polls ≤ length polls
unfolding quorum_votes
votes_of_two a b [] h = omega arith
votes_of_two a b ((ep, none) ∷ rest) h = omega (arith, votes_of_two a b rest h)
votes_of_two a b ((ep, some x) ∷ rest) h =
    ground (arith, votes_of_two a b rest h, eq_iff x.addr a, eq_iff x.addr b, h)

threshold_majority : (n : ℕ) → 0 < n → n < quorum_threshold n + quorum_threshold n
unfolding quorum_threshold
threshold_majority n h = ground arith

-- As many endpoints as a quorum needs name this address and reach a quorum, and no other address has as
-- many.
abbrev pub Agreed : List Polled → String → Type 0
Agreed polls addr =
    (quorum_threshold (length polls) ≤ quorum_votes addr polls)
    × ((b : String) → b ≢ addr → quorum_votes b polls < quorum_threshold (length polls))

publish-Agreed :
    (order : Order) (now : Time) (polls : List Polled) (o : Observer)
    → 0 < length polls
    → (publish_poll order now polls o).published.quorum ≡ QuorumStatus.reachable
    → quorum_threshold (length polls)
      ≤ quorum_votes (publish_poll order now polls o).published.addr polls
unfolding publish_poll publish_locked
publish-Agreed order now polls o some_polls h = ground (arith, h)

-- A poll of at least one endpoint that publishes a quorum publishes an address that a quorum of the
-- endpoints names, each of which reaches a quorum itself; no other address has as many votes, in whatever
-- order they are counted.
pub poll-Agreed :
    (order : Order) (now : Time) (polls : List Polled) (o : Observer)
    → 0 < length polls
    → (poll_once order now polls o).published.quorum ≡ QuorumStatus.reachable
    → Agreed polls (poll_once order now polls o).published.addr
unfolding poll_once
poll-Agreed order now polls o some_polls h =
    let o' : Observer = record o { odown_pull = reconcile_odown_pull now polls o.odown_pull } in
    let enough = publish-Agreed order now polls o' some_polls h in
    (
      enough,
      λ b other. omega (
        arith,
        enough,
        votes_of_two b (publish_poll order now polls o').published.addr polls other,
        threshold_majority (length polls) some_polls,
      ),
    )
