-- ===== src/Controller/Quorum/Episode/Wedged.antt =====
-- An observer that repeats one poll.
use velkir.Prelude.{
  ℕ, suc, ◌≤◌, ◌≡◌, ◌≢◌, ◌⊎◌, refl, true, false, List, [], ◌∷◌, Option, none, some, arith,
  if◌then◌else◌,
}
use velkir.Prelude.Int.{pos, ◌≤ℤ◌, ◌<ℤ◌}
use velkir.Prelude.Time.{Time}
use velkir.Sentinel.Types.{QuorumStatus}
use velkir.Controller.Quorum.{CrQuorumState, Reading}
use velkir.Controller.Quorum.Episode.{
  update_split_brain_sustained, continue_episode, start_episode, expire_or_read,
  advance_split_brain_confirmation, Sustained,
}

-- The readings of a wedged observer at these times.
abbrev pub repeats : QuorumStatus → Time → Time → Reading
repeats q poll now = record { quorum = q; polled_at = poll; now = now }

-- How many episodes start while one poll that lost the quorum is read again and again.
unfoldable pub episodes : Time → List Time → CrQuorumState → ℕ
episodes poll [] st = 0
episodes poll (now ∷ times) st =
    let u = update_split_brain_sustained true (repeats QuorumStatus.lost poll now) st in
    let rest = episodes poll times u.state in if u.episode_started then suc rest else rest

-- The episode has this poll or a newer one, or it has expired and such a poll is remembered.
abbrev Seen : Time → CrQuorumState → Type 0
Seen poll st =
    ((st.split_brain_since ≢ none) × (poll ≤ℤ st.split_brain_poll_at))
    ⊎ ((st.split_brain_since ≡ none) × (poll ≤ℤ st.split_brain_expired_poll_at))

abbrev again : Time → Time → CrQuorumState → Sustained
again poll now st = update_split_brain_sustained true (repeats QuorumStatus.lost poll now) st

first-Seen :
    (since : Option Time) (poll now : Time) (st : CrQuorumState)
    → st.split_brain_since ≡ since
    → pos 0 <ℤ poll
    → Seen poll (again poll now st).state
unfolding update_split_brain_sustained continue_episode start_episode expire_or_read
    advance_split_brain_confirmation
first-Seen none poll now st e set = ground (arith, e, set)
first-Seen (some since) poll now st e set = ground (arith, e, set)

again_quiet :
    (since : Option Time) (poll now : Time) (st : CrQuorumState)
    → st.split_brain_since ≡ since
    → pos 0 <ℤ poll
    → Seen poll st
    → (again poll now st).episode_started ≡ false
unfolding update_split_brain_sustained continue_episode start_episode expire_or_read
again_quiet none poll now st e set h = ground (arith, e, h, set)
again_quiet (some since) poll now st e set h = ground (arith, e, h, set)

no_more_episodes :
    (poll : Time) (times : List Time) (st : CrQuorumState)
    → pos 0 <ℤ poll
    → Seen poll st
    → episodes poll times st ≡ 0
unfolding episodes
no_more_episodes poll [] st set h = refl
no_more_episodes poll (now ∷ times) st set h =
    rw (again_quiet st.split_brain_since poll now st refl set h) (
      no_more_episodes poll times (again poll now st).state set
        (first-Seen st.split_brain_since poll now st refl set))

-- An observer that hangs, so that one poll that lost the quorum is read again and again, starts at most one
-- episode, however long it hangs and in whatever state it began: an episode that expires does not start
-- again without a newer poll.
pub episodes_once :
    (poll : Time) (times : List Time) (st : CrQuorumState)
    → pos 0 <ℤ poll
    → episodes poll times st ≤ 1
unfolding episodes
episodes_once poll [] st set = omega arith
episodes_once poll (now ∷ times) st set = ground (
  arith,
  no_more_episodes poll times (again poll now st).state set
      (first-Seen st.split_brain_since poll now st refl set),
)
