-- ===== src/Controller/Quorum/Gate.antt =====
-- When the gate is entered and left, over every history of readings.

use velkir.Prelude.{
  ℕ, ◌+◌, ◌≡◌, ◌≢◌, ◌⊎◌, refl, inr, true, false, not, List, [], ◌∷◌, Option, none, some, arith,
  if◌then◌else◌, if_intro,
}
use velkir.Prelude.Int.{pos, ◌≤ℤ◌, ◌<ℤ◌, leb_ℤ}
use velkir.Prelude.Time.{Time, zero_time, time_sub, after}
use velkir.Sentinel.Types.{QuorumStatus}
use velkir.Controller.Quorum.{
  on_quorum, on_loss, CrQuorumState, Reading, QuorumSuppressionTunables, Updated, unmoved,
  update_quorum_suppression, new_state, effective_loss_threshold, effective_recovery_polls,
  count_poll, on_quorum_ok, on_quorum_lost,
}

-- The state after a history, whose latest reading stands first.
unfoldable pub state_after : QuorumSuppressionTunables → List Reading → CrQuorumState
state_after tunables [] = new_state
state_after tunables (r ∷ rs) =
    (update_quorum_suppression tunables r (state_after tunables rs)).state

-- A reading of the history lost the quorum at this time, with this poll, and none since then had it.
abbrev pub LostSince : Time → Time → List Reading → Type 0
LostSince since poll [] = ⊥
LostSince since poll (r ∷ rs) =
    ((r.quorum ≡ QuorumStatus.lost) × (r.now ≡ since) × (r.polled_at ≡ poll))
    ⊎ ((r.quorum ≢ QuorumStatus.reachable) × LostSince since poll rs)

-- So many polls of the history had the quorum, each newer than the one before it, the last at this time,
-- and no reading between them or after them lost it.
pub data Streak : ℕ → Time → List Reading → Type 0 where
  begins : {rs : List Reading} → Streak 0 zero_time rs
  counts :
      {n m : ℕ} {last : Time} {r : Reading} {rs : List Reading}
      → m ≡ n + 1
      → r.quorum ≡ QuorumStatus.reachable
      → last <ℤ r.polled_at
      → Streak n last rs
      → Streak m r.polled_at (r ∷ rs)
  skips :
      {n : ℕ} {last : Time} {r : Reading} {rs : List Reading}
      → r.quorum ≢ QuorumStatus.lost
      → Streak n last rs
      → Streak n last (r ∷ rs)

-- What the stamps of the loss say of the history.
abbrev Onset : Option Time → Time → List Reading → Type 0
Onset none poll rs = Unit
Onset (some since) poll rs = LostSince since poll rs

abbrev Tracks : CrQuorumState → List Reading → Type 0
Tracks st rs =
    Onset st.quorum_lost_since st.quorum_lost_since_poll rs
    × Streak st.quorum_ok_consecutive_polls st.quorum_ok_last_counted_poll rs

keeps :
    (since : Option Time) (poll : Time) (r : Reading) (rs : List Reading)
    → r.quorum ≢ QuorumStatus.reachable
    → Onset since poll rs
    → Onset since poll (r ∷ rs)
keeps none poll r rs h o = tt
keeps (some since) poll r rs h o = inr (h, o)

count_poll-Tracks :
    (t : QuorumSuppressionTunables) (st : CrQuorumState) (r : Reading) (rs : List Reading)
    → r.quorum ≡ QuorumStatus.reachable
    → after r.polled_at st.quorum_ok_last_counted_poll ≡ true
    → Streak st.quorum_ok_consecutive_polls st.quorum_ok_last_counted_poll rs
    → Tracks
        (count_poll t r.polled_at
          (record st { quorum_lost_since = none; quorum_lost_since_poll = zero_time })).state
        (r ∷ rs)
unfolding count_poll
count_poll-Tracks t st r rs ok newer s =
    if_intro {A = Updated} (λ u. Tracks u.state (r ∷ rs))
      (leb_ℤ (effective_recovery_polls t) (pos (st.quorum_ok_consecutive_polls + 1)))
      (record {
        state = record st {
          quorum_lost_since = none;
          quorum_lost_since_poll = zero_time;
          suppression_active = false;
          quorum_ok_consecutive_polls = 0;
          quorum_ok_last_counted_poll = zero_time;
        };
        just_entered = false;
        just_exited = true;
      })
      (unmoved (record st {
        quorum_lost_since = none;
        quorum_lost_since_poll = zero_time;
        quorum_ok_last_counted_poll = r.polled_at;
        quorum_ok_consecutive_polls = st.quorum_ok_consecutive_polls + 1;
      }))
      (λ _. (tt, begins)) (λ _. (tt, counts refl ok (ground (arith, newer)) s))

on_quorum_ok-Tracks :
    (t : QuorumSuppressionTunables) (st : CrQuorumState) (r : Reading) (rs : List Reading)
    → r.quorum ≡ QuorumStatus.reachable
    → Tracks st rs
    → Tracks (on_quorum_ok t r.polled_at st).state (r ∷ rs)
unfolding on_quorum_ok
on_quorum_ok-Tracks t st r rs ok (o, s) =
    let kept : Streak st.quorum_ok_consecutive_polls st.quorum_ok_last_counted_poll (r ∷ rs) =
      skips (λ e. cc) s in
    let cleared : CrQuorumState = record st {
      quorum_lost_since = none;
      quorum_lost_since_poll = zero_time;
    } in
    if_intro {A = Updated} (λ u. Tracks u.state (r ∷ rs)) (not st.suppression_active)
      (unmoved cleared)
      (if not (after r.polled_at st.quorum_ok_last_counted_poll)
        then unmoved cleared
        else count_poll t r.polled_at cleared)
      (λ _. (tt, kept))
      (λ _.
        if_intro {A = Updated} (λ u. Tracks u.state (r ∷ rs))
          (not (after r.polled_at st.quorum_ok_last_counted_poll)) (unmoved cleared)
          (count_poll t r.polled_at cleared) (λ _. (tt, kept))
          (λ e. count_poll-Tracks t st r rs ok (ground (arith, e)) s))

on_quorum_lost-Tracks :
    (t : QuorumSuppressionTunables) (r : Reading) (st : CrQuorumState) (rs : List Reading)
    → r.quorum ≡ QuorumStatus.lost
    → Tracks st rs
    → Tracks (on_quorum_lost t r st).state (r ∷ rs)
unfolding on_quorum_lost on_loss
on_quorum_lost-Tracks t r st rs lost (o, s) = ground (
  arith,
  keeps st.quorum_lost_since st.quorum_lost_since_poll r rs (λ e. cc) o,
  begins {rs = r ∷ rs},
)

step-Tracks :
    (t : QuorumSuppressionTunables) (r : Reading) (q : QuorumStatus) (st : CrQuorumState)
    (rs : List Reading)
    → r.quorum ≡ q
    → Tracks st rs
    → Tracks (on_quorum q t r st).state (r ∷ rs)
unfolding on_quorum
step-Tracks t r QuorumStatus.unknown st rs e (o, s) =
    (keeps st.quorum_lost_since st.quorum_lost_since_poll r rs (λ h. cc) o, skips (λ h. cc) s)
step-Tracks t r QuorumStatus.reachable st rs e h = on_quorum_ok-Tracks t st r rs e h
step-Tracks t r QuorumStatus.lost st rs e h = on_quorum_lost-Tracks t r st rs e h

state_after-Tracks :
    (t : QuorumSuppressionTunables) (rs : List Reading) → Tracks (state_after t rs) rs
unfolding state_after update_quorum_suppression
state_after-Tracks t [] = (tt, begins)
state_after-Tracks t (r ∷ rs) =
    let h = state_after-Tracks t rs in
    step-Tracks t r r.quorum (record (state_after t rs) { last_quorum = r.quorum }) rs refl h

-- The loss that a reading must confirm: its onset with the poll that saw it.
abbrev pub Confirmed : QuorumSuppressionTunables → Reading → List Reading → Type 0
Confirmed t r rs =
    (r.quorum ≡ QuorumStatus.lost)
    × ((since : Time) × (poll : Time) × LostSince since poll rs
        × (poll <ℤ r.polled_at)
        × (effective_loss_threshold t ≤ℤ time_sub r.now since))

on_loss-entered :
    (since : Option Time) (t : QuorumSuppressionTunables) (r : Reading) (st : CrQuorumState)
    (rs : List Reading)
    → r.quorum ≡ QuorumStatus.lost
    → Onset since st.quorum_lost_since_poll rs
    → (on_loss since t r st).just_entered ≡ true
    → Confirmed t r rs
unfolding on_loss
on_loss-entered none t r st rs lost o h = cc
on_loss-entered (some since) t r st rs lost o h =
    (lost, (since, st.quorum_lost_since_poll, o, ground (arith, h), ground (arith, h)))

on_quorum_lost-entered :
    (t : QuorumSuppressionTunables) (r : Reading) (st : CrQuorumState) (rs : List Reading)
    → r.quorum ≡ QuorumStatus.lost
    → Tracks st rs
    → (on_quorum_lost t r st).just_entered ≡ true
    → Confirmed t r rs
unfolding on_quorum_lost
on_quorum_lost-entered t r st rs lost (o, s) h =
    on_loss-entered st.quorum_lost_since t r
      (record st { quorum_ok_consecutive_polls = 0; quorum_ok_last_counted_poll = zero_time }) rs
      lost o (ground (arith, h))

on_quorum-entered :
    (q : QuorumStatus) (t : QuorumSuppressionTunables) (r : Reading) (st : CrQuorumState)
    (rs : List Reading)
    → r.quorum ≡ q
    → Tracks st rs
    → (on_quorum q t r st).just_entered ≡ true
    → Confirmed t r rs
unfolding on_quorum on_quorum_ok count_poll
on_quorum-entered QuorumStatus.unknown t r st rs e h entered = cc
on_quorum-entered QuorumStatus.reachable t r st rs e h entered = ground (arith, entered)
on_quorum-entered QuorumStatus.lost t r st rs e h entered =
    on_quorum_lost-entered t r st rs e h entered

-- The gate is entered only by a reading that confirms a loss: it lost the quorum itself, an earlier
-- reading did, none between them had it, the threshold has passed between them, and the poll is newer than
-- the one that opened the loss. An observer that repeats one poll never closes it.
pub update-entered :
    (t : QuorumSuppressionTunables) (r : Reading) (rs : List Reading)
    → (update_quorum_suppression t r (state_after t rs)).just_entered ≡ true
    → Confirmed t r rs
unfolding update_quorum_suppression
update-entered t r rs entered =
    on_quorum-entered r.quorum t r (record (state_after t rs) { last_quorum = r.quorum }) rs refl
      (state_after-Tracks t rs) entered

-- Enough polls that had the quorum, in a row.
abbrev pub Recovered : QuorumSuppressionTunables → Reading → List Reading → Type 0
Recovered t r rs = (n : ℕ) × (effective_recovery_polls t ≤ℤ pos n) × Streak n r.polled_at (r ∷ rs)

on_quorum_ok-exited :
    (t : QuorumSuppressionTunables) (r : Reading) (st : CrQuorumState) (rs : List Reading)
    → r.quorum ≡ QuorumStatus.reachable
    → Streak st.quorum_ok_consecutive_polls st.quorum_ok_last_counted_poll rs
    → (on_quorum_ok t r.polled_at st).just_exited ≡ true
    → Recovered t r rs
unfolding on_quorum_ok count_poll
on_quorum_ok-exited t r st rs ok s exited = (
  st.quorum_ok_consecutive_polls + 1,
  ground (arith, exited),
  counts refl ok (ground (arith, exited)) s,
)

on_quorum-exited :
    (q : QuorumStatus) (t : QuorumSuppressionTunables) (r : Reading) (st : CrQuorumState)
    (rs : List Reading)
    → r.quorum ≡ q
    → Tracks st rs
    → (on_quorum q t r st).just_exited ≡ true
    → Recovered t r rs
unfolding on_quorum on_quorum_lost on_loss
on_quorum-exited QuorumStatus.unknown t r st rs e h exited = cc
on_quorum-exited QuorumStatus.reachable t r st rs e h exited =
    on_quorum_ok-exited t r st rs e h.1 exited
on_quorum-exited QuorumStatus.lost t r st rs e h exited = absurd (ground (arith, exited))

-- The gate is left only after enough polls that had the quorum, each newer than the one before, with no
-- loss between them.
pub update-exited :
    (t : QuorumSuppressionTunables) (r : Reading) (rs : List Reading)
    → (update_quorum_suppression t r (state_after t rs)).just_exited ≡ true
    → Recovered t r rs
unfolding update_quorum_suppression
update-exited t r rs exited =
    on_quorum-exited r.quorum t r (record (state_after t rs) { last_quorum = r.quorum }) rs refl
      (state_after-Tracks t rs) exited
