-- ===== src/Controller/RolloutTrigger/Edges.antt =====
-- The signals against the reads before them.
use velkir.Prelude.{◌≡◌, refl, not, ◌&&◌, List, [], ◌∷◌, some, String, str_eq, eq_iff, arith, All}
use velkir.Controller.RolloutTrigger.{
  RolloutTriggerState, StsRead, failed, missing, revisions, is_pending, signal_of, tracked,
  rollout_trigger_edge, track_all,
}

-- A read that found no StatefulSet, or no answer.
abbrev pub Blank : StsRead → Type 0
Blank (revisions t c) = ⊥
Blank _ = Unit

track_all-Blank :
    (tr : RolloutTriggerState) (gap : List StsRead) → All Blank gap → track_all tr gap ≡ tr
unfolding track_all rollout_trigger_edge
track_all-Blank tr [] h = refl
track_all-Blank tr (failed ∷ gap) h = track_all-Blank tr gap h.1
track_all-Blank tr (missing ∷ gap) h = track_all-Blank tr gap h.1
track_all-Blank tr (revisions t c ∷ gap) h = absurd h.0

signal_of-tracked :
    (t c t' c' : String)
    → (signal_of (tracked t c) t' c').edge ≡ is_pending t' c' && not (is_pending t c)
unfolding signal_of tracked
signal_of-tracked t c t' c' = ground arith

change_of-tracked :
    (t c t' c' : String)
    → (signal_of (tracked t c) t' c').mid_rollout_change
      ≡ is_pending t' c' && (is_pending t c && not (str_eq t' t))
unfolding signal_of tracked is_pending
change_of-tracked t c t' c' = ground (arith, eq_iff t "")

-- Whatever went before and however many reads in between found no StatefulSet or failed, a read gives the
-- fresh edge exactly when a rollout is pending now and was not at the last read, and the change of
-- target exactly when one is pending now and was then, with another target.
pub trigger-edges :
    (tr : RolloutTriggerState) (t c t' c' : String) (gap : List StsRead)
    → All Blank gap
    → (rollout_trigger_edge (track_all tr (revisions t c ∷ gap)) (revisions t' c')).0
      ≡ some (record {
        edge = is_pending t' c' && not (is_pending t c);
        mid_rollout_change = is_pending t' c' && (is_pending t c && not (str_eq t' t));
      })
unfolding track_all rollout_trigger_edge
trigger-edges tr t c t' c' gap h = ground (
  arith,
  track_all-Blank (tracked t c) gap h,
  signal_of-tracked t c t' c',
  change_of-tracked t c t' c',
)
