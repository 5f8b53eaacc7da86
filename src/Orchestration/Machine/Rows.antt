-- ===== src/Orchestration/Machine/Rows.antt =====
-- The lookup over the rows of a table: when the order of the rows does not matter, and that no row
-- of the rollout table is dead.
use mathlib.Core.List.{Permᴰ}
use velkir.Prelude.{
  ◌≡◌, refl, sym, ◌∙◌, Bool, true, false, ◌≤◌, List, [], ◌∷◌, arith, count_if, All, Bool-cases, inl,
  inr, if◌then◌else◌,
}
use velkir.Prelude.Search.{first_of_list, first_of_list-perm}
use velkir.Orchestration.Machine.Table.{default_transitions}
use velkir.Orchestration.Machine.{
  State, Event, GuardCtx, Transition, row_matches, guard_passes, no_effect, fire, apply, Verdict,
}

-- Whether a row matches one lookup, as a test on rows.
hits : State → Event → GuardCtx → Transition → Bool
hits s e c t = row_matches t s e c

abbrev kept : State → Verdict
kept s = (s, no_effect, false)

apply-first :
    (ts : List Transition) (s : State) (e : Event) (c : GuardCtx)
    → apply ts s e c ≡ first_of_list (hits s e c) fire (kept s) ts
unfolding apply first_of_list hits
apply-first [] s e c = refl
apply-first (t ∷ ts) s e c = elim (Bool-cases (row_matches t s e c)) [
  | inl p ↦ rw (p, first_of_list)
  | inr p ↦ rw (p, first_of_list) (apply-first ts s e c)
]

-- The order of a table does not matter to a lookup that at most one row matches.
apply-perm :
    (s : State) (e : Event) (c : GuardCtx) {ts us : List Transition}
    → Permᴰ ts us
    → count_if (hits s e c) ts ≤ 1
    → apply ts s e c ≡ apply us s e c
apply-perm s e c {ts} {us} p h =
    apply-first ts s e c
    ∙ first_of_list-perm (hits s e c) fire (kept s) p h
    ∙ sym (apply-first us s e c)

-- No quorum is reported while a split brain is suspected.
abbrev pub IsConsistent : GuardCtx → Type 0
IsConsistent c = c.split_brain ≡ true → c.quorum_ok ≡ false

default-exclusive :
    (s : State) (e : Event) (c : GuardCtx)
    → IsConsistent c
    → count_if (hits s e c) default_transitions ≤ 1
unfolding hits default_transitions
default-exclusive State.bootstrap Event.cr_created c h = ground arith
default-exclusive _ _ c h = ground arith

-- Under every context in which a suspected split brain rules out quorum, the rows of the rollout
-- table exclude one another: every reordering of the table gives the same verdict.
pub apply-order :
    (s : State) (e : Event) (c : GuardCtx) {us : List Transition}
    → IsConsistent c
    → Permᴰ default_transitions us
    → apply us s e c ≡ apply default_transitions s e c
apply-order s e c h p = sym (apply-perm s e c p (default-exclusive s e c h))

-- A context with everything in order, the same with a rollout suspended, and one with no signal.
abbrev calm : GuardCtx
calm = record {
  quorum_ok = true;
  split_brain = false;
  quorum_primary_agreed = true;
  pod0_labeled_primary = true;
  candidate_replica_ready = true;
  has_more_replicas = true;
  new_primary_stable = true;
  old_primary_now_replica = true;
  old_primary_replica_ready = true;
  rollout_suspended_from_pending = false;
  ckquorum_ok_hysteresis_passed = true;
}

abbrev suspended : GuardCtx
suspended = record calm { rollout_suspended_from_pending = true }

abbrev silent : GuardCtx
silent = record {
  quorum_ok = false;
  split_brain = false;
  quorum_primary_agreed = false;
  pod0_labeled_primary = false;
  candidate_replica_ready = false;
  has_more_replicas = false;
  new_primary_stable = false;
  old_primary_now_replica = false;
  old_primary_replica_ready = false;
  rollout_suspended_from_pending = false;
  ckquorum_ok_hysteresis_passed = false;
}

-- A context under which a row's guard passes.
abbrev context_for : Transition → GuardCtx
context_for t =
    if guard_passes t.guard calm
    then calm
    else if guard_passes t.guard suspended
    then suspended
    else silent

abbrev Fires : Transition → Type 0
Fires t = (c : GuardCtx) × (apply default_transitions t.from t.event c ≡ fire t)

Fires-of_contexts :
    (ts : List Transition)
    → All (λ t. apply default_transitions t.from t.event (context_for t) ≡ fire t) ts
    → All Fires ts
Fires-of_contexts [] h = tt
Fires-of_contexts (t ∷ ts) h = ((context_for t, h.0), Fires-of_contexts ts h.1)

-- No row of the rollout table is shadowed by one above it: for each row there is a context in which
-- the lookup of the row's state and event returns exactly what that row says.
pub All-rows_fire : All Fires default_transitions
unfolding apply default_transitions
All-rows_fire = Fires-of_contexts default_transitions (
  refl,
  (
    refl,
    (
      refl,
      (
        refl,
        (
          refl,
          (
            refl,
            (
              refl,
              (
                refl,
                (
                  refl,
                  (
                    refl,
                    (
                      refl,
                      (
                        refl,
                        (
                          refl,
                          (
                            refl,
                            (
                              refl,
                              (
                                refl,
                                (
                                  refl,
                                  (
                                    refl,
                                    (
                                      refl,
                                      (
                                        refl,
                                        (
                                          refl,
                                          (
                                            refl,
                                            (
                                              refl,
                                              (
                                                refl,
                                                (
                                                  refl,
                                                  (
                                                    refl,
                                                    (
                                                      refl,
                                                      (
                                                        refl,
                                                        (
                                                          refl,
                                                          (
                                                            refl,
                                                            (
                                                            refl,
                                                            (
                                                            refl,
                                                            (
                                                            refl,
                                                            (
                                                            refl,
                                                            (
                                                            refl,
                                                            (
                                                            refl,
                                                            (
                                                            refl,
                                                            (
                                                            refl,
                                                            (refl, (refl, (refl, (refl, tt)))),
                                                            ),
                                                            ),
                                                            ),
                                                            ),
                                                            ),
                                                            ),
                                                            ),
                                                            ),
                                                          ),
                                                        ),
                                                      ),
                                                    ),
                                                  ),
                                                ),
                                              ),
                                            ),
                                          ),
                                        ),
                                      ),
                                    ),
                                  ),
                                ),
                              ),
                            ),
                          ),
                        ),
                      ),
                    ),
                  ),
                ),
              ),
            ),
          ),
        ),
      ),
    ),
  ),
)
