-- ===== src/Lib.antt =====
-- velkir, a Kubernetes operator that runs Valkey with Sentinel: a model of its decision core.
--
-- The operator reconciles one Valkey resource at a time. A pass reads the pods, the StatefulSet and what
-- the sentinels report, derives a state of the rollout, feeds events to a state machine, takes the
-- irreversible steps (a failover, a wipe of a stranded sentinel) behind guards, and reports conditions
-- and a phase. The files follow these parts; paths below are from the repository's root.
--
-- Prelude - what the other files share. Prelude/Int: signed integers over the native numbers (the
--   source's int32 and int64 values). Prelude/Time: Go's instants and durations as nanoseconds, with the
--   saturation of `Time.Sub`. Prelude/Search: the first item of a list that passes a test.
--   Prelude/HostPort: Go's `net.SplitHostPort`.
-- Sentinel - internal/sentinel. Types is types.go. TripleCheck is triplecheck.go
--   (`EvaluateTripleCheck`, `ConsensusODown`). SurgeryGuard is surgery_guard.go; what an endpoint answers
--   is a parameter, and the parallel reads, which the source joins before it decides, are a list.
--   Stranded is the recovery of stranded sentinels in manager.go: the classes of targets, with
--   Stranded/Ghosts for the ghosts and Stranded/Recover for the pass and its guards; Live is what it and
--   the controller ask of a set of addresses. Observer is observer.go: what a frame and what a poll
--   publish. Wire is internal/resp and the readers of conn.go and parse.go, over bytes.
-- Decimal - numbers as Go's strconv prints and reads them.
-- Version - internal/version/compat.go, and `checkValkeyImageTransition` of the controller. A text is the
--   list of its bytes.
-- SqAggregate - internal/sqaggregate/aggregate.go, `Aggregate`. Go ranges over a map in no fixed
--   order; the order of the votes is a parameter that permutes them.
-- Orchestration - internal/orchestration. Machine is states.go, events.go and `Apply`; Machine/Table is
--   the table of transitions, row by row; Machine/Dispatch is the same table as nested cases, which the
--   proofs use. Watchdog is watchdog.go. Observation, Evaluators, Degraded and Status are status.go, the
--   evaluators and phase.go.
-- Controller - internal/controller, the part around the machine. Pods is what the decisions read of a
--   pod. Latch and Dispatch are primary_rollout.go: the failover latch with its durable marker, and
--   `runPrimaryRolloutDispatch` as a plan and a list of effects, which a crash can cut off anywhere.
--   DeriveState is derive_state.go, Fsm is fsm.go and fsm_transitions.go, RolloutTrigger is
--   rollout_trigger.go, Trackers is a part of percrstate.go.
--   Quorum is the per-resource tracker of valkey_controller.go: the gate that suppresses sentinel commands,
--   with Quorum/Episode for a split brain and Quorum/MasterInfo for a master that does not answer. Survey
--   and Recovery are the recovery election of the same file, with the rule of manager.go for an election
--   that sentinel cannot win. Roles is the choice and the patching of the role labels.
--   Wedge is the call of the recovery of stranded sentinels with what the snapshot allows, and Pacing
--   the pause between two wipes of one address.
-- PvcResize - internal/pvcresize: detect.go and gating.go, and PvcResize/Transitions for transitions.go.
--   Controller/Resize is valkey_controller_pvcresize.go: one pass that detects, gates, takes a transition
--   and writes the status. Replies of the API server are parameters, a patch of a claim or of the status
--   that returns an error has changed nothing, and a quantity is an integer.
-- ValkeyConf - internal/valkeyconf/render.go, `Render`, over runes. Lines, Mandatory and Layers say what a
--   rendered file sets, line by line; what Go's `unicode.ToLower` makes of runes outside ASCII is an argument
--   of the model, and a map is the list of its entries. Last and Precedence compare it with the three layers that the package
--   describes, as Valkey reads a file, where the last line for a directive counts; Order and Determinism are
--   about the order in which Go ranges over the map of overrides.
-- Webhook - internal/webhook/v1beta1/valkey_validator.go, the checks of the user's configuration. Overrides
--   composes them with the renderer; Reserved and Snippet compare what the two call the operator's own.
-- Examples - the theorems at concrete inputs.
--
-- States, events, reasons and condition types are strings in the source and closed types here; an event
-- or reason text that is recorded is kept as a string. Pointers that may be nil are `Option`. int32 and
-- int64 values are unbounded integers except where the source's arithmetic can leave the range. A
-- message is its format with its arguments. Per-resource locks are left out: every operation on the
-- state under a lock is one step.
--
-- The loops of the modelled parts run over lists, and recursion is on them. Two functions run on fuel: the
-- reader of replies, on the length of its input for the depth of nested arrays, and the printer of a number,
-- on the number for its digits.
--
-- Not modelled: the Kubernetes and network clients and what they transport, metrics, logging, the
-- generated code, the wiring in cmd, and the parts of the controller that only build objects; and
-- the rotation of passwords, the roll of the sentinels, the other checks and the defaults of the webhook, its
-- certificates and the rendering of sentinel.conf, which the modelled parts do not call.
pub mod Controller
pub mod Decimal
pub mod Examples
pub mod Orchestration
pub mod Prelude
pub mod PvcResize
pub mod Sentinel
pub mod SqAggregate
pub mod ValkeyConf
pub mod Version
pub mod Webhook
