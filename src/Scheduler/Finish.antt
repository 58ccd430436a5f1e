-- ===== src/Scheduler/Finish.antt =====
-- src/scheduler/mod.rs: `held_claim`, `complete`, `cancel` and `reclaim`.
use checkspan.Common.{
  ℕ, Bool, ◌&&◌, none, some, List, [], ◌∷◌, ◌++◌, text, ◌==◌, nat_eq, list_eq, find, lookup,
  if◌then◌else◌, Result, ok, err, ◌>>=◌, or_fail, map_err,
}
use checkspan.Common.Json.{Value, Fields}
use checkspan.Contracts.Ids.{NodeId, RunId}
use checkspan.Contracts.Time.{Timestamp, new_timestamp}
use checkspan.Contracts.Refs.{NodeRef, node_ref_eq, receipt_ref_eq}
use checkspan.Contracts.Graph.{GraphSpec, find_node, node_ref}
use checkspan.Contracts.Attempt.{Attempt, Execution, ExecutionOutcome}
use checkspan.State.Event.{execution_finished, node_cancelled, kind_cancelled}
use checkspan.State.Node.{NodeState, apply}
use checkspan.State.Run.{RunState, node_state, replay_run}
use checkspan.Store.Rows.{ClaimRow}
use checkspan.Store.Tables.{Db, corrupt, read_events, read_active_claims, read_claim}
use checkspan.Store.Writes.{Host, log, seal_attempt, release_claim, digest_of}
use checkspan.Store.Ops.{transaction, write}
use checkspan.Scheduler.Claim.{Claim, SchedulerError, Scheduler}

unfoldable pub replayed : Db → RunId → GraphSpec → Result RunState SchedulerError
unfolding read_events replay_run
replayed db run_id spec =
    map_err SchedulerError.transition (replay_run run_id spec (read_events db run_id))

-- `state.node(id).expect("admitted node")`
unfoldable pub expect_node : RunState → NodeId → Result NodeState SchedulerError
unfolding lookup
expect_node state id = or_fail (node_state state id) (SchedulerError.expect_failed id)

abbrev pub fail_unless : Bool → SchedulerError → Result (Unit {0}) SchedulerError
fail_unless b e = if b then ok tt else err e

abbrev pub stale_error : Claim → ClaimRow → SchedulerError
stale_error claim row =
    SchedulerError.stale claim.node_id claim.number claim.fence row.fence row.release

unfoldable pub held_claim : Db → Claim → Result ClaimRow SchedulerError
unfolding read_claim
held_claim db claim = do
  row ←
      or_fail (read_claim db claim.run_id claim.node_id claim.number)
        (SchedulerError.not_claimed claim.node_id claim.number)
  _ ←
      fail_unless (row.active && (row.fence == claim.fence) && (row.owner == claim.owner))
        (stale_error claim row)
  ok row

-- The body of the transaction of `complete`.
unfoldable pub complete_body :
    Host → Scheduler → Claim → Attempt → Execution → Db → Result Db SchedulerError
unfolding held_claim replayed expect_node apply seal_attempt release_claim
complete_body host s claim attempt execution db = do
  row ← held_claim db claim
  _ ←
      fail_unless (row.dependency_receipts == attempt.dependency_receipts)
        SchedulerError.snapshot_mismatch
  state ← replayed db claim.run_id s.spec
  node ← expect_node state claim.node_id
  _ ←
      map_err SchedulerError.transition
        (apply node (execution_finished claim.number execution.outcome (digest_of attempt.result)))
  sealed ← map_err SchedulerError.store (seal_attempt host db attempt)
  let release =
      release_claim host sealed claim.run_id claim.node_id claim.number claim.fence
        (text "completed")
  _ ← fail_unless release.0 (stale_error claim row)
  ok release.1

-- The checks of `complete` before its transaction.
unfoldable pub check_completion : Scheduler → Claim → Attempt → Result Execution SchedulerError
unfolding node_ref find
check_completion s claim attempt = do
  _ ←
      fail_unless
        ((attempt.run_id == claim.run_id)
          && (attempt.node.node_id == claim.node_id)
          && (attempt.number == claim.number))
        SchedulerError.attempt_of_other_claim
  expected ←
      or_fail (node_ref s.graph.spec claim.node_id) (SchedulerError.not_in_graph claim.node_id)
  _ ← fail_unless (attempt.node == expected) SchedulerError.attempt_of_other_node
  or_fail attempt.execution SchedulerError.no_execution

unfoldable pub complete :
    Host → Scheduler → Db → Claim → Attempt → Result (Unit {0}) SchedulerError × Db
unfolding check_completion write complete_body
complete host s db claim attempt = elim (check_completion s claim attempt) [
  | err e ↦ (err e, db)
  | ok execution ↦ write db (complete_body host s claim attempt execution)
]

-- The loop of `cancel` over the active claims; whether a row was released is not looked at.
unfoldable pub release_all : Host → RunId → NodeId → List ClaimRow → Db → Db
unfolding release_claim
release_all host run_id id [] db = db
release_all host run_id id (row ∷ rest) db = release_all host run_id id rest (
    if (row.run_id == run_id) && (row.node_id == id)
    then (release_claim host db run_id id row.number row.fence (text "cancelled")).1
    else db)

unfoldable pub cancel_body : Host → Scheduler → NodeId → Db → Result Db SchedulerError
unfolding replayed expect_node apply release_all read_active_claims log
cancel_body host s id db = do
  state ← replayed db s.run.run_id s.spec
  node ← expect_node state id
  _ ← map_err SchedulerError.transition (apply node node_cancelled)
  map_err SchedulerError.store (
      log host (release_all host s.run.run_id id (read_active_claims db) db) s.run.run_id (some id)
        kind_cancelled
        (Value.object (Fields.field (text "by") (Value.string s.controller) Fields.end)))

unfoldable pub cancel_node : Host → Scheduler → Db → NodeId → Result (Unit {0}) SchedulerError × Db
unfolding find write cancel_body
cancel_node host s db id =
    elim (or_fail (find_node id s.spec.nodes) (SchedulerError.not_in_graph id)) [
      | err e ↦ (err e, db)
      | ok _ ↦ write db (cancel_body host s id)
    ]

-- The attempt that `reclaim` seals for the owner that is gone.
abbrev pub reclaimed_attempt : Scheduler → NodeRef → ClaimRow → Timestamp → Timestamp → Attempt
reclaimed_attempt s node row started_at now = record {
  run_id = s.run.run_id;
  node = node;
  number = row.number;
  owner = row.owner;
  started_at = started_at;
  finished_at = some now;
  repair_hint = none;
  input_manifest = [];
  dependency_receipts = row.dependency_receipts;
  result = none;
  produced_evidence = [];
  execution = some (record {
    outcome = ExecutionOutcome.failed;
    error_code = some (text "claim_reclaimed");
    error_text = some (text "claim held by " ++ row.owner ++ text " reclaimed by " ++ s.controller);
  });
  verifier_receipt = none;
}

unfoldable pub reclaim_body :
    Host → Scheduler → NodeId → NodeRef → Timestamp → Db → Result (ℕ × Db) SchedulerError
unfolding find read_active_claims replayed expect_node apply seal_attempt release_claim
reclaim_body host s id node now db = do
  row ←
      or_fail (find (λ r. (r.run_id == s.run.run_id) && (r.node_id == id)) (read_active_claims db))
        (SchedulerError.no_active_claim id)
  state ← replayed db s.run.run_id s.spec
  started_at ←
      map_err (λ _. SchedulerError.store (corrupt row.claimed_at)) (new_timestamp row.claimed_at)
  current ← expect_node state id
  _ ←
      map_err SchedulerError.transition
        (apply current (execution_finished row.number ExecutionOutcome.failed none))
  sealed ←
      map_err SchedulerError.store
        (seal_attempt host db (reclaimed_attempt s node row started_at now))
  ok (
    row.number,
    (release_claim host sealed s.run.run_id id row.number row.fence (text "reclaimed")).1,
  )

unfoldable pub reclaim : Host → Scheduler → Db → NodeId → Timestamp → Result ℕ SchedulerError × Db
unfolding node_ref find transaction reclaim_body
reclaim host s db id now =
    elim (or_fail (node_ref s.graph.spec id) (SchedulerError.not_in_graph id)) [
      | err e ↦ (err e, db)
      | ok node ↦ transaction db (reclaim_body host s id node now)
    ]
