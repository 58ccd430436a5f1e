-- ===== src/Scheduler/Tests.antt =====
-- A run whose first node is claimed and completed, and the theorems about the scheduler at it.
use checkspan.Common.{
  none, some, List, [], ◌∷◌, ◌≡◌, refl, Text, text, ok, err, arith, any, keep, false,
}
use checkspan.Common.Sorting.{sorted, place, text_ltb}
use checkspan.Contracts.Refs.{receipt_ref_beq, graph_ref_beq}
use checkspan.Contracts.Time.{new_timestamp}
use checkspan.Contracts.Graph.{node_ref}
use checkspan.Contracts.Attempt.{Attempt}
use checkspan.Store.Rows.{ClaimRow}
use checkspan.Store.Tables.{Db, read_active_claims, read_claim, claim_before}
use checkspan.Store.Writes.{seal_attempt, release_claim}
use checkspan.Store.Ops.{write, transaction}
use checkspan.Store.Tests.{
  sample_host, linked_spec, sample_graph_run, with_graph, created, attempt_a,
}
use checkspan.Deps.Tests.{deps_run}
use checkspan.Budget.Tests.{budget_runs}
use checkspan.Budget.Pending.{pending_after, pending_from, pending_narrowing}
use checkspan.Admission.Tests.{targeted_spec, admitted, admission_runs}
use checkspan.Scheduler.Create.{new_scheduler, over_graph}
use checkspan.Scheduler.Claim.{
  Claim, Scheduler, SchedulerError, conflict_in, conflict, dispatch_payload, standing_of, dispatch,
  claim_first, claim_within, claim_body, claim_next,
}
use checkspan.Scheduler.Dispatch.{ClaimGranted}
use checkspan.Scheduler.Granted.{claim_next-ClaimGranted}
use checkspan.Scheduler.Finish.{
  held_claim, complete_body, check_completion, complete, replayed, expect_node, release_all,
  cancel_body, cancel_node, reclaim_body, reclaim,
}
use checkspan.Scheduler.Completed.{Held, complete_once}
use checkspan.Scheduler.Reclaimed.{IsReclaimed, ReplaysFailed, reclaim_supersedes}
use checkspan.Store.Steps.{Steps}
use checkspan.Store.Writes.{Host}
use checkspan.Scheduler.Freed.{is_live, off_node}
use checkspan.Scheduler.Cancelled.{ReplaysCancelled, cancel_node_frees}
use checkspan.Scheduler.Shown.{service_of, IsShown, scheduler_views, scheduler_views_exact}
use checkspan.Deps.Reason.{blocked_reason}
use checkspan.State.Run.{new_run, refs_of}
use checkspan.Contracts.View.{NodeView}
use checkspan.Scheduler.Exclusive.{Exclusive}
use checkspan.Scheduler.Steps.{
  claims, completes, stop, and_then, IsGuarded, SchedulerSteps-IsGuarded,
}
use mathlib.Core.List.{Forall₂}

abbrev pub scheduler : Scheduler
scheduler = record {
  spec = linked_spec;
  graph = record {
    spec = linked_spec;
    order = text "a" ∷ text "b" ∷ [];
    required = text "a" ∷ text "b" ∷ [];
    optional = [];
    gates = [];
  };
  run = sample_graph_run;
  controller = text "controller";
  max_active = 1;
}

abbrev pub fresh_db : Db
fresh_db = record with_graph { runs = sample_graph_run ∷ []; events = created ∷ []; last_seq = 1 }

abbrev pub claim_on_a : Claim
claim_on_a = record {
  run_id = text "run";
  node_id = text "a";
  number = 1;
  fence = 1;
  owner = text "controller";
  dependency_receipts = [];
  narrowing = none;
}

abbrev pub now : Text
now = text "2026-01-02T00:00:00Z"

unfoldable pub scheduler_runs : Unit {0}
unfolding pending_after pending_from pending_narrowing deps_run budget_runs sorted place text_ltb
    receipt_ref_beq node_ref read_active_claims read_claim claim_before seal_attempt write
    conflict_in conflict dispatch_payload standing_of dispatch claim_first claim_within claim_body
    claim_next held_claim complete_body check_completion complete replayed expect_node release_all
    cancel_body cancel_node reclaim_body reclaim release_claim transaction new_timestamp
scheduler_runs = tt

abbrev made_scheduler : Scheduler
made_scheduler = record {
  spec = targeted_spec;
  graph = admitted;
  run = sample_graph_run;
  controller = text "controller";
  max_active = 1;
}

made : new_scheduler targeted_spec sample_graph_run (text "controller") ≡ ok made_scheduler
unfolding admission_runs new_scheduler over_graph graph_ref_beq
made = refl

claim_next-ClaimGranted_example :
    ClaimGranted scheduler fresh_db now claim_on_a (claim_next sample_host scheduler fresh_db now).1
unfolding scheduler_runs
claim_next-ClaimGranted_example =
    claim_next-ClaimGranted sample_host scheduler fresh_db now claim_on_a refl

abbrev pub claimed_db : Db
unfolding scheduler_runs
claimed_db = (claim_next sample_host scheduler fresh_db now).1

complete_once_example :
    (row : ClaimRow) × Held claimed_db claim_on_a attempt_a row
    × ((again : Attempt)
        → (e : SchedulerError) × (complete sample_host scheduler
              (complete sample_host scheduler claimed_db claim_on_a attempt_a).1
              claim_on_a
              again
            ≡ (err e, (complete sample_host scheduler claimed_db claim_on_a attempt_a).1)))
unfolding scheduler_runs
complete_once_example =
    complete_once sample_host scheduler claimed_db claim_on_a attempt_a (omega arith) refl

reclaimed_once : (reclaim sample_host scheduler claimed_db (text "a") now).0 ≡ ok 1
unfolding scheduler_runs
reclaimed_once = refl

reclaim_supersedes_example :
    IsReclaimed scheduler
      (text "a")
      now
      claimed_db
      (reclaim sample_host scheduler claimed_db (text "a") now).1
      1
    × ReplaysFailed scheduler (text "a") (reclaim sample_host scheduler claimed_db (text "a") now).1
    × ((host : Host) (later : Db) (other : Scheduler) (claim : Claim) (attempt : Attempt)
        → Steps host (reclaim sample_host scheduler claimed_db (text "a") now).1 later
        → claim.run_id ≡ text "run"
        → claim.node_id ≡ text "a"
        → claim.number ≡ 1
        → (e : SchedulerError) × (complete host other later claim attempt ≡ (err e, later)))
unfolding scheduler_runs
reclaim_supersedes_example =
    reclaim_supersedes sample_host scheduler (text "a") now claimed_db 1 refl (tt, tt)
      (omega arith, tt) (omega arith, omega arith) reclaimed_once

cancelled_once : (cancel_node sample_host scheduler claimed_db (text "a")).0 ≡ ok tt
unfolding scheduler_runs
cancelled_once = refl

cancel_node_frees_example :
    (any
        (is_live (text "run") (text "a"))
        (cancel_node sample_host scheduler claimed_db (text "a")).1.claims
      ≡ false)
    × (keep
          (off_node (text "run") (text "a"))
          (cancel_node sample_host scheduler claimed_db (text "a")).1.claims
        ≡ keep (off_node (text "run") (text "a")) claimed_db.claims)
    × ReplaysCancelled scheduler
        (text "a")
        (cancel_node sample_host scheduler claimed_db (text "a")).1
unfolding scheduler_runs
cancel_node_frees_example =
    cancel_node_frees sample_host scheduler (text "a") claimed_db (omega arith, tt) cancelled_once

-- In the fresh run both nodes are open, and the second waits for the first.
scheduler_views_exact_example :
    (vs : List NodeView) × (scheduler_views scheduler fresh_db now ≡ ok (some vs))
    × Forall₂
        (IsShown (service_of scheduler fresh_db now (new_run (text "run") linked_spec)))
        (refs_of linked_spec)
        vs
unfolding scheduler_runs
scheduler_views_exact_example =
    scheduler_views_exact scheduler fresh_db now (new_run (text "run") linked_spec) refl

waits_for_a :
    blocked_reason (service_of scheduler fresh_db now (new_run (text "run") linked_spec)) (text "b")
    ≡ some (text "dependency a is open in this run, not accepted")
unfolding scheduler_runs blocked_reason
waits_for_a = refl

-- The claim on the first node is granted, then completed.
SchedulerSteps-IsGuarded_example :
    IsGuarded 1 (complete sample_host scheduler claimed_db claim_on_a attempt_a).1
unfolding Exclusive scheduler_runs
SchedulerSteps-IsGuarded_example =
    SchedulerSteps-IsGuarded 1 fresh_db
      (complete sample_host scheduler claimed_db claim_on_a attempt_a).1
      (and_then (and_then stop (claims sample_host scheduler now (omega arith)))
        (completes sample_host scheduler claim_on_a attempt_a))
      (tt, omega arith)
