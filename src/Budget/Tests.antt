-- ===== src/Budget/Tests.antt =====
-- A run with a rejected node that may be retried, and the theorems about budgets at it.
use checkspan.Common.{
  nat_eq, list_eq, Bool, true, false, not, none, some, [], ◌∷◌, ◌++◌, map, ◌≡◌, refl, Text, text,
  keep, contains, lookup, insert, All,
}
use checkspan.Common.Json.{Value, non_null}
use checkspan.Contracts.Ids.{check_identifier, new_identifier}
use checkspan.Contracts.Node.{NodeSpec, PortSpec, FailureClass, code}
use checkspan.Contracts.Graph.{GraphSpec, GraphRun, graph_ref}
use checkspan.Contracts.Attempt.{completed, reject}
use checkspan.State.Event.{dispatched, execution_finished, receipt_admitted, kind, payload}
use checkspan.State.Node.{apply}
use checkspan.State.Stored.{decodes}
use checkspan.State.Run.{new_run, all_open, apply_run, replay_stored, replay_run_from, replay_run}
use checkspan.State.Tests.{
  sample_spec, sample_node, sample_type, sample_policy, receipt_a, stored_event,
}
use checkspan.Store.Tables.{Db, read_events, read_dispatch_count, read_run, empty_db}
use checkspan.Store.Writes.{log}
use checkspan.Store.Ops.{transaction}
use checkspan.Store.Tests.{store_runs}
use checkspan.Budget.Status.{
  ExhaustReason, saturating_add, consumed, remaining, exhaustion, deadline_reason, walk, passed,
  counted, status_from, budget_status,
}
use checkspan.Budget.Narrow.{
  Narrowing, check_dropped, check_sources, restrict, restrict_all, check_narrowing,
}
use checkspan.Budget.Narrowed.{Narrows, Optional, check_narrowing-Narrows}
use checkspan.Budget.Retry.{
  class_of, failure_class, decide_budget, decide, disposition, narrowing_payload, carry_out,
  retry_body, apply_retry_policy,
}
use checkspan.Store.Rows.{StoredEvent}
use checkspan.Budget.Pending.{pending_narrowing}
use checkspan.Budget.Carried.{pending_narrowing-payload}

abbrev port : Text → Bool → PortSpec
port name required = record {
  name = name;
  kind = code;
  expected_type = sample_type;
  required = required;
  allowed_source_scope = text "src" ∷ text "docs" ∷ [];
  handling_policy_ref = sample_policy;
}

abbrev retryable : NodeSpec
retryable = record (sample_node (text "a")) {
  evidence_ports = port (text "main") true ∷ port (text "extra") false ∷ [];
  retry_policy = record (sample_node (text "a")).retry_policy {
    allowed_failure_classes = FailureClass.rejected ∷ [];
  };
}

abbrev retry_spec : GraphSpec
retry_spec = record sample_spec { nodes = retryable ∷ [] }

abbrev older : GraphRun
older = record {
  run_id = text "older";
  graph_ref = graph_ref retry_spec;
  budget_lineage_ref = none;
  admitted_imports = [];
}

abbrev current : GraphRun
current = record older { run_id = text "run"; budget_lineage_ref = some (text "older") }

abbrev rejected_db : Db
rejected_db = record empty_db {
  runs = older ∷ current ∷ [];
  events =
      record (stored_event 1 (text "a") (dispatched 1)) { run_id = text "older" }
      ∷ stored_event 2 (text "a") (dispatched 1)
      ∷ stored_event 3 (text "a") (execution_finished 1 completed none)
      ∷ stored_event 4 (text "a") (receipt_admitted 1 receipt_a reject)
      ∷ [];
  last_seq = 4;
}

abbrev narrower : Narrowing
narrower = record {
  repair_hint = none;
  dropped_ports = text "extra" ∷ [];
  restricted_sources = (text "main", text "src" ∷ []) ∷ [];
}

abbrev main_only : PortSpec
main_only = record (port (text "main") true) { allowed_source_scope = text "src" ∷ [] }

unfoldable pub budget_runs : Unit {0}
unfolding store_runs contains lookup insert non_null check_identifier new_identifier kind payload
    apply decodes new_run all_open apply_run replay_stored replay_run_from replay_run read_events
    read_dispatch_count read_run log transaction saturating_add consumed remaining exhaustion
    deadline_reason walk passed counted status_from budget_status check_dropped check_sources
    restrict restrict_all check_narrowing class_of failure_class decide_budget decide disposition
    narrowing_payload carry_out retry_body apply_retry_policy
budget_runs = tt

check_narrowing-Narrows_example :
    All (Narrows retryable.evidence_ports) (main_only ∷ [])
    × (map (λ p. p.name) (main_only ∷ [])
        ≡ map
            (λ p. p.name)
            (keep (λ p. not (contains narrower.dropped_ports p.name)) retryable.evidence_ports))
    × All (Optional retryable.evidence_ports) narrower.dropped_ports
unfolding budget_runs
check_narrowing-Narrows_example = check_narrowing-Narrows retryable narrower (main_only ∷ []) refl

abbrev no_reason : ExhaustReason → Value
no_reason _ = Value.null

abbrev retry_event : StoredEvent
unfolding narrowing_payload
retry_event = record {
  seq = 5;
  run_id = text "run";
  node_id = some (text "a");
  kind = text "retry_allowed";
  payload = narrowing_payload narrower;
  recorded_at = [];
}

pending_narrowing-payload_example :
    pending_narrowing
      (rejected_db.events ++ retry_event ∷ stored_event 6 (text "b") (dispatched 1) ∷ [])
      (text "a")
    ≡ some narrower
unfolding budget_runs
pending_narrowing-payload_example =
    pending_narrowing-payload rejected_db.events (stored_event 6 (text "b") (dispatched 1) ∷ [])
      retry_event (text "a") narrower refl refl refl ((refl, tt), (refl, tt)) (refl, tt)
