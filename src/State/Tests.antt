-- ===== src/State/Tests.antt =====
-- A run of one node, and the theorems about the reducer at it.
use checkspan.Common.{
  ℕ, true, false, none, some, List, [], ◌∷◌, ◌≡◌, refl, Text, text, ok, list_beq, option_beq, find,
  lookup, insert, is_ok, arith, ◌++◌, ◌↔◌, when, ◌==◌, ◌&&◌, ◌%◌, is_some, is_none,
}
use checkspan.Common.Json.{get, non_null}
use checkspan.Contracts.Ids.{check_identifier}
use checkspan.Contracts.Refs.{NodeRef, ReceiptRef, TypeRef, PolicyRef, node_ref_beq}
use checkspan.Contracts.Attempt.{completed, timed_out, accept, reject}
use checkspan.Contracts.View.{
  NodeStatus, running, accepted, rejected, gated, node_status_eq, gate_required,
  receipt_not_allowed, check_view,
}
use checkspan.Contracts.Node.{NodeSpec, task, OnExhaustion}
use checkspan.Contracts.Graph.{GraphSpec}
use checkspan.State.Event.{
  NodeEvent, dispatched, execution_finished, receipt_admitted, retry_allowed, node_cancelled, kind,
  payload,
}
use checkspan.State.Node.{
  NodeState, apply, replay_from, replay, open_state, to_view, is_terminal, u32_mod,
}
use checkspan.State.Stored.{from_stored, decodes, from_stored-payload}
use checkspan.State.Run.{
  RunState, new_run, all_open, apply_run, replay_stored, replay_run_from, replay_run, refs_of,
  node_state,
}
use checkspan.State.Acceptance.{Judges, apply-Judges, apply_terminal}
use checkspan.State.Invariant.{IsCoherent, replay-IsCoherent}
use checkspan.State.Counting.{dispatches, replay_counts}
use checkspan.State.Projection.{events_of}
use checkspan.State.Replayed.{replay_run_projects, replay_run_views}
use checkspan.Store.Rows.{StoredEvent}

abbrev pub sample_type : TypeRef
sample_type = record { schema_id = text "note"; version = 1; digest = text "sha256:00" }

abbrev pub sample_policy : PolicyRef
sample_policy = record { id = text "policy"; version = 1 }

abbrev pub sample_node : Text → NodeSpec
sample_node id = record {
  id = id;
  revision = 1;
  kind = task;
  display_name = none;
  prompt = text "do";
  deps = [];
  evidence_ports = [];
  result_type = sample_type;
  acceptance = record {
    claim = text "done";
    required_checks = text "tests" ∷ [];
    verifier = record { id = text "verifier"; version = 1; digest = text "sha256:01" };
    policy_ref = sample_policy;
  };
  retry_policy = record {
    max_attempts = 3;
    allowed_failure_classes = [];
    on_exhaustion = OnExhaustion.gate;
  };
  authority_policy_ref = sample_policy;
  resource_scope = [];
  supersedes = none;
}

abbrev pub sample_spec : GraphSpec
sample_spec = record {
  graph_id = text "g";
  revision = 1;
  display_name = none;
  nodes = sample_node (text "a") ∷ sample_node (text "b") ∷ [];
  targets = [];
  budget = record { total_attempts = 5; deadline = none };
  supersedes = none;
}

abbrev pub node_a : NodeRef
node_a = record { graph_id = text "g"; node_id = text "a"; revision = 1 }

abbrev pub receipt_a : ReceiptRef
receipt_a = record { id = text "r1"; run_id = text "run"; node = node_a }

abbrev checking_state : NodeState
checking_state = record open_state {
  status = running;
  current_attempt = some 1;
  attempts_started = 1;
  checking = true;
}

abbrev accepted_state : NodeState
accepted_state = record checking_state {
  status = accepted;
  checking = false;
  receipt = some receipt_a;
}

-- The reducer's own functions, opened for the tests.
runs : Unit {0}
unfolding apply replay_from replay list_beq option_beq find lookup insert new_run all_open apply_run
    replay_stored replay_run_from replay_run decodes kind payload get non_null check_identifier
    check_view node_ref_beq
runs = tt

apply-Judges_example :
    (accepted_state.status ≡ accepted
      → Judges accept checking_state (receipt_admitted 1 receipt_a accept) accepted_state)
    × (accepted_state.status ≡ rejected
        → Judges reject checking_state (receipt_admitted 1 receipt_a accept) accepted_state)
unfolding runs
apply-Judges_example =
    apply-Judges checking_state (receipt_admitted 1 receipt_a accept) accepted_state refl

apply_terminal_example :
    (is_terminal accepted_state ≡ true) ↔ ((e : NodeEvent) → is_ok (apply accepted_state e) ≡ false)
apply_terminal_example = apply_terminal accepted_state

abbrev history : List NodeEvent
history =
    dispatched 1
    ∷ execution_finished 1 timed_out none
    ∷ retry_allowed
    ∷ dispatched 2
    ∷ execution_finished 2 completed none
    ∷ receipt_admitted 2 receipt_a reject
    ∷ node_cancelled
    ∷ []

abbrev cancelled_state : NodeState
cancelled_state = record {
  status = NodeStatus.cancelled;
  current_attempt = some 2;
  attempts_started = 2;
  checking = false;
  receipt = some receipt_a;
  waiting_on_gate = none;
}

replay-history : replay history ≡ ok cancelled_state
unfolding runs
replay-history = refl

replay_counts_example : cancelled_state.attempts_started ≡ dispatches history % u32_mod
replay_counts_example = replay_counts history cancelled_state replay-history

replay-IsCoherent_example : IsCoherent cancelled_state
replay-IsCoherent_example = replay-IsCoherent history cancelled_state replay-history

abbrev pub stored_event : ℕ → Text → NodeEvent → StoredEvent
unfolding kind payload
stored_event seq id e = record {
  seq = seq;
  run_id = text "run";
  node_id = some id;
  kind = kind e;
  payload = payload e;
  recorded_at = [];
}

abbrev pub sample_log : List StoredEvent
sample_log =
    stored_event 2 (text "a") (dispatched 1)
    ∷ stored_event 3 (text "a") (execution_finished 1 completed none)
    ∷ stored_event 4 (text "b") (dispatched 1)
    ∷ stored_event 5 (text "a") (receipt_admitted 1 receipt_a reject)
    ∷ stored_event 6 (text "a") node_cancelled
    ∷ []

from_stored-payload_example :
    from_stored (stored_event 5 (text "a") (receipt_admitted 1 receipt_a reject)) node_a
    ≡ ok (receipt_admitted 1 receipt_a reject)
unfolding runs
from_stored-payload_example =
    from_stored-payload (stored_event 5 (text "a") (receipt_admitted 1 receipt_a reject)) node_a
      (receipt_admitted 1 receipt_a reject) refl refl (omega arith, refl, refl, refl)

abbrev state_a : NodeState
state_a = record cancelled_state { current_attempt = some 1; attempts_started = 1 }

abbrev state_b : NodeState
state_b = record checking_state { checking = false }

abbrev sample_run : RunState
sample_run = record {
  run_id = text "run";
  nodes = refs_of sample_spec;
  states = (text "b", state_b) ∷ (text "a", state_a) ∷ [];
}

replay_run-sample_log : replay_run (text "run") sample_spec sample_log ≡ ok sample_run
unfolding runs
replay_run-sample_log = refl

replay_run_projects_example :
    (t : NodeState) × (node_state sample_run (text "a") ≡ some t)
    × (replay (events_of (refs_of sample_spec) (text "a") sample_log) ≡ ok t)
unfolding runs
replay_run_projects_example =
    replay_run_projects (text "run") sample_spec sample_log sample_run (text "a") node_a
      replay_run-sample_log refl

-- The view of the node that was cancelled after a rejection breaks its own contract.
cancelled_view :
    check_view (to_view state_a (text "run") node_a) ≡ receipt_not_allowed NodeStatus.cancelled ∷ []
unfolding runs
cancelled_view = refl

replay_run_views_example :
    (t : NodeState) × (node_state sample_run (text "a") ≡ some t)
    × (check_view (to_view t (text "run") node_a)
        ≡ when
            ((t.status == NodeStatus.cancelled) && is_some t.receipt)
            (receipt_not_allowed NodeStatus.cancelled)
          ++ when ((t.status == gated) && is_none t.waiting_on_gate) gate_required)
unfolding runs
replay_run_views_example =
    replay_run_views (text "run") sample_spec sample_log sample_run (text "a") node_a
      (refl, (refl, (refl, (refl, (refl, tt))))) replay_run-sample_log refl

abbrev retried_run : RunState
retried_run = record sample_run {
  states = (text "b", record state_b { checking = true }) ∷ (text "a", state_a) ∷ [];
}
