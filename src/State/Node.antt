-- ===== src/State/Node.antt =====
-- src/state/mod.rs, lines 285 to 528: the state of one node, and the reducer. Every legal transition
-- is a branch of `apply`; `attempts_started` is a `u32`, and its successor wraps.
use checkspan.Common.{
  ℕ, ◌+◌, ◌%◌, ◌^◌, Bool, true, false, not, ◌||◌, Option, none, some, List, [], ◌∷◌, ◌==◌, nat_eq,
  list_eq, option_eq, if◌then◌else◌, is_some, Result, ok, err, ◌>>=◌, ◌>>◌,
}
use checkspan.Contracts.Ids.{Ident, RunId}
use checkspan.Contracts.Refs.{NodeRef, ReceiptRef}
use checkspan.Contracts.View.{
  NodeStatus, opened, running, accepted, rejected, gated, node_status_eq, NodeView,
}
use checkspan.Contracts.Attempt.{
  ExecutionOutcome, completed, timed_out, Verdict, accept, reject, undecidable,
}
use checkspan.Contracts.Gate.{DecisionKind, revise, cancel}
use checkspan.State.Event.{
  NodeEvent, dispatched, execution_finished, receipt_admitted, gate_opened, decision_admitted,
  retry_allowed, node_cancelled, kind, TransitionError, illegal, stale_attempt,
  wrong_attempt_number, wrong_packet, Why, accepted_is_terminal, cancelled_is_terminal,
  node_is_terminal, only_dispatch_or_cancel, already_finished, no_verdict_yet,
  only_finish_check_or_cancel, needs_retry_allowed, not_after_outcome, packet_already_open,
  waits_for_decision,
}

pub record NodeState : Type 0 where
  pub status : NodeStatus
  pub current_attempt : Option ℕ
  pub attempts_started : ℕ
  pub checking : Bool
  pub receipt : Option ReceiptRef
  pub waiting_on_gate : Option Ident

-- `NodeState::open`
abbrev pub open_state : NodeState
open_state = record {
  status = opened;
  current_attempt = none;
  attempts_started = 0;
  checking = false;
  receipt = none;
  waiting_on_gate = none;
}

abbrev pub is_terminal : NodeState → Bool
is_terminal s = (s.status == accepted) || (s.status == NodeStatus.cancelled)

abbrev pub u32_mod : ℕ
u32_mod = 2 ^ 32

abbrev pub Step : Type 0
Step = Result NodeState TransitionError

abbrev pub refuse {ℓ} : {A : Type ℓ} → NodeState → NodeEvent → Why → Result A TransitionError
refuse s e why = err (illegal s.status (kind e) why)

require_current : NodeState → NodeEvent → ℕ → Result (Unit {0}) TransitionError
require_current s e attempt =
    if s.current_attempt == some attempt
    then ok tt
    else if is_terminal s
    then refuse s e node_is_terminal
    else err (stale_attempt attempt s.current_attempt)

-- The branches `(Open, _)`.
apply_open : NodeState → NodeEvent → Step
apply_open s (dispatched n) =
    let expected = (s.attempts_started + 1) % u32_mod in
    if not (n == expected)
    then err (wrong_attempt_number n expected)
    else ok (record {
      status = running;
      current_attempt = some n;
      attempts_started = expected;
      checking = false;
      receipt = none;
      waiting_on_gate = none;
    })
apply_open s node_cancelled =
    ok (record s { status = NodeStatus.cancelled; waiting_on_gate = none })
apply_open s e = refuse s e only_dispatch_or_cancel

finish : NodeState → ExecutionOutcome → NodeState
finish s completed = record s { checking = true }
finish s ExecutionOutcome.failed = record s { status = NodeStatus.failed }
finish s timed_out = record s { status = NodeStatus.failed }
finish s ExecutionOutcome.cancelled = record s { status = NodeStatus.cancelled }

judge : NodeState → ReceiptRef → Verdict → NodeState
judge s receipt accept = record s { status = accepted; checking = false; receipt = some receipt }
judge s receipt reject = record s { status = rejected; checking = false; receipt = some receipt }
judge s receipt undecidable = record s {
  status = gated;
  checking = false;
  receipt = none;
  waiting_on_gate = none;
}

-- The branches `(Running, _)`.
apply_running : NodeState → NodeEvent → Step
unfolding require_current finish judge
apply_running s (execution_finished n outcome digest) = do
  require_current s (execution_finished n outcome digest) n
  if s.checking
      then refuse s (execution_finished n outcome digest) already_finished
      else ok (finish s outcome)
apply_running s (receipt_admitted n receipt verdict) = do
  require_current s (receipt_admitted n receipt verdict) n
  if not s.checking
      then refuse s (receipt_admitted n receipt verdict) no_verdict_yet
      else ok (judge s receipt verdict)
apply_running s node_cancelled = ok (record s { status = NodeStatus.cancelled; checking = false })
apply_running s e = refuse s e only_finish_check_or_cancel

-- The branches `(Rejected | Failed, _)`.
apply_settled : NodeState → NodeEvent → Step
apply_settled s retry_allowed =
    ok (record s { status = opened; current_attempt = none; receipt = none })
apply_settled s (gate_opened packet) =
    ok (record s { status = gated; receipt = none; waiting_on_gate = some packet })
apply_settled s node_cancelled = ok (record s { status = NodeStatus.cancelled })
apply_settled s (dispatched n) = refuse s (dispatched n) needs_retry_allowed
apply_settled s e = refuse s e not_after_outcome

decide_work : NodeState → DecisionKind → NodeState
decide_work s cancel = record s {
  status = NodeStatus.cancelled;
  receipt = none;
  waiting_on_gate = none;
}
decide_work s revise = record s {
  status = NodeStatus.cancelled;
  receipt = none;
  waiting_on_gate = none;
}
decide_work s _ = record s {
  status = opened;
  current_attempt = none;
  receipt = none;
  waiting_on_gate = none;
}

-- The branches `(Gated, _)`.
apply_gated : NodeState → NodeEvent → Step
unfolding decide_work
apply_gated s (gate_opened packet) =
    if is_some s.waiting_on_gate
    then refuse s (gate_opened packet) packet_already_open
    else ok (record s { waiting_on_gate = some packet })
apply_gated s (decision_admitted packet decision) =
    if not (s.waiting_on_gate == some packet)
    then err (wrong_packet packet s.waiting_on_gate)
    else ok (decide_work s decision)
apply_gated s node_cancelled =
    ok (record s { status = NodeStatus.cancelled; waiting_on_gate = none })
apply_gated s e = refuse s e waits_for_decision

apply_from : NodeStatus → NodeState → NodeEvent → Step
unfolding apply_open apply_running apply_settled apply_gated
apply_from accepted s e = refuse s e accepted_is_terminal
apply_from NodeStatus.cancelled s e = refuse s e cancelled_is_terminal
apply_from opened s e = apply_open s e
apply_from running s e = apply_running s e
apply_from rejected s e = apply_settled s e
apply_from NodeStatus.failed s e = apply_settled s e
apply_from gated s e = apply_gated s e

-- `NodeState::apply`
unfoldable pub apply : NodeState → NodeEvent → Step
unfolding apply_from
apply s e = apply_from s.status s e

-- `try_fold` from a state, and `NodeState::replay`.
unfoldable pub replay_from : NodeState → List NodeEvent → Step
replay_from s [] = ok s
replay_from s (e ∷ es) = apply s e >>= λ next. replay_from next es

unfoldable pub replay : List NodeEvent → Step
unfolding replay_from
replay es = replay_from open_state es

-- `NodeState::to_view`
abbrev pub to_view : NodeState → RunId → NodeRef → NodeView
to_view s run_id node = record {
  run_id = run_id;
  node = node;
  status = s.status;
  current_attempt = s.current_attempt;
  receipt = s.receipt;
  blocked_reason = none;
  waiting_on_gate = s.waiting_on_gate;
}
