-- ===== src/State/Event.antt =====
-- src/state/mod.rs, lines 26 to 134 and 195 to 283: the events about one node, the kinds and payloads
-- that they are stored with, and why an event is refused.
use checkspan.Common.{ℕ, Option, none, some, Text, text}
use checkspan.Common.Json.{Value, Fields}
use checkspan.Contracts.Ids.{Ident, Digest, NodeId}
use checkspan.Contracts.Refs.{ReceiptRef}
use checkspan.Contracts.View.{NodeStatus}
use checkspan.Contracts.Attempt.{ExecutionOutcome, Verdict}
use checkspan.Contracts.Gate.{DecisionKind}

pub data NodeEvent : Type 0 where
  dispatched : (attempt : ℕ) → NodeEvent
  execution_finished : (attempt : ℕ) → ExecutionOutcome → Option Digest → NodeEvent
  receipt_admitted : (attempt : ℕ) → ReceiptRef → Verdict → NodeEvent
  gate_opened : Ident → NodeEvent
  decision_admitted : Ident → DecisionKind → NodeEvent
  retry_allowed node_cancelled : NodeEvent

-- Module `kinds`.
abbrev pub kind_dispatched : Text
kind_dispatched = text "attempt_dispatched"

abbrev pub kind_sealed : Text
kind_sealed = text "attempt_sealed"

abbrev pub kind_receipt : Text
kind_receipt = text "receipt_admitted"

abbrev pub kind_gate : Text
kind_gate = text "gate_opened"

abbrev pub kind_decision : Text
kind_decision = text "decision_admitted"

abbrev pub kind_retry : Text
kind_retry = text "retry_allowed"

abbrev pub kind_cancelled : Text
kind_cancelled = text "node_cancelled"

abbrev pub kind_run_created : Text
kind_run_created = text "run_created"

-- `NodeEvent::kind`
unfoldable pub kind : NodeEvent → Text
kind (dispatched _) = kind_dispatched
kind (execution_finished _ _ _) = kind_sealed
kind (receipt_admitted _ _ _) = kind_receipt
kind (gate_opened _) = kind_gate
kind (decision_admitted _ _) = kind_decision
kind retry_allowed = kind_retry
kind node_cancelled = kind_cancelled

-- The text that serde gives each enumeration (`rename_all = "snake_case"`).
abbrev pub outcome_text : ExecutionOutcome → Text
outcome_text ExecutionOutcome.completed = text "completed"
outcome_text ExecutionOutcome.failed = text "failed"
outcome_text ExecutionOutcome.timed_out = text "timed_out"
outcome_text ExecutionOutcome.cancelled = text "cancelled"

abbrev pub verdict_text : Verdict → Text
verdict_text Verdict.accept = text "accept"
verdict_text Verdict.reject = text "reject"
verdict_text Verdict.undecidable = text "undecidable"

abbrev pub decision_text : DecisionKind → Text
decision_text DecisionKind.retry = text "retry"
decision_text DecisionKind.revise = text "revise"
decision_text DecisionKind.cancel = text "cancel"
decision_text DecisionKind.approve_action = text "approve_action"
decision_text DecisionKind.deny_action = text "deny_action"
decision_text DecisionKind.record_assessment = text "record_assessment"

abbrev pub option_text : Option Text → Value
option_text none = Value.null
option_text (some t) = Value.string t

-- `NodeEvent::payload`
unfoldable pub payload : NodeEvent → Value
payload (dispatched n) = Value.object (Fields.field (text "number") (Value.number n) Fields.end)
payload (execution_finished n outcome digest) = Value.object (
    Fields.field (text "number") (Value.number n) (
      Fields.field (text "outcome") (Value.string (outcome_text outcome))
        (Fields.field (text "result_digest") (option_text digest) Fields.end)))
payload (receipt_admitted n receipt verdict) = Value.object (
    Fields.field (text "number") (Value.number n) (
      Fields.field (text "receipt_id") (Value.string receipt.id)
        (Fields.field (text "verdict") (Value.string (verdict_text verdict)) Fields.end)))
payload (gate_opened packet) =
    Value.object (Fields.field (text "packet_id") (Value.string packet) Fields.end)
payload (decision_admitted packet decision) = Value.object (
    Fields.field (text "packet_id") (Value.string packet)
      (Fields.field (text "decision") (Value.string (decision_text decision)) Fields.end))
payload retry_allowed = Value.object Fields.end
payload node_cancelled = Value.object Fields.end

-- The texts of `reason`, one constructor for each.
pub data Why : Type 0 where
  accepted_is_terminal cancelled_is_terminal node_is_terminal : Why
  only_dispatch_or_cancel already_finished no_verdict_yet only_finish_check_or_cancel : Why
  needs_retry_allowed not_after_outcome packet_already_open waits_for_decision : Why

pub data Malformed : Type 0 where
  missing : Text → Malformed
  ill_typed : Text → Malformed

pub data TransitionError : Type 0 where
  illegal : NodeStatus → (event : Text) → Why → TransitionError
  stale_attempt : ℕ → Option ℕ → TransitionError
  wrong_attempt_number : (dispatched expected : ℕ) → TransitionError
  wrong_packet : Ident → Option Ident → TransitionError
  unknown_event : (seq : ℕ) → (kind : Text) → TransitionError
  malformed_event : (seq : ℕ) → (kind : Text) → Malformed → TransitionError
  unknown_node : NodeId → TransitionError
