-- ===== src/State/Stored.antt =====
-- src/state/mod.rs, lines 135 to 215: decoding a stored event. `serde_json::from_value` at the types
-- used is written out: a number that fits the positive `u32`, a valid identifier or digest, and the
-- text of an enumeration; its error texts are one constructor, `ill_typed`.
use checkspan.Common.{
  ℕ, ◌<◌, true, ◌&&◌, Option, none, some, ◌≡◌, Text, text, ◌==◌, nat_eq, list_eq, list_beq,
  if◌then◌else◌, ltb, Result, ok, err, ◌>>=◌, is_ok, arith, or_fail,
}
use checkspan.Common.Json.{Value, get, non_null}
use checkspan.Contracts.Ids.{Ident, Digest, check_identifier, new_digest}
use checkspan.Contracts.Refs.{NodeRef}
use checkspan.Contracts.Attempt.{ExecutionOutcome, Verdict}
use checkspan.Contracts.Gate.{DecisionKind}
use checkspan.State.Event.{
  NodeEvent, dispatched, execution_finished, receipt_admitted, gate_opened, decision_admitted,
  retry_allowed, node_cancelled, kind, payload, kind_dispatched, kind_sealed, kind_receipt,
  kind_gate, kind_decision, kind_retry, kind_cancelled, outcome_text, verdict_text, decision_text,
  TransitionError, Malformed, missing, ill_typed, malformed_event, unknown_event,
}
use checkspan.State.Node.{u32_mod}
use checkspan.Store.Rows.{StoredEvent}

unfoldable pub decode_number : Value → Option ℕ
decode_number (Value.number n) = if ltb 0 n && ltb n u32_mod then some n else none
decode_number _ = none

unfoldable pub decode_ident : Value → Option Ident
decode_ident (Value.string t) =
    if is_ok (check_identifier (text "identifier") t) then some t else none
decode_ident _ = none

unfoldable pub decode_digest : Value → Option Digest
decode_digest (Value.string t) = if is_ok (new_digest t) then some t else none
decode_digest _ = none

unfoldable pub decode_outcome : Value → Option ExecutionOutcome
decode_outcome (Value.string t) =
    if t == outcome_text ExecutionOutcome.completed
    then some ExecutionOutcome.completed
    else if t == outcome_text ExecutionOutcome.failed
    then some ExecutionOutcome.failed
    else if t == outcome_text ExecutionOutcome.timed_out
    then some ExecutionOutcome.timed_out
    else if t == outcome_text ExecutionOutcome.cancelled
    then some ExecutionOutcome.cancelled
    else none
decode_outcome _ = none

unfoldable pub decode_verdict : Value → Option Verdict
decode_verdict (Value.string t) =
    if t == verdict_text Verdict.accept
    then some Verdict.accept
    else if t == verdict_text Verdict.reject
    then some Verdict.reject
    else if t == verdict_text Verdict.undecidable
    then some Verdict.undecidable
    else none
decode_verdict _ = none

unfoldable pub decode_decision : Value → Option DecisionKind
decode_decision (Value.string t) =
    if t == decision_text DecisionKind.retry
    then some DecisionKind.retry
    else if t == decision_text DecisionKind.revise
    then some DecisionKind.revise
    else if t == decision_text DecisionKind.cancel
    then some DecisionKind.cancel
    else if t == decision_text DecisionKind.approve_action
    then some DecisionKind.approve_action
    else if t == decision_text DecisionKind.deny_action
    then some DecisionKind.deny_action
    else if t == decision_text DecisionKind.record_assessment
    then some DecisionKind.record_assessment
    else none
decode_decision _ = none

abbrev malformed : StoredEvent → Malformed → TransitionError
malformed event why = malformed_event event.seq event.kind why

-- The closure `field`, and the decoding of what it returns.
field : StoredEvent → Text → Result Value TransitionError
unfolding get non_null
field event name = or_fail (non_null (get name event.payload)) (malformed event (missing name))

unfoldable pub decoded :
    {A : Type 0} → StoredEvent → Text → (Value → Option A) → Result A TransitionError
unfolding field
decoded event name decode = do
  v ← field event name
  or_fail (decode v) (malformed event (ill_typed name))

-- `.filter(|v| !v.is_null()).map(from_value).transpose()`
optional_digest : StoredEvent → Option Value → Result (Option Digest) TransitionError
unfolding decode_digest
optional_digest event none = ok none
optional_digest event (some v) = elim (decode_digest v) [
  | some d ↦ ok (some d)
  | none ↦ err (malformed event (ill_typed (text "result_digest")))
]

unfoldable pub decode_finished : StoredEvent → Result NodeEvent TransitionError
unfolding decoded decode_number decode_outcome optional_digest get non_null
decode_finished event = do
  n ← decoded event (text "number") decode_number
  outcome ← decoded event (text "outcome") decode_outcome
  digest ← optional_digest event (non_null (get (text "result_digest") event.payload))
  ok (execution_finished n outcome digest)

unfoldable pub decode_receipt : StoredEvent → NodeRef → Result NodeEvent TransitionError
unfolding decoded decode_number decode_ident decode_verdict
decode_receipt event node = do
  n ← decoded event (text "number") decode_number
  id ← decoded event (text "receipt_id") decode_ident
  verdict ← decoded event (text "verdict") decode_verdict
  ok (receipt_admitted n (record { id = id; run_id = event.run_id; node = node }) verdict)

unfoldable pub decode_decided : StoredEvent → Result NodeEvent TransitionError
unfolding decoded decode_ident decode_decision
decode_decided event = do
  packet ← decoded event (text "packet_id") decode_ident
  decision ← decoded event (text "decision") decode_decision
  ok (decision_admitted packet decision)

-- `NodeEvent::from_stored`: the match on `event.kind`.
unfoldable pub from_stored : StoredEvent → NodeRef → Result NodeEvent TransitionError
from_stored event node =
    if event.kind == kind_dispatched
    then decoded event (text "number") decode_number >>= (λ n. ok (dispatched n))
    else if event.kind == kind_sealed
    then decode_finished event
    else if event.kind == kind_receipt
    then decode_receipt event node
    else if event.kind == kind_gate
    then decoded event (text "packet_id") decode_ident >>= (λ p. ok (gate_opened p))
    else if event.kind == kind_decision
    then decode_decided event
    else if event.kind == kind_retry
    then ok retry_allowed
    else if event.kind == kind_cancelled
    then ok node_cancelled
    else err (unknown_event event.seq event.kind)

-- What a test or a proof that runs the decoder unfolds.
unfoldable pub decodes : Unit {0}
unfolding from_stored decode_finished decode_receipt decode_decided decoded decode_number
    decode_ident
decodes = tt

-- What the types of an event's fields promise: a positive `u32`, valid identifiers and digests, and a
-- receipt reference that is about this run and node.
abbrev pub ValidNumber : ℕ → Type 0
ValidNumber n = (0 < n) × (n < u32_mod)

abbrev pub ValidIdent : Text → Type 0
ValidIdent t = is_ok (check_identifier (text "identifier") t) ≡ true

abbrev pub ValidDigest : Option Text → Type 0
ValidDigest none = Unit
ValidDigest (some d) = is_ok (new_digest d) ≡ true

abbrev pub IsTyped : StoredEvent → NodeRef → NodeEvent → Type 0
IsTyped event node (dispatched n) = ValidNumber n
IsTyped event node (execution_finished n o d) = ValidNumber n × ValidDigest d
IsTyped event node (receipt_admitted n r v) =
    ValidNumber n × ValidIdent r.id × (r.run_id ≡ event.run_id) × (r.node ≡ node)
IsTyped event node (gate_opened p) = ValidIdent p
IsTyped event node (decision_admitted p d) = ValidIdent p
IsTyped event node retry_allowed = Unit
IsTyped event node node_cancelled = Unit

-- A stored event with the kind and payload of a node event decodes to that event, where its
-- attempt number is a positive `u32`, its identifiers and digest are valid, and its receipt
-- names the run of the stored event and the node that it is decoded for.
pub from_stored-payload :
    (event : StoredEvent) (node : NodeRef) (e : NodeEvent)
    → event.kind ≡ kind e
    → event.payload ≡ payload e
    → IsTyped event node e
    → from_stored event node ≡ ok e
unfolding decodes kind payload list_beq
from_stored-payload event node (dispatched n) k p t = rw (k, p) (ground arith)
from_stored-payload event node (execution_finished n o none) k p t = rw (k, p) (ground arith)
from_stored-payload event node (execution_finished n o (some d)) k p t = rw (k, p) (ground arith)
from_stored-payload event node (receipt_admitted n r v) k p t = rw (k, p) (ground arith)
from_stored-payload event node (gate_opened q) k p t = rw (k, p) (ground arith)
from_stored-payload event node (decision_admitted q d) k p t = rw (k, p) (ground arith)
from_stored-payload event node retry_allowed k p t = rw k
from_stored-payload event node node_cancelled k p t = rw k
