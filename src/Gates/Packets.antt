-- ===== src/Gates/Packets.antt =====
-- src/gates/mod.rs: what a resolve-work packet is built from, with `Display` of references of
-- src/contracts/attempt.rs and src/contracts/graph.rs. `PacketWriter` is the serialization that serde
-- derives for the records that a packet presents or is bound to.
use checkspan.Common.{
  ℕ, Bool, ◌&&◌, Option, none, some, List, [], ◌∷◌, ◌++◌, Text, text, ◌==◌, list_eq, option_eq,
  nat_eq, find, Result, ok, ◌>>=◌, map_err,
}
use mathlib.Core.List.{reverse}
use checkspan.Common.Json.{get}
use checkspan.Contracts.Ids.{Digest, NodeId, RunId, InvalidValue, new_identifier}
use checkspan.Contracts.Time.{Timestamp}
use checkspan.Contracts.Refs.{NodeRef, AttemptRef, PolicyRef}
use checkspan.Contracts.Node.{NodeSpec}
use checkspan.Contracts.Graph.{GraphRun}
use checkspan.Contracts.Attempt.{Attempt, ResultRef, VerifierReceipt, attempt_ref}
use checkspan.Contracts.Gate.{GatePurpose, resolve_work, DecisionKind, retry, revise, cancel}
use checkspan.Contracts.Packet.{ContextKind, ContextRef, GatePacket, GateError}
use checkspan.Contracts.View.{NodeStatus}
use checkspan.State.Event.{TransitionError, kind_receipt}
use checkspan.Store.Rows.{StoredEvent}
use checkspan.Store.Tables.{Db, StoreError, payload_receipt, read_events, read_receipt}
use checkspan.Digests.Envelope.{
  Json, Codec, CanonicalError, serialize, decimal, artifact_digest, jcs_bytes, digest_of,
}

abbrev pub operator_policy_id : Text
operator_policy_id = text "operator_decides"

abbrev pub gate_subject_kind : Text
gate_subject_kind = text "checkspan.gate_subject@1"

-- The texts of `Internal`, one constructor for each, and of the `Corrupt` errors that hide an error of
-- a digest or of an identifier.
pub data GateBuildError : Type 0 where
  not_gateable : NodeStatus → TransitionError → GateBuildError
  no_sealed_attempt expiry_not_after_creation : GateBuildError
  store : StoreError → GateBuildError
  not_in_graph no_state : NodeId → GateBuildError
  not_replayed : TransitionError → GateBuildError
  unbound : List GateError → GateBuildError
  not_canonical : CanonicalError → GateBuildError
  not_an_ident : InvalidValue → GateBuildError

pub record Subject : Type 0 where
  pub run_id : RunId
  pub node : NodeRef
  pub purpose : GatePurpose
  pub obligation : Text
  pub context_refs : List ContextRef
  pub options : List DecisionKind
  pub authority_policy_ref : PolicyRef
  pub created_at : Timestamp
  pub expires_at : Timestamp

pub record PacketWriter : Type 0 where
  pub codec : Codec
  pub write_attempt : Attempt → Result Json Text
  pub write_receipt : VerifierReceipt → Result Json Text
  pub write_subject : Subject → Result Json Text

-- `to_string` of a `NodeRef` and of an `AttemptRef`.
unfoldable pub node_ref_text : NodeRef → Text
node_ref_text n = n.graph_id ++ (b'/' ∷ (n.node_id ++ (b'@' ∷ decimal n.revision)))

unfoldable pub attempt_ref_text : AttemptRef → Text
unfolding node_ref_text
attempt_ref_text a = a.run_id ++ (b'/' ∷ (node_ref_text a.node ++ (b'#' ∷ decimal a.number)))

unfoldable pub options : List DecisionKind
options = retry ∷ revise ∷ cancel ∷ []

abbrev pub authority : PolicyRef
authority = record { id = operator_policy_id; version = 1 }

abbrev pub gate_id : NodeId → ℕ → Text
gate_id id number = text "gate-" ++ (id ++ (b'-' ∷ decimal number))

abbrev pub admits_for : NodeId → StoredEvent → Bool
admits_for id e = (e.kind == kind_receipt) && (e.node_id == some id)

-- `last_receipt_id`
unfoldable pub last_receipt_id : List StoredEvent → NodeId → Option Text
unfolding find get payload_receipt
last_receipt_id events id = elim (find (admits_for id) (reverse events)) [
  | none ↦ none
  | some e ↦ payload_receipt (get (text "receipt_id") e.payload)
]

module _ (w : PacketWriter) where
  unfoldable pub digest_of_record : Result Json Text → Result Digest CanonicalError
  unfolding jcs_bytes artifact_digest
  digest_of_record written = do
    value ← map_err serialize written
    bytes ← jcs_bytes w.codec value
    ok (artifact_digest w.codec bytes)

  -- The reference that is pushed for the last receipt, where the ledger has it.
  unfoldable pub receipt_context :
      Db → RunId → Option Text → Result (List ContextRef) CanonicalError
  unfolding read_receipt digest_of_record
  receipt_context db run_id none = ok []
  receipt_context db run_id (some receipt_id) = elim (read_receipt db run_id receipt_id) [
    | none ↦ ok []
    | some receipt ↦ digest_of_record (w.write_receipt receipt) >>= λ digest.
        ok (record { kind = ContextKind.receipt; id = receipt_id; digest = digest } ∷ [])
  ]

  unfoldable pub result_context : Option ResultRef → List ContextRef
  result_context none = []
  result_context (some result) =
      record { kind = ContextKind.artifact; id = result.artifact_ref; digest = result.digest } ∷ []

  unfoldable pub context_refs :
      Db → RunId → NodeId → Attempt → Result (List ContextRef) CanonicalError
  unfolding digest_of_record attempt_ref_text last_receipt_id read_events receipt_context
      result_context
  context_refs db run_id id attempt = do
    digest ← digest_of_record (w.write_attempt attempt)
    receipts ← receipt_context db run_id (last_receipt_id (read_events db run_id) id)
    ok (
        record {
          kind = ContextKind.attempt;
          id = attempt_ref_text (attempt_ref attempt);
          digest = digest;
        }
        ∷ (receipts ++ result_context attempt.result))

  unfoldable pub subject_digest : Subject → Result Digest CanonicalError
  unfolding digest_of
  subject_digest subject = map_err serialize (w.write_subject subject) >>= λ body.
      digest_of w.codec gate_subject_kind body

  -- The packet, before its rules are checked.
  unfoldable pub packet_of :
      GraphRun
      → NodeSpec
      → NodeRef
      → (number : ℕ) → List ContextRef
      → (now expires_at : Timestamp) → Result GatePacket GateBuildError
  unfolding new_identifier options subject_digest
  packet_of run node reference number refs now expires_at = do
    id ← map_err not_an_ident (new_identifier (text "identifier") (gate_id node.id number))
    digest ← map_err not_canonical (
        subject_digest (record {
          run_id = run.run_id;
          node = reference;
          purpose = resolve_work;
          obligation = node.acceptance.claim;
          context_refs = refs;
          options = options;
          authority_policy_ref = authority;
          created_at = now;
          expires_at = expires_at;
        }))
    ok (record {
      id = id;
      run_id = run.run_id;
      node = reference;
      purpose = resolve_work;
      context_refs = refs;
      subject_digest = digest;
      requested_decision = record { options = options; action = none };
      authority_policy_ref = authority;
      created_at = now;
      expires_at = expires_at;
    })
