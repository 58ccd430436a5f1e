-- ===== src/Store/Steps.antt =====
-- src/store/mod.rs: the writes as a step relation on the tables. Every operation of the store, and
-- every transaction on it, is a sequence of these steps.
use checkspan.Common.{ℕ, Bool, true, Option, ◌≡◌, Text, find, ok}
use checkspan.Common.Json.{Value}
use checkspan.Contracts.Ids.{NodeId, RunId, Digest}
use checkspan.Contracts.Graph.{GraphSpec, GraphRun, graph_ref}
use checkspan.Contracts.Attempt.{Attempt, VerifierReceipt}
use checkspan.Contracts.Packet.{GatePacket, GateDecision}
use checkspan.Store.Rows.{ClaimRow, ArtifactRef}
use checkspan.Store.Tables.{Db, is_graph, graph_exists}
use checkspan.Store.Writes.{
  Host, append_event, insert_attempt, insert_receipt, insert_gate_packet, insert_gate_decision,
  insert_claim, release_claim, insert_artifact,
}
use checkspan.Store.Ops.{StoredGraph, put_graph, put_run}

-- One statement that succeeds, under what its callers have checked.
pub data Step (host : Host) : Db → Db → Type 0 where
  graph_put :
      {db next : Db} (spec : GraphSpec) (digest : Digest) (stored : StoredGraph)
      → host.spec_digest spec ≡ ok digest
      → put_graph spec digest (find (is_graph (graph_ref spec)) db.graphs) db ≡ ok (stored, next)
      → Step host db next
  run_put :
      {db next : Db} (run : GraphRun)
      → graph_exists db run.graph_ref ≡ true
      → put_run run db ≡ ok next
      → Step host db next
  event_appended :
      {db next : Db} (run_id : RunId) (node_id : Option NodeId) (kind : Text) (payload : Value)
      (seq : ℕ)
      → append_event host db run_id node_id kind payload ≡ ok (seq, next)
      → Step host db next
  attempt_inserted :
      {db next : Db} (a : Attempt) → insert_attempt host db a ≡ ok next → Step host db next
  receipt_inserted :
      {db next : Db} (r : VerifierReceipt) → insert_receipt host db r ≡ ok next → Step host db next
  packet_inserted :
      {db next : Db} (p : GatePacket) → insert_gate_packet host db p ≡ ok next → Step host db next
  decision_inserted :
      {db next : Db} (run_id : RunId) (d : GateDecision)
      → insert_gate_decision host db run_id d ≡ ok next
      → Step host db next
  claim_inserted :
      {db next : Db} (c : ClaimRow) → insert_claim host db c ≡ ok next → Step host db next
  claim_released :
      {db next : Db} (run_id : RunId) (node_id : NodeId) (number fence : ℕ) (how : Text)
      (any_row : Bool)
      → release_claim host db run_id node_id number fence how ≡ (any_row, next)
      → Step host db next
  artifact_inserted :
      {db next : Db} (run_id : RunId) (a : ArtifactRef)
      → insert_artifact db run_id a ≡ ok next
      → Step host db next

pub data Steps (host : Host) : Db → Db → Type 0 where
  none_yet : {db : Db} → Steps host db db
  and_then : {db mid next : Db} → Steps host db mid → Step host mid next → Steps host db next
