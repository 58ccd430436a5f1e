-- ===== src/Store/Changes.antt =====
-- src/store/mod.rs: what one write may do to each table.
use checkspan.Common.{◌⊎◌, ℕ, Bool, true, false, List, map, ◌≡◌, Text, ok}
use checkspan.Common.Tables.{Change, Added}
use checkspan.Contracts.Ids.{NodeId, RunId}
use checkspan.Contracts.Graph.{GraphRun, graph_ref}
use checkspan.Contracts.Attempt.{Attempt, VerifierReceipt}
use checkspan.Contracts.Packet.{GatePacket}
use checkspan.Store.Rows.{StoredEvent, ClaimRow, GraphRow, DecisionRow, ArtifactRow}
use checkspan.Store.Tables.{
  Db, is_graph, is_run, is_attempt, is_receipt, is_packet, is_decision, is_claim, is_fence,
  is_artifact, graph_exists, run_exists, attempt_exists, packet_exists,
}
use checkspan.Store.Writes.{Host, trigger_allows, released, is_held}

-- What each table asks of a row, read off the foreign keys, the trigger and the digest binding.
abbrev pub GraphOk : Host → GraphRow → Type 0
GraphOk host row =
    (graph_ref row.spec ≡ row.graph_ref) × (host.spec_digest row.spec ≡ ok row.spec_digest)

abbrev pub RunOk : Db → GraphRun → Type 0
RunOk db run = graph_exists db run.graph_ref ≡ true

abbrev pub EventOk : Db → StoredEvent → Type 0
EventOk db e =
    (run_exists db e.run_id ≡ true) × (trigger_allows db e.run_id e.kind e.payload ≡ true)

abbrev pub AttemptOk : Db → Attempt → Type 0
AttemptOk db a = run_exists db a.run_id ≡ true

abbrev pub ReceiptOk : Db → VerifierReceipt → Type 0
ReceiptOk db r = attempt_exists db r.attempt.run_id r.attempt.node.node_id r.attempt.number ≡ true

abbrev pub PacketOk : Db → GatePacket → Type 0
PacketOk db p = run_exists db p.run_id ≡ true

abbrev pub DecisionOk : Db → DecisionRow → Type 0
DecisionOk db d = packet_exists db d.run_id d.decision.gate_packet_id ≡ true

abbrev pub ArtifactOk : Db → ArtifactRow → Type 0
ArtifactOk db a = run_exists db a.run_id ≡ true

abbrev pub ClaimOk : Db → ClaimRow → Type 0
ClaimOk db c = run_exists db c.run_id ≡ true

-- Whether a later row has the primary key, or the unique pair, of an earlier one.
abbrev pub graph_clash : GraphRow → GraphRow → Bool
graph_clash later row = is_graph later.graph_ref row

abbrev pub run_clash : GraphRun → GraphRun → Bool
run_clash later row = is_run later.run_id row

abbrev pub event_clash : StoredEvent → StoredEvent → Bool
event_clash later row = false

abbrev pub attempt_clash : Attempt → Attempt → Bool
attempt_clash later row = is_attempt later.run_id later.node.node_id later.number row

abbrev pub receipt_clash : VerifierReceipt → VerifierReceipt → Bool
receipt_clash later row = is_receipt later.attempt.run_id later.id row

abbrev pub packet_clash : GatePacket → GatePacket → Bool
packet_clash later row = is_packet later.run_id later.id row

abbrev pub decision_clash : DecisionRow → DecisionRow → Bool
decision_clash later row = is_decision later.run_id later.decision.gate_packet_id row

abbrev pub artifact_clash : ArtifactRow → ArtifactRow → Bool
artifact_clash later row = is_artifact later.run_id later.artifact.digest row

abbrev pub claim_clash : ClaimRow → ClaimRow → Bool
claim_clash later row = is_claim later.run_id later.node_id later.number row

abbrev pub fence_clash : ClaimRow → ClaimRow → Bool
fence_clash later row = is_fence later.run_id later.fence row

-- A claim that a release may have changed.
abbrev pub Released : List ClaimRow → List ClaimRow → Type 0
Released old new =
    (now how : Text) × (run_id : RunId) × (node_id : NodeId) × (number : ℕ) × (fence : ℕ) × (new
      ≡ map (released now how (is_held run_id node_id number fence)) old)

pub data Table : Type 0 where
  graphs runs events attempts receipts gate_packets gate_decisions artifacts claims fences : Table

-- What one write may do to a table. Claims have two unique keys, and may also be released.
abbrev pub ChangeAt : Host → Db → Db → Table → Type 0
ChangeAt host db next graphs = Change (GraphOk host) graph_clash db.graphs next.graphs
ChangeAt host db next runs = Change (RunOk db) run_clash db.runs next.runs
ChangeAt host db next events = Change (EventOk db) event_clash db.events next.events
ChangeAt host db next attempts = Change (AttemptOk db) attempt_clash db.attempts next.attempts
ChangeAt host db next receipts = Change (ReceiptOk db) receipt_clash db.receipts next.receipts
ChangeAt host db next gate_packets =
    Change (PacketOk db) packet_clash db.gate_packets next.gate_packets
ChangeAt host db next gate_decisions =
    Change (DecisionOk db) decision_clash db.gate_decisions next.gate_decisions
ChangeAt host db next artifacts = Change (ArtifactOk db) artifact_clash db.artifacts next.artifacts
ChangeAt host db next claims =
    (next.claims ≡ db.claims)
    ⊎ (Added (ClaimOk db) claim_clash db.claims next.claims ⊎ Released db.claims next.claims)
ChangeAt host db next fences =
    (next.claims ≡ db.claims)
    ⊎ (Added (ClaimOk db) fence_clash db.claims next.claims ⊎ Released db.claims next.claims)

abbrev pub Changes : Host → Db → Db → Type 0
Changes host db next = (table : Table) → ChangeAt host db next table
