-- ===== src/Store/Rows.antt =====
-- src/store/mod.rs: the rows of the tables. A row that the source keeps as the columns and the JSON
-- of one record is that record.
use checkspan.Common.{ℕ, Bool, Option, List, Text}
use checkspan.Common.Json.{Value}
use checkspan.Contracts.Ids.{Digest, NodeId, RunId}
use checkspan.Contracts.Refs.{GraphRef, ReceiptRef}
use checkspan.Contracts.Graph.{GraphSpec}
use checkspan.Contracts.Packet.{GateDecision}
use checkspan.Contracts.Node.{ResourceClaim}

pub record StoredEvent : Type 0 where
  pub seq : ℕ
  pub run_id : RunId
  pub node_id : Option NodeId
  pub kind : Text
  pub payload : Value
  pub recorded_at : Text

pub record ClaimRow : Type 0 where
  pub run_id : RunId
  pub node_id : NodeId
  pub number : ℕ
  pub owner : Text
  pub fence : ℕ
  pub dependency_receipts : List ReceiptRef
  pub resources : List ResourceClaim
  pub active : Bool
  pub release : Option Text
  pub claimed_at : Text
  pub released_at : Option Text

pub record ArtifactRef : Type 0 where
  pub digest : Text
  pub kind : Text
  pub locator : Text
  pub size_bytes : ℕ

-- A row of `graphs`.
pub record GraphRow : Type 0 where
  pub graph_ref : GraphRef
  pub spec_digest : Digest
  pub spec : GraphSpec

-- A row of `gate_decisions`, whose run is not part of the decision.
pub record DecisionRow : Type 0 where
  pub run_id : RunId
  pub decision : GateDecision

-- A row of `artifacts`.
pub record ArtifactRow : Type 0 where
  pub run_id : RunId
  pub artifact : ArtifactRef
