-- ===== src/Store/Tables.antt =====
-- src/store/mod.rs: the tables of the schema as lists of rows in the order of their insertion, the
-- reads of `Ledger`, and the errors. `last_seq` is the counter that AUTOINCREMENT keeps.
use checkspan.Common.{
  ℕ, Bool, ◌&&◌, ◌||◌, Option, none, some, List, [], ◌∷◌, Text, text, ◌==◌, nat_eq, list_eq,
  option_eq, find, keep, any, length, ltb, leb, if◌then◌else◌,
}
use checkspan.Common.Json.{Value, get}
use checkspan.Common.Sorting.{sorted, text_ltb}
use checkspan.Contracts.Ids.{Ident, Digest, NodeId, RunId}
use checkspan.Contracts.Refs.{GraphRef, graph_ref_eq, AttemptRef}
use checkspan.Contracts.Graph.{GraphRun, GraphSpec}
use checkspan.Contracts.Attempt.{Attempt, VerifierReceipt}
use checkspan.Contracts.Packet.{GatePacket}
use checkspan.State.Event.{kind_dispatched}
use checkspan.Store.Rows.{StoredEvent, ClaimRow, GraphRow, DecisionRow, ArtifactRow}

pub record Db : Type 0 where
  pub graphs : List GraphRow
  pub runs : List GraphRun
  pub events : List StoredEvent
  pub last_seq : ℕ
  pub attempts : List Attempt
  pub receipts : List VerifierReceipt
  pub gate_packets : List GatePacket
  pub gate_decisions : List DecisionRow
  pub claims : List ClaimRow
  pub artifacts : List ArtifactRow

abbrev pub empty_db : Db
empty_db = record {
  graphs = [];
  runs = [];
  events = [];
  last_seq = 0;
  attempts = [];
  receipts = [];
  gate_packets = [];
  gate_decisions = [];
  claims = [];
  artifacts = [];
}

-- The texts that the messages of `StoreError` name, one constructor for each.
pub data Named : Type 0 where
  graph : GraphRef → Named
  run : RunId → Named
  run_or_row : RunId → (kind : Text) → Named
  attempt : AttemptRef → Named
  receipt : Text → Named
  packet_or_run : Ident → Named
  packet decision_for : Ident → Named
  artifact_or_run : Text → Named
  claim_or_run : RunId → NodeId → ℕ → Named

pub data Sized : Type 0 where
  graph_spec graph_run event_payload attempt_record receipt_record gate_packet gate_decision : Sized
  artifact_locator : Sized

-- `UnsupportedSchema` and `Sqlite` belong to the file, which is not modelled. `corrupt` holds the text
-- that cannot be read; the texts that only abort a transaction are replaced by the error they hide.
pub data StoreError : Type 0 where
  revision_conflict : GraphRef → (stored offered : Digest) → StoreError
  missing_reference duplicate : Named → StoreError
  too_large : Sized → (size limit : ℕ) → StoreError
  canonical corrupt : Text → StoreError

abbrev pub max_locator_len : ℕ
max_locator_len = 2048

abbrev pub max_record_len : ℕ
max_record_len = 4194304

-- The keys of the tables.
abbrev pub is_graph : GraphRef → GraphRow → Bool
is_graph g row = row.graph_ref == g

abbrev pub is_run : RunId → GraphRun → Bool
is_run run_id row = row.run_id == run_id

abbrev pub is_attempt : RunId → NodeId → ℕ → Attempt → Bool
is_attempt run_id node_id number row =
    (row.run_id == run_id) && (row.node.node_id == node_id) && (row.number == number)

abbrev pub is_receipt : RunId → Text → VerifierReceipt → Bool
is_receipt run_id receipt_id row = (row.attempt.run_id == run_id) && (row.id == receipt_id)

abbrev pub is_packet : RunId → Ident → GatePacket → Bool
is_packet run_id packet_id row = (row.run_id == run_id) && (row.id == packet_id)

abbrev pub is_decision : RunId → Ident → DecisionRow → Bool
is_decision run_id packet_id row =
    (row.run_id == run_id) && (row.decision.gate_packet_id == packet_id)

abbrev pub is_claim : RunId → NodeId → ℕ → ClaimRow → Bool
is_claim run_id node_id number row =
    (row.run_id == run_id) && (row.node_id == node_id) && (row.number == number)

abbrev pub is_fence : RunId → ℕ → ClaimRow → Bool
is_fence run_id fence row = (row.run_id == run_id) && (row.fence == fence)

abbrev pub is_artifact : RunId → Text → ArtifactRow → Bool
is_artifact run_id digest row = (row.run_id == run_id) && (row.artifact.digest == digest)

-- `SELECT EXISTS (...)`
unfoldable pub graph_exists : Db → GraphRef → Bool
unfolding any
graph_exists db g = any (is_graph g) db.graphs

unfoldable pub run_exists : Db → RunId → Bool
unfolding any
run_exists db run_id = any (is_run run_id) db.runs

unfoldable pub attempt_exists : Db → RunId → NodeId → ℕ → Bool
unfolding any
attempt_exists db run_id node_id number = any (is_attempt run_id node_id number) db.attempts

unfoldable pub receipt_exists : Db → RunId → Text → Bool
unfolding any
receipt_exists db run_id receipt_id = any (is_receipt run_id receipt_id) db.receipts

unfoldable pub packet_exists : Db → RunId → Ident → Bool
unfolding any
packet_exists db run_id packet_id = any (is_packet run_id packet_id) db.gate_packets

-- `read_events`
unfoldable pub read_events : Db → RunId → List StoredEvent
unfolding keep
read_events db run_id = keep (λ e. e.run_id == run_id) db.events

unfoldable pub read_receipt : Db → RunId → Text → Option VerifierReceipt
unfolding find
read_receipt db run_id receipt_id = find (is_receipt run_id receipt_id) db.receipts

unfoldable pub read_gate_packets : Db → RunId → List GatePacket
unfolding keep
read_gate_packets db run_id = keep (λ p. p.run_id == run_id) db.gate_packets

unfoldable pub read_attempt : Db → RunId → NodeId → ℕ → Option Attempt
unfolding find
read_attempt db run_id node_id number = find (is_attempt run_id node_id number) db.attempts

unfoldable pub read_attempts : Db → RunId → NodeId → List Attempt
unfolding keep sorted
read_attempts db run_id node_id =
    sorted (λ a b. ltb a.number b.number)
      (keep (λ a. (a.run_id == run_id) && (a.node.node_id == node_id)) db.attempts)

-- `json_extract(payload_json, '$.receipt_id')`, where it is a string.
unfoldable pub payload_receipt : Option Value → Option Text
payload_receipt (some (Value.string id)) = some id
payload_receipt _ = none

abbrev pub kind_revoked : Text
kind_revoked = text "receipt_revoked"

ids_of : List StoredEvent → List Text
unfolding get payload_receipt
ids_of [] = []
ids_of (e ∷ rest) = elim (payload_receipt (get (text "receipt_id") e.payload)) [
  | none ↦ ids_of rest
  | some id ↦ id ∷ ids_of rest
]

-- `read_revoked`; the set is the list of its insertions.
unfoldable pub read_revoked : Db → RunId → List Text
unfolding keep ids_of
read_revoked db run_id =
    ids_of (keep (λ e. (e.run_id == run_id) && (e.kind == kind_revoked)) db.events)

unfoldable pub read_run : Db → RunId → Option GraphRun
unfolding find
read_run db run_id = find (is_run run_id) db.runs

abbrev pub max_u32 : ℕ
max_u32 = 4294967295

abbrev pub is_dispatch : RunId → StoredEvent → Bool
is_dispatch run_id e = (e.run_id == run_id) && (e.kind == kind_dispatched)

unfoldable pub read_dispatch_count : Db → RunId → ℕ
unfolding keep
read_dispatch_count db run_id =
    let n = length (keep (is_dispatch run_id) db.events) in if leb n max_u32 then n else max_u32

-- `ORDER BY claimed_at, run_id, fence`
unfoldable pub claim_before : ClaimRow → ClaimRow → Bool
unfolding text_ltb
claim_before a b =
    text_ltb a.claimed_at b.claimed_at
    || ((a.claimed_at == b.claimed_at)
        && (text_ltb a.run_id b.run_id || ((a.run_id == b.run_id) && ltb a.fence b.fence)))

unfoldable pub read_active_claims : Db → List ClaimRow
unfolding keep sorted claim_before
read_active_claims db = sorted claim_before (keep (λ c. c.active) db.claims)

unfoldable pub read_claim : Db → RunId → NodeId → ℕ → Option ClaimRow
unfolding find
read_claim db run_id node_id number = find (is_claim run_id node_id number) db.claims

-- `Store::claims`
unfoldable pub read_claims : Db → RunId → List ClaimRow
unfolding keep sorted
read_claims db run_id =
    sorted (λ a b. ltb a.fence b.fence) (keep (λ c. c.run_id == run_id) db.claims)

-- `Store::load_graph`
unfoldable pub load_graph : Db → GraphRef → Option GraphSpec
unfolding find
load_graph db g = elim (find (is_graph g) db.graphs) [ none ↦ none | some row ↦ some row.spec ]
