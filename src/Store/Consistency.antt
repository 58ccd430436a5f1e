-- ===== src/Store/Consistency.antt =====
-- src/store/mod.rs: what the schema and the writes together keep true of the tables.
use checkspan.Common.{
  ℕ, Bool, true, Option, none, some, ◌≡◌, sym, subst, inl, inr, arith, Text, All, list_eq, nat_eq,
  text,
}
use checkspan.Common.Tables.{
  Unique, Change-All, Change-Unique, Change-any, All-imp, All-map, Unique-map,
}
use checkspan.Common.Json.{Value, get}
use checkspan.Contracts.Ids.{NodeId, RunId}
use checkspan.Contracts.Refs.{GraphRef}
use checkspan.Store.Rows.{ClaimRow}
use checkspan.Store.Tables.{
  Db, empty_db, is_run, is_graph, is_attempt, is_receipt, is_packet, run_exists, graph_exists,
  attempt_exists, packet_exists, receipt_exists, payload_receipt,
}
use checkspan.Store.Writes.{Host, trigger_allows, names_receipt, released, is_held}
use checkspan.Store.Steps.{Steps}
use checkspan.Store.Changed.{Step-Changes}
use checkspan.Store.Changes.{
  Table, Changes, GraphOk, RunOk, EventOk, AttemptOk, ReceiptOk, PacketOk, DecisionOk, ArtifactOk,
  ClaimOk, graph_clash, run_clash, event_clash, attempt_clash, receipt_clash, packet_clash,
  decision_clash, artifact_clash, claim_clash, fence_clash,
}

pub record IsConsistent (host : Host) (db : Db) : Type 0 where
  pub graphs : All (GraphOk host) db.graphs
  pub runs : All (RunOk db) db.runs
  pub events : All (EventOk db) db.events
  pub attempts : All (AttemptOk db) db.attempts
  pub receipts : All (ReceiptOk db) db.receipts
  pub packets : All (PacketOk db) db.gate_packets
  pub decisions : All (DecisionOk db) db.gate_decisions
  pub artifacts : All (ArtifactOk db) db.artifacts
  pub claims : All (ClaimOk db) db.claims
  pub one_graph : Unique graph_clash db.graphs
  pub one_run : Unique run_clash db.runs
  pub one_attempt : Unique attempt_clash db.attempts
  pub one_receipt : Unique receipt_clash db.receipts
  pub one_packet : Unique packet_clash db.gate_packets
  pub one_decision : Unique decision_clash db.gate_decisions
  pub one_artifact : Unique artifact_clash db.artifacts
  pub one_claim : Unique claim_clash db.claims
  pub one_fence : Unique fence_clash db.claims

-- A release changes neither the keys of a claim nor its run.
claim_clash-released :
    (now how : Text) (held : ClaimRow → Bool) (c d : ClaimRow)
    → claim_clash (released now how held c) (released now how held d) ≡ claim_clash c d
unfolding released
claim_clash-released now how held c d = ground arith

fence_clash-released :
    (now how : Text) (held : ClaimRow → Bool) (c d : ClaimRow)
    → fence_clash (released now how held c) (released now how held d) ≡ fence_clash c d
unfolding released
fence_clash-released now how held c d = ground arith

ClaimOk-released :
    (db : Db) (now how : Text) (held : ClaimRow → Bool) (c : ClaimRow)
    → ClaimOk db c
    → ClaimOk db (released now how held c)
unfolding released
ClaimOk-released db now how held c h = ground arith

module _ (host : Host) (db next : Db) (c : Changes host db next) where
  keeps_run : (run_id : RunId) → run_exists db run_id ≡ true → run_exists next run_id ≡ true
  unfolding run_exists
  keeps_run run_id h = Change-any run_clash (is_run run_id) (c Table.runs) h

  keeps_graph : (g : GraphRef) → graph_exists db g ≡ true → graph_exists next g ≡ true
  unfolding graph_exists
  keeps_graph g h = Change-any graph_clash (is_graph g) (c Table.graphs) h

  keeps_attempt :
      (run_id : RunId) (node_id : NodeId) (number : ℕ)
      → attempt_exists db run_id node_id number ≡ true
      → attempt_exists next run_id node_id number ≡ true
  unfolding attempt_exists
  keeps_attempt run_id node_id number h =
      Change-any attempt_clash (is_attempt run_id node_id number) (c Table.attempts) h

  keeps_packet :
      (run_id : RunId) (packet_id : Text)
      → packet_exists db run_id packet_id ≡ true
      → packet_exists next run_id packet_id ≡ true
  unfolding packet_exists
  keeps_packet run_id packet_id h =
      Change-any packet_clash (is_packet run_id packet_id) (c Table.gate_packets) h

  keeps_receipt :
      (run_id : RunId) (receipt_id : Text)
      → receipt_exists db run_id receipt_id ≡ true
      → receipt_exists next run_id receipt_id ≡ true
  unfolding receipt_exists
  keeps_receipt run_id receipt_id h =
      Change-any receipt_clash (is_receipt run_id receipt_id) (c Table.receipts) h

  keeps_named :
      (run_id : RunId) (id : Option Text)
      → names_receipt db run_id id ≡ true
      → names_receipt next run_id id ≡ true
  unfolding names_receipt
  keeps_named run_id none h = cc
  keeps_named run_id (some id) h = keeps_receipt run_id id h

  keeps_trigger :
      (run_id : RunId) (kind : Text) (payload : Value)
      → trigger_allows db run_id kind payload ≡ true
      → trigger_allows next run_id kind payload ≡ true
  unfolding trigger_allows
  keeps_trigger run_id kind payload h =
      ground (arith, keeps_named run_id (payload_receipt (get (text "receipt_id") payload)))

  claims_kept : All (ClaimOk db) db.claims → All (ClaimOk next) next.claims
  claims_kept p = elim (c Table.claims) [
    | inl e ↦ Change-All claim_clash (inl e) (λ r. keeps_run r.run_id) p
    | inr (inl added) ↦ Change-All claim_clash (inr added) (λ r. keeps_run r.run_id) p
    | inr (inr (now, how, run_id, node_id, number, fence, e)) ↦
        let held = is_held run_id node_id number fence in
        subst (All (ClaimOk next)) (sym e) (
          All-map (released now how held) db.claims (ClaimOk-released next now how held)
            (All-imp (λ r. keeps_run r.run_id) db.claims p))
  ]

  claim_keys : Unique claim_clash db.claims → Unique claim_clash next.claims
  claim_keys u = elim (c Table.claims) [
    | inl e ↦ subst (Unique claim_clash) (sym e) u
    | inr (inl added) ↦ Change-Unique {Q = ClaimOk db} claim_clash (inr added) u
    | inr (inr (now, how, run_id, node_id, number, fence, e)) ↦
        let held = is_held run_id node_id number fence in
        subst (Unique claim_clash) (sym e) (
          Unique-map claim_clash (released now how held) db.claims
            (claim_clash-released now how held) u)
  ]

  fence_keys : Unique fence_clash db.claims → Unique fence_clash next.claims
  fence_keys u = elim (c Table.fences) [
    | inl e ↦ subst (Unique fence_clash) (sym e) u
    | inr (inl added) ↦ Change-Unique {Q = ClaimOk db} fence_clash (inr added) u
    | inr (inr (now, how, run_id, node_id, number, fence, e)) ↦
        let held = is_held run_id node_id number fence in
        subst (Unique fence_clash) (sym e) (
          Unique-map fence_clash (released now how held) db.claims
            (fence_clash-released now how held) u)
  ]

  Changes-IsConsistent : IsConsistent host db → IsConsistent host next
  Changes-IsConsistent k = record {
    graphs = Change-All graph_clash (c Table.graphs) (λ r h. h) k.graphs;
    runs = Change-All run_clash (c Table.runs) (λ r. keeps_graph r.graph_ref) k.runs;
    events =
        Change-All event_clash (c Table.events)
          (λ r h. (keeps_run r.run_id h.0, keeps_trigger r.run_id r.kind r.payload h.1)) k.events;
    attempts = Change-All attempt_clash (c Table.attempts) (λ r. keeps_run r.run_id) k.attempts;
    receipts =
        Change-All receipt_clash (c Table.receipts)
          (λ r. keeps_attempt r.attempt.run_id r.attempt.node.node_id r.attempt.number) k.receipts;
    packets = Change-All packet_clash (c Table.gate_packets) (λ r. keeps_run r.run_id) k.packets;
    decisions =
        Change-All decision_clash (c Table.gate_decisions)
          (λ r. keeps_packet r.run_id r.decision.gate_packet_id) k.decisions;
    artifacts = Change-All artifact_clash (c Table.artifacts) (λ r. keeps_run r.run_id) k.artifacts;
    claims = claims_kept k.claims;
    one_graph = Change-Unique graph_clash (c Table.graphs) k.one_graph;
    one_run = Change-Unique run_clash (c Table.runs) k.one_run;
    one_attempt = Change-Unique attempt_clash (c Table.attempts) k.one_attempt;
    one_receipt = Change-Unique receipt_clash (c Table.receipts) k.one_receipt;
    one_packet = Change-Unique packet_clash (c Table.gate_packets) k.one_packet;
    one_decision = Change-Unique decision_clash (c Table.gate_decisions) k.one_decision;
    one_artifact = Change-Unique artifact_clash (c Table.artifacts) k.one_artifact;
    one_claim = claim_keys k.one_claim;
    one_fence = fence_keys k.one_fence;
  }

empty-IsConsistent : (host : Host) → IsConsistent host empty_db
empty-IsConsistent host = record {
  graphs = tt;
  runs = tt;
  events = tt;
  attempts = tt;
  receipts = tt;
  packets = tt;
  decisions = tt;
  artifacts = tt;
  claims = tt;
  one_graph = tt;
  one_run = tt;
  one_attempt = tt;
  one_receipt = tt;
  one_packet = tt;
  one_decision = tt;
  one_artifact = tt;
  one_claim = tt;
  one_fence = tt;
}

pub Steps-IsConsistent_from :
    (host : Host) {db next : Db}
    → Steps host db next
    → IsConsistent host db
    → IsConsistent host next
Steps-IsConsistent_from host Steps.none_yet k = k
Steps-IsConsistent_from host (Steps.and_then {mid} {next} before step) k =
    Changes-IsConsistent host mid next (Step-Changes host mid step)
      (Steps-IsConsistent_from host before k)

-- A ledger that writes have reached from the empty one is consistent: a graph is stored under
-- its own reference and digest; every run names a stored graph, every event, attempt, packet,
-- artifact and claim a stored run, every receipt a stored attempt, every decision a stored
-- packet, and every `receipt_admitted` event a stored receipt; and no two rows share a primary
-- key, nor two claims of a run a fencing token.
pub Steps-IsConsistent : (host : Host) (db : Db) → Steps host empty_db db → IsConsistent host db
Steps-IsConsistent host db reached = Steps-IsConsistent_from host reached (empty-IsConsistent host)
