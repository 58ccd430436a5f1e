-- ===== src/Gates/Open.antt =====
-- src/gates/mod.rs: `open_resolve_work`, in one transaction on the store.
use checkspan.Common.{none, some, is_empty, Result, ok, err, ◌>>=◌, or_fail, map_err, find, lookup}
use checkspan.Contracts.Ids.{NodeId}
use checkspan.Contracts.Time.{Timestamp, is_before}
use checkspan.Contracts.Node.{NodeSpec}
use checkspan.Contracts.Graph.{GraphSpec, GraphRun, find_node, ref_of}
use checkspan.Contracts.Packet.{GatePacket, check_packet}
use checkspan.State.Event.{gate_opened, kind_gate}
use checkspan.State.Node.{NodeState, apply}
use checkspan.State.Run.{node_state, replay_run}
use checkspan.Store.Tables.{Db, read_events, read_attempt}
use checkspan.Store.Writes.{Host, log, insert_gate_packet}
use checkspan.Store.Ops.{transaction, opened_payload}
use checkspan.Receipts.Issue.{only_if}
use checkspan.Gates.Packets.{
  PacketWriter, GateBuildError, no_sealed_attempt, expiry_not_after_creation, not_in_graph,
  no_state, not_replayed, unbound, not_gateable, not_canonical, context_refs, packet_of,
}

-- The state of the node, by the replayed log.
unfoldable pub gated_node : GraphSpec → GraphRun → NodeId → Db → Result NodeState GateBuildError
unfolding replay_run read_events lookup
gated_node spec run id db = do
  state ← map_err not_replayed (replay_run run.run_id spec (read_events db run.run_id))
  or_fail (node_state state id) (no_state id)

-- The packet for the attempt that the node is at, if opening it is legal. `node_ref` of the source has
-- a reference for every node of the graph, which is `ref_of`.
unfoldable pub build_packet :
    PacketWriter
    → GraphSpec
    → GraphRun
    → NodeSpec
    → (now expires_at : Timestamp) → Db
    → Result GatePacket GateBuildError
unfolding gated_node read_attempt context_refs packet_of check_packet apply
build_packet w spec run node now expires_at db = do
  s ← gated_node spec run node.id db
  number ← or_fail s.current_attempt no_sealed_attempt
  attempt ← or_fail (read_attempt db run.run_id node.id number) no_sealed_attempt
  refs ← map_err not_canonical (context_refs w db run.run_id node.id attempt)
  packet ← packet_of w run node (ref_of spec.graph_id node) number refs now expires_at
  _ ← only_if (is_empty (check_packet packet)) (unbound (check_packet packet))
  _ ← map_err (not_gateable s.status) (apply s (gate_opened packet.id))
  ok packet

unfoldable pub open_body :
    Host
    → PacketWriter
    → GraphSpec
    → GraphRun
    → NodeSpec
    → (now expires_at : Timestamp) → Db
    → Result (GatePacket × Db) GateBuildError
unfolding build_packet insert_gate_packet log
open_body host w spec run node now expires_at db = do
  packet ← build_packet w spec run node now expires_at db
  stored ← map_err GateBuildError.store (insert_gate_packet host db packet)
  logged ←
      map_err GateBuildError.store
        (log host stored run.run_id (some node.id) kind_gate (opened_payload packet))
  ok (packet, logged)

unfoldable pub open_resolve_work :
    Host
    → PacketWriter
    → GraphSpec
    → GraphRun
    → NodeId
    → (now expires_at : Timestamp) → Db
    → Result GatePacket GateBuildError × Db
unfolding is_before find transaction open_body
open_resolve_work host w spec run id now expires_at db =
    elim (only_if (is_before now expires_at) expiry_not_after_creation) [
      | err e ↦ (err e, db)
      | ok _ ↦ elim (find_node id spec.nodes) [
        | none ↦ (err (not_in_graph id), db)
        | some node ↦ transaction db (open_body host w spec run node now expires_at)
      ]
    ]
