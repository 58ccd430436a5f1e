-- ===== src/Gates/Opened.antt =====
-- src/gates/mod.rs: `open_resolve_work` as a whole, on a ledger, and what the run becomes.
use checkspan.Common.{
  map_err_ok, some, List, [], ◌∷◌, ◌++◌, ◌≡◌, ◌⊎◌, refl, sym, ◌∙◌, subst, ap, inl, inr, arith, ok,
  err, true, >>=_ok, Result-cases, Option-cases, map_err, ok-injective, Bool-cases, Text, text,
  ◌==◌, ==→≡, ==_self, list_eq, list_beq, nat_eq, keep, keep-append, find, is_ok,
}
use checkspan.Contracts.Ids.{NodeId, new_identifier, check_identifier}
use checkspan.Contracts.Time.{Timestamp, is_before}
use checkspan.Contracts.Refs.{NodeRef}
use checkspan.Contracts.Node.{NodeSpec}
use checkspan.Contracts.Graph.{GraphSpec, GraphRun, find_node, node_ref, ref_of}
use checkspan.Contracts.Packet.{GatePacket}
use checkspan.Contracts.View.{gated}
use checkspan.State.Event.{gate_opened, kind_gate}
use checkspan.State.Node.{NodeState}
use checkspan.State.Stored.{from_stored, decodes}
use checkspan.State.Run.{RunState, node_state, replay_run}
use checkspan.State.Appended.{replay_run-append}
use checkspan.Store.Rows.{StoredEvent}
use checkspan.Store.Tables.{Db, read_events}
use checkspan.Store.Writes.{Host, log, insert_gate_packet, len_checked}
use checkspan.Store.Logged.{log-IsLogged}
use checkspan.Common.Json.{Value, Fields}
use checkspan.Store.Ops.{transaction, opened_payload, purpose_text}
use checkspan.Receipts.Issue.{only_if}
use checkspan.Receipts.Bound.{only_if_ok}
use checkspan.Gates.Packets.{
  PacketWriter, GateBuildError, expiry_not_after_creation, not_in_graph, gate_id,
}
use checkspan.Gates.Open.{build_packet, open_body, open_resolve_work}
use checkspan.Gates.Built.{IsBuilt, AwaitsPacket, apply-AwaitsPacket, build_packet-IsBuilt}

-- The packet is the one row added to the packets, and its event the one added to the log.
pub record IsFiled (p : GatePacket) (run : GraphRun) (id : NodeId) (db next : Db) : Type 0 where
  pub packets : next.gate_packets ≡ db.gate_packets ++ p ∷ []
  pub event : StoredEvent
  pub events : next.events ≡ db.events ++ event ∷ []
  pub in_run : event.run_id ≡ run.run_id
  pub on_node : event.node_id ≡ some id
  pub of_kind : event.kind ≡ kind_gate
  pub carries :
      event.payload
      ≡ Value.object (
          Fields.field
            (text "packet_id")
            (Value.string p.id)
            (Fields.field (text "purpose") (Value.string (purpose_text p.purpose)) Fields.end))

insert-packets :
    (host : Host) (db next : Db) (p : GatePacket)
    → insert_gate_packet host db p ≡ ok next
    → (next.gate_packets ≡ db.gate_packets ++ p ∷ []) × (next.events ≡ db.events)
unfolding insert_gate_packet len_checked
insert-packets host db next p h = ground arith

filed :
    (host : Host) (db mid next : Db) (p : GatePacket) (run : GraphRun) (id : NodeId)
    → insert_gate_packet host db p ≡ ok mid
    → log host mid run.run_id (some id) kind_gate (opened_payload p) ≡ ok next
    → IsFiled p run id db next
filed host db mid next p run id h k =
    let (own, kept) = insert-packets host db mid p h in
    let logged = log-IsLogged run.run_id (some id) kind_gate (opened_payload p) host mid next k in
    record {
      packets = ap (λ (d : Db). d.gate_packets) logged.rest ∙ own;
      event = logged.event;
      events = ap (λ (d : Db). d.events) logged.rest ∙ ap (λ l. l ++ logged.event ∷ []) kept;
      in_run = logged.in_run;
      on_node = logged.on_node;
      of_kind = logged.of_kind;
      carries = logged.carries;
    }

find_node_id :
    (nodes : List NodeSpec) (id : NodeId) (node : NodeSpec)
    → find_node id nodes ≡ some node
    → node.id ≡ id
unfolding find
find_node_id [] id node h = cc
find_node_id (n ∷ ns) id node h = elim (Bool-cases (n.id == id)) [
  | inl same ↦
      let one : n ≡ node = cc (rw same at h) in
      ap (λ (m : NodeSpec). m.id) (sym one) ∙ ==→≡ n.id id same
  | inr other ↦ find_node_id ns id node (rw other at h)
]

-- The payload of the source's event has the packet's purpose too, which decoding passes over.
from_stored-opened :
    (event : StoredEvent) (node : NodeRef) (p : GatePacket) (raw : Text)
    → event.kind ≡ kind_gate
    → event.payload ≡ opened_payload p
    → new_identifier (text "identifier") raw ≡ ok p.id
    → from_stored event node ≡ ok (gate_opened p.id)
unfolding decodes new_identifier list_beq
from_stored-opened event node p raw k c h =
    elim (Result-cases (check_identifier (text "identifier") raw)) [
      | inr (e, f) ↦ cc (rw (new_identifier, f) at h)
      | inl (u, f) ↦
          let same : raw ≡ p.id = cc (rw (new_identifier, f) at h) in
          let valid : is_ok (check_identifier (text "identifier") p.id) ≡ true =
            subst (λ t. is_ok (check_identifier (text "identifier") t) ≡ true) same (rw f refl) in
          rw (k, c) (ground (arith, valid))
    ]

module _ (host : Host) (w : PacketWriter) (spec : GraphSpec) (run : GraphRun) (id : NodeId)
    (now expires_at : Timestamp) (db : Db) where
  -- What an opened packet is, and what it leaves.
  pub record IsOpened (p : GatePacket) (next : Db) : Type 0 where
    pub node : NodeSpec
    pub in_graph : find_node id spec.nodes ≡ some node
    pub own_id : node.id ≡ id
    pub reference : node_ref spec id ≡ some p.node
    pub timely : is_before now expires_at ≡ true
    pub built : IsBuilt w spec run node now expires_at db p
    pub waits : AwaitsPacket built.before
    pub filed : IsFiled p run node.id db next

  body-IsOpened :
      (node : NodeSpec) (p : GatePacket) (next : Db)
      → find_node id spec.nodes ≡ some node
      → is_before now expires_at ≡ true
      → open_body host w spec run node now expires_at db ≡ ok (p, next)
      → IsOpened p next
  unfolding open_body node_ref
  body-IsOpened node p next found timely h =
      let (packet, first, h₁) = >>=_ok (build_packet w spec run node now expires_at db) _ h in
      let (mid, second, h₂) =
        >>=_ok (map_err GateBuildError.store (insert_gate_packet host db packet)) _ h₁ in
      let (end, third, last) =
        >>=_ok
          (map_err GateBuildError.store
            (log host mid run.run_id (some node.id) kind_gate (opened_payload packet)))
          _ h₂ in
      let inserted =
        map_err_ok GateBuildError.store (insert_gate_packet host db packet) mid second in
      let logged =
        map_err_ok GateBuildError.store
          (log host mid run.run_id (some node.id) kind_gate (opened_payload packet)) end third in
      let built = build_packet-IsBuilt w spec run node now expires_at db packet first in
      subst (λ (o : GatePacket × Db). IsOpened o.0 o.1) (ok-injective last)
        (record {
          node = node;
          in_graph = found;
          own_id = find_node_id spec.nodes id node found;
          reference = rw (node_ref, found) (ap some (sym built.packet.about));
          timely = timely;
          built = built;
          waits = (apply-AwaitsPacket built.before built.after packet.id built.legal).0;
          filed = filed host db mid end packet run node.id inserted logged;
        })

  -- The opening of a packet either fails and leaves the ledger as it was, or succeeds, and then:
  -- the node is one of the graph and its work, by the replayed log, was rejected or failed or is
  -- gated without a packet; the attempt that it is at is sealed; the packet is about this node
  -- in this run, offers a retry, a revision and a cancellation under version 1 of the policy
  -- `operator_decides`, and expires after its creation; it presents that attempt, no receipt
  -- where the log admits none for the node, the receipt that the log admitted last for the node
  -- where it is stored and is about that attempt, and the result where the attempt has one, each
  -- with its digest; its own digest is that of its subject with the claim of the node; it keeps
  -- the rules of packets; and the packet is the one row added to the packets and its event the
  -- one added to the log.
  pub open_resolve_work-IsOpened :
      ((e : GateBuildError) × (open_resolve_work host w spec run id now expires_at db
          ≡ (err e, db)))
      ⊎ ((p : GatePacket) × ((open_resolve_work host w spec run id now expires_at db).0 ≡ ok p)
          × IsOpened p (open_resolve_work host w spec run id now expires_at db).1)
  unfolding open_resolve_work transaction
  open_resolve_work-IsOpened =
      elim (Result-cases (only_if (is_before now expires_at) expiry_not_after_creation)) [
        | inr (e, f) ↦ inl (e, rw (open_resolve_work, f) refl)
        | inl (u, f) ↦ elim (Option-cases (find_node id spec.nodes)) [
          | inl g ↦ inl (not_in_graph id, rw (open_resolve_work, f, g) refl)
          | inr (node, g) ↦ elim (Result-cases (open_body host w spec run node now expires_at db)) [
            | inr (e, k) ↦ inl (e, rw (open_resolve_work, f, g, transaction, k) refl)
            | inl ((p, next), k) ↦ inr (
              p,
              rw (open_resolve_work, f, g, transaction, k) refl,
              rw (open_resolve_work, f, g, transaction, k)
                  (body-IsOpened node p next g (only_if_ok (is_before now expires_at) _ u f) k),
            )
          ]
        ]
      ]

  -- The node of a packet that was filed is gated in the replayed log, and waits on this packet.
  IsOpened-gates :
      (p : GatePacket) (next : Db)
      → IsOpened p next
      → (r : RunState) × (replay_run run.run_id spec (read_events next run.run_id) ≡ ok r)
        × ((s : NodeState) × (node_state r id ≡ some s)
            × (s.status ≡ gated)
            × (s.waiting_on_gate ≡ some p.id))
  unfolding read_events
  IsOpened-gates p next o =
      let b = o.built in
      let f = o.filed in
      let mine : (f.event.run_id == run.run_id) ≡ true = rw f.in_run (==_self run.run_id) in
      let log_is : read_events next run.run_id ≡ read_events db run.run_id ++ f.event ∷ [] =
        ap (keep (λ (e : StoredEvent). e.run_id == run.run_id)) f.events
        ∙ keep-append (λ (e : StoredEvent). e.run_id == run.run_id) db.events f.event mine in
      let decoded =
        from_stored-opened f.event (ref_of spec.graph_id o.node) p (gate_id o.node.id b.number)
          f.of_kind f.carries b.packet.identifier in
      let (r, replayed, found) =
        replay_run-append run.run_id spec (read_events db run.run_id) b.state id o.node f.event
          (gate_opened p.id) b.before b.after b.replayed o.in_graph (f.on_node ∙ ap some o.own_id)
          decoded (ap (λ n. node_state b.state n) (sym o.own_id) ∙ b.at_node) b.legal in
      let (_, status, waiting) = apply-AwaitsPacket b.before b.after p.id b.legal in
      (r, ap (replay_run run.run_id spec) log_is ∙ replayed, (b.after, found, status, waiting))

  -- When a packet is opened, the log that it leaves replays, and in the replayed run the node is
  -- gated and waits on this packet.
  pub open_resolve_work_gates :
      (p : GatePacket)
      → (open_resolve_work host w spec run id now expires_at db).0 ≡ ok p
      → (r : RunState) × (replay_run run.run_id spec
            (read_events (open_resolve_work host w spec run id now expires_at db).1 run.run_id)
          ≡ ok r)
        × ((s : NodeState) × (node_state r id ≡ some s)
            × (s.status ≡ gated)
            × (s.waiting_on_gate ≡ some p.id))
  open_resolve_work_gates p h = elim open_resolve_work-IsOpened [
    | inl (e, f) ↦ cc
    | inr (q, f, o) ↦
        let same : q ≡ p = ok-injective (sym f ∙ h) in
        rw (← same) (IsOpened-gates q (open_resolve_work host w spec run id now expires_at db).1 o)
  ]
