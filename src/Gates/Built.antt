-- ===== src/Gates/Built.antt =====
-- src/gates/mod.rs: what a packet that was built presents, and what it is bound to.
use checkspan.Common.{
  or_fail_ok, map_err_ok, ℕ, none, some, List, [], ◌∷◌, ◌++◌, ◌≡◌, ◌⊎◌, refl, subst, arith, Text,
  text, is_empty, ok, >>=_ok, or_fail, map_err, ok-injective,
}
use checkspan.Contracts.Time.{Timestamp}
use checkspan.Contracts.Node.{NodeSpec}
use checkspan.Contracts.Graph.{GraphSpec, GraphRun, ref_of}
use checkspan.Contracts.Attempt.{Attempt}
use checkspan.Contracts.Gate.{resolve_work, retry, revise, cancel}
use checkspan.Digests.Envelope.{Json, serialize, decimal, digest_of}
use checkspan.Gates.Context.{IsContext, context_refs-IsContext}
use checkspan.Contracts.Packet.{ContextRef, GatePacket, check_packet}
use checkspan.Contracts.View.{NodeStatus, rejected, gated}
use checkspan.State.Event.{gate_opened}
use checkspan.State.Node.{NodeState, apply}
use checkspan.State.Run.{RunState, node_state, replay_run}
use checkspan.Store.Tables.{Db, read_events, read_attempt}
use checkspan.Receipts.Issue.{only_if}
use checkspan.Receipts.Bound.{only_if_ok, is_empty_nil}
use checkspan.Gates.Packets.{
  PacketWriter, no_sealed_attempt, no_state, not_replayed, not_gateable, not_canonical,
  not_an_ident, options, context_refs, subject_digest, packet_of,
}
use checkspan.Gates.Open.{gated_node, build_packet}
use checkspan.Contracts.Ids.{new_identifier}

-- The work of the node was rejected or failed, or it is gated without a packet.
abbrev pub AwaitsPacket : NodeState → Type 0
AwaitsPacket s =
    (s.status ≡ rejected)
    ⊎ ((s.status ≡ NodeStatus.failed) ⊎ ((s.status ≡ gated) × (s.waiting_on_gate ≡ none)))

pub apply-AwaitsPacket :
    (s t : NodeState) (packet : Text)
    → apply s (gate_opened packet) ≡ ok t
    → AwaitsPacket s × (t.status ≡ gated) × (t.waiting_on_gate ≡ some packet)
unfolding apply
apply-AwaitsPacket s t packet h = ground arith

module _ (w : PacketWriter) (spec : GraphSpec) (run : GraphRun) (node : NodeSpec)
    (now expires_at : Timestamp) (db : Db) where
  -- The packet is about this node, in this run, and offers the three decisions on work until it
  -- expires; its digest is that of its subject, with the claim of the node.
  pub record IsPacket (refs : List ContextRef) (number : ℕ) (p : GatePacket) : Type 0 where
    pub identifier :
        new_identifier
          (text "identifier")
          (text "gate-" ++ (node.id ++ (text "-" ++ decimal number)))
        ≡ ok p.id
    pub in_run : p.run_id ≡ run.run_id
    pub about : p.node ≡ ref_of spec.graph_id node
    pub for_work : p.purpose ≡ resolve_work
    pub offers :
        p.requested_decision ≡ record { options = retry ∷ revise ∷ cancel ∷ []; action = none }
    pub authority : p.authority_policy_ref ≡ record { id = text "operator_decides"; version = 1 }
    pub presents : p.context_refs ≡ refs
    pub created : p.created_at ≡ now
    pub expires : p.expires_at ≡ expires_at
    pub subject : Json
    pub bound_to :
        w.write_subject (record {
          run_id = run.run_id;
          node = ref_of spec.graph_id node;
          purpose = resolve_work;
          obligation = node.acceptance.claim;
          context_refs = refs;
          options = retry ∷ revise ∷ cancel ∷ [];
          authority_policy_ref = record { id = text "operator_decides"; version = 1 };
          created_at = now;
          expires_at = expires_at;
        })
        ≡ ok subject
    pub digest : digest_of w.codec (text "checkspan.gate_subject@1") subject ≡ ok p.subject_digest

  packet_of-IsPacket :
      (number : ℕ) (refs : List ContextRef) (p : GatePacket)
      → packet_of w run node (ref_of spec.graph_id node) number refs now expires_at ≡ ok p
      → IsPacket refs number p
  unfolding packet_of options subject_digest
  packet_of-IsPacket number refs p h =
      let (id, first, h₁) = >>=_ok (map_err not_an_ident _) _ h in
      let (digest, second, last) = >>=_ok (map_err not_canonical _) _ h₁ in
      let (subject, third, fourth) =
        >>=_ok (map_err serialize _) _ (map_err_ok not_canonical _ digest second) in
      subst (IsPacket refs number) (ok-injective last) (record {
        identifier = map_err_ok not_an_ident _ id first;
        in_run = refl;
        about = refl;
        for_work = refl;
        offers = refl;
        authority = refl;
        presents = refl;
        created = refl;
        expires = refl;
        subject = subject;
        bound_to = map_err_ok serialize _ subject third;
        digest = fourth;
      })

  -- The packet presents the sealed attempt that the node is at by the replayed log, where its work
  -- awaits a packet, and it keeps the rules of packets.
  pub record IsBuilt (p : GatePacket) : Type 0 where
    pub state : RunState
    pub replayed : replay_run run.run_id spec (read_events db run.run_id) ≡ ok state
    pub before : NodeState
    pub at_node : node_state state node.id ≡ some before
    pub after : NodeState
    pub legal : apply before (gate_opened p.id) ≡ ok after
    pub number : ℕ
    pub current : before.current_attempt ≡ some number
    pub attempt : Attempt
    pub sealed : read_attempt db run.run_id node.id number ≡ some attempt
    pub refs : List ContextRef
    pub context : IsContext w db run.run_id node.id attempt refs
    pub packet : IsPacket refs number p
    pub well_formed : check_packet p ≡ []

  pub build_packet-IsBuilt :
      (p : GatePacket) → build_packet w spec run node now expires_at db ≡ ok p → IsBuilt p
  unfolding build_packet gated_node
  build_packet-IsBuilt p h =
      let (s, first, h₁) = >>=_ok (gated_node spec run node.id db) _ h in
      let (state, replays, found) =
        >>=_ok (map_err not_replayed (replay_run run.run_id spec (read_events db run.run_id))) _
          first in
      let (number, second, h₂) = >>=_ok (or_fail s.current_attempt no_sealed_attempt) _ h₁ in
      let (attempt, third, h₃) =
        >>=_ok (or_fail (read_attempt db run.run_id node.id number) no_sealed_attempt) _ h₂ in
      let (refs, fourth, h₄) =
        >>=_ok (map_err not_canonical (context_refs w db run.run_id node.id attempt)) _ h₃ in
      let (packet, fifth, h₅) =
        >>=_ok (packet_of w run node (ref_of spec.graph_id node) number refs now expires_at) _ h₄ in
      let (u, sixth, h₆) = >>=_ok (only_if (is_empty (check_packet packet)) _) _ h₅ in
      let (t, seventh, last) =
        >>=_ok (map_err (not_gateable s.status) (apply s (gate_opened packet.id))) _ h₆ in
      subst IsBuilt (ok-injective last) (record {
        state = state;
        replayed =
            map_err_ok not_replayed (replay_run run.run_id spec (read_events db run.run_id)) state
              replays;
        before = s;
        at_node = or_fail_ok (node_state state node.id) (no_state node.id) s found;
        after = t;
        legal = map_err_ok (not_gateable s.status) (apply s (gate_opened packet.id)) t seventh;
        number = number;
        current = or_fail_ok s.current_attempt no_sealed_attempt number second;
        attempt = attempt;
        sealed =
            or_fail_ok (read_attempt db run.run_id node.id number) no_sealed_attempt attempt third;
        refs = refs;
        context =
            context_refs-IsContext w db run.run_id node.id attempt refs
              (map_err_ok not_canonical (context_refs w db run.run_id node.id attempt) refs fourth);
        packet = packet_of-IsPacket number refs packet fifth;
        well_formed =
            is_empty_nil (check_packet packet)
              (only_if_ok (is_empty (check_packet packet)) _ u sixth);
      })
