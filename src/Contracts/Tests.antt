-- ===== src/Contracts/Tests.antt =====
-- A packet that asks for a merge, a decision that approves it, and a text for the constructors.
use checkspan.Common.{
  pair_beq, none, some, [], ◌∷◌, ◌≡◌, refl, Text, ℕ, ok, ◌<◌, ◌↔◌, text, list_beq, option_beq,
  contains, repeated, repeated_from,
}
use checkspan.Contracts.Refs.{node_ref_beq}
use checkspan.Contracts.Attempt.{local_controller}
use checkspan.Contracts.Gate.{GatePurpose, DecisionKind, allowed_decisions}
use checkspan.Contracts.Packet.{
  ActionRequest, action_request_beq, GatePacket, GateDecision, merge, ContextKind, option_errors,
  purpose_errors, context_errors, check_packet, decision_binds, authorizes,
}
use checkspan.Contracts.Authorization.{authorizes_offered}
use checkspan.Contracts.Ids.{new_identifier, new_digest, new_positive}
use checkspan.Contracts.Patch.{new_commit_id}
use checkspan.Contracts.Valid.{IsIdentifier, IsDigest, IsCommit, constructors_exact}

abbrev action : ActionRequest
action = record { action = merge; target = text "main" }

abbrev packet : GatePacket
packet = record {
  id = text "p1";
  run_id = text "run";
  node = record { graph_id = text "g"; node_id = text "gate"; revision = 1 };
  purpose = GatePurpose.authorize_action;
  context_refs =
      record { kind = ContextKind.attempt; id = text "a1"; digest = text "sha256:04" }
      ∷ record { kind = ContextKind.receipt; id = text "r1"; digest = text "sha256:05" }
      ∷ [];
  subject_digest = text "sha256:06";
  requested_decision = record {
    options = DecisionKind.approve_action ∷ DecisionKind.deny_action ∷ [];
    action = some action;
  };
  authority_policy_ref = record { id = text "policy"; version = 1 };
  created_at = text "2026-01-01T00:00:00Z";
  expires_at = text "2026-01-08T00:00:00Z";
}

abbrev approval : GateDecision
approval = record {
  gate_packet_id = text "p1";
  gate_packet_digest = text "sha256:06";
  authority = record { identity = text "operator"; level = local_controller };
  decided_at = text "2026-01-02T00:00:00Z";
  decision = DecisionKind.approve_action;
  assessment = none;
  scope = record { run_id = text "run"; node = packet.node; action = some action };
  expires_at = none;
  authorization_ref = none;
}

authorizes_offered_example :
    (packet.purpose ≡ GatePurpose.authorize_action)
    × (packet.requested_decision.action ≡ some action)
    × (approval.gate_packet_id ≡ packet.id)
    × (approval.gate_packet_digest ≡ packet.subject_digest)
    × (approval.scope.run_id ≡ packet.run_id)
    × (approval.scope.node ≡ packet.node)
unfolding pair_beq list_beq option_beq contains repeated repeated_from node_ref_beq
    action_request_beq allowed_decisions option_errors purpose_errors context_errors check_packet
    decision_binds authorizes
authorizes_offered_example = authorizes_offered packet approval action refl refl refl

-- An identifier and a commit id, but no digest.
abbrev commit : Text
commit = text "0123456789abcdef0123456789abcdef01234567"

constructors_exact_example :
    ((new_identifier (text "identifier") commit ≡ ok commit)
      ↔ ((commit ≡ commit) × IsIdentifier commit))
    × ((new_digest commit ≡ ok commit) ↔ ((commit ≡ commit) × IsDigest commit))
    × ((new_commit_id commit ≡ ok commit) ↔ ((commit ≡ commit) × IsCommit commit))
    × ((new_positive (text "identifier") 1 ≡ ok 1) ↔ ((◌≡◌ {A = ℕ} 1 1) × (0 < 1)))
constructors_exact_example = constructors_exact (text "identifier") commit commit 1 1
