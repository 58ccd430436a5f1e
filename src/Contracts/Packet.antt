-- ===== src/Contracts/Packet.antt =====
-- src/contracts/gate.rs: gate packets, the decisions on them, and the rules that bind the two.
use checkspan.Common.{
  ℕ, Bool, true, false, not, ◌&&◌, ◌||◌, Option, none, some, List, [], ◌∷◌, ◌++◌, map, ◌≡◌, arith,
  Text, Eq, ◌==◌, ==→≡, ==_self, nat_eq, list_eq, option_eq, pair_eq, rank_eq, when, is_blank,
  is_empty, contains, repeated, if◌then◌else◌,
}
use checkspan.Contracts.Ids.{Ident, Digest, RunId}
use checkspan.Contracts.Time.{Timestamp}
use checkspan.Contracts.Refs.{NodeRef, node_ref_eq, PolicyRef}
use checkspan.Contracts.Attempt.{ProvenanceLevel}
use checkspan.Contracts.Gate.{GatePurpose, DecisionKind, decision_kind_eq, allowed_decisions}

pub data ActionKind : Type 0 where
  send merge secret_access pay delete : ActionKind

abbrev pub action_kind_rank : ActionKind → ℕ
action_kind_rank send = 0
action_kind_rank merge = 1
action_kind_rank secret_access = 2
action_kind_rank pay = 3
action_kind_rank delete = 4

pub action_kind_rank_apart : (a b : ActionKind) → action_kind_rank a ≡ action_kind_rank b → a ≡ b
action_kind_rank_apart a b h = ground arith

instance abbrev pub action_kind_eq : Eq ActionKind
action_kind_eq = rank_eq action_kind_rank action_kind_rank_apart

pub record ActionRequest : Type 0 where
  pub action : ActionKind
  pub target : Text

unfoldable pub action_request_beq : ActionRequest → ActionRequest → Bool
action_request_beq a b = (a.action == b.action) && (a.target == b.target)

pub action_request_beq_sound : (a b : ActionRequest) → action_request_beq a b ≡ true → a ≡ b
unfolding action_request_beq
action_request_beq_sound a b h = ground (arith, ==→≡ a.action b.action, ==→≡ a.target b.target)

pub action_request_beq_refl : (a : ActionRequest) → action_request_beq a a ≡ true
unfolding action_request_beq
action_request_beq_refl a = ground (arith, ==_self a.action, ==_self a.target)

instance abbrev pub action_request_eq : Eq ActionRequest
action_request_eq = record {
  beq = action_request_beq;
  beq_sound = action_request_beq_sound;
  beq_refl = action_request_beq_refl;
}

pub data ContextKind : Type 0 where
  attempt receipt artifact claim_matrix : ContextKind

abbrev pub context_kind_rank : ContextKind → ℕ
context_kind_rank attempt = 0
context_kind_rank receipt = 1
context_kind_rank artifact = 2
context_kind_rank claim_matrix = 3

pub context_kind_rank_apart :
    (a b : ContextKind) → context_kind_rank a ≡ context_kind_rank b → a ≡ b
context_kind_rank_apart a b h = ground arith

instance abbrev pub context_kind_eq : Eq ContextKind
context_kind_eq = rank_eq context_kind_rank context_kind_rank_apart

pub record ContextRef : Type 0 where
  pub kind : ContextKind
  pub id : Text
  pub digest : Digest

pub record RequestedDecision : Type 0 where
  pub options : List DecisionKind
  pub action : Option ActionRequest

pub record GatePacket : Type 0 where
  pub id : Ident
  pub run_id : RunId
  pub node : NodeRef
  pub purpose : GatePurpose
  pub context_refs : List ContextRef
  pub subject_digest : Digest
  pub requested_decision : RequestedDecision
  pub authority_policy_ref : PolicyRef
  pub created_at : Timestamp
  pub expires_at : Timestamp

pub data AssessmentOutcome : Type 0 where
  adequate_support inadequate_support cannot_determine : AssessmentOutcome

pub record Assessment : Type 0 where
  pub claim_matrix_digest : Digest
  pub reviewed_claim_ids : List Ident
  pub outcome : AssessmentOutcome
  pub rationale_ref : Option Text

pub record DecisionScope : Type 0 where
  pub run_id : RunId
  pub node : NodeRef
  pub action : Option ActionRequest

pub record Authority : Type 0 where
  pub identity : Text
  pub level : ProvenanceLevel

pub record GateDecision : Type 0 where
  pub gate_packet_id : Ident
  pub gate_packet_digest : Digest
  pub authority : Authority
  pub decided_at : Timestamp
  pub decision : DecisionKind
  pub assessment : Option Assessment
  pub scope : DecisionScope
  pub expires_at : Option Timestamp
  pub authorization_ref : Option Text

pub data GateError : Type 0 where
  no_options : GateError
  duplicate_option : DecisionKind → GateError
  option_not_allowed_for_purpose : GatePurpose → DecisionKind → GateError
  action_required : GateError
  action_not_allowed : GatePurpose → GateError
  empty_context : GateError
  duplicate_context_ref : Text → GateError
  empty_identity assessment_required : GateError
  assessment_not_allowed : DecisionKind → GateError
  empty_reviewed_claims : GateError
  action_scope_required action_scope_not_allowed : DecisionKind → GateError
  packet_id_mismatch : Ident → Ident → GateError
  packet_digest_mismatch : Digest → Digest → GateError
  decision_not_offered : DecisionKind → GateError
  scope_run_mismatch scope_node_mismatch scope_action_mismatch : GateError

-- The loop over `options`, with the set `seen`.
unfoldable pub option_errors : GatePurpose → List DecisionKind → List DecisionKind → List GateError
unfolding contains allowed_decisions
option_errors purpose seen [] = []
option_errors purpose seen (o ∷ rest) =
    (if contains seen o
      then duplicate_option o ∷ []
      else when (not (contains (allowed_decisions purpose) o))
          (option_not_allowed_for_purpose purpose o))
    ++ option_errors purpose (o ∷ seen) rest

unfoldable pub purpose_errors : GatePurpose → Option ActionRequest → List GateError
purpose_errors GatePurpose.authorize_action none = action_required ∷ []
purpose_errors GatePurpose.authorize_action (some _) = []
purpose_errors GatePurpose.resolve_work none = []
purpose_errors GatePurpose.resolve_work (some _) = action_not_allowed GatePurpose.resolve_work ∷ []
purpose_errors GatePurpose.assess_claims none = []
purpose_errors GatePurpose.assess_claims (some _) =
    action_not_allowed GatePurpose.assess_claims ∷ []

abbrev pub context_key : ContextRef → ContextKind × Text
context_key c = (c.kind, c.id)

key_error : ContextKind × Text → GateError
key_error (kind, id) = duplicate_context_ref id

-- The loop over `context_refs`, with the set `seen_context`.
unfoldable pub context_errors : List ContextRef → List GateError
unfolding repeated key_error
context_errors refs = map key_error (repeated (map context_key refs))

-- `GatePacket::check_bindings`
unfoldable pub check_packet : GatePacket → List GateError
unfolding option_errors purpose_errors context_errors
check_packet p =
    when (is_empty p.requested_decision.options) no_options
    ++ (option_errors p.purpose [] p.requested_decision.options
        ++ (purpose_errors p.purpose p.requested_decision.action
            ++ (when (is_empty p.context_refs) empty_context ++ context_errors p.context_refs)))

assessment_errors : DecisionKind → Option Assessment → List GateError
assessment_errors DecisionKind.record_assessment none = assessment_required ∷ []
assessment_errors DecisionKind.record_assessment (some a) =
    when (is_empty a.reviewed_claim_ids) empty_reviewed_claims
assessment_errors other none = []
assessment_errors other (some _) = assessment_not_allowed other ∷ []

abbrev pub is_action : DecisionKind → Bool
is_action DecisionKind.approve_action = true
is_action DecisionKind.deny_action = true
is_action _ = false

scope_errors : DecisionKind → Bool → Option ActionRequest → List GateError
scope_errors d true none = action_scope_required d ∷ []
scope_errors d false (some _) = action_scope_not_allowed d ∷ []
scope_errors d _ _ = []

-- `GateDecision::check_bindings`
unfoldable pub check_decision : GateDecision → List GateError
unfolding assessment_errors scope_errors
check_decision d =
    when (is_blank d.authority.identity) empty_identity
    ++ (assessment_errors d.decision d.assessment
        ++ scope_errors d.decision (is_action d.decision) d.scope.action)

-- `GateDecision::binds`
unfoldable pub decision_binds : GateDecision → GatePacket → List GateError
unfolding contains
decision_binds d p =
    when (not (d.gate_packet_id == p.id)) (packet_id_mismatch p.id d.gate_packet_id)
    ++ (when (not (d.gate_packet_digest == p.subject_digest))
          (packet_digest_mismatch p.subject_digest d.gate_packet_digest)
        ++ (when (not (contains p.requested_decision.options d.decision))
              (decision_not_offered d.decision)
            ++ (when (not (d.scope.run_id == p.run_id)) scope_run_mismatch
                ++ (when (not (d.scope.node == p.node)) scope_node_mismatch
                    ++ when (not (d.scope.action == p.requested_decision.action))
                        scope_action_mismatch))))

unfoldable pub is_denial : GateDecision → Bool
is_denial d = (d.decision == DecisionKind.deny_action) || (d.decision == DecisionKind.cancel)

unfoldable pub authorizes : GateDecision → ActionRequest → Bool
authorizes d a = (d.decision == DecisionKind.approve_action) && (d.scope.action == some a)
