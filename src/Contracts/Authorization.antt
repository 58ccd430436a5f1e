-- ===== src/Contracts/Authorization.antt =====
-- src/contracts/gate.rs: what a decision that authorizes an action was asked for.
use checkspan.Common.{
  Bool, true, false, not, some, List, [], ◌∷◌, ◌++◌, ◌≡◌, refl, sym, subst, ◌∙◌, inl, inr, arith,
  ◌==◌, ==→≡, nat_eq, list_eq, option_eq, when, contains, is_empty, if◌then◌else◌, Bool-cases,
}
use checkspan.Contracts.Refs.{node_ref_eq}
use checkspan.Contracts.Gate.{GatePurpose, DecisionKind, decision_kind_eq, allowed_decisions}
use checkspan.Contracts.Packet.{
  ActionRequest, action_request_eq, GatePacket, GateDecision, GateError, option_errors,
  check_packet, decision_binds, authorizes,
}

append_nil : (xs ys : List GateError) → (xs ++ ys) ≡ [] → (xs ≡ []) × (ys ≡ [])
append_nil [] ys h = (refl, h)
append_nil (x ∷ xs) ys h = cc

when_nil : (b : Bool) (e : GateError) → when b e ≡ [] → b ≡ false
when_nil true e h = cc
when_nil false e h = refl

unless : (b : Bool) → not b ≡ false → b ≡ true
unless true h = refl
unless false h = cc

option_errors-allowed :
    (purpose : GatePurpose) (seen options : List DecisionKind) (d : DecisionKind)
    → option_errors purpose seen options ≡ []
    → contains options d ≡ true
    → contains seen d ≡ false
    → contains (allowed_decisions purpose) d ≡ true
unfolding option_errors contains
option_errors-allowed purpose seen [] d h m new = cc
option_errors-allowed purpose seen (o ∷ rest) d h m new =
    let (here, later) =
      append_nil
        (if contains seen o
          then GateError.duplicate_option o ∷ []
          else when (not (contains (allowed_decisions purpose) o))
              (GateError.option_not_allowed_for_purpose purpose o))
        (option_errors purpose (o ∷ seen) rest) h in
    elim (Bool-cases (o == d)) [
      | inl e ↦
          let fresh : contains seen o ≡ false =
            subst (λ x. contains seen x ≡ false) (sym (==→≡ o d e)) new in
          let first : not (contains (allowed_decisions purpose) o) ≡ false =
            when_nil _ (GateError.option_not_allowed_for_purpose purpose o) (rw fresh at here) in
          subst (λ x. contains (allowed_decisions purpose) x ≡ true) (==→≡ o d e) (ground arith)
      | inr e ↦
          option_errors-allowed purpose (o ∷ seen) rest d later (ground (arith, e))
            (ground (arith, e))
    ]

approving :
    (purpose : GatePurpose)
    → contains (allowed_decisions purpose) DecisionKind.approve_action ≡ true
    → purpose ≡ GatePurpose.authorize_action
unfolding contains allowed_decisions
approving GatePurpose.resolve_work h = cc
approving GatePurpose.assess_claims h = cc
approving GatePurpose.authorize_action h = refl

-- When a packet passes its check, a decision binds the packet, and the decision authorizes an
-- action, then the purpose of the packet is to authorize an action, the action is exactly the
-- one that the packet asks for, and the decision names the id and the digest of the packet, its
-- run and its node.
pub authorizes_offered :
    (p : GatePacket) (d : GateDecision) (a : ActionRequest)
    → check_packet p ≡ []
    → decision_binds d p ≡ []
    → authorizes d a ≡ true
    → (p.purpose ≡ GatePurpose.authorize_action)
      × (p.requested_decision.action ≡ some a)
      × (d.gate_packet_id ≡ p.id)
      × (d.gate_packet_digest ≡ p.subject_digest)
      × (d.scope.run_id ≡ p.run_id)
      × (d.scope.node ≡ p.node)
unfolding check_packet decision_binds authorizes
authorizes_offered p d a checked bound approves =
    let (some_options, h₁) =
      append_nil (when (is_empty p.requested_decision.options) GateError.no_options) _ checked in
    let (options, h₂) = append_nil (option_errors p.purpose [] p.requested_decision.options) _ h₁ in
    let (id, b₁) =
      append_nil
        (when (not (d.gate_packet_id == p.id)) (GateError.packet_id_mismatch p.id d.gate_packet_id))
        _ bound in
    let (digest, b₂) =
      append_nil
        (when (not (d.gate_packet_digest == p.subject_digest))
          (GateError.packet_digest_mismatch p.subject_digest d.gate_packet_digest))
        _ b₁ in
    let (offered, b₃) =
      append_nil
        (when (not (contains p.requested_decision.options d.decision))
          (GateError.decision_not_offered d.decision))
        _ b₂ in
    let (run, b₄) =
      append_nil (when (not (d.scope.run_id == p.run_id)) GateError.scope_run_mismatch) _ b₃ in
    let (node, action) =
      append_nil (when (not (d.scope.node == p.node)) GateError.scope_node_mismatch) _ b₄ in
    let both : ((d.decision == DecisionKind.approve_action) ≡ true)
        × ((d.scope.action == some a) ≡ true) =
      ground arith in
    let is : d.decision ≡ DecisionKind.approve_action =
      ==→≡ d.decision DecisionKind.approve_action both.0 in
    let asked : contains p.requested_decision.options d.decision ≡ true =
      unless _ (when_nil _ _ offered) in
    let allowed =
      option_errors-allowed p.purpose [] p.requested_decision.options d.decision options asked
        refl in
    (
      approving p.purpose (subst (λ k. contains (allowed_decisions p.purpose) k ≡ true) is allowed),
      sym (==→≡ d.scope.action p.requested_decision.action (unless _ (when_nil _ _ action)))
          ∙ ==→≡ d.scope.action (some a) both.1,
      ==→≡ d.gate_packet_id p.id (unless _ (when_nil _ _ id)),
      ==→≡ d.gate_packet_digest p.subject_digest (unless _ (when_nil _ _ digest)),
      ==→≡ d.scope.run_id p.run_id (unless _ (when_nil _ _ run)),
      ==→≡ d.scope.node p.node (unless _ (when_nil _ _ node)),
    )
