-- ===== src/Contracts/Gate.antt =====
-- src/contracts/gate.rs: gate purposes, the decisions each allows, packets and decisions.
use checkspan.Common.{ℕ, List, [], ◌∷◌, ◌≡◌, arith, Eq, nat_eq, rank_eq}

pub data GatePurpose : Type 0 where
  resolve_work assess_claims authorize_action : GatePurpose

abbrev pub gate_purpose_rank : GatePurpose → ℕ
gate_purpose_rank resolve_work = 0
gate_purpose_rank assess_claims = 1
gate_purpose_rank authorize_action = 2

pub gate_purpose_rank_apart :
    (a b : GatePurpose) → gate_purpose_rank a ≡ gate_purpose_rank b → a ≡ b
gate_purpose_rank_apart a b h = ground arith

instance abbrev pub gate_purpose_eq : Eq GatePurpose
gate_purpose_eq = rank_eq gate_purpose_rank gate_purpose_rank_apart

pub data DecisionKind : Type 0 where
  retry revise cancel approve_action deny_action record_assessment : DecisionKind

abbrev pub decision_kind_rank : DecisionKind → ℕ
decision_kind_rank retry = 0
decision_kind_rank revise = 1
decision_kind_rank cancel = 2
decision_kind_rank approve_action = 3
decision_kind_rank deny_action = 4
decision_kind_rank record_assessment = 5

pub decision_kind_rank_apart :
    (a b : DecisionKind) → decision_kind_rank a ≡ decision_kind_rank b → a ≡ b
decision_kind_rank_apart a b h = ground arith

instance abbrev pub decision_kind_eq : Eq DecisionKind
decision_kind_eq = rank_eq decision_kind_rank decision_kind_rank_apart

unfoldable pub allowed_decisions : GatePurpose → List DecisionKind
allowed_decisions resolve_work = retry ∷ revise ∷ cancel ∷ []
allowed_decisions assess_claims = record_assessment ∷ []
allowed_decisions authorize_action = approve_action ∷ deny_action ∷ []
