-- ===== src/Contracts/Node.antt =====
-- src/contracts/node.rs: node contracts, and the rules that a contract keeps on its own.
use checkspan.Common.{
  ℕ, Bool, true, not, ◌&&◌, Option, none, some, List, [], ◌∷◌, ◌++◌, map, ◌≡◌, arith, Text, Eq,
  ◌==◌, nat_eq, list_eq, rank_eq, when, is_blank, is_empty, repeated, leb, if◌then◌else◌, ==→≡,
  ==_self, contains, suc,
}
use checkspan.Contracts.Ids.{Ident, NodeId}
use checkspan.Contracts.Refs.{NodeRef, node_ref_eq, TypeRef, VerifierRef, PolicyRef}

pub data NodeKind : Type 0 where
  task check human_gate sink : NodeKind

abbrev pub node_kind_rank : NodeKind → ℕ
node_kind_rank task = 0
node_kind_rank check = 1
node_kind_rank human_gate = 2
node_kind_rank sink = 3

pub node_kind_rank_apart : (a b : NodeKind) → node_kind_rank a ≡ node_kind_rank b → a ≡ b
node_kind_rank_apart a b h = ground arith

instance abbrev pub node_kind_eq : Eq NodeKind
node_kind_eq = rank_eq node_kind_rank node_kind_rank_apart

pub data PortKind : Type 0 where
  rag human logs code proofs : PortKind

abbrev pub port_kind_rank : PortKind → ℕ
port_kind_rank rag = 0
port_kind_rank human = 1
port_kind_rank logs = 2
port_kind_rank code = 3
port_kind_rank proofs = 4

pub port_kind_rank_apart : (a b : PortKind) → port_kind_rank a ≡ port_kind_rank b → a ≡ b
port_kind_rank_apart a b h = ground arith

instance abbrev pub port_kind_eq : Eq PortKind
port_kind_eq = rank_eq port_kind_rank port_kind_rank_apart

pub data FailureClass : Type 0 where
  rejected infrastructure timeout : FailureClass

abbrev pub failure_class_rank : FailureClass → ℕ
failure_class_rank rejected = 0
failure_class_rank infrastructure = 1
failure_class_rank timeout = 2

pub failure_class_rank_apart :
    (a b : FailureClass) → failure_class_rank a ≡ failure_class_rank b → a ≡ b
failure_class_rank_apart a b h = ground arith

instance abbrev pub failure_class_eq : Eq FailureClass
failure_class_eq = rank_eq failure_class_rank failure_class_rank_apart

pub data OnExhaustion : Type 0 where
  gate cancel : OnExhaustion

pub data ResourceAccess : Type 0 where
  exclusive shared : ResourceAccess

abbrev pub resource_access_rank : ResourceAccess → ℕ
resource_access_rank exclusive = 0
resource_access_rank shared = 1

pub resource_access_rank_apart :
    (a b : ResourceAccess) → resource_access_rank a ≡ resource_access_rank b → a ≡ b
resource_access_rank_apart a b h = ground arith

instance abbrev pub resource_access_eq : Eq ResourceAccess
resource_access_eq = rank_eq resource_access_rank resource_access_rank_apart

pub record Dependency : Type 0 where
  pub node : NodeRef
  pub output_port : Ident
  pub expected_type : TypeRef

pub record PortSpec : Type 0 where
  pub name : Ident
  pub kind : PortKind
  pub expected_type : TypeRef
  pub required : Bool
  pub allowed_source_scope : List Text
  pub handling_policy_ref : PolicyRef

pub record AcceptanceSpec : Type 0 where
  pub claim : Text
  pub required_checks : List Ident
  pub verifier : VerifierRef
  pub policy_ref : PolicyRef

-- `version` is the constant 1.
pub record RetryPolicy : Type 0 where
  pub max_attempts : ℕ
  pub allowed_failure_classes : List FailureClass
  pub on_exhaustion : OnExhaustion

pub record ResourceClaim : Type 0 where
  pub resource : Ident
  pub access : ResourceAccess

pub record NodeSpec : Type 0 where
  pub id : NodeId
  pub revision : ℕ
  pub kind : NodeKind
  pub display_name : Option Text
  pub prompt : Text
  pub deps : List Dependency
  pub evidence_ports : List PortSpec
  pub result_type : TypeRef
  pub acceptance : AcceptanceSpec
  pub retry_policy : RetryPolicy
  pub authority_policy_ref : PolicyRef
  pub resource_scope : List ResourceClaim
  pub supersedes : Option NodeRef

pub data NodeContractError : Type 0 where
  empty_prompt no_required_checks : NodeContractError
  duplicate_required_check : Ident → NodeContractError
  duplicate_dependency : NodeRef → Ident → NodeContractError
  duplicate_port_name : Ident → NodeContractError
  empty_source_scope : Ident → NodeContractError
  duplicate_resource : Ident → NodeContractError
  kind_requires_dependencies : NodeKind → NodeContractError
  human_gate_needs_one_human_port : ℕ → NodeContractError
  human_port_on_non_gate : NodeKind → Ident → NodeContractError
  zero_max_attempts : NodeContractError
  supersedes_different_node : NodeRef → NodeContractError
  supersedes_not_earlier : NodeRef → NodeContractError

-- The key `(&dep.node, &dep.output_port)` of the set of dependencies seen.
pub record DepKey : Type 0 where
  pub node : NodeRef
  pub output_port : Ident

unfoldable pub dep_key_beq : DepKey → DepKey → Bool
dep_key_beq a b = (a.node == b.node) && (a.output_port == b.output_port)

pub dep_key_beq_sound : (a b : DepKey) → dep_key_beq a b ≡ true → a ≡ b
unfolding dep_key_beq
dep_key_beq_sound a b h = ground (arith, ==→≡ a.node b.node, ==→≡ a.output_port b.output_port)

pub dep_key_beq_refl : (a : DepKey) → dep_key_beq a a ≡ true
unfolding dep_key_beq
dep_key_beq_refl a = ground (arith, ==_self a.node, ==_self a.output_port)

instance abbrev pub dep_key_eq : Eq DepKey
dep_key_eq = record {
  beq = dep_key_beq;
  beq_sound = dep_key_beq_sound;
  beq_refl = dep_key_beq_refl;
}

abbrev pub dep_key : Dependency → DepKey
dep_key d = record { node = d.node; output_port = d.output_port }

-- The loop over `evidence_ports`, with the set `seen_ports`.
port_errors : NodeKind → List Ident → List PortSpec → List NodeContractError
port_errors kind seen [] = []
port_errors kind seen (p ∷ ports) =
    when (contains seen p.name) (duplicate_port_name p.name)
    ++ (when (is_empty p.allowed_source_scope) (empty_source_scope p.name)
        ++ (when ((p.kind == human) && not (kind == human_gate))
              (human_port_on_non_gate kind p.name)
            ++ port_errors kind (if contains seen p.name then seen else p.name ∷ seen) ports))

abbrev pub human_ports : List PortSpec → ℕ
human_ports [] = 0
human_ports (p ∷ ports) = if p.kind == human then suc (human_ports ports) else human_ports ports

-- The match on `self.kind`.
kind_errors : NodeSpec → NodeKind → List NodeContractError
kind_errors n task = []
kind_errors n check = when (is_empty n.deps) (kind_requires_dependencies check)
kind_errors n sink = when (is_empty n.deps) (kind_requires_dependencies sink)
kind_errors n human_gate =
    when (not (human_ports n.evidence_ports == 1))
      (human_gate_needs_one_human_port (human_ports n.evidence_ports))

supersedes_errors : NodeSpec → Option NodeRef → List NodeContractError
supersedes_errors n none = []
supersedes_errors n (some prev) =
    if not (prev.node_id == n.id)
    then supersedes_different_node prev ∷ []
    else when (leb n.revision prev.revision) (supersedes_not_earlier prev)

unfoldable pub check_contract : NodeSpec → List NodeContractError
unfolding port_errors kind_errors supersedes_errors
check_contract n =
    when (is_blank n.prompt) empty_prompt
    ++ (when (is_empty n.acceptance.required_checks) no_required_checks
        ++ (map duplicate_required_check (repeated n.acceptance.required_checks)
            ++ (map (λ k. duplicate_dependency k.node k.output_port) (repeated (map dep_key n.deps))
                ++ (port_errors n.kind [] n.evidence_ports
                    ++ (map duplicate_resource (repeated (map (λ c. c.resource) n.resource_scope))
                        ++ (kind_errors n n.kind
                            ++ (when (n.retry_policy.max_attempts == 0) zero_max_attempts
                                ++ supersedes_errors n n.supersedes)))))))
