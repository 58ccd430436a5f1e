-- ===== src/Admission/Links.antt =====
-- src/graph/mod.rs: `AdmissionError`, and the passes of `admit` over the nodes that resolve
-- dependencies, proof sources and gates to indices of nodes.
pub mod Located
pub mod Linked
pub mod Gates
pub mod Bindings
pub mod Exact
use checkspan.Common.{
  ℕ, zero, suc, ◌+◌, Bool, not, Option, none, some, List, [], ◌∷◌, ◌++◌, map, Text, text, ◌==◌,
  nat_eq, list_eq, when, contains, strip_prefix, if◌then◌else◌, ok, err,
}
use checkspan.Contracts.Ids.{Ident, NodeId, new_identifier}
use checkspan.Contracts.Refs.{NodeRef, TypeRef, type_ref_eq}
use checkspan.Contracts.Node.{
  NodeSpec, NodeKind, PortKind, PortSpec, Dependency, NodeContractError, human_gate, node_kind_eq,
  port_kind_eq, check_contract,
}
use checkspan.Contracts.Graph.{GraphSpec, IdentityError}

abbrev pub result_port : Text
result_port = text "result"

abbrev pub node_scope_prefix : Text
node_scope_prefix = text "node:"

pub data AdmissionError : Type 0 where
  identity : IdentityError → AdmissionError
  contract : NodeId → NodeContractError → AdmissionError
  external_dependency unresolved_dependency : NodeId → NodeRef → AdmissionError
  dependency_revision_mismatch : NodeId → NodeRef → ℕ → AdmissionError
  self_dependency : NodeId → AdmissionError
  unknown_output_port : (node producer : NodeId) → Ident → AdmissionError
  incompatible_type : (node producer : NodeId) → (expected actual : TypeRef) → AdmissionError
  hidden_proof_dependency : NodeId → Ident → NodeId → AdmissionError
  unresolved_proof_source unsupported_external_import : NodeId → Ident → Text → AdmissionError
  gate_resolves_unknown_node : NodeId → Text → AdmissionError
  gate_wait_cycle : (gate resolves : NodeId) → List NodeId → AdmissionError
  cycle : List NodeId → AdmissionError

-- `index.get(id)` with the node at that place: the first node of this id.
unfoldable pub locate : ℕ → NodeId → List NodeSpec → Option (ℕ × NodeSpec)
locate i id [] = none
locate i id (n ∷ nodes) = if n.id == id then some (i, n) else locate (suc i) id nodes

-- `NodeId::new(name).ok().and_then(|id| index.get(&id))`
unfoldable pub locate_name : Text → List NodeSpec → Option (ℕ × NodeSpec)
unfolding locate
locate_name name nodes = elim (new_identifier (text "node_id") name) [
  | err _ ↦ none
  | ok id ↦ locate 0 id nodes
]

-- `errors.push` in the body of a loop, with what the loop has collected so far.
abbrev pub Found : Type 0 → Type 0
Found A = List AdmissionError × A

unfoldable pub mismatches : NodeSpec → Dependency → NodeSpec → List AdmissionError
mismatches node dep producer =
    when (not (producer.revision == dep.node.revision))
      (dependency_revision_mismatch node.id dep.node producer.revision)
    ++ (when (not (dep.output_port == result_port))
          (unknown_output_port node.id producer.id dep.output_port)
        ++ when (not (dep.expected_type == producer.result_type))
            (incompatible_type node.id producer.id dep.expected_type producer.result_type))

abbrev pub add_once : List ℕ → ℕ → List ℕ
add_once edges p = if contains edges p then edges else edges ++ p ∷ []

unfoldable pub link_located :
    NodeSpec → Dependency → List ℕ → Option (ℕ × NodeSpec) → Found (List ℕ)
unfolding mismatches contains
link_located node dep edges none = (unresolved_dependency node.id dep.node ∷ [], edges)
link_located node dep edges (some (p, producer)) =
    if producer.id == node.id
    then (self_dependency node.id ∷ [], edges)
    else (mismatches node dep producer, add_once edges p)

-- The body of the loop over `node.deps`.
unfoldable pub link_dep : GraphSpec → NodeSpec → Dependency → List ℕ → Found (List ℕ)
unfolding link_located locate
link_dep spec node dep edges =
    if not (dep.node.graph_id == spec.graph_id)
    then (external_dependency node.id dep.node ∷ [], edges)
    else link_located node dep edges (locate 0 dep.node.node_id spec.nodes)

unfoldable pub link_deps : GraphSpec → NodeSpec → List Dependency → List ℕ → Found (List ℕ)
unfolding link_dep
link_deps spec node [] edges = ([], edges)
link_deps spec node (dep ∷ deps) edges =
    let here : Found (List ℕ) = link_dep spec node dep edges in
    let later : Found (List ℕ) = link_deps spec node deps here.1 in (here.0 ++ later.0, later.1)

unfoldable pub proof_source_errors :
    NodeSpec → PortSpec → List ℕ → Text → Option (ℕ × NodeSpec) → List AdmissionError
unfolding contains
proof_source_errors node port edges name none = unresolved_proof_source node.id port.name name ∷ []
proof_source_errors node port edges name (some (s, source)) =
    when (not (contains edges s)) (hidden_proof_dependency node.id port.name source.id)

unfoldable pub proof_scope_errors :
    GraphSpec → NodeSpec → PortSpec → List ℕ → List Text → List AdmissionError
unfolding proof_source_errors locate_name strip_prefix
proof_scope_errors spec node port edges [] = []
proof_scope_errors spec node port edges (source ∷ scope) =
    elim (strip_prefix node_scope_prefix source) [
      | none ↦ unsupported_external_import node.id port.name source ∷ []
      | some name ↦ proof_source_errors node port edges name (locate_name name spec.nodes)
    ]
    ++ proof_scope_errors spec node port edges scope

-- The loop over the ports of kind `proofs`.
unfoldable pub proof_errors : GraphSpec → NodeSpec → List ℕ → List PortSpec → List AdmissionError
unfolding proof_scope_errors
proof_errors spec node edges [] = []
proof_errors spec node edges (port ∷ ports) =
    (if port.kind == PortKind.proofs
      then proof_scope_errors spec node port edges port.allowed_source_scope
      else [])
    ++ proof_errors spec node edges ports

-- The loop that fills `deps_of`: the entry of each node, in document order.
unfoldable pub link_nodes : GraphSpec → List NodeSpec → Found (List (List ℕ))
unfolding link_deps proof_errors
link_nodes spec [] = ([], [])
link_nodes spec (node ∷ nodes) =
    let linked : Found (List ℕ) = link_deps spec node node.deps [] in
    let later : Found (List (List ℕ)) = link_nodes spec nodes in
    (
      linked.0 ++ (proof_errors spec node linked.1 node.evidence_ports ++ later.0),
      linked.1 ∷ later.1,
    )

pub record GateBinding : Type 0 where
  pub gate : NodeId
  pub resolves : List NodeId

-- `resolves` and `gate_pairs` of one gate; a pair is the index of the gate and of what it resolves.
abbrev pub Resolved : Type 0
Resolved = Found (List NodeId × List (ℕ × ℕ))

unfoldable pub resolve_name : NodeSpec → ℕ → Text → Option (ℕ × NodeSpec) → Resolved
resolve_name node g name none = (gate_resolves_unknown_node node.id name ∷ [], ([], []))
resolve_name node g name (some (t, target)) = ([], (name ∷ [], (g, t) ∷ []))

abbrev both : Resolved → Resolved → Resolved
both a b = (a.0 ++ b.0, (a.1.0 ++ b.1.0, a.1.1 ++ b.1.1))

unfoldable pub resolve_scope : GraphSpec → NodeSpec → ℕ → List Text → Resolved
unfolding resolve_name locate_name strip_prefix
resolve_scope spec node g [] = ([], ([], []))
resolve_scope spec node g (source ∷ scope) =
    both
      (elim (strip_prefix node_scope_prefix source) [
        | none ↦ ([], ([], []))
        | some name ↦ resolve_name node g name (locate_name name spec.nodes)
      ])
      (resolve_scope spec node g scope)

unfoldable pub resolve_ports : GraphSpec → NodeSpec → ℕ → List PortSpec → Resolved
unfolding resolve_scope
resolve_ports spec node g [] = ([], ([], []))
resolve_ports spec node g (port ∷ ports) =
    both
      (if port.kind == PortKind.human
        then resolve_scope spec node g port.allowed_source_scope
        else ([], ([], [])))
      (resolve_ports spec node g ports)

-- The loop that fills `gates` and `gate_pairs`, from the node at index `g` on.
unfoldable pub resolve_gates :
    GraphSpec → ℕ → List NodeSpec → Found (List GateBinding × List (ℕ × ℕ))
unfolding resolve_ports
resolve_gates spec g [] = ([], ([], []))
resolve_gates spec g (node ∷ nodes) =
    let resolved : Resolved = resolve_ports spec node g node.evidence_ports in
    let later : Found (List GateBinding × List (ℕ × ℕ)) = resolve_gates spec (suc g) nodes in
    if node.kind == human_gate
    then (
      resolved.0 ++ later.0,
      (record { gate = node.id; resolves = resolved.1.0 } ∷ later.1.0, resolved.1.1 ++ later.1.1),
    )
    else later

unfoldable pub contract_errors : List NodeSpec → List AdmissionError
contract_errors [] = []
contract_errors (node ∷ nodes) =
    map (contract node.id) (check_contract node) ++ contract_errors nodes
