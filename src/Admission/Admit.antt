-- ===== src/Admission/Admit.antt =====
-- src/graph/mod.rs: `AdmittedGraph` and `admit`.
pub mod Targets
pub mod Accepted
pub mod Acyclic
pub mod Decided
use checkspan.Common.{
  ℕ, zero, suc, Bool, not, Option, none, some, List, [], ◌∷◌, ◌++◌, map, ltb, ◌==◌, nat_eq, list_eq,
  length, keep, any, find, contains, is_empty, if◌then◌else◌,
}
use checkspan.Common.Indexed.{get_or}
use checkspan.Contracts.Ids.{NodeId}
use checkspan.Contracts.Refs.{NodeRef}
use checkspan.Contracts.Node.{NodeSpec, Dependency}
use checkspan.Contracts.Graph.{GraphSpec, check_identity, find_node}
use checkspan.Admission.Links.{
  AdmissionError, GateBinding, Found, identity, gate_wait_cycle, cycle, locate, link_nodes,
  resolve_gates, contract_errors,
}
use checkspan.Admission.Kahn.{Kahn, sort_nodes}
use checkspan.Admission.Cycle.{CycleSearch, find_cycle}
use checkspan.Admission.Search.{PathSearch, dependency_path, required_by}

pub record AdmittedGraph : Type 0 where
  pub spec : GraphSpec
  pub order : List NodeId
  pub required : List NodeId
  pub optional : List NodeId
  pub gates : List GateBinding

-- `AdmittedGraph::node`
unfoldable pub node : AdmittedGraph → NodeId → Option NodeSpec
node g id = find_node id g.spec.nodes

-- `AdmittedGraph::producers`
unfoldable pub producers : AdmittedGraph → NodeId → List NodeId
unfolding node
producers g id = elim (node g id) [
  | none ↦ []
  | some n ↦ map (λ (d : Dependency). d.node.node_id) n.deps
]

-- `AdmittedGraph::dependents`
unfoldable pub dependents : AdmittedGraph → NodeId → List NodeId
unfolding keep any
dependents g id =
    map (λ (n : NodeSpec). n.id)
      (keep (λ n. any (λ (d : Dependency). d.node.node_id == id) n.deps) g.spec.nodes)

-- `expect_failed` is a panic of `expect`, and `out_of_fuel` a loop that goes on.
pub data Admitted (A : Type 0) : Type 0 where
  done : A → Admitted A
  refused : List AdmissionError → Admitted A
  expect_failed out_of_fuel : Admitted A

-- `spec.nodes[i].id`
abbrev pub id_at : GraphSpec → ℕ → NodeId
id_at spec i = get_or (map (λ (n : NodeSpec). n.id) spec.nodes) i []

-- `dependency_path(from, to).or_else(|| dependency_path(to, from))`
unfoldable pub joins : List (List ℕ) → (g t : ℕ) → PathSearch
unfolding dependency_path
joins deps_of g t =
    if g == t then PathSearch.path (g ∷ []) else elim (dependency_path deps_of g t) [
      | PathSearch.path p ↦ PathSearch.path p
      | PathSearch.no_path ↦ dependency_path deps_of t g
      | PathSearch.out_of_fuel ↦ PathSearch.out_of_fuel
    ]

unfoldable pub wait_cycles :
    GraphSpec → List (List ℕ) → List (ℕ × ℕ) → Admitted (List AdmissionError)
unfolding joins
wait_cycles spec deps_of [] = done []
wait_cycles spec deps_of ((g, t) ∷ pairs) = elim (wait_cycles spec deps_of pairs) [
  | done later ↦ elim (joins deps_of g t) [
    | PathSearch.path p ↦
        done (gate_wait_cycle (id_at spec g) (id_at spec t) (map (id_at spec) p) ∷ later)
    | PathSearch.no_path ↦ done later
    | PathSearch.out_of_fuel ↦ out_of_fuel
  ]
  | refused errors ↦ refused errors
  | expect_failed ↦ expect_failed
  | out_of_fuel ↦ out_of_fuel
]

-- The two branches of `if has_cycle`: the errors that they push.
unfoldable pub order_errors :
    GraphSpec → List (List ℕ) → List (ℕ × ℕ) → Kahn → Admitted (List AdmissionError)
unfolding wait_cycles find_cycle
order_errors spec deps_of pairs s =
    if ltb (length s.order) (length spec.nodes)
    then elim (find_cycle deps_of s.indegree) [
      | CycleSearch.closed path ↦ done (cycle (map (id_at spec) path) ∷ [])
      | CycleSearch.expect_failed ↦ expect_failed
      | CycleSearch.out_of_fuel ↦ out_of_fuel
    ]
    else wait_cycles spec deps_of pairs

-- `spec.targets.iter().filter_map(|t| index.get(&t.node_id))`
unfoldable pub target_indices : List NodeSpec → List NodeRef → List ℕ
unfolding locate
target_indices nodes [] = []
target_indices nodes (t ∷ targets) = elim (locate 0 t.node_id nodes) [
  | none ↦ target_indices nodes targets
  | some (i, _) ↦ i ∷ target_indices nodes targets
]

unfoldable pub assemble : GraphSpec → List GateBinding → List ℕ → List ℕ → AdmittedGraph
unfolding contains keep
assemble spec gates order required = record {
  spec = spec;
  order = map (id_at spec) order;
  required = map (id_at spec) (keep (contains required) order);
  optional = map (id_at spec) (keep (λ i. not (contains required i)) order);
  gates = gates;
}

-- The errors of the passes before the sort.
unfoldable pub early_errors : GraphSpec → List AdmissionError
unfolding contract_errors link_nodes resolve_gates
early_errors spec =
    map identity (check_identity spec)
    ++ (contract_errors spec.nodes
        ++ ((link_nodes spec spec.nodes).0 ++ (resolve_gates spec 0 spec.nodes).0))

unfoldable pub finish :
    GraphSpec
    → List (List ℕ)
    → List GateBinding
    → Kahn
    → List AdmissionError
    → Admitted AdmittedGraph
unfolding required_by target_indices assemble
finish spec deps_of gates s errors =
    if is_empty errors
    then elim (required_by deps_of (target_indices spec.nodes spec.targets)) [
      | none ↦ out_of_fuel
      | some required ↦ done (assemble spec gates s.order required)
    ]
    else refused errors

unfoldable pub admit : GraphSpec → Admitted AdmittedGraph
unfolding link_nodes resolve_gates sort_nodes order_errors early_errors finish
admit spec =
    let deps_of = (link_nodes spec spec.nodes).1 in
    let gates = (resolve_gates spec 0 spec.nodes).1.0 in
    let pairs = (resolve_gates spec 0 spec.nodes).1.1 in
    elim (sort_nodes deps_of) [
      | none ↦ out_of_fuel
      | some s ↦ elim (order_errors spec deps_of pairs s) [
        | done late ↦ finish spec deps_of gates s (early_errors spec ++ late)
        | refused errors ↦ refused errors
        | expect_failed ↦ expect_failed
        | out_of_fuel ↦ out_of_fuel
      ]
    ]
