-- ===== src/Admission/Tests.antt =====
-- Graphs of three nodes and of two, a cycle, and the theorems about admission at them.
use checkspan.Common.{
  ℕ, true, some, List, [], ◌∷◌, ◌≡◌, ◌≢◌, ◌⊎◌, ◌<◌, ◌↔◌, refl, text, arith, contains, list_beq,
  repeated, repeated_from, all, find, any, keep, strip_prefix, length, is_blank, nat_eq,
}
use checkspan.Common.Sorting.{place}
use checkspan.Contracts.Ids.{new_identifier, check_identifier}
use checkspan.Contracts.Refs.{node_ref_beq, type_ref_beq}
use checkspan.Contracts.Node.{check_contract, dep_key_beq}
use checkspan.Contracts.Graph.{check_identity, GraphSpec}
use checkspan.Store.Tests.{linked_spec}
use checkspan.State.Tests.{node_a}
use checkspan.Admission.Links.{
  locate, locate_name, mismatches, link_located, link_dep, link_deps, link_nodes, proof_errors,
  resolve_gates, resolve_ports, contract_errors, AdmissionError,
}
use checkspan.Admission.Kahn.{
  Kahn, sort_nodes, kahn, release, roots, start, degrees, add_all, add_edges,
}
use checkspan.Admission.Cycle.{CycleSearch, find_cycle, follow, place_in}
use checkspan.Admission.Cycle.Closed.{IsCycle}
use checkspan.Admission.Cycle.Reported.{sort_or_IsCycle}
use checkspan.Admission.Search.{dependency_path, required_by, scan, search_path, climb, collect}
use checkspan.Admission.Search.Required.{Needed, required_by_exact}
use checkspan.Admission.Search.Routes.{DependsOn, Search-Result, dependency_path_exact}
use checkspan.Admission.Admit.{
  AdmittedGraph, Admitted, admit, assemble, finish, early_errors, order_errors, wait_cycles, joins,
  target_indices,
}
use checkspan.Admission.Admit.Accepted.{deps_in, IsAdmitted}
use checkspan.Admission.Admit.Decided.{admit_decides}
use checkspan.Admission.Admit.Acyclic.{admit_acyclic}

-- 2 depends on 0 and 1, and 1 on 0.
abbrev diamond : List (List ℕ)
diamond = [] ∷ (0 ∷ []) ∷ (0 ∷ 1 ∷ []) ∷ []

-- 0 depends on 1, 1 on 2, and 2 on 1.
abbrev looped : List (List ℕ)
looped = (1 ∷ []) ∷ (2 ∷ []) ∷ (1 ∷ []) ∷ []

abbrev pub targeted_spec : GraphSpec
targeted_spec = record linked_spec { targets = node_a ∷ [] }

unfoldable pub admission_runs : Unit {0}
unfolding is_blank place contains list_beq repeated repeated_from all find any keep strip_prefix
    new_identifier check_identifier node_ref_beq type_ref_beq check_contract dep_key_beq
    check_identity locate locate_name mismatches link_located link_dep link_deps link_nodes
    proof_errors resolve_gates resolve_ports contract_errors sort_nodes kahn release roots start
    degrees add_all add_edges find_cycle follow place_in dependency_path required_by scan
    search_path climb collect admit assemble finish early_errors order_errors wait_cycles joins
    target_indices
admission_runs = tt

abbrev pub admitted : AdmittedGraph
admitted = record {
  spec = targeted_spec;
  order = text "a" ∷ text "b" ∷ [];
  required = text "a" ∷ [];
  optional = text "b" ∷ [];
  gates = [];
}

admit_linked : admit targeted_spec ≡ Admitted.done admitted
unfolding admission_runs
admit_linked = refl

sort_or_IsCycle_example :
    (s : Kahn) × (sort_nodes looped ≡ some s)
    × (length s.order < 3
        → (path : List ℕ) × (find_cycle looped s.indegree ≡ CycleSearch.closed path)
          × IsCycle looped path)
sort_or_IsCycle_example = sort_or_IsCycle looped (omega arith)

required_by_exact_example :
    (r : List ℕ) × (required_by diamond (1 ∷ []) ≡ some r)
    × ((v : ℕ) → (contains r v ≡ true) ↔ Needed diamond (1 ∷ []) v)
required_by_exact_example = required_by_exact diamond (1 ∷ [])

dependency_path_exact_example :
    Search-Result diamond 2 0 (omega arith) (dependency_path diamond 2 0)
dependency_path_exact_example =
    dependency_path_exact diamond 2 0 (omega arith) (omega arith) (omega arith)

admit_decides_example :
    ((g : AdmittedGraph) × (admit targeted_spec ≡ Admitted.done g) × IsAdmitted targeted_spec g)
    ⊎ ((errors : List AdmissionError) × (admit targeted_spec ≡ Admitted.refused errors)
        × (errors ≢ []))
admit_decides_example = admit_decides targeted_spec

admit_acyclic_example : ¬ DependsOn (deps_in targeted_spec) 1 1
admit_acyclic_example = admit_acyclic targeted_spec admitted admit_linked 1 (omega arith)
