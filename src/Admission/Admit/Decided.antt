-- ===== src/Admission/Admit/Decided.antt =====
-- src/graph/mod.rs: `admit` as a whole. It ends, with a graph or with errors.
use checkspan.Common.{
  ℕ, ◌≤◌, ◌<◌, true, List, [], ◌∷◌, ◌++◌, map, ◌≡◌, ◌≢◌, ◌⊎◌, ◌↔◌, refl, subst, arith, nat_eq,
  list_eq, length, All, contains, List-cases, inl, inr,
}
use checkspan.Common.Indexed.{Within, count, tally-eq-length, tally_once, tally_tight}
use checkspan.Contracts.Node.{NodeSpec, check_contract}
use checkspan.Contracts.Graph.{GraphSpec, check_identity}
use checkspan.Admission.Links.{
  AdmissionError, identity, contract, link_nodes, resolve_gates, contract_errors,
}
use checkspan.Admission.Links.Linked.{length-link_nodes, link_nodes-IsLinked, append_nil}
use checkspan.Admission.Kahn.{Kahn}
use checkspan.Admission.Kahn.Order.{IsSorting, sort_ends}
use checkspan.Admission.Links.Exact.{link_nodes_exact}
use checkspan.Admission.Links.Gates.{resolve_gates-GatesResolve}
use checkspan.Admission.Links.Bindings.{resolve_gates-bindings_of}
use checkspan.Admission.Admit.Targets.{IsNeeded, Needed-IsNeeded}
use checkspan.Admission.Search.Required.{required_by_exact}
use checkspan.Admission.Admit.{AdmittedGraph, Admitted, assemble, early_errors, finish, admit}
use checkspan.Admission.Admit.Accepted.{
  deps_in, targets_in, inside, AreApart, IsOrdered, IsAdmitted, order_errors_end,
}

map_none {ℓ} : {A : Type ℓ} (f : A → AdmissionError) (xs : List A) → map f xs ≡ [] → xs ≡ []
map_none f [] h = refl
map_none f (x ∷ xs) h = cc

contract_errors_none :
    (nodes : List NodeSpec) → contract_errors nodes ≡ [] → All (λ n. check_contract n ≡ []) nodes
unfolding contract_errors
contract_errors_none [] h = tt
contract_errors_none (node ∷ nodes) h =
    let (first, later) =
      append_nil (map (contract node.id) (check_contract node)) (contract_errors nodes) h in
    (map_none (contract node.id) (check_contract node) first, contract_errors_none nodes later)

module _ (spec : GraphSpec) where
  -- What a graph without errors has before it is sorted.
  record IsClean : Type 0 where
    identity_ok : check_identity spec ≡ []
    contracts_ok : All (λ n. check_contract n ≡ []) spec.nodes
    links_ok : (link_nodes spec spec.nodes).0 ≡ []
    gates_ok : (resolve_gates spec 0 spec.nodes).0 ≡ []

  early_errors_none : early_errors spec ≡ [] → IsClean
  unfolding early_errors
  early_errors_none h =
      let links = (link_nodes spec spec.nodes).0 in
      let gates = (resolve_gates spec 0 spec.nodes).0 in
      let (first, rest) =
        append_nil (map identity (check_identity spec))
          (contract_errors spec.nodes ++ (links ++ gates)) h in
      let (second, last) = append_nil (contract_errors spec.nodes) (links ++ gates) rest in
      record {
        identity_ok = map_none identity (check_identity spec) first;
        contracts_ok = contract_errors_none spec.nodes second;
        links_ok = (append_nil links gates last).0;
        gates_ok = (append_nil links gates last).1;
      }

  sorted-IsOrdered :
      (s : Kahn) (required : List ℕ)
      → IsSorting (deps_in spec) s
      → s.ready ≡ []
      → length spec.nodes ≤ length s.order
      → ((v : ℕ) → (contains required v ≡ true) ↔ IsNeeded spec v)
      → IsOrdered spec
          (assemble spec (resolve_gates spec 0 spec.nodes).1.0 s.order required)
          s.order
          required
  unfolding assemble
  sorted-IsOrdered s required h empty full needed =
      let size = length-link_nodes spec spec.nodes in
      let once = λ (v : ℕ) (b : v < length (deps_in spec)).
        let few : count v s.order ≤ 1 = ground (arith, h.once v b) in few in
      let whole = tally-eq-length (length (deps_in spec)) s.order h.placed_inside in
      let no_more = tally_once (length (deps_in spec)) s.order once in
      record {
        of_spec = refl;
        order_is = refl;
        required_is = refl;
        optional_is = refl;
        producers_first = h.order;
        all_once = λ v b.
            tally_tight (length (deps_in spec)) s.order once (omega (arith, full, whole, size)) v
              (omega (arith, b, size));
        no_other = subst (λ n. Within n s.order) size h.placed_inside;
        needed = needed;
      }

  -- Admission of any graph ends, without a panic, in one of two ways: with an admitted graph or
  -- with at least one error. When it is admitted, its identity rules and the contract rules of
  -- each node report nothing; every dependency is on another node of the graph, the first of its
  -- id, at its revision, by its port and with its result type; the edges are these dependencies
  -- and no others; the order of the graph has every node once, producers first; the required
  -- nodes are, in this order, those that are targets or that these depend on, directly or
  -- through others, and the optional ones the rest; the gates are the human gates, each with the
  -- names that follow `node:` in the scopes of its human ports; and each of these names is that
  -- of a node, other than the gate, such that neither depends on the other.
  pub admit_decides :
      ((g : AdmittedGraph) × (admit spec ≡ Admitted.done g) × IsAdmitted spec g)
      ⊎ ((errors : List AdmissionError) × (admit spec ≡ Admitted.refused errors) × (errors ≢ []))
  unfolding admit finish assemble
  admit_decides =
      let deps = deps_in spec in
      let (s, sorted, h, empty) = sort_ends deps (inside spec) in
      let (late, ordered, clean) = order_errors_end spec s h empty in
      let (required, collected, needed) = required_by_exact deps (targets_in spec) in
      elim (List-cases (early_errors spec ++ late)) [
        | inr (e, rest, f) ↦
            inr (early_errors spec ++ late, rw (admit, sorted, ordered, finish, f) refl, (λ k. cc))
        | inl f ↦
            let (early, none_late) = append_nil (early_errors spec) late f in
            let accepted = early_errors_none early in
            let (full, apart) = clean none_late in
            let edges = λ (u v : ℕ). link_nodes_exact spec u v accepted.links_ok in
            let is_needed : (v : ℕ) → (contains required v ≡ true) ↔ IsNeeded spec v = λ v. (
              λ k. (Needed-IsNeeded spec deps edges v).0 ((needed v).0 k),
              λ k. (needed v).1 ((Needed-IsNeeded spec deps edges v).1 k),
            ) in
            inl (
              assemble spec (resolve_gates spec 0 spec.nodes).1.0 s.order required,
              rw (admit, sorted, ordered, finish, f, collected) refl,
              record {
                identity_ok = accepted.identity_ok;
                contracts_ok = accepted.contracts_ok;
                links_ok =
                    λ c n at_c. link_nodes-IsLinked spec spec.nodes c n accepted.links_ok at_c;
                edges_are = edges;
                gates_are = resolve_gates-bindings_of spec 0 spec.nodes accepted.gates_ok;
                gates_apart =
                    resolve_gates-GatesResolve spec (AreApart deps) accepted.gates_ok apart;
                order = s.order;
                required = required;
                ordered = sorted-IsOrdered s required h empty full is_needed;
              },
            )
      ]
