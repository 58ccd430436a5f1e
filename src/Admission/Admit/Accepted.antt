-- ===== src/Admission/Admit/Accepted.antt =====
-- src/graph/mod.rs: `admit` ends with a graph or with errors, and what an admitted graph has.
use checkspan.Common.{
  not, keep, ℕ, ◌≤◌, ◌<◌, true, false, some, List, [], ◌∷◌, map, ◌≡◌, ◌≢◌, ◌⊎◌, ◌↔◌, refl, subst,
  arith, ◌==◌, nat_eq, list_eq, get_elem?, length, All, contains, ltb, Bool-cases, inl, inr, ==→≡,
}
use checkspan.Common.Indexed.{Within, get_or, count}
use checkspan.Contracts.Node.{NodeSpec, check_contract}
use checkspan.Contracts.Graph.{GraphSpec, check_identity}
use checkspan.Admission.Links.{AdmissionError, cycle, gate_wait_cycle, link_nodes, resolve_gates}
use checkspan.Admission.Links.Linked.{
  link_nodes-Within, length-link_nodes, IsLinked, PairsWithin, resolve_gates-PairsWithin,
}
use checkspan.Admission.Kahn.{Kahn}
use checkspan.Admission.Kahn.Order.{Topological, IsSorting}
use checkspan.Admission.Cycle.Closed.{find_cycle_closes}
use checkspan.Admission.Search.{PathSearch, dependency_path}
use checkspan.Admission.Cycle.Closed.{Edge}
use checkspan.Admission.Links.Exact.{Needs}
use checkspan.Admission.Links.Gates.{GatesResolve}
use checkspan.Admission.Links.Bindings.{bindings_of}
use checkspan.Admission.Admit.Targets.{IsNeeded}
use checkspan.Admission.Search.Routes.{DependsOn, IsRoute, dependency_path_exact, Search-Result}
use checkspan.Admission.Admit.{
  AdmittedGraph, Admitted, id_at, joins, wait_cycles, order_errors, target_indices,
}

-- The gate and the node that it resolves are two nodes, and neither depends on the other.
abbrev pub AreApart : List (List ℕ) → ℕ × ℕ → Type 0
AreApart deps_of (g, t) = ((g == t) ≡ false) × ¬ DependsOn deps_of g t × ¬ DependsOn deps_of t g

PathSearch-cases :
    (r : PathSearch)
    → ((p : List ℕ) × (r ≡ PathSearch.path p))
      ⊎ ((r ≡ PathSearch.no_path) ⊎ (r ≡ PathSearch.out_of_fuel))
PathSearch-cases (PathSearch.path p) = inl (p, refl)
PathSearch-cases PathSearch.no_path = inr (inl refl)
PathSearch-cases PathSearch.out_of_fuel = inr (inr refl)

module _ (spec : GraphSpec) where
  abbrev pub deps_in : List (List ℕ)
  deps_in = (link_nodes spec spec.nodes).1

  abbrev pub pairs_in : List (ℕ × ℕ)
  pairs_in = (resolve_gates spec 0 spec.nodes).1.1

  abbrev pub targets_in : List ℕ
  targets_in = target_indices spec.nodes spec.targets

  -- Every node stands in the order once, after its producers; the graph is split in what a target
  -- depends on and the rest, both in this order.
  pub record IsOrdered (g : AdmittedGraph) (order : List ℕ) (required : List ℕ) : Type 0 where
    pub of_spec : g.spec ≡ spec
    pub order_is : g.order ≡ map (id_at spec) order
    pub required_is : g.required ≡ map (id_at spec) (keep (contains required) order)
    pub optional_is : g.optional ≡ map (id_at spec) (keep (λ v. not (contains required v)) order)
    pub producers_first : Topological deps_in order
    pub all_once : (v : ℕ) → v < length spec.nodes → count v order ≡ 1
    pub no_other : Within (length spec.nodes) order
    pub needed : (v : ℕ) → (contains required v ≡ true) ↔ IsNeeded spec v

  pub record IsAdmitted (g : AdmittedGraph) : Type 0 where
    pub identity_ok : check_identity spec ≡ []
    pub contracts_ok : All (λ n. check_contract n ≡ []) spec.nodes
    pub links_ok :
        (c : ℕ) (n : NodeSpec)
        → get_elem? spec.nodes c ≡ some n
        → All (IsLinked spec n (get_or deps_in c [])) n.deps
    pub edges_are : (u v : ℕ) → Edge deps_in u v ↔ Needs spec u v
    pub gates_are : g.gates ≡ bindings_of spec.nodes
    pub gates_apart : GatesResolve spec (AreApart deps_in)
    pub order : List ℕ
    pub required : List ℕ
    pub ordered : IsOrdered g order required

  pub inside : All (Within (length deps_in)) deps_in
  inside = rw (length-link_nodes spec spec.nodes) (link_nodes-Within spec spec.nodes)

  abbrev Joins-Result : ℕ → ℕ → PathSearch → Type 0
  Joins-Result g t (PathSearch.path p) = IsRoute deps_in g p t ⊎ IsRoute deps_in t p g
  Joins-Result g t PathSearch.no_path = AreApart deps_in (g, t)
  Joins-Result g t PathSearch.out_of_fuel = ⊥

  back_result :
      (g t : ℕ) (apart : t ≢ g) (r : PathSearch)
      → (g == t) ≡ false
      → ¬ DependsOn deps_in g t
      → Search-Result deps_in t g apart r
      → Joins-Result g t r
  back_result g t apart (PathSearch.path p) e first h = inr h
  back_result g t apart PathSearch.no_path e first h = (e, first, h)
  back_result g t apart PathSearch.out_of_fuel e first h = h

  -- The two searches end: with a chain between the gate and what it resolves, or with none either way.
  joins_result :
      (g t : ℕ)
      → g < length spec.nodes
      → t < length spec.nodes
      → Joins-Result g t (joins deps_in g t)
  unfolding joins
  joins_result g t b c =
      let size = length-link_nodes spec spec.nodes in
      elim (Bool-cases (g == t)) [
        | inl e ↦ rw (e, joins) (inl (refl, ==→≡ g t e))
        | inr e ↦
            let apart : g ≢ t = λ h. ground (arith, h, e) in
            let apart_back : t ≢ g = λ h. ground (arith, h, e) in
            let there = dependency_path_exact deps_in g t apart (omega (arith, b, size)) inside in
            let back =
              dependency_path_exact deps_in t g apart_back (omega (arith, c, size)) inside in
            elim (PathSearch-cases (dependency_path deps_in g t)) [
              | inl (p, f) ↦
                  rw (e, joins, f) (inl (subst (Search-Result deps_in g t apart) f there))
              | inr (inl f) ↦
                  rw (e, joins, f)
                    (back_result g t apart_back (dependency_path deps_in t g) e
                      (subst (Search-Result deps_in g t apart) f there) back)
              | inr (inr f) ↦ elim (subst (Search-Result deps_in g t apart) f there) [ ]
            ]
      ]

  abbrev Late : List (ℕ × ℕ) → Admitted (List AdmissionError) → Type 0
  Late pairs r =
      (late : List AdmissionError) × (r ≡ Admitted.done late)
      × (late ≡ [] → All (AreApart deps_in) pairs)

  wait_cycles_end :
      (pairs : List (ℕ × ℕ)) → PairsWithin spec pairs → Late pairs (wait_cycles spec deps_in pairs)
  unfolding wait_cycles
  wait_cycles_end [] w = ([], refl, (λ h. tt))
  wait_cycles_end ((g, t) ∷ pairs) w =
      let (late, same, clean) = wait_cycles_end pairs w.1 in
      let here = joins_result g t w.0.0 w.0.1 in
      elim (PathSearch-cases (joins deps_in g t)) [
        | inl (p, f) ↦ (
          gate_wait_cycle (id_at spec g) (id_at spec t) (map (id_at spec) p) ∷ late,
          rw (same, f, wait_cycles) refl,
          (λ h. cc),
        )
        | inr (inl f) ↦ (
          late,
          rw (same, f, wait_cycles) refl,
          (λ h. (subst (Joins-Result g t) f here, clean h)),
        )
        | inr (inr f) ↦ elim (subst (Joins-Result g t) f here) [ ]
      ]

  pub order_errors_end :
      (s : Kahn)
      → IsSorting deps_in s
      → s.ready ≡ []
      → (late : List AdmissionError) × (order_errors spec deps_in pairs_in s ≡ Admitted.done late)
        × (late ≡ [] → (length spec.nodes ≤ length s.order) × All (AreApart deps_in) pairs_in)
  unfolding order_errors
  order_errors_end s h empty =
      let size = length-link_nodes spec spec.nodes in
      elim (Bool-cases (ltb (length s.order) (length spec.nodes))) [
        | inl e ↦
            let fewer : length s.order < length deps_in = ground (arith, e, size) in
            let (path, same, closes) = find_cycle_closes deps_in inside s h empty fewer in
            (cycle (map (id_at spec) path) ∷ [], rw (e, same, order_errors) refl, (λ k. cc))
        | inr e ↦
            let (late, same, clean) =
              wait_cycles_end pairs_in
                (resolve_gates-PairsWithin spec 0 spec.nodes (omega arith)) in
            (late, rw (e, same, order_errors) refl, (λ k. (ground (arith, e), clean k)))
      ]
