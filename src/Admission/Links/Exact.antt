-- ===== src/Admission/Links/Exact.antt =====
-- src/graph/mod.rs: the edges and the targets of `admit` are those that the nodes and the targets of
-- the graph name.
use checkspan.Common.{
  ℕ, zero, suc, true, some, List, [], ◌∷◌, ◌≡◌, ◌⊎◌, ◌↔◌, refl, subst, arith, ◌==◌, nat_eq, list_eq,
  get_elem?, Memᴰ, Bool-cases, Option-cases, inl, inr, ==→≡, contains,
}
use checkspan.Common.Indexed.{get_or, contains-concat}
use checkspan.Common.Tables.{All-Memᴰ}
use checkspan.Contracts.Node.{NodeSpec, Dependency}
use checkspan.Contracts.Graph.{GraphSpec}
use checkspan.Admission.Cycle.Closed.{Edge}
use checkspan.Admission.Links.{locate, add_once, link_located, link_dep, link_deps, link_nodes}
use checkspan.Admission.Links.Located.{IsFirst, at_first, same_place}
use checkspan.Admission.Links.Linked.{IsLinked, link_nodes-IsLinked}

module _ (spec : GraphSpec) where
  -- The node at `u` has a dependency on the node at `v`.
  abbrev pub Needs : ℕ → ℕ → Type 0
  Needs u v =
      (consumer : NodeSpec) × (dep : Dependency) × (producer : NodeSpec) × (get_elem? spec.nodes u
        ≡ some consumer)
      × Memᴰ dep consumer.deps
      × IsFirst spec.nodes dep.node.node_id v producer

  link_dep_from :
      (node : NodeSpec) (dep : Dependency) (edges : List ℕ) (q : ℕ)
      → contains (link_dep spec node dep edges).1 q ≡ true
      → (contains edges q ≡ true)
        ⊎ ((n : NodeSpec) × (locate 0 dep.node.node_id spec.nodes ≡ some (q, n)))
  unfolding link_dep link_located
  link_dep_from node dep edges q h = elim (Bool-cases (dep.node.graph_id == spec.graph_id)) [
    | inr e ↦ inl (rw (link_dep, e) at h)
    | inl e ↦ elim (Option-cases (locate 0 dep.node.node_id spec.nodes)) [
      | inl f ↦ inl (rw (link_dep, link_located, e, f) at h)
      | inr ((p, m), f) ↦ elim (Bool-cases (m.id == node.id)) [
        | inl g ↦ inl (rw (link_dep, link_located, e, f, g) at h)
        | inr g ↦ elim (Bool-cases (p == q)) [
          | inl same ↦
              inr (
                m,
                subst (λ k. locate 0 dep.node.node_id spec.nodes ≡ some (k, m)) (==→≡ p q same) f,
              )
          | inr other ↦
              let grown : contains (add_once edges p) q ≡ true =
                rw (link_dep, link_located, e, f, g) at h in
              inl (ground (arith, grown, contains-concat edges p q, other))
        ]
      ]
    ]
  ]

  link_deps_from :
      (node : NodeSpec) (deps : List Dependency) (edges : List ℕ) (q : ℕ)
      → contains (link_deps spec node deps edges).1 q ≡ true
      → (contains edges q ≡ true)
        ⊎ ((dep : Dependency) × (n : NodeSpec) × Memᴰ dep deps
            × (locate 0 dep.node.node_id spec.nodes ≡ some (q, n)))
  unfolding link_deps
  link_deps_from node [] edges q h = inl h
  link_deps_from node (dep ∷ deps) edges q h =
      elim (link_deps_from node deps (link_dep spec node dep edges).1 q h) [
        | inr (d, n, m, f) ↦ inr (d, n, Memᴰ.tail m, f)
        | inl earlier ↦ elim (link_dep_from node dep edges q earlier) [
          | inl e ↦ inl e
          | inr (n, f) ↦ inr (dep, n, Memᴰ.head refl, f)
        ]
      ]

  link_nodes_from :
      (nodes : List NodeSpec) (u q : ℕ)
      → contains (get_or (link_nodes spec nodes).1 u []) q ≡ true
      → (c : NodeSpec) × (dep : Dependency) × (n : NodeSpec) × (get_elem? nodes u ≡ some c)
        × Memᴰ dep c.deps
        × (locate 0 dep.node.node_id spec.nodes ≡ some (q, n))
  unfolding link_nodes contains
  link_nodes_from [] u q h = cc
  link_nodes_from (c ∷ nodes) zero q h = elim (link_deps_from c c.deps [] q h) [
    | inl e ↦ cc
    | inr (dep, n, m, f) ↦ (c, dep, n, refl, m, f)
  ]
  link_nodes_from (c ∷ nodes) (suc u) q h = link_nodes_from nodes u q h

  -- The edges of a graph whose links give no error are the dependencies of its nodes.
  pub link_nodes_exact :
      (u v : ℕ)
      → (link_nodes spec spec.nodes).0 ≡ []
      → Edge (link_nodes spec spec.nodes).1 u v ↔ Needs u v
  link_nodes_exact u v clean = (
    λ edge.
        let (c, dep, n, at_u, m, f) = link_nodes_from spec.nodes u v edge in
        (c, dep, n, at_u, m, at_first spec.nodes dep.node.node_id v n f),
    λ (c, dep, n, at_u, m, f).
        let all = link_nodes-IsLinked spec spec.nodes u c clean at_u in
        let (met, among) = All-Memᴰ (IsLinked spec c _) c.deps dep all m in
        let same = same_place spec.nodes dep.node.node_id met.index v met.producer n met.found f in
        subst (λ k. contains (get_or (link_nodes spec spec.nodes).1 u []) k ≡ true) same among,
  )
