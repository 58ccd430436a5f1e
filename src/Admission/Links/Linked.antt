-- ===== src/Admission/Links/Linked.antt =====
-- src/graph/mod.rs: the indices in `deps_of` and `gate_pairs` are those of nodes, and a graph whose
-- links give no error has every dependency as its consumer wrote it.
use checkspan.Common.{
  ℕ, zero, suc, ◌+◌, ◌≤◌, ◌<◌, true, false, Option, none, some, List, [], ◌∷◌, ◌++◌, ◌≡◌, refl,
  subst, ap, arith, ◌==◌, nat_eq, list_eq, get_elem?, length, All, contains, Bool-cases,
  Option-cases, Result-cases, inl, inr, ==→≡, ==_self, strip_prefix, Text, text,
}
use checkspan.Common.Indexed.{Within, Within-append, contains-concat, get_or}
use checkspan.Contracts.Ids.{NodeId, new_identifier}
use checkspan.Contracts.Refs.{type_ref_eq}
use checkspan.Contracts.Node.{
  NodeSpec, Dependency, PortSpec, PortKind, human_gate, node_kind_eq, port_kind_eq,
}
use checkspan.Contracts.Graph.{GraphSpec}
use checkspan.Admission.Links.Located.{IsFirst, at_first}
use checkspan.Admission.Links.{
  AdmissionError, locate, locate_name, result_port, mismatches, add_once, link_located, link_dep,
  link_deps, link_nodes, resolve_name, resolve_scope, resolve_ports, resolve_gates,
  node_scope_prefix, proof_errors,
}

locate-lt :
    (i : ℕ) (id : NodeId) (nodes : List NodeSpec) (p : ℕ) (n : NodeSpec)
    → locate i id nodes ≡ some (p, n)
    → p < i + length nodes
unfolding locate
locate-lt i id [] p n h = cc
locate-lt i id (m ∷ nodes) p n h = ground (arith, locate-lt (suc i) id nodes p n)

add_once-Within :
    (n : ℕ) (edges : List ℕ) (p : ℕ) → Within n edges → p < n → Within n (add_once edges p)
add_once-Within n edges p w h = elim (Bool-cases (contains edges p)) [
  | inl e ↦ rw e w
  | inr e ↦ rw e (Within-append n edges (p ∷ []) w (h, tt))
]

add_once_self : (edges : List ℕ) (p : ℕ) → contains (add_once edges p) p ≡ true
unfolding contains
add_once_self edges p = ground (arith, contains-concat edges p p, ==_self p)

add_once_keeps :
    (edges : List ℕ) (p q : ℕ) → contains edges q ≡ true → contains (add_once edges p) q ≡ true
add_once_keeps edges p q h = ground (arith, h, contains-concat edges p q)

mismatches_none :
    (node producer : NodeSpec) (dep : Dependency)
    → mismatches node dep producer ≡ []
    → (producer.revision ≡ dep.node.revision)
      × (dep.output_port ≡ result_port)
      × (dep.expected_type ≡ producer.result_type)
unfolding mismatches
mismatches_none node producer dep h = elim (Bool-cases (producer.revision == dep.node.revision)) [
  | inr e ↦ ground (arith, h, e)
  | inl e ↦ elim (Bool-cases (dep.output_port == result_port)) [
    | inr f ↦ ground (arith, h, e, f)
    | inl f ↦ elim (Bool-cases (dep.expected_type == producer.result_type)) [
      | inr g ↦ ground (arith, h, e, f, g)
      | inl g ↦ (
        ==→≡ producer.revision dep.node.revision e,
        ==→≡ dep.output_port result_port f,
        ==→≡ dep.expected_type producer.result_type g,
      )
    ]
  ]
]

pub append_nil : (xs ys : List AdmissionError) → xs ++ ys ≡ [] → (xs ≡ []) × (ys ≡ [])
append_nil [] ys h = (refl, h)
append_nil (x ∷ xs) ys h = cc

module _ (spec : GraphSpec) where
  abbrev pub nodes_in : ℕ
  nodes_in = length spec.nodes

  link_located-Within :
      (node : NodeSpec) (dep : Dependency) (edges : List ℕ) (found : Option (ℕ × NodeSpec))
      → Within nodes_in edges
      → ((p : ℕ) (n : NodeSpec) → found ≡ some (p, n) → p < nodes_in)
      → Within nodes_in (link_located node dep edges found).1
  unfolding link_located
  link_located-Within node dep edges none w h = w
  link_located-Within node dep edges (some (p, producer)) w h =
      elim (Bool-cases (producer.id == node.id)) [
        | inl e ↦ rw e w
        | inr e ↦ rw e (add_once-Within nodes_in edges p w (h p producer refl))
      ]

  link_dep-Within :
      (node : NodeSpec) (dep : Dependency) (edges : List ℕ)
      → Within nodes_in edges
      → Within nodes_in (link_dep spec node dep edges).1
  unfolding link_dep
  link_dep-Within node dep edges w = elim (Bool-cases (dep.node.graph_id == spec.graph_id)) [
    | inl e ↦ rw e (
        link_located-Within node dep edges (locate 0 dep.node.node_id spec.nodes) w
          (λ p n h. omega (arith, locate-lt 0 dep.node.node_id spec.nodes p n h)))
    | inr e ↦ rw e w
  ]

  link_deps-Within :
      (node : NodeSpec) (deps : List Dependency) (edges : List ℕ)
      → Within nodes_in edges
      → Within nodes_in (link_deps spec node deps edges).1
  unfolding link_deps
  link_deps-Within node [] edges w = w
  link_deps-Within node (dep ∷ deps) edges w =
      link_deps-Within node deps (link_dep spec node dep edges).1 (link_dep-Within node dep edges w)

  pub link_nodes-Within : (nodes : List NodeSpec) → All (Within nodes_in) (link_nodes spec nodes).1
  unfolding link_nodes
  link_nodes-Within [] = tt
  link_nodes-Within (node ∷ nodes) =
      (link_deps-Within node node.deps [] tt, link_nodes-Within nodes)

  pub length-link_nodes : (nodes : List NodeSpec) → length (link_nodes spec nodes).1 ≡ length nodes
  unfolding link_nodes
  length-link_nodes [] = refl
  length-link_nodes (node ∷ nodes) = ap suc (length-link_nodes nodes)

  -- A dependency as its consumer wrote it: on a node of this graph, another one, at its revision, by
  -- its only port and with its result type.
  pub record IsMet (consumer : NodeSpec) (dep : Dependency) : Type 0 where
    pub index : ℕ
    pub producer : NodeSpec
    pub found : IsFirst spec.nodes dep.node.node_id index producer
    pub same_graph : dep.node.graph_id ≡ spec.graph_id
    pub other : (producer.id == consumer.id) ≡ false
    pub revision : producer.revision ≡ dep.node.revision
    pub port : dep.output_port ≡ result_port
    pub type : dep.expected_type ≡ producer.result_type

  link_dep-IsMet :
      (node : NodeSpec) (dep : Dependency) (edges : List ℕ)
      → (link_dep spec node dep edges).0 ≡ []
      → (met : IsMet node dep) × (contains (link_dep spec node dep edges).1 met.index ≡ true)
  unfolding link_dep link_located mismatches
  link_dep-IsMet node dep edges h = elim (Bool-cases (dep.node.graph_id == spec.graph_id)) [
    | inr e ↦ ground (arith, h, e)
    | inl e ↦ elim (Option-cases (locate 0 dep.node.node_id spec.nodes)) [
      | inl f ↦ ground (arith, h, e, f)
      | inr ((p, producer), f) ↦ elim (Bool-cases (producer.id == node.id)) [
        | inl g ↦ ground (arith, h, e, f, g)
        | inr g ↦
            let none_wrong : mismatches node dep producer ≡ [] = ground (arith, h, e, f, g) in
            let (revision, port, type) = mismatches_none node producer dep none_wrong in
            (
              record {
                index = p;
                producer = producer;
                found = at_first spec.nodes dep.node.node_id p producer f;
                same_graph = ==→≡ dep.node.graph_id spec.graph_id e;
                other = g;
                revision = revision;
                port = port;
                type = type;
              },
              rw (link_dep, link_located, e, f, g) (add_once_self edges p),
            )
      ]
    ]
  ]

  link_dep_keeps :
      (node : NodeSpec) (dep : Dependency) (edges : List ℕ) (q : ℕ)
      → contains edges q ≡ true
      → contains (link_dep spec node dep edges).1 q ≡ true
  unfolding link_dep link_located
  link_dep_keeps node dep edges q h = elim (Bool-cases (dep.node.graph_id == spec.graph_id)) [
    | inr e ↦ rw (link_dep, e) h
    | inl e ↦ elim (Option-cases (locate 0 dep.node.node_id spec.nodes)) [
      | inl f ↦ rw (link_dep, link_located, e, f) h
      | inr ((p, producer), f) ↦ elim (Bool-cases (producer.id == node.id)) [
        | inl g ↦ rw (link_dep, link_located, e, f, g) h
        | inr g ↦ rw (link_dep, link_located, e, f, g) (add_once_keeps edges p q h)
      ]
    ]
  ]

  link_deps_keeps :
      (node : NodeSpec) (deps : List Dependency) (edges : List ℕ) (q : ℕ)
      → contains edges q ≡ true
      → contains (link_deps spec node deps edges).1 q ≡ true
  unfolding link_deps
  link_deps_keeps node [] edges q h = h
  link_deps_keeps node (dep ∷ deps) edges q h =
      link_deps_keeps node deps (link_dep spec node dep edges).1 q
        (link_dep_keeps node dep edges q h)

  -- A dependency that is met by a producer among `edges`.
  abbrev pub IsLinked : NodeSpec → List ℕ → Dependency → Type 0
  IsLinked node edges dep = (met : IsMet node dep) × (contains edges met.index ≡ true)

  link_deps-IsLinked :
      (node : NodeSpec) (deps : List Dependency) (edges : List ℕ)
      → (link_deps spec node deps edges).0 ≡ []
      → All (IsLinked node (link_deps spec node deps edges).1) deps
  unfolding link_deps
  link_deps-IsLinked node [] edges h = tt
  link_deps-IsLinked node (dep ∷ deps) edges h =
      let here = link_dep spec node dep edges in
      let (first, later) = append_nil here.0 (link_deps spec node deps here.1).0 h in
      let (met, among) = link_dep-IsMet node dep edges first in
      (
        (met, link_deps_keeps node deps here.1 met.index among),
        link_deps-IsLinked node deps here.1 later,
      )

  pub link_nodes-IsLinked :
      (nodes : List NodeSpec) (c : ℕ) (node : NodeSpec)
      → (link_nodes spec nodes).0 ≡ []
      → get_elem? nodes c ≡ some node
      → All (IsLinked node (get_or (link_nodes spec nodes).1 c [])) node.deps
  unfolding link_nodes
  link_nodes-IsLinked [] c node h at_c = cc
  link_nodes-IsLinked (first ∷ nodes) zero node h at_c =
      let linked = link_deps spec first first.deps [] in
      let errors = proof_errors spec first linked.1 first.evidence_ports in
      let clean = append_nil linked.0 (errors ++ (link_nodes spec nodes).0) h in
      let same : first ≡ node = cc in
      subst (λ (n : NodeSpec). All (IsLinked n (link_deps spec first first.deps []).1) n.deps) same
        (link_deps-IsLinked first first.deps [] clean.0)
  link_nodes-IsLinked (first ∷ nodes) (suc c) node h at_c =
      let linked = link_deps spec first first.deps [] in
      let errors = proof_errors spec first linked.1 first.evidence_ports in
      let clean = append_nil linked.0 (errors ++ (link_nodes spec nodes).0) h in
      let later = append_nil errors (link_nodes spec nodes).0 clean.1 in
      link_nodes-IsLinked nodes c node later.1 at_c

  abbrev pub PairsWithin : List (ℕ × ℕ) → Type 0
  PairsWithin = All (λ (p : ℕ × ℕ). (p.0 < nodes_in) × (p.1 < nodes_in))

  PairsWithin-append :
      (xs ys : List (ℕ × ℕ)) → PairsWithin xs → PairsWithin ys → PairsWithin (xs ++ ys)
  PairsWithin-append [] ys h k = k
  PairsWithin-append (x ∷ xs) ys h k = (h.0, PairsWithin-append xs ys h.1 k)

  resolve_name-PairsWithin :
      (node : NodeSpec) (g : ℕ) (name : Text) (found : Option (ℕ × NodeSpec))
      → g < nodes_in
      → ((p : ℕ) (n : NodeSpec) → found ≡ some (p, n) → p < nodes_in)
      → PairsWithin (resolve_name node g name found).1.1
  unfolding resolve_name
  resolve_name-PairsWithin node g name none b h = tt
  resolve_name-PairsWithin node g name (some (t, target)) b h = ((b, h t target refl), tt)

  locate_name-lt :
      (name : Text) (p : ℕ) (n : NodeSpec)
      → locate_name name spec.nodes ≡ some (p, n)
      → p < nodes_in
  unfolding locate_name
  locate_name-lt name p n h = elim (Result-cases (new_identifier (text "node_id") name)) [
    | inl (id, e) ↦ omega (arith, locate-lt 0 id spec.nodes p n (rw (locate_name, e) at h))
    | inr (error, e) ↦ cc (rw (locate_name, e) at h)
  ]

  resolve_scope-PairsWithin :
      (node : NodeSpec) (g : ℕ) (scope : List Text)
      → g < nodes_in
      → PairsWithin (resolve_scope spec node g scope).1.1
  unfolding resolve_scope
  resolve_scope-PairsWithin node g [] b = tt
  resolve_scope-PairsWithin node g (source ∷ scope) b =
      let later = resolve_scope-PairsWithin node g scope b in
      elim (Option-cases (strip_prefix node_scope_prefix source)) [
        | inl e ↦ rw e later
        | inr (name, e) ↦ rw e (
            PairsWithin-append (resolve_name node g name (locate_name name spec.nodes)).1.1
              (resolve_scope spec node g scope).1.1
              (resolve_name-PairsWithin node g name (locate_name name spec.nodes) b
                (locate_name-lt name))
              later)
      ]

  resolve_ports-PairsWithin :
      (node : NodeSpec) (g : ℕ) (ports : List PortSpec)
      → g < nodes_in
      → PairsWithin (resolve_ports spec node g ports).1.1
  unfolding resolve_ports
  resolve_ports-PairsWithin node g [] b = tt
  resolve_ports-PairsWithin node g (port ∷ ports) b =
      let later = resolve_ports-PairsWithin node g ports b in
      elim (Bool-cases (port.kind == PortKind.human)) [
        | inr e ↦ rw e later
        | inl e ↦ rw e (
            PairsWithin-append (resolve_scope spec node g port.allowed_source_scope).1.1
              (resolve_ports spec node g ports).1.1
              (resolve_scope-PairsWithin node g port.allowed_source_scope b) later)
      ]

  pub resolve_gates-PairsWithin :
      (g : ℕ) (nodes : List NodeSpec)
      → g + length nodes ≤ nodes_in
      → PairsWithin (resolve_gates spec g nodes).1.1
  unfolding resolve_gates
  resolve_gates-PairsWithin g [] h = tt
  resolve_gates-PairsWithin g (node ∷ nodes) h =
      let later = resolve_gates-PairsWithin (suc g) nodes (omega (arith, h)) in
      elim (Bool-cases (node.kind == human_gate)) [
        | inr e ↦ rw e later
        | inl e ↦ rw e (
            PairsWithin-append (resolve_ports spec node g node.evidence_ports).1.1
              (resolve_gates spec (suc g) nodes).1.1
              (resolve_ports-PairsWithin node g node.evidence_ports (omega (arith, h))) later)
      ]
