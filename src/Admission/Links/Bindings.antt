-- ===== src/Admission/Links/Bindings.antt =====
-- src/graph/mod.rs: the `gates` of a graph without errors, by the ports of its gates.
use checkspan.Common.{
  ℕ, suc, none, some, List, [], ◌∷◌, ◌++◌, map, ◌≡◌, refl, ap, ◌∙◌, ◌==◌, nat_eq, list_eq,
  Bool-cases, Option, Option-cases, inl, inr, Text, text, strip_prefix, keep, if◌then◌else◌,
}
use checkspan.Contracts.Ids.{NodeId}
use checkspan.Contracts.Node.{NodeSpec, PortSpec, PortKind, human_gate, node_kind_eq, port_kind_eq}
use checkspan.Contracts.Graph.{GraphSpec}
use checkspan.Admission.Links.{
  GateBinding, locate_name, resolve_name, resolve_scope, resolve_ports, resolve_gates,
  node_scope_prefix,
}
use checkspan.Admission.Links.Linked.{append_nil}

-- The names in the scope that follow `node:`.
abbrev pub names_in : List Text → List NodeId
names_in [] = []
names_in (source ∷ scope) = elim (strip_prefix (text "node:") source) [
  | none ↦ names_in scope
  | some name ↦ name ∷ names_in scope
]

abbrev pub resolves_in : List PortSpec → List NodeId
resolves_in [] = []
resolves_in (port ∷ ports) =
    if port.kind == PortKind.human
    then names_in port.allowed_source_scope ++ resolves_in ports
    else resolves_in ports

-- Each human gate with the nodes that its human ports name.
abbrev pub bindings_of : List NodeSpec → List GateBinding
bindings_of nodes =
    map (λ (n : NodeSpec). record { gate = n.id; resolves = resolves_in n.evidence_ports })
      (keep (λ (n : NodeSpec). n.kind == human_gate) nodes)

module _ (spec : GraphSpec) where
  names-resolve_name :
      (node : NodeSpec) (g : ℕ) (name : Text) (found : Option (ℕ × NodeSpec))
      → (resolve_name node g name found).0 ≡ []
      → (resolve_name node g name found).1.0 ≡ name ∷ []
  unfolding resolve_name
  names-resolve_name node g name none h = cc
  names-resolve_name node g name (some (t, target)) h = refl

  names-resolve_scope :
      (node : NodeSpec) (g : ℕ) (scope : List Text)
      → (resolve_scope spec node g scope).0 ≡ []
      → (resolve_scope spec node g scope).1.0 ≡ names_in scope
  unfolding resolve_scope
  names-resolve_scope node g [] h = refl
  names-resolve_scope node g (source ∷ scope) h =
      elim (Option-cases (strip_prefix node_scope_prefix source)) [
        | inl e ↦
            rw (resolve_scope, e) (names-resolve_scope node g scope (rw (resolve_scope, e) at h))
        | inr (name, e) ↦
            let found = locate_name name spec.nodes in
            let here = resolve_name node g name found in
            let rest = resolve_scope spec node g scope in
            let clean = append_nil here.0 rest.0 (rw (resolve_scope, e) at h) in
            rw (resolve_scope, e)
              (ap (λ l. l ++ rest.1.0) (names-resolve_name node g name found clean.0)
                ∙ ap (λ l. name ∷ l) (names-resolve_scope node g scope clean.1))
      ]

  names-resolve_ports :
      (node : NodeSpec) (g : ℕ) (ports : List PortSpec)
      → (resolve_ports spec node g ports).0 ≡ []
      → (resolve_ports spec node g ports).1.0 ≡ resolves_in ports
  unfolding resolve_ports
  names-resolve_ports node g [] h = refl
  names-resolve_ports node g (port ∷ ports) h = elim (Bool-cases (port.kind == PortKind.human)) [
    | inr e ↦ rw (resolve_ports, e) (names-resolve_ports node g ports (rw (resolve_ports, e) at h))
    | inl e ↦
        let here = resolve_scope spec node g port.allowed_source_scope in
        let rest = resolve_ports spec node g ports in
        let clean = append_nil here.0 rest.0 (rw (resolve_ports, e) at h) in
        rw (resolve_ports, e)
          (ap (λ l. l ++ rest.1.0) (names-resolve_scope node g port.allowed_source_scope clean.0)
            ∙ ap (λ l. names_in port.allowed_source_scope ++ l)
                (names-resolve_ports node g ports clean.1))
  ]

  pub resolve_gates-bindings_of :
      (g : ℕ) (nodes : List NodeSpec)
      → (resolve_gates spec g nodes).0 ≡ []
      → (resolve_gates spec g nodes).1.0 ≡ bindings_of nodes
  unfolding resolve_gates keep
  resolve_gates-bindings_of g [] h = refl
  resolve_gates-bindings_of g (n ∷ nodes) h = elim (Bool-cases (n.kind == human_gate)) [
    | inr e ↦
        rw (resolve_gates, e) (resolve_gates-bindings_of (suc g) nodes (rw (resolve_gates, e) at h))
    | inl e ↦
        let here = resolve_ports spec n g n.evidence_ports in
        let rest = resolve_gates spec (suc g) nodes in
        let clean = append_nil here.0 rest.0 (rw (resolve_gates, e) at h) in
        rw (resolve_gates, e)
          (ap (λ l. record { gate = n.id; resolves = l } ∷ rest.1.0)
              (names-resolve_ports n g n.evidence_ports clean.0)
            ∙ ap (λ l. record { gate = n.id; resolves = resolves_in n.evidence_ports } ∷ l)
                (resolve_gates-bindings_of (suc g) nodes clean.1))
  ]
