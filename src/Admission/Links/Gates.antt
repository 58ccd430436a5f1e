-- ===== src/Admission/Links/Gates.antt =====
-- src/graph/mod.rs: what the loop that fills `gates` and `gate_pairs` has found for a graph in which
-- it finds no error, in terms of the ports of the gates.
use checkspan.Common.{
  ℕ, zero, suc, ◌+◌, true, none, some, List, [], ◌∷◌, ◌++◌, ◌≡◌, refl, sym, subst, arith, ◌==◌,
  nat_eq, list_eq, get_elem?, All, Memᴰ, Bool-cases, Option, Option-cases, inl, inr, Text, text,
  strip_prefix,
}
use checkspan.Contracts.Node.{NodeSpec, PortSpec, PortKind, human_gate, node_kind_eq, port_kind_eq}
use checkspan.Contracts.Graph.{GraphSpec}
use checkspan.Admission.Links.{
  locate_name, resolve_name, resolve_scope, resolve_ports, resolve_gates, node_scope_prefix,
}
use checkspan.Admission.Links.Located.{IsFirst, locate_name-IsFirst}
use checkspan.Admission.Links.Linked.{append_nil}

All-append {ℓ κ} :
    {A : Type ℓ} (P : A → Type κ) (xs ys : List A) → All P (xs ++ ys) → All P xs × All P ys
All-append P [] ys h = (tt, h)
All-append P (x ∷ xs) ys (p, h) = let (q, r) = All-append P xs ys h in ((p, q), r)

strip-node : (name : Text) → strip_prefix node_scope_prefix (text "node:" ++ name) ≡ some name
unfolding strip_prefix
strip-node name = refl

module _ (spec : GraphSpec) (Apart : ℕ × ℕ → Type 0) where
  -- A node of this name is in the graph, and the gate is apart from it.
  abbrev pub Resolves : ℕ → Text → Type 0
  Resolves g name = (t : ℕ) × (target : NodeSpec) × IsFirst spec.nodes name t target × Apart (g, t)

  resolve_name-Resolves :
      (node : NodeSpec) (g : ℕ) (name : Text) (found : Option (ℕ × NodeSpec))
      → locate_name name spec.nodes ≡ found
      → (resolve_name node g name found).0 ≡ []
      → All Apart (resolve_name node g name found).1.1
      → Resolves g name
  unfolding resolve_name
  resolve_name-Resolves node g name none is h a = cc
  resolve_name-Resolves node g name (some (t, target)) is h a =
      (t, target, locate_name-IsFirst name spec.nodes t target is, a.0)

  resolve_scope-Resolves :
      (node : NodeSpec) (g : ℕ) (scope : List Text) (name : Text)
      → (resolve_scope spec node g scope).0 ≡ []
      → All Apart (resolve_scope spec node g scope).1.1
      → Memᴰ (text "node:" ++ name) scope
      → Resolves g name
  unfolding resolve_scope
  resolve_scope-Resolves node g [] name h a m = elim m [ ]
  resolve_scope-Resolves node g (source ∷ scope) name h a (Memᴰ.head e) =
      let stripped : strip_prefix node_scope_prefix source ≡ some name =
        subst (λ s. strip_prefix node_scope_prefix s ≡ some name) e (strip-node name) in
      let found = locate_name name spec.nodes in
      let here = resolve_name node g name found in
      let rest = resolve_scope spec node g scope in
      resolve_name-Resolves node g name found refl
        (append_nil here.0 rest.0 (rw (resolve_scope, stripped) at h)).0
        (All-append Apart here.1.1 rest.1.1 (rw (resolve_scope, stripped) at a)).0
  resolve_scope-Resolves node g (source ∷ scope) name h a (Memᴰ.tail m) =
      let rest = resolve_scope spec node g scope in
      elim (Option-cases (strip_prefix node_scope_prefix source)) [
        | inl e ↦
            resolve_scope-Resolves node g scope name (rw (resolve_scope, e) at h)
              (rw (resolve_scope, e) at a) m
        | inr (other, e) ↦
            let here = resolve_name node g other (locate_name other spec.nodes) in
            resolve_scope-Resolves node g scope name
              (append_nil here.0 rest.0 (rw (resolve_scope, e) at h)).1
              (All-append Apart here.1.1 rest.1.1 (rw (resolve_scope, e) at a)).1 m
      ]

  resolve_ports-Resolves :
      (node : NodeSpec) (g : ℕ) (ports : List PortSpec) (port : PortSpec) (name : Text)
      → (resolve_ports spec node g ports).0 ≡ []
      → All Apart (resolve_ports spec node g ports).1.1
      → Memᴰ port ports
      → port.kind ≡ PortKind.human
      → Memᴰ (text "node:" ++ name) port.allowed_source_scope
      → Resolves g name
  unfolding resolve_ports
  resolve_ports-Resolves node g [] port name h a m k s = elim m [ ]
  resolve_ports-Resolves node g (p ∷ ports) port name h a m k s =
      let here = resolve_scope spec node g p.allowed_source_scope in
      let rest = resolve_ports spec node g ports in
      elim (Bool-cases (p.kind == PortKind.human)) [
        | inl e ↦
            let clean = append_nil here.0 rest.0 (rw (resolve_ports, e) at h) in
            let apart = All-append Apart here.1.1 rest.1.1 (rw (resolve_ports, e) at a) in
            elim m [
              | Memᴰ.head is ↦
                  resolve_scope-Resolves node g p.allowed_source_scope name clean.0 apart.0 (
                    subst (λ (q : PortSpec). Memᴰ (text "node:" ++ name) q.allowed_source_scope) is
                      s)
              | Memᴰ.tail later ↦
                  resolve_ports-Resolves node g ports port name clean.1 apart.1 later k s
            ]
        | inr e ↦ elim m [
          | Memᴰ.head is ↦
              let human : (port.kind == PortKind.human) ≡ true = rw k refl in
              let same = subst (λ (q : PortSpec). (q.kind == PortKind.human) ≡ true) is human in cc
          | Memᴰ.tail later ↦
              resolve_ports-Resolves node g ports port name (rw (resolve_ports, e) at h)
                (rw (resolve_ports, e) at a) later k s
        ]
      ]

  resolve_gates-Resolves :
      (g : ℕ) (nodes : List NodeSpec) (v : ℕ) (gate : NodeSpec) (port : PortSpec) (name : Text)
      → (resolve_gates spec g nodes).0 ≡ []
      → All Apart (resolve_gates spec g nodes).1.1
      → get_elem? nodes v ≡ some gate
      → gate.kind ≡ human_gate
      → Memᴰ port gate.evidence_ports
      → port.kind ≡ PortKind.human
      → Memᴰ (text "node:" ++ name) port.allowed_source_scope
      → Resolves (g + v) name
  unfolding resolve_gates
  resolve_gates-Resolves g [] v gate port name h a at_v k m pk s = cc
  resolve_gates-Resolves g (n ∷ nodes) zero gate port name h a at_v k m pk s =
      let one : n ≡ gate = cc in
      let own : (n.kind == human_gate) ≡ true =
        subst (λ (x : NodeSpec). (x.kind == human_gate) ≡ true) (sym one) (rw k refl) in
      let here = resolve_ports spec n g n.evidence_ports in
      let rest = resolve_gates spec (suc g) nodes in
      let spot : g ≡ g + 0 = omega arith in
      subst (λ u. Resolves u name) spot
        (resolve_ports-Resolves n g n.evidence_ports port name
          (append_nil here.0 rest.0 (rw (resolve_gates, own) at h)).0
          (All-append Apart here.1.1 rest.1.1 (rw (resolve_gates, own) at a)).0
          (subst (λ (x : NodeSpec). Memᴰ port x.evidence_ports) (sym one) m) pk s)
  resolve_gates-Resolves g (n ∷ nodes) (suc v) gate port name h a at_v k m pk s =
      let here = resolve_ports spec n g n.evidence_ports in
      let rest = resolve_gates spec (suc g) nodes in
      let spot : suc g + v ≡ g + suc v = omega arith in
      subst (λ u. Resolves u name) spot
        (elim (Bool-cases (n.kind == human_gate)) [
          | inl e ↦
              resolve_gates-Resolves (suc g) nodes v gate port name
                (append_nil here.0 rest.0 (rw (resolve_gates, e) at h)).1
                (All-append Apart here.1.1 rest.1.1 (rw (resolve_gates, e) at a)).1 at_v k m pk s
          | inr e ↦
              resolve_gates-Resolves (suc g) nodes v gate port name (rw (resolve_gates, e) at h)
                (rw (resolve_gates, e) at a) at_v k m pk s
        ])

  -- Every name after `node:` in the scope of a human port of a gate.
  abbrev pub GatesResolve : Type 0
  GatesResolve =
      (v : ℕ) (gate : NodeSpec) (port : PortSpec) (name : Text)
      → get_elem? spec.nodes v ≡ some gate
      → gate.kind ≡ human_gate
      → Memᴰ port gate.evidence_ports
      → port.kind ≡ PortKind.human
      → Memᴰ (text "node:" ++ name) port.allowed_source_scope
      → Resolves v name

  pub resolve_gates-GatesResolve :
      (resolve_gates spec 0 spec.nodes).0 ≡ []
      → All Apart (resolve_gates spec 0 spec.nodes).1.1
      → GatesResolve
  resolve_gates-GatesResolve h a v gate port name at_v k m pk s =
      let spot : 0 + v ≡ v = omega arith in
      subst (λ u. Resolves u name) spot
        (resolve_gates-Resolves 0 spec.nodes v gate port name h a at_v k m pk s)
