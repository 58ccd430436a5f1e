-- ===== src/Admission/Admit/Targets.antt =====
-- src/graph/mod.rs: the targets of `admit` are those that the graph names, and what they need follows
-- the dependencies of its nodes.
use checkspan.Common.{
  ℕ, ◌+◌, true, some, List, [], ◌∷◌, ◌≡◌, ◌↔◌, refl, subst, ap, ◌∙◌, arith, ◌==◌, nat_eq, list_eq,
  Memᴰ, Bool-cases, Option-cases, inl, inr, ==→≡, ==_self, contains,
}
use checkspan.Contracts.Refs.{NodeRef}
use checkspan.Contracts.Node.{NodeSpec}
use checkspan.Contracts.Graph.{GraphSpec}
use checkspan.Admission.Cycle.Closed.{Edge}
use checkspan.Admission.Search.Required.{Needed}
use checkspan.Admission.Admit.{target_indices}
use checkspan.Admission.Links.{locate}
use checkspan.Admission.Links.Located.{IsFirst, at_first, IsFirst-locate}
use checkspan.Admission.Links.Exact.{Needs}

module _ (spec : GraphSpec) where
  -- The node at `v` is a target.
  abbrev pub IsTarget : ℕ → Type 0
  IsTarget v =
      (t : NodeRef) × (n : NodeSpec) × Memᴰ t spec.targets × IsFirst spec.nodes t.node_id v n

  -- The targets, and what they depend on, directly or through others.
  pub data IsNeeded : ℕ → Type 0 where
    a_target : {v : ℕ} → IsTarget v → IsNeeded v
    needed_by : {u v : ℕ} → IsNeeded u → Needs spec u v → IsNeeded v

  target_indices-IsTarget :
      (targets : List NodeRef) (v : ℕ)
      → contains (target_indices spec.nodes targets) v ≡ true
      → (t : NodeRef) × (n : NodeSpec) × Memᴰ t targets × IsFirst spec.nodes t.node_id v n
  unfolding target_indices contains
  target_indices-IsTarget [] v h = cc
  target_indices-IsTarget (t ∷ targets) v h = elim (Option-cases (locate 0 t.node_id spec.nodes)) [
    | inl e ↦
        let (s, n, m, f) = target_indices-IsTarget targets v (rw (target_indices, e) at h) in
        (s, n, Memᴰ.tail m, f)
    | inr ((i, n), e) ↦ elim (Bool-cases (i == v)) [
      | inl same ↦
          let here = ==→≡ i v same in
          (
            t,
            n,
            Memᴰ.head refl,
            at_first spec.nodes t.node_id v n
                (subst (λ k. locate 0 t.node_id spec.nodes ≡ some (k, n)) here e),
          )
      | inr other ↦
          let (s, m, k, f) = target_indices-IsTarget targets v (
            let kept : contains (i ∷ target_indices spec.nodes targets) v ≡ true =
              rw (target_indices, e) at h in
            ground (arith, kept, other)) in
          (s, m, Memᴰ.tail k, f)
    ]
  ]

  IsTarget-target_indices :
      (targets : List NodeRef) (v : ℕ) (t : NodeRef) (n : NodeSpec)
      → Memᴰ t targets
      → IsFirst spec.nodes t.node_id v n
      → contains (target_indices spec.nodes targets) v ≡ true
  unfolding target_indices contains
  IsTarget-target_indices [] v t n m f = elim m [ ]
  IsTarget-target_indices (x ∷ targets) v t n (Memᴰ.head e) f =
      let spot : 0 + v ≡ v = omega arith in
      let found = IsFirst-locate 0 t.node_id spec.nodes v n f ∙ ap (λ (k : ℕ). some (k, n)) spot in
      let own : locate 0 x.node_id spec.nodes ≡ some (v, n) =
        subst (λ (r : NodeRef). locate 0 r.node_id spec.nodes ≡ some (v, n)) e found in
      rw (target_indices, own, ==_self v) refl
  IsTarget-target_indices (x ∷ targets) v t n (Memᴰ.tail m) f =
      let later = IsTarget-target_indices targets v t n m f in
      elim (Option-cases (locate 0 x.node_id spec.nodes)) [
        | inl e ↦ rw (target_indices, e) later
        | inr ((i, y), e) ↦ rw (target_indices, e) (ground (arith, later))
      ]

  -- What the links and the indices of the targets make needed is needed.
  pub Needed-IsNeeded :
      (deps_of : List (List ℕ))
      → ((u v : ℕ) → Edge deps_of u v ↔ Needs spec u v)
      → (v : ℕ) → Needed deps_of (target_indices spec.nodes spec.targets) v ↔ IsNeeded v
  Needed-IsNeeded deps_of edges v = (forth v, back v)
    where
      forth : (u : ℕ) → Needed deps_of (target_indices spec.nodes spec.targets) u → IsNeeded u
      forth u (Needed.target k) = IsNeeded.a_target (target_indices-IsTarget spec.targets u k)
      forth u (Needed.producer {i = i} n edge) = IsNeeded.needed_by (forth i n) ((edges i u).0 edge)

      back : (u : ℕ) → IsNeeded u → Needed deps_of (target_indices spec.nodes spec.targets) u
      back u (IsNeeded.a_target (t, n, m, f)) =
          Needed.target (IsTarget-target_indices spec.targets u t n m f)
      back u (IsNeeded.needed_by {u = w} n need) = Needed.producer (back w n) ((edges w u).1 need)
