-- ===== src/Deps/Pinned.antt =====
-- src/deps/mod.rs: `recheck_refs`, which runs the checks again on the receipts pinned at dispatch.
use checkspan.Common.{
  ℕ, suc, ◌+◌, true, none, some, List, [], ◌∷◌, ◌++◌, ◌≡◌, refl, sym, subst, ap, ◌∙◌, get_elem?,
  zero, inl, inr, arith, ◌==◌, Memᴰ, ==→≡, nat_eq, list_eq, contains, ok, Result-cases, Bool-cases,
  Option-cases, All, if◌then◌else◌,
}
use checkspan.Contracts.Ids.{Digest, NodeId}
use checkspan.Contracts.Refs.{NodeRef, node_ref_eq, ReceiptRef}
use checkspan.Contracts.Node.{NodeSpec, Dependency}
use checkspan.Contracts.Graph.{find_node}
use checkspan.Deps.Service.{
  DependencyService, Blocker, admissible, find_pinned, check_pinned, error_of, index_of,
  pinned_errors, extra_errors, recheck_node, recheck_refs, unless_blocked,
}
use checkspan.Deps.Soundness.{Usable, admissible_sound}

-- Some pinned receipt is about the node that a dependency names, and is usable for it.
abbrev pub Pinned : DependencyService → List ReceiptRef → Dependency → Type 0
Pinned s pinned dep =
    (r : ReceiptRef) × (digest : Digest) × Memᴰ r pinned
    × (r.node ≡ dep.node)
    × Usable s r dep.node dep.expected_type digest

find_pinned_member :
    (node : NodeRef) (i : ℕ) (pinned : List ReceiptRef) (j : ℕ) (r : ReceiptRef)
    → find_pinned node i pinned ≡ some (j, r)
    → Memᴰ r pinned × (r.node ≡ node)
unfolding find_pinned
find_pinned_member node i [] j r h = cc
find_pinned_member node i (x ∷ rest) j r h = elim (Bool-cases (x.node == node)) [
  | inl e ↦
      let same : x ≡ r = ground arith in
      (Memᴰ.head (sym same), subst (λ y. y.node ≡ node) same (==→≡ x.node node e))
  | inr e ↦
      let later : find_pinned node (suc i) rest ≡ some (j, r) = ground arith in
      let (m, q) = find_pinned_member node (suc i) rest j r later in (Memᴰ.tail m, q)
]

same_elem :
    (pinned : List ReceiptRef) (k : ℕ) (q r : ReceiptRef)
    → get_elem? pinned k ≡ some q
    → get_elem? pinned k ≡ some r
    → q ≡ r
same_elem pinned k q r h g = cc

append_nil_left : {A : Type 0} (xs ys : List A) → (xs ++ ys) ≡ [] → (xs ≡ []) × (ys ≡ [])
append_nil_left [] ys h = (refl, h)
append_nil_left (x ∷ xs) ys h = cc

pinned_errors_none :
    (s : DependencyService) (pinned : List ReceiptRef) (deps : List Dependency)
    → (pinned_errors s pinned deps).0 ≡ []
    → All (Pinned s pinned) deps
unfolding pinned_errors check_pinned
pinned_errors_none s pinned [] h = tt
pinned_errors_none s pinned (dep ∷ deps) h =
    let (here, rest) =
      append_nil_left (check_pinned s dep (find_pinned dep.node 0 pinned))
        (pinned_errors s pinned deps).0 h in
    elim (Option-cases (find_pinned dep.node 0 pinned)) [
      | inl e ↦ let clear = subst (λ o. check_pinned s dep o ≡ []) e here in cc
      | inr ((i, r), e) ↦
          let clear = subst (λ o. check_pinned s dep o ≡ []) e here in
          let (m, about) = find_pinned_member dep.node 0 pinned i r e in
          elim (Result-cases (admissible s r dep.node dep.expected_type none)) [
            | inr (b, f) ↦ let bad = subst (λ x. error_of x ≡ []) f clear in cc
            | inl (digest, f) ↦ (
              (
                r,
                digest,
                m,
                about,
                (admissible_sound s r dep.node dep.expected_type none digest f).0,
              ),
              pinned_errors_none s pinned deps rest,
            )
          ]
    ]

used_by :
    (s : DependencyService) (pinned : List ReceiptRef) (deps : List Dependency) (j : ℕ)
    → contains (pinned_errors s pinned deps).1 j ≡ true
    → (dep : Dependency) × (r : ReceiptRef) × Memᴰ dep deps
      × (find_pinned dep.node 0 pinned ≡ some (j, r))
unfolding pinned_errors contains
used_by s pinned [] j h = cc
used_by s pinned (dep ∷ deps) j h = elim (Option-cases (find_pinned dep.node 0 pinned)) [
  | inl e ↦
      let later =
        subst (λ o. contains (index_of o ++ (pinned_errors s pinned deps).1) j ≡ true) e h in
      let (d, r, m, f) = used_by s pinned deps j later in (d, r, Memᴰ.tail m, f)
  | inr ((i, r), e) ↦
      let here =
        subst (λ o. contains (index_of o ++ (pinned_errors s pinned deps).1) j ≡ true) e h in
      elim (Bool-cases (i == j)) [
        | inl same ↦ (dep, r, Memᴰ.head refl, e ∙ ap (λ k. some (k, r)) (==→≡ i j same))
        | inr other ↦
            let later : contains (pinned_errors s pinned deps).1 j ≡ true = ground arith in
            let (d, q, m, f) = used_by s pinned deps j later in (d, q, Memᴰ.tail m, f)
      ]
]

find_pinned_at :
    (node : NodeRef) (i : ℕ) (pinned : List ReceiptRef) (j : ℕ) (r : ReceiptRef)
    → find_pinned node i pinned ≡ some (j, r)
    → (k : ℕ) × (j ≡ i + k) × (get_elem? pinned k ≡ some r)
unfolding find_pinned
find_pinned_at node i [] j r h = cc
find_pinned_at node i (x ∷ rest) j r h = elim (Bool-cases (x.node == node)) [
  | inl e ↦
      let same : (x ≡ r) × (i ≡ j) = ground arith in (0, omega (arith, same.1), ap some same.0)
  | inr e ↦
      let later : find_pinned node (suc i) rest ≡ some (j, r) = ground arith in
      let (k, far, at) = find_pinned_at node (suc i) rest j r later in (suc k, omega arith, at)
]

no_extra :
    (own : NodeRef) (used : List ℕ) (i : ℕ) (pinned : List ReceiptRef) (k : ℕ) (r : ReceiptRef)
    → extra_errors own used i pinned ≡ []
    → get_elem? pinned k ≡ some r
    → contains used (i + k) ≡ true
unfolding extra_errors
no_extra own used i [] k r h at = cc
no_extra own used i (x ∷ rest) zero r h at = elim (Bool-cases (contains used i)) [
  | inl e ↦ subst (λ n. contains used n ≡ true) (omega arith) e
  | inr e ↦ ground arith
]
no_extra own used i (x ∷ rest) (suc k) r h at =
    let split =
      append_nil_left (if contains used i then [] else Blocker.node_mismatch own x.node ∷ [])
        (extra_errors own used (suc i) rest) h in
    subst (λ n. contains used n ≡ true) (omega arith)
      (no_extra own used (suc i) rest k r split.1 at)

unblocked : (blockers : List Blocker) → unless_blocked (tt {0}) blockers ≡ ok tt → blockers ≡ []
unblocked [] h = refl
unblocked (b ∷ bs) h = cc

-- When `recheck_refs` succeeds, the id names a node of the graph, each of its dependencies has a
-- pinned receipt about its node that is usable for it, and each pinned receipt is the first one
-- pinned for the node of some dependency.
pub recheck_refs_sound :
    (s : DependencyService) (id : NodeId) (pinned : List ReceiptRef)
    → recheck_refs s id pinned ≡ ok tt
    → (node : NodeSpec) × (find_node id s.spec.nodes ≡ some node)
      × All (Pinned s pinned) node.deps
      × ((k : ℕ) (r : ReceiptRef)
          → get_elem? pinned k ≡ some r
          → (dep : Dependency) × Memᴰ dep node.deps × (find_pinned dep.node 0 pinned ≡ some (k, r)))
unfolding recheck_refs recheck_node
recheck_refs_sound s id pinned h = elim (Option-cases (find_node id s.spec.nodes)) [
  | inl e ↦ let h₁ = subst (λ o. recheck_node s id pinned o ≡ ok tt) e h in cc
  | inr (node, e) ↦
      let own : NodeRef = record {
        graph_id = s.spec.graph_id;
        node_id = id;
        revision = node.revision;
      } in
      let h₁ = subst (λ o. recheck_node s id pinned o ≡ ok tt) e h in
      let clear = unblocked _ h₁ in
      let (found, extra) =
        append_nil_left (pinned_errors s pinned node.deps).0
          (extra_errors own (pinned_errors s pinned node.deps).1 0 pinned) clear in
      (
        node,
        e,
        pinned_errors_none s pinned node.deps found,
        (λ k r at.
            let used = no_extra own (pinned_errors s pinned node.deps).1 0 pinned k r extra at in
            let (dep, q, m, f) = used_by s pinned node.deps k (
              subst (λ n. contains (pinned_errors s pinned node.deps).1 n ≡ true) (omega arith)
                used) in
            let (i, far, there) = find_pinned_at dep.node 0 pinned k q f in
            let same : q ≡ r =
              same_elem pinned k q r
                (subst (λ n. get_elem? pinned n ≡ some q) (omega (arith, far)) there) at in
            (dep, m, f ∙ ap (λ x. some (k, x)) same)),
      )
]
