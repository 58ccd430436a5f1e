-- ===== src/Admission/Admit/Acyclic.antt =====
-- src/graph/mod.rs: no node of an admitted graph depends on itself, directly or through others.
use checkspan.Common.{
  ℕ, ◌≤◌, ◌<◌, true, List, [], ◌∷◌, ◌≡◌, sym, subst, arith, ◌==◌, nat_eq, length, All, contains,
  ltb, ltb→lt, ltb→ge, Bool-cases, inl, inr, ==→≡,
}
use checkspan.Common.Indexed.{
  Within, count_outside, get_or, count, count-append, contains-concat, contains-count,
  count-eq-contains,
}
use checkspan.Contracts.Graph.{GraphSpec}
use checkspan.Admission.Kahn.Order.{Topological}
use checkspan.Admission.Cycle.Closed.{Edge}
use checkspan.Admission.Search.Routes.{DependsOn}
use checkspan.Admission.Admit.{AdmittedGraph, Admitted, admit}
use checkspan.Admission.Admit.Accepted.{deps_in}
use checkspan.Admission.Admit.Decided.{admit_decides}

All_contains :
    (order ps : List ℕ) (p : ℕ)
    → All (λ q. contains order q ≡ true) ps
    → contains ps p ≡ true
    → contains order p ≡ true
unfolding contains
All_contains order [] p h k = cc
All_contains order (q ∷ ps) p h k = elim (Bool-cases (q == p)) [
  | inl e ↦ subst (λ n. contains order n ≡ true) (==→≡ q p e) h.0
  | inr e ↦ All_contains order ps p h.1 (ground (arith, k, e))
]

module _ (deps_of : List (List ℕ)) where
  Topological-Edge :
      {order : List ℕ} (t : Topological deps_of order) (u v : ℕ)
      → contains order u ≡ true
      → Edge deps_of u v
      → contains order v ≡ true
  unfolding contains
  Topological-Edge Topological.nothing u v k edge = cc
  Topological-Edge (Topological.next {order = o} i t first same) u v k edge =
      let grown = contains-concat o i in
      elim (Bool-cases (i == u)) [
        | inl e ↦
            let own : Edge deps_of i v = subst (λ n. Edge deps_of n v) (sym (==→≡ i u e)) edge in
            rw same (ground (arith, grown v, All_contains o (get_or deps_of i []) v first own))
        | inr e ↦
            let earlier : contains o u ≡ true = ground (arith, rw same at k, grown u, e) in
            rw same (ground (arith, grown v, Topological-Edge t u v earlier edge))
      ]

  below_last :
      {order : List ℕ} (i : ℕ) (t : Topological deps_of order)
      → All (λ p. contains order p ≡ true) (get_or deps_of i [])
      → (v : ℕ) → DependsOn deps_of i v
      → contains order v ≡ true
  below_last {order = o} i t first v (DependsOn.direct edge) =
      All_contains o (get_or deps_of i []) v first edge
  below_last i t first v (DependsOn.through {b = b} d edge) =
      Topological-Edge t b v (below_last i t first b d) edge

  Topological-acyclic :
      {order : List ℕ} (t : Topological deps_of order)
      → ((v : ℕ) → count v order ≤ 1)
      → (v : ℕ) → contains order v ≡ true
      → ¬ DependsOn deps_of v v
  unfolding contains
  Topological-acyclic Topological.nothing once v k d = cc
  Topological-acyclic (Topological.next {order = o} i t first same) once v k d =
      let grown = contains-concat o i v in
      let both = λ (u : ℕ). subst (λ l. count u l ≤ 1) same (once u) in
      elim (Bool-cases (contains o v)) [
        | inl e ↦
            Topological-acyclic t (λ u. omega (arith, both u, count-append u o (i ∷ []))) v e d
        | inr e ↦
            let last : i ≡ v = ground (arith, rw same at k, grown, e, ==→≡ i v) in
            let back = below_last i t first v (subst (λ n. DependsOn deps_of n v) (sym last) d) in
            ground (arith, both i, count-append i o (i ∷ []), contains-count i o, back)
      ]

at_most_once :
    (spec : GraphSpec) (order : List ℕ)
    → Within (length spec.nodes) order
    → ((v : ℕ) → v < length spec.nodes → count v order ≡ 1)
    → (v : ℕ) → count v order ≤ 1
at_most_once spec order w all_once v = elim (Bool-cases (ltb v (length spec.nodes))) [
  | inl e ↦ omega (arith, all_once v (ltb→lt v (length spec.nodes) e))
  | inr e ↦
      omega (arith, count_outside (length spec.nodes) order v w (ltb→ge v (length spec.nodes) e))
]

-- No node of an admitted graph depends on itself, directly or through other nodes.
pub admit_acyclic :
    (spec : GraphSpec) (g : AdmittedGraph)
    → admit spec ≡ Admitted.done g
    → (v : ℕ) → v < length spec.nodes
    → ¬ DependsOn (deps_in spec) v v
admit_acyclic spec g h v b d = elim (admit_decides spec) [
  | inr (errors, same, some_error) ↦ cc
  | inl (other, same, accepted) ↦
      let ordered = accepted.ordered in
      let once = λ (u : ℕ). at_most_once spec accepted.order ordered.no_other ordered.all_once u in
      let placed = count-eq-contains v accepted.order (omega (arith, ordered.all_once v b)) in
      Topological-acyclic (deps_in spec) ordered.producers_first once v placed d
]
