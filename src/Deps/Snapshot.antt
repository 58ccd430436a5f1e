-- ===== src/Deps/Snapshot.antt =====
-- src/deps/mod.rs: the snapshots that `resolve` returns, and what `recheck` says of them.
use checkspan.Common.{
  Option, none, some, List, [], ◌∷◌, map, ◌≡◌, refl, subst, ap, inl, inr, ◌⊎◌, arith, ◌==◌, ==→≡,
  nat_eq, list_eq, ok, >>=_ok, Result-cases, or_fail, ok-injective, Bool-cases, Option-cases, All,
}
use checkspan.Contracts.Ids.{NodeId}
use checkspan.Contracts.Refs.{type_ref_eq}
use checkspan.Contracts.Node.{NodeSpec, Dependency}
use checkspan.Contracts.Graph.{ImportedReceipt, find_node}
use checkspan.Contracts.View.{NodeStatus, node_status_eq}
use checkspan.State.Run.{node_state}
use checkspan.State.Node.{NodeState}
use checkspan.Deps.Service.{
  DependencyService, DependencySnapshot, ResolvedDependency, Blocker, admissible, resolve_import,
  resolve_accepted, resolve_other, resolve_from, resolve_one, resolve_all, resolve_node, resolve,
  recheck_all, recheck, unless_blocked, accepted_state, find_import, require, check_time,
}
use checkspan.Deps.Soundness.{Usable, or_fail_ok, admissible_sound, admissible_complete}

-- The receipt is the one that the accepted producer of this run holds, or one that the run's record
-- lists as an import for the producer, with the digest listed there.
abbrev pub Sourced : DependencyService → ResolvedDependency → Type 0
Sourced s r =
    ((state : NodeState) × (node_state s.state r.dependency.node.node_id ≡ some state)
      × (state.status ≡ NodeStatus.accepted)
      × (state.receipt ≡ some r.receipt))
    ⊎ ((import : ImportedReceipt) × (find_import r.dependency.node.node_id s.run.admitted_imports
          ≡ some import)
        × (import.receipt ≡ r.receipt)
        × (import.result_digest ≡ r.result_digest))

abbrev pub Sound : DependencyService → ResolvedDependency → Type 0
Sound s r =
    Usable s r.receipt r.dependency.node r.dependency.expected_type r.result_digest × Sourced s r

cons_both {ℓ} : {A : Type ℓ} {a b : A} {xs ys : List A} → a ≡ b → xs ≡ ys → (a ∷ xs) ≡ (b ∷ ys)
cons_both p q = cc

unless_blocked_ok {ℓ} :
    {A : Type ℓ} (a : A) (blockers : List Blocker) (b : A)
    → unless_blocked a blockers ≡ ok b
    → (blockers ≡ []) × (a ≡ b)
unless_blocked_ok a [] b h = (refl, cc)
unless_blocked_ok a (x ∷ xs) b h = cc

accepted_state_ok :
    (o : Option NodeState) (state : NodeState)
    → accepted_state o ≡ some state
    → (o ≡ some state) × (state.status ≡ NodeStatus.accepted)
accepted_state_ok none state h = cc
accepted_state_ok (some x) state h = elim (Bool-cases (x.status == NodeStatus.accepted)) [
  | inr e ↦ ground arith
  | inl e ↦
      let same : x ≡ state = ground arith in
      (
        ap some same,
        subst (λ y. y.status ≡ NodeStatus.accepted) same (==→≡ x.status NodeStatus.accepted e),
      )
]

abbrev Resolves : DependencyService → Dependency → ResolvedDependency → Type 0
Resolves s dep r = (r.dependency ≡ dep) × Sound s r

accepted-Resolves :
    (s : DependencyService) (dep : Dependency) (state : NodeState) (r : ResolvedDependency)
    → node_state s.state dep.node.node_id ≡ some state
    → state.status ≡ NodeStatus.accepted
    → resolve_accepted s dep state ≡ ok r
    → Resolves s dep r
unfolding resolve_accepted
accepted-Resolves s dep state r known status h =
    let (receipt, has, h₁) = >>=_ok (or_fail state.receipt _) _ h in
    let (digest, used, h₂) = >>=_ok (admissible s receipt dep.node dep.expected_type none) _ h₁ in
    subst (Resolves s dep) (ok-injective h₂) (
      refl,
      (
        (admissible_sound s receipt dep.node dep.expected_type none digest used).0,
        inl (state, known, status, or_fail_ok _ _ receipt has),
      ),
    )

import-Resolves :
    (s : DependencyService) (dep : Dependency) (import : ImportedReceipt) (r : ResolvedDependency)
    → find_import dep.node.node_id s.run.admitted_imports ≡ some import
    → resolve_import s dep import ≡ ok r
    → Resolves s dep r
unfolding resolve_import
import-Resolves s dep import r listed h =
    let (u₁, timely, h₁) = >>=_ok (check_time s.now import.receipt import.valid_until) _ h in
    let (u₂, typed, h₂) = >>=_ok (require (import.result_type == dep.expected_type) _) _ h₁ in
    let (digest, used, h₃) =
      >>=_ok (admissible s import.receipt dep.node dep.expected_type (some import.result_digest)) _
        h₂ in
    let (usable, same) =
      admissible_sound s import.receipt dep.node dep.expected_type (some import.result_digest)
        digest used in
    subst (Resolves s dep) (ok-injective h₃) (refl, (usable, inr (import, listed, refl, same)))

resolve_one_sound :
    (s : DependencyService) (dep : Dependency) (r : ResolvedDependency)
    → resolve_one s dep ≡ ok r
    → Resolves s dep r
unfolding resolve_one resolve_from resolve_other
resolve_one_sound s dep r h =
    let (producer, known, h₁) = >>=_ok (or_fail (find_node dep.node.node_id s.spec.nodes) _) _ h in
    elim (Option-cases (accepted_state (node_state s.state dep.node.node_id))) [
      | inr (state, e) ↦
          let (held, status) = accepted_state_ok _ state e in
          accepted-Resolves s dep state r held status
            (subst (λ o. resolve_from s dep o ≡ ok r) e h₁)
      | inl e ↦
          let h₂ = subst (λ o. resolve_from s dep o ≡ ok r) e h₁ in
          elim (Option-cases (find_import dep.node.node_id s.run.admitted_imports)) [
            | inr (import, f) ↦
                import-Resolves s dep import r f (subst (λ o. resolve_other s dep o ≡ ok r) f h₂)
            | inl f ↦ let h₃ = subst (λ o. resolve_other s dep o ≡ ok r) f h₂ in cc
          ]
    ]

resolve_all-Sound :
    (s : DependencyService) (deps : List Dependency)
    → (resolve_all s deps).1 ≡ []
    → (map (λ r. r.dependency) (resolve_all s deps).0 ≡ deps) × All (Sound s) (resolve_all s deps).0
unfolding resolve_all
resolve_all-Sound s [] h = (refl, tt)
resolve_all-Sound s (dep ∷ deps) h = elim (Result-cases (resolve_one s dep)) [
  | inr (b, e) ↦ ground arith
  | inl (r, e) ↦
      let none_later : (resolve_all s deps).1 ≡ [] = ground arith in
      let (same, sound) = resolve_all-Sound s deps none_later in
      let (own, here) = resolve_one_sound s dep r e in
      rw (resolve_all, e) (cons_both own same, (here, sound))
]

-- When `resolve` returns a snapshot for an id, the id names a node of the graph, the snapshot
-- answers its dependencies in their order, and each answer is usable: a stored receipt that
-- accepts, for a stored attempt at exactly the node and revision of the dependency, a result of
-- the expected type and digest, neither expired nor revoked; and the receipt is the one that the
-- accepted producer of this run holds or the one that the run lists as an import for it, with
-- the digest listed there.
pub resolve-Sound :
    (s : DependencyService) (id : NodeId) (snapshot : DependencySnapshot)
    → resolve s id ≡ ok snapshot
    → (node : NodeSpec) × (find_node id s.spec.nodes ≡ some node)
      × (map (λ r. r.dependency) snapshot.resolved ≡ node.deps)
      × All (Sound s) snapshot.resolved
unfolding resolve resolve_node
resolve-Sound s id snapshot h = elim (Option-cases (find_node id s.spec.nodes)) [
  | inl e ↦ let h₁ = subst (λ o. resolve_node s id o ≡ ok snapshot) e h in cc
  | inr (node, e) ↦
      let h₁ = subst (λ o. resolve_node s id o ≡ ok snapshot) e h in
      let (clear, same) = unless_blocked_ok _ (resolve_all s node.deps).1 snapshot h₁ in
      let (deps, sound) = resolve_all-Sound s node.deps clear in
      let both =
        subst
          (λ (t : DependencySnapshot).
            (map (λ r. r.dependency) t.resolved ≡ node.deps) × All (Sound s) t.resolved)
          same (deps, sound) in
      (node, e, both.0, both.1)
]

recheck_all-Sound :
    (s : DependencyService) (resolved : List ResolvedDependency)
    → All (Sound s) resolved
    → recheck_all s resolved ≡ []
unfolding recheck_all
recheck_all-Sound s [] sound = refl
recheck_all-Sound s (r ∷ rest) ((usable, sourced), sound) =
    let again =
      admissible_complete s r.receipt r.dependency.node r.dependency.expected_type
        (some r.result_digest) r.result_digest usable refl in
    rw (recheck_all, again) (recheck_all-Sound s rest sound)

-- A snapshot that `resolve` has returned passes `recheck` against the same ledger at the same
-- time.
pub resolve-recheck :
    (s : DependencyService) (id : NodeId) (snapshot : DependencySnapshot)
    → resolve s id ≡ ok snapshot
    → recheck s snapshot ≡ ok tt
unfolding recheck
resolve-recheck s id snapshot h =
    let (node, known, deps, sound) = resolve-Sound s id snapshot h in
    rw (recheck_all-Sound s snapshot.resolved sound) refl
