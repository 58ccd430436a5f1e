-- ===== src/Deps/Service.antt =====
-- src/deps/mod.rs: `DependencyService` and the blockers that it reports. The reads of the ledger do
-- not fail here, so `Blocker::Store` has no constructor.
use checkspan.Common.{
  ℕ, suc, Bool, true, not, Option, none, some, List, [], ◌∷◌, ◌++◌, map, ◌==◌, nat_eq, list_eq,
  option_eq, find, contains, Result, ok, err, ◌>>=◌, or_fail, if◌then◌else◌, lookup,
}
use checkspan.Contracts.Ids.{Digest, NodeId}
use checkspan.Contracts.Time.{Timestamp, is_before}
use checkspan.Contracts.Refs.{NodeRef, node_ref_eq, ReceiptRef, TypeRef, type_ref_eq}
use checkspan.Contracts.Node.{NodeSpec, Dependency}
use checkspan.Contracts.Graph.{GraphSpec, GraphRun, ImportedReceipt, find_node}
use checkspan.Contracts.Attempt.{Verdict, verdict_eq}
use checkspan.Contracts.View.{NodeStatus, node_status_eq}
use checkspan.State.Node.{NodeState}
use checkspan.State.Run.{RunState, node_state}
use checkspan.Store.Tables.{Db, read_receipt, read_attempt, read_revoked}

pub data Provenance : Type 0 where
  same_run imported : Provenance

pub record ResolvedDependency : Type 0 where
  pub dependency : Dependency
  pub receipt : ReceiptRef
  pub provenance : Provenance
  pub result_digest : Digest

pub record DependencySnapshot : Type 0 where
  pub node : NodeId
  pub resolved : List ResolvedDependency

abbrev pub receipt_refs : DependencySnapshot → List ReceiptRef
receipt_refs s = map (λ r. r.receipt) s.resolved

pub data Blocker : Type 0 where
  not_accepted : NodeId → NodeStatus → Blocker
  no_receipt : NodeId → Blocker
  receipt_missing : ReceiptRef → Blocker
  not_an_acceptance : ReceiptRef → Verdict → Blocker
  node_mismatch : NodeRef → NodeRef → Blocker
  attempt_missing no_result : ReceiptRef → Blocker
  result_type_mismatch : TypeRef → TypeRef → Blocker
  subject_mismatch : Digest → Digest → Blocker
  expired : ReceiptRef → Timestamp → Blocker
  revoked : ReceiptRef → Blocker
  unknown_node : NodeId → Blocker

pub record DependencyService : Type 0 where
  pub spec : GraphSpec
  pub run : GraphRun
  pub state : RunState
  pub store : Db
  pub now : Timestamp

abbrev pub require : Bool → Blocker → Result (Unit {0}) Blocker
require b e = if b then ok tt else err e

-- `!self.now.is_before(valid_until)` turned around, where a time is given.
unfoldable pub in_time : Timestamp → Option Timestamp → Bool
unfolding is_before
in_time now none = true
in_time now (some valid_until) = is_before now valid_until

unfoldable pub check_time : Timestamp → ReceiptRef → Option Timestamp → Result (Unit {0}) Blocker
unfolding is_before
check_time now r none = ok tt
check_time now r (some valid_until) = require (is_before now valid_until) (expired r valid_until)

unfoldable pub check_digest : Option Digest → Digest → Result (Unit {0}) Blocker
check_digest none found = ok tt
check_digest (some expected) found = require (expected == found) (subject_mismatch expected found)

unfoldable pub admissible :
    DependencyService → ReceiptRef → NodeRef → TypeRef → Option Digest → Result Digest Blocker
unfolding check_time check_digest contains
admissible s r expected_node expected_type expected_digest = do
  receipt ← or_fail (read_receipt s.store r.run_id r.id) (receipt_missing r)
  _ ← require (receipt.verdict == Verdict.accept) (not_an_acceptance r receipt.verdict)
  _ ←
      require (receipt.attempt.node == expected_node)
        (node_mismatch expected_node receipt.attempt.node)
  attempt ←
      or_fail
        (read_attempt s.store receipt.attempt.run_id receipt.attempt.node.node_id
          receipt.attempt.number)
        (attempt_missing r)
  result ← or_fail attempt.result (no_result r)
  _ ←
      require (result.result_type == expected_type)
        (result_type_mismatch expected_type result.result_type)
  _ ←
      require (result.digest == receipt.result_digest)
        (subject_mismatch result.digest receipt.result_digest)
  _ ← check_digest expected_digest receipt.result_digest
  _ ← check_time s.now r receipt.validity.valid_until
  _ ← require (not (contains (read_revoked s.store r.run_id) r.id)) (revoked r)
  ok receipt.result_digest

abbrev pub status_of : Option NodeState → NodeStatus
status_of none = NodeStatus.opened
status_of (some state) = state.status

abbrev pub accepted_state : Option NodeState → Option NodeState
accepted_state none = none
accepted_state (some state) = if state.status == NodeStatus.accepted then some state else none

abbrev pub find_import : NodeId → List ImportedReceipt → Option ImportedReceipt
find_import id imports = find (λ i. i.node_id == id) imports

unfoldable pub resolve_import :
    DependencyService → Dependency → ImportedReceipt → Result ResolvedDependency Blocker
unfolding check_time admissible
resolve_import s dep import = do
  _ ← check_time s.now import.receipt import.valid_until
  _ ←
      require (import.result_type == dep.expected_type)
        (result_type_mismatch dep.expected_type import.result_type)
  digest ← admissible s import.receipt dep.node dep.expected_type (some import.result_digest)
  ok (record {
    dependency = dep;
    receipt = import.receipt;
    provenance = imported;
    result_digest = digest;
  })

unfoldable pub resolve_accepted :
    DependencyService → Dependency → NodeState → Result ResolvedDependency Blocker
unfolding admissible
resolve_accepted s dep state = do
  receipt ← or_fail state.receipt (no_receipt dep.node.node_id)
  digest ← admissible s receipt dep.node dep.expected_type none
  ok (record { dependency = dep; receipt = receipt; provenance = same_run; result_digest = digest })

unfoldable pub resolve_other :
    DependencyService → Dependency → Option ImportedReceipt → Result ResolvedDependency Blocker
unfolding resolve_import
resolve_other s dep (some import) = resolve_import s dep import
resolve_other s dep none =
    err (not_accepted dep.node.node_id (status_of (node_state s.state dep.node.node_id)))

unfoldable pub resolve_from :
    DependencyService → Dependency → Option NodeState → Result ResolvedDependency Blocker
unfolding resolve_accepted resolve_other find
resolve_from s dep (some state) = resolve_accepted s dep state
resolve_from s dep none = resolve_other s dep (find_import dep.node.node_id s.run.admitted_imports)

unfoldable pub resolve_one : DependencyService → Dependency → Result ResolvedDependency Blocker
unfolding resolve_from find lookup
resolve_one s dep = do
  _ ← or_fail (find_node dep.node.node_id s.spec.nodes) (unknown_node dep.node.node_id)
  resolve_from s dep (accepted_state (node_state s.state dep.node.node_id))

-- The loop of `resolve`: what resolved, and what blocks.
unfoldable pub resolve_all :
    DependencyService → List Dependency → List ResolvedDependency × List Blocker
unfolding resolve_one
resolve_all s [] = ([], [])
resolve_all s (dep ∷ deps) =
    let (resolved, blockers) = resolve_all s deps in
    elim (resolve_one s dep) [ ok r ↦ (r ∷ resolved, blockers) | err b ↦ (resolved, b ∷ blockers) ]

-- `if blockers.is_empty() { Ok(value) } else { Err(blockers) }`
abbrev pub unless_blocked {ℓ} : {A : Type ℓ} → A → List Blocker → Result A (List Blocker)
unless_blocked a [] = ok a
unless_blocked a (b ∷ bs) = err (b ∷ bs)

unfoldable pub resolve_node :
    DependencyService → NodeId → Option NodeSpec → Result DependencySnapshot (List Blocker)
unfolding resolve_all
resolve_node s id none = err (unknown_node id ∷ [])
resolve_node s id (some node) =
    let (resolved, blockers) = resolve_all s node.deps in
    unless_blocked (record { node = id; resolved = resolved }) blockers

unfoldable pub resolve : DependencyService → NodeId → Result DependencySnapshot (List Blocker)
unfolding resolve_node find
resolve s id = resolve_node s id (find_node id s.spec.nodes)

unfoldable pub recheck_all : DependencyService → List ResolvedDependency → List Blocker
unfolding admissible
recheck_all s [] = []
recheck_all s (r ∷ rest) =
    let later = recheck_all s rest in
    elim (admissible s r.receipt r.dependency.node r.dependency.expected_type
      (some r.result_digest)) [ ok _ ↦ later | err b ↦ b ∷ later ]

unfoldable pub recheck : DependencyService → DependencySnapshot → Result (Unit {0}) (List Blocker)
unfolding recheck_all
recheck s snapshot = unless_blocked tt (recheck_all s snapshot.resolved)

-- `pinned.iter().enumerate().find(|(_, r)| r.node == dep.node)`
unfoldable pub find_pinned : NodeRef → ℕ → List ReceiptRef → Option (ℕ × ReceiptRef)
find_pinned node i [] = none
find_pinned node i (r ∷ rest) =
    if r.node == node then some (i, r) else find_pinned node (suc i) rest

abbrev pub error_of : Result Digest Blocker → List Blocker
error_of (ok _) = []
error_of (err b) = b ∷ []

unfoldable pub check_pinned :
    DependencyService → Dependency → Option (ℕ × ReceiptRef) → List Blocker
unfolding admissible lookup
check_pinned s dep none =
    not_accepted dep.node.node_id (status_of (node_state s.state dep.node.node_id)) ∷ []
check_pinned s dep (some (i, receipt)) =
    error_of (admissible s receipt dep.node dep.expected_type none)

abbrev pub index_of : Option (ℕ × ReceiptRef) → List ℕ
index_of none = []
index_of (some (i, receipt)) = i ∷ []

-- The first loop of `recheck_refs`, with the set `used`.
unfoldable pub pinned_errors :
    DependencyService → List ReceiptRef → List Dependency → List Blocker × List ℕ
unfolding check_pinned find_pinned
pinned_errors s pinned [] = ([], [])
pinned_errors s pinned (dep ∷ deps) =
    let found = find_pinned dep.node 0 pinned in
    let (blockers, used) = pinned_errors s pinned deps in
    (check_pinned s dep found ++ blockers, index_of found ++ used)

-- Its second loop.
unfoldable pub extra_errors : NodeRef → List ℕ → ℕ → List ReceiptRef → List Blocker
unfolding contains
extra_errors own used i [] = []
extra_errors own used i (extra ∷ rest) =
    (if contains used i then [] else node_mismatch own extra.node ∷ [])
    ++ extra_errors own used (suc i) rest

unfoldable pub recheck_node :
    DependencyService
    → NodeId
    → List ReceiptRef
    → Option NodeSpec
    → Result (Unit {0}) (List Blocker)
unfolding pinned_errors extra_errors
recheck_node s id pinned none = err (unknown_node id ∷ [])
recheck_node s id pinned (some node) =
    let (blockers, used) = pinned_errors s pinned node.deps in
    let own : NodeRef = record {
      graph_id = s.spec.graph_id;
      node_id = id;
      revision = node.revision;
    } in
    unless_blocked tt (blockers ++ extra_errors own used 0 pinned)

unfoldable pub recheck_refs :
    DependencyService → NodeId → List ReceiptRef → Result (Unit {0}) (List Blocker)
unfolding recheck_node find
recheck_refs s id pinned = recheck_node s id pinned (find_node id s.spec.nodes)
