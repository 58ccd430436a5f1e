-- ===== src/Contracts/Graph.antt =====
-- src/contracts/graph.rs: graph revisions, runs, and the identity rules of both.
use checkspan.Common.{
  ℕ, not, Option, none, some, List, [], ◌∷◌, ◌++◌, map, Text, ◌==◌, nat_eq, list_eq, option_eq,
  when, is_empty, repeated, contains, find, leb, if◌then◌else◌,
}
use checkspan.Contracts.Ids.{Digest, GraphId, NodeId, RunId}
use checkspan.Contracts.Time.{Timestamp}
use checkspan.Contracts.Refs.{GraphRef, NodeRef, node_ref_eq, ReceiptRef, TypeRef}
use checkspan.Contracts.Node.{NodeSpec}

pub record GraphBudget : Type 0 where
  pub total_attempts : ℕ
  pub deadline : Option Timestamp

pub record GraphSpec : Type 0 where
  pub graph_id : GraphId
  pub revision : ℕ
  pub display_name : Option Text
  pub nodes : List NodeSpec
  pub targets : List NodeRef
  pub budget : GraphBudget
  pub supersedes : Option GraphRef

pub record ImportedReceipt : Type 0 where
  pub node_id : NodeId
  pub receipt : ReceiptRef
  pub result_digest : Digest
  pub result_type : TypeRef
  pub subject : Text
  pub admitted_at : Timestamp
  pub valid_until : Option Timestamp

pub record GraphRun : Type 0 where
  pub run_id : RunId
  pub graph_ref : GraphRef
  pub budget_lineage_ref : Option RunId
  pub admitted_imports : List ImportedReceipt

pub data IdentityError : Type 0 where
  duplicate_node_id : NodeId → IdentityError
  no_targets : IdentityError
  duplicate_target : NodeRef → IdentityError
  foreign_target : NodeRef → IdentityError
  unknown_target : NodeRef → IdentityError
  target_revision_mismatch : NodeRef → ℕ → IdentityError
  supersedes_foreign_graph : GraphRef → IdentityError
  supersedes_not_earlier : GraphRef → IdentityError
  zero_attempt_budget : IdentityError
  self_lineage : RunId → IdentityError
  duplicate_import : NodeId → IdentityError
  self_import : NodeId → IdentityError

abbrev pub graph_ref : GraphSpec → GraphRef
graph_ref g = record { graph_id = g.graph_id; revision = g.revision }

-- `self.nodes.iter().find(|n| &n.id == id)`
abbrev pub find_node : NodeId → List NodeSpec → Option NodeSpec
find_node id nodes = find (λ n. n.id == id) nodes

abbrev pub ref_of : GraphId → NodeSpec → NodeRef
ref_of graph_id n = record { graph_id = graph_id; node_id = n.id; revision = n.revision }

-- `GraphSpec::node_ref`
unfoldable pub node_ref : GraphSpec → NodeId → Option NodeRef
node_ref g id = elim (find_node id g.nodes) [ none ↦ none | some n ↦ some (ref_of g.graph_id n) ]

-- A target that is neither a repetition nor of another graph.
target_error : NodeRef → Option NodeSpec → List IdentityError
target_error t none = unknown_target t ∷ []
target_error t (some n) =
    when (not (n.revision == t.revision)) (target_revision_mismatch t n.revision)

-- The loop over `targets`, with the set `seen_targets`.
target_errors : GraphSpec → List NodeRef → List NodeRef → List IdentityError
unfolding target_error
target_errors g seen [] = []
target_errors g seen (t ∷ ts) =
    let rest = target_errors g (if contains seen t then seen else t ∷ seen) ts in
    if contains seen t
    then duplicate_target t ∷ rest
    else if not (t.graph_id == g.graph_id)
    then foreign_target t ∷ rest
    else target_error t (find_node t.node_id g.nodes) ++ rest

graph_supersedes_errors : GraphSpec → Option GraphRef → List IdentityError
graph_supersedes_errors g none = []
graph_supersedes_errors g (some prev) =
    if not (prev.graph_id == g.graph_id)
    then supersedes_foreign_graph prev ∷ []
    else when (leb g.revision prev.revision) (supersedes_not_earlier prev)

-- `GraphSpec::check_identity`
unfoldable pub check_identity : GraphSpec → List IdentityError
unfolding target_errors graph_supersedes_errors
check_identity g =
    map duplicate_node_id (repeated (map (λ n. n.id) g.nodes))
    ++ (when (is_empty g.targets) no_targets
        ++ (target_errors g [] g.targets
            ++ (graph_supersedes_errors g g.supersedes
                ++ when (g.budget.total_attempts == 0) zero_attempt_budget)))

-- The loop over `admitted_imports`, with the set `seen`.
import_errors : GraphRun → List NodeId → List ImportedReceipt → List IdentityError
import_errors r seen [] = []
import_errors r seen (i ∷ is) =
    when (contains seen i.node_id) (duplicate_import i.node_id)
    ++ (when (i.receipt.run_id == r.run_id) (self_import i.node_id)
        ++ import_errors r (if contains seen i.node_id then seen else i.node_id ∷ seen) is)

-- `GraphRun::check_identity`
unfoldable pub check_run_identity : GraphRun → List IdentityError
unfolding import_errors
check_run_identity r =
    when (r.budget_lineage_ref == some r.run_id) (self_lineage r.run_id)
    ++ import_errors r [] r.admitted_imports
