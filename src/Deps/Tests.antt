-- ===== src/Deps/Tests.antt =====
-- A run in which one node is accepted and the other depends on it.
use checkspan.Common.{
  ℕ, none, some, [], ◌∷◌, map, ◌≡◌, refl, text, ok, contains, lookup, All, Memᴰ, get_elem?,
}
use checkspan.Contracts.Refs.{type_ref_beq, ReceiptRef}
use checkspan.Contracts.View.{NodeStatus}
use checkspan.Contracts.Node.{NodeSpec, Dependency}
use checkspan.Contracts.Graph.{find_node}
use checkspan.State.Node.{open_state, NodeState}
use checkspan.State.Run.{RunState, refs_of}
use checkspan.State.Tests.{sample_type, node_a, receipt_a}
use checkspan.Store.Tests.{ledger, linked_spec, sample_graph_run, store_runs, on_a}
use checkspan.Store.Tables.{read_attempt, read_revoked}
use checkspan.Deps.Service.{
  DependencyService, DependencySnapshot, same_run, admissible, check_time, check_digest,
  resolve_accepted, resolve_other, resolve_from, resolve_one, resolve_all, resolve_node, resolve,
  recheck_all, recheck, find_pinned, check_pinned, pinned_errors, extra_errors, recheck_node,
  recheck_refs,
}
use checkspan.Deps.Soundness.{Usable, admissible_sound, admissible_complete}
use checkspan.Deps.Snapshot.{Sound, resolve-Sound, resolve-recheck}
use checkspan.Deps.Pinned.{Pinned, recheck_refs_sound}

abbrev pub state_accepted : NodeState
state_accepted = record open_state {
  status = NodeStatus.accepted;
  current_attempt = some 1;
  attempts_started = 1;
  receipt = some receipt_a;
}

abbrev pub accepted_run : RunState
accepted_run = record {
  run_id = text "run";
  nodes = refs_of linked_spec;
  states = (text "b", open_state) ∷ (text "a", state_accepted) ∷ [];
}

abbrev service : DependencyService
service = record {
  spec = linked_spec;
  run = sample_graph_run;
  state = accepted_run;
  store = ledger;
  now = text "2026-01-02T00:00:00Z";
}

abbrev snapshot_b : DependencySnapshot
snapshot_b = record {
  node = text "b";
  resolved =
      record {
        dependency = on_a;
        receipt = receipt_a;
        provenance = same_run;
        result_digest = text "sha256:02";
      }
      ∷ [];
}

unfoldable pub deps_run : Unit {0}
unfolding store_runs contains lookup type_ref_beq read_attempt read_revoked check_time check_digest
    admissible resolve_accepted resolve_other resolve_from resolve_one resolve_all resolve_node
    resolve recheck_all recheck find_pinned check_pinned pinned_errors extra_errors recheck_node
    recheck_refs
deps_run = tt

Usable-a : Usable service receipt_a node_a sample_type (text "sha256:02")
unfolding deps_run
Usable-a = (admissible_sound service receipt_a node_a sample_type none (text "sha256:02") refl).0

admissible_a :
    admissible service receipt_a node_a sample_type (some (text "sha256:02"))
    ≡ ok (text "sha256:02")
admissible_a =
    admissible_complete service receipt_a node_a sample_type (some (text "sha256:02"))
      (text "sha256:02") Usable-a refl

resolve-Sound_example :
    (node : NodeSpec) × (find_node (text "b") service.spec.nodes ≡ some node)
    × (map (λ r. r.dependency) snapshot_b.resolved ≡ node.deps)
    × All (Sound service) snapshot_b.resolved
unfolding deps_run
resolve-Sound_example = resolve-Sound service (text "b") snapshot_b refl

resolve-recheck_example : recheck service snapshot_b ≡ ok tt
unfolding deps_run
resolve-recheck_example = resolve-recheck service (text "b") snapshot_b refl

recheck_refs_sound_example :
    (node : NodeSpec) × (find_node (text "b") service.spec.nodes ≡ some node)
    × All (Pinned service (receipt_a ∷ [])) node.deps
    × ((k : ℕ) (r : ReceiptRef)
        → get_elem? (receipt_a ∷ []) k ≡ some r
        → (dep : Dependency) × Memᴰ dep node.deps
          × (find_pinned dep.node 0 (receipt_a ∷ []) ≡ some (k, r)))
unfolding deps_run
recheck_refs_sound_example = recheck_refs_sound service (text "b") (receipt_a ∷ []) refl
