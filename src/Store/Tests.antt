-- ===== src/Store/Tests.antt =====
-- A ledger with a graph of two nodes, one of which is accepted, and the theorems about the store
-- at it.
use checkspan.Common.{
  ℕ, ◌+◌, ◌<◌, true, none, some, [], ◌∷◌, ◌≡◌, refl, Text, text, ok, arith, list_beq, option_beq,
  find, keep, any, Memᴰ, ◌==◌, nat_eq, list_eq,
}
use checkspan.Common.Json.{get}
use checkspan.Contracts.Refs.{graph_ref_beq, node_ref_beq}
use checkspan.Contracts.Node.{NodeSpec, Dependency}
use checkspan.Contracts.Graph.{GraphSpec, GraphRun, graph_ref}
use checkspan.Contracts.Attempt.{Attempt, VerifierReceipt, completed, accept, local_controller}
use checkspan.State.Event.{kind_receipt, kind_run_created}
use checkspan.State.Tests.{sample_spec, sample_node, sample_type, sample_policy, node_a}
use checkspan.Store.Rows.{StoredEvent, ClaimRow}
use checkspan.Store.Tables.{
  Db, empty_db, graph_exists, run_exists, attempt_exists, receipt_exists, read_receipt,
  payload_receipt, load_graph,
}
use checkspan.Store.Writes.{
  Host, len_checked, trigger_allows, names_receipt, append_event, insert_attempt, insert_receipt,
  insert_claim, release_claim, released, max_fence, next_fence,
}
use checkspan.Store.Ops.{put_graph, put_run, created_payload, admitted_payload}
use checkspan.Store.Steps.{Step, Steps}
use checkspan.Store.Consistency.{IsConsistent, Steps-IsConsistent}
use checkspan.Store.AppendOnly.{OnlyAppends, Steps-OnlyAppends, admission_backed}
use checkspan.Store.Claims.{next_fence_issues}

abbrev pub sample_host : Host
sample_host = record {
  value_len = λ _. 10;
  spec_len = λ _. 500;
  run_len = λ _. 100;
  attempt_len = λ _. 300;
  receipt_len = λ _. 300;
  packet_len = λ _. 300;
  decision_len = λ _. 300;
  spec_digest = λ _. ok (text "sha256:0a");
  stamp = λ _. text "2026-01-01T00:00:00.000Z";
}

abbrev pub on_a : Dependency
on_a = record { node = node_a; output_port = text "result"; expected_type = sample_type }

abbrev pub node_b_spec : NodeSpec
node_b_spec = record (sample_node (text "b")) { deps = on_a ∷ [] }

abbrev pub linked_spec : GraphSpec
linked_spec = record sample_spec { nodes = sample_node (text "a") ∷ node_b_spec ∷ [] }

abbrev pub sample_graph_run : GraphRun
sample_graph_run = record {
  run_id = text "run";
  graph_ref = graph_ref linked_spec;
  budget_lineage_ref = none;
  admitted_imports = [];
}

abbrev pub attempt_a : Attempt
attempt_a = record {
  run_id = text "run";
  node = node_a;
  number = 1;
  owner = text "controller";
  started_at = text "2026-01-01T00:00:00Z";
  finished_at = some (text "2026-01-01T00:01:00Z");
  repair_hint = none;
  input_manifest = [];
  dependency_receipts = [];
  result = some (record {
    result_type = sample_type;
    artifact_ref = text "out/a";
    digest = text "sha256:02";
  });
  produced_evidence = [];
  execution = some (record { outcome = completed; error_code = none; error_text = none });
  verifier_receipt = none;
}

abbrev pub verdict_a : VerifierReceipt
verdict_a = record {
  id = text "r1";
  attempt = record { run_id = text "run"; node = node_a; number = 1 };
  subject = text "a";
  result_digest = text "sha256:02";
  context_digest = text "sha256:03";
  verifier = record { id = text "verifier"; version = 1; digest = text "sha256:01" };
  policy_ref = sample_policy;
  verdict = accept;
  reason_code = none;
  reason_text = none;
  retry_hint = none;
  checked_at = text "2026-01-01T00:02:00Z";
  validity = record { valid_until = none; conditions = [] };
  provenance = record {
    level = local_controller;
    issuer = text "controller";
    attestation_ref = none;
  };
}

abbrev pub with_graph : Db
with_graph = record empty_db {
  graphs =
      record {
        graph_ref = graph_ref linked_spec;
        spec_digest = text "sha256:0a";
        spec = linked_spec;
      }
      ∷ [];
}

abbrev pub created : StoredEvent
created = record {
  seq = 1;
  run_id = text "run";
  node_id = none;
  kind = kind_run_created;
  payload = created_payload sample_graph_run;
  recorded_at = text "2026-01-01T00:00:00.000Z";
}

abbrev admitted : StoredEvent
admitted = record {
  seq = 2;
  run_id = text "run";
  node_id = some (text "a");
  kind = kind_receipt;
  payload = admitted_payload verdict_a;
  recorded_at = text "2026-01-01T00:00:00.000Z";
}

abbrev pub ledger : Db
ledger = record with_graph {
  runs = sample_graph_run ∷ [];
  events = created ∷ admitted ∷ [];
  last_seq = 2;
  attempts = attempt_a ∷ [];
  receipts = verdict_a ∷ [];
}

-- The functions of the store, opened for the tests.
unfoldable pub store_runs : Unit {0}
unfolding list_beq option_beq find keep any get graph_ref_beq node_ref_beq graph_exists run_exists
    attempt_exists receipt_exists read_receipt payload_receipt load_graph len_checked trigger_allows
    names_receipt append_event insert_attempt insert_receipt insert_claim release_claim released
    max_fence next_fence put_graph put_run
store_runs = tt

graph_stored : Steps sample_host empty_db with_graph
unfolding store_runs
graph_stored = Steps.and_then Steps.none_yet (
    Step.graph_put linked_spec (text "sha256:0a")
      (record { graph_ref = graph_ref linked_spec; digest = text "sha256:0a"; inserted = true })
      refl refl)

ledger_reached : Steps sample_host empty_db ledger
unfolding store_runs
ledger_reached =
    Steps.and_then
      (Steps.and_then
        (Steps.and_then
          (Steps.and_then
            (Steps.and_then graph_stored (
              Step.run_put {next = record with_graph { runs = sample_graph_run ∷ [] }}
                sample_graph_run refl refl))
            (Step.event_appended
              {next = record with_graph {
                runs = sample_graph_run ∷ [];
                events = created ∷ [];
                last_seq = 1;
              }}
              (text "run") none kind_run_created (created_payload sample_graph_run) 1 refl))
          (Step.attempt_inserted
            {next = record with_graph {
              runs = sample_graph_run ∷ [];
              events = created ∷ [];
              last_seq = 1;
              attempts = attempt_a ∷ [];
            }}
            attempt_a refl))
        (Step.receipt_inserted {next = record ledger { events = created ∷ []; last_seq = 1 }}
          verdict_a refl))
      (Step.event_appended (text "run") (some (text "a")) kind_receipt (admitted_payload verdict_a)
        2 refl)

Steps-IsConsistent_example : IsConsistent sample_host ledger
Steps-IsConsistent_example = Steps-IsConsistent sample_host ledger ledger_reached

ledger-IsConsistent : IsConsistent sample_host ledger
ledger-IsConsistent = Steps-IsConsistent sample_host ledger ledger_reached

Steps-OnlyAppends_example : OnlyAppends empty_db ledger
Steps-OnlyAppends_example = Steps-OnlyAppends sample_host ledger_reached

admission_backed_example :
    (id : Text) × (payload_receipt (get (text "receipt_id") admitted.payload) ≡ some id)
    × (r : VerifierReceipt) × (read_receipt ledger (text "run") id ≡ some r)
    × (attempt_exists ledger r.attempt.run_id r.attempt.node.node_id r.attempt.number ≡ true)
admission_backed_example =
    admission_backed sample_host ledger admitted ledger_reached (Memᴰ.tail (Memᴰ.head refl)) refl

abbrev claim_a : ℕ → ℕ → ClaimRow
claim_a number fence = record {
  run_id = text "run";
  node_id = text "a";
  number = number;
  owner = text "controller";
  fence = fence;
  dependency_receipts = [];
  resources = [];
  active = true;
  release = none;
  claimed_at = text "2026-01-01T00:00:00.000Z";
  released_at = none;
}

abbrev claimed : Db
claimed = record ledger { claims = claim_a 1 4 ∷ [] }

next_fence_issues_example :
    ((old : ClaimRow) → Memᴰ old claimed.claims → (old.run_id == text "run") ≡ true → old.fence < 5)
    × (next : Db) × (insert_claim sample_host claimed (claim_a 2 5) ≡ ok next)
    × (next_fence next (text "run") ≡ 5 + 1)
unfolding store_runs
next_fence_issues_example =
    next_fence_issues sample_host claimed (claim_a 2 5) refl (omega arith) refl refl
