-- ===== src/Receipts/Tests.antt =====
-- The receipt of a sealed attempt, issued and admitted, and the theorems about receipts at it.
use checkspan.Common.{none, some, [], ◌≡◌, ◌⊎◌, refl, Text, text, ok, err, map_err, is_blank}
use checkspan.Contracts.Refs.{attempt_ref_beq, verifier_ref_beq, policy_ref_beq, node_ref_beq}
use checkspan.Contracts.Attempt.{
  Attempt, VerifierReceipt, Validity, accept, local_controller, attempt_ref, check_receipt,
}
use checkspan.State.Run.{RunState, new_run, replay_run}
use checkspan.Store.Tables.{Db, read_events, read_receipt, read_attempt}
use checkspan.Store.Ops.{admit_receipt, write, transaction}
use checkspan.Store.Tests.{sample_host, linked_spec, sample_graph_run, attempt_a}
use checkspan.State.Tests.{sample_node, sample_type}
use checkspan.Scheduler.Finish.{complete}
use checkspan.Scheduler.Tests.{scheduler_runs, scheduler, claimed_db, claim_on_a, now}
use checkspan.Digests.Tests.{sample_writer}
use checkspan.Receipts.Issue.{VerifierResponse, issue, completed_result, context_of}
use checkspan.Contracts.Ids.{new_digest}
use checkspan.Deps.Service.{recheck_refs}
use checkspan.Digests.Envelope.{
  digest_of, envelope_digest, envelope_bytes, check_envelope_numbers, walk, jcs_bytes,
  artifact_digest,
}
use checkspan.Digests.Bound.{input_manifest_digest, context_digest, manifest_of, digest_written}
use checkspan.Receipts.Admit.{
  AdmitError, admit, is_expired, own_node, subject_fits, frozen_subject, is_checking,
  recheck_accept, check_offer, check_ledger, admit_body,
}
use checkspan.Receipts.Admitted.{IsAdmission, admit-IsAdmission}
use checkspan.Receipts.Issued.{issue-admit}

abbrev result_digest : Text
result_digest = text "sha256:0000000000000000000000000000000000000000000000000000000000000000"

abbrev attempt_one : Attempt
attempt_one = record attempt_a {
  result =
      some
        (record { result_type = sample_type; artifact_ref = text "out/a"; digest = result_digest });
}

abbrev sealed_db : Db
unfolding scheduler_runs
sealed_db = (complete sample_host scheduler claimed_db claim_on_a attempt_one).1

abbrev response : VerifierResponse
response = record {
  verifier = (sample_node (text "a")).acceptance.verifier;
  attempt = attempt_ref attempt_one;
  verdict = accept;
  reason_code = none;
  reason_text = none;
}

abbrev forever : Validity
forever = record { valid_until = none; conditions = [] }

abbrev receipt : VerifierReceipt
receipt = record {
  id = text "receipt";
  attempt = attempt_ref attempt_one;
  subject = text "subject";
  result_digest = result_digest;
  context_digest = text "sha256:0a";
  verifier = (sample_node (text "a")).acceptance.verifier;
  policy_ref = (sample_node (text "a")).acceptance.policy_ref;
  verdict = accept;
  reason_code = none;
  reason_text = none;
  retry_hint = none;
  checked_at = text "2026-01-01T00:02:00Z";
  validity = forever;
  provenance = record {
    level = local_controller;
    issuer = text "verifier";
    attestation_ref = none;
  };
}

receipt_runs : Unit {0}
unfolding scheduler_runs new_digest attempt_ref_beq verifier_ref_beq policy_ref_beq node_ref_beq
    issue completed_result context_of input_manifest_digest context_digest manifest_of
    digest_written digest_of envelope_digest envelope_bytes check_envelope_numbers walk jcs_bytes
    artifact_digest check_receipt is_expired is_blank own_node read_receipt read_attempt
    subject_fits frozen_subject is_checking recheck_accept recheck_refs replay_run admit check_offer
    check_ledger admit_body admit_receipt write transaction
receipt_runs = tt

issue-receipt :
    issue sample_writer response
      (sample_node (text "a"))
      attempt_one
      (text "receipt")
      (text "subject")
      (text "verifier")
      (text "2026-01-01T00:02:00Z")
      forever
    ≡ ok receipt
unfolding receipt_runs
issue-receipt = refl

abbrev state : RunState
unfolding receipt_runs
state = elim (replay_run (text "run") linked_spec (read_events sealed_db (text "run"))) [
  | ok s ↦ s
  | err _ ↦ new_run (text "run") linked_spec
]

admit-IsAdmission_example :
    ((e : AdmitError) × (admit sample_host sample_writer linked_spec sample_graph_run receipt now
          sealed_db
        ≡ (err e, sealed_db)))
    ⊎ (((admit sample_host sample_writer linked_spec sample_graph_run receipt now sealed_db).0
          ≡ ok tt)
        × IsAdmission sample_host sample_writer linked_spec sample_graph_run receipt now sealed_db
            (admit sample_host sample_writer linked_spec sample_graph_run receipt now sealed_db).1)
admit-IsAdmission_example =
    admit-IsAdmission sample_host sample_writer linked_spec sample_graph_run receipt now sealed_db

issue-admit_example :
    admit sample_host sample_writer linked_spec sample_graph_run receipt now sealed_db ≡ (
      map_err AdmitError.store (admit_receipt sample_host sealed_db receipt).0,
      (admit_receipt sample_host sealed_db receipt).1,
    )
unfolding receipt_runs
issue-admit_example =
    issue-admit sample_writer response (sample_node (text "a")) attempt_one (text "receipt")
      (text "subject") (text "verifier") (text "2026-01-01T00:02:00Z") forever sample_host
      linked_spec sample_graph_run receipt now sealed_db state issue-receipt refl refl refl refl
      refl refl refl refl refl refl

admitted_once :
    (admit sample_host sample_writer linked_spec sample_graph_run receipt now sealed_db).0 ≡ ok tt
unfolding receipt_runs
admitted_once = refl
