-- ===== src/Receipts/Issue.antt =====
-- src/receipts/mod.rs: `issue`, with `VerifierResponse` of src/verifier_host/mod.rs. The reports on
-- single checks, which nothing here reads, are left out of the response.
use checkspan.Common.{
  Bool, Option, none, some, Text, ◌==◌, nat_eq, list_eq, if◌then◌else◌, Result, ok, err, ◌>>=◌,
  map_err,
}
use checkspan.Contracts.Ids.{Ident, Digest}
use checkspan.Contracts.Time.{Timestamp}
use checkspan.Contracts.Refs.{AttemptRef, attempt_ref_eq, VerifierRef, verifier_ref_eq}
use checkspan.Contracts.Node.{NodeSpec}
use checkspan.Contracts.Attempt.{
  Attempt, Execution, ResultRef, Verdict, Validity, VerifierReceipt, attempt_ref, completed,
  execution_outcome_eq, local_controller,
}
use checkspan.Digests.Envelope.{CanonicalError}
use checkspan.Digests.Bound.{Writer, input_manifest_digest, context_digest}

pub record VerifierResponse : Type 0 where
  pub verifier : VerifierRef
  pub attempt : AttemptRef
  pub verdict : Verdict
  pub reason_code : Option Ident
  pub reason_text : Option Text

pub data IssueError : Type 0 where
  wrong_attempt wrong_verifier not_completed : IssueError
  canonical : CanonicalError → IssueError

abbrev pub only_if : {E : Type 0} → Bool → E → Result (Unit {0}) E
only_if b e = if b then ok tt else err e

-- The match on `(&attempt.execution, &attempt.result)`.
unfoldable pub completed_result : Option Execution → Option ResultRef → Option ResultRef
completed_result (some execution) (some result) =
    if execution.outcome == completed then some result else none
completed_result (some execution) none = none
completed_result none result = none

-- The context that a verdict on a sealed attempt is bound to.
unfoldable pub context_of :
    Writer → AttemptRef → NodeSpec → Attempt → ResultRef → Result Digest CanonicalError
unfolding input_manifest_digest context_digest
context_of w reference node attempt result =
    input_manifest_digest w attempt.input_manifest attempt.dependency_receipts >>= λ manifest.
    context_digest w (record {
      attempt = reference;
      node = node;
      input_manifest_digest = manifest;
      dependency_receipts = attempt.dependency_receipts;
      result_digest = result.digest;
      produced_evidence = attempt.produced_evidence;
    })

-- `result.ok_or(NotCompleted)`
abbrev pub expect_result : {E : Type 0} → Option ResultRef → E → Result ResultRef E
expect_result none e = err e
expect_result (some r) e = ok r

unfoldable pub issue :
    Writer
    → VerifierResponse
    → NodeSpec
    → Attempt
    → (receipt_id : Ident) → (subject issuer : Text) → (checked_at : Timestamp) → Validity
    → Result VerifierReceipt IssueError
unfolding completed_result context_of
issue w response node attempt receipt_id subject issuer checked_at validity = do
  _ ← only_if (response.attempt == attempt_ref attempt) wrong_attempt
  _ ← only_if (response.verifier == node.acceptance.verifier) wrong_verifier
  result ← expect_result (completed_result attempt.execution attempt.result) not_completed
  context ← map_err canonical (context_of w response.attempt node attempt result)
  ok (record {
    id = receipt_id;
    attempt = response.attempt;
    subject = subject;
    result_digest = result.digest;
    context_digest = context;
    verifier = node.acceptance.verifier;
    policy_ref = node.acceptance.policy_ref;
    verdict = response.verdict;
    reason_code = response.reason_code;
    reason_text = response.reason_text;
    retry_hint = none;
    checked_at = checked_at;
    validity = validity;
    provenance = record { level = local_controller; issuer = issuer; attestation_ref = none };
  })
