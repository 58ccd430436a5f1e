-- ===== src/Contracts/Attempt.antt =====
-- src/contracts/attempt.rs and evidence.rs: attempts, evidence references and verifier receipts.
use checkspan.Common.{
  ℕ, not, ◌&&◌, Option, none, some, List, [], ◌∷◌, ◌++◌, map, ◌≡◌, arith, Text, Eq, ◌==◌, nat_eq,
  list_eq, option_eq, rank_eq, when, is_blank, is_some, is_none, repeated,
}
use checkspan.Contracts.Ids.{Ident, Digest, RunId}
use checkspan.Contracts.Time.{Timestamp}
use checkspan.Contracts.Refs.{
  NodeRef, node_ref_eq, AttemptRef, attempt_ref_eq, ReceiptRef, TypeRef, VerifierRef, PolicyRef,
}

pub record Provenance : Type 0 where
  pub producer : Text
  pub attestation_ref : Option Text

pub record EvidenceRef : Type 0 where
  pub port_name : Ident
  pub locator : Text
  pub subject : Text
  pub version : Text
  pub content_digest : Digest
  pub provenance : Provenance
  pub policy_ref : PolicyRef
  pub valid_until : Option Timestamp

pub data ExecutionOutcome : Type 0 where
  completed failed timed_out cancelled : ExecutionOutcome

abbrev pub execution_outcome_rank : ExecutionOutcome → ℕ
execution_outcome_rank completed = 0
execution_outcome_rank failed = 1
execution_outcome_rank timed_out = 2
execution_outcome_rank cancelled = 3

pub execution_outcome_rank_apart :
    (a b : ExecutionOutcome) → execution_outcome_rank a ≡ execution_outcome_rank b → a ≡ b
execution_outcome_rank_apart a b h = ground arith

instance abbrev pub execution_outcome_eq : Eq ExecutionOutcome
execution_outcome_eq = rank_eq execution_outcome_rank execution_outcome_rank_apart

pub record Execution : Type 0 where
  pub outcome : ExecutionOutcome
  pub error_code : Option Ident
  pub error_text : Option Text

pub record ResultRef : Type 0 where
  pub result_type : TypeRef
  pub artifact_ref : Text
  pub digest : Digest

pub record Attempt : Type 0 where
  pub run_id : RunId
  pub node : NodeRef
  pub number : ℕ
  pub owner : Text
  pub started_at : Timestamp
  pub finished_at : Option Timestamp
  pub repair_hint : Option Text
  pub input_manifest : List EvidenceRef
  pub dependency_receipts : List ReceiptRef
  pub result : Option ResultRef
  pub produced_evidence : List EvidenceRef
  pub execution : Option Execution
  pub verifier_receipt : Option ReceiptRef

pub data AttemptError : Type 0 where
  empty_owner finished_without_execution execution_without_finish : AttemptError
  result_without_execution receipt_without_result : AttemptError
  receipt_requires_completed_execution : Option ExecutionOutcome → AttemptError
  receipt_for_other_node : ReceiptRef → AttemptError
  receipt_for_other_run : ReceiptRef → AttemptError
  duplicate_dependency_receipt : Ident → AttemptError
  duplicate_input_port : Ident → AttemptError

abbrev pub attempt_ref : Attempt → AttemptRef
attempt_ref a = record { run_id = a.run_id; node = a.node; number = a.number }

abbrev pub outcome_of : Option Execution → Option ExecutionOutcome
outcome_of none = none
outcome_of (some e) = some e.outcome

finish_errors : Option Timestamp → Option Execution → List AttemptError
finish_errors (some _) none = finished_without_execution ∷ []
finish_errors none (some _) = execution_without_finish ∷ []
finish_errors _ _ = []

verifier_receipt_errors : Attempt → Option ReceiptRef → List AttemptError
verifier_receipt_errors a none = []
verifier_receipt_errors a (some r) =
    when (is_none a.result) receipt_without_result
    ++ (when (not (outcome_of a.execution == some completed))
          (receipt_requires_completed_execution (outcome_of a.execution))
        ++ (when (not (r.node == a.node)) (receipt_for_other_node r)
            ++ when (not (r.run_id == a.run_id)) (receipt_for_other_run r)))

-- `Attempt::check_bindings`
unfoldable pub check_attempt : Attempt → List AttemptError
unfolding finish_errors verifier_receipt_errors
check_attempt a =
    when (is_blank a.owner) empty_owner
    ++ (finish_errors a.finished_at a.execution
        ++ (when (is_some a.result && is_none a.execution) result_without_execution
            ++ (verifier_receipt_errors a a.verifier_receipt
                ++ (map duplicate_dependency_receipt
                      (repeated (map (λ r. r.id) a.dependency_receipts))
                    ++ map duplicate_input_port
                        (repeated (map (λ e. e.port_name) a.input_manifest))))))

pub data Verdict : Type 0 where
  accept reject undecidable : Verdict

abbrev pub verdict_rank : Verdict → ℕ
verdict_rank accept = 0
verdict_rank reject = 1
verdict_rank undecidable = 2

pub verdict_rank_apart : (a b : Verdict) → verdict_rank a ≡ verdict_rank b → a ≡ b
verdict_rank_apart a b h = ground arith

instance abbrev pub verdict_eq : Eq Verdict
verdict_eq = rank_eq verdict_rank verdict_rank_apart

pub data ProvenanceLevel : Type 0 where
  local_controller authenticated_upstream signed_operator : ProvenanceLevel

pub record ReceiptProvenance : Type 0 where
  pub level : ProvenanceLevel
  pub issuer : Text
  pub attestation_ref : Option Text

pub record Validity : Type 0 where
  pub valid_until : Option Timestamp
  pub conditions : List Text

pub record VerifierReceipt : Type 0 where
  pub id : Ident
  pub attempt : AttemptRef
  pub subject : Text
  pub result_digest : Digest
  pub context_digest : Digest
  pub verifier : VerifierRef
  pub policy_ref : PolicyRef
  pub verdict : Verdict
  pub reason_code : Option Ident
  pub reason_text : Option Text
  pub retry_hint : Option Text
  pub checked_at : Timestamp
  pub validity : Validity
  pub provenance : ReceiptProvenance

pub data ReceiptError : Type 0 where
  empty_subject empty_issuer : ReceiptError
  missing_reason_code : Verdict → ReceiptError
  retry_hint_on_accept : ReceiptError
  attempt_mismatch : AttemptRef → AttemptRef → ReceiptError
  attempt_has_no_result : ReceiptError
  result_digest_mismatch : Digest → Digest → ReceiptError
  attempt_not_completed : Option ExecutionOutcome → ReceiptError

abbrev pub receipt_ref : VerifierReceipt → ReceiptRef
receipt_ref r = record { id = r.id; run_id = r.attempt.run_id; node = r.attempt.node }

verdict_errors : VerifierReceipt → Verdict → List ReceiptError
verdict_errors r accept = when (is_some r.retry_hint) retry_hint_on_accept
verdict_errors r reject = when (is_none r.reason_code) (missing_reason_code reject)
verdict_errors r undecidable = when (is_none r.reason_code) (missing_reason_code undecidable)

-- `VerifierReceipt::check_bindings`
unfoldable pub check_receipt : VerifierReceipt → List ReceiptError
unfolding verdict_errors
check_receipt r =
    when (is_blank r.subject) empty_subject
    ++ (when (is_blank r.provenance.issuer) empty_issuer ++ verdict_errors r r.verdict)

result_errors : VerifierReceipt → Option ResultRef → List ReceiptError
result_errors r none = attempt_has_no_result ∷ []
result_errors r (some result) =
    when (not (result.digest == r.result_digest))
      (result_digest_mismatch result.digest r.result_digest)

-- `VerifierReceipt::binds`
unfoldable pub binds : VerifierReceipt → Attempt → List ReceiptError
unfolding result_errors
binds r a =
    when (not (r.attempt == attempt_ref a)) (attempt_mismatch (attempt_ref a) r.attempt)
    ++ (when (not (outcome_of a.execution == some completed))
          (attempt_not_completed (outcome_of a.execution))
        ++ result_errors r a.result)
