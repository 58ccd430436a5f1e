-- ===== src/Receipts/Issued.antt =====
-- src/receipts/mod.rs: a receipt that `issue` made is one that `admit` takes.
use checkspan.Common.{
  map_err_ok, true, false, Option, none, some, List, [], ◌∷◌, ◌≡◌, refl, subst, ap, ◌∙◌, ok, Result,
  >>=_ok, ok-injective, Result-cases, map_err, Text, inl, inr, ◌==◌, ==→≡, ==_self, ≡→==, is_empty,
  is_none, nat_eq, list_eq,
}
use checkspan.Contracts.Ids.{Ident}
use checkspan.Contracts.Time.{Timestamp}
use checkspan.Contracts.Refs.{AttemptRef, attempt_ref_eq, verifier_ref_eq, policy_ref_eq}
use checkspan.Contracts.Node.{NodeSpec}
use checkspan.Contracts.Graph.{GraphSpec, GraphRun}
use checkspan.Contracts.Attempt.{
  Attempt, ResultRef, Validity, VerifierReceipt, attempt_ref, check_receipt,
}
use checkspan.State.Run.{RunState, node_state, replay_run}
use checkspan.Store.Tables.{Db, read_events, read_receipt, read_attempt}
use checkspan.Store.Writes.{Host, insert_receipt}
use checkspan.Store.Ops.{write, transaction, admit_receipt, admit_receipt_body}
use checkspan.Digests.Bound.{Writer}
use checkspan.Receipts.Issue.{
  VerifierResponse, IssueError, only_if, expect_result, completed_result, context_of, issue,
  canonical,
}
use checkspan.Receipts.Admit.{
  AdmitError, frozen_subject, own_node, is_expired, subject_fits, is_checking, recheck_accept,
  check_ledger, admit_body, check_offer, admit,
}
use checkspan.Receipts.Bound.{service_on, only_if_ok, expect_ok}

-- What `issue` puts in a receipt.
record IsIssued (w : Writer) (node : NodeSpec) (attempt : Attempt) (receipt : VerifierReceipt)
    : Type 0 where
  about : receipt.attempt ≡ attempt_ref attempt
  verifier : receipt.verifier ≡ node.acceptance.verifier
  policy : receipt.policy_ref ≡ node.acceptance.policy_ref
  result : ResultRef
  completed : completed_result attempt.execution attempt.result ≡ some result
  digest : receipt.result_digest ≡ result.digest
  context : context_of w receipt.attempt node attempt result ≡ ok receipt.context_digest

module _ (w : Writer) (response : VerifierResponse) (node : NodeSpec) (attempt : Attempt)
    (id : Ident) (subject issuer : Text) (at_time : Timestamp) (validity : Validity) where
  abbrev issued : Result VerifierReceipt IssueError
  issued = issue w response node attempt id subject issuer at_time validity

  issue-IsIssued :
      (receipt : VerifierReceipt) → issued ≡ ok receipt → IsIssued w node attempt receipt
  unfolding issue
  issue-IsIssued receipt h =
      let (u, first, h₁) = >>=_ok (only_if (response.attempt == attempt_ref attempt) _) _ h in
      let (u₁, second, h₂) =
        >>=_ok (only_if (response.verifier == node.acceptance.verifier) _) _ h₁ in
      let (result, third, h₃) =
        >>=_ok (expect_result (completed_result attempt.execution attempt.result) _) _ h₂ in
      let (context, fourth, last) =
        >>=_ok (map_err canonical (context_of w response.attempt node attempt result)) _ h₃ in
      subst (IsIssued w node attempt) (ok-injective last) (record {
        about =
            ==→≡ response.attempt (attempt_ref attempt)
              (only_if_ok (response.attempt == attempt_ref attempt) _ u first);
        verifier = refl;
        policy = refl;
        result = result;
        completed = expect_ok (completed_result attempt.execution attempt.result) _ result third;
        digest = refl;
        context =
            map_err_ok canonical (context_of w response.attempt node attempt result) context fourth;
      })

is_none-true : {A : Type 0} (o : Option A) → o ≡ none → is_none o ≡ true
is_none-true none h = refl
is_none-true (some a) h = cc

is_empty-true : {A : Type 0} (xs : List A) → xs ≡ [] → is_empty xs ≡ true
is_empty-true [] h = refl
is_empty-true (x ∷ xs) h = cc

module _ (w : Writer) (spec : GraphSpec) (run : GraphRun) (node : NodeSpec) (attempt : Attempt)
    (receipt : VerifierReceipt) (now : Timestamp) (db : Db) (i : IsIssued w node attempt receipt)
    (same_run : attempt.run_id ≡ run.run_id) where
  offer_passes :
      check_receipt receipt ≡ []
      → is_expired receipt.validity.valid_until now ≡ false
      → own_node spec attempt.node ≡ some node
      → check_offer spec run receipt now ≡ ok node
  unfolding check_offer
  offer_passes well timely own =
      let in_run : (receipt.attempt.run_id == run.run_id) ≡ true =
        ≡→== receipt.attempt.run_id run.run_id
          (ap (λ (r : AttemptRef). r.run_id) i.about ∙ same_run) in
      let in_graph : own_node spec receipt.attempt.node ≡ some node =
        ap (λ (r : AttemptRef). own_node spec r.node) i.about ∙ own in
      let verifier = ≡→== receipt.verifier node.acceptance.verifier i.verifier in
      let policy = ≡→== receipt.policy_ref node.acceptance.policy_ref i.policy in
      let shape = is_empty-true (check_receipt receipt) well in
      rw (check_offer, shape, in_run, in_graph, verifier, policy, timely) refl

  ledger_passes :
      (state : RunState)
      → read_receipt db run.run_id receipt.id ≡ none
      → read_attempt db run.run_id attempt.node.node_id attempt.number ≡ some attempt
      → subject_fits (frozen_subject attempt) receipt ≡ ok tt
      → replay_run run.run_id spec (read_events db run.run_id) ≡ ok state
      → is_checking (node_state state attempt.node.node_id) attempt.number ≡ true
      → recheck_accept (service_on w spec run node receipt now db state) receipt attempt ≡ ok tt
      → check_ledger w spec run node receipt now db ≡ ok attempt
  unfolding check_ledger
  ledger_passes state new sealed fits replayed checking rechecked =
      let fresh = is_none-true (read_receipt db run.run_id receipt.id) new in
      let stored : read_attempt db run.run_id receipt.attempt.node.node_id receipt.attempt.number
          ≡ some attempt =
        ap (λ (r : AttemptRef). read_attempt db run.run_id r.node.node_id r.number) i.about
        ∙ sealed in
      let digest = ≡→== receipt.result_digest i.result.digest i.digest in
      let context = ==_self receipt.context_digest in
      let current : is_checking (node_state state receipt.attempt.node.node_id)
            receipt.attempt.number
          ≡ true =
        ap (λ (r : AttemptRef). is_checking (node_state state r.node.node_id) r.number) i.about
        ∙ checking in
      rw
        (
          check_ledger, fresh, stored, i.completed, digest, fits, i.context, context, replayed,
          current, rechecked,
        )
        refl

  body_passes :
      (host : Host)
      → check_ledger w spec run node receipt now db ≡ ok attempt
      → admit_body host w spec run node receipt now db
        ≡ map_err AdmitError.store (admit_receipt_body host receipt db)
  unfolding admit_body admit_receipt_body
  body_passes host h = elim (Result-cases (insert_receipt host db receipt)) [
    | inr (e, f) ↦ rw (admit_body, h, admit_receipt_body, f) refl
    | inl (next, f) ↦ rw (admit_body, h, admit_receipt_body, f) refl
  ]

  written :
      (host : Host)
      → check_offer spec run receipt now ≡ ok node
      → admit_body host w spec run node receipt now db
        ≡ map_err AdmitError.store (admit_receipt_body host receipt db)
      → admit host w spec run receipt now db ≡ (
        map_err AdmitError.store (admit_receipt host db receipt).0,
        (admit_receipt host db receipt).1,
      )
  unfolding admit write transaction admit_receipt
  written host offered body = elim (Result-cases (admit_receipt_body host receipt db)) [
    | inr (e, f) ↦ rw (admit, offered, write, transaction, admit_receipt, body, f) refl
    | inl (next, f) ↦ rw (admit, offered, write, transaction, admit_receipt, body, f) refl
  ]

-- A receipt that is issued for a sealed attempt is admitted exactly as the store admits it, with
-- the outcome and the ledger of the store, when: its own rules report nothing and it is not past
-- its validity; the attempt is the one stored in this run, on the node of the graph; no receipt
-- of its id is there; its subject fits the subject that the attempt froze; the log replays to a
-- state in which the node is checking this attempt; and if it accepts, the pinned dependencies
-- pass their recheck.
pub issue-admit :
    (w : Writer) (response : VerifierResponse) (node : NodeSpec) (attempt : Attempt) (id : Ident)
    (subject issuer : Text) (at_time : Timestamp) (validity : Validity) (host : Host)
    (spec : GraphSpec) (run : GraphRun) (receipt : VerifierReceipt) (now : Timestamp) (db : Db)
    (state : RunState)
    → issue w response node attempt id subject issuer at_time validity ≡ ok receipt
    → check_receipt receipt ≡ []
    → is_expired receipt.validity.valid_until now ≡ false
    → attempt.run_id ≡ run.run_id
    → own_node spec attempt.node ≡ some node
    → read_receipt db run.run_id receipt.id ≡ none
    → read_attempt db run.run_id attempt.node.node_id attempt.number ≡ some attempt
    → subject_fits (frozen_subject attempt) receipt ≡ ok tt
    → replay_run run.run_id spec (read_events db run.run_id) ≡ ok state
    → is_checking (node_state state attempt.node.node_id) attempt.number ≡ true
    → recheck_accept (service_on w spec run node receipt now db state) receipt attempt ≡ ok tt
    → admit host w spec run receipt now db ≡ (
      map_err AdmitError.store (admit_receipt host db receipt).0,
      (admit_receipt host db receipt).1,
    )
issue-admit w response node attempt id subject issuer at_time validity host spec run receipt now db
      state made well timely same_run own new sealed fits replayed checking rechecked =
    let i =
      issue-IsIssued w response node attempt id subject issuer at_time validity receipt made in
    let offered = offer_passes w spec run node attempt receipt now db i same_run well timely own in
    let ledger =
      ledger_passes w spec run node attempt receipt now db i same_run state new sealed fits replayed
        checking rechecked in
    written w spec run node attempt receipt now db i same_run host offered
      (body_passes w spec run node attempt receipt now db i same_run host ledger)
