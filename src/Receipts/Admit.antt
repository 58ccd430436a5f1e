-- ===== src/Receipts/Admit.antt =====
-- src/receipts/mod.rs: `admit`, in one transaction on the store.
use checkspan.Common.{
  ℕ, Bool, false, not, ◌&&◌, Option, none, some, List, Text, text, ◌==◌, nat_eq, list_eq, option_eq,
  find, lookup, is_empty, is_some, is_none, strip_prefix, if◌then◌else◌, Result, ok, err, ◌>>=◌,
  or_fail, map_err,
}
use checkspan.Contracts.Time.{Timestamp, is_before}
use checkspan.Contracts.Refs.{NodeRef, node_ref_eq, VerifierRef, verifier_ref_eq, policy_ref_eq}
use checkspan.Contracts.Node.{NodeSpec}
use checkspan.Contracts.Graph.{GraphSpec, GraphRun, find_node, node_ref}
use checkspan.Contracts.Attempt.{
  Attempt, EvidenceRef, VerifierReceipt, ReceiptError, verdict_eq, accept, check_receipt,
}
use checkspan.State.Event.{TransitionError, kind_receipt}
use checkspan.State.Node.{NodeState}
use checkspan.State.Run.{node_state, replay_run}
use checkspan.Store.Tables.{Db, StoreError, read_events, read_receipt, read_attempt}
use checkspan.Store.Writes.{Host, log, insert_receipt}
use checkspan.Store.Ops.{write, admitted_payload}
use checkspan.Deps.Service.{DependencyService, Blocker, recheck_refs}
use checkspan.Digests.Envelope.{CanonicalError}
use checkspan.Digests.Bound.{Writer}
use checkspan.Receipts.Issue.{only_if, expect_result, completed_result, context_of}

pub data AdmitError : Type 0 where
  malformed : List ReceiptError → AdmitError
  not_canonical : CanonicalError → AdmitError
  not_replayed : TransitionError → AdmitError
  wrong_run wrong_node wrong_policy unknown_attempt not_completed duplicate : AdmitError
  wrong_result context_mismatch expired : AdmitError
  wrong_verifier : (pinned offered : VerifierRef) → AdmitError
  stale : Option NodeState → AdmitError
  wrong_subject : (expected offered : Text) → AdmitError
  dependency_blocked : List Blocker → AdmitError
  store : StoreError → AdmitError

-- Its subject names a patch that the attempt froze.
abbrev pub names_patch : EvidenceRef → Bool
unfolding strip_prefix
names_patch e = is_some (strip_prefix (text "patch_subject:") e.subject)

unfoldable pub frozen_subject : Attempt → Option Text
unfolding find
frozen_subject attempt = elim (find names_patch attempt.input_manifest) [
  | none ↦ none
  | some e ↦ some e.subject
]

-- The guard of the match on the node: it is in the graph, at this revision.
unfoldable pub own_node : GraphSpec → NodeRef → Option NodeSpec
unfolding find node_ref
own_node spec reference = elim (find_node reference.node_id spec.nodes) [
  | none ↦ none
  | some node ↦ if node_ref spec reference.node_id == some reference then some node else none
]

unfoldable pub is_expired : Option Timestamp → Timestamp → Bool
unfolding is_before
is_expired none now = false
is_expired (some valid_until) now = is_before valid_until now

unfoldable pub subject_fits : Option Text → VerifierReceipt → Result (Unit {0}) AdmitError
subject_fits none receipt = ok tt
subject_fits (some expected) receipt =
    only_if (expected == receipt.subject) (wrong_subject expected receipt.subject)

unfoldable pub is_checking : Option NodeState → ℕ → Bool
is_checking none number = false
is_checking (some s) number = s.checking && (s.current_attempt == some number)

-- The recheck of the pinned dependencies, which only an accepting verdict needs.
unfoldable pub recheck_accept :
    DependencyService → VerifierReceipt → Attempt → Result (Unit {0}) AdmitError
unfolding recheck_refs
recheck_accept service receipt attempt =
    if receipt.verdict == accept
    then map_err dependency_blocked
        (recheck_refs service receipt.attempt.node.node_id attempt.dependency_receipts)
    else ok tt

-- The checks of the transaction: the attempt that the receipt is about.
unfoldable pub check_ledger :
    Writer
    → GraphSpec
    → GraphRun
    → NodeSpec
    → VerifierReceipt
    → Timestamp
    → Db
    → Result Attempt AdmitError
unfolding read_receipt read_attempt completed_result frozen_subject subject_fits context_of
    read_events replay_run lookup is_checking recheck_accept
check_ledger w spec run node receipt now db = do
  let id = receipt.attempt.node.node_id
  _ ← only_if (is_none (read_receipt db run.run_id receipt.id)) duplicate
  attempt ← or_fail (read_attempt db run.run_id id receipt.attempt.number) unknown_attempt
  result ← expect_result (completed_result attempt.execution attempt.result) not_completed
  _ ← only_if (receipt.result_digest == result.digest) wrong_result
  _ ← subject_fits (frozen_subject attempt) receipt
  context ← map_err not_canonical (context_of w receipt.attempt node attempt result)
  _ ← only_if (context == receipt.context_digest) context_mismatch
  state ← map_err not_replayed (replay_run run.run_id spec (read_events db run.run_id))
  _ ←
      only_if (is_checking (node_state state id) receipt.attempt.number)
        (stale (node_state state id))
  _ ←
      recheck_accept (record { spec = spec; run = run; state = state; store = db; now = now })
        receipt attempt
  ok attempt

unfoldable pub admit_body :
    Host
    → Writer
    → GraphSpec
    → GraphRun
    → NodeSpec
    → VerifierReceipt
    → Timestamp
    → Db
    → Result Db AdmitError
unfolding check_ledger insert_receipt log
admit_body host w spec run node receipt now db = do
  _ ← check_ledger w spec run node receipt now db
  next ← map_err AdmitError.store (insert_receipt host db receipt)
  map_err AdmitError.store (
      log host next receipt.attempt.run_id (some receipt.attempt.node.node_id) kind_receipt
        (admitted_payload receipt))

-- The checks before the transaction, which need no ledger.
unfoldable pub check_offer :
    GraphSpec → GraphRun → VerifierReceipt → Timestamp → Result NodeSpec AdmitError
unfolding check_receipt own_node is_expired
check_offer spec run receipt now = do
  _ ← only_if (is_empty (check_receipt receipt)) (malformed (check_receipt receipt))
  _ ← only_if (receipt.attempt.run_id == run.run_id) wrong_run
  node ← or_fail (own_node spec receipt.attempt.node) wrong_node
  _ ←
      only_if (receipt.verifier == node.acceptance.verifier)
        (wrong_verifier node.acceptance.verifier receipt.verifier)
  _ ← only_if (receipt.policy_ref == node.acceptance.policy_ref) wrong_policy
  _ ← only_if (not (is_expired receipt.validity.valid_until now)) expired
  ok node

unfoldable pub admit :
    Host
    → Writer
    → GraphSpec
    → GraphRun
    → VerifierReceipt
    → Timestamp
    → Db
    → Result (Unit {0}) AdmitError × Db
unfolding check_offer write admit_body
admit host w spec run receipt now db = elim (check_offer spec run receipt now) [
  | err e ↦ (err e, db)
  | ok node ↦ write db (admit_body host w spec run node receipt now)
]
