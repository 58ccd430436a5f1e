-- ===== src/Store/Ops.antt =====
-- src/store/mod.rs: `impl Store`, whose every write is one transaction.
use checkspan.Common.{
  ◌≡◌, ap, inl, inr, arith, Result-cases, Bool, true, false, not, Option, none, some, [], ◌∷◌, ◌++◌,
  Text, text, ◌==◌, nat_eq, list_eq, find, if◌then◌else◌, Result, ok, err, ◌>>=◌, any, map_err,
}
use checkspan.Common.Json.{Value, Fields}
use checkspan.Contracts.Ids.{Digest, RunId}
use checkspan.Contracts.Refs.{GraphRef}
use checkspan.Contracts.Graph.{GraphSpec, GraphRun, graph_ref}
use checkspan.Contracts.Attempt.{Attempt, VerifierReceipt}
use checkspan.Contracts.Gate.{GatePurpose}
use checkspan.Contracts.Packet.{GatePacket, GateDecision}
use checkspan.State.Event.{
  kind_receipt, kind_gate, kind_decision, kind_run_created, verdict_text, decision_text,
  option_text,
}
use checkspan.Store.Rows.{GraphRow}
use checkspan.Store.Tables.{
  Db, Named, Sized, StoreError, revision_conflict, missing_reference, duplicate, canonical,
  is_graph, is_run, graph_exists, receipt_exists, kind_revoked,
}
use checkspan.Store.Writes.{
  Host, len_checked, log, seal_attempt, insert_receipt, insert_gate_packet, insert_gate_decision,
}

-- `Store::transaction`: an error keeps the tables as they were.
unfoldable pub transaction {ℓ κ} :
    {T : Type ℓ} {E : Type κ} → Db → (Db → Result (T × Db) E) → Result T E × Db
transaction db f = elim (f db) [ ok outcome ↦ (ok outcome.0, outcome.1) | err e ↦ (err e, db) ]

-- A transaction that succeeds leaves what its body left.
pub transaction_ok {ℓ κ} :
    {T : Type ℓ} {E : Type κ} (db : Db) (f : Db → Result (T × Db) E) (t : T)
    → (transaction db f).0 ≡ ok t
    → f db ≡ ok (t, (transaction db f).1)
unfolding transaction
transaction_ok db f t h = elim (Result-cases (f db)) [
  | inr (e, refused) ↦ ground (arith, refused)
  | inl ((u, next), done_as) ↦
      let same : u ≡ t = ground (arith, done_as) in
      rw (transaction, done_as) (ap (λ x. ok (x, next)) same)
]

-- A body that returns `()`.
abbrev pub done {κ} : {E : Type κ} → Result Db E → Result (Unit {0} × Db) E
done m = m >>= λ next. ok (tt, next)

unfoldable pub write {κ} : {E : Type κ} → Db → (Db → Result Db E) → Result (Unit {0}) E × Db
unfolding transaction
write db f = transaction db (λ start. done (f start))

pub record StoredGraph : Type 0 where
  pub graph_ref : GraphRef
  pub digest : Digest
  pub inserted : Bool

-- The body of `store_graph`, on the row that stands at the revision.
unfoldable pub put_graph :
    GraphSpec → Digest → Option GraphRow → Db → Result (StoredGraph × Db) StoreError
put_graph spec digest (some row) db =
    if row.spec_digest == digest
    then ok (record { graph_ref = graph_ref spec; digest = digest; inserted = false }, db)
    else err (revision_conflict (graph_ref spec) row.spec_digest digest)
put_graph spec digest none db = ok (
  record { graph_ref = graph_ref spec; digest = digest; inserted = true },
  record db {
    graphs =
        db.graphs ++ record { graph_ref = graph_ref spec; spec_digest = digest; spec = spec } ∷ [];
  },
)

unfoldable pub put_run : GraphRun → Db → Result Db StoreError
unfolding any
put_run run db =
    if any (is_run run.run_id) db.runs
    then err (duplicate (Named.run run.run_id))
    else ok (record db { runs = db.runs ++ run ∷ [] })

abbrev pub created_payload : GraphRun → Value
created_payload run = Value.object (
    Fields.field (text "graph_id") (Value.string run.graph_ref.graph_id) (
      Fields.field (text "revision") (Value.number run.graph_ref.revision)
        (Fields.field (text "budget_lineage_ref") (option_text run.budget_lineage_ref) Fields.end)))

abbrev pub admitted_payload : VerifierReceipt → Value
admitted_payload r = Value.object (
    Fields.field (text "receipt_id") (Value.string r.id) (
      Fields.field (text "number") (Value.number r.attempt.number) (
        Fields.field (text "verdict") (Value.string (verdict_text r.verdict))
          (Fields.field (text "result_digest") (Value.string r.result_digest) Fields.end))))

abbrev pub purpose_text : GatePurpose → Text
purpose_text GatePurpose.resolve_work = text "resolve_work"
purpose_text GatePurpose.assess_claims = text "assess_claims"
purpose_text GatePurpose.authorize_action = text "authorize_action"

abbrev pub opened_payload : GatePacket → Value
opened_payload p = Value.object (
    Fields.field (text "packet_id") (Value.string p.id)
      (Fields.field (text "purpose") (Value.string (purpose_text p.purpose)) Fields.end))

abbrev pub decided_payload : GateDecision → Value
decided_payload d = Value.object (
    Fields.field (text "packet_id") (Value.string d.gate_packet_id)
      (Fields.field (text "decision") (Value.string (decision_text d.decision)) Fields.end))

abbrev pub revoked_payload : Text → Text → Value
revoked_payload receipt_id reason = Value.object (
    Fields.field (text "receipt_id") (Value.string receipt_id)
      (Fields.field (text "reason") (Value.string reason) Fields.end))

module _ (host : Host) where
  unfoldable pub store_graph : Db → GraphSpec → Result StoredGraph StoreError × Db
  unfolding len_checked put_graph transaction find
  store_graph db spec = elim (map_err canonical (host.spec_digest spec)) [
    | err e ↦ (err e, db)
    | ok digest ↦ elim (len_checked Sized.graph_spec (host.spec_len spec)) [
      | err e ↦ (err e, db)
      | ok _ ↦
          transaction db
            (λ start. put_graph spec digest (find (is_graph (graph_ref spec)) start.graphs) start)
    ]
  ]

  -- The transaction of `create_run`.
  unfoldable pub create_run_body : GraphRun → Db → Result Db StoreError
  unfolding graph_exists put_run log
  create_run_body run db =
      if not (graph_exists db run.graph_ref)
      then err (missing_reference (Named.graph run.graph_ref))
      else put_run run db >>= λ next.
          log host next run.run_id none kind_run_created (created_payload run)

  unfoldable pub create_run : Db → GraphRun → Result (Unit {0}) StoreError × Db
  unfolding len_checked create_run_body write
  create_run db run = elim (len_checked Sized.graph_run (host.run_len run)) [
    | err e ↦ (err e, db)
    | ok _ ↦ write db (create_run_body run)
  ]

  -- `Store::seal_attempt`
  unfoldable pub store_attempt : Db → Attempt → Result (Unit {0}) StoreError × Db
  unfolding seal_attempt write
  store_attempt db a = write db (λ start. seal_attempt host start a)

  unfoldable pub admit_receipt_body : VerifierReceipt → Db → Result Db StoreError
  unfolding insert_receipt log
  admit_receipt_body r db = insert_receipt host db r >>= λ next.
      log host next r.attempt.run_id (some r.attempt.node.node_id) kind_receipt (admitted_payload r)

  unfoldable pub admit_receipt : Db → VerifierReceipt → Result (Unit {0}) StoreError × Db
  unfolding admit_receipt_body write
  admit_receipt db r = write db (admit_receipt_body r)

  unfoldable pub open_gate_body : GatePacket → Db → Result Db StoreError
  unfolding insert_gate_packet log
  open_gate_body p db = insert_gate_packet host db p >>= λ next.
      log host next p.run_id (some p.node.node_id) kind_gate (opened_payload p)

  unfoldable pub open_gate : Db → GatePacket → Result (Unit {0}) StoreError × Db
  unfolding open_gate_body write
  open_gate db p = write db (open_gate_body p)

  unfoldable pub admit_decision_body : RunId → GateDecision → Db → Result Db StoreError
  unfolding insert_gate_decision log
  admit_decision_body run_id d db = insert_gate_decision host db run_id d >>= λ next.
      log host next run_id (some d.scope.node.node_id) kind_decision (decided_payload d)

  unfoldable pub admit_decision : Db → RunId → GateDecision → Result (Unit {0}) StoreError × Db
  unfolding admit_decision_body write
  admit_decision db run_id d = write db (admit_decision_body run_id d)

  unfoldable pub revoke_receipt_body : RunId → Text → Text → Db → Result Db StoreError
  unfolding receipt_exists log
  revoke_receipt_body run_id receipt_id reason db =
      if not (receipt_exists db run_id receipt_id)
      then err (missing_reference (Named.receipt receipt_id))
      else log host db run_id none kind_revoked (revoked_payload receipt_id reason)

  unfoldable pub revoke_receipt : Db → RunId → Text → Text → Result (Unit {0}) StoreError × Db
  unfolding revoke_receipt_body write
  revoke_receipt db run_id receipt_id reason =
      write db (revoke_receipt_body run_id receipt_id reason)
