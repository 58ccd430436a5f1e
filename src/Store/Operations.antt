-- ===== src/Store/Operations.antt =====
-- src/store/mod.rs: the writes that `Store` offers, as one type, and the steps that each is made of.
use checkspan.Common.{
  none, some, ◌≡◌, subst, inl, inr, arith, Text, Option, Result, ok, Result-cases, ◌>>=◌, >>=_ok,
  find, Bool-cases,
}
use checkspan.Common.Json.{Value}
use checkspan.Contracts.Ids.{RunId, NodeId}
use checkspan.Contracts.Graph.{GraphSpec, GraphRun, graph_ref}
use checkspan.Contracts.Attempt.{Attempt, VerifierReceipt}
use checkspan.Contracts.Packet.{GatePacket, GateDecision}
use checkspan.State.Event.{kind_receipt, kind_gate, kind_decision, kind_run_created, kind_sealed}
use checkspan.Store.Tables.{Db, Sized, StoreError, graph_exists, is_graph, kind_revoked}
use checkspan.Store.Writes.{
  Host, len_checked, append_event, log, insert_attempt, seal_attempt, sealed_payload,
  insert_receipt, insert_gate_packet, insert_gate_decision,
}
use checkspan.Store.Ops.{
  transaction, write, put_graph, put_run, store_graph, create_run, create_run_body, store_attempt,
  admit_receipt, admit_receipt_body, open_gate, open_gate_body, admit_decision, admit_decision_body,
  revoke_receipt, revoke_receipt_body, admitted_payload, opened_payload, decided_payload,
  created_payload, revoked_payload,
}
use checkspan.Store.Steps.{Step, Steps}
use checkspan.Store.Consistency.{IsConsistent, Steps-IsConsistent_from}

pub data Operation : Type 0 where
  storing_graph : GraphSpec → Operation
  creating_run : GraphRun → Operation
  sealing : Attempt → Operation
  admitting : VerifierReceipt → Operation
  opening : GatePacket → Operation
  deciding : RunId → GateDecision → Operation
  revoking : RunId → Text → Text → Operation

-- The tables that an operation leaves, whether it succeeds or fails.
unfoldable pub perform : Host → Db → Operation → Db
unfolding store_graph create_run store_attempt admit_receipt open_gate admit_decision revoke_receipt
perform host db (storing_graph spec) = (store_graph host db spec).1
perform host db (creating_run run) = (create_run host db run).1
perform host db (sealing a) = (store_attempt host db a).1
perform host db (admitting r) = (admit_receipt host db r).1
perform host db (opening p) = (open_gate host db p).1
perform host db (deciding run_id d) = (admit_decision host db run_id d).1
perform host db (revoking run_id receipt_id reason) =
    (revoke_receipt host db run_id receipt_id reason).1

module _ (host : Host) (db : Db) where
  write-Steps :
      (f : Db → Result Db StoreError)
      → ((next : Db) → f db ≡ ok next → Steps host db next)
      → Steps host db (write db f).1
  unfolding write transaction
  write-Steps f body = elim (Result-cases (f db)) [
    | inl (next, e) ↦ rw (write, transaction, e) (body next e)
    | inr (error, e) ↦ rw (write, transaction, e) Steps.none_yet
  ]

  -- A statement followed by its event.
  log-Steps :
      {next : Db} (run_id : RunId) (node_id : Option NodeId) (kind : Text) (payload : Value)
      → {start : Db} → Steps host start db
      → log host db run_id node_id kind payload ≡ ok next
      → Steps host start next
  unfolding log
  log-Steps run_id node_id kind payload before h =
      let ((seq, left), first, same) =
        >>=_ok (append_event host db run_id node_id kind payload) _ h in
      let same' : left ≡ _ = ground arith in
      subst (Steps host _) same'
        (Steps.and_then before (Step.event_appended run_id node_id kind payload seq first))

module _ (host : Host) (db : Db) where
  create_run-Steps :
      (run : GraphRun) (next : Db) → create_run_body host run db ≡ ok next → Steps host db next
  unfolding create_run_body
  create_run-Steps run next h = elim (Bool-cases (graph_exists db run.graph_ref)) [
    | inr missing ↦ ground arith
    | inl known ↦
        let rest : (put_run run db >>= λ left.
        log host left run.run_id none kind_run_created (created_payload run))
            ≡ ok next =
          ground arith in
        let (mid, first, last) = >>=_ok (put_run run db) _ rest in
        log-Steps host mid run.run_id none kind_run_created (created_payload run)
          (Steps.and_then Steps.none_yet (Step.run_put run known first)) last
  ]

  seal-Steps : (a : Attempt) (next : Db) → seal_attempt host db a ≡ ok next → Steps host db next
  unfolding seal_attempt
  seal-Steps a next h =
      let (mid, first, last) = >>=_ok (insert_attempt host db a) _ h in
      log-Steps host mid a.run_id (some a.node.node_id) kind_sealed (sealed_payload host a)
        (Steps.and_then Steps.none_yet (Step.attempt_inserted a first)) last

  admit-Steps :
      (r : VerifierReceipt) (next : Db)
      → admit_receipt_body host r db ≡ ok next
      → Steps host db next
  unfolding admit_receipt_body
  admit-Steps r next h =
      let (mid, first, last) = >>=_ok (insert_receipt host db r) _ h in
      log-Steps host mid r.attempt.run_id (some r.attempt.node.node_id) kind_receipt
        (admitted_payload r) (Steps.and_then Steps.none_yet (Step.receipt_inserted r first)) last

  open-Steps :
      (p : GatePacket) (next : Db) → open_gate_body host p db ≡ ok next → Steps host db next
  unfolding open_gate_body
  open-Steps p next h =
      let (mid, first, last) = >>=_ok (insert_gate_packet host db p) _ h in
      log-Steps host mid p.run_id (some p.node.node_id) kind_gate (opened_payload p)
        (Steps.and_then Steps.none_yet (Step.packet_inserted p first)) last

  decide-Steps :
      (run_id : RunId) (d : GateDecision) (next : Db)
      → admit_decision_body host run_id d db ≡ ok next
      → Steps host db next
  unfolding admit_decision_body
  decide-Steps run_id d next h =
      let (mid, first, last) = >>=_ok (insert_gate_decision host db run_id d) _ h in
      log-Steps host mid run_id (some d.scope.node.node_id) kind_decision (decided_payload d)
        (Steps.and_then Steps.none_yet (Step.decision_inserted run_id d first)) last

  revoke-Steps :
      (run_id : RunId) (receipt_id reason : Text) (next : Db)
      → revoke_receipt_body host run_id receipt_id reason db ≡ ok next
      → Steps host db next
  unfolding revoke_receipt_body
  revoke-Steps run_id receipt_id reason next h =
      let rest : log host db run_id none kind_revoked (revoked_payload receipt_id reason)
          ≡ ok next =
        ground arith in
      log-Steps host db run_id none kind_revoked (revoked_payload receipt_id reason) Steps.none_yet
        rest

  store_graph-Steps : (spec : GraphSpec) → Steps host db (store_graph host db spec).1
  unfolding store_graph transaction
  store_graph-Steps spec = elim (Result-cases (host.spec_digest spec)) [
    | inr (e, failed) ↦ rw (store_graph, failed) Steps.none_yet
    | inl (digest, bound) ↦
        elim (Result-cases (len_checked Sized.graph_spec (host.spec_len spec))) [
          | inr (e, long) ↦ rw (store_graph, bound, long) Steps.none_yet
          | inl (_, short) ↦
              let found = find (is_graph (graph_ref spec)) db.graphs in
              elim (Result-cases (put_graph spec digest found db)) [
                | inr (e, refused) ↦
                    rw (store_graph, bound, short, transaction, refused) Steps.none_yet
                | inl ((stored, next), put) ↦
                    rw (store_graph, bound, short, transaction, put)
                      (Steps.and_then Steps.none_yet (Step.graph_put spec digest stored bound put))
              ]
        ]
  ]

  -- Every operation that `Store` offers leaves a ledger reached by a sequence of single
  -- successful writes from the one it began with, whether it succeeds or fails.
  pub perform-Steps : (op : Operation) → Steps host db (perform host db op)
  unfolding perform create_run store_attempt admit_receipt open_gate admit_decision revoke_receipt
  perform-Steps (storing_graph spec) = store_graph-Steps spec
  perform-Steps (creating_run run) =
      elim (Result-cases (len_checked Sized.graph_run (host.run_len run))) [
        | inr (e, long) ↦ rw (perform, create_run, long) Steps.none_yet
        | inl (_, short) ↦
            rw (perform, create_run, short)
              (write-Steps host db (create_run_body host run) (create_run-Steps run))
      ]
  perform-Steps (sealing a) =
      write-Steps host db (λ start. seal_attempt host start a) (seal-Steps a)
  perform-Steps (admitting r) = write-Steps host db (admit_receipt_body host r) (admit-Steps r)
  perform-Steps (opening p) = write-Steps host db (open_gate_body host p) (open-Steps p)
  perform-Steps (deciding run_id d) =
      write-Steps host db (admit_decision_body host run_id d) (decide-Steps run_id d)
  perform-Steps (revoking run_id receipt_id reason) =
      write-Steps host db (revoke_receipt_body host run_id receipt_id reason)
        (revoke-Steps run_id receipt_id reason)

-- Every operation that `Store` offers leaves a consistent ledger consistent, whether it succeeds
-- or fails.
pub perform-IsConsistent :
    (host : Host) (db : Db) (op : Operation)
    → IsConsistent host db
    → IsConsistent host (perform host db op)
perform-IsConsistent host db op k = Steps-IsConsistent_from host (perform-Steps host db op) k
