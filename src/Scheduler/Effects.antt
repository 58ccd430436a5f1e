-- ===== src/Scheduler/Effects.antt =====
-- src/scheduler/mod.rs: what each operation does to the table of claims.
use checkspan.Common.{
  ℕ, inl, inr, some, List, [], ◌∷◌, ◌≡◌, sym, subst, Text, text, Result, ok, or_fail, map_err,
  map_err_ok, Yields, Yields->>=, Yields->>=_on, Yields_ok, ◌&&◌, Result-cases, Bool-cases, ◌==◌,
  nat_eq, list_eq,
}
use checkspan.Contracts.Ids.{NodeId, RunId}
use checkspan.Contracts.Time.{Timestamp}
use checkspan.Contracts.Refs.{NodeRef}
use checkspan.Contracts.Attempt.{Attempt, Execution}
use checkspan.Contracts.Graph.{find_node, node_ref}
use checkspan.Common.Json.{Value, Fields}
use checkspan.State.Event.{kind_cancelled, execution_finished, node_cancelled}
use checkspan.State.Node.{NodeState, apply}
use checkspan.Contracts.Refs.{receipt_ref_eq}
use checkspan.Store.Rows.{ClaimRow}
use checkspan.Store.Tables.{Db, read_active_claims}
use checkspan.Store.Writes.{Host, release_claim, seal_attempt, is_held, log, digest_of}
use checkspan.Store.Logged.{seal_attempt-IsSealed}
use checkspan.Store.Ops.{transaction, write}
use checkspan.Scheduler.Claim.{Claim, SchedulerError, Scheduler}
use checkspan.Scheduler.Dispatch.{log-claims}
use checkspan.Scheduler.Exclusive.{Weaker, Weaker-refl, Weaker-trans, released-Weaker}
use checkspan.Scheduler.Taken.{reclaim_body-Taken}
use checkspan.Scheduler.Finish.{
  complete_body, complete, check_completion, release_all, cancel_body, cancel_node, reclaim_body,
  reclaim, held_claim, fail_unless, replayed, expect_node, stale_error,
}

abbrev pub Weakens : Db → Db → Type 0
Weakens db next = Weaker db.claims next.claims

same-Weakens : (db next : Db) → next.claims ≡ db.claims → Weakens db next
same-Weakens db next e = subst (λ l. Weaker db.claims l) (sym e) (Weaker-refl db.claims)

-- A transaction keeps what its body keeps, or keeps everything.
transaction-Weakens :
    {T : Type 0} (db : Db) (f : Db → Result (T × Db) SchedulerError)
    → Yields (λ p. Weakens db p.1) (f db)
    → Weakens db (transaction db f).1
unfolding transaction
transaction-Weakens db f h = elim (Result-cases (f db)) [
  | inl (p, e) ↦ rw (transaction, e) (Yields_ok (λ p. Weakens db p.1) h e)
  | inr (e, f) ↦ rw (transaction, f) (Weaker-refl db.claims)
]

write-Weakens :
    (db : Db) (f : Db → Result Db SchedulerError)
    → Yields (Weakens db) (f db)
    → Weakens db (write db f).1
unfolding write transaction
write-Weakens db f h = elim (Result-cases (f db)) [
  | inl (next, e) ↦ rw (write, transaction, e) (Yields_ok (Weakens db) h e)
  | inr (e, f) ↦ rw (write, transaction, f) (Weaker-refl db.claims)
]

release_claim-Weakens :
    (host : Host) (mid db : Db) (run_id : RunId) (id : NodeId) (number fence : ℕ) (how : Text)
    → Weakens db mid
    → Weakens db (release_claim host mid run_id id number fence how).1
unfolding release_claim
release_claim-Weakens host mid db run_id id number fence how w =
    Weaker-trans db.claims mid.claims _ w
      (released-Weaker (host.stamp mid) how (is_held run_id id number fence) mid.claims)

seal_attempt-Weakens :
    (host : Host) (db mid : Db) (attempt : Attempt)
    → map_err SchedulerError.store (seal_attempt host db attempt) ≡ ok mid
    → Weakens db mid
seal_attempt-Weakens host db mid attempt h =
    same-Weakens db mid (seal_attempt-IsSealed host attempt db mid (map_err_ok _ _ mid h)).claims

module _ (host : Host) (s : Scheduler) (db : Db) where
  complete_body-Weakens :
      (claim : Claim) (attempt : Attempt) (execution : Execution)
      → Yields (Weakens db) (complete_body host s claim attempt execution db)
  unfolding complete_body
  complete_body-Weakens claim attempt execution =
      let P = Weakens db in
      let legal = λ (node : NodeState). map_err SchedulerError.transition (
        apply node
          (execution_finished claim.number execution.outcome (digest_of attempt.result))) in
      Yields->>= P (held_claim db claim) _ (λ row.
        Yields->>= P
          (fail_unless (row.dependency_receipts == attempt.dependency_receipts)
            SchedulerError.snapshot_mismatch)
          _
          (λ _. Yields->>= P (replayed db claim.run_id s.spec) _ (λ state.
            Yields->>= P (expect_node state claim.node_id) _ (λ node.
              Yields->>= P (legal node) _ (λ _.
                Yields->>=_on P (map_err SchedulerError.store (seal_attempt host db attempt)) _
                  (λ sealed put.
                    let release =
                      release_claim host sealed claim.run_id claim.node_id claim.number claim.fence
                        (text "completed") in
                    Yields->>= P (fail_unless release.0 (stale_error claim row)) _ (λ _.
                      release_claim-Weakens host sealed db claim.run_id claim.node_id claim.number
                        claim.fence (text "completed")
                        (seal_attempt-Weakens host db sealed attempt put))))))))

  pub complete-Weakens :
      (claim : Claim) (attempt : Attempt) → Weakens db (complete host s db claim attempt).1
  unfolding complete
  complete-Weakens claim attempt = elim (Result-cases (check_completion s claim attempt)) [
    | inl (execution, e) ↦
        rw (complete, e)
          (write-Weakens db (complete_body host s claim attempt execution)
            (complete_body-Weakens claim attempt execution))
    | inr (e, f) ↦ rw (complete, f) (Weaker-refl db.claims)
  ]

  release_all-Weakens :
      (run_id : RunId) (id : NodeId) (rows : List ClaimRow) (mid : Db)
      → Weakens db mid
      → Weakens db (release_all host run_id id rows mid)
  unfolding release_all
  release_all-Weakens run_id id [] mid w = w
  release_all-Weakens run_id id (row ∷ rows) mid w =
      elim (Bool-cases ((row.run_id == run_id) && (row.node_id == id))) [
        | inl e ↦
            rw (release_all, e)
              (release_all-Weakens run_id id rows _ (
                release_claim-Weakens host mid db run_id id row.number row.fence (text "cancelled")
                  w))
        | inr e ↦ rw (release_all, e) (release_all-Weakens run_id id rows mid w)
      ]

  cancel_body-Weakens : (id : NodeId) → Yields (Weakens db) (cancel_body host s id db)
  unfolding cancel_body
  cancel_body-Weakens id =
      let P = Weakens db in
      let freed = release_all host s.run.run_id id (read_active_claims db) db in
      let freed_is =
        release_all-Weakens s.run.run_id id (read_active_claims db) db (Weaker-refl db.claims) in
      Yields->>= P (replayed db s.run.run_id s.spec) _ (λ state.
        Yields->>= P (expect_node state id) _ (λ node.
          Yields->>= P (map_err SchedulerError.transition (apply node node_cancelled)) _ (λ _.
            elim (Result-cases (
              map_err SchedulerError.store (
                log host freed s.run.run_id (some id) kind_cancelled (
                  Value.object
                    (Fields.field (text "by") (Value.string s.controller) Fields.end))))) [
                      | inl (next, e) ↦ rw e (
                          subst (λ l. Weaker db.claims l)
                            (sym (log-claims host freed _ _ _ _ next (map_err_ok _ _ next e)))
                            freed_is)
                      | inr (e, f) ↦ rw f tt
                    ])))

  pub cancel_node-Weakens : (id : NodeId) → Weakens db (cancel_node host s db id).1
  unfolding cancel_node
  cancel_node-Weakens id =
      elim (Result-cases (or_fail (find_node id s.spec.nodes) (SchedulerError.not_in_graph id))) [
        | inl (node, e) ↦
            rw (cancel_node, e) (write-Weakens db (cancel_body host s id) (cancel_body-Weakens id))
        | inr (e, f) ↦ rw (cancel_node, f) (Weaker-refl db.claims)
      ]

  reclaim_body-Weakens :
      (id : NodeId) (node : NodeRef) (now : Timestamp)
      → Yields (λ (p : ℕ × Db). Weakens db p.1) (reclaim_body host s id node now db)
  reclaim_body-Weakens id node now = elim (Result-cases (reclaim_body host s id node now db)) [
    | inr (e, f) ↦ rw f tt
    | inl ((number, next), e) ↦ rw e (
        let t = reclaim_body-Taken host s id now db node number next e in
        subst (Weakens db) t.ledger (
          release_claim-Weakens host t.mid db s.run.run_id id t.row.number t.row.fence
            (text "reclaimed") (same-Weakens db t.mid t.sealed.claims)))
  ]

  pub reclaim-Weakens : (id : NodeId) (now : Timestamp) → Weakens db (reclaim host s db id now).1
  unfolding reclaim
  reclaim-Weakens id now =
      elim (Result-cases (or_fail (node_ref s.graph.spec id) (SchedulerError.not_in_graph id))) [
        | inr (e, f) ↦ rw (reclaim, f) (Weaker-refl db.claims)
        | inl (node, e) ↦
            rw (reclaim, e)
              (transaction-Weakens db (reclaim_body host s id node now)
                (reclaim_body-Weakens id node now))
      ]
