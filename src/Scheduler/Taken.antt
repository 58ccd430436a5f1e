-- ===== src/Scheduler/Taken.antt =====
-- src/scheduler/mod.rs: the transaction of `reclaim`, step by step.
use checkspan.Common.{
  ℕ, Bool, ◌&&◌, none, some, ◌≡◌, sym, ap, ◌∙◌, inl, inr, text, ◌==◌, ==→≡, nat_eq, list_eq, find,
  ok, >>=_ok, or_fail, or_fail_ok, map_err, map_err_ok, ok-injective, Option-cases,
}
use checkspan.Common.Tables.{find-member}
use checkspan.Contracts.Ids.{NodeId}
use checkspan.Contracts.Time.{Timestamp, new_timestamp}
use checkspan.Contracts.Refs.{NodeRef}
use checkspan.Contracts.Node.{NodeSpec}
use checkspan.Contracts.Graph.{find_node, node_ref, ref_of}
use checkspan.Contracts.Attempt.{ExecutionOutcome}
use checkspan.State.Event.{execution_finished}
use checkspan.State.Node.{NodeState, apply}
use checkspan.State.Run.{RunState, node_state, replay_run}
use checkspan.Store.Rows.{ClaimRow}
use checkspan.Store.Tables.{Db, read_events, read_active_claims}
use checkspan.Store.Writes.{Host, seal_attempt, release_claim}
use checkspan.Store.Logged.{IsSealed, seal_attempt-IsSealed}
use checkspan.Scheduler.Claim.{SchedulerError, Scheduler}
use checkspan.Scheduler.Finish.{replayed, expect_node, reclaimed_attempt, reclaim_body}

pub node_ref-some :
    (s : Scheduler) (id : NodeId) (node : NodeRef)
    → node_ref s.spec id ≡ some node
    → (n : NodeSpec) × (find_node id s.spec.nodes ≡ some n)
      × (node ≡ ref_of s.spec.graph_id n)
      × (node.node_id ≡ id)
unfolding node_ref
node_ref-some s id node h = elim (Option-cases (find_node id s.spec.nodes)) [
  | inl e ↦ cc (rw (node_ref, e) at h)
  | inr (n, e) ↦
      let same : ref_of s.spec.graph_id n ≡ node = cc (rw (node_ref, e) at h) in
      (
        n,
        e,
        sym same,
        ap (λ (r : NodeRef). r.node_id) (sym same)
            ∙ ==→≡ n.id id (find-member (λ (m : NodeSpec). m.id == id) s.spec.nodes n e).1,
      )
]

module _ (host : Host) (s : Scheduler) (id : NodeId) (now : Timestamp) (db : Db) where
  abbrev pub is_mine : ClaimRow → Bool
  is_mine r = (r.run_id == s.run.run_id) && (r.node_id == id)

  -- The steps of the transaction, each with what it returned.
  pub record Taken (node : NodeRef) (number : ℕ) (next : Db) : Type 0 where
    pub row : ClaimRow
    pub picked : find is_mine (read_active_claims db) ≡ some row
    pub state : RunState
    pub replays : replay_run s.run.run_id s.spec (read_events db s.run.run_id) ≡ ok state
    pub started_at : Timestamp
    pub since : new_timestamp row.claimed_at ≡ ok started_at
    pub current : NodeState
    pub at_node : node_state state id ≡ some current
    pub after : NodeState
    pub legal :
        apply current (execution_finished row.number ExecutionOutcome.failed none) ≡ ok after
    pub mid : Db
    pub sealed : IsSealed host (reclaimed_attempt s node row started_at now) db mid
    pub is_number : row.number ≡ number
    pub ledger :
        (release_claim host mid s.run.run_id id row.number row.fence (text "reclaimed")).1 ≡ next

  pub reclaim_body-Taken :
      (node : NodeRef) (number : ℕ) (next : Db)
      → reclaim_body host s id node now db ≡ ok (number, next)
      → Taken node number next
  unfolding reclaim_body replayed expect_node
  reclaim_body-Taken node number next h =
      let (row, e₁, h₁) = >>=_ok (or_fail (find is_mine (read_active_claims db)) _) _ h in
      let (state, e₂, h₂) = >>=_ok (replayed db s.run.run_id s.spec) _ h₁ in
      let (started_at, e₃, h₃) = >>=_ok (map_err _ (new_timestamp row.claimed_at)) _ h₂ in
      let (current, e₄, h₄) = >>=_ok (expect_node state id) _ h₃ in
      let step = execution_finished row.number ExecutionOutcome.failed none in
      let (after, e₅, h₅) = >>=_ok (map_err SchedulerError.transition (apply current step)) _ h₄ in
      let attempt = reclaimed_attempt s node row started_at now in
      let (mid, e₆, last) =
        >>=_ok (map_err SchedulerError.store (seal_attempt host db attempt)) _ h₅ in
      record {
        row = row;
        picked = or_fail_ok _ _ row e₁;
        state = state;
        replays =
            map_err_ok SchedulerError.transition
              (replay_run s.run.run_id s.spec (read_events db s.run.run_id)) state e₂;
        started_at = started_at;
        since = map_err_ok _ (new_timestamp row.claimed_at) started_at e₃;
        current = current;
        at_node = or_fail_ok (node_state state id) _ current e₄;
        after = after;
        legal = map_err_ok SchedulerError.transition (apply current step) after e₅;
        mid = mid;
        sealed = seal_attempt-IsSealed host attempt db mid (map_err_ok _ _ mid e₆);
        is_number = ap (λ (p : ℕ × Db). p.0) (ok-injective last);
        ledger = ap (λ (p : ℕ × Db). p.1) (ok-injective last);
      }
