-- ===== src/Scheduler/Cancelled.antt =====
-- src/scheduler/mod.rs: `cancel` leaves no claim on its node.
use checkspan.Common.{
  ◌≤◌, false, some, [], ◌∷◌, ◌++◌, All, ◌≡◌, refl, subst, ap, ◌∙◌, inl, inr, arith, text, ◌==◌,
  nat_eq, list_eq, list_beq, ok, >>=_ok, or_fail_ok, map_err, map_err_ok, ok-injective,
  Option-cases, keep, any,
}
use checkspan.Common.Json.{Value, Fields}
use checkspan.Contracts.Ids.{NodeId}
use checkspan.Contracts.Node.{NodeSpec}
use checkspan.Contracts.Refs.{NodeRef}
use checkspan.Contracts.Graph.{find_node, ref_of}
use checkspan.Contracts.View.{NodeStatus}
use checkspan.State.Event.{node_cancelled, kind_cancelled}
use checkspan.State.Node.{NodeState, apply}
use checkspan.State.Run.{RunState, node_state, replay_run}
use checkspan.State.Stored.{from_stored, decodes}
use checkspan.State.Appended.{replay_run-append}
use checkspan.Store.Rows.{ClaimRow, StoredEvent}
use checkspan.Store.Tables.{Db, read_events, read_active_claims}
use checkspan.Store.Writes.{Host}
use checkspan.Store.Logged.{log-IsLogged, read_events-IsLogged}
use checkspan.Store.Ops.{transaction, transaction_ok, done, write}
use checkspan.Scheduler.Claim.{SchedulerError, Scheduler}
use checkspan.Scheduler.Finish.{replayed, expect_node, release_all, cancel_body, cancel_node}
use checkspan.Scheduler.Freed.{
  max_fence_kept, is_live, off_node, release_all-events, release_all_others, release_all_none,
  read_active_claims-Listed,
}

-- The node was cancelled, in the replayed log.
abbrev pub ReplaysCancelled : Scheduler → NodeId → Db → Type 0
ReplaysCancelled s id next =
    (r : RunState) × (replay_run s.run.run_id s.spec (read_events next s.run.run_id) ≡ ok r)
    × ((t : NodeState) × (node_state r id ≡ some t) × (t.status ≡ NodeStatus.cancelled))

cancels : (s t : NodeState) → apply s node_cancelled ≡ ok t → t.status ≡ NodeStatus.cancelled
unfolding apply
cancels s t h = ground arith

from_stored-cancelled :
    (event : StoredEvent) (node : NodeRef)
    → event.kind ≡ kind_cancelled
    → from_stored event node ≡ ok node_cancelled
unfolding decodes list_beq
from_stored-cancelled event node k = rw k

module _ (host : Host) (s : Scheduler) (id : NodeId) (db : Db)
    (small : All (λ (c : ClaimRow). c.fence ≤ max_fence_kept) db.claims) where
  body_cancels :
      (node : NodeSpec) (next : Db)
      → find_node id s.spec.nodes ≡ some node
      → cancel_body host s id db ≡ ok next
      → (any (is_live s.run.run_id id) next.claims ≡ false)
        × (keep (off_node s.run.run_id id) next.claims ≡ keep (off_node s.run.run_id id) db.claims)
        × ReplaysCancelled s id next
  unfolding cancel_body replayed expect_node read_events
  body_cancels node next in_graph h =
      let run_id = s.run.run_id in
      let (state, e₁, h₁) = >>=_ok (replayed db run_id s.spec) _ h in
      let (current, e₂, h₂) = >>=_ok (expect_node state id) _ h₁ in
      let (after, e₃, h₃) =
        >>=_ok (map_err SchedulerError.transition (apply current node_cancelled)) _ h₂ in
      let freed = release_all host run_id id (read_active_claims db) db in
      let payload =
        Value.object (Fields.field (text "by") (Value.string s.controller) Fields.end) in
      let legal = map_err_ok SchedulerError.transition (apply current node_cancelled) after e₃ in
      let l =
        log-IsLogged run_id (some id) kind_cancelled payload host freed next
          (map_err_ok SchedulerError.store _ next h₃) in
      let claims_are : next.claims ≡ freed.claims = ap (λ (d : Db). d.claims) l.rest in
      let same_events = release_all-events host run_id id (read_active_claims db) db in
      let log_is =
        read_events-IsLogged run_id (some id) kind_cancelled payload l
        ∙ ap (λ es. keep (λ (e : StoredEvent). e.run_id == run_id) es ++ l.event ∷ [])
            same_events in
      let replays =
        map_err_ok SchedulerError.transition (replay_run run_id s.spec (read_events db run_id))
          state e₁ in
      let (r, replayed, found) =
        replay_run-append run_id s.spec (read_events db run_id) state id node l.event node_cancelled
          current after replays in_graph l.on_node
          (from_stored-cancelled l.event (ref_of s.spec.graph_id node) l.of_kind)
          (or_fail_ok (node_state state id) _ current e₂) legal in
      (
        ap (any (is_live run_id id)) claims_are
            ∙ release_all_none host run_id id (read_active_claims db) db
                (read_active_claims-Listed host run_id id db small),
        ap (keep (off_node run_id id)) claims_are
            ∙ release_all_others host run_id id (read_active_claims db) db,
        (
          r,
          ap (replay_run run_id s.spec) log_is ∙ replayed,
          (after, found, cancels current after legal),
        ),
      )

  -- When `cancel` succeeds in a ledger whose tokens all fit an `i64`, no claim on the node in
  -- the run is active any more, the claims on other nodes and in other runs are as they were,
  -- and in the replayed log the node is cancelled.
  pub cancel_node_frees :
      (cancel_node host s db id).0 ≡ ok tt
      → (any (is_live s.run.run_id id) (cancel_node host s db id).1.claims ≡ false)
        × (keep (off_node s.run.run_id id) (cancel_node host s db id).1.claims
            ≡ keep (off_node s.run.run_id id) db.claims)
        × ReplaysCancelled s id (cancel_node host s db id).1
  unfolding cancel_node write
  cancel_node_frees h = elim (Option-cases (find_node id s.spec.nodes)) [
    | inl e ↦ cc (rw (cancel_node, e) at h)
    | inr (node, e) ↦
        let body = λ (start : Db). done (cancel_body host s id start) in
        let h₁ : (transaction db body).0 ≡ ok tt = rw (cancel_node, e, write) at h in
        let (next, ran, same) =
          >>=_ok (cancel_body host s id db) _ (transaction_ok db body tt h₁) in
        let left_is : next ≡ (cancel_node host s db id).1 =
          ap (λ (p : Unit {0} × Db). p.1) (ok-injective same) ∙ rw (cancel_node, e, write) refl in
        subst
          (λ (d : Db).
            (any (is_live s.run.run_id id) d.claims ≡ false)
            × (keep (off_node s.run.run_id id) d.claims ≡ keep (off_node s.run.run_id id) db.claims)
            × ReplaysCancelled s id d)
          left_is (body_cancels node next e ran)
  ]
