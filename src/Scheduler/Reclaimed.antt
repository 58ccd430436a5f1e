-- ===== src/Scheduler/Reclaimed.antt =====
-- src/scheduler/mod.rs: `reclaim` takes a claim over, and its former holder is refused from then on.
use checkspan.Common.{
  ℕ, ◌≤◌, true, false, none, some, [], ◌∷◌, ◌++◌, map, All, ◌≡◌, refl, sym, subst, ap, ◌∙◌, inl,
  inr, arith, text, ==→≡, ==_self, nat_eq, list_eq, find, ok, err, Option-cases, keep,
}
use checkspan.Common.Tables.{All-Memᴰ, find-member, keep-member, Unique}
use checkspan.Common.Sorting.{sorted-member}
use checkspan.Contracts.Ids.{NodeId, RunId}
use checkspan.Contracts.Time.{Timestamp, new_timestamp}
use checkspan.Contracts.Refs.{NodeRef}
use checkspan.Contracts.Graph.{node_ref, ref_of}
use checkspan.Contracts.Attempt.{Attempt, Execution, ExecutionOutcome}
use checkspan.Contracts.View.{NodeStatus}
use checkspan.State.Event.{execution_finished, kind, payload}
use checkspan.State.Node.{NodeState, apply}
use checkspan.State.Run.{RunState, node_state, replay_run}
use checkspan.State.Stored.{ValidNumber, from_stored-payload}
use checkspan.State.Appended.{replay_run-append}
use checkspan.Store.Rows.{ClaimRow}
use checkspan.Store.Tables.{Db, read_events, read_active_claims, read_claim, is_claim, claim_before}
use checkspan.Store.Writes.{Host, release_claim, released, is_held, clamp_i64}
use checkspan.Store.Changes.{claim_clash}
use checkspan.Store.Steps.{Steps}
use checkspan.Scheduler.Gone.{find-Unique, Steps-IsGone}
use checkspan.Store.Ops.{transaction, transaction_ok}
use checkspan.Scheduler.Claim.{Claim, SchedulerError, Scheduler}
use checkspan.Scheduler.Finish.{replayed, complete, reclaimed_attempt, reclaim_body, reclaim}
use checkspan.Scheduler.Completed.{find-released, marked_gone, released_refused}
use checkspan.Scheduler.Taken.{node_ref-some, is_mine, Taken, reclaim_body-Taken}

-- The attempt that is sealed: that of the owner of the claim, since the claim was made, on the
-- receipts that the claim pinned, without a result and failed as a claim that was taken over.
pub record IsFailedFor (run_id : RunId) (node : NodeRef) (row : ClaimRow) (now : Timestamp)
    (a : Attempt) : Type 0 where
  pub in_run : a.run_id ≡ run_id
  pub of_node : a.node ≡ node
  pub numbered : a.number ≡ row.number
  pub of_owner : a.owner ≡ row.owner
  pub since : new_timestamp row.claimed_at ≡ ok a.started_at
  pub finished : a.finished_at ≡ some now
  pub pinned : a.dependency_receipts ≡ row.dependency_receipts
  pub no_inputs : a.input_manifest ≡ []
  pub no_result : a.result ≡ none
  pub no_evidence : a.produced_evidence ≡ []
  pub no_receipt : a.verifier_receipt ≡ none
  pub execution : Execution
  pub executed : a.execution ≡ some execution
  pub failed : execution.outcome ≡ ExecutionOutcome.failed
  pub coded : execution.error_code ≡ some (text "claim_reclaimed")

-- The active claim of the node is released, and its attempt is sealed after the earlier ones.
pub record IsReclaimed (s : Scheduler) (id : NodeId) (now : Timestamp) (db next : Db) (number : ℕ)
    : Type 0 where
  pub row : ClaimRow
  pub claimed : read_claim db s.run.run_id id number ≡ some row
  pub live : row.active ≡ true
  pub left : ClaimRow
  pub released_row : read_claim next s.run.run_id id number ≡ some left
  pub gone : left.active ≡ false
  pub node : NodeRef
  pub in_graph : node_ref s.graph.spec id ≡ some node
  pub attempt : Attempt
  pub attempts : next.attempts ≡ db.attempts ++ attempt ∷ []
  pub sealed : IsFailedFor s.run.run_id node row now attempt

-- The node failed, in the replayed log.
abbrev pub ReplaysFailed : Scheduler → NodeId → Db → Type 0
ReplaysFailed s id next =
    (r : RunState) × (replay_run s.run.run_id s.spec (read_events next s.run.run_id) ≡ ok r)
    × ((t : NodeState) × (node_state r id ≡ some t) × (t.status ≡ NodeStatus.failed))

fails :
    (s t : NodeState) (number : ℕ)
    → apply s (execution_finished number ExecutionOutcome.failed none) ≡ ok t
    → t.status ≡ NodeStatus.failed
unfolding apply
fails s t number h = ground arith

module _ (host : Host) (s : Scheduler) (id : NodeId) (now : Timestamp) (db : Db) where
  module _ (unique : Unique claim_clash db.claims)
      (small : All (λ (c : ClaimRow). c.fence ≤ 9223372036854775807) db.claims) where
    Taken-IsReclaimed :
        (node : NodeRef) (number : ℕ) (next : Db)
        → node_ref s.graph.spec id ≡ some node
        → Taken host s id now db node number next
        → IsReclaimed s id now db next number
    unfolding read_active_claims read_claim release_claim
    Taken-IsReclaimed node number next named t =
        let run_id = s.run.run_id in
        let row = t.row in
        let (m, fits) =
          find-member (is_mine host s id now db) (read_active_claims db) row t.picked in
        let (stored, live) =
          keep-member (λ (c : ClaimRow). c.active) db.claims row
            (sorted-member claim_before row (keep (λ (c : ClaimRow). c.active) db.claims) m) in
        let of_run : row.run_id ≡ run_id = ==→≡ row.run_id run_id (ground (arith, fits)) in
        let of_node : row.node_id ≡ id = ==→≡ row.node_id id (ground (arith, fits)) in
        let found = find-Unique run_id id db.claims row unique stored of_run of_node in
        let test = is_held run_id id row.number row.fence in
        let mark = released (host.stamp t.mid) (text "reclaimed") test in
        let bound =
          All-Memᴰ (λ (c : ClaimRow). c.fence ≤ 9223372036854775807) db.claims row small stored in
        let exact : clamp_i64 row.fence ≡ row.fence = ground (arith, bound) in
        let (_, keyed) = find-member (is_claim run_id id row.number) db.claims row found in
        let holds : test row ≡ true = rw (keyed, exact, ==_self row.fence, live) refl in
        let claims_are : next.claims ≡ map mark db.claims =
          ap (λ (d : Db). d.claims) (sym t.ledger) ∙ ap (map mark) t.sealed.claims in
        let after =
          ap (find (is_claim run_id id row.number)) claims_are
          ∙ find-released run_id id row.number (host.stamp t.mid) (text "reclaimed") test db.claims
              row found in
        record {
          row = row;
          claimed = ap (λ k. find (is_claim run_id id k) db.claims) (sym t.is_number) ∙ found;
          live = live;
          left = mark row;
          released_row =
              ap (λ k. find (is_claim run_id id k) next.claims) (sym t.is_number) ∙ after;
          gone = marked_gone (host.stamp t.mid) (text "reclaimed") test row holds;
          node = node;
          in_graph = named;
          attempt = reclaimed_attempt s node row t.started_at now;
          sealed = record {
            in_run = refl;
            of_node = refl;
            numbered = refl;
            of_owner = refl;
            since = t.since;
            finished = refl;
            pinned = refl;
            no_inputs = refl;
            no_result = refl;
            no_evidence = refl;
            no_receipt = refl;
            execution = _;
            executed = refl;
            failed = refl;
            coded = refl;
          };
          attempts = ap (λ (d : Db). d.attempts) (sym t.ledger) ∙ t.sealed.attempts;
        }

  Taken-ReplaysFailed :
      (node : NodeRef) (number : ℕ) (next : Db)
      → node_ref s.spec id ≡ some node
      → ValidNumber number
      → Taken host s id now db node number next
      → ReplaysFailed s id next
  unfolding release_claim read_events kind payload
  Taken-ReplaysFailed node number next named valid t =
      let (n, in_graph, is_ref, own) = node_ref-some s id node named in
      let step = execution_finished t.row.number ExecutionOutcome.failed none in
      let e = t.sealed.event in
      let ok_number : ValidNumber t.row.number = subst ValidNumber (sym t.is_number) valid in
      let decoded =
        from_stored-payload e (ref_of s.spec.graph_id n) step t.sealed.of_kind t.sealed.carries
          (ok_number, tt) in
      let (r, replayed, found) =
        replay_run-append s.run.run_id s.spec (read_events db s.run.run_id) t.state id n e step
          t.current t.after t.replays in_graph (t.sealed.on_node ∙ ap some own) decoded t.at_node
          t.legal in
      let log_is : read_events next s.run.run_id ≡ read_events db s.run.run_id ++ e ∷ [] =
        ap (λ (d : Db). read_events d s.run.run_id) (sym t.ledger) ∙ t.sealed.events in
      (
        r,
        ap (replay_run s.run.run_id s.spec) log_is ∙ replayed,
        (t.after, found, fails t.current t.after t.row.number t.legal),
      )

  -- When `reclaim` of a scheduler whose graph is of its spec returns the number of an attempt, a
  -- positive `u32`, in a ledger in which no two claims share a key and every token fits an
  -- `i64`: an active claim of the node in the run had that number, and its row is active no
  -- more; one attempt is sealed, of that number and of the owner of the claim, from the moment
  -- of the claim until now, with the dependency receipts that the claim pinned and no result,
  -- failed with the code `claim_reclaimed`; in the replayed log the node failed; and in every
  -- ledger that any writes of the store lead to from there, a completion of a claim on that
  -- attempt, by whichever scheduler, fails and leaves the ledger as it is.
  pub reclaim_supersedes :
      (number : ℕ)
      → s.graph.spec ≡ s.spec
      → Unique claim_clash db.claims
      → All (λ (c : ClaimRow). c.fence ≤ 9223372036854775807) db.claims
      → ValidNumber number
      → (reclaim host s db id now).0 ≡ ok number
      → IsReclaimed s id now db (reclaim host s db id now).1 number
        × ReplaysFailed s id (reclaim host s db id now).1
        × ((host' : Host) (later : Db) (other : Scheduler) (claim : Claim) (attempt : Attempt)
            → Steps host' (reclaim host s db id now).1 later
            → claim.run_id ≡ s.run.run_id
            → claim.node_id ≡ id
            → claim.number ≡ number
            → (e : SchedulerError) × (complete host' other later claim attempt ≡ (err e, later)))
  unfolding reclaim read_claim
  reclaim_supersedes number same_spec unique small valid h =
      elim (Option-cases (node_ref s.graph.spec id)) [
        | inl e ↦ cc (rw (reclaim, e) at h)
        | inr (node, e) ↦
            let body = reclaim_body host s id node now in
            let h₁ : (transaction db body).0 ≡ ok number = rw (reclaim, e) at h in
            let next = (transaction db body).1 in
            let taken =
              reclaim_body-Taken host s id now db node number next
                (transaction_ok db body number h₁) in
            let i = Taken-IsReclaimed unique small node number next e taken in
            let named = subst (λ g. node_ref g id ≡ some node) same_spec e in
            let fails = Taken-ReplaysFailed node number next named valid taken in
            rw (reclaim, e)
              (
                i,
                fails,
                λ host' later other claim attempt steps r n k.
                    let (row, found, gone) =
                      Steps-IsGone host' s.run.run_id id number next later steps
                        (i.left, i.released_row, i.gone) in
                    released_refused host' other later claim attempt row (rw (r, n, k) found) gone,
              )
      ]
