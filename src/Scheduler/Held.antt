-- ===== src/Scheduler/Held.antt =====
-- src/scheduler/mod.rs: what `claim_next` does to the table of claims, whatever it returns.
use checkspan.Common.{
  ◌+◌, ◌<◌, ◌⊎◌, inl, inr, true, Option, none, some, List, [], ◌∷◌, ◌++◌, All, ◌≡◌, refl, sym,
  subst, ap, ◌∙◌, arith, ok, >>=_ok, map_err, map_err_ok, ok-injective, Result-cases, Bool-cases,
  leb, length,
}
use checkspan.Common.Tables.{All-tabulate}
use checkspan.Contracts.Ids.{Ident, NodeId}
use checkspan.Contracts.Time.{Timestamp}
use checkspan.Contracts.Node.{NodeSpec}
use checkspan.State.Event.{dispatched, kind_dispatched}
use checkspan.State.Node.{NodeState, apply}
use checkspan.State.Run.{RunState, node_state, replay_run}
use checkspan.Store.Rows.{ClaimRow}
use checkspan.Store.Tables.{Db, read_events, read_active_claims}
use checkspan.Store.Writes.{Host, log, next_fence, insert_claim, clamp_i64}
use checkspan.Store.Ops.{transaction}
use checkspan.Deps.Service.{DependencyService, DependencySnapshot, Blocker, receipt_refs}
use checkspan.Budget.Status.{ExhaustReason, exhaustion, budget_status}
use checkspan.Budget.Retry.{settled}
use checkspan.Scheduler.Claim.{
  ClaimOutcome, SchedulerError, Scheduler, Standing, conflict, standing_of, claim_row, dispatch,
  claim_first, claim_within, claim_body, claim_next, dispatch_payload,
}
use checkspan.Scheduler.Dispatch.{no_conflict, log-claims, active_count, read_active_count}
use checkspan.Scheduler.Exclusive.{Apart, excludes-Compatible}
use checkspan.Scheduler.Granted.{standing_ready}
use checkspan.Scheduler.Shown.{service_of}

-- One claim more, which is active, and whose resources no active claim excludes.
pub record Takes (db next : Db) : Type 0 where
  pub row : ClaimRow
  pub added : next.claims ≡ db.claims ++ row ∷ []
  pub active : row.active ≡ true
  pub free : All (λ c. Apart c row) db.claims

abbrev pub MayTake : Db → Db → Type 0
MayTake db next = (next.claims ≡ db.claims) ⊎ Takes db next

-- A claim is only taken below the cap of the scheduler.
abbrev pub MayTakeBelow : Scheduler → Db → Db → Type 0
MayTakeBelow s db next =
    (next.claims ≡ db.claims) ⊎ (Takes db next × (active_count db.claims < s.max_active))

module _ (host : Host) (s : Scheduler) where
  dispatch-Takes :
      (id : NodeId) (node : NodeSpec) (state : NodeState) (snapshot : DependencySnapshot) (db : Db)
      (o : ClaimOutcome) (next : Db)
      → conflict node (read_active_claims db) ≡ none
      → dispatch host s id node state snapshot db ≡ ok (o, next)
      → Takes db next
  unfolding dispatch insert_claim
  dispatch-Takes id node state snapshot db o next free h =
      let number = state.attempts_started + 1 in
      let fence = next_fence db s.run.run_id in
      let receipts = receipt_refs snapshot in
      let asked = claim_row s id node number fence receipts in
      let row : ClaimRow = record asked {
        fence = clamp_i64 fence;
        active = true;
        release = none;
        claimed_at = host.stamp db;
        released_at = none;
      } in
      let (applied, legal, h₁) =
        >>=_ok (map_err SchedulerError.transition (apply state (dispatched number))) _ h in
      let (held, put, h₂) =
        >>=_ok (map_err SchedulerError.store (insert_claim host db asked)) _ h₁ in
      let (left, logged, h₃) =
        >>=_ok
          (map_err SchedulerError.store (
            log host held s.run.run_id (some id) kind_dispatched
              (dispatch_payload number s.controller fence receipts)))
          _ h₂ in
      let inserted : record db { claims = db.claims ++ row ∷ [] } ≡ held =
        (let p = map_err_ok _ _ held put in ground arith) in
      let kept =
        log-claims host held s.run.run_id (some id) kind_dispatched
          (dispatch_payload number s.controller fence receipts) left (map_err_ok _ _ left logged) in
      record {
        row = row;
        added =
            ap (λ (p : ClaimOutcome × Db). p.1.claims) (sym (ok-injective h₃))
            ∙ kept
            ∙ ap (λ (d : Db). d.claims) (sym inserted);
        active = refl;
        free =
            All-tabulate (λ c. Apart c row) db.claims
              (λ c m live _ held wanted i j.
                excludes-Compatible held wanted
                  (no_conflict node db free wanted c held j m live i));
      }

  module _ (service : DependencyService) (db : Db) (o : ClaimOutcome) (next : Db) where
    abbrev LoopTakes : List NodeId → List (NodeId × List Blocker) → List (NodeId × Ident) → Type 0
    LoopTakes order blocked conflicts =
        claim_first host s service (read_active_claims db) db order blocked conflicts ≡ ok (o, next)
        → MayTake db next

    by_standing :
        (id : NodeId) (order : List NodeId) (blocked : List (NodeId × List Blocker))
        (conflicts : List (NodeId × Ident))
        → ((b : List (NodeId × List Blocker)) (k : List (NodeId × Ident)) → LoopTakes order b k)
        → (st : Standing)
        → standing_of service (read_active_claims db) id (node_state service.state id) ≡ st
        → LoopTakes (id ∷ order) blocked conflicts
    unfolding claim_first
    by_standing id order blocked conflicts later Standing.passed_over e h =
        later blocked conflicts (rw (claim_first, e) at h)
    by_standing id order blocked conflicts later (Standing.blocked_by bs) e h =
        later (blocked ++ (id, bs) ∷ []) conflicts (rw (claim_first, e) at h)
    by_standing id order blocked conflicts later (Standing.conflicts_on r) e h =
        later blocked (conflicts ++ (id, r) ∷ []) (rw (claim_first, e) at h)
    by_standing id order blocked conflicts later (Standing.missing gone) e h =
        let h₁ = rw (claim_first, e) at h in cc
    by_standing id order blocked conflicts later (Standing.ready node state snapshot) e h =
        let (_, _, _, _, free) =
          standing_ready service (read_active_claims db) id (node_state service.state id) node state
            snapshot e in
        inr (dispatch-Takes id node state snapshot db o next free (rw (claim_first, e) at h))

    claim_first-MayTake :
        (order : List NodeId) (blocked : List (NodeId × List Blocker))
        (conflicts : List (NodeId × Ident))
        → LoopTakes order blocked conflicts
    unfolding claim_first
    claim_first-MayTake [] blocked conflicts h =
        inl (ap (λ (p : ClaimOutcome × Db). p.1.claims) (sym (ok-injective h)))
    claim_first-MayTake (id ∷ order) blocked conflicts h =
        by_standing id order blocked conflicts (λ b k. claim_first-MayTake order b k)
          (standing_of service (read_active_claims db) id (node_state service.state id)) refl h

  claim_within-MayTake :
      (state : RunState) (now : Timestamp) (db : Db) (reason : Option ExhaustReason)
      (o : ClaimOutcome) (next : Db)
      → claim_within host s state now db reason ≡ ok (o, next)
      → MayTakeBelow s db next
  unfolding claim_within
  claim_within-MayTake state now db (some reason) o next h =
      inl (ap (λ (p : ClaimOutcome × Db). p.1.claims) (sym (ok-injective h)))
  claim_within-MayTake state now db none o next h =
      elim (Bool-cases (leb s.max_active (length (read_active_claims db)))) [
        | inl e ↦
            let h₁ = rw (claim_within, e) at h in
            inl (ap (λ (p : ClaimOutcome × Db). p.1.claims) (sym (ok-injective h₁)))
        | inr e ↦
            let h₁ = rw (claim_within, e) at h in
            let below : active_count db.claims < s.max_active =
              subst (λ n. n < s.max_active) (read_active_count db) (ground (arith, e)) in
            elim (claim_first-MayTake (service_of s db now state) db o next s.graph.order [] []
              h₁) [ inl same ↦ inl same | inr taken ↦ inr (taken, below) ]
      ]

  pub claim_next-MayTake :
      (db : Db) (now : Timestamp) → MayTakeBelow s db (claim_next host s db now).1
  unfolding claim_next transaction claim_body
  claim_next-MayTake db now = elim (Result-cases (claim_body host s now db)) [
    | inr (e, f) ↦ rw (claim_next, transaction, f) (inl refl)
    | inl ((o, next), e) ↦
        let (state, replays, h₁) =
          >>=_ok
            (map_err SchedulerError.transition
              (replay_run s.run.run_id s.spec (read_events db s.run.run_id)))
            _ e in
        let (status, counted, h₂) =
          >>=_ok (map_err SchedulerError.budget (settled (budget_status db s.spec s.run now))) _
            h₁ in
        rw (claim_next, transaction, e)
          (claim_within-MayTake state now db (exhaustion status) o next h₂)
  ]
