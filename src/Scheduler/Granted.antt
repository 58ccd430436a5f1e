-- ===== src/Scheduler/Granted.antt =====
-- src/scheduler/mod.rs: the claims that `claim_next` grants.
use checkspan.Common.{
  suc, ◌+◌, ◌<◌, Option, none, some, List, [], ◌∷◌, ◌++◌, ◌≡◌, refl, sym, subst, ap, ◌∙◌, inl, inr,
  arith, ◌==◌, ==→≡, nat_eq, list_eq, length, leb, Result, ok, err, >>=_ok, map_err, ok-injective,
  Result-cases, Option-cases, Bool-cases,
}
use checkspan.Contracts.Ids.{Ident, NodeId}
use checkspan.Contracts.Time.{Timestamp}
use checkspan.Contracts.Node.{NodeSpec}
use checkspan.Contracts.Graph.{find_node}
use checkspan.Contracts.View.{NodeStatus, node_status_eq}
use checkspan.State.Event.{TransitionError, dispatched, kind_dispatched}
use checkspan.State.Node.{NodeState, apply}
use checkspan.State.Run.{RunState, node_state, replay_run}
use checkspan.Store.Rows.{ClaimRow}
use checkspan.Store.Tables.{Db, read_events, read_active_claims}
use checkspan.Store.Writes.{Host, log, next_fence, insert_claim}
use checkspan.Store.Ops.{transaction_ok}
use checkspan.Deps.Service.{DependencyService, DependencySnapshot, Blocker, resolve, receipt_refs}
use checkspan.Budget.Pending.{pending_narrowing}
use checkspan.Budget.Status.{BudgetStatus, BudgetError, ExhaustReason, exhaustion, budget_status}
use checkspan.Budget.Retry.{settled}
use checkspan.Scheduler.Claim.{
  Claim, ClaimOutcome, SchedulerError, Scheduler, Standing, conflict, standing_of, claim_row,
  dispatch, claim_first, claim_within, claim_body, claim_next, dispatch_payload,
}
use checkspan.Scheduler.Dispatch.{
  ClaimGranted, no_conflict, insert_claim-active, log-claims, stored_ok, read_active_count,
  active_count,
}

-- What the loop has checked of a node that it claims.
abbrev Ready :
    DependencyService → List ClaimRow → NodeId → NodeSpec → NodeState → DependencySnapshot → Type 0
Ready service active id node state snapshot =
    (node_state service.state id ≡ some state)
    × (state.status ≡ NodeStatus.opened)
    × (resolve service id ≡ ok snapshot)
    × (find_node id service.spec.nodes ≡ some node)
    × (conflict node active ≡ none)

pub standing_ready :
    (service : DependencyService) (active : List ClaimRow) (id : NodeId) (o : Option NodeState)
    (node : NodeSpec) (state : NodeState) (snapshot : DependencySnapshot)
    → standing_of service active id o ≡ Standing.ready node state snapshot
    → (o ≡ some state)
      × (state.status ≡ NodeStatus.opened)
      × (resolve service id ≡ ok snapshot)
      × (find_node id service.spec.nodes ≡ some node)
      × (conflict node active ≡ none)
unfolding standing_of
standing_ready service active id none node state snapshot h = cc
standing_ready service active id (some s) node state snapshot h =
    elim (Bool-cases (s.status == NodeStatus.opened)) [
      | inr e ↦ ground (arith, e)
      | inl e ↦ elim (Result-cases (resolve service id)) [
        | inr (bs, f) ↦ ground (arith, e, f)
        | inl (snap, f) ↦ elim (Option-cases (find_node id service.spec.nodes)) [
          | inl g ↦ ground (arith, e, f, g)
          | inr (n, g) ↦ elim (Option-cases (conflict n active)) [
            | inr (r, k) ↦ ground (arith, e, f, g, k)
            | inl k ↦
                let is : Standing.ready n s snap ≡ Standing.ready node state snapshot =
                  ground (arith, e, f, g, k) in
                let same : (n ≡ node) × (s ≡ state) × (snap ≡ snapshot) = (cc, cc, cc) in
                (
                  ap some same.1,
                  subst (λ (x : NodeState). x.status ≡ NodeStatus.opened) same.1
                      (==→≡ s.status NodeStatus.opened e),
                  f ∙ ap ok same.2,
                  g ∙ ap some same.0,
                  subst (λ x. conflict x active ≡ none) same.0 k,
                )
          ]
        ]
      ]
    ]

module _ (host : Host) (s : Scheduler) (service : DependencyService) (active : List ClaimRow)
    (db : Db) (c : Claim) (next : Db) where
  -- The claim is the dispatch of a node that is ready.
  abbrev Dispatches : Type 0
  Dispatches =
      (id : NodeId) × (node : NodeSpec) × (state : NodeState) × (snapshot : DependencySnapshot)
      × Ready service active id node state snapshot
      × (dispatch host s id node state snapshot db ≡ ok (ClaimOutcome.claimed c, next))

  abbrev Loop : List NodeId → List (NodeId × List Blocker) → List (NodeId × Ident) → Type 0
  Loop order blocked conflicts =
      claim_first host s service active db order blocked conflicts
      ≡ ok (ClaimOutcome.claimed c, next)

  by_standing :
      (id : NodeId) (order : List NodeId) (blocked : List (NodeId × List Blocker))
      (conflicts : List (NodeId × Ident))
      → ((b : List (NodeId × List Blocker)) (k : List (NodeId × Ident))
          → Loop order b k
          → Dispatches)
      → (st : Standing) → standing_of service active id (node_state service.state id) ≡ st
      → Loop (id ∷ order) blocked conflicts
      → Dispatches
  unfolding claim_first
  by_standing id order blocked conflicts later Standing.passed_over e h =
      later blocked conflicts (rw (claim_first, e) at h)
  by_standing id order blocked conflicts later (Standing.blocked_by bs) e h =
      later (blocked ++ (id, bs) ∷ []) conflicts (rw (claim_first, e) at h)
  by_standing id order blocked conflicts later (Standing.conflicts_on r) e h =
      later blocked (conflicts ++ (id, r) ∷ []) (rw (claim_first, e) at h)
  by_standing id order blocked conflicts later (Standing.missing gone) e h =
      let h₁ = rw (claim_first, e) at h in cc
  by_standing id order blocked conflicts later (Standing.ready node state snapshot) e h = (
    id,
    node,
    state,
    snapshot,
    standing_ready service active id (node_state service.state id) node state snapshot e,
    rw (claim_first, e) at h,
  )

  claim_first-Dispatches :
      (order : List NodeId) (blocked : List (NodeId × List Blocker))
      (conflicts : List (NodeId × Ident))
      → Loop order blocked conflicts
      → Dispatches
  unfolding claim_first
  claim_first-Dispatches [] blocked conflicts h = cc
  claim_first-Dispatches (id ∷ order) blocked conflicts h =
      by_standing id order blocked conflicts (λ b k g. claim_first-Dispatches order b k g)
        (standing_of service active id (node_state service.state id)) refl h

-- What a dispatch writes.
dispatch_writes :
    (host : Host) (s : Scheduler) (id : NodeId) (node : NodeSpec) (state : NodeState)
    (snapshot : DependencySnapshot) (db : Db) (c : Claim) (next : Db)
    → dispatch host s id node state snapshot db ≡ ok (ClaimOutcome.claimed c, next)
    → (c.node_id ≡ id)
      × (c.number ≡ state.attempts_started + 1)
      × (c.fence ≡ next_fence db s.run.run_id)
      × (c.dependency_receipts ≡ receipt_refs snapshot)
      × (length (read_active_claims next) ≡ suc (length (read_active_claims db)))
      × (c.narrowing ≡ pending_narrowing (read_events db s.run.run_id) id)
unfolding dispatch
dispatch_writes host s id node state snapshot db c next h =
    let number = state.attempts_started + 1 in
    let fence = next_fence db s.run.run_id in
    let receipts = receipt_refs snapshot in
    let row = claim_row s id node number fence receipts in
    let (applied, legal, h₁) =
      >>=_ok (map_err SchedulerError.transition (apply state (dispatched number))) _ h in
    let (held, put, h₂) = >>=_ok (map_err SchedulerError.store (insert_claim host db row)) _ h₁ in
    let (left, logged, h₃) =
      >>=_ok
        (map_err SchedulerError.store (
          log host held s.run.run_id (some id) kind_dispatched
            (dispatch_payload number s.controller fence receipts)))
        _ h₂ in
    let inserted = insert_claim-active host db row held (stored_ok _ held put) in
    let kept =
      log-claims host held s.run.run_id (some id) kind_dispatched
        (dispatch_payload number s.controller fence receipts) left (stored_ok _ left logged) in
    let pair = ok-injective h₃ in
    let left_is : left ≡ next = ap (λ p. p.1) pair in
    let outcome = ap (λ p. p.0) pair in
    let counted =
      read_active_count left
      ∙ ap active_count kept
      ∙ inserted
      ∙ ap suc (sym (read_active_count db)) in
    (
      cc,
      cc,
      cc,
      cc,
      subst (λ (d : Db). length (read_active_claims d) ≡ suc (length (read_active_claims db)))
          left_is counted,
      cc,
    )

settled_status :
    (o : Option (Result BudgetStatus BudgetError)) (b : BudgetStatus)
    → map_err SchedulerError.budget (settled o) ≡ ok b
    → o ≡ some (ok b)
settled_status none b h = cc
settled_status (some (ok x)) b h = ap (λ y. some (ok y)) (ok-injective h)
settled_status (some (err e)) b h = cc

replayed_ok :
    (r : Result RunState TransitionError) (x : RunState)
    → map_err SchedulerError.transition r ≡ ok x
    → r ≡ ok x
replayed_ok (ok a) x h = ap ok (ok-injective h)
replayed_ok (err e) x h = cc

claim_within-Ready :
    (host : Host) (s : Scheduler) (state : RunState) (now : Timestamp) (db : Db)
    (reason : Option ExhaustReason) (c : Claim) (next : Db)
    → claim_within host s state now db reason ≡ ok (ClaimOutcome.claimed c, next)
    → (reason ≡ none)
      × (length (read_active_claims db) < s.max_active)
      × (claim_first host s
            (record { spec = s.spec; run = s.run; state = state; store = db; now = now })
            (read_active_claims db)
            db
            s.graph.order
            []
            []
          ≡ ok (ClaimOutcome.claimed c, next))
unfolding claim_within
claim_within-Ready host s state now db (some r) c next h = cc
claim_within-Ready host s state now db none c next h =
    elim (Bool-cases (leb s.max_active (length (read_active_claims db)))) [
      | inl e ↦ ground (arith, e)
      | inr e ↦ (refl, ground (arith, e), ground (arith, e))
    ]

-- When `claim_next` returns a claim, the log of the run replays to a state in which the node is
-- open, the budget is not exhausted, every dependency of the node resolves and the claim pins
-- the receipts that it resolves to, no active claim of any run holds a resource of the node
-- where either of the two asks for it exclusively, the attempt is the next one of the node, the
-- token is the next one of the run, the narrowing is the one pending in the log, one claim more
-- is active than before, and no more than the cap.
pub claim_next-ClaimGranted :
    (host : Host) (s : Scheduler) (db : Db) (now : Timestamp) (c : Claim)
    → (claim_next host s db now).0 ≡ ok (ClaimOutcome.claimed c)
    → ClaimGranted s db now c (claim_next host s db now).1
unfolding claim_next claim_body
claim_next-ClaimGranted host s db now c h =
    let next = (claim_next host s db now).1 in
    let body = transaction_ok db (claim_body host s now) (ClaimOutcome.claimed c) h in
    let (state, replayed, h₁) =
      >>=_ok
        (map_err SchedulerError.transition
          (replay_run s.run.run_id s.spec (read_events db s.run.run_id)))
        _ body in
    let (status, counted, h₂) =
      >>=_ok (map_err SchedulerError.budget (settled (budget_status db s.spec s.run now))) _ h₁ in
    let (left, below, loop) =
      claim_within-Ready host s state now db (exhaustion status) c next h₂ in
    let service : DependencyService = record {
      spec = s.spec;
      run = s.run;
      state = state;
      store = db;
      now = now;
    } in
    let (id, node, node_is, snapshot, (kept, was_open, resolved, declared, free), sent) =
      claim_first-Dispatches host s service (read_active_claims db) db c next s.graph.order [] []
        loop in
    let (same, numbered, fenced, pinned, one_more, narrowed) =
      dispatch_writes host s id node node_is snapshot db c next sent in
    record {
      state = state;
      status = status;
      node = node;
      node_is = node_is;
      snapshot = snapshot;
      replayed = replayed_ok _ state replayed;
      counted = settled_status _ status counted;
      budget_left = left;
      declared = subst (λ i. find_node i s.spec.nodes ≡ some node) (sym same) declared;
      kept = subst (λ i. node_state state i ≡ some node_is) (sym same) kept;
      was_open = was_open;
      resolved = subst (λ i. resolve service i ≡ ok snapshot) (sym same) resolved;
      pinned = pinned;
      numbered = numbered;
      fenced = fenced;
      narrowed = narrowed ∙ ap (pending_narrowing (read_events db s.run.run_id)) (sym same);
      exclusive_to = no_conflict node db free;
      under_cap = omega (arith, one_more, below);
      one_more = one_more;
    }
