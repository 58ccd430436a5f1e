-- ===== src/Scheduler/Claim.antt =====
-- src/scheduler/mod.rs: the data of the scheduler, and `claim_next`.
use checkspan.Common.{
  ℕ, ◌+◌, Bool, true, not, ◌&&◌, ◌||◌, Option, none, some, List, [], ◌∷◌, ◌++◌, Text, text, ◌==◌,
  nat_eq, list_eq, find, any, length, leb, lookup, if◌then◌else◌, Result, ok, err, ◌>>=◌, map_err,
}
use checkspan.Common.Json.{Value, Items, Fields}
use checkspan.Contracts.Ids.{Ident, NodeId, RunId}
use checkspan.Contracts.Time.{Timestamp}
use checkspan.Contracts.Refs.{ReceiptRef}
use checkspan.Contracts.Node.{NodeSpec, ResourceClaim, exclusive, resource_access_eq}
use checkspan.Contracts.Graph.{GraphSpec, GraphRun, find_node}
use checkspan.Contracts.View.{NodeStatus, node_status_eq}
use checkspan.State.Event.{TransitionError, dispatched, kind_dispatched}
use checkspan.State.Node.{NodeState, apply}
use checkspan.State.Run.{RunState, node_state, replay_run}
use checkspan.Store.Rows.{ClaimRow}
use checkspan.Store.Tables.{Db, StoreError, read_events, read_active_claims}
use checkspan.Store.Writes.{Host, log, next_fence, insert_claim}
use checkspan.Store.Ops.{transaction}
use checkspan.Deps.Service.{DependencyService, DependencySnapshot, Blocker, resolve, receipt_refs}
use checkspan.Budget.Status.{BudgetError, ExhaustReason, exhaustion, budget_status}
use checkspan.Budget.Retry.{settled}
use checkspan.Budget.Narrow.{Narrowing}
use checkspan.Budget.Pending.{pending_narrowing}
use checkspan.Admission.Links.{AdmissionError}
use checkspan.Admission.Admit.{AdmittedGraph}

pub record Claim : Type 0 where
  pub run_id : RunId
  pub node_id : NodeId
  pub number : ℕ
  pub fence : ℕ
  pub owner : Text
  pub dependency_receipts : List ReceiptRef
  pub narrowing : Option Narrowing

pub data ClaimOutcome : Type 0 where
  claimed : Claim → ClaimOutcome
  busy : (active max_active : ℕ) → ClaimOutcome
  budget_exhausted : ExhaustReason → ClaimOutcome
  nothing_ready : List (NodeId × List Blocker) → List (NodeId × Ident) → ClaimOutcome

-- `Invalid` by its message, and `expect_failed` for the panic of `expect`.
pub data SchedulerError : Type 0 where
  budget : BudgetError → SchedulerError
  not_in_graph no_active_claim expect_failed : NodeId → SchedulerError
  store : StoreError → SchedulerError
  transition : TransitionError → SchedulerError
  not_claimed : NodeId → ℕ → SchedulerError
  stale : NodeId → ℕ → (held current : ℕ) → Option Text → SchedulerError
  attempt_of_other_claim attempt_of_other_node no_execution : SchedulerError
  snapshot_mismatch : SchedulerError
  empty_controller run_of_other_graph admission_stuck : SchedulerError
  not_admitted : List AdmissionError → SchedulerError

pub record Scheduler : Type 0 where
  pub spec : GraphSpec
  pub graph : AdmittedGraph
  pub run : GraphRun
  pub controller : Text
  pub max_active : ℕ

-- Whether two claims on resources exclude each other.
abbrev pub excludes : ResourceClaim → ResourceClaim → Bool
excludes wanted held =
    (held.resource == wanted.resource)
    && ((wanted.access == exclusive) || (held.access == exclusive))

unfoldable pub conflict_in : List ResourceClaim → List ClaimRow → Option Ident
unfolding any
conflict_in [] active = none
conflict_in (wanted ∷ rest) active =
    if any (λ claim. any (excludes wanted) claim.resources) active
    then some wanted.resource
    else conflict_in rest active

unfoldable pub conflict : NodeSpec → List ClaimRow → Option Ident
unfolding conflict_in
conflict node active = conflict_in node.resource_scope active

ref_json : ReceiptRef → Value
ref_json r = Value.object (
    Fields.field (text "id") (Value.string r.id) (
      Fields.field (text "run_id") (Value.string r.run_id) (
        Fields.field (text "node")
          (Value.object (
            Fields.field (text "graph_id") (Value.string r.node.graph_id) (
              Fields.field (text "node_id") (Value.string r.node.node_id)
                (Fields.field (text "revision") (Value.number r.node.revision) Fields.end))))
          Fields.end)))

refs_json : List ReceiptRef → Items
unfolding ref_json
refs_json [] = Items.nil
refs_json (r ∷ rest) = Items.cons (ref_json r) (refs_json rest)

unfoldable pub dispatch_payload : ℕ → Text → ℕ → List ReceiptRef → Value
unfolding refs_json
dispatch_payload number owner fence receipts = Value.object (
    Fields.field (text "number") (Value.number number) (
      Fields.field (text "owner") (Value.string owner) (
        Fields.field (text "fence") (Value.number fence) (
          Fields.field (text "dependency_receipts") (Value.array (refs_json receipts))
            Fields.end))))

-- What the loop of `claim_next` finds out about one node.
pub data Standing : Type 0 where
  passed_over : Standing
  blocked_by : List Blocker → Standing
  conflicts_on : Ident → Standing
  missing : NodeId → Standing
  ready : NodeSpec → NodeState → DependencySnapshot → Standing

unfoldable pub standing_of :
    DependencyService → List ClaimRow → NodeId → Option NodeState → Standing
unfolding resolve find conflict
standing_of service active id none = passed_over
standing_of service active id (some state) =
    if not (state.status == NodeStatus.opened) then passed_over else elim (resolve service id) [
      | err blockers ↦ blocked_by blockers
      | ok snapshot ↦ elim (find_node id service.spec.nodes) [
        | none ↦ missing id
        | some node ↦ elim (conflict node active) [
          | some resource ↦ conflicts_on resource
          | none ↦ ready node state snapshot
        ]
      ]
    ]

abbrev pub claim_row : Scheduler → NodeId → NodeSpec → ℕ → ℕ → List ReceiptRef → ClaimRow
claim_row s id node number fence receipts = record {
  run_id = s.run.run_id;
  node_id = id;
  number = number;
  owner = s.controller;
  fence = fence;
  dependency_receipts = receipts;
  resources = node.resource_scope;
  active = true;
  release = none;
  claimed_at = [];
  released_at = none;
}

-- The end of the loop's body, where the node is claimed.
unfoldable pub dispatch :
    Host
    → Scheduler
    → NodeId
    → NodeSpec
    → NodeState
    → DependencySnapshot
    → Db
    → Result (ClaimOutcome × Db) SchedulerError
unfolding apply next_fence insert_claim log dispatch_payload read_events pending_narrowing
dispatch host s id node state snapshot db =
    let number = state.attempts_started + 1 in
    let fence = next_fence db s.run.run_id in
    let receipts = receipt_refs snapshot in
    do
      _ ← map_err SchedulerError.transition (apply state (dispatched number))
      held ←
          map_err SchedulerError.store
            (insert_claim host db (claim_row s id node number fence receipts))
      next ← map_err SchedulerError.store (
          log host held s.run.run_id (some id) kind_dispatched
            (dispatch_payload number s.controller fence receipts))
      ok (
        ClaimOutcome.claimed (record {
          run_id = s.run.run_id;
          node_id = id;
          number = number;
          fence = fence;
          owner = s.controller;
          dependency_receipts = receipts;
          narrowing = pending_narrowing (read_events db s.run.run_id) id;
        }),
        next,
      )

-- The loop over `graph.order`.
unfoldable pub claim_first :
    Host
    → Scheduler
    → DependencyService
    → List ClaimRow
    → Db
    → List NodeId
    → List (NodeId × List Blocker)
    → List (NodeId × Ident)
    → Result (ClaimOutcome × Db) SchedulerError
unfolding standing_of dispatch lookup
claim_first host s service active db [] blocked conflicts =
    ok (ClaimOutcome.nothing_ready blocked conflicts, db)
claim_first host s service active db (id ∷ order) blocked conflicts =
    elim (standing_of service active id (node_state service.state id)) [
      | passed_over ↦ claim_first host s service active db order blocked conflicts
      | blocked_by bs ↦
          claim_first host s service active db order (blocked ++ (id, bs) ∷ []) conflicts
      | conflicts_on r ↦
          claim_first host s service active db order blocked (conflicts ++ (id, r) ∷ [])
      | missing gone ↦ err (SchedulerError.expect_failed gone)
      | ready node state snapshot ↦ dispatch host s id node state snapshot db
    ]

-- `claim_next` once the budget is known to last.
unfoldable pub claim_within :
    Host
    → Scheduler
    → RunState
    → Timestamp
    → Db
    → Option ExhaustReason
    → Result (ClaimOutcome × Db) SchedulerError
unfolding claim_first read_active_claims
claim_within host s state now db (some reason) = ok (ClaimOutcome.budget_exhausted reason, db)
claim_within host s state now db none =
    let active = read_active_claims db in
    let service : DependencyService = record {
      spec = s.spec;
      run = s.run;
      state = state;
      store = db;
      now = now;
    } in
    if leb s.max_active (length active)
    then ok (ClaimOutcome.busy (length active) s.max_active, db)
    else claim_first host s service active db s.graph.order [] []

-- The body of its transaction.
unfoldable pub claim_body :
    Host → Scheduler → Timestamp → Db → Result (ClaimOutcome × Db) SchedulerError
unfolding read_events replay_run budget_status exhaustion claim_within
claim_body host s now db = do
  state ←
      map_err SchedulerError.transition
        (replay_run s.run.run_id s.spec (read_events db s.run.run_id))
  status ← map_err SchedulerError.budget (settled (budget_status db s.spec s.run now))
  claim_within host s state now db (exhaustion status)

unfoldable pub claim_next :
    Host → Scheduler → Db → Timestamp → Result ClaimOutcome SchedulerError × Db
unfolding transaction claim_body
claim_next host s db now = transaction db (claim_body host s now)
