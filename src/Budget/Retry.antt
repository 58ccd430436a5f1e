-- ===== src/Budget/Retry.antt =====
-- src/budget/mod.rs: what follows an attempt that failed or was rejected.
use checkspan.Common.{
  ℕ, not, Option, none, some, List, [], ◌∷◌, Text, text, nat_eq, list_eq, find, contains, leb,
  lookup, if◌then◌else◌, Result, ok, err, ◌>>=◌, or_fail, map_err,
}
use checkspan.Common.Json.{Value, Items, Fields}
use checkspan.Contracts.Ids.{NodeId, RunId}
use checkspan.Contracts.Time.{Timestamp}
use checkspan.Contracts.Node.{NodeSpec, FailureClass, failure_class_eq, OnExhaustion}
use checkspan.Contracts.Graph.{GraphSpec, GraphRun, find_node}
use checkspan.Contracts.View.{NodeStatus}
use checkspan.Contracts.Attempt.{Attempt, ExecutionOutcome, outcome_of}
use checkspan.State.Event.{retry_allowed, node_cancelled, kind_retry, kind_cancelled, option_text}
use checkspan.State.Node.{NodeState, apply}
use checkspan.State.Run.{RunState, replay_run, node_state}
use checkspan.Store.Tables.{Db, read_events, read_attempt}
use checkspan.Store.Writes.{Host, log}
use checkspan.Store.Ops.{transaction}
use checkspan.Budget.Status.{
  BudgetStatus, BudgetError, ExhaustReason, no_outcome, unknown_node, expect_failed, out_of_fuel,
  class_not_retryable, node_cap, budget_status, exhaustion,
}
use checkspan.Budget.Narrow.{Narrowing, check_narrowing}

pub data Disposition : Type 0 where
  retry : FailureClass → (started max_attempts : ℕ) → Disposition
  exhausted : ExhaustReason → OnExhaustion → Disposition

-- `current_attempt.map(|n| n.get()).unwrap_or(0)`
abbrev pub number_or_zero : Option ℕ → ℕ
number_or_zero none = 0
number_or_zero (some n) = n

abbrev pub class_of_outcome : Option ExecutionOutcome → FailureClass
class_of_outcome (some ExecutionOutcome.timed_out) = FailureClass.timeout
class_of_outcome _ = FailureClass.infrastructure

abbrev pub outcome_of_attempt : Option Attempt → Option ExecutionOutcome
outcome_of_attempt none = none
outcome_of_attempt (some a) = outcome_of a.execution

unfoldable pub class_of : Db → RunId → NodeId → NodeState → NodeStatus → Option FailureClass
class_of db run_id id s NodeStatus.rejected = some FailureClass.rejected
class_of db run_id id s NodeStatus.failed = some (
    class_of_outcome
      (outcome_of_attempt (read_attempt db run_id id (number_or_zero s.current_attempt))))
class_of db run_id id s _ = none

unfoldable pub failure_class :
    Db → RunId → NodeId → RunState → Result (Option FailureClass) BudgetError
unfolding class_of lookup
failure_class db run_id id state = do
  s ← or_fail (node_state state id) (unknown_node id)
  ok (class_of db run_id id s s.status)

-- What the walk returns, as it does with the fuel that it is given.
abbrev pub settled : Option (Result BudgetStatus BudgetError) → Result BudgetStatus BudgetError
settled none = err out_of_fuel
settled (some outcome) = outcome

unfoldable pub decide_budget : NodeSpec → FailureClass → ℕ → Option ExhaustReason → Disposition
decide_budget node class started (some reason) =
    Disposition.exhausted reason node.retry_policy.on_exhaustion
decide_budget node class started none =
    Disposition.retry class started node.retry_policy.max_attempts

-- `disposition` once the class of the failure is known.
unfoldable pub decide :
    Db
    → GraphSpec
    → GraphRun
    → Timestamp
    → NodeSpec
    → FailureClass
    → ℕ
    → Result Disposition BudgetError
unfolding contains budget_status exhaustion decide_budget
decide db spec run now node class started =
    if not (contains node.retry_policy.allowed_failure_classes class)
    then ok (Disposition.exhausted (class_not_retryable class) node.retry_policy.on_exhaustion)
    else if leb node.retry_policy.max_attempts started
    then ok (
        Disposition.exhausted (node_cap node.retry_policy.max_attempts started)
          node.retry_policy.on_exhaustion)
    else (settled (budget_status db spec run now) >>= λ b.
        ok (decide_budget node class started (exhaustion b)))

unfoldable pub disposition :
    Db → GraphSpec → GraphRun → RunState → NodeId → Timestamp → Result Disposition BudgetError
unfolding failure_class decide find lookup
disposition db spec run state id now = do
  node ← or_fail (find_node id spec.nodes) (unknown_node id)
  s ← or_fail (node_state state id) (expect_failed id)
  found ← failure_class db run.run_id id state
  class ← or_fail found (no_outcome id s.status)
  decide db spec run now node class s.attempts_started

unfoldable pub texts : List Text → Items
texts [] = Items.nil
texts (t ∷ rest) = Items.cons (Value.string t) (texts rest)

unfoldable pub restrictions : List (Text × List Text) → Items
unfolding texts
restrictions [] = Items.nil
restrictions ((port, sources) ∷ rest) =
    Items.cons
      (Value.array
        (Items.cons (Value.string port) (Items.cons (Value.array (texts sources)) Items.nil)))
      (restrictions rest)

unfoldable pub narrowing_payload : Narrowing → Value
unfolding texts restrictions
narrowing_payload n = Value.object (
    Fields.field (text "repair_hint") (option_text n.repair_hint) (
      Fields.field (text "dropped_ports") (Value.array (texts n.dropped_ports)) (
        Fields.field (text "restricted_sources") (Value.array (restrictions n.restricted_sources))
          Fields.end)))

-- The match on the decision in `apply_retry_policy`. `reason_json` is serde's form of a reason.
unfoldable pub carry_out :
    Host
    → (ExhaustReason → Value)
    → Db
    → RunId
    → NodeId
    → NodeSpec
    → NodeState
    → Narrowing
    → Disposition
    → Result Db BudgetError
unfolding check_narrowing apply log narrowing_payload
carry_out host reason_json db run_id id node s n (Disposition.retry class started most) = do
  _ ← map_err BudgetError.narrowing (check_narrowing node n)
  _ ← map_err BudgetError.transition (apply s retry_allowed)
  map_err BudgetError.store (log host db run_id (some id) kind_retry (narrowing_payload n))
carry_out host reason_json db run_id id node s n
      (Disposition.exhausted reason OnExhaustion.cancel) =
    do
      _ ← map_err BudgetError.transition (apply s node_cancelled)
      map_err BudgetError.store (
          log host db run_id (some id) kind_cancelled
            (Value.object (Fields.field (text "exhausted") (reason_json reason) Fields.end)))
carry_out host reason_json db run_id id node s n (Disposition.exhausted reason OnExhaustion.gate) =
    ok db

-- The body of the transaction of `apply_retry_policy`.
unfoldable pub retry_body :
    Host
    → (ExhaustReason → Value)
    → GraphSpec
    → GraphRun
    → NodeId
    → NodeSpec
    → Narrowing
    → Timestamp
    → Db
    → Result (Disposition × Db) BudgetError
unfolding read_events replay_run disposition carry_out lookup
retry_body host reason_json spec run id node n now db = do
  state ← map_err BudgetError.transition (replay_run run.run_id spec (read_events db run.run_id))
  decision ← disposition db spec run state id now
  s ← or_fail (node_state state id) (expect_failed id)
  next ← carry_out host reason_json db run.run_id id node s n decision
  ok (decision, next)

unfoldable pub apply_retry_policy :
    Host
    → (ExhaustReason → Value)
    → Db
    → GraphSpec
    → GraphRun
    → NodeId
    → Narrowing
    → Timestamp
    → Result Disposition BudgetError × Db
unfolding transaction retry_body find
apply_retry_policy host reason_json db spec run id n now =
    elim (or_fail (find_node id spec.nodes) (unknown_node id)) [
      | err e ↦ (err e, db)
      | ok node ↦ transaction db (retry_body host reason_json spec run id node n now)
    ]
