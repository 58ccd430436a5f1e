-- ===== src/Budget/Status.antt =====
-- src/budget/mod.rs: `BudgetStatus`, and the walk along the lineage of a run. The walk is on fuel;
-- `none` is a walk that has run out of it.
use checkspan.Common.{
  ℕ, zero, suc, ◌+◌, ◌-◌, Bool, true, false, not, Option, none, some, List, [], ◌∷◌, ◌++◌, ◌==◌,
  nat_eq, list_eq, contains, length, leb, if◌then◌else◌, Result, ok, err,
}
use checkspan.Contracts.Ids.{NodeId, RunId, Ident}
use checkspan.Contracts.Time.{Timestamp, is_before}
use checkspan.Contracts.Node.{FailureClass}
use checkspan.Contracts.Graph.{GraphSpec, GraphRun}
use checkspan.Contracts.View.{NodeStatus}
use checkspan.State.Event.{TransitionError}
use checkspan.Store.Tables.{Db, StoreError, read_dispatch_count, read_run, max_u32}

pub record BudgetStatus : Type 0 where
  pub total_attempts : ℕ
  pub consumed_here : ℕ
  pub consumed_by_lineage : ℕ
  pub lineage : List RunId
  pub deadline : Option Timestamp
  pub deadline_passed : Bool

pub data ExhaustReason : Type 0 where
  node_cap : (max_attempts started : ℕ) → ExhaustReason
  class_not_retryable : FailureClass → ExhaustReason
  graph_budget : (total consumed : ℕ) → ExhaustReason
  deadline_passed : Timestamp → ExhaustReason

pub data NarrowingError : Type 0 where
  unknown_port required_port duplicate_port restricted_and_dropped empty_sources :
      Ident → NarrowingError
  widens_scope : Ident → Ident → NarrowingError

-- `Invalid` by its message; `expect_failed` is the panic of `expect`, and `out_of_fuel` the walk that
-- never happens.
pub data BudgetError : Type 0 where
  store : StoreError → BudgetError
  transition : TransitionError → BudgetError
  narrowing : NarrowingError → BudgetError
  no_outcome : NodeId → NodeStatus → BudgetError
  lineage_loops unknown_ancestor : RunId → RunId → BudgetError
  unknown_node expect_failed : NodeId → BudgetError
  out_of_fuel : BudgetError

-- `u32::saturating_add`
unfoldable pub saturating_add : ℕ → ℕ → ℕ
saturating_add a b = if leb (a + b) max_u32 then a + b else max_u32

unfoldable pub consumed : BudgetStatus → ℕ
unfolding saturating_add
consumed b = saturating_add b.consumed_here b.consumed_by_lineage

unfoldable pub remaining : BudgetStatus → ℕ
unfolding consumed
remaining b = b.total_attempts - consumed b

unfoldable pub deadline_reason : Option Timestamp → Option ExhaustReason
deadline_reason none = none
deadline_reason (some t) = some (ExhaustReason.deadline_passed t)

unfoldable pub exhaustion : BudgetStatus → Option ExhaustReason
unfolding remaining consumed deadline_reason
exhaustion b =
    if b.deadline_passed
    then deadline_reason b.deadline
    else if remaining b == 0
    then some (graph_budget b.total_attempts (consumed b))
    else none

abbrev pub Lineage : Type 0
Lineage = Result (List RunId × ℕ) BudgetError

-- The loop `while let Some(ancestor_id) = next`: `seen` starts with the run itself.
unfoldable pub walk : ℕ → Db → RunId → List RunId → List RunId → ℕ → Option RunId → Option Lineage
unfolding contains saturating_add
walk fuel db own seen lineage used none = some (ok (lineage, used))
walk zero db own seen lineage used (some ancestor) = none
walk (suc fuel) db own seen lineage used (some ancestor) = elim (contains seen ancestor) [
  | true ↦ some (err (lineage_loops own ancestor))
  | false ↦ elim (read_run db ancestor) [
    | none ↦ some (err (unknown_ancestor own ancestor))
    | some run ↦
        walk fuel db own (ancestor ∷ seen) (lineage ++ ancestor ∷ [])
          (saturating_add used (read_dispatch_count db ancestor)) run.budget_lineage_ref
  ]
]

-- Each turn takes a stored run that no turn has taken, so the stored runs are fuel enough.
abbrev pub enough : Db → ℕ
enough db = suc (length db.runs)

unfoldable pub passed : Timestamp → Option Timestamp → Bool
unfolding is_before
passed now none = false
passed now (some deadline) = not (is_before now deadline)

unfoldable pub counted : Db → GraphSpec → GraphRun → Timestamp → List RunId → ℕ → BudgetStatus
unfolding passed
counted db spec run now lineage used = record {
  total_attempts = spec.budget.total_attempts;
  consumed_here = read_dispatch_count db run.run_id;
  consumed_by_lineage = used;
  lineage = lineage;
  deadline = spec.budget.deadline;
  deadline_passed = passed now spec.budget.deadline;
}

unfoldable pub status_from :
    Db
    → GraphSpec
    → GraphRun
    → Timestamp
    → Option Lineage
    → Option (Result BudgetStatus BudgetError)
unfolding counted
status_from db spec run now none = none
status_from db spec run now (some (err e)) = some (err e)
status_from db spec run now (some (ok (lineage, used))) =
    some (ok (counted db spec run now lineage used))

unfoldable pub budget_status :
    Db → GraphSpec → GraphRun → Timestamp → Option (Result BudgetStatus BudgetError)
unfolding status_from walk
budget_status db spec run now =
    status_from db spec run now
      (walk (enough db) db run.run_id (run.run_id ∷ []) [] 0 run.budget_lineage_ref)
