-- ===== src/Budget/Failed.antt =====
-- src/budget/mod.rs: the class of a failure, in terms of the node and its stored attempt.
use checkspan.Common.{ℕ, Option, none, some, ◌≡◌, ◌⊎◌, refl, sym, subst, inl, inr, nat_eq, list_eq}
use mathlib.Core.Option.{get_or}
use checkspan.Contracts.Ids.{NodeId, RunId}
use checkspan.Contracts.Node.{FailureClass, failure_class_eq}
use checkspan.Contracts.View.{NodeStatus}
use checkspan.Contracts.Attempt.{Attempt, Execution, ExecutionOutcome, outcome_of}
use checkspan.State.Node.{NodeState}
use checkspan.Store.Tables.{Db, read_attempt}
use checkspan.Budget.Retry.{number_or_zero, class_of, class_of_outcome, outcome_of_attempt}

-- The attempt is stored, and its execution timed out.
abbrev pub TimedOut : Option Attempt → Type 0
TimedOut stored =
    (a : Attempt) × (e : Execution) × (stored ≡ some a)
    × (a.execution ≡ some e)
    × (e.outcome ≡ ExecutionOutcome.timed_out)

-- The class of a failure: a rejection, a timeout of the attempt that the node is at, or else the
-- infrastructure.
abbrev pub FailedAs : Db → RunId → NodeId → NodeState → FailureClass → Type 0
FailedAs db run_id id s class =
    ((s.status ≡ NodeStatus.rejected) × (class ≡ FailureClass.rejected))
    ⊎ ((s.status ≡ NodeStatus.failed)
        × (((TimedOut (read_attempt db run_id id (get_or s.current_attempt 0)))
              × (class ≡ FailureClass.timeout))
            ⊎ ((¬ TimedOut (read_attempt db run_id id (get_or s.current_attempt 0)))
                × (class ≡ FailureClass.infrastructure))))

module _ (a : Attempt) (class : FailureClass) where
  of_outcome :
      (e : Execution) (outcome : ExecutionOutcome)
      → a.execution ≡ some e
      → e.outcome ≡ outcome
      → class_of_outcome (some outcome) ≡ class
      → (TimedOut (some a) × (class ≡ FailureClass.timeout))
        ⊎ ((¬ TimedOut (some a)) × (class ≡ FailureClass.infrastructure))
  of_outcome e ExecutionOutcome.timed_out has is h = inl ((a, e, refl, has, is), sym h)
  of_outcome e ExecutionOutcome.completed has is h = inr (λ (b, d, p, q, r). cc, sym h)
  of_outcome e ExecutionOutcome.failed has is h = inr (λ (b, d, p, q, r). cc, sym h)
  of_outcome e ExecutionOutcome.cancelled has is h = inr (λ (b, d, p, q, r). cc, sym h)

  of_execution :
      (execution : Option Execution)
      → a.execution ≡ execution
      → class_of_outcome (outcome_of execution) ≡ class
      → (TimedOut (some a) × (class ≡ FailureClass.timeout))
        ⊎ ((¬ TimedOut (some a)) × (class ≡ FailureClass.infrastructure))
  of_execution none has h = inr (λ (b, d, p, q, r). cc, sym h)
  of_execution (some e) has h = of_outcome e e.outcome has refl h

timed_or_not :
    (stored : Option Attempt) (class : FailureClass)
    → class_of_outcome (outcome_of_attempt stored) ≡ class
    → (TimedOut stored × (class ≡ FailureClass.timeout))
      ⊎ ((¬ TimedOut stored) × (class ≡ FailureClass.infrastructure))
timed_or_not none class h = inr (λ (a, e, p, q, r). cc, sym h)
timed_or_not (some a) class h = of_execution a class a.execution refl h

number_is : (o : Option ℕ) → number_or_zero o ≡ get_or o 0
number_is none = refl
number_is (some n) = refl

pub class_of-FailedAs :
    (db : Db) (run_id : RunId) (id : NodeId) (s : NodeState) (status : NodeStatus)
    (class : FailureClass)
    → s.status ≡ status
    → class_of db run_id id s status ≡ some class
    → FailedAs db run_id id s class
unfolding class_of
class_of-FailedAs db run_id id s NodeStatus.rejected class is h = inl (is, cc)
class_of-FailedAs db run_id id s NodeStatus.failed class is h = inr (
  is,
  subst
      (λ n.
        (TimedOut (read_attempt db run_id id n) × (class ≡ FailureClass.timeout))
        ⊎ ((¬ TimedOut (read_attempt db run_id id n)) × (class ≡ FailureClass.infrastructure)))
      (number_is s.current_attempt) (timed_or_not _ class cc),
)
class_of-FailedAs db run_id id s _ class is h = cc
