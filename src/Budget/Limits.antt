-- ===== src/Budget/Limits.antt =====
-- src/budget/mod.rs: a retry is decided only within every limit.
use checkspan.Common.{
  ℕ, ◌<◌, true, false, Option, none, some, ◌≡◌, refl, subst, ap, ◌∙◌, inl, inr, arith, nat_eq,
  list_eq, contains, leb, Result, ok, err, ◌>>=◌, >>=_ok, or_fail, ok-injective, Bool-cases,
  Option-cases,
}
use checkspan.Contracts.Ids.{NodeId}
use checkspan.Contracts.Time.{Timestamp}
use checkspan.Contracts.Node.{NodeSpec, FailureClass, failure_class_eq}
use checkspan.Contracts.Graph.{GraphSpec, GraphRun, find_node}
use checkspan.State.Node.{NodeState}
use checkspan.State.Run.{RunState, node_state}
use checkspan.Store.Tables.{Db}
use checkspan.Budget.Status.{
  Lineage, ExhaustReason, BudgetStatus, BudgetError, consumed, remaining, exhaustion,
  deadline_reason, passed, counted, status_from, budget_status,
}
use checkspan.Budget.Retry.{
  Disposition, settled, decide_budget, decide, disposition, class_of, failure_class,
}

-- The limits of the node's policy and of the graph's budget.
pub record WithinLimits (db : Db) (spec : GraphSpec) (run : GraphRun) (now : Timestamp)
    (node : NodeSpec) (class : FailureClass) (started : ℕ) : Type 0 where
  pub status : BudgetStatus
  pub counts : budget_status db spec run now ≡ some (ok status)
  pub retryable : contains node.retry_policy.allowed_failure_classes class ≡ true
  pub below_cap : started < node.retry_policy.max_attempts
  pub below_budget : consumed status < status.total_attempts
  pub in_time : passed now status.deadline ≡ false

from_passed :
    (db : Db) (spec : GraphSpec) (run : GraphRun) (now : Timestamp) (walked : Option Lineage)
    (b : BudgetStatus)
    → status_from db spec run now walked ≡ some (ok b)
    → b.deadline_passed ≡ passed now b.deadline
unfolding status_from counted
from_passed db spec run now none b h = cc
from_passed db spec run now (some (err e)) b h = cc
from_passed db spec run now (some (ok (lineage, used))) b h =
    let same : counted db spec run now lineage used ≡ b = cc in
    subst (λ (x : BudgetStatus). x.deadline_passed ≡ passed now x.deadline) same refl

status_passed :
    (db : Db) (spec : GraphSpec) (run : GraphRun) (now : Timestamp) (b : BudgetStatus)
    → budget_status db spec run now ≡ some (ok b)
    → b.deadline_passed ≡ passed now b.deadline
unfolding budget_status
status_passed db spec run now b h = from_passed db spec run now _ b h

not_exhausted :
    (b : BudgetStatus) (now : Timestamp)
    → b.deadline_passed ≡ passed now b.deadline
    → exhaustion b ≡ none
    → (consumed b < b.total_attempts) × (passed now b.deadline ≡ false)
unfolding exhaustion remaining deadline_reason passed
not_exhausted b now same h = elim (Bool-cases (passed now b.deadline)) [
  | inr e ↦ (ground arith, e)
  | inl e ↦ elim (Option-cases b.deadline) [
    | inl f ↦ let never = subst (λ o. passed now o ≡ true) f e in cc
    | inr (t, f) ↦ ground (arith, f)
  ]
]

decide_budget_retry :
    (node : NodeSpec) (class : FailureClass) (n : ℕ) (reason : Option ExhaustReason)
    (granted : FailureClass) (started most : ℕ)
    → decide_budget node class n reason ≡ Disposition.retry granted started most
    → (reason ≡ none) × (class ≡ granted) × (n ≡ started) × (node.retry_policy.max_attempts ≡ most)
unfolding decide_budget
decide_budget_retry node class n none granted started most h = (refl, cc, cc, cc)
decide_budget_retry node class n (some reason) granted started most h = cc

settled_ok :
    (walked : Option (Result BudgetStatus BudgetError)) (b : BudgetStatus)
    → settled walked ≡ ok b
    → walked ≡ some (ok b)
settled_ok none b h = cc
settled_ok (some outcome) b h = ap some h

decide_within :
    (db : Db) (spec : GraphSpec) (run : GraphRun) (now : Timestamp) (node : NodeSpec)
    (class : FailureClass) (n : ℕ) (granted : FailureClass) (started most : ℕ)
    → decide db spec run now node class n ≡ ok (Disposition.retry granted started most)
    → WithinLimits db spec run now node granted started
      × (class ≡ granted)
      × (n ≡ started)
      × (node.retry_policy.max_attempts ≡ most)
unfolding decide
decide_within db spec run now node class n granted started most h =
    elim (Bool-cases (contains node.retry_policy.allowed_failure_classes class)) [
      | inr e ↦ ground (arith, e)
      | inl e ↦ elim (Bool-cases (leb node.retry_policy.max_attempts n)) [
        | inl f ↦ ground (arith, e, f)
        | inr f ↦
            let rest : (settled (budget_status db spec run now) >>= λ b.
            ok (decide_budget node class n (exhaustion b)))
                ≡ ok (Disposition.retry granted started most) =
              ground (arith, e, f) in
            let (b, counts, h₁) = >>=_ok (settled (budget_status db spec run now)) _ rest in
            let (clear, same, count, most_is) =
              decide_budget_retry node class n (exhaustion b) granted started most
                (ok-injective h₁) in
            let known = settled_ok (budget_status db spec run now) b counts in
            let (below, in_time) =
              not_exhausted b now (status_passed db spec run now b known) clear in
            let cap : n < node.retry_policy.max_attempts = ground (arith, f) in
            (
              record {
                status = b;
                counts = known;
                retryable =
                    subst (λ c. contains node.retry_policy.allowed_failure_classes c ≡ true) same e;
                below_cap = subst (λ k. k < node.retry_policy.max_attempts) count cap;
                below_budget = below;
                in_time = in_time;
              },
              same,
              count,
              most_is,
            )
      ]
    ]

pub some_of :
    {A : Type 0} (o : Option A) (e : BudgetError) (a : A) → or_fail o e ≡ ok a → o ≡ some a
some_of none e a h = cc
some_of (some x) e a h = ap some (ok-injective h)

pub disposition_within :
    (db : Db) (spec : GraphSpec) (run : GraphRun) (state : RunState) (id : NodeId) (now : Timestamp)
    (class : FailureClass) (started most : ℕ)
    → disposition db spec run state id now ≡ ok (Disposition.retry class started most)
    → (node : NodeSpec) × (s : NodeState) × (find_node id spec.nodes ≡ some node)
      × (node_state state id ≡ some s)
      × (class_of db run.run_id id s s.status ≡ some class)
      × (s.attempts_started ≡ started)
      × (node.retry_policy.max_attempts ≡ most)
      × WithinLimits db spec run now node class started
unfolding disposition failure_class
disposition_within db spec run state id now class started most h =
    let (node, known, h₁) = >>=_ok (or_fail (find_node id spec.nodes) _) _ h in
    let (s, kept, h₂) = >>=_ok (or_fail (node_state state id) _) _ h₁ in
    let (maybe, what, h₃) = >>=_ok (failure_class db run.run_id id state) _ h₂ in
    let (c, some_class, h₄) = >>=_ok (or_fail maybe _) _ h₃ in
    let (t, again, h₅) = >>=_ok (or_fail (node_state state id) _) _ what in
    let (limits, same, count, most_is) =
      decide_within db spec run now node c s.attempts_started class started most h₄ in
    let state_is = some_of _ _ s kept in
    let one : t ≡ s = cc in
    let found = ok-injective h₅ ∙ some_of _ _ c some_class ∙ ap some same in
    (
      node,
      s,
      some_of _ _ node known,
      state_is,
      subst (λ (x : NodeState). class_of db run.run_id id x x.status ≡ some class) one found,
      count,
      most_is,
      limits,
    )
