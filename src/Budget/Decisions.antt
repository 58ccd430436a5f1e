-- ===== src/Budget/Decisions.antt =====
-- src/budget/mod.rs: what has been decided and written when a retry is granted.
use checkspan.Common.{ℕ, none, some, List, ◌≡◌, nat_eq, list_eq, ok}
use checkspan.Contracts.Ids.{NodeId}
use checkspan.Contracts.Time.{Timestamp}
use checkspan.Contracts.Node.{NodeSpec, PortSpec, FailureClass, failure_class_eq}
use checkspan.Contracts.Graph.{GraphSpec, GraphRun, find_node}
use checkspan.Contracts.View.{opened}
use checkspan.State.Event.{kind_retry}
use checkspan.State.Node.{NodeState}
use checkspan.State.Run.{RunState, node_state, replay_run}
use checkspan.Store.Tables.{Db, read_events}
use checkspan.Store.Logged.{IsLogged}
use checkspan.Budget.Narrow.{Narrowing, check_narrowing}
use checkspan.Budget.Retry.{narrowing_payload}
use checkspan.Budget.Failed.{FailedAs}
use checkspan.Budget.Limits.{WithinLimits}

module _ (db : Db) (spec : GraphSpec) (run : GraphRun) (id : NodeId) (n : Narrowing)
    (now : Timestamp) (class : FailureClass) (started most : ℕ) where
  -- The state that the replayed log gives the node, its failure, its limits, and what is written.
  pub record Granted (left : Db) : Type 0 where
    pub node : NodeSpec
    pub in_graph : find_node id spec.nodes ≡ some node
    pub state : RunState
    pub replayed : replay_run run.run_id spec (read_events db run.run_id) ≡ ok state
    pub current : NodeState
    pub at_node : node_state state id ≡ some current
    pub of_class : FailedAs db run.run_id id current class
    pub starts : current.attempts_started ≡ started
    pub cap_is : node.retry_policy.max_attempts ≡ most
    pub limits : WithinLimits db spec run now node class started
    pub ports : List PortSpec
    pub narrows : check_narrowing node n ≡ ok ports
    pub written : IsLogged run.run_id (some id) kind_retry (narrowing_payload n) db left
    pub reopened : RunState
    pub replays : replay_run run.run_id spec (read_events left run.run_id) ≡ ok reopened
    pub open_again :
        node_state reopened id
        ≡ some (record current { status = opened; current_attempt = none; receipt = none })
