-- ===== src/State/Run.antt =====
-- src/state/mod.rs, lines 530 to 628: the state of every node of one run.
use checkspan.Common.{
  Option, none, some, List, [], ◌∷◌, map, ◌==◌, list_eq, nat_eq, Result, ok, ◌>>=◌, or_fail, find,
  lookup, insert,
}
use checkspan.Contracts.Ids.{NodeId, RunId}
use checkspan.Contracts.Refs.{NodeRef}
use checkspan.Contracts.Graph.{GraphSpec, ref_of}
use checkspan.Contracts.View.{NodeView}
use checkspan.State.Event.{NodeEvent, TransitionError, unknown_node}
use checkspan.State.Node.{NodeState, open_state, apply, to_view}
use checkspan.State.Stored.{from_stored}
use checkspan.Store.Rows.{StoredEvent}

abbrev pub States : Type 0
States = List (NodeId × NodeState)

pub record RunState : Type 0 where
  pub run_id : RunId
  pub nodes : List NodeRef
  pub states : States

-- `nodes.iter().map(|n| (n.node_id.clone(), NodeState::open())).collect()`
unfoldable pub all_open : List NodeRef → States
unfolding insert
all_open [] = []
all_open (n ∷ ns) = insert n.node_id open_state (all_open ns)

abbrev pub refs_of : GraphSpec → List NodeRef
refs_of spec = map (ref_of spec.graph_id) spec.nodes

-- `RunState::new`
unfoldable pub new_run : RunId → GraphSpec → RunState
unfolding all_open
new_run run_id spec = record {
  run_id = run_id;
  nodes = refs_of spec;
  states = all_open (refs_of spec);
}

-- `RunState::apply`, which returns the state that it leaves.
unfoldable pub apply_run : RunState → NodeId → NodeEvent → Result RunState TransitionError
unfolding lookup insert
apply_run r id e = do
  state ← or_fail (lookup id r.states) (unknown_node id)
  next ← apply state e
  ok (record r { states = insert id next r.states })

abbrev pub find_ref : NodeId → List NodeRef → Option NodeRef
find_ref id refs = find (λ n. n.node_id == id) refs

-- The body of the loop of `RunState::replay`.
unfoldable pub replay_stored :
    RunState → StoredEvent → Option NodeId → Result RunState TransitionError
replay_stored r stored none = ok r
replay_stored r stored (some id) = do
  node ← or_fail (find_ref id r.nodes) (unknown_node id)
  event ← from_stored stored node
  apply_run r id event

unfoldable pub replay_run_from : RunState → List StoredEvent → Result RunState TransitionError
unfolding replay_stored
replay_run_from r [] = ok r
replay_run_from r (stored ∷ rest) =
    replay_stored r stored stored.node_id >>= λ next. replay_run_from next rest

-- `RunState::replay`
unfoldable pub replay_run : RunId → GraphSpec → List StoredEvent → Result RunState TransitionError
unfolding new_run replay_run_from replay_stored find
replay_run run_id spec events = replay_run_from (new_run run_id spec) events

-- `RunState::node`
abbrev pub node_state : RunState → NodeId → Option NodeState
node_state r id = lookup id r.states

-- `RunState::views`; `none` is the panic of `expect`.
unfoldable pub views_from : RunState → List NodeRef → Option (List NodeView)
unfolding lookup
views_from r [] = some []
views_from r (n ∷ ns) = elim (lookup n.node_id r.states) [
  | none ↦ none
  | some s ↦ elim (views_from r ns) [ none ↦ none | some vs ↦ some (to_view s r.run_id n ∷ vs) ]
]

unfoldable pub views : RunState → Option (List NodeView)
unfolding views_from
views r = views_from r r.nodes
