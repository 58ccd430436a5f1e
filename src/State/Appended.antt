-- ===== src/State/Appended.antt =====
-- What `RunState::replay` makes of a log to which one event of a node of the graph is appended.
use checkspan.Common.{
  some, List, [], ◌∷◌, ◌++◌, ◌≡◌, refl, ◌∙◌, ap, arith, ◌==◌, list_eq, nat_eq, ok, >>=_ok, insert,
  lookup-insert, ==_self, find, map, Bool-cases, inl, inr,
}
use checkspan.Contracts.Ids.{NodeId, RunId}
use checkspan.Contracts.Node.{NodeSpec}
use checkspan.Contracts.Graph.{GraphSpec, find_node, ref_of}
use checkspan.State.Event.{NodeEvent}
use checkspan.State.Node.{NodeState, apply, open_state}
use checkspan.State.Stored.{from_stored}
use checkspan.State.Run.{
  RunState, new_run, apply_run, find_ref, replay_stored, replay_run_from, replay_run, refs_of,
  node_state,
}
use checkspan.State.Replayed.{replay_run_from-Follows, lookup-all_open}
use checkspan.Store.Rows.{StoredEvent}

replay_run_from-append :
    (xs : List StoredEvent) (x : StoredEvent) (r mid last : RunState)
    → replay_run_from r xs ≡ ok mid
    → replay_stored mid x x.node_id ≡ ok last
    → replay_run_from r (xs ++ x ∷ []) ≡ ok last
unfolding replay_run_from
replay_run_from-append [] x r mid last h k = let same : r ≡ mid = cc in rw same (rw k refl)
replay_run_from-append (y ∷ ys) x r mid last h k =
    let (next, first, rest) = >>=_ok (replay_stored r y y.node_id) (λ n. replay_run_from n ys) h in
    rw first (replay_run_from-append ys x next mid last rest k)

find_node-ref :
    (graph_id : RunId) (nodes : List NodeSpec) (id : NodeId) (node : NodeSpec)
    → find_node id nodes ≡ some node
    → find_ref id (map (ref_of graph_id) nodes) ≡ some (ref_of graph_id node)
unfolding find
find_node-ref graph_id [] id node h = cc
find_node-ref graph_id (n ∷ ns) id node h = elim (Bool-cases (n.id == id)) [
  | inl same ↦
      let one : n ≡ node = cc (rw same at h) in rw same (ap (λ m. some (ref_of graph_id m)) one)
  | inr other ↦ rw other (find_node-ref graph_id ns id node (rw other at h))
]

module _ (run_id : RunId) (spec : GraphSpec) (events : List StoredEvent) (r : RunState)
    (id : NodeId) (node : NodeSpec) (x : StoredEvent) (e : NodeEvent) (s t : NodeState) where
  replay_stored-applied :
      find_ref id r.nodes ≡ some (ref_of spec.graph_id node)
      → from_stored x (ref_of spec.graph_id node) ≡ ok e
      → node_state r id ≡ some s
      → apply s e ≡ ok t
      → replay_stored r x (some id) ≡ ok (record r { states = insert id t r.states })
  unfolding replay_stored apply_run
  replay_stored-applied named decoded found applied =
      rw (replay_stored, named, decoded, apply_run, found, applied) refl

  -- The state that the node has in the replayed log steps by the event.
  pub replay_run-append :
      replay_run run_id spec events ≡ ok r
      → find_node id spec.nodes ≡ some node
      → x.node_id ≡ some id
      → from_stored x (ref_of spec.graph_id node) ≡ ok e
      → node_state r id ≡ some s
      → apply s e ≡ ok t
      → (r' : RunState) × (replay_run run_id spec (events ++ x ∷ []) ≡ ok r')
        × (node_state r' id ≡ some t)
  unfolding replay_run new_run
  replay_run-append replayed in_graph about decoded found applied =
      let named = find_node-ref spec.graph_id spec.nodes id node in_graph in
      let (_, kept) =
        replay_run_from-Follows events (new_run run_id spec) r id open_state
          (lookup-all_open (refs_of spec) id named) replayed in
      let at = ap (λ refs. find_ref id refs) kept ∙ named in
      let last = replay_stored-applied at decoded found applied in
      let next = record r { states = insert id t r.states } in
      (
        next,
        replay_run_from-append events x (new_run run_id spec) r next replayed
            (ap (λ o. replay_stored r x o) about ∙ last),
        rw lookup-insert (ground (arith, ==_self id)),
      )
