-- ===== src/State/Seen.antt =====
-- src/state/mod.rs: `RunState::views` after a replay finds a state for every node of the graph.
use mathlib.Core.List.{Memᴰ, Forall₂}
use checkspan.Common.{
  true, Option, none, some, List, [], ◌∷◌, ◌≡◌, refl, ap, ◌∙◌, ok, ◌>>=◌, >>=_ok, or_fail,
  Bool-cases, inl, inr, ◌==◌, list_eq, nat_eq, find, All, ==_self,
}
use checkspan.Common.Tables.{All-tabulate}
use checkspan.Contracts.Ids.{NodeId, RunId}
use checkspan.Contracts.Refs.{NodeRef}
use checkspan.Contracts.Graph.{GraphSpec}
use checkspan.Contracts.View.{NodeView}
use checkspan.State.Event.{unknown_node}
use checkspan.State.Node.{NodeState, to_view}
use checkspan.State.Stored.{from_stored}
use checkspan.State.Run.{
  RunState, new_run, apply_run, find_ref, replay_stored, replay_run_from, replay_run, refs_of,
  node_state, views_from, views,
}
use checkspan.State.Projection.{apply_run_frame}
use checkspan.State.Replayed.{replay_run_projects}
use checkspan.Store.Rows.{StoredEvent}

abbrev SameGraph : RunState → RunState → Type 0
SameGraph r r' = (r'.nodes ≡ r.nodes) × (r'.run_id ≡ r.run_id)

replay_stored-SameGraph :
    (r : RunState) (x : StoredEvent) (o : Option NodeId) (r' : RunState)
    → replay_stored r x o ≡ ok r'
    → SameGraph r r'
unfolding replay_stored
replay_stored-SameGraph r x none r' h = let e : r ≡ r' = cc in rw (← e) (refl, refl)
replay_stored-SameGraph r x (some j) r' h =
    let (node, named, rest) =
      >>=_ok (or_fail (find_ref j r.nodes) (unknown_node j))
        (λ n. from_stored x n >>= λ e. apply_run r j e) h in
    let (e, decodes, applies) = >>=_ok (from_stored x node) (λ e. apply_run r j e) rest in
    let kept = apply_run_frame r j j e r' applies in (kept.1, kept.2)

replay_run_from-SameGraph :
    (xs : List StoredEvent) (r r' : RunState) → replay_run_from r xs ≡ ok r' → SameGraph r r'
unfolding replay_run_from
replay_run_from-SameGraph [] r r' h = let e : r ≡ r' = cc in rw (← e) (refl, refl)
replay_run_from-SameGraph (x ∷ xs) r r' h =
    let (next, first, rest) = >>=_ok (replay_stored r x x.node_id) (λ n. replay_run_from n xs) h in
    let (nodes, id) = replay_stored-SameGraph r x x.node_id next first in
    let (nodes', id') = replay_run_from-SameGraph xs next r' rest in (nodes' ∙ nodes, id' ∙ id)

abbrev pub HasState : RunState → NodeRef → Type 0
HasState r n = (t : NodeState) × (node_state r n.node_id ≡ some t)

find_ref_member :
    (refs : List NodeRef) (n : NodeRef)
    → Memᴰ n refs
    → (m : NodeRef) × (find_ref n.node_id refs ≡ some m)
unfolding find
find_ref_member [] n i = elim i [ ]
find_ref_member (m ∷ refs) n (Memᴰ.head e) = (
  m,
  (let same : (m.node_id == n.node_id) ≡ true = rw e (==_self m.node_id) in rw (find, same) refl),
)
find_ref_member (m ∷ refs) n (Memᴰ.tail i) = elim (Bool-cases (m.node_id == n.node_id)) [
  | inl e ↦ (m, rw (find, e) refl)
  | inr e ↦ let (found, at) = find_ref_member refs n i in (found, rw (find, e) at)
]

-- The view of a node is of the state kept for it.
abbrev pub IsSeen : RunState → NodeRef → NodeView → Type 0
IsSeen r n v = (t : NodeState) × (node_state r n.node_id ≡ some t) × (v ≡ to_view t r.run_id n)

views_from-IsSeen :
    (r : RunState) (refs : List NodeRef)
    → All (HasState r) refs
    → (vs : List NodeView) × (views_from r refs ≡ some vs) × Forall₂ (IsSeen r) refs vs
unfolding views_from
views_from-IsSeen r [] h = ([], refl, Forall₂.nil)
views_from-IsSeen r (n ∷ ns) ((t, has), hs) =
    let (vs, seen, each) = views_from-IsSeen r ns hs in
    (to_view t r.run_id n ∷ vs, rw (views_from, has, seen) refl, Forall₂.cons (t, has, refl) each)

-- After a replay `views` does not panic, and gives each node of the graph, in order, its view.
pub replay_run-IsSeen :
    (run_id : RunId) (spec : GraphSpec) (events : List StoredEvent) (r : RunState)
    → replay_run run_id spec events ≡ ok r
    → (vs : List NodeView) × (views r ≡ some vs) × Forall₂ (IsSeen r) (refs_of spec) vs
unfolding views replay_run new_run
replay_run-IsSeen run_id spec events r h =
    let (nodes, id) = replay_run_from-SameGraph events (new_run run_id spec) r h in
    let states = All-tabulate (HasState r) (refs_of spec) (λ n i.
      let (m, at) = find_ref_member (refs_of spec) n i in
      let (t, found, folds) = replay_run_projects run_id spec events r n.node_id m h at in
      (t, found)) in
    let (vs, seen, each) = views_from-IsSeen r (refs_of spec) states in
    (vs, ap (views_from r) nodes ∙ seen, each)
