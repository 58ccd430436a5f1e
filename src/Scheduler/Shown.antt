-- ===== src/Scheduler/Shown.antt =====
-- src/scheduler/mod.rs: `Scheduler::views`, the views of a run with the reason that blocks each open
-- node.
use mathlib.Core.List.{Forall₂}
use checkspan.Common.{
  Option, none, some, List, [], ◌∷◌, map, ◌≡◌, ◌≢◌, refl, Result, ok, ◌>>=◌, map_err_ok, Bool-cases,
  inl, inr, ◌==◌, ==→≡, ≡→==, nat_eq, if◌then◌else◌,
}
use checkspan.Contracts.Refs.{NodeRef}
use checkspan.Contracts.Time.{Timestamp}
use checkspan.Contracts.View.{NodeStatus, node_status_eq, NodeView}
use checkspan.State.Run.{RunState, refs_of, node_state, views}
use checkspan.State.Node.{NodeState, to_view}
use checkspan.State.Seen.{IsSeen, replay_run-IsSeen}
use checkspan.Store.Tables.{Db, read_events}
use checkspan.Deps.Service.{DependencyService}
use checkspan.Deps.Reason.{blocked_reason, IsReason, blocked_reason_lem}
use checkspan.Scheduler.Claim.{Scheduler, SchedulerError}
use checkspan.Scheduler.Finish.{replayed}

abbrev pub service_of : Scheduler → Db → Timestamp → RunState → DependencyService
service_of s db now state = record {
  spec = s.spec;
  run = s.run;
  state = state;
  store = db;
  now = now;
}

-- The body of the loop.
unfoldable pub with_reason : DependencyService → NodeView → NodeView
unfolding blocked_reason
with_reason service view =
    if view.status == NodeStatus.opened
    then record view { blocked_reason = blocked_reason service view.node.node_id }
    else view

abbrev shown : DependencyService → Option (List NodeView) → Option (List NodeView)
shown service none = none
shown service (some vs) = some (map (with_reason service) vs)

-- `none` is the panic of `RunState::views`.
unfoldable pub scheduler_views :
    Scheduler → Db → Timestamp → Result (Option (List NodeView)) SchedulerError
unfolding replayed views with_reason
scheduler_views s db now = do
  state ← replayed db s.run.run_id s.spec
  ok (shown (service_of s db now state) (views state))

-- The view of a node is that of its state, but for the reason why an open node is blocked.
abbrev pub IsShown : DependencyService → NodeRef → NodeView → Type 0
IsShown service n v =
    (t : NodeState) × (node_state service.state n.node_id ≡ some t)
    × (v ≡ record (to_view t service.state.run_id n) { blocked_reason = v.blocked_reason })
    × (t.status ≡ NodeStatus.opened → IsReason service n.node_id v.blocked_reason)
    × (t.status ≢ NodeStatus.opened → v.blocked_reason ≡ none)

with_reason-IsShown :
    (service : DependencyService) (n : NodeRef) (v : NodeView)
    → IsSeen service.state n v
    → IsShown service n (with_reason service v)
unfolding with_reason
with_reason-IsShown service n v (t, has, same) =
    rw same (elim (Bool-cases (t.status == NodeStatus.opened)) [
      | inl e ↦ (
        t,
        has,
        rw e refl,
        λ _. rw e (blocked_reason_lem service n.node_id),
        λ closed. elim (closed (==→≡ t.status NodeStatus.opened e)) [ ],
      )
      | inr e ↦ (t, has, rw e refl, λ o. cc (≡→== t.status NodeStatus.opened o), λ _. rw e refl)
    ])

map-IsShown :
    (service : DependencyService) (refs : List NodeRef) (vs : List NodeView)
    → Forall₂ (IsSeen service.state) refs vs
    → Forall₂ (IsShown service) refs (map (with_reason service) vs)
map-IsShown service [] [] h = Forall₂.nil
map-IsShown service [] (v ∷ vs) h = elim h [ ]
map-IsShown service (n ∷ ns) [] h = elim h [ ]
map-IsShown service (n ∷ ns) (v ∷ vs) (Forall₂.cons h hs) =
    Forall₂.cons (with_reason-IsShown service n v h) (map-IsShown service ns vs hs)

-- When the log of the run replays, the `views` of the scheduler do not panic, and give each node
-- of the graph, in order, the view of the state kept for it; an open node has no blocked reason
-- exactly when its dependencies resolve, and otherwise one that is not the empty text; any other
-- node has none.
pub scheduler_views_exact :
    (s : Scheduler) (db : Db) (now : Timestamp) (state : RunState)
    → replayed db s.run.run_id s.spec ≡ ok state
    → (vs : List NodeView) × (scheduler_views s db now ≡ ok (some vs))
      × Forall₂ (IsShown (service_of s db now state)) (refs_of s.spec) vs
unfolding scheduler_views replayed
scheduler_views_exact s db now state h =
    let (vs, seen, each) =
      replay_run-IsSeen s.run.run_id s.spec (read_events db s.run.run_id) state
        (map_err_ok _ _ _ h) in
    let service = service_of s db now state in
    (map (with_reason service) vs, rw (h, seen) refl, map-IsShown service (refs_of s.spec) vs each)
