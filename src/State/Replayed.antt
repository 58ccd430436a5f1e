-- ===== src/State/Replayed.antt =====
-- What holds of a run's state after `RunState::replay`, for every node of the graph.
use checkspan.Common.{
  Option, none, some, List, [], ◌∷◌, ◌++◌, ◌≡◌, refl, ◌∙◌, arith, ◌==◌, list_eq, nat_eq, ==→≡,
  Bool-cases, inl, inr, ok, err, ◌>>=◌, >>=_ok, lookup, lookup-insert, find, subst, All, ◌&&◌,
  is_some, is_none, when, text, Result, Yields,
}
use checkspan.Contracts.Ids.{NodeId, RunId}
use checkspan.Contracts.Refs.{NodeRef}
use checkspan.Contracts.Graph.{GraphSpec}
use checkspan.Contracts.View.{
  NodeStatus, gated, gate_required, receipt_not_allowed, check_view, node_status_eq,
}
use checkspan.State.Event.{NodeEvent, dispatched, receipt_admitted, gate_opened, TransitionError}
use checkspan.State.Node.{NodeState, apply, replay_from, replay, open_state, to_view}
use checkspan.State.Stored.{
  from_stored, decode_finished, decode_receipt, decode_decided, decoded, decode_number,
  decode_ident,
}
use checkspan.State.Run.{
  RunState, new_run, all_open, find_ref, replay_stored, replay_run_from, replay_run, refs_of,
  node_state,
}
use checkspan.State.Invariant.{replay-IsCoherent}
use checkspan.State.Views.{OwnReceipt, check_view-to_view}
use checkspan.State.Projection.{
  Follows, events_of, event_at, decoded_at, replay_stored-Follows, replay-append,
}
use checkspan.Store.Rows.{StoredEvent}

pub replay_run_from-Follows :
    (xs : List StoredEvent) (r r' : RunState) (id : NodeId) (s : NodeState)
    → lookup id r.states ≡ some s
    → replay_run_from r xs ≡ ok r'
    → Follows r' id s (events_of r.nodes id xs) × (r'.nodes ≡ r.nodes)
unfolding replay_run_from replay_from
replay_run_from-Follows [] r r' id s found h =
    let e : r ≡ r' = cc in ((s, rw (← e) found, refl), rw e)
replay_run_from-Follows (x ∷ xs) r r' id s found h =
    let (next, first, rest) = >>=_ok (replay_stored r x x.node_id) (λ n. replay_run_from n xs) h in
    let (step, same) = replay_stored-Follows r x x.node_id next id s found first in
    let (later, same') = replay_run_from-Follows xs next r' id step.0 step.1 rest in
    (
      (
        later.0,
        later.1,
        replay-append (event_at r.nodes id x x.node_id) (events_of r.nodes id xs) s step.0 step.2
            ∙ (rw same at later.2),
      ),
      same' ∙ same,
    )

pub lookup-all_open :
    (refs : List NodeRef) (id : NodeId) {node : NodeRef}
    → find_ref id refs ≡ some node
    → lookup id (all_open refs) ≡ some open_state
unfolding all_open find lookup
lookup-all_open [] id h = cc
lookup-all_open (n ∷ ns) id {node = node} h =
    rw lookup-insert (elim (Bool-cases (n.node_id == id)) [
      | inl same ↦ rw same refl
      | inr other ↦ rw other (lookup-all_open ns id {node = node} (ground arith))
    ])

-- When the event log of a run replays, then for every id that names a node of the graph the
-- state kept for it is the one that folding the decoded events of that node alone, from the open
-- state, gives.
pub replay_run_projects :
    (run_id : RunId) (spec : GraphSpec) (events : List StoredEvent) (r : RunState) (id : NodeId)
    (node : NodeRef)
    → replay_run run_id spec events ≡ ok r
    → find_ref id (refs_of spec) ≡ some node
    → (t : NodeState) × (node_state r id ≡ some t)
      × (replay (events_of (refs_of spec) id events) ≡ ok t)
unfolding replay_run replay new_run
replay_run_projects run_id spec events r id node h at =
    (replay_run_from-Follows events (new_run run_id spec) r id open_state
      (lookup-all_open (refs_of spec) id at) h).0

-- A decoded receipt is about the run that the event was stored for and the node that it was decoded at.
abbrev pub IsOwn : RunId → NodeRef → NodeEvent → Type 0
IsOwn run node (receipt_admitted n r v) = (r.node ≡ node) × (r.run_id ≡ run)
IsOwn run node _ = Unit

decode_finished-IsOwn :
    (x : StoredEvent) (run : RunId) (node : NodeRef) → Yields (IsOwn run node) (decode_finished x)
unfolding decode_finished
decode_finished-IsOwn x run node = ground arith

decode_receipt-IsOwn :
    (x : StoredEvent) (node : NodeRef) → Yields (IsOwn x.run_id node) (decode_receipt x node)
unfolding decode_receipt
decode_receipt-IsOwn x node = ground arith

decode_decided-IsOwn :
    (x : StoredEvent) (run : RunId) (node : NodeRef) → Yields (IsOwn run node) (decode_decided x)
unfolding decode_decided
decode_decided-IsOwn x run node = ground arith

wrap-IsOwn :
    {A : Type 0} (run : RunId) (node : NodeRef) (m : Result A TransitionError) (f : A → NodeEvent)
    → ((a : A) → IsOwn run node (f a))
    → Yields (IsOwn run node) (m >>= λ a. ok (f a))
wrap-IsOwn run node (ok a) f h = h a
wrap-IsOwn run node (err e) f h = tt

from_stored-IsOwn :
    (x : StoredEvent) (node : NodeRef) → Yields (IsOwn x.run_id node) (from_stored x node)
unfolding from_stored
from_stored-IsOwn x node = ground (
  arith,
  wrap-IsOwn x.run_id node (decoded x (text "number") decode_number) (λ n. dispatched n) (λ n. tt),
  decode_finished-IsOwn x x.run_id node,
  decode_receipt-IsOwn x node,
  wrap-IsOwn x.run_id node (decoded x (text "packet_id") decode_ident) (λ p. gate_opened p)
      (λ p. tt),
  decode_decided-IsOwn x x.run_id node,
)

apply-OwnReceipt :
    (run : RunId) (node : NodeRef) (s : NodeState) (e : NodeEvent) (t : NodeState)
    → IsOwn run node e
    → OwnReceipt run node s.receipt
    → apply s e ≡ ok t
    → OwnReceipt run node t.receipt
unfolding apply
apply-OwnReceipt run node s (receipt_admitted n r v) t own had h = ground arith
apply-OwnReceipt run node s (dispatched n) t own had h = ground arith
apply-OwnReceipt run node s e t own had h = ground arith

replay_from-OwnReceipt :
    (run : RunId) (node : NodeRef) (es : List NodeEvent) (s t : NodeState)
    → All (IsOwn run node) es
    → OwnReceipt run node s.receipt
    → replay_from s es ≡ ok t
    → OwnReceipt run node t.receipt
unfolding replay_from
replay_from-OwnReceipt run node [] s t own had h =
    let e : s ≡ t = cc in subst (λ (z : NodeState). OwnReceipt run node z.receipt) e had
replay_from-OwnReceipt run node (e ∷ es) s t own had h =
    let (next, first, rest) = >>=_ok (apply s e) (λ n. replay_from n es) h in
    replay_from-OwnReceipt run node es next t own.1
      (apply-OwnReceipt run node s e next own.0 had first) rest

-- What holds of two lists' elements holds of all elements of their concatenation.
All-append {ℓ κ} :
    {A : Type ℓ} (P : A → Type κ) (front back : List A)
    → All P front
    → All P back
    → All P (front ++ back)
All-append P [] back f b = b
All-append P (a ∷ front) back f b = (f.0, All-append P front back f.1 b)

decoded_at-IsOwn :
    (run : RunId) (node : NodeRef) (x : StoredEvent) (r : Result NodeEvent TransitionError)
    → Yields (IsOwn run node) r
    → All (IsOwn run node) (elim r [ ok e ↦ e ∷ [] | err _ ↦ [] ])
decoded_at-IsOwn run node x (ok e) y = (y, tt)
decoded_at-IsOwn run node x (err e) y = tt

event_at-IsOwn :
    (refs : List NodeRef) (id : NodeId) (x : StoredEvent) (o : Option NodeId) {node : NodeRef}
    → find_ref id refs ≡ some node
    → All (IsOwn x.run_id node) (event_at refs id x o)
event_at-IsOwn refs id x none at = tt
event_at-IsOwn refs id x (some j) {node} at = elim (Bool-cases (j == id)) [
  | inl same ↦ rw same (
      rw (==→≡ j id same)
        (rw (at, decoded_at) (decoded_at-IsOwn x.run_id node x _ (from_stored-IsOwn x node))))
  | inr other ↦ rw other tt
]

events_of-IsOwn :
    (refs : List NodeRef) (id : NodeId) (run : RunId) (events : List StoredEvent) {node : NodeRef}
    → find_ref id refs ≡ some node
    → All (λ x. x.run_id ≡ run) events
    → All (IsOwn run node) (events_of refs id events)
events_of-IsOwn refs id run [] at h = tt
events_of-IsOwn refs id run (x ∷ xs) {node} at h =
    All-append (IsOwn run node) _ _
      (subst (λ r. All (IsOwn r node) (event_at refs id x x.node_id)) h.0
        (event_at-IsOwn refs id x x.node_id at))
      (events_of-IsOwn refs id run xs at h.1)

-- When a log whose events all belong to the run replays, the view derived for a node of the
-- graph breaks the view contract in exactly two cases: `receipt_not_allowed` when the node is
-- cancelled and its state holds a receipt, and `gate_required` when it is gated and waits on no
-- packet.
pub replay_run_views :
    (run_id : RunId) (spec : GraphSpec) (events : List StoredEvent) (r : RunState) (id : NodeId)
    (node : NodeRef)
    → All (λ x. x.run_id ≡ run_id) events
    → replay_run run_id spec events ≡ ok r
    → find_ref id (refs_of spec) ≡ some node
    → (t : NodeState) × (node_state r id ≡ some t)
      × (check_view (to_view t run_id node)
          ≡ when
              ((t.status == NodeStatus.cancelled) && is_some t.receipt)
              (receipt_not_allowed NodeStatus.cancelled)
            ++ when ((t.status == gated) && is_none t.waiting_on_gate) gate_required)
unfolding replay
replay_run_views run_id spec events r id node own h at =
    let (t, found, folds) = replay_run_projects run_id spec events r id node h at in
    (
      t,
      found,
      check_view-to_view t run_id node
          (replay-IsCoherent (events_of (refs_of spec) id events) t folds)
          (replay_from-OwnReceipt run_id node (events_of (refs_of spec) id events) open_state t
            (events_of-IsOwn (refs_of spec) id run_id events at own) tt folds),
    )
