-- ===== src/State/Projection.antt =====
-- The replay of a run against the replay of each node: a node's state is the fold of its own events.
use checkspan.Common.{
  Option, none, some, List, [], ◌∷◌, ◌++◌, ◌≡◌, refl, sym, ◌∙◌, arith, ◌==◌, list_eq, nat_eq, ==→≡,
  ≡→==, Bool-cases, inl, inr, ok, err, ◌>>=◌, >>=_ok, or_fail, lookup, insert, lookup-insert,
  if◌then◌else◌, ◌≢◌,
}
use checkspan.Contracts.Ids.{NodeId}
use checkspan.Contracts.Refs.{NodeRef}
use checkspan.State.Event.{NodeEvent, unknown_node}
use checkspan.State.Node.{NodeState, apply, replay_from}
use checkspan.State.Stored.{from_stored}
use checkspan.State.Run.{RunState, apply_run, find_ref, replay_stored}
use checkspan.Store.Rows.{StoredEvent}

-- What a successful `apply_run` did: it looked the state up, applied the event, and wrote the result.
pub record Applied (r : RunState) (id : NodeId) (e : NodeEvent) (r' : RunState) : Type 0 where
  pub before : NodeState
  pub after : NodeState
  pub found : lookup id r.states ≡ some before
  pub applied : apply before e ≡ ok after
  pub written : r' ≡ record r { states = insert id after r.states }

or_fail_ok {ℓ κ} :
    {A : Type ℓ} {E : Type κ} (o : Option A) (x : E) {a : A} → or_fail o x ≡ ok a → o ≡ some a
or_fail_ok none x h = cc
or_fail_ok (some b) x h = cc

pub apply_run-Applied :
    (r : RunState) (id : NodeId) (e : NodeEvent) (r' : RunState)
    → apply_run r id e ≡ ok r'
    → Applied r id e r'
unfolding apply_run
apply_run-Applied r id e r' h =
    let (before, found, rest) =
      >>=_ok (or_fail (lookup id r.states) (unknown_node id))
        (λ s. apply s e >>= λ n. ok (record r { states = insert id n r.states })) h in
    let (after, applied, written) =
      >>=_ok (apply before e) (λ n. ok (record r { states = insert id n r.states })) rest in
    record {
      before = before;
      after = after;
      found = or_fail_ok (lookup id r.states) (unknown_node id) found;
      applied = applied;
      written = cc;
    }

-- When an event about one node is applied to a run, every other node keeps its state, and the
-- run keeps its id and its list of nodes.
pub apply_run_frame :
    (r : RunState) (id j : NodeId) (e : NodeEvent) (r' : RunState)
    → apply_run r id e ≡ ok r'
    → (j ≢ id → lookup j r'.states ≡ lookup j r.states)
      × (r'.nodes ≡ r.nodes)
      × (r'.run_id ≡ r.run_id)
apply_run_frame r id j e r' h =
    let a = apply_run-Applied r id e r' h in
    (
      λ other. rw a.written (rw lookup-insert (ground (arith, ==→≡ id j))),
      rw a.written,
      rw a.written,
    )

-- The events of one node in a run's log: those that carry its id, decoded.
abbrev pub decoded_at : Option NodeRef → StoredEvent → List NodeEvent
decoded_at none x = []
decoded_at (some node) x = elim (from_stored x node) [ ok e ↦ e ∷ [] | err _ ↦ [] ]

abbrev pub event_at : List NodeRef → NodeId → StoredEvent → Option NodeId → List NodeEvent
event_at refs id x none = []
event_at refs id x (some j) = if j == id then decoded_at (find_ref j refs) x else []

abbrev pub events_of : List NodeRef → NodeId → List StoredEvent → List NodeEvent
events_of refs id [] = []
events_of refs id (x ∷ xs) = event_at refs id x x.node_id ++ events_of refs id xs

abbrev pub Follows : RunState → NodeId → NodeState → List NodeEvent → Type 0
Follows r id s es = (t : NodeState) × (lookup id r.states ≡ some t) × (replay_from s es ≡ ok t)

replay_one : (s t : NodeState) (e : NodeEvent) → apply s e ≡ ok t → replay_from s (e ∷ []) ≡ ok t
unfolding replay_from
replay_one s t e h = rw h

replay_nil : (s : NodeState) → replay_from s [] ≡ ok s
unfolding replay_from
replay_nil s = refl

pub replay-append :
    (es fs : List NodeEvent) (s t : NodeState)
    → replay_from s es ≡ ok t
    → replay_from s (es ++ fs) ≡ replay_from t fs
unfolding replay_from
replay-append [] fs s t h = let e : s ≡ t = cc in rw e
replay-append (e ∷ es) fs s t h =
    let (next, first, rest) = >>=_ok (apply s e) (λ n. replay_from n es) h in
    rw first (replay-append es fs next t rest)

decoded_at_ok :
    (refs : List NodeRef) (j : NodeId) (x : StoredEvent) {node : NodeRef} {e : NodeEvent}
    → find_ref j refs ≡ some node
    → from_stored x node ≡ ok e
    → decoded_at (find_ref j refs) x ≡ e ∷ []
decoded_at_ok refs j x at d = rw at (rw (d, decoded_at))

pub replay_stored-Follows :
    (r : RunState) (x : StoredEvent) (o : Option NodeId) (r' : RunState) (id : NodeId)
    (s : NodeState)
    → lookup id r.states ≡ some s
    → replay_stored r x o ≡ ok r'
    → Follows r' id s (event_at r.nodes id x o) × (r'.nodes ≡ r.nodes)
unfolding replay_stored
replay_stored-Follows r x none r' id s found h =
    let e : r ≡ r' = cc in ((s, rw (← e) found, replay_nil s), rw e)
replay_stored-Follows r x (some j) r' id s found h =
    let (node, named, rest) =
      >>=_ok (or_fail (find_ref j r.nodes) (unknown_node j))
        (λ n. from_stored x n >>= λ e. apply_run r j e) h in
    let (e, decodes, applies) = >>=_ok (from_stored x node) (λ e. apply_run r j e) rest in
    let at = or_fail_ok (find_ref j r.nodes) (unknown_node j) named in
    let a = apply_run-Applied r j e r' applies in
    let kept = (apply_run_frame r j id e r' applies) in
    (
      elim (Bool-cases (j == id)) [
        | inl same ↦
            let id_eq = ==→≡ j id same in
            let start : a.before ≡ s = cc in
            rw (same, decoded_at_ok r.nodes j x at decodes)
              (a.after, rw (a.written, lookup-insert, same), replay_one s a.after e (cc))
        | inr other ↦ rw other (s, kept.0 (λ e. cc (≡→== j id (sym e))) ∙ found, replay_nil s)
      ],
      kept.1,
    )
