-- ===== src/State/Invariant.antt =====
-- The invariant of a node's state: what its fields say of one another in every reachable state.
use checkspan.Common.{
  ◌<◌, true, none, some, List, [], ◌∷◌, ◌≡◌, arith, ◌⊎◌, ok, subst, option_eq, nat_eq, list_eq,
  is_some, >>=_ok,
}
use checkspan.Contracts.View.{
  NodeStatus, opened, running, accepted, rejected, gated, needs_receipt, needs_attempt,
}
use checkspan.State.Event.{
  NodeEvent, dispatched, execution_finished, receipt_admitted, gate_opened, decision_admitted,
  retry_allowed, node_cancelled,
}
use checkspan.State.Node.{NodeState, apply, open_state, replay_from, replay, u32_mod}

pub record IsCoherent (s : NodeState) : Type 0 where
  -- The attempt described is the last one started, and it is named wherever the status needs it.
  pub names_last : (s.current_attempt ≡ none) ⊎ (s.current_attempt ≡ some s.attempts_started)
  pub counts_u32 : s.attempts_started < u32_mod
  pub attempt_named : needs_attempt s.status ≡ true → is_some s.current_attempt ≡ true
  pub open_unnamed : s.status ≡ opened → s.current_attempt ≡ none
  pub checks_running : s.checking ≡ true → s.status ≡ running
  pub receipt_of_verdict :
      is_some s.receipt ≡ true
      → (s.status ≡ accepted) ⊎ (s.status ≡ rejected) ⊎ (s.status ≡ NodeStatus.cancelled)
  pub verdict_has_receipt : needs_receipt s.status ≡ true → is_some s.receipt ≡ true
  pub packet_of_gate : is_some s.waiting_on_gate ≡ true → s.status ≡ gated

pub open_state-IsCoherent : IsCoherent open_state
open_state-IsCoherent = ground arith

pub apply-IsCoherent :
    (s : NodeState) (e : NodeEvent) (t : NodeState) → IsCoherent s → apply s e ≡ ok t → IsCoherent t
unfolding apply
apply-IsCoherent s (dispatched n) t c h = ground arith
apply-IsCoherent s (execution_finished n o d) t c h = ground arith
apply-IsCoherent s (receipt_admitted n r v) t c h = ground arith
apply-IsCoherent s (gate_opened p) t c h = ground arith
apply-IsCoherent s (decision_admitted p d) t c h = ground arith
apply-IsCoherent s retry_allowed t c h = ground arith
apply-IsCoherent s node_cancelled t c h = ground arith

-- From a coherent state, every sequence of events that replays ends in a coherent state.
pub replay_from-IsCoherent :
    (s : NodeState) (es : List NodeEvent) (t : NodeState)
    → IsCoherent s
    → replay_from s es ≡ ok t
    → IsCoherent t
unfolding replay_from
replay_from-IsCoherent s [] t c h = let e : s ≡ t = cc in subst IsCoherent e c
replay_from-IsCoherent s (e ∷ es) t c h =
    let (next, first, rest) = >>=_ok (apply s e) (λ n. replay_from n es) h in
    replay_from-IsCoherent next es t (apply-IsCoherent s e next c first) rest

-- Every state that `replay` returns is coherent: its current attempt, where named, is the last
-- one started; a status that describes an attempt names one; an open node names none; checking
-- implies running; an accepted or rejected node has its receipt, and a receipt stands only there
-- or on a cancelled node; a packet is awaited only by a gated node; and the count of attempts
-- fits a `u32`.
pub replay-IsCoherent : (es : List NodeEvent) (t : NodeState) → replay es ≡ ok t → IsCoherent t
unfolding replay
replay-IsCoherent es t h = replay_from-IsCoherent open_state es t open_state-IsCoherent h
