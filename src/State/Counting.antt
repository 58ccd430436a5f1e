-- ===== src/State/Counting.antt =====
-- Attempt numbers: `attempts_started` counts the dispatches of the log.
use checkspan.Common.{ℕ, ◌+◌, ◌%◌, ◌<◌, List, [], ◌∷◌, ◌≡◌, arith, ok, >>=_ok}
use checkspan.State.Event.{
  NodeEvent, dispatched, execution_finished, receipt_admitted, gate_opened, decision_admitted,
  retry_allowed, node_cancelled,
}
use checkspan.State.Node.{NodeState, apply, open_state, replay_from, replay, u32_mod}
use checkspan.State.Invariant.{IsCoherent, apply-IsCoherent, open_state-IsCoherent}

abbrev pub dispatch_weight : NodeEvent → ℕ
dispatch_weight (dispatched n) = 1
dispatch_weight _ = 0

abbrev pub dispatches : List NodeEvent → ℕ
dispatches [] = 0
dispatches (e ∷ es) = dispatch_weight e + dispatches es

-- One event adds its weight, and a dispatch carries the number that it reaches.
apply_counts :
    (s : NodeState) (e : NodeEvent) (t : NodeState)
    → s.attempts_started < u32_mod
    → apply s e ≡ ok t
    → t.attempts_started ≡ (s.attempts_started + dispatch_weight e) % u32_mod
unfolding apply
apply_counts s (dispatched n) t b h = ground arith
apply_counts s (execution_finished n o d) t b h = ground arith
apply_counts s (receipt_admitted n r v) t b h = ground arith
apply_counts s (gate_opened p) t b h = ground arith
apply_counts s (decision_admitted p d) t b h = ground arith
apply_counts s retry_allowed t b h = ground arith
apply_counts s node_cancelled t b h = ground arith

replay_from_counts :
    (s : NodeState) (es : List NodeEvent) (t : NodeState)
    → IsCoherent s
    → replay_from s es ≡ ok t
    → t.attempts_started ≡ (s.attempts_started + dispatches es) % u32_mod
unfolding replay_from
replay_from_counts s [] t c h = let e : s ≡ t = cc in ground arith
replay_from_counts s (e ∷ es) t c h =
    let (next, first, rest) = >>=_ok (apply s e) (λ n. replay_from n es) h in
    omega (
      arith,
      apply_counts s e next c.counts_u32 first,
      replay_from_counts next es t (apply-IsCoherent s e next c first) rest,
    )

-- After any replay `attempts_started` is the number of dispatch events replayed, as a `u32`.
pub replay_counts :
    (es : List NodeEvent) (t : NodeState)
    → replay es ≡ ok t
    → t.attempts_started ≡ dispatches es % u32_mod
unfolding replay
replay_counts es t h = omega (arith, replay_from_counts open_state es t open_state-IsCoherent h)
