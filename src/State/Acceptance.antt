-- ===== src/State/Acceptance.antt =====
-- What reaches `accepted`, and what leaves a terminal state: src/state/mod.rs, lines 3 to 8.
use checkspan.Common.{
  ℕ, true, false, some, ◌≡◌, refl, arith, ◌⊎◌, inl, inr, ok, ==→≡, option_eq, nat_eq, ◌↔◌, list_eq,
  is_ok,
}
use checkspan.Contracts.Refs.{ReceiptRef}
use checkspan.Contracts.View.{NodeStatus, running, accepted, rejected}
use checkspan.Contracts.Attempt.{Verdict, accept, reject}
use checkspan.State.Event.{NodeEvent, dispatched, receipt_admitted, node_cancelled}
use checkspan.State.Node.{NodeState, apply, is_terminal}

-- An event that is a receipt with the given verdict for the attempt that the state is checking.
pub record Judges (verdict : Verdict) (s : NodeState) (e : NodeEvent) (t : NodeState) : Type 0 where
  pub attempt : ℕ
  pub receipt : ReceiptRef
  pub event : e ≡ receipt_admitted attempt receipt verdict
  pub was_running : s.status ≡ running
  pub was_checking : s.checking ≡ true
  pub current : s.current_attempt ≡ some attempt
  pub recorded : t.receipt ≡ some receipt

-- The cases of `apply` that reach a status, for the two that a verdict decides.
judged :
    (v : Verdict) (status : NodeStatus)
    → ((v ≡ accept) × (status ≡ accepted)) ⊎ ((v ≡ reject) × (status ≡ rejected))
    → (s : NodeState) (e : NodeEvent) (t : NodeState) → apply s e ≡ ok t
    → t.status ≡ status
    → Judges v s e t
unfolding apply
judged v status which s (receipt_admitted n r w) t h a = record {
  attempt = n;
  receipt = r;
  event = ground arith;
  was_running = ground arith;
  was_checking = ground arith;
  current = ground (arith, ==→≡ s.current_attempt (some n));
  recorded = ground arith;
}
judged v status which s (dispatched n) t h a = absurd (ground arith)
judged v status which s e t h a = absurd (ground arith)

-- When the reducer accepts an event and the next state is `accepted`, the event is a receipt
-- with an accepting verdict for the current attempt of a running node whose execution finished,
-- and the next state records that receipt; when the next state is `rejected`, the same holds of
-- a rejecting verdict.
pub apply-Judges :
    (s : NodeState) (e : NodeEvent) (t : NodeState)
    → apply s e ≡ ok t
    → (t.status ≡ accepted → Judges accept s e t) × (t.status ≡ rejected → Judges reject s e t)
apply-Judges s e t h = (
  judged accept accepted (inl (refl, refl)) s e t h,
  judged reject rejected (inr (refl, refl)) s e t h,
)

-- A state is terminal exactly when the reducer refuses every event in it.
pub apply_terminal :
    (s : NodeState) → (is_terminal s ≡ true) ↔ ((e : NodeEvent) → is_ok (apply s e) ≡ false)
unfolding apply
apply_terminal s = (λ h e. ground arith, λ h. ground (arith, h node_cancelled))
