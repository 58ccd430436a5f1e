-- ===== src/Contracts/View.antt =====
-- src/contracts/view.rs: the derived status of one node, and the rules that a view keeps. The constant
-- fields `record` and `schema_version` are left out of this and every other record; the status `open`
-- is `opened` here.
use checkspan.Common.{
  ℕ, Bool, true, false, not, ◌&&◌, ◌||◌, Option, none, some, List, [], ◌++◌, ◌≡◌, arith, Text, Eq,
  ◌==◌, nat_eq, list_eq, rank_eq, when, is_some, is_none,
}
use checkspan.Contracts.Ids.{Ident, RunId}
use checkspan.Contracts.Refs.{NodeRef, ReceiptRef, node_ref_eq}

pub data NodeStatus : Type 0 where
  opened running accepted rejected failed gated cancelled : NodeStatus

abbrev pub node_status_rank : NodeStatus → ℕ
node_status_rank opened = 0
node_status_rank running = 1
node_status_rank accepted = 2
node_status_rank rejected = 3
node_status_rank failed = 4
node_status_rank gated = 5
node_status_rank cancelled = 6

pub node_status_rank_apart : (a b : NodeStatus) → node_status_rank a ≡ node_status_rank b → a ≡ b
node_status_rank_apart a b h = ground arith

instance abbrev pub node_status_eq : Eq NodeStatus
node_status_eq = rank_eq node_status_rank node_status_rank_apart

pub record NodeView : Type 0 where
  pub run_id : RunId
  pub node : NodeRef
  pub status : NodeStatus
  pub current_attempt : Option ℕ
  pub receipt : Option ReceiptRef
  pub blocked_reason : Option Text
  pub waiting_on_gate : Option Ident

pub data ViewError : Type 0 where
  receipt_required : NodeStatus → ViewError
  receipt_not_allowed : NodeStatus → ViewError
  receipt_for_other_node : ReceiptRef → ViewError
  receipt_for_other_run : ReceiptRef → ViewError
  attempt_required : NodeStatus → ViewError
  gate_required : ViewError
  gate_not_allowed : NodeStatus → ViewError
  blocked_reason_not_allowed : NodeStatus → ViewError

abbrev pub needs_receipt : NodeStatus → Bool
needs_receipt s = (s == accepted) || (s == rejected)

abbrev pub needs_attempt : NodeStatus → Bool
needs_attempt opened = false
needs_attempt cancelled = false
needs_attempt _ = true

-- The match on `(&self.receipt, needs_receipt)`.
receipt_errors : NodeView → Option ReceiptRef → Bool → List ViewError
receipt_errors v none true = when true (receipt_required v.status)
receipt_errors v none false = []
receipt_errors v (some r) false = when true (receipt_not_allowed v.status)
receipt_errors v (some r) true =
    when (not (r.node == v.node)) (receipt_for_other_node r)
    ++ when (not (r.run_id == v.run_id)) (receipt_for_other_run r)

-- The match on `(status, &self.waiting_on_gate)`.
gate_errors : NodeStatus → Option Ident → List ViewError
gate_errors s none = when (s == gated) gate_required
gate_errors s (some packet) = when (not (s == gated)) (gate_not_allowed s)

unfoldable pub check_view : NodeView → List ViewError
unfolding receipt_errors gate_errors
check_view v =
    receipt_errors v v.receipt (needs_receipt v.status)
    ++ (when (needs_attempt v.status && is_none v.current_attempt) (attempt_required v.status)
        ++ (gate_errors v.status v.waiting_on_gate
            ++ when (not (v.status == opened) && is_some v.blocked_reason)
                (blocked_reason_not_allowed v.status)))
