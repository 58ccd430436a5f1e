-- ===== src/State/Views.antt =====
-- The views that the reducer derives, against the rules that src/contracts/view.rs sets for them.
use checkspan.Common.{
  Option, none, some, ◌++◌, ◌≡◌, arith, ◌&&◌, ◌==◌, list_eq, nat_eq, is_some, is_none, when,
  ==_self,
}
use checkspan.Contracts.Ids.{RunId}
use checkspan.Contracts.Refs.{NodeRef, node_ref_eq, ReceiptRef}
use checkspan.Contracts.View.{
  NodeStatus, gated, gate_required, receipt_not_allowed, check_view, node_status_eq,
}
use checkspan.State.Node.{NodeState, to_view}
use checkspan.State.Invariant.{IsCoherent}

-- A receipt that the state records is about this node and from this run.
abbrev pub OwnReceipt : RunId → NodeRef → Option ReceiptRef → Type 0
OwnReceipt run node none = Unit
OwnReceipt run node (some r) = (r.node ≡ node) × (r.run_id ≡ run)

pub check_view-to_view :
    (s : NodeState) (run : RunId) (node : NodeRef)
    → IsCoherent s
    → OwnReceipt run node s.receipt
    → check_view (to_view s run node)
      ≡ when
          ((s.status == NodeStatus.cancelled) && is_some s.receipt)
          (receipt_not_allowed NodeStatus.cancelled)
        ++ when ((s.status == gated) && is_none s.waiting_on_gate) gate_required
unfolding check_view
check_view-to_view s run node c own = ground (arith, ==_self run, ==_self node)
