-- ===== src/Contracts/Printed.antt =====
-- src/contracts: the printed form, `Display`, of the references and the words that messages carry.
use checkspan.Common.{◌++◌, Text, text}
use checkspan.Contracts.Refs.{NodeRef, ReceiptRef, TypeRef}
use checkspan.Contracts.Attempt.{Verdict, accept, reject, undecidable}
use checkspan.Contracts.View.{
  NodeStatus, opened, running, accepted, rejected, failed, gated, cancelled,
}
use checkspan.Digests.Envelope.{decimal}

unfoldable pub print_node_ref : NodeRef → Text
unfolding decimal
print_node_ref n = n.graph_id ++ text "/" ++ n.node_id ++ text "@" ++ decimal n.revision

unfoldable pub print_type_ref : TypeRef → Text
unfolding decimal
print_type_ref t = t.schema_id ++ text "@" ++ decimal t.version

unfoldable pub print_receipt_ref : ReceiptRef → Text
unfolding print_node_ref
print_receipt_ref r = r.id ++ text " (" ++ r.run_id ++ text "/" ++ print_node_ref r.node ++ text ")"

unfoldable pub print_status : NodeStatus → Text
print_status opened = text "open"
print_status running = text "running"
print_status accepted = text "accepted"
print_status rejected = text "rejected"
print_status failed = text "failed"
print_status gated = text "gated"
print_status cancelled = text "cancelled"

unfoldable pub print_verdict : Verdict → Text
print_verdict accept = text "accept"
print_verdict reject = text "reject"
print_verdict undecidable = text "undecidable"
