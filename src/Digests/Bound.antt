-- ===== src/Digests/Bound.antt =====
-- src/digests/mod.rs: the digests of the records. `Writer` is the serialization that serde derives for
-- each record: the value that it is written as, or the text of an error.
use checkspan.Common.{Bool, List, Text, text, Result, ◌>>=◌, map_err}
use checkspan.Common.Sorting.{sorted, text_ltb}
use checkspan.Contracts.Ids.{Digest}
use checkspan.Contracts.Refs.{AttemptRef, ReceiptRef}
use checkspan.Contracts.Node.{NodeSpec}
use checkspan.Contracts.Graph.{GraphSpec}
use checkspan.Contracts.Attempt.{EvidenceRef}
use checkspan.Contracts.Patch.{PatchResult, PatchSubject, patch_subject}
use checkspan.Digests.Envelope.{Json, Codec, CanonicalError, serialize, digest_of}

abbrev pub graph_spec_kind : Text
graph_spec_kind = text "checkspan.graph_spec@1"

abbrev pub node_spec_kind : Text
node_spec_kind = text "checkspan.node_spec@1"

abbrev pub input_manifest_kind : Text
input_manifest_kind = text "checkspan.input_manifest@1"

abbrev pub verification_context_kind : Text
verification_context_kind = text "checkspan.verification_context@1"

abbrev pub patch_subject_kind : Text
patch_subject_kind = text "checkspan.patch_subject@1"

pub record InputManifest : Type 0 where
  pub evidence : List EvidenceRef
  pub dependency_receipts : List ReceiptRef

pub record VerificationContext : Type 0 where
  pub attempt : AttemptRef
  pub node : NodeSpec
  pub input_manifest_digest : Digest
  pub dependency_receipts : List ReceiptRef
  pub result_digest : Digest
  pub produced_evidence : List EvidenceRef

pub record Writer : Type 0 where
  pub codec : Codec
  pub write_graph : GraphSpec → Result Json Text
  pub write_node : NodeSpec → Result Json Text
  pub write_manifest : InputManifest → Result Json Text
  pub write_context : VerificationContext → Result Json Text
  pub write_patch : PatchSubject → Result Json Text

-- `digest_of`, with the body still to be written.
unfoldable pub digest_written : Writer → Text → Result Json Text → Result Digest CanonicalError
unfolding digest_of
digest_written w kind written = map_err serialize written >>= λ body. digest_of w.codec kind body

unfoldable pub graph_spec_digest : Writer → GraphSpec → Result Digest CanonicalError
unfolding digest_written
graph_spec_digest w spec = digest_written w graph_spec_kind (w.write_graph spec)

unfoldable pub node_spec_digest : Writer → NodeSpec → Result Digest CanonicalError
unfolding digest_written
node_spec_digest w node = digest_written w node_spec_kind (w.write_node node)

abbrev pub by_port : EvidenceRef → EvidenceRef → Bool
by_port a b = text_ltb a.port_name b.port_name

abbrev pub by_id : ReceiptRef → ReceiptRef → Bool
by_id a b = text_ltb a.id b.id

unfoldable pub manifest_of : List EvidenceRef → List ReceiptRef → InputManifest
unfolding sorted
manifest_of evidence receipts = record {
  evidence = sorted by_port evidence;
  dependency_receipts = sorted by_id receipts;
}

unfoldable pub input_manifest_digest :
    Writer → List EvidenceRef → List ReceiptRef → Result Digest CanonicalError
unfolding digest_written manifest_of
input_manifest_digest w evidence receipts =
    digest_written w input_manifest_kind (w.write_manifest (manifest_of evidence receipts))

unfoldable pub context_digest : Writer → VerificationContext → Result Digest CanonicalError
unfolding digest_written
context_digest w context = digest_written w verification_context_kind (w.write_context context)

unfoldable pub patch_subject_digest : Writer → PatchResult → Result Digest CanonicalError
unfolding digest_written patch_subject
patch_subject_digest w result =
    digest_written w patch_subject_kind (w.write_patch (patch_subject result))
