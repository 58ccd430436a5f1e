-- ===== src/Gates/Tests.antt =====
-- A node whose attempt failed, the packet that is opened for it, and the theorems about gates at it.
use checkspan.Common.{none, some, [], ◌∷◌, ◌≡◌, ◌⊎◌, refl, Text, text, ok, err}
use checkspan.Contracts.Attempt.{Attempt, failed}
use checkspan.Contracts.Packet.{GatePacket, ContextKind}
use checkspan.Contracts.View.{gated}
use checkspan.State.Node.{NodeState}
use checkspan.State.Run.{RunState, node_state, replay_run}
use checkspan.Store.Tables.{Db, read_events}
use checkspan.Store.Tests.{sample_host, linked_spec, sample_graph_run, attempt_a}
use checkspan.Scheduler.Finish.{complete}
use checkspan.Scheduler.Tests.{scheduler_runs, scheduler, claimed_db, claim_on_a, now}
use checkspan.Digests.Envelope.{
  Json, digest_of, envelope_digest, envelope_bytes, check_envelope_numbers, walk, jcs_bytes,
  artifact_digest, decimal,
}
use checkspan.Digests.Tests.{sample_codec}
use checkspan.Contracts.Ids.{new_identifier, check_identifier}
use checkspan.Contracts.Time.{is_before}
use checkspan.Contracts.Gate.{allowed_decisions, resolve_work, retry, revise, cancel}
use checkspan.Contracts.Packet.{check_packet, option_errors, purpose_errors, context_errors}
use checkspan.Store.Writes.{insert_gate_packet, log}
use checkspan.Store.Ops.{transaction}
use checkspan.Gates.Packets.{
  PacketWriter, GateBuildError, packet_of, subject_digest, context_refs, receipt_context,
  result_context, digest_of_record, last_receipt_id, attempt_ref_text, node_ref_text, options,
}
use checkspan.Gates.Open.{open_resolve_work, open_body, build_packet, gated_node}
use checkspan.Gates.Opened.{IsOpened, open_resolve_work-IsOpened, open_resolve_work_gates}

abbrev failed_attempt : Attempt
failed_attempt = record attempt_a {
  result = none;
  execution =
      some (record { outcome = failed; error_code = some (text "exit"); error_text = none });
}

abbrev failed_db : Db
unfolding scheduler_runs
failed_db = (complete sample_host scheduler claimed_db claim_on_a failed_attempt).1

abbrev packet_writer : PacketWriter
packet_writer = record {
  codec = sample_codec;
  write_attempt = λ _. ok Json.null;
  write_receipt = λ _. ok Json.null;
  write_subject = λ _. ok Json.null;
}

abbrev tomorrow : Text
tomorrow = text "2026-01-03T00:00:00Z"

gate_runs : Unit {0}
unfolding scheduler_runs open_resolve_work open_body build_packet gated_node packet_of
    subject_digest context_refs receipt_context result_context digest_of_record last_receipt_id
    attempt_ref_text node_ref_text options new_identifier check_identifier check_packet
    option_errors purpose_errors context_errors allowed_decisions digest_of envelope_digest
    envelope_bytes check_envelope_numbers walk jcs_bytes artifact_digest decimal transaction
    insert_gate_packet log is_before
gate_runs = tt

abbrev packet : GatePacket
packet = record {
  id = text "gate-a-1";
  run_id = text "run";
  node = failed_attempt.node;
  purpose = resolve_work;
  context_refs =
      record { kind = ContextKind.attempt; id = text "run/g/a@1#1"; digest = text "sha256:0a" }
      ∷ [];
  subject_digest = text "sha256:0a";
  requested_decision = record { options = retry ∷ revise ∷ cancel ∷ []; action = none };
  authority_policy_ref = record { id = text "operator_decides"; version = 1 };
  created_at = now;
  expires_at = tomorrow;
}

opened_once :
    (open_resolve_work sample_host packet_writer linked_spec sample_graph_run
      (text "a")
      now
      tomorrow
      failed_db).0
    ≡ ok packet
unfolding gate_runs
opened_once = refl

open_resolve_work-IsOpened_example :
    ((e : GateBuildError) × (open_resolve_work sample_host packet_writer linked_spec
          sample_graph_run
          (text "a")
          now
          tomorrow
          failed_db
        ≡ (err e, failed_db)))
    ⊎ ((p : GatePacket) × ((open_resolve_work sample_host packet_writer linked_spec sample_graph_run
            (text "a")
            now
            tomorrow
            failed_db).0
          ≡ ok p)
        × IsOpened sample_host packet_writer linked_spec sample_graph_run
            (text "a")
            now
            tomorrow
            failed_db
            p
            (open_resolve_work sample_host packet_writer linked_spec sample_graph_run
              (text "a")
              now
              tomorrow
              failed_db).1)
open_resolve_work-IsOpened_example =
    open_resolve_work-IsOpened sample_host packet_writer linked_spec sample_graph_run (text "a") now
      tomorrow failed_db

open_resolve_work_gates_example :
    (r : RunState) × (replay_run (text "run") linked_spec (
        read_events
          (open_resolve_work sample_host packet_writer linked_spec sample_graph_run
            (text "a")
            now
            tomorrow
            failed_db).1
          (text "run"))
      ≡ ok r)
    × ((s : NodeState) × (node_state r (text "a") ≡ some s)
        × (s.status ≡ gated)
        × (s.waiting_on_gate ≡ some (text "gate-a-1")))
open_resolve_work_gates_example =
    open_resolve_work_gates sample_host packet_writer linked_spec sample_graph_run (text "a") now
      tomorrow failed_db packet opened_once
