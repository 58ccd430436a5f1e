-- ===== src/Store/Changed.antt =====
-- src/store/mod.rs: every write changes the tables only as their schema lets it.
use checkspan.Common.{
  ℕ, suc, Bool, true, false, Option, none, some, List, [], ◌∷◌, ◌++◌, map, ◌≡◌, refl, subst, ap,
  inl, inr, arith, Text, ok, find, any,
}
use checkspan.Common.Json.{Value}
use checkspan.Contracts.Ids.{NodeId, RunId, Digest}
use checkspan.Contracts.Graph.{GraphSpec, GraphRun, graph_ref}
use checkspan.Contracts.Attempt.{Attempt, VerifierReceipt}
use checkspan.Contracts.Packet.{GatePacket, GateDecision}
use checkspan.Store.Rows.{StoredEvent, ClaimRow, ArtifactRef, GraphRow}
use checkspan.Store.Tables.{
  Db, is_graph, is_run, is_attempt, is_receipt, is_packet, is_decision, is_claim, is_fence,
  is_artifact, graph_exists, run_exists, attempt_exists, packet_exists,
}
use checkspan.Store.Writes.{
  Host, len_checked, trigger_allows, append_event, insert_attempt, insert_receipt,
  insert_gate_packet, insert_gate_decision, insert_claim, release_claim, insert_artifact, released,
  is_held, clamp_i64,
}
use checkspan.Store.Ops.{StoredGraph, put_graph, put_run}
use checkspan.Store.Steps.{Step}
use checkspan.Store.Changes.{Table, Changes, ChangeAt, Released}

unchanged : (host : Host) (db : Db) → Changes host db db
unchanged host db table = elim table as (ChangeAt host db db) [
  | Table.graphs ↦ inl refl
  | _ ↦ inl refl
]

any-false : {A : Type 0} (rows : List A) → any (λ _. false) rows ≡ false
unfolding any
any-false [] = refl
any-false (row ∷ rows) = any-false rows

find-none : {A : Type 0} (p : A → Bool) (rows : List A) → find p rows ≡ none → any p rows ≡ false
unfolding find any
find-none p [] h = refl
find-none p (row ∷ rows) h = ground (arith, find-none p rows)

module _ (host : Host) (db : Db) where
  graph-Changes :
      (spec : GraphSpec) (digest : Digest) (found : Option GraphRow) {stored : StoredGraph}
      {next : Db}
      → host.spec_digest spec ≡ ok digest
      → find (is_graph (graph_ref spec)) db.graphs ≡ found
      → put_graph spec digest found db ≡ ok (stored, next)
      → Changes host db next
  unfolding put_graph
  graph-Changes spec digest (some row) {stored} {next} bound e h =
      let same : db ≡ next = ground arith in subst (Changes host db) same (unchanged host db)
  graph-Changes spec digest none {stored} {next} bound e h =
      let row : GraphRow = record {
        graph_ref = graph_ref spec;
        spec_digest = digest;
        spec = spec;
      } in
      let took : record db { graphs = db.graphs ++ row ∷ [] } ≡ next = ground arith in
      subst (Changes host db) took (λ table.
        elim table as (ChangeAt host db (record db { graphs = db.graphs ++ row ∷ [] })) [
          | Table.graphs ↦
              inr (row, refl, (refl, bound), find-none (is_graph (graph_ref spec)) db.graphs e)
          | _ ↦ inl refl
        ])

  run-Changes :
      (run : GraphRun) {next : Db}
      → graph_exists db run.graph_ref ≡ true
      → put_run run db ≡ ok next
      → Changes host db next
  unfolding put_run
  run-Changes run {next} known h =
      let took : (record db { runs = db.runs ++ run ∷ [] } ≡ next)
          × (any (is_run run.run_id) db.runs ≡ false) =
        ground arith in
      subst (Changes host db) took.0 (λ table.
        elim table as (ChangeAt host db (record db { runs = db.runs ++ run ∷ [] })) [
          | Table.runs ↦ inr (run, refl, known, took.1)
          | _ ↦ inl refl
        ])

  event-Changes :
      (run_id : RunId) (node_id : Option NodeId) (kind : Text) (payload : Value) {seq : ℕ}
      {next : Db}
      → append_event host db run_id node_id kind payload ≡ ok (seq, next)
      → Changes host db next
  unfolding append_event len_checked
  event-Changes run_id node_id kind payload {seq} {next} h =
      let row : StoredEvent = record {
        seq = suc db.last_seq;
        run_id = run_id;
        node_id = node_id;
        kind = kind;
        payload = payload;
        recorded_at = host.stamp db;
      } in
      let took : (record db { events = db.events ++ row ∷ []; last_seq = suc db.last_seq } ≡ next)
          × (run_exists db run_id ≡ true)
          × (trigger_allows db run_id kind payload ≡ true) =
        ground arith in
      subst (Changes host db) took.0 (λ table.
        elim table
          as (ChangeAt host db
            (record db { events = db.events ++ row ∷ []; last_seq = suc db.last_seq })) [
              | Table.events ↦ inr (row, refl, (took.1, took.2), any-false db.events)
              | _ ↦ inl refl
            ])

  attempt-Changes :
      (a : Attempt) {next : Db} → insert_attempt host db a ≡ ok next → Changes host db next
  unfolding insert_attempt len_checked
  attempt-Changes a {next} h =
      let took : (record db { attempts = db.attempts ++ a ∷ [] } ≡ next)
          × (any (is_attempt a.run_id a.node.node_id a.number) db.attempts ≡ false)
          × (run_exists db a.run_id ≡ true) =
        ground arith in
      subst (Changes host db) took.0 (λ table.
        elim table as (ChangeAt host db (record db { attempts = db.attempts ++ a ∷ [] })) [
          | Table.attempts ↦ inr (a, refl, took.2, took.1)
          | _ ↦ inl refl
        ])

  receipt-Changes :
      (r : VerifierReceipt) {next : Db} → insert_receipt host db r ≡ ok next → Changes host db next
  unfolding insert_receipt len_checked
  receipt-Changes r {next} h =
      let took : (record db { receipts = db.receipts ++ r ∷ [] } ≡ next)
          × (any (is_receipt r.attempt.run_id r.id) db.receipts ≡ false)
          × (attempt_exists db r.attempt.run_id r.attempt.node.node_id r.attempt.number ≡ true) =
        ground arith in
      subst (Changes host db) took.0 (λ table.
        elim table as (ChangeAt host db (record db { receipts = db.receipts ++ r ∷ [] })) [
          | Table.receipts ↦ inr (r, refl, took.2, took.1)
          | _ ↦ inl refl
        ])

  packet-Changes :
      (p : GatePacket) {next : Db} → insert_gate_packet host db p ≡ ok next → Changes host db next
  unfolding insert_gate_packet len_checked
  packet-Changes p {next} h =
      let took : (record db { gate_packets = db.gate_packets ++ p ∷ [] } ≡ next)
          × (any (is_packet p.run_id p.id) db.gate_packets ≡ false)
          × (run_exists db p.run_id ≡ true) =
        ground arith in
      subst (Changes host db) took.0 (λ table.
        elim table as (ChangeAt host db (record db { gate_packets = db.gate_packets ++ p ∷ [] })) [
          | Table.gate_packets ↦ inr (p, refl, took.2, took.1)
          | _ ↦ inl refl
        ])

  decision-Changes :
      (run_id : RunId) (d : GateDecision) {next : Db}
      → insert_gate_decision host db run_id d ≡ ok next
      → Changes host db next
  unfolding insert_gate_decision len_checked
  decision-Changes run_id d {next} h =
      let took : (record db {
        gate_decisions = db.gate_decisions ++ (record { run_id = run_id; decision = d }) ∷ [];
      }
            ≡ next)
          × (any (is_decision run_id d.gate_packet_id) db.gate_decisions ≡ false)
          × (packet_exists db run_id d.gate_packet_id ≡ true) =
        ground arith in
      subst (Changes host db) took.0 (λ table.
        elim table
          as (ChangeAt host db (record db {
            gate_decisions = db.gate_decisions ++ (record { run_id = run_id; decision = d }) ∷ [];
          })) [
            | Table.gate_decisions ↦
                inr ((record { run_id = run_id; decision = d }), refl, took.2, took.1)
            | _ ↦ inl refl
          ])

  artifact-Changes :
      (run_id : RunId) (a : ArtifactRef) {next : Db}
      → insert_artifact db run_id a ≡ ok next
      → Changes host db next
  unfolding insert_artifact
  artifact-Changes run_id a {next} h =
      let took : (record db {
        artifacts =
            db.artifacts
            ++ (record {
              run_id = run_id;
              artifact = record a { size_bytes = clamp_i64 a.size_bytes };
            })
              ∷ [];
      }
            ≡ next)
          × (any (is_artifact run_id a.digest) db.artifacts ≡ false)
          × (run_exists db run_id ≡ true) =
        ground arith in
      subst (Changes host db) took.0 (λ table.
        elim table
          as (ChangeAt host db (record db {
            artifacts =
                db.artifacts
                ++ (record {
                  run_id = run_id;
                  artifact = record a { size_bytes = clamp_i64 a.size_bytes };
                })
                  ∷ [];
          })) [
            | Table.artifacts ↦ inr (
              (record {
                run_id = run_id;
                artifact = record a { size_bytes = clamp_i64 a.size_bytes };
              }),
              refl,
              took.2,
              took.1,
            )
            | _ ↦ inl refl
          ])

  claim-Changes :
      (c : ClaimRow) {next : Db} → insert_claim host db c ≡ ok next → Changes host db next
  unfolding insert_claim
  claim-Changes c {next} h =
      let row : ClaimRow = record c {
        fence = clamp_i64 c.fence;
        active = true;
        release = none;
        claimed_at = host.stamp db;
        released_at = none;
      } in
      let took : (record db { claims = db.claims ++ row ∷ [] } ≡ next)
          × (any (is_claim c.run_id c.node_id c.number) db.claims ≡ false)
          × (any (is_fence c.run_id (clamp_i64 c.fence)) db.claims ≡ false)
          × (run_exists db c.run_id ≡ true) =
        ground arith in
      subst (Changes host db) took.0 (λ table.
        elim table as (ChangeAt host db (record db { claims = db.claims ++ row ∷ [] })) [
          | Table.claims ↦ inr (inl (row, refl, took.3, took.1))
          | Table.fences ↦ inr (inl (row, refl, took.3, took.2))
          | _ ↦ inl refl
        ])

  release-Changes :
      (run_id : RunId) (node_id : NodeId) (number fence : ℕ) (how : Text) {any_row : Bool}
      {next : Db}
      → release_claim host db run_id node_id number fence how ≡ (any_row, next)
      → Changes host db next
  unfolding release_claim
  release-Changes run_id node_id number fence how h =
      let gone : Released db.claims
          (map (released (host.stamp db) how (is_held run_id node_id number fence)) db.claims) =
        (host.stamp db, how, run_id, node_id, number, fence, refl) in
      subst (Changes host db) (ap (λ p. p.1) h) (λ table.
        elim table
          as (ChangeAt host db (record db {
            claims =
                map (released (host.stamp db) how (is_held run_id node_id number fence)) db.claims;
          })) [ Table.claims ↦ inr (inr gone) | Table.fences ↦ inr (inr gone) | _ ↦ inl refl ])

  pub Step-Changes : {next : Db} → Step host db next → Changes host db next
  Step-Changes (Step.graph_put spec digest stored bound h) =
      graph-Changes spec digest (find (is_graph (graph_ref spec)) db.graphs) bound refl h
  Step-Changes (Step.run_put run known h) = run-Changes run known h
  Step-Changes (Step.event_appended run_id node_id kind payload seq h) =
      event-Changes run_id node_id kind payload h
  Step-Changes (Step.attempt_inserted a h) = attempt-Changes a h
  Step-Changes (Step.receipt_inserted r h) = receipt-Changes r h
  Step-Changes (Step.packet_inserted p h) = packet-Changes p h
  Step-Changes (Step.decision_inserted run_id d h) = decision-Changes run_id d h
  Step-Changes (Step.claim_inserted c h) = claim-Changes c h
  Step-Changes (Step.claim_released run_id node_id number fence how any_row h) =
      release-Changes run_id node_id number fence how h
  Step-Changes (Step.artifact_inserted run_id a h) = artifact-Changes run_id a h
