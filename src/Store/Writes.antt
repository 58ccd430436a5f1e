-- ===== src/Store/Writes.antt =====
-- src/store/mod.rs: `impl Tx`, each write a function from the tables to the tables that it leaves or
-- the error of its constraint. `Host` holds what the writes take from elsewhere: the length of each
-- record's JSON text, the digest of a graph, and the clock of SQLite.
use checkspan.Common.{
  ℕ, suc, ◌+◌, Bool, true, false, not, ◌&&◌, ◌||◌, Option, none, some, List, [], ◌∷◌, ◌++◌, map,
  Text, text, ◌==◌, nat_eq, list_eq, option_eq, keep, any, length, ltb, leb, if◌then◌else◌, Result,
  ok, err, ◌>>=◌, ◌>>◌, is_empty, max,
}
use checkspan.Common.Json.{Value, Fields, get}
use checkspan.Contracts.Ids.{Digest, NodeId, RunId}
use checkspan.Contracts.Graph.{GraphRun, GraphSpec}
use checkspan.Contracts.Attempt.{Attempt, VerifierReceipt, Execution, ResultRef, attempt_ref}
use checkspan.Contracts.Packet.{GatePacket, GateDecision}
use checkspan.State.Event.{kind_receipt, kind_sealed, outcome_text, option_text}
use checkspan.Store.Rows.{ClaimRow, ArtifactRef}
use checkspan.Store.Tables.{
  Db, Named, Sized, StoreError, missing_reference, duplicate, too_large, max_locator_len,
  max_record_len, is_attempt, is_receipt, is_packet, is_decision, is_claim, is_fence, is_artifact,
  run_exists, attempt_exists, receipt_exists, packet_exists, payload_receipt,
}

pub record Host : Type 0 where
  pub value_len : Value → ℕ
  pub spec_len : GraphSpec → ℕ
  pub run_len : GraphRun → ℕ
  pub attempt_len : Attempt → ℕ
  pub receipt_len : VerifierReceipt → ℕ
  pub packet_len : GatePacket → ℕ
  pub decision_len : GateDecision → ℕ
  pub spec_digest : GraphSpec → Result Digest Text
  pub stamp : Db → Text

-- `json_len_checked`
unfoldable pub len_checked : Sized → ℕ → Result (Unit {0}) StoreError
len_checked what size =
    if ltb max_record_len size then err (too_large what size max_record_len) else ok tt

-- `i64::try_from(n).unwrap_or(i64::MAX)`
abbrev pub clamp_i64 : ℕ → ℕ
clamp_i64 n = if leb n 9223372036854775807 then n else 9223372036854775807

abbrev pub outcome_name : Option Execution → Option Text
outcome_name none = none
outcome_name (some e) = some (outcome_text e.outcome)

abbrev pub digest_of : Option ResultRef → Option Digest
digest_of none = none
digest_of (some r) = some r.digest

-- What the trigger `receipt_admitted_requires_receipt` asks for.
unfoldable pub names_receipt : Db → RunId → Option Text → Bool
unfolding receipt_exists
names_receipt db run_id none = false
names_receipt db run_id (some id) = receipt_exists db run_id id

unfoldable pub trigger_allows : Db → RunId → Text → Value → Bool
unfolding names_receipt
trigger_allows db run_id kind payload =
    not (kind == kind_receipt)
    || names_receipt db run_id (payload_receipt (get (text "receipt_id") payload))

-- `Tx::insert_attempt` when a constraint refuses the row.
unfoldable pub attempt_refused : Db → Attempt → StoreError
unfolding run_exists
attempt_refused db a =
    if run_exists db a.run_id
    then duplicate (Named.attempt (attempt_ref a))
    else missing_reference (Named.run a.run_id)

unfoldable pub receipt_refused : Db → VerifierReceipt → StoreError
unfolding attempt_exists
receipt_refused db r =
    if attempt_exists db r.attempt.run_id r.attempt.node.node_id r.attempt.number
    then duplicate (Named.receipt r.id)
    else missing_reference (Named.attempt r.attempt)

unfoldable pub decision_refused : Db → RunId → GateDecision → StoreError
unfolding packet_exists
decision_refused db run_id d =
    if packet_exists db run_id d.gate_packet_id
    then duplicate (Named.decision_for d.gate_packet_id)
    else missing_reference (Named.packet d.gate_packet_id)

-- `COALESCE(MAX(fence), 0)`
unfoldable pub max_fence : RunId → List ClaimRow → ℕ
max_fence run_id [] = 0
max_fence run_id (c ∷ rest) =
    let top = max_fence run_id rest in if c.run_id == run_id then max c.fence top else top

unfoldable pub next_fence : Db → RunId → ℕ
unfolding max_fence
next_fence db run_id = max_fence run_id db.claims + 1

unfoldable pub insert_artifact : Db → RunId → ArtifactRef → Result Db StoreError
unfolding any run_exists
insert_artifact db run_id a =
    if is_empty a.locator || ltb max_locator_len (length a.locator)
    then err (too_large Sized.artifact_locator (length a.locator) max_locator_len)
    else if any (is_artifact run_id a.digest) db.artifacts || not (run_exists db run_id)
    then err (duplicate (Named.artifact_or_run a.digest))
    else ok (record db {
      artifacts =
          db.artifacts
          ++ record { run_id = run_id; artifact = record a { size_bytes = clamp_i64 a.size_bytes } }
            ∷ [];
    })

-- The row that `release_claim` updates.
abbrev pub is_held : RunId → NodeId → ℕ → ℕ → ClaimRow → Bool
is_held run_id node_id number fence c =
    is_claim run_id node_id number c && (c.fence == clamp_i64 fence) && c.active

unfoldable pub released : Text → Text → (ClaimRow → Bool) → ClaimRow → ClaimRow
released now how held c =
    if held c then record c { active = false; release = some how; released_at = some now } else c

module _ (host : Host) where
  -- `Tx::append_event`, with the sequence number that it returns.
  unfoldable pub append_event :
      Db → RunId → Option NodeId → Text → Value → Result (ℕ × Db) StoreError
  unfolding len_checked run_exists trigger_allows
  append_event db run_id node_id kind payload =
      len_checked Sized.event_payload (host.value_len payload)
      >> (if run_exists db run_id && trigger_allows db run_id kind payload
          then ok (
            suc db.last_seq,
            record db {
              events =
                  db.events
                  ++ record {
                    seq = suc db.last_seq;
                    run_id = run_id;
                    node_id = node_id;
                    kind = kind;
                    payload = payload;
                    recorded_at = host.stamp db;
                  }
                    ∷ [];
              last_seq = suc db.last_seq;
            },
          )
          else err (missing_reference (Named.run_or_row run_id kind)))

  -- `append_event` where the sequence number is not used.
  unfoldable pub log : Db → RunId → Option NodeId → Text → Value → Result Db StoreError
  unfolding append_event
  log db run_id node_id kind payload =
      append_event db run_id node_id kind payload >>= λ (seq, next). ok next

  unfoldable pub insert_attempt : Db → Attempt → Result Db StoreError
  unfolding len_checked any run_exists attempt_refused
  insert_attempt db a =
      len_checked Sized.attempt_record (host.attempt_len a)
      >> (if any (is_attempt a.run_id a.node.node_id a.number) db.attempts
            || not (run_exists db a.run_id)
          then err (attempt_refused db a)
          else ok (record db { attempts = db.attempts ++ a ∷ [] }))

  abbrev pub sealed_payload : Attempt → Value
  sealed_payload a = Value.object (
      Fields.field (text "number") (Value.number a.number) (
        Fields.field (text "outcome") (option_text (outcome_name a.execution))
          (Fields.field (text "result_digest") (option_text (digest_of a.result)) Fields.end)))

  -- `Tx::seal_attempt`
  unfoldable pub seal_attempt : Db → Attempt → Result Db StoreError
  unfolding insert_attempt log
  seal_attempt db a = do
    stored ← insert_attempt db a
    log stored a.run_id (some a.node.node_id) kind_sealed (sealed_payload a)

  unfoldable pub insert_receipt : Db → VerifierReceipt → Result Db StoreError
  unfolding len_checked any attempt_exists receipt_refused
  insert_receipt db r =
      len_checked Sized.receipt_record (host.receipt_len r)
      >> (if any (is_receipt r.attempt.run_id r.id) db.receipts
            || not (attempt_exists db r.attempt.run_id r.attempt.node.node_id r.attempt.number)
          then err (receipt_refused db r)
          else ok (record db { receipts = db.receipts ++ r ∷ [] }))

  unfoldable pub insert_gate_packet : Db → GatePacket → Result Db StoreError
  unfolding len_checked any run_exists
  insert_gate_packet db p =
      len_checked Sized.gate_packet (host.packet_len p)
      >> (if any (is_packet p.run_id p.id) db.gate_packets || not (run_exists db p.run_id)
          then err (duplicate (Named.packet_or_run p.id))
          else ok (record db { gate_packets = db.gate_packets ++ p ∷ [] }))

  unfoldable pub insert_gate_decision : Db → RunId → GateDecision → Result Db StoreError
  unfolding len_checked any packet_exists decision_refused
  insert_gate_decision db run_id d =
      len_checked Sized.gate_decision (host.decision_len d)
      >> (if any (is_decision run_id d.gate_packet_id) db.gate_decisions
            || not (packet_exists db run_id d.gate_packet_id)
          then err (decision_refused db run_id d)
          else ok (record db {
            gate_decisions = db.gate_decisions ++ record { run_id = run_id; decision = d } ∷ [];
          }))

  -- `Tx::insert_claim`; the columns it does not name take their defaults.
  unfoldable pub insert_claim : Db → ClaimRow → Result Db StoreError
  unfolding any run_exists
  insert_claim db c =
      if any (is_claim c.run_id c.node_id c.number) db.claims
        || any (is_fence c.run_id (clamp_i64 c.fence)) db.claims
        || not (run_exists db c.run_id)
      then err (duplicate (Named.claim_or_run c.run_id c.node_id c.number))
      else ok (record db {
        claims =
            db.claims
            ++ record c {
              fence = clamp_i64 c.fence;
              active = true;
              release = none;
              claimed_at = host.stamp db;
              released_at = none;
            }
              ∷ [];
      })

  -- `Tx::release_claim`, with whether a row was released.
  unfoldable pub release_claim : Db → RunId → NodeId → ℕ → ℕ → Text → Bool × Db
  unfolding keep released
  release_claim db run_id node_id number fence how =
      let held = is_held run_id node_id number fence in
      (
        length (keep held db.claims) == 1,
        record db { claims = map (released (host.stamp db) how held) db.claims },
      )
