-- ===== src/Store/Logged.antt =====
-- src/store/mod.rs: what `append_event` leaves, for one event of any kind.
use checkspan.Common.{
  >>=_ok, some, suc, Option, [], ◌∷◌, ◌++◌, ◌≡◌, refl, arith, Text, ok, true, ap, ◌∙◌, keep,
  keep-append, ◌==◌, ≡→==, list_eq, nat_eq,
}
use checkspan.Common.Json.{Value}
use checkspan.Contracts.Ids.{NodeId, RunId}
use checkspan.Contracts.Attempt.{Attempt}
use checkspan.State.Event.{kind_sealed}
use checkspan.Store.Rows.{StoredEvent}
use checkspan.Store.Tables.{Db, read_events}
use checkspan.Store.Writes.{
  Host, log, append_event, len_checked, seal_attempt, insert_attempt, sealed_payload,
}

module _ (run_id : RunId) (node_id : Option NodeId) (kind : Text) (payload : Value) where
  -- The event is the last of the log, and no other table is changed.
  pub record IsLogged (db next : Db) : Type 0 where
    pub event : StoredEvent
    pub rest : next ≡ record db { events = db.events ++ event ∷ []; last_seq = suc db.last_seq }
    pub in_run : event.run_id ≡ run_id
    pub on_node : event.node_id ≡ node_id
    pub of_kind : event.kind ≡ kind
    pub carries : event.payload ≡ payload

  pub log-IsLogged :
      (host : Host) (db next : Db)
      → log host db run_id node_id kind payload ≡ ok next
      → IsLogged db next
  unfolding log append_event len_checked
  log-IsLogged host db next h = record {
    event = record {
      seq = suc db.last_seq;
      run_id = run_id;
      node_id = node_id;
      kind = kind;
      payload = payload;
      recorded_at = host.stamp db;
    };
    rest = ground (arith, h);
    in_run = refl;
    on_node = refl;
    of_kind = refl;
    carries = refl;
  }

  pub read_events-IsLogged :
      {db next : Db} (l : IsLogged db next)
      → read_events next run_id ≡ read_events db run_id ++ l.event ∷ []
  unfolding read_events
  read_events-IsLogged {db} l =
      let mine : (l.event.run_id == run_id) ≡ true = ≡→== l.event.run_id run_id l.in_run in
      ap (λ (d : Db). keep (λ (e : StoredEvent). e.run_id == run_id) d.events) l.rest
      ∙ keep-append (λ (e : StoredEvent). e.run_id == run_id) db.events l.event mine

-- A sealed attempt is the last of the attempts, and its event the last of the log.
pub record IsSealed (host : Host) (a : Attempt) (db next : Db) : Type 0 where
  pub attempts : next.attempts ≡ db.attempts ++ a ∷ []
  pub claims : next.claims ≡ db.claims
  pub event : StoredEvent
  pub events : read_events next a.run_id ≡ read_events db a.run_id ++ event ∷ []
  pub on_node : event.node_id ≡ some a.node.node_id
  pub of_kind : event.kind ≡ kind_sealed
  pub carries : event.payload ≡ sealed_payload host a

pub seal_attempt-IsSealed :
    (host : Host) (a : Attempt) (db next : Db)
    → seal_attempt host db a ≡ ok next
    → IsSealed host a db next
unfolding seal_attempt insert_attempt len_checked read_events
seal_attempt-IsSealed host a db next h =
    let (mid, put, logged) = >>=_ok (insert_attempt host db a) _ h in
    let stored : mid ≡ record db { attempts = db.attempts ++ a ∷ [] } = ground (arith, put) in
    let l =
      log-IsLogged a.run_id (some a.node.node_id) kind_sealed (sealed_payload host a) host mid next
        logged in
    record {
      attempts = ap (λ (d : Db). d.attempts) l.rest ∙ ap (λ (d : Db). d.attempts) stored;
      claims = ap (λ (d : Db). d.claims) l.rest ∙ ap (λ (d : Db). d.claims) stored;
      event = l.event;
      events =
          read_events-IsLogged a.run_id (some a.node.node_id) kind_sealed (sealed_payload host a) l
          ∙ ap (λ (d : Db). read_events d a.run_id ++ l.event ∷ []) stored;
      on_node = l.on_node;
      of_kind = l.of_kind;
      carries = l.carries;
    }
