-- ===== src/Receipts/Admitted.antt =====
-- src/receipts/mod.rs: `admit` as a whole, on a ledger.
use checkspan.Common.{
  map_err_ok, Option, some, [], ◌∷◌, ◌++◌, All, ◌≡◌, ◌⊎◌, refl, ◌∙◌, subst, ap, inl, inr, arith, ok,
  err, >>=_ok, Result-cases, map_err, Text,
}
use checkspan.Contracts.Ids.{NodeId}
use checkspan.Contracts.Time.{Timestamp}
use checkspan.Contracts.Node.{NodeSpec}
use checkspan.Contracts.Graph.{GraphSpec, GraphRun}
use checkspan.Contracts.Attempt.{Attempt, VerifierReceipt, accept}
use checkspan.State.Event.{kind_receipt}
use checkspan.Store.Rows.{StoredEvent}
use checkspan.Store.Tables.{Db}
use checkspan.Store.Logged.{log-IsLogged}
use checkspan.Store.Writes.{Host, log, insert_receipt, len_checked}
use checkspan.Store.Ops.{write, transaction, admitted_payload}
use checkspan.Deps.Pinned.{Pinned, recheck_refs_sound}
use checkspan.Digests.Bound.{Writer}
use checkspan.Receipts.Admit.{AdmitError, check_ledger, admit_body, check_offer, admit}
use checkspan.Receipts.Bound.{
  IsOffered, IsBound, service_on, check_offer-IsOffered, check_ledger-IsBound,
}

-- The receipt is the one row added to the receipts, and its event the one added to the log.
pub record IsRecorded (receipt : VerifierReceipt) (db next : Db) : Type 0 where
  pub receipts : next.receipts ≡ db.receipts ++ receipt ∷ []
  pub event : StoredEvent
  pub events : next.events ≡ db.events ++ event ∷ []
  pub kind : event.kind ≡ kind_receipt
  pub payload : event.payload ≡ admitted_payload receipt

same_node : {o : Option NodeSpec} {a b : NodeSpec} → o ≡ some a → o ≡ some b → a ≡ b
same_node h k = cc

insert-receipts :
    (host : Host) (db : Db) (receipt : VerifierReceipt) (next : Db)
    → insert_receipt host db receipt ≡ ok next
    → (next.receipts ≡ db.receipts ++ receipt ∷ []) × (next.events ≡ db.events)
unfolding insert_receipt len_checked
insert-receipts host db receipt next h = ground arith

log-event :
    (host : Host) (db : Db) (run_id : Text) (id : NodeId) (receipt : VerifierReceipt) (next : Db)
    → log host db run_id (some id) kind_receipt (admitted_payload receipt) ≡ ok next
    → (next.receipts ≡ db.receipts)
      × ((event : StoredEvent) × (next.events ≡ db.events ++ event ∷ [])
          × (event.kind ≡ kind_receipt)
          × (event.payload ≡ admitted_payload receipt))
log-event host db run_id id receipt next h =
    let l = log-IsLogged run_id (some id) kind_receipt (admitted_payload receipt) host db next h in
    (
      ap (λ (d : Db). d.receipts) l.rest,
      (l.event, ap (λ (d : Db). d.events) l.rest, l.of_kind, l.carries),
    )

module _ (host : Host) (w : Writer) (spec : GraphSpec) (run : GraphRun) (receipt : VerifierReceipt)
    (now : Timestamp) (db : Db) where
  -- What an admission has checked and written.
  pub record IsAdmission (next : Db) : Type 0 where
    pub node : NodeSpec
    pub offered : IsOffered spec run receipt now node
    pub attempt : Attempt
    pub bound : IsBound w spec run node receipt now db attempt
    pub pinned :
        receipt.verdict ≡ accept
        → All
            (Pinned
              (service_on w spec run node receipt now db bound.state)
              attempt.dependency_receipts)
            node.deps
    pub recorded : IsRecorded receipt db next

  body-IsAdmission :
      (node : NodeSpec) (next : Db)
      → check_offer spec run receipt now ≡ ok node
      → admit_body host w spec run node receipt now db ≡ ok next
      → IsAdmission next
  unfolding admit_body
  body-IsAdmission node next checked h =
      let (attempt, ledger, h₁) = >>=_ok (check_ledger w spec run node receipt now db) _ h in
      let (mid, inserted, logged) =
        >>=_ok (map_err AdmitError.store (insert_receipt host db receipt)) _ h₁ in
      let offered = check_offer-IsOffered spec run receipt now node checked in
      let bound = check_ledger-IsBound w spec run node receipt now db attempt ledger in
      let stored = map_err_ok AdmitError.store (insert_receipt host db receipt) mid inserted in
      let event =
        map_err_ok AdmitError.store
          (log host mid receipt.attempt.run_id (some receipt.attempt.node.node_id) kind_receipt
            (admitted_payload receipt))
          next logged in
      let (own, kept) = insert-receipts host db receipt mid stored in
      let (same, (e, appended, kind, payload)) =
        log-event host mid receipt.attempt.run_id receipt.attempt.node.node_id receipt next event in
      record {
        node = node;
        offered = offered;
        attempt = attempt;
        bound = bound;
        pinned = λ accepts.
            let service = service_on w spec run node receipt now db bound.state in
            let (found, in_graph, all, _) =
              recheck_refs_sound service receipt.attempt.node.node_id attempt.dependency_receipts
                (bound.rechecked accepts) in
            let one : found ≡ node = same_node in_graph offered.in_graph in
            subst (λ (n : NodeSpec). All (Pinned service attempt.dependency_receipts) n.deps) one
              all;
        recorded = record {
          receipts = same ∙ own;
          event = e;
          events = appended ∙ ap (λ l. l ++ e ∷ []) kept;
          kind = kind;
          payload = payload;
        };
      }

  -- The admission of a receipt either fails and leaves the ledger as it was, or succeeds, and
  -- then: the receipt is well formed, in this run, about a node of the graph at its revision, by
  -- the verifier and under the policy of the contract, and not past its validity; no receipt of
  -- its id was in the run; it is about a sealed attempt whose execution completed, on its result
  -- and its context, and, where one of its inputs is a patch, on the subject of the first such
  -- input; that attempt is the one that the node is checking by the replayed log; if it accepts,
  -- every dependency of the node is pinned to a receipt that is usable for it; and the receipt
  -- is the one row added to the receipts and its event the one added to the log.
  pub admit-IsAdmission :
      ((e : AdmitError) × (admit host w spec run receipt now db ≡ (err e, db)))
      ⊎ (((admit host w spec run receipt now db).0 ≡ ok tt)
          × IsAdmission (admit host w spec run receipt now db).1)
  unfolding admit write transaction
  admit-IsAdmission = elim (Result-cases (check_offer spec run receipt now)) [
    | inr (e, f) ↦ inl (e, rw (admit, f) refl)
    | inl (node, f) ↦ elim (Result-cases (admit_body host w spec run node receipt now db)) [
      | inr (e, g) ↦ inl (e, rw (admit, f, write, transaction, g) refl)
      | inl (next, g) ↦ inr (
        rw (admit, f, write, transaction, g) refl,
        rw (admit, f, write, transaction, g) (body-IsAdmission node next f g),
      )
    ]
  ]
