-- ===== src/Gates/Context.antt =====
-- src/gates/mod.rs: what the references of a packet are, in terms of the attempt and of the log.
use checkspan.Common.{
  ℕ, Bool, true, false, none, some, List, [], ◌∷◌, ◌++◌, ◌≡◌, ◌≢◌, refl, sym, subst, ap, ◌∙◌, inl,
  inr, arith, Text, text, ◌==◌, ==→≡, ≡→==, list_eq, option_eq, nat_eq, find, All, Result, ok,
  >>=_ok, map_err, map_err_ok, ok-injective, Bool-cases,
}
use checkspan.Common.Tables.{find-append}
use checkspan.Common.Json.{Value, get}
use checkspan.Contracts.Ids.{Digest, NodeId, RunId}
use checkspan.Contracts.Attempt.{Attempt, ResultRef, VerifierReceipt, attempt_ref}
use checkspan.Contracts.Packet.{ContextKind, ContextRef}
use checkspan.State.Event.{kind_receipt}
use checkspan.Store.Rows.{StoredEvent}
use checkspan.Store.Tables.{Db, read_events, read_receipt, payload_receipt}
use checkspan.Digests.Envelope.{Json, serialize, decimal, artifact_digest, jcs_bytes}
use checkspan.Gates.Packets.{
  PacketWriter, digest_of_record, receipt_context, result_context, context_refs, last_receipt_id,
  attempt_ref_text, node_ref_text, admits_for,
}
use mathlib.Core.List.{reverse, reverse-cons, reverse-append}

-- The event is not the admission of a receipt of the node.
abbrev pub AdmitsNot : NodeId → StoredEvent → Type 0
AdmitsNot id e = e.kind ≡ kind_receipt → e.node_id ≢ some id

admits_not : (id : NodeId) (e : StoredEvent) → AdmitsNot id e → admits_for id e ≡ false
admits_not id e h = elim (Bool-cases (e.kind == kind_receipt)) [
  | inr f ↦ rw f refl
  | inl f ↦ elim (Bool-cases (e.node_id == some id)) [
    | inr g ↦ rw (f, g) refl
    | inl g ↦ elim (h (==→≡ e.kind kind_receipt f) (==→≡ e.node_id (some id) g)) [ ]
  ]
]

find_last :
    {A : Type 0} (p : A → Bool) (xs : List A) (a : A)
    → find p xs ≡ none
    → find p (xs ++ a ∷ []) ≡ find p (a ∷ [])
unfolding find
find_last p [] a h = refl
find_last p (x ∷ xs) a h = ground (arith, find_last p xs a)

find-AdmitsNot :
    (id : NodeId) (back : List StoredEvent)
    → All (AdmitsNot id) back
    → find (admits_for id) (reverse back) ≡ none
unfolding find
find-AdmitsNot id [] h = refl
find-AdmitsNot id (e ∷ back) h =
    let here = admits_not id e h.0 in
    ap (find (admits_for id)) (reverse-cons e back)
    ∙ find_last (admits_for id) (reverse back) e (find-AdmitsNot id back h.1)
    ∙ rw here refl

find_last_admission :
    (id : NodeId) (front : List StoredEvent) (e : StoredEvent) (back : List StoredEvent)
    → e.kind ≡ kind_receipt
    → e.node_id ≡ some id
    → All (AdmitsNot id) back
    → find (admits_for id) (reverse (front ++ e ∷ back)) ≡ some e
unfolding find
find_last_admission id front e back k n h =
    let test = admits_for id in
    let own : test e ≡ true = rw (≡→== e.kind kind_receipt k, ≡→== e.node_id (some id) n) refl in
    let last : find test (reverse (e ∷ back)) ≡ some e =
      ap (find test) (reverse-cons e back)
      ∙ find_last test (reverse back) e (find-AdmitsNot id back h)
      ∙ rw own refl in
    ap (find test) (reverse-append front (e ∷ back))
    ∙ find-append test (reverse (e ∷ back)) (reverse front) e last

last_receipt_id-none :
    (id : NodeId) (events : List StoredEvent)
    → All (AdmitsNot id) events
    → last_receipt_id events id ≡ none
unfolding last_receipt_id
last_receipt_id-none id events h = rw (last_receipt_id, find-AdmitsNot id events h) refl

last_receipt_id_named :
    (id : NodeId) (front : List StoredEvent) (e : StoredEvent) (back : List StoredEvent)
    (receipt_id : Text)
    → e.kind ≡ kind_receipt
    → e.node_id ≡ some id
    → All (AdmitsNot id) back
    → get (text "receipt_id") e.payload ≡ some (Value.string receipt_id)
    → last_receipt_id (front ++ e ∷ back) id ≡ some receipt_id
unfolding last_receipt_id payload_receipt
last_receipt_id_named id front e back receipt_id k n h g =
    rw (last_receipt_id, find_last_admission id front e back k n h, g) refl

module _ (w : PacketWriter) where
  -- The digest of the canonical bytes of a record as it is written.
  abbrev pub IsDigestOf : Result Json Text → Digest → Type 0
  IsDigestOf written digest =
      (value : Json) × (bytes : List ℕ) × (written ≡ ok value)
      × (w.codec.canonical value ≡ ok bytes)
      × (digest ≡ w.codec.sha256 bytes)

  digest_of_record-IsDigestOf :
      (written : Result Json Text) (digest : Digest)
      → digest_of_record w written ≡ ok digest
      → IsDigestOf written digest
  unfolding digest_of_record jcs_bytes artifact_digest
  digest_of_record-IsDigestOf written digest h =
      let (value, e₁, h₁) = >>=_ok (map_err serialize written) _ h in
      let (bytes, e₂, last) = >>=_ok (jcs_bytes w.codec value) _ h₁ in
      (
        value,
        bytes,
        map_err_ok serialize written value e₁,
        map_err_ok serialize (w.codec.canonical value) bytes e₂,
        sym (ok-injective last),
      )

  module _ (db : Db) (run_id : RunId) (id : NodeId) (attempt : Attempt) where
    -- The receipts that are presented: none where the log admits none for the node, and the one
    -- that it admitted last where that one is stored and is about the attempt.
    pub record PresentsReceipts (receipts : List ContextRef) : Type 0 where
      pub unjudged : All (AdmitsNot id) (read_events db run_id) → receipts ≡ []
      pub judged :
          (front : List StoredEvent) (e : StoredEvent) (back : List StoredEvent) (receipt_id : Text)
          (receipt : VerifierReceipt)
          → read_events db run_id ≡ front ++ e ∷ back
          → e.kind ≡ kind_receipt
          → e.node_id ≡ some id
          → All (AdmitsNot id) back
          → get (text "receipt_id") e.payload ≡ some (Value.string receipt_id)
          → read_receipt db run_id receipt_id ≡ some receipt
          → receipt.attempt ≡ attempt_ref attempt
          → (digest : Digest) × IsDigestOf (w.write_receipt receipt) digest
            × (receipts
                ≡ record { kind = ContextKind.receipt; id = receipt_id; digest = digest } ∷ [])

    -- The attempt, the receipts and the result, in this order.
    pub record IsContext (refs : List ContextRef) : Type 0 where
      pub digest : Digest
      pub of_attempt : IsDigestOf (w.write_attempt attempt) digest
      pub receipts : List ContextRef
      pub presents : PresentsReceipts receipts
      pub results : List ContextRef
      pub unproduced : attempt.result ≡ none → results ≡ []
      pub produced :
          (result : ResultRef)
          → attempt.result ≡ some result
          → results
            ≡ record {
              kind = ContextKind.artifact;
              id = result.artifact_ref;
              digest = result.digest;
            }
              ∷ []
      pub lists :
          refs
          ≡ record {
            kind = ContextKind.attempt;
            id =
                attempt.run_id
                ++ (text "/"
                    ++ ((attempt.node.graph_id
                          ++ (text "/"
                              ++ (attempt.node.node_id
                                  ++ (text "@" ++ decimal attempt.node.revision))))
                        ++ (text "#" ++ decimal attempt.number)));
            digest = digest;
          }
            ∷ (receipts ++ results)

    receipt_context-PresentsReceipts :
        (receipts : List ContextRef)
        → receipt_context w db run_id (last_receipt_id (read_events db run_id) id) ≡ ok receipts
        → PresentsReceipts receipts
    unfolding receipt_context
    receipt_context-PresentsReceipts receipts h = record {
      unjudged = λ none_admitted.
          let same = last_receipt_id-none id (read_events db run_id) none_admitted in
          sym (ok-injective (subst (λ o. receipt_context w db run_id o ≡ ok receipts) same h));
      judged = λ front e back receipt_id receipt split k n rest carried stored about.
          let same =
            ap (λ es. last_receipt_id es id) split
            ∙ last_receipt_id_named id front e back receipt_id k n rest carried in
          let pushed = subst (λ o. receipt_context w db run_id o ≡ ok receipts) same h in
          let (digest, made, last) =
            >>=_ok (digest_of_record w (w.write_receipt receipt)) _
              (rw (receipt_context, stored) at pushed) in
          (
            digest,
            digest_of_record-IsDigestOf (w.write_receipt receipt) digest made,
            sym (ok-injective last),
          );
    }

    pub context_refs-IsContext :
        (refs : List ContextRef) → context_refs w db run_id id attempt ≡ ok refs → IsContext refs
    unfolding context_refs attempt_ref_text node_ref_text result_context
    context_refs-IsContext refs h =
        let (digest, e₁, h₁) = >>=_ok (digest_of_record w (w.write_attempt attempt)) _ h in
        let (receipts, e₂, last) =
          >>=_ok (receipt_context w db run_id (last_receipt_id (read_events db run_id) id)) _ h₁ in
        record {
          digest = digest;
          of_attempt = digest_of_record-IsDigestOf (w.write_attempt attempt) digest e₁;
          receipts = receipts;
          presents = receipt_context-PresentsReceipts receipts e₂;
          results = result_context w attempt.result;
          unproduced = λ e. ap (result_context w) e;
          produced = λ result e. ap (result_context w) e;
          lists = sym (ok-injective last);
        }
