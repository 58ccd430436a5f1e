-- ===== src/Store/AppendOnly.antt =====
-- src/store/mod.rs: what no sequence of writes takes back.
use checkspan.Common.{
  Bool, true, some, List, [], ◌∷◌, ◌++◌, ◌≡◌, sym, ap, ◌∙◌, inl, inr, arith, Text, text, Memᴰ, find,
  Option-cases, ≡→==, list_eq, nat_eq,
}
use mathlib.Core.List.{append_assoc, append-nil}
use checkspan.Common.Tables.{Change, find-append, find-member, any-find, All_member}
use checkspan.Common.Json.{get}
use checkspan.Contracts.Refs.{GraphRef}
use checkspan.Contracts.Graph.{GraphSpec}
use checkspan.Contracts.Attempt.{VerifierReceipt}
use checkspan.State.Event.{kind_receipt}
use checkspan.Store.Rows.{StoredEvent}
use checkspan.Store.Tables.{
  Db, empty_db, is_graph, is_receipt, read_receipt, attempt_exists, load_graph, receipt_exists,
  payload_receipt,
}
use checkspan.Store.Writes.{Host, trigger_allows, names_receipt}
use checkspan.Store.Steps.{Steps}
use checkspan.Store.Changed.{Step-Changes}
use checkspan.Store.Changes.{Table, EventOk, ReceiptOk}
use checkspan.Store.Consistency.{Steps-IsConsistent}

-- The later table is the earlier one with rows added at its end.
abbrev pub Extends {ℓ} : {A : Type ℓ} → List A → List A → Type ℓ
Extends {A} old new = (more : List A) × (new ≡ old ++ more)

Change-Extends {ℓ κ} :
    {A : Type ℓ} {Allowed : A → Type κ} (clash : A → A → Bool) {old new : List A}
    → Change Allowed clash old new
    → Extends old new
Change-Extends clash {old} (inl e) = ([], e ∙ sym (append-nil old))
Change-Extends clash (inr (row, e, _, _)) = (row ∷ [], e)

Extends-trans {ℓ} :
    {A : Type ℓ} (old mid new : List A) → Extends old mid → Extends mid new → Extends old new
Extends-trans old mid new (m, e) (n, f) = (m ++ n, f ∙ (ap (λ l. l ++ n) e ∙ append_assoc old m n))

abbrev pub OnlyAppends : Db → Db → Type 0
OnlyAppends db next =
    Extends db.graphs next.graphs
    × Extends db.runs next.runs
    × Extends db.events next.events
    × Extends db.attempts next.attempts
    × Extends db.receipts next.receipts
    × Extends db.gate_packets next.gate_packets
    × Extends db.gate_decisions next.gate_decisions

OnlyAppends-refl : (db : Db) → OnlyAppends db db
OnlyAppends-refl db = (
  ([], sym (append-nil db.graphs)),
  ([], sym (append-nil db.runs)),
  ([], sym (append-nil db.events)),
  ([], sym (append-nil db.attempts)),
  ([], sym (append-nil db.receipts)),
  ([], sym (append-nil db.gate_packets)),
  ([], sym (append-nil db.gate_decisions)),
)

-- Whatever writes follow, the graphs, runs, events, attempts, receipts, gate packets and gate
-- decisions of the ledger stay as they were, with later rows after them.
pub Steps-OnlyAppends : (host : Host) {db next : Db} → Steps host db next → OnlyAppends db next
Steps-OnlyAppends host {db} Steps.none_yet = OnlyAppends-refl db
Steps-OnlyAppends host {db} (Steps.and_then {mid} {next} before step) =
    let (g, r, e, a, v, p, d) = Steps-OnlyAppends host before in
    let c = Step-Changes host mid step in
    (
      Extends-trans _ _ _ g (Change-Extends _ (c Table.graphs)),
      Extends-trans _ _ _ r (Change-Extends _ (c Table.runs)),
      Extends-trans _ _ _ e (Change-Extends _ (c Table.events)),
      Extends-trans _ _ _ a (Change-Extends _ (c Table.attempts)),
      Extends-trans _ _ _ v (Change-Extends _ (c Table.receipts)),
      Extends-trans _ _ _ p (Change-Extends _ (c Table.gate_packets)),
      Extends-trans _ _ _ d (Change-Extends _ (c Table.gate_decisions)),
    )

-- A graph revision that `load_graph` returns is returned the same after any writes.
pub load_graph-Steps :
    (host : Host) {db next : Db} (g : GraphRef) (spec : GraphSpec)
    → Steps host db next
    → load_graph db g ≡ some spec
    → load_graph next g ≡ some spec
unfolding load_graph
load_graph-Steps host {db} {next} g spec steps h =
    let (more, e) = (Steps-OnlyAppends host steps).0 in
    elim (Option-cases (find (is_graph g) db.graphs)) [
      | inl missing ↦ ground arith
      | inr (row, found) ↦
          let kept = find-append (is_graph g) db.graphs more row found in ground (arith, e)
    ]

named_receipt :
    (db : Db) (e : StoredEvent)
    → e.kind ≡ kind_receipt
    → trigger_allows db e.run_id e.kind e.payload ≡ true
    → (id : Text) × (payload_receipt (get (text "receipt_id") e.payload) ≡ some id)
      × (receipt_exists db e.run_id id ≡ true)
unfolding trigger_allows names_receipt
named_receipt db e same allowed =
    elim (Option-cases (payload_receipt (get (text "receipt_id") e.payload))) [
      | inl missing ↦ ground (arith, ≡→== e.kind kind_receipt)
      | inr (id, found) ↦ (id, found, ground (arith, ≡→== e.kind kind_receipt))
    ]

-- In a ledger that writes have reached from the empty one, every `receipt_admitted` event of the
-- log names a receipt that is stored in the run of the event, and the attempt which that receipt
-- is about is stored too.
pub admission_backed :
    (host : Host) (db : Db) (e : StoredEvent)
    → Steps host empty_db db
    → Memᴰ e db.events
    → e.kind ≡ kind_receipt
    → (id : Text) × (payload_receipt (get (text "receipt_id") e.payload) ≡ some id)
      × (r : VerifierReceipt) × (read_receipt db e.run_id id ≡ some r)
      × (attempt_exists db r.attempt.run_id r.attempt.node.node_id r.attempt.number ≡ true)
unfolding receipt_exists read_receipt
admission_backed host db e steps member same =
    let k = Steps-IsConsistent host db steps in
    let allowed = All_member (EventOk db) db.events k.events member in
    let (id, named, stored) = named_receipt db e same allowed.1 in
    let (r, found) = any-find (is_receipt e.run_id id) db.receipts stored in
    let (kept, own) = find-member (is_receipt e.run_id id) db.receipts r found in
    (id, named, r, found, All_member (ReceiptOk db) db.receipts k.receipts kept)
