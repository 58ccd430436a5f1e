-- ===== src/Budget/Carried.antt =====
-- src/budget/mod.rs: the narrowing of a retry is the one that its next attempt runs under.
use checkspan.Common.{
  true, false, ◌&&◌, ◌||◌, Option, none, some, List, [], ◌∷◌, ◌++◌, ◌≡◌, refl, ap, ◌∙◌, arith, Text,
  text, ◌==◌, ==_self, nat_eq, list_eq, list_beq, option_eq, All, is_ok,
}
use checkspan.Common.Json.{get}
use checkspan.Contracts.Ids.{Ident, NodeId, new_identifier}
use checkspan.State.Event.{kind_retry, kind_dispatched, option_text}
use checkspan.Store.Rows.{StoredEvent}
use checkspan.Budget.Narrow.{Narrowing}
use checkspan.Budget.Retry.{narrowing_payload, texts, restrictions}
use checkspan.Budget.Pending.{
  known_fields, decode_hint, decode_string, decode_ident, decode_items, decode_list,
  decode_restriction, decode_narrowing, pending_after, pending_from, pending_narrowing,
}

abbrev pub IsIdent : Ident → Type 0
IsIdent t = is_ok (new_identifier (text "identifier") t) ≡ true

abbrev port_of : Ident × List Text → Ident
port_of (port, sources) = port

-- Its ports are identifiers.
abbrev pub IsWritten : Narrowing → Type 0
IsWritten n = All IsIdent n.dropped_ports × All (λ r. IsIdent (port_of r)) n.restricted_sources

decode_items-texts : (ts : List Text) → decode_items decode_string (texts ts) ≡ some ts
unfolding decode_items decode_string texts
decode_items-texts [] = refl
decode_items-texts (t ∷ ts) = rw (decode_items-texts ts) refl

decode_items-idents :
    (ts : List Ident) → All IsIdent ts → decode_items decode_ident (texts ts) ≡ some ts
unfolding decode_items decode_ident texts
decode_items-idents [] p = refl
decode_items-idents (t ∷ ts) (p, ps) = rw (p, decode_items-idents ts ps) refl

decode_items-restrictions :
    (rs : List (Ident × List Text))
    → All (λ r. IsIdent (port_of r)) rs
    → decode_items decode_restriction (restrictions rs) ≡ some rs
unfolding decode_items decode_restriction decode_list decode_ident restrictions
decode_items-restrictions [] p = refl
decode_items-restrictions ((port, sources) ∷ rs) (p, ps) =
    rw (p, decode_items-texts sources, decode_items-restrictions rs ps) refl

decode_hint-text : (hint : Option Text) → decode_hint (some (option_text hint)) ≡ some hint
unfolding decode_hint
decode_hint-text none = refl
decode_hint-text (some t) = refl

decode_narrowing-payload :
    (n : Narrowing) → IsWritten n → decode_narrowing (narrowing_payload n) ≡ some n
unfolding decode_narrowing narrowing_payload known_fields get decode_list list_beq
decode_narrowing-payload n (dropped, restricted) =
    rw
      (
        decode_hint-text n.repair_hint,
        decode_items-idents n.dropped_ports dropped,
        decode_items-restrictions n.restricted_sources restricted,
      )
      refl

-- An event that neither allows a retry of the node nor dispatches it.
abbrev pub Bystander : NodeId → StoredEvent → Type 0
Bystander id e =
    ((e.node_id == some id) && ((e.kind == kind_retry) || (e.kind == kind_dispatched))) ≡ false

pending_from-bystanders :
    (id : NodeId) (pending : Option Narrowing) (events : List StoredEvent)
    → All (Bystander id) events
    → pending_from id pending events ≡ pending
unfolding pending_from pending_after
pending_from-bystanders id pending [] all = refl
pending_from-bystanders id pending (e ∷ rest) (p, all) =
    let same : pending_after id pending e ≡ pending = ground arith in
    ap (λ q. pending_from id q rest) same ∙ pending_from-bystanders id pending rest all

pending_from-append :
    (id : NodeId) (pending : Option Narrowing) (xs ys : List StoredEvent)
    → pending_from id pending (xs ++ ys) ≡ pending_from id (pending_from id pending xs) ys
unfolding pending_from
pending_from-append id pending [] ys = refl
pending_from-append id pending (x ∷ xs) ys =
    pending_from-append id (pending_after id pending x) xs ys

-- Where a log holds, for a node, an event that allows a retry with the payload of a narrowing
-- whose ports are identifiers, and no later event of that node allows a retry or dispatches it,
-- `pending_narrowing` gives that narrowing back.
pub pending_narrowing-payload :
    (before after : List StoredEvent) (e : StoredEvent) (id : NodeId) (n : Narrowing)
    → e.node_id ≡ some id
    → e.kind ≡ kind_retry
    → e.payload ≡ narrowing_payload n
    → IsWritten n
    → All (Bystander id) after
    → pending_narrowing (before ++ e ∷ after) id ≡ some n
unfolding pending_narrowing pending_from pending_after
pending_narrowing-payload before after e id n about retried carries written later =
    let here : pending_after id (pending_from id none before) e ≡ some n =
      rw
        (
          pending_after,
          about,
          ==_self (some id),
          retried,
          carries,
          decode_narrowing-payload n written,
        )
        refl in
    pending_from-append id none before (e ∷ after)
    ∙ (ap (λ q. pending_from id q after) here ∙ pending_from-bystanders id (some n) after later)
