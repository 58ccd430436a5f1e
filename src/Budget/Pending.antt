-- ===== src/Budget/Pending.antt =====
-- src/budget/mod.rs: `pending_narrowing`, the narrowing that the next attempt of a node runs under. The
-- derived decoder is read on objects, the only form that the program writes.
use checkspan.Common.{
  Bool, true, not, ◌&&◌, ◌||◌, Option, none, some, List, [], ◌∷◌, Text, text, ◌==◌, nat_eq, list_eq,
  option_eq, is_ok, if◌then◌else◌,
}
use checkspan.Common.Json.{Value, Items, Fields, get}
use checkspan.Contracts.Ids.{Ident, NodeId, new_identifier}
use checkspan.State.Event.{kind_retry, kind_dispatched}
use checkspan.Store.Rows.{StoredEvent}
use checkspan.Budget.Narrow.{Narrowing}

-- `deny_unknown_fields`
unfoldable pub known_fields : Fields → Bool
known_fields Fields.end = true
known_fields (Fields.field name v rest) =
    ((name == text "repair_hint")
      || (name == text "dropped_ports")
      || (name == text "restricted_sources"))
    && known_fields rest

unfoldable pub decode_hint : Option Value → Option (Option Text)
decode_hint none = some none
decode_hint (some Value.null) = some none
decode_hint (some (Value.string t)) = some (some t)
decode_hint (some _) = none

abbrev pub consed {ℓ} : {A : Type ℓ} → Option A → Option (List A) → Option (List A)
consed (some a) (some rest) = some (a ∷ rest)
consed (some a) none = none
consed none rest = none

unfoldable pub decode_string : Value → Option Text
decode_string (Value.string t) = some t
decode_string _ = none

unfoldable pub decode_ident : Value → Option Ident
unfolding new_identifier
decode_ident (Value.string t) =
    if is_ok (new_identifier (text "identifier") t) then some t else none
decode_ident _ = none

unfoldable pub decode_items {ℓ} : {A : Type ℓ} → (Value → Option A) → Items → Option (List A)
decode_items decode Items.nil = some []
decode_items decode (Items.cons v rest) = consed (decode v) (decode_items decode rest)

unfoldable pub decode_list {ℓ} : {A : Type ℓ} → (Value → Option A) → Option Value → Option (List A)
unfolding decode_items
decode_list decode none = some []
decode_list decode (some (Value.array items)) = decode_items decode items
decode_list decode (some _) = none

abbrev pub paired : Option Ident → Option (List Text) → Option (Ident × List Text)
paired (some port) (some sources) = some (port, sources)
paired (some port) none = none
paired none sources = none

unfoldable pub decode_restriction : Value → Option (Ident × List Text)
unfolding decode_ident decode_list decode_string
decode_restriction (Value.array (Items.cons port (Items.cons sources Items.nil))) =
    paired (decode_ident port) (decode_list decode_string (some sources))
decode_restriction _ = none

abbrev pub assembled :
    Option (Option Text)
    → Option (List Ident)
    → Option (List (Ident × List Text))
    → Option Narrowing
assembled (some hint) (some dropped) (some restricted) =
    some (record { repair_hint = hint; dropped_ports = dropped; restricted_sources = restricted })
assembled _ _ _ = none

-- `serde_json::from_value::<Narrowing>(..).ok()`
unfoldable pub decode_narrowing : Value → Option Narrowing
unfolding known_fields decode_hint decode_list decode_ident decode_restriction get
decode_narrowing (Value.object fields) =
    if known_fields fields
    then assembled (decode_hint (get (text "repair_hint") (Value.object fields)))
        (decode_list decode_ident (get (text "dropped_ports") (Value.object fields)))
        (decode_list decode_restriction (get (text "restricted_sources") (Value.object fields)))
    else none
decode_narrowing _ = none

-- The body of the loop, on what is pending before the event.
unfoldable pub pending_after : NodeId → Option Narrowing → StoredEvent → Option Narrowing
unfolding decode_narrowing
pending_after id pending e =
    if not (e.node_id == some id)
    then pending
    else if e.kind == kind_retry
    then decode_narrowing e.payload
    else if e.kind == kind_dispatched
    then none
    else pending

unfoldable pub pending_from : NodeId → Option Narrowing → List StoredEvent → Option Narrowing
unfolding pending_after
pending_from id pending [] = pending
pending_from id pending (e ∷ rest) = pending_from id (pending_after id pending e) rest

unfoldable pub pending_narrowing : List StoredEvent → NodeId → Option Narrowing
unfolding pending_from
pending_narrowing events id = pending_from id none events
