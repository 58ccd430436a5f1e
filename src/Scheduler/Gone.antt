-- ===== src/Scheduler/Gone.antt =====
-- src/store/mod.rs and src/scheduler/mod.rs: a claim that was released stays in the ledger, and
-- released, whatever is written after.
use checkspan.Common.{
  nat_eq, list_eq, true, refl, ==_self, [], ◌∷◌, Memᴰ, ℕ, Bool, false, some, List, ◌≡◌, sym, subst,
  inl, inr, arith, Text, find,
}
use checkspan.Common.Tables.{find-append, All-Memᴰ, Unique}
use checkspan.Contracts.Ids.{NodeId, RunId}
use checkspan.Store.Rows.{ClaimRow}
use checkspan.Store.Tables.{Db, is_claim}
use checkspan.Store.Writes.{Host, released, is_held}
use checkspan.Store.Steps.{Steps}
use checkspan.Store.Changes.{Table, ChangeAt, claim_clash}
use checkspan.Store.Changed.{Step-Changes}
use checkspan.Scheduler.Completed.{find-released}

-- A row of a table without repeated keys is the one that its key finds.
pub find-Unique :
    (run_id : RunId) (id : NodeId) (rows : List ClaimRow) (row : ClaimRow)
    → Unique claim_clash rows
    → Memᴰ row rows
    → row.run_id ≡ run_id
    → row.node_id ≡ id
    → find (is_claim run_id id row.number) rows ≡ some row
unfolding find
find-Unique run_id id [] row u m r n = elim m [ ]
find-Unique run_id id (x ∷ rows) row (apart, u) (Memᴰ.head e) r n =
    let own : is_claim run_id id row.number row ≡ true =
      rw (r, n, ==_self run_id, ==_self id, ==_self row.number) refl in
    subst (λ (y : ClaimRow). find (is_claim run_id id row.number) (y ∷ rows) ≡ some row) e
      (rw (find, own) refl)
find-Unique run_id id (x ∷ rows) row (apart, u) (Memᴰ.tail m) r n =
    let other = All-Memᴰ (λ later. claim_clash later x ≡ false) rows row apart m in
    let here : is_claim run_id id row.number x ≡ false =
      subst (λ a. is_claim a id row.number x ≡ false) r
        (subst (λ a. is_claim row.run_id a row.number x ≡ false) n other) in
    rw (find, here) (find-Unique run_id id rows row u m r n)

stays_gone :
    (now how : Text) (held : ClaimRow → Bool) (row : ClaimRow)
    → row.active ≡ false
    → (released now how held row).active ≡ false
unfolding released
stays_gone now how held row h = ground (arith, h)

module _ (host : Host) (run_id : RunId) (id : NodeId) (number : ℕ) where
  -- The claim of this key is in the table, and is active no more.
  abbrev pub IsGone : List ClaimRow → Type 0
  IsGone rows =
      (row : ClaimRow) × (find (is_claim run_id id number) rows ≡ some row) × (row.active ≡ false)

  change-IsGone :
      (db next : Db) → ChangeAt host db next Table.claims → IsGone db.claims → IsGone next.claims
  change-IsGone db next (inl same) gone = subst IsGone (sym same) gone
  change-IsGone db next (inr (inl (added, same, _, _))) (row, found, off) =
      subst IsGone (sym same)
        (row, find-append (is_claim run_id id number) db.claims _ row found, off)
  change-IsGone db next (inr (inr (now, how, r, n, k, fence, same))) (row, found, off) =
      let held = is_held r n k fence in
      subst IsGone (sym same) (
        released now how held row,
        find-released run_id id number now how held db.claims row found,
        stays_gone now how held row off,
      )

  pub Steps-IsGone : (db later : Db) → Steps host db later → IsGone db.claims → IsGone later.claims
  Steps-IsGone db later Steps.none_yet gone = gone
  Steps-IsGone db later (Steps.and_then {mid = mid} before last) gone =
      change-IsGone mid later (Step-Changes host mid last Table.claims)
        (Steps-IsGone db mid before gone)
