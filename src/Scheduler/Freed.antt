-- ===== src/Scheduler/Freed.antt =====
-- src/scheduler/mod.rs: the loop of `cancel` releases every live claim of a node, and no other.
use checkspan.Common.{
  ℕ, ◌≤◌, Bool, true, false, not, ◌&&◌, List, [], ◌∷◌, map, All, ◌≡◌, refl, ◌∙◌, inl, inr, arith,
  Text, text, ◌==◌, ==_self, nat_eq, list_eq, Bool-cases, keep, any,
}
use checkspan.Common.Tables.{All-Memᴰ, All-tabulate, any-Memᴰ, Memᴰ-keep}
use checkspan.Common.Sorting.{any-sorted}
use checkspan.Contracts.Ids.{NodeId, RunId}
use checkspan.Store.Rows.{ClaimRow}
use checkspan.Store.Tables.{Db, read_active_claims, claim_before}
use checkspan.Store.Writes.{Host, release_claim, released, is_held}
use checkspan.Scheduler.Finish.{release_all}

abbrev pub max_fence_kept : ℕ
max_fence_kept = 9223372036854775807

module _ (run_id : RunId) (id : NodeId) where
  -- A claim on the node, and one that is active.
  abbrev pub on_node : ClaimRow → Bool
  on_node c = (c.run_id == run_id) && (c.node_id == id)

  abbrev pub off_node : ClaimRow → Bool
  off_node c = not (on_node c)

  abbrev pub is_live : ClaimRow → Bool
  is_live c = on_node c && c.active

  abbrev pub same_claim : ClaimRow → ClaimRow → Bool
  same_claim c row = on_node row && (row.number == c.number) && (row.fence == c.fence)

  -- Each live claim is still to be released: it is one of those listed.
  abbrev pub Listed : List ClaimRow → List ClaimRow → Type 0
  Listed rows claims =
      All
        (λ (c : ClaimRow).
          (c.fence ≤ max_fence_kept) × (is_live c ≡ true → any (same_claim c) rows ≡ true))
        claims

  released-Listed :
      (row : ClaimRow) (rest : List ClaimRow) (now how : Text) (claims : List ClaimRow)
      → on_node row ≡ true
      → Listed (row ∷ rest) claims
      → Listed rest (map (released now how (is_held run_id id row.number row.fence)) claims)
  unfolding released any
  released-Listed row rest now how [] h l = tt
  released-Listed row rest now how (c ∷ claims) h ((small, listed), later) = (
    elim (Bool-cases (is_held run_id id row.number row.fence c)) [
      | inl e ↦ rw (released, e) (small, λ live. ground (arith, live))
      | inr e ↦ rw (released, e) (small, λ live. ground (arith, h, e, small, live, listed live))
    ],
    released-Listed row rest now how claims h later,
  )

  skipped-Listed :
      (row : ClaimRow) (rest claims : List ClaimRow)
      → on_node row ≡ false
      → Listed (row ∷ rest) claims
      → Listed rest claims
  unfolding any
  skipped-Listed row rest [] h l = tt
  skipped-Listed row rest (c ∷ claims) h ((small, listed), later) =
      ((small, λ live. ground (arith, h, listed live)), skipped-Listed row rest claims h later)

  keep-released :
      (number fence : ℕ) (now how : Text) (claims : List ClaimRow)
      → keep off_node (map (released now how (is_held run_id id number fence)) claims)
        ≡ keep off_node claims
  unfolding keep released
  keep-released number fence now how [] = refl
  keep-released number fence now how (c ∷ claims) =
      ground (arith, keep-released number fence now how claims)

module _ (host : Host) (run_id : RunId) (id : NodeId) where
  pub release_all-events :
      (rows : List ClaimRow) (db : Db) → (release_all host run_id id rows db).events ≡ db.events
  unfolding release_all release_claim
  release_all-events [] db = refl
  release_all-events (row ∷ rest) db = elim (Bool-cases (on_node run_id id row)) [
    | inl e ↦ rw (release_all, e) (release_all-events rest _)
    | inr e ↦ rw (release_all, e) (release_all-events rest db)
  ]

  pub release_all_others :
      (rows : List ClaimRow) (db : Db)
      → keep (off_node run_id id) (release_all host run_id id rows db).claims
        ≡ keep (off_node run_id id) db.claims
  unfolding release_all release_claim
  release_all_others [] db = refl
  release_all_others (row ∷ rest) db = elim (Bool-cases (on_node run_id id row)) [
    | inl e ↦
        rw (release_all, e)
          (release_all_others rest _
            ∙ keep-released run_id id row.number row.fence (host.stamp db) (text "cancelled")
                db.claims)
    | inr e ↦ rw (release_all, e) (release_all_others rest db)
  ]

  Listed-nil :
      (claims : List ClaimRow) → Listed run_id id [] claims → any (is_live run_id id) claims ≡ false
  unfolding any
  Listed-nil [] h = refl
  Listed-nil (c ∷ claims) ((small, none_left), later) = elim (Bool-cases (is_live run_id id c)) [
    | inl e ↦ cc (none_left e)
    | inr e ↦ rw e (Listed-nil claims later)
  ]

  pub release_all_none :
      (rows : List ClaimRow) (db : Db)
      → Listed run_id id rows db.claims
      → any (is_live run_id id) (release_all host run_id id rows db).claims ≡ false
  unfolding release_all release_claim
  release_all_none [] db h = Listed-nil db.claims h
  release_all_none (row ∷ rest) db h = elim (Bool-cases (on_node run_id id row)) [
    | inl e ↦
        rw (release_all, e)
          (release_all_none rest _
            (released-Listed run_id id row rest (host.stamp db) (text "cancelled") db.claims e h))
    | inr e ↦
        rw (release_all, e)
          (release_all_none rest db (skipped-Listed run_id id row rest db.claims e h))
  ]

  pub read_active_claims-Listed :
      (db : Db)
      → All (λ (c : ClaimRow). c.fence ≤ max_fence_kept) db.claims
      → Listed run_id id (read_active_claims db) db.claims
  unfolding read_active_claims
  read_active_claims-Listed db small = All-tabulate _ db.claims (λ c m. (
    All-Memᴰ (λ (x : ClaimRow). x.fence ≤ max_fence_kept) db.claims c small m,
    λ live.
        let active : c.active ≡ true = ground (arith, live) in
        let itself : same_claim run_id id c c ≡ true =
          ground (arith, live, ==_self c.number, ==_self c.fence) in
        any-sorted claim_before (same_claim run_id id c)
          (keep (λ (x : ClaimRow). x.active) db.claims)
        ∙ any-Memᴰ (same_claim run_id id c) (keep (λ (x : ClaimRow). x.active) db.claims) c
            (Memᴰ-keep (λ (x : ClaimRow). x.active) db.claims c m active) itself,
  ))
