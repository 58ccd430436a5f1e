-- ===== src/Store/Claims.antt =====
-- src/store/mod.rs: fencing tokens, which `next_fence`, `insert_claim` and `release_claim` issue,
-- record and check.
use checkspan.Common.{
  ℕ, ◌+◌, ◌<◌, ◌≤◌, true, false, List, [], ◌∷◌, ◌++◌, ◌≡◌, refl, subst, sym, arith, Memᴰ, any, ◌==◌,
  ==_self, nat_eq, list_eq, none, ok,
}
use checkspan.Contracts.Ids.{RunId}
use checkspan.Store.Rows.{ClaimRow}
use checkspan.Store.Tables.{Db, is_claim, is_fence, run_exists}
use checkspan.Store.Writes.{Host, max_fence, next_fence, insert_claim, clamp_i64}

max_fence_above :
    (run_id : RunId) (rows : List ClaimRow) (c : ClaimRow)
    → Memᴰ c rows
    → (c.run_id == run_id) ≡ true
    → c.fence ≤ max_fence run_id rows
unfolding max_fence
max_fence_above run_id [] c m same = elim m [ ]
max_fence_above run_id (r ∷ rows) c (Memᴰ.head e) same =
    let here : (r.run_id == run_id) ≡ true = subst (λ x. (x.run_id == run_id) ≡ true) e same in
    let top : r.fence ≤ max_fence run_id (r ∷ rows) = ground arith in
    subst (λ x. x.fence ≤ max_fence run_id (r ∷ rows)) (sym e) top
max_fence_above run_id (r ∷ rows) c (Memᴰ.tail m) same =
    let below = max_fence_above run_id rows c m same in ground arith

fence_free :
    (run_id : RunId) (fence : ℕ) (rows : List ClaimRow)
    → max_fence run_id rows < fence
    → any (is_fence run_id fence) rows ≡ false
unfolding max_fence any
fence_free run_id fence [] h = refl
fence_free run_id fence (r ∷ rows) h = ground (arith, fence_free run_id fence rows)

max_fence_add :
    (run_id : RunId) (rows : List ClaimRow) (r : ClaimRow)
    → (r.run_id == run_id) ≡ true
    → max_fence run_id rows ≤ r.fence
    → max_fence run_id (rows ++ r ∷ []) ≡ r.fence
unfolding max_fence
max_fence_add run_id [] r same top = ground arith
max_fence_add run_id (x ∷ rows) r same top = ground (arith, max_fence_add run_id rows r)

-- A claim of an unclaimed attempt in a stored run, with the token that `next_fence` gives and
-- that fits an `i64`, is inserted; its token is greater than that of every earlier claim of the
-- run, and the next token is one more.
pub next_fence_issues :
    (host : Host) (db : Db) (c : ClaimRow)
    → c.fence ≡ next_fence db c.run_id
    → next_fence db c.run_id ≤ 9223372036854775807
    → run_exists db c.run_id ≡ true
    → any (is_claim c.run_id c.node_id c.number) db.claims ≡ false
    → ((old : ClaimRow)
        → Memᴰ old db.claims
        → (old.run_id == c.run_id) ≡ true
        → old.fence < c.fence)
      × (next : Db) × (insert_claim host db c ≡ ok next)
      × (next_fence next c.run_id ≡ c.fence + 1)
unfolding next_fence insert_claim
next_fence_issues host db c issued small known free =
    let row : ClaimRow = record c {
      fence = clamp_i64 c.fence;
      active = true;
      release = none;
      claimed_at = host.stamp db;
      released_at = none;
    } in
    let exact : clamp_i64 c.fence ≡ c.fence = ground arith in
    let above : max_fence c.run_id db.claims < c.fence = ground arith in
    let fresh = fence_free c.run_id c.fence db.claims above in
    let top = max_fence_add c.run_id db.claims row (==_self c.run_id) (ground arith) in
    (
      (λ old m same. let below = max_fence_above c.run_id db.claims old m same in ground arith),
      record db { claims = db.claims ++ row ∷ [] },
      ground arith,
      ground arith,
    )
