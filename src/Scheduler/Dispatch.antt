-- ===== src/Scheduler/Dispatch.antt =====
-- src/scheduler/mod.rs: what a claim that `claim_next` grants rests on.
use checkspan.Common.{
  ℕ, suc, ◌+◌, ◌≤◌, Bool, true, false, Option, none, some, List, [], ◌∷◌, ◌++◌, ◌≡◌, refl, sym,
  subst, ap, ◌∙◌, arith, Text, nat_eq, list_eq, any, keep, length, Memᴰ, if◌then◌else◌, Result, ok,
  err, map_err, ok-injective,
}
use checkspan.Common.Json.{Value}
use checkspan.Common.Sorting.{length-sorted, any-sorted}
use checkspan.Contracts.Ids.{NodeId, RunId}
use checkspan.Contracts.Time.{Timestamp}
use checkspan.Contracts.Node.{NodeSpec, ResourceClaim}
use checkspan.Contracts.Graph.{find_node}
use checkspan.Contracts.View.{NodeStatus, node_status_eq}
use checkspan.State.Node.{NodeState}
use checkspan.State.Run.{RunState, node_state, replay_run}
use checkspan.Store.Rows.{ClaimRow}
use checkspan.Store.Tables.{Db, StoreError, read_events, read_active_claims, claim_before}
use checkspan.Store.Writes.{
  Host, log, append_event, len_checked, next_fence, insert_claim, clamp_i64,
}
use checkspan.Deps.Service.{DependencySnapshot, resolve, receipt_refs}
use checkspan.Budget.Pending.{pending_narrowing}
use checkspan.Budget.Status.{BudgetStatus, exhaustion, budget_status}
use checkspan.Scheduler.Claim.{Claim, SchedulerError, Scheduler, excludes, conflict_in, conflict}

unfoldable pub active_count : List ClaimRow → ℕ
active_count [] = 0
active_count (c ∷ rest) = if c.active then suc (active_count rest) else active_count rest

length-keep_active : (rows : List ClaimRow) → length (keep (λ c. c.active) rows) ≡ active_count rows
unfolding keep active_count
length-keep_active [] = refl
length-keep_active (c ∷ rest) = ground (arith, length-keep_active rest)

pub active_count-append :
    (rows : List ClaimRow) (c : ClaimRow)
    → c.active ≡ true
    → active_count (rows ++ c ∷ []) ≡ suc (active_count rows)
unfolding active_count
active_count-append [] c h = ground arith
active_count-append (r ∷ rows) c h = ground (arith, active_count-append rows c h)

-- The number of active claims, which is the length of what `active_claims` reads.
pub read_active_count : (db : Db) → length (read_active_claims db) ≡ active_count db.claims
unfolding read_active_claims
read_active_count db =
    length-sorted claim_before (keep (λ c. c.active) db.claims) ∙ length-keep_active db.claims

any-keep_active :
    (p : ClaimRow → Bool) (rows : List ClaimRow) (c : ClaimRow)
    → any p (keep (λ r. r.active) rows) ≡ false
    → Memᴰ c rows
    → c.active ≡ true
    → p c ≡ false
unfolding any keep
any-keep_active p [] c h m live = elim m [ ]
any-keep_active p (r ∷ rows) c h (Memᴰ.head e) live =
    let here : r.active ≡ true = subst (λ (x : ClaimRow). x.active ≡ true) e live in
    let refused : p r ≡ false = ground arith in subst (λ x. p x ≡ false) (sym e) refused
any-keep_active p (r ∷ rows) c h (Memᴰ.tail m) live =
    let later : any p (keep (λ x. x.active) rows) ≡ false = ground arith in
    any-keep_active p rows c later m live

any-member :
    {A : Type 0} (p : A → Bool) (rows : List A) (a : A)
    → any p rows ≡ false
    → Memᴰ a rows
    → p a ≡ false
unfolding any
any-member p [] a h m = elim m [ ]
any-member p (r ∷ rows) a h (Memᴰ.head e) =
    let here : p r ≡ false = ground arith in subst (λ x. p x ≡ false) (sym e) here
any-member p (r ∷ rows) a h (Memᴰ.tail m) =
    let later : any p rows ≡ false = ground arith in any-member p rows a later m

conflict_in-none :
    (scope : List ResourceClaim) (active : List ClaimRow) (w : ResourceClaim)
    → conflict_in scope active ≡ none
    → Memᴰ w scope
    → any (λ claim. any (excludes w) claim.resources) active ≡ false
unfolding conflict_in
conflict_in-none [] active w h m = elim m [ ]
conflict_in-none (x ∷ scope) active w h (Memᴰ.head e) =
    let here : any (λ claim. any (excludes x) claim.resources) active ≡ false = ground arith in
    subst (λ y. any (λ claim. any (excludes y) claim.resources) active ≡ false) (sym e) here
conflict_in-none (x ∷ scope) active w h (Memᴰ.tail m) =
    let later : conflict_in scope active ≡ none = ground arith in
    conflict_in-none scope active w later m

-- No claim that is active excludes what the node asks for.
pub no_conflict :
    (node : NodeSpec) (db : Db)
    → conflict node (read_active_claims db) ≡ none
    → (wanted : ResourceClaim) (c : ClaimRow) (held : ResourceClaim)
    → Memᴰ wanted node.resource_scope
    → Memᴰ c db.claims
    → c.active ≡ true
    → Memᴰ held c.resources
    → excludes wanted held ≡ false
unfolding conflict read_active_claims
no_conflict node db h wanted c held m n live k =
    let over_all = conflict_in-none node.resource_scope (read_active_claims db) wanted h m in
    let kept =
      sym (
        any-sorted claim_before (λ claim. any (excludes wanted) claim.resources)
          (keep (λ r. r.active) db.claims))
      ∙ over_all in
    any-member (excludes wanted) c.resources held
      (any-keep_active (λ claim. any (excludes wanted) claim.resources) db.claims c kept n live) k

-- What a granted claim rests on, and what it leaves.
pub record ClaimGranted (s : Scheduler) (db : Db) (now : Timestamp) (c : Claim) (next : Db)
    : Type 0 where
  pub state : RunState
  pub status : BudgetStatus
  pub node : NodeSpec
  pub node_is : NodeState
  pub snapshot : DependencySnapshot
  pub replayed : replay_run s.run.run_id s.spec (read_events db s.run.run_id) ≡ ok state
  pub counted : budget_status db s.spec s.run now ≡ some (ok status)
  pub budget_left : exhaustion status ≡ none
  pub declared : find_node c.node_id s.spec.nodes ≡ some node
  pub kept : node_state state c.node_id ≡ some node_is
  pub was_open : node_is.status ≡ NodeStatus.opened
  pub resolved :
      resolve
        (record { spec = s.spec; run = s.run; state = state; store = db; now = now })
        c.node_id
      ≡ ok snapshot
  pub pinned : c.dependency_receipts ≡ receipt_refs snapshot
  pub numbered : c.number ≡ node_is.attempts_started + 1
  pub fenced : c.fence ≡ next_fence db s.run.run_id
  pub narrowed : c.narrowing ≡ pending_narrowing (read_events db s.run.run_id) c.node_id
  pub exclusive_to :
      (wanted : ResourceClaim) (row : ClaimRow) (held : ResourceClaim)
      → Memᴰ wanted node.resource_scope
      → Memᴰ row db.claims
      → row.active ≡ true
      → Memᴰ held row.resources
      → excludes wanted held ≡ false
  pub under_cap : length (read_active_claims next) ≤ s.max_active
  pub one_more : length (read_active_claims next) ≡ suc (length (read_active_claims db))

pub insert_claim-active :
    (host : Host) (db : Db) (c : ClaimRow) (next : Db)
    → insert_claim host db c ≡ ok next
    → active_count next.claims ≡ suc (active_count db.claims)
unfolding insert_claim
insert_claim-active host db c next h =
    let row : ClaimRow = record c {
      fence = clamp_i64 c.fence;
      active = true;
      release = none;
      claimed_at = host.stamp db;
      released_at = none;
    } in
    let put : record db { claims = db.claims ++ row ∷ [] } ≡ next = ground arith in
    subst (λ (d : Db). active_count d.claims ≡ suc (active_count db.claims)) put
      (active_count-append db.claims row refl)

pub log-claims :
    (host : Host) (db : Db) (run_id : RunId) (node_id : Option NodeId) (kind : Text)
    (payload : Value) (next : Db)
    → log host db run_id node_id kind payload ≡ ok next
    → next.claims ≡ db.claims
unfolding log append_event len_checked
log-claims host db run_id node_id kind payload next h = ground arith

pub stored_ok :
    (r : Result Db StoreError) (d : Db) → map_err SchedulerError.store r ≡ ok d → r ≡ ok d
stored_ok (ok x) d h = ap ok (ok-injective h)
stored_ok (err e) d h = cc
