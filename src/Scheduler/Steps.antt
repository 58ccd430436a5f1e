-- ===== src/Scheduler/Steps.antt =====
-- src/scheduler/mod.rs: the operations of schedulers on one ledger, in any order.
use checkspan.Common.{ℕ, ◌≤◌, inl, inr, sym, subst, ap, arith, length}
use checkspan.Contracts.Ids.{NodeId}
use checkspan.Contracts.Time.{Timestamp}
use checkspan.Contracts.Attempt.{Attempt}
use checkspan.Store.Tables.{Db, read_active_claims}
use checkspan.Store.Writes.{Host}
use checkspan.Scheduler.Claim.{Claim, Scheduler, claim_next}
use checkspan.Scheduler.Finish.{complete, cancel_node, reclaim}
use checkspan.Scheduler.Dispatch.{active_count, active_count-append, read_active_count}
use checkspan.Scheduler.Exclusive.{
  Exclusive, Exclusive-append, Exclusive-Weaker, active_count-Weaker,
}
use checkspan.Scheduler.Effects.{Weakens, complete-Weakens, cancel_node-Weakens, reclaim-Weakens}
use checkspan.Scheduler.Held.{MayTakeBelow, claim_next-MayTake}

-- One call; a scheduler that claims has a `max_active` of at most `limit`.
pub data SchedulerStep (limit : ℕ) : Db → Db → Type 0 where
  claims :
      {db : Db} (host : Host) (s : Scheduler) (now : Timestamp)
      → s.max_active ≤ limit
      → SchedulerStep limit db (claim_next host s db now).1
  completes :
      {db : Db} (host : Host) (s : Scheduler) (claim : Claim) (attempt : Attempt)
      → SchedulerStep limit db (complete host s db claim attempt).1
  cancels :
      {db : Db} (host : Host) (s : Scheduler) (id : NodeId)
      → SchedulerStep limit db (cancel_node host s db id).1
  reclaims :
      {db : Db} (host : Host) (s : Scheduler) (id : NodeId) (now : Timestamp)
      → SchedulerStep limit db (reclaim host s db id now).1

pub data SchedulerSteps (limit : ℕ) (db : Db) : Db → Type 0 where
  stop : SchedulerSteps limit db db
  and_then :
      {mid next : Db}
      → SchedulerSteps limit db mid
      → SchedulerStep limit mid next
      → SchedulerSteps limit db next

-- The active claims are exclusive, and no more than `limit`.
abbrev pub IsGuarded : ℕ → Db → Type 0
IsGuarded limit db = Exclusive db.claims × (length (read_active_claims db) ≤ limit)

Weakens-IsGuarded :
    (limit : ℕ) (db next : Db) → Weakens db next → IsGuarded limit db → IsGuarded limit next
Weakens-IsGuarded limit db next w (apart, few) = (
  Exclusive-Weaker db.claims next.claims w apart,
  omega (
    arith,
    read_active_count db,
    read_active_count next,
    active_count-Weaker db.claims next.claims w,
  ),
)

Takes-IsGuarded :
    (limit : ℕ) (s : Scheduler) (db next : Db)
    → s.max_active ≤ limit
    → MayTakeBelow s db next
    → IsGuarded limit db
    → IsGuarded limit next
Takes-IsGuarded limit s db next room (inl same) (apart, few) = (
  subst Exclusive (sym same) apart,
  omega (arith, read_active_count db, read_active_count next, ap active_count same),
)
Takes-IsGuarded limit s db next room (inr (t, below)) (apart, few) = (
  subst Exclusive (sym t.added) (Exclusive-append db.claims t.row apart t.free),
  omega (
    arith,
    read_active_count next,
    ap active_count t.added,
    active_count-append db.claims t.row t.active,
  ),
)

SchedulerStep-IsGuarded :
    (limit : ℕ) {db next : Db}
    → SchedulerStep limit db next
    → IsGuarded limit db
    → IsGuarded limit next
SchedulerStep-IsGuarded limit {db = db} (claims host s now room) =
    Takes-IsGuarded limit s db _ room (claim_next-MayTake host s db now)
SchedulerStep-IsGuarded limit {db = db} (completes host s claim attempt) =
    Weakens-IsGuarded limit db _ (complete-Weakens host s db claim attempt)
SchedulerStep-IsGuarded limit {db = db} (cancels host s id) =
    Weakens-IsGuarded limit db _ (cancel_node-Weakens host s db id)
SchedulerStep-IsGuarded limit {db = db} (reclaims host s id now) =
    Weakens-IsGuarded limit db _ (reclaim-Weakens host s db id now)

-- Whatever calls of `claim_next`, `complete`, `cancel` and `reclaim`, by any schedulers whose
-- `max_active` is at most a limit, follow one another on a ledger: when on a resource of two
-- active claims neither had exclusive access, and no more claims than the limit were active, the
-- same holds after them.
pub SchedulerSteps-IsGuarded :
    (limit : ℕ) (db next : Db)
    → SchedulerSteps limit db next
    → IsGuarded limit db
    → IsGuarded limit next
SchedulerSteps-IsGuarded limit db next stop g = g
SchedulerSteps-IsGuarded limit db next (and_then {mid = mid} before last) g =
    SchedulerStep-IsGuarded limit last (SchedulerSteps-IsGuarded limit db mid before g)
