-- ===== src/Scheduler/Completed.antt =====
-- src/scheduler/mod.rs: a claim is completed by its holder, and once.
use checkspan.Common.{
  ℕ, ◌≤◌, Bool, true, false, ◌&&◌, some, List, [], ◌∷◌, map, ◌≡◌, refl, sym, subst, ap, ◌∙◌, inl,
  inr, arith, Text, text, ◌==◌, ==→≡, ==_self, nat_eq, list_eq, find, ok, err, >>=_ok, or_fail,
  or_fail_ok, map_err, ok-injective, Result-cases, Bool-cases,
}
use checkspan.Common.Tables.{find-member}
use checkspan.Contracts.Ids.{NodeId, RunId}
use checkspan.Contracts.Refs.{receipt_ref_eq}
use checkspan.Contracts.Attempt.{Attempt, Execution}
use checkspan.State.Event.{execution_finished}
use checkspan.State.Node.{apply}
use checkspan.Store.Rows.{ClaimRow}
use checkspan.Store.Tables.{Db, read_claim, is_claim}
use checkspan.Store.Writes.{
  Host, seal_attempt, release_claim, released, is_held, clamp_i64, digest_of,
}
use checkspan.Store.Logged.{seal_attempt-IsSealed}
use checkspan.Store.Ops.{transaction, transaction_ok, done, write}
use checkspan.Scheduler.Claim.{Claim, SchedulerError, Scheduler}
use checkspan.Scheduler.Dispatch.{stored_ok}
use checkspan.Scheduler.Finish.{
  held_claim, fail_unless, stale_error, replayed, expect_node, complete_body, check_completion,
  complete,
}

fail_unless_ok : (b : Bool) (e : SchedulerError) (u : Unit {0}) → fail_unless b e ≡ ok u → b ≡ true
fail_unless_ok true e u h = refl
fail_unless_ok false e u h = cc

pub find-released :
    (run_id : RunId) (node_id : NodeId) (number : ℕ) (now how : Text) (held : ClaimRow → Bool)
    (rows : List ClaimRow) (row : ClaimRow)
    → find (is_claim run_id node_id number) rows ≡ some row
    → find (is_claim run_id node_id number) (map (released now how held) rows)
      ≡ some (released now how held row)
unfolding find released
find-released run_id node_id number now how held [] row h = cc
find-released run_id node_id number now how held (x ∷ rows) row h =
    elim (Bool-cases (is_claim run_id node_id number x)) [
      | inl e ↦
          let same : x ≡ row = ground (arith, e) in
          let kept : is_claim run_id node_id number (released now how held x) ≡ true =
            ground (arith, e) in
          rw (map, kept) (ap (λ y. some (released now how held y)) same)
      | inr e ↦
          let later : find (is_claim run_id node_id number) rows ≡ some row = ground (arith, e) in
          let kept : is_claim run_id node_id number (released now how held x) ≡ false =
            ground (arith, e) in
          rw (map, kept) (find-released run_id node_id number now how held rows row later)
    ]

held_claim_ok :
    (db : Db) (claim : Claim) (row : ClaimRow)
    → held_claim db claim ≡ ok row
    → (read_claim db claim.run_id claim.node_id claim.number ≡ some row)
      × (row.active ≡ true)
      × (row.fence ≡ claim.fence)
      × (row.owner ≡ claim.owner)
unfolding held_claim
held_claim_ok db claim row h =
    let (found, is, h₁) =
      >>=_ok (or_fail (read_claim db claim.run_id claim.node_id claim.number) _) _ h in
    let test = found.active && (found.fence == claim.fence) && (found.owner == claim.owner) in
    let (u, passed, h₂) = >>=_ok (fail_unless test (stale_error claim found)) _ h₁ in
    let holds = fail_unless_ok test (stale_error claim found) u passed in
    let same = ok-injective h₂ in
    let parts : (found.active ≡ true)
        × ((found.fence == claim.fence) ≡ true)
        × ((found.owner == claim.owner) ≡ true) =
      ground arith in
    (
      or_fail_ok _ _ found is ∙ ap some same,
      subst (λ (r : ClaimRow). r.active ≡ true) same parts.0,
      subst (λ (r : ClaimRow). r.fence ≡ claim.fence) same (==→≡ found.fence claim.fence parts.1),
      subst (λ (r : ClaimRow). r.owner ≡ claim.owner) same (==→≡ found.owner claim.owner parts.2),
    )

-- A claim whose row has been released is refused, with nothing written.
pub released_refused :
    (host : Host) (s : Scheduler) (db : Db) (claim : Claim) (attempt : Attempt) (row : ClaimRow)
    → read_claim db claim.run_id claim.node_id claim.number ≡ some row
    → row.active ≡ false
    → (e : SchedulerError) × (complete host s db claim attempt ≡ (err e, db))
unfolding complete write transaction complete_body held_claim
released_refused host s db claim attempt row found gone =
    elim (Result-cases (check_completion s claim attempt)) [
      | inr (e, f) ↦ (e, rw (complete, f) refl)
      | inl (execution, f) ↦ (
        stale_error claim row,
        rw (complete, f, write, transaction, complete_body, held_claim, found, gone) refl,
      )
    ]

-- What a completion has checked of the row of its claim.
abbrev pub Held : Db → Claim → Attempt → ClaimRow → Type 0
Held db claim attempt row =
    (read_claim db claim.run_id claim.node_id claim.number ≡ some row)
    × (row.active ≡ true)
    × (row.fence ≡ claim.fence)
    × (row.owner ≡ claim.owner)
    × (row.dependency_receipts ≡ attempt.dependency_receipts)

pub marked_gone :
    (now how : Text) (held : ClaimRow → Bool) (row : ClaimRow)
    → held row ≡ true
    → (released now how held row).active ≡ false
unfolding released
marked_gone now how held row h = ground (arith, h)

body-Held :
    (host : Host) (s : Scheduler) (claim : Claim) (attempt : Attempt) (execution : Execution)
    (db next : Db)
    → claim.fence ≤ 9223372036854775807
    → complete_body host s claim attempt execution db ≡ ok next
    → (row : ClaimRow) × Held db claim attempt row
      × (left : ClaimRow) × (read_claim next claim.run_id claim.node_id claim.number ≡ some left)
      × (left.active ≡ false)
unfolding complete_body release_claim read_claim
body-Held host s claim attempt execution db next small h =
    let (row, held, h₁) = >>=_ok (held_claim db claim) _ h in
    let (u₁, pinned, h₂) =
      >>=_ok
        (fail_unless (row.dependency_receipts == attempt.dependency_receipts)
          SchedulerError.snapshot_mismatch)
        _ h₁ in
    let (state, e₁, h₃) = >>=_ok (replayed db claim.run_id s.spec) _ h₂ in
    let (node, e₂, h₄) = >>=_ok (expect_node state claim.node_id) _ h₃ in
    let (applied, e₃, h₅) =
      >>=_ok
        (map_err SchedulerError.transition (
          apply node
            (execution_finished claim.number execution.outcome (digest_of attempt.result))))
        _ h₄ in
    let (sealed, put, h₆) =
      >>=_ok (map_err SchedulerError.store (seal_attempt host db attempt)) _ h₅ in
    let release =
      release_claim host sealed claim.run_id claim.node_id claim.number claim.fence
        (text "completed") in
    let (u₂, did, h₇) = >>=_ok (fail_unless release.0 (stale_error claim row)) _ h₆ in
    let (found, live, fence, owner) = held_claim_ok db claim row held in
    let (m, own) =
      find-member (is_claim claim.run_id claim.node_id claim.number) db.claims row found in
    let test = is_held claim.run_id claim.node_id claim.number claim.fence in
    let mark = released (host.stamp sealed) (text "completed") test in
    let exact : clamp_i64 claim.fence ≡ claim.fence = ground arith in
    let holds : test row ≡ true = rw (own, exact, fence, ==_self claim.fence, live) refl in
    let claims_are : next.claims ≡ map mark db.claims =
      ap (λ (d : Db). d.claims) (sym (ok-injective h₇))
      ∙ ap (map mark)
          (seal_attempt-IsSealed host attempt db sealed (stored_ok _ sealed put)).claims in
    (
      row,
      (
        found,
        live,
        fence,
        owner,
        ==→≡ row.dependency_receipts attempt.dependency_receipts
            (fail_unless_ok _ SchedulerError.snapshot_mismatch u₁ pinned),
      ),
      mark row,
      ap (find (is_claim claim.run_id claim.node_id claim.number)) claims_are
          ∙ find-released claim.run_id claim.node_id claim.number (host.stamp sealed)
              (text "completed") test db.claims row found,
      marked_gone (host.stamp sealed) (text "completed") test row holds,
    )

-- When `complete` succeeds for a claim whose token fits an `i64`, the row of the claim was
-- active with the token and the owner of the claim and the dependency receipts of the attempt;
-- and a second completion of the same claim, with whatever attempt, fails and leaves the ledger
-- as it is.
pub complete_once :
    (host : Host) (s : Scheduler) (db : Db) (claim : Claim) (attempt : Attempt)
    → claim.fence ≤ 9223372036854775807
    → (complete host s db claim attempt).0 ≡ ok tt
    → (row : ClaimRow) × Held db claim attempt row
      × ((again : Attempt)
          → (e : SchedulerError) × (complete host s (complete host s db claim attempt).1 claim again
              ≡ (err e, (complete host s db claim attempt).1)))
unfolding complete write
complete_once host s db claim attempt small h =
    elim (Result-cases (check_completion s claim attempt)) [
      | inr (e, f) ↦ ground (arith, f)
      | inl (execution, f) ↦
          let body = complete_body host s claim attempt execution in
          let h₁ : (transaction db (λ start. done (body start))).0 ≡ ok tt =
            rw (complete, f, write) at h in
          let wrote = transaction_ok db (λ start. done (body start)) tt h₁ in
          let (next, ran, same) = >>=_ok (body db) _ wrote in
          let left_is : next ≡ (complete host s db claim attempt).1 =
            ap (λ p. p.1) (ok-injective same) ∙ rw (complete, f, write) refl in
          let (row, held, left, found, gone) =
            body-Held host s claim attempt execution db next small ran in
          (
            row,
            held,
            (λ again.
                subst (λ d. (e : SchedulerError) × (complete host s d claim again ≡ (err e, d)))
                  left_is (released_refused host s next claim again left found gone)),
          )
    ]
