-- ===== src/Deps/Soundness.antt =====
-- src/deps/mod.rs: what it takes for a receipt to be used, and what a snapshot guarantees.
use checkspan.Common.{
  Bool, true, false, not, Option, none, some, ◌≡◌, refl, sym, subst, arith, ◌==◌, ==→≡, ≡→==,
  nat_eq, list_eq, option_eq, contains, ok, >>=_ok, or_fail,
}
use checkspan.Contracts.Ids.{Digest}
use checkspan.Contracts.Time.{Timestamp}
use checkspan.Contracts.Refs.{NodeRef, node_ref_eq, ReceiptRef, TypeRef, type_ref_eq}
use checkspan.Contracts.Attempt.{Attempt, VerifierReceipt, Verdict, verdict_eq, ResultRef}
use checkspan.Store.Tables.{read_receipt, read_attempt, read_revoked}
use checkspan.Deps.Service.{
  DependencyService, Blocker, in_time, check_time, check_digest, admissible, require,
}

-- The digest that a receipt must be about, where one is expected.
abbrev pub Expects : Option Digest → Digest → Type 0
Expects none found = Unit
Expects (some expected) found = expected ≡ found

-- A stored receipt that accepts the result of a stored attempt at the expected node, of the expected
-- type, neither expired nor revoked.
pub record Usable (s : DependencyService) (r : ReceiptRef) (node : NodeRef) (type : TypeRef)
    (digest : Digest) : Type 0 where
  pub receipt : VerifierReceipt
  pub attempt : Attempt
  pub result : ResultRef
  pub receipt_stored : read_receipt s.store r.run_id r.id ≡ some receipt
  pub attempt_stored :
      read_attempt s.store receipt.attempt.run_id receipt.attempt.node.node_id
        receipt.attempt.number
      ≡ some attempt
  pub accepts : receipt.verdict ≡ Verdict.accept
  pub about : receipt.attempt.node ≡ node
  pub has_result : attempt.result ≡ some result
  pub typed : result.result_type ≡ type
  pub same_digest : result.digest ≡ receipt.result_digest
  pub in_force : in_time s.now receipt.validity.valid_until ≡ true
  pub not_revoked : contains (read_revoked s.store r.run_id) r.id ≡ false
  pub digest_is : receipt.result_digest ≡ digest

check_time_ok :
    (now : Timestamp) (r : ReceiptRef) (until : Option Timestamp) {u : Unit {0}}
    → check_time now r until ≡ ok u
    → in_time now until ≡ true
unfolding check_time in_time
check_time_ok now r none h = refl
check_time_ok now r (some t) h = ground arith

in_time_ok :
    (now : Timestamp) (r : ReceiptRef) (until : Option Timestamp)
    → in_time now until ≡ true
    → check_time now r until ≡ ok tt
unfolding check_time in_time
in_time_ok now r none h = refl
in_time_ok now r (some t) h = ground arith

pub or_fail_ok {ℓ} :
    {A : Type ℓ} (o : Option A) (e : Blocker) (a : A) → or_fail o e ≡ ok a → o ≡ some a
or_fail_ok none e a h = cc
or_fail_ok (some x) e a h = ground arith

require_ok : (b : Bool) (e : Blocker) (u : Unit {0}) → require b e ≡ ok u → b ≡ true
require_ok true e u h = refl
require_ok false e u h = cc

Expects-ok :
    (expected : Option Digest) (found : Digest) (u : Unit {0})
    → check_digest expected found ≡ ok u
    → Expects expected found
unfolding check_digest
Expects-ok none found u h = tt
Expects-ok (some expected) found u h = ==→≡ expected found (require_ok _ _ u h)

ok-Expects :
    (expected : Option Digest) (found : Digest)
    → Expects expected found
    → check_digest expected found ≡ ok tt
unfolding check_digest
ok-Expects none found h = refl
ok-Expects (some expected) found h = rw (≡→== expected found h) refl

-- When `admissible` returns a digest, the receipt is usable with that digest for the expected
-- node and type, and the digest is the expected one where one is expected.
pub admissible_sound :
    (s : DependencyService) (r : ReceiptRef) (node : NodeRef) (type : TypeRef)
    (expected : Option Digest) (digest : Digest)
    → admissible s r node type expected ≡ ok digest
    → Usable s r node type digest × Expects expected digest
unfolding admissible
admissible_sound s r node type expected digest h =
    let (receipt, stored, h₁) = >>=_ok (or_fail (read_receipt s.store r.run_id r.id) _) _ h in
    let (u₁, accepts, h₂) = >>=_ok (require (receipt.verdict == Verdict.accept) _) _ h₁ in
    let (u₂, about, h₃) = >>=_ok (require (receipt.attempt.node == node) _) _ h₂ in
    let (attempt, sealed, h₄) =
      >>=_ok
        (or_fail
          (read_attempt s.store receipt.attempt.run_id receipt.attempt.node.node_id
            receipt.attempt.number)
          _)
        _ h₃ in
    let (result, has, h₅) = >>=_ok (or_fail attempt.result _) _ h₄ in
    let (u₃, typed, h₆) = >>=_ok (require (result.result_type == type) _) _ h₅ in
    let (u₄, same, h₇) = >>=_ok (require (result.digest == receipt.result_digest) _) _ h₆ in
    let (u₅, expects, h₈) = >>=_ok (check_digest expected receipt.result_digest) _ h₇ in
    let (u₆, timely, h₉) = >>=_ok (check_time s.now r receipt.validity.valid_until) _ h₈ in
    let (u₇, kept, h₁₀) =
      >>=_ok (require (not (contains (read_revoked s.store r.run_id) r.id)) _) _ h₉ in
    let gives : receipt.result_digest ≡ digest = ground arith in
    let standing = require_ok (not (contains (read_revoked s.store r.run_id) r.id)) _ u₇ kept in
    (
      record {
        receipt = receipt;
        attempt = attempt;
        result = result;
        receipt_stored = or_fail_ok _ _ receipt stored;
        attempt_stored = or_fail_ok _ _ attempt sealed;
        accepts = ==→≡ receipt.verdict Verdict.accept (require_ok _ _ u₁ accepts);
        about = ==→≡ receipt.attempt.node node (require_ok _ _ u₂ about);
        has_result = or_fail_ok _ _ result has;
        typed = ==→≡ result.result_type type (require_ok _ _ u₃ typed);
        same_digest = ==→≡ result.digest receipt.result_digest (require_ok _ _ u₄ same);
        in_force = check_time_ok s.now r receipt.validity.valid_until timely;
        not_revoked = ground arith;
        digest_is = gives;
      },
      subst (Expects expected) gives (Expects-ok expected receipt.result_digest u₅ expects),
    )

-- A receipt that is usable for the expected node and type with a digest, which is the expected
-- one where one is expected, is admissible, and `admissible` returns that digest.
pub admissible_complete :
    (s : DependencyService) (r : ReceiptRef) (node : NodeRef) (type : TypeRef)
    (expected : Option Digest) (digest : Digest)
    → Usable s r node type digest
    → Expects expected digest
    → admissible s r node type expected ≡ ok digest
unfolding admissible
admissible_complete s r node type expected digest u expects =
    let wanted =
      ok-Expects expected u.receipt.result_digest
        (subst (Expects expected) (sym u.digest_is) expects) in
    rw
      (
        u.receipt_stored,
        ≡→== u.receipt.verdict Verdict.accept u.accepts,
        ≡→== u.receipt.attempt.node node u.about,
        u.attempt_stored,
        u.has_result,
        ≡→== u.result.result_type type u.typed,
        ≡→== u.result.digest u.receipt.result_digest u.same_digest,
        wanted,
        in_time_ok s.now r u.receipt.validity.valid_until u.in_force,
        u.not_revoked,
        u.digest_is,
      )
      refl
