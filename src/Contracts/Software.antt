-- ===== src/Contracts/Software.antt =====
-- src/contracts/software.rs: the record of a software check. An exit code is its number; no rule reads
-- more of it than that it is there.
pub mod Finished
pub mod Accepted
pub mod Tests
use checkspan.Common.{
  ℕ, Bool, true, false, not, Option, none, some, List, [], ◌∷◌, ◌++◌, map, ◌≡◌, arith, Text, Eq,
  ◌==◌, list_eq, nat_eq, rank_eq, when, is_blank, is_empty, all, contains, repeated, ltb,
}
use checkspan.Common.Int.{ℤ}
use checkspan.Contracts.Ids.{Ident, Digest}
use checkspan.Contracts.Refs.{AttemptRef, VerifierRef}
use checkspan.Contracts.Patch.{CommitId, Repository, Candidate, max_exact_integer}

pub data SoftwareCheckOutcome : Type 0 where
  passed failed timed_out : SoftwareCheckOutcome

abbrev pub check_outcome_rank : SoftwareCheckOutcome → ℕ
check_outcome_rank passed = 0
check_outcome_rank failed = 1
check_outcome_rank timed_out = 2

pub check_outcome_rank_apart :
    (a b : SoftwareCheckOutcome) → check_outcome_rank a ≡ check_outcome_rank b → a ≡ b
check_outcome_rank_apart a b h = ground arith

instance abbrev pub check_outcome_eq : Eq SoftwareCheckOutcome
check_outcome_eq = rank_eq check_outcome_rank check_outcome_rank_apart

pub data Conclusion : Type 0 where
  accept reject : Conclusion

pub record CheckExecution : Type 0 where
  pub id : Ident
  pub outcome : SoftwareCheckOutcome
  pub exit_code : Option ℤ
  pub duration_ms : ℕ
  pub stdout_digest : Digest
  pub stderr_digest : Digest
  pub detail : Option Text

pub record EnvironmentInfo : Type 0 where
  pub os : Text
  pub arch : Text

pub record SoftwareCheckResult : Type 0 where
  pub attempt : AttemptRef
  pub subject : Text
  pub candidate : Candidate
  pub base_commit : CommitId
  pub repository : Repository
  pub profile : VerifierRef
  pub environment : EnvironmentInfo
  pub required_checks : List Ident
  pub checks : List CheckExecution
  pub conclusion : Conclusion

pub data SoftwareError : Type 0 where
  empty_subject no_checks no_required_checks reject_without_failure : SoftwareError
  duplicate_check duplicate_required accept_without_check : Text → SoftwareError
  accept_with_failure timed_out_with_exit completed_without_exit : Text → SoftwareError
  duration_not_exact : Text → SoftwareError

-- The match on the outcome and the exit code.
unfoldable pub exit_errors : Ident → SoftwareCheckOutcome → Option ℤ → List SoftwareError
exit_errors id timed_out (some code) = timed_out_with_exit id ∷ []
exit_errors id timed_out none = []
exit_errors id passed none = completed_without_exit id ∷ []
exit_errors id passed (some code) = []
exit_errors id failed none = completed_without_exit id ∷ []
exit_errors id failed (some code) = []

-- The loop over `checks`, with the set `ran`.
unfoldable pub check_errors : List Ident → List CheckExecution → List SoftwareError
unfolding contains exit_errors
check_errors ran [] = []
check_errors ran (c ∷ rest) =
    when (contains ran c.id) (duplicate_check c.id)
    ++ (exit_errors c.id c.outcome c.exit_code
        ++ (when (ltb max_exact_integer c.duration_ms) (duration_not_exact c.id)
            ++ check_errors (c.id ∷ ran) rest))

unfoldable pub missing_errors : List Ident → List Ident → List SoftwareError
unfolding contains
missing_errors ran [] = []
missing_errors ran (id ∷ rest) =
    when (not (contains ran id)) (accept_without_check id) ++ missing_errors ran rest

unfoldable pub failure_errors : List CheckExecution → List SoftwareError
failure_errors [] = []
failure_errors (c ∷ rest) =
    when (not (c.outcome == passed)) (accept_with_failure c.id) ++ failure_errors rest

abbrev pub ids_of : List CheckExecution → List Ident
ids_of checks = map (λ (c : CheckExecution). c.id) checks

-- The match on the conclusion, where every check has been put in `ran`.
unfoldable pub conclusion_errors :
    Conclusion → List Ident → List CheckExecution → List SoftwareError
unfolding missing_errors failure_errors all
conclusion_errors accept required checks =
    missing_errors (ids_of checks) required ++ failure_errors checks
conclusion_errors reject required checks =
    when (all (λ (c : CheckExecution). c.outcome == passed) checks) reject_without_failure

-- `SoftwareCheckResult::check_bindings`
unfoldable pub check_software : SoftwareCheckResult → List SoftwareError
unfolding repeated check_errors conclusion_errors
check_software r =
    when (is_blank r.subject) empty_subject
    ++ (when (is_empty r.required_checks) no_required_checks
        ++ (map duplicate_required (repeated r.required_checks)
            ++ (when (is_empty r.checks) no_checks
                ++ (check_errors [] r.checks
                    ++ conclusion_errors r.conclusion r.required_checks r.checks))))
