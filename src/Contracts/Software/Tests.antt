-- ===== src/Contracts/Software/Tests.antt =====
-- An accepting and a rejecting record, and the theorem about software records at the first.
use checkspan.Common.{
  some, none, [], ◌∷◌, ◌≡◌, ◌↔◌, refl, text, is_blank, contains, list_beq, repeated,
}
use checkspan.Common.Int.{pos}
use checkspan.Contracts.Refs.{AttemptRef}
use checkspan.Contracts.Software.{
  SoftwareCheckResult, passed, accept, reject, reject_without_failure, exit_errors, check_errors,
  missing_errors, failure_errors, conclusion_errors, check_software,
}
use checkspan.Contracts.Patch.{CandidateKind}
use checkspan.Contracts.Software.Accepted.{IsSound, check_software_exact}

abbrev attempt : AttemptRef
attempt = record {
  run_id = text "run";
  node = record { graph_id = text "g"; node_id = text "a"; revision = 1 };
  number = 1;
}

abbrev accepting : SoftwareCheckResult
accepting = record {
  attempt = attempt;
  subject = text "subject";
  candidate = record {
    kind = CandidateKind.commit;
    commit = text "c";
    patch_digest = text "sha256:00";
  };
  base_commit = text "b";
  repository = record { root_commits = text "r" ∷ [] };
  profile = record { id = text "profile"; version = 1; digest = text "sha256:01" };
  environment = record { os = text "linux"; arch = text "x86_64" };
  required_checks = text "tests" ∷ [];
  checks =
      record {
        id = text "tests";
        outcome = passed;
        exit_code = some (pos 0);
        duration_ms = 12;
        stdout_digest = text "sha256:02";
        stderr_digest = text "sha256:03";
        detail = none;
      }
      ∷ [];
  conclusion = accept;
}

software_runs : Unit {0}
unfolding check_software check_errors exit_errors missing_errors failure_errors conclusion_errors
    is_blank contains list_beq repeated
software_runs = tt

accepting_passes : check_software accepting ≡ []
unfolding software_runs
accepting_passes = refl

rejecting_fails :
    check_software (record accepting { conclusion = reject }) ≡ reject_without_failure ∷ []
unfolding software_runs
rejecting_fails = refl

check_software_exact_example : (check_software accepting ≡ []) ↔ IsSound accepting
check_software_exact_example = check_software_exact accepting
