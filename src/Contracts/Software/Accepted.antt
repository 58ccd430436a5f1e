-- ===== src/Contracts/Software/Accepted.antt =====
-- src/contracts/software.rs, SoftwareCheckResult::check_bindings: what a record without an error is.
use checkspan.Common.{
  true, false, not, List, [], ◌∷◌, map, ◌≡◌, ◌≢◌, ◌⊎◌, ◌↔◌, refl, inl, inr, arith, ◌==◌, ==→≡, ≡→==,
  nat_eq, list_eq, when, is_blank, is_empty, all, contains, repeated, All, append_nil, when_nil,
  unless_nil, is_empty-false, is_empty_filled, Bool-cases,
}
use checkspan.Contracts.Ids.{Ident}
use checkspan.Contracts.Software.{
  passed, check_outcome_eq, Conclusion, accept, reject, CheckExecution, SoftwareCheckResult,
  check_errors, missing_errors, failure_errors, conclusion_errors, ids_of, check_software,
  duplicate_required,
}
use checkspan.Contracts.Software.Finished.{
  Fresh, IsFinished, repeated_from-Fresh, Fresh-repeated_from, check_errors-IsFinished,
  IsFinished-check_errors,
}

abbrev pub Failing : List CheckExecution → Type 0
Failing [] = ⊥
Failing (c ∷ rest) = (c.outcome ≢ passed) ⊎ Failing rest

-- A record accepts where every required check ran and every check passed, and rejects where one did
-- not.
abbrev pub Concludes : Conclusion → List Ident → List CheckExecution → Type 0
Concludes accept required checks =
    All (λ id. contains (ids_of checks) id ≡ true) required
    × All (λ (c : CheckExecution). c.outcome ≡ passed) checks
Concludes reject required checks = Failing checks

pub record IsSound (r : SoftwareCheckResult) : Type 0 where
  pub subject : is_blank r.subject ≡ false
  pub some_required : r.required_checks ≢ []
  pub required_once : Fresh [] r.required_checks
  pub some_check : r.checks ≢ []
  pub ran_once : Fresh [] (ids_of r.checks)
  pub finished : All IsFinished r.checks
  pub concludes : Concludes r.conclusion r.required_checks r.checks

missing_errors_all :
    (ran required : List Ident)
    → missing_errors ran required ≡ []
    → All (λ id. contains ran id ≡ true) required
unfolding missing_errors
missing_errors_all ran [] h = tt
missing_errors_all ran (id ∷ rest) h =
    let (first, later) = append_nil (when (not (contains ran id)) _) _ h in
    (unless_nil (contains ran id) _ first, missing_errors_all ran rest later)

failure_errors_all :
    (checks : List CheckExecution)
    → failure_errors checks ≡ []
    → All (λ (c : CheckExecution). c.outcome ≡ passed) checks
unfolding failure_errors
failure_errors_all [] h = tt
failure_errors_all (c ∷ rest) h =
    let (first, later) = append_nil (when (not (c.outcome == passed)) _) _ h in
    (
      ==→≡ c.outcome passed (unless_nil (c.outcome == passed) _ first),
      failure_errors_all rest later,
    )

all-Failing :
    (checks : List CheckExecution)
    → all (λ (c : CheckExecution). c.outcome == passed) checks ≡ false
    → Failing checks
unfolding all
all-Failing [] h = cc
all-Failing (c ∷ rest) h = elim (Bool-cases (c.outcome == passed)) [
  | inl e ↦ inr (all-Failing rest (ground (arith, h, e)))
  | inr e ↦ inl (λ same. ground (arith, e, ≡→== c.outcome passed same))
]

conclusion_errors-Concludes :
    (conclusion : Conclusion) (required : List Ident) (checks : List CheckExecution)
    → conclusion_errors conclusion required checks ≡ []
    → Concludes conclusion required checks
unfolding conclusion_errors
conclusion_errors-Concludes accept required checks h =
    let (ran, passes) = append_nil (missing_errors (ids_of checks) required) _ h in
    (missing_errors_all (ids_of checks) required ran, failure_errors_all checks passes)
conclusion_errors-Concludes reject required checks h = all-Failing checks (when_nil _ _ h)

missing_errors_none :
    (ran required : List Ident)
    → All (λ id. contains ran id ≡ true) required
    → missing_errors ran required ≡ []
unfolding missing_errors
missing_errors_none ran [] h = refl
missing_errors_none ran (id ∷ rest) (first, later) =
    rw (missing_errors, first, missing_errors_none ran rest later) refl

failure_errors_none :
    (checks : List CheckExecution)
    → All (λ (c : CheckExecution). c.outcome ≡ passed) checks
    → failure_errors checks ≡ []
unfolding failure_errors
failure_errors_none [] h = refl
failure_errors_none (c ∷ rest) (first, later) =
    let same : (c.outcome == passed) ≡ true = ≡→== c.outcome passed first in
    rw (failure_errors, same, failure_errors_none rest later) refl

Failing-all :
    (checks : List CheckExecution)
    → Failing checks
    → all (λ (c : CheckExecution). c.outcome == passed) checks ≡ false
unfolding all
Failing-all [] h = absurd h
Failing-all (c ∷ rest) (inl other) = elim (Bool-cases (c.outcome == passed)) [
  | inl e ↦ absurd (other (==→≡ c.outcome passed e))
  | inr e ↦ ground (arith, e)
]
Failing-all (c ∷ rest) (inr later) = ground (arith, Failing-all rest later)

Concludes-conclusion_errors :
    (conclusion : Conclusion) (required : List Ident) (checks : List CheckExecution)
    → Concludes conclusion required checks
    → conclusion_errors conclusion required checks ≡ []
unfolding conclusion_errors
Concludes-conclusion_errors accept required checks (ran, passes) =
    rw
      (
        conclusion_errors,
        missing_errors_none (ids_of checks) required ran,
        failure_errors_none checks passes,
      )
      refl
Concludes-conclusion_errors reject required checks h =
    rw (conclusion_errors, Failing-all checks h) refl

check_software-IsSound : (r : SoftwareCheckResult) → check_software r ≡ [] → IsSound r
unfolding check_software repeated
check_software-IsSound r h =
    let (first, h₁) = append_nil (when (is_blank r.subject) _) _ h in
    let (second, h₂) = append_nil (when (is_empty r.required_checks) _) _ h₁ in
    let (third, h₃) = append_nil (map duplicate_required (repeated r.required_checks)) _ h₂ in
    let (fourth, h₄) = append_nil (when (is_empty r.checks) _) _ h₃ in
    let (fifth, sixth) = append_nil (check_errors [] r.checks) _ h₄ in
    let (once, finished) = check_errors-IsFinished [] r.checks fifth in
    record {
      subject = when_nil (is_blank r.subject) _ first;
      some_required =
          is_empty_filled r.required_checks (when_nil (is_empty r.required_checks) _ second);
      required_once = repeated_from-Fresh [] r.required_checks third;
      some_check = is_empty_filled r.checks (when_nil (is_empty r.checks) _ fourth);
      ran_once = once;
      finished = finished;
      concludes = conclusion_errors-Concludes r.conclusion r.required_checks r.checks sixth;
    }

IsSound-check_software : (r : SoftwareCheckResult) → IsSound r → check_software r ≡ []
unfolding check_software repeated
IsSound-check_software r s =
    let required = is_empty-false r.required_checks s.some_required in
    let checks = is_empty-false r.checks s.some_check in
    rw
      (
        check_software,
        s.subject,
        required,
        repeated,
        Fresh-repeated_from [] r.required_checks s.required_once,
        checks,
        IsFinished-check_errors [] r.checks s.ran_once s.finished,
        Concludes-conclusion_errors r.conclusion r.required_checks r.checks s.concludes,
      )
      refl

-- The rules of a software record report nothing exactly when: its subject is not blank; some
-- checks are required and some ran, none of them twice; a check that timed out has no exit code
-- and any other has one, and its duration is below 2^53; and it either accepts, with every
-- required check among those that ran and every check passed, or rejects, with a check that did
-- not pass.
pub check_software_exact : (r : SoftwareCheckResult) → (check_software r ≡ []) ↔ IsSound r
check_software_exact r = (check_software-IsSound r, IsSound-check_software r)
