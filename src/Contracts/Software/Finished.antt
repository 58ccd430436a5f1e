-- ===== src/Contracts/Software/Finished.antt =====
-- src/contracts/software.rs, SoftwareCheckResult::check_bindings: its checks, one by one.
use checkspan.Common.{
  false, Option, none, some, List, [], ◌∷◌, map, ◌≡◌, ◌≢◌, ◌⊎◌, ◌<◌, ◌^◌, refl, inl, inr, arith,
  Text, nat_eq, list_eq, when, contains, repeated_from, ltb, All, append_nil, when_nil, Bool-cases,
}
use checkspan.Common.Int.{ℤ}
use checkspan.Contracts.Ids.{Ident}
use checkspan.Contracts.Software.{
  SoftwareCheckOutcome, passed, failed, timed_out, check_outcome_eq, CheckExecution, exit_errors,
  check_errors, ids_of, duplicate_required,
}

-- None of the texts stands earlier, or in `seen`.
unfoldable pub Fresh : List Text → List Text → Type 0
Fresh seen [] = Unit
Fresh seen (x ∷ xs) = (contains seen x ≡ false) × Fresh (x ∷ seen) xs

-- A check that timed out has no exit code, and any other has one; its duration fits a double exactly.
pub record IsFinished (c : CheckExecution) : Type 0 where
  pub exits :
      ((c.outcome ≡ timed_out) × (c.exit_code ≡ none))
      ⊎ ((c.outcome ≢ timed_out) × ((code : ℤ) × (c.exit_code ≡ some code)))
  pub duration : c.duration_ms < 2 ^ 53

pub repeated_from-Fresh :
    (seen xs : List Text) → map duplicate_required (repeated_from seen xs) ≡ [] → Fresh seen xs
unfolding repeated_from Fresh
repeated_from-Fresh seen [] h = tt
repeated_from-Fresh seen (x ∷ xs) h = elim (Bool-cases (contains seen x)) [
  | inl e ↦ cc (rw (repeated_from, e) at h)
  | inr e ↦ (e, repeated_from-Fresh (x ∷ seen) xs (rw (repeated_from, e) at h))
]

pub Fresh-repeated_from :
    (seen xs : List Text) → Fresh seen xs → map duplicate_required (repeated_from seen xs) ≡ []
unfolding repeated_from Fresh
Fresh-repeated_from seen [] h = refl
Fresh-repeated_from seen (x ∷ xs) (e, rest) =
    rw (repeated_from, e) (Fresh-repeated_from (x ∷ seen) xs rest)

exits_as :
    (id : Ident) (outcome : SoftwareCheckOutcome) (exit : Option ℤ)
    → exit_errors id outcome exit ≡ []
    → ((outcome ≡ timed_out) × (exit ≡ none))
      ⊎ ((outcome ≢ timed_out) × ((code : ℤ) × (exit ≡ some code)))
unfolding exit_errors
exits_as id timed_out (some code) h = cc
exits_as id timed_out none h = inl (refl, refl)
exits_as id passed none h = cc
exits_as id passed (some code) h = inr (λ e. cc, (code, refl))
exits_as id failed none h = cc
exits_as id failed (some code) h = inr (λ e. cc, (code, refl))

exit_errors-IsFinished :
    (c : CheckExecution)
    → exit_errors c.id c.outcome c.exit_code ≡ []
    → ltb 9007199254740991 c.duration_ms ≡ false
    → IsFinished c
exit_errors-IsFinished c h k = record {
  exits = exits_as c.id c.outcome c.exit_code h;
  duration = ground (arith, k);
}

IsFinished-exit_errors :
    (c : CheckExecution)
    → IsFinished c
    → (exit_errors c.id c.outcome c.exit_code ≡ []) × (ltb 9007199254740991 c.duration_ms ≡ false)
unfolding exit_errors
IsFinished-exit_errors c f = (ground (arith, f.exits), ground (arith, f.duration))

pub check_errors-IsFinished :
    (ran : List Ident) (checks : List CheckExecution)
    → check_errors ran checks ≡ []
    → Fresh ran (ids_of checks) × All IsFinished checks
unfolding check_errors Fresh
check_errors-IsFinished ran [] h = (tt, tt)
check_errors-IsFinished ran (c ∷ rest) h =
    let (first, h₁) = append_nil (when (contains ran c.id) _) _ h in
    let (second, h₂) = append_nil (exit_errors c.id c.outcome c.exit_code) _ h₁ in
    let (third, h₃) = append_nil (when (ltb 9007199254740991 c.duration_ms) _) _ h₂ in
    let (fresh, finished) = check_errors-IsFinished (c.id ∷ ran) rest h₃ in
    (
      (when_nil (contains ran c.id) _ first, fresh),
      (
        exit_errors-IsFinished c second (when_nil (ltb 9007199254740991 c.duration_ms) _ third),
        finished,
      ),
    )

pub IsFinished-check_errors :
    (ran : List Ident) (checks : List CheckExecution)
    → Fresh ran (ids_of checks)
    → All IsFinished checks
    → check_errors ran checks ≡ []
unfolding check_errors Fresh
IsFinished-check_errors ran [] h k = refl
IsFinished-check_errors ran (c ∷ rest) (new, fresh) (f, finished) =
    let (exits, duration) = IsFinished-exit_errors c f in
    rw
      (check_errors, new, exits, duration, IsFinished-check_errors (c.id ∷ ran) rest fresh finished)
      refl
