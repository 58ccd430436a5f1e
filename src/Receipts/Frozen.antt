-- ===== src/Receipts/Frozen.antt =====
-- src/receipts/mod.rs: `frozen_subject` and the result of a completed attempt, in terms of the fields of
-- the attempt.
use checkspan.Common.{
  true, false, Option, none, some, List, [], ◌∷◌, ◌++◌, ◌≡◌, ◌≢◌, refl, ap, ◌∙◌, inl, inr, Text,
  text, ◌==◌, ==→≡, nat_eq, find, All, is_some, strip_prefix, Bool-cases, Option-cases,
}
use checkspan.Contracts.Attempt.{
  Attempt, EvidenceRef, Execution, ExecutionOutcome, ResultRef, execution_outcome_eq,
}
use checkspan.Receipts.Issue.{completed_result}
use checkspan.Receipts.Admit.{frozen_subject, names_patch}

-- The evidence is not a patch.
abbrev pub NamesNoPatch : EvidenceRef → Type 0
NamesNoPatch e = (rest : Text) → e.subject ≢ (text "patch_subject:" ++ rest)

-- The first patch among the inputs of the attempt is `e`.
pub record FreezesFirst (attempt : Attempt) (e : EvidenceRef) : Type 0 where
  pub front : List EvidenceRef
  pub back : List EvidenceRef
  pub inputs : attempt.input_manifest ≡ front ++ e ∷ back
  pub earlier : All NamesNoPatch front
  pub rest : Text
  pub is_patch : e.subject ≡ text "patch_subject:" ++ rest

strip_prefix-some : (p s r : Text) → strip_prefix p s ≡ some r → s ≡ p ++ r
unfolding strip_prefix
strip_prefix-some [] s r h = cc
strip_prefix-some (x ∷ p) [] r h = cc
strip_prefix-some (x ∷ p) (c ∷ s) r h = elim (Bool-cases (x == c)) [
  | inr e ↦ cc (rw e at h)
  | inl e ↦ let same = ==→≡ x c e in let later = strip_prefix-some p s r (rw e at h) in cc
]

names_no_patch : (e : EvidenceRef) → NamesNoPatch e → names_patch e ≡ false
unfolding strip_prefix
names_no_patch e none_named = elim (Option-cases (strip_prefix (text "patch_subject:") e.subject)) [
  | inl f ↦ ap is_some f
  | inr (r, f) ↦ elim (none_named r (strip_prefix-some (text "patch_subject:") e.subject r f)) [ ]
]

names_a_patch :
    (e : EvidenceRef) (rest : Text)
    → e.subject ≡ text "patch_subject:" ++ rest
    → names_patch e ≡ true
unfolding strip_prefix
names_a_patch e rest h = ap (λ s. is_some (strip_prefix (text "patch_subject:") s)) h

find_first :
    (front : List EvidenceRef) (e : EvidenceRef) (back : List EvidenceRef)
    → All NamesNoPatch front
    → names_patch e ≡ true
    → find names_patch (front ++ e ∷ back) ≡ some e
unfolding find
find_first [] e back h k = rw (find, k) refl
find_first (x ∷ front) e back (p, h) k = rw (find, names_no_patch x p) (find_first front e back h k)

pub frozen_subject-FreezesFirst :
    (attempt : Attempt) (e : EvidenceRef)
    → FreezesFirst attempt e
    → frozen_subject attempt ≡ some e.subject
unfolding frozen_subject
frozen_subject-FreezesFirst attempt e f =
    let found =
      ap (find names_patch) f.inputs
      ∙ find_first f.front e f.back f.earlier (names_a_patch e f.rest f.is_patch) in
    rw (frozen_subject, found) refl

pub completed_result-some :
    (execution : Option Execution) (produced : Option ResultRef) (result : ResultRef)
    → completed_result execution produced ≡ some result
    → (e : Execution) × (execution ≡ some e)
      × (e.outcome ≡ ExecutionOutcome.completed)
      × (produced ≡ some result)
unfolding completed_result
completed_result-some none none result h = cc
completed_result-some none (some r) result h = cc
completed_result-some (some e) none result h = cc
completed_result-some (some e) (some r) result h =
    elim (Bool-cases (e.outcome == ExecutionOutcome.completed)) [
      | inr f ↦ cc (rw (completed_result, f) at h)
      | inl f ↦
          (e, refl, ==→≡ e.outcome ExecutionOutcome.completed f, rw (completed_result, f) at h)
    ]
