-- ===== src/Contracts/Patch.antt =====
-- src/contracts/patch.rs: the exact local candidate that a software check runs against. The records
-- that no rule reads keep their fields.
pub mod Clean
pub mod Ordered
pub mod Checked
pub mod Tests
use checkspan.Common.{
  ℕ, Bool, true, false, not, ◌&&◌, ◌||◌, Option, none, some, List, [], ◌∷◌, ◌++◌, Text, text, Eq,
  ◌==◌, nat_eq, list_eq, rank_eq, ◌≡◌, arith, when, length, is_empty, is_some, all, contains, ltb,
  leb, is_digit, if◌then◌else◌, Result, ok, err,
}
use checkspan.Common.Sorting.{text_ltb}
use checkspan.Contracts.Ids.{Digest, InvalidValue, Reason, is_hex}
use checkspan.Contracts.Time.{Timestamp}

-- `(1 << 53) - 1`
abbrev pub max_exact_integer : ℕ
max_exact_integer = 9007199254740991

abbrev pub CommitId : Type 0
CommitId = Text

-- `CommitId::new`
unfoldable pub new_commit_id : Text → Result CommitId InvalidValue
unfolding all
new_commit_id value =
    if ((length value == 40) || (length value == 64)) && all is_hex value
    then ok value
    else err (record { kind = text "commit id"; reason = Reason.not_a_commit_id })

pub record Repository : Type 0 where
  pub root_commits : List CommitId

pub data CandidateKind : Type 0 where
  commit working_tree : CandidateKind

pub record Candidate : Type 0 where
  pub kind : CandidateKind
  pub commit : CommitId
  pub patch_digest : Digest

pub data ChangeKind : Type 0 where
  added modified deleted untracked : ChangeKind

pub record Change : Type 0 where
  pub path : Text
  pub change : ChangeKind
  pub content_digest : Option Digest
  pub size : Option ℕ

pub record Tool : Type 0 where
  pub name : Text
  pub version : Text

pub record PatchResult : Type 0 where
  pub repository : Repository
  pub base_commit : CommitId
  pub candidate : Candidate
  pub changes : List Change
  pub captured_at : Timestamp
  pub tool : Tool

pub record PatchSubject : Type 0 where
  pub repository : Repository
  pub base_commit : CommitId
  pub candidate : Candidate
  pub changes : List Change

pub data PatchError : Type 0 where
  no_root_commits unsorted_root_commits : PatchError
  path_not_relative unsorted_paths deleted_with_content missing_content : Text → PatchError
  size_not_exact unknown_tool : Text → PatchError

-- `split(sep)`, which always has one piece at least.
push : ℕ → List Text → List Text
push c [] = (c ∷ []) ∷ []
push c (piece ∷ pieces) = (c ∷ piece) ∷ pieces

unfoldable pub split : ℕ → Text → List Text
unfolding push
split sep [] = [] ∷ []
split sep (c ∷ s) =
    let rest = split sep s in elim (c == sep) [ true ↦ [] ∷ rest | false ↦ push c rest ]

abbrev pub is_segment : Text → Bool
is_segment segment =
    not (is_empty segment) && not (segment == text ".") && not (segment == text "..")

abbrev pub starts_with_slash : Text → Bool
starts_with_slash [] = false
starts_with_slash (c ∷ s) = c == b'/'

unfoldable pub is_clean_relative_path : Text → Bool
unfolding split all contains
is_clean_relative_path path =
    not (is_empty path)
    && not (starts_with_slash path)
    && not (contains path b'\\')
    && not (contains path 0)
    && all is_segment (split b'/' path)

-- `windows(2).all(|pair| pair[0] < pair[1])`
unfoldable pub is_ascending : List CommitId → Bool
unfolding text_ltb
is_ascending [] = true
is_ascending (x ∷ []) = true
is_ascending (x ∷ y ∷ rest) = text_ltb x y && is_ascending (y ∷ rest)

abbrev pub not_after : Option Text → Text → Bool
not_after none path = false
not_after (some previous) path = not (text_ltb previous path)

abbrev pub has_content : Change → Bool
has_content c = is_some c.content_digest || is_some c.size

abbrev pub complete : Change → Bool
complete c = is_some c.content_digest && is_some c.size

-- The match on `change.change`.
unfoldable pub content_errors : ChangeKind → Change → List PatchError
content_errors deleted c = when (has_content c) (deleted_with_content c.path)
content_errors other c = when (not (complete c)) (missing_content c.path)

abbrev pub is_inexact : Option ℕ → Bool
is_inexact none = false
is_inexact (some size) = ltb max_exact_integer size

-- The loop over `changes`, with `previous`.
unfoldable pub change_errors : Option Text → List Change → List PatchError
unfolding is_clean_relative_path text_ltb content_errors
change_errors previous [] = []
change_errors previous (c ∷ rest) =
    when (not (is_clean_relative_path c.path)) (path_not_relative c.path)
    ++ (when (not_after previous c.path) (unsorted_paths c.path)
        ++ (content_errors c.change c
            ++ (when (is_inexact c.size) (size_not_exact c.path)
                ++ change_errors (some c.path) rest)))

-- `PatchResult::check_bindings`
unfoldable pub check_patch : PatchResult → List PatchError
unfolding is_ascending change_errors
check_patch r =
    when (is_empty r.repository.root_commits) no_root_commits
    ++ (when (not (is_ascending r.repository.root_commits)) unsorted_root_commits
        ++ (change_errors none r.changes
            ++ when (not (r.tool.name == text "git")) (unknown_tool r.tool.name)))

-- `PatchResult::subject`
unfoldable pub patch_subject : PatchResult → PatchSubject
patch_subject r = record {
  repository = r.repository;
  base_commit = r.base_commit;
  candidate = r.candidate;
  changes = r.changes;
}
