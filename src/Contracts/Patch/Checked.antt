-- ===== src/Contracts/Patch/Checked.antt =====
-- src/contracts/patch.rs, PatchResult::check_bindings: what a record without an error is.
use checkspan.Common.{
  append_nil, when_nil, unless_nil, is_empty-false, is_empty_filled, ℕ, true, false, not, Option,
  none, some, List, [], ◌∷◌, ◌≡◌, ◌≢◌, ◌⊎◌, ◌↔◌, ◌<◌, ◌^◌, refl, arith, Text, text, ◌==◌, ==→≡,
  ≡→==, nat_eq, list_eq, when, is_empty, map, All,
}
use checkspan.Contracts.Ids.{Digest}
use checkspan.Contracts.Patch.{
  Change, deleted, PatchResult, is_clean_relative_path, is_ascending, not_after, is_inexact,
  content_errors, change_errors, check_patch,
}
use checkspan.Contracts.Patch.Ordered.{Ascending, is_ascending-Ascending, Ascending_adjacent}
use checkspan.Contracts.Patch.Clean.{IsClean, is_clean_relative_path-IsClean, IsClean_clean}

-- A deletion has no content, and any other change has a digest and a size that a double holds exactly.
abbrev pub HasItsContent : Change → Type 0
HasItsContent c =
    ((c.change ≡ deleted) × (c.content_digest ≡ none) × (c.size ≡ none))
    ⊎ ((c.change ≢ deleted)
        × ((d : Digest) × (n : ℕ) × (c.content_digest ≡ some d) × (c.size ≡ some n) × (n < 2 ^ 53)))

pub record IsExactChange (c : Change) : Type 0 where
  pub clean : IsClean c.path
  pub content : HasItsContent c

pub record IsExact (r : PatchResult) : Type 0 where
  pub some_root : r.repository.root_commits ≢ []
  pub roots : Ascending r.repository.root_commits
  pub paths : Ascending (map (λ (c : Change). c.path) r.changes)
  pub changes : All IsExactChange r.changes
  pub tool : r.tool.name ≡ text "git"

-- The rule on the content of a change, with the one on its size.
content_errors-HasItsContent :
    (c : Change) → content_errors c.change c ≡ [] → is_inexact c.size ≡ false → HasItsContent c
unfolding content_errors
content_errors-HasItsContent c h k = ground (arith, h, k)

HasItsContent-content_errors :
    (c : Change) → HasItsContent c → (content_errors c.change c ≡ []) × (is_inexact c.size ≡ false)
unfolding content_errors
HasItsContent-content_errors c h = ground (arith, h)

with_previous : Option Text → List Text → List Text
with_previous none paths = paths
with_previous (some p) paths = p ∷ paths

abbrev paths_of : List Change → List Text
paths_of cs = map (λ (c : Change). c.path) cs

ascends :
    (previous : Option Text) (path : Text) (rest : List Text)
    → not_after previous path ≡ false
    → is_ascending (path ∷ rest) ≡ true
    → is_ascending (with_previous previous (path ∷ rest)) ≡ true
unfolding is_ascending with_previous
ascends none path rest h k = k
ascends (some p) path rest h k = ground (arith, h, k)

descends :
    (previous : Option Text) (path : Text) (rest : List Text)
    → is_ascending (with_previous previous (path ∷ rest)) ≡ true
    → (not_after previous path ≡ false) × (is_ascending (path ∷ rest) ≡ true)
unfolding is_ascending with_previous
descends none path rest h = (refl, h)
descends (some p) path rest h = (ground (arith, h), ground (arith, h))

change_errors-IsExactChange :
    (previous : Option Text) (cs : List Change)
    → change_errors previous cs ≡ []
    → (is_ascending (with_previous previous (paths_of cs)) ≡ true) × All IsExactChange cs
unfolding change_errors with_previous is_ascending
change_errors-IsExactChange none [] h = (refl, tt)
change_errors-IsExactChange (some p) [] h = (refl, tt)
change_errors-IsExactChange previous (c ∷ rest) h =
    let (first, h₁) = append_nil (when (not (is_clean_relative_path c.path)) _) _ h in
    let (second, h₂) = append_nil (when (not_after previous c.path) _) _ h₁ in
    let (third, h₃) = append_nil (content_errors c.change c) _ h₂ in
    let (fourth, h₄) = append_nil (when (is_inexact c.size) _) _ h₃ in
    let (order, exact) = change_errors-IsExactChange (some c.path) rest h₄ in
    (
      ascends previous c.path (paths_of rest) (when_nil (not_after previous c.path) _ second) order,
      (
        record {
          clean =
              is_clean_relative_path-IsClean c.path
                (unless_nil (is_clean_relative_path c.path) _ first);
          content = content_errors-HasItsContent c third (when_nil (is_inexact c.size) _ fourth);
        },
        exact,
      ),
    )

IsExactChange-change_errors :
    (previous : Option Text) (cs : List Change)
    → is_ascending (with_previous previous (paths_of cs)) ≡ true
    → All IsExactChange cs
    → change_errors previous cs ≡ []
unfolding change_errors with_previous
IsExactChange-change_errors previous [] h k = refl
IsExactChange-change_errors previous (c ∷ rest) h (first, later) =
    let (after, order) = descends previous c.path (paths_of rest) h in
    let (quiet, exact) = HasItsContent-content_errors c first.content in
    rw
      (
        change_errors,
        IsClean_clean c.path first.clean,
        after,
        quiet,
        exact,
        IsExactChange-change_errors (some c.path) rest order later,
      )
      refl

check_patch-IsExact : (r : PatchResult) → check_patch r ≡ [] → IsExact r
unfolding check_patch with_previous
check_patch-IsExact r h =
    let roots = r.repository.root_commits in
    let (first, h₁) = append_nil (when (is_empty roots) _) _ h in
    let (second, h₂) = append_nil (when (not (is_ascending roots)) _) _ h₁ in
    let (third, fourth) = append_nil (change_errors none r.changes) _ h₂ in
    let (order, exact) = change_errors-IsExactChange none r.changes third in
    record {
      some_root = is_empty_filled roots (when_nil (is_empty roots) _ first);
      roots = is_ascending-Ascending roots (unless_nil (is_ascending roots) _ second);
      paths = is_ascending-Ascending (paths_of r.changes) order;
      changes = exact;
      tool = ==→≡ r.tool.name (text "git") (unless_nil (r.tool.name == text "git") _ fourth);
    }

IsExact-check_patch : (r : PatchResult) → IsExact r → check_patch r ≡ []
unfolding check_patch with_previous
IsExact-check_patch r i =
    let some_root = is_empty-false r.repository.root_commits i.some_root in
    let roots = Ascending_adjacent r.repository.root_commits i.roots in
    let changes =
      IsExactChange-change_errors none r.changes (Ascending_adjacent (paths_of r.changes) i.paths)
        i.changes in
    let tool : (r.tool.name == text "git") ≡ true = ≡→== r.tool.name (text "git") i.tool in
    rw (check_patch, some_root, roots, changes, tool) refl

-- The rules of a patch record report nothing exactly when: it names a root commit, and its root
-- commits are in strictly ascending order; its paths are too, and each is one or more names,
-- none of which is empty, a single or a double dot or holds a slash, a backslash or a NUL,
-- joined by slashes; a deletion has no digest and no size, and any other change has a digest and
-- a size below 2^53; and the tool is git.
pub check_patch_decides : (r : PatchResult) → (check_patch r ≡ []) ↔ IsExact r
check_patch_decides r = (check_patch-IsExact r, IsExact-check_patch r)
