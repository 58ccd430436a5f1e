-- ===== src/Contracts/Patch/Tests.antt =====
-- A patch of two paths, and the theorem about patch records at it.
use checkspan.Common.{some, none, [], ◌∷◌, ◌≡◌, list_beq, ◌↔◌, refl, Text, text, false}
use checkspan.Common.Sorting.{text_ltb}
use checkspan.Contracts.Patch.{
  PatchResult, CandidateKind, added, deleted, split, is_clean_relative_path, is_ascending,
  content_errors, change_errors, check_patch,
}
use checkspan.Contracts.Patch.Checked.{IsExact, check_patch_decides}

abbrev root : Text
root = text "0123456789012345678901234567890123456789"

abbrev patch : PatchResult
patch = record {
  repository = record { root_commits = root ∷ [] };
  base_commit = root;
  candidate = record {
    kind = CandidateKind.commit;
    commit = root;
    patch_digest = text "sha256:00";
  };
  changes =
      record {
        path = text "docs/a.md";
        change = added;
        content_digest = some (text "sha256:01");
        size = some 9007199254740991;
      }
      ∷ record { path = text "src/b.rs"; change = deleted; content_digest = none; size = none }
      ∷ [];
  captured_at = text "2026-01-01T00:00:00Z";
  tool = record { name = text "git"; version = text "2.40" };
}

patch_runs : check_patch patch ≡ []
unfolding check_patch change_errors content_errors is_ascending is_clean_relative_path split
    text_ltb list_beq
patch_runs = refl

not_clean : is_clean_relative_path (text "a/../b") ≡ false
unfolding is_clean_relative_path split list_beq
not_clean = refl

check_patch_decides_example : (check_patch patch ≡ []) ↔ IsExact patch
check_patch_decides_example = check_patch_decides patch
