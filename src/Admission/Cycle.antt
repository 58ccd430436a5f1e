-- ===== src/Admission/Cycle.antt =====
-- src/graph/mod.rs: the walk in `admit` that finds a cycle among the nodes left over.
pub mod Closed
pub mod Reported
use checkspan.Common.{
  ℕ, zero, suc, ◌+◌, ◌<◌, Bool, not, Option, none, some, List, [], ◌∷◌, ◌++◌, ltb, ◌==◌, nat_eq,
  length, find, if◌then◌else◌,
}
use checkspan.Common.Indexed.{get_or, drop, below}

-- Whether a node is in `remaining`.
abbrev pub remains : List ℕ → ℕ → Bool
remains indegree i = ltb 0 (get_or indegree i 0)

-- `position`: where a node stands in the path.
unfoldable pub place_in : ℕ → List ℕ → Option ℕ
place_in a [] = none
place_in a (x ∷ xs) =
    if x == a then some 0 else elim (place_in a xs) [ none ↦ none | some k ↦ some (suc k) ]

-- `expect_failed` is a panic of `expect`.
pub data CycleSearch : Type 0 where
  closed : List ℕ → CycleSearch
  expect_failed out_of_fuel : CycleSearch

unfoldable pub follow : ℕ → List (List ℕ) → List ℕ → List ℕ → ℕ → CycleSearch
unfolding find place_in
follow zero deps_of indegree path current = out_of_fuel
follow (suc fuel) deps_of indegree path current =
    elim (find (remains indegree) (get_or deps_of current [])) [
      | none ↦ expect_failed
      | some next ↦ elim (place_in next path) [
        | some position ↦ closed (drop position path)
        | none ↦ follow fuel deps_of indegree (path ++ next ∷ []) next
      ]
    ]

-- The path has no node twice, so the number of nodes is fuel enough.
unfoldable pub find_cycle : List (List ℕ) → List ℕ → CycleSearch
unfolding follow find
find_cycle deps_of indegree = elim (find (remains indegree) (below (length deps_of))) [
  | none ↦ expect_failed
  | some first ↦ follow (length deps_of) deps_of indegree (first ∷ []) first
]
