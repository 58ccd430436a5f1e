-- ===== src/Admission/Cycle/Reported.antt =====
-- src/graph/mod.rs: the sort places every node, or a cycle is found.
use checkspan.Common.{ℕ, ◌<◌, some, List, ◌≡◌, length, All}
use checkspan.Common.Indexed.{Within}
use checkspan.Admission.Kahn.{Kahn, sort_nodes}
use checkspan.Admission.Kahn.Order.{sort_ends}
use checkspan.Admission.Cycle.{CycleSearch, find_cycle}
use checkspan.Admission.Cycle.Closed.{IsCycle, find_cycle_closes}

-- When every dependency is the index of a node, the sort ends; and when it leaves nodes out, the
-- walk among them ends, without a panic, in a path on which each node depends on the next and
-- the last on the first.
pub sort_or_IsCycle :
    (deps_of : List (List ℕ))
    → All (Within (length deps_of)) deps_of
    → (s : Kahn) × (sort_nodes deps_of ≡ some s)
      × (length s.order < length deps_of
          → (path : List ℕ) × (find_cycle deps_of s.indegree ≡ CycleSearch.closed path)
            × IsCycle deps_of path)
sort_or_IsCycle deps_of w =
    let (s, same, sorting, empty) = sort_ends deps_of w in
    (s, same, find_cycle_closes deps_of w s sorting empty)
