-- ===== src/Admission/Kahn.antt =====
-- src/graph/mod.rs: Kahn's algorithm in `admit`, with the nodes that are ready taken in document
-- order. Proved in Counts and Order.
pub mod Counts
pub mod Order
use checkspan.Common.{
  ℕ, zero, suc, ◌-◌, ◌+◌, Option, none, some, List, [], ◌∷◌, ◌++◌, ltb, ◌==◌, nat_eq, length,
  if◌then◌else◌,
}
use checkspan.Common.Indexed.{get_or, set, replicate}
use checkspan.Common.Sorting.{place}

pub record Degrees : Type 0 where
  pub indegree : List ℕ
  pub dependents : List (List ℕ)

-- `indegree[ci] += 1; dependents[pi].push(ci);` for each producer of `ci`.
unfoldable pub add_edges : ℕ → List ℕ → Degrees → Degrees
add_edges c [] d = d
add_edges c (p ∷ producers) d = add_edges c producers (record {
  indegree = set d.indegree c (get_or d.indegree c 0 + 1);
  dependents = set d.dependents p (get_or d.dependents p [] ++ c ∷ []);
})

unfoldable pub add_all : ℕ → List (List ℕ) → Degrees → Degrees
unfolding add_edges
add_all c [] d = d
add_all c (producers ∷ rest) d = add_all (suc c) rest (add_edges c producers d)

unfoldable pub degrees : List (List ℕ) → Degrees
unfolding add_all
degrees deps_of =
    let n = length deps_of in
    add_all 0 deps_of (record { indegree = replicate n 0; dependents = replicate n [] })

-- The loop's state; `ready` is the heap in the order in which it gives up its entries.
pub record Kahn : Type 0 where
  pub indegree : List ℕ
  pub ready : List ℕ
  pub order : List ℕ

-- `(0..n).filter(|&i| indegree[i] == 0)`, from index `i` on
unfoldable pub roots : ℕ → List ℕ → List ℕ
roots i [] = []
roots i (k ∷ indegree) = if k == 0 then i ∷ roots (suc i) indegree else roots (suc i) indegree

unfoldable pub release : List ℕ → Kahn → Kahn
unfolding place
release [] s = s
release (d ∷ ds) s =
    let fewer = get_or s.indegree d 0 - 1 in
    release ds (record s {
      indegree = set s.indegree d fewer;
      ready = if fewer == 0 then place ltb d s.ready else s.ready;
    })

unfoldable pub kahn : ℕ → List (List ℕ) → Kahn → Option Kahn
unfolding release
kahn zero dependents s = elim s.ready [ [] ↦ some s | _ ∷ _ ↦ none ]
kahn (suc fuel) dependents s = elim s.ready [
  | [] ↦ some s
  | i ∷ rest ↦
      kahn fuel dependents
        (release (get_or dependents i []) (record s { ready = rest; order = s.order ++ i ∷ [] }))
]

unfoldable pub start : Degrees → Kahn
unfolding roots
start d = record { indegree = d.indegree; ready = roots 0 d.indegree; order = [] }

-- Each round takes a node that no round has taken, so the number of nodes is fuel enough.
unfoldable pub sort_nodes : List (List ℕ) → Option Kahn
unfolding kahn start degrees
sort_nodes deps_of = kahn (length deps_of) (degrees deps_of).dependents (start (degrees deps_of))
