-- ===== src/Admission/Search.antt =====
-- src/graph/mod.rs: `dependency_path`, and the loop of `admit` that collects what the targets need.
pub mod Required
pub mod Routes
use checkspan.Common.{
  ℕ, zero, suc, ◌+◌, true, false, Option, none, some, List, [], ◌∷◌, ◌++◌, ◌==◌, nat_eq, length,
  contains, if◌then◌else◌,
}
use checkspan.Common.Indexed.{get_or}
use mathlib.Core.List.{reverse}

-- `previous` has the last entry first.
pub record Search : Type 0 where
  pub previous : List (ℕ × ℕ)
  pub queue : List ℕ
  pub seen : List ℕ

-- The loop `while let Some(&p) = previous.get(&at)`: the nodes after `at`. A node enters `previous`
-- once, and after the node that it points at, so the loop goes on among the earlier entries.
unfoldable pub climb : List (ℕ × ℕ) → ℕ → List ℕ
climb [] at = []
climb ((n, p) ∷ earlier) at =
    let found = p ∷ climb earlier p in
    let missed = climb earlier at in if n == at then found else missed

pub data Scanned : Type 0 where
  reached : List ℕ → Scanned
  missed : Search → Scanned

-- The loop over `&deps_of[current]`.
unfoldable pub scan : (to current : ℕ) → List ℕ → Search → Scanned
unfolding climb contains
scan to current [] s = missed s
scan to current (next ∷ rest) s = elim (contains s.seen next) [
  | true ↦ scan to current rest s
  | false ↦ elim (next == to) [
    | true ↦ reached (reverse (to ∷ climb ((next, current) ∷ s.previous) to))
    | false ↦ scan to current rest (record {
      previous = (next, current) ∷ s.previous;
      queue = s.queue ++ next ∷ [];
      seen = next ∷ s.seen;
    })
  ]
]

pub data PathSearch : Type 0 where
  path : List ℕ → PathSearch
  no_path out_of_fuel : PathSearch

unfoldable pub search_path : ℕ → List (List ℕ) → ℕ → Search → PathSearch
unfolding scan
search_path zero deps_of to s = elim s.queue [ [] ↦ no_path | _ ∷ _ ↦ out_of_fuel ]
search_path (suc fuel) deps_of to s = elim s.queue [
  | [] ↦ no_path
  | current ∷ rest ↦
      elim (scan to current (get_or deps_of current []) (record s { queue = rest })) [
        | reached found ↦ path found
        | missed t ↦ search_path fuel deps_of to t
      ]
]

-- A node enters the queue once, so the number of nodes is fuel enough.
unfoldable pub dependency_path : List (List ℕ) → (start to : ℕ) → PathSearch
unfolding search_path
dependency_path deps_of start to =
    search_path (suc (length deps_of)) deps_of to
      (record { previous = []; queue = start ∷ []; seen = start ∷ [] })

-- The loop that fills `required`.
unfoldable pub collect : ℕ → List (List ℕ) → List ℕ → List ℕ → Option (List ℕ)
unfolding contains
collect fuel deps_of required [] = some required
collect zero deps_of required (i ∷ queue) = none
collect (suc fuel) deps_of required (i ∷ queue) = elim (contains required i) [
  | true ↦ collect fuel deps_of required queue
  | false ↦ collect fuel deps_of (i ∷ required) (queue ++ get_or deps_of i [])
]

abbrev pub edges_in : List (List ℕ) → ℕ
edges_in [] = 0
edges_in (producers ∷ rest) = length producers + edges_in rest

-- A node's dependencies enter the queue once, so the targets and the dependencies are fuel enough.
unfoldable pub required_by : List (List ℕ) → List ℕ → Option (List ℕ)
unfolding collect
required_by deps_of targets = collect (length targets + edges_in deps_of) deps_of [] targets
