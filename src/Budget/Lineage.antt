-- ===== src/Budget/Lineage.antt =====
-- src/budget/mod.rs: the walk along the lineage ends, and what it counts.
use checkspan.Common.{
  ℕ, suc, ◌+◌, Option, none, some, List, [], ◌∷◌, ◌++◌, ◌≡◌, nat_eq, list_eq, contains, leb,
  if◌then◌else◌,
}
use checkspan.Contracts.Ids.{RunId}
use checkspan.Contracts.Graph.{GraphRun}
use checkspan.Store.Tables.{Db, read_dispatch_count, read_run, max_u32}

-- The stored runs that the walk has not taken.
left : List RunId → List GraphRun → ℕ
left seen [] = 0
left seen (r ∷ runs) = if contains seen r.run_id then left seen runs else suc (left seen runs)

-- The runs along the lineage, each named by the one before it.
pub data Chain (db : Db) : Option RunId → List RunId → Type 0 where
  stop : Chain db none []
  link :
      {a : RunId} {rest : List RunId} (run : GraphRun)
      → read_run db a ≡ some run
      → Chain db run.budget_lineage_ref rest
      → Chain db (some a) (a ∷ rest)

-- The attempts dispatched in all of them.
abbrev pub dispatched_in : Db → List RunId → ℕ
dispatched_in db [] = 0
dispatched_in db (a ∷ rest) = read_dispatch_count db a + dispatched_in db rest

abbrev pub cap : ℕ → ℕ
cap n = if leb n max_u32 then n else max_u32

abbrev Walked : Db → List RunId → ℕ → Option RunId → List RunId → ℕ → Type 0
Walked db lineage used next taken total =
    (more : List RunId) × Chain db next more
    × (taken ≡ lineage ++ more)
    × (total ≡ cap (used + dispatched_in db more))
