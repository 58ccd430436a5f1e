-- ===== src/Lib.antt =====
-- Checkspan is a workflow engine whose work is accepted only on a verifier's receipt. A graph of
-- nodes with dependencies is stored once; a run of it dispatches attempts, seals what they produced,
-- admits receipts, opens gates for people, and retries within a budget. Everything is derived from
-- one ledger, an append-only event log with its records.
--
-- The parts modelled, from the bottom up, with the files of the repository that they follow:
--
-- Contracts (src/contracts/ids.rs, node.rs, graph.rs, attempt.rs, evidence.rs, view.rs, gate.rs):
-- the records as records and the enumerations as data types, in Ids, Time, Refs, Node, Graph,
-- Attempt, View, Gate and Packet. Each `check_bindings` is a function to the list of the errors it
-- pushes, in order: check_contract, check_identity, check_run_identity, check_attempt,
-- check_receipt, check_view, check_packet, check_decision, check_patch in Patch (patch.rs) and
-- check_software in Software (software.rs); `binds` of receipts and decisions are binds and
-- decision_binds. Timestamps are texts, and unix_nanos gives their instant; Time.Calendar counts
-- days by the calendar that it is compared with. Printed has the printed forms of the references
-- that messages use.
--
-- State (src/state/mod.rs): the reducer. State.Node holds NodeState with `apply` and `replay`,
-- State.Event the events with `kind` and `payload`, State.Stored `from_stored`, and State.Run the
-- states of a whole run with replay_run and views.
--
-- Store (src/store/mod.rs): Store.Rows and Store.Tables hold the tables as lists of rows and the
-- reads of `Ledger`; Store.Writes is `impl Tx`, each write a function from the tables to the tables
-- it leaves or the error of the constraint that refuses it; Store.Ops is `impl Store`, where
-- transaction keeps the old tables on an error. Store.Steps has the writes as a step relation,
-- Store.Changes and Store.Changed what a step does to each table, and Store.Operations the
-- operations of `Store` as one type.
--
-- Deps (src/deps/mod.rs): Deps.Service is DependencyService on the state of a run and the tables:
-- admissible, resolve, recheck, recheck_refs; Deps.Reason prints blockers and is blocked_reason.
--
-- Budget (src/budget/mod.rs): Budget.Status is the walk along the lineage of a run and what it
-- counts, Budget.Narrow check_narrowing, and Budget.Retry failure_class, disposition and
-- apply_retry_policy, the last a transaction on the store that replays the run through the reducer.
-- Budget.Pending is pending_narrowing, which the next claim of the node carries; its decoder is read
-- on objects only.
--
-- Admission (src/graph/mod.rs): `admit`, in the order of its passes. Admission.Links resolves
-- dependencies, proof sources and gates to indices of nodes, Admission.Kahn sorts them,
-- Admission.Cycle walks among what is left, Admission.Search is dependency_path and the loop that
-- collects what the targets need, and Admission.Admit puts the passes together. Links.Located,
-- Links.Exact, Links.Gates, Links.Bindings and Admit.Targets say in terms of the nodes of the graph
-- what the indices, edges, gates and targets are.
--
-- Scheduler (src/scheduler/mod.rs): Scheduler.Create is new (new_scheduler), on an admitted graph,
-- Scheduler.Claim claim_next with its conflict test and its dispatch, Scheduler.Finish held_claim,
-- complete, cancel (cancel_node) and reclaim, Scheduler.Shown views (scheduler_views).
-- Scheduler.Steps has the calls as a step relation on the ledger.
--
-- Digests (src/digests/mod.rs): Digests.Envelope is the check on the numbers of an envelope and
-- digest_of, Digests.Bound the digests of graphs, nodes, inputs and contexts.
--
-- Receipts (src/receipts/mod.rs): Receipts.Issue is `issue`, Receipts.Admit `admit`, whose checks
-- before the transaction are check_offer and whose checks inside it are check_ledger.
--
-- Gates (src/gates/mod.rs): Gates.Packets gathers the context of a packet and seals it,
-- Gates.Context says what this context is in terms of the log, Gates.Open is open_resolve_work,
-- whose transaction is open_body.
--
-- Numbers are natural; a `u32` keeps its wrap or its saturation written out, and a fencing token its
-- clamp to an `i64`. Texts are lists of bytes. A message of an error is a constructor with what the
-- message names. The fields `record` and `schema_version`, which are constants, are left out. The
-- walk along the lineage of a run is on fuel, one more than the number of stored runs, since every
-- turn takes a stored run that no turn has taken before. So are the loops of admission: the sort and
-- the walk for a cycle on the number of nodes, since a turn takes a new node; dependency_path on one
-- more, since a node enters its queue once; and the required nodes on the number of targets and
-- dependencies, since the dependencies of a node enter the queue once.
--
-- `Host` (Store.Writes) is what the store takes from elsewhere: the length of a record's JSON text,
-- the digest of a graph and the clock of SQLite. Errors of SQLite and of reading a row back are not
-- modelled, nor the sequence counter at the end of its range. `Codec` and `Writer` (Digests) are
-- canonical JSON, SHA-256 and the serialization that is derived for the records. `PacketWriter`
-- (Gates) is that for the records that a packet presents. The program's evidence, controller,
-- verifiers, adapters, validation and command line are not modelled.
pub mod Common
pub mod Contracts
pub mod State
pub mod Store
pub mod Deps
pub mod Budget
pub mod Admission
pub mod Digests
pub mod Receipts
pub mod Gates
pub mod Scheduler
