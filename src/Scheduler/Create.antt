-- ===== src/Scheduler/Create.antt =====
-- src/scheduler/mod.rs: `ControllerId::new`, `Scheduler::new` and `with_max_active`.
use checkspan.Common.{
  ℕ, not, Text, ◌==◌, nat_eq, list_eq, is_blank, max, if◌then◌else◌, Result, ok, err, ◌≡◌, refl,
  ==→≡, Bool-cases, inl, inr, ok-injective, subst,
}
use checkspan.Contracts.Refs.{graph_ref_eq}
use checkspan.Contracts.Graph.{GraphSpec, GraphRun, graph_ref}
use checkspan.Admission.Admit.{AdmittedGraph, Admitted, admit}
use checkspan.Admission.Admit.Accepted.{IsAdmitted}
use checkspan.Admission.Admit.Decided.{admit_decides}
use checkspan.Scheduler.Claim.{
  Scheduler, SchedulerError, empty_controller, run_of_other_graph, admission_stuck, not_admitted,
}

unfoldable pub new_controller : Text → Result Text SchedulerError
new_controller name = if is_blank name then err empty_controller else ok name

-- The last two outcomes of `admit` are those that never happen.
unfoldable pub over_graph :
    GraphSpec → GraphRun → Text → Admitted AdmittedGraph → Result Scheduler SchedulerError
over_graph spec run controller (Admitted.done graph) =
    ok (record { spec = spec; graph = graph; run = run; controller = controller; max_active = 1 })
over_graph spec run controller (Admitted.refused errors) = err (not_admitted errors)
over_graph spec run controller Admitted.expect_failed = err admission_stuck
over_graph spec run controller Admitted.out_of_fuel = err admission_stuck

unfoldable pub new_scheduler : GraphSpec → GraphRun → Text → Result Scheduler SchedulerError
unfolding over_graph
new_scheduler spec run controller =
    if not (run.graph_ref == graph_ref spec)
    then err run_of_other_graph
    else over_graph spec run controller (admit spec)

unfoldable pub with_max_active : Scheduler → ℕ → Scheduler
with_max_active s cap = record s { max_active = max cap 1 }

abbrev pub Made : GraphSpec → GraphRun → Scheduler → Type 0
Made spec run s =
    IsAdmitted spec s.graph
    × (s.spec ≡ spec)
    × (s.run ≡ run)
    × (run.graph_ref ≡ graph_ref spec)
    × (s.max_active ≡ 1)

-- A scheduler that is created has the graph and the run it is given, whose graph reference is
-- that of the graph; its graph is admitted, with all that this means, and it may hold one claim
-- at a time.
pub new_scheduler-IsAdmitted :
    (spec : GraphSpec) (run : GraphRun) (controller : Text) (s : Scheduler)
    → new_scheduler spec run controller ≡ ok s
    → Made spec run s
unfolding new_scheduler over_graph
new_scheduler-IsAdmitted spec run controller s h =
    elim (Bool-cases (run.graph_ref == graph_ref spec)) [
      | inr e ↦ cc (rw (new_scheduler, e) at h)
      | inl e ↦ elim (admit_decides spec) [
        | inr (errors, same, some_error) ↦ cc (rw (new_scheduler, e, same) at h)
        | inl (g, same, admitted) ↦
            let made : Scheduler = record {
              spec = spec;
              graph = g;
              run = run;
              controller = controller;
              max_active = 1;
            } in
            let is_made : made ≡ s = ok-injective (rw (new_scheduler, over_graph, e, same) at h) in
            subst (Made spec run) is_made
              (admitted, refl, refl, ==→≡ run.graph_ref (graph_ref spec) e, refl)
      ]
    ]
