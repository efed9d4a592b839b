-- ===== src/Runs/World/Samples.antt =====
-- A run from its start past the review gate, and the theorems at it.
use socio_seo_agent.Prelude.{
  inl, ◌+◌, ◌≡◌, refl, String, true, false, Option, none, some, List, [], ◌∷◌, ◌++◌, ok, arith,
}
use socio_seo_agent.Json.{Fields, bool, text, obj, end, field, get, merge}
use socio_seo_agent.Channels.{normalise_channels}
use socio_seo_agent.Agent.State.{
  Reason, opportunity, validate, new_state, step, charge, enter_validate_loop,
}
use socio_seo_agent.Agent.Verdicts.{verdicts, resumable_skip, opportunity_exit, validate_exit}
use socio_seo_agent.Agent.Driver.{Nodes, Reply, returned, GraphResult, run_graph}
use socio_seo_agent.Agent.Driver.Keys.{Leaves}
use socio_seo_agent.Agent.StateGraph.Engine.{engine, engine-IsFaithful}
use socio_seo_agent.Runs.{Run, RunState, Store, done, finish, clamp_reason}
use socio_seo_agent.Runs.Service.{find_run}
use socio_seo_agent.Runs.Executor.{
  Runtime, select_runtime, builtin, Task, Phase, Executor, driven, saved, advance, save, conclude,
  row_outcome, submit,
}
use socio_seo_agent.Runs.Routes.{World, resume_run, approve_run, reject_run, resubmit}
use socio_seo_agent.Runs.Routes.Decisions.{resume_run-Decides}
use socio_seo_agent.Runs.World.{
  Action, starts, resumes, approves, rejects, works, perform_all, approvals, empty_world, behind,
}
use socio_seo_agent.Runs.World.Backing.{IsBacked}
use socio_seo_agent.Runs.World.Approved.{publishes_only_approved}
use socio_seo_agent.Runs.World.Finished.{IsOver, never_starts, finished_stays}
use socio_seo_agent.Runs.World.Alone.{IsAlone, count, all_single, one_task}
use socio_seo_agent.Runs.World.Overruled.{approval_repeats, rejection_overwritten}

abbrev writes : Fields → Reply
writes entries = returned (record { entries = entries; errors = none; cost = none })

abbrev nodes : Nodes
nodes opportunity state = writes (field "opportunity" (obj (field "topic" (text "tea") end)) end)
nodes validate state = writes (field "seo_report" (obj (field "passed" (bool true) end)) end)
nodes name state = writes end

abbrev lower : String → String
lower s = s

abbrev say : Reason → String
say reason = "a reason"

program : Unit {0}
unfolding run_graph new_state resumable_skip verdicts opportunity_exit validate_exit step charge
    enter_validate_loop merge builtin select_runtime perform_all approvals empty_world find_run
    finish normalise_channels IsAlone all_single never_starts count row_outcome save conclude
program = tt

nodes-Leaves : Leaves nodes "approved_by"
unfolding get
nodes-Leaves = record { leaves = λ name state updates e. ground arith }

abbrev runtime : Runtime
unfolding program
runtime = select_runtime "builtin" (engine 25) nodes

-- One run, to the gate.
abbrev to_gate : List Action
to_gate = starts 1 7 "more tea" ("linkedin" ∷ []) false ∷ works 0 ∷ works 0 ∷ works 0 ∷ works 0 ∷ []

-- And past it, by an approval.
abbrev past_gate : List Action
past_gate = to_gate ++ approves 1 "ann" 7 ∷ works 0 ∷ works 0 ∷ works 0 ∷ works 0 ∷ []

abbrev parked : World
unfolding program
parked = perform_all lower say runtime to_gate (empty_world 2)

state_at : World → Option RunState
state_at w = elim (find_run 1 w.store.runs) [ some run ↦ some run.state | none ↦ none ]

parked_state : state_at parked ≡ some RunState.awaiting_approval
unfolding program state_at
parked_state = refl

-- The approved run, driven past EXPORT; then a rejection, and the end of the task.
abbrev executing : World
unfolding program
executing = behind parked (approve_run 1 "ann" 7 parked)

executing_eq : approve_run 1 "ann" 7 parked ≡ ok executing
unfolding program
executing_eq = refl

abbrev driven_world : World
unfolding program
driven_world = perform_all lower say runtime (works 0 ∷ works 0 ∷ []) executing

abbrev rejected_world : World
unfolding program
rejected_world = behind driven_world (reject_run 1 7 "no" driven_world)

rejected_eq : reject_run 1 7 "no" driven_world ≡ ok rejected_world
unfolding program
rejected_eq = refl

rejected_state : state_at rejected_world ≡ some RunState.rejected
unfolding program state_at
rejected_state = refl

abbrev any_result : GraphResult
any_result = record {
  state = new_state end socio_seo_agent.Runs.Executor.default_caps;
  interrupted = false;
}

abbrev result_of : List Task → GraphResult
result_of [] = any_result
result_of (task ∷ tasks) = elim task.phase [ driven result ↦ result | _ ↦ any_result ]

abbrev exported : GraphResult
unfolding program
exported = result_of driven_world.executor.tasks

abbrev final_world : World
unfolding program
final_world = perform_all lower say runtime (works 0 ∷ works 0 ∷ []) rejected_world

final_state : state_at final_world ≡ some RunState.done
unfolding program state_at
final_state = refl

abbrev any_run : Run
any_run = record {
  id = 0;
  business_id = 0;
  goal = "";
  channels = [];
  state = done;
  resumed_count = 0;
  finished_reason = none;
  current_node = none;
  checkpoint = none;
}

abbrev row_of : Option Run → Run
row_of (some run) = run
row_of none = any_run

abbrev final_row : Run
unfolding program
final_row = row_of (find_run 1 final_world.store.runs)

final-IsOver : IsOver 1 final_row final_world
unfolding program
final-IsOver = record { stands = refl; alone = tt }

abbrev requests : List Action
requests =
    resumes 1 7 false
    ∷ approves 1 "bob" 7
    ∷ starts 2 7 "" [] false
    ∷ rejects 1 7 "no"
    ∷ works 0
    ∷ []

empty-IsAlone : IsAlone (empty_world 2).executor
unfolding program
empty-IsAlone run_id = omega arith

publishes_only_approved_example :
    IsBacked
      (approvals lower say (select_runtime "langgraph" (engine 25) nodes) past_gate (empty_world 2))
      (perform_all lower say
        (select_runtime "langgraph" (engine 25) nodes)
        past_gate
        (empty_world 2))
publishes_only_approved_example =
    publishes_only_approved lower say "langgraph" (engine 25) nodes 2 past_gate
      (engine-IsFaithful 25) nodes-Leaves

finished_stays_example : IsOver 1 final_row (perform_all lower say runtime requests final_world)
unfolding program
finished_stays_example =
    finished_stays 1 final_row (inl refl) lower say runtime requests final_world refl final-IsOver

one_task_example : IsAlone (perform_all lower say runtime to_gate (empty_world 2)).executor
unfolding program
one_task_example = one_task lower say runtime to_gate (empty_world 2) refl empty-IsAlone

approval_repeats_example :
    (again : World) × (approve_run 1 "bob" 7 executing ≡ ok again)
    × (count 1 again.executor.tasks ≡ count 1 parked.executor.tasks + 2)
approval_repeats_example = approval_repeats 1 "ann" "bob" 7 parked executing executing_eq

abbrev driven_task : Task
driven_task = record {
  run_id = 1;
  business_id = 7;
  goal = "more tea";
  resume = true;
  phase = driven exported;
}

rejection_overwritten_example :
    (checkpointed final : Store) × (row : Run) × (save driven_task exported rejected_world.store
      ≡ (some (saved exported), checkpointed))
    × (conclude say driven_task exported checkpointed ≡ (none, final))
    × (find_run 1 final.runs ≡ some row)
    × (row.state ≡ row_outcome exported.state.outcome)
unfolding program
rejection_overwritten_example =
    rejection_overwritten 1 7 "no" say driven_world rejected_world driven_task exported rejected_eq
      refl refl

-- The row of a run whose process is gone, before another process that executes nothing.
abbrev stranded : World
unfolding program
stranded =
    record (perform_all lower say runtime (starts 1 7 "more tea" [] false ∷ works 0 ∷ [])
      (empty_world 2)) { executor = (empty_world 2).executor }

abbrev stranded_run : Run
stranded_run = elim (find_run 1 stranded.store.runs) [ some run ↦ run | none ↦ any_run ]

resume_run-Decides_example : resume_run 1 7 false stranded ≡ ok (resubmit stranded_run 7 stranded)
unfolding program
resume_run-Decides_example =
    (resume_run-Decides 1 7 false stranded (resubmit stranded_run 7 stranded)).1 (
      stranded_run,
      record {
        own = record { found = refl; owner = refl };
        unfinished = refl;
        idle = refl;
        unparked = refl;
        affordable = refl;
      },
      refl,
    )
