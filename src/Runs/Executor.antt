-- ===== src/Runs/Executor.antt =====
-- backend/app/services/run_executor.py: `RunExecutor`. A task is one coroutine of `_guarded`, and a
-- phase is what it does between two of its awaits. Its store is the one in memory, and the events
-- that it drains stand in Runs/Events. A UUID is a number here.
pub mod Changes
use socio_seo_agent.Prelude.{
  ℕ, zero, suc, ◌+◌, String, Bool, true, false, not, ◌&&◌, ◌||◌, Option, none, some, List, [], ◌∷◌,
  ◌++◌, ◌==◌, ltb, any, str_eq, if◌then◌else◌, Result, ok, err,
}
use socio_seo_agent.Json.{
  Json, Fields, null, bool, num, text, arr, obj, nil, cons, end, field, insert,
}
use socio_seo_agent.Channels.{normalise_channels, json_of}
use socio_seo_agent.Agent.State.{AgentState, RunCaps, NodeName, Outcome, Reason, new_state}
use socio_seo_agent.Agent.Driver.{GraphResult, Nodes, run_graph}
use socio_seo_agent.Agent.StateGraph.{Ainvoke, run_state_graph}
use socio_seo_agent.Runs.{Run, RunState, Store, done, failed, partial, finish}
use socio_seo_agent.Runs.Service.{find_run, checkpoint, await_approval, mark_resumed, restore}

-- The defaults of `RunCaps`; money is in units of 1e-8 USD.
abbrev pub default_caps : RunCaps
default_caps = record { max_steps = 14; max_usd = 50_000_000; max_validate_loops = 2 }

-- One driver, with the dependencies and the nodes that are built for the run: the result, or the
-- text of the exception.
abbrev pub Runtime : Type 0
Runtime = Bool → AgentState → Result String GraphResult

unfoldable pub builtin : Nodes → Runtime
unfolding run_graph
builtin nodes resume state = elim (run_graph nodes none resume state) [
  | some report ↦ ok report.result
  | none ↦ err "RuntimeError"
]

unfoldable pub compiled : Ainvoke → Nodes → Runtime
unfolding run_state_graph
compiled ainvoke nodes resume state = elim (run_state_graph ainvoke nodes none resume state) [
  | some report ↦ ok report.result
  | none ↦ err "GraphRecursionError"
]

-- The driver by its configured name, with the nodes that it drives.
unfoldable pub select_runtime : String → Ainvoke → Nodes → Runtime
unfolding builtin compiled
select_runtime resolved ainvoke nodes =
    if str_eq resolved "builtin" then builtin nodes else compiled ainvoke nodes

pub data Phase : Type 0 where
  waiting : Phase
  driving : AgentState → Phase
  driven : GraphResult → Phase
  saved : GraphResult → Phase
  crashed : String → Phase

pub record Task : Type 0 where
  pub run_id : ℕ
  pub business_id : ℕ
  pub goal : String
  pub resume : Bool
  pub phase : Phase

pub record Executor : Type 0 where
  pub max_concurrent : ℕ
  pub live : List ℕ
  pub tasks : List Task

unfoldable pub add_live : ℕ → List ℕ → List ℕ
add_live run_id live = if any (λ k. k == run_id) live then live else live ++ run_id ∷ []

unfoldable pub discard : ℕ → List ℕ → List ℕ
discard run_id [] = []
discard run_id (k ∷ live) = let rest = discard run_id live in if k == run_id then rest else k ∷ rest

unfoldable pub is_running : ℕ → Executor → Bool
is_running run_id executor = any (λ k. k == run_id) executor.live

unfoldable pub task_of : ℕ → ℕ → String → Bool → Task
task_of run_id business_id goal resume = record {
  run_id = run_id;
  business_id = business_id;
  goal = goal;
  resume = resume;
  phase = waiting;
}

unfoldable pub submit : ℕ → ℕ → String → Bool → Executor → Executor
unfolding add_live task_of
submit run_id business_id goal resume executor = record executor {
  live = add_live run_id executor.live;
  tasks = executor.tasks ++ task_of run_id business_id goal resume ∷ [];
}

-- A task that waits does not hold the semaphore.
unfoldable pub holds : Task → Bool
holds task = elim task.phase [ waiting ↦ false | _ ↦ true ]

unfoldable pub holders : List Task → ℕ
unfolding holds
holders [] = 0
holders (task ∷ tasks) = (if holds task then 1 else 0) + holders tasks

unfoldable pub row_outcome : Outcome → RunState
row_outcome Outcome.done = done
row_outcome Outcome.failed = failed
row_outcome Outcome.partial = partial
row_outcome _ = done

-- visited[-1] if visited else None
unfoldable pub last_visited : List NodeName → Option NodeName
last_visited [] = none
last_visited (node ∷ []) = some node
last_visited (node ∷ visited) = last_visited visited

unfoldable pub stored_channels : Option Run → Json
unfolding json_of
stored_channels (some run) = arr (json_of run.channels)
stored_channels none = null

-- What becomes of a task, and the store behind it; `none` is its end.
abbrev pub Advance : Type 0
Advance = Option Phase × Store

abbrev pub key_error : String
key_error = "KeyError"

-- `lower` is `str.lower`.
module _ (lower : String → String) where
  -- `new_state` with all of its keys.
  unfoldable pub fresh_state : ℕ → String → ℕ → Json → AgentState
  unfolding new_state normalise_channels json_of
  fresh_state business_id goal run_id channels =
      new_state
        (field "business_id" (num business_id) (
          field "run_id" (num run_id) (
            field "goal" (text goal) (
              field "surfaces" (arr (cons (text "google") nil)) (
                field "channels" (arr (json_of (normalise_channels lower channels))) (
                  field "dna" (obj end) (
                    field "remembered" (arr nil) (
                      field "facts" (obj end) (
                        field "fact_gaps" (arr nil) (
                          field "opportunity" null (
                            field "outline" null (
                              field "draft" null (
                                field "distribution" null (
                                  field "renderings" (obj end) (
                                    field "seo_report" null (
                                      field "claim_check" null (
                                        field "approved_by" null (
                                          field "published" null (
                                            field "measurement" null (
                                              field "retrieval_traces" (arr nil)
                                                end))))))))))))))))))))
        default_caps

  unfoldable pub resumed_state : Task → Option AgentState → Store → Option (AgentState × Store)
  unfolding fresh_state mark_resumed insert
  resumed_state task none s = some (fresh_state task.business_id task.goal task.run_id null, s)
  resumed_state task (some restored) s = elim (mark_resumed task.run_id s) [
    | some marked ↦
        some (
          record restored { contents = insert "run_id" (num task.run_id) restored.contents },
          marked,
        )
    | none ↦ none
  ]

  -- `_initial_state`; `none` is a KeyError.
  unfoldable pub initial_state : Task → Store → Option (AgentState × Store)
  unfolding find_run stored_channels resumed_state restore
  initial_state task s =
      if task.resume
      then resumed_state task (restore task.run_id s) s
      else some (
        fresh_state task.business_id task.goal task.run_id
            (stored_channels (find_run task.run_id s.runs)),
        s,
      )

  unfoldable pub begin : Task → Store → Advance
  unfolding initial_state
  begin task s = elim (initial_state task s) [
    | some started ↦ (some (driving started.0), started.1)
    | none ↦ (some (crashed key_error), s)
  ]

unfoldable pub drive : Runtime → Task → AgentState → Store → Advance
drive runtime task state s = elim (runtime task.resume state) [
  | ok result ↦ (some (driven result), s)
  | err message ↦ (some (crashed message), s)
]

unfoldable pub save : Task → GraphResult → Store → Advance
unfolding checkpoint last_visited
save task result s =
    elim (checkpoint task.run_id result.state (last_visited result.state.visited) s) [
      | some changed ↦ (some (saved result), changed)
      | none ↦ (some (crashed key_error), s)
    ]

-- `say` is the sentence of a reason.
module _ (say : Reason → String) where
  unfoldable pub said : Option Reason → Option String
  said (some reason) = some (say reason)
  said none = none

  unfoldable pub settle : Task → GraphResult → Store → Option Store
  unfolding await_approval row_outcome said finish
  settle task result s =
      if result.interrupted
      then await_approval task.run_id s
      else finish task.run_id (row_outcome result.state.outcome) (said result.state.finished_reason)
          s

  unfoldable pub conclude : Task → GraphResult → Store → Advance
  unfolding settle
  conclude task result s = elim (settle task result s) [
    | some changed ↦ (none, changed)
    | none ↦ (some (crashed key_error), s)
  ]

-- Recording the failure can fail too, and is then only logged.
unfoldable pub record_failure : Task → String → Store → Advance
unfolding finish
record_failure task message s = elim (finish task.run_id failed (some message) s) [
  | some changed ↦ (none, changed)
  | none ↦ (none, s)
]

module _ (lower : String → String) (say : Reason → String) (runtime : Runtime) where
  unfoldable pub advance_in : Task → Phase → Store → Advance
  unfolding begin drive save conclude record_failure
  advance_in task waiting s = begin lower task s
  advance_in task (driving state) s = drive runtime task state s
  advance_in task (driven result) s = save task result s
  advance_in task (saved result) s = conclude say task result s
  advance_in task (crashed message) s = record_failure task message s

  unfoldable pub advance : Task → Store → Advance
  unfolding advance_in
  advance task s = advance_in task task.phase s
