-- ===== src/Runs/World/Backing.antt =====
-- What lets EXPORT publish: `approved_by` of the state (backend/app/agents/nodes/__init__.py), and the
-- approvals that it may come from.
pub mod Kept
pub mod Tasks
use socio_seo_agent.Prelude.{
  ℕ, zero, suc, String, ◌≡◌, refl, ap, sym, ◌∙◌, Bool, true, false, not, ◌&&◌, ◌||◌, Option, none,
  some, List, [], ◌∷◌, ◌++◌, ◌==◌, any, any-append, All, All-append, str_eq, eq_refl, eq_iff,
  if◌then◌else◌, arith, inl, inr, Bool-cases, Option-cases, Result, ok, err, Result-cases,
  append_assoc, append-nil,
}
use mathlib.Core.Path.{subst}
use mathlib.Core.Option.{some-injective}
use socio_seo_agent.Json.{Json, Fields, null, num, text, get, insert, truthy, get-insert}
use socio_seo_agent.Strings.{is_blank, strip}
use socio_seo_agent.Agent.State.{AgentState, Reason, NodeName}
use socio_seo_agent.Agent.State as State
use socio_seo_agent.Agent.Driver.{GraphResult, Nodes, run_graph}
use socio_seo_agent.Agent.StateGraph.{Ainvoke, run_state_graph}
use socio_seo_agent.Agent.StateGraph.Keys.{IsFaithful, run_state_graph_keeps}
use socio_seo_agent.Agent.Driver.Keys.{Leaves, run_graph_keeps}
use socio_seo_agent.Runs.{Run, RunState, Store, finish, clamp_reason}
use socio_seo_agent.Runs.Service.{
  start, create, queued_run, find_run, change, checkpoint, await_approval, mark_resumed, restore,
  record_approval,
}
use socio_seo_agent.Runs.Service.Rows.{KeepsId, Rows, change-Rows, find_run-put_run, find_run-id}
use socio_seo_agent.Runs.Executor.{
  Runtime, builtin, compiled, select_runtime, Task, Phase, waiting, driving, driven, saved, crashed,
  Executor, fresh_state, initial_state, advance, begin, drive, save, conclude, record_failure,
  settle, stored_channels, last_visited, resumed_state, advance_in, submit, task_of, row_outcome,
  said,
}
use socio_seo_agent.Runs.Routes.{
  World, Refusal, start_run, resume_run, approve_run, reject_run, resubmit, approver_name,
}
use socio_seo_agent.Runs.Routes.Granted.{
  approved, start_run_eq, IsResumable, resume_run-IsResumable, IsApproved, approve_run-IsApproved,
  IsRejected, reject_run-IsRejected,
}
use socio_seo_agent.Runs.World.{
  Action, starts, resumes, approves, rejects, works, behind, may_work, work_on, empty_world, Worked,
  worked, work_one, work_nth, Approval, perform, perform_all, granted, approvals,
}

-- EXPORT's approver is not blank: bool(str(state.get("approved_by") or "").strip()).
unfoldable pub is_authorised : Option Json → Bool
unfolding truthy is_blank
is_authorised (some (text s)) = not (is_blank s)
is_authorised (some v) = truthy v
is_authorised none = false

-- The approver that a state names is one of an approval of the run.
unfoldable pub names : ℕ → Option Json → Approval → Bool
unfolding strip
names run_id (some (text s)) approval =
    approval.run_id == run_id && str_eq s (strip approval.approver)
names run_id v approval = false

unfoldable pub is_backed : List Approval → ℕ → Option Json → Bool
unfolding is_authorised names
is_backed approvals run_id v = not (is_authorised v) || any (names run_id v) approvals

abbrev pub approved_by : AgentState → Option Json
approved_by state = get "approved_by" state.contents

pub is_backed_mono :
    (xs ys : List Approval) (run_id : ℕ) (v : Option Json)
    → is_backed xs run_id v ≡ true
    → is_backed (xs ++ ys) run_id v ≡ true
unfolding is_backed
is_backed_mono xs ys run_id v h = ground (arith, any-append (names run_id v) xs ys)

-- Neither driver writes the key: no node does.
pub record KeepsApproval (runtime : Runtime) : Type 0 where
  pub keeps :
      (resume : Bool) (state : AgentState) (result : GraphResult)
      → runtime resume state ≡ ok result
      → approved_by result.state ≡ approved_by state

-- Either driver leaves the key, where the nodes never write it.
module _ (nodes : Nodes) (leaves : Leaves nodes "approved_by") where
  builtin-KeepsApproval : KeepsApproval (builtin nodes)
  unfolding builtin
  builtin-KeepsApproval = record {
    keeps = λ resume state result h. elim (Option-cases (run_graph nodes none resume state)) [
      | inl e ↦ absurd (ground arith)
      | inr (report, e) ↦
          let same : report.result ≡ result = ground arith in
          ap (λ (r : GraphResult). approved_by r.state) (sym same)
          ∙ run_graph_keeps nodes "approved_by" leaves none resume state report e
    ];
  }

  compiled-KeepsApproval :
      (ainvoke : Ainvoke) → IsFaithful ainvoke → KeepsApproval (compiled ainvoke nodes)
  unfolding compiled
  compiled-KeepsApproval ainvoke faithful = record {
    keeps = λ resume state result h.
        elim (Option-cases (run_state_graph ainvoke nodes none resume state)) [
          | inl e ↦ absurd (ground arith)
          | inr (report, e) ↦
              let same : report.result ≡ result = ground arith in
              ap (λ (r : GraphResult). approved_by r.state) (sym same)
              ∙ run_state_graph_keeps nodes "approved_by" leaves ainvoke resume state report
                  faithful e
        ];
  }

  pub select_runtime-KeepsApproval :
      (resolved : String) (ainvoke : Ainvoke)
      → IsFaithful ainvoke
      → KeepsApproval (select_runtime resolved ainvoke nodes)
  unfolding select_runtime
  select_runtime-KeepsApproval resolved ainvoke faithful =
      elim (Bool-cases (str_eq resolved "builtin")) [
        | inl e ↦ rw (e, select_runtime) builtin-KeepsApproval
        | inr e ↦ rw (e, select_runtime) (compiled-KeepsApproval ainvoke faithful)
      ]

module _ (given : List Approval) where
  abbrev pub StateBacked : ℕ → AgentState → Type 0
  StateBacked run_id state = is_backed given run_id (approved_by state) ≡ true

  abbrev pub RowBacked : ℕ → Run → Type 0
  RowBacked run_id run =
      (state : AgentState) → run.checkpoint ≡ some state → StateBacked run_id state

  abbrev pub PhaseBacked : ℕ → Phase → Type 0
  PhaseBacked run_id (driving state) = StateBacked run_id state
  PhaseBacked run_id (driven result) = StateBacked run_id result.state
  PhaseBacked run_id (saved result) = StateBacked run_id result.state
  PhaseBacked run_id phase = Unit

  abbrev pub TaskBacked : Task → Type 0
  TaskBacked task = PhaseBacked task.run_id task.phase

-- Every task and every checkpoint of the world.
abbrev pub IsBacked : List Approval → World → Type 0
IsBacked given w = Rows (RowBacked given) w.store × All (TaskBacked given) w.executor.tasks

TaskBacked-mono :
    (xs ys : List Approval) (task : Task) → TaskBacked xs task → TaskBacked (xs ++ ys) task
TaskBacked-mono xs ys task h = phase_mono task.phase h
  where
    phase_mono :
        (phase : Phase)
        → PhaseBacked xs task.run_id phase
        → PhaseBacked (xs ++ ys) task.run_id phase
    phase_mono waiting h = tt
    phase_mono (driving state) h = is_backed_mono xs ys task.run_id (approved_by state) h
    phase_mono (driven result) h = is_backed_mono xs ys task.run_id (approved_by result.state) h
    phase_mono (saved result) h = is_backed_mono xs ys task.run_id (approved_by result.state) h
    phase_mono (crashed message) h = tt

All_mono :
    (xs ys : List Approval) (tasks : List Task)
    → All (TaskBacked xs) tasks
    → All (TaskBacked (xs ++ ys)) tasks
All_mono xs ys [] h = tt
All_mono xs ys (task ∷ tasks) h = (TaskBacked-mono xs ys task h.0, All_mono xs ys tasks h.1)

pub IsBacked-mono : (xs ys : List Approval) (w : World) → IsBacked xs w → IsBacked (xs ++ ys) w
IsBacked-mono xs ys w (rows, tasks) = (
  λ run_id run e state c.
      is_backed_mono xs ys run_id (approved_by state) (rows run_id run e state c),
  All_mono xs ys w.executor.tasks tasks,
)
