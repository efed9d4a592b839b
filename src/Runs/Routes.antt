-- ===== src/Runs/Routes.antt =====
-- backend/app/api/runs.py: the routes that start, resume, approve and reject a run, over the store
-- and the executor of one process; and their interleavings with the executor's tasks.
-- Whether the month's ceiling is exceeded is an argument: it is `monthly_cap_state` of the ledger.
pub mod Granted
pub mod Decisions
use socio_seo_agent.Prelude.{
  ℕ, zero, suc, String, Bool, true, false, not, ◌&&◌, ◌||◌, Option, none, some, List, [], ◌∷◌, ◌++◌,
  ◌==◌, ltb, if◌then◌else◌, Result, ok, err,
}
use socio_seo_agent.Agent.State.{Reason}
use socio_seo_agent.Strings.{concat}
use socio_seo_agent.Runs.{
  Run, RunState, Store, queued, running, awaiting_approval, done, failed, partial, rejected, finish,
}
use socio_seo_agent.Runs.Service.{find_run, start, record_approval}
use socio_seo_agent.Runs.Executor.{
  Runtime, Task, Phase, Executor, submit, is_running, discard, holds, holders, advance,
}

pub record World : Type 0 where
  pub store : Store
  pub executor : Executor

-- The HTTPException's code, with the state that it names; and an exception of the service.
pub data Refusal : Type 0 where
  monthly_cap_exceeded run_not_found run_already_executing run_awaiting_approval no_checkpoint
        internal_error :
      Refusal
  run_finished run_not_awaiting_approval : RunState → Refusal

unfoldable pub is_finished : RunState → Bool
is_finished done = true
is_finished failed = true
is_finished partial = true
is_finished rejected = true
is_finished _ = false

unfoldable pub is_parked : RunState → Bool
is_parked awaiting_approval = true
is_parked _ = false

unfoldable pub require_own_run : ℕ → ℕ → Store → Result Refusal Run
unfolding find_run
require_own_run run_id business_id s = elim (find_run run_id s.runs) [
  | some run ↦ if run.business_id == business_id then ok run else err run_not_found
  | none ↦ err run_not_found
]

-- `run_id` is what uuid4 returns.
unfoldable pub start_run : ℕ → ℕ → String → List String → Bool → World → Result Refusal World
unfolding start submit
start_run run_id business_id goal channels exceeded w =
    if exceeded
    then err monthly_cap_exceeded
    else ok (record {
      store = start run_id business_id goal channels w.store;
      executor = submit run_id business_id goal false w.executor;
    })

-- executor.submit(run.id, business_id, run.goal, resume=True)
unfoldable pub resubmit : Run → ℕ → World → World
unfolding submit
resubmit run business_id w = record w {
  executor = submit run.id business_id run.goal true w.executor;
}

unfoldable pub resume_checked : Run → ℕ → Bool → World → Result Refusal World
unfolding is_finished is_running is_parked resubmit
resume_checked run business_id exceeded w =
    if is_finished run.state
    then err (run_finished run.state)
    else if is_running run.id w.executor
    then err run_already_executing
    else if is_parked run.state
    then err run_awaiting_approval
    else if exceeded
    then err monthly_cap_exceeded
    else ok (resubmit run business_id w)

unfoldable pub resume_run : ℕ → ℕ → Bool → World → Result Refusal World
unfolding require_own_run resume_checked
resume_run run_id business_id exceeded w = elim (require_own_run run_id business_id w.store) [
  | ok run ↦ resume_checked run business_id exceeded w
  | err refusal ↦ err refusal
]

-- f"user:{user.id}"
unfoldable pub approver_name : String → String
unfolding concat
approver_name user = concat "user:" user

unfoldable pub approve_recorded : Run → ℕ → Option (Bool × Store) → World → Result Refusal World
unfolding resubmit
approve_recorded run business_id (some (true, s)) w =
    ok (resubmit run business_id (record w { store = s }))
approve_recorded run business_id (some (false, s)) w = err no_checkpoint
approve_recorded run business_id none w = err internal_error

unfoldable pub approve_checked : Run → String → ℕ → World → Result Refusal World
unfolding is_parked approve_recorded record_approval approver_name
approve_checked run user business_id w =
    if is_parked run.state
    then approve_recorded run business_id (record_approval run.id (approver_name user) w.store) w
    else err (run_not_awaiting_approval run.state)

unfoldable pub approve_run : ℕ → String → ℕ → World → Result Refusal World
unfolding require_own_run approve_checked
approve_run run_id user business_id w = elim (require_own_run run_id business_id w.store) [
  | ok run ↦ approve_checked run user business_id w
  | err refusal ↦ err refusal
]

unfoldable pub reject_checked : Run → String → World → Result Refusal World
unfolding is_parked finish
reject_checked run reason w =
    if is_parked run.state
    then elim (finish run.id rejected (some reason) w.store) [
      | some s ↦ ok (record w { store = s })
      | none ↦ err internal_error
    ]
    else err (run_not_awaiting_approval run.state)

unfoldable pub reject_run : ℕ → ℕ → String → World → Result Refusal World
unfolding require_own_run reject_checked
reject_run run_id business_id reason w = elim (require_own_run run_id business_id w.store) [
  | ok run ↦ reject_checked run reason w
  | err refusal ↦ err refusal
]
