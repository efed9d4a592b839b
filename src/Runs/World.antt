-- ===== src/Runs/World.antt =====
-- The routes of backend/app/api/runs.py and the tasks of backend/app/services/run_executor.py,
-- interleaved: one action is one request, or one task's way to its next await.
pub mod Backing
pub mod Approved
pub mod Finished
pub mod Alone
pub mod Overruled
mod Samples
use socio_seo_agent.Prelude.{
  ℕ, zero, suc, String, Bool, true, false, not, ◌&&◌, ◌||◌, Option, none, some, List, [], ◌∷◌, ◌++◌,
  ◌==◌, ltb, if◌then◌else◌, Result, ok, err,
}
use socio_seo_agent.Agent.State.{Reason}
use socio_seo_agent.Runs.{Store}
use socio_seo_agent.Runs.Executor.{Runtime, Task, Phase, Executor, discard, holds, holders, advance}
use socio_seo_agent.Runs.Routes.{
  World, Refusal, start_run, resume_run, approve_run, reject_run, approver_name,
}

pub data Action : Type 0 where
  starts :
      (run_id business_id : ℕ) (goal : String) (channels : List String) (exceeded : Bool) → Action
  resumes : (run_id business_id : ℕ) (exceeded : Bool) → Action
  approves : (run_id : ℕ) (user : String) (business_id : ℕ) → Action
  rejects : (run_id business_id : ℕ) (reason : String) → Action
  works : (n : ℕ) → Action

-- A refused request changes nothing.
unfoldable pub behind : World → Result Refusal World → World
behind w (ok changed) = changed
behind w (err refusal) = w

unfoldable pub may_work : ℕ → List Task → Task → Bool
unfolding holds holders
may_work max_concurrent tasks task = holds task || ltb (holders tasks) max_concurrent

-- The tasks and the store behind a task's work, and the run that its end takes out of `_live`.
pub record Worked : Type 0 where
  pub tasks : List Task
  pub store : Store
  pub ended : Option ℕ

unfoldable pub worked : Task → List Task → Option Phase × Store → Worked
worked task rest (some phase, s) = record {
  tasks = record task { phase = phase } ∷ rest;
  store = s;
  ended = none;
}
worked task rest (none, s) = record { tasks = rest; store = s; ended = some task.run_id }

unfoldable pub behind_end : Option ℕ → List ℕ → List ℕ
unfolding discard
behind_end (some run_id) live = discard run_id live
behind_end none live = live

-- An approval that a request was granted.
pub record Approval : Type 0 where
  pub run_id : ℕ
  pub approver : String

module _ (lower : String → String) (say : Reason → String) (runtime : Runtime) where
  unfoldable pub work_one : Bool → Task → List Task → Store → Worked
  unfolding worked advance
  work_one allowed task rest s =
      if allowed
      then worked task rest (advance lower say runtime task s)
      else record { tasks = task ∷ rest; store = s; ended = none }

  -- The nth task's work. `allowed` says whether the semaphore lets a task on.
  unfoldable pub work_nth : (Task → Bool) → ℕ → List Task → Store → Worked
  unfolding work_one
  work_nth allowed n [] s = record { tasks = []; store = s; ended = none }
  work_nth allowed zero (task ∷ rest) s = work_one (allowed task) task rest s
  work_nth allowed (suc n) (task ∷ rest) s =
      let later = work_nth allowed n rest s in record later { tasks = task ∷ later.tasks }

  unfoldable pub work_on : Executor → Worked → World
  unfolding behind_end
  work_on executor later = record {
    store = later.store;
    executor = record executor { live = behind_end later.ended executor.live; tasks = later.tasks };
  }

  unfoldable pub perform : Action → World → World
  unfolding behind start_run resume_run approve_run reject_run work_on work_nth may_work
  perform (starts run_id business_id goal channels exceeded) w =
      behind w (start_run run_id business_id goal channels exceeded w)
  perform (resumes run_id business_id exceeded) w =
      behind w (resume_run run_id business_id exceeded w)
  perform (approves run_id user business_id) w = behind w (approve_run run_id user business_id w)
  perform (rejects run_id business_id reason) w = behind w (reject_run run_id business_id reason w)
  perform (works n) w =
      work_on w.executor
        (work_nth (may_work w.executor.max_concurrent w.executor.tasks) n w.executor.tasks w.store)

  unfoldable pub perform_all : List Action → World → World
  unfolding perform
  perform_all [] w = w
  perform_all (action ∷ actions) w = perform_all actions (perform action w)

  -- The approvals that the requests of a sequence were granted.
  unfoldable pub granted : Action → World → List Approval
  unfolding approve_run approver_name
  granted (approves run_id user business_id) w = elim (approve_run run_id user business_id w) [
    | ok changed ↦ record { run_id = run_id; approver = approver_name user } ∷ []
    | err refusal ↦ []
  ]
  granted action w = []

  unfoldable pub approvals : List Action → World → List Approval
  unfolding perform granted
  approvals [] w = []
  approvals (action ∷ actions) w = granted action w ++ approvals actions (perform action w)

unfoldable pub empty_world : ℕ → World
empty_world max_concurrent = record {
  store = record { runs = []; events = [] };
  executor = record { max_concurrent = max_concurrent; live = []; tasks = [] };
}
