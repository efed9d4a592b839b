-- ===== src/Runs/World/Backing/Tasks.antt =====
-- A task's work keeps every approver backed.
use socio_seo_agent.Prelude.{
  ℕ, zero, suc, String, ◌≡◌, refl, ap, sym, ◌∙◌, Bool, true, false, Option, none, some, List, [],
  ◌∷◌, All, inl, inr, Bool-cases, Option-cases, Result-cases,
}
use socio_seo_agent.Json.{null}
use socio_seo_agent.Agent.State.{AgentState, Reason}
use socio_seo_agent.Agent.Driver.{GraphResult}
use socio_seo_agent.Runs.{RunState, Store, finish}
use socio_seo_agent.Runs.Service.{find_run, checkpoint, await_approval, mark_resumed, restore}
use socio_seo_agent.Runs.Service.Rows.{Rows}
use socio_seo_agent.Runs.Executor.{
  Runtime, Task, Phase, waiting, driving, driven, saved, crashed, initial_state, advance, begin,
  drive, save, conclude, record_failure, settle, stored_channels, last_visited, resumed_state,
  advance_in, row_outcome, said,
}
use socio_seo_agent.Runs.World.{Worked, worked, work_one, work_nth, Approval}
use socio_seo_agent.Runs.World.Backing.{
  is_backed, KeepsApproval, StateBacked, RowBacked, PhaseBacked, TaskBacked,
}
use socio_seo_agent.Runs.World.Backing.Kept.{
  kept_checkpoint, finish-Backed, checkpoint-Backed, fresh-StateBacked, restored_backed,
  restore-Backed, marked-Backed,
}

module _ (given : List Approval) where
  abbrev AdvanceBacked : ℕ → Option Phase × Store → Type 0
  AdvanceBacked run_id (some phase, s) = PhaseBacked given run_id phase × Rows (RowBacked given) s
  AdvanceBacked run_id (none, s) = Rows (RowBacked given) s

  module _ (lower : String → String) (say : Reason → String) where
    StartBacked : ℕ → Option (AgentState × Store) → Type 0
    StartBacked run_id (some started) =
        StateBacked given run_id started.0 × Rows (RowBacked given) started.1
    StartBacked run_id none = Unit

    resumed-Backed :
        (task : Task) (found : Option AgentState) (s : Store)
        → Rows (RowBacked given) s
        → restore task.run_id s ≡ found
        → StartBacked task.run_id (resumed_state lower task found s)
    unfolding resumed_state StartBacked
    resumed-Backed task none s rows h = (
      fresh-StateBacked given lower task.run_id task.business_id task.goal null task.run_id,
      rows,
    )
    resumed-Backed task (some restored) s rows h =
        let backed =
          restored_backed given task.run_id task.run_id restored
            (restore-Backed given task.run_id s restored rows h) in
        elim (Option-cases (mark_resumed task.run_id s)) [
          | inl e ↦ rw (e, resumed_state) tt
          | inr (marked, e) ↦
              rw (e, resumed_state) (backed, marked-Backed given task.run_id s marked e rows)
        ]

    initial-Backed :
        (task : Task) (s : Store)
        → Rows (RowBacked given) s
        → StartBacked task.run_id (initial_state lower task s)
    unfolding initial_state StartBacked
    initial-Backed task s rows = elim (Bool-cases task.resume) [
      | inl resumed ↦
          rw (resumed, initial_state) (resumed-Backed task (restore task.run_id s) s rows refl)
      | inr fresh ↦
          rw (fresh, initial_state)
            (
              fresh-StateBacked given lower task.run_id task.business_id task.goal
                  (stored_channels (find_run task.run_id s.runs)) task.run_id,
              rows,
            )
    ]

    started-Backed :
        (task : Task) (s : Store) (started : Option (AgentState × Store))
        → initial_state lower task s ≡ started
        → StartBacked task.run_id started
        → Rows (RowBacked given) s
        → AdvanceBacked task.run_id (begin lower task s)
    unfolding begin StartBacked
    started-Backed task s none e backed rows = rw (e, begin) (tt, rows)
    started-Backed task s (some started) e backed rows = rw (e, begin) backed

    begin-Backed :
        (task : Task) (s : Store)
        → Rows (RowBacked given) s
        → AdvanceBacked task.run_id (begin lower task s)
    begin-Backed task s rows =
        started-Backed task s (initial_state lower task s) refl (initial-Backed task s rows) rows

    drive-Backed :
        (runtime : Runtime) (task : Task) (state : AgentState) (s : Store)
        → KeepsApproval runtime
        → StateBacked given task.run_id state
        → Rows (RowBacked given) s
        → AdvanceBacked task.run_id (drive runtime task state s)
    unfolding drive
    drive-Backed runtime task state s keeps h rows =
        elim (Result-cases (runtime task.resume state)) [
          | inl (result, e) ↦
              rw (e, drive)
                (
                  ap (is_backed given task.run_id) (keeps.keeps task.resume state result e) ∙ h,
                  rows,
                )
          | inr (message, e) ↦ rw (e, drive) (tt, rows)
        ]

    save-Backed :
        (task : Task) (result : GraphResult) (s : Store)
        → StateBacked given task.run_id result.state
        → Rows (RowBacked given) s
        → AdvanceBacked task.run_id (save task result s)
    unfolding save
    save-Backed task result s h rows =
        elim (Option-cases
          (checkpoint task.run_id result.state (last_visited result.state.visited) s)) [
            | inl e ↦ rw (e, save) (tt, rows)
            | inr (changed, e) ↦
                rw (e, save)
                  (h, checkpoint-Backed given task.run_id result.state _ s changed h e rows)
          ]

    settle-Backed :
        (task : Task) (result : GraphResult) (s changed : Store)
        → settle say task result s ≡ some changed
        → Rows (RowBacked given) s
        → Rows (RowBacked given) changed
    unfolding settle await_approval
    settle-Backed task result s changed e rows = elim (Bool-cases result.interrupted) [
      | inl parked ↦
          kept_checkpoint given task.run_id _ s changed (record { id = λ run. refl }) (λ run. refl)
            (parks parked) rows
      | inr over ↦ finish-Backed given task.run_id _ _ s changed (ends over) rows
    ]
      where
        parks : result.interrupted ≡ true → await_approval task.run_id s ≡ some changed
        parks parked = sym (rw parked refl) ∙ e

        ends :
            result.interrupted ≡ false
            → finish task.run_id
                (row_outcome result.state.outcome)
                (said say result.state.finished_reason)
                s
              ≡ some changed
        ends over = sym (rw over refl) ∙ e

    conclude-Backed :
        (task : Task) (result : GraphResult) (s : Store)
        → StateBacked given task.run_id result.state
        → Rows (RowBacked given) s
        → AdvanceBacked task.run_id (conclude say task result s)
    unfolding conclude
    conclude-Backed task result s h rows = elim (Option-cases (settle say task result s)) [
      | inl e ↦ rw (e, conclude) (tt, rows)
      | inr (changed, e) ↦ rw (e, conclude) (settle-Backed task result s changed e rows)
    ]

    failure-Backed :
        (task : Task) (message : String) (s : Store)
        → Rows (RowBacked given) s
        → AdvanceBacked task.run_id (record_failure task message s)
    unfolding record_failure
    failure-Backed task message s rows =
        elim (Option-cases (finish task.run_id RunState.failed (some message) s)) [
          | inl e ↦ rw (e, record_failure) rows
          | inr (changed, e) ↦
              rw (e, record_failure)
                (finish-Backed given task.run_id RunState.failed (some message) s changed e rows)
        ]

    advance_in-Backed :
        (runtime : Runtime) (task : Task) (phase : Phase) (s : Store)
        → KeepsApproval runtime
        → PhaseBacked given task.run_id phase
        → Rows (RowBacked given) s
        → AdvanceBacked task.run_id (advance_in lower say runtime task phase s)
    unfolding advance_in
    advance_in-Backed runtime task waiting s keeps h rows = begin-Backed task s rows
    advance_in-Backed runtime task (driving state) s keeps h rows =
        drive-Backed runtime task state s keeps h rows
    advance_in-Backed runtime task (driven result) s keeps h rows = save-Backed task result s h rows
    advance_in-Backed runtime task (saved result) s keeps h rows =
        conclude-Backed task result s h rows
    advance_in-Backed runtime task (crashed message) s keeps h rows =
        failure-Backed task message s rows

    advance-Backed :
        (runtime : Runtime) (task : Task) (s : Store)
        → KeepsApproval runtime
        → TaskBacked given task
        → Rows (RowBacked given) s
        → AdvanceBacked task.run_id (advance lower say runtime task s)
    unfolding advance
    advance-Backed runtime task s keeps h rows =
        advance_in-Backed runtime task task.phase s keeps h rows

    -- Of all the tasks, and all the rows.
    abbrev pub WorkedBacked : Worked → Type 0
    WorkedBacked later = All (TaskBacked given) later.tasks × Rows (RowBacked given) later.store

    worked-Backed :
        (task : Task) (rest : List Task) (behind : Option Phase × Store)
        → AdvanceBacked task.run_id behind
        → All (TaskBacked given) rest
        → WorkedBacked (worked task rest behind)
    unfolding worked
    worked-Backed task rest (some phase, s) (h, rows) others = ((h, others), rows)
    worked-Backed task rest (none, s) rows others = (others, rows)

    work_one-Backed :
        (runtime : Runtime) (allowed : Bool) (task : Task) (rest : List Task) (s : Store)
        → KeepsApproval runtime
        → TaskBacked given task
        → All (TaskBacked given) rest
        → Rows (RowBacked given) s
        → WorkedBacked (work_one lower say runtime allowed task rest s)
    unfolding work_one
    work_one-Backed runtime true task rest s keeps h others rows =
        worked-Backed task rest (advance lower say runtime task s)
          (advance-Backed runtime task s keeps h rows) others
    work_one-Backed runtime false task rest s keeps h others rows = ((h, others), rows)

    pub work_nth-Backed :
        (runtime : Runtime) (allowed : Task → Bool) (n : ℕ) (tasks : List Task) (s : Store)
        → KeepsApproval runtime
        → All (TaskBacked given) tasks
        → Rows (RowBacked given) s
        → WorkedBacked (work_nth lower say runtime allowed n tasks s)
    unfolding work_nth
    work_nth-Backed runtime allowed n [] s keeps h rows = (tt, rows)
    work_nth-Backed runtime allowed zero (task ∷ rest) s keeps h rows =
        work_one-Backed runtime (allowed task) task rest s keeps h.0 h.1 rows
    work_nth-Backed runtime allowed (suc n) (task ∷ rest) s keeps h rows =
        let (others, kept) = work_nth-Backed runtime allowed n rest s keeps h.1 rows in
        ((h.0, others), kept)
