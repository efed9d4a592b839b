-- ===== src/Runs/Executor/Changes.antt =====
-- The one row that a task's work may change.
use socio_seo_agent.Prelude.{
  ℕ, String, ◌≡◌, ◌⊎◌, refl, ap, sym, ◌∙◌, false, Option, none, some, ◌==◌, inl, inr, Bool-cases,
  Option-cases, Result-cases,
}
use socio_seo_agent.Agent.State.{AgentState, Reason}
use socio_seo_agent.Agent.Driver.{GraphResult}
use socio_seo_agent.Runs.{Run, RunState, Store, failed, finish}
use socio_seo_agent.Runs.Service.{
  find_run, change, checkpoint, await_approval, mark_resumed, restore,
}
use socio_seo_agent.Runs.Service.Rows.{KeepsId, find_run-change}
use socio_seo_agent.Runs.Executor.{
  Runtime, Task, Phase, waiting, driving, driven, saved, crashed, initial_state, resumed_state,
  begin, drive, save, settle, conclude, record_failure, advance_in, advance, row_outcome, said,
  last_visited,
}

-- The store is the same, but for one change of one row.
pub record IsChange (run_id : ℕ) (s t : Store) : Type 0 where
  pub f : Run → Run
  pub keeps : KeepsId f
  pub changed : change run_id f s ≡ some t

abbrev pub Touches : ℕ → Store → Store → Type 0
Touches run_id s t = (t ≡ s) ⊎ IsChange run_id s t

checkpoint-IsChange :
    (run_id : ℕ) (state : AgentState) (current_node : Option socio_seo_agent.Agent.State.NodeName)
    (s t : Store)
    → checkpoint run_id state current_node s ≡ some t
    → IsChange run_id s t
unfolding checkpoint
checkpoint-IsChange run_id state current_node s t h = record {
  f = _;
  keeps = record { id = λ run. refl };
  changed = h;
}

mark_resumed-IsChange :
    (run_id : ℕ) (s t : Store) → mark_resumed run_id s ≡ some t → IsChange run_id s t
unfolding mark_resumed
mark_resumed-IsChange run_id s t h = record {
  f = _;
  keeps = record { id = λ run. refl };
  changed = h;
}

await_approval-IsChange :
    (run_id : ℕ) (s t : Store) → await_approval run_id s ≡ some t → IsChange run_id s t
unfolding await_approval
await_approval-IsChange run_id s t h = record {
  f = _;
  keeps = record { id = λ run. refl };
  changed = h;
}

pub finish-IsChange :
    (run_id : ℕ) (outcome : RunState) (reason : Option String) (s t : Store)
    → finish run_id outcome reason s ≡ some t
    → IsChange run_id s t
unfolding finish change
finish-IsChange run_id outcome reason s t h = record {
  f = _;
  keeps = record { id = λ run. refl };
  changed = h;
}

StartTouches : ℕ → Store → Option (AgentState × Store) → Type 0
StartTouches run_id s (some started) = Touches run_id s started.1
StartTouches run_id s none = Unit

module _ (lower : String → String) where
  resumed_state-Touches :
      (task : Task) (found : Option AgentState) (s : Store)
      → StartTouches task.run_id s (resumed_state lower task found s)
  unfolding resumed_state StartTouches
  resumed_state-Touches task none s = inl refl
  resumed_state-Touches task (some restored) s = elim (Option-cases (mark_resumed task.run_id s)) [
    | inl e ↦ rw (e, resumed_state) tt
    | inr (marked, e) ↦ rw (e, resumed_state) (inr (mark_resumed-IsChange task.run_id s marked e))
  ]

  initial_state-Touches :
      (task : Task) (s : Store) → StartTouches task.run_id s (initial_state lower task s)
  unfolding initial_state StartTouches
  initial_state-Touches task s = elim (Bool-cases task.resume) [
    | inl resumed ↦
        rw (resumed, initial_state) (resumed_state-Touches task (restore task.run_id s) s)
    | inr fresh ↦ rw (fresh, initial_state) (inl refl)
  ]

  begun :
      (task : Task) (s : Store) (started : Option (AgentState × Store))
      → initial_state lower task s ≡ started
      → StartTouches task.run_id s started
      → Touches task.run_id s (begin lower task s).1
  unfolding begin StartTouches
  begun task s none e touches = rw (e, begin) (inl refl)
  begun task s (some started) e touches = rw (e, begin) touches

module _ (say : Reason → String) where
  settle-IsChange :
      (task : Task) (result : GraphResult) (s t : Store)
      → settle say task result s ≡ some t
      → IsChange task.run_id s t
  unfolding settle
  settle-IsChange task result s t h = elim (Bool-cases result.interrupted) [
    | inl parked ↦ await_approval-IsChange task.run_id s t (sym (rw (parked, settle) refl) ∙ h)
    | inr over ↦
        finish-IsChange task.run_id (row_outcome result.state.outcome)
          (said say result.state.finished_reason) s t (sym (rw (over, settle) refl) ∙ h)
  ]

  conclude-Touches :
      (task : Task) (result : GraphResult) (s : Store)
      → Touches task.run_id s (conclude say task result s).1
  unfolding conclude
  conclude-Touches task result s = elim (Option-cases (settle say task result s)) [
    | inl e ↦ rw (e, conclude) (inl refl)
    | inr (t, e) ↦ rw (e, conclude) (inr (settle-IsChange task result s t e))
  ]

save-Touches :
    (task : Task) (result : GraphResult) (s : Store) → Touches task.run_id s (save task result s).1
unfolding save
save-Touches task result s =
    elim (Option-cases
      (checkpoint task.run_id result.state (last_visited result.state.visited) s)) [
        | inl e ↦ rw (e, save) (inl refl)
        | inr (t, e) ↦ rw (e, save) (inr (checkpoint-IsChange task.run_id result.state _ s t e))
      ]

drive-Touches :
    (runtime : Runtime) (task : Task) (state : AgentState) (s : Store)
    → Touches task.run_id s (drive runtime task state s).1
unfolding drive
drive-Touches runtime task state s = elim (Result-cases (runtime task.resume state)) [
  | inl (result, e) ↦ rw (e, drive) (inl refl)
  | inr (message, e) ↦ rw (e, drive) (inl refl)
]

record_failure-Touches :
    (task : Task) (message : String) (s : Store)
    → Touches task.run_id s (record_failure task message s).1
unfolding record_failure
record_failure-Touches task message s =
    elim (Option-cases (finish task.run_id failed (some message) s)) [
      | inl e ↦ rw (e, record_failure) (inl refl)
      | inr (t, e) ↦
          rw (e, record_failure) (inr (finish-IsChange task.run_id failed (some message) s t e))
    ]

module _ (lower : String → String) (say : Reason → String) (runtime : Runtime) where
  advance_in-Touches :
      (task : Task) (phase : Phase) (s : Store)
      → Touches task.run_id s (advance_in lower say runtime task phase s).1
  unfolding advance_in
  advance_in-Touches task waiting s = begun lower task s _ refl (initial_state-Touches lower task s)
  advance_in-Touches task (driving state) s = drive-Touches runtime task state s
  advance_in-Touches task (driven result) s = save-Touches task result s
  advance_in-Touches task (saved result) s = conclude-Touches say task result s
  advance_in-Touches task (crashed message) s = record_failure-Touches task message s

  pub advance-Touches :
      (task : Task) (s : Store) → Touches task.run_id s (advance lower say runtime task s).1
  unfolding advance
  advance-Touches task s = advance_in-Touches task task.phase s

-- Another run's row is as it was.
pub touched_elsewhere :
    (run_id j : ℕ) (s t : Store)
    → (run_id == j) ≡ false
    → Touches run_id s t
    → find_run j t.runs ≡ find_run j s.runs
touched_elsewhere run_id j s t other (inl same) = ap (λ (u : Store). find_run j u.runs) same
touched_elsewhere run_id j s t other (inr c) =
    find_run-change run_id c.f s t j c.keeps c.changed ∙ rw other refl
