-- ===== src/Runs/World/Overruled.antt =====
-- Decisions on a run that is executing: what a second approval, and a rejection, come to.
use socio_seo_agent.Prelude.{
  ℕ, ◌+◌, String, ◌≡◌, refl, ap, sym, ◌∙◌, true, false, Option, none, some, arith, ok,
}
use mathlib.Core.Path.{subst}
use socio_seo_agent.Agent.State.{Reason}
use socio_seo_agent.Agent.Driver.{GraphResult}
use socio_seo_agent.Runs.{Run, RunState, Store, rejected, finish, clamp_reason}
use socio_seo_agent.Runs.Service.{find_run, change, checkpoint}
use socio_seo_agent.Runs.Service.Rows.{KeepsId, find_run-id, change_known}
use socio_seo_agent.Runs.Executor.{
  Task, saved, save, conclude, settle, row_outcome, last_visited, said,
}
use socio_seo_agent.Runs.Routes.{World, resubmit, approve_run, reject_run}
use socio_seo_agent.Runs.Routes.Granted.{approved, approve_run-IsApproved, reject_run-IsRejected}
use socio_seo_agent.Runs.Routes.Decisions.{approval_granted, changed_row}
use socio_seo_agent.Runs.World.Alone.{count, submitted_count}

submitted_once :
    (run : Run) (run_id business_id : ℕ) (w : World)
    → run.id ≡ run_id
    → count run_id (resubmit run business_id w).executor.tasks ≡ count run_id w.executor.tasks + 1
unfolding resubmit
submitted_once run run_id business_id w i =
    submitted_count run.id business_id run.goal true w.executor run_id ∙ ground arith

-- An approval can be repeated: right behind one that was granted, another of the same run by the same
-- business is granted as well, and one more task works on the run.
pub approval_repeats :
    (run_id : ℕ) (first second : String) (business_id : ℕ) (w changed : World)
    → approve_run run_id first business_id w ≡ ok changed
    → (again : World) × (approve_run run_id second business_id changed ≡ ok again)
      × (count run_id again.executor.tasks ≡ count run_id w.executor.tasks + 2)
unfolding resubmit
approval_repeats run_id first second business_id w changed h =
    let a = approve_run-IsApproved run_id first business_id w changed h in
    let i = find_run-id run_id w.store.runs a.run a.own.found in
    let state = approved a.state first in
    let row : Run = record a.run { checkpoint = some state } in
    let keeps : KeepsId (λ row. record row { checkpoint = some state }) = record {
      id = λ run. refl;
    } in
    let found = changed_row run_id _ w.store a.store a.run keeps a.own.found a.stored in
    let middle : World = resubmit a.run business_id (record w { store = a.store }) in
    let (store, stored) =
      change_known row.id (λ row. record row { checkpoint = some (approved state second) }) a.store
        row (ap (λ n. find_run n a.store.runs) i ∙ found) in
    subst
      (λ (u : World).
        (again : World) × (approve_run run_id second business_id u ≡ ok again)
        × (count run_id again.executor.tasks ≡ count run_id w.executor.tasks + 2))
      (sym a.after)
      (
        resubmit row business_id (record middle { store = store }),
        approval_granted run_id second business_id middle row state store
            (record { found = found; owner = a.own.owner }) a.parked refl stored,
        submitted_once row run_id business_id (record middle { store = store }) i
            ∙ ap (λ n. n + 1)
                (submitted_once a.run run_id business_id (record w { store = a.store }) i)
            ∙ omega arith,
      )

abbrev finished_row : RunState → Option String → Run → Run
finished_row outcome reason run = record run {
  state = outcome;
  finished_reason = clamp_reason reason;
}

abbrev checkpointed_row : GraphResult → Run → Run
checkpointed_row result run = record run {
  checkpoint = some result.state;
  current_node = last_visited result.state.visited;
  state = RunState.running;
}

finish-change :
    (run_id : ℕ) (outcome : RunState) (reason : Option String) (s : Store)
    → finish run_id outcome reason s ≡ change run_id (finished_row outcome reason) s
unfolding finish change
finish-change run_id outcome reason s = refl

save_known :
    (task : Task) (result : GraphResult) (s : Store) (run : Run)
    → find_run task.run_id s.runs ≡ some run
    → (t : Store) × (save task result s ≡ (some (saved result), t))
      × (find_run task.run_id t.runs ≡ some (checkpointed_row result run))
unfolding save checkpoint
save_known task result s run found =
    let i = find_run-id task.run_id s.runs run found in
    let (t, e) = change_known task.run_id (checkpointed_row result) s run found in
    (
      t,
      rw (e, save, checkpoint) refl,
      changed_row task.run_id (checkpointed_row result) s t run (record { id = λ run. refl }) found
          (ap (λ n. change n (checkpointed_row result) s) i ∙ e),
    )

conclude_known :
    (say : Reason → String) (task : Task) (result : GraphResult) (s : Store) (run : Run)
    → result.interrupted ≡ false
    → find_run task.run_id s.runs ≡ some run
    → (t : Store) × (conclude say task result s ≡ (none, t))
      × (find_run task.run_id t.runs
          ≡ some (
              finished_row
                (row_outcome result.state.outcome)
                (said say result.state.finished_reason)
                run))
unfolding conclude settle
conclude_known say task result s run over found =
    let outcome = row_outcome result.state.outcome in
    let reason = said say result.state.finished_reason in
    let i = find_run-id task.run_id s.runs run found in
    let (t, e) = change_known task.run_id (finished_row outcome reason) s run found in
    (
      t,
      rw (over, finish-change task.run_id outcome reason s, e, conclude, settle) refl,
      changed_row task.run_id (finished_row outcome reason) s t run (record { id = λ run. refl })
          found (ap (λ n. change n (finished_row outcome reason) s) i ∙ e),
    )

-- A rejection does not stand where a task has driven the run to an end: the task, whose result is no
-- interrupt, checkpoints the rejected row and finishes it with the outcome of its own run.
pub rejection_overwritten :
    (run_id business_id : ℕ) (reason : String) (say : Reason → String) (w changed : World)
    (task : Task) (result : GraphResult)
    → reject_run run_id business_id reason w ≡ ok changed
    → task.run_id ≡ run_id
    → result.interrupted ≡ false
    → (checkpointed final : Store) × (row : Run) × (save task result changed.store
        ≡ (some (saved result), checkpointed))
      × (conclude say task result checkpointed ≡ (none, final))
      × (find_run run_id final.runs ≡ some row)
      × (row.state ≡ row_outcome result.state.outcome)
rejection_overwritten run_id business_id reason say w changed task result h t over =
    let r = reject_run-IsRejected run_id business_id reason w changed h in
    let rejected_row =
      changed_row run_id (finished_row rejected (some reason)) w.store r.store r.run
        (record { id = λ run. refl }) r.own.found
        (sym (finish-change r.run.id rejected (some reason) w.store) ∙ r.stored) in
    let found =
      ap (λ n. find_run n changed.store.runs) t
      ∙ ap (λ (u : World). find_run run_id u.store.runs) r.after
      ∙ rejected_row in
    let (checkpointed, saves, kept) =
      save_known task result changed.store (finished_row rejected (some reason) r.run) found in
    let (final, concludes, ends) = conclude_known say task result checkpointed _ over kept in
    (checkpointed, final, _, saves, concludes, ap (λ n. find_run n final.runs) (sym t) ∙ ends, refl)
