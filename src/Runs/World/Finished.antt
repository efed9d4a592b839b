-- ===== src/Runs/World/Finished.antt =====
-- A run that is over.
use socio_seo_agent.Prelude.{
  ℕ, zero, suc, String, ◌≡◌, refl, ap, sym, ◌∙◌, Bool, true, false, not, ◌&&◌, Option, none, some,
  ◌⊎◌, List, [], ◌∷◌, ◌==◌, All, All-append, arith, inl, inr, Bool-cases, Result, ok, err,
}
use mathlib.Core.Path.{subst}
use mathlib.Core.Option.{some-injective}
use socio_seo_agent.Agent.State.{Reason}
use socio_seo_agent.Runs.{Run, RunState, Store}
use socio_seo_agent.Runs.Service.{find_run, start, create, queued_run}
use socio_seo_agent.Runs.Service.Rows.{find_run-id, find_run-put_run, find_run-change}
use socio_seo_agent.Runs.Executor.{Runtime, Task, Phase, Executor, advance, submit, task_of}
use socio_seo_agent.Runs.Executor.Changes.{advance-Touches, touched_elsewhere, finish-IsChange}
use socio_seo_agent.Runs.Routes.{
  World, Refusal, is_finished, is_parked, resubmit, start_run, resume_run, approve_run, reject_run,
}
use socio_seo_agent.Runs.Routes.Granted.{
  start_run_eq, resume_run-IsResumable, approve_run-IsApproved, reject_run-IsRejected,
}
use socio_seo_agent.Runs.World.{
  Action, starts, resumes, approves, rejects, works, behind, Worked, worked, work_one, work_nth,
  work_on, may_work, perform, perform_all,
}

-- The states that a run ends in.
abbrev pub IsFinal : RunState → Type 0
IsFinal state =
    (state ≡ RunState.done)
    ⊎ (state ≡ RunState.failed)
    ⊎ (state ≡ RunState.partial)
    ⊎ (state ≡ RunState.rejected)

final_finished : (state : RunState) → IsFinal state → is_finished state ≡ true
unfolding is_finished
final_finished state h = ground arith

-- No request of the sequence is given the identifier again: uuid4 does not repeat.
unfoldable pub never_starts : ℕ → List Action → Bool
never_starts run_id [] = true
never_starts run_id (starts other business_id goal channels exceeded ∷ actions) =
    not (other == run_id) && never_starts run_id actions
never_starts run_id (action ∷ actions) = never_starts run_id actions

-- The row stands as it is, and no task works on it.
pub record IsOver (run_id : ℕ) (row : Run) (w : World) : Type 0 where
  pub stands : find_run run_id w.store.runs ≡ some row
  pub alone : All (λ task. (task.run_id == run_id) ≡ false) w.executor.tasks

module _ (run_id : ℕ) (row : Run) where
  abbrev Elsewhere : Task → Type 0
  Elsewhere task = (task.run_id == run_id) ≡ false

  abbrev Stands : Store → Type 0
  Stands s = find_run run_id s.runs ≡ some row

  -- A run that a request names by a state that the row is not in is another run.
  other_run :
      (j : ℕ) (run : Run) (s : Store) (test : RunState → Bool)
      → Stands s
      → find_run j s.runs ≡ some run
      → test run.state ≡ true
      → test row.state ≡ false
      → (run.id == run_id) ≡ false
  other_run j run s test stands found t f = elim (Bool-cases (run.id == run_id)) [
    | inl same ↦ absurd (clash (same_run same))
    | inr other ↦ other
  ]
    where
      same_run : (run.id == run_id) ≡ true → run ≡ row
      same_run same =
          let i : run.id ≡ run_id = ground arith in
          some-injective run row (
            sym found
            ∙ ap (λ n. find_run n s.runs) (sym (find_run-id j s.runs run found) ∙ i)
            ∙ stands)

      clash : run ≡ row → ⊥
      clash e = ground (arith, ap (λ (r : Run). test r.state) e)

  started_elsewhere :
      (j business_id : ℕ) (goal : String) (channels : List String) (s : Store)
      → (j == run_id) ≡ false
      → Stands s
      → Stands (start j business_id goal channels s)
  unfolding start create queued_run
  started_elsewhere j business_id goal channels s other stands =
      find_run-put_run (queued_run j business_id goal channels) s.runs run_id ∙ rw other stands

  submitted-Elsewhere :
      (j business_id : ℕ) (goal : String) (resume : Bool) (executor : Executor)
      → (j == run_id) ≡ false
      → All Elsewhere executor.tasks
      → All Elsewhere (submit j business_id goal resume executor).tasks
  unfolding submit task_of
  submitted-Elsewhere j business_id goal resume executor other tasks =
      All-append Elsewhere executor.tasks _ tasks (other, tt)

  resubmitted :
      (run : Run) (business_id : ℕ) (w : World)
      → (run.id == run_id) ≡ false
      → IsOver run_id row w
      → IsOver run_id row (resubmit run business_id w)
  unfolding resubmit
  resubmitted run business_id w other over = record {
    stands = over.stands;
    alone = submitted-Elsewhere run.id business_id run.goal true w.executor other over.alone;
  }

  -- What the tasks' work leaves.
  abbrev WorkedOver : Worked → Type 0
  WorkedOver later = All Elsewhere later.tasks × Stands later.store

  worked-Over :
      (task : Task) (rest : List Task) (behind : Option Phase × Store)
      → Elsewhere task
      → All Elsewhere rest
      → Stands behind.1
      → WorkedOver (worked task rest behind)
  unfolding worked
  worked-Over task rest (some phase, s) h others stands = ((h, others), stands)
  worked-Over task rest (none, s) h others stands = (others, stands)

  module _ (lower : String → String) (say : Reason → String) (runtime : Runtime) where
    work_one-Over :
        (allowed : Bool) (task : Task) (rest : List Task) (s : Store)
        → Elsewhere task
        → All Elsewhere rest
        → Stands s
        → WorkedOver (work_one lower say runtime allowed task rest s)
    unfolding work_one
    work_one-Over true task rest s h others stands =
        worked-Over task rest (advance lower say runtime task s) h others (
          touched_elsewhere task.run_id run_id s _ h (advance-Touches lower say runtime task s)
          ∙ stands)
    work_one-Over false task rest s h others stands = ((h, others), stands)

    work_nth-Over :
        (allowed : Task → Bool) (n : ℕ) (tasks : List Task) (s : Store)
        → All Elsewhere tasks
        → Stands s
        → WorkedOver (work_nth lower say runtime allowed n tasks s)
    unfolding work_nth
    work_nth-Over allowed n [] s h stands = (tt, stands)
    work_nth-Over allowed zero (task ∷ rest) s h stands =
        work_one-Over (allowed task) task rest s h.0 h.1 stands
    work_nth-Over allowed (suc n) (task ∷ rest) s h stands =
        let (others, kept) = work_nth-Over allowed n rest s h.1 stands in ((h.0, others), kept)

  behind-IsOver :
      (w : World) (answer : Result Refusal World)
      → ((changed : World) → answer ≡ ok changed → IsOver run_id row changed)
      → IsOver run_id row w
      → IsOver run_id row (behind w answer)
  unfolding behind
  behind-IsOver w (ok changed) granted over = granted changed refl
  behind-IsOver w (err refusal) granted over = over

  module _ (final : IsFinal row.state) where
    finished : is_finished row.state ≡ true
    finished = final_finished row.state final

    unparked : is_parked row.state ≡ false
    unfolding is_finished is_parked
    unparked = ground arith

    start-IsOver :
        (j business_id : ℕ) (goal : String) (channels : List String) (exceeded : Bool)
        (w changed : World)
        → (j == run_id) ≡ false
        → IsOver run_id row w
        → start_run j business_id goal channels exceeded w ≡ ok changed
        → IsOver run_id row changed
    start-IsOver j business_id goal channels exceeded w changed other over h =
        subst (IsOver run_id row)
          (sym (start_run_eq j business_id goal channels exceeded w changed h))
          record {
            stands = started_elsewhere j business_id goal channels w.store other over.stands;
            alone = submitted-Elsewhere j business_id goal false w.executor other over.alone;
          }

    resume-IsOver :
        (j business_id : ℕ) (exceeded : Bool) (w changed : World)
        → IsOver run_id row w
        → resume_run j business_id exceeded w ≡ ok changed
        → IsOver run_id row changed
    resume-IsOver j business_id exceeded w changed over h =
        let (run, r, after) = resume_run-IsResumable j business_id exceeded w changed h in
        let other =
          other_run j run w.store (λ state. not (is_finished state)) over.stands r.own.found
            (ap not r.unfinished) (ap not finished) in
        subst (IsOver run_id row) (sym after) (resubmitted run business_id w other over)

    approve-IsOver :
        (j : ℕ) (user : String) (business_id : ℕ) (w changed : World)
        → IsOver run_id row w
        → approve_run j user business_id w ≡ ok changed
        → IsOver run_id row changed
    approve-IsOver j user business_id w changed over h =
        let a = approve_run-IsApproved j user business_id w changed h in
        let other = other_run j a.run w.store is_parked over.stands a.own.found a.parked unparked in
        subst (IsOver run_id row) (sym a.after) (
          resubmitted a.run business_id (record w { store = a.store }) other
            record {
              stands =
                  find_run-change a.run.id _ w.store a.store run_id (record { id = λ run. refl })
                    a.stored
                  ∙ rw other over.stands;
              alone = over.alone;
            })

    reject-IsOver :
        (j business_id : ℕ) (reason : String) (w changed : World)
        → IsOver run_id row w
        → reject_run j business_id reason w ≡ ok changed
        → IsOver run_id row changed
    reject-IsOver j business_id reason w changed over h =
        let r = reject_run-IsRejected j business_id reason w changed h in
        let other = other_run j r.run w.store is_parked over.stands r.own.found r.parked unparked in
        subst (IsOver run_id row) (sym r.after) record {
          stands =
              touched_elsewhere r.run.id run_id w.store r.store other (
                inr (
                  finish-IsChange r.run.id RunState.rejected (some reason) w.store r.store
                    r.stored))
              ∙ over.stands;
          alone = over.alone;
        }

    module _ (lower : String → String) (say : Reason → String) (runtime : Runtime) where
      work-IsOver :
          (n : ℕ) (w : World)
          → IsOver run_id row w
          → IsOver run_id row (perform lower say runtime (works n) w)
      unfolding perform work_on
      work-IsOver n w over =
          let (tasks, stands) =
            work_nth-Over lower say runtime (may_work w.executor.max_concurrent w.executor.tasks) n
              w.executor.tasks w.store over.alone over.stands in
          record { stands = stands; alone = tasks }

      -- A run that is over stays as it is: once a row is done, failed, partial or rejected and no task
      -- of its run is left, no request and no task's work, in any order, changes the row or puts a task
      -- on the run again, so long as no new run is given its identifier.
      pub finished_stays :
          (actions : List Action) (w : World)
          → never_starts run_id actions ≡ true
          → IsOver run_id row w
          → IsOver run_id row (perform_all lower say runtime actions w)
      unfolding perform_all perform never_starts
      finished_stays [] w never over = over
      finished_stays (starts j business_id goal channels exceeded ∷ actions) w never over =
          finished_stays actions (behind w (start_run j business_id goal channels exceeded w))
            (ground arith)
            (behind-IsOver w _
              (λ changed h.
                start-IsOver j business_id goal channels exceeded w changed (ground arith) over h)
              over)
      finished_stays (resumes j business_id exceeded ∷ actions) w never over =
          finished_stays actions (behind w (resume_run j business_id exceeded w)) never (
            behind-IsOver w _ (λ changed h. resume-IsOver j business_id exceeded w changed over h)
              over)
      finished_stays (approves j user business_id ∷ actions) w never over =
          finished_stays actions (behind w (approve_run j user business_id w)) never (
            behind-IsOver w _ (λ changed h. approve-IsOver j user business_id w changed over h)
              over)
      finished_stays (rejects j business_id reason ∷ actions) w never over =
          finished_stays actions (behind w (reject_run j business_id reason w)) never (
            behind-IsOver w _ (λ changed h. reject-IsOver j business_id reason w changed over h)
              over)
      finished_stays (works n ∷ actions) w never over =
          finished_stays actions (perform lower say runtime (works n) w) never
            (work-IsOver n w over)
