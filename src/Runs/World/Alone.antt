-- ===== src/Runs/World/Alone.antt =====
-- At most one task on a run.
use socio_seo_agent.Prelude.{
  ℕ, zero, suc, ◌+◌, ◌≤◌, String, ◌≡◌, refl, ap, sym, ◌∙◌, Bool, true, false, not, ◌&&◌, ◌||◌,
  Option, none, some, List, [], ◌∷◌, ◌++◌, ◌==◌, any, any-append, if◌then◌else◌, arith, inl, inr,
  Bool-cases, Result, ok, err,
}
use mathlib.Core.Path.{subst}
use socio_seo_agent.Agent.State.{Reason}
use socio_seo_agent.Runs.{Store}
use socio_seo_agent.Runs.Executor.{
  Runtime, Task, Phase, Executor, advance, submit, task_of, add_live, discard, is_running,
}
use socio_seo_agent.Runs.Service.Rows.{find_run-id}
use socio_seo_agent.Runs.Routes.{World, Refusal, resubmit}
use socio_seo_agent.Runs.Routes.Granted.{
  start_run_eq, resume_run-IsResumable, approve_run-IsApproved, reject_run-IsRejected,
}
use socio_seo_agent.Runs.World.{
  Action, starts, resumes, approves, rejects, works, behind, behind_end, worked, work_one, work_nth,
  work_on, may_work, perform, perform_all,
}

-- How many tasks work on a run.
unfoldable pub count : ℕ → List Task → ℕ
count run_id [] = 0
count run_id (task ∷ tasks) = (if task.run_id == run_id then 1 else 0) + count run_id tasks

-- A run has at most one task, and none where the executor does not list it.
unfoldable pub IsAlone : Executor → Type 0
unfolding count is_running
IsAlone executor =
    (run_id : ℕ) → count run_id executor.tasks ≤ (if is_running run_id executor then 1 else 0)

-- The request's run has no task: a new run's identifier is new, and no run is approved while it is
-- executing.
unfoldable pub is_single : Action → World → Bool
unfolding is_running
is_single (starts run_id business_id goal channels exceeded) w = not (is_running run_id w.executor)
is_single (approves run_id user business_id) w = not (is_running run_id w.executor)
is_single action w = true

module _ (lower : String → String) (say : Reason → String) (runtime : Runtime) where
  unfoldable pub all_single : List Action → World → Bool
  unfolding is_single perform
  all_single [] w = true
  all_single (action ∷ actions) w =
      is_single action w && all_single actions (perform lower say runtime action w)

count-append :
    (run_id : ℕ) (xs ys : List Task) → count run_id (xs ++ ys) ≡ count run_id xs + count run_id ys
unfolding count
count-append run_id [] ys = omega arith
count-append run_id (task ∷ xs) ys = ground (arith, count-append run_id xs ys)

is_live : ℕ → List ℕ → Bool
is_live j live = any (λ k. k == j) live

is_live-discard :
    (j k : ℕ) (live : List ℕ) → is_live j (discard k live) ≡ (not (k == j) && is_live j live)
unfolding is_live discard
is_live-discard j k [] = ground arith
is_live-discard j k (x ∷ live) = ground (arith, is_live-discard j k live)

submitted_live :
    (run_id business_id : ℕ) (goal : String) (resume : Bool) (executor : Executor) (j : ℕ)
    → is_running run_id executor ≡ false
    → is_running j (submit run_id business_id goal resume executor)
      ≡ (is_running j executor || (run_id == j))
unfolding submit add_live is_running
submitted_live run_id business_id goal resume executor j idle = rw idle (
    any-append (λ k. k == j) executor.live (run_id ∷ [])
    ∙ ap (λ b. any (λ k. k == j) executor.live || b) (or_false (run_id == j)))
  where
    or_false : (b : Bool) → (b || false) ≡ b
    or_false true = refl
    or_false false = refl

pub submitted_count :
    (run_id business_id : ℕ) (goal : String) (resume : Bool) (executor : Executor) (j : ℕ)
    → count j (submit run_id business_id goal resume executor).tasks
      ≡ count j executor.tasks + (if run_id == j then 1 else 0)
unfolding submit task_of count
submitted_count run_id business_id goal resume executor j =
    count-append j executor.tasks (task_of run_id business_id goal resume ∷ []) ∙ omega arith

submit-IsAlone :
    (run_id business_id : ℕ) (goal : String) (resume : Bool) (executor : Executor)
    → is_running run_id executor ≡ false
    → IsAlone executor
    → IsAlone (submit run_id business_id goal resume executor)
unfolding IsAlone
submit-IsAlone run_id business_id goal resume executor idle alone j =
    let a = alone j in
    let none_yet : count run_id executor.tasks ≤ 0 =
      subst (λ b. count run_id executor.tasks ≤ (if b then 1 else 0)) idle (alone run_id) in
    rw (submitted_live run_id business_id goal resume executor j idle) (
      rw (submitted_count run_id business_id goal resume executor j)
        (elim (Bool-cases (run_id == j)) [
          | inl same ↦
              let e : run_id ≡ j = ground arith in
              let none_here : count j executor.tasks ≤ 0 =
                subst (λ n. count n executor.tasks ≤ 0) e none_yet in
              ground arith
          | inr other ↦ ground arith
        ]))

-- How many of a run's tasks have ended.
ended_count : ℕ → Option ℕ → ℕ
ended_count run_id none = 0
ended_count run_id (some k) = if k == run_id then 1 else 0

worked_count :
    (task : Task) (rest : List Task) (behind : Option Phase × Store) (j : ℕ)
    → count j (task ∷ rest)
      ≡ count j (worked task rest behind).tasks + ended_count j (worked task rest behind).ended
unfolding worked count ended_count
worked_count task rest (some phase, s) j = omega arith
worked_count task rest (none, s) j = omega arith

module _ (lower : String → String) (say : Reason → String) (runtime : Runtime) where
  work_one_count :
      (allowed : Bool) (task : Task) (rest : List Task) (s : Store) (j : ℕ)
      → count j (task ∷ rest)
        ≡ count j (work_one lower say runtime allowed task rest s).tasks
          + ended_count j (work_one lower say runtime allowed task rest s).ended
  unfolding work_one ended_count
  work_one_count true task rest s j = worked_count task rest (advance lower say runtime task s) j
  work_one_count false task rest s j = omega arith

  work_nth_count :
      (allowed : Task → Bool) (n : ℕ) (tasks : List Task) (s : Store) (j : ℕ)
      → count j tasks
        ≡ count j (work_nth lower say runtime allowed n tasks s).tasks
          + ended_count j (work_nth lower say runtime allowed n tasks s).ended
  unfolding work_nth count ended_count
  work_nth_count allowed n [] s j = omega arith
  work_nth_count allowed zero (task ∷ rest) s j = work_one_count (allowed task) task rest s j
  work_nth_count allowed (suc n) (task ∷ rest) s j =
      omega (arith, work_nth_count allowed n rest s j)

  -- The end of a run's one task takes the run off the list.
  ended-IsAlone :
      (executor : Executor) (tasks : List Task) (ended : Option ℕ)
      → ((j : ℕ) → count j executor.tasks ≡ count j tasks + ended_count j ended)
      → IsAlone executor
      → IsAlone (record executor { live = behind_end ended executor.live; tasks = tasks })
  unfolding IsAlone behind_end ended_count is_running is_live
  ended-IsAlone executor tasks none c alone j = omega (arith, c j, alone j)
  ended-IsAlone executor tasks (some k) c alone j =
      let e = c j in let a = alone j in let l = is_live-discard j k executor.live in ground arith

  behind-IsAlone :
      (w : World) (answer : Result Refusal World)
      → ((changed : World) → answer ≡ ok changed → IsAlone changed.executor)
      → IsAlone w.executor
      → IsAlone (behind w answer).executor
  unfolding behind
  behind-IsAlone w (ok changed) granted alone = granted changed refl
  behind-IsAlone w (err refusal) granted alone = alone

  perform-IsAlone :
      (action : Action) (w : World)
      → is_single action w ≡ true
      → IsAlone w.executor
      → IsAlone (perform lower say runtime action w).executor
  unfolding perform is_single resubmit work_on
  perform-IsAlone (starts run_id business_id goal channels exceeded) w single alone =
      behind-IsAlone w _
        (λ changed h.
          subst (λ (u : World). IsAlone u.executor)
            (sym (start_run_eq run_id business_id goal channels exceeded w changed h))
            (submit-IsAlone run_id business_id goal false w.executor (ground arith) alone))
        alone
  perform-IsAlone (resumes run_id business_id exceeded) w single alone =
      behind-IsAlone w _
        (λ changed h.
          let (run, r, after) = resume_run-IsResumable run_id business_id exceeded w changed h in
          subst (λ (u : World). IsAlone u.executor) (sym after)
            (submit-IsAlone run.id business_id run.goal true w.executor r.idle alone))
        alone
  perform-IsAlone (approves run_id user business_id) w single alone =
      behind-IsAlone w _
        (λ changed h.
          let a = approve_run-IsApproved run_id user business_id w changed h in
          subst (λ (u : World). IsAlone u.executor) (sym a.after)
            (submit-IsAlone a.run.id business_id a.run.goal true w.executor
              (ap (λ n. is_running n w.executor) (find_run-id run_id w.store.runs a.run a.own.found)
                ∙ ground arith)
              alone))
        alone
  perform-IsAlone (rejects run_id business_id reason) w single alone =
      behind-IsAlone w _
        (λ changed h.
          subst (λ (u : World). IsAlone u.executor)
            (sym (reject_run-IsRejected run_id business_id reason w changed h).after) alone)
        alone
  perform-IsAlone (works n) w single alone =
      ended-IsAlone w.executor _ _
        (work_nth_count (may_work w.executor.max_concurrent w.executor.tasks) n w.executor.tasks
          w.store)
        alone

  -- No run has two tasks: of requests and tasks' work in any order, where a new run's identifier is
  -- not one that is executing and no run is approved while it is, each run has at most one task, and
  -- the executor lists every run that has one. So `resume_run` never puts a second task on a run.
  pub one_task :
      (actions : List Action) (w : World)
      → all_single lower say runtime actions w ≡ true
      → IsAlone w.executor
      → IsAlone (perform_all lower say runtime actions w).executor
  unfolding perform_all all_single
  one_task [] w single alone = alone
  one_task (action ∷ actions) w single alone =
      one_task actions (perform lower say runtime action w) (ground arith)
        (perform-IsAlone action w (ground arith) alone)
