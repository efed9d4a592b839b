-- ===== src/Runs/World/Approved.antt =====
-- The requests, and any sequence of requests and tasks' work, keep every approver backed.
use socio_seo_agent.Prelude.{
  ℕ, String, ◌≡◌, refl, ap, sym, ◌∙◌, Bool, true, false, none, some, List, [], ◌∷◌, ◌++◌, ◌==◌,
  any-append, All, All-append, eq_refl, arith, inl, inr, Bool-cases, Result, ok, err, Result-cases,
  append_assoc, append-nil,
}
use mathlib.Core.Path.{subst}
use mathlib.Core.Option.{some-injective}
use socio_seo_agent.Json.{text, get-insert}
use socio_seo_agent.Strings.{strip}
use socio_seo_agent.Agent.State.{AgentState, Reason}
use socio_seo_agent.Agent.Driver.{Nodes}
use socio_seo_agent.Agent.Driver.Keys.{Leaves}
use socio_seo_agent.Agent.StateGraph.{Ainvoke}
use socio_seo_agent.Agent.StateGraph.Keys.{IsFaithful}
use socio_seo_agent.Runs.{Run, RunState, Store}
use socio_seo_agent.Runs.Service.{start, create, queued_run, find_run}
use socio_seo_agent.Runs.Service.Rows.{Rows, change-Rows, find_run-put_run, find_run-id}
use socio_seo_agent.Runs.Executor.{select_runtime, Runtime, Executor, submit, task_of}
use socio_seo_agent.Runs.Routes.{
  World, Refusal, start_run, resume_run, approve_run, reject_run, resubmit, approver_name,
}
use socio_seo_agent.Runs.Routes.Granted.{
  approved, start_run_eq, resume_run-IsResumable, approve_run-IsApproved, reject_run-IsRejected,
}
use socio_seo_agent.Runs.World.{
  Action, starts, resumes, approves, rejects, works, behind, may_work, work_on, empty_world,
  Approval, perform, perform_all, granted, approvals,
}
use socio_seo_agent.Runs.World.Backing.{
  names, is_backed, KeepsApproval, select_runtime-KeepsApproval, StateBacked, RowBacked, TaskBacked,
  IsBacked, IsBacked-mono,
}
use socio_seo_agent.Runs.World.Backing.Kept.{finish-Backed}
use socio_seo_agent.Runs.World.Backing.Tasks.{work_nth-Backed}

started-Rows :
    (given : List Approval) (run_id business_id : ℕ) (goal : String) (channels : List String)
    (s : Store)
    → Rows (RowBacked given) s
    → Rows (RowBacked given) (start run_id business_id goal channels s)
unfolding start create queued_run
started-Rows given run_id business_id goal channels s rows j run e state c =
    elim (Bool-cases (run_id == j)) [
      | inl new ↦ absurd (empty_checkpoint new)
      | inr old ↦ rows j run (found old) state c
    ]
  where
    row : Run
    row = queued_run run_id business_id goal channels

    empty_checkpoint : run_id == j ≡ true → ⊥
    empty_checkpoint new =
        let q = sym (find_run-put_run row s.runs j ∙ rw new refl) ∙ e in
        none_some (ap (λ (r : Run). r.checkpoint) (some-injective row run q) ∙ c)
      where
        none_some : none ≡ some state → ⊥
        none_some e = cc

    found : run_id == j ≡ false → find_run j s.runs ≡ some run
    found old = sym (find_run-put_run row s.runs j ∙ rw old refl) ∙ e

submitted_tasks :
    (given : List Approval) (run_id business_id : ℕ) (goal : String) (resume : Bool)
    (executor : Executor)
    → All (TaskBacked given) executor.tasks
    → All (TaskBacked given) (submit run_id business_id goal resume executor).tasks
unfolding submit task_of
submitted_tasks given run_id business_id goal resume executor tasks =
    All-append (TaskBacked given) executor.tasks _ tasks (tt, tt)

start-Backed :
    (given : List Approval) (run_id business_id : ℕ) (goal : String) (channels : List String)
    (exceeded : Bool) (w changed : World)
    → start_run run_id business_id goal channels exceeded w ≡ ok changed
    → IsBacked given w
    → IsBacked given changed
start-Backed given run_id business_id goal channels exceeded w changed h (rows, tasks) =
    subst (IsBacked given)
      (sym (start_run_eq run_id business_id goal channels exceeded w changed h))
      (
        started-Rows given run_id business_id goal channels w.store rows,
        submitted_tasks given run_id business_id goal false w.executor tasks,
      )

resubmit-Backed :
    (given : List Approval) (run : Run) (business_id : ℕ) (w : World)
    → IsBacked given w
    → IsBacked given (resubmit run business_id w)
unfolding resubmit
resubmit-Backed given run business_id w (rows, tasks) =
    (rows, submitted_tasks given run.id business_id run.goal true w.executor tasks)

resume-Backed :
    (given : List Approval) (run_id business_id : ℕ) (exceeded : Bool) (w changed : World)
    → resume_run run_id business_id exceeded w ≡ ok changed
    → IsBacked given w
    → IsBacked given changed
resume-Backed given run_id business_id exceeded w changed h b =
    let (run, _, after) = resume_run-IsResumable run_id business_id exceeded w changed h in
    subst (IsBacked given) (sym after) (resubmit-Backed given run business_id w b)

granted_backed :
    (given : List Approval) (run_id : ℕ) (user : String) (state : AgentState)
    → StateBacked
        (given ++ record { run_id = run_id; approver = approver_name user } ∷ [])
        run_id
        (approved state user)
unfolding is_backed names
granted_backed given run_id user state =
    let a =
      any-append (names run_id (some (text (strip (approver_name user))))) given
        (record { run_id = run_id; approver = approver_name user } ∷ []) in
    let e = eq_refl (strip (approver_name user)) in
    rw (get-insert "approved_by" "approved_by" (text (strip (approver_name user))) state.contents)
      (ground arith)

approve-Backed :
    (given : List Approval) (run_id : ℕ) (user : String) (business_id : ℕ) (w changed : World)
    → approve_run run_id user business_id w ≡ ok changed
    → IsBacked given w
    → IsBacked (given ++ record { run_id = run_id; approver = approver_name user } ∷ []) changed
approve-Backed given run_id user business_id w changed h b =
    let more : List Approval =
      given ++ record { run_id = run_id; approver = approver_name user } ∷ [] in
    let a = approve_run-IsApproved run_id user business_id w changed h in
    let (rows, tasks) =
      IsBacked-mono given (record { run_id = run_id; approver = approver_name user } ∷ []) w b in
    subst (IsBacked more) (sym a.after) (
      resubmit-Backed more a.run business_id (record w { store = a.store })
        (
          change-Rows (RowBacked more) a.run.id _ w.store a.store (record { id = λ run. refl })
              (λ run _ _ saved e. subst (StateBacked more a.run.id) (some-injective _ _ e) (
                subst (λ n. StateBacked more n (approved a.state user))
                  (sym (find_run-id run_id w.store.runs a.run a.own.found))
                  (granted_backed given run_id user a.state)))
              a.stored rows,
          tasks,
        ))

reject-Backed :
    (given : List Approval) (run_id business_id : ℕ) (reason : String) (w changed : World)
    → reject_run run_id business_id reason w ≡ ok changed
    → IsBacked given w
    → IsBacked given changed
reject-Backed given run_id business_id reason w changed h (rows, tasks) =
    let r = reject_run-IsRejected run_id business_id reason w changed h in
    subst (IsBacked given) (sym r.after) (
      finish-Backed given r.run.id RunState.rejected (some reason) w.store r.store r.stored rows,
      tasks,
    )

behind-IsBacked :
    (given : List Approval) (w : World) (answer : Result Refusal World)
    → ((changed : World) → answer ≡ ok changed → IsBacked given changed)
    → IsBacked given w
    → IsBacked given (behind w answer)
unfolding behind
behind-IsBacked given w (ok changed) keeps b = keeps changed refl
behind-IsBacked given w (err refusal) keeps b = b

module _ (lower : String → String) (say : Reason → String) (runtime : Runtime)
    (keeps : KeepsApproval runtime) where
  perform-IsBacked :
      (given : List Approval) (action : Action) (w : World)
      → IsBacked given w
      → IsBacked (given ++ granted lower say runtime action w) (perform lower say runtime action w)
  unfolding perform granted work_on
  perform-IsBacked given (starts run_id business_id goal channels exceeded) w b = rw append-nil (
      behind-IsBacked given w _
        (λ changed h. start-Backed given run_id business_id goal channels exceeded w changed h b) b)
  perform-IsBacked given (resumes run_id business_id exceeded) w b = rw append-nil (
      behind-IsBacked given w _
        (λ changed h. resume-Backed given run_id business_id exceeded w changed h b) b)
  perform-IsBacked given (approves run_id user business_id) w b =
      elim (Result-cases (approve_run run_id user business_id w)) [
        | inl (changed, e) ↦
            rw (e, granted, perform, behind)
              (approve-Backed given run_id user business_id w changed e b)
        | inr (refusal, e) ↦ rw (e, granted, perform, behind) (rw append-nil b)
      ]
  perform-IsBacked given (rejects run_id business_id reason) w b = rw append-nil (
      behind-IsBacked given w _
        (λ changed h. reject-Backed given run_id business_id reason w changed h b) b)
  perform-IsBacked given (works n) w (rows, tasks) =
      let (tasks', rows') =
        work_nth-Backed given lower say runtime
          (may_work w.executor.max_concurrent w.executor.tasks) n w.executor.tasks w.store keeps
          tasks rows in
      rw append-nil (rows', tasks')

  perform_all-IsBacked :
      (given : List Approval) (actions : List Action) (w : World)
      → IsBacked given w
      → IsBacked
          (given ++ approvals lower say runtime actions w)
          (perform_all lower say runtime actions w)
  unfolding perform_all approvals
  perform_all-IsBacked given [] w b = rw append-nil b
  perform_all-IsBacked given (action ∷ actions) w b =
      subst
        (λ l.
          IsBacked l (perform_all lower say runtime actions (perform lower say runtime action w)))
        (append_assoc given (granted lower say runtime action w) _)
        (perform_all-IsBacked (given ++ granted lower say runtime action w) actions
          (perform lower say runtime action w) (perform-IsBacked given action w b))

-- Nothing is published without a person's approval: whatever the requests, the tasks and their
-- interleaving since the process started on an empty store, with either driver, and nodes that never
-- write the key `approved_by`, every state that a task drives or has driven and every checkpoint on
-- which EXPORT would find an approver names one that `approve_run` granted, for that run, in the
-- sequence.
pub publishes_only_approved :
    (lower : String → String) (say : Reason → String) (resolved : String) (ainvoke : Ainvoke)
    (nodes : Nodes) (max_concurrent : ℕ) (actions : List Action)
    → IsFaithful ainvoke
    → Leaves nodes "approved_by"
    → IsBacked
        (approvals lower say
          (select_runtime resolved ainvoke nodes)
          actions
          (empty_world max_concurrent))
        (perform_all lower say
          (select_runtime resolved ainvoke nodes)
          actions
          (empty_world max_concurrent))
unfolding empty_world find_run
publishes_only_approved lower say resolved ainvoke nodes max_concurrent actions faithful leaves =
    perform_all-IsBacked lower say (select_runtime resolved ainvoke nodes)
      (select_runtime-KeepsApproval nodes leaves resolved ainvoke faithful) [] actions
      (empty_world max_concurrent) (λ run_id run e. cc, tt)
