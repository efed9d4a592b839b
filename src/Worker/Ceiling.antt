-- ===== src/Worker/Ceiling.antt =====
-- The monthly ceiling before the claim, in backend/app/worker/scheduler.py.
use socio_seo_agent.Prelude.{
  ℕ, zero, suc, ◌≤◌, ◌≡◌, refl, ap, sym, ◌∙◌, Bool, true, false, Option, none, some, List, [], ◌∷◌,
  ◌++◌, arith, leb, All, All-append, Result, ok, err,
}
use mathlib.Core.Path.{subst}
use socio_seo_agent.Worker.{
  Due, Tables, Env, Raised, over_monthly_cap, pause_spent, pause_over_ceiling, claim_row,
  claim_at_time, claim_due, start_due_run, due_automations, goal_of,
}
use socio_seo_agent.Worker.Ticks.{
  Stage, idle, checking, claiming, starting, Ticker, TickReport, next_row, next_stage, after_check,
  after_claim, after_start, proceed_at, begin_tick, empty_report, fresh_ticker, note_failed, Site,
  WorkerAction, begin, proceed, proceed_nth, act, act_all,
}

module _ (env : Env) (b spent : ℕ) (known : env.spend b ≡ some spent) (over : env.cap ≤ spent) where
  -- Nothing of the business was submitted.
  abbrev Unsubmitted : Tables → Type 0
  Unsubmitted w = All (λ s. s.business_id ≡ b → ⊥) w.submitted

  -- A tick is not past the check with the business.
  abbrev StageHeld : Stage → Type 0
  StageHeld idle = Unit
  StageHeld (checking row) = Unit
  StageHeld (claiming row) = row.business_id ≡ b → ⊥
  StageHeld (starting row) = row.business_id ≡ b → ⊥

  abbrev Held : Ticker × Tables → Type 0
  Held reply = StageHeld reply.0.stage × Unsubmitted reply.1

  next_row-held : (report : TickReport) (t : Ticker) → StageHeld (next_row report t).stage
  unfolding next_row next_stage
  next_row-held report t = go t.todo
    where
      go : (rows : List Due) → StageHeld (next_stage rows)
      go [] = tt
      go (row ∷ rows) = tt

  pause_submits :
      (c : ℕ) (w : Tables) (o : Bool) (changed : Tables)
      → pause_over_ceiling env c w ≡ ok (o, changed)
      → changed.submitted ≡ w.submitted
  unfolding pause_over_ceiling pause_spent
  pause_submits c w o changed e = ground arith

  passes_check :
      (c : ℕ) (w changed : Tables) → pause_over_ceiling env c w ≡ ok (false, changed) → c ≡ b → ⊥
  unfolding pause_over_ceiling pause_spent over_monthly_cap
  passes_check c w changed e same =
      let here : env.spend c ≡ some spent = ap env.spend same ∙ known in
      let full : leb env.cap spent ≡ true = ground arith in ground arith

  claim_submits :
      (now : ℕ) (row : Due) (w : Tables) (o : Option ℕ) (changed : Tables)
      → claim_due env now row w ≡ ok (o, changed)
      → changed.submitted ≡ w.submitted
  unfolding claim_due claim_at_time claim_row
  claim_submits now row w o changed e = ground arith

  start_submits :
      (row : Due) (w changed : Tables)
      → start_due_run env row w ≡ ok changed
      → changed.submitted
        ≡ w.submitted
          ++ record {
            run_id = env.uuid w.store;
            business_id = row.business_id;
            goal = goal_of row.automation.goal_template;
          }
            ∷ []
  unfolding start_due_run
  start_submits row w changed e = ground arith

  proceed_at-Held :
      (t : Ticker) (w : Tables) (stage : Stage)
      → StageHeld stage
      → t.stage ≡ stage
      → Unsubmitted w
      → Held (proceed_at env t w stage)
  unfolding proceed_at after_check after_claim after_start
  proceed_at-Held t w idle held e h = (rw e tt, h)
  proceed_at-Held t w (checking row) held e h = go (pause_over_ceiling env row.business_id w) refl
    where
      go :
          (reply : Result Raised (Bool × Tables))
          → pause_over_ceiling env row.business_id w ≡ reply
          → Held (after_check row t w reply)
      go (err x) r = (next_row-held (note_failed row t.report) t, h)
      go (ok (true, changed)) r = (
        next_row-held (record t.report { paused = t.report.paused ++ row.business_id ∷ [] }) t,
        subst (All (λ s. s.business_id ≡ b → ⊥))
            (sym (pause_submits row.business_id w true changed r)) h,
      )
      go (ok (false, changed)) r = (
        passes_check row.business_id w changed r,
        subst (All (λ s. s.business_id ≡ b → ⊥))
            (sym (pause_submits row.business_id w false changed r)) h,
      )
  proceed_at-Held t w (claiming row) held e h = go (claim_due env t.moment row w) refl
    where
      go :
          (reply : Result Raised (Option ℕ × Tables))
          → claim_due env t.moment row w ≡ reply
          → Held (after_claim row t w reply)
      go (err x) r = (next_row-held (note_failed row t.report) t, h)
      go (ok (none, changed)) r = (
        next_row-held t.report t,
        subst (All (λ s. s.business_id ≡ b → ⊥)) (sym (claim_submits t.moment row w none changed r))
            h,
      )
      go (ok (some f, changed)) r = (
        held,
        subst (All (λ s. s.business_id ≡ b → ⊥))
            (sym (claim_submits t.moment row w (some f) changed r)) h,
      )
  proceed_at-Held t w (starting row) held e h = go (start_due_run env row w) refl
    where
      go :
          (reply : Result Raised Tables)
          → start_due_run env row w ≡ reply
          → Held (after_start (env.uuid w.store) row t w reply)
      go (err x) r = (next_row-held (note_failed row t.report) t, h)
      go (ok changed) r = (
        next_row-held (record t.report { started = t.report.started ++ env.uuid w.store ∷ [] }) t,
        subst (All (λ s. s.business_id ≡ b → ⊥)) (sym (start_submits row w changed r))
            (All-append (λ s. s.business_id ≡ b → ⊥) w.submitted _ h (held, tt)),
      )

  proceed_nth-held :
      (k : ℕ) (ts : List Ticker) (w : Tables)
      → All (λ t. StageHeld t.stage) ts
      → Unsubmitted w
      → All (λ t. StageHeld t.stage) (proceed_nth env k ts w).0
        × Unsubmitted (proceed_nth env k ts w).1
  unfolding proceed_nth
  proceed_nth-held k [] w held h = (tt, h)
  proceed_nth-held zero (t ∷ ts) w (ht, held) h =
      let p = proceed_at-Held t w t.stage ht refl h in ((p.0, held), p.1)
  proceed_nth-held (suc k) (t ∷ ts) w (ht, held) h =
      let p = proceed_nth-held k ts w held h in ((ht, p.0), p.1)

  act_all-held :
      (actions : List WorkerAction) (s : Site)
      → All (λ t. StageHeld t.stage) s.tickers
      → Unsubmitted s.world
      → Unsubmitted (act_all env actions s).world
  unfolding act_all act begin_tick
  act_all-held [] s held h = h
  act_all-held (begin moment database ∷ actions) s held h =
      act_all-held actions (act env (begin moment database) s)
        (All-append (λ t. StageHeld t.stage) s.tickers _ held
          (
            next_row-held empty_report (
                fresh_ticker moment
                  (due_automations database s.world.businesses s.world.automations)),
            tt,
          ))
        h
  act_all-held (proceed k ∷ actions) s held h =
      let p = proceed_nth-held k s.tickers s.world held h in
      act_all-held actions (act env (proceed k) s) p.0 p.1

-- While a business's spend of the month is at the ceiling or over it, no tick submits a run of it,
-- however many processes tick and however their steps interleave.
pub ceiling_holds :
    (env : Env) (b spent : ℕ) (actions : List WorkerAction) (w : Tables)
    → env.spend b ≡ some spent
    → env.cap ≤ spent
    → All (λ s. s.business_id ≡ b → ⊥) w.submitted
    → All
        (λ s. s.business_id ≡ b → ⊥)
        (act_all env actions (record { world = w; tickers = [] })).world.submitted
ceiling_holds env b spent actions w known over h =
    act_all-held env b spent known over actions (record { world = w; tickers = [] }) tt h
