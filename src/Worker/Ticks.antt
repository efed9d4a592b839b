-- ===== src/Worker/Ticks.antt =====
-- The ticks of backend/app/worker/scheduler.py: what a tick does between two of its awaits, the ticks of
-- any processes, and the sweep.
use socio_seo_agent.Prelude.{
  ℕ, zero, suc, String, Bool, true, false, Option, none, some, List, [], ◌∷◌, ◌++◌, ◌==◌,
  if◌then◌else◌, Result, ok, err,
}
use socio_seo_agent.Runs.{Run, Store, running, failed}
use socio_seo_agent.Worker.{
  Due, Tables, Env, Raised, due_automations, pause_over_ceiling, claim_due, start_due_run,
}

-- Where a tick stands with a business.
pub data Stage : Type 0 where
  idle : Stage
  checking claiming starting : Due → Stage

-- `TickReport`, less its counts
pub record TickReport : Type 0 where
  pub started : List ℕ
  pub failed : List ℕ
  pub paused : List ℕ

-- One tick of one process: the clock that it read, and what it has before it.
pub record Ticker : Type 0 where
  pub moment : ℕ
  pub stage : Stage
  pub todo : List Due
  pub report : TickReport

unfoldable pub next_stage : List Due → Stage
next_stage [] = idle
next_stage (row ∷ rows) = checking row

unfoldable pub rest_rows : List Due → List Due
rest_rows [] = []
rest_rows (row ∷ rows) = rows

unfoldable pub next_row : TickReport → Ticker → Ticker
unfolding next_stage rest_rows
next_row report t = record t { stage = next_stage t.todo; todo = rest_rows t.todo; report = report }

unfoldable pub note_failed : Due → TickReport → TickReport
note_failed row report = record report { failed = report.failed ++ row.business_id ∷ [] }

unfoldable pub after_check : Due → Ticker → Tables → Result Raised (Bool × Tables) → Ticker × Tables
unfolding next_row note_failed
after_check row t w (err e) = (next_row (note_failed row t.report) t, w)
after_check row t w (ok (true, changed)) =
    (next_row (record t.report { paused = t.report.paused ++ row.business_id ∷ [] }) t, changed)
after_check row t w (ok (false, changed)) = (record t { stage = claiming row }, changed)

unfoldable pub after_claim :
    Due → Ticker → Tables → Result Raised (Option ℕ × Tables) → Ticker × Tables
unfolding next_row note_failed
after_claim row t w (err e) = (next_row (note_failed row t.report) t, w)
after_claim row t w (ok (none, changed)) = (next_row t.report t, changed)
after_claim row t w (ok (some following, changed)) = (record t { stage = starting row }, changed)

unfoldable pub after_start : ℕ → Due → Ticker → Tables → Result Raised Tables → Ticker × Tables
unfolding next_row note_failed
after_start run_id row t w (err e) = (next_row (note_failed row t.report) t, w)
after_start run_id row t w (ok changed) =
    (next_row (record t.report { started = t.report.started ++ run_id ∷ [] }) t, changed)

-- What a tick does up to its next await.
unfoldable pub proceed_at : Env → Ticker → Tables → Stage → Ticker × Tables
unfolding after_check after_claim after_start pause_over_ceiling claim_due start_due_run
proceed_at env t w idle = (t, w)
proceed_at env t w (checking row) = after_check row t w (pause_over_ceiling env row.business_id w)
proceed_at env t w (claiming row) = after_claim row t w (claim_due env t.moment row w)
proceed_at env t w (starting row) = after_start (env.uuid w.store) row t w (start_due_run env row w)

abbrev pub empty_report : TickReport
empty_report = record { started = []; failed = []; paused = [] }

abbrev pub fresh_ticker : ℕ → List Due → Ticker
fresh_ticker moment rows = record {
  moment = moment;
  stage = idle;
  todo = rows;
  report = empty_report;
}

-- A tick that begins: `moment` is read before the database evaluates due_automations() at its clock.
unfoldable pub begin_tick : (moment database : ℕ) → Tables → Ticker
unfolding due_automations next_row
begin_tick moment database w =
    next_row empty_report
      (fresh_ticker moment (due_automations database w.businesses w.automations))

-- The ticks of any processes, and the tables.
pub record Site : Type 0 where
  pub world : Tables
  pub tickers : List Ticker

pub data WorkerAction : Type 0 where
  begin : (moment database : ℕ) → WorkerAction
  proceed : ℕ → WorkerAction

unfoldable pub proceed_nth : Env → ℕ → List Ticker → Tables → List Ticker × Tables
unfolding proceed_at
proceed_nth env k [] w = ([], w)
proceed_nth env zero (t ∷ ts) w = let reply = proceed_at env t w t.stage in (reply.0 ∷ ts, reply.1)
proceed_nth env (suc k) (t ∷ ts) w = let reply = proceed_nth env k ts w in (t ∷ reply.0, reply.1)

unfoldable pub act : Env → WorkerAction → Site → Site
unfolding begin_tick proceed_nth
act env (begin moment database) s = record s {
  tickers = s.tickers ++ begin_tick moment database s.world ∷ [];
}
act env (proceed k) s =
    let reply = proceed_nth env k s.tickers s.world in record { world = reply.1; tickers = reply.0 }

unfoldable pub act_all : Env → List WorkerAction → Site → Site
unfolding act
act_all env [] s = s
act_all env (a ∷ actions) s = act_all env actions (act env a s)

-- The UPDATE of the stranded-run sweep, for the runs that stranded_runs() names.
unfoldable pub close_stranded : (reason : String) → ℕ → List Run → List Run
close_stranded reason id [] = []
close_stranded reason id (run ∷ runs) =
    let rest = close_stranded reason id runs in
    (elim run.state [
      | running ↦
          if run.id == id then record run { state = failed; finished_reason = some reason } else run
      | _ ↦ run
    ])
    ∷ rest

-- `_sweep_stranded`, where no statement fails.
unfoldable pub sweep_stranded : (reason : String) → List ℕ → Store → Store
unfolding close_stranded
sweep_stranded reason [] s = s
sweep_stranded reason (id ∷ ids) s =
    sweep_stranded reason ids (record s { runs = close_stranded reason id s.runs })
