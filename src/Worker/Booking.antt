-- ===== src/Worker/Booking.antt =====
-- Every tick of backend/app/worker/scheduler.py moves along the book of slots.
use socio_seo_agent.Prelude.{
  ℕ, zero, suc, ◌≤◌, ◌≡◌, refl, sym, Bool, true, false, ◌&&◌, Option, none, some, List, [], ◌∷◌,
  ◌++◌, arith, leb, Bool-cases, inl, inr, All, All-append, Result, ok, err,
}
use mathlib.Core.Path.{subst}
use socio_seo_agent.Worker.{
  Automation, Automations, Due, Tables, Env, Raised, due_at, due_of, by_slot, all_due, first_rows,
  due_automations, claim_due, pause_over_ceiling, start_due_run, is_unpaused,
}
use socio_seo_agent.Worker.Ticks.{
  Stage, idle, checking, claiming, starting, Ticker, TickReport, next_row, next_stage, rest_rows,
  after_check, after_claim, after_start, note_failed, proceed_at, begin_tick, Site, WorkerAction,
  begin, proceed, proceed_nth, act, act_all, empty_report, fresh_ticker,
}
use socio_seo_agent.Worker.Slots.{
  Before, Booked, Ahead, Moves, still, pause-Moves, claim_due-Moves, start-Moves,
}

abbrev SeenBy : ℕ → Due → Type 0
SeenBy moment row = row.seen ≤ moment

abbrev StageSeen : ℕ → Stage → Type 0
StageSeen moment idle = Unit
StageSeen moment (checking row) = SeenBy moment row
StageSeen moment (claiming row) = SeenBy moment row
StageSeen moment (starting row) = SeenBy moment row

-- A tick's clock is not before the slots that it read.
abbrev TickerSeen : Ticker → Type 0
TickerSeen t = StageSeen t.moment t.stage × All (SeenBy t.moment) t.todo

next_row-Seen :
    (report : TickReport) (t : Ticker)
    → All (SeenBy t.moment) t.todo
    → TickerSeen (next_row report t)
unfolding next_row next_stage rest_rows
next_row-Seen report t h = go t.todo h
  where
    go :
        (rows : List Due)
        → All (SeenBy t.moment) rows
        → StageSeen t.moment (next_stage rows) × All (SeenBy t.moment) (rest_rows rows)
    go [] h = (tt, tt)
    go (row ∷ rows) (seen, h) = (seen, h)

record Proceeds (v : Tables) (reply : Ticker × Tables) : Type 0 where
  moves : Moves v reply.1
  seen : TickerSeen reply.0

proceed_at-Proceeds :
    (env : Env) (t : Ticker) (w : Tables) (stage : Stage)
    → StageSeen t.moment stage
    → All (SeenBy t.moment) t.todo
    → Ahead w
    → t.stage ≡ stage
    → Proceeds w (proceed_at env t w stage)
unfolding proceed_at after_check after_claim after_start
proceed_at-Proceeds env t w idle now rows h e = record { moves = still w h; seen = (rw e tt, rows) }
proceed_at-Proceeds env t w (checking row) now rows h e =
    go (pause_over_ceiling env row.business_id w) refl
  where
    go :
        (reply : Result Raised (Bool × Tables))
        → pause_over_ceiling env row.business_id w ≡ reply
        → Proceeds w (after_check row t w reply)
    go (err x) r = record {
      moves = still w h;
      seen = next_row-Seen (note_failed row t.report) t rows;
    }
    go (ok (true, changed)) r = record {
      moves = pause-Moves env row.business_id w true changed h r;
      seen =
          next_row-Seen (record t.report { paused = t.report.paused ++ row.business_id ∷ [] }) t
            rows;
    }
    go (ok (false, changed)) r = record {
      moves = pause-Moves env row.business_id w false changed h r;
      seen = (now, rows);
    }
proceed_at-Proceeds env t w (claiming row) now rows h e = go (claim_due env t.moment row w) refl
  where
    go :
        (reply : Result Raised (Option ℕ × Tables))
        → claim_due env t.moment row w ≡ reply
        → Proceeds w (after_claim row t w reply)
    go (err x) r = record {
      moves = still w h;
      seen = next_row-Seen (note_failed row t.report) t rows;
    }
    go (ok (none, changed)) r = record {
      moves = claim_due-Moves env t.moment row w none changed now h r;
      seen = next_row-Seen t.report t rows;
    }
    go (ok (some f, changed)) r = record {
      moves = claim_due-Moves env t.moment row w (some f) changed now h r;
      seen = (now, rows);
    }
proceed_at-Proceeds env t w (starting row) now rows h e = go (start_due_run env row w) refl
  where
    go :
        (reply : Result Raised Tables)
        → start_due_run env row w ≡ reply
        → Proceeds w (after_start (env.uuid w.store) row t w reply)
    go (err x) r = record {
      moves = still w h;
      seen = next_row-Seen (note_failed row t.report) t rows;
    }
    go (ok changed) r = record {
      moves = start-Moves env row w changed h r;
      seen =
          next_row-Seen (record t.report { started = t.report.started ++ env.uuid w.store ∷ [] }) t
            rows;
    }

record AllProceed (v : Tables) (reply : List Ticker × Tables) : Type 0 where
  moves : Moves v reply.1
  seen : All TickerSeen reply.0

proceed_nth-AllProceed :
    (env : Env) (k : ℕ) (ts : List Ticker) (w : Tables)
    → All TickerSeen ts
    → Ahead w
    → AllProceed w (proceed_nth env k ts w)
unfolding proceed_nth
proceed_nth-AllProceed env k [] w seen h = record { moves = still w h; seen = tt }
proceed_nth-AllProceed env zero (t ∷ ts) w ((stage, rows), seen) h =
    let p = proceed_at-Proceeds env t w t.stage stage rows h refl in
    record { moves = p.moves; seen = (p.seen, seen) }
proceed_nth-AllProceed env (suc k) (t ∷ ts) w (s, seen) h =
    let p = proceed_nth-AllProceed env k ts w seen h in
    record { moves = p.moves; seen = (s, p.seen) }

by_slot-All :
    (P : Due → Type 0) (row : Due) (rows : List Due) → P row → All P rows → All P (by_slot row rows)
unfolding by_slot
by_slot-All P row [] h k = (h, tt)
by_slot-All P row (other ∷ rows) h (ko, k) = elim (Bool-cases (leb row.seen other.seen)) [
  | inl e ↦ rw e (h, (ko, k))
  | inr e ↦ rw e (ko, by_slot-All P row rows h k)
]

due_at-Seen :
    (now b : ℕ) (a : Automation) (slot : Option ℕ) → All (SeenBy now) (due_at now b a slot)
unfolding due_at
due_at-Seen now b a none = tt
due_at-Seen now b a (some slot) = elim (Bool-cases (a.scheduled && is_unpaused a && leb slot now)) [
  | inl e ↦ rw e (ground arith, tt)
  | inr e ↦ rw e tt
]

due_of-Seen : (now b : ℕ) (a : Option Automation) → All (SeenBy now) (due_of now b a)
unfolding due_of
due_of-Seen now b none = tt
due_of-Seen now b (some a) = due_at-Seen now b a a.next_run_at

all_due-Seen :
    (now : ℕ) (businesses : List ℕ) (rows : Automations)
    → All (SeenBy now) (all_due now businesses rows)
unfolding all_due
all_due-Seen now [] rows = tt
all_due-Seen now (b ∷ businesses) rows =
    go (due_of now b (rows b)) (due_of-Seen now b (rows b)) (all_due-Seen now businesses rows)
  where
    go :
        (found : List Due)
        → All (SeenBy now) found
        → All (SeenBy now) (all_due now businesses rows)
        → All (SeenBy now) (elim found [
          | [] ↦ all_due now businesses rows
          | row ∷ more ↦ by_slot row (all_due now businesses rows)
        ])
    go [] h rest = rest
    go (row ∷ more) (h, k) rest = by_slot-All (SeenBy now) row _ h rest

first_rows-All :
    (P : Due → Type 0) (n : ℕ) (rows : List Due) → All P rows → All P (first_rows n rows)
unfolding first_rows
first_rows-All P zero rows h = tt
first_rows-All P (suc n) [] h = tt
first_rows-All P (suc n) (row ∷ rows) (hr, h) = (hr, first_rows-All P n rows h)

SeenBy-weaken : (m n : ℕ) (rows : List Due) → m ≤ n → All (SeenBy m) rows → All (SeenBy n) rows
SeenBy-weaken m n [] h k = tt
SeenBy-weaken m n (row ∷ rows) h (kr, k) = (omega arith, SeenBy-weaken m n rows h k)

begin_tick-Seen :
    (moment database : ℕ) (w : Tables)
    → database ≤ moment
    → TickerSeen (begin_tick moment database w)
unfolding begin_tick due_automations
begin_tick-Seen moment database w h =
    next_row-Seen empty_report
      (fresh_ticker moment (due_automations database w.businesses w.automations))
      (SeenBy-weaken database moment _ h
        (first_rows-All (SeenBy database) 100 _ (all_due-Seen database w.businesses w.automations)))

-- The database reads no slot that is behind the clock of the tick.
abbrev pub IsTimely : WorkerAction → Type 0
IsTimely (begin moment database) = database ≤ moment
IsTimely (proceed k) = Unit

record IsOrderly (s : Site) : Type 0 where
  ahead : Ahead s.world
  seen : All TickerSeen s.tickers

act_all-Booked :
    (env : Env) (actions : List WorkerAction) (s : Site)
    → All IsTimely actions
    → IsOrderly s
    → Booked s.world.claims (act_all env actions s).world.claims
unfolding act_all act
act_all-Booked env [] s h k = Booked.none_yet s.world.claims
act_all-Booked env (begin moment database ∷ actions) s (hb, h) k =
    act_all-Booked env actions (act env (begin moment database) s) h (record {
      ahead = k.ahead;
      seen =
          All-append TickerSeen s.tickers _ k.seen (begin_tick-Seen moment database s.world hb, tt);
    })
act_all-Booked env (proceed n ∷ actions) s (hb, h) k =
    let p = proceed_nth-AllProceed env n s.tickers s.world k.seen k.ahead in
    Booked.one_more s.world.claims _ _ p.moves.books (
      act_all-Booked env actions (act env (proceed n) s) h
        (record { ahead = p.moves.ahead; seen = p.seen }))

-- The worker refines the book of slots: from no claims and no ticks, whatever the automations hold,
-- however many processes tick and however their steps interleave, where every tick's clock is read
-- at or behind the one at which the database selects what is due, the claims that win take each
-- business's slots in their order, each at most once.
pub worker_books_slots :
    (env : Env) (actions : List WorkerAction) (w : Tables)
    → All IsTimely actions
    → w.claims ≡ []
    → Booked [] (act_all env actions (record { world = w; tickers = [] })).world.claims
worker_books_slots env actions w timely fresh =
    subst (λ c. Booked c (act_all env actions (record { world = w; tickers = [] })).world.claims)
      fresh
      (act_all-Booked env actions (record { world = w; tickers = [] }) timely
        (record { ahead = λ b a slot e n. subst (Before b slot) (sym fresh) tt; seen = tt }))
