-- ===== src/Worker/Samples.antt =====
-- A worker of backend/app/worker/scheduler.py with one business.
use socio_seo_agent.Prelude.{
  ℕ, ◌≡◌, refl, true, false, none, some, List, [], ◌∷◌, ◌==◌, All, arith, ok, if◌then◌else◌,
}
use socio_seo_agent.Json.{null}
use socio_seo_agent.Schedule.{Zone}
use socio_seo_agent.Worker.{Automation, Due, Slot, Tables, Env, claim_due, following_run}
use socio_seo_agent.Worker.Ticks.{WorkerAction, begin, proceed, act_all}
use socio_seo_agent.Worker.Slots.{Booked}
use socio_seo_agent.Worker.Booking.{worker_books_slots}
use socio_seo_agent.Worker.Ceiling.{ceiling_holds}
use socio_seo_agent.Worker.Early.{early_claim_repeats, claimed, Contest}

abbrev utc : Zone
utc = record { local = λ t. t; utc = λ t. t }

abbrev env : ℕ → Env
env spent = record {
  zones = λ name. some utc;
  spend = λ b. some spent;
  cap = 100;
  sentence = λ n. "spent";
  lower = λ s. s;
  uuid = λ s. 1;
  pause_fails = λ b. false;
  claim_fails = λ b. false;
  start_fails = λ b. false;
}

-- Tuesdays at nine; the next slot is 118800.
abbrev tuesdays : Automation
tuesdays = record {
  scheduled = true;
  paused_reason = none;
  cadence = "weekly";
  day_of_week = 1;
  hour = 9;
  timezone = "UTC";
  channels = null;
  goal_template = some " ";
  last_run_at = none;
  next_run_at = some 118_800;
}

abbrev world : Tables
world = record {
  businesses = 7 ∷ [];
  automations = λ b. if b == 7 then some tuesdays else none;
  store = record { runs = []; events = [] };
  submitted = [];
  claims = [];
}

-- Two processes tick at the slot, and their steps alternate.
abbrev two_ticks : List WorkerAction
two_ticks =
    begin 118_801 118_801
    ∷ begin 118_802 118_801
    ∷ proceed 0
    ∷ proceed 1
    ∷ proceed 1
    ∷ proceed 0
    ∷ proceed 0
    ∷ proceed 1
    ∷ []

-- A clock read a second before the slot, and the tick a minute later.
abbrev early_ticks : List WorkerAction
early_ticks =
    begin 118_799 118_800
    ∷ proceed 0
    ∷ proceed 0
    ∷ proceed 0
    ∷ begin 118_860 118_860
    ∷ proceed 1
    ∷ proceed 1
    ∷ proceed 1
    ∷ []

abbrev slot : Slot
slot = record { business_id = 7; time = 118_800 }

program : Unit {0}
unfolding act_all claim_due following_run
program = tt

claimed_once :
    (act_all (env 5) two_ticks (record { world = world; tickers = [] })).world.claims ≡ slot ∷ []
unfolding program
claimed_once = refl

claimed_twice :
    (act_all (env 5) early_ticks (record { world = world; tickers = [] })).world.claims
    ≡ slot ∷ slot ∷ []
unfolding program
claimed_twice = refl

worker_books_slots_example :
    Booked [] (act_all (env 5) two_ticks (record { world = world; tickers = [] })).world.claims
worker_books_slots_example = worker_books_slots (env 5) two_ticks world (omega arith) refl

ceiling_holds_example :
    All
      (λ s. s.business_id ≡ 7 → ⊥)
      (act_all (env 100) two_ticks (record { world = world; tickers = [] })).world.submitted
ceiling_holds_example = ceiling_holds (env 100) 7 100 two_ticks world refl (omega arith) tt

abbrev row : Due
row = record { business_id = 7; automation = tuesdays; seen = 118_800 }

-- The tables behind a claim a second before the slot.
abbrev early_world : Tables
early_world = claimed 118_799 118_800 row tuesdays world

early_won : claim_due (env 5) 118_799 row world ≡ ok (some 118_800, early_world)
unfolding program
early_won = refl

minute_later : following_run (env 5) 118_860 tuesdays ≡ ok 723_600
unfolding program
minute_later = refl

early_claim_repeats_example :
    Contest (env 5) 118_799 118_800 118_860 723_600 row row world early_world
early_claim_repeats_example =
    early_claim_repeats (env 5) 118_799 118_800 118_860 723_600 row tuesdays world early_world
      early_won minute_later
