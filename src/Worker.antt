-- ===== src/Worker.antt =====
-- backend/app/worker/scheduler.py, with pause_automation of
-- backend/app/services/automation_settings_service.py, monthly_cap_state of
-- backend/app/services/cost_service.py and the function due_automations of the database. An instant
-- is a number of seconds of UTC; a business has at most one automation, by its primary key.
pub mod Ticks
pub mod Slots
pub mod Booking
pub mod Ceiling
pub mod Early
mod Samples
use socio_seo_agent.Prelude.{
  ℕ, zero, suc, String, Bool, true, false, not, ◌&&◌, Option, none, some, List, [], ◌∷◌, ◌++◌, leb,
  ◌==◌, str_eq, if◌then◌else◌, Result, ok, err,
}
use socio_seo_agent.Json.{Json}
use socio_seo_agent.Strings.{strip}
use socio_seo_agent.Channels.{normalise_channels}
use socio_seo_agent.Schedule.{Zone, Instant, Refusal, compute_next_run}
use socio_seo_agent.Runs.{Run, RunState, Store, running, failed}
use socio_seo_agent.Runs.Service.{start}

-- `AutomationSetting`, as far as the worker reads it.
pub record Automation : Type 0 where
  pub scheduled : Bool
  pub paused_reason : Option String
  pub cadence : String
  pub day_of_week : ℕ
  pub hour : ℕ
  pub timezone : String
  pub channels : Json
  pub goal_template : Option String
  pub last_run_at : Option ℕ
  pub next_run_at : Option ℕ

abbrev pub Automations : Type 0
Automations = ℕ → Option Automation

-- A row of due_automations(): the business, the automation, and the slot that was read.
pub record Due : Type 0 where
  pub business_id : ℕ
  pub automation : Automation
  pub seen : ℕ

unfoldable pub is_unpaused : Automation → Bool
is_unpaused a = elim a.paused_reason [ none ↦ true | some reason ↦ false ]

-- The WHERE of due_automations() at the database's clock.
unfoldable pub due_at : ℕ → ℕ → Automation → Option ℕ → List Due
unfolding is_unpaused
due_at now business_id a none = []
due_at now business_id a (some slot) =
    if a.scheduled && is_unpaused a && leb slot now
    then record { business_id = business_id; automation = a; seen = slot } ∷ []
    else []

unfoldable pub due_of : ℕ → ℕ → Option Automation → List Due
unfolding due_at
due_of now business_id none = []
due_of now business_id (some a) = due_at now business_id a a.next_run_at

-- ORDER BY next_run_at ASC
unfoldable pub by_slot : Due → List Due → List Due
by_slot row [] = row ∷ []
by_slot row (other ∷ rows) =
    let rest = by_slot row rows in
    if leb row.seen other.seen then row ∷ other ∷ rows else other ∷ rest

unfoldable pub all_due : ℕ → List ℕ → Automations → List Due
unfolding due_of by_slot
all_due now [] automations = []
all_due now (b ∷ businesses) automations =
    let rest = all_due now businesses automations in
    elim (due_of now b (automations b)) [ [] ↦ rest | row ∷ rows ↦ by_slot row rest ]

-- LIMIT
unfoldable pub first_rows : ℕ → List Due → List Due
first_rows zero rows = []
first_rows (suc n) [] = []
first_rows (suc n) (row ∷ rows) = row ∷ first_rows n rows

unfoldable pub due_automations : ℕ → List ℕ → Automations → List Due
unfolding all_due first_rows
due_automations now businesses automations = first_rows 100 (all_due now businesses automations)

pub record Slot : Type 0 where
  pub business_id : ℕ
  pub time : ℕ

pub record Submission : Type 0 where
  pub run_id : ℕ
  pub business_id : ℕ
  pub goal : String

-- The tables, what was submitted to the executor, and the claims that won, the last one first.
pub record Tables : Type 0 where
  pub businesses : List ℕ
  pub automations : Automations
  pub store : Store
  pub submitted : List Submission
  pub claims : List Slot

-- What the worker runs in: the zones, a month's spend of a business unless the reading fails, the
-- ceiling, the sentence of a pause, the text functions, the next run's identifier, and whether a
-- statement fails at the database.
pub record Env : Type 0 where
  pub zones : String → Option Zone
  pub spend : ℕ → Option ℕ
  pub cap : ℕ
  pub sentence : ℕ → String
  pub lower : String → String
  pub uuid : Store → ℕ
  pub pause_fails : ℕ → Bool
  pub claim_fails : ℕ → Bool
  pub start_fails : ℕ → Bool

-- An exception, which the tick logs.
pub data Raised : Type 0 where
  raised : Raised

-- `over_monthly_cap`
unfoldable pub over_monthly_cap : ℕ → ℕ → Bool
over_monthly_cap spent cap = leb cap spent

unfoldable pub set_row : ℕ → Automation → Automations → Automations
set_row business_id a automations = λ b. if b == business_id then some a else automations b

-- `pause_automation`; where there is no row, none is made.
unfoldable pub pause_row : ℕ → String → Option Automation → Automations → Automations
unfolding set_row
pause_row business_id reason none automations = automations
pause_row business_id reason (some a) automations =
    set_row business_id (record a { paused_reason = some reason }) automations

-- `_pause_over_ceiling`: whether it was paused; the error stands for its exception.
unfoldable pub pause_spent : Env → ℕ → Tables → Option ℕ → Result Raised (Bool × Tables)
unfolding pause_row over_monthly_cap
pause_spent env b w none = err raised
pause_spent env b w (some spent) =
    if not (over_monthly_cap spent env.cap)
    then ok (false, w)
    else if env.pause_fails b
    then err raised
    else ok (
      true,
      record w { automations = pause_row b (env.sentence spent) (w.automations b) w.automations },
    )

unfoldable pub pause_over_ceiling : Env → ℕ → Tables → Result Raised (Bool × Tables)
unfolding pause_spent
pause_over_ceiling env b w = pause_spent env b w (env.spend b)

-- The UPDATE of `_claim`: whether it changed the row.
unfoldable pub claim_row : ℕ → ℕ → Due → Tables → Option Automation → Option ℕ × Tables
unfolding set_row
claim_row now following row w none = (none, w)
claim_row now following row w (some a) = elim a.next_run_at [
  | none ↦ (none, w)
  | some slot ↦
      if slot == row.seen
      then (
        some following,
        record w {
          automations =
              set_row row.business_id
                (record a { next_run_at = some following; last_run_at = some now }) w.automations;
          claims = record { business_id = row.business_id; time = row.seen } ∷ w.claims;
        },
      )
      else (none, w)
]

unfoldable pub instant : ℕ → Instant
instant t = record { utc = t; aware = true }

unfoldable pub last_instant : Option ℕ → Option Instant
last_instant none = none
last_instant (some t) = some (record { utc = t; aware = true })

unfoldable pub following_run : Env → ℕ → Automation → Result Refusal ℕ
unfolding compute_next_run instant last_instant
following_run env now a =
    compute_next_run env.zones a.cadence a.day_of_week a.hour a.timezone (instant now)
      (last_instant a.last_run_at)

unfoldable pub claim_at_time :
    Env → ℕ → Due → Tables → Result Refusal ℕ → Result Raised (Option ℕ × Tables)
unfolding claim_row
claim_at_time env now row w (err refusal) = err raised
claim_at_time env now row w (ok following) =
    if env.claim_fails row.business_id
    then err raised
    else ok (claim_row now following row w (w.automations row.business_id))

-- `_claim`
unfoldable pub claim_due : Env → ℕ → Due → Tables → Result Raised (Option ℕ × Tables)
unfolding claim_at_time following_run
claim_due env now row w = claim_at_time env now row w (following_run env now row.automation)

-- `DEFAULT_GOAL`
abbrev pub default_goal : String
default_goal = "more local enquiries from the services we already offer"

unfoldable pub goal_of : Option String → String
unfolding strip
goal_of none = default_goal
goal_of (some template) = if str_eq (strip template) "" then default_goal else strip template

-- `_start_run`
unfoldable pub start_due_run : Env → Due → Tables → Result Raised Tables
unfolding start goal_of normalise_channels
start_due_run env row w =
    let run_id = env.uuid w.store in
    let goal = goal_of row.automation.goal_template in
    if env.start_fails row.business_id
    then err raised
    else ok (record w {
      store =
          start run_id row.business_id goal (normalise_channels env.lower row.automation.channels)
            w.store;
      submitted =
          w.submitted
          ++ record { run_id = run_id; business_id = row.business_id; goal = goal } ∷ [];
    })
