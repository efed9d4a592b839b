-- ===== src/Schedule.antt =====
-- backend/app/services/automation_service.py. An instant is a number of seconds of UTC, a wall-clock
-- reading a number of seconds of local time, both from midnight of 0001-01-01, a Monday.
pub mod Strides
pub mod Months
pub mod Later
mod Samples
use socio_seo_agent.Prelude.{
  ℕ, zero, suc, ◌+◌, ◌-◌, ◌*◌, ◌/◌, ◌%◌, String, Bool, true, false, not, ◌&&◌, ◌||◌, Option, none,
  some, leb, ltb, ◌==◌, str_eq, if◌then◌else◌, Result, ok, err,
}

abbrev pub day_seconds : ℕ
day_seconds = 86400

-- A zone: the wall-clock reading of an instant, and the instant of a reading with fold=0.
pub record Zone : Type 0 where
  pub local : ℕ → ℕ
  pub utc : ℕ → ℕ

pub record Instant : Type 0 where
  pub utc : ℕ
  pub aware : Bool

pub data Cadence : Type 0 where
  weekly biweekly monthly : Cadence

pub data Refusal : Type 0 where
  unknown_cadence bad_day_of_week bad_hour naive_after naive_last_run unknown_timezone unreachable :
      Refusal

-- `_validate_cadence`
unfoldable pub cadence_of : String → Option Cadence
cadence_of name =
    if str_eq name "weekly"
    then some weekly
    else if str_eq name "biweekly"
    then some biweekly
    else if str_eq name "monthly"
    then some monthly
    else none

unfoldable pub local_date : Zone → ℕ → ℕ
local_date zone t = zone.local t / day_seconds

-- `_snap_to_weekday`
unfoldable pub snap_to_weekday : ℕ → ℕ → ℕ
snap_to_weekday day day_of_week = day + (day_of_week + 7 - day % 7) % 7

-- `_slot_utc`
unfoldable pub slot_utc : Zone → ℕ → ℕ → ℕ
slot_utc zone hour day = zone.utc (day * day_seconds + hour * 3600)

-- The loop of `_next_by_stride`, on fuel.
unfoldable pub seek : ℕ → Zone → (stride hour after anchor : ℕ) → Option ℕ
unfolding slot_utc
seek zero zone stride hour after anchor =
    let candidate = slot_utc zone hour anchor in
    if leb candidate after then none else some candidate
seek (suc n) zone stride hour after anchor =
    let candidate = slot_utc zone hour anchor in
    let later = seek n zone stride hour after (anchor + stride) in
    if leb candidate after then later else some candidate

-- The jump most of the way from the anchor.
unfoldable pub jump : (stride date anchor : ℕ) → ℕ
jump stride date anchor =
    if ltb anchor date then anchor + (date - anchor) / stride * stride else anchor

-- The anchor: of the last run, if there is one and the stride is over a week, else of the date.
unfoldable pub anchor_of : Zone → (stride day_of_week date : ℕ) → Option ℕ → ℕ
unfolding snap_to_weekday local_date
anchor_of zone stride day_of_week date none = snap_to_weekday date day_of_week
anchor_of zone stride day_of_week date (some last) =
    if ltb 7 stride
    then snap_to_weekday (local_date zone last) day_of_week
    else snap_to_weekday date day_of_week

-- `_next_by_stride`, whose loop goes round twice at most.
unfoldable pub next_by_stride : Zone → (stride day_of_week hour after : ℕ) → Option ℕ → Option ℕ
unfolding seek jump anchor_of
next_by_stride zone stride day_of_week hour after last_run_at =
    let date = local_date zone after in
    seek 2 zone stride hour after
      (jump stride date (anchor_of zone stride day_of_week date last_run_at))

-- A calendar date.
pub record Date : Type 0 where
  pub year : ℕ
  pub month : ℕ
  pub day : ℕ

unfoldable pub is_leap : ℕ → Bool
is_leap y = y % 4 == 0 && not (y % 100 == 0) || y % 400 == 0

unfoldable pub days_in : (year month : ℕ) → ℕ
unfolding is_leap
days_in year month =
    if month == 2
    then (if is_leap year then 29 else 28)
    else if month == 4 || month == 6 || month == 9 || month == 11
    then 30
    else 31

unfoldable pub tomorrow : Date → Date
unfolding days_in
tomorrow d =
    if ltb d.day (days_in d.year d.month)
    then record d { day = suc d.day }
    else if d.month == 12
    then record { year = suc d.year; month = 1; day = 1 }
    else record { year = d.year; month = suc d.month; day = 1 }

-- The date of a day's number.
unfoldable pub civil : ℕ → Date
unfolding tomorrow
civil zero = record { year = 1; month = 1; day = 1 }
civil (suc n) = tomorrow (civil n)

-- date(year, month, 1) for the month of a day and for the month after it
unfoldable pub month_start : ℕ → ℕ
unfolding civil
month_start day = day + 1 - (civil day).day

unfoldable pub next_month_start : ℕ → ℕ
unfolding month_start civil days_in
next_month_start day = month_start day + days_in (civil day).year (civil day).month

-- `_next_monthly`; `none` is its AssertionError.
unfoldable pub next_monthly : Zone → (day_of_week hour after : ℕ) → Option ℕ
unfolding slot_utc snap_to_weekday month_start next_month_start local_date
next_monthly zone day_of_week hour after =
    let date = local_date zone after in
    let this = slot_utc zone hour (snap_to_weekday (month_start date) day_of_week) in
    let next = slot_utc zone hour (snap_to_weekday (next_month_start date) day_of_week) in
    if ltb after this then some this else if ltb after next then some next else none

-- `CADENCE_STRIDE_DAYS`, and the two rules.
unfoldable pub next_of : Cadence → Zone → (day_of_week hour after : ℕ) → Option ℕ → Option ℕ
unfolding next_by_stride next_monthly
next_of weekly zone day_of_week hour after last = next_by_stride zone 7 day_of_week hour after last
next_of biweekly zone day_of_week hour after last =
    next_by_stride zone 14 day_of_week hour after last
next_of monthly zone day_of_week hour after last = next_monthly zone day_of_week hour after

is_naive : Option Instant → Bool
is_naive none = false
is_naive (some t) = not t.aware

utc_of : Option Instant → Option ℕ
utc_of none = none
utc_of (some t) = some t.utc

found : Option ℕ → Result Refusal ℕ
found none = err unreachable
found (some t) = ok t

-- `compute_next_run` over a database of zones.
unfoldable pub compute_next_run :
    (String → Option Zone)
    → (cadence : String) → (day_of_week hour : ℕ) → (timezone : String) → Instant
    → Option Instant
    → Result Refusal ℕ
unfolding cadence_of next_of is_naive utc_of found
compute_next_run zones cadence day_of_week hour timezone after last_run_at =
    elim (cadence_of cadence) [
      | none ↦ err unknown_cadence
      | some resolved ↦
          if ltb 6 day_of_week
          then err bad_day_of_week
          else if ltb 23 hour
          then err bad_hour
          else if not after.aware
          then err naive_after
          else if is_naive last_run_at
          then err naive_last_run
          else elim (zones timezone) [
            | none ↦ err unknown_timezone
            | some zone ↦
                found (next_of resolved zone day_of_week hour after.utc (utc_of last_run_at))
          ]
    ]
