-- ===== src/Schedule/Months.antt =====
-- The monthly rule of backend/app/services/automation_service.py.
use socio_seo_agent.Prelude.{
  ℕ, zero, suc, ◌+◌, ◌%◌, ◌≤◌, ◌<◌, ◌≡◌, ◌⊎◌, refl, false, none, some, arith, leb, ltb, Bool-cases,
  inl, inr,
}
use socio_seo_agent.Schedule.{
  Zone, Date, local_date, snap_to_weekday, slot_utc, days_in, tomorrow, civil, month_start,
  next_month_start, next_monthly,
}
use socio_seo_agent.Schedule.Strides.{IsZone, snap_weekday, snap_bounds, slot_later}

days_in_bounds : (year month : ℕ) → (28 ≤ days_in year month) × (days_in year month ≤ 31)
unfolding days_in
days_in_bounds year month = (ground arith, ground arith)

tomorrow_bounds :
    (d : Date)
    → (1 ≤ d.day) × (d.day ≤ days_in d.year d.month)
    → (1 ≤ (tomorrow d).day)
      × ((tomorrow d).day ≤ days_in (tomorrow d).year (tomorrow d).month)
      × ((tomorrow d).day ≤ d.day + 1)
unfolding tomorrow
tomorrow_bounds d h = (ground arith, last, ground arith)
  where
    last : (tomorrow d).day ≤ days_in (tomorrow d).year (tomorrow d).month
    last =
        ground (arith, (days_in_bounds (suc d.year) 1).0, (days_in_bounds d.year (suc d.month)).0)

-- A day's date is in its month, and no later than the number of days that there have been.
pub civil_bounds :
    (n : ℕ)
    → (1 ≤ (civil n).day)
      × ((civil n).day ≤ days_in (civil n).year (civil n).month)
      × ((civil n).day ≤ n + 1)
unfolding civil
civil_bounds zero = (omega arith, omega (arith, (days_in_bounds 1 1).0), omega arith)
civil_bounds (suc n) =
    let h = civil_bounds n in
    let t = tomorrow_bounds (civil n) (h.0, h.1) in (t.0, t.1, omega (arith, t.2, h.2))

-- The month of a day.
pub month_bounds : (n : ℕ) → (month_start n ≤ n) × (n < next_month_start n)
unfolding month_start next_month_start
month_bounds n = let h = civil_bounds n in (omega (arith, h.0), omega (arith, h.1, h.2))

-- A slot of the monthly rule.
pub record IsMonthly (zone : Zone) (day_of_week hour after t : ℕ) : Type 0 where
  pub day : ℕ
  pub slot : t ≡ slot_utc zone hour day
  pub later : after < t
  pub weekday : day % 7 ≡ day_of_week
  pub first_week :
      ((month_start (local_date zone after) ≤ day)
        × (day < month_start (local_date zone after) + 7))
      ⊎ ((next_month_start (local_date zone after) ≤ day)
          × (day < next_month_start (local_date zone after) + 7))

-- The monthly rule answers with the first wanted weekday of the instant's month or of the next one,
-- strictly behind the instant; it runs into its assertion only where the first wanted weekday of the
-- next month is tomorrow or the day after. The zone's offset is less than a day.
pub next_monthly-IsMonthly :
    (zone : Zone) (day_of_week hour after : ℕ)
    → IsZone zone
    → day_of_week ≤ 6
    → ((t : ℕ) × (next_monthly zone day_of_week hour after ≡ some t)
        × IsMonthly zone day_of_week hour after t)
      ⊎ ((next_monthly zone day_of_week hour after ≡ none)
          × (local_date zone after + 1
              ≤ snap_to_weekday (next_month_start (local_date zone after)) day_of_week)
          × (snap_to_weekday (next_month_start (local_date zone after)) day_of_week
              ≤ local_date zone after + 2))
unfolding next_monthly
next_monthly-IsMonthly zone day_of_week hour after z h =
    let date = local_date zone after in
    let this = snap_to_weekday (month_start date) day_of_week in
    let next = snap_to_weekday (next_month_start date) day_of_week in
    let in_this = snap_bounds (month_start date) day_of_week in
    let in_next = snap_bounds (next_month_start date) day_of_week in
    elim (Bool-cases (ltb after (slot_utc zone hour this))) [
      | inl now ↦ inl (
        slot_utc zone hour this,
        rw (now, next_monthly) refl,
        record {
          day = this;
          slot = refl;
          later = ground arith;
          weekday = snap_weekday (month_start date) day_of_week h;
          first_week = inl in_this;
        },
      )
      | inr past ↦ elim (Bool-cases (ltb after (slot_utc zone hour next))) [
        | inl now ↦ inl (
          slot_utc zone hour next,
          rw (past, now, next_monthly) refl,
          record {
            day = next;
            slot = refl;
            later = ground arith;
            weekday = snap_weekday (next_month_start date) day_of_week h;
            first_week = inr in_next;
          },
        )
        | inr past_too ↦ inr (
          rw (past, past_too, next_monthly) refl,
          omega (arith, in_next.0, (month_bounds date).1),
          near past_too,
        )
      ]
    ]
  where
    near :
        ltb after (
            slot_utc zone hour
              (snap_to_weekday (next_month_start (local_date zone after)) day_of_week))
          ≡ false
        → snap_to_weekday (next_month_start (local_date zone after)) day_of_week
          ≤ local_date zone after + 2
    near past =
        elim (Bool-cases (
          leb (local_date zone after + 3)
            (snap_to_weekday (next_month_start (local_date zone after)) day_of_week))) [
              | inl far ↦ absurd (
                  never (
                    slot_later zone hour after
                      (snap_to_weekday (next_month_start (local_date zone after)) day_of_week) z
                      (ground arith)))
              | inr close ↦ ground arith
            ]
      where
        never :
            after
              < slot_utc zone hour
                  (snap_to_weekday (next_month_start (local_date zone after)) day_of_week)
            → ⊥
        never l = ground arith
