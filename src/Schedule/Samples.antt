-- ===== src/Schedule/Samples.antt =====
-- Small schedules, and the theorems at them.
use socio_seo_agent.Prelude.{
  ℕ, ◌+◌, ◌-◌, ◌*◌, ◌≤◌, ◌≡◌, ◌⊎◌, refl, true, none, some, arith, ltb, if◌then◌else◌, err, inr,
}
use socio_seo_agent.Schedule.{
  Zone, bad_day_of_week, day_seconds, local_date, snap_to_weekday, anchor_of, jump, next_by_stride,
  next_month_start, next_monthly, compute_next_run,
}
use socio_seo_agent.Schedule.Strides.{IsZone, IsSlot, next_by_stride-IsSlot}
use socio_seo_agent.Schedule.Months.{IsMonthly, next_monthly-IsMonthly}

program : Unit {0}
unfolding compute_next_run anchor_of
program = tt

-- A zone an hour ahead.
abbrev ahead : Zone
ahead = record { local = λ t. t + 3600; utc = λ wall. wall - 3600 }

ahead-IsZone : IsZone ahead
ahead-IsZone = record {
  ahead = λ t. omega arith;
  behind = λ t. omega arith;
  ahead_utc = λ wall. omega arith;
  behind_utc = λ wall. omega arith;
}

-- Mondays at nine, asked on the first day at eight and at ten of UTC.
today : next_by_stride ahead 7 0 9 (7 * 3600) none ≡ some (8 * 3600)
unfolding program
today = refl

in_a_week : next_by_stride ahead 7 0 9 (8 * 3600) none ≡ some (7 * day_seconds + 8 * 3600)
unfolding program
in_a_week = refl

next_by_stride-IsSlot_example :
    IsSlot ahead 14 2 9
      (40 * day_seconds)
      (jump 14
        (local_date ahead (40 * day_seconds))
        (anchor_of ahead 14 2 (local_date ahead (40 * day_seconds)) (some (9 * day_seconds))))
      (next_by_stride ahead 14 2 9 (40 * day_seconds) (some (9 * day_seconds)))
next_by_stride-IsSlot_example =
    next_by_stride-IsSlot ahead 14 2 9 (40 * day_seconds) (some (9 * day_seconds)) ahead-IsZone
      (inr refl) (omega arith)

next_monthly-IsMonthly_example :
    ((t : ℕ) × (next_monthly ahead 1 9 (20 * day_seconds) ≡ some t)
      × IsMonthly ahead 1 9 (20 * day_seconds) t)
    ⊎ ((next_monthly ahead 1 9 (20 * day_seconds) ≡ none)
        × (local_date ahead (20 * day_seconds) + 1
            ≤ snap_to_weekday (next_month_start (local_date ahead (20 * day_seconds))) 1)
        × (snap_to_weekday (next_month_start (local_date ahead (20 * day_seconds))) 1
            ≤ local_date ahead (20 * day_seconds) + 2))
next_monthly-IsMonthly_example =
    next_monthly-IsMonthly ahead 1 9 (20 * day_seconds) ahead-IsZone (omega arith)

-- The first Tuesday of February of the year 1 is the sixth.
first_tuesday : next_monthly ahead 1 9 (20 * day_seconds) ≡ some (36 * day_seconds + 8 * 3600)
unfolding program
first_tuesday = refl

-- A zone of UTC whose clock goes back an hour, from a minute past the midnight that begins day 31.
abbrev back_at : ℕ
back_at = 31 * day_seconds + 60

abbrev falling : Zone
falling = record {
  local = λ t. if ltb t back_at then t else t - 3600;
  utc = λ wall. if ltb wall back_at then wall else wall + 3600;
}

falling-IsZone : IsZone falling
falling-IsZone = record {
  ahead = λ t. ground arith;
  behind = λ t. ground arith;
  ahead_utc = λ wall. ground arith;
  behind_utc = λ wall. ground arith;
}

-- Asked in the repeated hour, the monthly rule for the midnight of that day has no answer.
falling_unreachable : next_monthly falling 3 0 (back_at + 60) ≡ none
unfolding program
falling_unreachable = refl

iso_sunday :
    compute_next_run
      (λ name. some ahead)
      "weekly"
      7
      9
      "Europe/Berlin"
      (record { utc = 0; aware = true })
      none
    ≡ err bad_day_of_week
unfolding program
iso_sunday = refl
