-- ===== src/Schedule/Later.antt =====
-- The next run of backend/app/services/automation_service.py is strictly behind the instant asked
-- for, in whatever zone.
use socio_seo_agent.Prelude.{
  ℕ, zero, suc, ◌+◌, ◌<◌, ◌≡◌, String, Bool, true, false, not, Option, none, some, arith, leb, ltb,
  if◌then◌else◌, Bool-cases, inl, inr, Result, ok, err,
}
use socio_seo_agent.Schedule.{
  Zone, Instant, Cadence, weekly, biweekly, monthly, seek, slot_utc, next_by_stride, next_monthly,
  next_of, compute_next_run, found, Refusal, unknown_cadence, bad_day_of_week, bad_hour,
  naive_after, naive_last_run, unknown_timezone, cadence_of, is_naive, utc_of,
}

seek_later :
    (fuel : ℕ) (zone : Zone) (stride hour after anchor t : ℕ)
    → seek fuel zone stride hour after anchor ≡ some t
    → after < t
unfolding seek
seek_later zero zone stride hour after anchor t h =
    elim (Bool-cases (leb (slot_utc zone hour anchor) after)) [
      | inl e ↦ absurd (ground arith)
      | inr e ↦ ground arith
    ]
seek_later (suc fuel) zone stride hour after anchor t h =
    elim (Bool-cases (leb (slot_utc zone hour anchor) after)) [
      | inl e ↦ seek_later fuel zone stride hour after (anchor + stride) t (ground arith)
      | inr e ↦ ground arith
    ]

one_of_two :
    (this next after t : ℕ)
    → (if ltb after this then some this else if ltb after next then some next else none) ≡ some t
    → after < t
one_of_two this next after t h = ground arith

next_of-later :
    (c : Cadence) (zone : Zone) (day_of_week hour after : ℕ) (last : Option ℕ) (t : ℕ)
    → next_of c zone day_of_week hour after last ≡ some t
    → after < t
unfolding next_of next_by_stride next_monthly
next_of-later weekly zone d hour after last t h = seek_later 2 zone 7 hour after _ t h
next_of-later biweekly zone d hour after last t h = seek_later 2 zone 14 hour after _ t h
next_of-later monthly zone d hour after last t h = one_of_two _ _ after t h

-- Past a refused guard.
passed :
    (b : Bool) (e : Refusal) (r : Result Refusal ℕ) (t : ℕ)
    → (if b then err e else r) ≡ ok t
    → r ≡ ok t
passed true e r t h = absurd (ground arith)
passed false e r t h = h

found_lem : (o : Option ℕ) (t : ℕ) → found o ≡ ok t → o ≡ some t
unfolding found
found_lem none t h = absurd (ground arith)
found_lem (some u) t h = ground arith

pub compute_next_run-later :
    (zones : String → Option Zone) (cadence : String) (d hour : ℕ) (timezone : String)
    (after : Instant) (last : Option Instant) (t : ℕ)
    → compute_next_run zones cadence d hour timezone after last ≡ ok t
    → after.utc < t
unfolding compute_next_run
compute_next_run-later zones cadence d hour timezone after last t h =
    by_cadence (cadence_of cadence) h
  where
    by_zone :
        (c : Cadence) (zone : Option Zone)
        → (elim zone [
          | none ↦ err unknown_timezone
          | some z ↦ found (next_of c z d hour after.utc (utc_of last))
        ])
          ≡ ok t
        → after.utc < t
    by_zone c none e = absurd (ground arith)
    by_zone c (some z) e = next_of-later c z d hour after.utc (utc_of last) t (found_lem _ t e)

    by_cadence :
        (c : Option Cadence)
        → (elim c [
          | none ↦ err unknown_cadence
          | some resolved ↦
              if ltb 6 d
              then err bad_day_of_week
              else if ltb 23 hour
              then err bad_hour
              else if not after.aware
              then err naive_after
              else if is_naive last
              then err naive_last_run
              else elim (zones timezone) [
                | none ↦ err unknown_timezone
                | some zone ↦ found (next_of resolved zone d hour after.utc (utc_of last))
              ]
        ])
          ≡ ok t
        → after.utc < t
    by_cadence none e = absurd (ground arith)
    by_cadence (some c) e = by_zone c (zones timezone) (
        passed _ naive_last_run _ t
          (passed _ naive_after _ t (passed _ bad_hour _ t (passed _ bad_day_of_week _ t e))))
