-- ===== src/Schedule/Strides.antt =====
-- The weekly and fortnightly rules of backend/app/services/automation_service.py.
use native.Mathlib.Nat.{div-add-mod, mod-lt}
use socio_seo_agent.Prelude.{
  ℕ, ◌+◌, ◌-◌, ◌*◌, ◌/◌, ◌%◌, ◌≤◌, ◌<◌, ◌≡◌, ◌⊎◌, refl, ◌∙◌, false, Option, none, some, arith, leb,
  ltb, Bool-cases, inl, inr,
}
use socio_seo_agent.Schedule.{
  Zone, day_seconds, local_date, snap_to_weekday, slot_utc, seek, jump, anchor_of, next_by_stride,
}

-- An offset of UTC is strictly between a day behind and a day ahead.
pub record IsZone (zone : Zone) : Type 0 where
  pub ahead : (t : ℕ) → zone.local t < t + day_seconds
  pub behind : (t : ℕ) → t < zone.local t + day_seconds
  pub ahead_utc : (wall : ℕ) → wall < zone.utc wall + day_seconds
  pub behind_utc : (wall : ℕ) → zone.utc wall < wall + day_seconds

pub snap_weekday :
    (day day_of_week : ℕ) → day_of_week ≤ 6 → snap_to_weekday day day_of_week % 7 ≡ day_of_week
unfolding snap_to_weekday
snap_weekday day day_of_week h = omega arith

pub snap_bounds :
    (day day_of_week : ℕ)
    → (day ≤ snap_to_weekday day day_of_week) × (snap_to_weekday day day_of_week < day + 7)
unfolding snap_to_weekday
snap_bounds day day_of_week = (omega arith, omega arith)

-- A slot on a day three days ahead of an instant's date is behind the instant.
pub slot_later :
    (zone : Zone) (hour after day : ℕ)
    → IsZone zone
    → local_date zone after + 3 ≤ day
    → after < slot_utc zone hour day
unfolding slot_utc local_date
slot_later zone hour after day z h =
    omega (arith, z.behind after, z.ahead_utc (day * day_seconds + hour * 3600))

jump_close : (stride date anchor : ℕ) → 1 ≤ stride → date < jump stride date anchor + stride
unfolding jump
jump_close stride date anchor h =
    ground (arith, div-add-mod (date - anchor) stride, mod-lt (date - anchor) h)

-- The jump moves by whole strides.
pub jump_strides :
    (stride date anchor : ℕ) → (k : ℕ) × (jump stride date anchor ≡ anchor + k * stride)
unfolding jump
jump_strides stride date anchor = elim (Bool-cases (ltb anchor date)) [
  | inl behind ↦ ((date - anchor) / stride, rw behind refl)
  | inr level ↦ (0, rw level (omega arith))
]

-- A slot that the search finds, on a day of the anchor's series.
pub record IsSlot (zone : Zone) (stride day_of_week hour after anchor : ℕ) (answer : Option ℕ)
    : Type 0 where
  pub day : ℕ
  pub result : answer ≡ some (slot_utc zone hour day)
  pub later : after < slot_utc zone hour day
  pub weekday : day % 7 ≡ day_of_week
  pub strides : ℕ
  pub series : day ≡ anchor + strides * stride
  pub first : (day ≡ anchor) ⊎ (slot_utc zone hour (day - stride) ≤ after)

seek-IsSlot :
    (zone : Zone) (stride day_of_week hour after anchor : ℕ)
    → IsZone zone
    → (stride ≡ 7) ⊎ (stride ≡ 14)
    → anchor % 7 ≡ day_of_week
    → local_date zone after < anchor + stride
    → IsSlot zone stride day_of_week hour after anchor (seek 2 zone stride hour after anchor)
unfolding seek
seek-IsSlot zone stride day_of_week hour after anchor z s w near =
    elim (Bool-cases (leb (slot_utc zone hour anchor) after)) [
      | inr now ↦ record {
        day = anchor;
        result = rw (now, seek) refl;
        later = ground arith;
        weekday = w;
        strides = 0;
        series = omega arith;
        first = inl refl;
      }
      | inl past ↦ elim (Bool-cases (leb (slot_utc zone hour (anchor + stride)) after)) [
        | inr now ↦ record {
          day = anchor + stride;
          result = rw (past, now, seek) refl;
          later = ground arith;
          weekday = same_weekday anchor ∙ w;
          strides = 1;
          series = omega arith;
          first = inr (rw (back anchor) (ground arith));
        }
        | inl past_too ↦
            let ahead = slot_later zone hour after (anchor + stride + stride) z (far s) in
            record {
              day = anchor + stride + stride;
              result = rw (past, past_too, seek) (rw (not_past ahead) refl);
              later = ahead;
              weekday = same_weekday (anchor + stride) ∙ same_weekday anchor ∙ w;
              strides = 2;
              series = omega arith;
              first = inr (rw (back (anchor + stride)) (ground arith));
            }
      ]
    ]
  where
    same_weekday : (day : ℕ) → (day + stride) % 7 ≡ day % 7
    same_weekday day = elim s [ inl e ↦ rw e (omega arith) | inr e ↦ rw e (omega arith) ]

    back : (day : ℕ) → day + stride - stride ≡ day
    back day = omega arith

    far : (stride ≡ 7) ⊎ (stride ≡ 14) → local_date zone after + 3 ≤ anchor + stride + stride
    far (inl e) = omega arith
    far (inr e) = omega arith

    not_past :
        after < slot_utc zone hour (anchor + stride + stride)
        → leb (slot_utc zone hour (anchor + stride + stride)) after ≡ false
    not_past h = ground arith

jump_weekday :
    (stride date anchor : ℕ)
    → (stride ≡ 7) ⊎ (stride ≡ 14)
    → jump stride date anchor % 7 ≡ anchor % 7
jump_weekday stride date anchor s =
    let j = jump_strides stride date anchor in
    elim s [ inl e ↦ rw j.1 (rw e (omega arith)) | inr e ↦ rw j.1 (rw e (omega arith)) ]

anchor_weekday :
    (zone : Zone) (stride day_of_week date : ℕ) (last : Option ℕ)
    → day_of_week ≤ 6
    → anchor_of zone stride day_of_week date last % 7 ≡ day_of_week
unfolding anchor_of
anchor_weekday zone stride day_of_week date none h = snap_weekday date day_of_week h
anchor_weekday zone stride day_of_week date (some last) h = elim (Bool-cases (ltb 7 stride)) [
  | inl over ↦ rw over (snap_weekday (local_date zone last) day_of_week h)
  | inr week ↦ rw week (snap_weekday date day_of_week h)
]

-- The weekly and fortnightly rules answer: in every zone whose offset is less than a day, with two
-- rounds of the loop, the rule finds a slot; it is strictly behind the instant, on the wanted weekday,
-- whole strides from the anchor that the jump reached, and the first of these behind the instant.
pub next_by_stride-IsSlot :
    (zone : Zone) (stride day_of_week hour after : ℕ) (last : Option ℕ)
    → IsZone zone
    → (stride ≡ 7) ⊎ (stride ≡ 14)
    → day_of_week ≤ 6
    → IsSlot zone stride day_of_week hour after
        (jump stride
          (local_date zone after)
          (anchor_of zone stride day_of_week (local_date zone after) last))
        (next_by_stride zone stride day_of_week hour after last)
unfolding next_by_stride
next_by_stride-IsSlot zone stride day_of_week hour after last z s h =
    let date = local_date zone after in
    let anchor = anchor_of zone stride day_of_week date last in
    seek-IsSlot zone stride day_of_week hour after (jump stride date anchor) z s
      (jump_weekday stride date anchor s ∙ anchor_weekday zone stride day_of_week date last h)
      (jump_close stride date anchor (elim s [ inl e ↦ omega arith | inr e ↦ omega arith ]))
