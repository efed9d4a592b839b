-- ===== src/Publish/Cap.antt =====
-- The weekly ceiling over the ledger that `actuate` writes.
use socio_seo_agent.Prelude.{
  ℕ, ◌+◌, ◌≤◌, String, ◌≡◌, refl, ap, false, Option, none, some, List, [], ◌∷◌, ◌++◌, arith, str_eq,
  Bool-cases, inl, inr,
}
use socio_seo_agent.Actuators.Ledger
use socio_seo_agent.Actuators.Ledger.{
  Actuation, Outcome, Row, Table, Status, in_flight, settled, row_at, fresh_row, settle, settle_row,
  counts, published_since, claim, claim_at, refusal, no_approval,
}
use socio_seo_agent.Actuators.Actuate.{Actuator, World, outcome_of, actuate, request, carry_out}
use socio_seo_agent.Strings.{is_blank}
use socio_seo_agent.Publish.{headroom, exhausted, window_start, counter_for, weekly_publish_state}

settle_free :
    (key : String) (a : Actuation) (outcome : Outcome) (rows : Table)
    → row_at key rows ≡ none
    → settle key a outcome rows ≡ rows
unfolding settle row_at settle_row
settle_free key a outcome [] h = refl
settle_free key a outcome (row ∷ rows) h = ground (arith, settle_free key a outcome rows)

settle-append :
    (key : String) (a : Actuation) (outcome : Outcome) (xs ys : Table)
    → settle key a outcome (xs ++ ys) ≡ settle key a outcome xs ++ settle key a outcome ys
unfolding settle
settle-append key a outcome [] ys = refl
settle-append key a outcome (x ∷ xs) ys =
    ap (λ r. settle_row key a outcome x ∷ r) (settle-append key a outcome xs ys)

published_snoc :
    (business_id : ℕ) (types : List String) (since : ℕ) (rows : Table) (row : Row)
    → published_since business_id types since (rows ++ row ∷ [])
      ≤ published_since business_id types since rows + 1
unfolding published_since
published_snoc business_id types since [] row = ground arith
published_snoc business_id types since (r ∷ rows) row =
    ground (arith, published_snoc business_id types since rows row)

carried_published :
    (business_id : ℕ) (types : List String) (since now : ℕ) (key : String) (actuator : Actuator)
    (a : Actuation) (w : World)
    → row_at key w.rows ≡ none
    → published_since business_id types since
        (carry_out key actuator a (record w { rows = w.rows ++ fresh_row now key a ∷ [] })).1.rows
      ≤ published_since business_id types since w.rows + 1
unfolding carry_out settle
carried_published business_id types since now key actuator a w free =
    elim (Bool-cases (is_blank a.approved_by)) [
      | inl blank ↦ rw (blank, carry_out) (written (refusal a no_approval))
      | inr approved ↦
          rw (approved, carry_out) (written (outcome_of actuator a (actuator.perform w.sent a)))
    ]
  where
    written :
        (outcome : Outcome)
        → published_since business_id types since
            (settle key a outcome (w.rows ++ fresh_row now key a ∷ []))
          ≤ published_since business_id types since w.rows + 1
    written outcome =
        rw
          (
            settle-append key a outcome w.rows (fresh_row now key a ∷ []),
            settle_free key a outcome w.rows free,
          )
          (published_snoc business_id types since w.rows
            (settle_row key a outcome (fresh_row now key a)))

requested_published :
    (business_id : ℕ) (types : List String) (since now : ℕ) (key : String) (actuator : Actuator)
    (a : Actuation) (w : World) (found : Option Row)
    → row_at key w.rows ≡ found
    → published_since business_id types since
        (request key actuator a w (claim_at now key a w.rows found)).1.rows
      ≤ published_since business_id types since w.rows + 1
unfolding request claim_at
requested_published business_id types since now key actuator a w none e =
    carried_published business_id types since now key actuator a w e
requested_published business_id types since now key actuator a w (some row) e = omega arith

-- One request adds at most one piece to any window's count.
pub actuate_publishes :
    (business_id : ℕ) (types : List String) (since now : ℕ) (derive : Actuation → String)
    (actuator : Actuator) (a : Actuation) (w : World)
    → published_since business_id types since (actuate derive now actuator a w).1.rows
      ≤ published_since business_id types since w.rows + 1
unfolding actuate claim
actuate_publishes business_id types since now derive actuator a w =
    elim (Bool-cases (str_eq actuator.action_type a.action_type)) [
      | inr wrong ↦ rw (wrong, actuate) (omega arith)
      | inl right ↦
          rw (right, actuate)
            (requested_published business_id types since now (Ledger.idempotency_key derive a)
              actuator a w _ refl)
    ]

-- The weekly ceiling holds: where the state that is read at an instant is not exhausted, a request
-- sent at that instant, with whatever integration and answer, leaves the business within its ceiling,
-- the named one or the configured one.
pub publish_within_cap :
    (configured : ℕ) (named : Option ℕ) (business_id : ℕ) (types : List String) (now : ℕ)
    (derive : Actuation → String) (actuator : Actuator) (a : Actuation) (w : World)
    → exhausted (weekly_publish_state configured (counter_for w.rows types now) business_id named)
      ≡ false
    → counter_for (actuate derive now actuator a w).1.rows types now business_id
      ≤ (weekly_publish_state configured (counter_for w.rows types now) business_id named).cap
unfolding exhausted headroom weekly_publish_state counter_for
publish_within_cap configured named business_id types now derive actuator a w h =
    ground (arith, actuate_publishes business_id types (window_start now) now derive actuator a w)
