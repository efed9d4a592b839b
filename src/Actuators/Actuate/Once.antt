-- ===== src/Actuators/Actuate/Once.antt =====
-- How often a key reaches an integration.
use socio_seo_agent.Prelude.{
  ℕ, ◌+◌, ◌≤◌, String, ◌≡◌, refl, Option, none, some, List, [], ◌∷◌, ◌++◌, arith, str_eq, eq_iff,
  if◌then◌else◌, Bool-cases, inl, inr,
}
use socio_seo_agent.Strings.{is_blank}
use socio_seo_agent.Actuators.Ledger
use socio_seo_agent.Actuators.Ledger.{
  Actuation, Outcome, Row, Table, row_at, fresh_row, settle, claim, claim_at, held,
}
use socio_seo_agent.Actuators.Actuate.{Actuator, World, carry_out, request, actuate}
use socio_seo_agent.Actuators.Actuate.Rows.{taken, taken_free, taken_le, taken-settle, taken-append}

-- One request of a sequence: when, through which integration, and what.
pub record Request : Type 0 where
  pub now : ℕ
  pub actuator : Actuator
  pub actuation : Actuation

module _ (derive : Actuation → String) where
  -- The calls that were made under a key.
  unfoldable pub calls : String → List Actuation → ℕ
  calls key [] = 0
  calls key (a ∷ sent) =
      (if str_eq (Ledger.idempotency_key derive a) key then 1 else 0) + calls key sent

  pub calls-snoc :
      (key : String) (sent : List Actuation) (a : Actuation)
      → calls key (sent ++ a ∷ [])
        ≡ calls key sent + (if str_eq (Ledger.idempotency_key derive a) key then 1 else 0)
  unfolding calls
  calls-snoc key [] a = omega arith
  calls-snoc key (b ∷ sent) a = omega (arith, calls-snoc key sent a)

  -- The ledger has a row for each call, and no key more calls than rows.
  pub record IsLedger (w : World) : Type 0 where
    pub called : (key : String) → calls key w.sent ≤ taken key w.rows

  carry_out-IsLedger :
      (actuator : Actuator) (a : Actuation) (w : World)
      → ((key : String)
          → calls key w.sent + (if str_eq (Ledger.idempotency_key derive a) key then 1 else 0)
            ≤ taken key w.rows)
      → IsLedger (carry_out (Ledger.idempotency_key derive a) actuator a w).1
  unfolding carry_out
  carry_out-IsLedger actuator a w h = elim (Bool-cases (is_blank a.approved_by)) [
    | inl blank ↦
        rw (blank, carry_out) (record { called = λ key. rw taken-settle (omega (arith, h key)) })
    | inr approved ↦
        rw (approved, carry_out) (record { called = λ key. rw (taken-settle, calls-snoc) (h key) })
  ]

  request-IsLedger :
      (now : ℕ) (actuator : Actuator) (a : Actuation) (w : World) (found : Option Row)
      → row_at (Ledger.idempotency_key derive a) w.rows ≡ found
      → IsLedger w
      → IsLedger
          (request
            (Ledger.idempotency_key derive a)
            actuator
            a
            w
            (claim_at now (Ledger.idempotency_key derive a) a w.rows found)).1
  unfolding request claim_at
  request-IsLedger now actuator a w (some row) e h = record { called = h.called }
  request-IsLedger now actuator a w none e h =
      carry_out-IsLedger actuator a
        (record w { rows = w.rows ++ fresh_row now (Ledger.idempotency_key derive a) a ∷ [] })
        (λ key. rw taken-append (room key))
    where
      room :
          (key : String)
          → calls key w.sent + (if str_eq (Ledger.idempotency_key derive a) key then 1 else 0)
            ≤ (if str_eq (Ledger.idempotency_key derive a) key then 1 else taken key w.rows)
      room key = ground (
        arith,
        eq_iff (Ledger.idempotency_key derive a) key,
        h.called key,
        h.called (Ledger.idempotency_key derive a),
        taken_free (Ledger.idempotency_key derive a) w.rows,
      )

  -- One request keeps the ledger.
  pub actuate-IsLedger :
      (now : ℕ) (actuator : Actuator) (a : Actuation) (w : World)
      → IsLedger w
      → IsLedger (actuate derive now actuator a w).1
  unfolding actuate claim
  actuate-IsLedger now actuator a w h =
      elim (Bool-cases (str_eq actuator.action_type a.action_type)) [
        | inr wrong ↦ rw (wrong, actuate) h
        | inl right ↦ rw (right, actuate) (request-IsLedger now actuator a w _ refl h)
      ]

  unfoldable pub actuate_all : World → List Request → World
  actuate_all w [] = w
  actuate_all w (r ∷ rs) = actuate_all (actuate derive r.now r.actuator r.actuation w).1 rs

  actuate_all-IsLedger : (w : World) (rs : List Request) → IsLedger w → IsLedger (actuate_all w rs)
  unfolding actuate_all
  actuate_all-IsLedger w [] h = h
  actuate_all-IsLedger w (r ∷ rs) h =
      actuate_all-IsLedger (actuate derive r.now r.actuator r.actuation w).1 rs
        (actuate-IsLedger r.now r.actuator r.actuation w h)

  -- Exactly once: from an empty ledger, whatever is requested in whatever order, with whatever
  -- integrations and answers, at most one call is ever made under one idempotency key.
  pub actuate_all_once :
      (rs : List Request) (key : String)
      → calls key (actuate_all (record { rows = []; sent = [] }) rs).sent ≤ 1
  unfolding calls
  actuate_all_once rs key = omega (
    arith,
    (actuate_all-IsLedger (record { rows = []; sent = [] }) rs
          (record { called = λ k. omega arith })).called
        key,
    taken_le key (actuate_all (record { rows = []; sent = [] }) rs).rows,
  )
