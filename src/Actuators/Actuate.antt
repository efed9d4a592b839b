-- ===== src/Actuators/Actuate.antt =====
-- backend/app/actuators/actuate.py
pub mod Rows
pub mod Once
pub mod Replay
pub mod Settled
use socio_seo_agent.Prelude.{
  ℕ, String, Bool, true, false, ◌&&◌, ◌||◌, Option, none, some, List, [], ◌∷◌, ◌++◌, leb, ◌==◌,
  str_eq, if◌then◌else◌, not,
}
use socio_seo_agent.Strings.{is_blank}
use socio_seo_agent.Json.{Json, Fields, end, field, bool}
use socio_seo_agent.Actuators.Ledger
use socio_seo_agent.Actuators.Ledger.{
  Status, succeeded, failed, refused, Cause, wrong_actuator, no_approval, message, Actuation,
  Outcome, Table, refusal, claim, settle,
}

-- What an integration's `perform` does: it returns an outcome or raises `ActuationRefusedError`,
-- `ActuatorError` with its `retryable`, or another exception.
pub data Attempt : Type 0 where
  performed : Outcome → Attempt
  declined : String → Attempt
  errored : String → (retryable : Bool) → Attempt
  crashed : String → Attempt

pub record Actuator : Type 0 where
  pub action_type : String
  pub fake : Bool
  pub perform : List Actuation → Actuation → Attempt

-- The ledger, and the calls that reached an integration, in their order.
pub record World : Type 0 where
  pub rows : Table
  pub sent : List Actuation

unfoldable pub unsuccessful : Actuator → Actuation → Status → String → Fields → Outcome
unsuccessful actuator a status text detail = record {
  status = status;
  action_type = a.action_type;
  target = a.target;
  external_ref = none;
  detail = detail;
  error = some (message text);
  replayed = false;
  fake = actuator.fake;
}

-- The `try` around `perform`.
unfoldable pub outcome_of : Actuator → Actuation → Attempt → Outcome
unfolding unsuccessful
outcome_of actuator a (performed outcome) = outcome
outcome_of actuator a (declined text) = unsuccessful actuator a refused text end
outcome_of actuator a (errored text retryable) =
    unsuccessful actuator a failed text (field "retryable" (bool retryable) end)
outcome_of actuator a (crashed text) = unsuccessful actuator a failed text end

-- The call, behind a claim that reserved the key: approval, the call, and the settlement.
unfoldable pub carry_out : String → Actuator → Actuation → World → Outcome × World
unfolding is_blank outcome_of refusal settle
carry_out key actuator a w =
    if is_blank a.approved_by
    then (refusal a no_approval, record w { rows = settle key a (refusal a no_approval) w.rows })
    else let outcome = outcome_of actuator a (actuator.perform w.sent a) in
      (outcome, record { rows = settle key a outcome w.rows; sent = w.sent ++ a ∷ [] })

unfoldable pub replay : Outcome → Outcome
replay existing = record existing { replayed = true }

-- What follows the claim.
unfoldable pub request :
    String → Actuator → Actuation → World → Option Outcome × Table → Outcome × World
unfolding carry_out replay
request key actuator a w (some outcome, rows) = (replay outcome, record w { rows = rows })
request key actuator a w (none, rows) = carry_out key actuator a (record w { rows = rows })

unfoldable pub actuate : (Actuation → String) → ℕ → Actuator → Actuation → World → Outcome × World
unfolding request claim
actuate derive now actuator a w =
    let key = Ledger.idempotency_key derive a in
    if not (str_eq actuator.action_type a.action_type)
    then (refusal a wrong_actuator, w)
    else request key actuator a w (claim now key a w.rows)
