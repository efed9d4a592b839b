-- ===== src/Actuators/Ledger.antt =====
-- backend/app/actuators/contract.py, backend/app/db/adapters/action_store.py
use socio_seo_agent.Prelude.{
  ℕ, ◌+◌, String, Bool, true, false, ◌&&◌, Option, none, some, List, [], ◌∷◌, ◌++◌, leb, ◌==◌, any,
  str_eq, if◌then◌else◌,
}
use socio_seo_agent.Json.{Fields, end, get, truthy}

pub data Status : Type 0 where
  succeeded failed refused : Status

-- `ACTION_STATUSES`: a row may also be in flight.
pub data RowStatus : Type 0 where
  in_flight : RowStatus
  settled : Status → RowStatus

-- The error text of an outcome, kept as its cause.
pub data Cause : Type 0 where
  wrong_actuator not_visible already_in_flight no_approval : Cause
  message : String → Cause

pub record Actuation : Type 0 where
  pub business_id : ℕ
  pub action_type : String
  pub target : String
  pub payload : Fields
  pub approved_by : String
  pub key : Option String

-- `Outcome`, less its timestamp.
pub record Outcome : Type 0 where
  pub status : Status
  pub action_type : String
  pub target : String
  pub external_ref : Option String
  pub detail : Fields
  pub error : Option Cause
  pub replayed : Bool
  pub fake : Bool

-- `Action`
pub record Row : Type 0 where
  pub business_id : ℕ
  pub action_type : String
  pub key : String
  pub status : RowStatus
  pub payload : Fields
  pub external_ref : Option String
  pub result : Fields
  pub error : Option Cause
  pub created_at : ℕ

abbrev pub Table : Type 0
Table = List Row

-- `Actuation.idempotency_key`: the caller's key unless it is blank, else one of the content.
unfoldable pub idempotency_key : (Actuation → String) → Actuation → String
idempotency_key derive a = elim a.key [
  | none ↦ derive a
  | some key ↦ if str_eq key "" then derive a else key
]

-- The row that holds a key.
unfoldable pub row_at : String → Table → Option Row
row_at key [] = none
row_at key (row ∷ rows) = if str_eq row.key key then some row else row_at key rows

unfoldable pub fresh_row : ℕ → String → Actuation → Row
fresh_row now key a = record {
  business_id = a.business_id;
  action_type = a.action_type;
  key = key;
  status = in_flight;
  payload = a.payload;
  external_ref = none;
  result = end;
  error = none;
  created_at = now;
}

unfoldable pub refusal : Actuation → Cause → Outcome
refusal a cause = record {
  status = refused;
  action_type = a.action_type;
  target = a.target;
  external_ref = none;
  detail = end;
  error = some cause;
  replayed = false;
  fake = false;
}

-- The outcome that a row holds, as the tenant of the actuation sees it.
unfoldable pub held : Actuation → Row → Outcome
unfolding refusal get truthy
held a row =
    if row.business_id == a.business_id
    then elim row.status [
      | in_flight ↦ refusal a already_in_flight
      | settled status ↦ record {
        status = status;
        action_type = row.action_type;
        target = a.target;
        external_ref = row.external_ref;
        detail = row.result;
        error = row.error;
        replayed = false;
        fake = elim (get "simulated" row.result) [ some v ↦ truthy v | none ↦ false ];
      }
    ]
    else refusal a not_visible

-- `PostgresActionStore.claim` where the key's row, if any, is given: the insert is the lock.
unfoldable pub claim_at : ℕ → String → Actuation → Table → Option Row → Option Outcome × Table
unfolding fresh_row held
claim_at now key a rows none = (none, rows ++ fresh_row now key a ∷ [])
claim_at now key a rows (some row) = (some (held a row), rows)

unfoldable pub claim : ℕ → String → Actuation → Table → Option Outcome × Table
unfolding claim_at row_at
claim now key a rows = claim_at now key a rows (row_at key rows)

unfoldable pub settle_row : String → Actuation → Outcome → Row → Row
settle_row key a outcome row =
    if str_eq row.key key && row.business_id == a.business_id
    then record row {
      status = settled outcome.status;
      external_ref = outcome.external_ref;
      result = outcome.detail;
      error = outcome.error;
    }
    else row

-- `PostgresActionStore.settle`: an UPDATE, which changes no row where the key is unknown.
unfoldable pub settle : String → Actuation → Outcome → Table → Table
unfolding settle_row
settle key a outcome [] = []
settle key a outcome (row ∷ rows) = settle_row key a outcome row ∷ settle key a outcome rows

unfoldable pub counts : RowStatus → Bool
counts in_flight = true
counts (settled succeeded) = true
counts (settled _) = false

-- `PostgresActionStore.published_since`
unfoldable pub published_since : ℕ → List String → ℕ → Table → ℕ
unfolding counts
published_since business_id action_types since [] = 0
published_since business_id action_types since (row ∷ rows) =
    let rest = published_since business_id action_types since rows in
    if row.business_id == business_id
      && any (str_eq row.action_type) action_types
      && counts row.status
      && leb since row.created_at
    then 1 + rest
    else rest
