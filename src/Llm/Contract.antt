-- ===== src/Llm/Contract.antt =====
-- backend/app/llm/contract.py. An amount is a number of units of 1e-8 USD, the quantum of the ledger.
use socio_seo_agent.Prelude.{ℕ, ◌+◌, String, Bool, true, false, Option, List, leb}
use socio_seo_agent.Json.{Fields}

pub data TaskClass : Type 0 where
  classify extract repack plan prioritise generate review embed : TaskClass

pub data Tier : Type 0 where
  cheap mid strong embed : Tier

pub data Role : Type 0 where
  system user assistant tool : Role

pub record ToolCall : Type 0 where
  pub name : String
  pub arguments : Fields
  pub call_id : String

pub record ToolSpec : Type 0 where
  pub name : String
  pub description : String
  pub parameters : Fields

pub record Message : Type 0 where
  pub role : Role
  pub content : String
  pub tool_calls : List ToolCall
  pub tool_call_id : Option String

pub record Usage : Type 0 where
  pub provider : String
  pub model : String
  pub tokens_in : ℕ
  pub tokens_out : ℕ
  pub usd : ℕ
  pub latency_ms : ℕ
  pub estimated : Bool

pub record Completion : Type 0 where
  pub text : Option String
  pub tool_calls : List ToolCall
  pub usage : Usage
  pub is_final : Bool

pub record Budget : Type 0 where
  pub limit_usd : ℕ
  pub spent_usd : ℕ

-- `can_afford`: the remaining budget, which may be negative, covers the estimate.
unfoldable pub can_afford : ℕ → Budget → Bool
can_afford estimated_usd b = leb (estimated_usd + b.spent_usd) b.limit_usd

-- `BudgetState.record`
unfoldable pub record_usage : Usage → Budget → Budget
record_usage usage b = record b { spent_usd = b.spent_usd + usage.usd }

-- The exceptions of a provider's call: 429, a timeout, 5xx or transport, 403 or 404, another 4xx,
-- tool arguments that are not an object, an unpriced model, and any other.
pub data Fault : Type 0 where
  rate_limit timeout server model_unavailable request tool_arguments : Fault
  unpriced : String → Fault
  other : String → Fault

-- `RETRYABLE_ERRORS`
unfoldable pub retryable : Fault → Bool
retryable rate_limit = true
retryable timeout = true
retryable server = true
retryable model_unavailable = true
retryable _ = false

-- `ProviderFailure`
pub record Failure : Type 0 where
  pub provider : String
  pub model : String
  pub error : Fault
