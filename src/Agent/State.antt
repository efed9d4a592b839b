-- ===== src/Agent/State.antt =====
-- backend/app/agents/state.py: the run's state and the rules that bound a run.
use socio_seo_agent.Prelude.{
  ℕ, ◌+◌, String, Bool, false, Option, none, some, List, [], ◌∷◌, ◌++◌, ltb, ◌==◌, any,
  if◌then◌else◌, Result, ok, err, str_eq,
}
use socio_seo_agent.Json.{Json, Fields, text, insert}
use socio_seo_agent.Strings.{strip}

pub data NodeName : Type 0 where
  intake harvest opportunity plan generate convert validate repack review export measure : NodeName

-- The position of a name in `ORDER`, by which names are compared.
unfoldable pub index : NodeName → ℕ
index intake = 0
index harvest = 1
index opportunity = 2
index plan = 3
index generate = 4
index convert = 5
index validate = 6
index repack = 7
index review = 8
index export = 9
index measure = 10

unfoldable pub same : NodeName → NodeName → Bool
unfolding index
same a b = index a == index b

pub data Outcome : Type 0 where
  running awaiting_approval done partial failed : Outcome

pub record NodeError : Type 0 where
  pub node : NodeName
  pub code : String
  pub message : String

pub record RunCaps : Type 0 where
  pub max_steps : ℕ
  pub max_usd : ℕ
  pub max_validate_loops : ℕ

pub data Cap : Type 0 where
  max_steps max_usd max_validate_loops : Cap

pub record CapExceeded : Type 0 where
  pub cap : Cap
  pub limit : ℕ
  pub attempted : ℕ

-- The sentence of `finished_reason`, kept as the values that it is formatted from.
pub data Reason : Type 0 where
  opportunity_failed : (cause : String) → Reason
  no_opportunity : Reason
  claims_blocked : (loops : ℕ) (hits : Option Json) → Reason
  weak_quality : (score : Option Json) (loops : ℕ) → Reason
  cap_reached : (cap : Cap) (limit : ℕ) → Reason

-- `AgentState`. The keys that only nodes and screens read and write are the dict `contents`.
pub record AgentState : Type 0 where
  pub contents : Fields
  pub caps : RunCaps
  pub step_count : ℕ
  pub cost_usd : ℕ
  pub validate_loops : ℕ
  pub errors : List NodeError
  pub visited : List NodeName
  pub outcome : Outcome
  pub finished_reason : Option Reason
  pub publication_blocked : Bool

unfoldable pub new_state : Fields → RunCaps → AgentState
new_state contents caps = record {
  contents = contents;
  caps = caps;
  step_count = 0;
  cost_usd = 0;
  validate_loops = 0;
  errors = [];
  visited = [];
  outcome = running;
  finished_reason = none;
  publication_blocked = false;
}

unfoldable pub step : AgentState → NodeName → Result CapExceeded AgentState
step state node =
    let attempted = state.step_count + 1 in
    if ltb state.caps.max_steps attempted
    then err (record { cap = max_steps; limit = state.caps.max_steps; attempted = attempted })
    else ok (record state { step_count = attempted; visited = state.visited ++ node ∷ [] })

unfoldable pub charge : AgentState → ℕ → Result CapExceeded AgentState
charge state usd =
    let attempted = state.cost_usd + usd in
    if ltb state.caps.max_usd attempted
    then err (record { cap = max_usd; limit = state.caps.max_usd; attempted = attempted })
    else ok (record state { cost_usd = attempted })

-- `approve`; `none` is its ValueError.
unfoldable pub approve : AgentState → String → Option AgentState
unfolding insert strip
approve state approver =
    let named = strip approver in
    if str_eq named ""
    then none
    else some (record state { contents = insert "approved_by" (text named) state.contents })

unfoldable pub record_error : AgentState → NodeError → AgentState
record_error state error = record state { errors = state.errors ++ error ∷ [] }

unfoldable pub enter_validate_loop : AgentState → Result CapExceeded AgentState
enter_validate_loop state =
    let attempted = state.validate_loops + 1 in
    if ltb state.caps.max_validate_loops attempted
    then err (record {
      cap = max_validate_loops;
      limit = state.caps.max_validate_loops;
      attempted = attempted;
    })
    else ok (record state { validate_loops = attempted })

-- node in state["visited"]
unfoldable pub is_visited : NodeName → List NodeName → Bool
unfolding same
is_visited node visited = any (same node) visited
