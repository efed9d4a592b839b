-- ===== src/Llm/Router.antt =====
-- `ModelRouter` of backend/app/llm/router.py.
pub mod Reach
pub mod Honest
pub mod Guard
pub mod Defaults
use socio_seo_agent.Prelude.{
  ℕ, ◌+◌, String, Bool, true, false, ◌&&◌, ◌||◌, not, Option, none, some, List, [], ◌∷◌, ◌++◌,
  str_eq, any, if◌then◌else◌, Result, ok, err,
}
use socio_seo_agent.Json.{Fields}
use socio_seo_agent.Llm.Contract.{
  TaskClass, Tier, ToolCall, ToolSpec, Message, Usage, Completion, Budget, can_afford, record_usage,
  Fault, retryable, Failure,
}
use socio_seo_agent.Llm.Pricing.{compute_usd, token_estimate}
use socio_seo_agent.Llm.Routes.{
  RouteEntry, Resolver, task_tier, tier_chain, fake_chain, is_disabled, base_url, keyless_available,
  tier_for_task, chain_for_task, temperature_for, max_tokens_for,
}

-- What a provider is asked.
pub record Call : Type 0 where
  pub entry : RouteEntry
  pub messages : List Message
  pub tools : List ToolSpec
  pub temperature : Option ℕ
  pub max_tokens : Option ℕ

-- The router: its tables, its configuration if any, the rendering of JSON, and what an adapter answers
-- to a call behind the calls before it.
pub record Router : Type 0 where
  pub chains : Tier → List RouteEntry
  pub task_tiers : TaskClass → Tier
  pub default_max_tokens : ℕ
  pub resolver : Option Resolver
  pub dumps : Fields → String
  pub join : String → String → String → String
  pub serve : List Call → Call → Result Fault Completion

-- The adapters that exist, the budget if any, the usage handed to the sink, and the calls that
-- were made.
pub record World : Type 0 where
  pub providers : List String
  pub budget : Option Budget
  pub sunk : List Usage
  pub calls : List Call

pub data Reply : Type 0 where
  completed : Completion → Reply
  budget_exceeded : String → (limit spent estimated : ℕ) → Reply
  unavailable : String → Reply
  raised : Fault → Reply
  all_failed : List Failure → Reply

pub record ResolvedRoute : Type 0 where
  pub tier : Tier
  pub chain : List RouteEntry
  pub using_fake : Bool

-- `_usable`
unfoldable pub usable : Option Resolver → List String → String → Bool
unfolding is_disabled keyless_available
usable none providers name = any (str_eq name) providers
usable (some r) providers name =
    not (is_disabled r name) && (any (str_eq name) providers || keyless_available r name)

unfoldable pub usable_entries : (String → Bool) → List RouteEntry → List RouteEntry
usable_entries test [] = []
usable_entries test (entry ∷ entries) =
    let rest = usable_entries test entries in if test entry.provider then entry ∷ rest else rest

or_fake : Tier → List RouteEntry → ResolvedRoute
unfolding fake_chain
or_fake tier [] = record { tier = tier; chain = fake_chain tier; using_fake = true }
or_fake tier (entry ∷ chain) = record { tier = tier; chain = entry ∷ chain; using_fake = false }

unfoldable pub resolve : Router → TaskClass → List String → ResolvedRoute
unfolding usable usable_entries or_fake tier_for_task chain_for_task
resolve m task providers = elim m.resolver [
  | none ↦
      or_fake (m.task_tiers task)
        (usable_entries (usable none providers) (m.chains (m.task_tiers task)))
  | some r ↦
      or_fake (tier_for_task r task)
        (usable_entries (usable (some r) providers) (chain_for_task r task))
]

-- An adapter for a local server is built where its address is stored.
unfoldable pub build : Option String → String → List String → Option (List String)
build none name providers = none
build (some url) name providers = if str_eq url "" then none else some (providers ++ name ∷ [])

-- `_provider_for`: the adapters behind it, or `ProviderUnavailableError`.
unfoldable pub provider_for : Option Resolver → String → List String → Option (List String)
unfolding build base_url
provider_for resolver name providers =
    if any (str_eq name) providers then some providers else elim resolver [
      | none ↦ none
      | some r ↦ if str_eq name "ollama" then build (base_url r name) name providers else none
    ]

unfoldable pub call_tokens : (Fields → String) → List ToolCall → ℕ
unfolding token_estimate
call_tokens dumps [] = 0
call_tokens dumps (c ∷ cs) = token_estimate (dumps c.arguments) + call_tokens dumps cs

unfoldable pub message_tokens : (Fields → String) → List Message → ℕ
unfolding token_estimate call_tokens
message_tokens dumps [] = 0
message_tokens dumps (m ∷ ms) =
    token_estimate m.content + call_tokens dumps m.tool_calls + message_tokens dumps ms

unfoldable pub tool_tokens :
    (Fields → String) → (String → String → String → String) → List ToolSpec → ℕ
unfolding token_estimate
tool_tokens dumps join [] = 0
tool_tokens dumps join (t ∷ ts) =
    token_estimate (join t.name t.description (dumps t.parameters)) + tool_tokens dumps join ts

-- `estimate_usd`
unfoldable pub estimate_usd :
    Router → String → List Message → List ToolSpec → Option ℕ → Result Fault ℕ
unfolding compute_usd message_tokens tool_tokens
estimate_usd m model messages tools max_tokens =
    compute_usd model (message_tokens m.dumps messages + tool_tokens m.dumps m.join tools)
      (elim max_tokens [ some n ↦ n | none ↦ m.default_max_tokens ])

-- The guard: the reply that it raises, if any.
unfoldable pub guard : String → Budget → Result Fault ℕ → Option Reply
unfolding can_afford
guard model b (err fault) = some (raised fault)
guard model b (ok estimate) =
    if can_afford estimate b
    then none
    else some (budget_exceeded model b.limit_usd b.spent_usd estimate)

unfoldable pub configured_temperature : Option Resolver → TaskClass → String → Option ℕ
unfolding temperature_for
configured_temperature none task model = none
configured_temperature (some r) task model = temperature_for r task model

unfoldable pub configured_max_tokens : Option Resolver → TaskClass → Option ℕ
unfolding max_tokens_for
configured_max_tokens none task = none
configured_max_tokens (some r) task = max_tokens_for r task

unfoldable pub or_else : Option ℕ → Option ℕ → Option ℕ
or_else none configured = configured
or_else (some n) configured = some n

-- What one entry of the chain comes to.
pub data Attempt : Type 0 where
  ended : Reply → World → Attempt
  failed : Failure → World → Attempt

-- budget.record(completion.usage), where there is a budget
unfoldable pub book : Usage → Option Budget → Option Budget
unfolding record_usage
book usage none = none
book usage (some b) = some (record_usage usage b)

unfoldable pub answered : RouteEntry → World → Result Fault Completion → Attempt
unfolding retryable book
answered entry w (err fault) =
    if retryable fault
    then failed (record { provider = entry.provider; model = entry.model; error = fault }) w
    else ended (raised fault) w
answered entry w (ok completion) =
    ended (completed completion)
      (record w { budget = book completion.usage w.budget; sunk = w.sunk ++ completion.usage ∷ [] })

unfoldable pub call_provider : Router → Call → World → Attempt
unfolding answered
call_provider m call w =
    answered call.entry (record w { calls = w.calls ++ call ∷ [] }) (m.serve w.calls call)

unfoldable pub guarded : Router → Call → World → Option Reply → Attempt
unfolding call_provider
guarded m call w (some reply) = ended reply w
guarded m call w none = call_provider m call w

unfoldable pub check_budget : Router → Call → Option Budget → Option Reply
unfolding guard estimate_usd
check_budget m call none = none
check_budget m call (some b) =
    guard call.entry.model b
      (estimate_usd m call.entry.model call.messages call.tools call.max_tokens)

unfoldable pub attempt : Router → Call → World → Option (List String) → Attempt
unfolding guarded check_budget
attempt m call w none = ended (unavailable call.entry.provider) w
attempt m call w (some providers) =
    guarded m call (record w { providers = providers }) (check_budget m call w.budget)

-- One call of `complete`: its arguments.
pub record Request : Type 0 where
  pub task : TaskClass
  pub messages : List Message
  pub tools : List ToolSpec
  pub temperature : Option ℕ
  pub max_tokens : Option ℕ

unfoldable pub call_for : Router → Request → RouteEntry → Call
unfolding configured_temperature configured_max_tokens or_else
call_for m req entry = record {
  entry = entry;
  messages = req.messages;
  tools = req.tools;
  temperature = or_else req.temperature (configured_temperature m.resolver req.task entry.model);
  max_tokens = or_else req.max_tokens (configured_max_tokens m.resolver req.task);
}

unfoldable pub follow : Router → Request → List Failure → List RouteEntry → World → Reply × World
unfolding attempt call_for provider_for
follow m req failures [] w = (all_failed failures, w)
follow m req failures (entry ∷ chain) w =
    elim (attempt m (call_for m req entry) w (provider_for m.resolver entry.provider w.providers)) [
      | ended reply v ↦ (reply, v)
      | failed failure v ↦ follow m req (failures ++ failure ∷ []) chain v
    ]

-- `complete`
unfoldable pub complete : Router → Request → World → Reply × World
unfolding follow resolve
complete m req w = follow m req [] (resolve m req.task w.providers).chain w
