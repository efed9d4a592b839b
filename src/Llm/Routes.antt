-- ===== src/Llm/Routes.antt =====
-- The routing tables of backend/app/llm/router.py, the stored configuration of
-- backend/app/llm/route_config.py that overrides them, and backend/app/llm/sampling.py.
use socio_seo_agent.Prelude.{
  ℕ, String, Bool, false, not, ◌&&◌, ◌||◌, Option, none, some, List, [], ◌∷◌, str_eq, any,
  if◌then◌else◌,
}
use socio_seo_agent.Strings.{strip}
use socio_seo_agent.Llm.Contract.{
  TaskClass, classify, extract, repack, plan, prioritise, generate, review, Tier, cheap, mid,
  strong,
}

pub record RouteEntry : Type 0 where
  pub provider : String
  pub model : String

abbrev route : String → String → RouteEntry
route provider model = record { provider = provider; model = model }

-- `TASK_TIERS`
unfoldable pub task_tier : TaskClass → Tier
task_tier classify = cheap
task_tier extract = cheap
task_tier repack = cheap
task_tier plan = mid
task_tier prioritise = mid
task_tier review = mid
task_tier generate = strong
task_tier TaskClass.embed = Tier.embed

-- `TIER_CHAINS`
unfoldable pub tier_chain : Tier → List RouteEntry
tier_chain cheap =
    route "openrouter" "openai/gpt-4.1-mini"
    ∷ route "anthropic" "claude-haiku-4-5"
    ∷ route "openrouter" "google/gemini-2.5-flash"
    ∷ []
tier_chain mid =
    route "openrouter" "anthropic/claude-sonnet-4.5"
    ∷ route "anthropic" "claude-sonnet-5"
    ∷ route "openrouter" "openai/gpt-4.1"
    ∷ []
tier_chain strong =
    route "anthropic" "claude-opus-5"
    ∷ route "openrouter" "anthropic/claude-opus-4.8"
    ∷ route "openrouter" "openai/gpt-5.1"
    ∷ []
tier_chain Tier.embed = route "openrouter" "openai/text-embedding-3-small" ∷ []

-- `FAKE_CHAINS`
unfoldable pub fake_chain : Tier → List RouteEntry
fake_chain cheap = route "fake" "fake/cheap" ∷ []
fake_chain mid = route "fake" "fake/mid" ∷ []
fake_chain strong = route "fake" "fake/strong" ∷ []
fake_chain Tier.embed = route "fake" "fake/embed" ∷ []

-- `rejects_sampling`
unfoldable pub rejects_sampling : String → Bool
rejects_sampling model = any (str_eq model) (
    "claude-opus-5" ∷ "claude-opus-4-8" ∷ "claude-opus-4-7" ∷ "claude-sonnet-5" ∷ "claude-fable-5"
    ∷ "claude-mythos-5" ∷ [])

-- An entry of a stored chain; a key may be missing.
pub record StoredEntry : Type 0 where
  pub provider : Option String
  pub model : Option String

pub record RouteRecord : Type 0 where
  pub tier : Tier
  pub chain : List StoredEntry

pub record ProviderSetting : Type 0 where
  pub provider : String
  pub enabled : Bool
  pub base_url : Option String

-- A temperature is a number of hundredths.
pub record SamplingRecord : Type 0 where
  pub temperature : Option ℕ
  pub max_output_tokens : Option ℕ

-- `RouteResolver` behind a `refresh`: its dictionaries by key.
pub record Resolver : Type 0 where
  pub routes : TaskClass → Option RouteRecord
  pub providers : List ProviderSetting
  pub sampling : TaskClass → Option SamplingRecord

-- str(value or "").strip()
stripped : Option String → String
unfolding strip
stripped none = ""
stripped (some s) = strip s

-- `_valid_entries`
unfoldable pub valid_entries : List StoredEntry → List RouteEntry
unfolding stripped
valid_entries [] = []
valid_entries (item ∷ chain) =
    let rest = valid_entries chain in
    let provider = stripped item.provider in
    let model = stripped item.model in
    if not (str_eq provider "") && not (str_eq model "")
    then record { provider = provider; model = model } ∷ rest
    else rest

-- self._providers.get(provider)
unfoldable pub setting_at : String → List ProviderSetting → Option ProviderSetting
setting_at provider [] = none
setting_at provider (s ∷ settings) =
    if str_eq s.provider provider then some s else setting_at provider settings

unfoldable pub filled : Option String → Bool
filled none = false
filled (some s) = not (str_eq s "")

unfoldable pub is_disabled : Resolver → String → Bool
unfolding setting_at
is_disabled r provider = elim (setting_at provider r.providers) [
  | none ↦ false
  | some s ↦ not s.enabled
]

unfoldable pub base_url : Resolver → String → Option String
unfolding setting_at
base_url r provider = elim (setting_at provider r.providers) [ none ↦ none | some s ↦ s.base_url ]

-- provider in self.keyless_available()
unfoldable pub keyless_available : Resolver → String → Bool
unfolding setting_at filled
keyless_available r provider = elim (setting_at provider r.providers) [
  | none ↦ false
  | some s ↦ (str_eq provider "ollama" || str_eq provider "fake") && s.enabled && filled s.base_url
]

unfoldable pub tier_for_task : Resolver → TaskClass → Tier
unfolding task_tier
tier_for_task r task = elim (r.routes task) [ none ↦ task_tier task | some stored ↦ stored.tier ]

-- entries or the default
or_default : List RouteEntry → List RouteEntry → List RouteEntry
or_default [] chain = chain
or_default (entry ∷ entries) chain = entry ∷ entries

unfoldable pub chain_for_task : Resolver → TaskClass → List RouteEntry
unfolding tier_for_task tier_chain valid_entries or_default
chain_for_task r task =
    let default = tier_chain (tier_for_task r task) in
    elim (r.routes task) [
      | none ↦ default
      | some stored ↦ or_default (valid_entries stored.chain) default
    ]

-- `temperature_for`
unfoldable pub temperature_for : Resolver → TaskClass → String → Option ℕ
unfolding rejects_sampling
temperature_for r task model = elim (r.sampling task) [
  | none ↦ none
  | some s ↦ if rejects_sampling model then none else s.temperature
]

unfoldable pub max_tokens_for : Resolver → TaskClass → Option ℕ
max_tokens_for r task = elim (r.sampling task) [ none ↦ none | some s ↦ s.max_output_tokens ]
