-- ===== src/Llm/Pricing.antt =====
-- backend/app/llm/pricing.py
pub mod Exact
use socio_seo_agent.Prelude.{
  ℕ, ◌+◌, ◌*◌, ◌/◌, String, Option, none, some, List, [], ◌∷◌, leb, str_eq, if◌then◌else◌, Result,
  ok, err,
}
use Prim.Native.String.{[] as empty, ◌∷◌ as char_cons}
use socio_seo_agent.Strings.{len}
use socio_seo_agent.Llm.Contract.{Fault, unpriced}

-- Published prices for a million tokens.
pub record Price : Type 0 where
  pub model : String
  pub input_usd_per_mtok : ℕ
  pub output_usd_per_mtok : ℕ

abbrev pub cent : ℕ
cent = 1_000_000

price : String → ℕ → ℕ → Price
price model input output = record {
  model = model;
  input_usd_per_mtok = input * cent;
  output_usd_per_mtok = output * cent;
}

-- `PRICE_TABLE`
unfoldable pub price_table : List Price
unfolding price
price_table =
    price "openai/gpt-4.1-mini" 40 160
    ∷ price "openai/gpt-4.1" 200 800
    ∷ price "google/gemini-2.5-flash" 30 250
    ∷ price "anthropic/claude-sonnet-4.5" 300 1500
    ∷ price "anthropic/claude-opus-4.8" 500 2500
    ∷ price "openai/gpt-5.1" 125 1000
    ∷ price "google/gemini-2.5-pro" 125 1000
    ∷ price "openai/text-embedding-3-small" 2 0
    ∷ price "claude-haiku-4-5" 100 500
    ∷ price "claude-sonnet-5" 300 1500
    ∷ price "claude-opus-5" 500 2500
    ∷ price "claude-opus-4-8" 500 2500
    ∷ price "claude-fable-5" 1000 5000
    ∷ price "fake/cheap" 0 0
    ∷ price "fake/mid" 0 0
    ∷ price "fake/strong" 0 0
    ∷ price "fake/embed" 0 0
    ∷ []

unfoldable pub price_in : String → List Price → Option Price
price_in model [] = none
price_in model (p ∷ ps) = if str_eq p.model model then some p else price_in model ps

-- value.quantize(USD_QUANTUM, ROUND_HALF_UP) of an amount over a million.
unfoldable pub round_half_up : ℕ → ℕ
round_half_up n = (n + 500_000) / 1_000_000

unfoldable pub cost_at : Price → ℕ → ℕ → ℕ
unfolding round_half_up
cost_at p tokens_in tokens_out =
    round_half_up (tokens_in * p.input_usd_per_mtok + tokens_out * p.output_usd_per_mtok)

-- `price_for`
unfoldable pub price_for : String → Result Fault Price
unfolding price_in price_table
price_for model = elim (price_in model price_table) [ some p ↦ ok p | none ↦ err (unpriced model) ]

-- `compute_usd`
unfoldable pub compute_usd : String → ℕ → ℕ → Result Fault ℕ
unfolding price_for cost_at
compute_usd model tokens_in tokens_out = elim (price_for model) [
  | ok p ↦ ok (cost_at p tokens_in tokens_out)
  | err e ↦ err e
]

-- `conservative_token_estimate`: a third of the characters, rounded up, and one at least.
unfoldable pub token_estimate : String → ℕ
unfolding len
token_estimate String.[] = 0
token_estimate (String.◌∷◌ c s) =
    let thirds = (len (String.◌∷◌ c s) + 2) / 3 in if leb 1 thirds then thirds else 1
