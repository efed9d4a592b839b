-- ===== src/Llm/Samples.antt =====
-- Small requests to the router, and the theorems at them.
use socio_seo_agent.Prelude.{
  ◌≡◌, refl, true, false, none, some, List, [], ◌∷◌, any, str_eq, Result, ok, err,
}
use socio_seo_agent.Llm.Contract.{generate, user, Completion, Budget, Fault, rate_limit}
use socio_seo_agent.Llm.Pricing.{Price, price_for, compute_usd, cost_at, token_estimate}
use socio_seo_agent.Llm.Routes.{task_tier, tier_chain}
use socio_seo_agent.Llm.Router.{
  Router, World, Call, completed, budget_exceeded, Request, resolve, complete,
}
use socio_seo_agent.Llm.Router.Guard.{IsGuarded, complete-IsGuarded}
use socio_seo_agent.Llm.Router.Honest.{Honest, complete-Honest}
use socio_seo_agent.Llm.Router.Reach.{Nonempty}

program : Unit {0}
unfolding complete price_for compute_usd cost_at token_estimate task_tier tier_chain
program = tt

abbrev opus : Price
opus = record {
  model = "claude-opus-5";
  input_usd_per_mtok = 500_000_000;
  output_usd_per_mtok = 2_500_000_000;
}

opus_priced : price_for "claude-opus-5" ≡ ok opus
unfolding program
opus_priced = refl

opus_cost : compute_usd "claude-opus-5" 1000 200 ≡ ok 1_000_000
unfolding program
opus_cost = refl

abbrev answer : Completion
answer = record {
  text = some "done";
  tool_calls = [];
  usage = record {
    provider = "openrouter";
    model = "anthropic/claude-opus-4.8";
    tokens_in = 4;
    tokens_out = 100;
    usd = 252_000;
    latency_ms = 900;
    estimated = false;
  };
  is_final = true;
}

-- The first call is rate limited, and the second is answered.
abbrev router : Router
router = record {
  chains = tier_chain;
  task_tiers = task_tier;
  default_max_tokens = 2048;
  resolver = none;
  dumps = λ fields. "{}";
  join = λ a b c. a;
  serve = λ calls call. if_first calls;
}
  where
    if_first : List Call → Result Fault Completion
    if_first [] = err rate_limit
    if_first (c ∷ cs) = ok answer

abbrev budget : Budget
budget = record { limit_usd = 50_000_000; spent_usd = 0 }

abbrev world : Budget → World
world b = record {
  providers = "fake" ∷ "openrouter" ∷ "anthropic" ∷ [];
  budget = some b;
  sunk = [];
  calls = [];
}

abbrev ask : Request
ask = record {
  task = generate;
  messages =
      record { role = user; content = "Write it."; tool_calls = []; tool_call_id = none } ∷ [];
  tools = [];
  temperature = none;
  max_tokens = none;
}

second_answers : (complete router ask (world budget)).0 ≡ completed answer
unfolding program
second_answers = refl

-- A dollar cent does not cover the strong tier's allowance.
too_dear :
    (complete router ask (world (record { limit_usd = 1_000_000; spent_usd = 0 }))).0
    ≡ budget_exceeded "claude-opus-5" 1_000_000 0 5_121_500
unfolding program
too_dear = refl

complete-IsGuarded_example :
    IsGuarded router budget (world budget) (complete router ask (world budget))
complete-IsGuarded_example = complete-IsGuarded router budget ask (world budget) refl

has_fake : any (str_eq "fake") (world budget).providers ≡ true
has_fake = refl

complete-Honest_example :
    Nonempty (resolve router generate (world budget).providers).chain
    × Honest
        (resolve router generate (world budget).providers).chain
        (complete router ask (world budget)).0
complete-Honest_example = complete-Honest router ask (world budget) has_fake
