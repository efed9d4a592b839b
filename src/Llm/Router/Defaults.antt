-- ===== src/Llm/Router/Defaults.antt =====
-- A configuration with nothing in it.
use socio_seo_agent.Prelude.{
  String, ◌≡◌, refl, ap, ◌∙◌, Option, none, some, List, [], ◌∷◌, ◌++◌, arith,
}
use socio_seo_agent.Llm.Contract.{TaskClass, Failure, Budget}
use socio_seo_agent.Llm.Routes.{
  RouteEntry, Resolver, task_tier, tier_chain, is_disabled, base_url, keyless_available,
  tier_for_task, chain_for_task, temperature_for, max_tokens_for,
}
use socio_seo_agent.Llm.Router.{
  Call, Router, World, Reply, Attempt, ended, failed, usable, usable_entries, or_fake, resolve,
  provider_for, configured_temperature, configured_max_tokens, attempt, guarded, call_provider,
  check_budget, estimate_usd, Request, call_for, follow, complete,
}

-- `RouteResolver` over empty tables.
abbrev pub nothing_stored : Resolver
nothing_stored = record { routes = λ task. none; providers = []; sampling = λ task. none }

-- The router of the code's own tables, with this configuration.
abbrev pub shipped : Router → Option Resolver → Router
shipped m resolver = record m { chains = tier_chain; task_tiers = task_tier; resolver = resolver }

usable_same :
    (providers : List String) (entries : List RouteEntry)
    → usable_entries (usable (some nothing_stored) providers) entries
      ≡ usable_entries (usable none providers) entries
unfolding usable usable_entries is_disabled keyless_available
usable_same providers [] = refl
usable_same providers (entry ∷ entries) = ground (arith, usable_same providers entries)

resolve_same :
    (m : Router) (task : TaskClass) (providers : List String)
    → resolve (shipped m (some nothing_stored)) task providers
      ≡ resolve (shipped m none) task providers
unfolding resolve tier_for_task chain_for_task
resolve_same m task providers =
    ap (or_fake (task_tier task)) (usable_same providers (tier_chain (task_tier task)))

provider_for_same :
    (name : String) (providers : List String)
    → provider_for (some nothing_stored) name providers ≡ provider_for none name providers
unfolding provider_for base_url
provider_for_same name providers = ground arith

attempt_same :
    (m : Router) (call : Call) (w : World) (found : Option (List String))
    → attempt (shipped m (some nothing_stored)) call w found ≡ attempt (shipped m none) call w found
unfolding attempt guarded call_provider check_budget estimate_usd
attempt_same m call w none = refl
attempt_same m call w (some providers) =
    same_raise (check_budget (shipped m (some nothing_stored)) call w.budget)
    ∙ ap (guarded (shipped m none) call (record w { providers = providers })) (same_check w.budget)
  where
    same_raise :
        (raise : Option Reply)
        → guarded (shipped m (some nothing_stored)) call (record w { providers = providers }) raise
          ≡ guarded (shipped m none) call (record w { providers = providers }) raise
    same_raise none = refl
    same_raise (some reply) = refl

    same_check :
        (b : Option Budget)
        → check_budget (shipped m (some nothing_stored)) call b
          ≡ check_budget (shipped m none) call b
    same_check none = refl
    same_check (some b) = refl

follow_same :
    (m : Router) (req : Request) (failures : List Failure) (chain : List RouteEntry) (w : World)
    → follow (shipped m (some nothing_stored)) req failures chain w
      ≡ follow (shipped m none) req failures chain w
unfolding follow call_for configured_temperature configured_max_tokens temperature_for
    max_tokens_for
follow_same m req failures [] w = refl
follow_same m req failures (entry ∷ chain) w =
    ap
      (λ a. elim a [
        | ended reply v ↦ (reply, v)
        | failed failure v ↦
            follow (shipped m (some nothing_stored)) req (failures ++ failure ∷ []) chain v
      ])
      (attempt_same m (call_for (shipped m none) req entry) w
          (provider_for (some nothing_stored) entry.provider w.providers)
        ∙ ap (attempt (shipped m none) (call_for (shipped m none) req entry) w)
            (provider_for_same entry.provider w.providers))
    ∙ on_attempt
        (attempt (shipped m none) (call_for (shipped m none) req entry) w
          (provider_for none entry.provider w.providers))
        (λ failure v. follow_same m req (failures ++ failure ∷ []) chain v)
  where
    on_attempt :
        (a : Attempt)
        → ((failure : Failure) (v : World)
            → follow (shipped m (some nothing_stored)) req (failures ++ failure ∷ []) chain v
              ≡ follow (shipped m none) req (failures ++ failure ∷ []) chain v)
        → ◌≡◌ {A = Reply × World}
            (elim a [
              | ended reply v ↦ (reply, v)
              | failed failure v ↦
                  follow (shipped m (some nothing_stored)) req (failures ++ failure ∷ []) chain v
            ])
            (elim a [
              | ended reply v ↦ (reply, v)
              | failed failure v ↦ follow (shipped m none) req (failures ++ failure ∷ []) chain v
            ])
    on_attempt (ended reply v) rest = refl
    on_attempt (failed failure v) rest = rest failure v

-- An empty configuration is no configuration: over the code's own tables, a router with a resolver of
-- empty tables answers every request as a router without one, and leaves the same world.
pub complete_unconfigured :
    (m : Router) (req : Request) (w : World)
    → complete (shipped m (some nothing_stored)) req w ≡ complete (shipped m none) req w
unfolding complete
complete_unconfigured m req w =
    ap (λ r. follow (shipped m (some nothing_stored)) req [] r.chain w)
      (resolve_same m req.task w.providers)
    ∙ follow_same m req [] (resolve (shipped m none) req.task w.providers).chain w
