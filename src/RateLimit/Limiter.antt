-- ===== src/RateLimit/Limiter.antt =====
-- `FixedWindowRateLimiter` of backend/app/core/rate_limit.py, over any two counters.
pub mod Fold
pub mod Decides
use socio_seo_agent.Prelude.{
  ℕ, ◌-◌, ◌/◌, ◌%◌, String, Bool, true, false, Option, none, some, List, [], ◌∷◌, leb, ltb, str_eq,
  if◌then◌else◌,
}
use socio_seo_agent.Strings.{strip}
use socio_seo_agent.RateLimit.Window.{Windows, bump, give_back}

-- `RateLimitRule`
pub record Rule : Type 0 where
  pub limit : ℕ
  pub window_seconds : ℕ

-- `__post_init__`, which refuses both zeros.
unfoldable pub new_rule : ℕ → ℕ → Option Rule
new_rule limit window_seconds =
    if leb 1 limit
    then if leb 1 window_seconds
      then some (record { limit = limit; window_seconds = window_seconds })
      else none
    else none

-- `RateLimitDecision`
pub record Decision : Type 0 where
  pub allowed : Bool
  pub retry_after_seconds : ℕ
  pub dimension : Option String

-- `WindowCounter`: `none` is `RateLimitBackendError`, and a refund that raises has no effect.
pub record Counter (S : Type 0) : Type 0 where
  pub bump : String → ℕ → S → Option ℕ × S
  pub give_back : String → ℕ → S → S

unfoldable pub in_memory : ℕ → Counter Windows
unfolding bump give_back
in_memory now = record {
  bump = λ key secs ws. (some (bump now key secs ws).0, (bump now key secs ws).1);
  give_back = λ key secs ws. give_back now key ws;
}

-- The key is a name for a dimension, a value and a bucket, which holds an HMAC digest.
pub record Limiter (S F : Type 0) : Type 0 where
  pub rules : List (String × Rule)
  pub counter : Counter S
  pub fallback : Option (Counter F)
  pub lower : String → String
  pub name : String → String → ℕ → String

unfoldable pub rule_at : String → List (String × Rule) → Option Rule
rule_at dimension [] = none
rule_at dimension (entry ∷ rules) =
    if str_eq entry.0 dimension then some entry.1 else rule_at dimension rules

-- The answer of the fallback, after the counter raised.
unfoldable pub fall_back :
    {S F : Type 0} → Option (Counter F) → String → ℕ → S → F → Option ℕ × (S × F)
fall_back none key secs s f = (none, (s, f))
fall_back (some c) key secs s f = ((c.bump key secs f).0, (s, (c.bump key secs f).1))

unfoldable pub or_fall_back :
    {S F : Type 0} → Option (Counter F) → String → ℕ → F → Option ℕ × S → Option ℕ × (S × F)
unfolding fall_back
or_fall_back fallback key secs f (some n, s) = (some n, (s, f))
or_fall_back fallback key secs f (none, s) = fall_back fallback key secs s f

-- The decision behind one more counted dimension.
unfoldable pub weigh : ℕ → String → Rule → Option ℕ → Option Decision → Option Decision
weigh now dimension rule none worst = worst
weigh now dimension rule (some n) worst =
    let retry_after = rule.window_seconds - now % rule.window_seconds in
    if leb n rule.limit
    then worst
    else if elim worst [ none ↦ true | some d ↦ ltb d.retry_after_seconds retry_after ]
    then some (record {
      allowed = false;
      retry_after_seconds = if leb 1 retry_after then retry_after else 1;
      dimension = some dimension;
    })
    else worst

-- The decision of a check, whose default allows.
unfoldable pub conclusion : Option Decision → Decision
conclusion none = record { allowed = true; retry_after_seconds = 0; dimension = none }
conclusion (some worst) = worst

module _ {S F : Type 0} (l : Limiter S F) where
  -- `_normalise`
  unfoldable pub normalise : String → String → String
  unfolding strip
  normalise dimension value =
      if str_eq dimension "email" then l.lower (strip value) else strip value

  unfoldable pub key_for : ℕ → String → String → Rule → String
  unfolding normalise
  key_for now dimension raw rule =
      l.name dimension (normalise dimension raw) (now / rule.window_seconds)

  -- `_count`
  unfoldable pub count : String → ℕ → S × F → Option ℕ × (S × F)
  unfolding or_fall_back
  count key secs st = or_fall_back l.fallback key secs st.1 (l.counter.bump key secs st.0)

  unfoldable pub check_from :
      ℕ → Option Decision → List (String × String) → S × F → Option Decision × (S × F)
  unfolding rule_at weigh count key_for
  check_from now worst [] st = (worst, st)
  check_from now worst (entry ∷ values) st = elim (rule_at entry.0 l.rules) [
    | none ↦ check_from now worst values st
    | some rule ↦
        let counted = count (key_for now entry.0 entry.1 rule) rule.window_seconds st in
        check_from now (weigh now entry.0 rule counted.0 worst) values counted.1
  ]

  -- `check` at a whole second of the wall clock.
  unfoldable pub check : ℕ → List (String × String) → S × F → Decision × (S × F)
  unfolding check_from conclusion
  check now values st = let r = check_from now none values st in (conclusion r.0, r.1)

  refund : String → ℕ → S × F → S × F
  refund key secs st = (
    l.counter.give_back key secs st.0,
    elim l.fallback [ none ↦ st.1 | some c ↦ c.give_back key secs st.1 ],
  )

  -- `give_back`
  unfoldable pub refund_all : ℕ → List (String × String) → S × F → S × F
  unfolding rule_at refund key_for
  refund_all now [] st = st
  refund_all now (entry ∷ values) st = elim (rule_at entry.0 l.rules) [
    | none ↦ refund_all now values st
    | some rule ↦
        refund_all now values (refund (key_for now entry.0 entry.1 rule) rule.window_seconds st)
  ]
