-- ===== src/RateLimit/Redis.antt =====
-- `RedisWindowCounter` of backend/app/core/rate_limit.py over any server.
use mathlib.Core.Path.{subst}
use socio_seo_agent.Prelude.{
  sym, ℕ, ◌+◌, ◌*◌, ◌<◌, String, ◌≡◌, refl, Bool, true, false, Option, none, some, List, [], ◌∷◌,
  arith, ltb, if◌then◌else◌, All,
}
use socio_seo_agent.RateLimit.Window.{second}

-- A reply, which may be negative: a counter that was decremented is.
pub data Reply : Type 0 where
  count : ℕ → Reply
  below_zero : Reply

-- The commands that the counter sends; each may fail, and the server's state may change all the same.
pub record Server (S : Type 0) : Type 0 where
  pub incr_expire : String → ℕ → S → Option ℕ × S
  pub exists : String → S → Option Bool × S
  pub decr : String → S → Option Reply × S
  pub set_zero_xx : String → S → S

pub record Client (S : Type 0) : Type 0 where
  pub server : S
  pub blocked_until : ℕ

-- `DEFAULT_REDIS_COOLDOWN_SECONDS`
abbrev pub cooldown : ℕ
cooldown = 10 * second

module _ {S : Type 0} (redis : Server S) where
  -- `is_cooling_down`
  unfoldable pub is_cooling_down : ℕ → Client S → Bool
  is_cooling_down now c = ltb now c.blocked_until

  answered : ℕ → Client S → Option ℕ × S → Option ℕ × Client S
  answered failed_at c (some n, s) = (some n, record c { server = s })
  answered failed_at c (none, s) =
      (none, record { server = s; blocked_until = failed_at + cooldown })

  -- `bump`, asked at `now`; a failure is seen at `failed_at`. `none` is `RateLimitBackendError`.
  unfoldable pub bump : ℕ → ℕ → String → ℕ → Client S → Option ℕ × Client S
  unfolding is_cooling_down answered
  bump now failed_at key window_seconds c =
      if is_cooling_down now c
      then (none, c)
      else answered failed_at c (redis.incr_expire key window_seconds c.server)

  clamp : String → Client S → Option Reply × S → Client S
  clamp key c (none, s) = record c { server = s }
  clamp key c (some (count n), s) = record c { server = s }
  clamp key c (some below_zero, s) = record c { server = redis.set_zero_xx key s }

  decrement : String → Client S → Option Bool × S → Client S
  unfolding clamp
  decrement key c (some true, s) = clamp key c (redis.decr key s)
  decrement key c (some false, s) = record c { server = s }
  decrement key c (none, s) = record c { server = s }

  -- `give_back`
  unfoldable pub give_back : ℕ → String → Client S → Client S
  unfolding is_cooling_down decrement
  give_back now key c =
      if is_cooling_down now c then c else decrement key c (redis.exists key c.server)

  decrement_unblocked :
      (key : String) (c : Client S) (r : Option Bool × S)
      → (decrement key c r).blocked_until ≡ c.blocked_until
  unfolding decrement clamp
  decrement_unblocked key c (some true, s) = ground arith
  decrement_unblocked key c (some false, s) = refl
  decrement_unblocked key c (none, s) = refl

  -- A refund never trips the cooldown: whatever the server answers to it, the next count is asked of
  -- the server exactly if it was before.
  pub refund_unblocked :
      (now later : ℕ) (key : String) (c : Client S)
      → is_cooling_down later (give_back now key c) ≡ is_cooling_down later c
  unfolding give_back is_cooling_down
  refund_unblocked now later key c =
      ground (arith, decrement_unblocked key c (redis.exists key c.server))

  -- The requests of one outage, each with its clock readings.
  pub record Attempt : Type 0 where
    pub now : ℕ
    pub failed_at : ℕ
    pub key : String
    pub window_seconds : ℕ

  unfoldable pub bump_all : List Attempt → Client S → Client S
  unfolding bump
  bump_all [] c = c
  bump_all (a ∷ rest) c = bump_all rest (bump a.now a.failed_at a.key a.window_seconds c).1

  cooling : (now : ℕ) (c : Client S) → now < c.blocked_until → is_cooling_down now c ≡ true
  unfolding is_cooling_down
  cooling now c h = ground arith

  blocked_bumps :
      (attempts : List Attempt) (c : Client S)
      → All (λ a. a.now < c.blocked_until) attempts
      → bump_all attempts c ≡ c
  unfolding bump_all
  blocked_bumps [] c h = refl
  blocked_bumps (a ∷ rest) c h = rw (cooling a.now c h.0) (blocked_bumps rest c h.1)

  failed_blocks :
      (failed_at : ℕ) (c : Client S) (r : Option ℕ × S)
      → (answered failed_at c r).0 ≡ none
      → (answered failed_at c r).1.blocked_until ≡ failed_at + cooldown
  unfolding answered
  failed_blocks failed_at c (some n, s) h = ground arith
  failed_blocks failed_at c (none, s) h = refl

  blocked_after :
      (now failed_at : ℕ) (key : String) (window_seconds : ℕ) (c : Client S)
      → is_cooling_down now c ≡ false
      → (bump now failed_at key window_seconds c).0 ≡ none
      → (bump now failed_at key window_seconds c).1.blocked_until ≡ failed_at + cooldown
  unfolding bump
  blocked_after now failed_at key window_seconds c ready failed = blocked ready failed
    where
      blocked :
          is_cooling_down now c ≡ false
          → (bump now failed_at key window_seconds c).0 ≡ none
          → (bump now failed_at key window_seconds c).1.blocked_until ≡ failed_at + cooldown
      blocked r f =
          ground (arith, failed_blocks failed_at c (redis.incr_expire key window_seconds c.server))

  -- An outage costs one request in ten seconds its timeout: where a request that was not cooling down
  -- fails, no later request of the ten seconds after it, in any number, reaches the server or changes
  -- the client.
  pub outage_is_silent :
      (now failed_at : ℕ) (key : String) (window_seconds : ℕ) (c : Client S)
      (attempts : List Attempt)
      → is_cooling_down now c ≡ false
      → (bump now failed_at key window_seconds c).0 ≡ none
      → All (λ a. a.now < failed_at + cooldown) attempts
      → bump_all attempts (bump now failed_at key window_seconds c).1
        ≡ (bump now failed_at key window_seconds c).1
  outage_is_silent now failed_at key window_seconds c attempts ready failed h =
      blocked_bumps attempts (bump now failed_at key window_seconds c).1 (
        subst (λ until. All (λ a. a.now < until) attempts)
          (sym (blocked_after now failed_at key window_seconds c ready failed)) h)
