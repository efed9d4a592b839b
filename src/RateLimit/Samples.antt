-- ===== src/RateLimit/Samples.antt =====
-- Small runs of the limiter and the gate, and the theorems at them.
use socio_seo_agent.Prelude.{
  ◌≤◌, ◌*◌, ◌-◌, String, ◌≡◌, refl, true, false, none, some, List, [], ◌∷◌, arith, length,
}
use socio_seo_agent.RateLimit.Window
use socio_seo_agent.RateLimit.Window.{Windows, max_keys, second, window_at}
use socio_seo_agent.RateLimit.Window.Budget.{Hit, admitted, of_key, lesser, window_admits}
use socio_seo_agent.RateLimit.Limiter.{Decision, Limiter, Counter, in_memory, check}
use socio_seo_agent.RateLimit.Limiter.Decides.{IsDecided, tallies, HasWindows, check-IsDecided}
use socio_seo_agent.RateLimit.Redis
use socio_seo_agent.RateLimit.Redis.{
  Server, Client, is_cooling_down, bump_all, outage_is_silent, refund_unblocked, Attempt,
}
use socio_seo_agent.RateLimit.Gate.{Gate, Reach, Step, queued, new_gate, holding, begin_work}
use socio_seo_agent.RateLimit.Gate.Balance.{
  IsBalanced, IsCrowded, crowd, Reach-IsBalanced, cancelled-IsCrowded,
}

program : Unit {0}
unfolding in_memory Window.bump Window.give_back window_at admitted of_key check tallies HasWindows
    Redis.bump Redis.give_back Redis.is_cooling_down bump_all begin_work holding
program = tt

abbrev twice : Windows
unfolding program
twice = (Window.bump 1 "ann" 300 (Window.bump 0 "ann" 300 []).1).1

twice_counted : window_at "ann" twice ≡ some (record { count = 2; expires_at = 300 * second })
unfolding program
twice_counted = refl

twice_small : (length twice ≤ 2) × (length twice ≤ 20_000)
unfolding program
twice_small = (omega arith, omega arith)

abbrev hits : List Hit
hits =
    record { now = 5; key = "ann"; window_seconds = 300 }
    ∷ record { now = 6; key = "bob"; window_seconds = 300 }
    ∷ record { now = 7; key = "ann"; window_seconds = 300 }
    ∷ []

one_admitted : admitted 3 "ann" hits twice ≡ 1
unfolding program
one_admitted = refl

window_admits_example : admitted 3 "ann" hits twice ≡ lesser (of_key "ann" hits) (3 - 2)
window_admits_example =
    window_admits 3 "ann" hits twice (record { count = 2; expires_at = 300 * second }) twice_counted
      (omega arith, (omega arith, (omega arith, tt))) (omega (arith, twice_small.0))

-- A limiter whose shared counter always raises, over the process's own windows.
abbrev dead : Counter (Unit {0})
dead = record { bump = λ key secs s. (none, s); give_back = λ key secs s. s }

abbrev limiter : Limiter Unit Windows
limiter = record {
  rules =
      ("ip", record { limit = 2; window_seconds = 300 })
      ∷ ("email", record { limit = 1; window_seconds = 900 })
      ∷ [];
  counter = dead;
  fallback = some (in_memory 0);
  lower = λ s. s;
  name = λ dimension value bucket. value;
}

abbrev login : List (String × String)
login = ("ip", "10.0.0.1") ∷ ("email", " ann@x.io ") ∷ ("agent", "curl") ∷ []

abbrev once : Decision × (Unit {0} × Windows)
unfolding program
once = check limiter 1000 login (tt, [])

allowed_once : once.0.allowed ≡ true
unfolding program
allowed_once = refl

-- The second attempt is over the email limit, and waits for the quarter of an hour to end.
refused_then :
    (check limiter 1010 login once.1).0
    ≡ record { allowed = false; retry_after_seconds = 790; dimension = some "email" }
unfolding program
refused_then = refl

windows_ok : HasWindows limiter
unfolding program
windows_ok = (omega arith, (omega arith, tt))

check-IsDecided_example :
    IsDecided 1010 (tallies limiter 1010 login once.1).0 (check limiter 1010 login once.1).0
    × ((check limiter 1010 login once.1).1 ≡ (tallies limiter 1010 login once.1).1)
check-IsDecided_example = check-IsDecided limiter 1010 login once.1 windows_ok

abbrev down : Server (Unit {0})
down = record {
  incr_expire = λ key secs s. (none, s);
  exists = λ key s. (none, s);
  decr = λ key s. (none, s);
  set_zero_xx = λ key s. s;
}

abbrev client : Client (Unit {0})
client = record { server = tt; blocked_until = 0 }

abbrev retries : List (Attempt down)
retries =
    record { now = 9 * second; failed_at = 9 * second; key = "ann"; window_seconds = 300 } ∷ []

not_cooling : is_cooling_down down 5 client ≡ false
unfolding program
not_cooling = refl

first_fails : (Redis.bump down 5 6 "ann" 300 client).0 ≡ none
unfolding program
first_fails = refl

abbrev queue : Gate
queue = record (new_gate 1) { calls = queued ∷ [] }

queue_reached : Reach 12 (new_gate 1) queue
queue_reached = Reach.next Reach.here (Step.arrive refl)

Reach-IsBalanced_example : IsBalanced 1 queue
Reach-IsBalanced_example = Reach-IsBalanced 12 1 queue queue_reached

-- An executor of twelve threads, as on eight cores.
cancelled-IsCrowded_example : IsCrowded 12 4 9 (crowd 4 9)
cancelled-IsCrowded_example = cancelled-IsCrowded 12 4 9 (omega arith) (omega arith)
