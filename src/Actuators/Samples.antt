-- ===== src/Actuators/Samples.antt =====
-- Small requests to the ledger, and the theorems at them.
use socio_seo_agent.Actuators.Actuate.Once.{Request, calls, actuate_all}
use socio_seo_agent.Actuators.Interleaving.{claim_of, Step, Reach, Reach-once, start}
use socio_seo_agent.Actuators.Interleaving.Phases.{System, set_phase, reserved, answered}
use socio_seo_agent.Prelude.{ℕ, ◌≤◌, String, ◌≡◌, refl, false, none, some, List, [], ◌∷◌}
use socio_seo_agent.Json.{end}
use socio_seo_agent.Actuators.Ledger
use socio_seo_agent.Actuators.Ledger.{
  Status, succeeded, refused, Actuation, Outcome, Row, Table, row_at, published_since,
}
use socio_seo_agent.Actuators.Actuate.{Actuator, World, performed, actuate}

abbrev derived : Actuation → String
derived a = a.target

-- A post, and its target as its key.
abbrev post : String → String → Actuation
post target approved_by = record {
  business_id = 7;
  action_type = "post";
  target = target;
  payload = end;
  approved_by = approved_by;
  key = none;
}

abbrev sent_ok : Outcome
sent_ok = record {
  status = succeeded;
  action_type = "post";
  target = "home";
  external_ref = some "ref-1";
  detail = end;
  error = none;
  replayed = false;
  fake = false;
}

abbrev poster : Actuator
poster = record { action_type = "post"; fake = false; perform = λ sent a. performed sent_ok }

abbrev empty : World
empty = record { rows = []; sent = [] }

program : Unit {0}
unfolding actuate row_at calls actuate_all published_since set_phase Ledger.idempotency_key
program = tt

abbrev first : Outcome × World
unfolding program
first = actuate derived 100 poster (post "home" "ana") empty

first_sent : (first.1.sent ≡ post "home" "ana" ∷ []) × (first.0.status ≡ succeeded)
unfolding program
first_sent = (refl, refl)

-- Without an approval the key is spent on a refusal.
unapproved :
    ((actuate derived 100 poster (post "home" "  ") empty).0.status ≡ refused)
    × ((actuate derived 100 poster (post "home" "  ") empty).1.sent ≡ [])
unfolding program
unapproved = (refl, refl)

published_first : published_since 7 ("post" ∷ []) 50 first.1.rows ≡ 1
unfolding program
published_first = refl

published_before : published_since 7 ("post" ∷ []) 101 first.1.rows ≡ 0
unfolding program
published_before = refl

abbrev requests : List Request
requests =
    record { now = 1; actuator = poster; actuation = post "home" "ana" }
    ∷ record { now = 2; actuator = poster; actuation = post "blog" "ana" }
    ∷ record { now = 3; actuator = poster; actuation = post "home" "bob" }
    ∷ []

both_sent : (actuate_all derived empty requests).sent ≡ post "home" "ana" ∷ post "blog" "ana" ∷ []
unfolding program
both_sent = refl

-- Two processes with one key: the first reserves and calls.
abbrev jobs : ℕ → Request
jobs i = record { now = i; actuator = poster; actuation = post "home" "ana" }

abbrev origin : System
origin = start derived jobs

abbrev held_state : System
unfolding program
held_state = record {
  world = record { rows = (claim_of derived jobs 0 []).1; sent = [] };
  phase = set_phase origin.phase 0 reserved;
}

abbrev called_state : System
unfolding program
called_state = record {
  world = record { rows = held_state.world.rows; sent = post "home" "ana" ∷ [] };
  phase = set_phase held_state.phase 0 (answered sent_ok);
}

two_steps : Reach derived jobs origin called_state
unfolding program
two_steps =
    Reach.next (Reach.next Reach.here (Step.reserve 0 refl refl refl)) (Step.call 0 refl refl refl)

Reach-once_example : calls derived "home" called_state.world.sent ≤ 1
Reach-once_example = Reach-once derived jobs called_state "home" two_steps
