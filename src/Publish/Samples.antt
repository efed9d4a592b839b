-- ===== src/Publish/Samples.antt =====
-- A weekly ceiling over a small ledger.
use socio_seo_agent.Prelude.{◌≤◌, ◌≡◌, refl, false, true, none, some, [], ◌∷◌}
use socio_seo_agent.Json.{end}
use socio_seo_agent.Actuators.Ledger
use socio_seo_agent.Actuators.Ledger.{Status, Actuation, Outcome}
use socio_seo_agent.Actuators.Actuate.{Actuator, World, performed, actuate}
use socio_seo_agent.Publish.{exhausted, counter_for, weekly_publish_state}
use socio_seo_agent.Publish.Cap.{publish_within_cap}

abbrev sent_ok : Outcome
sent_ok = record {
  status = Status.succeeded;
  action_type = "post";
  target = "home";
  external_ref = none;
  detail = end;
  error = none;
  replayed = false;
  fake = true;
}

abbrev poster : Actuator
poster = record { action_type = "post"; fake = true; perform = λ sent a. performed sent_ok }

abbrev post : Actuation
post = record {
  business_id = 7;
  action_type = "post";
  target = "home";
  payload = end;
  approved_by = "ana";
  key = none;
}

abbrev empty : World
empty = record { rows = []; sent = [] }

program : Unit {0}
unfolding exhausted weekly_publish_state counter_for actuate Ledger.idempotency_key
program = tt

counted :
    counter_for (actuate (λ a. a.target) 900_000 poster post empty).1.rows ("post" ∷ []) 900_000 7
    ≡ 1
unfolding program
counted = refl

room : exhausted (weekly_publish_state 3 (counter_for [] ("post" ∷ []) 900_000) 7 (some 1)) ≡ false
unfolding program
room = refl

publish_within_cap_example :
    counter_for (actuate (λ a. a.target) 900_000 poster post empty).1.rows ("post" ∷ []) 900_000 7
    ≤ (weekly_publish_state 3 (counter_for [] ("post" ∷ []) 900_000) 7 (some 1)).cap
publish_within_cap_example =
    publish_within_cap 3 (some 1) 7 ("post" ∷ []) 900_000 (λ a. a.target) poster post empty room
