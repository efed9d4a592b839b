-- ===== src/Runs/Samples.antt =====
-- A small timeline, and the theorems at it.
use socio_seo_agent.Prelude.{◌≡◌, refl, none, some, List, [], ◌∷◌, ◌++◌, length, arith}
use socio_seo_agent.Json.{Fields, text, end, field, get}
use socio_seo_agent.Runs.{
  started, Event, Store, clean_payload, clamp_reason, events_at, list_events,
}
use socio_seo_agent.Runs.Events.{IsNumbered, NumberedFrom, Entry, record_all, poll_complete}

program : Unit {0}
unfolding record_all events_at list_events clean_payload get clamp_reason IsNumbered NumberedFrom
program = tt

abbrev store : Store
store = record { runs = []; events = (1, []) ∷ (2, []) ∷ [] }

store-IsNumbered : IsNumbered store
unfolding program
store-IsNumbered run_id [] e = tt
store-IsNumbered run_id (x ∷ es) e = ground arith

abbrev payload : Fields
payload = field "summary" (text "ok") (field "html" (text "<p>") end)

abbrev entries : List Entry
entries =
    record { run_id = 1; node = "PLAN"; status = started; payload = payload }
    ∷ record { run_id = 2; node = "PLAN"; status = started; payload = end }
    ∷ record { run_id = 9; node = "PLAN"; status = started; payload = end }
    ∷ record { run_id = 1; node = "GENERATE"; status = started; payload = end }
    ∷ []

first_of_two : length (list_events 1 1 (record_all entries store)) ≡ 1
unfolding program
first_of_two = refl

has_run : events_at 1 store.events ≡ some []
unfolding program
has_run = refl

poll_complete_example :
    IsNumbered (record_all entries store)
    × ((new : List Event) × (events_at 1 (record_all entries store).events ≡ some ([] ++ new))
        × (list_events 1 (length {A = Event} []) (record_all entries store) ≡ new))
poll_complete_example = poll_complete store 1 [] entries store-IsNumbered has_run

html_dropped : get "html" (clean_payload payload) ≡ none
unfolding program
html_dropped = refl
