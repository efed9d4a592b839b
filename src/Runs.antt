-- ===== src/Runs.antt =====
-- backend/app/services/run_service.py: the events, the payloads and the end of a run, over the
-- in-memory store.
pub mod Events
pub mod Payloads
pub mod Service
pub mod Executor
pub mod Routes
pub mod World
mod Samples
use socio_seo_agent.Prelude.{
  ℕ, zero, suc, ◌+◌, String, Bool, true, false, Option, none, some, List, [], ◌∷◌, ◌++◌, any,
  length, leb, ltb, ◌==◌, str_eq, if◌then◌else◌,
}
use socio_seo_agent.Json.{Json, Fields, end, field}
use socio_seo_agent.Strings.{len, rstrip, prefix, concat}
use socio_seo_agent.Agent.State.{AgentState, NodeName}

pub data RunState : Type 0 where
  queued running awaiting_approval done failed partial rejected : RunState

pub data EventStatus : Type 0 where
  started done failed skipped : EventStatus

-- `RunRecord`. The checkpoint is kept as the state that it encodes, and `none` is the empty one.
pub record Run : Type 0 where
  pub id : ℕ
  pub business_id : ℕ
  pub goal : String
  pub channels : List String
  pub state : RunState
  pub resumed_count : ℕ
  pub finished_reason : Option String
  pub current_node : Option NodeName
  pub checkpoint : Option AgentState

-- `RunEventRecord`, less its timestamp.
pub record Event : Type 0 where
  pub run_id : ℕ
  pub seq : ℕ
  pub node : String
  pub status : EventStatus
  pub payload : Fields

-- The dictionary of events by run.
abbrev pub Events : Type 0
Events = List (ℕ × List Event)

pub record Store : Type 0 where
  pub runs : List Run
  pub events : Events

-- self._events.get(run_id)
unfoldable pub events_at : ℕ → Events → Option (List Event)
events_at run_id [] = none
events_at run_id (entry ∷ rest) = if entry.0 == run_id then some entry.1 else events_at run_id rest

-- self._events[run_id].append(event)
unfoldable pub push : ℕ → Event → Events → Events
push run_id event [] = []
push run_id event (entry ∷ rest) =
    if entry.0 == run_id
    then (entry.0, entry.1 ++ event ∷ []) ∷ rest
    else entry ∷ push run_id event rest

-- `next_seq`; `none` is its KeyError.
unfoldable pub next_seq : ℕ → Store → Option ℕ
unfolding events_at
next_seq run_id s = elim (events_at run_id s.events) [
  | none ↦ none
  | some es ↦ some (length es + 1)
]

-- `ALLOWED_PAYLOAD_KEYS`
unfoldable pub allowed : String → Bool
allowed key =
    any (str_eq key)
      ("cost_usd" ∷ "duration_ms" ∷ "summary" ∷ "error" ∷ "score" ∷ "count" ∷ "tier" ∷ "model" ∷ [])

-- `_clean_payload` of values that JSON can hold.
unfoldable pub clean_payload : Fields → Fields
unfolding allowed
clean_payload end = end
clean_payload (field key value fs) =
    let rest = clean_payload fs in if allowed key then field key value rest else rest

unfoldable pub event_of : ℕ → ℕ → String → EventStatus → Fields → Event
unfolding clean_payload
event_of run_id seq node status payload = record {
  run_id = run_id;
  seq = seq;
  node = node;
  status = status;
  payload = clean_payload payload;
}

-- `record_event`; `none` is the KeyError of an unknown run.
unfoldable pub record_event : ℕ → String → EventStatus → Fields → Store → Option (Event × Store)
unfolding next_seq event_of push
record_event run_id node status payload s = elim (next_seq run_id s) [
  | none ↦ none
  | some seq ↦ some (
    event_of run_id seq node status payload,
    record s { events = push run_id (event_of run_id seq node status payload) s.events },
  )
]

unfoldable pub after : ℕ → List Event → List Event
after seq [] = []
after seq (e ∷ es) = let rest = after seq es in if ltb seq e.seq then e ∷ rest else rest

-- `list_events`
unfoldable pub list_events : ℕ → ℕ → Store → List Event
unfolding events_at after
list_events run_id after_seq s = elim (events_at run_id s.events) [
  | none ↦ []
  | some es ↦ after after_seq es
]

-- `MAX_FINISHED_REASON`
abbrev pub max_finished_reason : ℕ
max_finished_reason = 255

unfoldable pub clamp_text : String → String
unfolding prefix concat rstrip len
clamp_text reason =
    if leb (len reason) max_finished_reason
    then reason
    else concat (rstrip (prefix 251 reason)) " ..."

-- `clamp_reason`
unfoldable pub clamp_reason : Option String → Option String
unfolding clamp_text
clamp_reason none = none
clamp_reason (some reason) = some (clamp_text reason)

unfoldable pub update_run : ℕ → (Run → Run) → List Run → Option (List Run)
update_run run_id f [] = none
update_run run_id f (run ∷ runs) =
    let rest = update_run run_id f runs in
    if run.id == run_id
    then some (f run ∷ runs)
    else elim rest [ none ↦ none | some others ↦ some (run ∷ others) ]

-- `finish`; `none` is the KeyError of an unknown run.
unfoldable pub finish : ℕ → RunState → Option String → Store → Option Store
unfolding update_run clamp_reason
finish run_id outcome reason s =
    elim (update_run run_id
      (λ run. record run { state = outcome; finished_reason = clamp_reason reason }) s.runs) [
        | none ↦ none
        | some runs ↦ some (record s { runs = runs })
      ]
