-- ===== src/Runs/Service.antt =====
-- backend/app/services/run_service.py: the operations of `RunService` on the row of a run.
pub mod Rows
use socio_seo_agent.Prelude.{
  ℕ, ◌+◌, String, Bool, true, false, Option, none, some, List, [], ◌∷◌, ◌++◌, ◌==◌, if◌then◌else◌,
}
use socio_seo_agent.Agent.State.{AgentState, NodeName, approve}
use socio_seo_agent.Runs.{
  Run, RunState, Store, Events, queued, running, awaiting_approval, update_run,
}

-- self._runs.get(run_id)
unfoldable pub find_run : ℕ → List Run → Option Run
find_run run_id [] = none
find_run run_id (run ∷ runs) = if run.id == run_id then some run else find_run run_id runs

-- self._runs[run.id] = run
unfoldable pub put_run : Run → List Run → List Run
put_run run [] = run ∷ []
put_run run (other ∷ others) =
    if other.id == run.id then run ∷ others else other ∷ put_run run others

-- self._events[run_id] = []
unfoldable pub clear_events : ℕ → Events → Events
clear_events run_id [] = (run_id, []) ∷ []
clear_events run_id (entry ∷ rest) =
    if entry.0 == run_id then (run_id, []) ∷ rest else entry ∷ clear_events run_id rest

unfoldable pub create : Run → Store → Store
unfolding put_run clear_events
create run s = record { runs = put_run run s.runs; events = clear_events run.id s.events }

-- The row that `start` creates, for the identifier that uuid4 returns.
unfoldable pub queued_run : ℕ → ℕ → String → List String → Run
queued_run run_id business_id goal channels = record {
  id = run_id;
  business_id = business_id;
  goal = goal;
  channels = channels;
  state = queued;
  resumed_count = 0;
  finished_reason = none;
  current_node = none;
  checkpoint = none;
}

unfoldable pub start : ℕ → ℕ → String → List String → Store → Store
unfolding create queued_run
start run_id business_id goal channels s = create (queued_run run_id business_id goal channels) s

-- A row is read, changed and updated; `none` is the KeyError of an unknown run.
unfoldable pub change : ℕ → (Run → Run) → Store → Option Store
unfolding update_run
change run_id f s = elim (update_run run_id f s.runs) [
  | none ↦ none
  | some runs ↦ some (record s { runs = runs })
]

unfoldable pub checkpoint : ℕ → AgentState → Option NodeName → Store → Option Store
unfolding change
checkpoint run_id state current_node s =
    change run_id
      (λ run. record run { checkpoint = some state; current_node = current_node; state = running })
      s

unfoldable pub await_approval : ℕ → Store → Option Store
unfolding change
await_approval run_id s = change run_id (λ run. record run { state = awaiting_approval }) s

unfoldable pub mark_resumed : ℕ → Store → Option Store
unfolding change
mark_resumed run_id s =
    change run_id (λ run. record run { resumed_count = run.resumed_count + 1 }) s

unfoldable pub restore : ℕ → Store → Option AgentState
unfolding find_run
restore run_id s = elim (find_run run_id s.runs) [ some run ↦ run.checkpoint | none ↦ none ]

unfoldable pub with_checkpoint : ℕ → AgentState → Store → Option (Bool × Store)
unfolding change
with_checkpoint run_id state s =
    elim (change run_id (λ run. record run { checkpoint = some state }) s) [
      | some changed ↦ some (true, changed)
      | none ↦ none
    ]

unfoldable pub approve_checkpoint : ℕ → String → Option AgentState → Store → Option (Bool × Store)
unfolding approve with_checkpoint
approve_checkpoint run_id approver none s = some (false, s)
approve_checkpoint run_id approver (some state) s = elim (approve state approver) [
  | some approved ↦ with_checkpoint run_id approved s
  | none ↦ none
]

-- `record_approval`; `none` is a KeyError or the ValueError of a blank approver.
unfoldable pub record_approval : ℕ → String → Store → Option (Bool × Store)
unfolding find_run approve_checkpoint
record_approval run_id approver s = elim (find_run run_id s.runs) [
  | some run ↦ approve_checkpoint run_id approver run.checkpoint s
  | none ↦ none
]
