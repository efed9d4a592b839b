-- ===== src/Agent/StateGraph.antt =====
-- backend/app/agents/state_graph.py: the same machine, compiled with LangGraph.
-- LangGraph is not in the repository: `Compiled` is what `build_state_graph` hands to it, `Reaches`
-- is its documented execution by super-steps, and `ainvoke` is a parameter that obeys it
-- (`IsDocumented`). A node's dict of updates is kept as the state that it makes, {**state, **updates}.
pub mod Wrap
pub mod Passes
pub mod Mirror
pub mod Agrees
pub mod Keys
pub mod Engine
mod Samples
use socio_seo_agent.Prelude.{
  ℕ, zero, suc, ◌≤◌, ◌≡◌, String, Bool, true, false, not, ◌&&◌, ◌||◌, Option, none, some, List, [],
  ◌∷◌, ◌++◌, if◌then◌else◌, Result, ok, err,
}
use socio_seo_agent.Agent.State.{
  AgentState, NodeName, Outcome, generate, opportunity, validate, review, export, index, same,
  is_visited, step, charge, record_error, enter_validate_loop,
}
use socio_seo_agent.Agent.Verdicts.{
  resumable_skip, verdicts, opportunity_exit, validate_exit, cap_exit,
}
use socio_seo_agent.Agent.Driver.{
  Nodes, Updates, Reply, returned, raised, Event, started, failed, done, GraphResult, Report, order,
  absorb, charge_updates,
}

-- The nodes of the graph: the eleven of `ORDER`, and the gate AFTER_REVIEW.
pub data Place : Type 0 where
  node : NodeName → Place
  after_review : Place

pub data Target : Type 0 where
  to : Place → Target
  graph_end : Target

unfoldable pub drop : ℕ → List NodeName → List NodeName
drop zero names = names
drop (suc n) [] = []
drop (suc n) (name ∷ names) = drop n names

-- ORDER[ORDER.index(name):]
unfoldable pub order_from : NodeName → List NodeName
unfolding drop index
order_from name = drop (index name) order

-- ORDER[index + 1:]
unfoldable pub order_after : NodeName → List NodeName
unfolding drop index
order_after name = drop (suc (index name)) order

unfoldable pub next_unvisited : Bool → AgentState → List NodeName → Target
next_unvisited resume state [] = graph_end
next_unvisited resume state (name ∷ rest) =
    if not resume || not (resumable_skip state name)
    then to (node name)
    else next_unvisited resume state rest

unfoldable pub is_running : Outcome → Bool
is_running Outcome.running = true
is_running _ = false

-- The exit checks behind a node that ran or crashed.
unfoldable pub check_exits : NodeName → AgentState → AgentState
check_exits opportunity here = elim (opportunity_exit here) [ some final ↦ final | none ↦ here ]
check_exits validate here =
    if (verdicts here).weak_draft
    then elim (enter_validate_loop here) [
      | ok looped ↦ looped
      | err _ ↦ validate_exit here (verdicts here).blocked
    ]
    else here
check_exits name here = here

-- The wrapper behind `step`, on the node's reply.
unfoldable pub wrap_reply : NodeName → Reply → AgentState → AgentState × List Event
unfolding check_exits absorb charge_updates record_error
wrap_reply name (raised message) stepped = (
  check_exits name
      (record_error stepped (record { node = name; code = "node_failed"; message = message })),
  started name ∷ failed name message ∷ [],
)
wrap_reply name (returned updates) stepped = elim (charge_updates stepped updates.cost) [
  | ok charged ↦
      (check_exits name (absorb charged updates), started name ∷ done name charged.cost_usd ∷ [])
  | err exceeded ↦ (cap_exit (absorb stepped updates) exceeded, started name ∷ [])
]

unfoldable pub wrap : Nodes → NodeName → AgentState → AgentState × List Event
unfolding wrap_reply
wrap nodes name state = elim (step state name) [
  | ok stepped ↦ wrap_reply name (nodes name stepped) stepped
  | err exceeded ↦ (cap_exit state exceeded, [])
]

unfoldable pub stops_at : Option NodeName → NodeName → Bool
stops_at none name = false
stops_at (some last) name = same name last

-- `_router`
unfoldable pub router : Option NodeName → Bool → NodeName → AgentState → Target
unfolding is_running stops_at next_unvisited order_after
router stop_after resume name state =
    if not (is_running state.outcome)
    then graph_end
    else if stops_at stop_after name
    then graph_end
    else if same name validate && (verdicts state).weak_draft
    then to (node generate)
    else if same name review
    then to after_review
    else next_unvisited resume state (order_after name)

pub record Compiled : Type 0 where
  pub entry : AgentState → Target
  pub run : Place → AgentState → AgentState × List Event
  pub route : Place → AgentState → Target
  pub interrupt_before : Place → Bool

unfoldable pub run_place : Nodes → Place → AgentState → AgentState × List Event
unfolding wrap
run_place nodes (node name) state = wrap nodes name state
run_place nodes after_review state = (state, [])

unfoldable pub route_place : Option NodeName → Bool → Place → AgentState → Target
unfolding router next_unvisited order_from
route_place stop_after resume (node name) state = router stop_after resume name state
route_place stop_after resume after_review state = next_unvisited resume state (order_from export)

unfoldable pub interrupts : Bool → Place → Bool
interrupts arm_interrupt (node name) = false
interrupts arm_interrupt after_review = arm_interrupt

unfoldable pub entry : Bool → AgentState → Target
unfolding next_unvisited
entry resume state =
    if not resume then to (node NodeName.intake) else next_unvisited resume state order

unfoldable pub build_state_graph : Nodes → Option NodeName → Bool → Bool → Compiled
unfolding entry run_place route_place interrupts
build_state_graph nodes stop_after resume arm_interrupt = record {
  entry = entry resume;
  run = run_place nodes;
  route = route_place stop_after resume;
  interrupt_before = interrupts arm_interrupt;
}

-- Where an invocation stands: the edge taken, the state, and the events that the nodes emitted.
pub record Point : Type 0 where
  pub target : Target
  pub state : AgentState
  pub log : List Event

unfoldable pub after_step : Compiled → Place → Point → Point
after_step graph place point = record {
  target = graph.route place (graph.run place point.state).0;
  state = (graph.run place point.state).0;
  log = point.log ++ (graph.run place point.state).1;
}

-- The points that an invocation reaches, with the number of super-steps.
pub data Reaches (graph : Compiled) (state : AgentState) : ℕ → Point → Type 0 where
  start : Reaches graph state 0 (record { target = graph.entry state; state = state; log = [] })
  superstep :
      (k : ℕ) (place : Place) (point : Point)
      → Reaches graph state k point
      → point.target ≡ to place
      → graph.interrupt_before place ≡ false
      → Reaches graph state (suc k) (after_step graph place point)

-- The end of an invocation; `next` is the place that it paused before (`aget_state`).
pub record Snapshot : Type 0 where
  pub state : AgentState
  pub next : Option Place
  pub log : List Event

-- `none` is an exception, such as the one of the recursion limit.
abbrev pub Ainvoke : Type 0
Ainvoke = Compiled → AgentState → Option Snapshot

-- An invocation runs from START until an edge leads to END or to a place to interrupt before,
-- provided that it needs fewer super-steps than the recursion limit.
pub record IsDocumented (limit : ℕ) (ainvoke : Ainvoke) : Type 0 where
  pub finishes :
      (graph : Compiled) (state : AgentState) (k : ℕ) (point : Point)
      → Reaches graph state k point
      → suc k ≤ limit
      → point.target ≡ graph_end
      → ainvoke graph state ≡ some (record { state = point.state; next = none; log = point.log })
  pub pauses :
      (graph : Compiled) (state : AgentState) (k : ℕ) (point : Point) (place : Place)
      → Reaches graph state k point
      → suc k ≤ limit
      → point.target ≡ to place
      → graph.interrupt_before place ≡ true
      → ainvoke graph state
        ≡ some (record { state = point.state; next = some place; log = point.log })

-- A resumed run is running again.
unfoldable pub wake : Bool → AgentState → AgentState
wake resume state = elim state.outcome [
  | Outcome.awaiting_approval ↦ if resume then record state { outcome = Outcome.running } else state
  | _ ↦ state
]

-- final["visited"][-1:] == [stop_after]
unfoldable pub ends_at : Option NodeName → List NodeName → Bool
unfolding stops_at
ends_at stop_after [] = false
ends_at stop_after (name ∷ []) = stops_at stop_after name
ends_at stop_after (name ∷ names) = ends_at stop_after names

-- AFTER_REVIEW in (snapshot.next or ())
unfoldable pub is_gate : Option Place → Bool
is_gate (some after_review) = true
is_gate _ = false

-- The GraphResult of the state that an invocation ended with.
unfoldable pub read_result : Option NodeName → Snapshot → GraphResult
unfolding is_running ends_at is_gate
read_result stop_after final =
    if is_gate final.next
    then record {
      state = record final.state { outcome = Outcome.awaiting_approval };
      interrupted = true;
    }
    else if not (is_running final.state.outcome) || ends_at stop_after final.state.visited
    then record { state = final.state; interrupted = false }
    else record { state = record final.state { outcome = Outcome.done }; interrupted = false }

module _ (ainvoke : Ainvoke) (nodes : Nodes) (stop_after : Option NodeName) (resume : Bool) where
  unfoldable pub run_state_graph : AgentState → Option Report
  unfolding wake build_state_graph read_result is_visited
  run_state_graph state =
      let awake = wake resume state in
      let graph =
        build_state_graph nodes stop_after resume (not (is_visited review awake.visited)) in
      elim (ainvoke graph awake) [
        | some final ↦ some (record { result = read_result stop_after final; log = final.log })
        | none ↦ none
      ]
