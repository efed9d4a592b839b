-- ===== src/Agent/Driver.antt =====
-- backend/app/agents/graph.py: `run_graph` and `_run_node`.
-- A node is a function of the state. What a node awaits from outside is in the function: the states
-- of one run differ in `step_count`, so any sequence of answers is the answers of some function.
-- A node returns a dict of updates or raises; the nodes of the program write no control key but
-- `errors` and `_cost`. The dict `contents` takes the other updates. `pending` is `ORDER[index:]`.
pub mod Pass
pub mod Total
pub mod Bounds
pub mod Timeline
pub mod Stops
pub mod Resume
pub mod Gate
pub mod Drafts
pub mod Unchecked
pub mod Keys
use socio_seo_agent.Prelude.{
  ℕ, zero, suc, ◌+◌, ◌*◌, ◌-◌, String, Bool, true, false, ◌&&◌, Option, none, some, List, [], ◌∷◌,
  ◌++◌, ltb, length, if◌then◌else◌, Result, ok, err,
}
use socio_seo_agent.Json.{Fields, merge}
use socio_seo_agent.Agent.State.{
  AgentState, NodeName, NodeError, Outcome, CapExceeded, intake, harvest, opportunity, plan,
  generate, convert, validate, repack, review, export, measure, same, step, charge, record_error,
  enter_validate_loop,
}
use socio_seo_agent.Agent.Verdicts.{
  resumable_skip, verdicts, opportunity_exit, validate_exit, cap_exit,
}

-- `cost` is `_cost` where it is a Decimal, in units of 1e-8 USD.
pub record Updates : Type 0 where
  pub entries : Fields
  pub errors : Option (List NodeError)
  pub cost : Option ℕ

pub data Reply : Type 0 where
  returned : Updates → Reply
  raised : String → Reply

abbrev pub Nodes : Type 0
Nodes = NodeName → AgentState → Reply

pub data Event : Type 0 where
  started : NodeName → Event
  failed : NodeName → String → Event
  done : NodeName → ℕ → Event

pub record GraphResult : Type 0 where
  pub state : AgentState
  pub interrupted : Bool

-- `ORDER[ORDER.index("GENERATE"):]`
abbrev pub from_generate : List NodeName
from_generate = generate ∷ convert ∷ validate ∷ repack ∷ review ∷ export ∷ measure ∷ []

abbrev pub order : List NodeName
order = intake ∷ harvest ∷ opportunity ∷ plan ∷ from_generate

-- {**state, **merged}
unfoldable pub absorb : AgentState → Updates → AgentState
absorb state updates = record state {
  contents = merge state.contents updates.entries;
  errors = elim updates.errors [ some errors ↦ errors | none ↦ state.errors ];
}

unfoldable pub charge_updates : AgentState → Option ℕ → Result CapExceeded AgentState
charge_updates state none = ok state
charge_updates state (some cost) = if ltb 0 cost then charge state cost else ok state

-- `_run_node` on the node's reply: the state or the cap's exception, and the events it emits.
unfoldable pub settle_node :
    NodeName → Reply → AgentState → Result CapExceeded AgentState × List Event
unfolding absorb charge_updates record_error
settle_node name (raised message) state = (
  ok (record_error state (record { node = name; code = "node_failed"; message = message })),
  started name ∷ failed name message ∷ [],
)
settle_node name (returned updates) state = elim (charge_updates state updates.cost) [
  | ok charged ↦ (ok (absorb charged updates), started name ∷ done name charged.cost_usd ∷ [])
  | err exceeded ↦ (err exceeded, started name ∷ [])
]

-- The machine between two passes of the loop, with the events emitted so far.
pub record Machine : Type 0 where
  pub pending : List NodeName
  pub state : AgentState
  pub log : List Event

pub record Report : Type 0 where
  pub result : GraphResult
  pub log : List Event

pub data Next : Type 0 where
  go : List NodeName → AgentState → Next
  stop : GraphResult → Next

abbrev pub halt : AgentState → Next
halt state = stop (record { state = state; interrupted = false })

module _ (stop_after : Option NodeName) where
  -- The end of the loop's body: the test hook, else `index += 1`.
  unfoldable pub advance : NodeName → List NodeName → AgentState → Next
  advance name rest state = elim stop_after [
    | some last ↦
        if same name last then halt (record state { outcome = Outcome.running }) else go rest state
    | none ↦ go rest state
  ]

  unfoldable pub retry : AgentState → Next
  retry state = elim (enter_validate_loop state) [
    | ok looped ↦ go from_generate looped
    | err _ ↦ halt (validate_exit state (verdicts state).blocked)
  ]

  -- The loop's body behind the node.
  unfoldable pub branch : NodeName → List NodeName → AgentState → Next
  unfolding advance retry
  branch opportunity rest state = elim (opportunity_exit state) [
    | some final ↦ halt final
    | none ↦ advance opportunity rest state
  ]
  branch validate rest state =
      if (verdicts state).weak_draft then retry state else advance validate rest state
  branch review rest state =
      stop (record {
        state = record state { outcome = Outcome.awaiting_approval };
        interrupted = true;
      })
  branch name rest state = advance name rest state

  unfoldable pub conclude :
      NodeName
      → List NodeName
      → AgentState
      → Result CapExceeded AgentState × List Event
      → Next × List Event
  unfolding branch
  conclude name rest stepped (ok state, events) = (branch name rest state, events)
  conclude name rest stepped (err exceeded, events) = (halt (cap_exit stepped exceeded), events)

-- What the loop does with the outcome of a pass.
unfoldable pub proceed : (Machine → Option Report) → List Event → Next × List Event → Option Report
proceed again log (go pending state, events) =
    again (record { pending = pending; state = state; log = log ++ events })
proceed again log (stop result, events) = some (record { result = result; log = log ++ events })

-- Each step uses one of the steps that are left, and between two steps at most eleven skip.
unfoldable pub enough : List NodeName → AgentState → ℕ
enough pending state = suc ((state.caps.max_steps + 1 - state.step_count) * 12 + length pending)

module _ (nodes : Nodes) (stop_after : Option NodeName) where
  -- The body behind `step`; a cap's exception ends the run with the state that stepped.
  unfoldable pub execute : NodeName → List NodeName → AgentState → Next × List Event
  unfolding settle_node conclude
  execute name rest stepped =
      conclude stop_after name rest stepped (settle_node name (nodes name stepped) stepped)

  unfoldable pub visit : NodeName → List NodeName → AgentState → Next × List Event
  unfolding execute
  visit name rest state = elim (step state name) [
    | ok stepped ↦ execute name rest stepped
    | err exceeded ↦ (halt (cap_exit state exceeded), [])
  ]

  module _ (resume : Bool) where
    -- One pass of `while index < len(ORDER)`.
    unfoldable pub turn : List NodeName → AgentState → Next × List Event
    unfolding visit
    turn [] state = (halt (record state { outcome = Outcome.done }), [])
    turn (name ∷ rest) state =
        if resume && resumable_skip state name then (go rest state, []) else visit name rest state

    unfoldable pub loop : ℕ → Machine → Option Report
    unfolding turn proceed
    loop zero m = none
    loop (suc fuel) m = proceed (loop fuel) m.log (turn m.pending m.state)

    unfoldable pub run_graph : AgentState → Option Report
    unfolding loop enough
    run_graph state =
        loop (enough order state) (record { pending = order; state = state; log = [] })
