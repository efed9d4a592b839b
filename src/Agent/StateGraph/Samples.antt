-- ===== src/Agent/StateGraph/Samples.antt =====
-- The theorem at a run of the compiled graph.
use socio_seo_agent.Prelude.{ℕ, Bool, Option, none, some, ltb}
use socio_seo_agent.Json.{Fields, bool, text, obj, end, field, merge}
use socio_seo_agent.Agent.State.{
  AgentState, RunCaps, harvest, opportunity, generate, validate, new_state, step, charge,
  enter_validate_loop,
}
use socio_seo_agent.Agent.Verdicts.{verdicts, resumable_skip, opportunity_exit, validate_exit}
use socio_seo_agent.Agent.Driver.{Nodes, Reply, returned, raised, run_graph}
use socio_seo_agent.Agent.StateGraph.{wake, is_running}
use socio_seo_agent.Agent.StateGraph.Wrap.{is_consistent}
use socio_seo_agent.Agent.StateGraph.Engine.{engine}

abbrev caps : RunCaps
caps = record { max_steps = 14; max_usd = 50_000_000; max_validate_loops = 2 }

abbrev fresh : AgentState
fresh = new_state end caps

abbrev writes : Fields → Option ℕ → Reply
writes entries cost = returned (record { entries = entries; errors = none; cost = cost })

abbrev passed : Bool → Fields
passed b = field "passed" (bool b) end

-- HARVEST crashes, a draft costs two cents, and VALIDATE finds it weak until it ran twice.
abbrev nodes : Nodes
nodes harvest state = raised "timeout"
nodes opportunity state =
    writes (field "opportunity" (obj (field "topic" (text "tea") end)) end) none
nodes generate state = writes end (some 2_000_000)
nodes validate state =
    writes (field "seo_report" (obj (passed (ltb 0 state.validate_loops))) end) none
nodes name state = writes end none

program : Unit {0}
unfolding run_graph new_state resumable_skip verdicts opportunity_exit validate_exit step charge
    enter_validate_loop merge engine wake is_running is_consistent
program = tt
