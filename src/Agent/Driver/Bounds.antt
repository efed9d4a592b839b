-- ===== src/Agent/Driver/Bounds.antt =====
-- The three ceilings of a run at its stopping points.
use socio_seo_agent.Prelude.{◌≤◌, ◌≡◌, ap, Bool, Option, some, List, arith}
use socio_seo_agent.Agent.State.{AgentState, RunCaps, NodeName}
use socio_seo_agent.Agent.Verdicts.{cap_exit}
use socio_seo_agent.Agent.Driver.{Nodes, Machine, Report, Event, Next, go, stop, visit, run_graph}
use socio_seo_agent.Agent.Driver.Pass.{
  After, OnState, IsSettled, settle_node-IsSettled, IsStepped, IsBranched, branch-IsBranched,
  visit_rule, run_rule,
}

-- Within the ceilings `caps`.
pub record IsBounded (caps : RunCaps) (state : AgentState) : Type 0 where
  pub same_caps : state.caps ≡ caps
  pub steps : state.step_count ≤ caps.max_steps
  pub cost : state.cost_usd ≤ caps.max_usd
  pub loops : state.validate_loops ≤ caps.max_validate_loops

module _ (caps : RunCaps) where
  stepped-IsBounded :
      (name : NodeName) (before after : AgentState)
      → IsStepped name before after
      → IsBounded caps before
      → IsBounded caps after
  stepped-IsBounded name before after s h = ground arith

  settled-IsBounded :
      (before after : AgentState)
      → IsSettled before after
      → IsBounded caps before
      → IsBounded caps after
  settled-IsBounded before after s h = ground arith

  branched-IsBounded :
      (before after : AgentState)
      → IsBranched before after
      → IsBounded caps before
      → IsBounded caps after
  branched-IsBounded before after s h = ground arith

  OnState→After :
      (before : AgentState) (log : List Event) (next : Next) (events : List Event)
      → OnState (IsBranched before) next
      → IsBounded caps before
      → After (λ m. IsBounded caps m.state) (λ r. IsBounded caps r.result.state) log (next, events)
  OnState→After before log (go pending state) events h b = branched-IsBounded before state h b
  OnState→After before log (stop result) events h b = branched-IsBounded before result.state h b

  module _ (nodes : Nodes) (stop_after : Option NodeName) (resume : Bool) where
    abbrev P : Machine → Type 0
    P m = IsBounded caps m.state

    abbrev Q : Report → Type 0
    Q r = IsBounded caps r.result.state

    visit-IsBounded :
        (name : NodeName) (rest : List NodeName) (state : AgentState) (log : List Event)
        → IsBounded caps state
        → After P Q log (visit nodes stop_after name rest state)
    unfolding cap_exit
    visit-IsBounded name rest state log h =
        visit_rule nodes stop_after P Q name rest log state
          (λ stepped settled events s e.
            OnState→After settled log _ events (branch-IsBranched stop_after rest settled name) (
              settled-IsBounded stepped settled
                (settle_node-IsSettled name _ stepped settled (ap (λ p. p.0) e))
                (stepped-IsBounded name state stepped s h)))
          (λ stepped exceeded events s e.
            let b = stepped-IsBounded name state stepped s h in ground arith)
          (λ exceeded e. ground arith)

    -- A run that starts within its ceilings stops within them: it counts no step past `max_steps`,
    -- books no cost past `max_usd` and enters no VALIDATE retry past `max_validate_loops`, whatever
    -- the nodes answer, and no stopping point changes the ceilings.
    pub run_graph-IsBounded :
        (state : AgentState) (report : Report)
        → IsBounded caps state
        → run_graph nodes stop_after resume state ≡ some report
        → IsBounded caps report.result.state
    run_graph-IsBounded =
        run_rule nodes stop_after resume P Q (λ state log h. ground arith)
          (λ name rest state log _ h. h)
          (λ name rest state log _ h. visit-IsBounded name rest state log h)
