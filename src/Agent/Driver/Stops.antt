-- ===== src/Agent/Driver/Stops.antt =====
-- The stopping points of a run, each with its outcome.
use socio_seo_agent.Prelude.{
  ◌≡◌, refl, ap, ◌∙◌, Bool, true, false, none, some, List, [], ◌∷◌, ◌++◌, ◌+◌, ltb, Bool-cases,
  Option-cases, inl, inr,
}
use socio_seo_agent.Agent.State.{
  AgentState, Outcome, NodeName, Reason, opportunity_failed, review, opportunity, validate,
  enter_validate_loop,
}
use socio_seo_agent.Agent.Verdicts.{
  cap_exit, truthy_at, node_failure, opportunity_exit, validate_exit, verdicts,
}
use socio_seo_agent.Agent.Driver.{
  Nodes, Machine, Report, GraphResult, Event, Next, go, stop, branch, advance, retry, visit,
  run_graph,
}
use socio_seo_agent.Agent.Driver.Pass.{After, settle_node-IsSettled, visit_rule, run_rule}

-- The three ways in which a run stops.
pub data IsStated (result : GraphResult) : Type 0 where
  at_gate :
      (earlier : List NodeName)
      → result.interrupted ≡ true
      → result.state.outcome ≡ Outcome.awaiting_approval
      → result.state.visited ≡ earlier ++ review ∷ []
      → IsStated result
  finished : result.interrupted ≡ false → result.state.outcome ≡ Outcome.done → IsStated result
  partly :
      (reason : Reason)
      → result.interrupted ≡ false
      → result.state.outcome ≡ Outcome.partial
      → result.state.finished_reason ≡ some reason
      → IsStated result

abbrev OnStop : (GraphResult → Type 0) → Next → Type 0
OnStop Q (go pending state) = Unit
OnStop Q (stop result) = Q result

module _ (rest : List NodeName) (state : AgentState) where
  advance-IsStated : (name : NodeName) → OnStop IsStated (advance none name rest state)
  unfolding advance
  advance-IsStated name = tt

  exit-IsStated : OnStop IsStated (branch none opportunity rest state)
  unfolding branch opportunity_exit
  exit-IsStated = elim (Bool-cases (truthy_at "opportunity" state.contents)) [
    | inl chosen ↦ rw (chosen, opportunity_exit, branch) (advance-IsStated opportunity)
    | inr empty ↦ elim (Option-cases (node_failure state opportunity)) [
      | inl judged ↦
          rw (empty, opportunity_exit, branch)
            (rw (judged, opportunity_exit, branch) (finished refl refl))
      | inr (cause, crashed) ↦
          rw (empty, opportunity_exit, branch)
            (rw (crashed, opportunity_exit, branch)
              (partly (opportunity_failed cause) refl refl refl))
    ]
  ]

  retry-IsStated : OnStop IsStated (retry none state)
  unfolding retry enter_validate_loop validate_exit
  retry-IsStated =
      elim (Bool-cases (ltb state.caps.max_validate_loops (state.validate_loops + 1))) [
        | inl spent ↦
            rw (spent, enter_validate_loop, retry)
              (elim (Bool-cases (verdicts state).blocked) [
                | inl blocked ↦ rw (blocked, validate_exit) (partly _ refl refl refl)
                | inr weak ↦ rw (weak, validate_exit) (partly _ refl refl refl)
              ])
        | inr left ↦ rw (left, enter_validate_loop, retry) tt
      ]

  branch-IsStated :
      (name : NodeName) (earlier : List NodeName)
      → state.visited ≡ earlier ++ name ∷ []
      → OnStop IsStated (branch none name rest state)
  unfolding branch
  branch-IsStated opportunity earlier e = exit-IsStated
  branch-IsStated validate earlier e = elim (Bool-cases (verdicts state).weak_draft) [
    | inl weak ↦ rw (weak, branch) retry-IsStated
    | inr fine ↦ rw (fine, branch) (advance-IsStated validate)
  ]
  branch-IsStated review earlier e = at_gate earlier refl refl e
  branch-IsStated name earlier e = advance-IsStated name

module _ (nodes : Nodes) (resume : Bool) where
  abbrev P : Machine → Type 0
  P m = Unit

  abbrev Q : Report → Type 0
  Q r = IsStated r.result

  OnStop→After :
      (log : List Event) (next : Next) (events : List Event)
      → OnStop IsStated next
      → After P Q log (next, events)
  OnStop→After log (go pending state) events h = tt
  OnStop→After log (stop result) events h = h

  visit-IsStated :
      (name : NodeName) (rest : List NodeName) (state : AgentState) (log : List Event)
      → After P Q log (visit nodes none name rest state)
  unfolding cap_exit
  visit-IsStated name rest state log =
      visit_rule nodes none P Q name rest log state
        (λ stepped settled events s e.
          let b = settle_node-IsSettled name _ stepped settled (ap (λ p. p.0) e) in
          OnStop→After log _ events
            (branch-IsStated rest settled name state.visited (b.visited ∙ s.visited)))
        (λ stepped exceeded events s e. partly _ refl refl refl)
        (λ exceeded e. partly _ refl refl refl)

  -- A run never stops silently: it is parked at the gate behind REVIEW with a human to wait for, or
  -- it is done, or it is partial with a stated reason. No run with `_stop_after` absent is left
  -- running, and `interrupted` is set at the gate alone.
  pub run_graph-IsStated :
      (state : AgentState) (report : Report)
      → run_graph nodes none resume state ≡ some report
      → IsStated report.result
  run_graph-IsStated state report =
      run_rule nodes none resume P Q (λ state log _. finished refl refl) (λ _ _ _ _ _ _. tt)
        (λ name rest state log _ _. visit-IsStated name rest state log) state report tt
