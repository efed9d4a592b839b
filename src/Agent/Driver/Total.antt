-- ===== src/Agent/Driver/Total.antt =====
-- How `run_graph` of backend/app/agents/graph.py stops.
use socio_seo_agent.Prelude.{
  ℕ, zero, suc, ◌+◌, ◌*◌, ◌-◌, ◌≤◌, ◌<◌, ◌≡◌, refl, ap, Bool, ◌&&◌, Option, some, List, [], ◌∷◌,
  ◌++◌, arith, length, Bool-cases, inl, inr, ◌⊎◌,
}
use socio_seo_agent.Agent.State.{
  AgentState, RunCaps, NodeName, opportunity, validate, review, enter_validate_loop,
}
use socio_seo_agent.Agent.Verdicts.{resumable_skip}
use socio_seo_agent.Agent.Driver.{
  Nodes, Machine, Report, Event, Next, go, stop, order, advance, retry, branch, visit, turn, loop,
  proceed, enough, run_graph,
}
use socio_seo_agent.Agent.Driver.Pass.{After, settle_node-IsSettled, visit_rule}

abbrev OnGo : (List NodeName → AgentState → Type 0) → Next → Type 0
OnGo P (go pending state) = P pending state
OnGo P (stop result) = Unit

-- The loop goes on with the rest or from GENERATE, and no pass but a visit counts a step.
record IsNear (rest : List NodeName) (before : AgentState) (pending : List NodeName)
    (after : AgentState) : Type 0 where
  short : (length pending ≤ length rest) ⊎ (length pending ≤ 7)
  caps : after.caps ≡ before.caps
  steps : after.step_count ≡ before.step_count

module _ (stop_after : Option NodeName) (rest : List NodeName) (state : AgentState) where
  advance-IsNear : (name : NodeName) → OnGo (IsNear rest state) (advance stop_after name rest state)
  unfolding advance
  advance-IsNear name = ground arith

  retry-IsNear : OnGo (IsNear rest state) (retry stop_after state)
  unfolding retry enter_validate_loop
  retry-IsNear = ground arith

  branch-IsNear : (name : NodeName) → OnGo (IsNear rest state) (branch stop_after name rest state)
  unfolding branch
  branch-IsNear opportunity = ground (arith, advance-IsNear opportunity)
  branch-IsNear validate = ground (arith, advance-IsNear validate, retry-IsNear)
  branch-IsNear review = tt
  branch-IsNear name = advance-IsNear name

abbrev measure : List NodeName → AgentState → ℕ
measure pending state = (state.caps.max_steps + 1 - state.step_count) * 12 + length pending

abbrev Falls : List NodeName → AgentState → Machine → Type 0
Falls pending state m =
    (measure m.pending m.state < measure pending state) × (length m.pending ≤ 11)

abbrev Ends : Report → Type 0
Ends report = Unit

module _ (nodes : Nodes) (stop_after : Option NodeName) (resume : Bool) (log : List Event) where
  OnGo→After :
      (P : List NodeName → AgentState → Type 0) (R : Machine → Type 0) (next : Next)
      (events : List Event)
      → OnGo P next
      → ((pending : List NodeName) (state : AgentState)
          → P pending state
          → R (record { pending = pending; state = state; log = log ++ events }))
      → After R Ends log (next, events)
  OnGo→After P R (go pending state) events h f = f pending state h
  OnGo→After P R (stop result) events h f = tt

  visit-Falls :
      (name : NodeName) (rest : List NodeName) (state : AgentState)
      → length rest ≤ 10
      → After (Falls (name ∷ rest) state) Ends log (visit nodes stop_after name rest state)
  visit-Falls name rest state h =
      visit_rule nodes stop_after (Falls (name ∷ rest) state) Ends name rest log state
        (λ stepped settled events s e.
          let settles = settle_node-IsSettled name _ stepped settled (ap (λ p. p.0) e) in
          OnGo→After (IsNear rest settled) (Falls (name ∷ rest) state) _ events
            (branch-IsNear stop_after rest settled name)
            (λ pending after near. (
              omega (
                arith,
                ap (λ (c : RunCaps). c.max_steps) near.caps,
                ap (λ (c : RunCaps). c.max_steps) settles.caps,
                ap (λ (c : RunCaps). c.max_steps) s.caps,
              ),
              omega arith,
            )))
        (λ _ _ _ _ _. tt) (λ _ _. tt)

  turn-Falls :
      (pending : List NodeName) (state : AgentState)
      → length pending ≤ 11
      → After (Falls pending state) Ends log (turn nodes stop_after resume pending state)
  unfolding turn
  turn-Falls [] state h = tt
  turn-Falls (name ∷ rest) state h = elim (Bool-cases (resume && resumable_skip state name)) [
    | inl skipped ↦ rw (skipped, turn) (omega arith, omega arith)
    | inr visits ↦ rw (visits, turn) (visit-Falls name rest state (omega arith))
  ]

proceed_total :
    (P : Machine → Type 0) (again : Machine → Option Report)
    → ((m : Machine) → P m → (report : Report) × (again m ≡ some report))
    → (log : List Event) (passed : Next × List Event) → After P Ends log passed
    → (report : Report) × (proceed again log passed ≡ some report)
unfolding proceed
proceed_total P again keep log (go pending state, events) p = keep _ p
proceed_total P again keep log (stop result, events) p = (_, refl)

module _ (nodes : Nodes) (stop_after : Option NodeName) (resume : Bool) where
  loop_total :
      (fuel : ℕ) (m : Machine)
      → measure m.pending m.state < fuel
      → length m.pending ≤ 11
      → (report : Report) × (loop nodes stop_after resume fuel m ≡ some report)
  unfolding loop
  loop_total zero m h short = absurd (omega arith)
  loop_total (suc fuel) m h short =
      proceed_total (Falls m.pending m.state) (loop nodes stop_after resume fuel)
        (λ m' falls. loop_total fuel m' (omega arith) falls.1) m.log _
        (turn-Falls nodes stop_after resume m.log m.pending m.state short)

  -- Whatever the nodes answer, and however often they raise, a run comes to a stopping point: a
  -- fresh or resumed run of the driver returns a result.
  pub run_graph_total :
      (state : AgentState)
      → (report : Report) × (run_graph nodes stop_after resume state ≡ some report)
  unfolding run_graph enough
  run_graph_total state =
      loop_total (enough order state) (record { pending = order; state = state; log = [] })
        (omega arith) (omega arith)
