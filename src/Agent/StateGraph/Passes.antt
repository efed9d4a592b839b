-- ===== src/Agent/StateGraph/Passes.antt =====
-- What a pass of the builtin loop that goes on makes of the control fields.
use socio_seo_agent.Prelude.{◌+◌, ◌≤◌, ◌≡◌, refl, ap, ◌∙◌, none, List, [], ◌∷◌, ◌++◌, arith}
use socio_seo_agent.Agent.State.{
  AgentState, NodeName, intake, opportunity, validate, review, enter_validate_loop,
}
use socio_seo_agent.Agent.Driver.{
  Nodes, Machine, Report, Event, Next, go, stop, order, advance, retry, branch, visit,
}
use socio_seo_agent.Agent.Driver.Pass.{After, settle_node-IsSettled, visit_rule}
use socio_seo_agent.Agent.StateGraph.{order_after}

abbrev pub IsOrdered : List NodeName → Type 0
IsOrdered [] = Unit
IsOrdered (name ∷ rest) = rest ≡ order_after name

pub order_after-IsOrdered : (name : NodeName) → IsOrdered (order_after name)
unfolding order_after
order_after-IsOrdered intake = refl
order_after-IsOrdered NodeName.measure = tt
order_after-IsOrdered _ = refl

pub order-IsOrdered : IsOrdered order
unfolding order_after
order-IsOrdered = refl

-- What a pass that goes on makes of the control fields.
record IsMoved (name : NodeName) (before : AgentState) (pending : List NodeName)
    (after : AgentState) : Type 0 where
  ordered : IsOrdered pending
  caps : after.caps ≡ before.caps
  steps : after.step_count ≡ before.step_count
  visited : after.visited ≡ before.visited

abbrev OnGo : (List NodeName → AgentState → Type 0) → Next → Type 0
OnGo P (go pending state) = P pending state
OnGo P (stop result) = Unit

module _ (state : AgentState) where
  retry-IsMoved : OnGo (IsMoved validate state) (retry none state)
  unfolding retry enter_validate_loop order_after
  retry-IsMoved = ground arith

  branch-IsMoved :
      (name : NodeName) → OnGo (IsMoved name state) (branch none name (order_after name) state)
  unfolding branch advance
  branch-IsMoved opportunity = ground (arith, order_after-IsOrdered opportunity)
  branch-IsMoved validate = ground (arith, order_after-IsOrdered validate, retry-IsMoved)
  branch-IsMoved review = tt
  branch-IsMoved name = record {
    ordered = order_after-IsOrdered name;
    caps = refl;
    steps = refl;
    visited = refl;
  }

-- What a visit that goes on makes of them.
pub record IsAfter (name : NodeName) (before : AgentState) (m : Machine) : Type 0 where
  pub ordered : IsOrdered m.pending
  pub caps : m.state.caps ≡ before.caps
  pub steps : m.state.step_count ≡ before.step_count + 1
  pub within : before.step_count + 1 ≤ before.caps.max_steps
  pub visited : m.state.visited ≡ before.visited ++ name ∷ []

abbrev pub Ends : Report → Type 0
Ends report = Unit

OnGo→After :
    (P : List NodeName → AgentState → Type 0) (R : Machine → Type 0) (log : List Event)
    (next : Next) (events : List Event)
    → OnGo P next
    → ((pending : List NodeName) (state : AgentState)
        → P pending state
        → R (record { pending = pending; state = state; log = log ++ events }))
    → After R Ends log (next, events)
OnGo→After P R log (go pending state) events h f = f pending state h
OnGo→After P R log (stop result) events h f = tt

pub visit-IsAfter :
    (nodes : Nodes) (name : NodeName) (state : AgentState) (log : List Event)
    → After (IsAfter name state) Ends log (visit nodes none name (order_after name) state)
visit-IsAfter nodes name state log =
    visit_rule nodes none (IsAfter name state) Ends name (order_after name) log state
      (λ stepped settled events s e.
        let settles = settle_node-IsSettled name _ stepped settled (ap (λ p. p.0) e) in
        OnGo→After (IsMoved name settled) (IsAfter name state) log _ events
          (branch-IsMoved settled name)
          (λ pending after moved. record {
            ordered = moved.ordered;
            caps = moved.caps ∙ settles.caps ∙ s.caps;
            steps = moved.steps ∙ settles.steps ∙ s.steps;
            within = s.within;
            visited = moved.visited ∙ settles.visited ∙ s.visited;
          }))
      (λ _ _ _ _ _. tt) (λ _ _. tt)
