-- ===== src/Agent/Driver/Pass.antt =====
-- One pass of the loop, split into the facts that its parts leave, and the rule for the whole loop.
use socio_seo_agent.Prelude.{
  ℕ, zero, suc, ◌+◌, ◌≤◌, ◌≡◌, refl, Bool, true, false, ◌&&◌, Option, some, List, [], ◌∷◌, ◌++◌,
  append-nil, arith, Result, ok, err, Result-cases, Bool-cases, inl, inr, ◌⊎◌,
}
use mathlib.Core.Path.{subst}
use mathlib.Core.Option.{some-injective}
use socio_seo_agent.Agent.State.{
  AgentState, NodeName, Outcome, CapExceeded, opportunity, validate, review, step,
  enter_validate_loop, charge,
}
use socio_seo_agent.Agent.Verdicts.{resumable_skip, opportunity_exit, validate_exit, cap_exit}
use socio_seo_agent.Agent.Driver.{
  Nodes, Reply, raised, returned, Machine, Report, Event, Next, go, stop, settle_node, branch, halt,
  execute, visit, advance, retry, conclude, proceed, turn, loop, run_graph, enough, order,
}

-- The next node starts: its place is counted and recorded, and the ceiling holds.
pub record IsStepped (name : NodeName) (before after : AgentState) : Type 0 where
  pub within : before.step_count + 1 ≤ before.caps.max_steps
  pub steps : after.step_count ≡ before.step_count + 1
  pub visited : after.visited ≡ before.visited ++ name ∷ []
  pub contents : after.contents ≡ before.contents
  pub caps : after.caps ≡ before.caps
  pub cost : after.cost_usd ≡ before.cost_usd
  pub loops : after.validate_loops ≡ before.validate_loops
  pub errors : after.errors ≡ before.errors
  pub outcome : after.outcome ≡ before.outcome
  pub blocked : after.publication_blocked ≡ before.publication_blocked

pub step-IsStepped :
    (state : AgentState) (name : NodeName) (after : AgentState)
    → step state name ≡ ok after
    → IsStepped name state after
unfolding step
step-IsStepped state name after h = ground arith

-- What a node changes of the control fields: the errors, and the cost within the budget.
pub record IsSettled (before after : AgentState) : Type 0 where
  pub caps : after.caps ≡ before.caps
  pub steps : after.step_count ≡ before.step_count
  pub visited : after.visited ≡ before.visited
  pub loops : after.validate_loops ≡ before.validate_loops
  pub outcome : after.outcome ≡ before.outcome
  pub blocked : after.publication_blocked ≡ before.publication_blocked
  pub paid : (after.cost_usd ≤ before.caps.max_usd) ⊎ (after.cost_usd ≡ before.cost_usd)

pub settle_node-IsSettled :
    (name : NodeName) (reply : Reply) (state after : AgentState)
    → (settle_node name reply state).0 ≡ ok after
    → IsSettled state after
unfolding settle_node charge
settle_node-IsSettled name (raised message) state after h = ground arith
settle_node-IsSettled name (returned updates) state after h = ground arith

-- What the branch behind a node changes of the control fields.
pub record IsBranched (before after : AgentState) : Type 0 where
  pub caps : after.caps ≡ before.caps
  pub steps : after.step_count ≡ before.step_count
  pub visited : after.visited ≡ before.visited
  pub cost : after.cost_usd ≡ before.cost_usd
  pub contents : after.contents ≡ before.contents
  pub loops :
      (after.validate_loops ≤ before.caps.max_validate_loops)
      ⊎ (after.validate_loops ≡ before.validate_loops)

abbrev pub OnState : (AgentState → Type 0) → Next → Type 0
OnState P (go pending state) = P state
OnState P (stop result) = P result.state

module _ (stop_after : Option NodeName) (rest : List NodeName) (state : AgentState) where
  advance-IsBranched :
      (name : NodeName) → OnState (IsBranched state) (advance stop_after name rest state)
  unfolding advance
  advance-IsBranched name = ground arith

  retry-IsBranched : OnState (IsBranched state) (retry stop_after state)
  unfolding retry enter_validate_loop validate_exit
  retry-IsBranched = ground arith

  pub branch-IsBranched :
      (name : NodeName) → OnState (IsBranched state) (branch stop_after name rest state)
  unfolding branch opportunity_exit
  branch-IsBranched opportunity = ground (arith, advance-IsBranched opportunity)
  branch-IsBranched validate = ground (arith, advance-IsBranched validate, retry-IsBranched)
  branch-IsBranched review = ground arith
  branch-IsBranched name = advance-IsBranched name

-- What holds of the machine that a pass leaves, or of the report that it ends with.
abbrev pub After {κ} :
    (Machine → Type κ) → (Report → Type κ) → List Event → Next × List Event → Type κ
After P Q log (go pending state, events) =
    P (record { pending = pending; state = state; log = log ++ events })
After P Q log (stop result, events) = Q (record { result = result; log = log ++ events })

module _ {κ} (nodes : Nodes) (stop_after : Option NodeName) (P : Machine → Type κ)
    (Q : Report → Type κ) (name : NodeName) (rest : List NodeName) (log : List Event) where
  conclude_rule :
      (stepped : AgentState) (settled : Result CapExceeded AgentState × List Event)
      → ((state : AgentState) (events : List Event)
          → settled ≡ (ok state, events)
          → After P Q log (branch stop_after name rest state, events))
      → ((exceeded : CapExceeded) (events : List Event)
          → settled ≡ (err exceeded, events)
          → After P Q log (halt (cap_exit stepped exceeded), events))
      → After P Q log (conclude stop_after name rest stepped settled)
  unfolding conclude
  conclude_rule stepped (ok state, events) ran broke = ran state events refl
  conclude_rule stepped (err exceeded, events) ran broke = broke exceeded events refl

  -- The pass of a node: its cases are the branch behind the node, and the two caps.
  pub visit_rule :
      (state : AgentState)
      → ((stepped settled : AgentState) (events : List Event)
          → IsStepped name state stepped
          → settle_node name (nodes name stepped) stepped ≡ (ok settled, events)
          → After P Q log (branch stop_after name rest settled, events))
      → ((stepped : AgentState) (exceeded : CapExceeded) (events : List Event)
          → IsStepped name state stepped
          → settle_node name (nodes name stepped) stepped ≡ (err exceeded, events)
          → After P Q log (halt (cap_exit stepped exceeded), events))
      → ((exceeded : CapExceeded)
          → step state name ≡ err exceeded
          → After P Q log (halt (cap_exit state exceeded), []))
      → After P Q log (visit nodes stop_after name rest state)
  unfolding visit execute
  visit_rule state ran broke refused = elim (Result-cases (step state name)) [
    | inl (stepped, e) ↦
        let s = step-IsStepped state name stepped e in
        rw (e, visit)
          (conclude_rule stepped (settle_node name (nodes name stepped) stepped)
            (λ settled events. ran stepped settled events s)
            (λ exceeded events. broke stepped exceeded events s))
    | inr (exceeded, e) ↦ rw (e, visit) (refused exceeded e)
  ]

-- A property of what the loop goes on with, or of its report.
proceed_rule {κ} :
    (P : Machine → Type κ) (Q : Report → Type κ) (again : Machine → Option Report)
    → ((m : Machine) (report : Report) → P m → again m ≡ some report → Q report)
    → (log : List Event) (passed : Next × List Event) (report : Report) → After P Q log passed
    → proceed again log passed ≡ some report
    → Q report
unfolding proceed
proceed_rule P Q again keep log (go pending state, events) report p h = keep _ report p h
proceed_rule P Q again keep log (stop result, events) report p h = subst Q (some-injective _ _ h) p

-- The rule for a run: `ended`, `skipped` and `visits` are what to show of a pass.
module _ {κ} (nodes : Nodes) (stop_after : Option NodeName) (resume : Bool) (P : Machine → Type κ)
    (Q : Report → Type κ)
    (ended : (state : AgentState) (log : List Event)
      → P (record { pending = []; state = state; log = log })
      → Q (record {
        result = record { state = record state { outcome = Outcome.done }; interrupted = false };
        log = log;
      }))
    (skipped : (name : NodeName) (rest : List NodeName) (state : AgentState) (log : List Event)
      → (resume && resumable_skip state name) ≡ true
      → P (record { pending = name ∷ rest; state = state; log = log })
      → P (record { pending = rest; state = state; log = log }))
    (visits : (name : NodeName) (rest : List NodeName) (state : AgentState) (log : List Event)
      → (resume && resumable_skip state name) ≡ false
      → P (record { pending = name ∷ rest; state = state; log = log })
      → After P Q log (visit nodes stop_after name rest state)) where
  turn_rule :
      (pending : List NodeName) (state : AgentState) (log : List Event)
      → P (record { pending = pending; state = state; log = log })
      → After P Q log (turn nodes stop_after resume pending state)
  unfolding turn
  turn_rule [] state log p = rw append-nil (ended state log p)
  turn_rule (name ∷ rest) state log p = elim (Bool-cases (resume && resumable_skip state name)) [
    | inl e ↦ rw (e, turn) (rw append-nil (skipped name rest state log e p))
    | inr e ↦ rw (e, turn) (visits name rest state log e p)
  ]

  loop_rule :
      (fuel : ℕ) (m : Machine) (report : Report)
      → P m
      → loop nodes stop_after resume fuel m ≡ some report
      → Q report
  unfolding loop
  loop_rule zero m report p h = cc
  loop_rule (suc fuel) m report p h =
      proceed_rule P Q (loop nodes stop_after resume fuel) (loop_rule fuel) m.log _ report
        (turn_rule m.pending m.state m.log p) h

  pub run_rule :
      (state : AgentState) (report : Report)
      → P (record { pending = order; state = state; log = [] })
      → run_graph nodes stop_after resume state ≡ some report
      → Q report
  unfolding run_graph
  run_rule state report =
      loop_rule (enough order state) (record { pending = order; state = state; log = [] }) report
