-- ===== src/Agent/Driver/Unchecked/Midway.antt =====
-- A state between VALIDATE and REVIEW of backend/app/agents/graph.py.
use socio_seo_agent.Prelude.{
  ℕ, ◌+◌, ◌≤◌, ◌≡◌, refl, ap, true, false, none, List, [], ◌∷◌, err, ◌++◌, arith,
}
use socio_seo_agent.Agent.State.{
  AgentState, CapExceeded, NodeName, intake, harvest, opportunity, plan, convert, validate, repack,
  review, export, measure, same, is_visited, step,
}
use socio_seo_agent.Agent.Verdicts.{resumable_skip}
use socio_seo_agent.Agent.Driver.{Nodes, Reply, raised, returned, Updates, Event, settle_node}
use socio_seo_agent.Agent.Driver.Resume.{skip_mono, is_visited-snoc}

-- VALIDATE has run and REVIEW has not.
pub record IsMidway (state : AgentState) : Type 0 where
  pub intake : resumable_skip state intake ≡ true
  pub harvest : resumable_skip state harvest ≡ true
  pub opportunity : resumable_skip state opportunity ≡ true
  pub plan : resumable_skip state plan ≡ true
  pub convert : resumable_skip state convert ≡ true
  pub validate : resumable_skip state validate ≡ true
  pub unseen : is_visited review state.visited ≡ false

-- No node reports a cost.
abbrev pub IsFree : Nodes → Type 0
IsFree nodes =
    (name : NodeName) (state : AgentState) (updates : Updates)
    → nodes name state ≡ returned updates
    → updates.cost ≡ none

-- The steps from a position to the gate, where a midway run takes them.
abbrev pub to_gate : NodeName → ℕ
to_gate convert = 2
to_gate validate = 2
to_gate repack = 2
to_gate review = 1
to_gate name = 3

abbrev pub IsBefore : NodeName → Type 0
IsBefore export = ⊥
IsBefore measure = ⊥
IsBefore name = Unit

pub not_skipped : (state : AgentState) → IsMidway state → resumable_skip state review ≡ true → ⊥
unfolding resumable_skip
not_skipped state m h = ground (arith, m.unseen)

pub still_midway :
    (name : NodeName) (before after : AgentState)
    → after.visited ≡ before.visited ++ name ∷ []
    → same review name ≡ false
    → IsMidway before
    → IsMidway after
still_midway name before after e other m = record {
  intake = skip_mono _ before after name e m.intake;
  harvest = skip_mono _ before after name e m.harvest;
  opportunity = skip_mono _ before after name e m.opportunity;
  plan = skip_mono _ before after name e m.plan;
  convert = skip_mono _ before after name e m.convert;
  validate = skip_mono _ before after name e m.validate;
  unseen = rw e (rw is_visited-snoc (ground (arith, m.unseen)));
}

-- A node without a cost meets no cap, and a counted step that fits meets none either.
pub never_broke :
    (name : NodeName) (reply : Reply) (state : AgentState) (exceeded : CapExceeded)
    (events : List Event)
    → ((updates : Updates) → reply ≡ returned updates → updates.cost ≡ none)
    → settle_node name reply state ≡ (err exceeded, events)
    → ⊥
unfolding settle_node
never_broke name (raised message) state exceeded events f e = let h = ap (λ p. p.0) e in cc
never_broke name (returned updates) state exceeded events f e =
    let h = ap (λ p. p.0) e in let c = f updates refl in ground arith

pub never_refused :
    (state : AgentState) (name : NodeName) (exceeded : CapExceeded)
    → state.step_count + 1 ≤ state.caps.max_steps
    → step state name ≡ err exceeded
    → ⊥
unfolding step
never_refused state name exceeded h e = ground arith
