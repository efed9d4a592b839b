-- ===== src/Agent/StateGraph/Wrap.antt =====
-- One super-step beside one pass of the builtin loop: `_wrap` and `_router` against `_run_node` and
-- the loop's body.
use socio_seo_agent.Prelude.{
  ℕ, ◌++◌, ◌∙◌, ◌≡◌, ◌⊎◌, inl, inr, refl, ap, Bool, true, false, not, ◌&&◌, ◌||◌, Option, none,
  some, List, [], ◌∷◌, arith, ok, err, Result-cases, Bool-cases, Option-cases,
}
use socio_seo_agent.Json.{end}
use socio_seo_agent.Agent.State.{
  AgentState, NodeName, Outcome, Reason, CapExceeded, Cap, opportunity, validate, review, same,
  cap_reached, is_visited, step, charge, enter_validate_loop, record_error,
}
use socio_seo_agent.Agent.Verdicts.{
  resumable_skip, verdicts, opportunity_exit, validate_exit, cap_exit, finish,
}
use socio_seo_agent.Agent.Driver.{
  Nodes, Updates, Reply, raised, returned, Event, Next, go, stop, settle_node, branch, execute,
  visit, advance, retry, conclude, charge_updates, absorb, from_generate,
}
use socio_seo_agent.Agent.Driver.Pass.{step-IsStepped}
use socio_seo_agent.Agent.Driver.Resume.{is_visited-snoc}
use socio_seo_agent.Agent.StateGraph.{
  check_exits, wrap_reply, wrap, router, stops_at, is_running, order_after, next_unvisited,
}

-- Is it the reason of a run that a refused charge ended?
unfoldable pub over_budget : Option Reason → Bool
over_budget (some (cap_reached Cap.max_usd limit)) = true
over_budget _ = false

-- The drivers end in the same state, but for what a node returned beside a refused charge: the
-- builtin driver drops it, and LangGraph's keeps it.
pub record AgreesWith (builtin compiled : AgentState) : Type 0 where
  pub exact : over_budget builtin.finished_reason ≡ false → compiled ≡ builtin
  pub upto :
      record compiled { contents = end; errors = [] }
      ≡ record builtin { contents = end; errors = [] }

-- A run that has seen REVIEW is a resumed one, and its draft was validated.
unfoldable pub is_consistent : Bool → AgentState → Bool
unfolding is_visited
is_consistent resume state =
    not (is_visited review state.visited) || (resume && is_visited validate state.visited)

pub AgreesWith-refl : (state : AgentState) → AgreesWith state state
AgreesWith-refl state = record { exact = λ _. refl; upto = refl }

-- What the exit checks and the router make of a node's state, beside the loop's branch.
abbrev pub Matches : Bool → NodeName → AgentState → Next → Type 0
Matches resume name compiled (go pending state) =
    (compiled ≡ state)
    × (is_running state.outcome ≡ true)
    × (same review name ≡ false)
    × (router none resume name state ≡ next_unvisited resume state pending)
Matches resume name compiled (stop result) =
    (result.interrupted ≡ false)
      × (is_running compiled.outcome ≡ false)
      × AgreesWith result.state compiled
    ⊎ (result.interrupted ≡ true)
      × (same review name ≡ true)
      × (is_running compiled.outcome ≡ true)
      × (result.state ≡ record compiled { outcome = Outcome.awaiting_approval })

opportunity_exit_over :
    (state final : AgentState)
    → opportunity_exit state ≡ some final
    → is_running final.outcome ≡ false
unfolding opportunity_exit finish is_running
opportunity_exit_over state final h = ground arith

validate_exit_over :
    (state : AgentState) (blocked : Bool) → is_running (validate_exit state blocked).outcome ≡ false
unfolding validate_exit finish is_running
validate_exit_over state blocked = ground arith

cap_exit_over :
    (state : AgentState) (exceeded : CapExceeded)
    → is_running (cap_exit state exceeded).outcome ≡ false
unfolding cap_exit finish is_running
cap_exit_over state exceeded = refl

charge_updates_keeps :
    (state charged : AgentState) (cost : Option ℕ)
    → charge_updates state cost ≡ ok charged
    → (charged.outcome ≡ state.outcome) × (charged.visited ≡ state.visited)
unfolding charge_updates charge
charge_updates_keeps state charged none h = ground arith
charge_updates_keeps state charged (some cost) h = ground arith

over_budget_cap :
    (cap : Cap) (limit : ℕ) → cap ≡ Cap.max_usd → over_budget (some (cap_reached cap limit)) ≡ true
unfolding over_budget
over_budget_cap cap limit e = rw e refl

refused_cap :
    (state : AgentState) (cost : Option ℕ) (exceeded : CapExceeded)
    → charge_updates state cost ≡ err exceeded
    → exceeded.cap ≡ Cap.max_usd
unfolding charge_updates charge
refused_cap state none exceeded h = ground arith
refused_cap state (some cost) exceeded h = ground arith

cap_exit-AgreesWith :
    (state : AgentState) (updates : Updates) (exceeded : CapExceeded)
    → charge_updates state updates.cost ≡ err exceeded
    → AgreesWith (cap_exit state exceeded) (cap_exit (absorb state updates) exceeded)
unfolding absorb cap_exit finish over_budget
cap_exit-AgreesWith state updates exceeded h = record {
  exact = λ under.
      let over = over_budget_cap exceeded.cap exceeded.limit (refused_cap state _ exceeded h) in
      absurd cc;
  upto = refl;
}

module _ (resume : Bool) where
  router_on :
      (name : NodeName) (state : AgentState)
      → is_running state.outcome ≡ true
      → (same name validate && (verdicts state).weak_draft) ≡ false
      → same name review ≡ false
      → router none resume name state ≡ next_unvisited resume state (order_after name)
  unfolding router stops_at
  router_on name state h weak r = rw (h, weak, r) refl

  router_loop :
      (state looped : AgentState)
      → is_running state.outcome ≡ true
      → (verdicts state).weak_draft ≡ true
      → is_visited review state.visited ≡ false
      → enter_validate_loop state ≡ ok looped
      → (is_running looped.outcome ≡ true)
        × (router none resume validate looped ≡ next_unvisited resume looped from_generate)
  unfolding router stops_at enter_validate_loop next_unvisited resumable_skip verdicts same
  router_loop state looped h weak r e = ground arith

  retry-Matches :
      (state : AgentState)
      → is_running state.outcome ≡ true
      → (verdicts state).weak_draft ≡ true
      → is_visited review state.visited ≡ false
      → Matches resume validate
          (check_exits validate state)
          (branch none validate (order_after validate) state)
  unfolding check_exits branch retry same
  retry-Matches state h weak r = elim (Result-cases (enter_validate_loop state)) [
    | inl (looped, e) ↦
        let (running, routed) = router_loop state looped h weak r e in
        rw (weak, e, check_exits, branch, retry) (refl, running, refl, routed)
    | inr (exceeded, e) ↦
        rw (weak, e, check_exits, branch, retry)
          (inl (refl, validate_exit_over state _, AgreesWith-refl _))
  ]

  check_exits-Matches :
      (name : NodeName) (state : AgentState)
      → is_running state.outcome ≡ true
      → (same validate name ≡ true → is_visited review state.visited ≡ false)
      → Matches resume name (check_exits name state) (branch none name (order_after name) state)
  unfolding check_exits branch advance retry same
  check_exits-Matches opportunity state h v = elim (Option-cases (opportunity_exit state)) [
    | inl e ↦ rw (e, check_exits, branch) (refl, h, refl, router_on opportunity state h refl refl)
    | inr (final, e) ↦
        rw (e, check_exits, branch)
          (inl (refl, opportunity_exit_over state final e, AgreesWith-refl final))
  ]
  check_exits-Matches validate state h v = elim (Bool-cases (verdicts state).weak_draft) [
    | inl e ↦ (retry-Matches state h e (v refl))
    | inr e ↦ rw (e, check_exits, branch) (refl, h, refl, router_on validate state h e refl)
  ]
  check_exits-Matches review state h v = inr (refl, refl, h, refl)
  check_exits-Matches name state h v = (refl, h, refl, router_on name state h refl refl)

  -- A super-step beside a pass: the same events, and what `Matches` says.
  abbrev pub StepMatches : NodeName → AgentState × List Event → Next × List Event → Type 0
  StepMatches name compiled passed =
      (compiled.1 ≡ passed.1) × Matches resume name compiled.0 passed.0

  module _ (name : NodeName) (stepped : AgentState) (running : is_running stepped.outcome ≡ true)
      (unseen : same validate name ≡ true → is_visited review stepped.visited ≡ false) where
    settled-Matches :
        (settled : AgentState)
        → settled.outcome ≡ stepped.outcome
        → settled.visited ≡ stepped.visited
        → Matches resume name
            (check_exits name settled)
            (branch none name (order_after name) settled)
    settled-Matches settled o v =
        check_exits-Matches name settled (ap is_running o ∙ running)
          (λ h. ap (is_visited review) v ∙ unseen h)

    wrap_reply-StepMatches :
        (reply : Reply)
        → StepMatches name
            (wrap_reply name reply stepped)
            (conclude none name (order_after name) stepped (settle_node name reply stepped))
    unfolding wrap_reply settle_node conclude record_error absorb
    wrap_reply-StepMatches (raised message) =
        (refl, settled-Matches (record_error stepped _) refl refl)
    wrap_reply-StepMatches (returned updates) =
        elim (Result-cases (charge_updates stepped updates.cost)) [
          | inl (charged, e) ↦
              let (o, v) = charge_updates_keeps stepped charged updates.cost e in
              rw (e, wrap_reply, settle_node) (refl, settled-Matches (absorb charged updates) o v)
          | inr (exceeded, e) ↦
              rw (e, wrap_reply, settle_node)
                (
                  refl,
                  inl (
                    refl,
                    cap_exit_over _ exceeded,
                    cap_exit-AgreesWith stepped updates exceeded e,
                  ),
                )
        ]

  unseen_before :
      (name : NodeName) (state stepped : AgentState)
      → is_consistent resume state ≡ true
      → (resume && resumable_skip state name) ≡ false
      → stepped.visited ≡ state.visited ++ name ∷ []
      → same validate name ≡ true
      → is_visited review stepped.visited ≡ false
  unfolding is_consistent resumable_skip same
  unseen_before validate state stepped consistent skips v h =
      ground (arith, is_visited-snoc review validate state.visited)
  unseen_before name state stepped consistent skips v h = absurd (ground arith)

  pub wrap-StepMatches :
      (nodes : Nodes) (name : NodeName) (state : AgentState)
      → is_running state.outcome ≡ true
      → is_consistent resume state ≡ true
      → (resume && resumable_skip state name) ≡ false
      → StepMatches name (wrap nodes name state) (visit nodes none name (order_after name) state)
  unfolding wrap visit execute
  wrap-StepMatches nodes name state running consistent skips =
      elim (Result-cases (step state name)) [
        | inl (stepped, e) ↦
            let s = step-IsStepped state name stepped e in
            rw (e, wrap, visit)
              (wrap_reply-StepMatches name stepped (ap is_running s.outcome ∙ running)
                (unseen_before name state stepped consistent skips s.visited) (nodes name stepped))
        | inr (exceeded, e) ↦
            rw (e, wrap, visit) (refl, inl (refl, cap_exit_over state exceeded, AgreesWith-refl _))
      ]
