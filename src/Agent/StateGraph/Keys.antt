-- ===== src/Agent/StateGraph/Keys.antt =====
-- A key of the state that no node writes, in the compiled graph.
use socio_seo_agent.Prelude.{
  ℕ, ◌≡◌, refl, ap, ◌∙◌, String, Bool, not, Option, none, some, arith, Result-cases, Option-cases,
  inl, inr,
}
use socio_seo_agent.Json.{get, get-merge_absent}
use socio_seo_agent.Agent.State.{
  AgentState, NodeName, opportunity, validate, review, is_visited, record_error,
  enter_validate_loop, step,
}
use socio_seo_agent.Agent.Verdicts.{opportunity_exit, validate_exit, cap_exit, finish}
use socio_seo_agent.Agent.Driver.{
  Nodes, Updates, Reply, raised, returned, Report, GraphResult, absorb, charge_updates,
}
use socio_seo_agent.Agent.Driver.Pass.{step-IsStepped}
use socio_seo_agent.Agent.Driver.Keys.{Leaves, charge_updates-contents}
use socio_seo_agent.Agent.StateGraph.{
  Place, Point, Compiled, Snapshot, Ainvoke, Reaches, start, superstep, node, after_review,
  check_exits, wrap_reply, wrap, run_place, build_state_graph, after_step, wake, read_result,
  run_state_graph,
}

check_exits-contents :
    (name : NodeName) (here : AgentState) → (check_exits name here).contents ≡ here.contents
unfolding check_exits opportunity_exit validate_exit finish enter_validate_loop
check_exits-contents opportunity here = ground arith
check_exits-contents validate here = ground arith
check_exits-contents name here = refl

wake-contents : (resume : Bool) (state : AgentState) → (wake resume state).contents ≡ state.contents
unfolding wake
wake-contents resume state = ground arith

read_result-contents :
    (final : Snapshot) → (read_result none final).state.contents ≡ final.state.contents
unfolding read_result
read_result-contents final = ground arith

-- An invocation returns no snapshot but one of a point that it reaches.
pub record IsFaithful (ainvoke : Ainvoke) : Type 0 where
  pub reached :
      (graph : Compiled) (state : AgentState) (final : Snapshot)
      → ainvoke graph state ≡ some final
      → (k : ℕ) × (point : Point) × Reaches graph state k point × (final.state ≡ point.state)

module _ (nodes : Nodes) (key : String) (keeps : Leaves nodes key) where
  merged_keeps :
      (name : NodeName) (state charged : AgentState) (updates : Updates)
      → nodes name state ≡ returned updates
      → charged.contents ≡ state.contents
      → get key (absorb charged updates).contents ≡ get key state.contents
  unfolding absorb
  merged_keeps name state charged updates e c =
      get-merge_absent key charged.contents updates.entries (keeps.leaves name state updates e)
      ∙ ap (get key) c

  wrap_reply_keeps :
      (name : NodeName) (reply : Reply) (stepped : AgentState)
      → nodes name stepped ≡ reply
      → get key (wrap_reply name reply stepped).0.contents ≡ get key stepped.contents
  unfolding wrap_reply record_error cap_exit finish
  wrap_reply_keeps name (raised message) stepped e =
      ap (get key) (check_exits-contents name (record_error stepped _))
  wrap_reply_keeps name (returned updates) stepped e =
      elim (Result-cases (charge_updates stepped updates.cost)) [
        | inl (charged, c) ↦
            rw (c, wrap_reply)
              (ap (get key) (check_exits-contents name (absorb charged updates))
                ∙ merged_keeps name stepped charged updates e
                    (charge_updates-contents stepped charged updates.cost c))
        | inr (exceeded, c) ↦ rw (c, wrap_reply) (merged_keeps name stepped stepped updates e refl)
      ]

  wrap_keeps :
      (name : NodeName) (state : AgentState)
      → get key (wrap nodes name state).0.contents ≡ get key state.contents
  unfolding wrap cap_exit finish
  wrap_keeps name state = elim (Result-cases (step state name)) [
    | inl (stepped, e) ↦
        rw (e, wrap)
          (wrap_reply_keeps name (nodes name stepped) stepped refl
            ∙ ap (get key) (step-IsStepped state name stepped e).contents)
    | inr (exceeded, e) ↦ rw (e, wrap) refl
  ]

  run_place_keeps :
      (place : Place) (state : AgentState)
      → get key (run_place nodes place state).0.contents ≡ get key state.contents
  unfolding run_place
  run_place_keeps (node name) state = wrap_keeps name state
  run_place_keeps after_review state = refl

  reached_keeps :
      (stop_after : Option NodeName) (resume armed : Bool) (state : AgentState) (k : ℕ)
      (point : Point)
      → Reaches (build_state_graph nodes stop_after resume armed) state k point
      → get key point.state.contents ≡ get key state.contents
  unfolding build_state_graph after_step
  reached_keeps stop_after resume armed state k point start = refl
  reached_keeps stop_after resume armed state k point (superstep k' place before r t i) =
      run_place_keeps place before.state ∙ reached_keeps stop_after resume armed state k' before r

  -- What no node writes is at the end of a run what it was at its start.
  pub run_state_graph_keeps :
      (ainvoke : Ainvoke) (resume : Bool) (state : AgentState) (report : Report)
      → IsFaithful ainvoke
      → run_state_graph ainvoke nodes none resume state ≡ some report
      → get key report.result.state.contents ≡ get key state.contents
  unfolding run_state_graph
  run_state_graph_keeps ainvoke resume state report faithful h =
      let graph =
        build_state_graph nodes none resume (not (is_visited review (wake resume state).visited)) in
      elim (Option-cases (ainvoke graph (wake resume state))) [
        | inl e ↦ absurd (ground arith)
        | inr (final, e) ↦
            let (k, point, reached, same) = faithful.reached graph (wake resume state) final e in
            let r : report.result ≡ read_result none final = ground arith in
            ap (λ (r : GraphResult). get key r.state.contents) r
            ∙ ap (get key) (read_result-contents final)
            ∙ ap (λ (s : AgentState). get key s.contents) same
            ∙ reached_keeps none resume _ (wake resume state) k point reached
            ∙ ap (get key) (wake-contents resume state)
      ]
