-- ===== src/Agent/Driver/Keys.antt =====
-- A key of the state that no node writes.
use socio_seo_agent.Prelude.{
  ℕ, Bool, ◌≡◌, refl, ap, ◌∙◌, String, Option, none, some, List, arith, ok, Result-cases, inl, inr,
}
use socio_seo_agent.Json.{Json, get, merge, get-merge_absent}
use socio_seo_agent.Agent.State.{AgentState, NodeName, charge}
use socio_seo_agent.Agent.Verdicts.{cap_exit, finish}
use socio_seo_agent.Agent.Driver.{
  Nodes, Updates, Reply, raised, returned, Machine, Report, Event, Next, go, stop, absorb,
  charge_updates, settle_node, visit, run_graph,
}
use socio_seo_agent.Agent.Driver.Pass.{
  After, OnState, IsBranched, branch-IsBranched, visit_rule, run_rule,
}

-- No reply of a node has the key.
pub record Leaves (nodes : Nodes) (key : String) : Type 0 where
  pub leaves :
      (name : NodeName) (state : AgentState) (updates : Updates)
      → nodes name state ≡ returned updates
      → get key updates.entries ≡ none

pub charge_updates-contents :
    (state charged : AgentState) (cost : Option ℕ)
    → charge_updates state cost ≡ ok charged
    → charged.contents ≡ state.contents
unfolding charge_updates charge
charge_updates-contents state charged none h = ground arith
charge_updates-contents state charged (some cost) h = ground arith

module _ (nodes : Nodes) (key : String) (keeps : Leaves nodes key) where
  settle_keeps :
      (name : NodeName) (reply : Reply) (stepped settled : AgentState) (events : List Event)
      → nodes name stepped ≡ reply
      → settle_node name reply stepped ≡ (ok settled, events)
      → get key settled.contents ≡ get key stepped.contents
  unfolding settle_node absorb
  settle_keeps name (raised message) stepped settled events e h = ground arith
  settle_keeps name (returned updates) stepped settled events e h =
      elim (Result-cases (charge_updates stepped updates.cost)) [
        | inl (charged, c) ↦
            let merged : settled.contents ≡ merge charged.contents updates.entries = ground arith in
            ap (get key) merged
            ∙ get-merge_absent key charged.contents updates.entries
                (keeps.leaves name stepped updates e)
            ∙ ap (get key) (charge_updates-contents stepped charged updates.cost c)
        | inr (exceeded, c) ↦ absurd (ground arith)
      ]

  abbrev Kept : Option Json → Machine → Type 0
  Kept v m = get key m.state.contents ≡ v

  abbrev KeptAtEnd : Option Json → Report → Type 0
  KeptAtEnd v report = get key report.result.state.contents ≡ v

  branched :
      (v : Option Json) (log events : List Event) (state : AgentState) (next : Next)
      → get key state.contents ≡ v
      → OnState (IsBranched state) next
      → After (Kept v) (KeptAtEnd v) log (next, events)
  branched v log events state (go pending after) h b = ap (get key) b.contents ∙ h
  branched v log events state (stop result) h b = ap (get key) b.contents ∙ h

  visit_keeps :
      (stop_after : Option NodeName) (v : Option Json) (name : NodeName) (rest : List NodeName)
      (state : AgentState) (log : List Event)
      → get key state.contents ≡ v
      → After (Kept v) (KeptAtEnd v) log (visit nodes stop_after name rest state)
  unfolding cap_exit finish
  visit_keeps stop_after v name rest state log h =
      visit_rule nodes stop_after (Kept v) (KeptAtEnd v) name rest log state
        (λ stepped settled events s e.
          branched v log events settled _
            (settle_keeps name (nodes name stepped) stepped settled events refl e
              ∙ ap (get key) s.contents
              ∙ h)
            (branch-IsBranched stop_after rest settled name))
        (λ stepped exceeded events s e. ap (get key) s.contents ∙ h) (λ exceeded e. h)

  -- What no node writes is at the end of a run what it was at its start.
  pub run_graph_keeps :
      (stop_after : Option NodeName) (resume : Bool) (state : AgentState) (report : Report)
      → run_graph nodes stop_after resume state ≡ some report
      → get key report.result.state.contents ≡ get key state.contents
  run_graph_keeps stop_after resume state report h =
      run_rule nodes stop_after resume (Kept (get key state.contents))
        (KeptAtEnd (get key state.contents)) (λ _ _ p. p) (λ _ _ _ _ _ p. p)
        (λ name rest before log _ p.
          visit_keeps stop_after (get key state.contents) name rest before log p)
        state report refl h
