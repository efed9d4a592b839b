-- ===== src/Agent/Driver/Timeline.antt =====
-- The event stream of a run against the `visited` and `step_count` of its state.
use socio_seo_agent.Prelude.{
  ◌+◌, ◌≡◌, refl, ap, sym, ◌∙◌, Bool, Option, some, List, [], ◌∷◌, ◌++◌, arith, length,
  length-append, append_assoc, append-nil, Result,
}
use socio_seo_agent.Agent.State.{AgentState, CapExceeded, NodeName}
use socio_seo_agent.Agent.Verdicts.{cap_exit}
use socio_seo_agent.Agent.Driver.{
  Nodes, Reply, raised, returned, Machine, Report, Event, Next, go, stop, settle_node, visit,
  run_graph, started, failed, done,
}
use socio_seo_agent.Agent.Driver.Pass.{
  After, OnState, settle_node-IsSettled, IsBranched, branch-IsBranched, visit_rule, run_rule,
}

-- The nodes that a stream says started, in order.
unfoldable pub started_nodes : List Event → List NodeName
started_nodes [] = []
started_nodes (started name ∷ log) = name ∷ started_nodes log
started_nodes (failed _ _ ∷ log) = started_nodes log
started_nodes (done _ _ ∷ log) = started_nodes log

pub started_nodes-append :
    (xs ys : List Event) → started_nodes (xs ++ ys) ≡ started_nodes xs ++ started_nodes ys
unfolding started_nodes
started_nodes-append [] ys = refl
started_nodes-append (started name ∷ xs) ys = ap (λ l. name ∷ l) (started_nodes-append xs ys)
started_nodes-append (failed _ _ ∷ xs) ys = started_nodes-append xs ys
started_nodes-append (done _ _ ∷ xs) ys = started_nodes-append xs ys

pub settle_node-started :
    (name : NodeName) (reply : Reply) (state : AgentState)
    → started_nodes (settle_node name reply state).1 ≡ name ∷ []
unfolding started_nodes settle_node
settle_node-started name (raised message) state = refl
settle_node-started name (returned updates) state = ground arith

-- A node that settled, with its cap or without, started once.
pub started_by :
    (name : NodeName) (reply : Reply) (state : AgentState) (log : List Event)
    {result : Result CapExceeded AgentState} (events : List Event)
    → settle_node name reply state ≡ (result, events)
    → started_nodes (log ++ events) ≡ started_nodes log ++ name ∷ []
started_by name reply state log events e =
    started_nodes-append log events
    ∙ ap (λ l. started_nodes log ++ l)
        (ap started_nodes (sym (ap (λ p. p.1) e)) ∙ settle_node-started name reply state)

module _ (start : AgentState) where
  -- What ran since `start` is what the stream says started.
  pub record IsRecorded (state : AgentState) (log : List Event) : Type 0 where
    pub visited : state.visited ≡ start.visited ++ started_nodes log
    pub steps : state.step_count ≡ start.step_count + length (started_nodes log)

  module _ (nodes : Nodes) (stop_after : Option NodeName) (resume : Bool) where
    abbrev P : Machine → Type 0
    P m = IsRecorded m.state m.log

    abbrev Q : Report → Type 0
    Q r = IsRecorded r.result.state r.log

    stepped-IsRecorded :
        (name : NodeName) (before after : AgentState) (log log' : List Event)
        → IsRecorded before log
        → after.visited ≡ before.visited ++ name ∷ []
        → after.step_count ≡ before.step_count + 1
        → started_nodes log' ≡ started_nodes log ++ name ∷ []
        → IsRecorded after log'
    stepped-IsRecorded name before after log log' h v s e = record {
      visited =
          v
          ∙ ap (λ l. l ++ name ∷ []) h.visited
          ∙ append_assoc start.visited (started_nodes log) (name ∷ [])
          ∙ ap (λ l. start.visited ++ l) (sym e);
      steps = omega (
        arith,
        h.steps,
        ap (λ (l : List NodeName). length l) e,
        length-append (started_nodes log) (name ∷ []),
      );
    }

    OnState→After :
        (before : AgentState) (log : List Event) (next : Next) (events : List Event)
        → OnState (IsBranched before) next
        → IsRecorded before (log ++ events)
        → After P Q log (next, events)
    OnState→After before log (go pending state) events b h = record {
      visited = b.visited ∙ h.visited;
      steps = b.steps ∙ h.steps;
    }
    OnState→After before log (stop result) events b h = record {
      visited = b.visited ∙ h.visited;
      steps = b.steps ∙ h.steps;
    }

    visit-IsRecorded :
        (name : NodeName) (rest : List NodeName) (state : AgentState) (log : List Event)
        → IsRecorded state log
        → After P Q log (visit nodes stop_after name rest state)
    unfolding cap_exit
    visit-IsRecorded name rest state log h =
        visit_rule nodes stop_after P Q name rest log state
          (λ stepped settled events s e.
            let b = settle_node-IsSettled name _ stepped settled (ap (λ p. p.0) e) in
            OnState→After settled log _ events (branch-IsBranched stop_after rest settled name) (
              stepped-IsRecorded name state settled log (log ++ events) h (b.visited ∙ s.visited)
                (b.steps ∙ s.steps) (started_by name _ stepped log events e)))
          (λ stepped exceeded events s e.
            let r =
              stepped-IsRecorded name state stepped log (log ++ events) h s.visited s.steps
                (started_by name _ stepped log events e) in
            record { visited = r.visited; steps = r.steps })
          (λ exceeded e. rw append-nil (record { visited = h.visited; steps = h.steps }))

    -- The timeline is the run: the nodes that the event stream says started, in its order, are what
    -- the run appended to `visited`, and `step_count` grew by their number.
    pub run_graph-IsRecorded :
        (report : Report)
        → run_graph nodes stop_after resume start ≡ some report
        → IsRecorded report.result.state report.log
    unfolding started_nodes
    run_graph-IsRecorded report =
        run_rule nodes stop_after resume P Q
          (λ state log h. record { visited = h.visited; steps = h.steps })
          (λ name rest state log _ h. h)
          (λ name rest state log _ h. visit-IsRecorded name rest state log h) start report
          (record { visited = sym (append-nil start.visited); steps = omega arith })
