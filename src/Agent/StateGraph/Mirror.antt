-- ===== src/Agent/StateGraph/Mirror.antt =====
-- The invocation of the compiled graph beside the builtin loop, pass by pass.
use socio_seo_agent.Prelude.{
  ℕ, suc, ◌+◌, ◌≤◌, ◌≡◌, ◌⊎◌, inl, inr, refl, sym, ap, ◌∙◌, Bool, true, false, not, ◌&&◌, none,
  some, List, [], ◌∷◌, ◌++◌, arith,
}
use mathlib.Core.Path.{subst}
use socio_seo_agent.Agent.State.{
  AgentState, RunCaps, NodeName, Outcome, validate, review, same, is_visited,
}
use socio_seo_agent.Agent.Verdicts.{resumable_skip}
use socio_seo_agent.Agent.Driver.{Nodes, Machine, Report, Event, Next, go, stop}
use socio_seo_agent.Agent.Driver.Pass.{After}
use socio_seo_agent.Agent.Driver.Resume.{is_visited-snoc, same→eq}
use socio_seo_agent.Agent.StateGraph.{
  Target, Point, Compiled, Reaches, superstep, node, after_review, to, graph_end, order_after,
  next_unvisited, is_running, wrap, run_place, router, route_place, interrupts, build_state_graph,
  after_step, read_result, ends_at, stops_at,
}
use socio_seo_agent.Agent.StateGraph.Passes.{IsOrdered, order_after-IsOrdered, IsAfter, Ends}
use socio_seo_agent.Agent.StateGraph.Wrap.{AgreesWith, AgreesWith-refl, is_consistent, StepMatches}

-- The two drivers end alike.
pub record Mirrors (builtin compiled : Report) : Type 0 where
  pub state : AgreesWith builtin.result.state compiled.result.state
  pub interrupted : compiled.result.interrupted ≡ builtin.result.interrupted
  pub log : compiled.log ≡ builtin.log

ends_at-none : (visited : List NodeName) → ends_at none visited ≡ false
unfolding ends_at stops_at
ends_at-none [] = refl
ends_at-none (name ∷ []) = refl
ends_at-none (name ∷ name' ∷ names) = ends_at-none (name' ∷ names)

review_due :
    (resume : Bool) (state : AgentState)
    → (resume && resumable_skip state review) ≡ false
    → is_consistent resume state ≡ true
    → is_visited review state.visited ≡ false
unfolding is_consistent resumable_skip same
review_due resume state d c = ground arith

AgreesWith-eq : {builtin compiled : AgentState} → builtin ≡ compiled → AgreesWith builtin compiled
AgreesWith-eq {builtin} e = subst (AgreesWith builtin) e (AgreesWith-refl builtin)

module _ (nodes : Nodes) (resume : Bool) (initial : AgentState) where
  abbrev pub graph : Compiled
  graph = build_state_graph nodes none resume (not (is_visited review initial.visited))

  abbrev pub point_of : List NodeName → AgentState → List Event → Point
  point_of pending state log = record {
    target = next_unvisited resume state pending;
    state = state;
    log = log;
  }

  -- The invocation stands where the builtin loop does.
  pub record IsMirrored (m : Machine) : Type 0 where
    pub supersteps : ℕ
    pub reached : Reaches graph initial supersteps (point_of m.pending m.state m.log)
    pub counted : supersteps + initial.step_count ≡ m.state.step_count
    pub bounded : supersteps ≤ initial.caps.max_steps
    pub caps : m.state.caps ≡ initial.caps
    pub running : is_running m.state.outcome ≡ true
    pub consistent : is_consistent resume m.state ≡ true
    pub unpassed : is_visited review m.state.visited ≡ is_visited review initial.visited
    pub ordered : IsOrdered m.pending

  -- The invocation ends within the steps that the caps allow, and alike.
  pub record IsEnded (report : Report) : Type 0 where
    pub supersteps : ℕ
    pub point : Point
    pub reached : Reaches graph initial supersteps point
    pub short : supersteps ≤ initial.caps.max_steps + 1
    pub ending :
        ((point.target ≡ graph_end)
          × Mirrors report (record {
            result =
                read_result none (record { state = point.state; next = none; log = point.log });
            log = point.log;
          }))
        ⊎ ((point.target ≡ to after_review)
            × (is_visited review initial.visited ≡ false)
            × Mirrors report (record {
              result =
                  read_result none
                    (record { state = point.state; next = some after_review; log = point.log });
              log = point.log;
            }))

  pub on_end :
      (state : AgentState) (log : List Event)
      → IsMirrored (record { pending = []; state = state; log = log })
      → IsEnded (record {
        result = record { state = record state { outcome = Outcome.done }; interrupted = false };
        log = log;
      })
  unfolding next_unvisited read_result
  on_end state log m = record {
    supersteps = m.supersteps;
    point = point_of [] state log;
    reached = m.reached;
    short = omega (arith, m.bounded);
    ending = inl (
      refl,
      rw (m.running, ends_at-none state.visited, read_result)
          record { state = AgreesWith-refl _; interrupted = refl; log = refl },
    );
  }

  next_skipped :
      (name : NodeName) (rest : List NodeName) (state : AgentState)
      → (resume && resumable_skip state name) ≡ true
      → next_unvisited resume state (name ∷ rest) ≡ next_unvisited resume state rest
  unfolding next_unvisited
  next_skipped name rest state h = ground arith

  next_due :
      (name : NodeName) (rest : List NodeName) (state : AgentState)
      → (resume && resumable_skip state name) ≡ false
      → next_unvisited resume state (name ∷ rest) ≡ to (node name)
  unfolding next_unvisited
  next_due name rest state h = ground arith

  pub on_skip :
      (name : NodeName) (rest : List NodeName) (state : AgentState) (log : List Event)
      → (resume && resumable_skip state name) ≡ true
      → IsMirrored (record { pending = name ∷ rest; state = state; log = log })
      → IsMirrored (record { pending = rest; state = state; log = log })
  on_skip name rest state log h m = record {
    supersteps = m.supersteps;
    reached =
        subst
          (λ target.
            Reaches graph initial m.supersteps
              (record { target = target; state = state; log = log }))
          (next_skipped name rest state h) m.reached;
    counted = m.counted;
    bounded = m.bounded;
    caps = m.caps;
    running = m.running;
    consistent = m.consistent;
    unpassed = m.unpassed;
    ordered = subst IsOrdered (sym m.ordered) (order_after-IsOrdered name);
  }

  module _ (name : NodeName) (state : AgentState) (log : List Event)
      (due : (resume && resumable_skip state name) ≡ false)
      (m : IsMirrored
        (record { pending = name ∷ order_after name; state = state; log = log })) where
    abbrev stepped : Point
    stepped = after_step graph (node name) (point_of (name ∷ order_after name) state log)

    step_reached : Reaches graph initial (suc m.supersteps) stepped
    unfolding build_state_graph interrupts
    step_reached =
        superstep m.supersteps (node name) (point_of (name ∷ order_after name) state log) m.reached
          (next_due name (order_after name) state due) refl

    -- The point behind the step, by what the wrapper makes of the state.
    stepped_eq :
        (after : AgentState) (events : List Event) (target : Target)
        → (wrap nodes name state).0 ≡ after
        → (wrap nodes name state).1 ≡ events
        → router none resume name after ≡ target
        → stepped ≡ record { target = target; state = after; log = log ++ events }
    unfolding after_step build_state_graph run_place route_place
    stepped_eq after events target s e r = rw (s, e, r) refl

    arrive :
        (after : AgentState) (events : List Event) (target : Target)
        → (wrap nodes name state).0 ≡ after
        → (wrap nodes name state).1 ≡ events
        → router none resume name after ≡ target
        → Reaches graph initial
            (suc m.supersteps)
            (record { target = target; state = after; log = log ++ events })
    arrive after events target s e r =
        subst (Reaches graph initial (suc m.supersteps)) (stepped_eq after events target s e r)
          step_reached

    router_over :
        (after : AgentState)
        → is_running after.outcome ≡ false
        → router none resume name after ≡ graph_end
    unfolding router
    router_over after h = rw h refl

    router_gate :
        (after : AgentState)
        → is_running after.outcome ≡ true
        → same review name ≡ true
        → router none resume name after ≡ to after_review
    unfolding router stops_at same
    router_gate after h r = rw (sym (same→eq review name r)) (rw h refl)

    consistent_after :
        (after : AgentState)
        → after.visited ≡ state.visited ++ name ∷ []
        → same review name ≡ false
        → (is_consistent resume after ≡ true)
          × (is_visited review after.visited ≡ is_visited review initial.visited)
    unfolding is_consistent
    consistent_after after v r =
        let c = m.consistent in
        let u = m.unpassed in
        let x = is_visited-snoc review name state.visited in
        let y = is_visited-snoc validate name state.visited in ground (arith)

    review_unseen : same review name ≡ true → is_visited review initial.visited ≡ false
    unfolding is_consistent resumable_skip
    review_unseen r =
        let d : (resume && resumable_skip state review) ≡ false =
          subst (λ n. (resume && resumable_skip state n) ≡ false) (sym (same→eq review name r))
            due in
        let c = m.consistent in sym m.unpassed ∙ review_due resume state d c

    pub on_visit :
        (passed : Next × List Event)
        → StepMatches resume name (wrap nodes name state) passed
        → After (IsAfter name state) Ends log passed
        → After IsMirrored IsEnded log passed
    unfolding read_result
    on_visit (go pending after, events) (e, (s, running, r, routed)) moved =
        let (consistent, unpassed) = consistent_after after moved.visited r in
        record {
          supersteps = suc m.supersteps;
          reached = arrive after events _ s e routed;
          counted = omega (arith, m.counted, moved.steps);
          bounded =
              omega (arith, m.counted, moved.within, ap (λ (c : RunCaps). c.max_steps) m.caps);
          caps = moved.caps ∙ m.caps;
          running = running;
          consistent = consistent;
          unpassed = unpassed;
          ordered = moved.ordered;
        }
    on_visit (stop result, events) (e, inl (i, over, agrees)) moved = record {
      supersteps = suc m.supersteps;
      point = record { target = graph_end; state = (wrap nodes name state).0; log = log ++ events };
      reached = arrive _ events graph_end refl e (router_over _ over);
      short = omega (arith, m.bounded);
      ending =
          inl (
            refl,
            rw (over, read_result) record { state = agrees; interrupted = sym i; log = refl },
          );
    }
    on_visit (stop result, events) (e, inr (i, r, running, s)) moved = record {
      supersteps = suc m.supersteps;
      point = record {
        target = to after_review;
        state = (wrap nodes name state).0;
        log = log ++ events;
      };
      reached = arrive _ events (to after_review) refl e (router_gate _ running r);
      short = omega (arith, m.bounded);
      ending = inr (
        refl,
        review_unseen r,
        record { state = AgreesWith-eq s; interrupted = sym i; log = refl },
      );
    }
