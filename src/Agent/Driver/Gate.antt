-- ===== src/Agent/Driver/Gate.antt =====
-- What no run reaches without passing the human gate.
use socio_seo_agent.Prelude.{
  ◌≡◌, refl, ap, ◌∙◌, Bool, true, false, ◌&&◌, Option, some, List, [], ◌∷◌, ◌++◌, arith, append-nil,
}
use socio_seo_agent.Agent.State.{
  AgentState, NodeName, review, export, measure, validate, opportunity, same, is_visited,
  enter_validate_loop,
}
use socio_seo_agent.Agent.Verdicts.{resumable_skip}
use socio_seo_agent.Agent.Driver.{
  Nodes, Machine, Report, Event, Next, go, stop, branch, advance, retry, visit, run_graph,
}
use socio_seo_agent.Agent.Driver.Pass.{After, settle_node-IsSettled, visit_rule, run_rule}
use socio_seo_agent.Agent.Driver.Timeline.{started_nodes, started_by}
use socio_seo_agent.Agent.Driver.Resume.{is_visited-snoc}

-- REVIEW stands before EXPORT and MEASURE.
gated : List NodeName → Bool
gated [] = true
gated (review ∷ rest) = true
gated (export ∷ rest) = false
gated (measure ∷ rest) = false
gated (name ∷ rest) = gated rest

abbrev Ahead : NodeName → AgentState → Next → Type 0
Ahead name before (go pending state) =
    (gated pending ≡ true) × (state.visited ≡ before.visited) × (same review name ≡ false)
Ahead name before (stop result) = Unit

module _ (stop_after : Option NodeName) (rest : List NodeName) (state : AgentState) where
  advance-Ahead :
      (name : NodeName)
      → gated rest ≡ true
      → same review name ≡ false
      → Ahead name state (advance stop_after name rest state)
  unfolding advance
  advance-Ahead name h s = ground arith

  retry-Ahead : Ahead validate state (retry stop_after state)
  unfolding retry enter_validate_loop gated same
  retry-Ahead = ground arith

  branch-Ahead :
      (name : NodeName)
      → gated (name ∷ rest) ≡ true
      → Ahead name state (branch stop_after name rest state)
  unfolding branch gated same
  branch-Ahead opportunity h = ground (arith, advance-Ahead opportunity h refl)
  branch-Ahead validate h = ground (arith, advance-Ahead validate h refl, retry-Ahead)
  branch-Ahead review h = tt
  branch-Ahead export h = cc
  branch-Ahead measure h = cc
  branch-Ahead name h = advance-Ahead name h refl

gated_name :
    (name : NodeName) (rest : List NodeName)
    → gated (name ∷ rest) ≡ true
    → (same export name ≡ false) × (same measure name ≡ false)
unfolding gated same
gated_name export rest h = cc
gated_name measure rest h = cc
gated_name name rest h = (refl, refl)

gated_rest :
    (name : NodeName) (rest : List NodeName)
    → same review name ≡ false
    → gated (name ∷ rest) ≡ true
    → gated rest ≡ true
unfolding gated same
gated_rest review rest s h = cc
gated_rest export rest s h = cc
gated_rest measure rest s h = cc
gated_rest name rest s h = h

-- Neither node that acts behind the gate has started.
pub record IsUnpublished (log : List Event) : Type 0 where
  pub no_export : is_visited export (started_nodes log) ≡ false
  pub no_measure : is_visited measure (started_nodes log) ≡ false

module _ (resume : Bool) where
  record IsGated (pending : List NodeName) (state : AgentState) (log : List Event) : Type 0 where
    ahead : gated pending ≡ true
    unseen : (resume && is_visited review state.visited) ≡ false
    unpublished : IsUnpublished log

  IsUnpublished-snoc :
      (name : NodeName) (rest : List NodeName) (log log' : List Event)
      → started_nodes log' ≡ started_nodes log ++ name ∷ []
      → gated (name ∷ rest) ≡ true
      → IsUnpublished log
      → IsUnpublished log'
  IsUnpublished-snoc name rest log log' e g h =
      let (x, m) = gated_name name rest g in
      record {
        no_export = rw e (rw is_visited-snoc (ground arith));
        no_measure = rw e (rw is_visited-snoc (ground arith));
      }

  unseen-snoc :
      (name : NodeName) (before after : AgentState)
      → after.visited ≡ before.visited ++ name ∷ []
      → same review name ≡ false
      → (resume && is_visited review before.visited) ≡ false
      → (resume && is_visited review after.visited) ≡ false
  unseen-snoc name before after e s h = rw e (rw is_visited-snoc (ground arith))

  -- A pass that skips is of a resumed run, which REVIEW cannot be part of.
  skipped_name :
      (name : NodeName) (state : AgentState)
      → (resume && resumable_skip state name) ≡ true
      → (resume && is_visited review state.visited) ≡ false
      → same review name ≡ false
  unfolding resumable_skip same
  skipped_name review state h u = ground arith
  skipped_name name state h u = refl

  module _ (nodes : Nodes) (stop_after : Option NodeName) where
    abbrev P : Machine → Type 0
    P m = IsGated m.pending m.state m.log

    abbrev Q : Report → Type 0
    Q r = IsUnpublished r.log

    Ahead→After :
        (name : NodeName) (before after : AgentState) (log : List Event) (next : Next)
        (events : List Event)
        → Ahead name after next
        → after.visited ≡ before.visited ++ name ∷ []
        → (resume && is_visited review before.visited) ≡ false
        → IsUnpublished (log ++ events)
        → After P Q log (next, events)
    Ahead→After name before after log (go pending state) events (g, v, s) e u h = record {
      ahead = g;
      unseen = unseen-snoc name before state (v ∙ e) s u;
      unpublished = h;
    }
    Ahead→After name before after log (stop result) events a e u h = h

    visit-IsGated :
        (name : NodeName) (rest : List NodeName) (state : AgentState) (log : List Event)
        → IsGated (name ∷ rest) state log
        → After P Q log (visit nodes stop_after name rest state)
    visit-IsGated name rest state log h =
        visit_rule nodes stop_after P Q name rest log state
          (λ stepped settled events s e.
            let b = settle_node-IsSettled name _ stepped settled (ap (λ p. p.0) e) in
            Ahead→After name state settled log _ events
              (branch-Ahead stop_after rest settled name h.ahead) (b.visited ∙ s.visited) h.unseen
              (IsUnpublished-snoc name rest log _ (started_by name _ stepped log events e) h.ahead
                h.unpublished))
          (λ stepped exceeded events s e.
            IsUnpublished-snoc name rest log _ (started_by name _ stepped log events e) h.ahead
              h.unpublished)
          (λ exceeded e. rw append-nil h.unpublished)

    -- Nothing publishes without the gate: a fresh run starts neither EXPORT nor MEASURE, and neither
    -- does a resumed run whose checkpoint has not visited REVIEW.
    pub gate_holds :
        (state : AgentState) (report : Report)
        → (resume && is_visited review state.visited) ≡ false
        → run_graph nodes stop_after resume state ≡ some report
        → IsUnpublished report.log
    unfolding gated started_nodes is_visited
    gate_holds state report u =
        run_rule nodes stop_after resume P Q (λ state log h. h.unpublished)
          (λ name rest state log e h. record {
            ahead = gated_rest name rest (skipped_name name state e h.unseen) h.ahead;
            unseen = h.unseen;
            unpublished = h.unpublished;
          })
          (λ name rest state log _ h. visit-IsGated name rest state log h) state report
          (record {
            ahead = refl;
            unseen = u;
            unpublished = record { no_export = refl; no_measure = refl };
          })
