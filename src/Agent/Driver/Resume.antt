-- ===== src/Agent/Driver/Resume.antt =====
-- What a resumed run repeats.
use socio_seo_agent.Prelude.{
  ℕ, ◌≡◌, refl, ap, sym, ◌∙◌, true, false, ◌||◌, Option, some, List, [], ◌∷◌, ◌++◌, ◌==◌,
  any-append, arith, Bool-cases, inl, inr, append-nil, if◌then◌else◌,
}
use socio_seo_agent.Agent.State.{
  AgentState, NodeName, intake, harvest, opportunity, plan, generate, convert, validate, repack,
  review, export, measure, index, same, is_visited,
}
use socio_seo_agent.Agent.Verdicts.{resumable_skip}
use socio_seo_agent.Agent.Driver.{Nodes, Machine, Report, Event, Next, go, stop, visit, run_graph}
use socio_seo_agent.Agent.Driver.Pass.{
  After, OnState, IsBranched, branch-IsBranched, settle_node-IsSettled, visit_rule, run_rule,
}
use socio_seo_agent.Agent.Driver.Timeline.{started_nodes, started_by}

name_at : ℕ → NodeName
name_at n =
    if n == 0
    then intake
    else if n == 1
    then harvest
    else if n == 2
    then opportunity
    else if n == 3
    then plan
    else if n == 4
    then generate
    else if n == 5
    then convert
    else if n == 6
    then validate
    else if n == 7
    then repack
    else if n == 8
    then review
    else if n == 9
    then export
    else measure

name_at-index : (a : NodeName) → name_at (index a) ≡ a
unfolding name_at index
name_at-index intake = refl
name_at-index _ = refl

-- Equal positions are equal names.
pub same→eq : (a b : NodeName) → same a b ≡ true → a ≡ b
unfolding same
same→eq a b h =
    let e : index a ≡ index b = ground arith in
    sym (name_at-index a) ∙ ap name_at e ∙ name_at-index b

pub same_refl : (a : NodeName) → same a a ≡ true
unfolding same
same_refl a = ground arith

pub is_visited-append :
    (node : NodeName) (xs ys : List NodeName)
    → is_visited node (xs ++ ys) ≡ (is_visited node xs || is_visited node ys)
unfolding is_visited
is_visited-append node xs ys = any-append (same node) xs ys

pub is_visited-snoc :
    (node name : NodeName) (xs : List NodeName)
    → is_visited node (xs ++ name ∷ []) ≡ (is_visited node xs || same node name)
unfolding is_visited
is_visited-snoc node name xs = ground (arith, is_visited-append node xs (name ∷ []))

-- The skip depends on `visited` alone, and no later visit takes it back.
pub skip_mono :
    (node : NodeName) (before after : AgentState) (name : NodeName)
    → after.visited ≡ before.visited ++ name ∷ []
    → resumable_skip before node ≡ true
    → resumable_skip after node ≡ true
unfolding resumable_skip
skip_mono node before after name e h =
    ground
      (arith, is_visited-snoc node name before.visited, is_visited-snoc review name before.visited)

pub skip_visited :
    (node : NodeName) (before after : AgentState)
    → after.visited ≡ before.visited
    → resumable_skip before node ≡ true
    → resumable_skip after node ≡ true
unfolding resumable_skip
skip_visited node before after e h = ground arith

module _ (node : NodeName) where
  record IsSpared (state : AgentState) (log : List Event) : Type 0 where
    skipped : resumable_skip state node ≡ true
    quiet : is_visited node (started_nodes log) ≡ false

  other_node :
      (state : AgentState) (name : NodeName)
      → resumable_skip state node ≡ true
      → resumable_skip state name ≡ false
      → same node name ≡ false
  other_node state name h k = elim (Bool-cases (same node name)) [
    | inl e ↦ let p : node ≡ name = same→eq node name e in cc
    | inr e ↦ e
  ]

  quiet-snoc :
      (name : NodeName) (log log' : List Event)
      → started_nodes log' ≡ started_nodes log ++ name ∷ []
      → same node name ≡ false
      → is_visited node (started_nodes log) ≡ false
      → is_visited node (started_nodes log') ≡ false
  quiet-snoc name log log' e s h =
      rw e (ground (arith, is_visited-snoc node name (started_nodes log)))

  module _ (nodes : Nodes) (stop_after : Option NodeName) where
    abbrev P : Machine → Type 0
    P m = IsSpared m.state m.log

    abbrev Q : Report → Type 0
    Q r = is_visited node (started_nodes r.log) ≡ false

    OnState→After :
        (before : AgentState) (log : List Event) (next : Next) (events : List Event)
        → OnState (IsBranched before) next
        → IsSpared before (log ++ events)
        → After P Q log (next, events)
    OnState→After before log (go pending state) events b h = record {
      skipped = skip_visited node before state b.visited h.skipped;
      quiet = h.quiet;
    }
    OnState→After before log (stop result) events b h = h.quiet

    visit-IsSpared :
        (name : NodeName) (rest : List NodeName) (state : AgentState) (log : List Event)
        → resumable_skip state name ≡ false
        → IsSpared state log
        → After P Q log (visit nodes stop_after name rest state)
    visit-IsSpared name rest state log fresh h =
        let other = other_node state name h.skipped fresh in
        visit_rule nodes stop_after P Q name rest log state
          (λ stepped settled events s e.
            let b = settle_node-IsSettled name _ stepped settled (ap (λ p. p.0) e) in
            OnState→After settled log _ events (branch-IsBranched stop_after rest settled name)
              (record {
                skipped = skip_mono node state settled name (b.visited ∙ s.visited) h.skipped;
                quiet =
                    quiet-snoc name log _ (started_by name _ stepped log events e) other h.quiet;
              }))
          (λ stepped exceeded events s e.
            quiet-snoc name log _ (started_by name _ stepped log events e) other h.quiet)
          (λ exceeded e. rw append-nil h.quiet)

    -- A resume never repeats what its checkpoint lets it skip: a node that `visited` holds, GENERATE
    -- excepted until REVIEW is there too, does not start again, also behind a VALIDATE retry.
    pub resume_repeats_nothing :
        (state : AgentState) (report : Report)
        → resumable_skip state node ≡ true
        → run_graph nodes stop_after true state ≡ some report
        → is_visited node (started_nodes report.log) ≡ false
    unfolding started_nodes is_visited
    resume_repeats_nothing state report h =
        run_rule nodes stop_after true P Q (λ state log h. h.quiet) (λ name rest state log _ h. h)
          (λ name rest state log fresh h. visit-IsSpared name rest state log fresh h) state report
          (record { skipped = h; quiet = refl })
