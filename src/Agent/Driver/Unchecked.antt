-- ===== src/Agent/Driver/Unchecked.antt =====
-- A run that resumes between VALIDATE and REVIEW.
pub mod Midway
use socio_seo_agent.Prelude.{
  ℕ, ◌+◌, ◌≤◌, ◌≡◌, refl, ap, ◌∙◌, true, false, none, some, List, [], ◌∷◌, ok, err, ◌++◌, arith,
}
use socio_seo_agent.Json.{get}
use socio_seo_agent.Agent.State.{
  AgentState, RunCaps, CapExceeded, NodeName, intake, harvest, opportunity, plan, generate, convert,
  validate, repack, review, export, measure, same, is_visited, step,
}
use socio_seo_agent.Agent.Verdicts.{Verdict, verdicts, resumable_skip}
use socio_seo_agent.Agent.Driver.{
  Nodes, Reply, raised, returned, Updates, Machine, Report, GraphResult, Event, branch, advance,
  visit, run_graph, settle_node,
}
use socio_seo_agent.Agent.Driver.Pass.{
  After, IsStepped, settle_node-IsSettled, visit_rule, run_rule,
}
use socio_seo_agent.Agent.Driver.Resume.{skip_mono, is_visited-snoc}
use socio_seo_agent.Agent.Driver.Drafts.{
  KeepsVerdicts, settle_node-verdicts, verdicts-cong, rest_of,
}
use socio_seo_agent.Agent.Driver.Unchecked.Midway.{
  IsMidway, IsFree, to_gate, IsBefore, not_skipped, still_midway, never_broke, never_refused,
}

module _ (verdict : Verdict) where
  record IsCarried (name : NodeName) (rest : List NodeName) (state : AgentState) : Type 0 where
    place : rest ≡ rest_of name
    ahead : IsBefore name
    kept : verdicts state ≡ verdict
    midway : IsMidway state
    room : state.step_count + to_gate name ≤ state.caps.max_steps

  abbrev Carried : List NodeName → AgentState → Type 0
  Carried [] state = ⊥
  Carried (name ∷ rest) state = IsCarried name rest state

  abbrev Unchecked : GraphResult → Type 0
  Unchecked result = (result.interrupted ≡ true) × (verdicts result.state ≡ verdict)

  -- A skip moves on from a node that is neither REVIEW nor behind it.
  skip-Carried :
      (name : NodeName) (rest : List NodeName) (state : AgentState)
      → resumable_skip state name ≡ true
      → IsCarried name rest state
      → Carried rest state
  unfolding rest_of
  skip-Carried review rest state h c = absurd (not_skipped state c.midway h)
  skip-Carried export rest state h c = absurd c.ahead
  skip-Carried measure rest state h c = absurd c.ahead
  skip-Carried name rest state h c = rw c.place (record {
    place = refl;
    ahead = tt;
    kept = c.kept;
    midway = c.midway;
    room = omega (arith, c.room);
  })

  module _ (nodes : Nodes) (free : IsFree nodes) (keeps_generate : KeepsVerdicts nodes generate)
      (keeps_repack : KeepsVerdicts nodes repack) (keeps_review : KeepsVerdicts nodes review) where
    abbrev P : Machine → Type 0
    P m = Carried m.pending m.state

    abbrev Q : Report → Type 0
    Q r = Unchecked r.result

    settled-kept :
        (name : NodeName) (before stepped settled : AgentState)
        → KeepsVerdicts nodes name
        → verdicts before ≡ verdict
        → IsStepped name before stepped
        → (settle_node name (nodes name stepped) stepped).0 ≡ ok settled
        → verdicts settled ≡ verdict
    settled-kept name before stepped settled keeps kept s e =
        settle_node-verdicts name _ stepped settled (keeps stepped) e
        ∙ verdicts-cong stepped before (ap (get "seo_report") s.contents)
            (ap (get "claim_check") s.contents)
        ∙ kept

    -- The state behind a node of the three that run.
    record IsRun (name : NodeName) (before after : AgentState) : Type 0 where
      kept : verdicts after ≡ verdict
      midway : IsMidway after
      steps : after.step_count ≡ before.step_count + 1
      caps : after.caps ≡ before.caps

    settled-IsRun :
        (name : NodeName) (before stepped settled : AgentState)
        → KeepsVerdicts nodes name
        → same review name ≡ false
        → verdicts before ≡ verdict
        → IsMidway before
        → IsStepped name before stepped
        → (settle_node name (nodes name stepped) stepped).0 ≡ ok settled
        → IsRun name before settled
    settled-IsRun name before stepped settled keeps other kept midway s e =
        let b = settle_node-IsSettled name _ stepped settled e in
        record {
          kept = settled-kept name before stepped settled keeps kept s e;
          midway = still_midway name before settled (b.visited ∙ s.visited) other midway;
          steps = b.steps ∙ s.steps;
          caps = b.caps ∙ s.caps;
        }

    go_on :
        (name next : NodeName) (rest : List NodeName) (before stepped settled : AgentState)
        → IsCarried name rest before
        → rest_of name ≡ next ∷ rest_of next
        → IsBefore next
        → to_gate next + 1 ≤ to_gate name
        → KeepsVerdicts nodes name
        → same review name ≡ false
        → IsStepped name before stepped
        → (settle_node name (nodes name stepped) stepped).0 ≡ ok settled
        → Carried rest settled
    go_on name next rest before stepped settled c p ahead fits keeps other s e =
        let r = settled-IsRun name before stepped settled keeps other c.kept c.midway s e in
        rw (c.place ∙ p) (record {
          place = refl;
          ahead = ahead;
          kept = r.kept;
          midway = r.midway;
          room = omega (arith, c.room, r.steps, ap (λ (k : RunCaps). k.max_steps) r.caps);
        })

    branch-Carried :
        (name : NodeName) (rest : List NodeName) (before stepped settled : AgentState)
        (log events : List Event)
        → resumable_skip before name ≡ false
        → IsCarried name rest before
        → IsStepped name before stepped
        → (settle_node name (nodes name stepped) stepped).0 ≡ ok settled
        → After P Q log (branch none name rest settled, events)
    unfolding branch advance rest_of same
    branch-Carried intake rest before stepped settled log events k c s e =
        let h = c.midway.intake in absurd (cc)
    branch-Carried harvest rest before stepped settled log events k c s e =
        let h = c.midway.harvest in absurd (cc)
    branch-Carried opportunity rest before stepped settled log events k c s e =
        let h = c.midway.opportunity in absurd (cc)
    branch-Carried plan rest before stepped settled log events k c s e =
        let h = c.midway.plan in absurd (cc)
    branch-Carried convert rest before stepped settled log events k c s e =
        let h = c.midway.convert in absurd (cc)
    branch-Carried validate rest before stepped settled log events k c s e =
        let h = c.midway.validate in absurd (cc)
    branch-Carried generate rest before stepped settled log events k c s e =
        go_on generate convert rest before stepped settled c refl tt (omega arith) keeps_generate
          refl s e
    branch-Carried repack rest before stepped settled log events k c s e =
        go_on repack review rest before stepped settled c refl tt (omega arith) keeps_repack refl s
          e
    branch-Carried review rest before stepped settled log events k c s e = (
      refl,
      verdicts-cong _ settled refl refl
          ∙ settled-kept review before stepped settled keeps_review c.kept s e,
    )
    branch-Carried export rest before stepped settled log events k c s e = absurd c.ahead
    branch-Carried measure rest before stepped settled log events k c s e = absurd c.ahead

    room_now :
        (name : NodeName) (rest : List NodeName) (state : AgentState)
        → IsCarried name rest state
        → state.step_count + 1 ≤ state.caps.max_steps
    room_now export rest state c = absurd c.ahead
    room_now measure rest state c = absurd c.ahead
    room_now review rest state c = c.room
    room_now name rest state c = omega (arith, c.room)

    visit-Carried :
        (name : NodeName) (rest : List NodeName) (state : AgentState) (log : List Event)
        → resumable_skip state name ≡ false
        → IsCarried name rest state
        → After P Q log (visit nodes none name rest state)
    visit-Carried name rest state log k c =
        visit_rule nodes none P Q name rest log state
          (λ stepped settled events s e.
            branch-Carried name rest state stepped settled log events k c s (ap (λ p. p.0) e))
          (λ stepped exceeded events s e.
            absurd (never_broke name _ stepped exceeded events (free name stepped) e))
          (λ exceeded e. absurd (never_refused state name exceeded (room_now name rest state c) e))

-- A resume between VALIDATE and REVIEW does not validate again: with room for three steps, nodes that
-- cost nothing and GENERATE, REPACK and REVIEW nodes that leave VALIDATE's reports alone, the run
-- parks at the human gate with the verdicts of its checkpoint, also where these block publication.
pub resumed_draft_unchecked :
    (nodes : Nodes) (state : AgentState) (report : Report)
    → IsFree nodes
    → KeepsVerdicts nodes generate
    → KeepsVerdicts nodes repack
    → KeepsVerdicts nodes review
    → IsMidway state
    → state.step_count + 3 ≤ state.caps.max_steps
    → run_graph nodes none true state ≡ some report
    → (report.result.interrupted ≡ true) × (verdicts report.result.state ≡ verdicts state)
unfolding rest_of
resumed_draft_unchecked nodes state report free g p r m room =
    run_rule nodes none true (P (verdicts state) nodes free g p r)
      (Q (verdicts state) nodes free g p r) (λ state log h. absurd h)
      (λ name rest state' log e h. skip-Carried (verdicts state) name rest state' e h)
      (λ name rest state' log e h.
        visit-Carried (verdicts state) nodes free g p r name rest state' log e h)
      state report (record { place = refl; ahead = tt; kept = refl; midway = m; room = room })
