-- ===== src/Agent/Driver/Drafts.antt =====
-- Which drafts reach the human gate.
use socio_seo_agent.Prelude.{
  String, ◌≡◌, refl, ap, ◌∙◌, true, false, Option, none, some, List, [], ◌∷◌, ok, arith, Bool-cases,
  Option-cases, inl, inr,
}
use mathlib.Core.Path.{ap₂}
use socio_seo_agent.Json.{Fields, get, merge, get-merge_absent}
use socio_seo_agent.Agent.State.{
  AgentState, NodeName, intake, harvest, opportunity, plan, generate, convert, validate, repack,
  review, export, measure, enter_validate_loop, charge,
}
use socio_seo_agent.Agent.Verdicts.{Verdict, verdicts, judge, dict_of, opportunity_exit}
use socio_seo_agent.Agent.Driver.{
  Nodes, Reply, raised, returned, Updates, Machine, Report, GraphResult, Event, Next, go, stop,
  from_generate, branch, advance, retry, visit, run_graph, settle_node,
}
use socio_seo_agent.Agent.Driver.Pass.{After, IsStepped, visit_rule, run_rule}

-- Updates that leave VALIDATE's two reports alone.
pub record IsSilent (entries : Fields) : Type 0 where
  pub report : get "seo_report" entries ≡ none
  pub claims : get "claim_check" entries ≡ none

abbrev pub KeepsVerdicts : Nodes → NodeName → Type 0
KeepsVerdicts nodes name =
    (state : AgentState) (updates : Updates)
    → nodes name state ≡ returned updates
    → IsSilent updates.entries

pub verdicts-cong :
    (a b : AgentState)
    → get "seo_report" a.contents ≡ get "seo_report" b.contents
    → get "claim_check" a.contents ≡ get "claim_check" b.contents
    → verdicts a ≡ verdicts b
unfolding verdicts
verdicts-cong a b r c = ap₂ judge (ap dict_of r) (ap dict_of c)

pub merged_contents :
    (name : NodeName) (updates : Updates) (state after : AgentState)
    → (settle_node name (returned updates) state).0 ≡ ok after
    → after.contents ≡ merge state.contents updates.entries
unfolding settle_node charge
merged_contents name updates state after h = ground arith

kept_contents :
    (name : NodeName) (message : String) (state after : AgentState)
    → (settle_node name (raised message) state).0 ≡ ok after
    → after.contents ≡ state.contents
unfolding settle_node
kept_contents name message state after h = ground arith

-- A reply that keeps the reports keeps the verdicts.
pub settle_node-verdicts :
    (name : NodeName) (reply : Reply) (state after : AgentState)
    → ((updates : Updates) → reply ≡ returned updates → IsSilent updates.entries)
    → (settle_node name reply state).0 ≡ ok after
    → verdicts after ≡ verdicts state
settle_node-verdicts name (raised message) state after quiet h =
    let e = kept_contents name message state after h in
    verdicts-cong after state (ap (get "seo_report") e) (ap (get "claim_check") e)
settle_node-verdicts name (returned updates) state after quiet h =
    let e = merged_contents name updates state after h in
    let q = quiet updates refl in
    verdicts-cong after state
      (ap (get "seo_report") e
        ∙ get-merge_absent "seo_report" state.contents updates.entries q.report)
      (ap (get "claim_check") e
        ∙ get-merge_absent "claim_check" state.contents updates.entries q.claims)

-- `ORDER` behind a node.
unfoldable pub rest_of : NodeName → List NodeName
rest_of intake = harvest ∷ opportunity ∷ plan ∷ from_generate
rest_of harvest = opportunity ∷ plan ∷ from_generate
rest_of opportunity = plan ∷ from_generate
rest_of plan = from_generate
rest_of generate = convert ∷ validate ∷ repack ∷ review ∷ export ∷ measure ∷ []
rest_of convert = validate ∷ repack ∷ review ∷ export ∷ measure ∷ []
rest_of validate = repack ∷ review ∷ export ∷ measure ∷ []
rest_of repack = review ∷ export ∷ measure ∷ []
rest_of review = export ∷ measure ∷ []
rest_of export = measure ∷ []
rest_of measure = []

abbrev IsSound : AgentState → Type 0
IsSound state = (verdicts state).weak_draft ≡ false

-- Between VALIDATE and the gate the draft is sound.
abbrev SoundAt : NodeName → AgentState → Type 0
SoundAt repack state = IsSound state
SoundAt review state = IsSound state
SoundAt name state = Unit

abbrev Placed : List NodeName → AgentState → Type 0
Placed [] state = Unit
Placed (name ∷ rest) state = (rest ≡ rest_of name) × SoundAt name state

abbrev Parked : GraphResult → Type 0
Parked result = result.interrupted ≡ true → IsSound result.state

abbrev Leaves : Next → Type 0
Leaves (go pending state) = Placed pending state
Leaves (stop result) = Parked result

sound_verdict :
    (state : AgentState)
    → IsSound state
    → verdicts state ≡ record { blocked = false; weak_draft = false }
unfolding verdicts judge
sound_verdict state h = ground arith

module _ (stop_after : Option NodeName) where
  advance-Leaves :
      (name : NodeName) (rest : List NodeName) (state : AgentState)
      → Placed rest state
      → Leaves (advance stop_after name rest state)
  unfolding advance
  advance-Leaves name rest state h = ground arith

  retry-Leaves : (state : AgentState) → Leaves (retry stop_after state)
  unfolding retry enter_validate_loop rest_of
  retry-Leaves state = ground arith

  branch-Leaves :
      (name : NodeName) (rest : List NodeName) (state : AgentState)
      → rest ≡ rest_of name
      → SoundAt name state
      → Leaves (branch stop_after name rest state)
  unfolding branch rest_of
  branch-Leaves opportunity rest state e h = elim (Option-cases (opportunity_exit state)) [
    | inl on ↦ rw (on, branch) (advance-Leaves opportunity rest state (rw e (refl, tt)))
    | inr (final, ended) ↦ rw (ended, branch) (λ p. cc)
  ]
  branch-Leaves validate rest state e h = elim (Bool-cases (verdicts state).weak_draft) [
    | inl weak ↦ rw (weak, branch) (retry-Leaves state)
    | inr fine ↦ rw (fine, branch) (advance-Leaves validate rest state (rw e (refl, fine)))
  ]
  branch-Leaves review rest state e h =
      λ _. ap (λ (v : Verdict). v.weak_draft) (verdicts-cong _ state refl refl) ∙ h
  branch-Leaves repack rest state e h = advance-Leaves repack rest state (rw e (refl, h))
  branch-Leaves intake rest state e h = advance-Leaves intake rest state (rw e (refl, h))
  branch-Leaves harvest rest state e h = advance-Leaves harvest rest state (rw e (refl, h))
  branch-Leaves plan rest state e h = advance-Leaves plan rest state (rw e (refl, h))
  branch-Leaves generate rest state e h = advance-Leaves generate rest state (rw e (refl, h))
  branch-Leaves convert rest state e h = advance-Leaves convert rest state (rw e (refl, h))
  branch-Leaves export rest state e h = advance-Leaves export rest state (rw e (refl, h))
  branch-Leaves measure rest state e h = advance-Leaves measure rest state (rw e tt)

module _ (nodes : Nodes) (stop_after : Option NodeName) (keeps_repack : KeepsVerdicts nodes repack)
    (keeps_review : KeepsVerdicts nodes review) where
  abbrev P : Machine → Type 0
  P m = Placed m.pending m.state

  abbrev Q : Report → Type 0
  Q r = Parked r.result

  Leaves→After :
      (log : List Event) (next : Next) (events : List Event)
      → Leaves next
      → After P Q log (next, events)
  Leaves→After log (go pending state) events h = h
  Leaves→After log (stop result) events h = h

  still-IsSound :
      (name : NodeName) (before stepped settled : AgentState)
      → KeepsVerdicts nodes name
      → IsStepped name before stepped
      → (settle_node name (nodes name stepped) stepped).0 ≡ ok settled
      → IsSound before
      → IsSound settled
  still-IsSound name before stepped settled keeps s e h =
      ap (λ (v : Verdict). v.weak_draft)
        (settle_node-verdicts name _ stepped settled (keeps stepped) e
          ∙ verdicts-cong stepped before (ap (get "seo_report") s.contents)
              (ap (get "claim_check") s.contents))
      ∙ h

  settled-SoundAt :
      (name : NodeName) (before stepped settled : AgentState)
      → IsStepped name before stepped
      → (settle_node name (nodes name stepped) stepped).0 ≡ ok settled
      → SoundAt name before
      → SoundAt name settled
  settled-SoundAt repack before stepped settled s e h =
      still-IsSound repack before stepped settled keeps_repack s e h
  settled-SoundAt review before stepped settled s e h =
      still-IsSound review before stepped settled keeps_review s e h
  settled-SoundAt _ before stepped settled s e h = tt

  visit-Placed :
      (name : NodeName) (rest : List NodeName) (state : AgentState) (log : List Event)
      → Placed (name ∷ rest) state
      → After P Q log (visit nodes stop_after name rest state)
  visit-Placed name rest state log h =
      visit_rule nodes stop_after P Q name rest log state
        (λ stepped settled events s e. Leaves→After log _ events (
          branch-Leaves stop_after name rest settled h.0
            (settled-SoundAt name state stepped settled s (ap (λ p. p.0) e) h.1)))
        (λ stepped exceeded events s e p. cc) (λ exceeded e p. cc)

  -- A fresh run parks at the human gate only what VALIDATE passed: where REPACK and REVIEW do not
  -- rewrite VALIDATE's reports, the state that awaits approval has a passing SEO report and no failed
  -- claim check.
  pub fresh_draft-IsSound :
      (state : AgentState) (report : Report)
      → run_graph nodes stop_after false state ≡ some report
      → report.result.interrupted ≡ true
      → verdicts report.result.state ≡ record { blocked = false; weak_draft = false }
  unfolding rest_of
  fresh_draft-IsSound state report h i = sound_verdict report.result.state (
      run_rule nodes stop_after false P Q (λ state log _ p. cc) (λ name rest state log e _. cc)
        (λ name rest state log _ h. visit-Placed name rest state log h) state report (refl, tt) h i)
