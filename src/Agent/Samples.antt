-- ===== src/Agent/Samples.antt =====
-- Small runs of the driver, and the theorems at them.
use socio_seo_agent.Agent.Driver.Total.{run_graph_total}
use socio_seo_agent.Agent.Driver.Bounds.{IsBounded, run_graph-IsBounded}
use socio_seo_agent.Agent.Driver.Timeline.{started_nodes, IsRecorded, run_graph-IsRecorded}
use socio_seo_agent.Agent.Driver.Stops.{IsStated, run_graph-IsStated}
use socio_seo_agent.Agent.Driver.Resume.{resume_repeats_nothing}
use socio_seo_agent.Agent.Driver.Gate.{IsUnpublished, gate_holds}
use socio_seo_agent.Agent.Driver.Drafts.{KeepsVerdicts, IsSilent, fresh_draft-IsSound}
use socio_seo_agent.Agent.Driver.Unchecked.{resumed_draft_unchecked}
use socio_seo_agent.Agent.Driver.Unchecked.Midway.{IsMidway, IsFree}
use socio_seo_agent.Prelude.{◌≡◌, refl, Bool, true, false, Option, none, some, [], ◌∷◌, arith}
use socio_seo_agent.Json.{Fields, bool, text, obj, end, field, get, merge}
use socio_seo_agent.Agent.State.{
  AgentState, RunCaps, NodeName, Outcome, intake, harvest, opportunity, plan, generate, convert,
  validate, repack, review, new_state, is_visited, step, charge, enter_validate_loop,
}
use socio_seo_agent.Agent.Verdicts.{verdicts, resumable_skip, opportunity_exit, validate_exit}
use socio_seo_agent.Agent.Driver.{Nodes, Updates, Reply, returned, raised, Report, run_graph}

abbrev caps : RunCaps
caps = record { max_steps = 14; max_usd = 50_000_000; max_validate_loops = 2 }

abbrev fresh : AgentState
fresh = new_state end caps

abbrev writes : Fields → Reply
writes entries = returned (record { entries = entries; errors = none; cost = none })

abbrev passed : Bool → Fields
passed b = field "passed" (bool b) end

-- HARVEST crashes, GENERATE costs two cents, and VALIDATE passes the draft.
abbrev happy : Nodes
happy harvest state = raised "timeout"
happy opportunity state = writes (field "opportunity" (obj (field "topic" (text "tea") end)) end)
happy generate state = returned (record { entries = end; errors = none; cost = some 2_000_000 })
happy validate state =
    writes (field "seo_report" (obj (passed true)) (field "claim_check" (obj (passed true)) end))
happy name state = writes end

abbrev report_of : Option Report → Report
report_of (some r) = r
report_of none = record { result = record { state = fresh; interrupted = false }; log = [] }

program : Unit {0}
unfolding run_graph new_state resumable_skip verdicts opportunity_exit validate_exit step charge
    enter_validate_loop merge
program = tt

abbrev parked : Report
unfolding program
parked = report_of (run_graph happy none false fresh)

run_graph-happy : run_graph happy none false fresh ≡ some parked
unfolding program
run_graph-happy = refl

parked_visits :
    parked.result.state.visited
    ≡ intake ∷ harvest ∷ opportunity ∷ plan ∷ generate ∷ convert ∷ validate ∷ repack ∷ review ∷ []
unfolding program
parked_visits = refl

-- The draft fails VALIDATE three times; the run ends as a partial.
abbrev weak : Nodes
weak validate state = writes (field "seo_report" (obj (passed false)) end)
weak name state = happy name state

abbrev spent : Report
unfolding program
spent = report_of (run_graph weak none false fresh)

run_graph-weak : run_graph weak none false fresh ≡ some spent
unfolding program
run_graph-weak = refl

spent_after : (spent.result.state.outcome ≡ Outcome.partial) × (spent.result.state.step_count ≡ 13)
unfolding program
spent_after = (refl, refl)

-- A checkpoint between VALIDATE and REVIEW, with a claim check that blocks publication.
abbrev midway : AgentState
unfolding program
midway = record fresh {
  contents = field "opportunity" (text "tea") (field "claim_check" (obj (passed false)) end);
  step_count = 7;
  visited = intake ∷ harvest ∷ opportunity ∷ plan ∷ generate ∷ convert ∷ validate ∷ [];
}

abbrev quiet : Nodes
quiet name state = writes end

abbrev resumed : Report
unfolding program
resumed = report_of (run_graph quiet none true midway)

run_graph-midway : run_graph quiet none true midway ≡ some resumed
unfolding program
run_graph-midway = refl

midway_blocked : (verdicts midway).blocked ≡ true
unfolding program
midway_blocked = refl

-- The approved resume of the parked run.
abbrev exported : Report
unfolding program
exported = report_of (run_graph happy none true parked.result.state)

run_graph-parked : run_graph happy none true parked.result.state ≡ some exported
unfolding program
run_graph-parked = refl

silent : (updates : Updates) → writes end ≡ returned updates → IsSilent updates.entries
unfolding get
silent updates e = record { report = ground arith; claims = ground arith }

happy_repack : KeepsVerdicts happy repack
happy_repack state = silent

happy_review : KeepsVerdicts happy review
happy_review state = silent

quiet_keeps : (name : NodeName) → KeepsVerdicts quiet name
quiet_keeps name state = silent

quiet-IsFree : IsFree quiet
quiet-IsFree name state updates e = ground arith

midway-IsMidway : IsMidway midway
unfolding program
midway-IsMidway = record {
  intake = refl;
  harvest = refl;
  opportunity = refl;
  plan = refl;
  convert = refl;
  validate = refl;
  unseen = refl;
}

run_graph_total_example : (report : Report) × (run_graph weak none false fresh ≡ some report)
run_graph_total_example = run_graph_total weak none false fresh

run_graph-IsBounded_example : IsBounded caps spent.result.state
unfolding program
run_graph-IsBounded_example =
    run_graph-IsBounded caps weak none false fresh spent
      (record { same_caps = refl; steps = omega arith; cost = omega arith; loops = omega arith })
      run_graph-weak

run_graph-IsRecorded_example : IsRecorded fresh parked.result.state parked.log
run_graph-IsRecorded_example = run_graph-IsRecorded fresh happy none false parked run_graph-happy

run_graph-IsStated_example : IsStated spent.result
run_graph-IsStated_example = run_graph-IsStated weak false fresh spent run_graph-weak

resume_repeats_nothing_example : is_visited plan (started_nodes exported.log) ≡ false
unfolding program
resume_repeats_nothing_example =
    resume_repeats_nothing plan happy none parked.result.state exported refl run_graph-parked

gate_holds_example : IsUnpublished parked.log
unfolding program
gate_holds_example = gate_holds false happy none fresh parked refl run_graph-happy

fresh_draft-IsSound_example :
    verdicts parked.result.state ≡ record { blocked = false; weak_draft = false }
unfolding program
fresh_draft-IsSound_example =
    fresh_draft-IsSound happy none happy_repack happy_review fresh parked run_graph-happy refl

resumed_draft_unchecked_example :
    (resumed.result.interrupted ≡ true) × (verdicts resumed.result.state ≡ verdicts midway)
unfolding program
resumed_draft_unchecked_example =
    resumed_draft_unchecked quiet midway resumed quiet-IsFree (quiet_keeps generate)
      (quiet_keeps repack) (quiet_keeps review) midway-IsMidway (omega arith) run_graph-midway
