-- ===== src/Agent/Verdicts.antt =====
-- backend/app/agents/graph.py: the verdicts and the exits that both drivers share.
use socio_seo_agent.Prelude.{
  String, Bool, true, false, not, ◌&&◌, ◌||◌, Option, none, some, List, [], ◌∷◌, str_eq,
  if◌then◌else◌,
}
use mathlib.Core.List.{reverse}
use socio_seo_agent.Json.{Json, Fields, end, obj, get, truthy, is_false}
use socio_seo_agent.Agent.State.{
  AgentState, NodeName, NodeError, Outcome, Reason, CapExceeded, generate, opportunity, review,
  same, is_visited, opportunity_failed, no_opportunity, claims_blocked, weak_quality, cap_reached,
}

-- value or {}, of a value that is a dict or absent
unfoldable pub dict_of : Option Json → Fields
dict_of (some (obj fs)) = fs
dict_of _ = end

-- state.get(key) or {}
unfoldable pub dict_at : String → Fields → Fields
unfolding get dict_of
dict_at key contents = dict_of (get key contents)

-- bool(state.get(key))
unfoldable pub truthy_at : String → Fields → Bool
unfolding get truthy
truthy_at key contents = elim (get key contents) [ some v ↦ truthy v | none ↦ false ]

unfoldable pub resumable_skip : AgentState → NodeName → Bool
unfolding is_visited
resumable_skip state node =
    if not (is_visited node state.visited)
    then false
    else if not (same node generate)
    then true
    else is_visited review state.visited

latest_failure : NodeName → List NodeError → Option String
latest_failure node [] = none
latest_failure node (error ∷ earlier) =
    if same error.node node && str_eq error.code "node_failed"
    then some error.message
    else latest_failure node earlier

-- The message of the node's own latest crash, if it crashed.
unfoldable pub node_failure : AgentState → NodeName → Option String
unfolding latest_failure same
node_failure state node = latest_failure node (reverse state.errors)

pub record Verdict : Type 0 where
  pub blocked : Bool
  pub weak_draft : Bool

-- The verdicts on a SEO report and a claim check.
unfoldable pub judge : Fields → Fields → Verdict
unfolding truthy_at get truthy is_false
judge report claims =
    let failed : Bool = elim (get "passed" claims) [ some v ↦ is_false v | none ↦ false ] in
    let blocked = truthy (obj claims) && failed in
    record { blocked = blocked; weak_draft = blocked || not (truthy_at "passed" report) }

unfoldable pub verdicts : AgentState → Verdict
unfolding dict_at judge
verdicts state = judge (dict_at "seo_report" state.contents) (dict_at "claim_check" state.contents)

-- The updates of an exit: an outcome, a reason, and for a forbidden claim the block.
unfoldable pub finish : AgentState → Outcome → Reason → AgentState
finish state outcome reason = record state { outcome = outcome; finished_reason = some reason }

-- `opportunity_exit`, merged into the state; `none` is to carry on.
unfoldable pub opportunity_exit : AgentState → Option AgentState
unfolding truthy_at finish node_failure
opportunity_exit state =
    if truthy_at "opportunity" state.contents then none else elim (node_failure state opportunity) [
      | some failure ↦ some (finish state Outcome.partial (opportunity_failed failure))
      | none ↦ some (finish state Outcome.done no_opportunity)
    ]

unfoldable pub validate_exit : AgentState → Bool → AgentState
unfolding dict_at get finish
validate_exit state blocked =
    let report = dict_at "seo_report" state.contents in
    let claims = dict_at "claim_check" state.contents in
    if blocked
    then finish (record state { publication_blocked = true }) Outcome.partial
        (claims_blocked state.validate_loops (get "hits" claims))
    else finish state Outcome.partial (weak_quality (get "score" report) state.validate_loops)

unfoldable pub cap_exit : AgentState → CapExceeded → AgentState
unfolding finish
cap_exit state exceeded = finish state Outcome.partial (cap_reached exceeded.cap exceeded.limit)
