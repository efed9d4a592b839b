-- ===== src/Agent/StateGraph/Engine.antt =====
-- A runtime that obeys LangGraph's documented execution, for concrete runs.
use socio_seo_agent.Prelude.{
  sym, Bool-cases, inl, inr, ℕ, zero, suc, ◌+◌, ◌≤◌, ◌≡◌, refl, ap, ◌∙◌, false, Option, none, some,
  [], ◌-◌, if◌then◌else◌, arith,
}
use socio_seo_agent.Agent.State.{AgentState}
use mathlib.Core.Option.{some-injective}
use socio_seo_agent.Agent.StateGraph.Keys.{IsFaithful}
use socio_seo_agent.Agent.StateGraph.{
  Place, Target, Point, Compiled, Snapshot, Ainvoke, IsDocumented, Reaches, start, superstep, to,
  graph_end, after_step,
}

unfoldable pub halted : Point → Option Place → Option Snapshot
halted point next = some (record { state = point.state; next = next; log = point.log })

unfoldable pub follow : Compiled → (Point → Option Snapshot) → Point → Target → Option Snapshot
unfolding halted
follow graph again point graph_end = halted point none
follow graph again point (to place) =
    if graph.interrupt_before place
    then halted point (some place)
    else again (after_step graph place point)

unfoldable pub drive : Compiled → ℕ → Point → Option Snapshot
unfolding follow
drive graph zero point = none
drive graph (suc fuel) point = follow graph (drive graph fuel) point point.target

unfoldable pub entered : Compiled → AgentState → Point
entered graph state = record { target = graph.entry state; state = state; log = [] }

unfoldable pub engine : ℕ → Ainvoke
unfolding drive entered
engine limit graph state = drive graph limit (entered graph state)

follow_step :
    (graph : Compiled) (again : Point → Option Snapshot) (place : Place) (point : Point)
    (target : Target)
    → target ≡ to place
    → graph.interrupt_before place ≡ false
    → follow graph again point target ≡ again (after_step graph place point)
unfolding follow
follow_step graph again place point target t i = rw (t, i, follow) refl

zero_add : (n : ℕ) → 0 + n ≡ n
zero_add n = omega arith

shift : (k fuel : ℕ) → suc k + fuel ≡ k + suc fuel
shift k fuel = omega arith

split : (limit k : ℕ) → suc k ≤ limit → limit ≡ k + suc (limit - suc k)
split limit k h = omega arith

drive-Reaches :
    (graph : Compiled) (state : AgentState) (k : ℕ) (point : Point) (fuel : ℕ)
    → Reaches graph state k point
    → drive graph (k + fuel) (entered graph state) ≡ drive graph fuel point
unfolding entered drive
drive-Reaches graph state k point fuel start = rw (zero_add fuel) refl
drive-Reaches graph state k point fuel (superstep k' place before r t i) =
    ap (λ n. drive graph n (entered graph state)) (shift k' fuel)
    ∙ drive-Reaches graph state k' before (suc fuel) r
    ∙ follow_step graph (drive graph fuel) place before before.target t i

-- With a limit above the super-steps, the engine stops where `follow` does.
engine_reaches :
    (limit : ℕ) (graph : Compiled) (state : AgentState) (k : ℕ) (point : Point)
    → Reaches graph state k point
    → suc k ≤ limit
    → engine limit graph state ≡ follow graph (drive graph (limit - suc k)) point point.target
unfolding engine drive
engine_reaches limit graph state k point r h =
    ap (λ n. drive graph n (entered graph state)) (split limit k h)
    ∙ drive-Reaches graph state k point (suc (limit - suc k)) r

pub engine-IsDocumented : (limit : ℕ) → IsDocumented limit (engine limit)
unfolding follow halted
engine-IsDocumented limit = record {
  finishes = λ graph state k point r h t.
      engine_reaches limit graph state k point r h
      ∙ ap (follow graph (drive graph (limit - suc k)) point) t;
  pauses = λ graph state k point place r h t i.
      engine_reaches limit graph state k point r h
      ∙ ap (follow graph (drive graph (limit - suc k)) point) t
      ∙ rw (i, follow) refl;
}

abbrev IsReached : Compiled → AgentState → Snapshot → Type 0
IsReached graph state final =
    (k : ℕ) × (point : Point) × Reaches graph state k point × (final.state ≡ point.state)

-- Whatever the engine returns is at a point that the invocation reached.
follow-IsReached :
    (graph : Compiled) (state : AgentState) (again : Point → Option Snapshot) (k : ℕ)
    (point : Point) (target : Target) (final : Snapshot)
    → ((place : Place)
        → point.target ≡ to place
        → graph.interrupt_before place ≡ false
        → again (after_step graph place point) ≡ some final
        → IsReached graph state final)
    → Reaches graph state k point
    → point.target ≡ target
    → follow graph again point target ≡ some final
    → IsReached graph state final
unfolding follow halted
follow-IsReached graph state again k point graph_end final on r t h =
    (k, point, r, sym (ap (λ (s : Snapshot). s.state) (some-injective _ final h)))
follow-IsReached graph state again k point (to place) final on r t h =
    elim (Bool-cases (graph.interrupt_before place)) [
      | inl armed ↦ (k, point, r, ground arith)
      | inr open_edge ↦ on place t open_edge (ground arith)
    ]

drive-IsReached :
    (graph : Compiled) (state : AgentState) (fuel k : ℕ) (point : Point) (final : Snapshot)
    → Reaches graph state k point
    → drive graph fuel point ≡ some final
    → IsReached graph state final
unfolding drive
drive-IsReached graph state zero k point final r h = absurd (ground arith)
drive-IsReached graph state (suc fuel) k point final r h =
    follow-IsReached graph state (drive graph fuel) k point point.target final
      (λ place t i e.
        drive-IsReached graph state fuel (suc k) (after_step graph place point) final
          (superstep k place point r t i) e)
      r refl h

pub engine-IsFaithful : (limit : ℕ) → IsFaithful (engine limit)
unfolding engine entered
engine-IsFaithful limit = record {
  reached = λ graph state final h.
      drive-IsReached graph state limit 0 (entered graph state) final start h;
}
