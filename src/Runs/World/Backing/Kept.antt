-- ===== src/Runs/World/Backing/Kept.antt =====
-- What the store's operations and a task's start leave backed.
use socio_seo_agent.Prelude.{
  ℕ, String, ◌≡◌, refl, sym, ◌∙◌, Option, none, some, List, arith, inl, inr, Option-cases,
}
use mathlib.Core.Path.{subst}
use mathlib.Core.Option.{some-injective}
use socio_seo_agent.Json.{Json, num, get, insert, truthy, get-insert}
use socio_seo_agent.Agent.State.{AgentState, Reason, NodeName}
use socio_seo_agent.Agent.State as State
use socio_seo_agent.Runs.{Run, RunState, Store, finish}
use socio_seo_agent.Runs.Service.{find_run, change, checkpoint, mark_resumed, restore}
use socio_seo_agent.Runs.Service.Rows.{KeepsId, Rows, change-Rows}
use socio_seo_agent.Runs.Executor.{fresh_state}
use socio_seo_agent.Runs.World.{Approval}
use socio_seo_agent.Runs.World.Backing.{is_authorised, is_backed, StateBacked, RowBacked}

module _ (given : List Approval) where
  -- A change of a row that leaves its checkpoint.
  pub kept_checkpoint :
      (run_id : ℕ) (f : Run → Run) (s t : Store)
      → KeepsId f
      → ((run : Run) → (f run).checkpoint ≡ run.checkpoint)
      → change run_id f s ≡ some t
      → Rows (RowBacked given) s
      → Rows (RowBacked given) t
  kept_checkpoint run_id f s t k c h =
      change-Rows (RowBacked given) run_id f s t k
        (λ run _ backed state e. backed state (sym (c run) ∙ e)) h

  pub finish-Backed :
      (run_id : ℕ) (outcome : RunState) (reason : Option String) (s t : Store)
      → finish run_id outcome reason s ≡ some t
      → Rows (RowBacked given) s
      → Rows (RowBacked given) t
  unfolding finish change
  finish-Backed run_id outcome reason s t h =
      kept_checkpoint run_id _ s t (record { id = λ run. refl }) (λ run. refl) h

  pub checkpoint-Backed :
      (run_id : ℕ) (state : AgentState) (current_node : Option NodeName) (s t : Store)
      → StateBacked given run_id state
      → checkpoint run_id state current_node s ≡ some t
      → Rows (RowBacked given) s
      → Rows (RowBacked given) t
  unfolding checkpoint
  checkpoint-Backed run_id state current_node s t h =
      change-Rows (RowBacked given) run_id _ s t (record { id = λ run. refl })
        (λ run _ backed saved e. subst (StateBacked given run_id) (some-injective _ _ e) h)

  pub fresh-StateBacked :
      (lower : String → String) (run_id business_id : ℕ) (goal : String) (channels : Json) (j : ℕ)
      → StateBacked given j (fresh_state lower business_id goal run_id channels)
  unfolding fresh_state State.new_state is_backed is_authorised truthy get
  fresh-StateBacked lower run_id business_id goal channels j = refl

  pub restored_backed :
      (j k : ℕ) (state : AgentState)
      → StateBacked given j state
      → StateBacked given j (record state { contents = insert "run_id" (num k) state.contents })
  restored_backed j k state h = rw (get-insert "run_id" "approved_by" (num k) state.contents) h

  pub restore-Backed :
      (run_id : ℕ) (s : Store) (state : AgentState)
      → Rows (RowBacked given) s
      → restore run_id s ≡ some state
      → StateBacked given run_id state
  unfolding restore
  restore-Backed run_id s state rows h = elim (Option-cases (find_run run_id s.runs)) [
    | inl e ↦ absurd (unknown e)
    | inr (run, e) ↦ rows run_id run e state (sym (rw (e, restore) refl) ∙ h)
  ]
    where
      unknown : find_run run_id s.runs ≡ none → ⊥
      unknown e = ground arith

  pub marked-Backed :
      (run_id : ℕ) (s t : Store)
      → mark_resumed run_id s ≡ some t
      → Rows (RowBacked given) s
      → Rows (RowBacked given) t
  unfolding mark_resumed
  marked-Backed run_id s t h =
      kept_checkpoint run_id _ s t (record { id = λ run. refl }) (λ run. refl) h
