-- ===== src/Runs/Routes/Decisions.antt =====
-- When a request is granted, and what a decision on an executing run comes to.
use Prim.Native.Char.{Char}
use Prim.Native.String.{◌∷◌ as char_cons}
use socio_seo_agent.Prelude.{
  ℕ, String, ◌≡◌, ◌↔◌, refl, ap, sym, ◌∙◌, Bool, true, false, some, ◌==◌, str_eq, eq_iff,
  if◌then◌else◌, arith, inl, inr, Bool-cases, ok,
}
use socio_seo_agent.Strings.{concat, strip, lstrip, rstrip}
use socio_seo_agent.Agent.State.{AgentState, approve}
use socio_seo_agent.Runs.{Run, Store, concat}
use socio_seo_agent.Runs.Service.{
  find_run, change, record_approval, approve_checkpoint, with_checkpoint,
}
use socio_seo_agent.Runs.Service.Rows.{KeepsId, find_run-id, find_run-change}
use socio_seo_agent.Runs.Routes.{
  World, require_own_run, is_parked, resubmit, resume_run, resume_checked, approver_name,
  approve_run, approve_checked, approve_recorded,
}
use socio_seo_agent.Runs.Routes.Granted.{IsOwn, IsResumable, resume_run-IsResumable, approved}

own_found :
    (run_id business_id : ℕ) (s : Store) (run : Run)
    → IsOwn run_id business_id s run
    → require_own_run run_id business_id s ≡ ok run
unfolding require_own_run
own_found run_id business_id s run own = rw (own.found, own.owner, require_own_run) refl

resume_granted :
    (run_id business_id : ℕ) (exceeded : Bool) (w : World) (run : Run)
    → IsResumable run_id business_id exceeded w run
    → resume_run run_id business_id exceeded w ≡ ok (resubmit run business_id w)
unfolding resume_run resume_checked
resume_granted run_id business_id exceeded w run r =
    rw (own_found run_id business_id w.store run r.own, resume_run)
      (rw (r.unfinished, r.idle, r.unparked, r.affordable, resume_checked) refl)

-- `resume_run` is granted exactly where the run is the caller's, has no final state, is not executing
-- in this process, is not parked for a person, and the month's ceiling is not exceeded; and then it
-- hands the run to the executor.
pub resume_run-Decides :
    (run_id business_id : ℕ) (exceeded : Bool) (w changed : World)
    → (resume_run run_id business_id exceeded w ≡ ok changed) ↔ (
        (run : Run) × IsResumable run_id business_id exceeded w run
        × (changed ≡ resubmit run business_id w))
resume_run-Decides run_id business_id exceeded w changed = (
  resume_run-IsResumable run_id business_id exceeded w changed,
  λ granted.
      let (run, r, after) = granted in
      resume_granted run_id business_id exceeded w run r ∙ ap ok (sym after),
)

some_text : (c : Char) (text : String) → str_eq (char_cons c text) "" ≡ false
some_text c text = elim (Bool-cases (str_eq (char_cons c text) "")) [
  | inl e ↦ absurd (apart ((eq_iff (char_cons c text) "").0 e))
  | inr e ↦ e
]
  where
    apart : char_cons c text ≡ "" → ⊥
    apart e = cc

named : (user : String) → str_eq (strip (approver_name user)) "" ≡ false
unfolding strip lstrip rstrip approver_name concat
named user = some_text "u" (concat "ser:" (rstrip user))

approval_recorded :
    (run : Run) (user : String) (s store : Store) (state : AgentState)
    → find_run run.id s.runs ≡ some run
    → run.checkpoint ≡ some state
    → change run.id (λ row. record row { checkpoint = some (approved state user) }) s ≡ some store
    → record_approval run.id (approver_name user) s ≡ some (true, store)
unfolding record_approval approve_checkpoint with_checkpoint approve
approval_recorded run user s store state found had stored =
    rw (found, record_approval)
      (rw (had, named user, approve_checkpoint, approve) (rw (stored, with_checkpoint) refl))

pub approval_granted :
    (run_id : ℕ) (user : String) (business_id : ℕ) (w : World) (run : Run) (state : AgentState)
    (store : Store)
    → IsOwn run_id business_id w.store run
    → is_parked run.state ≡ true
    → run.checkpoint ≡ some state
    → change run.id (λ row. record row { checkpoint = some (approved state user) }) w.store
      ≡ some store
    → approve_run run_id user business_id w
      ≡ ok (resubmit run business_id (record w { store = store }))
unfolding approve_run approve_checked approve_recorded
approval_granted run_id user business_id w run state store own parked had stored =
    let known =
      ap (λ n. find_run n w.store.runs) (find_run-id run_id w.store.runs run own.found)
      ∙ own.found in
    rw (own_found run_id business_id w.store run own, approve_run)
      (rw
        (
          parked,
          approval_recorded run user w.store store state known had stored,
          approve_checked,
          approve_recorded,
        )
        refl)

-- The row behind a change, found by the identifier that the caller knows it by.
pub changed_row :
    (run_id : ℕ) (f : Run → Run) (s t : Store) (run : Run)
    → KeepsId f
    → find_run run_id s.runs ≡ some run
    → change run.id f s ≡ some t
    → find_run run_id t.runs ≡ some (f run)
changed_row run_id f s t run k found h =
    let i = find_run-id run_id s.runs run found in
    find_run-change run.id f s t run_id k h ∙ rw (found) (here i)
  where
    here : run.id ≡ run_id → (if run.id == run_id then some (f run) else some run) ≡ some (f run)
    here i = ground arith
