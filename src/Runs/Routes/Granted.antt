-- ===== src/Runs/Routes/Granted.antt =====
-- What a granted request found, and what it changed.
use socio_seo_agent.Prelude.{
  ℕ, String, ◌≡◌, refl, ap, sym, ◌∙◌, Bool, true, false, Option, none, some, List, ◌==◌, arith, inl,
  inr, Bool-cases, Option-cases, Result, ok, Result-cases,
}
use socio_seo_agent.Json.{text, insert}
use socio_seo_agent.Strings.{strip}
use socio_seo_agent.Agent.State.{AgentState, approve}
use socio_seo_agent.Runs.{Run, Store, rejected, finish}
use socio_seo_agent.Runs.Service.{
  start, find_run, change, record_approval, approve_checkpoint, with_checkpoint,
}
use socio_seo_agent.Runs.Service.Rows.{find_run-id}
use socio_seo_agent.Runs.Executor.{is_running, submit}
use socio_seo_agent.Runs.Routes.{
  World, require_own_run, is_finished, is_parked, resubmit, resume_run, resume_checked,
  approver_name, start_run, approve_run, approve_checked, approve_recorded, reject_run,
  reject_checked,
}

-- The caller's own run.
pub record IsOwn (run_id business_id : ℕ) (s : Store) (run : Run) : Type 0 where
  pub found : find_run run_id s.runs ≡ some run
  pub owner : (run.business_id == business_id) ≡ true

pub require_own_run-IsOwn :
    (run_id business_id : ℕ) (s : Store) (run : Run)
    → require_own_run run_id business_id s ≡ ok run
    → IsOwn run_id business_id s run
unfolding require_own_run
require_own_run-IsOwn run_id business_id s run h = ground arith

-- The state with the approver's name.
abbrev pub approved : AgentState → String → AgentState
approved state user = record state {
  contents = insert "approved_by" (text (strip (approver_name user))) state.contents;
}

pub record IsApproved (run_id : ℕ) (user : String) (business_id : ℕ) (w changed : World)
    : Type 0 where
  pub run : Run
  pub own : IsOwn run_id business_id w.store run
  pub parked : is_parked run.state ≡ true
  pub state : AgentState
  pub had : run.checkpoint ≡ some state
  pub store : Store
  pub stored :
      change run.id (λ row. record row { checkpoint = some (approved state user) }) w.store
      ≡ some store
  pub after : changed ≡ resubmit run business_id (record w { store = store })

ok_eq {ℓ κ} : {E : Type ℓ} {A : Type κ} {x y : A} → ◌≡◌ {A = Result E A} (ok x) (ok y) → x ≡ y
ok_eq e = cc

recorded :
    (run : Run) (business_id : ℕ) (r : Option (Bool × Store)) (w changed : World)
    → approve_recorded run business_id r w ≡ ok changed
    → (store : Store) × (r ≡ some (true, store))
      × (changed ≡ resubmit run business_id (record w { store = store }))
unfolding approve_recorded
recorded run business_id (some (true, s)) w changed h = (s, refl, sym (ok_eq h))
recorded run business_id (some (false, s)) w changed h = absurd (ground arith)
recorded run business_id none w changed h = absurd (ground arith)

with_checkpoint_eq :
    (run_id : ℕ) (state : AgentState) (s store : Store)
    → with_checkpoint run_id state s ≡ some (true, store)
    → change run_id (λ row. record row { checkpoint = some state }) s ≡ some store
unfolding with_checkpoint
with_checkpoint_eq run_id state s store h = ground arith

approve_checkpoint_eq :
    (run_id : ℕ) (user : String) (found : Option AgentState) (s store : Store)
    → approve_checkpoint run_id (approver_name user) found s ≡ some (true, store)
    → (state : AgentState) × (found ≡ some state)
      × (change run_id (λ row. record row { checkpoint = some (approved state user) }) s
          ≡ some store)
unfolding approve_checkpoint approve
approve_checkpoint_eq run_id user none s store h = absurd (ground arith)
approve_checkpoint_eq run_id user (some state) s store h =
    (state, refl, with_checkpoint_eq run_id (approved state user) s store (ground arith))

record_approval_eq :
    (run : Run) (user : String) (s store : Store)
    → find_run run.id s.runs ≡ some run
    → record_approval run.id (approver_name user) s ≡ some (true, store)
    → (state : AgentState) × (run.checkpoint ≡ some state)
      × (change run.id (λ row. record row { checkpoint = some (approved state user) }) s
          ≡ some store)
unfolding record_approval
record_approval_eq run user s store f h =
    approve_checkpoint_eq run.id user run.checkpoint s store
      (sym (rw (f, record_approval) refl) ∙ h)

pub approve_run-IsApproved :
    (run_id : ℕ) (user : String) (business_id : ℕ) (w changed : World)
    → approve_run run_id user business_id w ≡ ok changed
    → IsApproved run_id user business_id w changed
unfolding approve_run approve_checked
approve_run-IsApproved run_id user business_id w changed h =
    elim (Result-cases (require_own_run run_id business_id w.store)) [
      | inl (run, e) ↦
          let own = require_own_run-IsOwn run_id business_id w.store run e in
          let known =
            ap (λ n. find_run n w.store.runs) (find_run-id run_id w.store.runs run own.found)
            ∙ own.found in
          elim (Bool-cases (is_parked run.state)) [
            | inl parked ↦
                let (store, r, after) =
                  recorded run business_id (record_approval run.id (approver_name user) w.store) w
                    changed (granted_of run e parked) in
                let (state, had, stored) = record_approval_eq run user w.store store known r in
                record {
                  run = run;
                  own = own;
                  parked = parked;
                  state = state;
                  had = had;
                  store = store;
                  stored = stored;
                  after = after;
                }
            | inr e' ↦ absurd (ground arith)
          ]
      | inr (refusal, e) ↦ absurd (ground arith)
    ]
  where
    granted_of :
        (run : Run)
        → require_own_run run_id business_id w.store ≡ ok run
        → is_parked run.state ≡ true
        → approve_recorded run business_id (record_approval run.id (approver_name user) w.store) w
          ≡ ok changed
    granted_of run e p = sym (rw (e, approve_run) (rw (p, approve_checked) refl)) ∙ h

pub start_run_eq :
    (run_id business_id : ℕ) (goal : String) (channels : List String) (exceeded : Bool)
    (w changed : World)
    → start_run run_id business_id goal channels exceeded w ≡ ok changed
    → changed ≡ record {
      store = start run_id business_id goal channels w.store;
      executor = submit run_id business_id goal false w.executor;
    }
unfolding start_run
start_run_eq run_id business_id goal channels true w changed h = absurd (ground arith)
start_run_eq run_id business_id goal channels false w changed h = sym (ok_eq h)

-- What a granted resume found: the caller's run, not over, not parked and not executing here, and
-- the month's ceiling not exceeded.
pub record IsResumable (run_id business_id : ℕ) (exceeded : Bool) (w : World) (run : Run)
    : Type 0 where
  pub own : IsOwn run_id business_id w.store run
  pub unfinished : is_finished run.state ≡ false
  pub idle : is_running run.id w.executor ≡ false
  pub unparked : is_parked run.state ≡ false
  pub affordable : exceeded ≡ false

pub resume_run-IsResumable :
    (run_id business_id : ℕ) (exceeded : Bool) (w changed : World)
    → resume_run run_id business_id exceeded w ≡ ok changed
    → (run : Run) × IsResumable run_id business_id exceeded w run
      × (changed ≡ resubmit run business_id w)
unfolding resume_run resume_checked
resume_run-IsResumable run_id business_id exceeded w changed h =
    elim (Result-cases (require_own_run run_id business_id w.store)) [
      | inl (run, e) ↦
          let checked : resume_checked run business_id exceeded w ≡ ok changed =
            sym (rw (e, resume_run) refl) ∙ h in
          (
            run,
            record {
              own = require_own_run-IsOwn run_id business_id w.store run e;
              unfinished = ground arith;
              idle = ground arith;
              unparked = ground arith;
              affordable = ground arith;
            },
            ground arith,
          )
      | inr (refusal, e) ↦ absurd (ground arith)
    ]

pub record IsRejected (run_id business_id : ℕ) (reason : String) (w changed : World) : Type 0 where
  pub run : Run
  pub own : IsOwn run_id business_id w.store run
  pub parked : is_parked run.state ≡ true
  pub store : Store
  pub stored : finish run.id rejected (some reason) w.store ≡ some store
  pub after : changed ≡ record w { store = store }

pub reject_run-IsRejected :
    (run_id business_id : ℕ) (reason : String) (w changed : World)
    → reject_run run_id business_id reason w ≡ ok changed
    → IsRejected run_id business_id reason w changed
unfolding reject_run reject_checked
reject_run-IsRejected run_id business_id reason w changed h =
    elim (Result-cases (require_own_run run_id business_id w.store)) [
      | inl (run, e) ↦ elim (Option-cases (finish run.id rejected (some reason) w.store)) [
        | inl raised ↦ absurd (ground arith)
        | inr (store, f) ↦ record {
          run = run;
          own = require_own_run-IsOwn run_id business_id w.store run e;
          parked = ground arith;
          store = store;
          stored = f;
          after = ground arith;
        }
      ]
      | inr (refusal, e) ↦ absurd (ground arith)
    ]
