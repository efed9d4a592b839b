-- ===== src/Llm/Router/Guard.antt =====
-- The budget guard of `ModelRouter.complete`, and what it books.
use socio_seo_agent.Prelude.{
  ℕ, ◌+◌, ◌≤◌, String, ◌≡◌, refl, ap, sym, ◌∙◌, Option, none, some, List, [], ◌∷◌, ◌++◌, arith,
  leb→le, Result, ok, err, All, All-append, Bool-cases, inl, inr,
}
use socio_seo_agent.Llm.Contract.{
  Usage, Completion, Budget, can_afford, record_usage, Fault, retryable, Failure,
}
use socio_seo_agent.Llm.Routes.{RouteEntry}
use socio_seo_agent.Llm.Router.{
  Call, Router, World, Reply, completed, budget_exceeded, unavailable, raised, all_failed,
  estimate_usd, guard, Attempt, ended, failed, book, answered, call_provider, guarded, check_budget,
  attempt, Request, call_for, provider_for, follow, resolve, complete,
}

-- The call's estimate fits in what is left of the budget.
pub record IsAffordable (m : Router) (b : Budget) (call : Call) : Type 0 where
  pub estimate : ℕ
  pub estimated :
      estimate_usd m call.entry.model call.messages call.tools call.max_tokens ≡ ok estimate
  pub fits : estimate + b.spent_usd ≤ b.limit_usd

-- What a reply leaves in the budget, and what it hands to the sink.
unfoldable pub spent_by : Reply → Budget → Budget
unfolding record_usage
spent_by (completed c) b = record_usage c.usage b
spent_by _ b = b

unfoldable pub sunk_by : Reply → List Usage → List Usage
sunk_by (completed c) sunk = sunk ++ c.usage ∷ []
sunk_by _ sunk = sunk

pub record IsGuarded (m : Router) (b : Budget) (w : World) (result : Reply × World) : Type 0 where
  pub calls : All (IsAffordable m b) w.calls → All (IsAffordable m b) result.1.calls
  pub budget : result.1.budget ≡ some (spent_by result.0 b)
  pub sunk : result.1.sunk ≡ sunk_by result.0 w.sunk

record IsPending (m : Router) (b : Budget) (w v : World) : Type 0 where
  calls : All (IsAffordable m b) w.calls → All (IsAffordable m b) v.calls
  budget : v.budget ≡ some b
  sunk : v.sunk ≡ w.sunk

GuardsAttempt : Router → Budget → World → Attempt → Type 0
GuardsAttempt m b w (ended reply v) = IsGuarded m b w (reply, v)
GuardsAttempt m b w (failed failure v) = IsPending m b w v

guard_passes :
    (model : String) (b : Budget) (r : Result Fault ℕ)
    → guard model b r ≡ none
    → (estimate : ℕ) × (r ≡ ok estimate) × (estimate + b.spent_usd ≤ b.limit_usd)
unfolding guard can_afford
guard_passes model b (err fault) h = ground arith
guard_passes model b (ok estimate) h =
    (estimate, refl, ground (arith, leb→le (estimate + b.spent_usd) b.limit_usd))

guard_affords :
    (m : Router) (call : Call) (b : Budget)
    → check_budget m call (some b) ≡ none
    → IsAffordable m b call
unfolding check_budget
guard_affords m call b h =
    let passed =
      guard_passes call.entry.model b
        (estimate_usd m call.entry.model call.messages call.tools call.max_tokens) h in
    record { estimate = passed.0; estimated = passed.1; fits = passed.2 }

answered_guards :
    (m : Router) (b : Budget) (w v : World) (entry : RouteEntry) (r : Result Fault Completion)
    → (All (IsAffordable m b) w.calls → All (IsAffordable m b) v.calls)
    → v.budget ≡ some b
    → v.sunk ≡ w.sunk
    → GuardsAttempt m b w (answered entry v r)
unfolding answered GuardsAttempt book spent_by sunk_by
answered_guards m b w v entry (ok c) calls budget sunk = record {
  calls = calls;
  budget = ap (book c.usage) budget;
  sunk = ap (λ s. s ++ c.usage ∷ []) sunk;
}
answered_guards m b w v entry (err fault) calls budget sunk = elim (Bool-cases (retryable fault)) [
  | inl again ↦ rw (again, answered) (record { calls = calls; budget = budget; sunk = sunk })
  | inr over ↦ rw (over, answered) (record { calls = calls; budget = budget; sunk = sunk })
]

guard_raises :
    (model : String) (b : Budget) (r : Result Fault ℕ) (reply : Reply)
    → guard model b r ≡ some reply
    → (c : Budget) → (sunk : List Usage) → (spent_by reply c ≡ c) × (sunk_by reply sunk ≡ sunk)
unfolding guard spent_by sunk_by
guard_raises model b r (completed x) h c sunk = absurd (never r h)
  where
    never : (r : Result Fault ℕ) → guard model b r ≡ some (completed x) → ⊥
    never (err fault) e = ground arith
    never (ok estimate) e = ground arith
guard_raises model b r (budget_exceeded _ _ _ _) h c sunk = (refl, refl)
guard_raises model b r (unavailable _) h c sunk = (refl, refl)
guard_raises model b r (raised _) h c sunk = (refl, refl)
guard_raises model b r (all_failed _) h c sunk = (refl, refl)

guarded_guards :
    (m : Router) (b : Budget) (call : Call) (w : World) (providers : List String)
    (raise : Option Reply)
    → check_budget m call (some b) ≡ raise
    → w.budget ≡ some b
    → GuardsAttempt m b w (guarded m call (record w { providers = providers }) raise)
unfolding guarded GuardsAttempt call_provider check_budget
guarded_guards m b call w providers (some reply) e h = record {
  calls = λ x. x;
  budget = h ∙ ap some (sym (raises b w.sunk).0);
  sunk = sym (raises b w.sunk).1;
}
  where
    raises : (c : Budget) (sunk : List Usage) → (spent_by reply c ≡ c) × (sunk_by reply sunk ≡ sunk)
    raises c sunk = guard_raises call.entry.model b _ reply e c sunk
guarded_guards m b call w providers none e h =
    answered_guards m b w _ call.entry _
      (λ x. All-append (IsAffordable m b) w.calls (call ∷ []) x (guard_affords m call b e, tt)) h
      refl

attempt_guards :
    (m : Router) (b : Budget) (call : Call) (w : World) (found : Option (List String))
    → w.budget ≡ some b
    → GuardsAttempt m b w (attempt m call w found)
unfolding attempt GuardsAttempt spent_by sunk_by
attempt_guards m b call w none h = record { calls = λ x. x; budget = h; sunk = refl }
attempt_guards m b call w (some providers) h =
    guarded_guards m b call w providers (check_budget m call w.budget)
      (ap (check_budget m call) (sym h)) h

follow_guards :
    (m : Router) (b : Budget) (req : Request) (failures : List Failure) (chain : List RouteEntry)
    (w : World)
    → w.budget ≡ some b
    → IsGuarded m b w (follow m req failures chain w)
unfolding follow GuardsAttempt spent_by sunk_by
follow_guards m b req failures [] w h = record { calls = λ x. x; budget = h; sunk = refl }
follow_guards m b req failures (entry ∷ chain) w h =
    on_attempt
      (attempt m (call_for m req entry) w (provider_for m.resolver entry.provider w.providers))
      (attempt_guards m b (call_for m req entry) w _ h)
      (λ failure v g. follow_guards m b req (failures ++ failure ∷ []) chain v g)
  where
    on_attempt :
        (a : Attempt)
        → GuardsAttempt m b w a
        → ((failure : Failure) (v : World)
            → v.budget ≡ some b
            → IsGuarded m b v (follow m req (failures ++ failure ∷ []) chain v))
        → IsGuarded m b w (elim a [
          | ended reply v ↦ (reply, v)
          | failed failure v ↦ follow m req (failures ++ failure ∷ []) chain v
        ])
    on_attempt (ended reply v) g rest_of = g
    on_attempt (failed failure v) g rest_of =
        let rest = rest_of failure v g.budget in
        record {
          calls = λ x. rest.calls (g.calls x);
          budget = rest.budget;
          sunk =
              rest.sunk ∙ ap (sunk_by (follow m req (failures ++ failure ∷ []) chain v).0) g.sunk;
        }

-- The guard stands before the money: with a budget, every call that complete makes had an estimate
-- that fit in what was left, a completion books exactly its usage and hands it to the sink once, and
-- every other reply leaves the budget and the sink as they were.
pub complete-IsGuarded :
    (m : Router) (b : Budget) (req : Request) (w : World)
    → w.budget ≡ some b
    → IsGuarded m b w (complete m req w)
unfolding complete
complete-IsGuarded m b req w h = follow_guards m b req [] (resolve m req.task w.providers).chain w h
