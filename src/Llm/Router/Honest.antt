-- ===== src/Llm/Router/Honest.antt =====
-- How `ModelRouter.complete` ends.
use socio_seo_agent.Prelude.{
  ℕ, ◌+◌, ◌<◌, String, ◌≡◌, refl, ap, sym, ◌∙◌, true, false, Option, none, some, List, [], ◌∷◌,
  ◌++◌, append-nil, append_assoc, arith, any, str_eq, Result, ok, err, All, All-append, Bool-cases,
  Option-cases, inl, inr,
}
use mathlib.Core.Path.{subst}
use socio_seo_agent.Llm.Contract.{
  Completion, Budget, can_afford, Fault, unpriced, retryable, Failure,
}
use socio_seo_agent.Llm.Pricing.{compute_usd, price_for, price_in, price_table}
use socio_seo_agent.Llm.Routes.{RouteEntry}
use socio_seo_agent.Llm.Router.{
  Call, Router, World, Reply, completed, budget_exceeded, unavailable, raised, all_failed,
  estimate_usd, guard, Attempt, ended, failed, answered, call_provider, guarded, check_budget,
  attempt, Request, call_for, provider_for, follow, resolve, complete,
}
use socio_seo_agent.Llm.Router.Reach.{
  Servable, Keeps, provider_for-Keeps, served, served-Servable, AllUsable, AllUsable-Keeps,
  resolve-AllUsable, Nonempty,
}

-- The provider and model of each failure.
unfoldable pub routes_of : List Failure → List RouteEntry
routes_of [] = []
routes_of (f ∷ fs) = record { provider = f.provider; model = f.model } ∷ routes_of fs

routes_of-append : (fs gs : List Failure) → routes_of (fs ++ gs) ≡ routes_of fs ++ routes_of gs
unfolding routes_of
routes_of-append [] gs = refl
routes_of-append (f ∷ fs) gs =
    ap (λ r. record { provider = f.provider; model = f.model } ∷ r) (routes_of-append fs gs)

-- What a reply says of a chain that was followed.
unfoldable pub Honest : List RouteEntry → Reply → Type 0
Honest chain (completed c) = Unit
Honest chain (budget_exceeded model limit spent estimated) = limit < estimated + spent
Honest chain (unavailable name) = ⊥
Honest chain (raised fault) = retryable fault ≡ false
Honest chain (all_failed fs) = (routes_of fs ≡ chain) × All (λ f. retryable f.error ≡ true) fs

HonestAttempt : List String → RouteEntry → Attempt → Type 0
HonestAttempt ps entry (ended reply v) = (chain : List RouteEntry) → Honest chain reply
HonestAttempt ps entry (failed f v) =
    (f.provider ≡ entry.provider)
    × (f.model ≡ entry.model)
    × (retryable f.error ≡ true)
    × Keeps ps v.providers

answered-Honest :
    (ps : List String) (entry : RouteEntry) (w : World) (r : Result Fault Completion)
    → Keeps ps w.providers
    → HonestAttempt ps entry (answered entry w r)
unfolding answered HonestAttempt Honest
answered-Honest ps entry w (ok c) k = λ chain. tt
answered-Honest ps entry w (err fault) k = elim (Bool-cases (retryable fault)) [
  | inl again ↦ rw (again, answered) (refl, refl, again, k)
  | inr over ↦ rw (over, answered) (λ chain. over)
]

reply_eq : {a b : Reply} → some a ≡ some b → a ≡ b
reply_eq e = cc

price_fault :
    (model : String) (a b : ℕ) (e : Fault) → compute_usd model a b ≡ err e → retryable e ≡ false
unfolding compute_usd price_for retryable
price_fault model a b e h = elim (Option-cases (price_in model price_table)) [
  | inl unknown ↦
      subst (λ f. retryable f ≡ false) (fault_eq {f = unpriced model} (ground arith)) refl
  | inr known ↦ absurd (never (ground arith))
]
  where
    fault_eq : {f : Fault} → ◌≡◌ {A = Result Fault ℕ} (err f) (err e) → f ≡ e
    fault_eq x = cc

    never : false ≡ true → ⊥
    never x = cc

guard_says :
    (model : String) (b : Budget) (r : Result Fault ℕ) (reply : Reply) (chain : List RouteEntry)
    → ((e : Fault) → r ≡ err e → retryable e ≡ false)
    → guard model b r ≡ some reply
    → Honest chain reply
unfolding guard Honest can_afford
guard_says model b (err fault) reply chain priced h =
    subst (Honest chain) (reply_eq h) (priced fault refl)
guard_says model b (ok estimate) reply chain priced h = elim (Bool-cases (can_afford estimate b)) [
  | inl fits ↦ absurd (never (ground arith))
  | inr over ↦
      subst (Honest chain)
        (reply_eq {a = budget_exceeded model b.limit_usd b.spent_usd estimate} (ground arith))
        (over_limit over)
]
  where
    never : false ≡ true → ⊥
    never x = cc

    over_limit : can_afford estimate b ≡ false → b.limit_usd < estimate + b.spent_usd
    over_limit o = ground arith

guard-Honest :
    (m : Router) (call : Call) (b : Option Budget) (reply : Reply) (chain : List RouteEntry)
    → check_budget m call b ≡ some reply
    → Honest chain reply
unfolding check_budget estimate_usd
guard-Honest m call none reply chain h = absurd (never h)
  where
    never : none ≡ some reply → ⊥
    never x = cc
guard-Honest m call (some b) reply chain h =
    guard_says call.entry.model b _ reply chain (λ e. price_fault call.entry.model _ _ e) h

guarded-Honest :
    (m : Router) (call : Call) (ps : List String) (w : World) (b : Option Budget)
    (raise : Option Reply)
    → check_budget m call b ≡ raise
    → Keeps ps w.providers
    → HonestAttempt ps call.entry (guarded m call w raise)
unfolding guarded HonestAttempt call_provider
guarded-Honest m call ps w b (some reply) e k = λ chain. guard-Honest m call b reply chain e
guarded-Honest m call ps w b none e k = answered-Honest ps call.entry _ _ k

attempt-Honest :
    (m : Router) (call : Call) (w : World) (found : Option (List String))
    → any (str_eq "fake") w.providers ≡ true
    → served m.resolver w.providers call.entry.provider ≡ true
    → provider_for m.resolver call.entry.provider w.providers ≡ found
    → HonestAttempt w.providers call.entry (attempt m call w found)
unfolding attempt Servable
attempt-Honest m call w none f u e =
    absurd (never (sym e ∙ (served-Servable m.resolver w.providers call.entry.provider f u).1))
  where
    never : {qs : List String} → none ≡ some qs → ⊥
    never x = cc
attempt-Honest m call w (some qs) f u e =
    guarded-Honest m call w.providers (record w { providers = qs }) w.budget _ refl
      (provider_for-Keeps m.resolver call.entry.provider w.providers qs e)

follow-Honest :
    (m : Router) (req : Request) (failures : List Failure) (chain : List RouteEntry) (w : World)
    → any (str_eq "fake") w.providers ≡ true
    → AllUsable m.resolver w.providers chain
    → All (λ f. retryable f.error ≡ true) failures
    → Honest (routes_of failures ++ chain) (follow m req failures chain w).0
unfolding follow Honest HonestAttempt AllUsable call_for Keeps routes_of
follow-Honest m req failures [] w f u again = (sym (append-nil (routes_of failures)), again)
follow-Honest m req failures (entry ∷ chain) w f u again =
    on_attempt
      (attempt m (call_for m req entry) w (provider_for m.resolver entry.provider w.providers))
      (attempt-Honest m (call_for m req entry) w _ f u.0 refl)
      (λ failure v. follow-Honest m req (failures ++ failure ∷ []) chain v)
  where
    pick : Attempt → Reply × World
    pick (ended reply v) = (reply, v)
    pick (failed failure v) = follow m req (failures ++ failure ∷ []) chain v

    chained :
        (failure : Failure)
        → failure.provider ≡ entry.provider
        → failure.model ≡ entry.model
        → routes_of (failures ++ failure ∷ []) ++ chain ≡ routes_of failures ++ entry ∷ chain
    chained failure p q =
        ap (λ r. r ++ chain) (routes_of-append failures (failure ∷ []))
        ∙ append_assoc (routes_of failures)
            (record { provider = failure.provider; model = failure.model } ∷ []) chain
        ∙ ap (λ e. routes_of failures ++ e ∷ chain) same
      where
        same : record { provider = failure.provider; model = failure.model } ≡ entry
        same = cc

    on_attempt :
        (a : Attempt)
        → HonestAttempt w.providers entry a
        → ((failure : Failure) (v : World)
            → any (str_eq "fake") v.providers ≡ true
            → AllUsable m.resolver v.providers chain
            → All (λ f. retryable f.error ≡ true) (failures ++ failure ∷ [])
            → Honest
                (routes_of (failures ++ failure ∷ []) ++ chain)
                (follow m req (failures ++ failure ∷ []) chain v).0)
        → Honest (routes_of failures ++ entry ∷ chain) (pick a).0
    on_attempt (ended reply v) h rest = h _
    on_attempt (failed failure v) h rest =
        subst (λ c. Honest c (pick (failed failure v)).0) (chained failure h.0 h.1)
          (rest failure v (h.3 "fake" f)
            (AllUsable-Keeps m.resolver w.providers v.providers chain f h.3 u.1)
            (All-append (λ f. retryable f.error ≡ true) failures (failure ∷ []) again (h.2, tt)))

-- A request is always answered by a chain, and the answer says how it ended: where the fake adapter
-- exists, the chain of a task is never empty, no configuration makes an adapter unavailable, a fault
-- that is raised is none that falls back, an exceeded budget is exceeded, and where all failed, the
-- failures are the whole chain in its order, each of them one that falls back.
pub complete-Honest :
    (m : Router) (req : Request) (w : World)
    → any (str_eq "fake") w.providers ≡ true
    → Nonempty (resolve m req.task w.providers).chain
      × Honest (resolve m req.task w.providers).chain (complete m req w).0
unfolding complete routes_of
complete-Honest m req w f =
    let r = resolve-AllUsable m req.task w.providers f in
    (r.1, follow-Honest m req [] (resolve m req.task w.providers).chain w f r.0 tt)
