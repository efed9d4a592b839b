-- ===== src/RateLimit/Gate/Balance.antt =====
-- What the gate of backend/app/core/rate_limit.py bounds, and what it does not.
use mathlib.Core.Path.{subst}
use socio_seo_agent.Prelude.{
  ℕ, zero, suc, ◌+◌, ◌≤◌, ◌≡◌, ◌⊎◌, refl, ap, sym, List, [], ◌∷◌, ◌++◌, arith, leb, leb→le,
  Bool-cases, inl, inr,
}
use socio_seo_agent.RateLimit.Gate.{
  Call, queued, handed, working, abandoned, over, Gate, begin_work, finish_work, Step, arrive,
  acquire, thread_starts, withdraw, leave, abandon, thread_ends, cancel, Reach, here, next,
  new_gate, holding, threads,
}

holding-append : (xs ys : List Call) → holding (xs ++ ys) ≡ holding xs + holding ys
unfolding holding
holding-append [] ys = omega arith
holding-append (queued ∷ xs) ys = holding-append xs ys
holding-append (handed ∷ xs) ys = omega (arith, holding-append xs ys)
holding-append (working ∷ xs) ys = omega (arith, holding-append xs ys)
holding-append (abandoned ∷ xs) ys = holding-append xs ys
holding-append (over ∷ xs) ys = holding-append xs ys

holding_at :
    (before after : List Call) (c : Call)
    → holding (before ++ c ∷ after) ≡ holding before + (holding (c ∷ []) + holding after)
unfolding holding
holding_at before after queued = rw holding-append (omega arith)
holding_at before after handed = rw holding-append (omega arith)
holding_at before after working = rw holding-append (omega arith)
holding_at before after abandoned = rw holding-append (omega arith)
holding_at before after over = rw holding-append (omega arith)

-- The gate's books.
pub record IsBalanced (limit : ℕ) (g : Gate) : Type 0 where
  pub permits : g.permits + holding g.calls ≡ limit
  pub in_flight : g.in_flight ≡ holding g.calls
  pub peak : g.peak_in_flight ≤ limit
  pub below_peak : g.in_flight ≤ g.peak_in_flight

Step-IsBalanced :
    (pool limit : ℕ) (g h : Gate) → Step pool g h → IsBalanced limit g → IsBalanced limit h
unfolding begin_work finish_work holding
Step-IsBalanced pool limit g h (arrive eq) b = subst (IsBalanced limit) (sym eq) (record {
  permits = b.permits;
  in_flight = b.in_flight;
  peak = b.peak;
  below_peak = b.below_peak;
})
Step-IsBalanced pool limit g h (acquire before after at free eq) b =
    let was = ap holding at in
    let is = holding_at before after queued in
    let becomes = holding_at before after handed in
    subst (IsBalanced limit) (sym eq) (record {
      permits = omega (arith, b.permits, was, is, becomes);
      in_flight = omega (arith, b.in_flight, was, is, becomes);
      peak = ground (arith, b.permits, b.in_flight, b.peak, was, is);
      below_peak = ground (arith, b.below_peak);
    })
Step-IsBalanced pool limit g h (thread_starts before after at room eq) b =
    let was = ap holding at in
    let is = holding_at before after handed in
    let becomes = holding_at before after working in
    subst (IsBalanced limit) (sym eq) (record {
      permits = omega (arith, b.permits, was, is, becomes);
      in_flight = omega (arith, b.in_flight, was, is, becomes);
      peak = b.peak;
      below_peak = b.below_peak;
    })
Step-IsBalanced pool limit g h (leave before after at eq) b =
    let was = ap holding at in
    let is = holding_at before after working in
    let becomes = holding_at before after over in
    subst (IsBalanced limit) (sym eq) (record {
      permits = omega (arith, b.permits, was, is, becomes);
      in_flight = omega (arith, b.in_flight, was, is, becomes);
      peak = b.peak;
      below_peak = omega (arith, b.below_peak);
    })
Step-IsBalanced pool limit g h (withdraw before after at eq) b =
    let was = ap holding at in
    let is = holding_at before after handed in
    let becomes = holding_at before after over in
    subst (IsBalanced limit) (sym eq) (record {
      permits = omega (arith, b.permits, was, is, becomes);
      in_flight = omega (arith, b.in_flight, was, is, becomes);
      peak = b.peak;
      below_peak = omega (arith, b.below_peak);
    })
Step-IsBalanced pool limit g h (abandon before after at eq) b =
    let was = ap holding at in
    let is = holding_at before after working in
    let becomes = holding_at before after abandoned in
    subst (IsBalanced limit) (sym eq) (record {
      permits = omega (arith, b.permits, was, is, becomes);
      in_flight = omega (arith, b.in_flight, was, is, becomes);
      peak = b.peak;
      below_peak = omega (arith, b.below_peak);
    })
Step-IsBalanced pool limit g h (cancel before after at eq) b =
    let was = ap holding at in
    let is = holding_at before after queued in
    let becomes = holding_at before after over in
    subst (IsBalanced limit) (sym eq) (record {
      permits = omega (arith, b.permits, was, is, becomes);
      in_flight = omega (arith, b.in_flight, was, is, becomes);
      peak = b.peak;
      below_peak = b.below_peak;
    })
Step-IsBalanced pool limit g h (thread_ends before after at eq) b =
    let was = ap holding at in
    let is = holding_at before after abandoned in
    let becomes = holding_at before after over in
    subst (IsBalanced limit) (sym eq) (record {
      permits = omega (arith, b.permits, was, is, becomes);
      in_flight = omega (arith, b.in_flight, was, is, becomes);
      peak = b.peak;
      below_peak = b.below_peak;
    })

-- The gate's books balance, and no permit leaks: in every state that any interleaving of calls,
-- failures and cancellations reaches, the permits and the calls that hold one are together the limit,
-- in_flight is the number of calls that hold one, and neither it nor its high-water mark exceeds the
-- limit.
pub Reach-IsBalanced :
    (pool limit : ℕ) (g : Gate) → Reach pool (new_gate limit) g → IsBalanced limit g
unfolding holding
Reach-IsBalanced pool limit g here = record {
  permits = omega arith;
  in_flight = refl;
  peak = omega arith;
  below_peak = omega arith;
}
Reach-IsBalanced pool limit g (next {h = h} r step) =
    Step-IsBalanced pool limit h g step (Reach-IsBalanced pool limit h r)

-- No deadlock: in every reachable state of a gate with a positive limit, where a call is queued,
-- either a call holds a permit, or a step starts the queued call.
pub queued_progress :
    (pool limit : ℕ) (g : Gate) (before after : List Call)
    → 1 ≤ limit
    → Reach pool (new_gate limit) g
    → g.calls ≡ before ++ queued ∷ after
    → (1 ≤ holding g.calls) ⊎ Step pool g (begin_work before after g)
queued_progress pool limit g before after positive r at = elim (Bool-cases (leb 1 g.permits)) [
  | inl free ↦ inr (Step.acquire before after at (leb→le 1 g.permits free) refl)
  | inr full ↦ inl (ground (arith, (Reach-IsBalanced pool limit g r).permits))
]

-- The state behind a call that arrived, had its work begun by a thread, and was cancelled.
after_cancel : Gate → Gate
unfolding finish_work begin_work
after_cancel g =
    finish_work abandoned [] g.calls
      (record (begin_work [] g.calls (record g { calls = queued ∷ g.calls })) {
        calls = working ∷ g.calls;
      })

cancelled-Reach :
    (pool limit : ℕ) (g : Gate)
    → 1 ≤ g.permits
    → threads g.calls + 1 ≤ pool
    → Reach pool (new_gate limit) g
    → Reach pool (new_gate limit) (after_cancel g)
unfolding after_cancel begin_work threads
cancelled-Reach pool limit g free room r =
    Reach.next
      (Reach.next
        (Reach.next (Reach.next r (Step.arrive refl)) (Step.acquire [] g.calls refl free refl))
        (Step.thread_starts [] g.calls refl room refl))
      (Step.abandon [] g.calls refl refl)

-- What cancellations leave behind.
pub record IsCrowded (pool limit n : ℕ) (g : Gate) : Type 0 where
  pub reach : Reach pool (new_gate limit) g
  pub threads : threads g.calls ≡ n
  pub in_flight : g.in_flight ≡ 0
  pub permits : g.permits ≡ limit

pub crowd : ℕ → ℕ → Gate
unfolding after_cancel
crowd limit zero = new_gate limit
crowd limit (suc n) = after_cancel (crowd limit n)

-- The gate does not bound the threads below the executor's own number: for any positive limit and any
-- number up to that of the executor's threads there is a reachable state in which exactly so many
-- threads run the work of cancelled calls, while in_flight is zero and every permit is free.
pub cancelled-IsCrowded :
    (pool limit n : ℕ) → 1 ≤ limit → n ≤ pool → IsCrowded pool limit n (crowd limit n)
unfolding crowd threads begin_work finish_work
cancelled-IsCrowded pool limit zero h within = record {
  reach = Reach.here;
  threads = refl;
  in_flight = refl;
  permits = refl;
}
cancelled-IsCrowded pool limit (suc n) h within =
    let c = cancelled-IsCrowded pool limit n h (omega arith) in
    record {
      reach =
          cancelled-Reach pool limit (crowd limit n) (omega (arith, c.permits))
            (omega (arith, c.threads)) c.reach;
      threads = omega (arith, c.threads);
      in_flight = omega (arith, c.in_flight);
      permits = omega (arith, c.permits);
    }
