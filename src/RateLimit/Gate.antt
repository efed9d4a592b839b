-- ===== src/RateLimit/Gate.antt =====
-- `ConcurrencyGate` of backend/app/core/rate_limit.py on one event loop: its calls interleave between
-- the waits for the semaphore and for the thread.
pub mod Balance
use socio_seo_agent.Prelude.{
  ℕ, zero, suc, ◌+◌, ◌-◌, ◌≤◌, ◌≡◌, ◌⊎◌, refl, ap, sym, List, [], ◌∷◌, ◌++◌, arith, leb, leb→le,
  Bool-cases, if◌then◌else◌, inl, inr,
}
use mathlib.Core.Path.{subst}

-- A call of `run`: it waits for a permit, its work waits for a thread of the executor, its work is in
-- a thread that it awaits, its work is in a thread that it was cancelled out of awaiting, or it is
-- over.
pub data Call : Type 0 where
  queued handed working abandoned over : Call

-- `_GateState`, and the calls.
pub record Gate : Type 0 where
  pub permits : ℕ
  pub in_flight : ℕ
  pub peak_in_flight : ℕ
  pub calls : List Call

-- `run` behind the acquired semaphore: the work is handed to the executor of asyncio.to_thread.
unfoldable pub begin_work : List Call → List Call → Gate → Gate
begin_work before after g = record {
  permits = g.permits - 1;
  in_flight = g.in_flight + 1;
  peak_in_flight =
      if leb (g.in_flight + 1) g.peak_in_flight then g.peak_in_flight else g.in_flight + 1;
  calls = before ++ handed ∷ after;
}

-- The `finally`, which an exception of the work and a cancellation pass too, and the release. A
-- cancellation ends the await, and takes the work back where no thread has begun it.
unfoldable pub finish_work : Call → List Call → List Call → Gate → Gate
finish_work to before after g = record {
  permits = g.permits + 1;
  in_flight = g.in_flight - 1;
  peak_in_flight = g.peak_in_flight;
  calls = before ++ to ∷ after;
}

-- The calls that hold a permit.
unfoldable pub holding : List Call → ℕ
holding [] = 0
holding (queued ∷ cs) = holding cs
holding (handed ∷ cs) = suc (holding cs)
holding (working ∷ cs) = suc (holding cs)
holding (abandoned ∷ cs) = holding cs
holding (over ∷ cs) = holding cs

-- The calls whose work is in a thread.
unfoldable pub threads : List Call → ℕ
threads [] = 0
threads (queued ∷ cs) = threads cs
threads (handed ∷ cs) = threads cs
threads (working ∷ cs) = suc (threads cs)
threads (abandoned ∷ cs) = suc (threads cs)
threads (over ∷ cs) = threads cs

-- `_state`, of a gate with this limit.
abbrev pub new_gate : ℕ → Gate
new_gate limit = record { permits = limit; in_flight = 0; peak_in_flight = 0; calls = [] }

-- `pool` is how many threads of the executor are there for the gate.
module _ (pool : ℕ) where
  pub data Step (g h : Gate) : Type 0 where
    arrive : h ≡ record g { calls = queued ∷ g.calls } → Step g h
    acquire :
        (before after : List Call)
        → g.calls ≡ before ++ queued ∷ after
        → 1 ≤ g.permits
        → h ≡ begin_work before after g
        → Step g h
    thread_starts :
        (before after : List Call)
        → g.calls ≡ before ++ handed ∷ after
        → threads g.calls + 1 ≤ pool
        → h ≡ record g { calls = before ++ working ∷ after }
        → Step g h
    leave :
        (before after : List Call)
        → g.calls ≡ before ++ working ∷ after
        → h ≡ finish_work over before after g
        → Step g h
    withdraw :
        (before after : List Call)
        → g.calls ≡ before ++ handed ∷ after
        → h ≡ finish_work over before after g
        → Step g h
    abandon :
        (before after : List Call)
        → g.calls ≡ before ++ working ∷ after
        → h ≡ finish_work abandoned before after g
        → Step g h
    thread_ends :
        (before after : List Call)
        → g.calls ≡ before ++ abandoned ∷ after
        → h ≡ record g { calls = before ++ over ∷ after }
        → Step g h
    cancel :
        (before after : List Call)
        → g.calls ≡ before ++ queued ∷ after
        → h ≡ record g { calls = before ++ over ∷ after }
        → Step g h

  pub data Reach (g : Gate) : Gate → Type 0 where
    here : Reach g g
    next : {h i : Gate} → Reach g h → Step h i → Reach g i
