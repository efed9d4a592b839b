-- ===== src/BodyLimit/Refusal.antt =====
-- What the client is told where a body crosses the limit of backend/app/core/body_limit.py.
use socio_seo_agent.Prelude.{
  ℕ, ◌+◌, ◌<◌, ◌≡◌, refl, ◌⊎◌, inl, inr, true, false, List, ◌∷◌, ltb, length, Result, ok, err, All,
  All-append, arith, Bool-cases,
}
use mathlib.Core.Path.{subst, sym}
use socio_seo_agent.BodyLimit.{
  App, receive, send, stop, Fate, returned, raised, ReadFault, too_large, other, Inbound, request,
  disconnect, Outbound, response_start, response_body, too_large_response, Guard, counting_receive,
  handed, marked, guarding_send,
}
use socio_seo_agent.BodyLimit.Calls.{
  Served, sending, delivering, ended_call, next_message, later_messages, serve_guarded,
}

-- The body has crossed the limit, and no response that is not the refusal has begun.
abbrev IsCut : Guard → Type 0
IsCut g = (g.replaced ≡ true) ⊎ ((g.exceeded ≡ true) × (g.started ≡ false))

-- A response that begins is the refusal.
abbrev pub Is413 : Outbound → Type 0
Is413 (response_start status headers) = status ≡ 413
Is413 (response_body text) = Unit

counting_receive-IsCut :
    (limit : ℕ) (message : Inbound) (g : Guard) → IsCut g → IsCut (counting_receive limit message g)
unfolding counting_receive
counting_receive-IsCut limit disconnect g h = h
counting_receive-IsCut limit (request bytes) g h =
    elim (Bool-cases (ltb limit (g.received + length bytes))) [
      | inl e ↦ rw e (elim h [ inl r ↦ inl r | inr (x, s) ↦ inr (refl, s) ])
      | inr e ↦ rw e h
    ]

all_too_large : All Is413 too_large_response
all_too_large = (refl, (tt, tt))

guarding_send-Is413 :
    (message : Outbound) (g : Guard)
    → IsCut g
    → All Is413 (guarding_send message g) × IsCut (marked message g)
unfolding guarding_send marked
guarding_send-Is413 (response_start status headers) g (inl r) = rw r (tt, inl refl)
guarding_send-Is413 (response_start status headers) g (inr (x, s)) = elim (Bool-cases g.replaced) [
  | inl r ↦ rw r (tt, inl refl)
  | inr r ↦ rw (r, x, s) (all_too_large, inl refl)
]
guarding_send-Is413 (response_body text) g h =
    (elim (Bool-cases g.replaced) [ inl r ↦ rw r tt | inr r ↦ rw r (tt, tt) ], h)

ended_call-Is413 : (fate : Fate) (g : Guard) → All Is413 (ended_call fate g).sent
unfolding ended_call
ended_call-Is413 returned g = tt
ended_call-Is413 (raised (other text)) g = tt
ended_call-Is413 (raised too_large) g = elim (Bool-cases g.started) [
  | inl e ↦ rw e tt
  | inr e ↦ rw e all_too_large
]

delivering_sent :
    (reply : Result ReadFault Inbound) (s : Served) → (delivering reply s).sent ≡ s.sent
unfolding delivering
delivering_sent (ok message) s = refl
delivering_sent (err fault) s = refl

serve_guarded-Is413 :
    (limit : ℕ) (app : App) (messages : List Inbound) (g : Guard)
    → IsCut g
    → All Is413 (serve_guarded limit app messages g).sent
unfolding serve_guarded sending
serve_guarded-Is413 limit (receive k) messages g h =
    subst (All Is413) (sym (delivering_sent (handed limit (next_message messages) g) _)) (
      serve_guarded-Is413 limit (k (handed limit (next_message messages) g))
        (later_messages messages) (counting_receive limit (next_message messages) g)
        (counting_receive-IsCut limit (next_message messages) g h))
serve_guarded-Is413 limit (send message app) messages g h =
    let (p, c) = guarding_send-Is413 message g h in
    All-append Is413 (guarding_send message g) _ p
      (serve_guarded-Is413 limit app messages (marked message g) c)
serve_guarded-Is413 limit (stop fate) messages g h = ended_call-Is413 fate g

-- Where an application asks for a message that carries the bytes received so far over the limit, and
-- has not begun a response, it is handed the error in place of the message, and whatever it makes of
-- that, every response that begins is the 413; where it lets the error through, the client is sent
-- the refusal and the call returns.
pub oversized_answered :
    (limit : ℕ) (k : Result ReadFault Inbound → App) (bytes : List ℕ) (messages : List Inbound)
    (g : Guard)
    → g.started ≡ false
    → limit < g.received + length bytes
    → let served = serve_guarded limit (receive k) (request bytes ∷ messages) g in
      (All Is413 served.sent)
      × (served
          ≡ serve_guarded limit
              (k (err too_large))
              messages
              (counting_receive limit (request bytes) g))
      × (k (err too_large) ≡ stop (raised too_large)
          → (served.sent ≡ too_large_response) × (served.fate ≡ returned))
unfolding serve_guarded counting_receive handed delivering ended_call next_message later_messages
oversized_answered limit k bytes messages g s h =
    let over : ltb limit (g.received + length bytes) ≡ true = ground arith in
    rw over (
      serve_guarded-Is413 limit (k (err too_large)) messages
          (record g { exceeded = true; received = g.received + length bytes }) (inr (refl, s)),
      refl,
      λ e. rw (e, s) (refl, refl),
    )
