-- ===== src/BodyLimit/Serving.antt =====
-- What the middleware of backend/app/core/body_limit.py lets through, and what it leaves alone.
use socio_seo_agent.Prelude.{
  ℕ, ◌+◌, ◌-◌, ◌≤◌, ◌≡◌, refl, ap, sym, Bool, true, false, not, ◌&&◌, List, [], ◌∷◌, ltb, length,
  str_eq, eq_iff, if◌then◌else◌, ok, arith, inl, inr, Bool-cases,
}
use mathlib.Core.Path.{subst, ap₂}
use socio_seo_agent.BodyLimit.{
  Middleware, App, receive, send, stop, Fate, returned, raised, too_large, other, Inbound, request,
  disconnect, Outbound, response_start, response_body, Guard, size, counting_receive, handed,
  marked, guarding_send, limit_for,
}
use socio_seo_agent.BodyLimit.Calls.{
  Scope, Served, sending, delivering, ended_call, next_message, later_messages, serve_guarded, bare,
  fresh_guard, call_middleware, declared_length,
}

-- The bytes of some messages.
unfoldable pub total : List Inbound → ℕ
unfolding size
total [] = 0
total (message ∷ messages) = size message + total messages

-- A message that the counter hands on is paid for from what is left.
delivering_within :
    (limit : ℕ) (message : Inbound) (g : Guard) (s : Served)
    → total s.delivered ≤ limit - (counting_receive limit message g).received
    → total (delivering (handed limit message g) s).delivered ≤ limit - g.received
unfolding delivering handed counting_receive total size
delivering_within limit (request bytes) g s h =
    elim (Bool-cases (ltb limit (g.received + length bytes))) [
      | inl e ↦ ground arith
      | inr e ↦ ground arith
    ]
delivering_within limit disconnect g s h = omega arith

if_Guard : (P : Guard → Type 0) (b : Bool) (f g : Guard) → P f → P g → P (if b then f else g)
if_Guard P true f g hf hg = hf
if_Guard P false f g hf hg = hg

marked-received : (message : Outbound) (g : Guard) → (marked message g).received ≡ g.received
unfolding marked
marked-received (response_start status headers) g =
    if_Guard (λ f. f.received ≡ g.received) g.replaced _ _ refl
      (if_Guard (λ f. f.received ≡ g.received) (g.exceeded && not g.started) _ _ refl refl)
marked-received (response_body text) g = refl

ended_call_none : (fate : Fate) (g : Guard) → (ended_call fate g).delivered ≡ []
unfolding ended_call
ended_call_none returned g = refl
ended_call_none (raised (other text)) g = refl
ended_call_none (raised too_large) g = elim (Bool-cases g.started) [
  | inl e ↦ rw e refl
  | inr e ↦ rw e refl
]

-- Of a message, where nothing has been refused.
guarding_send_whole :
    (message : Outbound) (g : Guard)
    → g.exceeded ≡ false
    → g.replaced ≡ false
    → (guarding_send message g ≡ message ∷ [])
      × ((marked message g).exceeded ≡ false)
      × ((marked message g).replaced ≡ false)
unfolding guarding_send marked
guarding_send_whole (response_start status headers) g e r = rw (r, e) (refl, refl, refl)
guarding_send_whole (response_body text) g e r = rw r (refl, e, refl)

serve_guarded_within :
    (limit : ℕ) (app : App) (messages : List Inbound) (g : Guard)
    → total (serve_guarded limit app messages g).delivered ≤ limit - g.received
unfolding serve_guarded sending ended_call total
serve_guarded_within limit (receive k) messages g =
    delivering_within limit (next_message messages) g _ (
      serve_guarded_within limit (k (handed limit (next_message messages) g))
        (later_messages messages) (counting_receive limit (next_message messages) g))
serve_guarded_within limit (send message app) messages g =
    subst (λ n. total (serve_guarded limit app messages (marked message g)).delivered ≤ limit - n)
      (marked-received message g) (serve_guarded_within limit app messages (marked message g))
serve_guarded_within limit (stop fate) messages g =
    subst (λ d. total d ≤ limit - g.received) (sym (ended_call_none fate g)) (omega arith)

-- An application does not raise the middleware's error of its own.
abbrev pub LeavesError : App → Type 0
LeavesError (receive k) = (message : Inbound) → LeavesError (k (ok message))
LeavesError (send message app) = LeavesError app
LeavesError (stop (raised too_large)) = ⊥
LeavesError (stop fate) = Unit

serve_guarded-bare :
    (limit : ℕ) (app : App) (messages : List Inbound) (g : Guard)
    → LeavesError app
    → g.exceeded ≡ false
    → g.replaced ≡ false
    → g.received + total messages ≤ limit
    → serve_guarded limit app messages g ≡ bare app messages
unfolding serve_guarded bare total size handed counting_receive next_message later_messages
    guarding_send marked ended_call
serve_guarded-bare limit (receive k) [] g own e r h =
    ap (delivering (ok disconnect))
      (serve_guarded-bare limit (k (ok disconnect)) [] g (own disconnect) e r h)
serve_guarded-bare limit (receive k) (disconnect ∷ messages) g own e r h =
    ap (delivering (ok disconnect))
      (serve_guarded-bare limit (k (ok disconnect)) messages g (own disconnect) e r (omega arith))
serve_guarded-bare limit (receive k) (request bytes ∷ messages) g own e r h =
    let fits : ltb limit (g.received + length bytes) ≡ false = ground arith in
    rw fits (
      ap (delivering (ok (request bytes))) (
        serve_guarded-bare limit (k (ok (request bytes))) messages
          (record g { received = g.received + length bytes }) (own (request bytes)) e r
          (omega arith)))
serve_guarded-bare limit (send message app) messages g own e r h =
    let (p, e', r') = guarding_send_whole message g e r in
    let rest =
      serve_guarded-bare limit app messages (marked message g) own e' r'
        (subst (λ n. n + total messages ≤ limit) (sym (marked-received message g)) h) in
    ap₂ sending p rest
serve_guarded-bare limit (stop returned) messages g own e r h = refl
serve_guarded-bare limit (stop (raised (other text))) messages g own e r h = refl
serve_guarded-bare limit (stop (raised too_large)) messages g own e r h = absurd own

if_Served :
    (P : Served → Type 0) (b : Bool) (x y : Served)
    → (b ≡ true → P x)
    → (b ≡ false → P y)
    → P (if b then x else y)
if_Served P true x y hx hy = hx refl
if_Served P false x y hx hy = hy refl

-- Of an HTTP request, the messages that the application is handed hold at most as many bytes as the
-- limit for the path, whatever the request declares and whatever the application does, asking again
-- behind a refusal included.
pub body_within_limit :
    (m : Middleware) (scope : Scope) (app : App) (messages : List Inbound)
    → scope.kind ≡ "http"
    → total (call_middleware m scope app messages).delivered ≤ limit_for m scope.path
unfolding call_middleware total
body_within_limit m scope app messages http =
    let named : str_eq scope.kind "http" ≡ true = (eq_iff scope.kind "http").1 http in
    let P : Served → Type 0 = λ s. total s.delivered ≤ limit_for m scope.path in
    if_Served P (not (str_eq scope.kind "http")) _ _ (λ e. absurd (ground arith))
      (λ e.
        if_Served P (ltb (limit_for m scope.path) (declared_length scope.headers)) _ _
          (λ l. omega arith)
          (λ l.
            omega (arith, serve_guarded_within (limit_for m scope.path) app messages fresh_guard)))

-- A request whose declared length and whose bytes are within the limit for its path is served as by
-- the application alone, which does not raise the middleware's error of its own: the same messages
-- handed on, the same response, the same end.
pub small_body_transparent :
    (m : Middleware) (scope : Scope) (app : App) (messages : List Inbound)
    → LeavesError app
    → declared_length scope.headers ≤ limit_for m scope.path
    → total messages ≤ limit_for m scope.path
    → call_middleware m scope app messages ≡ bare app messages
unfolding call_middleware
small_body_transparent m scope app messages own declared h =
    let P : Served → Type 0 = λ s. s ≡ bare app messages in
    if_Served P (not (str_eq scope.kind "http")) _ _ (λ e. refl)
      (λ e.
        if_Served P (ltb (limit_for m scope.path) (declared_length scope.headers)) _ _
          (λ l. absurd (ground arith))
          (λ l.
            serve_guarded-bare (limit_for m scope.path) app messages fresh_guard own refl refl
              (omega arith)))
