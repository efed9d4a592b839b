-- ===== src/BodyLimit/Samples.antt =====
-- Concrete requests to the middleware of backend/app/core/body_limit.py.
use socio_seo_agent.Prelude.{◌≤◌, ◌≡◌, refl, List, [], ◌∷◌, Result, ok, err, All, arith}
use socio_seo_agent.Strings.{len}
use socio_seo_agent.BodyLimit.{
  Middleware, App, receive, send, stop, returned, raised, ReadFault, too_large, Inbound, request,
  response_start, response_body, too_large_response, too_large_body, limit_for, counting_receive,
}
use socio_seo_agent.BodyLimit.Calls.{
  Scope, serve_guarded, bare, call_middleware, declared_length, fresh_guard,
}
use socio_seo_agent.BodyLimit.Serving.{total, body_within_limit, small_body_transparent}
use socio_seo_agent.BodyLimit.Refusal.{Is413, oversized_answered}

-- It answers a body that it cannot read as the web framework does.
abbrev after_read : Result ReadFault Inbound → App
after_read (ok message) = send (response_start 200 []) (send (response_body "ok") (stop returned))
after_read (err fault) =
    send (response_start 400 [])
      (send (response_body "There was an error parsing the body") (stop returned))

abbrev reader : App
reader = receive after_read

abbrev middleware : Middleware
middleware = record {
  default = 4;
  overrides =
      record { prefix = "/doc"; max_bytes = 6 }
      ∷ record { prefix = "/doc/scan/"; max_bytes = 9 }
      ∷ [];
}

abbrev small : List Inbound
small = request (1 ∷ 2 ∷ 3 ∷ []) ∷ []

abbrev large : List Inbound
large = request (1 ∷ 2 ∷ 3 ∷ 4 ∷ 5 ∷ []) ∷ []

abbrev scope : Scope
scope = record {
  kind = "http";
  path = "/login";
  headers = ("host", "x") ∷ ("content-length", " +1_0 ") ∷ [];
}

abbrev silent : Scope
silent = record { kind = "http"; path = "/login"; headers = [] }

limits :
    (limit_for middleware "/doc/scan/1" ≡ 9)
    × (limit_for middleware "/doc" ≡ 6)
    × (limit_for middleware "/docs" ≡ 4)
unfolding limit_for
limits = (refl, refl, refl)

declared : declared_length scope.headers ≡ 10
unfolding declared_length
declared = refl

too_large_body-len : len too_large_body ≡ 87
unfolding len
too_large_body-len = refl

swallowed :
    call_middleware middleware silent reader large
    ≡ record { sent = too_large_response; delivered = []; fate = returned }
unfolding call_middleware
swallowed = refl

body_within_limit_example :
    total (call_middleware middleware silent reader large).delivered ≤ limit_for middleware "/login"
body_within_limit_example = body_within_limit middleware silent reader large refl

room : 3 ≤ limit_for middleware "/login"
unfolding limit_for
room = omega arith

small-total : total small ≤ limit_for middleware "/login"
unfolding limit_for total
small-total = omega arith

none_declared : declared_length [] ≤ limit_for middleware "/login"
unfolding declared_length
none_declared = omega arith

small_body_transparent_example : call_middleware middleware silent reader small ≡ bare reader small
small_body_transparent_example =
    small_body_transparent middleware silent reader small (λ message. tt) none_declared small-total

oversized_answered_example :
    let served = serve_guarded 4 reader large fresh_guard in
    (All Is413 served.sent)
    × (served
        ≡ serve_guarded 4
            (after_read (err too_large))
            []
            (counting_receive 4 (request (1 ∷ 2 ∷ 3 ∷ 4 ∷ 5 ∷ [])) fresh_guard))
    × (after_read (err too_large) ≡ stop (raised too_large)
        → (served.sent ≡ too_large_response) × (served.fate ≡ returned))
oversized_answered_example =
    oversized_answered 4 after_read (1 ∷ 2 ∷ 3 ∷ 4 ∷ 5 ∷ []) [] fresh_guard refl (omega arith)
