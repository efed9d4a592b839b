-- ===== src/BodyLimit/Calls.antt =====
-- A call of the middleware of backend/app/core/body_limit.py, around an application.
use socio_seo_agent.BodyLimit.{
  Middleware, limit_for, Inbound, Outbound, ReadFault, Fate, App, too_large_response, Guard,
  counting_receive, handed, marked, guarding_send, disconnect, too_large, returned, raised, receive,
  send, stop,
}
use Prim.Native.Char.{code}
use socio_seo_agent.Prelude.{
  ℕ, ◌+◌, ◌*◌, ◌-◌, String, Bool, true, false, not, ◌&&◌, Option, none, some, List, [], ◌∷◌, ◌++◌,
  ltb, leb, ◌==◌, str_eq, if◌then◌else◌, Result, ok, err,
}

-- What the client is sent, what the application is handed, and how the call ends.
pub record Served : Type 0 where
  pub sent : List Outbound
  pub delivered : List Inbound
  pub fate : Fate

unfoldable pub sending : List Outbound → Served → Served
sending out s = record s { sent = out ++ s.sent }

unfoldable pub delivering : Result ReadFault Inbound → Served → Served
delivering (ok message) s = record s { delivered = message ∷ s.delivered }
delivering (err fault) s = s

unfoldable pub ended_call : Fate → Guard → Served
ended_call (raised too_large) g =
    if g.started
    then record { sent = []; delivered = []; fate = raised too_large }
    else record { sent = too_large_response; delivered = []; fate = returned }
ended_call fate g = record { sent = []; delivered = []; fate = fate }

-- The server's next message, a disconnect behind the last one.
unfoldable pub next_message : List Inbound → Inbound
next_message [] = disconnect
next_message (message ∷ messages) = message

unfoldable pub later_messages : List Inbound → List Inbound
later_messages [] = []
later_messages (message ∷ messages) = messages

-- The application between the two wrappers.
unfoldable pub serve_guarded : ℕ → App → List Inbound → Guard → Served
unfolding counting_receive handed marked guarding_send sending delivering ended_call next_message
    later_messages
serve_guarded limit (receive k) messages g =
    let reply = handed limit (next_message messages) g in
    delivering reply (
      serve_guarded limit (k reply) (later_messages messages)
        (counting_receive limit (next_message messages) g))
serve_guarded limit (send message app) messages g =
    sending (guarding_send message g) (serve_guarded limit app messages (marked message g))
serve_guarded limit (stop fate) messages g = ended_call fate g

-- The application on its own.
unfoldable pub bare : App → List Inbound → Served
unfolding sending delivering next_message later_messages
bare (receive k) messages =
    delivering (ok (next_message messages))
      (bare (k (ok (next_message messages))) (later_messages messages))
bare (send message app) messages = sending (message ∷ []) (bare app messages)
bare (stop fate) messages = record { sent = []; delivered = []; fate = fate }

pub record Scope : Type 0 where
  pub kind : String
  pub path : String
  pub headers : List (String × String)

unfoldable pub is_blank_byte : ℕ → Bool
is_blank_byte c = if c == 32 then true else leb 9 c && leb c 13

unfoldable pub all_blank : String → Bool
unfolding is_blank_byte
all_blank String.[] = true
all_blank (String.◌∷◌ c s) = let rest = all_blank s in is_blank_byte (code c) && rest

-- Digits, with single underscores between them, and white space behind them.
unfoldable pub digits : String → Bool → ℕ → Option ℕ
unfolding all_blank
digits String.[] behind_digit n = if behind_digit then some n else none
digits (String.◌∷◌ c s) behind_digit n =
    let more = digits s true (n * 10 + (code c - 48)) in
    let gap = digits s false n in
    if leb 48 (code c) && leb (code c) 57
    then more
    else if (code c == 95) && behind_digit
    then gap
    else if behind_digit && all_blank (String.◌∷◌ c s)
    then some n
    else none

unfoldable pub value_or_zero : Option ℕ → ℕ
value_or_zero none = 0
value_or_zero (some n) = n

-- int(value) of bytes, 0 in place of what is negative or no number.
unfoldable pub int_or_zero : String → ℕ
unfolding digits is_blank_byte value_or_zero
int_or_zero String.[] = 0
int_or_zero (String.◌∷◌ c s) =
    let rest = int_or_zero s in
    if is_blank_byte (code c)
    then rest
    else if code c == 45
    then 0
    else if code c == 43
    then value_or_zero (digits s false 0)
    else value_or_zero (digits (String.◌∷◌ c s) false 0)

unfoldable pub digit_count : String → ℕ
digit_count String.[] = 0
digit_count (String.◌∷◌ c s) = (if leb 48 (code c) && leb (code c) 57 then 1 else 0) + digit_count s

-- int raises its ValueError for more than 4300 digits too.
unfoldable pub parsed_length : String → ℕ
unfolding int_or_zero digit_count
parsed_length value = if ltb 4_300 (digit_count value) then 0 else int_or_zero value

-- `_declared_length`; a negative one is 0, for it is only compared with a positive limit.
unfoldable pub declared_length : List (String × String) → ℕ
unfolding parsed_length
declared_length [] = 0
declared_length ((name, value) ∷ headers) =
    let rest = declared_length headers in
    if str_eq name "content-length" then parsed_length value else rest

abbrev pub fresh_guard : Guard
fresh_guard = record { started = false; exceeded = false; replaced = false; received = 0 }

-- `__call__`
unfoldable pub call_middleware : Middleware → Scope → App → List Inbound → Served
unfolding limit_for declared_length serve_guarded bare
call_middleware m scope app messages =
    if not (str_eq scope.kind "http")
    then bare app messages
    else if ltb (limit_for m scope.path) (declared_length scope.headers)
    then record { sent = too_large_response; delivered = []; fate = returned }
    else serve_guarded (limit_for m scope.path) app messages fresh_guard
