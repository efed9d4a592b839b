-- ===== src/BodyLimit.antt =====
-- backend/app/core/body_limit.py. An application is what it asks of the server: it receives, sends,
-- returns or raises, and it may catch what `receive` raises. A message of the request holds bytes.
pub mod Calls
pub mod Serving
pub mod Refusal
mod Samples
use Prim.Native.Char.{code}
use socio_seo_agent.Prelude.{
  ℕ, zero, suc, ◌+◌, ◌*◌, ◌-◌, String, Bool, true, false, not, ◌&&◌, Option, none, some, List, [],
  ◌∷◌, ◌++◌, ltb, leb, ◌==◌, length, str_eq, if◌then◌else◌, Result, ok, err,
}
use socio_seo_agent.Strings.{len, concat, starts_with}

-- `DEFAULT_MAX_BODY_BYTES`
abbrev pub default_max_body_bytes : ℕ
default_max_body_bytes = 65_536

pub record BodyLimit : Type 0 where
  pub prefix : String
  pub max_bytes : ℕ

-- prefix.rstrip("/")
unfoldable pub trimmed : String → String
trimmed String.[] = ""
trimmed (String.◌∷◌ c s) =
    let rest = trimmed s in if str_eq rest "" && (code c == 47) then "" else String.◌∷◌ c rest

unfoldable pub matches : BodyLimit → String → Bool
unfolding trimmed concat starts_with
matches limit path =
    if str_eq path (trimmed limit.prefix)
    then true
    else starts_with path (concat (trimmed limit.prefix) "/")

-- sorted(overrides, key=lambda o: len(o.prefix), reverse=True), which keeps the order of equal keys.
unfoldable pub insert_override : BodyLimit → List BodyLimit → List BodyLimit
unfolding len
insert_override limit [] = limit ∷ []
insert_override limit (o ∷ os) =
    let rest = insert_override limit os in
    if leb (len o.prefix) (len limit.prefix) then limit ∷ o ∷ os else o ∷ rest

unfoldable pub longest_first : List BodyLimit → List BodyLimit
unfolding insert_override
longest_first [] = []
longest_first (o ∷ os) = insert_override o (longest_first os)

unfoldable pub first_match : ℕ → String → List BodyLimit → ℕ
unfolding matches
first_match default path [] = default
first_match default path (o ∷ os) =
    let rest = first_match default path os in if matches o path then o.max_bytes else rest

pub record Middleware : Type 0 where
  pub default : ℕ
  pub overrides : List BodyLimit

unfoldable pub limit_for : Middleware → String → ℕ
unfolding first_match longest_first
limit_for m path = first_match m.default path (longest_first m.overrides)

pub data Inbound : Type 0 where
  request : List ℕ → Inbound
  disconnect : Inbound

pub data Outbound : Type 0 where
  response_start : ℕ → List (String × String) → Outbound
  response_body : String → Outbound

pub data ReadFault : Type 0 where
  too_large : ReadFault
  other : String → ReadFault

pub data Fate : Type 0 where
  returned : Fate
  raised : ReadFault → Fate

pub data App : Type 0 where
  receive : (Result ReadFault Inbound → App) → App
  send : Outbound → App → App
  stop : Fate → App

-- `_TOO_LARGE_BODY`
abbrev pub too_large_body : String
too_large_body =
    "{\"detail\": {\"code\": \"payload_too_large\", \"message\": \"That request body is too large.\"}}"

-- What `_refuse` sends.
abbrev pub too_large_response : List Outbound
too_large_response =
    response_start 413 (
      ("content-type", "application/json")
      ∷ ("content-length", "87")
      ∷ ("connection", "close")
      ∷ [])
    ∷ response_body too_large_body
    ∷ []

-- The variables that the two wrappers share.
pub record Guard : Type 0 where
  pub started : Bool
  pub exceeded : Bool
  pub replaced : Bool
  pub received : ℕ

unfoldable pub size : Inbound → ℕ
size (request bytes) = length bytes
size disconnect = 0

-- `counting_receive`: the variables behind a message, and what the application gets.
unfoldable pub counting_receive : ℕ → Inbound → Guard → Guard
counting_receive limit (request bytes) g =
    if ltb limit (g.received + length bytes)
    then record g { received = g.received + length bytes; exceeded = true }
    else record g { received = g.received + length bytes }
counting_receive limit disconnect g = g

unfoldable pub handed : ℕ → Inbound → Guard → Result ReadFault Inbound
handed limit (request bytes) g =
    if ltb limit (g.received + length bytes) then err too_large else ok (request bytes)
handed limit disconnect g = ok disconnect

-- `guarding_send`: the variables behind a message, and what is sent.
unfoldable pub marked : Outbound → Guard → Guard
marked (response_start status headers) g =
    if g.replaced
    then g
    else if g.exceeded && not g.started
    then record g { replaced = true; started = true }
    else record g { started = true }
marked (response_body text) g = g

unfoldable pub guarding_send : Outbound → Guard → List Outbound
guarding_send (response_start status headers) g =
    if g.replaced
    then []
    else if g.exceeded && not g.started
    then too_large_response
    else response_start status headers ∷ []
guarding_send (response_body text) g = if g.replaced then [] else response_body text ∷ []
