-- ===== src/RateLimit/Window.antt =====
-- `InMemoryWindowCounter` of backend/app/core/rate_limit.py. A clock reading is a number of
-- nanoseconds.
pub mod Capacity
pub mod Budget
use socio_seo_agent.Prelude.{
  ℕ, suc, ◌+◌, ◌-◌, ◌*◌, String, Bool, true, false, Option, none, some, List, [], ◌∷◌, leb, ltb,
  str_eq, length, if◌then◌else◌,
}

abbrev pub second : ℕ
second = 1_000_000_000

-- `IN_MEMORY_MAX_KEYS`
abbrev pub max_keys : ℕ
max_keys = 20_000

-- `_Window`
pub record Window : Type 0 where
  pub count : ℕ
  pub expires_at : ℕ

abbrev pub Windows : Type 0
Windows = List (String × Window)

-- self._windows.get(key)
unfoldable pub window_at : String → Windows → Option Window
window_at key [] = none
window_at key (entry ∷ ws) = if str_eq entry.0 key then some entry.1 else window_at key ws

-- self._windows[key] = window
unfoldable pub put : String → Window → Windows → Windows
put key w [] = (key, w) ∷ []
put key w (entry ∷ ws) = if str_eq entry.0 key then (key, w) ∷ ws else entry ∷ put key w ws

unfoldable pub live : ℕ → Windows → Windows
live now [] = []
live now (entry ∷ ws) =
    let rest = live now ws in if ltb now entry.1.expires_at then entry ∷ rest else rest

-- `_prune`
unfoldable pub prune : ℕ → Windows → Windows
unfolding live
prune now ws = if leb max_keys (length (live now ws)) then [] else live now ws

unfoldable pub make_room : ℕ → Windows → Windows
unfolding prune
make_room now ws = if leb max_keys (length ws) then prune now ws else ws

-- A window of its own for the key, with this call counted.
unfoldable pub open_window : ℕ → String → ℕ → Windows → Windows
unfolding make_room put
open_window now key window_seconds ws =
    put key (record { count = 1; expires_at = now + window_seconds * second }) (make_room now ws)

-- `bump`, where the key's window, if any, is given.
unfoldable pub bump_at : ℕ → String → ℕ → Windows → Option Window → ℕ × Windows
unfolding open_window put
bump_at now key window_seconds ws none = (1, open_window now key window_seconds ws)
bump_at now key window_seconds ws (some w) =
    if leb w.expires_at now
    then (1, open_window now key window_seconds ws)
    else (suc w.count, put key (record w { count = suc w.count }) ws)

unfoldable pub bump : ℕ → String → ℕ → Windows → ℕ × Windows
unfolding bump_at window_at
bump now key window_seconds ws = bump_at now key window_seconds ws (window_at key ws)

unfoldable pub give_back_at : ℕ → String → Windows → Option Window → Windows
unfolding put
give_back_at now key ws none = ws
give_back_at now key ws (some w) =
    if leb w.expires_at now then ws else put key (record w { count = w.count - 1 }) ws

-- `give_back`
unfoldable pub give_back : ℕ → String → Windows → Windows
unfolding give_back_at window_at
give_back now key ws = give_back_at now key ws (window_at key ws)
