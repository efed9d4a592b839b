-- ===== src/RateLimit/Window/Capacity.antt =====
-- The number of windows that the counter holds.
use socio_seo_agent.Prelude.{
  ℕ, suc, ◌+◌, ◌*◌, ◌≤◌, ◌<◌, String, ◌≡◌, refl, Option, none, some, [], ◌∷◌, arith, length,
}
use socio_seo_agent.RateLimit.Window.{
  Window, Windows, second, max_keys, window_at, put, prune, make_room, open_window, bump_at, bump,
}

pub put_grows : (key : String) (w : Window) (ws : Windows) → length (put key w ws) ≤ suc (length ws)
unfolding put
put_grows key w [] = omega arith
put_grows key w (entry ∷ ws) = ground (arith, put_grows key w ws)

-- A key that is there is overwritten.
pub put_keeps :
    (key : String) (w old : Window) (ws : Windows)
    → window_at key ws ≡ some old
    → length (put key w ws) ≡ length ws
unfolding put window_at
put_keeps key w old [] h = ground arith
put_keeps key w old (entry ∷ ws) h = ground (arith, put_keeps key w old ws)

pub make_room_below : (now : ℕ) (ws : Windows) → length (make_room now ws) < max_keys
unfolding make_room prune
make_room_below now ws = ground arith

opened_fits :
    (now : ℕ) (key : String) (window_seconds : ℕ) (ws : Windows)
    → length (open_window now key window_seconds ws) ≤ max_keys
unfolding open_window
opened_fits now key window_seconds ws =
    omega (arith, put_grows key _ (make_room now ws), make_room_below now ws)

bumped_fits :
    (now : ℕ) (key : String) (window_seconds : ℕ) (ws : Windows) (found : Option Window)
    → window_at key ws ≡ found
    → length ws ≤ max_keys
    → length (bump_at now key window_seconds ws found).1 ≤ max_keys
unfolding bump_at
bumped_fits now key window_seconds ws none e h = opened_fits now key window_seconds ws
bumped_fits now key window_seconds ws (some w) e h = ground (
  arith,
  opened_fits now key window_seconds ws,
  put_keeps key (record w { count = suc w.count }) w ws e,
)

-- The memory of the counter is bounded: where it holds at most 20,000 windows, it holds at most
-- 20,000 after a call of bump with any key.
pub bump-IsBounded :
    (now : ℕ) (key : String) (window_seconds : ℕ) (ws : Windows)
    → length ws ≤ max_keys
    → length (bump now key window_seconds ws).1 ≤ max_keys
unfolding bump
bump-IsBounded now key window_seconds ws h = bumped_fits now key window_seconds ws _ refl h

opened_grows :
    (now : ℕ) (key : String) (window_seconds : ℕ) (ws : Windows)
    → length ws < max_keys
    → length (open_window now key window_seconds ws) ≤ suc (length ws)
unfolding open_window make_room
opened_grows now key window_seconds ws h =
    ground
      (arith, put_grows key (record { count = 1; expires_at = now + window_seconds * second }) ws)

bumped_grows :
    (now : ℕ) (key : String) (window_seconds : ℕ) (ws : Windows) (found : Option Window)
    → length ws < max_keys
    → length (bump_at now key window_seconds ws found).1 ≤ suc (length ws)
unfolding bump_at
bumped_grows now key window_seconds ws none h = opened_grows now key window_seconds ws h
bumped_grows now key window_seconds ws (some w) h = ground (
  arith,
  opened_grows now key window_seconds ws h,
  put_grows key (record w { count = suc w.count }) ws,
)

-- A window is added at most.
pub bump_grows :
    (now : ℕ) (key : String) (window_seconds : ℕ) (ws : Windows)
    → length ws < max_keys
    → length (bump now key window_seconds ws).1 ≤ suc (length ws)
unfolding bump
bump_grows now key window_seconds ws h = bumped_grows now key window_seconds ws (window_at key ws) h
