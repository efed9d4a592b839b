-- ===== src/RateLimit/Window/Budget.antt =====
-- A key's budget: what the counter answers while a window lives.
use socio_seo_agent.Prelude.{
  ℕ, suc, ◌+◌, ◌-◌, ◌*◌, ◌≤◌, ◌<◌, String, ◌≡◌, refl, Option, none, some, List, [], ◌∷◌, arith, leb,
  str_eq, length, eq_iff, eq_refl, ap, ◌∙◌, ◌&&◌, if◌then◌else◌, Bool-cases, inl, inr, All,
}
use socio_seo_agent.RateLimit.Window.{
  Window, Windows, second, max_keys, window_at, put, make_room, open_window, bump_at, bump,
  give_back_at, give_back,
}
use socio_seo_agent.RateLimit.Window.Capacity.{bump_grows}

pub window_at-put :
    (j key : String) (w : Window) (ws : Windows)
    → window_at j (put key w ws) ≡ (if str_eq key j then some w else window_at j ws)
unfolding window_at put
window_at-put j key w [] = refl
window_at-put j key w (entry ∷ ws) =
    ground (arith, window_at-put j key w ws, eq_iff key j, eq_iff entry.0 key, eq_iff entry.0 j)

-- One call of `bump`.
pub record Hit : Type 0 where
  pub now : ℕ
  pub key : String
  pub window_seconds : ℕ

bumped_counts :
    (now : ℕ) (key : String) (window_seconds : ℕ) (ws : Windows) (w : Window) (j : String)
    (found : Option Window)
    → length ws < max_keys
    → window_at j ws ≡ some w
    → now < w.expires_at
    → window_at key ws ≡ found
    → window_at j (bump_at now key window_seconds ws found).1
      ≡ some (if str_eq key j then record w { count = suc w.count } else w)
unfolding bump_at open_window make_room
bumped_counts now key window_seconds ws w j none room e alive f = ground (
  arith,
  eq_iff key j,
  window_at-put j key (record { count = 1; expires_at = now + window_seconds * second }) ws,
)
bumped_counts now key window_seconds ws w j (some v) room e alive f = ground (
  arith,
  eq_iff key j,
  window_at-put j key (record { count = 1; expires_at = now + window_seconds * second }) ws,
  window_at-put j key (record v { count = suc v.count }) ws,
)

-- With room for a window, a call counts on its own key's live window and on no other.
pub bump_counts :
    (now : ℕ) (key : String) (window_seconds : ℕ) (ws : Windows) (w : Window) (j : String)
    → length ws < max_keys
    → window_at j ws ≡ some w
    → now < w.expires_at
    → window_at j (bump now key window_seconds ws).1
      ≡ some (if str_eq key j then record w { count = suc w.count } else w)
unfolding bump
bump_counts now key window_seconds ws w j room e alive =
    bumped_counts now key window_seconds ws w j _ room e alive refl

-- What a call answers on a live window.
pub bump_answers :
    (now : ℕ) (key : String) (window_seconds : ℕ) (ws : Windows) (w : Window)
    → window_at key ws ≡ some w
    → now < w.expires_at
    → (bump now key window_seconds ws).0 ≡ suc w.count
unfolding bump bump_at
bump_answers now key window_seconds ws w e alive = rw e (ground arith)

abbrev pub lesser : ℕ → ℕ → ℕ
lesser a b = if leb a b then a else b

-- The calls with a key.
unfoldable pub of_key : String → List Hit → ℕ
of_key key [] = 0
of_key key (hit ∷ hits) = (if str_eq hit.key key then 1 else 0) + of_key key hits

-- The calls with a key that are answered with a count within the limit.
unfoldable pub admitted : ℕ → String → List Hit → Windows → ℕ
admitted limit key [] ws = 0
admitted limit key (hit ∷ hits) ws =
    (if str_eq hit.key key && leb (bump hit.now hit.key hit.window_seconds ws).0 limit
      then 1
      else 0)
    + admitted limit key hits (bump hit.now hit.key hit.window_seconds ws).1

-- A window's budget is exact: while a key's window lives and there is room for every call's window,
-- any calls in any order, with other keys among them, admit as many with the key as ask, up to what
-- the limit leaves above the window's count, and no more.
pub window_admits :
    (limit : ℕ) (key : String) (hits : List Hit) (ws : Windows) (w : Window)
    → window_at key ws ≡ some w
    → All (λ hit. hit.now < w.expires_at) hits
    → length ws + length hits ≤ max_keys
    → admitted limit key hits ws ≡ lesser (of_key key hits) (limit - w.count)
unfolding admitted of_key
window_admits limit key [] ws w e alive room = ground arith
window_admits limit key (hit ∷ hits) ws w e alive room =
    let rest = window_admits limit key hits (bump hit.now hit.key hit.window_seconds ws).1 in
    let grown = bump_grows hit.now hit.key hit.window_seconds ws in
    let counted = bump_counts hit.now hit.key hit.window_seconds ws w key (omega arith) e alive.0 in
    elim (Bool-cases (str_eq hit.key key)) [
      | inr other ↦
          rw other (
            ground
              (arith, rest w (counted ∙ ap some (ground arith)) alive.1 (omega (arith, grown))))
      | inl same ↦
          let answer =
            bump_answers hit.now hit.key hit.window_seconds ws w
              (rw ((eq_iff hit.key key).0 same) e) alive.0 in
          rw
            (
              same,
              answer,
              rest (record w { count = suc w.count }) (counted ∙ ap some (ground arith)) alive.1
                  (omega (arith, grown)),
            )
            (ground arith)
    ]

-- A refund undoes a count: within a live window, with room, a call and its refund leave the key's
-- window, its expiry and its count as they were.
pub give_back-bump :
    (now later : ℕ) (key : String) (window_seconds : ℕ) (ws : Windows) (w : Window)
    → length ws < max_keys
    → window_at key ws ≡ some w
    → now < w.expires_at
    → later < w.expires_at
    → window_at key (give_back later key (bump now key window_seconds ws).1) ≡ some w
unfolding give_back give_back_at
give_back-bump now later key window_seconds ws w room e alive still =
    rw
      (ap (λ found. give_back_at later key (bump now key window_seconds ws).1 found)
        (bump_counts now key window_seconds ws w key room e alive))
      (rw eq_refl (returned_lem (bump now key window_seconds ws).1))
  where
    returned_lem :
        (vs : Windows)
        → window_at key (give_back_at later key vs (some (record w { count = suc w.count })))
          ≡ some w
    returned_lem vs = ground (arith, window_at-put key key w vs, eq_iff key key)
