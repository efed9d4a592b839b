-- ===== src/RateLimit/Limiter/Fold.antt =====
-- The decision that `FixedWindowRateLimiter.check` folds over its counts.
use native.Mathlib.Nat.{mod-lt}
use socio_seo_agent.Prelude.{
  ℕ, ◌-◌, ◌%◌, ◌≤◌, String, ◌≡◌, ◌⊎◌, refl, ◌∙◌, Bool, true, false, ◌&&◌, ◌||◌, Option, none, some,
  List, [], ◌∷◌, arith, ltb, str_eq, eq_refl, ◌==◌, any, All, inl, inr,
}
use socio_seo_agent.RateLimit.Limiter.{Rule, Decision, weigh}

-- A counted dimension, and what the counters answered.
pub record Tally : Type 0 where
  pub dimension : String
  pub rule : Rule
  pub answer : Option ℕ

-- The count is over the limit; a dimension that nothing could count is not.
unfoldable pub trips : Tally → Bool
trips t = elim t.answer [ none ↦ false | some n ↦ ltb t.rule.limit n ]

-- The seconds until the dimension's window rolls over.
unfoldable pub wait : ℕ → Tally → ℕ
wait now t = t.rule.window_seconds - now % t.rule.window_seconds

-- The decision's dimension and delay are this one's.
unfoldable pub blames : ℕ → Decision → Tally → Bool
unfolding wait
blames now d t =
    elim d.dimension [ none ↦ false | some name ↦ str_eq name t.dimension ]
    && d.retry_after_seconds == wait now t

unfoldable pub fold_tallies : ℕ → Option Decision → List Tally → Option Decision
unfolding weigh
fold_tallies now worst [] = worst
fold_tallies now worst (t ∷ ts) = fold_tallies now (weigh now t.dimension t.rule t.answer worst) ts

unfoldable pub HasWindow : Tally → Type 0
HasWindow t = 1 ≤ t.rule.window_seconds

unfoldable pub retry_of : Option Decision → ℕ
retry_of none = 0
retry_of (some d) = d.retry_after_seconds

unfoldable pub IsRefusal : Option Decision → Type 0
IsRefusal none = Unit
IsRefusal (some d) = (d.allowed ≡ false) × (1 ≤ d.retry_after_seconds)

unfoldable pub tripped : Option Decision → Bool
tripped none = false
tripped (some d) = true

pub wait_bounds :
    (now : ℕ) (t : Tally) → HasWindow t → (1 ≤ wait now t) × (wait now t ≤ t.rule.window_seconds)
unfolding wait HasWindow
wait_bounds now t h = (omega (arith, mod-lt now h), omega arith)

pub weigh-IsRefusal :
    (now : ℕ) (t : Tally) (worst : Option Decision)
    → IsRefusal worst
    → IsRefusal (weigh now t.dimension t.rule t.answer worst)
unfolding weigh IsRefusal
weigh-IsRefusal now t worst h = ground arith

pub weigh-trips :
    (now : ℕ) (t : Tally) (worst : Option Decision)
    → tripped (weigh now t.dimension t.rule t.answer worst) ≡ tripped worst || trips t
unfolding weigh trips tripped
weigh-trips now t worst = ground arith

pub weigh_longest :
    (now : ℕ) (t : Tally) (worst : Option Decision)
    → HasWindow t
    → (retry_of worst ≤ retry_of (weigh now t.dimension t.rule t.answer worst))
      × (trips t ≡ true → wait now t ≤ retry_of (weigh now t.dimension t.rule t.answer worst))
unfolding weigh trips retry_of wait
weigh_longest now t worst w =
    (ground (arith, (wait_bounds now t w).0), λ h. ground (arith, (wait_bounds now t w).0))

pub blamed : ℕ → Tally → Decision
blamed now t = record {
  allowed = false;
  retry_after_seconds = wait now t;
  dimension = some t.dimension;
}

pub weigh_cases :
    (now : ℕ) (t : Tally) (worst : Option Decision)
    → HasWindow t
    → (weigh now t.dimension t.rule t.answer worst ≡ worst)
      ⊎ ((weigh now t.dimension t.rule t.answer worst ≡ some (blamed now t)) × (trips t ≡ true))
unfolding weigh trips blamed wait
weigh_cases now t worst w = ground (arith, (wait_bounds now t w).0)

pub blames-blamed : (now : ℕ) (t : Tally) → blames now (blamed now t) t ≡ true
unfolding blames blamed
blames-blamed now t = ground (arith, eq_refl t.dimension)

-- The fold of the decision over the tallies.
pub fold_tallies-IsRefusal :
    (now : ℕ) (worst : Option Decision) (ts : List Tally)
    → IsRefusal worst
    → IsRefusal (fold_tallies now worst ts)
unfolding fold_tallies
fold_tallies-IsRefusal now worst [] h = h
fold_tallies-IsRefusal now worst (t ∷ ts) h =
    fold_tallies-IsRefusal now (weigh now t.dimension t.rule t.answer worst) ts
      (weigh-IsRefusal now t worst h)

pub fold_trips :
    (now : ℕ) (worst : Option Decision) (ts : List Tally)
    → tripped (fold_tallies now worst ts) ≡ tripped worst || any trips ts
unfolding fold_tallies
fold_trips now worst [] = ground arith
fold_trips now worst (t ∷ ts) = ground (
  arith,
  fold_trips now (weigh now t.dimension t.rule t.answer worst) ts,
  weigh-trips now t worst,
)

unfoldable pub IsLongest : ℕ → ℕ → Tally → Type 0
IsLongest now retry t = trips t ≡ true → wait now t ≤ retry

pub fold-IsLongest :
    (now : ℕ) (worst : Option Decision) (ts : List Tally)
    → All HasWindow ts
    → (retry_of worst ≤ retry_of (fold_tallies now worst ts))
      × All (IsLongest now (retry_of (fold_tallies now worst ts))) ts
unfolding fold_tallies IsLongest
fold-IsLongest now worst [] w = (omega arith, tt)
fold-IsLongest now worst (t ∷ ts) w =
    let rest = fold-IsLongest now (weigh now t.dimension t.rule t.answer worst) ts w.1 in
    let this = weigh_longest now t worst w.0 in
    (omega (arith, rest.0, this.0), ((λ h. omega (arith, this.1 h, rest.0)), rest.1))

pub fold_blames :
    (now : ℕ) (worst : Option Decision) (ts : List Tally)
    → All HasWindow ts
    → (fold_tallies now worst ts ≡ worst)
      ⊎ ((d : Decision) × (fold_tallies now worst ts ≡ some d)
          × (any (λ t. trips t && blames now d t) ts ≡ true))
unfolding fold_tallies
fold_blames now worst [] w = inl refl
fold_blames now worst (t ∷ ts) w =
    elim (fold_blames now (weigh now t.dimension t.rule t.answer worst) ts w.1) [
      | inr later ↦ inr (later.0, later.1, ground (arith, later.2))
      | inl same ↦ elim (weigh_cases now t worst w.0) [
        | inl kept ↦ inl (same ∙ kept)
        | inr new ↦ inr (blamed now t, same ∙ new.0, ground (arith, new.1, blames-blamed now t))
      ]
    ]
