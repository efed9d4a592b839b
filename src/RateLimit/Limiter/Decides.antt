-- ===== src/RateLimit/Limiter/Decides.antt =====
-- What `FixedWindowRateLimiter.check` decides.
use mathlib.Core.Path.{subst}
use socio_seo_agent.Prelude.{
  ℕ, ◌≤◌, String, ◌≡◌, ◌⊎◌, refl, ap, sym, ◌∙◌, true, false, not, ◌&&◌, Option, none, some, List,
  [], ◌∷◌, arith, any, All, Option-cases, inl, inr,
}
use socio_seo_agent.RateLimit.Limiter.{
  Rule, Decision, Limiter, rule_at, weigh, key_for, count, check_from, conclusion, check,
}
use socio_seo_agent.RateLimit.Limiter.Fold.{
  HasWindow, IsLongest, IsRefusal, Tally, blames, fold-IsLongest, fold_blames, fold_tallies,
  fold_tallies-IsRefusal, fold_trips, retry_of, tripped, trips, wait,
}

-- What a check reports, of the counts that it takes.
pub record IsDecided (now : ℕ) (ts : List Tally) (d : Decision) : Type 0 where
  pub allowed : d.allowed ≡ not (any trips ts)
  pub positive : d.allowed ≡ false → 1 ≤ d.retry_after_seconds
  pub blamed : d.allowed ≡ false → any (λ t. trips t && blames now d t) ts ≡ true
  pub longest : All (λ t. trips t ≡ true → wait now t ≤ d.retry_after_seconds) ts

decided :
    (now : ℕ) (ts : List Tally) (r : Option Decision)
    → fold_tallies now none ts ≡ r
    → All HasWindow ts
    → IsDecided now ts (conclusion r)
unfolding conclusion tripped IsLongest retry_of IsRefusal
decided now ts none e w = record {
  allowed = ground (arith, fold_trips now none ts, ap tripped e);
  positive = λ h. ground arith;
  blamed = λ h. ground arith;
  longest = subst (λ r. All (IsLongest now (retry_of r)) ts) e (fold-IsLongest now none ts w).1;
}
decided now ts (some d) e w =
    let refusal = subst IsRefusal e (fold_tallies-IsRefusal now none ts tt) in
    record {
      allowed = ground (arith, fold_trips now none ts, ap tripped e, refusal.0);
      positive = λ h. refusal.1;
      blamed = λ h. blamed_by (fold_blames now none ts w);
      longest = subst (λ r. All (IsLongest now (retry_of r)) ts) e (fold-IsLongest now none ts w).1;
    }
  where
    absent : some d ≡ none → ⊥
    absent x = cc

    some_eq : {b c : Decision} → some b ≡ some c → b ≡ c
    some_eq x = cc

    blamed_by :
        (fold_tallies now none ts ≡ none)
          ⊎ ((c : Decision) × (fold_tallies now none ts ≡ some c)
              × (any (λ t. trips t && blames now c t) ts ≡ true))
        → any (λ t. trips t && blames now d t) ts ≡ true
    blamed_by (inl same) = absurd (absent (sym e ∙ same))
    blamed_by (inr (c, found, h)) =
        subst (λ c. any (λ t. trips t && blames now c t) ts ≡ true) (some_eq (sym found ∙ e)) h

module _ {S F : Type 0} (l : Limiter S F) where
  -- The counts that a check takes: every dimension that has a rule, in order.
  unfoldable pub tallies : ℕ → List (String × String) → S × F → List Tally × (S × F)
  tallies now [] st = ([], st)
  tallies now (entry ∷ values) st = elim (rule_at entry.0 l.rules) [
    | none ↦ tallies now values st
    | some rule ↦
        let counted = count l (key_for l now entry.0 entry.1 rule) rule.window_seconds st in
        let rest = tallies now values counted.1 in
        (record { dimension = entry.0; rule = rule; answer = counted.0 } ∷ rest.0, rest.1)
  ]

  check_from-eq_fold :
      (now : ℕ) (worst : Option Decision) (values : List (String × String)) (st : S × F)
      → check_from l now worst values st
        ≡ (fold_tallies now worst (tallies now values st).0, (tallies now values st).1)
  unfolding check_from tallies fold_tallies
  check_from-eq_fold now worst [] st = refl
  check_from-eq_fold now worst (entry ∷ values) st = elim (Option-cases (rule_at entry.0 l.rules)) [
    | inl free ↦ rw (free, check_from, tallies) (check_from-eq_fold now worst values st)
    | inr ruled ↦
        rw (ruled.1, check_from, tallies)
          (check_from-eq_fold now
            (weigh now entry.0 ruled.0
              (count l (key_for l now entry.0 entry.1 ruled.0) ruled.0.window_seconds st).0 worst)
            values _)
  ]

  unfoldable pub HasWindows : Type 0
  HasWindows = All (λ entry. 1 ≤ entry.1.window_seconds) l.rules

  rule_at_window :
      (rules : List (String × Rule)) (dimension : String) (rule : Rule)
      → All (λ entry. 1 ≤ entry.1.window_seconds) rules
      → rule_at dimension rules ≡ some rule
      → 1 ≤ rule.window_seconds
  unfolding rule_at
  rule_at_window [] dimension rule w e = ground arith
  rule_at_window (entry ∷ rules) dimension rule w e =
      ground (arith, rule_at_window rules dimension rule w.1)

  tallies_window :
      (now : ℕ) (values : List (String × String)) (st : S × F)
      → HasWindows
      → All HasWindow (tallies now values st).0
  unfolding tallies HasWindows HasWindow
  tallies_window now [] st w = tt
  tallies_window now (entry ∷ values) st w = elim (Option-cases (rule_at entry.0 l.rules)) [
    | inl free ↦ rw (free, tallies) (tallies_window now values st w)
    | inr ruled ↦
        rw (ruled.1, tallies)
          (rule_at_window l.rules entry.0 ruled.0 w ruled.1, tallies_window now values _ w)
  ]

  -- A check counts every dimension that has a rule, also behind one over its limit, and allows the
  -- request exactly if no count is over its limit, one that nothing could take among them; a refusal
  -- names a dimension that is over, and asks for its wait, which is at least a second and the longest
  -- of those that are over. The windows of the rules are a second at least.
  pub check-IsDecided :
      (now : ℕ) (values : List (String × String)) (st : S × F)
      → HasWindows
      → IsDecided now (tallies now values st).0 (check l now values st).0
        × ((check l now values st).1 ≡ (tallies now values st).1)
  unfolding check HasWindows
  check-IsDecided now values st w =
      rw check_from-eq_fold (decided now _ _ refl (tallies_window now values st w), refl)
