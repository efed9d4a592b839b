-- ===== src/Seo/Verdict.antt =====
-- The gate that the score is.
use socio_seo_agent.Prelude.{
  ℕ, ◌+◌, ◌≤◌, String, ◌≡◌, not, ◌&&◌, List, [], ◌∷◌, ◌++◌, any, leb, arith,
}
use socio_seo_agent.Seo.{
  Code, Severity, error, warn, info, Finding, penalty_for, is_error, total_penalty, score_of,
  aggregate,
}

-- A page passes exactly if it has no error and at most 15.5 points of penalty, one half point more
-- than the 15 that the threshold leaves; the score is at most 100.
pub aggregate_passes :
    (findings : List Finding)
    → ((aggregate findings).1 ≡ not (any is_error findings) && leb (total_penalty findings) 31)
      × ((aggregate findings).0 ≤ 100)
unfolding aggregate
aggregate_passes findings = (ground arith, ground arith)

-- A severity that is no milder.
abbrev pub AtLeast : Severity → Severity → Type 0
AtLeast error s = Unit
AtLeast warn error = ⊥
AtLeast warn s = Unit
AtLeast info info = Unit
AtLeast info s = ⊥

penalty_grows :
    (code : Code) (s t : Severity) (message fix_hint : String)
    → AtLeast t s
    → penalty_for (record { code = code; severity = s; message = message; fix_hint = fix_hint })
      ≤ penalty_for (record { code = code; severity = t; message = message; fix_hint = fix_hint })
unfolding penalty_for
penalty_grows code error error m h a = omega arith
penalty_grows code warn error m h a = omega arith
penalty_grows code info error m h a = omega arith
penalty_grows code error warn m h a = absurd a
penalty_grows code warn warn m h a = omega arith
penalty_grows code info warn m h a = omega arith
penalty_grows code error info m h a = absurd a
penalty_grows code warn info m h a = absurd a
penalty_grows code info info m h a = omega arith

total_penalty-append :
    (xs ys : List Finding) → total_penalty (xs ++ ys) ≡ total_penalty xs + total_penalty ys
unfolding total_penalty
total_penalty-append [] ys = omega arith
total_penalty-append (x ∷ xs) ys = omega (arith, total_penalty-append xs ys)

score_falls : (p q : ℕ) → p ≤ q → score_of q ≤ score_of p
unfolding score_of
score_falls p q h = ground arith

abbrev pub finding : Code → Severity → String → String → Finding
finding code severity message fix_hint = record {
  code = code;
  severity = severity;
  message = message;
  fix_hint = fix_hint;
}

-- A worse finding never raises the score: among any others, a rule's finding with a severity that is
-- no milder scores at most as much.
pub aggregate_monotone :
    (before after : List Finding) (code : Code) (s t : Severity) (message fix_hint : String)
    → AtLeast t s
    → (aggregate (before ++ finding code t message fix_hint ∷ after)).0
      ≤ (aggregate (before ++ finding code s message fix_hint ∷ after)).0
unfolding aggregate total_penalty
aggregate_monotone before after code s t message fix_hint a =
    score_falls (total_penalty (before ++ finding code s message fix_hint ∷ after))
      (total_penalty (before ++ finding code t message fix_hint ∷ after))
      (omega (
        arith,
        total_penalty-append before (finding code t message fix_hint ∷ after),
        total_penalty-append before (finding code s message fix_hint ∷ after),
        penalty_grows code s t message fix_hint a,
      ))
