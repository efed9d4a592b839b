-- ===== src/Seo.antt =====
-- backend/app/engines/seo/score.py. A penalty is a number of half points.
pub mod Verdict
mod Samples
use socio_seo_agent.Prelude.{
  ℕ, ◌+◌, ◌-◌, ◌*◌, ◌/◌, String, Bool, true, false, not, ◌&&◌, List, [], ◌∷◌, any, leb,
  if◌then◌else◌,
}

-- `SeoFindingCode`
pub data Code : Type 0 where
  title_length meta_length keyword_density readability heading_tree : Code
  internal_links external_links image_alt schema_invalid : Code

-- `SeoSeverity`
pub data Severity : Type 0 where
  error warn info : Severity

-- `SeoFinding`, less its measurement.
pub record Finding : Type 0 where
  pub code : Code
  pub severity : Severity
  pub message : String
  pub fix_hint : String

-- `RULE_WEIGHTS`
unfoldable pub rule_weight : Code → ℕ
rule_weight title_length = 15
rule_weight heading_tree = 15
rule_weight keyword_density = 12
rule_weight internal_links = 12
rule_weight meta_length = 10
rule_weight readability = 10
rule_weight schema_invalid = 10
rule_weight external_links = 8
rule_weight image_alt = 8

-- `penalty_for`, by `SEVERITY_PENALTY`
unfoldable pub penalty_for : Finding → ℕ
unfolding rule_weight
penalty_for f = elim f.severity [
  | error ↦ rule_weight f.code * 2
  | warn ↦ rule_weight f.code
  | info ↦ 0
]

unfoldable pub is_error : Finding → Bool
is_error f = elim f.severity [ error ↦ true | _ ↦ false ]

unfoldable pub total_penalty : List Finding → ℕ
unfolding penalty_for
total_penalty [] = 0
total_penalty (f ∷ fs) = penalty_for f + total_penalty fs

-- The score of a penalty: 100 less it, rounded half up, and clamped to 0 and 100.
unfoldable pub score_of : ℕ → ℕ
score_of penalty = let score = (200 - penalty + 1) / 2 in if leb score 100 then score else 100

-- `PASS_SCORE`
abbrev pub pass_score : ℕ
pass_score = 85

-- `aggregate`
unfoldable pub aggregate : List Finding → ℕ × Bool
unfolding total_penalty score_of is_error
aggregate findings =
    let score = score_of (total_penalty findings) in
    (score, leb pass_score score && not (any is_error findings))
