-- ===== src/Publish.antt =====
-- backend/app/services/publish_cap.py, over the count that the ledger takes.
pub mod Cap
mod Samples
use socio_seo_agent.Prelude.{
  ℕ, ◌-◌, ◌*◌, String, Bool, Option, none, some, List, leb, ◌==◌, if◌then◌else◌,
}
use socio_seo_agent.Actuators.Ledger.{Table, published_since}

-- `WEEKLY_WINDOW_DAYS`
abbrev pub weekly_window_days : ℕ
weekly_window_days = 7

-- `WeeklyPublishState`
pub record Weekly : Type 0 where
  pub published : ℕ
  pub cap : ℕ
  pub window_days : ℕ

-- max(0, cap - published)
unfoldable pub headroom : Weekly → ℕ
headroom s = s.cap - s.published

unfoldable pub exhausted : Weekly → Bool
unfolding headroom
exhausted s = headroom s == 0

-- `window_start`
unfoldable pub window_start : ℕ → ℕ
window_start now = now - weekly_window_days * 86400

-- `counter_for`
unfoldable pub counter_for : Table → List String → ℕ → ℕ → ℕ
unfolding window_start published_since
counter_for rows action_types now business_id =
    published_since business_id action_types (window_start now) rows

-- `weekly_publish_state`, with the configured ceiling where none is named.
unfoldable pub weekly_publish_state :
    (configured : ℕ) → (ℕ → ℕ) → (business_id : ℕ) → Option ℕ → Weekly
weekly_publish_state configured count business_id cap = record {
  published = count business_id;
  cap = elim cap [ some n ↦ n | none ↦ configured ];
  window_days = weekly_window_days;
}
