-- ===== src/Actuators/Actuate/Settled.antt =====
-- A key that has a row is out of every later request's reach.
use socio_seo_agent.Prelude.{
  ℕ, String, ◌≡◌, refl, ap, sym, ◌∙◌, true, false, none, some, [], ◌∷◌, ◌++◌, arith, str_eq, eq_iff,
  if◌then◌else◌, Bool-cases, Option-cases, inl, inr,
}
use socio_seo_agent.Strings.{is_blank}
use socio_seo_agent.Actuators.Ledger
use socio_seo_agent.Actuators.Ledger.{Actuation, Row, Table, row_at, refusal, wrong_actuator}
use socio_seo_agent.Actuators.Actuate.{Actuator, World, actuate}
use socio_seo_agent.Actuators.Actuate.Once.{calls, calls-snoc}
use socio_seo_agent.Actuators.Actuate.Replay.{actuate_taken, actuate-IsFirst}

taken_apart :
    (key j : String) (row : Row) (rows : Table)
    → row_at j rows ≡ some row
    → row_at key rows ≡ none
    → str_eq key j ≡ false
taken_apart key j row rows found free = elim (Bool-cases (str_eq key j)) [
  | inl same ↦
      absurd (some_none (sym found ∙ ap (λ k. row_at k rows) (sym ((eq_iff key j).0 same)) ∙ free))
  | inr other ↦ other
]
  where
    some_none : some row ≡ none → ⊥
    some_none e = ground arith

pub actuate_wrong :
    (derive : Actuation → String) (now : ℕ) (actuator : Actuator) (a : Actuation) (w : World)
    → str_eq actuator.action_type a.action_type ≡ false
    → actuate derive now actuator a w ≡ (refusal a wrong_actuator, w)
unfolding actuate
actuate_wrong derive now actuator a w wrong = rw (wrong, actuate) refl

module _ (derive : Actuation → String) where
  -- The row of a key, and the calls that were made under it.
  pub record IsTaken (key : String) (row : Row) (n : ℕ) (w : World) : Type 0 where
    pub found : row_at key w.rows ≡ some row
    pub called : calls derive key w.sent ≡ n

  free-IsTaken :
      (key : String) (row : Row) (n now : ℕ) (actuator : Actuator) (a : Actuation) (w : World)
      → str_eq actuator.action_type a.action_type ≡ true
      → row_at (Ledger.idempotency_key derive a) w.rows ≡ none
      → IsTaken key row n w
      → IsTaken key row n (actuate derive now actuator a w).1
  free-IsTaken key row n now actuator a w right free h =
      let first = actuate-IsFirst derive now actuator a w right free in
      let other = taken_apart (Ledger.idempotency_key derive a) key row w.rows h.found free in
      record {
        found = first.others key other ∙ h.found;
        called = ap (calls derive key) first.sent ∙ uncalled other;
      }
    where
      uncalled :
          str_eq (Ledger.idempotency_key derive a) key ≡ false
          → calls derive key (if is_blank a.approved_by then w.sent else w.sent ++ a ∷ []) ≡ n
      uncalled other = elim (Bool-cases (is_blank a.approved_by)) [
        | inl blank ↦ rw blank h.called
        | inr approved ↦ rw (approved, calls-snoc, other) (omega (arith, h.called))
      ]

  -- Whatever is requested, the key keeps its row and its calls.
  pub actuate-IsTaken :
      (key : String) (row : Row) (n now : ℕ) (actuator : Actuator) (a : Actuation) (w : World)
      → IsTaken key row n w
      → IsTaken key row n (actuate derive now actuator a w).1
  actuate-IsTaken key row n now actuator a w h =
      elim (Bool-cases (str_eq actuator.action_type a.action_type)) [
        | inr wrong ↦ rw (actuate_wrong derive now actuator a w wrong) h
        | inl right ↦ elim (Option-cases (row_at (Ledger.idempotency_key derive a) w.rows)) [
          | inl free ↦ free-IsTaken key row n now actuator a w right free h
          | inr (other, taken) ↦ rw (actuate_taken derive now actuator a w other right taken) h
        ]
      ]
