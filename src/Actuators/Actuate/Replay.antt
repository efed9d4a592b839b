-- ===== src/Actuators/Actuate/Replay.antt =====
-- What a request does to the ledger and the outside, on every path, and what a second one finds.
use mathlib.Core.Option
use socio_seo_agent.Prelude.{
  ℕ, String, ◌≡◌, refl, ap, ◌∙◌, true, false, none, some, List, [], ◌∷◌, ◌++◌, arith, str_eq,
  eq_iff, if◌then◌else◌, Bool-cases, inl, inr,
}
use socio_seo_agent.Strings.{is_blank}
use socio_seo_agent.Actuators.Ledger
use socio_seo_agent.Actuators.Ledger.{
  Actuation, Outcome, Row, Status, refused, in_flight, settled, Table, row_at, fresh_row, settle,
  settle_row, claim, claim_at, held, refusal, no_approval,
}
use socio_seo_agent.Actuators.Actuate.{
  Actuator, World, carry_out, request, actuate, replay, outcome_of,
}
use socio_seo_agent.Actuators.Actuate.Rows.{row_at-append, row_at-settle}

-- The outcome of a request that reserved its key.
unfoldable pub first_outcome : Actuator → Actuation → List Actuation → Outcome
first_outcome actuator a sent =
    if is_blank a.approved_by
    then refusal a no_approval
    else outcome_of actuator a (actuator.perform sent a)

carry_out_lem :
    (key : String) (actuator : Actuator) (a : Actuation) (w : World)
    → carry_out key actuator a w ≡ (
      first_outcome actuator a w.sent,
      record {
        rows = settle key a (first_outcome actuator a w.sent) w.rows;
        sent = if is_blank a.approved_by then w.sent else w.sent ++ a ∷ [];
      },
    )
unfolding carry_out first_outcome
carry_out_lem key actuator a w = elim (Bool-cases (is_blank a.approved_by)) [
  | inl blank ↦ rw (blank, carry_out, first_outcome)
  | inr approved ↦ rw (approved, carry_out, first_outcome)
]

-- The row that an outcome leaves behind a claim.
unfoldable pub settled_row : ℕ → String → Actuation → Outcome → Row
unfolding fresh_row
settled_row now key a outcome = record (fresh_row now key a) {
  status = settled outcome.status;
  external_ref = outcome.external_ref;
  result = outcome.detail;
  error = outcome.error;
}

settle_row-fresh :
    (now : ℕ) (key : String) (a : Actuation) (outcome : Outcome)
    → settle_row key a outcome (fresh_row now key a) ≡ settled_row now key a outcome
unfolding settle_row settled_row
settle_row-fresh now key a outcome = ground (arith, eq_iff key key)

settle_row-other :
    (key j : String) (a : Actuation) (outcome : Outcome) (rows : Table)
    → str_eq key j ≡ false
    → row_at j (settle key a outcome rows) ≡ row_at j rows
unfolding settle row_at settle_row
settle_row-other key j a outcome [] h = refl
settle_row-other key j a outcome (row ∷ rows) h = ground (
  arith,
  settle_row-other key j a outcome rows,
  eq_iff row.key key,
  eq_iff row.key j,
  eq_iff key j,
)

claimed_row :
    (now : ℕ) (key : String) (a : Actuation) (rows : Table)
    → row_at key rows ≡ none
    → row_at key (rows ++ fresh_row now key a ∷ []) ≡ some (fresh_row now key a)
unfolding fresh_row
claimed_row now key a rows free = rw row_at-append (ground (arith, eq_iff key key))

claimed_others :
    (now : ℕ) (key : String) (a : Actuation) (rows : Table) (j : String)
    → str_eq key j ≡ false
    → row_at j (rows ++ fresh_row now key a ∷ []) ≡ row_at j rows
unfolding fresh_row
claimed_others now key a rows j other = rw row_at-append (ground (arith, eq_iff key j))

-- What a request on a free key leaves.
pub record IsFirst (derive : Actuation → String) (now : ℕ) (actuator : Actuator) (a : Actuation)
    (w : World) (reply : Outcome × World) : Type 0 where
  pub outcome : reply.0 ≡ first_outcome actuator a w.sent
  pub sent : reply.1.sent ≡ (if is_blank a.approved_by then w.sent else w.sent ++ a ∷ [])
  pub row :
      row_at (Ledger.idempotency_key derive a) reply.1.rows
      ≡ some (settled_row now (Ledger.idempotency_key derive a) a reply.0)
  pub others :
      (j : String)
      → str_eq (Ledger.idempotency_key derive a) j ≡ false
      → row_at j reply.1.rows ≡ row_at j w.rows

module _ (derive : Actuation → String) (now : ℕ) (actuator : Actuator) (a : Actuation)
    (w : World) where
  abbrev key : String
  key = Ledger.idempotency_key derive a

  abbrev claimed : World
  claimed = record w { rows = w.rows ++ fresh_row now key a ∷ [] }

  actuate-eq_carry_out :
      str_eq actuator.action_type a.action_type ≡ true
      → row_at key w.rows ≡ none
      → actuate derive now actuator a w ≡ carry_out key actuator a claimed
  unfolding actuate claim request claim_at
  actuate-eq_carry_out right free =
      rw (right, actuate)
        (ap (λ found. request key actuator a w (claim_at now key a w.rows found)) free)

  -- A request on a free key calls the integration exactly if it is approved, and leaves the key's row
  -- settled with the outcome that it returns, a refusal without approval included; every other key
  -- keeps its row.
  pub actuate-IsFirst :
      str_eq actuator.action_type a.action_type ≡ true
      → row_at key w.rows ≡ none
      → IsFirst derive now actuator a w (actuate derive now actuator a w)
  actuate-IsFirst right free = rw (actuate-eq_carry_out right free) (
      rw carry_out_lem (record {
        outcome = refl;
        sent = refl;
        row =
            row_at-settle key key a _ claimed.rows
            ∙ ap (Option.map (settle_row key a _)) (claimed_row now key a w.rows free)
            ∙ ap some (settle_row-fresh now key a _);
        others = λ j other.
            settle_row-other key j a _ claimed.rows other ∙ claimed_others now key a w.rows j other;
      }))

-- What a repeated request reports and leaves.
pub record IsReplay (first : Outcome × World) (reply : Outcome × World) : Type 0 where
  pub status : reply.0.status ≡ first.0.status
  pub external_ref : reply.0.external_ref ≡ first.0.external_ref
  pub detail : reply.0.detail ≡ first.0.detail
  pub error : reply.0.error ≡ first.0.error
  pub replayed : reply.0.replayed ≡ true
  pub world : reply.1 ≡ first.1

-- A request on a key that has a row.
pub actuate_taken :
    (derive : Actuation → String) (now : ℕ) (actuator : Actuator) (a : Actuation) (w : World)
    (row : Row)
    → str_eq actuator.action_type a.action_type ≡ true
    → row_at (Ledger.idempotency_key derive a) w.rows ≡ some row
    → actuate derive now actuator a w ≡ (replay (held a row), w)
unfolding actuate claim request claim_at
actuate_taken derive now actuator a w row right taken =
    rw (right, actuate)
      (ap
        (λ found.
          request (Ledger.idempotency_key derive a) actuator a w
            (claim_at now (Ledger.idempotency_key derive a) a w.rows found))
        taken)
