-- ===== src/Actuators/Actuate/Rows.antt =====
-- The row of a key, behind the writes of `claim` and `settle`.
use mathlib.Core.Option
use socio_seo_agent.Prelude.{
  ℕ, ◌≤◌, String, ◌≡◌, refl, ap, none, some, [], ◌∷◌, ◌++◌, arith, str_eq, if◌then◌else◌,
}
use socio_seo_agent.Actuators.Ledger.{
  Actuation, Outcome, Row, Table, row_at, settle, settle_row, fresh_row, claim, claim_at,
}

pub row_at-append :
    (j : String) (rows : Table) (row : Row)
    → row_at j (rows ++ row ∷ []) ≡ elim (row_at j rows) [
      | some old ↦ some old
      | none ↦ if str_eq row.key j then some row else none
    ]
unfolding row_at
row_at-append j [] row = ground arith
row_at-append j (r ∷ rows) row = ground (arith, row_at-append j rows row)

-- A settlement writes to the row of its key, and keeps the keys.
pub row_at-settle :
    (key j : String) (a : Actuation) (outcome : Outcome) (rows : Table)
    → row_at j (settle key a outcome rows) ≡ Option.map (settle_row key a outcome) (row_at j rows)
unfolding row_at settle settle_row
row_at-settle key j a outcome [] = refl
row_at-settle key j a outcome (row ∷ rows) = ground (arith, row_at-settle key j a outcome rows)

-- 1 where the key has a row, else 0.
pub taken : String → Table → ℕ
unfolding row_at
taken key rows = elim (row_at key rows) [ none ↦ 0 | some row ↦ 1 ]

pub taken_free : (key : String) (rows : Table) → row_at key rows ≡ none → taken key rows ≡ 0
unfolding taken
taken_free key rows e = ground arith

pub taken_le : (key : String) (rows : Table) → taken key rows ≤ 1
unfolding taken
taken_le key rows = ground arith

pub taken-settle :
    (key j : String) (a : Actuation) (outcome : Outcome) (rows : Table)
    → taken j (settle key a outcome rows) ≡ taken j rows
unfolding taken
taken-settle key j a outcome rows = ground (arith, row_at-settle key j a outcome rows)

pub taken-append :
    (j : String) (rows : Table) (row : Row)
    → taken j (rows ++ row ∷ []) ≡ (if str_eq row.key j then 1 else taken j rows)
unfolding taken
taken-append j rows row = ground (arith, row_at-append j rows row)

claim-free :
    (now : ℕ) (key : String) (a : Actuation) (rows : Table)
    → row_at key rows ≡ none
    → (claim now key a rows).1 ≡ rows ++ fresh_row now key a ∷ []
unfolding claim claim_at
claim-free now key a rows free = ap (λ found. (claim_at now key a rows found).1) free

pub taken-claim :
    (now : ℕ) (key j : String) (a : Actuation) (rows : Table)
    → row_at key rows ≡ none
    → taken j (claim now key a rows).1 ≡ (if str_eq key j then 1 else taken j rows)
unfolding fresh_row
taken-claim now key j a rows free =
    rw (claim-free now key a rows free) (taken-append j rows (fresh_row now key a))
