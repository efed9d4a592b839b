-- ===== src/Worker/Early.antt =====
-- Two claims of one slot by backend/app/worker/scheduler.py.
use socio_seo_agent.Prelude.{
  ℕ, ◌<◌, ◌≡◌, ◌⊎◌, refl, sym, false, Option, none, some, ◌∷◌, arith, ◌==◌, ok, Bool-cases,
  Option-cases, Result-cases, inl, inr, if◌then◌else◌,
}
use mathlib.Core.Path.{subst}
use socio_seo_agent.Worker.{
  Automation, Due, Slot, Tables, Env, set_row, claim_row, claim_at_time, claim_due, following_run,
}
use socio_seo_agent.Worker.Slots.{following_run-later, set_row-own}

abbrev pub slot_of : Due → Slot
slot_of row = record { business_id = row.business_id; time = row.seen }

-- The tables behind a claim that wins.
abbrev pub claimed : ℕ → ℕ → Due → Automation → Tables → Tables
claimed now following row a w = record w {
  automations =
      set_row row.business_id (record a { next_run_at = some following; last_run_at = some now })
        w.automations;
  claims = slot_of row ∷ w.claims;
}

-- What a claim that won has met, and what it has left.
record Won (env : Env) (now following : ℕ) (row : Due) (w v : Tables) : Type 0 where
  computed : following_run env now row.automation ≡ ok following
  up : env.claim_fails row.business_id ≡ false
  old : Automation
  left : v ≡ claimed now following row old w

claim_row-won :
    (now next following : ℕ) (row : Due) (w v : Tables) (held : Option Automation)
    → claim_row now next row w held ≡ (some following, v)
    → (a : Automation) × (next ≡ following) × (v ≡ claimed now next row a w)
unfolding claim_row
claim_row-won now next following row w v none e = absurd (ground arith)
claim_row-won now next following row w v (some a) e = elim (Option-cases a.next_run_at) [
  | inl n ↦ absurd (ground arith)
  | inr (slot, n) ↦ elim (Bool-cases (slot == row.seen)) [
    | inr other ↦ absurd (ground arith)
    | inl same ↦ (a, ground arith, ground arith)
  ]
]

claim_due-Won :
    (env : Env) (now following : ℕ) (row : Due) (w v : Tables)
    → claim_due env now row w ≡ ok (some following, v)
    → Won env now following row w v
unfolding claim_due claim_at_time
claim_due-Won env now following row w v e =
    elim (Result-cases (following_run env now row.automation)) [
      | inr (refusal, f) ↦ absurd (ground arith)
      | inl (next, f) ↦ elim (Bool-cases (env.claim_fails row.business_id)) [
        | inl down ↦ absurd (ground arith)
        | inr up ↦
            let (a, same, left) =
              claim_row-won now next following row w v (w.automations row.business_id)
                (ground arith) in
            record { computed = ground arith; up = up; old = a; left = ground arith }
      ]
    ]

-- A claim of a row that holds this slot.
claim_held :
    (env : Env) (again later slot : ℕ) (rival : Due) (a : Automation) (v : Tables)
    → following_run env again rival.automation ≡ ok later
    → env.claim_fails rival.business_id ≡ false
    → v.automations rival.business_id ≡ some a
    → a.next_run_at ≡ some slot
    → claim_due env again rival v
      ≡ ok (if slot == rival.seen then (some later, claimed again later rival a v) else (none, v))
unfolding claim_due claim_at_time claim_row
claim_held env again later slot rival a v next up held n = elim (Bool-cases (slot == rival.seen)) [
  | inl same ↦ rw (next, claim_due, up, held, n, same) refl
  | inr other ↦ rw (next, claim_due, up, held, n, other) refl
]

-- The first claim left another slot in the row, and the second is refused and changes nothing.
pub record Loses (env : Env) (following again : ℕ) (row rival : Due) (v : Tables) : Type 0 where
  pub moved : (following == row.seen) ≡ false
  pub refused : claim_due env again rival v ≡ ok (none, v)

-- The first claim left the slot that it took, its clock being before it, and the second takes it too.
pub record Repeats (env : Env) (now following again later : ℕ) (row rival : Due) (w v : Tables)
    : Type 0 where
  pub stuck : following ≡ row.seen
  pub early : now < row.seen
  pub last : Tables
  pub granted : claim_due env again rival v ≡ ok (some later, last)
  pub twice : last.claims ≡ slot_of row ∷ slot_of row ∷ w.claims

-- What becomes of a second claim of a slot, by another tick, behind a claim that won.
pub record Contest (env : Env) (now following again later : ℕ) (row rival : Due) (w v : Tables)
    : Type 0 where
  pub taken : v.claims ≡ slot_of row ∷ w.claims
  pub second :
      Loses env following again row rival v ⊎ Repeats env now following again later row rival w v

contest :
    (env : Env) (now following again later : ℕ) (row : Due) (read a : Automation) (w : Tables)
    → following_run env now row.automation ≡ ok following
    → following_run env again read ≡ ok later
    → env.claim_fails row.business_id ≡ false
    → Contest env now following again later row
        (record row { automation = read })
        w
        (claimed now following row a w)
contest env now following again later row read a w first next up = record {
  taken = refl;
  second = elim (Bool-cases (following == row.seen)) [
    | inr other ↦ inl (record { moved = other; refused = rw held (rw other refl) })
    | inl same ↦
        let stuck : following ≡ row.seen = ground arith in
        inr (record {
          stuck = stuck;
          early = omega (arith, stuck, following_run-later env now row.automation following first);
          last = claimed again later rival left v;
          granted = rw held (rw same refl);
          twice = refl;
        })
  ];
}
  where
    rival : Due
    rival = record row { automation = read }

    left : Automation
    left = record a { next_run_at = some following; last_run_at = some now }

    v : Tables
    v = claimed now following row a w

    held :
        claim_due env again rival v
        ≡ ok (
            if following == row.seen
            then (some later, claimed again later rival left v)
            else (none, v))
    held =
        claim_held env again later following rival left v next up
          (set_row-own row.business_id row.business_id left w.automations (ground arith)) refl

-- A slot is taken twice exactly where the first claim left it in the row, which takes an early clock:
-- where a tick's claim of a slot won and another tick, whose row held the same slot, then claims it
-- with a next run of its own, either the first left another slot in the row, and the second claim
-- loses and changes nothing; or the first left the slot that it took, its clock was before the slot,
-- and the second wins too and the slot is taken twice.
pub early_claim_repeats :
    (env : Env) (now following again later : ℕ) (row : Due) (read : Automation) (w v : Tables)
    → claim_due env now row w ≡ ok (some following, v)
    → following_run env again read ≡ ok later
    → Contest env now following again later row (record row { automation = read }) w v
early_claim_repeats env now following again later row read w v won next =
    let first = claim_due-Won env now following row w v won in
    subst (Contest env now following again later row (record row { automation = read }) w)
      (sym first.left)
      (contest env now following again later row read first.old w first.computed next first.up)
