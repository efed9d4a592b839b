-- ===== src/Worker/Slots.antt =====
-- The worker of backend/app/worker/scheduler.py as an implementation of a book of slots: a business's
-- slots are taken in their order, each at most once.
use socio_seo_agent.Prelude.{
  ℕ, ◌≤◌, ◌<◌, ◌≡◌, refl, ap, sym, ◌∙◌, String, Bool, true, false, Option, none, some, List, [],
  ◌∷◌, ◌++◌, arith, ◌==◌, Bool-cases, Option-cases, Result-cases, inl, inr, All, ok,
}
use mathlib.Core.Path.{subst}
use mathlib.Core.Option.{some-injective}
use socio_seo_agent.Schedule.Later.{compute_next_run-later}
use socio_seo_agent.Channels.{normalise_channels}
use socio_seo_agent.Runs.Service.{start}
use socio_seo_agent.Worker.{
  Automation, Automations, Due, Slot, Tables, Env, set_row, claim_row, claim_at_time, claim_due,
  following_run, pause_row, pause_spent, pause_over_ceiling, start_due_run, instant,
  over_monthly_cap, goal_of,
}

-- Every slot of the business that was taken is before this time.
abbrev pub Before : ℕ → ℕ → List Slot → Type 0
Before b time taken = All (λ s. s.business_id ≡ b → s.time < time) taken

-- The book: it stays, or a business's next slot is taken.
pub data Books : List Slot → List Slot → Type 0 where
  stays : (taken : List Slot) → Books taken taken
  takes :
      (b time : ℕ) (taken : List Slot)
      → Before b time taken
      → Books taken (record { business_id = b; time = time } ∷ taken)

pub data Booked : List Slot → List Slot → Type 0 where
  none_yet : (taken : List Slot) → Booked taken taken
  one_more :
      (first taken last : List Slot) → Books first taken → Booked taken last → Booked first last

pub following_run-later :
    (env : Env) (now : ℕ) (a : Automation) (t : ℕ) → following_run env now a ≡ ok t → now < t
unfolding following_run instant
following_run-later env now a t h =
    compute_next_run-later env.zones a.cadence a.day_of_week a.hour a.timezone (instant now) _ t h

-- The slots that were taken are behind what each automation holds.
abbrev pub Ahead : Tables → Type 0
Ahead w =
    (b : ℕ) (a : Automation) (slot : ℕ)
    → w.automations b ≡ some a
    → a.next_run_at ≡ some slot
    → Before b slot w.claims

pub record Moves (v w : Tables) : Type 0 where
  pub books : Books v.claims w.claims
  pub ahead : Ahead w

pub still : (w : Tables) → Ahead w → Moves w w
still w h = record { books = Books.stays w.claims; ahead = h }

Before-weaken : (b s t : ℕ) (taken : List Slot) → s ≤ t → Before b s taken → Before b t taken
Before-weaken b s t [] h p = tt
Before-weaken b s t (x ∷ taken) h (px, p) =
    (λ e. omega (arith, px e), Before-weaken b s t taken h p)

-- What another automation than the one written holds.
set_row-other :
    (b c : ℕ) (a : Automation) (rows : Automations) → (c == b) ≡ false → set_row b a rows c ≡ rows c
unfolding set_row
set_row-other b c a rows h = rw h refl

pub set_row-own :
    (b c : ℕ) (a : Automation) (rows : Automations) → (c == b) ≡ true → set_row b a rows c ≡ some a
unfolding set_row
set_row-own b c a rows h = rw h refl

-- A write of a row whose slot is no earlier than what was taken keeps the order.
set_row-Ahead :
    (b : ℕ) (a : Automation) (w : Tables) (taken : List Slot)
    → ((c : ℕ) (d : Automation) (slot : ℕ)
        → (c == b) ≡ false
        → w.automations c ≡ some d
        → d.next_run_at ≡ some slot
        → Before c slot taken)
    → ((c slot : ℕ) → c ≡ b → a.next_run_at ≡ some slot → Before c slot taken)
    → Ahead (record w { automations = set_row b a w.automations; claims = taken })
set_row-Ahead b a w taken others own c d slot e n = elim (Bool-cases (c == b)) [
  | inl same ↦ own c slot (ground arith) (
      ap (λ r. r.next_run_at) (some-injective _ _ (sym (set_row-own b c a w.automations same) ∙ e))
      ∙ n)
  | inr other ↦ others c d slot other (sym (set_row-other b c a w.automations other) ∙ e) n
]

pause-Ahead :
    (b : ℕ) (reason : String) (w : Tables) (row : Option Automation)
    → w.automations b ≡ row
    → Ahead w
    → Ahead (record w { automations = pause_row b reason row w.automations })
unfolding pause_row
pause-Ahead b reason w none e h = h
pause-Ahead b reason w (some a) e h =
    set_row-Ahead b (record a { paused_reason = some reason }) w w.claims
      (λ c d slot other. h c d slot) (λ c slot same n. h c a slot (ap w.automations same ∙ e) n)

claim_row-Moves :
    (now following : ℕ) (row : Due) (w : Tables) (held : Option Automation)
    → row.seen < following
    → w.automations row.business_id ≡ held
    → Ahead w
    → Moves w (claim_row now following row w held).1
unfolding claim_row
claim_row-Moves now following row w none later e h = still w h
claim_row-Moves now following row w (some a) later e h = elim (Option-cases a.next_run_at) [
  | inl n ↦ rw n (still w h)
  | inr (slot, n) ↦ elim (Bool-cases (slot == row.seen)) [
    | inr other ↦ rw (n, other) (still w h)
    | inl same ↦ rw (n, same) (won slot n (ground arith))
  ]
]
  where
    won :
        (slot : ℕ)
        → a.next_run_at ≡ some slot
        → slot ≡ row.seen
        → Moves w (record w {
          automations =
              set_row row.business_id
                (record a { next_run_at = some following; last_run_at = some now })
                w.automations;
          claims = record { business_id = row.business_id; time = row.seen } ∷ w.claims;
        })
    won slot n same =
        let before : Before row.business_id row.seen w.claims =
          h row.business_id a row.seen e (n ∙ ap some same) in
        let taken : List Slot =
          record { business_id = row.business_id; time = row.seen } ∷ w.claims in
        record {
          books = Books.takes row.business_id row.seen w.claims before;
          ahead =
              set_row-Ahead row.business_id _ w taken
                (λ c d t other f m. (λ clash. absurd (ground arith), h c d t f m))
                (λ c t own m.
                  let reached : following ≡ t = some-injective _ _ m in
                  (
                    λ clash. omega (arith, reached),
                    Before-weaken c row.seen t w.claims (omega (arith, reached))
                        (subst (λ b. Before b row.seen w.claims) (sym own) before),
                  ));
        }

pub claim_due-Moves :
    (env : Env) (now : ℕ) (row : Due) (w : Tables) (o : Option ℕ) (changed : Tables)
    → row.seen ≤ now
    → Ahead w
    → claim_due env now row w ≡ ok (o, changed)
    → Moves w changed
unfolding claim_due claim_at_time
claim_due-Moves env now row w o changed seen h e =
    elim (Result-cases (following_run env now row.automation)) [
      | inr (refusal, f) ↦ absurd (ground arith)
      | inl (following, f) ↦ elim (Bool-cases (env.claim_fails row.business_id)) [
        | inl down ↦ absurd (ground arith)
        | inr up ↦
            let later = following_run-later env now row.automation following f in
            let moved : (claim_row now following row w (w.automations row.business_id)).1
                ≡ changed =
              ground arith in
            subst (Moves w) moved
              (claim_row-Moves now following row w _ (omega (arith, later)) refl h)
      ]
    ]

pub pause-Moves :
    (env : Env) (b : ℕ) (w : Tables) (o : Bool) (changed : Tables)
    → Ahead w
    → pause_over_ceiling env b w ≡ ok (o, changed)
    → Moves w changed
unfolding pause_over_ceiling pause_spent
pause-Moves env b w o changed h e = elim (Option-cases (env.spend b)) [
  | inl s ↦ absurd (ground arith)
  | inr (spent, s) ↦ elim (Bool-cases (over_monthly_cap spent env.cap)) [
    | inr under ↦ let same : w ≡ changed = ground arith in subst (Moves w) same (still w h)
    | inl over ↦ elim (Bool-cases (env.pause_fails b)) [
      | inl down ↦ absurd (ground arith)
      | inr up ↦
          let paused : Tables = record w {
            automations = pause_row b (env.sentence spent) (w.automations b) w.automations;
          } in
          let same : paused ≡ changed = ground arith in
          subst (Moves w) same (record {
            books = Books.stays w.claims;
            ahead = pause-Ahead b (env.sentence spent) w _ refl h;
          })
    ]
  ]
]

pub start-Moves :
    (env : Env) (row : Due) (w changed : Tables)
    → Ahead w
    → start_due_run env row w ≡ ok changed
    → Moves w changed
unfolding start_due_run
start-Moves env row w changed h e = elim (Bool-cases (env.start_fails row.business_id)) [
  | inl down ↦ absurd (ground arith)
  | inr up ↦
      let made : Tables = record w {
        store =
            start (env.uuid w.store) row.business_id (goal_of row.automation.goal_template)
              (normalise_channels env.lower row.automation.channels) w.store;
        submitted =
            w.submitted
            ++ record {
              run_id = env.uuid w.store;
              business_id = row.business_id;
              goal = goal_of row.automation.goal_template;
            }
              ∷ [];
      } in
      let same : made ≡ changed = ground arith in
      subst (Moves w) same (record { books = Books.stays w.claims; ahead = h })
]
