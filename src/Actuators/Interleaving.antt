-- ===== src/Actuators/Interleaving.antt =====
-- `actuate` in several processes at once over one ledger, where any of them may stop for ever between
-- two of its awaits: the claim, the call and the settlement are each one step, in any order of the
-- processes. The steps use the functions that backend/app/actuators/actuate.py composes.
pub mod Phases
use socio_seo_agent.Prelude.{
  ℕ, ◌+◌, ◌≤◌, String, ◌≡◌, ◌≢◌, ◌⊎◌, refl, ap, sym, ◌∙◌, true, false, Option, none, some, [], ◌∷◌,
  ◌++◌, arith, ◌==◌, str_eq, eq_iff, eq_refl, if◌then◌else◌, Bool-cases, inl, inr,
}
use mathlib.Core.Path.{subst}
use socio_seo_agent.Strings.{is_blank}
use socio_seo_agent.Actuators.Ledger
use socio_seo_agent.Actuators.Ledger.{
  Actuation, Outcome, Row, Table, row_at, fresh_row, settle, claim, claim_at, refusal, no_approval,
}
use socio_seo_agent.Actuators.Actuate.{World, outcome_of}
use socio_seo_agent.Actuators.Actuate.Once.{Request, calls, calls-snoc}
use socio_seo_agent.Actuators.Actuate.Rows.{
  taken, taken_free, taken_le, taken-settle, taken-append, taken-claim,
}
use socio_seo_agent.Actuators.Interleaving.Phases.{
  Phase, waiting, reserved, answered, over, System, set_phase, still_reserved, own_phase,
  reserved_cases,
}

module _ (derive : Actuation → String) (jobs : ℕ → Request) where
  abbrev pub key_of : ℕ → String
  key_of i = Ledger.idempotency_key derive (jobs i).actuation

  abbrev pub claim_of : ℕ → Table → Option Outcome × Table
  claim_of i rows = claim (jobs i).now (key_of i) (jobs i).actuation rows

  abbrev pub settle_of : ℕ → Outcome → Table → Table
  settle_of i outcome rows = settle (key_of i) (jobs i).actuation outcome rows

  -- One step of process `i`.
  pub data Step (s t : System) : Type 0 where
    reserve :
        (i : ℕ)
        → s.phase i ≡ waiting
        → row_at (key_of i) s.world.rows ≡ none
        → t ≡ record {
          world = record { rows = (claim_of i s.world.rows).1; sent = s.world.sent };
          phase = set_phase s.phase i reserved;
        }
        → Step s t
    find :
        (i : ℕ) (row : Row)
        → s.phase i ≡ waiting
        → row_at (key_of i) s.world.rows ≡ some row
        → t ≡ record {
          world = record { rows = (claim_of i s.world.rows).1; sent = s.world.sent };
          phase = set_phase s.phase i over;
        }
        → Step s t
    refuse :
        (i : ℕ)
        → s.phase i ≡ reserved
        → is_blank (jobs i).actuation.approved_by ≡ true
        → t ≡ record {
          world = record {
            rows = settle_of i (refusal (jobs i).actuation no_approval) s.world.rows;
            sent = s.world.sent;
          };
          phase = set_phase s.phase i over;
        }
        → Step s t
    call :
        (i : ℕ)
        → s.phase i ≡ reserved
        → is_blank (jobs i).actuation.approved_by ≡ false
        → t ≡ record {
          world = record { rows = s.world.rows; sent = s.world.sent ++ (jobs i).actuation ∷ [] };
          phase = set_phase s.phase i (
              answered (
                outcome_of
                  (jobs i).actuator
                  (jobs i).actuation
                  ((jobs i).actuator.perform s.world.sent (jobs i).actuation)));
        }
        → Step s t
    conclude :
        (i : ℕ) (outcome : Outcome)
        → s.phase i ≡ answered outcome
        → t ≡ record {
          world = record { rows = settle_of i outcome s.world.rows; sent = s.world.sent };
          phase = set_phase s.phase i over;
        }
        → Step s t

  pub data Reach (s : System) : System → Type 0 where
    here : Reach s s
    next : {t u : System} → Reach s t → Step t u → Reach s u

  record IsExclusive (s : System) : Type 0 where
    called : (key : String) → calls derive key s.world.sent ≤ taken key s.world.rows
    unused : (i : ℕ) → s.phase i ≡ reserved → calls derive (key_of i) s.world.sent ≡ 0
    held : (i : ℕ) → s.phase i ≡ reserved → taken (key_of i) s.world.rows ≡ 1
    alone : (i j : ℕ) → s.phase i ≡ reserved → s.phase j ≡ reserved → key_of i ≡ key_of j → i ≡ j

  settled-IsExclusive :
      (s : System) (i : ℕ) (outcome : Outcome) (p : Phase)
      → p ≢ reserved
      → IsExclusive s
      → IsExclusive (record {
        world = record { rows = settle_of i outcome s.world.rows; sent = s.world.sent };
        phase = set_phase s.phase i p;
      })
  settled-IsExclusive s i outcome p other e = record {
    called = λ key. rw taken-settle (e.called key);
    unused = λ j h. e.unused j (still_reserved s.phase i p j other h);
    held = λ j h. rw taken-settle (e.held j (still_reserved s.phase i p j other h));
    alone = λ j k h l.
        e.alone j k (still_reserved s.phase i p j other h) (still_reserved s.phase i p k other l);
  }

  called-IsExclusive :
      (s : System) (i : ℕ) (outcome : Outcome)
      → s.phase i ≡ reserved
      → IsExclusive s
      → IsExclusive (record {
        world = record { rows = s.world.rows; sent = s.world.sent ++ (jobs i).actuation ∷ [] };
        phase = set_phase s.phase i (answered outcome);
      })
  called-IsExclusive s i outcome r e = record {
    called = λ key. rw calls-snoc (room key);
    unused = λ j h.
        let rj = still_reserved s.phase i (answered outcome) j (λ x. cc) h in
        rw calls-snoc (rw (others j h rj) (omega (arith, e.unused j rj)));
    held = λ j h. e.held j (still_reserved s.phase i (answered outcome) j (λ x. cc) h);
    alone = λ j k h l.
        e.alone j k (still_reserved s.phase i (answered outcome) j (λ x. cc) h)
          (still_reserved s.phase i (answered outcome) k (λ x. cc) l);
  }
    where
      room :
          (key : String)
          → calls derive key s.world.sent + (if str_eq (key_of i) key then 1 else 0)
            ≤ taken key s.world.rows
      room key = ground (arith, eq_iff (key_of i) key, e.called key, e.unused i r, e.held i r)

      others :
          (j : ℕ)
          → set_phase s.phase i (answered outcome) j ≡ reserved
          → s.phase j ≡ reserved
          → str_eq (key_of i) (key_of j) ≡ false
      others j h rj = elim (Bool-cases (str_eq (key_of i) (key_of j))) [
        | inr e ↦ e
        | inl same ↦
            let one = e.alone i j r rj ((eq_iff (key_of i) (key_of j)).0 same) in
            let own = own_phase s.phase i (answered outcome) j one in cc
      ]

  reserved-IsExclusive :
      (s : System) (i : ℕ)
      → row_at (key_of i) s.world.rows ≡ none
      → IsExclusive s
      → IsExclusive (record {
        world = record { rows = (claim_of i s.world.rows).1; sent = s.world.sent };
        phase = set_phase s.phase i reserved;
      })
  reserved-IsExclusive s i free e = record {
    called = λ key.
        rw (taken-claim (jobs i).now (key_of i) key (jobs i).actuation s.world.rows free)
          (ground (arith, e.called key, taken_le key s.world.rows));
    unused = λ j h. elim (reserved_cases s.phase i reserved j h) [
      | inl same ↦ rw (← same) none_called
      | inr rj ↦ e.unused j rj
    ];
    held = λ j h.
        rw (taken-claim (jobs i).now (key_of i) (key_of j) (jobs i).actuation s.world.rows free)
          (elim (reserved_cases s.phase i reserved j h) [
            | inl same ↦ rw (← same) (rw eq_refl refl)
            | inr rj ↦ ground (arith, e.held j rj)
          ]);
    alone = λ j k h l same. elim (reserved_cases s.phase i reserved j h) [
      | inl ij ↦ elim (reserved_cases s.phase i reserved k l) [
        | inl ik ↦ sym ij ∙ ik
        | inr rk ↦ absurd (taken_by_nobody k rk (ap key_of ij ∙ same))
      ]
      | inr rj ↦ elim (reserved_cases s.phase i reserved k l) [
        | inl ik ↦ absurd (taken_by_nobody j rj (ap key_of ik ∙ sym same))
        | inr rk ↦ e.alone j k rj rk same
      ]
    ];
  }
    where
      none_called : calls derive (key_of i) s.world.sent ≡ 0
      none_called = omega (arith, e.called (key_of i), taken_free (key_of i) s.world.rows free)

      taken_by_nobody : (j : ℕ) → s.phase j ≡ reserved → key_of i ≡ key_of j → ⊥
      taken_by_nobody j rj same = omega (
        arith,
        e.held j rj,
        taken_free (key_of i) s.world.rows free,
        ap (λ k. taken k s.world.rows) same,
      )

  found-IsExclusive :
      (s : System) (i : ℕ) (row : Row)
      → row_at (key_of i) s.world.rows ≡ some row
      → IsExclusive s
      → IsExclusive (record {
        world = record { rows = (claim_of i s.world.rows).1; sent = s.world.sent };
        phase = set_phase s.phase i over;
      })
  unfolding claim claim_at
  found-IsExclusive s i row taken_by e = rw taken_by (record {
    called = e.called;
    unused = λ j h. e.unused j (still_reserved s.phase i over j (λ x. cc) h);
    held = λ j h. e.held j (still_reserved s.phase i over j (λ x. cc) h);
    alone = λ j k h l same.
        e.alone j k (still_reserved s.phase i over j (λ x. cc) h)
          (still_reserved s.phase i over k (λ x. cc) l) same;
  })

  Step-IsExclusive : (s t : System) → Step s t → IsExclusive s → IsExclusive t
  Step-IsExclusive s t (reserve i w free eq) e =
      subst IsExclusive (sym eq) (reserved-IsExclusive s i free e)
  Step-IsExclusive s t (find i row w held eq) e =
      subst IsExclusive (sym eq) (found-IsExclusive s i row held e)
  Step-IsExclusive s t (refuse i r blank eq) e =
      subst IsExclusive (sym eq)
        (settled-IsExclusive s i (refusal (jobs i).actuation no_approval) over (λ x. cc) e)
  Step-IsExclusive s t (call i r approved eq) e =
      subst IsExclusive (sym eq) (called-IsExclusive s i _ r e)
  Step-IsExclusive s t (conclude i outcome r eq) e =
      subst IsExclusive (sym eq) (settled-IsExclusive s i outcome over (λ x. cc) e)

  Reach-IsExclusive : {s t : System} → IsExclusive s → Reach s t → IsExclusive t
  Reach-IsExclusive e here = e
  Reach-IsExclusive e (next {t = t} {u = u} r step) =
      Step-IsExclusive t u step (Reach-IsExclusive e r)

  abbrev pub start : System
  start = record { world = record { rows = []; sent = [] }; phase = λ i. waiting }

  -- Exactly once under concurrency: from an empty ledger, in every state that any interleaving of
  -- the processes reaches, some of them dead between two steps, at most one call has been made under
  -- one idempotency key.
  pub Reach-once : (s : System) (key : String) → Reach start s → calls derive key s.world.sent ≤ 1
  unfolding calls
  Reach-once s key r = omega (
    arith,
    (Reach-IsExclusive
          (record {
            called = λ k. omega arith;
            unused = λ i h. cc;
            held = λ i h. cc;
            alone = λ i j h l same. cc;
          })
          r).called
        key,
    taken_le key s.world.rows,
  )
