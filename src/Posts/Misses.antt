-- ===== src/Posts/Misses.antt =====
-- Answers of the ledger that publish nothing of a post of backend/app/services/social_post_service.py.
use socio_seo_agent.Prelude.{
  ℕ, ◌⊎◌, String, ◌≡◌, refl, ap, ◌∙◌, true, false, List, [], ◌∷◌, arith, str_eq, eq_iff, Bool-cases,
  inl, inr, All,
}
use socio_seo_agent.Strings.{concat, len}
use socio_seo_agent.Actuators.Ledger
use socio_seo_agent.Actuators.Ledger.{
  Actuation, Outcome, Row, Status, succeeded, in_flight, settled, refusal, held, row_at,
  wrong_actuator,
}
use socio_seo_agent.Actuators.Actuate.{Actuator, World, actuate, replay}
use socio_seo_agent.Actuators.Actuate.Replay.{actuate_taken}
use socio_seo_agent.Actuators.Actuate.Settled.{IsTaken, actuate_wrong}
use socio_seo_agent.Posts.{Post, is_published, is_row, flush_post}
use socio_seo_agent.Posts.Publishing.{actuation_of, post_key, written_post}
use socio_seo_agent.Posts.Desks.{KeepsKey}

-- An outcome that publishes nothing: no success, or a simulated one.
abbrev pub Misses : Outcome → Type 0
Misses outcome = outcome.status ≡ succeeded → outcome.fake ≡ true

-- A post with this identifier is not published.
abbrev pub IsOpen : String → Post → Type 0
IsOpen id post = str_eq post.id id ≡ true → is_published post.status ≡ false

-- A row whose answer, when it is asked for again, publishes nothing.
abbrev pub RowMisses : Row → Type 0
RowMisses row = (a : Actuation) → Misses (replay (held a row))

pub written_post-open :
    (now : ℕ) (outcome : Outcome) (post : Post)
    → Misses outcome
    → is_published post.status ≡ false
    → is_published (written_post now outcome post).status ≡ false
unfolding written_post is_published
written_post-open now outcome post misses h = elim (status_cases outcome.status) [
  | inl e ↦ rw (e, written_post, misses e) h
  | inr (inl e) ↦ rw (e, written_post) refl
  | inr (inr e) ↦ rw (e, written_post) refl
]
  where
    status_cases : (s : Status) → (s ≡ succeeded) ⊎ ((s ≡ Status.refused) ⊎ (s ≡ Status.failed))
    status_cases succeeded = inl refl
    status_cases Status.refused = inr (inl refl)
    status_cases Status.failed = inr (inr refl)

pub flush_post-IsOpen :
    (id : String) (b : ℕ) (j : String) (change : Post → Post) (posts : List Post)
    → KeepsKey change
    → ((p : Post) → str_eq p.id j ≡ true → IsOpen id p → IsOpen id (change p))
    → All (IsOpen id) posts
    → All (IsOpen id) (flush_post b j change posts)
unfolding flush_post is_row
flush_post-IsOpen id b j change [] k keeps h = tt
flush_post-IsOpen id b j change (x ∷ xs) k keeps (hx, h) = (
  elim (Bool-cases (is_row b j x)) [ inl e ↦ rw e (keeps x (ground arith) hx) | inr e ↦ rw e hx ],
  flush_post-IsOpen id b j change xs k keeps h,
)

pub post_key-filled : (id : String) → str_eq (post_key id) "" ≡ false
unfolding post_key concat len
post_key-filled id = elim (Bool-cases (str_eq (post_key id) "")) [
  | inl e ↦ absurd (ground (arith, ap len ((eq_iff (post_key id) "").0 e)))
  | inr e ↦ e
]

pub key_of_post :
    (derive : Actuation → String) (b : ℕ) (approved_by : String) (post : Post)
    → Ledger.idempotency_key derive (actuation_of b approved_by post) ≡ post_key post.id
unfolding actuation_of Ledger.idempotency_key
key_of_post derive b approved_by post = rw (post_key-filled post.id) refl

pub refusal-Misses : (a : Actuation) → Misses (refusal a wrong_actuator)
unfolding refusal
refusal-Misses a e = absurd (ground arith)

pub reply-Misses :
    (derive : Actuation → String) (key : String) (row : Row) (n now : ℕ) (actuator : Actuator)
    (a : Actuation) (w : World)
    → Ledger.idempotency_key derive a ≡ key
    → IsTaken derive key row n w
    → RowMisses row
    → Misses (actuate derive now actuator a w).0
reply-Misses derive key row n now actuator a w same taken misses =
    elim (Bool-cases (str_eq actuator.action_type a.action_type)) [
      | inr wrong ↦ rw (actuate_wrong derive now actuator a w wrong) (refusal-Misses a)
      | inl right ↦
          rw
            (actuate_taken derive now actuator a w row right
              (ap (λ k. row_at k w.rows) same ∙ taken.found))
            (misses a)
    ]
