-- ===== src/Posts/Answers.antt =====
-- What becomes of a post of backend/app/services/social_post_service.py once it is out, and once an
-- answer of its first publish stands in the ledger.
use mathlib.Core.Option.{some-injective}
use socio_seo_agent.Prelude.{
  ℕ, ◌≤◌, ◌⊎◌, String, ◌≡◌, refl, ap, sym, ◌∙◌, true, false, Option, none, some, List, [], ◌∷◌,
  ◌++◌, arith, str_eq, any, not, ◌==◌, ◌&&◌, ◌||◌, eq_iff, Bool-cases, inl, inr,
}
use socio_seo_agent.Strings.{strip}
use socio_seo_agent.Channels.{canonical_channel, has_spec}
use socio_seo_agent.Actuators.Ledger.{Actuation}
use socio_seo_agent.Actuators.Actuate.Once.{calls, IsLedger, actuate-IsLedger}
use socio_seo_agent.Actuators.Actuate.Rows.{taken_le}
use socio_seo_agent.Posts.{
  Post, Desk, Rendering, is_published, queue_one, is_row, load, flush_post, holds_place, status_for,
  queued_post,
}
use socio_seo_agent.Posts.Publishing.{post_key}
use socio_seo_agent.Posts.Sends.{sends, sends-calls}
use socio_seo_agent.Posts.Desks.{
  KeepsKey, written_post-KeepsKey, Operation, operate_all, IsClosed, operate_all-keeps,
}

status_for-open : (when : Option ℕ) → is_published (status_for when) ≡ false
unfolding status_for is_published
status_for-open none = refl
status_for-open (some t) = refl

-- A round of queueing adds a post that is not published, or none.
pub queue_one_cases :
    (lower : String → String) (uuid : List Post → String) (business_id piece : ℕ) (when : Option ℕ)
    (entry : String × Rendering) (posts : List Post)
    → (queue_one lower uuid business_id piece when entry posts ≡ posts)
      ⊎ ((post : Post) × (queue_one lower uuid business_id piece when entry posts
            ≡ posts ++ post ∷ [])
          × (is_published post.status ≡ false))
unfolding queue_one queued_post
queue_one_cases lower uuid business_id piece when (raw, rendering) posts =
    let channel = canonical_channel lower (strip raw) in
    elim (Bool-cases (
      str_eq channel ""
      || not (has_spec lower channel)
      || any (holds_place business_id piece channel) posts)) [
        | inl skip ↦ inl (rw (skip, queue_one) refl)
        | inr keep ↦ elim (Bool-cases (str_eq (strip rendering.body) "")) [
          | inl empty ↦ inl (rw (keep, queue_one, empty) refl)
          | inr body ↦ inr (
            queued_post (uuid posts) business_id piece channel when rendering,
            rw (keep, queue_one, body) refl,
            status_for-open when,
          )
        ]
      ]

load-append :
    (b : ℕ) (id : String) (xs ys : List Post) (p : Post)
    → load b id xs ≡ some p
    → load b id (xs ++ ys) ≡ some p
unfolding load
load-append b id [] ys p h = absurd (ground arith)
load-append b id (x ∷ xs) ys p h = elim (Bool-cases (is_row b id x)) [
  | inl e ↦ rw (e, load) (ground arith)
  | inr e ↦ rw (e, load) (load-append b id xs ys p (ground arith))
]

-- A flush of one post leaves another.
load-flush :
    (b c : ℕ) (id j : String) (change : Post → Post) (posts : List Post)
    → KeepsKey change
    → (c == b) && str_eq j id ≡ false
    → load b id (flush_post c j change posts) ≡ load b id posts
unfolding load flush_post is_row
load-flush b c id j change [] k other = refl
load-flush b c id j change (x ∷ xs) k other = ground (
  arith,
  load-flush b c id j change xs k other,
  k.id x,
  k.business_id x,
  eq_iff x.id j,
  eq_iff x.id id,
  eq_iff j id,
  eq_iff (change x).id j,
  eq_iff (change x).id id,
)

same_key : (b c : ℕ) (id j : String) → (c == b) && str_eq j id ≡ true → (c ≡ b) × (j ≡ id)
same_key b c id j h = (ground arith, (eq_iff j id).0 (ground arith))

same_post :
    (b c : ℕ) (id j : String) (posts : List Post) (p q : Post)
    → (c ≡ b) × (j ≡ id)
    → load b id posts ≡ some p
    → load c j posts ≡ some q
    → p ≡ q
same_post b c id j posts p q (ec, ej) h found =
    some-injective _ _
      (sym h ∙ ap (λ n. load n id posts) (sym ec) ∙ ap (λ s. load c s posts) (sym ej) ∙ found)

guarded_flush :
    (b c : ℕ) (id j : String) (change : Post → Post) (posts : List Post) (p q : Post)
    → KeepsKey change
    → is_published p.status ≡ true
    → load c j posts ≡ some q
    → is_published q.status ≡ false
    → load b id posts ≡ some p
    → load b id (flush_post c j change posts) ≡ some p
guarded_flush b c id j change posts p q k out found open_ h =
    elim (Bool-cases ((c == b) && str_eq j id)) [
      | inr other ↦ load-flush b c id j change posts k other ∙ h
      | inl same ↦ absurd (apart (same_post b c id j posts p q (same_key b c id j same) h found))
    ]
  where
    apart : p ≡ q → ⊥
    apart e = cc (ap (λ r. is_published r.status) e)

module _ (lower : String → String) (uuid : List Post → String) (derive : Actuation → String) where
  published-IsClosed :
      (b : ℕ) (id : String) (p : Post)
      → is_published p.status ≡ true
      → IsClosed lower uuid derive (λ desk. load b id desk.posts ≡ some p)
  published-IsClosed b id p out = record {
    queued = λ business_id piece when entry desk h. added business_id piece when entry desk h;
    edited = λ c j change q desk k opens found open_ h.
        guarded_flush b c id j change desk.posts p q k out found open_ h;
    sent = λ press a q desk found open_ h.
        guarded_flush b press.business_id id press.post_id _ desk.posts p q
          (written_post-KeepsKey press.now _) out found open_ h;
  }
    where
      added :
          (business_id piece : ℕ) (when : Option ℕ) (entry : String × Rendering) (desk : Desk)
          → load b id desk.posts ≡ some p
          → load b id (queue_one lower uuid business_id piece when entry desk.posts) ≡ some p
      added business_id piece when entry desk h =
          elim (queue_one_cases lower uuid business_id piece when entry desk.posts) [
            | inl same ↦ rw same h
            | inr (post, e, fresh) ↦ rw e (load-append b id desk.posts (post ∷ []) p h)
          ]

  -- A published post stays as it is, whatever is queued, scheduled, cancelled and published later.
  pub published_stays :
      (b : ℕ) (id : String) (p : Post) (ops : List Operation) (desk : Desk)
      → load b id desk.posts ≡ some p
      → is_published p.status ≡ true
      → load b id (operate_all lower uuid derive ops desk).posts ≡ some p
  published_stays b id p ops desk h out =
      operate_all-keeps lower uuid derive (λ d. load b id d.posts ≡ some p)
        (published-IsClosed b id p out) ops desk h

  IsLedger-IsClosed : IsClosed lower uuid derive (λ desk. IsLedger derive desk.world)
  IsLedger-IsClosed = record {
    queued = λ business_id piece when entry desk h. h;
    edited = λ c j change q desk k opens found open_ h. h;
    sent = λ press a q desk found open_ h. actuate-IsLedger derive press.now a _ desk.world h;
  }

  -- From an empty ledger, whatever posts there are and whatever is queued, scheduled, cancelled and
  -- published in whatever order, by whichever approvers and through whichever integrations, the
  -- requests that publish a post make one call for it at most, under whatever key.
  pub post_sent_once :
      (ops : List Operation) (id : String) (posts : List Post)
      → sends lower uuid derive id ops
          (record { posts = posts; world = record { rows = []; sent = [] } })
        ≤ 1
  unfolding calls
  post_sent_once ops id posts =
      let start : Desk = record { posts = posts; world = record { rows = []; sent = [] } } in
      let kept =
        operate_all-keeps lower uuid derive (λ desk. IsLedger derive desk.world) IsLedger-IsClosed
          ops start (record { called = λ k. omega arith }) in
      omega (
        arith,
        sends-calls lower uuid derive id ops start,
        kept.called (post_key id),
        taken_le (post_key id) (operate_all lower uuid derive ops start).world.rows,
      )
