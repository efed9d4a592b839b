-- ===== src/Posts/Retries.antt =====
-- A post of backend/app/services/social_post_service.py whose first publish did not go out.
use mathlib.Core.Path.{subst}
use socio_seo_agent.Prelude.{
  ℕ, String, ◌≡◌, refl, ap, sym, ◌∙◌, true, false, Option, none, some, List, [], ◌∷◌, arith, str_eq,
  ◌==◌, eq_iff, Bool-cases, inl, inr, All, All-append,
}
use socio_seo_agent.Json.{Json, get, truthy}
use socio_seo_agent.Actuators.Ledger
use socio_seo_agent.Actuators.Ledger.{
  Actuation, Outcome, Row, Status, succeeded, in_flight, settled, refusal, held, row_at,
  wrong_actuator,
}
use socio_seo_agent.Actuators.Actuate.{Actuator, actuate, replay}
use socio_seo_agent.Actuators.Actuate.Once.{calls}
use socio_seo_agent.Actuators.Actuate.Replay.{actuate-IsFirst, first_outcome, settled_row}
use socio_seo_agent.Actuators.Actuate.Settled.{IsTaken, actuate-IsTaken}
use socio_seo_agent.Posts.{Post, Desk, Rendering, is_publishable, queue_one, load, flush_post}
use socio_seo_agent.Posts.Publishing.{
  Press, actuation_of, post_key, is_over_week, written_post, publish_post, publish_loaded,
  send_post, record_outcome,
}
use socio_seo_agent.Posts.Answers.{queue_one_cases}
use socio_seo_agent.Posts.Sends.{load-IsRow}
use socio_seo_agent.Posts.Desks.{
  written_post-KeepsKey, Operation, operate_all, IsClosed, operate_all-keeps, desk_behind,
}
use socio_seo_agent.Posts.Misses.{
  IsOpen, RowMisses, written_post-open, flush_post-IsOpen, key_of_post, reply-Misses,
}

-- What stays: the key's row and its calls, and that the post is not published.
record IsStuck (derive : Actuation → String) (id : String) (row : Row) (n : ℕ) (desk : Desk)
    : Type 0 where
  taken : IsTaken derive (post_key id) row n desk.world
  open_posts : All (IsOpen id) desk.posts

module _ (lower : String → String) (uuid : List Post → String) (derive : Actuation → String)
    (id : String) (row : Row) (n : ℕ) (misses : RowMisses row) where
  sent-IsOpen :
      (press : Press) (a : Actuator) (q : Post) (desk : Desk)
      → load press.business_id press.post_id desk.posts ≡ some q
      → IsStuck derive id row n desk
      → All (IsOpen id) (
          flush_post press.business_id press.post_id
            (written_post press.now
              (actuate derive press.now a
                (actuation_of press.business_id press.approved_by q)
                desk.world).0)
            desk.posts)
  sent-IsOpen press a q desk found h =
      flush_post-IsOpen id press.business_id press.post_id _ desk.posts
        (written_post-KeepsKey press.now _) kept h.open_posts
    where
      outcome : Outcome
      outcome =
          (actuate derive press.now a (actuation_of press.business_id press.approved_by q)
            desk.world).0

      kept :
          (p : Post)
          → str_eq p.id press.post_id ≡ true
          → IsOpen id p
          → IsOpen id (written_post press.now outcome p)
      kept p e hp same =
          let here : str_eq p.id id ≡ true =
            sym (ap (λ s. str_eq s id) ((written_post-KeepsKey press.now outcome).id p)) ∙ same in
          let key : post_key q.id ≡ post_key id = ap post_key (
            load-IsRow press.business_id press.post_id desk.posts q found
            ∙ sym ((eq_iff p.id press.post_id).0 e)
            ∙ (eq_iff p.id id).0 here) in
          written_post-open press.now outcome p
            (reply-Misses derive (post_key id) row n press.now a _ desk.world
              (key_of_post derive press.business_id press.approved_by q ∙ key) h.taken misses)
            (hp here)

  IsStuck-IsClosed : IsClosed lower uuid derive (IsStuck derive id row n)
  IsStuck-IsClosed = record {
    queued = λ business_id piece when entry desk h. record {
      taken = h.taken;
      open_posts = added business_id piece when entry desk h.open_posts;
    };
    edited = λ c j change q desk k opens found open_ h. record {
      taken = h.taken;
      open_posts =
          flush_post-IsOpen id c j change desk.posts k (λ p e hp same. opens p) h.open_posts;
    };
    sent = λ press a q desk found open_ h. record {
      taken = actuate-IsTaken derive (post_key id) row n press.now a _ desk.world h.taken;
      open_posts = sent-IsOpen press a q desk found h;
    };
  }
    where
      added :
          (business_id piece : ℕ) (when : Option ℕ) (entry : String × Rendering) (desk : Desk)
          → All (IsOpen id) desk.posts
          → All (IsOpen id) (queue_one lower uuid business_id piece when entry desk.posts)
      added business_id piece when entry desk h =
          elim (queue_one_cases lower uuid business_id piece when entry desk.posts) [
            | inl same ↦ rw same h
            | inr (post, e, fresh) ↦
                rw e (All-append (IsOpen id) desk.posts (post ∷ []) h (λ here. fresh, tt))
          ]

  IsStuck-operate_all :
      (ops : List Operation) (desk : Desk)
      → IsStuck derive id row n desk
      → IsStuck derive id row n (operate_all lower uuid derive ops desk)
  IsStuck-operate_all ops desk h =
      operate_all-keeps lower uuid derive (IsStuck derive id row n) IsStuck-IsClosed ops desk h

-- An outcome whose row, too, tells of a simulation.
abbrev pub MissesForGood : Outcome → Type 0
MissesForGood outcome =
    outcome.status ≡ succeeded
    → (outcome.fake ≡ true)
      × ((v : Json) × (get "simulated" outcome.detail ≡ some v) × (truthy v ≡ true))

settled-RowMisses :
    (now : ℕ) (key : String) (a : Actuation) (outcome : Outcome)
    → MissesForGood outcome
    → RowMisses (settled_row now key a outcome)
unfolding settled_row held replay refusal
settled-RowMisses now key a outcome misses b e =
    elim (Bool-cases (a.business_id == b.business_id)) [
      | inl own ↦
          let s : outcome.status ≡ succeeded = ground arith in
          let (fake, (v, simulated, shown)) = misses s in ground arith
      | inr other ↦ absurd (ground arith)
    ]

-- A publish that reaches the ledger.
publish_sends :
    (derive : Actuation → String) (press : Press) (a : Actuator) (post : Post) (desk : Desk)
    → press.actuator ≡ some a
    → load press.business_id press.post_id desk.posts ≡ some post
    → is_publishable post.status ≡ true
    → is_over_week press ≡ false
    → (let reply =
          actuate derive press.now a
            (actuation_of press.business_id press.approved_by post)
            desk.world in
        desk_behind desk (publish_post derive press desk) ≡ record {
          posts =
              flush_post press.business_id press.post_id
                (written_post press.now reply.0)
                desk.posts;
          world = reply.1;
        })
unfolding publish_post publish_loaded send_post record_outcome desk_behind
publish_sends derive press a post desk wired found open_ room = rw (found, open_, room, wired) refl

sent-IsStuck :
    (derive : Actuation → String) (press : Press) (a : Actuator) (post : Post) (desk : Desk)
    → str_eq a.action_type "social.post" ≡ true
    → load press.business_id press.post_id desk.posts ≡ some post
    → row_at (post_key press.post_id) desk.world.rows ≡ none
    → All (IsOpen press.post_id) desk.posts
    → MissesForGood
        (first_outcome a (actuation_of press.business_id press.approved_by post) desk.world.sent)
    → (let act = actuation_of press.business_id press.approved_by post in
        let reply = actuate derive press.now a act desk.world in
        IsStuck derive press.post_id
          (settled_row press.now (post_key press.post_id) act reply.0)
          (calls derive (post_key press.post_id) reply.1.sent)
          (record {
            posts =
                flush_post press.business_id press.post_id
                  (written_post press.now reply.0)
                  desk.posts;
            world = reply.1;
          })
        × MissesForGood reply.0)
unfolding actuation_of
sent-IsStuck derive press a post desk right found free opens misses =
    let act = actuation_of press.business_id press.approved_by post in
    let key : Ledger.idempotency_key derive act ≡ post_key press.post_id =
      key_of_post derive press.business_id press.approved_by post
      ∙ ap post_key (load-IsRow press.business_id press.post_id desk.posts post found) in
    let first =
      actuate-IsFirst derive press.now a act desk.world right
        (ap (λ k. row_at k desk.world.rows) key ∙ free) in
    let final = subst MissesForGood (sym first.outcome) misses in
    let reply = actuate derive press.now a act desk.world in
    (
      record {
        taken = record {
          found =
              subst (λ k. row_at k reply.1.rows ≡ some (settled_row press.now k act reply.0)) key
                first.row;
          called = refl;
        };
        open_posts =
            flush_post-IsOpen press.post_id press.business_id press.post_id _ desk.posts
              (written_post-KeepsKey press.now reply.0)
              (λ p e hp same. written_post-open press.now reply.0 p (λ s. (final s).0) (hp e))
              opens;
      },
      final,
    )

-- The first answer to a publish is the last: where the post's key was free and the integration's
-- answer was a failure, a refusal or a simulation, then whatever is queued, scheduled, cancelled and
-- published later, with whatever integration, nothing is sent for the post again and it is never
-- published.
pub first_answer_final :
    (lower : String → String) (uuid : List Post → String) (derive : Actuation → String)
    (press : Press) (a : Actuator) (post : Post) (desk : Desk)
    → press.actuator ≡ some a
    → str_eq a.action_type "social.post" ≡ true
    → load press.business_id press.post_id desk.posts ≡ some post
    → is_publishable post.status ≡ true
    → is_over_week press ≡ false
    → row_at (post_key press.post_id) desk.world.rows ≡ none
    → All (IsOpen press.post_id) desk.posts
    → MissesForGood
        (first_outcome a (actuation_of press.business_id press.approved_by post) desk.world.sent)
    → (ops : List Operation)
    → (let first = desk_behind desk (publish_post derive press desk) in
        let last = operate_all lower uuid derive ops first in
        All (IsOpen press.post_id) last.posts
        × (calls derive (post_key press.post_id) last.world.sent
            ≡ calls derive (post_key press.post_id) first.world.sent))
first_answer_final lower uuid derive press a post desk wired right found open_ room free opens
      misses ops =
    let act = actuation_of press.business_id press.approved_by post in
    let reply = actuate derive press.now a act desk.world in
    let row = settled_row press.now (post_key press.post_id) act reply.0 in
    let (stuck, final) = sent-IsStuck derive press a post desk right found free opens misses in
    let last =
      IsStuck-operate_all lower uuid derive press.post_id row
        (calls derive (post_key press.post_id) reply.1.sent)
        (settled-RowMisses press.now (post_key press.post_id) act reply.0 final) ops _ stuck in
    rw (publish_sends derive press a post desk wired found open_ room)
      (last.open_posts, last.taken.called)
