-- ===== src/Posts/Desks.antt =====
-- Requests on the posts of backend/app/services/social_post_service.py, one after the other.
use socio_seo_agent.Prelude.{
  ℕ, String, ◌≡◌, refl, true, false, Option, none, some, List, [], ◌∷◌, arith, if◌then◌else◌,
  Bool-cases, Option-cases, inl, inr, Result, ok, err,
}
use socio_seo_agent.Schedule.{Instant}
use socio_seo_agent.Actuators.Ledger.{Actuation, Outcome, Status}
use socio_seo_agent.Actuators.Actuate.{Actuator, actuate}
use socio_seo_agent.Posts.{
  Post, PostStatus, published, PostError, Desk, Rendering, is_published, is_publishable, queue_one,
  queue_posts, load, flush_post, schedule_post, schedule_loaded, cancel_post, cancel_loaded,
  status_for, timed, untimed, time_of, is_naive_time, refused, failed,
}
use socio_seo_agent.Posts.Publishing.{
  Press, PublishResult, actuation_of, is_over_week, written_post, publish_post, publish_loaded,
  send_post, record_outcome,
}

pub data Operation : Type 0 where
  queueing : ℕ → ℕ → Option ℕ → List (String × Rendering) → Operation
  scheduling : ℕ → String → Option Instant → Operation
  cancelling : ℕ → String → Operation
  publishing : Press → Operation

-- The posts behind a request; an exception leaves them.
unfoldable pub posts_behind : List Post → Result PostError (List Post) → List Post
posts_behind posts (ok changed) = changed
posts_behind posts (err e) = posts

unfoldable pub desk_behind : Desk → Result PostError (PublishResult × Desk) → Desk
desk_behind desk (ok (result, changed)) = changed
desk_behind desk (err e) = desk

-- A change of a post that leaves what it is found by.
pub record KeepsKey (change : Post → Post) : Type 0 where
  pub id : (post : Post) → (change post).id ≡ post.id
  pub business_id : (post : Post) → (change post).business_id ≡ post.business_id

timed-KeepsKey : (when : Option ℕ) → KeepsKey (timed when)
unfolding timed
timed-KeepsKey when = record { id = λ post. refl; business_id = λ post. refl }

untimed-KeepsKey : KeepsKey untimed
unfolding untimed
untimed-KeepsKey = record { id = λ post. refl; business_id = λ post. refl }

written_key :
    (now : ℕ) (outcome : Outcome) (post : Post)
    → ((written_post now outcome post).id ≡ post.id)
      × ((written_post now outcome post).business_id ≡ post.business_id)
unfolding written_post
written_key now outcome post = go outcome.status
  where
    go :
        (status : Status)
        → (let changed : Post = elim status [
          | Status.succeeded ↦
              if outcome.fake
              then post
              else record post { status = published; published_at = some now }
          | Status.refused ↦ record post { status = refused }
          | Status.failed ↦ record post { status = failed }
        ] in
            (changed.id ≡ post.id) × (changed.business_id ≡ post.business_id))
    go Status.succeeded = elim (Bool-cases outcome.fake) [
      | inl e ↦ rw e (refl, refl)
      | inr e ↦ rw e (refl, refl)
    ]
    go Status.refused = (refl, refl)
    go Status.failed = (refl, refl)

pub written_post-KeepsKey : (now : ℕ) (outcome : Outcome) → KeepsKey (written_post now outcome)
written_post-KeepsKey now outcome = record {
  id = λ post. (written_key now outcome post).0;
  business_id = λ post. (written_key now outcome post).1;
}

timed_open : (when : Option ℕ) (post : Post) → is_published (timed when post).status ≡ false
unfolding timed status_for is_published
timed_open none post = refl
timed_open (some when) post = refl

untimed_open : (post : Post) → is_published (untimed post).status ≡ false
unfolding untimed is_published
untimed_open post = refl

publishable_open :
    (status : PostStatus) → is_publishable status ≡ true → is_published status ≡ false
unfolding is_publishable is_published
publishable_open PostStatus.published h = ground arith
publishable_open PostStatus.queued h = refl
publishable_open PostStatus.scheduled h = refl
publishable_open PostStatus.failed h = refl
publishable_open PostStatus.refused h = refl
publishable_open PostStatus.cancelled h = refl

module _ (lower : String → String) (uuid : List Post → String) (derive : Actuation → String) where
  unfoldable pub operate : Operation → Desk → Desk
  unfolding posts_behind desk_behind
  operate (queueing business_id piece when renderings) desk = record desk {
    posts = queue_posts lower uuid business_id piece when renderings desk.posts;
  }
  operate (scheduling business_id post_id when) desk = record desk {
    posts = posts_behind desk.posts (schedule_post business_id post_id when desk.posts);
  }
  operate (cancelling business_id post_id) desk = record desk {
    posts = posts_behind desk.posts (cancel_post business_id post_id desk.posts);
  }
  operate (publishing press) desk = desk_behind desk (publish_post derive press desk)

  unfoldable pub operate_all : List Operation → Desk → Desk
  unfolding operate
  operate_all [] desk = desk
  operate_all (op ∷ ops) desk = operate_all ops (operate op desk)

  -- What a request may do to a desk: a round of queueing, an edit of a post that is not published, or
  -- a publish of one through the ledger.
  pub record IsClosed (P : Desk → Type 0) : Type 0 where
    pub queued :
        (business_id piece : ℕ) (when : Option ℕ) (entry : String × Rendering) (desk : Desk)
        → P desk
        → P (record desk { posts = queue_one lower uuid business_id piece when entry desk.posts })
    pub edited :
        (business_id : ℕ) (id : String) (change : Post → Post) (post : Post) (desk : Desk)
        → KeepsKey change
        → ((p : Post) → is_published (change p).status ≡ false)
        → load business_id id desk.posts ≡ some post
        → is_published post.status ≡ false
        → P desk
        → P (record desk { posts = flush_post business_id id change desk.posts })
    pub sent :
        (press : Press) (a : Actuator) (post : Post) (desk : Desk)
        → load press.business_id press.post_id desk.posts ≡ some post
        → is_published post.status ≡ false
        → P desk
        → (let reply =
              actuate derive press.now a
                (actuation_of press.business_id press.approved_by post)
                desk.world in
            P (record {
              posts =
                  flush_post press.business_id press.post_id
                    (written_post press.now reply.0)
                    desk.posts;
              world = reply.1;
            }))

  module _ (P : Desk → Type 0) (closed : IsClosed P) where
    queueing_keeps :
        (business_id piece : ℕ) (when : Option ℕ) (renderings : List (String × Rendering))
        (desk : Desk)
        → P desk
        → P (record desk {
          posts = queue_posts lower uuid business_id piece when renderings desk.posts;
        })
    unfolding queue_posts
    queueing_keeps business_id piece when [] desk h = h
    queueing_keeps business_id piece when (entry ∷ renderings) desk h =
        queueing_keeps business_id piece when renderings
          (record desk { posts = queue_one lower uuid business_id piece when entry desk.posts })
          (closed.queued business_id piece when entry desk h)

    scheduling_keeps :
        (business_id : ℕ) (id : String) (when : Option Instant) (desk : Desk)
        → P desk
        → P (record desk {
          posts = posts_behind desk.posts (schedule_post business_id id when desk.posts);
        })
    unfolding schedule_post schedule_loaded posts_behind
    scheduling_keeps business_id id when desk h =
        elim (Option-cases (load business_id id desk.posts)) [
          | inl e ↦ rw (e, schedule_post) h
          | inr (post, e) ↦ elim (Bool-cases (is_published post.status)) [
            | inl out ↦ rw (e, schedule_post, out) h
            | inr open_ ↦ elim (Bool-cases (is_naive_time when)) [
              | inl naive ↦ rw (e, schedule_post, open_, naive) h
              | inr aware ↦
                  rw (e, schedule_post, open_, aware)
                    (closed.edited business_id id (timed (time_of when)) post desk
                      (timed-KeepsKey (time_of when)) (timed_open (time_of when)) e open_ h)
            ]
          ]
        ]

    cancelling_keeps :
        (business_id : ℕ) (id : String) (desk : Desk)
        → P desk
        → P (record desk {
          posts = posts_behind desk.posts (cancel_post business_id id desk.posts);
        })
    unfolding cancel_post cancel_loaded posts_behind
    cancelling_keeps business_id id desk h = elim (Option-cases (load business_id id desk.posts)) [
      | inl e ↦ rw (e, cancel_post) h
      | inr (post, e) ↦ elim (Bool-cases (is_published post.status)) [
        | inl out ↦ rw (e, cancel_post, out) h
        | inr open_ ↦
            rw (e, cancel_post, open_)
              (closed.edited business_id id untimed post desk untimed-KeepsKey untimed_open e open_
                h)
      ]
    ]

    sending_keeps :
        (press : Press) (post : Post) (desk : Desk) (actuator : Option Actuator)
        → load press.business_id press.post_id desk.posts ≡ some post
        → is_published post.status ≡ false
        → P desk
        → P (send_post derive press post desk actuator).1
    unfolding send_post record_outcome is_published
    sending_keeps press post desk none e open_ h =
        closed.edited press.business_id press.post_id (λ p. record p { status = refused }) post desk
          (record { id = λ p. refl; business_id = λ p. refl }) (λ p. refl) e open_ h
    sending_keeps press post desk (some a) e open_ h = closed.sent press a post desk e open_ h

    publishing_keeps :
        (press : Press) (desk : Desk)
        → P desk
        → P (desk_behind desk (publish_post derive press desk))
    unfolding publish_post publish_loaded desk_behind
    publishing_keeps press desk h =
        elim (Option-cases (load press.business_id press.post_id desk.posts)) [
          | inl e ↦ rw (e, publish_post) h
          | inr (post, e) ↦ elim (Bool-cases (is_publishable post.status)) [
            | inr shut ↦ rw (e, publish_post, shut) h
            | inl open_ ↦ elim (Bool-cases (is_over_week press)) [
              | inl over ↦ rw (e, publish_post, open_, over) h
              | inr room ↦
                  rw (e, publish_post, open_, room)
                    (sending_keeps press post desk press.actuator e
                      (publishable_open post.status open_) h)
            ]
          ]
        ]

    -- What is closed under these holds behind any requests.
    pub operate_all-keeps : (ops : List Operation) (desk : Desk) → P desk → P (operate_all ops desk)
    unfolding operate_all operate
    operate_all-keeps [] desk h = h
    operate_all-keeps (queueing business_id piece when renderings ∷ ops) desk h =
        operate_all-keeps ops (operate (queueing business_id piece when renderings) desk)
          (queueing_keeps business_id piece when renderings desk h)
    operate_all-keeps (scheduling business_id post_id when ∷ ops) desk h =
        operate_all-keeps ops (operate (scheduling business_id post_id when) desk)
          (scheduling_keeps business_id post_id when desk h)
    operate_all-keeps (cancelling business_id post_id ∷ ops) desk h =
        operate_all-keeps ops (operate (cancelling business_id post_id) desk)
          (cancelling_keeps business_id post_id desk h)
    operate_all-keeps (publishing press ∷ ops) desk h =
        operate_all-keeps ops (operate (publishing press) desk) (publishing_keeps press desk h)
