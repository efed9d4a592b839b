-- ===== src/Posts/Publishing.antt =====
-- publish_post of backend/app/services/social_post_service.py.
use socio_seo_agent.Posts.{
  PostStatus, Post, PostError, is_publishable, Desk, load, flush_post, published, failed, refused,
  not_found, not_publishable,
}
use socio_seo_agent.Prelude.{
  ℕ, String, Bool, true, false, not, Option, none, some, List, if◌then◌else◌, Result, ok, err,
}
use socio_seo_agent.Strings.{concat}
use socio_seo_agent.Json.{text, arr, field, end}
use socio_seo_agent.Channels.{json_of}
use socio_seo_agent.Actuators.Ledger.{Actuation, Outcome, Status, Cause}
use socio_seo_agent.Actuators.Actuate.{Actuator, World, actuate}
use socio_seo_agent.Publish.{exhausted, weekly_publish_state}

-- Why a publish did not go out.
pub data Why : Type 0 where
  weekly_cap no_publisher : Why
  cause : Cause → Why

pub record PublishResult : Type 0 where
  pub status : PostStatus
  pub simulated : Bool
  pub external_ref : Option String
  pub error : Option Why

-- f"social_post:{post.id}"
unfoldable pub post_key : String → String
unfolding concat
post_key id = concat "social_post:" id

unfoldable pub actuation_of : ℕ → String → Post → Actuation
unfolding post_key
actuation_of business_id approved_by post = record {
  business_id = business_id;
  action_type = "social.post";
  target = post.platform;
  payload = field "body" (text post.body) (field "hashtags" (arr (json_of post.hashtags)) end);
  approved_by = approved_by;
  key = some (post_key post.id);
}

-- The post behind an outcome; a simulated success leaves it.
unfoldable pub written_post : ℕ → Outcome → Post → Post
written_post now outcome post = elim outcome.status [
  | Status.succeeded ↦
      if outcome.fake then post else record post { status = published; published_at = some now }
  | Status.refused ↦ record post { status = refused }
  | Status.failed ↦ record post { status = failed }
]

unfoldable pub why : Option Cause → Option Why
why none = none
why (some c) = some (cause c)

-- How a publish is asked for: who, when, through what, and with which weekly ceiling, if any.
pub record Press : Type 0 where
  pub business_id : ℕ
  pub post_id : String
  pub approved_by : String
  pub now : ℕ
  pub actuator : Option Actuator
  pub configured_cap : ℕ
  pub count_published : Option (ℕ → ℕ)

unfoldable pub is_over_week : Press → Bool
unfolding exhausted weekly_publish_state
is_over_week press = elim press.count_published [
  | none ↦ false
  | some count ↦ exhausted (weekly_publish_state press.configured_cap count press.business_id none)
]

module _ (derive : Actuation → String) where
  -- What follows the answer of `actuate`.
  unfoldable pub record_outcome : Press → Post → List Post → Outcome × World → PublishResult × Desk
  unfolding written_post why flush_post
  record_outcome press post posts (outcome, world) = (
    record {
      status = (written_post press.now outcome post).status;
      simulated = outcome.fake;
      external_ref = outcome.external_ref;
      error = why outcome.error;
    },
    record {
      posts = flush_post press.business_id press.post_id (written_post press.now outcome) posts;
      world = world;
    },
  )

  unfoldable pub send_post : Press → Post → Desk → Option Actuator → PublishResult × Desk
  unfolding record_outcome actuate actuation_of flush_post
  send_post press post desk none = (
    record { status = refused; simulated = true; external_ref = none; error = some no_publisher },
    record desk {
      posts =
          flush_post press.business_id press.post_id (λ p. record p { status = refused })
            desk.posts;
    },
  )
  send_post press post desk (some actuator) = record_outcome press post desk.posts (
      actuate derive press.now actuator (actuation_of press.business_id press.approved_by post)
        desk.world)

  unfoldable pub publish_loaded :
      Press → Desk → Option Post → Result PostError (PublishResult × Desk)
  unfolding is_publishable is_over_week send_post
  publish_loaded press desk none = err not_found
  publish_loaded press desk (some post) =
      if not (is_publishable post.status)
      then err (not_publishable post.status)
      else if is_over_week press
      then ok (
        record {
          status = post.status;
          simulated = false;
          external_ref = none;
          error = some weekly_cap;
        },
        desk,
      )
      else ok (send_post press post desk press.actuator)

  unfoldable pub publish_post : Press → Desk → Result PostError (PublishResult × Desk)
  unfolding publish_loaded load
  publish_post press desk =
      publish_loaded press desk (load press.business_id press.post_id desk.posts)
