-- ===== src/Posts.antt =====
-- backend/app/services/social_post_service.py, over the ledger of Actuators and the weekly ceiling of
-- Publish. A post's identifier is the text of its UUID, and `uuid` is what uuid4 answers. A session
-- sees the posts of its own tenant; a raised exception leaves its rows as they were.
pub mod Publishing
pub mod Queue
pub mod Desks
pub mod Sends
pub mod Answers
pub mod Misses
pub mod Retries
mod Samples
use socio_seo_agent.Prelude.{
  ℕ, String, Bool, true, false, not, ◌&&◌, ◌||◌, Option, none, some, List, [], ◌∷◌, ◌++◌, ◌==◌, any,
  map, str_eq, if◌then◌else◌, Result, ok, err,
}
use socio_seo_agent.Strings.{strip, is_blank, concat}
use socio_seo_agent.Json.{Json, Fields, text, arr, field, end}
use socio_seo_agent.Channels.{canonical_channel, has_spec, json_of}
use socio_seo_agent.Schedule.{Instant}
use socio_seo_agent.Actuators.Ledger.{Actuation, Outcome, Status, Cause}
use socio_seo_agent.Actuators.Actuate.{Actuator, World, actuate}
use socio_seo_agent.Publish.{exhausted, weekly_publish_state}

-- `SocialPostStatus`
pub data PostStatus : Type 0 where
  queued scheduled published failed refused cancelled : PostStatus

-- `SocialPost`
pub record Post : Type 0 where
  pub id : String
  pub business_id : ℕ
  pub content_piece_id : ℕ
  pub platform : String
  pub body : String
  pub hashtags : List String
  pub status : PostStatus
  pub scheduled_at : Option ℕ
  pub published_at : Option ℕ

pub data PostError : Type 0 where
  not_found : PostError
  not_publishable : PostStatus → PostError
  naive_when : PostError

unfoldable pub is_published : PostStatus → Bool
is_published published = true
is_published _ = false

unfoldable pub is_cancelled : PostStatus → Bool
is_cancelled cancelled = true
is_cancelled _ = false

-- status in PUBLISHABLE_FROM
unfoldable pub is_publishable : PostStatus → Bool
is_publishable published = false
is_publishable cancelled = false
is_publishable _ = true

-- The posts, and the ledger with the calls that left the process.
pub record Desk : Type 0 where
  pub posts : List Post
  pub world : World

-- A rendering: its body, empty where it has none, and its hashtags.
pub record Rendering : Type 0 where
  pub body : String
  pub hashtags : List String

-- A post that stands in the way of another of the piece and the channel.
unfoldable pub holds_place : ℕ → ℕ → String → Post → Bool
unfolding is_cancelled
holds_place business_id piece channel post =
    (post.business_id == business_id)
    && (post.content_piece_id == piece)
    && not (is_cancelled post.status)
    && str_eq post.platform channel

unfoldable pub status_for : Option ℕ → PostStatus
status_for none = queued
status_for (some when) = scheduled

unfoldable pub queued_post : String → ℕ → ℕ → String → Option ℕ → Rendering → Post
unfolding strip status_for
queued_post id business_id piece channel when rendering = record {
  id = id;
  business_id = business_id;
  content_piece_id = piece;
  platform = channel;
  body = strip rendering.body;
  hashtags = rendering.hashtags;
  status = status_for when;
  scheduled_at = when;
  published_at = none;
}

module _ (lower : String → String) (uuid : List Post → String) where
  -- One round of the loop of `queue_posts`; `existing` is read off the posts, the ones just added
  -- included.
  unfoldable pub queue_one : ℕ → ℕ → Option ℕ → String × Rendering → List Post → List Post
  unfolding canonical_channel has_spec strip holds_place queued_post
  queue_one business_id piece when (raw, rendering) posts =
      let channel = canonical_channel lower (strip raw) in
      if str_eq channel ""
        || not (has_spec lower channel)
        || any (holds_place business_id piece channel) posts
      then posts
      else if str_eq (strip rendering.body) ""
      then posts
      else posts ++ queued_post (uuid posts) business_id piece channel when rendering ∷ []

  -- `queue_posts`: the posts behind it.
  unfoldable pub queue_posts : ℕ → ℕ → Option ℕ → List (String × Rendering) → List Post → List Post
  unfolding queue_one
  queue_posts business_id piece when [] posts = posts
  queue_posts business_id piece when (entry ∷ renderings) posts =
      queue_posts business_id piece when renderings (queue_one business_id piece when entry posts)

unfoldable pub is_row : ℕ → String → Post → Bool
is_row business_id post_id post = (post.business_id == business_id) && str_eq post.id post_id

-- `_load`; `none` is PostNotFoundError.
unfoldable pub load : ℕ → String → List Post → Option Post
unfolding is_row
load business_id post_id [] = none
load business_id post_id (post ∷ posts) =
    if is_row business_id post_id post then some post else load business_id post_id posts

-- The flush of a changed post.
unfoldable pub flush_post : ℕ → String → (Post → Post) → List Post → List Post
unfolding is_row
flush_post business_id post_id change [] = []
flush_post business_id post_id change (post ∷ posts) =
    (if is_row business_id post_id post then change post else post)
    ∷ flush_post business_id post_id change posts

unfoldable pub is_naive_time : Option Instant → Bool
is_naive_time none = false
is_naive_time (some when) = not when.aware

unfoldable pub time_of : Option Instant → Option ℕ
time_of none = none
time_of (some when) = some when.utc

unfoldable pub timed : Option ℕ → Post → Post
unfolding status_for
timed when post = record post { scheduled_at = when; status = status_for when }

unfoldable pub schedule_loaded :
    ℕ → String → Option Instant → List Post → Option Post → Result PostError (List Post)
unfolding is_published is_naive_time time_of timed flush_post
schedule_loaded business_id post_id when posts none = err not_found
schedule_loaded business_id post_id when posts (some post) =
    if is_published post.status
    then err (not_publishable post.status)
    else if is_naive_time when
    then err naive_when
    else ok (flush_post business_id post_id (timed (time_of when)) posts)

unfoldable pub schedule_post :
    ℕ → String → Option Instant → List Post → Result PostError (List Post)
unfolding schedule_loaded load
schedule_post business_id post_id when posts =
    schedule_loaded business_id post_id when posts (load business_id post_id posts)

unfoldable pub untimed : Post → Post
untimed post = record post { status = cancelled; scheduled_at = none }

unfoldable pub cancel_loaded : ℕ → String → List Post → Option Post → Result PostError (List Post)
unfolding is_published untimed flush_post
cancel_loaded business_id post_id posts none = err not_found
cancel_loaded business_id post_id posts (some post) =
    if is_published post.status
    then err (not_publishable post.status)
    else ok (flush_post business_id post_id untimed posts)

unfoldable pub cancel_post : ℕ → String → List Post → Result PostError (List Post)
unfolding cancel_loaded load
cancel_post business_id post_id posts =
    cancel_loaded business_id post_id posts (load business_id post_id posts)
