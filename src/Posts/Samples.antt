-- ===== src/Posts/Samples.antt =====
-- Concrete desks of backend/app/services/social_post_service.py.
use socio_seo_agent.Prelude.{ℕ, ◌≤◌, ◌≡◌, refl, String, true, false, none, some, List, [], ◌∷◌, All}
use socio_seo_agent.Json.{bool, field, end, get, truthy}
use socio_seo_agent.Actuators.Ledger.{Actuation, succeeded, row_at}
use socio_seo_agent.Strings.{is_blank}
use socio_seo_agent.Actuators.Actuate.{outcome_of, Actuator, performed, errored}
use socio_seo_agent.Actuators.Actuate.Once.{calls}
use socio_seo_agent.Actuators.Actuate.Replay.{first_outcome}
use socio_seo_agent.Posts.{
  Post, PostStatus, Desk, Rendering, queue_posts, schedule_post, cancel_post, load, is_published,
  is_publishable,
}
use socio_seo_agent.Posts.Publishing.{Press, post_key, actuation_of, is_over_week, publish_post}
use socio_seo_agent.Posts.Desks.{
  Operation, queueing, scheduling, cancelling, publishing, operate_all, desk_behind,
}
use socio_seo_agent.Posts.Queue.{queue_posts_twice}
use socio_seo_agent.Posts.Sends.{sends}
use socio_seo_agent.Posts.Answers.{published_stays, post_sent_once}
use socio_seo_agent.Posts.Retries.{MissesForGood, first_answer_final}
use socio_seo_agent.Posts.Misses.{IsOpen}

abbrev lower : String → String
lower s = s

-- Enough for two posts.
abbrev uuid : List Post → String
uuid [] = "p1"
uuid (post ∷ posts) = "p2"

abbrev derive : Actuation → String
derive a = "digest"

abbrev renderings : List (String × Rendering)
renderings =
    ("linkedin_post", record { body = " Hello "; hashtags = "spring" ∷ [] })
    ∷ ("linkedin", record { body = "Again"; hashtags = [] })
    ∷ ("fax", record { body = "Hello"; hashtags = [] })
    ∷ []

abbrev hello_post : Post
hello_post = record {
  id = "p1";
  business_id = 7;
  content_piece_id = 3;
  platform = "linkedin";
  body = "Hello";
  hashtags = "spring" ∷ [];
  status = PostStatus.queued;
  scheduled_at = none;
  published_at = none;
}

abbrev published_post : Post
published_post = record hello_post { status = PostStatus.published; published_at = some 50 }

-- A platform that does not answer.
abbrev broken : Actuator
broken = record {
  action_type = "social.post";
  fake = false;
  perform = λ sent a. errored "timeout" true;
}

-- No publisher is configured: the send is simulated.
abbrev simulator : Actuator
simulator = record {
  action_type = "social.post";
  fake = true;
  perform = λ sent a. performed (record {
    status = succeeded;
    action_type = a.action_type;
    target = a.target;
    external_ref = some "fake://";
    detail = field "simulated" (bool true) end;
    error = none;
    replayed = false;
    fake = true;
  });
}

abbrev press : Actuator → ℕ → Press
press actuator now = record {
  business_id = 7;
  post_id = "p1";
  approved_by = "ann";
  now = now;
  actuator = some actuator;
  configured_cap = 3;
  count_published = some (λ b. 0);
}

abbrev desk : Desk
desk = record { posts = hello_post ∷ []; world = record { rows = []; sent = [] } }

queued_once : queue_posts lower uuid 7 3 none renderings [] ≡ hello_post ∷ []
unfolding queue_posts
queued_once = refl

-- A cancelled post can be scheduled again, beside the one that took its place.
revived :
    (let posts = queue_posts lower uuid 7 3 none renderings [] in
      let again =
        operate_all lower uuid derive
          (cancelling 7 "p1"
            ∷ queueing 7 3 none renderings
            ∷ scheduling 7 "p1" (some (record { utc = 9; aware = true }))
            ∷ [])
          (record { posts = posts; world = record { rows = []; sent = [] } }) in
      again.posts
      ≡ record hello_post { status = PostStatus.scheduled; scheduled_at = some 9 }
        ∷ record hello_post { id = "p2" }
        ∷ [])
unfolding operate_all queue_posts schedule_post cancel_post
revived = refl

queue_posts_twice_example :
    queue_posts lower uuid 7 3 (some 9) renderings (queue_posts lower uuid 7 3 none renderings [])
    ≡ queue_posts lower uuid 7 3 none renderings []
queue_posts_twice_example = queue_posts_twice lower uuid 7 3 none (some 9) renderings []

found_published : load 7 "p1" (published_post ∷ []) ≡ some published_post
unfolding load
found_published = refl

is_out : is_published published_post.status ≡ true
unfolding is_published
is_out = refl

abbrev later : List Operation
later = cancelling 7 "p1" ∷ scheduling 7 "p1" none ∷ publishing (press simulator 90) ∷ []

published_stays_example :
    load 7 "p1"
      (operate_all lower uuid derive later
        (record { posts = published_post ∷ []; world = record { rows = []; sent = [] } })).posts
    ≡ some published_post
published_stays_example =
    published_stays lower uuid derive 7 "p1" published_post later
      (record { posts = published_post ∷ []; world = record { rows = []; sent = [] } })
      found_published is_out

abbrev busy : List Operation
busy =
    queueing 7 3 none renderings
    ∷ publishing (press broken 50)
    ∷ publishing (record (press broken 60) { approved_by = "bob" })
    ∷ []

two_approvers :
    sends lower uuid derive "p1" busy
      (record { posts = []; world = record { rows = []; sent = [] } })
    ≡ 1
unfolding sends queue_posts publish_post socio_seo_agent.Actuators.Ledger.idempotency_key
two_approvers = refl

post_sent_once_example :
    sends lower uuid derive "p1" busy
      (record { posts = []; world = record { rows = []; sent = [] } })
    ≤ 1
post_sent_once_example = post_sent_once lower uuid derive busy "p1" []

simulated_for_good : MissesForGood (first_outcome simulator (actuation_of 7 "ann" hello_post) [])
unfolding first_outcome actuation_of get truthy is_blank outcome_of
simulated_for_good s = (refl, (bool true, refl, refl))

found_queued : load 7 "p1" desk.posts ≡ some hello_post
unfolding load
found_queued = refl

is_open : is_publishable hello_post.status ≡ true
unfolding is_publishable
is_open = refl

free : row_at (post_key "p1") desk.world.rows ≡ none
unfolding row_at
free = refl

not_over : is_over_week (press simulator 50) ≡ false
unfolding is_over_week
not_over = refl

not_out : All (IsOpen "p1") desk.posts
unfolding is_published
not_out = (λ e. refl, tt)

first_answer_final_example :
    (let first = desk_behind desk (publish_post derive (press simulator 50) desk) in
      let last = operate_all lower uuid derive (publishing (press broken 60) ∷ []) first in
      All (IsOpen "p1") last.posts
      × (calls derive (post_key "p1") last.world.sent
          ≡ calls derive (post_key "p1") first.world.sent))
first_answer_final_example =
    first_answer_final lower uuid derive (press simulator 50) simulator hello_post desk refl refl
      found_queued is_open not_over free not_out simulated_for_good
      (publishing (press broken 60) ∷ [])
