-- ===== src/Posts/Queue.antt =====
-- Queueing a piece's renderings again, of backend/app/services/social_post_service.py.
use socio_seo_agent.Prelude.{
  ℕ, String, ◌≡◌, refl, ap, ◌∙◌, Bool, true, Option, none, some, List, [], ◌∷◌, ◌++◌, arith, str_eq,
  any, any-append, not, ◌||◌, eq_iff, if◌then◌else◌, Bool-cases, inl, inr, All,
}
use socio_seo_agent.Strings.{strip}
use socio_seo_agent.Channels.{canonical_channel, has_spec}
use socio_seo_agent.Posts.{
  Post, Rendering, queue_one, queue_posts, queued_post, holds_place, is_cancelled, status_for,
}

module _ (lower : String → String) (uuid : List Post → String) (b piece : ℕ) where
  channel_of : String × Rendering → String
  channel_of entry = canonical_channel lower (strip entry.0)

  -- An entry that adds nothing to these posts.
  is_blocked : String × Rendering → List Post → Bool
  is_blocked entry posts =
      (str_eq (channel_of entry) ""
        || not (has_spec lower (channel_of entry))
        || any (holds_place b piece (channel_of entry)) posts)
      || str_eq (strip entry.1.body) ""

  new_post : Option ℕ → String × Rendering → List Post → Post
  new_post when entry posts = queued_post (uuid posts) b piece (channel_of entry) when entry.1

  queue_one_lem :
      (when : Option ℕ) (entry : String × Rendering) (posts : List Post)
      → queue_one lower uuid b piece when entry posts
        ≡ (if is_blocked entry posts then posts else posts ++ new_post when entry posts ∷ [])
  unfolding queue_one is_blocked new_post channel_of
  queue_one_lem when (raw, rendering) posts = ground arith

  blocked-append :
      (entry : String × Rendering) (xs ys : List Post)
      → is_blocked entry xs ≡ true
      → is_blocked entry (xs ++ ys) ≡ true
  unfolding is_blocked
  blocked-append entry xs ys h =
      ground (arith, any-append (holds_place b piece (channel_of entry)) xs ys)

  new_post-holds :
      (when : Option ℕ) (entry : String × Rendering) (posts : List Post)
      → holds_place b piece (channel_of entry) (new_post when entry posts) ≡ true
  unfolding holds_place new_post queued_post is_cancelled status_for
  new_post-holds none entry posts = ground (arith, eq_iff (channel_of entry) (channel_of entry))
  new_post-holds (some t) entry posts = ground (arith, eq_iff (channel_of entry) (channel_of entry))

  blocked_after :
      (when : Option ℕ) (entry : String × Rendering) (posts : List Post)
      → is_blocked entry (queue_one lower uuid b piece when entry posts) ≡ true
  unfolding is_blocked
  blocked_after when entry posts = elim (Bool-cases (is_blocked entry posts)) [
    | inl e ↦ rw (queue_one_lem, e) e
    | inr e ↦
        rw (queue_one_lem, e)
          (ground (
            arith,
            any-append (holds_place b piece (channel_of entry)) posts
                (new_post when entry posts ∷ []),
            new_post-holds when entry posts,
          ))
  ]

  blocked_one :
      (when : Option ℕ) (entry other : String × Rendering) (posts : List Post)
      → is_blocked entry posts ≡ true
      → is_blocked entry (queue_one lower uuid b piece when other posts) ≡ true
  blocked_one when entry other posts h = elim (Bool-cases (is_blocked other posts)) [
    | inl e ↦ rw (queue_one_lem, e) h
    | inr e ↦ rw (queue_one_lem, e) (blocked-append entry posts (new_post when other posts ∷ []) h)
  ]

  blocked_all :
      (when : Option ℕ) (entry : String × Rendering) (renderings : List (String × Rendering))
      (posts : List Post)
      → is_blocked entry posts ≡ true
      → is_blocked entry (queue_posts lower uuid b piece when renderings posts) ≡ true
  unfolding queue_posts
  blocked_all when entry [] posts h = h
  blocked_all when entry (other ∷ renderings) posts h =
      blocked_all when entry renderings (queue_one lower uuid b piece when other posts)
        (blocked_one when entry other posts h)

  all_blocked :
      (when : Option ℕ) (renderings : List (String × Rendering)) (posts : List Post)
      → All
          (λ entry. is_blocked entry (queue_posts lower uuid b piece when renderings posts) ≡ true)
          renderings
  unfolding queue_posts
  all_blocked when [] posts = tt
  all_blocked when (entry ∷ renderings) posts = (
    blocked_all when entry renderings (queue_one lower uuid b piece when entry posts)
        (blocked_after when entry posts),
    all_blocked when renderings (queue_one lower uuid b piece when entry posts),
  )

  blocked_stay :
      (when : Option ℕ) (renderings : List (String × Rendering)) (posts : List Post)
      → All (λ entry. is_blocked entry posts ≡ true) renderings
      → queue_posts lower uuid b piece when renderings posts ≡ posts
  unfolding queue_posts
  blocked_stay when [] posts h = refl
  blocked_stay when (entry ∷ renderings) posts (hx, h) =
      ap (queue_posts lower uuid b piece when renderings) (rw (queue_one_lem, hx) refl)
      ∙ blocked_stay when renderings posts h

  -- Queueing the renderings of a piece again, at whatever time, adds no post.
  pub queue_posts_twice :
      (when again : Option ℕ) (renderings : List (String × Rendering)) (posts : List Post)
      → (let queued = queue_posts lower uuid b piece when renderings posts in
          queue_posts lower uuid b piece again renderings queued ≡ queued)
  queue_posts_twice when again renderings posts =
      blocked_stay again renderings _ (all_blocked when renderings posts)
