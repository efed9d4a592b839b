-- ===== src/Channels.antt =====
-- backend/app/engines/channel/specs.py: the channels and their names; and the normaliser of
-- backend/app/agents/state.py. Python's `str.lower` is the parameter `lower`.
pub mod Names
pub mod Normalise
pub mod Agreement
mod Samples
use socio_seo_agent.Prelude.{
  ℕ, String, Bool, true, false, ◌&&◌, Option, none, some, List, [], ◌∷◌, ◌++◌, any, str_eq,
  if◌then◌else◌, Result, ok, err,
}
use socio_seo_agent.Json.{Json, Items, arr, text, nil, cons}
use socio_seo_agent.Strings.{strip}

pub record ChannelSpec : Type 0 where
  pub max_chars : ℕ
  pub hard_max_chars : ℕ
  pub hashtags_min : ℕ
  pub hashtags_max : ℕ
  pub link_in_body : Bool
  pub min_chars : ℕ

-- `CHANNEL_SPECS`
abbrev pub channel_specs : List (String × ChannelSpec)
channel_specs =
    (
      "blog_article",
      record {
        max_chars = 40_000;
        hard_max_chars = 200_000;
        hashtags_min = 0;
        hashtags_max = 0;
        link_in_body = true;
        min_chars = 2_500;
      },
    )
    ∷ (
      "linkedin",
      record {
        max_chars = 1_700;
        hard_max_chars = 3_000;
        hashtags_min = 0;
        hashtags_max = 3;
        link_in_body = true;
        min_chars = 0;
      },
    )
    ∷ (
      "instagram",
      record {
        max_chars = 2_200;
        hard_max_chars = 2_200;
        hashtags_min = 3;
        hashtags_max = 5;
        link_in_body = false;
        min_chars = 0;
      },
    )
    ∷ (
      "facebook",
      record {
        max_chars = 1_000;
        hard_max_chars = 63_206;
        hashtags_min = 0;
        hashtags_max = 3;
        link_in_body = true;
        min_chars = 0;
      },
    )
    ∷ (
      "email",
      record {
        max_chars = 2_500;
        hard_max_chars = 100_000;
        hashtags_min = 0;
        hashtags_max = 0;
        link_in_body = true;
        min_chars = 300;
      },
    )
    ∷ (
      "x",
      record {
        max_chars = 280;
        hard_max_chars = 280;
        hashtags_min = 0;
        hashtags_max = 2;
        link_in_body = true;
        min_chars = 0;
      },
    )
    ∷ []

-- `CHANNEL_ALIASES`
abbrev pub channel_aliases : List (String × String)
channel_aliases =
    ("facebook_post", "facebook")
    ∷ ("instagram_caption", "instagram")
    ∷ ("instagram_post", "instagram")
    ∷ ("linkedin_post", "linkedin")
    ∷ ("twitter", "x")
    ∷ ("article", "blog_article")
    ∷ ("blog", "blog_article")
    ∷ []

-- `DEFAULT_CHANNELS`
abbrev pub default_channels : List String
default_channels = "linkedin" ∷ "facebook" ∷ "instagram" ∷ []

-- table.get(name)
unfoldable pub lookup {ℓ} : {A : Type ℓ} → String → List (String × A) → Option A
lookup name [] = none
lookup name (entry ∷ table) = if str_eq entry.0 name then some entry.1 else lookup name table

-- seen[name] = None, for the order of the keys
unfoldable pub add_once : String → List String → List String
add_once name seen = if any (str_eq name) seen then seen else seen ++ name ∷ []

-- CHANNEL_ALIASES.get(name, name)
unfoldable pub unaliased : String → String
unfolding lookup
unaliased name = elim (lookup name channel_aliases) [ some canonical ↦ canonical | none ↦ name ]

module _ (lower : String → String) where
  unfoldable pub canonical_channel : String → String
  unfolding strip unaliased
  canonical_channel channel = unaliased (lower (strip channel))

  -- `spec_for`; `none` is its KeyError.
  unfoldable pub spec_for : String → Option ChannelSpec
  unfolding canonical_channel lookup
  spec_for channel = lookup (canonical_channel channel) channel_specs

  unfoldable pub has_spec : String → Bool
  unfolding spec_for
  has_spec channel = elim (spec_for channel) [ some spec ↦ true | none ↦ false ]

  -- channel and has_spec(channel)
  unfoldable pub is_known : String → Bool
  unfolding has_spec
  is_known channel = if str_eq channel "" then false else has_spec channel

  unfoldable pub keep_known : String → List String → List String
  unfolding is_known add_once
  keep_known name seen = if is_known name then add_once name seen else seen

  unfoldable pub note_stray : String → String → List String → List String
  unfolding is_known strip
  note_stray raw name unknown =
      if is_known name
      then unknown
      else unknown ++ (if str_eq (strip raw) "" then raw else strip raw) ∷ []

  -- The loop of `canonicalise_known`, with the channels and the strays so far.
  unfoldable pub canonicalise_loop :
      List String → List String → List String → Result (List String) (List String)
  unfolding canonical_channel keep_known note_stray
  canonicalise_loop [] canonical [] = ok canonical
  canonicalise_loop [] canonical (stray ∷ strays) = err (stray ∷ strays)
  canonicalise_loop (raw ∷ raws) canonical unknown =
      let name = canonical_channel raw in
      canonicalise_loop raws (keep_known name canonical) (note_stray raw name unknown)

  -- The error is the ValueError's list of strays.
  unfoldable pub canonicalise_known : List String → Result (List String) (List String)
  unfolding canonicalise_loop
  canonicalise_known channels = canonicalise_loop channels [] []

  -- The loop of `normalise_channels`.
  unfoldable pub normalise_loop : Items → List String → List String
  unfolding canonical_channel keep_known strip
  normalise_loop nil seen = seen
  normalise_loop (cons (text entry) entries) seen =
      let channel = canonical_channel (strip entry) in
      normalise_loop entries (keep_known channel seen)
  normalise_loop (cons entry entries) seen = normalise_loop entries seen

  unfoldable pub or_default : List String → List String
  or_default [] = default_channels
  or_default (name ∷ names) = name ∷ names

  unfoldable pub normalise_channels : Json → List String
  unfolding normalise_loop or_default
  normalise_channels (arr entries) = or_default (normalise_loop entries [])
  normalise_channels _ = default_channels

-- A list of strings, as JSON holds it.
unfoldable pub json_of : List String → Items
json_of [] = nil
json_of (name ∷ names) = cons (text name) (json_of names)
