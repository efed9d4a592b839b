-- ===== src/Channels/Samples.antt =====
-- Two lists of channels, and the theorems at them. Texts that are lower case already stand for what
-- `str.lower` makes of them.
use socio_seo_agent.Prelude.{◌≡◌, ◌≢◌, refl, String, List, [], ◌∷◌, ok}
use socio_seo_agent.Json.{Json, arr, text, num, nil, cons}
use socio_seo_agent.Strings.{strip}
use socio_seo_agent.Strings.Strip.{strip_idem}
use socio_seo_agent.Channels.{
  lookup, unaliased, canonical_channel, spec_for, has_spec, is_known, add_once, keep_known,
  note_stray, canonicalise_loop, canonicalise_known, normalise_loop, or_default, normalise_channels,
  json_of,
}
use socio_seo_agent.Channels.Names.{IsLower}
use socio_seo_agent.Channels.Normalise.{IsFresh, normalise_channels_stable}

program : Unit {0}
unfolding strip lookup unaliased canonical_channel spec_for has_spec is_known add_once keep_known
    note_stray canonicalise_loop canonicalise_known normalise_loop or_default normalise_channels
    json_of
program = tt

abbrev lower : String → String
lower s = s

lower-IsLower : IsLower lower
lower-IsLower = record {
  stable = strip_idem;
  blog_article = refl;
  linkedin = refl;
  instagram = refl;
  facebook = refl;
  email = refl;
  x = refl;
}

abbrev stored : Json
stored = arr (
    cons (text " twitter ")
      (cons (num 7) (cons (text "threads") (cons (text "x") (cons (text "facebook_post") nil)))))

stored_channels : normalise_channels lower stored ≡ "x" ∷ "facebook" ∷ []
unfolding program
stored_channels = refl

abbrev requested : List String
requested = "blog" ∷ " linkedin" ∷ "article" ∷ []

requested_known : canonicalise_known lower requested ≡ ok ("blog_article" ∷ "linkedin" ∷ [])
unfolding program
requested_known = refl

normalise_channels_stable_example :
    IsFresh lower lower-IsLower [] (normalise_channels lower stored)
    × (normalise_channels lower stored ≢ [])
    × (normalise_channels lower (arr (json_of (normalise_channels lower stored)))
        ≡ normalise_channels lower stored)
normalise_channels_stable_example = normalise_channels_stable lower lower-IsLower stored
