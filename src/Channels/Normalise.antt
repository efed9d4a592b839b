-- ===== src/Channels/Normalise.antt =====
-- What `normalise_channels` leaves, beside `canonicalise_known` of engines/channel/specs.py.
use socio_seo_agent.Prelude.{
  ◌≡◌, ◌≢◌, refl, ap, ◌∙◌, sym, String, true, false, some, List, [], ◌∷◌, ◌++◌, any, str_eq, inl,
  inr, Bool-cases, append_assoc, append-nil,
}
use mathlib.Core.Path.{subst}
use socio_seo_agent.Json.{Json, Items, arr, text, nil, cons}
use socio_seo_agent.Strings.{strip}
use socio_seo_agent.Channels.{
  canonical_channel, is_known, add_once, keep_known, normalise_loop, or_default, normalise_channels,
  json_of, default_channels, ChannelSpec, channel_specs, lookup, unaliased, has_spec, spec_for,
}
use socio_seo_agent.Channels.Names.{
  IsLower, fixed-IsCanonical, IsCanonical, canonical-strip, canonical_channel-IsCanonical,
}

module _ (lower : String → String) (laws : IsLower lower) where
  -- Known canonical names, none of them twice and none among the seen ones.
  abbrev pub IsFresh : List String → List String → Type 0
  IsFresh seen [] = Unit
  IsFresh seen (name ∷ names) =
      IsCanonical lower laws name
      × (is_known lower name ≡ true)
      × (any (str_eq name) seen ≡ false)
      × IsFresh (seen ++ name ∷ []) names

  IsFresh-snoc :
      (seen names : List String) (name : String)
      → IsFresh seen names
      → IsCanonical lower laws name
      → is_known lower name ≡ true
      → any (str_eq name) (seen ++ names) ≡ false
      → IsFresh seen (names ++ name ∷ [])
  IsFresh-snoc seen [] name h c k f =
      (c, k, subst (λ l. any (str_eq name) l ≡ false) (append-nil seen) f, tt)
  IsFresh-snoc seen (x ∷ names) name (xc, xk, xf, rest) c k f = (
    xc,
    xk,
    xf,
    IsFresh-snoc (seen ++ x ∷ []) names name rest c k
        (subst (λ l. any (str_eq name) l ≡ false) (sym (append_assoc seen (x ∷ []) names)) f),
  )

  add_once-IsFresh :
      (name : String) (names : List String)
      → IsFresh [] names
      → IsCanonical lower laws name
      → is_known lower name ≡ true
      → IsFresh [] (add_once name names)
  unfolding add_once
  add_once-IsFresh name names h c k = elim (Bool-cases (any (str_eq name) names)) [
    | inl e ↦ rw (e, add_once) h
    | inr e ↦ rw (e, add_once) (IsFresh-snoc [] names name h c k e)
  ]

  keep_known-IsFresh :
      (entry : String) (seen : List String)
      → IsFresh [] seen
      → IsFresh [] (keep_known lower (canonical_channel lower entry) seen)
  unfolding keep_known
  keep_known-IsFresh entry seen h =
      elim (Bool-cases (is_known lower (canonical_channel lower entry))) [
        | inl e ↦
            rw (e, keep_known)
              (add_once-IsFresh (canonical_channel lower entry) seen h
                (canonical_channel-IsCanonical lower laws entry) e)
        | inr e ↦ rw (e, keep_known) h
      ]

  normalise_loop-IsFresh :
      (entries : Items) (seen : List String)
      → IsFresh [] seen
      → IsFresh [] (normalise_loop lower entries seen)
  unfolding normalise_loop
  normalise_loop-IsFresh nil seen h = h
  normalise_loop-IsFresh (cons (text entry) entries) seen h =
      normalise_loop-IsFresh entries _ (keep_known-IsFresh (strip entry) seen h)
  normalise_loop-IsFresh (cons entry entries) seen h = normalise_loop-IsFresh entries seen h

  added_fresh :
      (name channel : String) (seen : List String)
      → channel ≡ name
      → is_known lower name ≡ true
      → any (str_eq name) seen ≡ false
      → keep_known lower channel seen ≡ seen ++ name ∷ []
  unfolding keep_known add_once
  added_fresh name channel seen c k f = rw (c, k, f, keep_known, add_once) refl

  -- Fresh names come through the loop as they are.
  normalise_loop_fresh :
      (names seen : List String)
      → IsFresh seen names
      → normalise_loop lower (json_of names) seen ≡ seen ++ names
  unfolding normalise_loop json_of keep_known
  normalise_loop_fresh [] seen h = sym (append-nil seen)
  normalise_loop_fresh (name ∷ names) seen (c, k, f, rest) =
      let channel = canonical_channel lower (strip name) in
      ap (normalise_loop lower (json_of names))
        (added_fresh name channel seen (canonical-strip lower laws name ∙ c) k f)
      ∙ normalise_loop_fresh names (seen ++ name ∷ []) rest
      ∙ append_assoc seen (name ∷ []) names

  known_of :
      (name : String) (spec : ChannelSpec)
      → IsCanonical lower laws name
      → lookup name channel_specs ≡ some spec
      → str_eq name "" ≡ false
      → is_known lower name ≡ true
  unfolding is_known has_spec spec_for
  known_of name spec c l e = rw (e, c, l, is_known, has_spec, spec_for) refl

  default-IsCanonical :
      (name : String)
      → strip name ≡ name
      → lower name ≡ name
      → unaliased name ≡ name
      → IsCanonical lower laws name
  default-IsCanonical = fixed-IsCanonical lower laws

  default-IsFresh : IsFresh [] default_channels
  unfolding lookup strip unaliased
  default-IsFresh = (
    default-IsCanonical "linkedin" refl laws.linkedin refl,
    known_of "linkedin" _ (default-IsCanonical "linkedin" refl laws.linkedin refl) refl refl,
    refl,
    (
      default-IsCanonical "facebook" refl laws.facebook refl,
      known_of "facebook" _ (default-IsCanonical "facebook" refl laws.facebook refl) refl refl,
      refl,
      (
        default-IsCanonical "instagram" refl laws.instagram refl,
        known_of "instagram" _ (default-IsCanonical "instagram" refl laws.instagram refl) refl refl,
        refl,
        tt,
      ),
    ),
  )

  or_default-IsFresh :
      (names : List String) → IsFresh [] names → IsFresh [] (or_default lower names)
  unfolding or_default
  or_default-IsFresh [] h = default-IsFresh
  or_default-IsFresh (name ∷ names) h = h

  normalise_channels-IsFresh : (raw : Json) → IsFresh [] (normalise_channels lower raw)
  unfolding normalise_channels
  normalise_channels-IsFresh (arr entries) =
      or_default-IsFresh (normalise_loop lower entries []) (normalise_loop-IsFresh entries [] tt)
  normalise_channels-IsFresh _ = default-IsFresh

  or_default_twice :
      (names : List String) → or_default lower (or_default lower names) ≡ or_default lower names
  unfolding or_default
  or_default_twice [] = refl
  or_default_twice (name ∷ names) = refl

  or_default_some : (names : List String) → or_default lower names ≢ []
  unfolding or_default
  or_default_some [] e = cc
  or_default_some (name ∷ names) e = cc

  normalise_channels_some : (raw : Json) → normalise_channels lower raw ≢ []
  unfolding normalise_channels
  normalise_channels_some (arr entries) e = or_default_some (normalise_loop lower entries []) e
  normalise_channels_some _ e = or_default_some [] e

  stable :
      (raw : Json) → or_default lower (normalise_channels lower raw) ≡ normalise_channels lower raw
  unfolding normalise_channels or_default
  stable (arr entries) = or_default_twice (normalise_loop lower entries [])
  stable _ = refl

  -- Whatever JSON value a checkpoint or a caller holds for channels, the normalised list has canonical
  -- names of the table, at least one and none of them twice, and normalising it again, as a stored
  -- list, changes nothing.
  pub normalise_channels_stable :
      (raw : Json)
      → IsFresh [] (normalise_channels lower raw)
        × (normalise_channels lower raw ≢ [])
        × (normalise_channels lower (arr (json_of (normalise_channels lower raw)))
            ≡ normalise_channels lower raw)
  unfolding normalise_channels
  normalise_channels_stable raw = (
    normalise_channels-IsFresh raw,
    normalise_channels_some raw,
    ap (or_default lower)
          (normalise_loop_fresh (normalise_channels lower raw) [] (normalise_channels-IsFresh raw))
        ∙ stable raw,
  )
