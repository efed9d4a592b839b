-- ===== src/Channels/Agreement.antt =====
-- What `canonicalise_known` of backend/app/engines/channel/specs.py accepts, and what
-- `normalise_channels` of backend/app/agents/state.py reads from it.
use socio_seo_agent.Prelude.{
  ◌≡◌, ◌≢◌, refl, ap, ◌∙◌, sym, String, true, false, List, [], ◌∷◌, ◌++◌, inl, inr, Bool-cases, ok,
}
use socio_seo_agent.Json.{arr}
use socio_seo_agent.Channels.{
  canonical_channel, is_known, keep_known, note_stray, canonicalise_loop, canonicalise_known,
  normalise_loop, or_default, normalise_channels, json_of,
}
use socio_seo_agent.Channels.Names.{IsLower, canonical-strip}

module _ (lower : String → String) (laws : IsLower lower) where
  snoc_some : (names : List String) (name : String) → names ++ name ∷ [] ≢ []
  snoc_some [] name e = cc
  snoc_some (x ∷ names) name e = cc

  note_stray_some :
      (raw name : String) (unknown : List String)
      → unknown ≢ []
      → note_stray lower raw name unknown ≢ []
  unfolding note_stray
  note_stray_some raw name unknown h = elim (Bool-cases (is_known lower name)) [
    | inl e ↦ rw (e, note_stray) h
    | inr e ↦ rw (e, note_stray) (snoc_some unknown _)
  ]

  canonicalise_strays :
      (raws canonical unknown names : List String)
      → unknown ≢ []
      → canonicalise_loop lower raws canonical unknown ≢ ok names
  unfolding canonicalise_loop
  canonicalise_strays [] canonical [] names h e = h refl
  canonicalise_strays [] canonical (stray ∷ strays) names h e = cc
  canonicalise_strays (raw ∷ raws) canonical unknown names h e =
      canonicalise_strays raws (keep_known lower (canonical_channel lower raw) canonical)
        (note_stray lower raw (canonical_channel lower raw) unknown) names
        (note_stray_some raw (canonical_channel lower raw) unknown h) e

  note_known : (raw name : String) → is_known lower name ≡ true → note_stray lower raw name [] ≡ []
  unfolding note_stray
  note_known raw name e = rw (e, note_stray) refl

  note_other : (raw name : String) → is_known lower name ≡ false → note_stray lower raw name [] ≢ []
  unfolding note_stray
  note_other raw name e = rw (e, note_stray) (snoc_some [] _)

  canonicalise_loop-normalise_loop :
      (raws seen names : List String)
      → canonicalise_loop lower raws seen [] ≡ ok names
      → normalise_loop lower (json_of raws) seen ≡ names
  unfolding canonicalise_loop normalise_loop json_of
  canonicalise_loop-normalise_loop [] seen names e = cc
  canonicalise_loop-normalise_loop (raw ∷ raws) seen names e =
      let name = canonical_channel lower raw in
      elim (Bool-cases (is_known lower name)) [
        | inl k ↦
            ap (λ n. normalise_loop lower (json_of raws) (keep_known lower n seen))
              (canonical-strip lower laws raw)
            ∙ canonicalise_loop-normalise_loop raws (keep_known lower name seen) names (
                ap (canonicalise_loop lower raws (keep_known lower name seen))
                  (sym (note_known raw name k))
                ∙ e)
        | inr k ↦ absurd (
            canonicalise_strays raws (keep_known lower name seen) (note_stray lower raw name [])
              names (note_other raw name k) e)
      ]

  -- The check of a request and the reader of a checkpoint agree: where `canonicalise_known` accepts the
  -- names that a caller gave, the normaliser reads the same channels from them, the default set for none.
  pub canonicalise_known-normalise_channels :
      (raws names : List String)
      → canonicalise_known lower raws ≡ ok names
      → normalise_channels lower (arr (json_of raws)) ≡ or_default lower names
  unfolding canonicalise_known normalise_channels
  canonicalise_known-normalise_channels raws names e =
      ap (or_default lower) (canonicalise_loop-normalise_loop raws [] names e)
