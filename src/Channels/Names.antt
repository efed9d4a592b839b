-- ===== src/Channels/Names.antt =====
-- The canonical names: what `canonical_channel` answers is its own canonical name.
use socio_seo_agent.Prelude.{
  ◌≡◌, refl, ap, ◌∙◌, sym, String, true, false, none, some, List, [], ◌∷◌, All, str_eq,
  if◌then◌else◌, inl, inr, Option-cases, Bool-cases,
}
use mathlib.Core.Path.{subst}
use mathlib.Core.Option.{some-injective}
use socio_seo_agent.Strings.{strip}
use socio_seo_agent.Strings.Strip.{strip_idem}
use socio_seo_agent.Channels.{canonical_channel, channel_aliases, lookup, unaliased}

-- What is used of `str.lower`: the names of the table are lower case, and lowering twice, with
-- white space stripped between, is lowering once.
pub record IsLower (lower : String → String) : Type 0 where
  pub stable : (s : String) → lower (strip (lower (strip s))) ≡ lower (strip s)
  pub blog_article : lower "blog_article" ≡ "blog_article"
  pub linkedin : lower "linkedin" ≡ "linkedin"
  pub instagram : lower "instagram" ≡ "instagram"
  pub facebook : lower "facebook" ≡ "facebook"
  pub email : lower "email" ≡ "email"
  pub x : lower "x" ≡ "x"

lookup-All {ℓ κ} :
    {A : Type ℓ} (P : A → Type κ) (name : String) (table : List (String × A)) (value : A)
    → All (λ entry. P entry.1) table
    → lookup name table ≡ some value
    → P value
unfolding lookup
lookup-All P name [] value h e = cc
lookup-All P name (entry ∷ table) value h e = elim (Bool-cases (str_eq entry.0 name)) [
  | inl same ↦ subst P (some-injective _ _ (sym (first same) ∙ e)) h.0
  | inr other ↦ lookup-All P name table value h.1 (sym (later other) ∙ e)
]
  where
    first :
        str_eq entry.0 name ≡ true
        → (if str_eq entry.0 name then some entry.1 else lookup name table) ≡ some entry.1
    first same = rw same refl

    later :
        str_eq entry.0 name ≡ false
        → (if str_eq entry.0 name then some entry.1 else lookup name table) ≡ lookup name table
    later other = rw other refl

unaliased_known :
    (name canonical : String)
    → lookup name channel_aliases ≡ some canonical
    → unaliased name ≡ canonical
unfolding unaliased
unaliased_known name canonical h = rw (h, unaliased) refl

unaliased_other : (name : String) → lookup name channel_aliases ≡ none → unaliased name ≡ name
unfolding unaliased
unaliased_other name h = rw (h, unaliased) refl

module _ (lower : String → String) (laws : IsLower lower) where
  pub canonical-strip : (s : String) → canonical_channel lower (strip s) ≡ canonical_channel lower s
  unfolding canonical_channel
  canonical-strip s = ap (λ t. unaliased (lower t)) (strip_idem s)

  abbrev pub IsCanonical : String → Type 0
  IsCanonical name = canonical_channel lower name ≡ name

  pub fixed-IsCanonical :
      (name : String)
      → strip name ≡ name
      → lower name ≡ name
      → unaliased name ≡ name
      → IsCanonical name
  unfolding canonical_channel
  fixed-IsCanonical name s l u = ap (λ t. unaliased (lower t)) s ∙ ap unaliased l ∙ u

  aliases-IsCanonical : All (λ entry. IsCanonical entry.1) channel_aliases
  unfolding strip unaliased lookup
  aliases-IsCanonical =
      let facebook = fixed-IsCanonical "facebook" refl laws.facebook refl in
      let instagram = fixed-IsCanonical "instagram" refl laws.instagram refl in
      let linkedin = fixed-IsCanonical "linkedin" refl laws.linkedin refl in
      let x = fixed-IsCanonical "x" refl laws.x refl in
      let blog_article = fixed-IsCanonical "blog_article" refl laws.blog_article refl in
      (facebook, (instagram, (instagram, (linkedin, (x, (blog_article, (blog_article, tt)))))))

  pub canonical_channel-IsCanonical : (s : String) → IsCanonical (canonical_channel lower s)
  unfolding canonical_channel
  canonical_channel-IsCanonical s = elim (Option-cases (lookup (lower (strip s)) channel_aliases)) [
    | inl e ↦
        rw (unaliased_other (lower (strip s)) e)
          (ap unaliased (laws.stable s) ∙ unaliased_other _ e)
    | inr (canonical, e) ↦
        rw (unaliased_known (lower (strip s)) canonical e)
          (lookup-All IsCanonical (lower (strip s)) channel_aliases canonical aliases-IsCanonical e)
  ]
