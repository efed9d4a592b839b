-- ===== src/Llm/Router/Reach.antt =====
-- The providers that `ModelRouter` can reach, and the chain that it resolves to.
use socio_seo_agent.Prelude.{
  String, ◌≡◌, refl, Bool, true, false, ◌||◌, Option, none, some, List, [], ◌∷◌, ◌++◌, arith, any,
  any-append, str_eq, eq_iff, All, Bool-cases, Option-cases, inl, inr,
}
use mathlib.Core.Path.{subst}
use socio_seo_agent.Llm.Contract.{TaskClass, Tier, cheap, mid, strong}
use socio_seo_agent.Llm.Routes.{
  RouteEntry, Resolver, fake_chain, base_url, keyless_available, setting_at, filled,
}
use socio_seo_agent.Llm.Router.{
  Router, build, provider_for, usable, usable_entries, or_fake, resolve,
}

-- An adapter is there, or can be built.
unfoldable pub Servable : Option Resolver → List String → String → Type 0
Servable resolver providers name =
    (found : List String) × (provider_for resolver name providers ≡ some found)

unfoldable pub Keeps : List String → List String → Type 0
Keeps ps qs = (name : String) → any (str_eq name) ps ≡ true → any (str_eq name) qs ≡ true

some_eq : {a b : List String} → some a ≡ some b → a ≡ b
some_eq e = cc

append-Keeps : (ps : List String) (name : String) → Keeps ps (ps ++ name ∷ [])
unfolding Keeps
append-Keeps ps name other h = ground (arith, any-append (str_eq other) ps (name ∷ []))

build-Keeps :
    (url : Option String) (name : String) (ps qs : List String)
    → build url name ps ≡ some qs
    → Keeps ps qs
unfolding build
build-Keeps none name ps qs e = absurd (absent e)
  where
    absent : none ≡ some qs → ⊥
    absent x = cc
build-Keeps (some url) name ps qs e = elim (Bool-cases (str_eq url "")) [
  | inl blank ↦ absurd (absent (ground arith))
  | inr given ↦ subst (Keeps ps) (some_eq (ground arith)) (append-Keeps ps name)
]
  where
    absent : none ≡ some qs → ⊥
    absent x = cc

pub provider_for-Keeps :
    (resolver : Option Resolver) (name : String) (ps qs : List String)
    → provider_for resolver name ps ≡ some qs
    → Keeps ps qs
unfolding provider_for Keeps
provider_for-Keeps resolver name ps qs e = elim (Bool-cases (any (str_eq name) ps)) [
  | inl there ↦ subst (Keeps ps) (some_eq (ground arith)) (λ other h. h)
  | inr absent ↦ built resolver absent e
]
  where
    nothing : none ≡ some qs → ⊥
    nothing x = cc

    built :
        (resolver : Option Resolver)
        → any (str_eq name) ps ≡ false
        → provider_for resolver name ps ≡ some qs
        → Keeps ps qs
    built none absent e = absurd (nothing (ground arith))
    built (some r) absent e = elim (Bool-cases (str_eq name "ollama")) [
      | inl local ↦ build-Keeps (base_url r name) name ps qs (ground arith)
      | inr other ↦ absurd (nothing (ground arith))
    ]

filled_builds :
    (url : Option String) (name : String) (ps : List String)
    → filled url ≡ true
    → (found : List String) × (build url name ps ≡ some found)
unfolding build filled
filled_builds none name ps h = ground arith
filled_builds (some url) name ps h = (ps ++ name ∷ [], ground arith)

keyless_builds :
    (r : Resolver) (name : String) (ps : List String)
    → any (str_eq "fake") ps ≡ true
    → any (str_eq name) ps ≡ false
    → keyless_available r name ≡ true
    → Servable (some r) ps name
unfolding Servable provider_for base_url keyless_available
keyless_builds r name ps f absent h = elim (Option-cases (setting_at name r.providers)) [
  | inl unset ↦ absurd (never (ground arith))
  | inr stored ↦
      let built = filled_builds stored.0.base_url name ps (ground (arith, eq_iff name "fake")) in
      (built.0, ground (arith, built.1, eq_iff name "fake"))
]
  where
    never : false ≡ true → ⊥
    never x = cc

usable-Servable :
    (resolver : Option Resolver) (ps : List String) (name : String)
    → any (str_eq "fake") ps ≡ true
    → usable resolver ps name ≡ true
    → Servable resolver ps name
unfolding usable Servable provider_for
usable-Servable none ps name f h = (ps, ground arith)
usable-Servable (some r) ps name f h = elim (Bool-cases (any (str_eq name) ps)) [
  | inl there ↦ (ps, ground arith)
  | inr absent ↦ keyless_builds r name ps f absent (ground arith)
]

-- The adapter is there, or the configuration lets it be used.
pub served : Option Resolver → List String → String → Bool
served resolver ps name = any (str_eq name) ps || usable resolver ps name

pub served-Servable :
    (resolver : Option Resolver) (ps : List String) (name : String)
    → any (str_eq "fake") ps ≡ true
    → served resolver ps name ≡ true
    → Servable resolver ps name
unfolding served Servable provider_for
served-Servable resolver ps name f h = elim (Bool-cases (any (str_eq name) ps)) [
  | inl there ↦ (ps, ground arith)
  | inr absent ↦ usable-Servable resolver ps name f (ground arith)
]

usable-Keeps :
    (resolver : Option Resolver) (ps qs : List String) (name : String)
    → any (str_eq "fake") ps ≡ true
    → Keeps ps qs
    → usable resolver ps name ≡ true
    → usable resolver qs name ≡ true
unfolding usable Keeps
usable-Keeps none ps qs name f k h = k name h
usable-Keeps (some r) ps qs name f k h = elim (Bool-cases (any (str_eq name) ps)) [
  | inl there ↦ ground (arith, k name there)
  | inr absent ↦ ground arith
]

served-Keeps :
    (resolver : Option Resolver) (ps qs : List String) (name : String)
    → any (str_eq "fake") ps ≡ true
    → Keeps ps qs
    → served resolver ps name ≡ true
    → served resolver qs name ≡ true
unfolding served Keeps
served-Keeps resolver ps qs name f k h = elim (Bool-cases (any (str_eq name) ps)) [
  | inl there ↦ ground (arith, k name there)
  | inr absent ↦ ground (arith, usable-Keeps resolver ps qs name f k (ground arith))
]

-- The chain's entries can all be served.
unfoldable pub AllUsable : Option Resolver → List String → List RouteEntry → Type 0
AllUsable resolver ps chain = All (λ e. served resolver ps e.provider ≡ true) chain

pub AllUsable-Keeps :
    (resolver : Option Resolver) (ps qs : List String) (chain : List RouteEntry)
    → any (str_eq "fake") ps ≡ true
    → Keeps ps qs
    → AllUsable resolver ps chain
    → AllUsable resolver qs chain
unfolding AllUsable
AllUsable-Keeps resolver ps qs [] f k h = tt
AllUsable-Keeps resolver ps qs (e ∷ chain) f k h =
    (served-Keeps resolver ps qs e.provider f k h.0, AllUsable-Keeps resolver ps qs chain f k h.1)

usable_entries-AllUsable :
    (resolver : Option Resolver) (ps : List String) (chain : List RouteEntry)
    → AllUsable resolver ps (usable_entries (usable resolver ps) chain)
unfolding AllUsable usable_entries served
usable_entries-AllUsable resolver ps [] = tt
usable_entries-AllUsable resolver ps (e ∷ chain) =
    elim (Bool-cases (usable resolver ps e.provider)) [
      | inl yes_usable ↦
          rw (yes_usable, usable_entries) (ground arith, usable_entries-AllUsable resolver ps chain)
      | inr unusable ↦ rw (unusable, usable_entries) (usable_entries-AllUsable resolver ps chain)
    ]

fake_chain-AllUsable :
    (resolver : Option Resolver) (ps : List String) (tier : Tier)
    → any (str_eq "fake") ps ≡ true
    → AllUsable resolver ps (fake_chain tier)
unfolding AllUsable fake_chain served
fake_chain-AllUsable resolver ps cheap f = (ground arith, tt)
fake_chain-AllUsable resolver ps mid f = (ground arith, tt)
fake_chain-AllUsable resolver ps strong f = (ground arith, tt)
fake_chain-AllUsable resolver ps Tier.embed f = (ground arith, tt)

pub Nonempty : List RouteEntry → Type 0
Nonempty chain = (e : RouteEntry) × ((es : List RouteEntry) × (chain ≡ e ∷ es))

or_fake-AllUsable :
    (resolver : Option Resolver) (ps : List String) (tier : Tier) (chain : List RouteEntry)
    → any (str_eq "fake") ps ≡ true
    → AllUsable resolver ps chain
    → AllUsable resolver ps (or_fake tier chain).chain × Nonempty (or_fake tier chain).chain
unfolding or_fake Nonempty fake_chain
or_fake-AllUsable resolver ps cheap [] f u =
    (fake_chain-AllUsable resolver ps cheap f, (_, (_, refl)))
or_fake-AllUsable resolver ps mid [] f u = (fake_chain-AllUsable resolver ps mid f, (_, (_, refl)))
or_fake-AllUsable resolver ps strong [] f u =
    (fake_chain-AllUsable resolver ps strong f, (_, (_, refl)))
or_fake-AllUsable resolver ps Tier.embed [] f u =
    (fake_chain-AllUsable resolver ps Tier.embed f, (_, (_, refl)))
or_fake-AllUsable resolver ps tier (e ∷ chain) f u = (u, (e, (chain, refl)))

pub resolve-AllUsable :
    (m : Router) (task : TaskClass) (ps : List String)
    → any (str_eq "fake") ps ≡ true
    → AllUsable m.resolver ps (resolve m task ps).chain × Nonempty (resolve m task ps).chain
unfolding resolve or_fake
resolve-AllUsable m task ps f = by_resolver m.resolver refl
  where
    by_resolver :
        (r : Option Resolver)
        → m.resolver ≡ r
        → AllUsable m.resolver ps (resolve m task ps).chain × Nonempty (resolve m task ps).chain
    by_resolver none e =
        rw (e, resolve) (or_fake-AllUsable none ps _ _ f (usable_entries-AllUsable none ps _))
    by_resolver (some r) e =
        rw (e, resolve)
          (or_fake-AllUsable (some r) ps _ _ f (usable_entries-AllUsable (some r) ps _))
