-- ===== src/Strings/Strip.antt =====
-- What stripping leaves: a text without white space at its ends, which is stripped already.
use Prim.Native.Char.{code}
use Prim.Native.String.{◌∷◌ as char_cons}
use socio_seo_agent.Prelude.{
  ◌≡◌, refl, ap, sym, ◌∙◌, String, Bool, true, false, not, str_eq, ◌&&◌, Bool-cases, inl, inr,
  arith,
}
use socio_seo_agent.Strings.{is_space, is_blank, lstrip, rstrip, strip}

starts_solid : String → Bool
starts_solid String.[] = true
starts_solid (String.◌∷◌ c s) = not (is_space (code c))

lstrip_solid : (s : String) → starts_solid (lstrip s) ≡ true
unfolding lstrip starts_solid
lstrip_solid String.[] = refl
lstrip_solid (String.◌∷◌ c s) = elim (Bool-cases (is_space (code c))) [
  | inl e ↦ rw (e, lstrip) (lstrip_solid s)
  | inr e ↦ rw (e, lstrip) (rw e refl)
]

lstrip_same : (s : String) → starts_solid s ≡ true → lstrip s ≡ s
unfolding lstrip starts_solid
lstrip_same String.[] h = refl
lstrip_same (String.◌∷◌ c s) h = elim (Bool-cases (is_space (code c))) [
  | inl e ↦ absurd (ground arith)
  | inr e ↦ rw (e, lstrip) refl
]

rstrip_solid : (s : String) → starts_solid s ≡ true → starts_solid (rstrip s) ≡ true
unfolding rstrip starts_solid
rstrip_solid String.[] h = refl
rstrip_solid (String.◌∷◌ c s) h = elim (Bool-cases (is_space (code c))) [
  | inl e ↦ absurd (ground arith)
  | inr e ↦ rw (e, rstrip) (rw e refl)
]

is_blank-rstrip : (s : String) → is_blank (rstrip s) ≡ is_blank s
unfolding is_blank rstrip
is_blank-rstrip String.[] = refl
is_blank-rstrip (String.◌∷◌ c s) = elim (Bool-cases (is_space (code c) && is_blank s)) [
  | inl e ↦ rw (e, rstrip) refl
  | inr e ↦ rw (e, rstrip) (rw (is_blank-rstrip s) e)
]

rstrip_idem : (s : String) → rstrip (rstrip s) ≡ rstrip s
unfolding rstrip
rstrip_idem String.[] = refl
rstrip_idem (String.◌∷◌ c s) = elim (Bool-cases (is_space (code c) && is_blank s)) [
  | inl e ↦ rw (e, rstrip) refl
  | inr e ↦ rw (e, rstrip) (rw (is_blank-rstrip s, e, rstrip) (ap (char_cons c) (rstrip_idem s)))
]

pub strip_idem : (s : String) → strip (strip s) ≡ strip s
unfolding strip
strip_idem s =
    ap rstrip (lstrip_same (rstrip (lstrip s)) (rstrip_solid (lstrip s) (lstrip_solid s)))
    ∙ rstrip_idem (lstrip s)

lstrip_blank : (s : String) → is_blank s ≡ true → lstrip s ≡ ""
unfolding lstrip is_blank
lstrip_blank String.[] h = refl
lstrip_blank (String.◌∷◌ c s) h = elim (Bool-cases (is_space (code c))) [
  | inl e ↦ rw (e, lstrip) (lstrip_blank s (ground arith))
  | inr e ↦ absurd (ground arith)
]

-- A stripped text that is not empty has a character that is not white space.
pub is_blank-strip : (s : String) → str_eq (strip s) "" ≡ false → is_blank (strip s) ≡ false
unfolding strip rstrip
is_blank-strip s full = elim (Bool-cases (is_blank (strip s))) [
  | inr e ↦ e
  | inl e ↦
      let empty : strip s ≡ "" = sym (strip_idem s) ∙ ap rstrip (lstrip_blank (strip s) e) in
      absurd (apart (ap (λ t. str_eq t "") (sym empty) ∙ full))
]
  where
    apart : true ≡ false → ⊥
    apart e = cc
