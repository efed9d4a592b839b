-- ===== src/Strings/Lengths.antt =====
-- How long a text is behind the methods of `str`.
use Prim.Native.Char.{code}
use socio_seo_agent.Prelude.{
  ℕ, zero, suc, ◌+◌, ◌-◌, ◌≤◌, ◌≡◌, String, Bool, true, false, arith, if◌then◌else◌, Bool-cases,
  inl, inr,
}
use socio_seo_agent.Strings.{len, prefix, concat, lstrip, rstrip, strip, drop_chars, is_space}

pub len-prefix : (n : ℕ) (s : String) → len (prefix n s) ≤ n
unfolding len prefix
len-prefix zero s = omega arith
len-prefix (suc n) String.[] = omega arith
len-prefix (suc n) (String.◌∷◌ c s) = omega (arith, len-prefix n s)

pub len-concat : (s t : String) → len (concat s t) ≡ len s + len t
unfolding len concat
len-concat String.[] t = omega arith
len-concat (String.◌∷◌ c s) t = omega (arith, len-concat s t)

len_blanked : (b : Bool) (t : String) (n : ℕ) → len t ≤ n → len (if b then "" else t) ≤ n
unfolding len
len_blanked true t n h = omega arith
len_blanked false t n h = h

pub len-rstrip : (s : String) → len (rstrip s) ≤ len s
unfolding len rstrip
len-rstrip String.[] = omega arith
len-rstrip (String.◌∷◌ c s) =
    len_blanked _ (String.◌∷◌ c (rstrip s)) _ (omega (arith, len-rstrip s))

pub len-lstrip : (s : String) → len (lstrip s) ≤ len s
unfolding len lstrip
len-lstrip String.[] = omega arith
len-lstrip (String.◌∷◌ c s) = elim (Bool-cases (is_space (code c))) [
  | inl e ↦ rw (e, lstrip) (omega (arith, len-lstrip s))
  | inr e ↦ rw (e, lstrip) (omega arith)
]

pub len-strip : (s : String) → len (strip s) ≤ len s
unfolding strip
len-strip s = omega (arith, len-rstrip (lstrip s), len-lstrip s)

pub len-drop_chars : (n : ℕ) (s : String) → len (drop_chars n s) ≡ len s - n
unfolding len drop_chars
len-drop_chars zero s = omega arith
len-drop_chars (suc n) String.[] = omega arith
len-drop_chars (suc n) (String.◌∷◌ c s) = omega (arith, len-drop_chars n s)
