-- ===== src/Chunks/Cuts.antt =====
-- The mid-word cut of backend/app/engines/kb/chunk.py: its fuel is enough.
use socio_seo_agent.Prelude.{
  ℕ, zero, suc, ◌≤◌, ◌≡◌, refl, ap, ◌∙◌, sym, String, false, List, [], ◌∷◌, str_eq, eq_iff, arith,
  Bool-cases, inl, inr,
}
use socio_seo_agent.Strings.{len, prefix, concat, drop_chars}
use socio_seo_agent.Strings.Lengths.{len-drop_chars}
use socio_seo_agent.Chunks.{Piece, cut}

-- The texts of the pieces in a row.
unfoldable whole : List Piece → String
unfolding concat
whole [] = ""
whole (piece ∷ pieces) = concat piece.text (whole pieces)

concat-prefix : (n : ℕ) (s : String) → concat (prefix n s) (drop_chars n s) ≡ s
unfolding concat prefix drop_chars
concat-prefix zero s = refl
concat-prefix (suc n) String.[] = refl
concat-prefix (suc n) (String.◌∷◌ c s) = ap (String.◌∷◌ c) (concat-prefix n s)

len_filled : (s : String) → str_eq s "" ≡ false → 1 ≤ len s
unfolding len
len_filled String.[] e = absurd (ground arith)
len_filled (String.◌∷◌ c s) e = omega arith

len_empty : (s : String) → len s ≤ 0 → s ≡ ""
unfolding len
len_empty String.[] h = refl
len_empty (String.◌∷◌ c s) h = absurd (omega arith)

-- With the text's length as fuel the pieces are the whole text.
cut-whole : (fuel n : ℕ) (text : String) → 1 ≤ n → len text ≤ fuel → whole (cut fuel n text) ≡ text
unfolding cut whole
cut-whole zero n text hn h = sym (len_empty text h)
cut-whole (suc fuel) n text hn h = elim (Bool-cases (str_eq text "")) [
  | inl e ↦ rw (e, cut) (sym ((eq_iff text "").0 e))
  | inr e ↦
      let shorter : len (drop_chars n text) ≤ fuel =
        omega (arith, len-drop_chars n text, len_filled text e) in
      rw (e, cut)
        (ap (concat (prefix n text)) (cut-whole fuel n (drop_chars n text) hn shorter)
          ∙ concat-prefix n text)
]
