-- ===== src/Chunks/Pieces.antt =====
-- The pieces of a text that backend/app/engines/kb/chunk.py cuts are within their limit.
use socio_seo_agent.Prelude.{
  ℕ, zero, suc, ◌≤◌, String, Bool, true, false, List, [], ◌∷◌, leb, ◌==◌, length, str_eq,
  if◌then◌else◌, All, All-append, arith, inl, inr, Bool-cases,
}
use socio_seo_agent.Strings.{len, drop_chars, is_blank}
use socio_seo_agent.Strings.Lengths.{len-prefix}
use socio_seo_agent.Chunks.{Piece, Level, cut, joined, add_parts, split_units}

abbrev pub Short : ℕ → Piece → Type 0
Short n unit = len unit.text ≤ n

pub cut-Short : (fuel n : ℕ) (text : String) → All (Short n) (cut fuel n text)
unfolding cut
cut-Short zero n text = tt
cut-Short (suc fuel) n text = elim (Bool-cases (str_eq text "")) [
  | inl e ↦ rw (e, cut) tt
  | inr e ↦ rw (e, cut) (len-prefix n text, cut-Short fuel n (drop_chars n text))
]

pub joined-Short :
    (n : ℕ) (join : String) (units : List Piece)
    → All (Short n) units
    → All (Short n) (joined join units)
unfolding joined
joined-Short n join [] h = tt
joined-Short n join (unit ∷ units) h = h

pub part-Short :
    (n : ℕ) (b : Bool) (units : List Piece)
    → All (Short n) units
    → All (Short n) (if b then [] else units)
part-Short n true units h = tt
part-Short n false units h = h

pub add_parts-Short :
    (n : ℕ) (sub : String → List Piece)
    → ((text : String) → All (Short n) (sub text))
    → (pending : String) (parts : List String) → All (Short n) (add_parts sub pending parts)
unfolding add_parts
add_parts-Short n sub h pending [] = tt
add_parts-Short n sub h pending (part ∷ []) =
    part-Short n (str_eq part "") (joined pending (sub part))
      (joined-Short n pending (sub part) (h part))
add_parts-Short n sub h pending (part ∷ separator ∷ rest) =
    All-append (Short n) (joined pending (if str_eq part "" then [] else sub part)) _
      (joined-Short n pending _ (part-Short n (str_eq part "") (sub part) (h part)))
      (add_parts-Short n sub h separator rest)

pub whole-Short :
    (n : ℕ) (text : String) (units : List Piece)
    → All (Short n) units
    → All (Short n) (
        if is_blank text
        then []
        else if leb (len text) n
        then record { text = text; join = "" } ∷ []
        else units)
whole-Short n text units h = elim (Bool-cases (is_blank text)) [
  | inl e ↦ rw e tt
  | inr e ↦ elim (Bool-cases (leb (len text) n)) [
    | inl l ↦ rw (e, l) (ground arith, tt)
    | inr l ↦ rw (e, l) h
  ]
]

pub either-Short :
    (n : ℕ) (b : Bool) (xs ys : List Piece)
    → All (Short n) xs
    → All (Short n) ys
    → All (Short n) (if b then xs else ys)
either-Short n true xs ys hx hy = hx
either-Short n false xs ys hx hy = hy

pub split_units-Short :
    (n : ℕ) (levels : List Level) (text : String) → All (Short n) (split_units n levels text)
unfolding split_units
split_units-Short n [] text = whole-Short n text _ (cut-Short (len text) n text)
split_units-Short n (level ∷ levels) text = whole-Short n text _ (
    either-Short n (length (level text) == 1) _ _ (split_units-Short n levels text)
      (add_parts-Short n (split_units n levels) (split_units-Short n levels) "" (level text)))
