-- ===== src/Chunks.antt =====
-- backend/app/engines/kb/chunk.py. A level is what the split of its regular expression makes of a
-- text: pieces and, between them, the captured separators. `hash` is sha256 of the text.
mod Cuts
pub mod Pieces
pub mod Fits
mod Samples
use Prim.Native.Char.{code}
use socio_seo_agent.Prelude.{
  ℕ, zero, suc, ◌+◌, ◌*◌, ◌-◌, ◌/◌, String, Bool, true, false, Option, none, some, List, [], ◌∷◌,
  ◌++◌, ltb, leb, ◌==◌, ◌&&◌, not, length, str_eq, if◌then◌else◌, Result, ok, err,
}
use socio_seo_agent.Strings.{
  len, prefix, concat, drop_chars, strip, lstrip, is_space, is_blank, starts_with, count_char,
}

-- `CHARS_PER_TOKEN`
abbrev pub chars_per_token : ℕ
chars_per_token = 4

-- `tokens_for_chars`, of a number that is not negative.
unfoldable pub tokens_for_chars : ℕ → ℕ
tokens_for_chars chars = (chars + 3) / 4

unfoldable pub estimate_tokens : String → ℕ
unfolding tokens_for_chars len
estimate_tokens text = tokens_for_chars (len text)

pub record Chunk : Type 0 where
  pub ordinal : ℕ
  pub text : String
  pub token_estimate : ℕ
  pub content_hash : String
  pub carried_tokens : ℕ

-- `_Unit`
pub record Piece : Type 0 where
  pub text : String
  pub join : String

-- `_canonical_join`; a double newline is two newlines.
unfoldable pub canonical_join : String → String
unfolding count_char
canonical_join separator =
    if str_eq separator ""
    then ""
    else if ltb 1 (count_char 10 separator)
    then "\n\n"
    else if ltb 0 (count_char 10 separator)
    then "\n"
    else " "

-- The last resort: text[start : start + max_chars] for each start; `fuel` is a bound on the length.
unfoldable pub cut : ℕ → ℕ → String → List Piece
unfolding prefix drop_chars
cut zero max_chars text = []
cut (suc fuel) max_chars text =
    let rest = cut fuel max_chars (drop_chars max_chars text) in
    if str_eq text "" then [] else record { text = prefix max_chars text; join = "" } ∷ rest

-- sub_units[0] = replace(sub_units[0], join=pending_join)
unfoldable pub joined : String → List Piece → List Piece
joined join [] = []
joined join (unit ∷ units) = record unit { join = join } ∷ units

abbrev pub Level : Type 0
Level = String → List String

-- Parts stand at even places, separators between them.
unfoldable pub add_parts : (String → List Piece) → String → List String → List Piece
unfolding joined
add_parts sub pending [] = []
add_parts sub pending (part ∷ []) = if str_eq part "" then [] else joined pending (sub part)
add_parts sub pending (part ∷ separator ∷ rest) =
    let units = if str_eq part "" then [] else sub part in
    joined pending units ++ add_parts sub separator rest

unfoldable pub split_units : ℕ → List Level → String → List Piece
unfolding cut add_parts is_blank len
split_units max_chars [] text =
    if is_blank text
    then []
    else if leb (len text) max_chars
    then record { text = text; join = "" } ∷ []
    else cut (len text) max_chars text
split_units max_chars (level ∷ levels) text =
    if is_blank text
    then []
    else if leb (len text) max_chars
    then record { text = text; join = "" } ∷ []
    else if length (level text) == 1
    then split_units max_chars levels text
    else add_parts (split_units max_chars levels) "" (level text)

-- window[boundary.end():] of the first run of white space, or the window without one.
unfoldable pub behind_space : String → String → String
unfolding is_space lstrip
behind_space window String.[] = window
behind_space window (String.◌∷◌ c s) = if is_space (code c) then lstrip s else behind_space window s

-- text[-max_chars:] if len(text) > max_chars else text
unfoldable pub last_chars : ℕ → String → String
unfolding drop_chars len
last_chars max_chars text = drop_chars (len text - max_chars) text

-- `_tail`, of a limit that is not negative.
unfoldable pub tail : String → ℕ → String
unfolding behind_space last_chars strip
tail text max_chars =
    if max_chars == 0
    then ""
    else if str_eq text ""
    then ""
    else strip (behind_space (last_chars max_chars text) (last_chars max_chars text))

unfoldable pub carried_of : String → String → ℕ
unfolding estimate_tokens starts_with
carried_of carried stripped =
    if str_eq carried ""
    then 0
    else if starts_with stripped carried
    then estimate_tokens carried
    else 0

-- What opens a chunk: the carry first, unless the two do not fit.
unfoldable pub opening : ℕ → String → Piece → String
unfolding concat len
opening target_chars carried unit =
    let join = canonical_join unit.join in
    let candidate = concat carried (concat (if str_eq join "" then " " else join) unit.text) in
    if str_eq carried ""
    then unit.text
    else if ltb target_chars (len candidate)
    then unit.text
    else candidate

-- The carry behind the opening.
unfoldable pub carry_kept : ℕ → String → Piece → String
unfolding concat len
carry_kept target_chars carried unit =
    let join = canonical_join unit.join in
    let candidate = concat carried (concat (if str_eq join "" then " " else join) unit.text) in
    if ltb target_chars (len candidate) then "" else carried

-- buffer, separator and unit
unfoldable pub extended : String → Piece → String
unfolding canonical_join concat
extended buffer unit =
    let join = canonical_join unit.join in
    concat buffer (concat (if str_eq join "" then " " else join) unit.text)

-- The chunks so far, what is being filled, and what was carried into it.
pub record Filling : Type 0 where
  pub chunks : List Chunk
  pub buffer : String
  pub carried : String

pub data Refused : Type 0 where
  no_target overlap_too_large : Refused

-- max(1, target_chars - overlap_chars)
unfoldable pub max_unit_chars : ℕ → ℕ → ℕ
max_unit_chars target_chars overlap_chars =
    if leb 1 (target_chars - overlap_chars) then target_chars - overlap_chars else 1

module _ (hash : String → String) where
  -- `_build_chunk`
  unfoldable pub build_chunk : ℕ → String → String → Option Chunk
  unfolding strip estimate_tokens carried_of
  build_chunk ordinal text carried =
      let stripped = strip text in
      if str_eq stripped ""
      then none
      else some (record {
        ordinal = ordinal;
        text = stripped;
        token_estimate = estimate_tokens stripped;
        content_hash = hash stripped;
        carried_tokens = carried_of carried stripped;
      })

  unfoldable pub flush : String → String → List Chunk → List Chunk
  unfolding build_chunk
  flush buffer carried chunks = elim (build_chunk (length chunks) buffer carried) [
    | some chunk ↦ chunks ++ chunk ∷ []
    | none ↦ chunks
  ]

  module _ (target_chars overlap_chars : ℕ) where
    -- A unit behind an open buffer, or at the start of the next chunk.
    unfoldable pub take_unit : Filling → Piece → Filling
    unfolding opening carry_kept extended flush tail
    take_unit f unit =
        if str_eq f.buffer ""
        then record f {
          buffer = opening target_chars f.carried unit;
          carried = carry_kept target_chars f.carried unit;
        }
        else if leb (len (extended f.buffer unit)) target_chars
        then record f { buffer = extended f.buffer unit }
        else record {
          chunks = flush f.buffer f.carried f.chunks;
          buffer = opening target_chars (tail f.buffer overlap_chars) unit;
          carried = carry_kept target_chars (tail f.buffer overlap_chars) unit;
        }

    -- The loop; a round that only flushes and the one that re-offers its unit are one here.
    unfoldable pub fill : List Piece → Filling → Filling
    unfolding take_unit
    fill [] f = f
    fill (unit ∷ units) f = fill units (take_unit f unit)

    unfoldable pub finish_chunks : Filling → List Chunk
    unfolding flush
    finish_chunks f = if str_eq f.buffer "" then f.chunks else flush f.buffer f.carried f.chunks

  -- `chunk_text`, of an overlap that is not negative; the error is its ValueError.
  unfoldable pub chunk_text : List Level → String → ℕ → ℕ → Result Refused (List Chunk)
  unfolding finish_chunks fill split_units strip max_unit_chars
  chunk_text levels text target_tokens overlap_tokens =
      if ltb target_tokens 1
      then err no_target
      else if leb target_tokens overlap_tokens
      then err overlap_too_large
      else if str_eq (strip text) ""
      then ok []
      else ok (
          finish_chunks (target_tokens * 4) (overlap_tokens * 4) (
            fill (target_tokens * 4) (overlap_tokens * 4)
              (split_units (max_unit_chars (target_tokens * 4) (overlap_tokens * 4)) levels
                (strip text))
              (record { chunks = []; buffer = ""; carried = "" })))
