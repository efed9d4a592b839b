-- ===== src/Chunks/Fits.antt =====
-- What the chunker promises of every chunk.
use socio_seo_agent.Prelude.{
  ℕ, ◌+◌, ◌*◌, ◌-◌, ◌≤◌, ◌<◌, ◌≡◌, refl, ap, sym, ◌∙◌, String, Bool, true, false, Option, none,
  some, List, [], ◌∷◌, ◌++◌, leb, ◌==◌, length, str_eq, if◌then◌else◌, ok, All, arith, inl, inr,
  Bool-cases,
}
use mathlib.Core.Path.{subst}
use Prim.Native.Char.{code}
use socio_seo_agent.Strings.{len, strip, is_space, is_blank}
use socio_seo_agent.Strings.Strip.{strip_idem, is_blank-strip}
use socio_seo_agent.Strings.Lengths.{len-strip, len-lstrip, len-drop_chars}
use socio_seo_agent.Chunks.{
  Chunk, Piece, Level, Filling, opening, extended, carry_kept, build_chunk, flush, take_unit, fill,
  finish_chunks, chunk_text, max_unit_chars, estimate_tokens, tokens_for_chars, tail, behind_space,
  last_chars, carried_of,
}
use socio_seo_agent.Chunks.Pieces.{Short, split_units-Short}

-- The n-th chunk of a document: its number, its ceiling, its estimate and hash, and that it
-- is stripped and has a character that is not white space.
pub record Fits (hash : String → String) (target_tokens overlap_tokens n : ℕ) (chunk : Chunk)
    : Type 0 where
  pub numbered : chunk.ordinal ≡ n
  pub within : chunk.token_estimate ≤ target_tokens
  pub overlapped : chunk.carried_tokens ≤ overlap_tokens
  pub estimated : chunk.token_estimate ≡ estimate_tokens chunk.text
  pub hashed : chunk.content_hash ≡ hash chunk.text
  pub trimmed : strip chunk.text ≡ chunk.text
  pub filled : is_blank chunk.text ≡ false

-- The chunks of a document from the n-th on.
abbrev pub AllFit : (String → String) → ℕ → ℕ → ℕ → List Chunk → Type 0
AllFit hash t o n [] = Unit
AllFit hash t o n (chunk ∷ chunks) = Fits hash t o n chunk × AllFit hash t o (n + 1) chunks

AllFit-snoc :
    (hash : String → String) (t o n : ℕ) (chunks : List Chunk) (chunk : Chunk)
    → AllFit hash t o n chunks
    → Fits hash t o (n + length chunks) chunk
    → AllFit hash t o n (chunks ++ chunk ∷ [])
AllFit-snoc hash t o n [] chunk h fits = (subst (λ m. Fits hash t o m chunk) (omega arith) fits, tt)
AllFit-snoc hash t o n (x ∷ chunks) chunk (fx, rest) fits = (
  fx,
  AllFit-snoc hash t o (n + 1) chunks chunk rest
      (subst (λ m. Fits hash t o m chunk) (omega arith) fits),
)

opening_short :
    (target : ℕ) (carried : String) (unit : Piece)
    → len unit.text ≤ target
    → len (opening target carried unit) ≤ target
unfolding opening
opening_short target carried unit h = ground arith

estimate_within : (t : ℕ) (u : String) → len u ≤ t * 4 → estimate_tokens u ≤ t
unfolding estimate_tokens tokens_for_chars
estimate_within t u h = omega arith

behind_space_short :
    (window s : String) (n : ℕ) → len window ≤ n → len s ≤ n → len (behind_space window s) ≤ n
unfolding behind_space len
behind_space_short window String.[] n hw hs = hw
behind_space_short window (String.◌∷◌ c s) n hw hs = elim (Bool-cases (is_space (code c))) [
  | inl e ↦ rw (e, behind_space) (omega (arith, len-lstrip s))
  | inr e ↦ rw (e, behind_space) (behind_space_short window s n hw (omega arith))
]

last_chars_short : (n : ℕ) (text : String) → len (last_chars n text) ≤ n
unfolding last_chars
last_chars_short n text = omega (arith, len-drop_chars (len text - n) text)

blanked_short : (b : Bool) (s : String) (n : ℕ) → len s ≤ n → len (if b then "" else s) ≤ n
unfolding len
blanked_short true s n h = omega arith
blanked_short false s n h = h

-- What is carried is within the overlap.
tail_short : (text : String) (n : ℕ) → len (tail text n) ≤ n
unfolding tail
tail_short text n =
    let window = last_chars n text in
    let l =
      behind_space_short window window n (last_chars_short n text) (last_chars_short n text) in
    blanked_short (n == 0) _ n (
      blanked_short (str_eq text "") (strip (behind_space window window)) n
        (omega (arith, len-strip (behind_space window window))))

carry_kept_short :
    (target n : ℕ) (carried : String) (unit : Piece)
    → len carried ≤ n
    → len (carry_kept target carried unit) ≤ n
unfolding carry_kept
carry_kept_short target n carried unit h = blanked_short _ carried n h

carried_of_within :
    (o : ℕ) (carried stripped : String) → len carried ≤ o * 4 → carried_of carried stripped ≤ o
unfolding carried_of
carried_of_within o carried stripped h =
    let l : estimate_tokens carried ≤ o = estimate_within o carried h in ground arith

-- What holds of the chunks so far, of the buffer and of the carry.
record IsFilling (hash : String → String) (t o : ℕ) (f : Filling) : Type 0 where
  fit : AllFit hash t o 0 f.chunks
  short : len f.buffer ≤ t * 4
  light : len f.carried ≤ o * 4

if_IsFilling :
    {hash : String → String} {t o : ℕ} (b : Bool) (f g : Filling)
    → (b ≡ true → IsFilling hash t o f)
    → (b ≡ false → IsFilling hash t o g)
    → IsFilling hash t o (if b then f else g)
if_IsFilling true f g hf hg = hf refl
if_IsFilling false f g hf hg = hg refl

module _ (hash : String → String) (t o : ℕ) where
  built :
      (ordinal : ℕ) (text carried : String) (chunk : Chunk)
      → build_chunk hash ordinal text carried ≡ some chunk
      → len text ≤ t * 4
      → len carried ≤ o * 4
      → Fits hash t o ordinal chunk
  unfolding build_chunk
  built ordinal text carried chunk e h hc = elim (Bool-cases (str_eq (strip text) "")) [
    | inl blank ↦ absurd (ground arith)
    | inr full ↦
        let s : chunk.text ≡ strip text = ground arith in
        let k : chunk.token_estimate ≡ estimate_tokens (strip text) = ground arith in
        let c : chunk.carried_tokens ≡ carried_of carried (strip text) = ground arith in
        record {
          numbered = ground arith;
          within =
              subst (λ n. n ≤ t) (sym k)
                (estimate_within t (strip text) (omega (arith, len-strip text)));
          overlapped = subst (λ n. n ≤ o) (sym c) (carried_of_within o carried (strip text) hc);
          estimated = k ∙ ap estimate_tokens (sym s);
          hashed = ground arith;
          trimmed = ap strip s ∙ strip_idem text ∙ sym s;
          filled = ap is_blank s ∙ is_blank-strip text full;
        }
  ]

  flush-AllFit :
      (f : Filling)
      → IsFilling hash t o f
      → AllFit hash t o 0 (flush hash f.buffer f.carried f.chunks)
  unfolding flush
  flush-AllFit f i =
      go (build_chunk hash (length f.chunks) f.buffer f.carried)
        (λ chunk e. built (length f.chunks) f.buffer f.carried chunk e i.short i.light)
    where
      go :
          (b : Option Chunk)
          → ((chunk : Chunk) → b ≡ some chunk → Fits hash t o (length f.chunks) chunk)
          → AllFit hash t o 0 (elim b [ some chunk ↦ f.chunks ++ chunk ∷ [] | none ↦ f.chunks ])
      go none k = i.fit
      go (some chunk) k =
          AllFit-snoc hash t o 0 f.chunks chunk i.fit
            (subst (λ m. Fits hash t o m chunk) (omega arith) (k chunk refl))

  take_unit-IsFilling :
      (f : Filling) (unit : Piece)
      → len unit.text ≤ t * 4
      → IsFilling hash t o f
      → IsFilling hash t o (take_unit hash (t * 4) (o * 4) f unit)
  unfolding take_unit
  take_unit-IsFilling f unit h i =
      if_IsFilling (str_eq f.buffer "") _ _
        (λ e. record {
          fit = i.fit;
          short = opening_short (t * 4) f.carried unit h;
          light = carry_kept_short (t * 4) (o * 4) f.carried unit i.light;
        })
        (λ e.
          if_IsFilling (leb (len (extended f.buffer unit)) (t * 4)) _ _
            (λ l. record { fit = i.fit; short = ground arith; light = i.light })
            (λ l. record {
              fit = flush-AllFit f i;
              short = opening_short (t * 4) (tail f.buffer (o * 4)) unit h;
              light =
                  carry_kept_short (t * 4) (o * 4) (tail f.buffer (o * 4)) unit
                    (tail_short f.buffer (o * 4));
            }))

  fill-IsFilling :
      (units : List Piece) (f : Filling)
      → All (Short (t * 4)) units
      → IsFilling hash t o f
      → IsFilling hash t o (fill hash (t * 4) (o * 4) units f)
  unfolding fill
  fill-IsFilling [] f h i = i
  fill-IsFilling (unit ∷ units) f (hu, h) i =
      fill-IsFilling units (take_unit hash (t * 4) (o * 4) f unit) h
        (take_unit-IsFilling f unit hu i)

  finish_chunks-AllFit :
      (f : Filling)
      → IsFilling hash t o f
      → AllFit hash t o 0 (finish_chunks hash (t * 4) (o * 4) f)
  unfolding finish_chunks
  finish_chunks-AllFit f i = elim (Bool-cases (str_eq f.buffer "")) [
    | inl e ↦ rw e i.fit
    | inr e ↦ rw e (flush-AllFit f i)
  ]

Short-weaken : (m n : ℕ) (units : List Piece) → m ≤ n → All (Short m) units → All (Short n) units
Short-weaken m n [] h a = tt
Short-weaken m n (unit ∷ units) h (s, a) = (omega arith, Short-weaken m n units h a)

max_unit_chars_bound : (t o : ℕ) → 1 ≤ t → max_unit_chars (t * 4) (o * 4) ≤ t * 4
unfolding max_unit_chars
max_unit_chars_bound t o h = ground arith

-- For every target of at least one token and every overlap below it, chunk_text returns chunks
-- that are numbered from 0 without a gap, each stripped and with a character that is not white
-- space, each with the estimate and the hash of its own text, each within the target, and each carrying at most the overlap.
pub chunk_text_fits :
    (hash : String → String) (levels : List Level) (text : String) (t o : ℕ)
    → 1 ≤ t
    → o < t
    → (chunks : List Chunk) × (chunk_text hash levels text t o ≡ ok chunks)
      × AllFit hash t o 0 chunks
unfolding chunk_text
chunk_text_fits hash levels text t o ht ho = elim (Bool-cases (str_eq (strip text) "")) [
  | inl e ↦ ([], ground arith, tt)
  | inr e ↦ (
    _,
    ground arith,
    finish_chunks-AllFit hash t o _ (
        fill-IsFilling hash t o _ (record { chunks = []; buffer = ""; carried = "" })
          (Short-weaken (max_unit_chars (t * 4) (o * 4)) (t * 4) _ (max_unit_chars_bound t o ht)
            (split_units-Short (max_unit_chars (t * 4) (o * 4)) levels (strip text)))
          (record { fit = tt; short = ground arith; light = ground arith })),
  )
]
