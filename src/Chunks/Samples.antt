-- ===== src/Chunks/Samples.antt =====
-- Concrete runs of the chunker of backend/app/engines/kb/chunk.py.
use Prim.Native.Char.{code}
use socio_seo_agent.Prelude.{
  ◌≡◌, refl, String, List, [], ◌∷◌, if◌then◌else◌, ok, err, arith, Result,
}
use socio_seo_agent.Strings.{is_space, concat}
use socio_seo_agent.Chunks.{Chunk, Refused, overlap_too_large, chunk_text, Level}
use socio_seo_agent.Chunks.Fits.{AllFit, chunk_text_fits}

unfoldable first_extended : String → List String → List String
unfolding concat
first_extended c [] = c ∷ []
first_extended c (part ∷ parts) = concat c part ∷ parts

-- _WORD_SPLIT on a text whose words are one blank apart.
unfoldable words : String → List String
unfolding is_space first_extended
words String.[] = "" ∷ []
words (String.◌∷◌ c s) =
    let rest = words s in
    if is_space (code c) then "" ∷ " " ∷ rest else first_extended (String.◌∷◌ c String.[]) rest

abbrev word_levels : List Level
word_levels = words ∷ []

abbrev sample_hash : String → String
sample_hash text = text

abbrev sample_text : String
sample_text = " wir kommen in 60 min "

abbrev sample_run : Result Refused (List Chunk)
sample_run = chunk_text sample_hash word_levels sample_text 3 1

-- The carry of a window without white space starts inside a word.
carried_fragment :
    sample_run
    ≡ ok (
        record {
          ordinal = 0;
          text = "wir kommen";
          token_estimate = 3;
          content_hash = "wir kommen";
          carried_tokens = 0;
        }
        ∷ record {
          ordinal = 1;
          text = "mmen in 60";
          token_estimate = 3;
          content_hash = "mmen in 60";
          carried_tokens = 1;
        }
        ∷ record {
          ordinal = 2;
          text = "60 min";
          token_estimate = 2;
          content_hash = "60 min";
          carried_tokens = 1;
        }
        ∷ [])
unfolding chunk_text words
carried_fragment = refl

overlap_refused : chunk_text sample_hash word_levels sample_text 2 2 ≡ err overlap_too_large
unfolding chunk_text
overlap_refused = refl

chunk_text_fits_example :
    (chunks : List Chunk) × (chunk_text sample_hash word_levels sample_text 3 1 ≡ ok chunks)
    × AllFit sample_hash 3 1 0 chunks
chunk_text_fits_example =
    chunk_text_fits sample_hash word_levels sample_text 3 1 (omega arith) (omega arith)

-- A word cut for want of a boundary is put together again with a blank inside.
word_broken :
    chunk_text sample_hash word_levels "abcdefg" 2 1
    ≡ ok (
        record {
          ordinal = 0;
          text = "abcd efg";
          token_estimate = 2;
          content_hash = "abcd efg";
          carried_tokens = 0;
        }
        ∷ [])
unfolding chunk_text words
word_broken = refl
