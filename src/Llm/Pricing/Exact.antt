-- ===== src/Llm/Pricing/Exact.antt =====
-- The ledger's arithmetic at the prices of the table.
use socio_seo_agent.Prelude.{
  ℕ, ◌+◌, ◌*◌, ◌≤◌, String, ◌≡◌, refl, ap, sym, ◌∙◌, Option, none, some, List, [], ◌∷◌, arith,
  Result, ok, err, All, Option-cases, inl, inr,
}
use socio_seo_agent.Llm.Contract.{Fault, unpriced}
use mathlib.Core.Path.{subst}
use socio_seo_agent.Strings.{len}
use socio_seo_agent.Llm.Pricing.{
  Price, cent, price, price_table, price_in, round_half_up, cost_at, price_for, compute_usd,
  token_estimate,
}

-- A price in whole cents.
record IsWhole (p : Price) : Type 0 where
  cents_in : ℕ
  cents_out : ℕ
  input : p.input_usd_per_mtok ≡ cents_in * cent
  output : p.output_usd_per_mtok ≡ cents_out * cent

price-IsWhole : (model : String) (input output : ℕ) → IsWhole (price model input output)
unfolding price
price-IsWhole model input output = record {
  cents_in = input;
  cents_out = output;
  input = refl;
  output = refl;
}

price_table-IsWhole : All IsWhole price_table
unfolding price_table
price_table-IsWhole = (
  price-IsWhole "openai/gpt-4.1-mini" 40 160,
  (
    price-IsWhole "openai/gpt-4.1" 200 800,
    (
      price-IsWhole "google/gemini-2.5-flash" 30 250,
      (
        price-IsWhole "anthropic/claude-sonnet-4.5" 300 1500,
        (
          price-IsWhole "anthropic/claude-opus-4.8" 500 2500,
          (
            price-IsWhole "openai/gpt-5.1" 125 1000,
            (
              price-IsWhole "google/gemini-2.5-pro" 125 1000,
              (
                price-IsWhole "openai/text-embedding-3-small" 2 0,
                (
                  price-IsWhole "claude-haiku-4-5" 100 500,
                  (
                    price-IsWhole "claude-sonnet-5" 300 1500,
                    (
                      price-IsWhole "claude-opus-5" 500 2500,
                      (
                        price-IsWhole "claude-opus-4-8" 500 2500,
                        (
                          price-IsWhole "claude-fable-5" 1000 5000,
                          (
                            price-IsWhole "fake/cheap" 0 0,
                            (
                              price-IsWhole "fake/mid" 0 0,
                              (
                                price-IsWhole "fake/strong" 0 0,
                                (price-IsWhole "fake/embed" 0 0, tt),
                              ),
                            ),
                          ),
                        ),
                      ),
                    ),
                  ),
                ),
              ),
            ),
          ),
        ),
      ),
    ),
  ),
)

price_in-IsWhole :
    (model : String) (ps : List Price) (p : Price)
    → All IsWhole ps
    → price_in model ps ≡ some p
    → IsWhole p
unfolding price_in
price_in-IsWhole model [] p w e = ground arith
price_in-IsWhole model (q ∷ ps) p w e = ground (arith, w.0, price_in-IsWhole model ps p w.1)

cost_at-exact :
    (p : Price) (w : IsWhole p) (tokens_in tokens_out : ℕ)
    → cost_at p tokens_in tokens_out ≡ tokens_in * w.cents_in + tokens_out * w.cents_out
unfolding cost_at round_half_up
cost_at-exact p w tokens_in tokens_out = rw (w.input, w.output) omega arith

price_for-IsWhole : (model : String) (p : Price) → price_for model ≡ ok p → IsWhole p
unfolding price_for
price_for-IsWhole model p e = elim (Option-cases (price_in model price_table)) [
  | inl unknown ↦ absurd (absent p (sym (ap priced unknown) ∙ e))
  | inr known ↦
      let same = sym (ap priced known.1) ∙ e in
      subst IsWhole (ok_eq same)
        (price_in-IsWhole model price_table known.0 price_table-IsWhole known.1)
]
  where
    priced : Option Price → Result Fault Price
    priced found = elim found [ some p ↦ ok p | none ↦ err (unpriced model) ]

    absent : (p : Price) → ◌≡◌ {A = Result Fault Price} (err (unpriced model)) (ok p) → ⊥
    absent p x = cc

    ok_eq : {a b : Price} → ◌≡◌ {A = Result Fault Price} (ok a) (ok b) → a ≡ b
    ok_eq x = cc

exact_at :
    (p : Price) (w : IsWhole p) (tokens_in tokens_out : ℕ)
    → cost_at p tokens_in tokens_out * 1_000_000
      ≡ tokens_in * p.input_usd_per_mtok + tokens_out * p.output_usd_per_mtok
exact_at p w tokens_in tokens_out =
    ap (λ n. n * 1_000_000) (cost_at-exact p w tokens_in tokens_out)
    ∙ scaled
    ∙ sym (
        ap (λ n. tokens_in * n + tokens_out * p.output_usd_per_mtok) w.input
        ∙ ap (λ n. tokens_in * (w.cents_in * cent) + tokens_out * n) w.output)
  where
    scaled :
        (tokens_in * w.cents_in + tokens_out * w.cents_out) * 1_000_000
        ≡ tokens_in * (w.cents_in * cent) + tokens_out * (w.cents_out * cent)
    scaled = omega arith

-- No cost is rounded: of every model that the table prices, a call costs exactly its tokens at the
-- published rates.
pub compute_usd_exact :
    (model : String) (p : Price) (tokens_in tokens_out : ℕ)
    → price_for model ≡ ok p
    → (usd : ℕ) × (compute_usd model tokens_in tokens_out ≡ ok usd)
      × (usd * 1_000_000 ≡ tokens_in * p.input_usd_per_mtok + tokens_out * p.output_usd_per_mtok)
unfolding compute_usd
compute_usd_exact model p tokens_in tokens_out e =
    let w = price_for-IsWhole model p e in
    (cost_at p tokens_in tokens_out, rw (e, compute_usd) refl, exact_at p w tokens_in tokens_out)

-- The ledger does not drift: a call of a priced model costs what two calls that share its tokens cost.
pub compute_usd_split :
    (model : String) (p : Price) (in1 in2 out1 out2 : ℕ)
    → price_for model ≡ ok p
    → compute_usd model (in1 + in2) (out1 + out2) ≡ ok (cost_at p in1 out1 + cost_at p in2 out2)
unfolding compute_usd
compute_usd_split model p in1 in2 out1 out2 e =
    let w = price_for-IsWhole model p e in
    rw (e, compute_usd)
      (ap ok (
        rw
          (
            cost_at-exact p w (in1 + in2) (out1 + out2),
            cost_at-exact p w in1 out1,
            cost_at-exact p w in2 out2,
          )
          (omega arith)))

-- The estimate covers the text at three characters a token, and is no more than the text is long.
pub token_estimate_bounds :
    (text : String) → (len text ≤ 3 * token_estimate text) × (token_estimate text ≤ len text)
unfolding token_estimate len
token_estimate_bounds String.[] = (omega arith, omega arith)
token_estimate_bounds (String.◌∷◌ c s) = (ground arith, ground arith)
