-- ===== src/Runs/Payloads.antt =====
-- What reaches the stream and the column.
use socio_seo_agent.Prelude.{
  ◌≤◌, String, ◌≡◌, refl, ap, none, some, arith, str_eq, eq_iff, if◌then◌else◌, Bool-cases, inl,
  inr,
}
use socio_seo_agent.Json.{Fields, end, field, get}
use socio_seo_agent.Strings.{len, rstrip, prefix}
use socio_seo_agent.Strings.Lengths.{len-prefix, len-concat, len-rstrip}
use socio_seo_agent.Runs.{allowed, clean_payload, clamp_text, clamp_reason, max_finished_reason}

-- The allowlist is exact: a cleaned payload holds what the payload held of every allowed key, and
-- nothing of any other.
pub get-clean_payload :
    (key : String) (payload : Fields)
    → get key (clean_payload payload) ≡ (if allowed key then get key payload else none)
unfolding get clean_payload
get-clean_payload key end = elim (Bool-cases (allowed key)) [
  | inl a ↦ rw a refl
  | inr a ↦ rw a refl
]
get-clean_payload key (field k v fs) = elim (Bool-cases (str_eq k key)) [
  | inl same ↦ ground (arith, get-clean_payload key fs, ap allowed ((eq_iff k key).0 same))
  | inr other ↦ ground (arith, get-clean_payload key fs)
]

mark_len : len " ..." ≡ 4
unfolding len
mark_len = refl

clamp_fits : (s : String) → len (clamp_text s) ≤ max_finished_reason
unfolding clamp_text
clamp_fits s = ground (
  arith,
  len-concat (rstrip (prefix 251 s)) " ...",
  len-rstrip (prefix 251 s),
  len-prefix 251 s,
  mark_len,
)

-- A reason always fits the column, whatever its length, and one that fits is kept as it is.
pub clamp_reason_fits :
    (reason : String)
    → (clamped : String) × (clamp_reason (some reason) ≡ some clamped)
      × (len clamped ≤ max_finished_reason)
      × (len reason ≤ max_finished_reason → clamped ≡ reason)
unfolding clamp_reason clamp_text
clamp_reason_fits reason = (clamp_text reason, refl, clamp_fits reason, λ h. ground arith)
