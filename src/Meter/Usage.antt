-- ===== src/Meter/Usage.antt =====
-- What src/meter.ts reads as the token counts of an answer.
use prism_control_plane.Prelude.{
  ℕ, ◌+◌, ◌<◌, ◌≡◌, ◌⊎◌, refl, inl, inr, String, Option, none, some, arith, Option-cases,
  Bool-cases, ltb, ltb→lt, pos, if◌then◌else◌,
}
use mathlib.Core.Path.{subst}
use prism_control_plane.Prelude.Number.{integer}
use prism_control_plane.Prelude.Json.{Json, num, obj, field, end, member, coalesce}
use prism_control_plane.Catalog.{TokenPrice}
use prism_control_plane.Meter.{
  TokenUsage, metered, count_of, reasoning_of, fold_reasoning, both_counts, gemini_usage,
  standard_usage, extract_usage, meter_response, price_usage,
}

-- A count that stands in the answer under one of two names.
abbrev pub Reports : Json → String → String → ℕ → Type 0
Reports raw a b n = count_of (coalesce (member a raw) (member b raw)) ≡ some n

-- Where the counts of a usage stand in the body: both in `usageMetadata`, or both in `usage`,
-- where the output is the reported one or has the reasoning tokens on top.
abbrev pub Read : Json → TokenUsage → Type 0
Read body u =
    ((g : Json) × (member "usageMetadata" body ≡ some g)
      × Reports g "promptTokenCount" "prompt_token_count" u.input_tokens
      × Reports g "candidatesTokenCount" "candidates_token_count" u.output_tokens)
    ⊎ ((raw : Json) × (out : ℕ) × (member "usage" body ≡ some raw)
        × Reports raw "prompt_tokens" "input_tokens" u.input_tokens
        × Reports raw "completion_tokens" "output_tokens" out
        × ((u.output_tokens ≡ out)
            ⊎ ((r : ℕ) × (count_of (reasoning_of raw) ≡ some r)
                × (out < r)
                × (u.output_tokens ≡ out + r))))

both_counts-eq-some :
    (a b : Option Json) {u : TokenUsage}
    → both_counts a b ≡ some u
    → (count_of a ≡ some u.input_tokens) × (count_of b ≡ some u.output_tokens)
both_counts-eq-some a b h = elim (Option-cases (count_of a)) [
  | inl e ↦ absurd (ground arith)
  | inr (x, e) ↦ elim (Option-cases (count_of b)) [
    | inl f ↦ absurd (ground arith)
    | inr (y, f) ↦ ground arith
  ]
]

fold_reasoning-cases :
    (r : Option ℕ) (out : ℕ)
    → (fold_reasoning r out ≡ out)
      ⊎ ((n : ℕ) × (r ≡ some n) × (out < n) × (fold_reasoning r out ≡ out + n))
unfolding fold_reasoning
fold_reasoning-cases none out = inl refl
fold_reasoning-cases (some n) out = elim (Bool-cases (ltb out n)) [
  | inl e ↦ inr (n, refl, ltb→lt out n e, rw e)
  | inr e ↦ inl (rw e)
]

gemini_usage_sound : (body : Json) {u : TokenUsage} → gemini_usage body ≡ some u → Read body u
unfolding gemini_usage
gemini_usage_sound body {u} h = elim (Option-cases (member "usageMetadata" body)) [
  | inl e ↦ absurd (ground arith)
  | inr (g, e) ↦
      let (i, o) = both_counts-eq-some _ _ (rw (e, gemini_usage) at h) in inl (g, e, i, o)
]

standard_usage_sound : (body : Json) {u : TokenUsage} → standard_usage body ≡ some u → Read body u
unfolding standard_usage
standard_usage_sound body {u} h = elim (Option-cases (member "usage" body)) [
  | inl e ↦ absurd (ground arith)
  | inr (raw, e) ↦
      elim (Option-cases (
        both_counts (coalesce (member "prompt_tokens" raw) (member "input_tokens" raw))
          (coalesce (member "completion_tokens" raw) (member "output_tokens" raw)))) [
            | inl f ↦ absurd (ground arith)
            | inr (v, f) ↦
                let (i, o) = both_counts-eq-some _ _ f in
                let folded : fold_reasoning (count_of (reasoning_of raw)) v.output_tokens
                    ≡ u.output_tokens =
                  ground arith in
                let same : v.input_tokens ≡ u.input_tokens = ground arith in
                inr (
                  raw,
                  v.output_tokens,
                  e,
                  rw (← same) i,
                  o,
                  rw (← folded)
                      (fold_reasoning-cases (count_of (reasoning_of raw)) v.output_tokens),
                )
          ]
]

-- A usage that is read stands in the body: no count is made up, an absent one is never taken for
-- zero, and reasoning tokens are added only where the reported output is less than they are.
pub extract_usage-Read : (body : Json) {u : TokenUsage} → extract_usage body ≡ some u → Read body u
unfolding extract_usage
extract_usage-Read body {u} h = elim (Option-cases (gemini_usage body)) [
  | inl e ↦ standard_usage_sound body (rw (e, extract_usage) at h)
  | inr (v, e) ↦ gemini_usage_sound body (ground arith)
]

price_usage-usage :
    (v : TokenUsage) (p : TokenPrice) {m : ℕ} {u : TokenUsage}
    → price_usage v p ≡ metered m u
    → v ≡ u
unfolding price_usage
price_usage-usage v p h = ground arith

-- A request is charged as measured only on counts that stand in the body, priced at the card.
pub meter_response-Read :
    (body : Json) (p : TokenPrice) {m : ℕ} {u : TokenUsage}
    → meter_response body p ≡ metered m u
    → Read body u × (price_usage u p ≡ metered m u)
unfolding meter_response
meter_response-Read body p {m} {u} h = elim (Option-cases (extract_usage body)) [
  | inl e ↦ absurd (ground arith)
  | inr (v, e) ↦
      let priced : price_usage v p ≡ metered m u = rw (e, meter_response) at h in
      let same = price_usage-usage v p priced in
      (
        subst (Read body) same (extract_usage-Read body e),
        subst (λ w. price_usage w p ≡ metered m u) same priced,
      )
]

-- The body of an OpenAI-shaped answer whose three usage members are arbitrary values.
abbrev pub usage_body : Json → Json → Json → Json
usage_body prompt completion reasoning = obj (
    field "usage"
      (obj (
        field "prompt_tokens" prompt
          (field "completion_tokens" completion (field "reasoning_tokens" reasoning end))))
      end)

-- On an OpenAI-shaped answer with whole counts the input is the prompt count, and the output is
-- the completion count unless the reasoning count is larger, when it is their sum.
pub extract_usage-usage_body :
    (p c r : ℕ)
    → extract_usage
        (usage_body (num (integer (pos p))) (num (integer (pos c))) (num (integer (pos r))))
      ≡ some (record { input_tokens = p; output_tokens = if ltb c r then c + r else c })
unfolding extract_usage
extract_usage-usage_body p c r = refl
