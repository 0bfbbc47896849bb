-- ===== src/Meter.antt =====
-- src/meter.ts: pricing one inference request, or declining to. Token counts and rates come as
-- JavaScript values; a count or a rate that passed its check is a natural number. A price in
-- micro-USD is `N / 1_000_000` for a whole numerator `N`, rounded by the caller: exact as long
-- as `N` is below 2^53.
pub mod Usage
pub mod Prices
pub mod Rates
mod Tests
use prism_control_plane.Prelude.{
  ℕ, ◌+◌, ◌*◌, ◌/◌, ◌-◌, Bool, true, false, String, Option, none, some, ◌&&◌, ltb, leb,
  if◌then◌else◌, ℤ, pos, negsuc, pos_part,
}
use prism_control_plane.Prelude.Number.{
  Number, integer, fraction, infinity, neg_infinity, nan, count?,
}
use prism_control_plane.Catalog.{TokenPrice, UnitPrice, MeterUnit, request, CatalogEntry}
use prism_control_plane.Prelude.Json.{
  Json, null, bool, num, str, arr, obj, is_object, member, coalesce, field, end,
}

pub record TokenUsage : Type 0 where
  pub input_tokens : ℕ
  pub output_tokens : ℕ

-- src/store.ts `ModelPriceRow`
pub record ModelPriceRow : Type 0 where
  pub model_id : String
  pub input_micro_usd_per_mtok : Number
  pub output_micro_usd_per_mtok : Number
  pub unit_micro_usd : Option Number
  pub priced_at : String
  pub note : Option String

-- Why nothing was charged; the texts of the source.
pub data Reason : Type 0 where
  no_usage : Reason
  input_rate output_rate : Number → Reason

pub data MeterOutcome : Type 0 where
  metered : ℕ → TokenUsage → MeterOutcome
  unmetered : Reason → MeterOutcome

pub data EstimateOutcome : Type 0 where
  estimated : ℕ → TokenUsage → EstimateOutcome
  unmetered : Reason → EstimateOutcome

-- The value of an optional field where `Number.isInteger(v)` and it is not negative.
abbrev pub count_of : Option Json → Option ℕ
count_of (some (num x)) = count? x
count_of _ = none

-- `raw.reasoning_tokens ?? details.reasoning_tokens`
pub reasoning_of : Json → Option Json
reasoning_of raw =
    coalesce (member "reasoning_tokens" raw) (elim (member "completion_tokens_details" raw) [
      | none ↦ none
      | some details ↦ member "reasoning_tokens" details
    ])

-- Reasoning tokens are added where the reported output does not cover them.
fold_reasoning : Option ℕ → ℕ → ℕ
fold_reasoning none output = output
fold_reasoning (some r) output = if ltb output r then output + r else output

-- A pair of counts that are both usable.
abbrev both_counts : Option Json → Option Json → Option TokenUsage
both_counts input output = elim (count_of input) [
  | none ↦ none
  | some i ↦ elim (count_of output) [
    | none ↦ none
    | some o ↦ some (record { input_tokens = i; output_tokens = o })
  ]
]

-- The first shape of `extractUsage`: `usageMetadata`.
gemini_usage : Json → Option TokenUsage
gemini_usage body = elim (member "usageMetadata" body) [
  | none ↦ none
  | some g ↦
      both_counts (coalesce (member "promptTokenCount" g) (member "prompt_token_count" g))
        (coalesce (member "candidatesTokenCount" g) (member "candidates_token_count" g))
]

-- The second shape: `usage`, with the reasoning tokens folded in.
standard_usage : Json → Option TokenUsage
unfolding reasoning_of fold_reasoning
standard_usage body = elim (member "usage" body) [
  | none ↦ none
  | some raw ↦
      elim (both_counts (coalesce (member "prompt_tokens" raw) (member "input_tokens" raw))
        (coalesce (member "completion_tokens" raw) (member "output_tokens" raw))) [
          | none ↦ none
          | some u ↦ some (record u {
            output_tokens = fold_reasoning (count_of (reasoning_of raw)) u.output_tokens;
          })
        ]
]

-- `extractUsage`
unfoldable pub extract_usage : Json → Option TokenUsage
unfolding gemini_usage standard_usage
extract_usage body = elim (gemini_usage body) [ some u ↦ some u | none ↦ standard_usage body ]

-- `rateProblem`
rate_problem : TokenPrice → Option Reason
rate_problem price = elim (count? price.input_micro_usd_per_mtok) [
  | none ↦ some (input_rate price.input_micro_usd_per_mtok)
  | some i ↦ elim (count? price.output_micro_usd_per_mtok) [
    | none ↦ some (output_rate price.output_micro_usd_per_mtok)
    | some o ↦ none
  ]
]

-- The value of a rate that `rateProblem` has passed.
abbrev pub rate : Number → ℕ
rate x = elim (count? x) [ none ↦ 0 | some n ↦ n ]

-- The numerator of `exactMicroUsd`; its denominator is `mtok`.
unfoldable pub exact_micro_usd : TokenUsage → TokenPrice → ℕ
exact_micro_usd usage price =
    usage.input_tokens * rate price.input_micro_usd_per_mtok
    + usage.output_tokens * rate price.output_micro_usd_per_mtok

abbrev pub mtok : ℕ
mtok = 1_000_000

-- `Math.ceil(n / 1_000_000)`
abbrev ceil_mtok : ℕ → ℕ
ceil_mtok n = (n + (mtok - 1)) / mtok

-- `priceUsage`
unfoldable pub price_usage : TokenUsage → TokenPrice → MeterOutcome
unfolding rate_problem
price_usage usage price = elim (rate_problem price) [
  | some problem ↦ MeterOutcome.unmetered problem
  | none ↦ metered (ceil_mtok (exact_micro_usd usage price)) usage
]

-- `meterResponse`
unfoldable pub meter_response : Json → TokenPrice → MeterOutcome
meter_response body price = elim (extract_usage body) [
  | none ↦ MeterOutcome.unmetered no_usage
  | some usage ↦ price_usage usage price
]

-- `resolvePrice`: an override wins, and a malformed one is refused rather than ignored.
unfoldable pub resolve_price : CatalogEntry → Option ModelPriceRow → Option TokenPrice
resolve_price entry none = entry.price
resolve_price entry (some override) = elim (count? override.input_micro_usd_per_mtok) [
  | none ↦ none
  | some input ↦ elim (count? override.output_micro_usd_per_mtok) [
    | none ↦ none
    | some output ↦ some (record {
      input_micro_usd_per_mtok = override.input_micro_usd_per_mtok;
      output_micro_usd_per_mtok = override.output_micro_usd_per_mtok;
      cached_input_micro_usd_per_mtok = none;
      priced_at = override.priced_at;
    })
  ]
]

-- `base?.unit ?? "request"`
abbrev pub base_unit : Option UnitPrice → MeterUnit
base_unit none = request
base_unit (some base) = base.unit

-- `resolveUnitPrice`
unfoldable pub resolve_unit_price : CatalogEntry → Option ModelPriceRow → Option UnitPrice
resolve_unit_price entry none = entry.unit_price
resolve_unit_price entry (some override) = elim override.unit_micro_usd [
  | none ↦ entry.unit_price
  | some micro ↦ elim (count? micro) [
    | none ↦ none
    | some m ↦ some (record {
      micro_usd_per_unit = m;
      unit = base_unit entry.unit_price;
      priced_at = override.priced_at;
    })
  ]
]

-- `Math.max(0, Math.floor(units))` of a finite number
abbrev floor_units : Number → ℕ
floor_units (integer z) = pos_part z
floor_units (fraction z) = pos_part z
floor_units _ = 0

-- `priceUnits`, for a finite number of units: the charge, and the units that were charged.
unfoldable pub price_units : Number → UnitPrice → ℕ × ℕ
price_units units unit_price =
    let n = floor_units units in if leb n 0 then (0, 0) else (n * unit_price.micro_usd_per_unit, n)

-- `meterUsageObject`: a bare `usage` object, read by the one reader.
unfoldable pub meter_usage_object : Json → TokenPrice → MeterOutcome
meter_usage_object usage price = meter_response (obj (field "usage" usage end)) price

abbrev pub estimate_bytes_per_token : ℕ
estimate_bytes_per_token = 4

-- `estimateTokensFromBytes`
unfoldable pub estimate_tokens_from_bytes : Number → ℕ
estimate_tokens_from_bytes (integer (pos n)) = n / estimate_bytes_per_token
estimate_tokens_from_bytes (fraction (pos n)) = n / estimate_bytes_per_token
estimate_tokens_from_bytes _ = 0

-- `estimateStreamUsage`
unfoldable pub estimate_stream_usage : Number → Number → TokenUsage
unfolding estimate_tokens_from_bytes
estimate_stream_usage prompt_text_bytes received_output_text_bytes = record {
  input_tokens = estimate_tokens_from_bytes prompt_text_bytes;
  output_tokens = estimate_tokens_from_bytes received_output_text_bytes;
}

-- `priceEstimatedUsage`
unfoldable pub price_estimated_usage : TokenUsage → TokenPrice → EstimateOutcome
unfolding rate_problem
price_estimated_usage usage price = elim (rate_problem price) [
  | some problem ↦ EstimateOutcome.unmetered problem
  | none ↦ estimated (exact_micro_usd usage price / mtok) usage
]
