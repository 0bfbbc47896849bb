-- ===== src/Meter/Prices.antt =====
-- The rounding rules of src/meter.ts: up on a measured request, down on an estimated one.
use prism_control_plane.Prelude.{
  ℕ, ◌+◌, ◌*◌, ◌/◌, ◌≤◌, ◌<◌, ◌≡◌, ◌↔◌, refl, inl, inr, String, Option, none, arith, pos,
  Option-cases,
}
use prism_control_plane.Prelude.Number.{Number, integer}
use prism_control_plane.Catalog.{TokenPrice}
use prism_control_plane.Meter.{
  TokenUsage, MeterOutcome, metered, EstimateOutcome, estimated, rate_problem, price_usage,
  price_estimated_usage, exact_micro_usd, estimate_stream_usage,
}

-- A rate card of whole micro-USD, the only kind that prices anything.
abbrev pub card : ℕ → ℕ → TokenPrice
card i o = record {
  input_micro_usd_per_mtok = integer (pos i);
  output_micro_usd_per_mtok = integer (pos o);
  cached_input_micro_usd_per_mtok = none;
  priced_at = "";
}

-- Such a card with any rate for cached input and any date.
abbrev pub dated_card : ℕ → ℕ → Option Number → String → TokenPrice
dated_card i o cached date = record {
  input_micro_usd_per_mtok = integer (pos i);
  output_micro_usd_per_mtok = integer (pos o);
  cached_input_micro_usd_per_mtok = cached;
  priced_at = date;
}

-- A measured request is charged its exact cost at the input rate and the output rate, whatever the
-- card says of cached input, rounded up to the next micro-USD: never less than it cost, and less
-- than one micro-USD more.
pub price_usage_rounds_up :
    (u : TokenUsage) (i o : ℕ) (cached : Option Number) (date : String)
    → (m : ℕ) × (price_usage u (dated_card i o cached date) ≡ metered m u)
      × (u.input_tokens * i + u.output_tokens * o ≤ m * 1_000_000)
      × (m * 1_000_000 < u.input_tokens * i + u.output_tokens * o + 1_000_000)
unfolding price_usage exact_micro_usd
price_usage_rounds_up u i o cached date = (
  (u.input_tokens * i + u.output_tokens * o + 999_999) / 1_000_000,
  refl,
  omega arith,
  omega arith,
)

-- A measured request is free exactly when its tokens cost nothing at the rates: tokens at a rate
-- of zero are charged zero.
pub price_usage-free_iff :
    (u : TokenUsage) (i o : ℕ)
    → (price_usage u (card i o) ≡ metered 0 u)
      ↔ ((u.input_tokens * i ≡ 0) × (u.output_tokens * o ≡ 0))
unfolding price_usage exact_micro_usd
price_usage-free_iff u i o = ground arith

-- What relates the two prices of one usage: both refuse the card for one reason, or both price
-- that usage and the estimate is the measured charge or one micro-USD below it.
abbrev pub Agrees : EstimateOutcome → MeterOutcome → Type 0
Agrees (estimated e u) (metered m v) = (u ≡ v) × (e ≤ m) × (m ≤ e + 1)
Agrees (EstimateOutcome.unmetered r) (MeterOutcome.unmetered s) = r ≡ s
Agrees _ _ = ⊥

-- On every card and every usage the estimated and the measured path agree on whether the card
-- can price at all, and the estimate is at most the measured charge and at least it less one.
pub price_estimated_usage-Agrees :
    (u : TokenUsage) (p : TokenPrice) → Agrees (price_estimated_usage u p) (price_usage u p)
unfolding price_usage price_estimated_usage
price_estimated_usage-Agrees u p = elim (Option-cases (rate_problem p)) [
  | inl e ↦ rw (e, price_usage, price_estimated_usage, Agrees) (refl, omega arith, omega arith)
  | inr (r, e) ↦ rw (e, price_usage, price_estimated_usage, Agrees) refl
]

mul_mono_le : (a b i : ℕ) → a ≤ b → a * i ≤ b * i
mul_mono_le a b i h = grind arith

-- A cut-off stream is never over-charged: if no token carries more than four bytes of text, so
-- that the true counts are at least a quarter of the bytes on each side, then the estimate from
-- the bytes and the charge at the true counts both exist, and the estimate is at most the charge.
pub estimate_stream_usage-le :
    (i o prompt received : ℕ) (u : TokenUsage)
    → prompt ≤ 4 * u.input_tokens
    → received ≤ 4 * u.output_tokens
    → let guess = estimate_stream_usage (integer (pos prompt)) (integer (pos received)) in
      (e : ℕ) × (m : ℕ) × (price_estimated_usage guess (card i o) ≡ estimated e guess)
      × (price_usage u (card i o) ≡ metered m u)
      × (e ≤ m)
unfolding price_usage price_estimated_usage estimate_stream_usage exact_micro_usd
estimate_stream_usage-le i o prompt received u hp hr = (
  (prompt / 4 * i + received / 4 * o) / 1_000_000,
  (u.input_tokens * i + u.output_tokens * o + 999_999) / 1_000_000,
  refl,
  refl,
  omega (
    arith,
    mul_mono_le (prompt / 4) u.input_tokens i (omega arith),
    mul_mono_le (received / 4) u.output_tokens o (omega arith),
  ),
)
