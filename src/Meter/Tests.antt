-- ===== src/Meter/Tests.antt =====
-- The results of Meter at concrete answers and cards.
use prism_control_plane.Prelude.{ℕ, ◌+◌, ◌*◌, ◌≤◌, ◌<◌, ◌≡◌, refl, none, some, pos, true, false}
use prism_control_plane.Prelude.Number.{integer}
use prism_control_plane.Prelude.Json.{Json, null, num}
use prism_control_plane.Catalog.{CatalogEntry, chat, workers_ai, standard}
use prism_control_plane.Meter.{
  TokenUsage, ModelPriceRow, metered, price_usage, extract_usage, exact_micro_usd,
}
use prism_control_plane.Meter.Usage.{usage_body}
use prism_control_plane.Meter.Prices.{card, dated_card, price_usage_rounds_up}

abbrev usage : ℕ → ℕ → TokenUsage
usage i o = record { input_tokens = i; output_tokens = o }

abbrev answer : Json
answer = usage_body (num (integer (pos 12))) (num (integer (pos 3))) (num (integer (pos 40)))

abbrev entry : CatalogEntry
entry = record {
  id = "m";
  upstream = "m";
  binding = false;
  api = none;
  modality = chat;
  billing = workers_ai;
  tier = standard;
  streaming = true;
  max_output_tokens = none;
  price = some (card 7 9);
  unit_price = none;
}

abbrev override : ModelPriceRow
override = record {
  model_id = "m";
  input_micro_usd_per_mtok = integer (pos 50);
  output_micro_usd_per_mtok = integer (pos 60);
  unit_micro_usd = some (integer (pos 20));
  priced_at = "2026-01-01";
  note = none;
}

read-answer : extract_usage answer ≡ some (usage 12 43)
unfolding extract_usage
read-answer = refl

missing_count : extract_usage (usage_body (num (integer (pos 12))) null null) ≡ none
unfolding extract_usage
missing_count = refl

free_tokens : price_usage (usage 5 5) (card 0 0) ≡ metered 0 (usage 5 5)
unfolding price_usage exact_micro_usd
free_tokens = refl

price_usage_rounds_up_example :
    (m : ℕ) × (price_usage
        (usage 1000 50)
        (dated_card 2_000_001 10 (some (integer (pos 3))) "2026-08-01")
      ≡ metered m (usage 1000 50))
    × (1000 * 2_000_001 + 50 * 10 ≤ m * 1_000_000)
    × (m * 1_000_000 < 1000 * 2_000_001 + 50 * 10 + 1_000_000)
price_usage_rounds_up_example =
    price_usage_rounds_up (usage 1000 50) 2_000_001 10 (some (integer (pos 3))) "2026-08-01"
