-- ===== src/Plans/Tests.antt =====
-- The results of Plans at concrete rows and requests.
use prism_control_plane.Prelude.{◌≡◌, refl, [], ◌∷◌, pos}
use prism_control_plane.Prelude.Number.{integer}
use prism_control_plane.Prelude.Text.{split, trim, trim_start, to_lower, is_space}
use prism_control_plane.Store.Schema.{PlanRow}
use prism_control_plane.Catalog.{standard}
use prism_control_plane.Plans.{Plan, ok, plan_from_row, parse_tiers, tier_of, known_tiers}

abbrev row : PlanRow
row = record {
  id = "p";
  name = "Free";
  signup_credit_micro_usd = integer (pos 500);
  monthly_included_micro_usd = integer (pos 0);
  requests_per_minute = integer (pos 10);
  max_output_tokens = integer (pos 100);
  allowed_tiers = "Standard, gold";
}

abbrev plan : Plan
plan = record {
  id = "p";
  name = "Free";
  signup_credit_micro_usd = 500;
  monthly_included_micro_usd = 0;
  requests_per_minute = 10;
  max_output_tokens = 100;
  allowed_tiers = standard ∷ [];
}

row-plan : plan_from_row row ≡ ok plan
unfolding plan_from_row parse_tiers known_tiers tier_of split trim trim_start to_lower is_space
row-plan = refl
