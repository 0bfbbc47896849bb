-- ===== src/Balance/Tests.antt =====
-- The results of Balance at concrete pools.
use prism_control_plane.Prelude.{◌+◌, ◌-◌, ◌≤◌, ◌<◌, ◌≡◌, refl, ◌↔◌, pos, negsuc}
use prism_control_plane.Prelude.Number.{integer, nan}
use prism_control_plane.Balance.{
  SpendPools, allow, exhausted, indeterminate, recorded_spend, decide_balance,
}
use prism_control_plane.Balance.Decision.{pools_of, decide_balance_open_iff}

abbrev broken : SpendPools
broken = record {
  credit_micro_usd = integer (pos 5);
  spent_micro_usd = nan;
  monthly_included_micro_usd = integer (pos 0);
  allowance_spent_micro_usd = integer (negsuc 0);
}

decide-broken : decide_balance broken ≡ indeterminate recorded_spend nan
unfolding decide_balance
decide-broken = refl

decide-overshot : decide_balance (pools_of 10 12 7 7) ≡ exhausted 10 12 0
unfolding decide_balance
decide-overshot = refl

decide_balance_open_iff_example :
    ((decide_balance (pools_of 10 12 9 7) ≡ allow (9 - 7 + (10 - 12)) (9 - 7) (10 - 12))
      ↔ (0 < 9 - 7 + (10 - 12)))
    × ((decide_balance (pools_of 10 12 9 7) ≡ exhausted 10 12 0) ↔ ((9 ≤ 7) × (10 ≤ 12)))
decide_balance_open_iff_example = decide_balance_open_iff 10 12 9 7
