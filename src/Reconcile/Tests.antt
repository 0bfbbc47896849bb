-- ===== src/Reconcile/Tests.antt =====
-- The results of Reconcile on a log of two rows.
use prism_control_plane.Prelude.{
  ℕ, ◌+◌, ◌≤◌, ◌≡◌, ◌≢◌, refl, true, false, String, Option, none, some, List, [], ◌∷◌, arith,
  negsuc, if◌then◌else◌,
}
use prism_control_plane.Store.Schema.{Db, credit, empty_db}
use prism_control_plane.Store.Sql.{first_where}
use prism_control_plane.Store.Usage.{get_usage_event_by_request_id}
use prism_control_plane.Store.Adjustments.{
  get_reconcile_state, list_usage_events_between, order_by_time, between,
}
use prism_control_plane.Reconcile.{
  GatewayLogRow, LedgerEstimate, Adjust, adjust, in_agreement, skipped, no_ledger_row,
  ReconcileDecision, decide_adjustment, needs_ledger_lookup, tally, tally_from, empty_totals,
}
use prism_control_plane.Reconcile.Run.{
  GatewayLogPage, ReconcileRunArgs, row_cap, FindingKind, event_for, process_row, process_rows,
  process_pages,
}
use prism_control_plane.Reconcile.Report.{
  ReconcileReport, ok, unmatched, report_of, stamp_run, watermark_of, still_paging, run_reconcile,
}
use prism_control_plane.Reconcile.Decision.{IsFounded, decide_adjustment-IsFounded}
use prism_control_plane.Reconcile.Totals.{counted}
use prism_control_plane.Reconcile.Outcomes.{
  run_reconcile_dry, run_reconcile_adds_up, run_reconcile_forward,
}
use prism_control_plane.Reconcile.Paging.{IsReadable, run_reconcile_ends}

abbrev estimate : LedgerEstimate
estimate = record {
  id = "u1";
  request_id = "r1";
  account_id = "a";
  period_key = "2026-01";
  model_id = "m";
  micro_usd = 30;
  metered = true;
}

abbrev log : GatewayLogRow
log = record {
  id = "l1";
  created_at = 5_000_000;
  model = some "m";
  cached = false;
  cost_micro_usd = some 25;
  request_id = some "r1";
  account_id = some "a";
}

abbrev refund : Adjust
refund = record {
  direction = credit;
  applied_micro_usd = 5;
  delta_micro_usd = negsuc 4;
  estimate_micro_usd = 30;
  gateway_micro_usd = 25;
  event = estimate;
}

refunded : decide_adjustment log (some estimate) ≡ adjust refund
unfolding decide_adjustment
refunded = refl

unrecorded : decide_adjustment log none ≡ skipped no_ledger_row
unfolding decide_adjustment
unrecorded = refl

agreed :
    decide_adjustment (record log { cost_micro_usd = some 30 }) (some estimate)
    ≡ in_agreement 30 estimate
unfolding decide_adjustment
agreed = refl

abbrev decisions : List ReconcileDecision
decisions =
    record { log = log; outcome = adjust refund }
    ∷ record { log = log; outcome = skipped no_ledger_row }
    ∷ []

abbrev args : ReconcileRunArgs
args = record {
  gateway_id = "g";
  now = 9_000_000;
  dry_run = true;
  since = some 1;
  max_rows = none;
  per_page = none;
}

abbrev feed : ℕ → ℕ → ℕ → Option GatewayLogPage
feed since page size = some (record { rows = log ∷ []; malformed = 0 })

abbrev ids : ℕ → String
ids n = "x"

abbrev stored : Db
stored = record empty_db {
  reconcile_state =
      record {
        gateway_id = "g";
        watermark = some 7;
        last_log_id = none;
        last_run_at = none;
        runs = 1;
        rows_seen = 0;
        rows_adjusted = 0;
      }
      ∷ [];
}

stored-watermark : watermark_of (get_reconcile_state args.gateway_id stored) ≡ some 7
unfolding get_reconcile_state first_where
stored-watermark = refl

decide_adjustment-IsFounded_example : IsFounded log (some estimate) refund
decide_adjustment-IsFounded_example =
    decide_adjustment-IsFounded log (some estimate) refund refunded

run_reconcile_dry_example : (run_reconcile ids feed 3 args stored).0 ≡ stored
run_reconcile_dry_example = run_reconcile_dry ids feed 3 args stored refl

run_reconcile_forward_example :
    (w' : ℕ) × (watermark_of (
        get_reconcile_state args.gateway_id
          (run_reconcile ids feed 3 (record args { dry_run = false }) stored).0)
      ≡ some w')
    × (7 ≤ w')
run_reconcile_forward_example =
    run_reconcile_forward ids feed 3 (record args { dry_run = false }) stored 7 stored-watermark

feed-IsReadable : IsReadable feed
feed-IsReadable since page size b e = ground arith

run_reconcile_ends_example :
    (run_reconcile ids feed (row_cap args + 1) args stored).1 ≢ still_paging
run_reconcile_ends_example = run_reconcile_ends ids feed args stored feed-IsReadable

abbrev report : ReconcileReport
report = record {
  gateway_id = "g";
  dry_run = true;
  window_from = 7;
  window_to = 8_100_000;
  watermark_before = some 7;
  watermark_after = none;
  pages = 1;
  truncated = false;
  malformed_rows = 0;
  applied = 0;
  already_applied = 0;
  totals = record empty_totals { rows = 1; skipped_no_ledger_row = 1 };
  drift = none;
  drift_alert = false;
  unmatched_ledger_rows = [];
  findings = FindingKind.no_ledger_row ∷ [];
}

reported : run_reconcile ids feed 3 args stored ≡ (stored, ok report)
unfolding run_reconcile get_reconcile_state first_where process_pages process_rows process_row
    event_for needs_ledger_lookup get_usage_event_by_request_id decide_adjustment report_of
    stamp_run tally tally_from unmatched list_usage_events_between order_by_time between
reported = refl

run_reconcile_adds_up_example :
    (report.totals.rows ≤ row_cap args)
    × (counted report.totals ≡ report.totals.rows)
    × (report.applied + report.already_applied ≡ (
        if args.dry_run then 0 else report.totals.adjusted_spend + report.totals.adjusted_credit))
run_reconcile_adds_up_example = run_reconcile_adds_up ids feed 3 args stored stored report reported
