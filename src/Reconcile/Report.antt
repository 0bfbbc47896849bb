-- ===== src/Reconcile/Report.antt =====
-- `runReconcile` of src/reconcile-run.ts, from the floor to the last write. The drift is kept as the
-- two amounts of its ratio: the test against 5% is on whole numbers.
use prism_control_plane.Prelude.{
  ℕ, ◌+◌, ◌*◌, ◌-◌, Bool, ◌&&◌, String, Option, none, some, List, [], ◌∷◌, ◌++◌, ltb, str_eq,
  if◌then◌else◌, length, any, total,
}
use prism_control_plane.Store.Schema.{Db, LedgerRow, ReconcileStateRow}
use prism_control_plane.Store.Adjustments.{
  get_reconcile_state, advance_reconcile_state, list_usage_events_between,
}
use prism_control_plane.Reconcile.{
  ReconcileDecision, ReconcileOutcome, adjust, in_agreement, skipped, ReconcileTotals, tally,
  settle_ms, next_watermark,
}
use prism_control_plane.Reconcile.Run.{
  GatewayLogPage, ReconcileRunArgs, FindingKind, unmatched_ledger_row, Progress, PagesResult, done,
  upstream, out_of_fuel, start, process_pages, max_reverse_check_rows,
}

pub record UnmatchedLedgerRow : Type 0 where
  pub id : String
  pub request_id : String
  pub micro_usd : ℕ
  pub metered : Bool
  pub created_at : ℕ

pub record ReconcileReport : Type 0 where
  pub gateway_id : String
  pub dry_run : Bool
  pub window_from : ℕ
  pub window_to : ℕ
  pub watermark_before : Option ℕ
  pub watermark_after : Option ℕ
  pub pages : ℕ
  pub truncated : Bool
  pub malformed_rows : ℕ
  pub applied : ℕ
  pub already_applied : ℕ
  pub totals : ReconcileTotals
  pub drift : Option (ℕ × ℕ)
  pub drift_alert : Bool
  pub unmatched_ledger_rows : List UnmatchedLedgerRow
  pub findings : List FindingKind

pub data ReconcileRunResult : Type 0 where
  ok : ReconcileReport → ReconcileRunResult
  no_floor upstream_failed still_paging : ReconcileRunResult

abbrev pub watermark_of : Option ReconcileStateRow → Option ℕ
watermark_of none = none
watermark_of (some r) = r.watermark

-- `state?.watermark ?? since`
abbrev pub floor_of : Option ℕ → Option ℕ → Option ℕ
floor_of none since = since
floor_of (some w) since = some w

-- The reverse check: ledger rows of the window that no row of the log named.
unfoldable pub unmatched : List String → List LedgerRow → List UnmatchedLedgerRow
unmatched seen [] = []
unmatched seen (r ∷ t) =
    let rest = unmatched seen t in
    if any (str_eq r.event.request_id) seen
    then rest
    else (record {
      id = r.event.id;
      request_id = r.event.request_id;
      micro_usd = r.event.micro_usd;
      metered = r.event.metered;
      created_at = r.created_at;
    })
      ∷ rest

-- What the drift is measured against.
abbrev pub gateway_micro_usd : ReconcileOutcome → ℕ
gateway_micro_usd (adjust a) = a.gateway_micro_usd
gateway_micro_usd (in_agreement n e) = n
gateway_micro_usd (skipped r) = 0

abbrev pub gateway_total : List ReconcileDecision → ℕ
gateway_total = total (λ d. gateway_micro_usd d.outcome)

abbrev pub is_alarming : ℕ → ℕ → Bool
is_alarming drift billed = ltb 0 billed && ltb (5 * billed) (100 * drift)

-- The two findings that the run adds at its end.
abbrev pub closing_findings : ℕ → List UnmatchedLedgerRow → List FindingKind
closing_findings malformed rows =
    (if ltb 0 malformed then FindingKind.malformed_rows ∷ [] else [])
    ++ (if ltb 0 (length rows) then unmatched_ledger_row ∷ [] else [])

-- The report of a run that read its feed to the end.
unfoldable pub report_of : ReconcileRunArgs → Option ℕ → ℕ → Progress → ReconcileReport
unfolding unmatched
report_of args before floor s =
    let totals = tally s.decisions in
    let drift = totals.spend_micro_usd + totals.credit_micro_usd in
    let billed = gateway_total s.decisions in
    let rows =
      unmatched s.seen_request_ids
        (list_usage_events_between floor (args.now - settle_ms) max_reverse_check_rows s.db) in
    record {
      gateway_id = args.gateway_id;
      dry_run = args.dry_run;
      window_from = floor;
      window_to = args.now - settle_ms;
      watermark_before = before;
      watermark_after =
          if args.dry_run then none else next_watermark floor s.newest_processed args.now;
      pages = s.pages;
      truncated = s.truncated;
      malformed_rows = s.malformed;
      applied = s.applied;
      already_applied = s.already_applied;
      totals = totals;
      drift = if ltb 0 billed then some (drift, billed) else none;
      drift_alert = is_alarming drift billed;
      unmatched_ledger_rows = rows;
      findings = s.findings ++ closing_findings s.malformed rows;
    }

-- The last write, of a live run only.
unfoldable pub stamp_run : ReconcileRunArgs → ℕ → Progress → Db
stamp_run args floor s =
    if args.dry_run
    then s.db
    else advance_reconcile_state
        (record {
          gateway_id = args.gateway_id;
          watermark = next_watermark floor s.newest_processed args.now;
          last_log_id = s.last_log_id;
          rows_seen = (tally s.decisions).rows;
          rows_adjusted = s.applied;
          at = args.now;
        })
        s.db

module _ (new_id : ℕ → String) (list_since : ℕ → ℕ → ℕ → Option GatewayLogPage) where
  abbrev pub finish : ReconcileRunArgs → Option ℕ → ℕ → PagesResult → Db × ReconcileRunResult
  finish args before floor (done s) = (stamp_run args floor s, ok (report_of args before floor s))
  finish args before floor (upstream s) = (s.db, upstream_failed)
  finish args before floor (out_of_fuel s) = (s.db, still_paging)

  -- `runReconcile`, for at most `fuel` pages.
  unfoldable pub run_reconcile : ℕ → ReconcileRunArgs → Db → Db × ReconcileRunResult
  unfolding process_pages report_of stamp_run
  run_reconcile fuel args db =
      let before = watermark_of (get_reconcile_state args.gateway_id db) in
      elim (floor_of before args.since) [
        | none ↦ (db, no_floor)
        | some floor ↦
            finish args before floor (process_pages new_id list_since fuel args floor 1 (start db))
      ]
