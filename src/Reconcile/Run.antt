-- ===== src/Reconcile/Run.antt =====
-- `runReconcile` of src/reconcile-run.ts. The log is an argument, a function of the floor, the page
-- and the page size that answers nothing where the request fails; so are the minted ids, by how many
-- have been minted. `since` is the instant that the caller's text names, if it names one.
use Prim.Native.String
use prism_control_plane.Prelude.{
  ℕ, suc, zero, ◌+◌, ◌-◌, Bool, true, false, ◌||◌, String, Option, none, some, List, [], ◌∷◌, ◌++◌,
  ltb, leb, if◌then◌else◌, or_else, length, max, min,
}
use prism_control_plane.Prelude.Decimal.{decimal}
use prism_control_plane.Store.Schema.{Db, UsageEvent, UsageAdjustmentRow}
use prism_control_plane.Store.Usage.{get_usage_event_by_request_id}
use prism_control_plane.Store.Adjustments.{apply_usage_adjustment}
use prism_control_plane.Reconcile.{
  GatewayLogRow, LedgerEstimate, Adjust, ReconcileOutcome, adjust, in_agreement, skipped,
  SkipReason, ReconcileDecision, truthy, decide_adjustment, needs_ledger_lookup,
  adjustment_idempotency_key, settle_ms, max_rows_per_run,
}

pub record GatewayLogPage : Type 0 where
  pub rows : List GatewayLogRow
  pub malformed : ℕ

-- `MAX_PER_PAGE` of src/aig-logs.ts, `MAX_REVERSE_CHECK_ROWS`
abbrev pub max_per_page : ℕ
max_per_page = 50

abbrev pub max_reverse_check_rows : ℕ
max_reverse_check_rows = 500

pub record ReconcileRunArgs : Type 0 where
  pub gateway_id : String
  pub now : ℕ
  pub dry_run : Bool
  pub since : Option ℕ
  pub max_rows : Option ℕ
  pub per_page : Option ℕ

-- `maxRows` and `perPage` of a run
abbrev pub row_cap : ReconcileRunArgs → ℕ
row_cap args = max 1 (or_else args.max_rows max_rows_per_run)

abbrev pub page_size : ReconcileRunArgs → ℕ
page_size args = min max_per_page (max 1 (or_else args.per_page max_per_page))

pub data FindingKind : Type 0 where
  no_ledger_row account_mismatch unmatched_ledger_row malformed_rows : FindingKind

-- `ledgerEstimate`
abbrev pub ledger_estimate : UsageEvent → LedgerEstimate
ledger_estimate e = record {
  id = e.id;
  request_id = e.request_id;
  account_id = e.account_id;
  period_key = e.period_key;
  model_id = e.model_id;
  micro_usd = e.micro_usd;
  metered = e.metered;
}

-- The local variables of a run, and the database.
pub record Progress : Type 0 where
  pub db : Db
  pub minted : ℕ
  pub decisions : List ReconcileDecision
  pub findings : List FindingKind
  pub seen_request_ids : List String
  pub malformed : ℕ
  pub pages : ℕ
  pub truncated : Bool
  pub applied : ℕ
  pub already_applied : ℕ
  pub newest_processed : Option ℕ
  pub last_log_id : Option String

abbrev pub start : Db → Progress
start db = record {
  db = db;
  minted = 0;
  decisions = [];
  findings = [];
  seen_request_ids = [];
  malformed = 0;
  pages = 0;
  truncated = false;
  applied = 0;
  already_applied = 0;
  newest_processed = none;
  last_log_id = none;
}

-- The ledger row of a log row, read only where the decision can need it.
unfoldable pub event_for : GatewayLogRow → Db → Option LedgerEstimate
event_for log db =
    if needs_ledger_lookup log
    then elim (get_usage_event_by_request_id (or_else log.request_id "") db) [
      | none ↦ none
      | some e ↦ some (ledger_estimate e)
    ]
    else none

abbrev pub findings_of : ReconcileOutcome → List FindingKind
findings_of (skipped SkipReason.no_ledger_row) = FindingKind.no_ledger_row ∷ []
findings_of (skipped SkipReason.account_mismatch) = FindingKind.account_mismatch ∷ []
findings_of _ = []

-- What the loop notes of a row before it writes anything.
abbrev pub note_row : GatewayLogRow → ReconcileOutcome → Progress → Progress
note_row log outcome s = record s {
  decisions = s.decisions ++ (record { log = log; outcome = outcome }) ∷ [];
  findings = s.findings ++ findings_of outcome;
  seen_request_ids = elim (truthy log.request_id) [
    | none ↦ s.seen_request_ids
    | some r ↦ r ∷ s.seen_request_ids
  ];
  newest_processed = some log.created_at;
  last_log_id = some log.id;
}

-- The true-up row.
abbrev pub adjustment_row : String → GatewayLogRow → Adjust → UsageAdjustmentRow
adjustment_row id log a = record {
  id = id;
  account_id = a.event.account_id;
  usage_event_id = some a.event.id;
  request_id = a.event.request_id;
  gateway_log_id = log.id;
  period_key = a.event.period_key;
  model_id = some (or_else log.model a.event.model_id);
  estimate_micro_usd = a.estimate_micro_usd;
  gateway_micro_usd = a.gateway_micro_usd;
  delta_micro_usd = a.delta_micro_usd;
  direction = a.direction;
  applied_micro_usd = a.applied_micro_usd;
  idempotency_key = adjustment_idempotency_key log.id;
  note = some (
      String.◌++◌ "ai gateway true-up: estimate " (
        String.◌++◌ (decimal a.estimate_micro_usd)
          (String.◌++◌ ", billed " (String.◌++◌ (decimal a.gateway_micro_usd) " micro-USD"))));
}

pub data PagesResult : Type 0 where
  done upstream out_of_fuel : Progress → PagesResult

module _ (new_id : ℕ → String) where
  -- The true-up written, and counted as applied or as already there.
  unfoldable pub write_adjustment : GatewayLogRow → Adjust → Progress → Progress
  write_adjustment log a s =
      let (db, applied) = apply_usage_adjustment (adjustment_row (new_id s.minted) log a) s.db in
      record s {
        db = db;
        minted = s.minted + 1;
        applied = if applied then s.applied + 1 else s.applied;
        already_applied = if applied then s.already_applied else s.already_applied + 1;
      }

  -- The body of the loop over the rows, past its two stops.
  unfoldable pub process_row : ReconcileRunArgs → GatewayLogRow → Progress → Progress
  unfolding write_adjustment event_for
  process_row args log s =
      let outcome = decide_adjustment log (event_for log s.db) in
      let noted = note_row log outcome s in
      elim outcome [
        | adjust a ↦ if args.dry_run then noted else write_adjustment log a noted
        | in_agreement _ _ ↦ noted
        | skipped _ ↦ noted
      ]

  -- The loop over the rows of a page: it stops at a row that has not settled, and at the cap.
  unfoldable pub process_rows : ReconcileRunArgs → List GatewayLogRow → Progress → Progress
  unfolding process_row
  process_rows args [] s = s
  process_rows args (log ∷ rows) s =
      if ltb (args.now - settle_ms) log.created_at || leb (row_cap args) (length s.decisions)
      then record s { truncated = true }
      else process_rows args rows (process_row args log s)

  abbrev pub take_page : ReconcileRunArgs → GatewayLogPage → Progress → Progress
  take_page args batch s =
      process_rows args batch.rows
        (record s { pages = s.pages + 1; malformed = s.malformed + batch.malformed })

  module _ (list_since : ℕ → ℕ → ℕ → Option GatewayLogPage) where
    -- The loop over the pages: it ends at a row that stopped it, and at a short page.
    unfoldable pub process_pages : ℕ → ReconcileRunArgs → ℕ → ℕ → Progress → PagesResult
    process_pages zero args floor page s = out_of_fuel s
    process_pages (suc fuel) args floor page s = elim (list_since floor page (page_size args)) [
      | none ↦ upstream s
      | some batch ↦
          let s' = take_page args batch s in
          if s'.truncated || ltb (length batch.rows + batch.malformed) (page_size args)
          then done s'
          else process_pages fuel args floor (page + 1) s'
    ]
