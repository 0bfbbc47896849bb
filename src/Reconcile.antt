-- ===== src/Reconcile.antt =====
-- src/reconcile.ts: what one row of the gateway's log means for the ledger row that it joins to,
-- the totals of a run, and where the watermark goes. Instants are milliseconds since the epoch, and
-- the clock stands more than the settling time past it.
pub mod Decision
pub mod Totals
pub mod Watermark
pub mod Run
pub mod Sweep
pub mod Effects
pub mod Outcomes
pub mod Paging
pub mod Report
mod Tests
use Prim.Native.String
use prism_control_plane.Prelude.{
  ℕ, ◌+◌, ◌-◌, ◌*◌, Bool, true, false, ◌&&◌, not, String, Option, none, some, List, [], ◌∷◌, ◌==◌,
  ltb, leb, str_eq, if◌then◌else◌, ℤ, sub_ℕ, abs, is_some,
}
use prism_control_plane.Store.Schema.{Direction, spend, credit}

-- A row of the log. Its cost is a count of micro-USD where it is known.
pub record GatewayLogRow : Type 0 where
  pub id : String
  pub created_at : ℕ
  pub model : Option String
  pub cached : Bool
  pub cost_micro_usd : Option ℕ
  pub request_id : Option String
  pub account_id : Option String

pub record LedgerEstimate : Type 0 where
  pub id : String
  pub request_id : String
  pub account_id : String
  pub period_key : String
  pub model_id : String
  pub micro_usd : ℕ
  pub metered : Bool

pub data SkipReason : Type 0 where
  no_request_id cached unknown_cost no_ledger_row account_mismatch : SkipReason

pub record Adjust : Type 0 where
  pub direction : Direction
  pub applied_micro_usd : ℕ
  pub delta_micro_usd : ℤ
  pub estimate_micro_usd : ℕ
  pub gateway_micro_usd : ℕ
  pub event : LedgerEstimate

-- The operator's prose of a refusal is left out.
pub data ReconcileOutcome : Type 0 where
  adjust : Adjust → ReconcileOutcome
  in_agreement : ℕ → LedgerEstimate → ReconcileOutcome
  skipped : SkipReason → ReconcileOutcome

pub record ReconcileDecision : Type 0 where
  pub log : GatewayLogRow
  pub outcome : ReconcileOutcome

-- A text that JavaScript takes for true: there, and not empty.
abbrev pub truthy : Option String → Option String
truthy none = none
truthy (some s) = if str_eq s "" then none else some s

-- `log.accountId && log.accountId !== event.account_id`
abbrev pub is_other_account : GatewayLogRow → LedgerEstimate → Bool
is_other_account log event = elim (truthy log.account_id) [
  | none ↦ false
  | some a ↦ not (str_eq a event.account_id)
]

abbrev pub estimate_of : LedgerEstimate → ℕ
estimate_of event = if event.metered then event.micro_usd else 0

-- The two numbers side by side.
abbrev pub compare : ℕ → LedgerEstimate → ReconcileOutcome
compare gateway event =
    let estimate = estimate_of event in
    if gateway == estimate
    then in_agreement gateway event
    else adjust (record {
      direction = if ltb estimate gateway then spend else credit;
      applied_micro_usd = abs (sub_ℕ gateway estimate);
      delta_micro_usd = sub_ℕ gateway estimate;
      estimate_micro_usd = estimate;
      gateway_micro_usd = gateway;
      event = event;
    })

-- `decideAdjustment`
unfoldable pub decide_adjustment : GatewayLogRow → Option LedgerEstimate → ReconcileOutcome
decide_adjustment log event = elim (truthy log.request_id) [
  | none ↦ skipped no_request_id
  | some _ ↦ if log.cached then skipped SkipReason.cached else elim log.cost_micro_usd [
    | none ↦ skipped unknown_cost
    | some gateway ↦ elim event [
      | none ↦ skipped no_ledger_row
      | some e ↦ if is_other_account log e then skipped account_mismatch else compare gateway e
    ]
  ]
]

-- `adjustmentIdempotencyKey`
abbrev pub adjustment_idempotency_key : String → String
adjustment_idempotency_key gateway_log_id = String.◌++◌ "aig:" gateway_log_id

-- `needsLedgerLookup` of src/reconcile-run.ts
unfoldable pub needs_ledger_lookup : GatewayLogRow → Bool
needs_ledger_lookup log = is_some log.request_id && not log.cached && is_some log.cost_micro_usd

pub record ReconcileTotals : Type 0 where
  pub rows : ℕ
  pub in_agreement : ℕ
  pub adjusted_spend : ℕ
  pub adjusted_credit : ℕ
  pub spend_micro_usd : ℕ
  pub credit_micro_usd : ℕ
  pub skipped_no_request_id : ℕ
  pub skipped_cached : ℕ
  pub skipped_unknown_cost : ℕ
  pub skipped_no_ledger_row : ℕ
  pub skipped_account_mismatch : ℕ

-- `emptyTotals`
abbrev pub empty_totals : ReconcileTotals
empty_totals = record {
  rows = 0;
  in_agreement = 0;
  adjusted_spend = 0;
  adjusted_credit = 0;
  spend_micro_usd = 0;
  credit_micro_usd = 0;
  skipped_no_request_id = 0;
  skipped_cached = 0;
  skipped_unknown_cost = 0;
  skipped_no_ledger_row = 0;
  skipped_account_mismatch = 0;
}

abbrev pub count_adjust : Adjust → ReconcileTotals → ReconcileTotals
count_adjust a t = elim a.direction [
  | spend ↦ record t {
    adjusted_spend = t.adjusted_spend + 1;
    spend_micro_usd = t.spend_micro_usd + a.applied_micro_usd;
  }
  | credit ↦ record t {
    adjusted_credit = t.adjusted_credit + 1;
    credit_micro_usd = t.credit_micro_usd + a.applied_micro_usd;
  }
]

abbrev pub count_skip : SkipReason → ReconcileTotals → ReconcileTotals
count_skip no_request_id t = record t { skipped_no_request_id = t.skipped_no_request_id + 1 }
count_skip SkipReason.cached t = record t { skipped_cached = t.skipped_cached + 1 }
count_skip unknown_cost t = record t { skipped_unknown_cost = t.skipped_unknown_cost + 1 }
count_skip no_ledger_row t = record t { skipped_no_ledger_row = t.skipped_no_ledger_row + 1 }
count_skip account_mismatch t = record t {
  skipped_account_mismatch = t.skipped_account_mismatch + 1;
}

-- The body of the loop of `tally`.
abbrev pub count_outcome : ReconcileOutcome → ReconcileTotals → ReconcileTotals
count_outcome (ReconcileOutcome.in_agreement _ _) t = record t { in_agreement = t.in_agreement + 1 }
count_outcome (adjust a) t = count_adjust a t
count_outcome (skipped reason) t = count_skip reason t

unfoldable pub tally_from : ReconcileTotals → List ReconcileDecision → ReconcileTotals
tally_from t [] = t
tally_from t (d ∷ ds) = tally_from (count_outcome d.outcome (record t { rows = t.rows + 1 })) ds

-- `tally`
unfoldable pub tally : List ReconcileDecision → ReconcileTotals
unfolding tally_from
tally = tally_from empty_totals

-- `SETTLE_MS`, `MAX_ROWS_PER_RUN`
abbrev pub settle_ms : ℕ
settle_ms = 15 * 60 * 1000

abbrev pub max_rows_per_run : ℕ
max_rows_per_run = 2000

-- The newest row's instant, if it has settled, and otherwise the settling line.
abbrev pub candidate : Option ℕ → ℕ → ℕ
candidate none now = now - settle_ms
candidate (some newest) now = if ltb newest (now - settle_ms) then newest else now - settle_ms

-- `nextWatermark`, for a current watermark that is a date: `runReconcile` stops before it on any
-- other.
unfoldable pub next_watermark : ℕ → Option ℕ → ℕ → Option ℕ
next_watermark current newest now =
    let c = candidate newest now in if leb c current then none else some c
