-- ===== src/Store/Adjustments.antt =====
-- True-ups and the watermark row: `applyUsageAdjustment`, `getReconcileState`,
-- `advanceReconcileState`, `listUsageEventsBetween` of src/store-d1.ts.
use Prim.Native.String
use prism_control_plane.Prelude.{
  ℕ, suc, zero, ◌+◌, Bool, true, false, ◌||◌, ◌&&◌, String, Option, none, some, List, [], ◌∷◌, ◌++◌,
  any, str_eq, if◌then◌else◌, or_else, ltb, leb, take, ◌/◌,
}
use prism_control_plane.Store.Schema.{
  Db, PeriodRow, UsageAdjustmentRow, spend, credit, CreditGrantRow, ReconcileStateRow, LedgerRow,
}
use prism_control_plane.Store.Sql.{first_where, upsert}
use prism_control_plane.Store.Accounts.{add_spent, add_credit, grant_conflicts}
use prism_control_plane.Store.Usage.{is_period}

abbrev pub adjustment_conflicts : UsageAdjustmentRow → UsageAdjustmentRow → Bool
adjustment_conflicts a r = str_eq r.id a.id || str_eq r.idempotency_key a.idempotency_key

-- `row.direction === d ? row.applied_micro_usd : 0`
abbrev pub spend_part : UsageAdjustmentRow → ℕ
spend_part a = elim a.direction [ spend ↦ a.applied_micro_usd | credit ↦ 0 ]

abbrev pub credit_part : UsageAdjustmentRow → ℕ
credit_part a = elim a.direction [ spend ↦ 0 | credit ↦ a.applied_micro_usd ]

abbrev pub new_adjusted : UsageAdjustmentRow → PeriodRow
new_adjusted a = record {
  account_id = a.account_id;
  period_key = a.period_key;
  micro_usd = 0;
  requests = 0;
  unmetered_requests = 0;
  adjust_spend_micro_usd = spend_part a;
  adjust_credit_micro_usd = credit_part a;
  allowance_spent_micro_usd = 0;
}

abbrev pub add_adjustment : UsageAdjustmentRow → PeriodRow → PeriodRow
add_adjustment a r = record r {
  adjust_spend_micro_usd = r.adjust_spend_micro_usd + spend_part a;
  adjust_credit_micro_usd = r.adjust_credit_micro_usd + credit_part a;
}

-- `periodUpsert`
unfoldable pub adjust_period : UsageAdjustmentRow → List PeriodRow → List PeriodRow
adjust_period a = upsert (is_period a.account_id a.period_key) (add_adjustment a) (new_adjusted a)

-- The grant row that explains a downward true-up.
abbrev pub true_up_grant : UsageAdjustmentRow → CreditGrantRow
true_up_grant a = record {
  id = a.id;
  account_id = a.account_id;
  micro_usd = a.applied_micro_usd;
  idempotency_key = a.idempotency_key;
  note =
      some (or_else a.note (String.◌++◌ "reconciliation credit for gateway log " a.gateway_log_id));
}

-- INSERT OR IGNORE into `credit_grants`
unfoldable pub insert_grant : CreditGrantRow → List CreditGrantRow → List CreditGrantRow
insert_grant g t = if any (grant_conflicts g) t then t else t ++ g ∷ []

-- The money batch of a true-up.
unfoldable pub move_money : UsageAdjustmentRow → Db → Db
unfolding insert_grant
move_money a db = elim a.direction [
  | spend ↦ record db {
    accounts = add_spent a.applied_micro_usd a.account_id db.accounts;
    usage_periods = adjust_period a db.usage_periods;
  }
  | credit ↦ record db {
    credit_grants = insert_grant (true_up_grant a) db.credit_grants;
    accounts = add_credit a.applied_micro_usd a.account_id db.accounts;
    usage_periods = adjust_period a db.usage_periods;
  }
]

-- `applyUsageAdjustment` as far as it gets if it fails after `n` of its two steps, the audit
-- insert and the money batch; and whether it answers `applied`.
unfoldable pub apply_usage_adjustment_upto : ℕ → UsageAdjustmentRow → Db → Db × Bool
unfolding move_money
apply_usage_adjustment_upto zero a db = (db, false)
apply_usage_adjustment_upto (suc n) a db =
    if any (adjustment_conflicts a) db.usage_adjustments
    then (db, false)
    else let inserted = record db { usage_adjustments = db.usage_adjustments ++ a ∷ [] } in
      elim n [ zero ↦ (inserted, false) | suc m ↦ (move_money a inserted, true) ]

-- `applyUsageAdjustment`
unfoldable pub apply_usage_adjustment : UsageAdjustmentRow → Db → Db × Bool
unfolding apply_usage_adjustment_upto
apply_usage_adjustment = apply_usage_adjustment_upto 2

abbrev pub is_state_of : String → ReconcileStateRow → Bool
is_state_of gateway_id r = str_eq r.gateway_id gateway_id

-- `getReconcileState`
unfoldable pub get_reconcile_state : String → Db → Option ReconcileStateRow
get_reconcile_state gateway_id db = first_where (is_state_of gateway_id) db.reconcile_state

pub record RunStamp : Type 0 where
  pub gateway_id : String
  pub watermark : Option ℕ
  pub last_log_id : Option String
  pub rows_seen : ℕ
  pub rows_adjusted : ℕ
  pub at : ℕ

-- `COALESCE(a, b)`
abbrev pub coalesce {ℓ} : {A : Type ℓ} → Option A → Option A → Option A
coalesce none b = b
coalesce (some a) b = some a

-- The row that a run starts, and what it makes of one that is there.
abbrev pub first_run : RunStamp → ReconcileStateRow
first_run s = record {
  gateway_id = s.gateway_id;
  watermark = s.watermark;
  last_log_id = s.last_log_id;
  last_run_at = some s.at;
  runs = 1;
  rows_seen = s.rows_seen;
  rows_adjusted = s.rows_adjusted;
}

abbrev pub add_run : RunStamp → ReconcileStateRow → ReconcileStateRow
add_run s r = record r {
  watermark = coalesce s.watermark r.watermark;
  last_log_id = coalesce s.last_log_id r.last_log_id;
  last_run_at = some s.at;
  runs = r.runs + 1;
  rows_seen = r.rows_seen + s.rows_seen;
  rows_adjusted = r.rows_adjusted + s.rows_adjusted;
}

-- `advanceReconcileState`
unfoldable pub advance_reconcile_state : RunStamp → Db → Db
advance_reconcile_state s db = record db {
  reconcile_state = upsert (is_state_of s.gateway_id) (add_run s) (first_run s) db.reconcile_state;
}

-- `ORDER BY created_at`; rows of one second stay in the order that they were written in.
abbrev insert_by_time : LedgerRow → List LedgerRow → List LedgerRow
insert_by_time r [] = r ∷ []
insert_by_time r (q ∷ t) =
    let rest = insert_by_time r t in if ltb r.created_at q.created_at then r ∷ q ∷ t else q ∷ rest

unfoldable pub order_by_time : List LedgerRow → List LedgerRow → List LedgerRow
order_by_time [] done = done
order_by_time (r ∷ t) done = order_by_time t (insert_by_time r done)

-- `WHERE datetime(created_at) > datetime(from) AND datetime(created_at) <= datetime(to)`, the
-- bounds given in milliseconds and cut to seconds as `datetime` does
unfoldable pub between : ℕ → ℕ → List LedgerRow → List LedgerRow
between from_ms to_ms [] = []
between from_ms to_ms (r ∷ t) =
    let rest = between from_ms to_ms t in
    if ltb (from_ms / 1000) r.created_at && leb r.created_at (to_ms / 1000) then r ∷ rest else rest

-- `listUsageEventsBetween`
unfoldable pub list_usage_events_between : ℕ → ℕ → ℕ → Db → List LedgerRow
unfolding order_by_time between
list_usage_events_between from_ms to_ms limit db =
    take limit (order_by_time (between from_ms to_ms db.usage_events) [])
