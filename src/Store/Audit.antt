-- ===== src/Store/Audit.antt =====
-- What the money columns of src/store-d1.ts must add up to: every counter against the rows of its
-- own audit trail.
pub mod Periods
pub mod Spending
pub mod Grants
pub mod TrueUps
pub mod Crashes
pub mod Retries
pub mod Histories
mod Tests
use prism_control_plane.Prelude.{
  ℕ, ◌+◌, ◌≡◌, Bool, String, ◌&&◌, Option, none, some, List, [], ◌∷◌, str_eq, total, All, or_else,
  if◌then◌else◌,
}
use prism_control_plane.Store.Schema.{
  Db, AccountRow, CreditGrantRow, PeriodRow, UsageEvent, LedgerRow, UsageAdjustmentRow,
}
use prism_control_plane.Store.Sql.{first_where}
use prism_control_plane.Store.Usage.{is_period, when_metered}
use prism_control_plane.Store.Adjustments.{spend_part, credit_part}

-- The credit that the grants of an account explain.
abbrev pub granted : String → List CreditGrantRow → ℕ
granted a = total (λ g. if str_eq a g.account_id then g.micro_usd else 0)

-- The prepaid spend that the ledger rows of an account explain.
abbrev pub charged : String → List LedgerRow → ℕ
charged a = total (λ r. if str_eq a r.event.account_id then r.event.from_credit_micro_usd else 0)

-- The prepaid spend that upward true-ups of an account explain.
abbrev pub trued_up : String → List UsageAdjustmentRow → ℕ
trued_up a = total (λ x. if str_eq a x.account_id then spend_part x else 0)

-- A column of the rollup row of an account and a period; zero where there is no row.
abbrev pub zero_period : String → String → PeriodRow
zero_period a k = record {
  account_id = a;
  period_key = k;
  micro_usd = 0;
  requests = 0;
  unmetered_requests = 0;
  adjust_spend_micro_usd = 0;
  adjust_credit_micro_usd = 0;
  allowance_spent_micro_usd = 0;
}

abbrev pub period_at : String → String → List PeriodRow → PeriodRow
period_at a k t = or_else (first_where (is_period a k) t) (zero_period a k)

-- The ledger rows of an account and a period, measured by one column.
abbrev pub in_ledger : String → String → (UsageEvent → ℕ) → List LedgerRow → ℕ
in_ledger a k f =
    total (λ r. if str_eq r.event.account_id a && str_eq r.event.period_key k then f r.event else 0)

abbrev pub in_adjustments : String → String → (UsageAdjustmentRow → ℕ) → List UsageAdjustmentRow → ℕ
in_adjustments a k f =
    total (λ x. if str_eq x.account_id a && str_eq x.period_key k then f x else 0)

-- `R` is how a counter stands to its trail: equal where every write went through, at most where
-- some were cut off.
pub record Audit (R : ℕ → ℕ → Type 0) (db : Db) : Type 0 where
  pub credit : All (λ r. R r.credit_micro_usd (granted r.id db.credit_grants)) db.accounts
  pub spent :
      All
        (λ r.
          R r.spent_micro_usd (charged r.id db.usage_events + trued_up r.id db.usage_adjustments))
        db.accounts
  pub micro :
      (a k : String)
      → R
          (period_at a k db.usage_periods).micro_usd
          (in_ledger a k (λ e. when_metered e e.micro_usd) db.usage_events)
  pub requests :
      (a k : String)
      → R (period_at a k db.usage_periods).requests (in_ledger a k (λ e. 1) db.usage_events)
  pub unmetered :
      (a k : String)
      → R
          (period_at a k db.usage_periods).unmetered_requests
          (in_ledger a k (λ e. if e.metered then 0 else 1) db.usage_events)
  pub allowance :
      (a k : String)
      → R
          (period_at a k db.usage_periods).allowance_spent_micro_usd
          (in_ledger a k (λ e. e.from_allowance_micro_usd) db.usage_events)
  pub adjusted_spend :
      (a k : String)
      → R
          (period_at a k db.usage_periods).adjust_spend_micro_usd
          (in_adjustments a k spend_part db.usage_adjustments)
  pub adjusted_credit :
      (a k : String)
      → R
          (period_at a k db.usage_periods).adjust_credit_micro_usd
          (in_adjustments a k credit_part db.usage_adjustments)
