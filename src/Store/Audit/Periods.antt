-- ===== src/Store/Audit/Periods.antt =====
-- The rollup rows after an UPSERT, column by column.
use prism_control_plane.Prelude.{
  ◌+◌, ◌≡◌, refl, Bool, true, false, String, ◌&&◌, none, some, List, arith, str_eq, eq_iff,
  if◌then◌else◌,
}
use prism_control_plane.Store.Schema.{PeriodRow, UsageEvent, UsageAdjustmentRow}
use prism_control_plane.Store.Sql.{first_where, upsert, first_where-upsert}
use prism_control_plane.Store.Usage.{is_period, when_metered, advance_period, add_event, new_period}
use prism_control_plane.Store.Adjustments.{
  spend_part, credit_part, adjust_period, add_adjustment, new_adjusted,
}
use prism_control_plane.Store.Audit.{period_at}

-- Whether two keys of `usage_periods` are one.
abbrev pub same_period : String → String → String → String → Bool
same_period b j a k = str_eq b a && str_eq j k

is_period_of_same :
    (b j a k : String) (r : PeriodRow)
    → is_period b j r ≡ true
    → is_period a k r ≡ same_period b j a k
is_period_of_same b j a k r h = ground (arith, eq_iff r.account_id b, eq_iff r.period_key j)

is_period_of_other :
    (b j a k : String) (r : PeriodRow)
    → is_period b j r ≡ false
    → same_period b j a k ≡ true
    → is_period a k r ≡ false
is_period_of_other b j a k r h e = ground (arith, eq_iff b a, eq_iff j k)

-- The row at a key after an upsert at (b, j) by a change that keeps the key.
pub period_at-upsert :
    (b j a k : String) (f : PeriodRow → PeriodRow) (new : PeriodRow) (t : List PeriodRow)
    → ((r : PeriodRow) → ((f r).account_id ≡ r.account_id) × ((f r).period_key ≡ r.period_key))
    → (new.account_id ≡ b) × (new.period_key ≡ j)
    → first_where (is_period a k) (upsert (is_period b j) f new t) ≡ (
        if same_period b j a k
        then some (elim (first_where (is_period a k) t) [ none ↦ new | some r ↦ f r ])
        else first_where (is_period a k) t)
period_at-upsert b j a k f new t kf kn =
    first_where-upsert (is_period b j) (is_period a k) f new t (same_period b j a k)
      (λ r h.
        (is_period_of_same b j a k r h, rw ((kf r).0, (kf r).1) (is_period_of_same b j a k r h)))
      (λ r h e. is_period_of_other b j a k r h e) (rw (kn.0, kn.1))

-- One ledger row moves the four ledger columns of its own period by its amounts, and nothing else.
pub period_at-advance_period :
    (e : UsageEvent) (a k : String) (t : List PeriodRow)
    → let p = period_at a k t in
      let p' = period_at a k (advance_period e t) in
      let same = same_period e.account_id e.period_key a k in
      (p'.micro_usd ≡ p.micro_usd + (if same then when_metered e e.micro_usd else 0))
      × (p'.requests ≡ p.requests + (if same then 1 else 0))
      × (p'.unmetered_requests
          ≡ p.unmetered_requests + (if same then (if e.metered then 0 else 1) else 0))
      × (p'.allowance_spent_micro_usd
          ≡ p.allowance_spent_micro_usd
            + (if same then when_metered e e.from_allowance_micro_usd else 0))
      × (p'.adjust_spend_micro_usd ≡ p.adjust_spend_micro_usd)
      × (p'.adjust_credit_micro_usd ≡ p.adjust_credit_micro_usd)
unfolding advance_period
period_at-advance_period e a k t = ground (
  arith,
  period_at-upsert e.account_id e.period_key a k (add_event e) (new_period e) t (λ r. (refl, refl))
      (refl, refl),
)

-- One true-up moves the two adjustment columns of its own period, and nothing else.
pub period_at-adjust_period :
    (x : UsageAdjustmentRow) (a k : String) (t : List PeriodRow)
    → let p = period_at a k t in
      let p' = period_at a k (adjust_period x t) in
      let same = same_period x.account_id x.period_key a k in
      (p'.adjust_spend_micro_usd ≡ p.adjust_spend_micro_usd + (if same then spend_part x else 0))
      × (p'.adjust_credit_micro_usd
          ≡ p.adjust_credit_micro_usd + (if same then credit_part x else 0))
      × (p'.micro_usd ≡ p.micro_usd)
      × (p'.requests ≡ p.requests)
      × (p'.unmetered_requests ≡ p.unmetered_requests)
      × (p'.allowance_spent_micro_usd ≡ p.allowance_spent_micro_usd)
unfolding adjust_period
period_at-adjust_period x a k t = ground (
  arith,
  period_at-upsert x.account_id x.period_key a k (add_adjustment x) (new_adjusted x) t
      (λ r. (refl, refl)) (refl, refl),
)
