-- ===== src/Store/Audit/Spending.antt =====
-- `recordUsage` of src/store-d1.ts keeps every counter in step with the ledger.
use prism_control_plane.Prelude.{
  ℕ, ◌+◌, ◌≡◌, true, false, String, ◌&&◌, List, [], ◌∷◌, ◌++◌, arith, str_eq, any, All, All-map,
  ltb, if◌then◌else◌, Bool-cases, inl, inr, total-concat,
}
use prism_control_plane.Store.Schema.{Db, AccountRow, UsageEvent, LedgerRow}
use prism_control_plane.Store.Sql.{All-update_where}
use prism_control_plane.Store.Accounts.{add_spent}
use prism_control_plane.Store.Usage.{
  when_metered, ledger_event, event_conflicts, append_event, roll_up, advance_spent, record_usage,
}
use prism_control_plane.Store.Audit.{Audit, granted, charged, trued_up}
use prism_control_plane.Store.Audit.Periods.{period_at-advance_period}

-- What a new event does to the database.
abbrev pub recorded : ℕ → UsageEvent → Db → Db
recorded now e db = advance_spent e (roll_up e (append_event now e db))

pub record_usage_of_new :
    (now : ℕ) (e : UsageEvent) (db : Db)
    → any (event_conflicts e) db.usage_events ≡ false
    → record_usage now e db ≡ recorded now e db
unfolding record_usage
record_usage_of_new now e db h = rw h

pub record_usage_of_old :
    (now : ℕ) (e : UsageEvent) (db : Db)
    → any (event_conflicts e) db.usage_events ≡ true
    → record_usage now e db ≡ db
unfolding record_usage
record_usage_of_old now e db h = rw h

pub charged-append :
    (a : String) (t : List LedgerRow) (now : ℕ) (e : UsageEvent)
    → charged a (t ++ (record { event = ledger_event e; created_at = now }) ∷ [])
      ≡ charged a t + (if str_eq a e.account_id then when_metered e e.from_credit_micro_usd else 0)
charged-append a t now e = total-concat _ t (record { event = ledger_event e; created_at = now })

module _ (R : ℕ → ℕ → Type 0) (keep : (x y c : ℕ) → R x y → R (x + c) (y + c)) where
  keep_by : {x y x' y' : ℕ} (c : ℕ) → x' ≡ x + c → y' ≡ y + c → R x y → R x' y'
  keep_by c p q h = rw (p, q) (keep _ _ c h)

  module _ (now : ℕ) (e : UsageEvent) (db : Db) where
    spent_row :
        (r : AccountRow) (n : ℕ)
        → R r.spent_micro_usd (charged r.id db.usage_events + trued_up r.id db.usage_adjustments)
        → n
          ≡ r.spent_micro_usd
            + (if str_eq r.id e.account_id then when_metered e e.from_credit_micro_usd else 0)
        → R n
            (charged r.id (append_event now e db).usage_events + trued_up r.id db.usage_adjustments)
    spent_row r n h en =
        keep_by (if str_eq r.id e.account_id then when_metered e e.from_credit_micro_usd else 0) en
          (ground (arith, charged-append r.id db.usage_events now e)) h

    recorded-spent :
        Audit R db
        → All
            (λ r. R r.spent_micro_usd (
              charged r.id (append_event now e db).usage_events
              + trued_up r.id db.usage_adjustments))
            (recorded now e db).accounts
    unfolding advance_spent add_spent
    recorded-spent v = elim (Bool-cases (e.metered && ltb 0 e.from_credit_micro_usd)) [
      | inl c ↦ rw c (
          All-update_where _ _ _ _ db.accounts (λ r m h. spent_row r _ h (ground arith))
            (λ r m h. spent_row r _ h (ground arith)) v.spent)
      | inr c ↦ rw c (All-map _ _ db.accounts (λ r h. spent_row r _ h (ground arith)) v.spent)
    ]

    recorded-credit :
        Audit R db
        → All
            (λ r. R r.credit_micro_usd (granted r.id db.credit_grants))
            (recorded now e db).accounts
    unfolding advance_spent add_spent
    recorded-credit v = elim (Bool-cases (e.metered && ltb 0 e.from_credit_micro_usd)) [
      | inl c ↦ rw c (All-update_where _ _ _ _ db.accounts (λ r m h. h) (λ r m h. h) v.credit)
      | inr c ↦ rw c v.credit
    ]

    -- The ledger and the rollup have moved; what became of the accounts is given.
    pub rolled_up-Audit :
        Audit R db
        → (t : List AccountRow) → All (λ r. R r.credit_micro_usd (granted r.id db.credit_grants)) t
        → All
            (λ r. R r.spent_micro_usd (
              charged r.id (append_event now e db).usage_events
              + trued_up r.id db.usage_adjustments))
            t
        → Audit R (record (roll_up e (append_event now e db)) { accounts = t })
    rolled_up-Audit v t c s = record {
      credit = c;
      spent = s;
      micro = λ a k.
          keep_by _ (period_at-advance_period e a k db.usage_periods).0
            (total-concat _ db.usage_events _) (v.micro a k);
      requests = λ a k.
          keep_by _ (period_at-advance_period e a k db.usage_periods).1
            (total-concat _ db.usage_events _) (v.requests a k);
      unmetered = λ a k.
          keep_by _ (period_at-advance_period e a k db.usage_periods).2
            (total-concat _ db.usage_events _) (v.unmetered a k);
      allowance = λ a k.
          keep_by _ (period_at-advance_period e a k db.usage_periods).3
            (total-concat _ db.usage_events _) (v.allowance a k);
      adjusted_spend =
          λ a k. rw (period_at-advance_period e a k db.usage_periods).4 (v.adjusted_spend a k);
      adjusted_credit =
          λ a k. rw (period_at-advance_period e a k db.usage_periods).5 (v.adjusted_credit a k);
    }

-- A request that is recorded keeps every counter in step with its trail, in whichever sense it
-- was: the rollup of its period and the account's prepaid spend move by exactly what its ledger
-- row says, a repeated one moves nothing.
pub record_usage-Audit :
    (R : ℕ → ℕ → Type 0)
    → ((x y c : ℕ) → R x y → R (x + c) (y + c))
    → (now : ℕ) (e : UsageEvent) (db : Db) → Audit R db
    → Audit R (record_usage now e db)
record_usage-Audit R keep now e db v = elim (Bool-cases (any (event_conflicts e) db.usage_events)) [
  | inl old ↦ rw (record_usage_of_old now e db old) v
  | inr new ↦ rw (record_usage_of_new now e db new) (
      unfold advance_spent in
      rolled_up-Audit R keep now e db v _ (recorded-credit R keep now e db v)
        (recorded-spent R keep now e db v))
]
