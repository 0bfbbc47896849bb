-- ===== src/Store/Audit/Crashes.antt =====
-- What a failure between two statements of src/store-d1.ts leaves behind.
use prism_control_plane.Prelude.{
  ℕ, suc, zero, ◌+◌, ◌≤◌, ◌≡◌, arith, any, All, All-map, Bool-cases, inl, inr, total-concat,
}
use prism_control_plane.Store.Schema.{Db, UsageEvent}
use prism_control_plane.Store.Usage.{event_conflicts, append_event, record_usage, record_usage_upto}
use prism_control_plane.Store.Audit.{Audit, charged, trued_up}
use prism_control_plane.Store.Audit.Spending.{charged-append, rolled_up-Audit, record_usage-Audit}

-- No counter is above what its own trail explains.
abbrev pub NeverAbove : Db → Type 0
NeverAbove = Audit ◌≤◌

le_of_more : {x y y' : ℕ} (c : ℕ) → y' ≡ y + c → x ≤ y → x ≤ y'
le_of_more c e h = omega arith

pub le_keep : (x y c : ℕ) → x ≤ y → x + c ≤ y + c
le_keep x y c h = omega arith

module _ (now : ℕ) (e : UsageEvent) (db : Db) (v : NeverAbove db) where
  ledger_only-spent :
      All
        (λ r.
          r.spent_micro_usd
          ≤ charged r.id (append_event now e db).usage_events + trued_up r.id db.usage_adjustments)
        db.accounts
  ledger_only-spent =
      All-map _ _ db.accounts (λ r h. ground (arith, charged-append r.id db.usage_events now e))
        v.spent

  ledger_only-NeverAbove : NeverAbove (append_event now e db)
  ledger_only-NeverAbove = record {
    credit = v.credit;
    spent = ledger_only-spent;
    micro = λ a k. le_of_more _ (total-concat _ db.usage_events _) (v.micro a k);
    requests = λ a k. le_of_more _ (total-concat _ db.usage_events _) (v.requests a k);
    unmetered = λ a k. le_of_more _ (total-concat _ db.usage_events _) (v.unmetered a k);
    allowance = λ a k. le_of_more _ (total-concat _ db.usage_events _) (v.allowance a k);
    adjusted_spend = v.adjusted_spend;
    adjusted_credit = v.adjusted_credit;
  }

-- Wherever `recordUsage` is cut off, no counter gets above the ledger that it summarises: an
-- account is never charged for more than the rows that are there to show for it.
pub record_usage_upto-NeverAbove :
    (n now : ℕ) (e : UsageEvent) (db : Db)
    → NeverAbove db
    → NeverAbove (record_usage_upto n now e db)
unfolding record_usage
record_usage_upto-NeverAbove zero now e db v = v
record_usage_upto-NeverAbove (suc zero) now e db v =
    elim (Bool-cases (any (event_conflicts e) db.usage_events)) [
      | inl old ↦ rw (old, record_usage_upto) v
      | inr new ↦ rw (new, record_usage_upto) (ledger_only-NeverAbove now e db v)
    ]
record_usage_upto-NeverAbove (suc (suc zero)) now e db v =
    elim (Bool-cases (any (event_conflicts e) db.usage_events)) [
      | inl old ↦ rw (old, record_usage_upto) v
      | inr new ↦
          rw (new, record_usage_upto)
            (rolled_up-Audit ◌≤◌ le_keep now e db v db.accounts v.credit
              (ledger_only-spent now e db v))
    ]
record_usage_upto-NeverAbove (suc (suc (suc n))) now e db v =
    record_usage-Audit ◌≤◌ le_keep now e db v
