-- ===== src/Store/Audit/Histories.antt =====
-- Any history of the money writes of src/store-d1.ts, complete or cut off anywhere.
use prism_control_plane.Prelude.{
  ℕ, ◌+◌, ◌≤◌, ◌≡◌, refl, arith, any, All-map, some, Bool-cases, inl, inr, total-concat, ap,
}
use native.Mathlib.Nat.{le_refl}
use prism_control_plane.Store.Schema.{
  Db, AccountRow, CreditGrantRow, UsageEvent, UsageAdjustmentRow, credit, empty_db,
}
use prism_control_plane.Store.Sql.{first_where}
use prism_control_plane.Store.Accounts.{NewAccount, create_account, grant_credit, grant_conflicts}
use prism_control_plane.Store.Usage.{record_usage, record_usage_upto}
use prism_control_plane.Store.Adjustments.{
  insert_grant, adjustment_conflicts, apply_usage_adjustment, apply_usage_adjustment_upto,
}
use prism_control_plane.Store.Audit.{Audit}
use prism_control_plane.Store.Audit.Spending.{record_usage-Audit}
use prism_control_plane.Store.Audit.TrueUps.{
  HasGrantKey, append_adjustment, trued_up-append, granted-append, apply_usage_adjustment-Audit,
}
use prism_control_plane.Store.Audit.Grants.{IsUnused, grant_credit-Audit, create_account-Audit}
use prism_control_plane.Store.Audit.Crashes.{NeverAbove, le_keep, record_usage_upto-NeverAbove}

-- A money write that went through to its end. An account is created under an id that nothing uses
-- yet, and a downward true-up finds no grant under its key.
pub data Write : Db → Db → Type 0 where
  create :
      (a : NewAccount) (db db' : Db) (r : AccountRow)
      → IsUnused a.id db
      → create_account a db ≡ some (db', r)
      → Write db db'
  grant : (g : CreditGrantRow) (db : Db) → Write db (grant_credit g db).0
  record_event : (now : ℕ) (e : UsageEvent) (db : Db) → Write db (record_usage now e db)
  true_up :
      (x : UsageAdjustmentRow) (db : Db)
      → (x.direction ≡ credit → HasGrantKey x db)
      → Write db (apply_usage_adjustment x db).0

-- `grantCredit` when its second statement fails.
abbrev pub grant_only : CreditGrantRow → Db → Db
grant_only g db = record db { credit_grants = insert_grant g db.credit_grants }

-- One that failed on the way.
pub data Cut : Db → Db → Type 0 where
  cut_event : (n now : ℕ) (e : UsageEvent) (db : Db) → Cut db (record_usage_upto n now e db)
  cut_grant : (g : CreditGrantRow) (db : Db) → Cut db (grant_only g db)
  cut_true_up : (x : UsageAdjustmentRow) (db : Db) → Cut db (apply_usage_adjustment_upto 1 x db).0

pub data Writes : Db → Db → Type 0 where
  here : {db : Db} → Writes db db
  next : {a b c : Db} → Writes a b → Write b c → Writes a c

pub data History : Db → Db → Type 0 where
  start : {db : Db} → History db db
  write : {a b c : Db} → History a b → Write b c → History a c
  cut : {a b c : Db} → History a b → Cut b c → History a c

Write-Audit :
    (R : ℕ → ℕ → Type 0)
    → ((x : ℕ) → R x x)
    → ((x y c : ℕ) → R x y → R (x + c) (y + c))
    → {a b : Db} → Write a b
    → Audit R a
    → Audit R b
Write-Audit R same keep (create a db db' r u e) v = (create_account-Audit R same a db db' r u v e).0
Write-Audit R same keep (grant g db) v = grant_credit-Audit R keep g db v
Write-Audit R same keep (record_event now e db) v = record_usage-Audit R keep now e db v
Write-Audit R same keep (true_up x db f) v = apply_usage_adjustment-Audit R keep x db f v

le_of_more : {x y y' : ℕ} (c : ℕ) → y' ≡ y + c → x ≤ y → x ≤ y'
le_of_more c e h = omega arith

-- The audit row of a true-up without its money.
adjustment_only-NeverAbove :
    (x : UsageAdjustmentRow) (db : Db) → NeverAbove db → NeverAbove (append_adjustment x db)
adjustment_only-NeverAbove x db v = record {
  credit = v.credit;
  spent =
      All-map _ _ db.accounts (λ r h. omega (arith, trued_up-append r.id db.usage_adjustments x))
        v.spent;
  micro = v.micro;
  requests = v.requests;
  unmetered = v.unmetered;
  allowance = v.allowance;
  adjusted_spend =
      λ a k. le_of_more _ (total-concat _ db.usage_adjustments x) (v.adjusted_spend a k);
  adjusted_credit =
      λ a k. le_of_more _ (total-concat _ db.usage_adjustments x) (v.adjusted_credit a k);
}

grant_only-NeverAbove :
    (g : CreditGrantRow) (db : Db) → NeverAbove db → NeverAbove (grant_only g db)
unfolding insert_grant
grant_only-NeverAbove g db v = elim (Bool-cases (any (grant_conflicts g) db.credit_grants)) [
  | inl old ↦ rw (old, insert_grant) v
  | inr new ↦
      rw (new, insert_grant)
        (record {
          credit =
              All-map _ _ db.accounts
                (λ r h. le_of_more _ (granted-append r.id db.credit_grants g) h) v.credit;
          spent = v.spent;
          micro = v.micro;
          requests = v.requests;
          unmetered = v.unmetered;
          allowance = v.allowance;
          adjusted_spend = v.adjusted_spend;
          adjusted_credit = v.adjusted_credit;
        })
]

Cut-NeverAbove : {a b : Db} → Cut a b → NeverAbove a → NeverAbove b
unfolding apply_usage_adjustment_upto
Cut-NeverAbove (cut_event n now e db) v = record_usage_upto-NeverAbove n now e db v
Cut-NeverAbove (cut_grant g db) v = grant_only-NeverAbove g db v
Cut-NeverAbove (cut_true_up x db) v =
    elim (Bool-cases (any (adjustment_conflicts x) db.usage_adjustments)) [
      | inl old ↦ rw (old, apply_usage_adjustment_upto) v
      | inr new ↦ rw (new, apply_usage_adjustment_upto) (adjustment_only-NeverAbove x db v)
    ]

pub empty_db-Audit : (R : ℕ → ℕ → Type 0) → ((x : ℕ) → R x x) → Audit R empty_db
unfolding first_where
empty_db-Audit R same = record {
  credit = tt;
  spent = tt;
  micro = λ a k. same 0;
  requests = λ a k. same 0;
  unmetered = λ a k. same 0;
  allowance = λ a k. same 0;
  adjusted_spend = λ a k. same 0;
  adjusted_credit = λ a k. same 0;
}

-- From an empty database, after any history of completed writes in which every account is created
-- under an id that nothing uses yet, and every downward true-up finds no grant under its key, every
-- counter equals the sum of its own audit trail: credit its grants, spend its ledger rows and upward true-ups, and each
-- rollup column the rows of its account and period.
pub Writes-Audit : {db : Db} → Writes empty_db db → Audit ◌≡◌ db
Writes-Audit here = empty_db-Audit ◌≡◌ (λ x. refl)
Writes-Audit (next w s) =
    Write-Audit ◌≡◌ (λ x. refl) (λ x y c h. ap (λ n. n + c) h) s (Writes-Audit w)

-- From an empty database, after any history in which any write may have been cut off between two
-- statements, no counter is above its own audit trail, if every account was created under an id that
-- nothing used yet and every completed downward true-up found no grant under its key.
pub History-NeverAbove : {db : Db} → History empty_db db → NeverAbove db
History-NeverAbove start = empty_db-Audit ◌≤◌ le_refl
History-NeverAbove (write h s) = Write-Audit ◌≤◌ le_refl le_keep s (History-NeverAbove h)
History-NeverAbove (cut h s) = Cut-NeverAbove s (History-NeverAbove h)
