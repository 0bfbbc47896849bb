-- ===== src/Store/Audit/TrueUps.antt =====
-- `applyUsageAdjustment` of src/store-d1.ts: a true-up moves the money that its audit row states.
use prism_control_plane.Prelude.{
  ◌⊎◌, ℕ, ◌+◌, ◌<◌, ◌≡◌, refl, true, false, String, List, [], ◌∷◌, ◌++◌, arith, any, All,
  if◌then◌else◌, Bool-cases, inl, inr, total-concat, str_eq,
}
use prism_control_plane.Store.Schema.{
  Db, AccountRow, CreditGrantRow, UsageAdjustmentRow, Direction, spend, credit,
}
use prism_control_plane.Store.Sql.{update_where, All-update_where}
use prism_control_plane.Store.Accounts.{add_spent, add_credit, grant_conflicts}
use prism_control_plane.Store.Adjustments.{
  adjustment_conflicts, spend_part, true_up_grant, adjust_period, move_money,
  apply_usage_adjustment,
}
use prism_control_plane.Store.Audit.{Audit, granted, charged, trued_up}
use prism_control_plane.Store.Audit.Periods.{period_at-adjust_period}

-- The audit row of a true-up.
abbrev pub append_adjustment : UsageAdjustmentRow → Db → Db
append_adjustment x db = record db { usage_adjustments = db.usage_adjustments ++ x ∷ [] }

-- No grant stands under the key of a downward true-up, so that its own grant row is written.
abbrev pub HasGrantKey : UsageAdjustmentRow → Db → Type 0
HasGrantKey x db = any (grant_conflicts (true_up_grant x)) db.credit_grants ≡ false

pub trued_up-append :
    (a : String) (t : List UsageAdjustmentRow) (x : UsageAdjustmentRow)
    → trued_up a (t ++ x ∷ []) ≡ trued_up a t + (if str_eq a x.account_id then spend_part x else 0)
trued_up-append a t x = total-concat _ t x

pub granted-append :
    (a : String) (t : List CreditGrantRow) (g : CreditGrantRow)
    → granted a (t ++ g ∷ []) ≡ granted a t + (if str_eq a g.account_id then g.micro_usd else 0)
granted-append a t g = total-concat _ t g

pub apply_usage_adjustment_of_old :
    (x : UsageAdjustmentRow) (db : Db)
    → any (adjustment_conflicts x) db.usage_adjustments ≡ true
    → apply_usage_adjustment x db ≡ (db, false)
unfolding apply_usage_adjustment
apply_usage_adjustment_of_old x db h = rw h

pub apply_usage_adjustment_of_new :
    (x : UsageAdjustmentRow) (db : Db)
    → any (adjustment_conflicts x) db.usage_adjustments ≡ false
    → apply_usage_adjustment x db ≡ (move_money x (append_adjustment x db), true)
unfolding apply_usage_adjustment
apply_usage_adjustment_of_new x db h = rw h

module _ (R : ℕ → ℕ → Type 0) (keep : (x y c : ℕ) → R x y → R (x + c) (y + c)) where
  move_by : {x y x' y' : ℕ} (c : ℕ) → x' ≡ x + c → y' ≡ y + c → R x y → R x' y'
  move_by c p q h = rw (p, q) (keep _ _ c h)

  module _ (x : UsageAdjustmentRow) (db : Db) (v : Audit R db) where
    -- The adjustment columns of the rollup have moved; what became of the accounts is given.
    adjusted-Audit :
        (t : List AccountRow) (gs : List CreditGrantRow)
        → All (λ r. R r.credit_micro_usd (granted r.id gs)) t
        → All
            (λ r. R r.spent_micro_usd (
              charged r.id db.usage_events
              + trued_up r.id (append_adjustment x db).usage_adjustments))
            t
        → Audit R (record (append_adjustment x db) {
          accounts = t;
          credit_grants = gs;
          usage_periods = adjust_period x db.usage_periods;
        })
    adjusted-Audit t gs c s = record {
      credit = c;
      spent = s;
      micro = λ a k. rw (period_at-adjust_period x a k db.usage_periods).2 (v.micro a k);
      requests = λ a k. rw (period_at-adjust_period x a k db.usage_periods).3 (v.requests a k);
      unmetered = λ a k. rw (period_at-adjust_period x a k db.usage_periods).4 (v.unmetered a k);
      allowance = λ a k. rw (period_at-adjust_period x a k db.usage_periods).5 (v.allowance a k);
      adjusted_spend = λ a k.
          move_by _ (period_at-adjust_period x a k db.usage_periods).0
            (total-concat _ db.usage_adjustments x) (v.adjusted_spend a k);
      adjusted_credit = λ a k.
          move_by _ (period_at-adjust_period x a k db.usage_periods).1
            (total-concat _ db.usage_adjustments x) (v.adjusted_credit a k);
    }

    spent_row :
        (r : AccountRow) (n : ℕ)
        → R r.spent_micro_usd (charged r.id db.usage_events + trued_up r.id db.usage_adjustments)
        → n ≡ r.spent_micro_usd + (if str_eq r.id x.account_id then spend_part x else 0)
        → R n (
            charged r.id db.usage_events + trued_up r.id (append_adjustment x db).usage_adjustments)
    spent_row r n h e =
        move_by (if str_eq r.id x.account_id then spend_part x else 0) e
          (omega (arith, trued_up-append r.id db.usage_adjustments x)) h

    credit_row :
        (r : AccountRow) (n : ℕ)
        → R r.credit_micro_usd (granted r.id db.credit_grants)
        → n ≡ r.credit_micro_usd + (if str_eq r.id x.account_id then x.applied_micro_usd else 0)
        → R n (granted r.id (db.credit_grants ++ true_up_grant x ∷ []))
    credit_row r n h e = move_by _ e (granted-append r.id db.credit_grants (true_up_grant x)) h

    spend-Audit : x.direction ≡ spend → Audit R (move_money x (append_adjustment x db))
    unfolding move_money add_spent
    spend-Audit d =
        rw (d, move_money)
          (adjusted-Audit _ db.credit_grants
            (All-update_where _ _ _ _ db.accounts (λ r m h. h) (λ r m h. h) v.credit)
            (All-update_where _ _ _ _ db.accounts (λ r m h. spent_row r _ h (ground arith))
              (λ r m h. spent_row r _ h (ground arith)) v.spent))

    credit-Audit :
        x.direction ≡ credit → HasGrantKey x db → Audit R (move_money x (append_adjustment x db))
    unfolding move_money add_credit
    credit-Audit d f =
        rw (d, f, move_money)
          (adjusted-Audit _ _
            (All-update_where _ _ _ _ db.accounts (λ r m h. credit_row r _ h (ground arith))
              (λ r m h. credit_row r _ h (ground arith)) v.credit)
            (All-update_where _ _ _ _ db.accounts (λ r m h. spent_row r _ h (ground arith))
              (λ r m h. spent_row r _ h (ground arith)) v.spent))

Direction-cases : (d : Direction) → (d ≡ spend) ⊎ (d ≡ credit)
Direction-cases spend = inl refl
Direction-cases credit = inr refl

-- A true-up keeps every counter in step with its trail, in whichever sense it was, provided that
-- a downward one finds no grant under its key: the account and the rollup of the event's period
-- move by exactly what the audit row states, and a repeated one moves nothing.
pub apply_usage_adjustment-Audit :
    (R : ℕ → ℕ → Type 0)
    → ((x y c : ℕ) → R x y → R (x + c) (y + c))
    → (x : UsageAdjustmentRow) (db : Db) → (x.direction ≡ credit → HasGrantKey x db)
    → Audit R db
    → Audit R (apply_usage_adjustment x db).0
apply_usage_adjustment-Audit R keep x db f v =
    elim (Bool-cases (any (adjustment_conflicts x) db.usage_adjustments)) [
      | inl old ↦ rw (apply_usage_adjustment_of_old x db old) v
      | inr new ↦ rw (apply_usage_adjustment_of_new x db new) (elim (Direction-cases x.direction) [
        | inl d ↦ spend-Audit R keep x db v d
        | inr d ↦ credit-Audit R keep x db v d (f d)
      ])
    ]

-- The accounts of a downward true-up that wrote no grant: the credit of one is above its grants.
module _ (n : ℕ) (id : String) (grants : List CreditGrantRow) where
  credit_above :
      (t : List AccountRow)
      → All (λ r. r.credit_micro_usd ≡ granted r.id grants) t
      → All
          (λ r. r.credit_micro_usd ≡ granted r.id grants + (if str_eq r.id id then n else 0))
          (add_credit n id t)
  unfolding add_credit
  credit_above t v = All-update_where _ _ _ _ t (λ r m h. ground arith) (λ r m h. ground arith) v

  still_there :
      (t : List AccountRow)
      → any (λ r. str_eq r.id id) t ≡ true
      → any (λ r. str_eq r.id id) (add_credit n id t) ≡ true
  unfolding add_credit update_where
  still_there [] h = h
  still_there (r ∷ t) h = elim (Bool-cases (str_eq r.id id)) [
    | inl e ↦ ground arith
    | inr e ↦ ground (arith, still_there t)
  ]

  never_both :
      (t : List AccountRow)
      → 0 < n
      → any (λ r. str_eq r.id id) t ≡ true
      → All (λ r. r.credit_micro_usd ≡ granted r.id grants + (if str_eq r.id id then n else 0)) t
      → All (λ r. r.credit_micro_usd ≡ granted r.id grants) t
      → ⊥
  never_both [] p found v w = cc
  never_both (r ∷ t) p found (a, v) (b, w) = elim (Bool-cases (str_eq r.id id)) [
    | inl e ↦ ground arith
    | inr e ↦ never_both t p (ground arith) v w
  ]

-- A downward true-up of some amount whose key an operator's grant already holds raises the credit of
-- its account all the same, and no grant is written for it: if the books were in step before, the
-- credit of that account is then above what its grants explain by just that amount, that of every
-- other account is as explained, and the books are no longer in step.
pub apply_usage_adjustment_unexplained :
    (x : UsageAdjustmentRow) (db : Db)
    → Audit ◌≡◌ db
    → any (adjustment_conflicts x) db.usage_adjustments ≡ false
    → x.direction ≡ credit
    → any (grant_conflicts (true_up_grant x)) db.credit_grants ≡ true
    → any (λ r. str_eq r.id x.account_id) db.accounts ≡ true
    → 0 < x.applied_micro_usd
    → let db' = (apply_usage_adjustment x db).0 in
      (db'.credit_grants ≡ db.credit_grants)
      × All
          (λ r.
            r.credit_micro_usd
            ≡ granted r.id db'.credit_grants
              + (if str_eq r.id x.account_id then x.applied_micro_usd else 0))
          db'.accounts
      × ¬ (Audit ◌≡◌ db')
apply_usage_adjustment_unexplained x db v new d g here some_money =
    let above =
      credit_above x.applied_micro_usd x.account_id db.credit_grants db.accounts v.credit in
    rw (apply_usage_adjustment_of_new x db new) (
      unfold move_money in
      rw (d, g)
        (
          refl,
          above,
          λ w.
              never_both x.applied_micro_usd x.account_id db.credit_grants _ some_money
                (still_there x.applied_micro_usd x.account_id db.credit_grants db.accounts here)
                above w.credit,
        ))
