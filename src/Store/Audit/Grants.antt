-- ===== src/Store/Audit/Grants.antt =====
-- `createAccount` and `grantCredit` of src/store-d1.ts: credit is what the grants say.
use prism_control_plane.Prelude.{
  ℕ, ◌+◌, ◌≡◌, Bool, true, false, String, ◌||◌, some, List, [], ◌∷◌, ◌++◌, arith, any, All, All-map,
  All-append, if◌then◌else◌, Bool-cases, inl, inr, str_eq, eq_refl,
}
use mathlib.Core.Path.{subst}
use prism_control_plane.Store.Schema.{Db, AccountRow, CreditGrantRow}
use prism_control_plane.Store.Sql.{All-update_where}
use prism_control_plane.Store.Accounts.{
  NewAccount, account_row, opening_grant, create_account, add_credit, grant_conflicts, grant_credit,
}
use prism_control_plane.Store.Audit.{Audit, granted, charged, trued_up}
use prism_control_plane.Store.Audit.TrueUps.{granted-append}

pub grant_credit_of_old :
    (g : CreditGrantRow) (db : Db)
    → any (grant_conflicts g) db.credit_grants ≡ true
    → (grant_credit g db).0 ≡ db
unfolding grant_credit
grant_credit_of_old g db h = rw h

pub grant_credit_of_new :
    (g : CreditGrantRow) (db : Db)
    → any (grant_conflicts g) db.credit_grants ≡ false
    → (grant_credit g db).0 ≡ record db {
      credit_grants = db.credit_grants ++ g ∷ [];
      accounts = add_credit g.micro_usd g.account_id db.accounts;
    }
unfolding grant_credit
grant_credit_of_new g db h = rw h

module _ (R : ℕ → ℕ → Type 0) (keep : (x y c : ℕ) → R x y → R (x + c) (y + c)) where
  granted_row :
      (g : CreditGrantRow) (t : List CreditGrantRow) (r : AccountRow) (n : ℕ)
      → R r.credit_micro_usd (granted r.id t)
      → n ≡ r.credit_micro_usd + (if str_eq r.id g.account_id then g.micro_usd else 0)
      → R n (granted r.id (t ++ g ∷ []))
  granted_row g t r n h e = rw (e, granted-append r.id t g) (keep _ _ _ h)

  -- A top-up keeps every counter in step with its trail, in whichever sense it was: the credit
  -- moves by the amount of the grant row that is written, and a repeated key moves nothing.
  pub grant_credit-Audit :
      (g : CreditGrantRow) (db : Db) → Audit R db → Audit R (grant_credit g db).0
  unfolding add_credit
  grant_credit-Audit g db v = elim (Bool-cases (any (grant_conflicts g) db.credit_grants)) [
    | inl old ↦ rw (grant_credit_of_old g db old) v
    | inr new ↦ rw (grant_credit_of_new g db new) (record {
      credit =
          All-update_where _ _ _ _ db.accounts
            (λ r m h. granted_row g db.credit_grants r _ h (ground arith))
            (λ r m h. granted_row g db.credit_grants r _ h (ground arith)) v.credit;
      spent = All-update_where _ _ _ _ db.accounts (λ r m h. h) (λ r m h. h) v.spent;
      micro = v.micro;
      requests = v.requests;
      unmetered = v.unmetered;
      allowance = v.allowance;
      adjusted_spend = v.adjusted_spend;
      adjusted_credit = v.adjusted_credit;
    })
  ]

-- Nothing in the trails is under this account id yet.
abbrev pub IsUnused : String → Db → Type 0
IsUnused a db =
    (granted a db.credit_grants ≡ 0)
    × (charged a db.usage_events ≡ 0)
    × (trued_up a db.usage_adjustments ≡ 0)

not_this_account :
    (a : String) (P : AccountRow → Type 0) (t : List AccountRow)
    → any (λ r. str_eq r.id a) t ≡ false
    → All P t
    → All (λ r. (str_eq r.id a ≡ false) × P r) t
not_this_account a P [] h v = tt
not_this_account a P (r ∷ t) h (p, v) = ((ground arith, p), not_this_account a P t (ground arith) v)

abbrev created : NewAccount → Db → Db
created a db = record db {
  accounts = db.accounts ++ account_row a ∷ [];
  credit_grants = db.credit_grants ++ opening_grant a ∷ [];
}

abbrev is_taken : NewAccount → Db → Bool
is_taken a db =
    any (λ r. str_eq r.id a.id) db.accounts
    || any (grant_conflicts (opening_grant a)) db.credit_grants

granted_other :
    (a : NewAccount) (db : Db) (r : AccountRow)
    → str_eq r.id a.id ≡ false
    → granted r.id (created a db).credit_grants ≡ granted r.id db.credit_grants
granted_other a db r h = ground (arith, granted-append r.id db.credit_grants (opening_grant a))

granted_self :
    (a : NewAccount) (db : Db)
    → granted a.id db.credit_grants ≡ 0
    → granted a.id (created a db).credit_grants ≡ a.credit_micro_usd
granted_self a db h =
    ground (arith, granted-append a.id db.credit_grants (opening_grant a), eq_refl a.id)

created-Audit :
    (R : ℕ → ℕ → Type 0)
    → ((x : ℕ) → R x x)
    → (a : NewAccount) (db : Db) → IsUnused a.id db
    → any (λ r. str_eq r.id a.id) db.accounts ≡ false
    → Audit R db
    → Audit R (created a db)
created-Audit R same a db u free v = record {
  credit =
      All-append _ db.accounts (account_row a ∷ [])
        (All-map _ _ db.accounts (λ r h. rw (granted_other a db r h.0) h.1)
          (not_this_account a.id _ db.accounts free v.credit))
        (rw (granted_self a db u.0) (same a.credit_micro_usd), tt);
  spent = All-append _ db.accounts (account_row a ∷ []) v.spent (rw (u.1, u.2) (same 0), tt);
  micro = v.micro;
  requests = v.requests;
  unmetered = v.unmetered;
  allowance = v.allowance;
  adjusted_spend = v.adjusted_spend;
  adjusted_credit = v.adjusted_credit;
}

-- A new account with an unused id is born with the credit that its opening grant explains and
-- with nothing spent, and every counter stays in step with its trail, in whichever sense it was.
pub create_account-Audit :
    (R : ℕ → ℕ → Type 0)
    → ((x : ℕ) → R x x)
    → (a : NewAccount) (db db' : Db) (r : AccountRow) → IsUnused a.id db
    → Audit R db
    → create_account a db ≡ some (db', r)
    → Audit R db' × (r.credit_micro_usd ≡ a.credit_micro_usd) × (r.spent_micro_usd ≡ 0)
unfolding create_account
create_account-Audit R same a db db' r u v e = elim (Bool-cases (is_taken a db)) [
  | inl taken ↦ absurd (ground arith)
  | inr free ↦
      let done : created a db ≡ db' = ground arith in
      let born : account_row a ≡ r = ground arith in
      (
        subst (Audit R) done (created-Audit R same a db u (ground arith) v),
        rw (← born),
        rw (← born),
      )
]
