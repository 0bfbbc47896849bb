-- ===== src/Store/Accounts.antt =====
-- Accounts and credit grants: `getPlan`, `getAccount`, `createAccount`, `grantCredit` of
-- src/store-d1.ts.
use prism_control_plane.Prelude.{
  ℕ, ◌+◌, Bool, true, false, ◌||◌, String, Option, none, some, List, [], ◌∷◌, ◌++◌, any, str_eq,
  if◌then◌else◌,
}
use prism_control_plane.Store.Schema.{Db, PlanRow, AccountRow, CreditGrantRow}
use prism_control_plane.Store.Sql.{first_where, update_where}

-- `getPlan`
unfoldable pub get_plan : String → Db → Option PlanRow
get_plan id db = first_where (λ r. str_eq r.id id) db.plans

-- `getAccount`
unfoldable pub get_account : String → Db → Option AccountRow
get_account id db = first_where (λ r. str_eq r.id id) db.accounts

-- A row that shares the primary key or the unique `idempotency_key`.
abbrev pub grant_conflicts : CreditGrantRow → CreditGrantRow → Bool
grant_conflicts g r = str_eq r.id g.id || str_eq r.idempotency_key g.idempotency_key

-- `UPDATE accounts SET credit_micro_usd = credit_micro_usd + ? WHERE id = ?`
unfoldable pub add_credit : ℕ → String → List AccountRow → List AccountRow
add_credit micro_usd id =
    update_where (λ r. str_eq r.id id)
      (λ r. record r { credit_micro_usd = r.credit_micro_usd + micro_usd })

-- `UPDATE accounts SET spent_micro_usd = spent_micro_usd + ? WHERE id = ?`
unfoldable pub add_spent : ℕ → String → List AccountRow → List AccountRow
add_spent micro_usd id =
    update_where (λ r. str_eq r.id id)
      (λ r. record r { spent_micro_usd = r.spent_micro_usd + micro_usd })

pub record NewAccount : Type 0 where
  pub id : String
  pub plan_id : String
  pub label : Option String
  pub credit_micro_usd : ℕ
  pub grant_id : String
  pub grant_idempotency_key : String

-- The two rows that `createAccount` inserts.
abbrev pub account_row : NewAccount → AccountRow
account_row a = record {
  id = a.id;
  plan_id = a.plan_id;
  label = a.label;
  suspended_at = none;
  credit_micro_usd = a.credit_micro_usd;
  spent_micro_usd = 0;
}

abbrev pub opening_grant : NewAccount → CreditGrantRow
opening_grant a = record {
  id = a.grant_id;
  account_id = a.id;
  micro_usd = a.credit_micro_usd;
  idempotency_key = a.grant_idempotency_key;
  note = some "opening grant from plan signup credit";
}

-- `createAccount`: both inserts in one batch, or none of them and an error.
unfoldable pub create_account : NewAccount → Db → Option (Db × AccountRow)
create_account a db =
    if any (λ r. str_eq r.id a.id) db.accounts
      || any (grant_conflicts (opening_grant a)) db.credit_grants
    then none
    else some (
      record db {
        accounts = db.accounts ++ account_row a ∷ [];
        credit_grants = db.credit_grants ++ opening_grant a ∷ [];
      },
      account_row a,
    )

abbrev credit_of : Option AccountRow → ℕ
credit_of none = 0
credit_of (some r) = r.credit_micro_usd

-- `grantCredit`: whether the grant was new, and the credit read back.
unfoldable pub grant_credit : CreditGrantRow → Db → Db × Bool × ℕ
unfolding get_account
grant_credit grant db =
    if any (grant_conflicts grant) db.credit_grants
    then (db, false, credit_of (get_account grant.account_id db))
    else let db' = record db {
      credit_grants = db.credit_grants ++ grant ∷ [];
      accounts = add_credit grant.micro_usd grant.account_id db.accounts;
    } in
      (db', true, credit_of (get_account grant.account_id db'))
