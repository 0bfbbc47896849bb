-- ===== src/Store/Audit/Tests.antt =====
-- The results of Store/Audit on small histories.
use prism_control_plane.Prelude.{
  ◌≤◌, ◌+◌, All, str_eq, arith, if◌then◌else◌, ◌≡◌, refl, true, none, some, [], ◌∷◌, negsuc,
}
use native.Mathlib.Nat.{le_refl}
use prism_control_plane.Store.Schema.{
  Db, CreditGrantRow, UsageEvent, UsageAdjustmentRow, credit, measured, empty_db,
}
use prism_control_plane.Store.Sql.{first_where}
use prism_control_plane.Store.Accounts.{NewAccount, account_row, opening_grant, create_account}
use prism_control_plane.Store.Usage.{record_usage, record_usage_upto}
use prism_control_plane.Store.Adjustments.{apply_usage_adjustment}
use prism_control_plane.Store.Audit.{Audit, granted}
use prism_control_plane.Store.Audit.Crashes.{NeverAbove}
use prism_control_plane.Store.Audit.Grants.{IsUnused, create_account-Audit}
use prism_control_plane.Store.Audit.TrueUps.{apply_usage_adjustment_unexplained}
use prism_control_plane.Store.Audit.Retries.{record_usage_repeated}
use prism_control_plane.Store.Audit.Histories.{
  Writes, here, next, create, record_event, History, start, write, cut, cut_event, Writes-Audit,
  History-NeverAbove, empty_db-Audit,
}

abbrev signup : NewAccount
signup = record {
  id = "a";
  plan_id = "p";
  label = none;
  credit_micro_usd = 500;
  grant_id = "g0";
  grant_idempotency_key = "open-a";
}

abbrev event : UsageEvent
event = record {
  id = "u1";
  request_id = "r1";
  account_id = "a";
  client_id = "c";
  model_id = "m";
  period_key = "2026-01";
  input_tokens = some 10;
  output_tokens = some 20;
  micro_usd = 30;
  from_allowance_micro_usd = 10;
  from_credit_micro_usd = 20;
  metered = true;
  price_basis = measured;
  unmetered_reason = none;
  upstream_status = some 200;
  gateway_log_id = none;
}

abbrev true_up_row : UsageAdjustmentRow
true_up_row = record {
  id = "x1";
  account_id = "a";
  usage_event_id = some "u1";
  request_id = "r1";
  gateway_log_id = "l1";
  period_key = "2026-01";
  model_id = some "m";
  estimate_micro_usd = 30;
  gateway_micro_usd = 25;
  delta_micro_usd = negsuc 4;
  direction = credit;
  applied_micro_usd = 5;
  idempotency_key = "aig:l1";
  note = none;
}

abbrev invoice : CreditGrantRow
invoice = record {
  id = "g1";
  account_id = "a";
  micro_usd = 1000;
  idempotency_key = "invoice-7";
  note = none;
}

abbrev opened : Db
opened = record empty_db {
  accounts = account_row signup ∷ [];
  credit_grants = opening_grant signup ∷ [];
}

-- The operator's grant under the key of the true-up.
abbrev taken_key : Db
taken_key = record empty_db {
  accounts = record (account_row signup) { credit_micro_usd = 1500 } ∷ [];
  credit_grants = opening_grant signup ∷ record invoice { idempotency_key = "aig:l1" } ∷ [];
}

taken_key-Audit : Audit ◌≡◌ taken_key
unfolding first_where
taken_key-Audit = record {
  credit = (refl, tt);
  spent = (refl, tt);
  micro = λ a k. refl;
  requests = λ a k. refl;
  unmetered = λ a k. refl;
  allowance = λ a k. refl;
  adjusted_spend = λ a k. refl;
  adjusted_credit = λ a k. refl;
}

opens : create_account signup empty_db ≡ some (opened, account_row signup)
unfolding create_account
opens = refl

unused : IsUnused signup.id empty_db
unused = (refl, refl, refl)

opened-Audit : Audit ◌≡◌ opened
opened-Audit =
    (create_account-Audit ◌≡◌ (λ x. refl) signup empty_db opened (account_row signup) unused
      (empty_db-Audit ◌≡◌ (λ x. refl)) opens).0

opened-NeverAbove : NeverAbove opened
opened-NeverAbove =
    (create_account-Audit ◌≤◌ le_refl signup empty_db opened (account_row signup) unused
      (empty_db-Audit ◌≤◌ le_refl) opens).0

abbrev history : Writes empty_db (record_usage 7 event opened)
history =
    next (next here (create signup empty_db opened (account_row signup) unused opens))
      (record_event 7 event opened)

Writes-Audit_example : Audit ◌≡◌ (record_usage 7 event opened)
Writes-Audit_example = Writes-Audit history

abbrev cut_history : History empty_db (record_usage_upto 1 7 event opened)
cut_history =
    cut (write start (create signup empty_db opened (account_row signup) unused opens))
      (cut_event 1 7 event opened)

History-NeverAbove_example : NeverAbove (record_usage_upto 1 7 event opened)
History-NeverAbove_example = History-NeverAbove cut_history

apply_usage_adjustment_unexplained_example :
    let db' = (apply_usage_adjustment true_up_row taken_key).0 in
    (db'.credit_grants ≡ taken_key.credit_grants)
    × All
        (λ r.
          r.credit_micro_usd
          ≡ granted r.id db'.credit_grants
            + (if str_eq r.id true_up_row.account_id then true_up_row.applied_micro_usd else 0))
        db'.accounts
    × ¬ (Audit ◌≡◌ db')
apply_usage_adjustment_unexplained_example =
    apply_usage_adjustment_unexplained true_up_row taken_key taken_key-Audit refl refl refl refl
      (omega arith)

record_usage_repeated_example :
    record_usage 9 (record event { id = "u2"; micro_usd = 31 }) (record_usage 7 event opened)
    ≡ record_usage 7 event opened
record_usage_repeated_example =
    record_usage_repeated 7 9 event (record event { id = "u2"; micro_usd = 31 }) opened refl refl
      refl

abbrev with_event : Db
with_event = record opened { usage_events = record { event = event; created_at = 7 } ∷ [] }
