-- ===== src/Store/Usage.antt =====
-- The ledger and its rollups: `getPeriod` and `recordUsage` of src/store-d1.ts, statement by
-- statement.
use prism_control_plane.Prelude.{
  ℕ, suc, zero, ◌+◌, Bool, true, false, ◌||◌, ◌&&◌, String, Option, none, some, List, [], ◌∷◌, ◌++◌,
  any, str_eq, if◌then◌else◌, ltb,
}
use prism_control_plane.Store.Schema.{Db, PeriodRow, UsageEvent, LedgerRow}
use prism_control_plane.Store.Sql.{first_where, upsert}
use prism_control_plane.Store.Accounts.{add_spent}

-- The primary key of `usage_periods`.
abbrev pub is_period : String → String → PeriodRow → Bool
is_period account_id period_key r = str_eq r.account_id account_id && str_eq r.period_key period_key

-- `getPeriod`
unfoldable pub get_period : String → String → Db → Option PeriodRow
get_period account_id period_key db = first_where (is_period account_id period_key) db.usage_periods

-- A row in conflict with the event: by primary key, or by the unique (client_id, request_id).
abbrev pub event_conflicts : UsageEvent → LedgerRow → Bool
event_conflicts e r =
    str_eq r.event.id e.id
    || (str_eq r.event.client_id e.client_id && str_eq r.event.request_id e.request_id)

-- `event.metered ? x : 0`
abbrev pub when_metered : UsageEvent → ℕ → ℕ
when_metered e n = if e.metered then n else 0

-- The ledger row as it is written.
abbrev pub ledger_event : UsageEvent → UsageEvent
ledger_event e = record e {
  from_allowance_micro_usd = when_metered e e.from_allowance_micro_usd;
  from_credit_micro_usd = when_metered e e.from_credit_micro_usd;
}

-- The rollup row that the event starts, and what it adds to one that is there.
abbrev pub new_period : UsageEvent → PeriodRow
new_period e = record {
  account_id = e.account_id;
  period_key = e.period_key;
  micro_usd = when_metered e e.micro_usd;
  requests = 1;
  unmetered_requests = if e.metered then 0 else 1;
  adjust_spend_micro_usd = 0;
  adjust_credit_micro_usd = 0;
  allowance_spent_micro_usd = when_metered e e.from_allowance_micro_usd;
}

abbrev pub add_event : UsageEvent → PeriodRow → PeriodRow
add_event e r = record r {
  micro_usd = r.micro_usd + when_metered e e.micro_usd;
  requests = r.requests + 1;
  unmetered_requests = r.unmetered_requests + (if e.metered then 0 else 1);
  allowance_spent_micro_usd =
      r.allowance_spent_micro_usd + when_metered e e.from_allowance_micro_usd;
}

-- The rollup's UPSERT.
unfoldable pub advance_period : UsageEvent → List PeriodRow → List PeriodRow
advance_period e = upsert (is_period e.account_id e.period_key) (add_event e) (new_period e)

-- The last statement: prepaid spend, where there is some.
unfoldable pub advance_spent : UsageEvent → Db → Db
advance_spent e db = record db {
  accounts =
      if e.metered && ltb 0 e.from_credit_micro_usd
      then add_spent e.from_credit_micro_usd e.account_id db.accounts
      else db.accounts;
}

abbrev pub append_event : ℕ → UsageEvent → Db → Db
append_event now e db = record db {
  usage_events = db.usage_events ++ (record { event = ledger_event e; created_at = now }) ∷ [];
}

-- The first statement, INSERT OR IGNORE, and whether it changed a row. `now` is the time that the
-- database stamps on it.
unfoldable pub insert_event : ℕ → UsageEvent → Db → Db × Bool
insert_event now e db =
    if any (event_conflicts e) db.usage_events then (db, false) else (append_event now e db, true)

-- The second and the third statement, and the second alone.
abbrev pub roll_up : UsageEvent → Db → Db
roll_up e db = record db { usage_periods = advance_period e db.usage_periods }

-- `recordUsage` as far as it gets if the Worker or the database fails after `n` statements: three
-- are all of them.
unfoldable pub record_usage_upto : ℕ → ℕ → UsageEvent → Db → Db
unfolding insert_event advance_spent
record_usage_upto zero now e db = db
record_usage_upto (suc zero) now e db = (insert_event now e db).0
record_usage_upto (suc (suc zero)) now e db =
    let (db', changed) = insert_event now e db in if changed then roll_up e db' else db'
record_usage_upto (suc (suc (suc n))) now e db =
    let (db', changed) = insert_event now e db in
    if changed then advance_spent e (roll_up e db') else db'

-- `recordUsage`
unfoldable pub record_usage : ℕ → UsageEvent → Db → Db
unfolding record_usage_upto
record_usage = record_usage_upto 3

-- `getUsageEventByRequestId`
unfoldable pub get_usage_event_by_request_id : String → Db → Option UsageEvent
get_usage_event_by_request_id request_id db =
    elim (first_where (λ r. str_eq r.event.request_id request_id) db.usage_events) [
      | none ↦ none
      | some r ↦ some r.event
    ]
