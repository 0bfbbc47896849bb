-- ===== src/NonChat/Meter.antt =====
-- The metering of src/routes/nonchat.ts: `meterAndRespond`, `runUpstream`, `recordUnmetered`, and
-- the steps that every door takes once its input is read. `fault` is the statement of the ledger
-- write after which it fails, if it does, and `id` what is drawn for the row.
use prism_control_plane.Prelude.{
  ℕ, ◌+◌, Bool, true, false, String, Option, none, some, pos, if◌then◌else◌, ltb,
}
use prism_control_plane.Prelude.Number.{integer}
use prism_control_plane.Prelude.Json.{Json}
use prism_control_plane.Http.{ErrorCode, upstream_timeout}
use prism_control_plane.Http as Http
use prism_control_plane.Catalog.{MeterUnit}
use prism_control_plane.Store.Schema.{Db, UsageEvent, AccountRow, measured, unpriced}
use prism_control_plane.Store.Usage.{get_period, record_usage, record_usage_upto}
use prism_control_plane.Store.Accounts.{get_account}
use prism_control_plane.Meter.{price_units}
use prism_control_plane.Balance.{
  allocate_charge, remaining_micro_usd, remaining_allowance_micro_usd,
}
use prism_control_plane.Chat.Context.{Ctx}
use prism_control_plane.Chat.Gates.{allowance_spent}
use prism_control_plane.NonChat.Gates.{Passed}
use prism_control_plane.NonChat.Assets.{provider_state_failed}

-- `NonChatRunResult`, without its prose
pub data RunResult : Type 0 where
  ok : Json → Option String → RunResult
  upstream_error : Option ℕ → RunResult
  timeout : ℕ → RunResult
  unavailable : RunResult

-- What a metered row depends on.
pub record UnitCharge : Type 0 where
  pub request_id : String
  pub account_id : String
  pub client_id : String
  pub model_id : String
  pub period_key : String
  pub micro_usd : ℕ
  pub monthly_included_micro_usd : ℕ
  pub upstream_status : Option ℕ
  pub gateway_log_id : Option String

-- The event of a metered row, with the period as it stands when it is made.
unfoldable pub unit_event : String → UnitCharge → Db → UsageEvent
unfolding get_period allocate_charge
unit_event id c db =
    let split =
      allocate_charge (integer (pos c.micro_usd)) (integer (pos c.monthly_included_micro_usd))
        (integer (pos (allowance_spent (get_period c.account_id c.period_key db)))) in
    record {
      id = id;
      request_id = c.request_id;
      account_id = c.account_id;
      client_id = c.client_id;
      model_id = c.model_id;
      period_key = c.period_key;
      input_tokens = none;
      output_tokens = none;
      micro_usd = c.micro_usd;
      from_allowance_micro_usd = if ltb 0 c.micro_usd then split.from_allowance_micro_usd else 0;
      from_credit_micro_usd = if ltb 0 c.micro_usd then split.from_credit_micro_usd else 0;
      metered = true;
      price_basis = measured;
      unmetered_reason = none;
      upstream_status = c.upstream_status;
      gateway_log_id = c.gateway_log_id;
    }

-- A ledger write whose exception is caught: whether it went through.
unfoldable pub try_record : ℕ → UsageEvent → Option ℕ → Db → Db × Bool
unfolding record_usage
try_record now e none db = (record_usage now e db, true)
try_record now e (some n) db = (record_usage_upto n now e db, false)

-- The headers and the payload of an answer that was charged.
pub record Metered (A : Type 0) : Type 0 where
  pub payload : A
  pub model_id : String
  pub micro_usd : ℕ
  pub units : ℕ
  pub unit : MeterUnit
  pub recorded : Bool
  pub period : String
  pub credit : ℕ
  pub spent : ℕ
  pub credit_remaining : ℕ
  pub allowance_remaining : ℕ

pub data Answer (A : Type 0) : Type 0 where
  charged : Metered A → Answer A
  refused : ErrorCode → Answer A

-- `(await getAccount(id)) ?? { credit, spent + fromCredit }`
abbrev pub account_after : AccountRow → UsageEvent → Option AccountRow → AccountRow
account_after before e (some found) = found
account_after before e none = record before {
  spent_micro_usd = before.spent_micro_usd + e.from_credit_micro_usd;
}

module _ (ctx : Ctx) (p : Passed) (id : String) (fault : Option ℕ) where
  abbrev pub unit_charge : ℕ → Option String → UnitCharge
  unit_charge units log_id = record {
    request_id = ctx.request_id;
    account_id = p.account.id;
    client_id = p.client.id;
    model_id = p.model.id;
    period_key = ctx.period_key;
    micro_usd = (price_units (integer (pos units)) p.unit_price).0;
    monthly_included_micro_usd = p.plan.monthly_included_micro_usd;
    upstream_status = some 200;
    gateway_log_id = log_id;
  }

  -- `meterAndRespond`
  unfoldable pub meter_and_respond : {A : Type 0} → ℕ → A → Option String → Db → Db × Answer A
  unfolding unit_event try_record get_account get_period price_units
  meter_and_respond units payload log_id db =
      let (micro_usd, n) = price_units (integer (pos units)) p.unit_price in
      let event = unit_event id (unit_charge units log_id) db in
      let (db', recorded) = try_record ctx.now event fault db in
      let after = account_after p.account event (get_account p.account.id db') in
      (
        db',
        charged (record {
          payload = payload;
          model_id = p.model.id;
          micro_usd = micro_usd;
          units = n;
          unit = p.unit_price.unit;
          recorded = recorded;
          period = ctx.period_key;
          credit = after.credit_micro_usd;
          spent = after.spent_micro_usd;
          credit_remaining = remaining_micro_usd (record {
            credit_micro_usd = after.credit_micro_usd;
            spent_micro_usd = after.spent_micro_usd;
          });
          allowance_remaining =
              remaining_allowance_micro_usd (integer (pos p.plan.monthly_included_micro_usd))
                (integer (pos (allowance_spent (get_period p.account.id ctx.period_key db'))));
        }),
      )

  abbrev pub unmetered_event : String → Option ℕ → UsageEvent
  unmetered_event reason status = record {
    id = id;
    request_id = ctx.request_id;
    account_id = p.account.id;
    client_id = p.client.id;
    model_id = p.model.id;
    period_key = ctx.period_key;
    input_tokens = none;
    output_tokens = none;
    micro_usd = 0;
    from_allowance_micro_usd = 0;
    from_credit_micro_usd = 0;
    metered = false;
    price_basis = unpriced;
    unmetered_reason = some reason;
    upstream_status = status;
    gateway_log_id = none;
  }

  -- `recordUnmetered`
  unfoldable pub record_unmetered : String → Option ℕ → Db → Db
  unfolding try_record
  record_unmetered reason status db =
      (try_record ctx.now (unmetered_event reason status) fault db).0

  -- A call that failed, by how it failed, and an answer in which there is nothing to charge for.
  unfoldable pub refuse : {A : Type 0} → String → Option ℕ → ErrorCode → Db → Db × Answer A
  unfolding record_unmetered
  refuse reason status code db = (record_unmetered reason status db, refused code)

  abbrev pub charge_found :
      {A : Type 0} → String → ℕ → Option String → Option A → Db → Db × Answer A
  charge_found missing units log_id none db = refuse missing (some 200) Http.upstream_error db
  charge_found missing units log_id (some payload) db = meter_and_respond units payload log_id db

  -- What a door does with the answer to its call: `runUpstream`, `providerStateFailed`, the reading
  -- of the asset, and `meterAndRespond`.
  unfoldable pub serve :
      {A : Type 0} → (Json → Option A) → String → ℕ → RunResult → Db → Db × Answer A
  unfolding refuse meter_and_respond provider_state_failed
  serve extract missing units (timeout waited_ms) db = refuse "timeout" none upstream_timeout db
  serve extract missing units unavailable db = (db, refused Http.unavailable)
  serve extract missing units (upstream_error status) db =
      refuse "upstream_error" status Http.upstream_error db
  serve extract missing units (ok body log_id) db =
      if provider_state_failed body
      then refuse "provider_failed" (some 200) Http.upstream_error db
      else charge_found missing units log_id (extract body) db
