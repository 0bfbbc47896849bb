-- ===== src/NonChat/Paid.antt =====
-- What the doors of src/routes/nonchat.ts cost.
use prism_control_plane.Prelude.{
  ℕ, ◌+◌, ◌-◌, ◌*◌, ◌≡◌, ◌≤◌, refl, sym, ap, ◌∙◌, Bool, true, false, String, Option, none, some,
  arith, pos, Bool-cases, inl, inr,
}
use prism_control_plane.Prelude.Number.{integer}
use prism_control_plane.Prelude.Json.{Json}
use prism_control_plane.Http.{ErrorCode}
use prism_control_plane.Http as Http
use prism_control_plane.Meter.{price_units}
use prism_control_plane.Balance.{remaining_allowance_micro_usd}
use prism_control_plane.Balance.Allocation.{allocate_charge_splits}
use prism_control_plane.Store.Schema.{Db, UsageEvent}
use prism_control_plane.Store.Usage.{get_period, record_usage}
use prism_control_plane.Chat.Context.{Ctx}
use prism_control_plane.Chat.Gates.{allowance_spent}
use prism_control_plane.Chat.Settled.{IsFree, unchanged-IsFree, unmetered-IsFree}
use prism_control_plane.NonChat.Gates.{Passed}
use prism_control_plane.NonChat.Assets.{provider_state_failed}
use prism_control_plane.NonChat.Meter.{
  RunResult, ok, upstream_error, timeout, unavailable, unit_charge, unit_event, try_record, Metered,
  Answer, charged, refused, meter_and_respond, unmetered_event, record_unmetered, refuse,
  charge_found, serve,
}

try_record-IsFree :
    (now : ℕ) (e : UsageEvent) (fault : Option ℕ) (db : Db)
    → e.metered ≡ false
    → IsFree db (try_record now e fault db).0
unfolding try_record record_usage
try_record-IsFree now e none db h = unmetered-IsFree 3 now e db h
try_record-IsFree now e (some n) db h = unmetered-IsFree n now e db h

abbrev pub goes_through : Option ℕ → Bool
goes_through none = true
goes_through (some n) = false

try_record-flag :
    (now : ℕ) (e : UsageEvent) (fault : Option ℕ) (db : Db)
    → (try_record now e fault db).1 ≡ goes_through fault
unfolding try_record
try_record-flag now e none db = refl
try_record-flag now e (some n) db = refl

abbrev payload_or : {A : Type 0} → A → Answer A → A
payload_or a (charged m) = m.payload
payload_or a (refused code) = a

abbrev units_or : {A : Type 0} → ℕ → Answer A → ℕ
units_or n (charged m) = m.units
units_or n (refused code) = n

abbrev recorded_of : {A : Type 0} → Answer A → Bool
recorded_of (charged m) = m.recorded
recorded_of (refused code) = false

-- What is written for an answer that is charged: a row of the caller's, metered at just the price that
-- the answer names, split without loss and with no more from the allowance than was left of it.
pub record IsWritten {A : Type 0} (ctx : Ctx) (p : Passed) (fault : Option ℕ) (m : Metered A)
    (db db' : Db) : Type 0 where
  pub row : UsageEvent
  pub of_account : row.account_id ≡ p.account.id
  pub of_client : row.client_id ≡ p.client.id
  pub of_request : row.request_id ≡ ctx.request_id
  pub metered : row.metered ≡ true
  pub row_price : row.micro_usd ≡ m.micro_usd
  pub split : row.from_allowance_micro_usd + row.from_credit_micro_usd ≡ m.micro_usd
  pub within_allowance :
      row.from_allowance_micro_usd
      ≤ p.plan.monthly_included_micro_usd
        - allowance_spent (get_period p.account.id ctx.period_key db)
  pub said : m.recorded ≡ goes_through fault
  pub written : db' ≡ (try_record ctx.now row fault db).0

module _ {A : Type 0} (ctx : Ctx) (p : Passed) (id : String) (fault : Option ℕ)
    (extract : Json → Option A) (missing : String) (units : ℕ) where
  pub refuse-IsFree :
      (reason : String) (status : Option ℕ) (code : ErrorCode) (db : Db)
      → IsFree db (refuse ctx p id fault {A = A} reason status code db).0
  unfolding refuse record_unmetered
  refuse-IsFree reason status code db =
      try_record-IsFree ctx.now (unmetered_event ctx p id fault reason status) fault db refl

  pub found_refused :
      (o : Option A) (log : Option String) (db : Db) (code : ErrorCode)
      → (charge_found ctx p id fault missing units log o db).1 ≡ refused code
      → IsFree db (charge_found ctx p id fault missing units log o db).0
  unfolding meter_and_respond
  found_refused none log db code h = refuse-IsFree missing (some 200) Http.upstream_error db
  found_refused (some payload) log db code h = absurd (cc)

  -- The row of a charge.
  abbrev pub row_of : Option String → Db → UsageEvent
  row_of log db = unit_event id (unit_charge ctx p id fault units log) db

  -- What an answer that is charged rests on, and what is written for it.
  pub record IsPaid (r : RunResult) (db db' : Db) (m : Metered A) : Type 0 where
    pub body : Json
    pub log : Option String
    pub answered : r ≡ ok body log
    pub succeeded : provider_state_failed body ≡ false
    pub found : extract body ≡ some m.payload
    pub price : m.micro_usd ≡ units * p.unit_price.micro_usd_per_unit
    pub charged_units : m.units ≡ units
    pub row_price : (row_of log db).micro_usd ≡ m.micro_usd
    pub split :
        (row_of log db).from_allowance_micro_usd + (row_of log db).from_credit_micro_usd
        ≡ m.micro_usd
    pub within_allowance :
        (row_of log db).from_allowance_micro_usd
        ≤ p.plan.monthly_included_micro_usd
          - allowance_spent (get_period p.account.id ctx.period_key db)
    pub said : m.recorded ≡ goes_through fault
    pub written : db' ≡ (try_record ctx.now (row_of log db) fault db).0

  units_price :
      (price_units (integer (pos units)) p.unit_price).0 ≡ units * p.unit_price.micro_usd_per_unit
  unfolding price_units
  units_price = ground arith

  same_units : (price_units (integer (pos units)) p.unit_price).1 ≡ units
  unfolding price_units
  same_units = ground arith

  row_splits :
      (log : Option String) (db : Db)
      → let e = row_of log db in
        let price = (price_units (integer (pos units)) p.unit_price).0 in
        (e.micro_usd ≡ price)
        × (e.from_allowance_micro_usd + e.from_credit_micro_usd ≡ price)
        × (e.from_allowance_micro_usd
            ≤ p.plan.monthly_included_micro_usd
              - allowance_spent (get_period p.account.id ctx.period_key db))
  unfolding unit_event remaining_allowance_micro_usd
  row_splits log db =
      let price = (price_units (integer (pos units)) p.unit_price).0 in
      let split =
        allocate_charge_splits price (integer (pos p.plan.monthly_included_micro_usd))
          (integer (pos (allowance_spent (get_period p.account.id ctx.period_key db)))) in
      ground (arith, split)

  pub found_price :
      (log : Option String) (o : Option A) (db : Db) (m : Metered A)
      → (charge_found ctx p id fault missing units log o db).1 ≡ charged m
      → (m.units ≡ units) × (m.micro_usd ≡ units * p.unit_price.micro_usd_per_unit)
  unfolding meter_and_respond refuse
  found_price log none db m h = absurd (cc)
  found_price log (some payload) db m h =
      let same : (price_units (integer (pos units)) p.unit_price).0 ≡ m.micro_usd = ground arith in
      (sym (ap (units_or 0) h) ∙ same_units, sym same ∙ units_price)

  row_of-IsWritten :
      (log : Option String) (db db' : Db) (m : Metered A)
      → (row_of log db).micro_usd ≡ m.micro_usd
      → (row_of log db).from_allowance_micro_usd + (row_of log db).from_credit_micro_usd
        ≡ m.micro_usd
      → m.recorded ≡ goes_through fault
      → db' ≡ (try_record ctx.now (row_of log db) fault db).0
      → IsWritten ctx p fault m db db'
  unfolding unit_event
  row_of-IsWritten log db db' m price split said written =
      let (_, _, within) = row_splits log db in
      record {
        row = row_of log db;
        of_account = refl;
        of_client = refl;
        of_request = refl;
        metered = refl;
        row_price = price;
        split = split;
        within_allowance = within;
        said = said;
        written = written;
      }

  pub found-IsWritten :
      (log : Option String) (o : Option A) (db : Db) (m : Metered A)
      → (charge_found ctx p id fault missing units log o db).1 ≡ charged m
      → IsWritten ctx p fault m db (charge_found ctx p id fault missing units log o db).0
  unfolding meter_and_respond refuse
  found-IsWritten log none db m h = absurd (cc)
  found-IsWritten log (some payload) db m h =
      let (row_price, split, within) = row_splits log db in
      let same : (price_units (integer (pos units)) p.unit_price).0 ≡ m.micro_usd = ground arith in
      row_of-IsWritten log db _ m (row_price ∙ same) (split ∙ same)
        (sym (ap recorded_of h) ∙ try_record-flag ctx.now (row_of log db) fault db) refl

  found_charged :
      (body : Json) (log : Option String) (o : Option A) (db : Db) (m : Metered A)
      → provider_state_failed body ≡ false
      → extract body ≡ o
      → (charge_found ctx p id fault missing units log o db).1 ≡ charged m
      → IsPaid (ok body log) db (charge_found ctx p id fault missing units log o db).0 m
  unfolding meter_and_respond refuse
  found_charged body log none db m fine found h = absurd (cc)
  found_charged body log (some payload) db m fine found h =
      let (row_price, split, within) = row_splits log db in
      let same : (price_units (integer (pos units)) p.unit_price).0 ≡ m.micro_usd = ground arith in
      record {
        body = body;
        log = log;
        answered = refl;
        succeeded = fine;
        found = found ∙ ap some (ap (payload_or payload) h);
        price = sym same ∙ units_price;
        charged_units = sym (ap (units_or 0) h) ∙ same_units;
        row_price = row_price ∙ same;
        split = split ∙ same;
        within_allowance = within;
        said = sym (ap recorded_of h) ∙ try_record-flag ctx.now (row_of log db) fault db;
        written = refl;
      }

  -- A door's call that is refused costs nobody anything, whatever the runner answered and wherever
  -- the ledger write of the failure is cut off.
  pub serve-refused :
      (r : RunResult) (db : Db) (code : ErrorCode)
      → (serve ctx p id fault extract missing units r db).1 ≡ refused code
      → IsFree db (serve ctx p id fault extract missing units r db).0
  unfolding serve
  serve-refused (timeout w) db code h = refuse-IsFree "timeout" none Http.upstream_timeout db
  serve-refused unavailable db code h = unchanged-IsFree db
  serve-refused (upstream_error s) db code h =
      refuse-IsFree "upstream_error" s Http.upstream_error db
  serve-refused (ok body log) db code h = elim (Bool-cases (provider_state_failed body)) [
    | inl e ↦ rw (e, serve) (refuse-IsFree "provider_failed" (some 200) Http.upstream_error db)
    | inr e ↦ rw (e, serve) (found_refused (extract body) log db code (rw (e, serve) at h))
  ]

  -- A call that a door makes through the runner is charged only for an answer of the provider that
  -- does not say that it failed and in which the asset was found, which is what is handed on. The price
  -- is that of the units, the row that is handed to the ledger carries it, split without loss and with
  -- no more from the allowance than was left of it, and the answer says that the row was recorded
  -- exactly when its ledger write was not cut off.
  pub serve-charged :
      (r : RunResult) (db : Db) (m : Metered A)
      → (serve ctx p id fault extract missing units r db).1 ≡ charged m
      → IsPaid r db (serve ctx p id fault extract missing units r db).0 m
  unfolding serve refuse
  serve-charged (timeout w) db m h = absurd (cc)
  serve-charged unavailable db m h = absurd (cc)
  serve-charged (upstream_error s) db m h = absurd (cc)
  serve-charged (ok body log) db m h = elim (Bool-cases (provider_state_failed body)) [
    | inl e ↦ absurd (failed (rw (e, serve) at h))
    | inr e ↦ rw (e, serve) (found_charged body log (extract body) db m e refl (rw (e, serve) at h))
  ]
    where
      failed :
          (refuse ctx p id fault {A = A} "provider_failed" (some 200) Http.upstream_error db).1
            ≡ charged m
          → ⊥
      failed e = cc

  pub serve-IsWritten :
      (r : RunResult) (db : Db) (m : Metered A)
      → (serve ctx p id fault extract missing units r db).1 ≡ charged m
      → IsWritten ctx p fault m db (serve ctx p id fault extract missing units r db).0
  serve-IsWritten r db m h =
      let paid = serve-charged r db m h in
      row_of-IsWritten paid.log db _ m paid.row_price paid.split paid.said paid.written
