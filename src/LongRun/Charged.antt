-- ===== src/LongRun/Charged.antt =====
-- What a job of src/routes/longrun-workflow.ts costs.
use prism_control_plane.Prelude.{
  ℕ, suc, zero, ◌+◌, ◌≡◌, refl, ◌∙◌, Bool, true, false, ◌&&◌, String, Option, none, some, List, [],
  ◌∷◌, arith, any, any-append, str_eq, eq_refl, pos, Bool-cases, Option-cases, inl, inr,
}
use prism_control_plane.Prelude.Number.{integer}
use prism_control_plane.Prelude.Json.{Json}
use prism_control_plane.Meter.{price_units}
use prism_control_plane.Balance.Allocation.{allocate_charge_splits}
use prism_control_plane.Chat.Gates.{allowance_spent}
use prism_control_plane.Store.Schema.{Db, UsageEvent, LedgerRow, AsyncJobRow}
use prism_control_plane.Store.Usage.{
  get_period, event_conflicts, ledger_event, append_event, insert_event, advance_spent,
  record_usage, record_usage_upto,
}
use prism_control_plane.Store.Jobs.{get_async_job, update_async_job, JobUpdate}
use prism_control_plane.Store.Accounts.{get_account}
use prism_control_plane.NonChat.Meter.{unit_event, try_record}
use prism_control_plane.LongRun.{
  LongRunParams, step_do, Finalization, units_of, job_event, meter_job, finalize, done_update,
  failed_update, Course, fail_job, settle_run, run_asset, run, rehost_asset, invoke_model,
  result_json,
}
use prism_control_plane.LongRun.Steps.{AfterAttempt, AfterStep, step_do-AfterStep}

-- What a job is charged.
abbrev pub price_of : LongRunParams → ℕ
price_of p = (price_units (integer (pos (units_of p))) p.unit_price).0

-- A metered row of the job's request, for its price, split without loss.
pub record IsJobRow (p : LongRunParams) (e : UsageEvent) : Type 0 where
  pub client : e.client_id ≡ p.client_id
  pub request : e.request_id ≡ p.request_id
  pub account : e.account_id ≡ p.account_id
  pub metered : e.metered ≡ true
  pub price : e.micro_usd ≡ price_of p
  pub split : e.from_allowance_micro_usd + e.from_credit_micro_usd ≡ price_of p

-- A database with other jobs, and the same books.
abbrev pub with_jobs : List AsyncJobRow → Db → Db
with_jobs jobs db = record db { async_jobs = jobs }

-- What a run does to the books: nothing, or one ledger write, as far as it got.
pub data Effect (p : LongRunParams) (db db' : Db) : Type 0 where
  untouched : (jobs : List AsyncJobRow) → db' ≡ with_jobs jobs db → Effect p db db'
  written :
      (n now : ℕ) (e : UsageEvent) (jobs : List AsyncJobRow)
      → IsJobRow p e
      → db' ≡ with_jobs jobs (record_usage_upto (suc n) now e db)
      → Effect p db db'

pub job_event-IsJobRow :
    (p : LongRunParams) (log : Option String) (f : Finalization) (db : Db)
    → IsJobRow p (job_event p log f db)
unfolding unit_event
job_event-IsJobRow p log f db =
    let split =
      allocate_charge_splits (price_of p) (integer (pos p.monthly_included_micro_usd))
        (integer (pos (allowance_spent (get_period p.account_id f.period_key db)))) in
    record {
      client = refl;
      request = refl;
      account = refl;
      metered = refl;
      price = refl;
      split = ground (arith, split);
    }

-- A row of the job's request.
abbrev pub is_row_of : LongRunParams → LedgerRow → Bool
is_row_of p r = str_eq r.event.client_id p.client_id && str_eq r.event.request_id p.request_id

abbrev pub Stands : LongRunParams → Db → Type 0
Stands p db = any (is_row_of p) db.usage_events ≡ true

-- A ledger write sees no jobs, and touches none.
upto-with_jobs :
    (n now : ℕ) (e : UsageEvent) (jobs : List AsyncJobRow) (db : Db)
    → record_usage_upto n now e (with_jobs jobs db) ≡ with_jobs jobs (record_usage_upto n now e db)
unfolding record_usage_upto insert_event advance_spent
upto-with_jobs zero now e jobs db = refl
upto-with_jobs (suc zero) now e jobs db =
    elim (Bool-cases (any (event_conflicts e) db.usage_events)) [
      | inl h ↦ rw (h, record_usage_upto) refl
      | inr h ↦ rw (h, record_usage_upto) refl
    ]
upto-with_jobs (suc (suc zero)) now e jobs db =
    elim (Bool-cases (any (event_conflicts e) db.usage_events)) [
      | inl h ↦ rw (h, record_usage_upto) refl
      | inr h ↦ rw (h, record_usage_upto) refl
    ]
upto-with_jobs (suc (suc (suc n))) now e jobs db =
    elim (Bool-cases (any (event_conflicts e) db.usage_events)) [
      | inl h ↦ rw (h, record_usage_upto) refl
      | inr h ↦ rw (h, record_usage_upto) refl
    ]

pub update_async_job-with_jobs :
    (u : JobUpdate) (db : Db)
    → update_async_job u db ≡ with_jobs (update_async_job u db).async_jobs db
unfolding update_async_job
update_async_job-with_jobs u db = elim (Option-cases (get_async_job u.id db)) [
  | inl e ↦ rw (e, update_async_job) refl
  | inr (old, e) ↦ rw (e, update_async_job) refl
]

pub upto-old :
    (n now : ℕ) (e : UsageEvent) (db : Db)
    → any (event_conflicts e) db.usage_events ≡ true
    → record_usage_upto n now e db ≡ db
unfolding record_usage_upto insert_event
upto-old zero now e db h = refl
upto-old (suc zero) now e db h = rw (h, record_usage_upto) refl
upto-old (suc (suc zero)) now e db h = rw (h, record_usage_upto) refl
upto-old (suc (suc (suc n))) now e db h = rw (h, record_usage_upto) refl

pub row_conflicts :
    (p : LongRunParams) (e : UsageEvent) (t : List LedgerRow)
    → IsJobRow p e
    → any (is_row_of p) t ≡ true
    → any (event_conflicts e) t ≡ true
row_conflicts p e [] i h = cc
row_conflicts p e (r ∷ t) i h = ground (arith, i.client, i.request, row_conflicts p e t i)

conflicting_row :
    (p : LongRunParams) (e : UsageEvent) (t : List LedgerRow)
    → IsJobRow p e
    → any (λ r. str_eq r.event.id e.id) t ≡ false
    → any (event_conflicts e) t ≡ true
    → any (is_row_of p) t ≡ true
conflicting_row p e [] i f h = cc
conflicting_row p e (r ∷ t) i f h = ground (arith, i.client, i.request, conflicting_row p e t i)

pub own_row :
    (p : LongRunParams) (e : UsageEvent) (now : ℕ)
    → IsJobRow p e
    → is_row_of p (record { event = ledger_event e; created_at = now }) ≡ true
own_row p e now i =
    rw (i.client, i.request) (ground (arith, eq_refl p.client_id, eq_refl p.request_id))

pub upto-new :
    (n now : ℕ) (e : UsageEvent) (db : Db)
    → any (event_conflicts e) db.usage_events ≡ false
    → (record_usage_upto (suc n) now e db).usage_events ≡ (append_event now e db).usage_events
unfolding record_usage_upto insert_event advance_spent
upto-new zero now e db h = rw (h, record_usage_upto) refl
upto-new (suc zero) now e db h = rw (h, record_usage_upto) refl
upto-new (suc (suc n)) now e db h = rw (h, record_usage_upto) refl

-- A write that has run its first statement leaves a row of the request, unless the row's random id
-- was taken.
pub upto-Stands :
    (p : LongRunParams) (n now : ℕ) (e : UsageEvent) (db : Db)
    → IsJobRow p e
    → any (λ r. str_eq r.event.id e.id) db.usage_events ≡ false
    → Stands p (record_usage_upto (suc n) now e db)
upto-Stands p n now e db i f = elim (Bool-cases (any (event_conflicts e) db.usage_events)) [
  | inl old ↦ rw (upto-old (suc n) now e db old) (conflicting_row p e db.usage_events i f old)
  | inr new ↦
      rw (upto-new n now e db new)
        (any-append (is_row_of p) db.usage_events _ ∙ ground (arith, own_row p e now i))
]

-- The write of an attempt on books that are as they were.
first_write :
    (p : LongRunParams) (n now : ℕ) (e : UsageEvent) (jobs : List AsyncJobRow) (db : Db)
    → IsJobRow p e
    → Effect p db (record_usage_upto n now e (with_jobs jobs db))
unfolding record_usage_upto
first_write p zero now e jobs db i = untouched jobs refl
first_write p (suc n) now e jobs db i =
    written n now e jobs i (upto-with_jobs (suc n) now e jobs db)

-- The write of an attempt on books that an earlier one has left.
write-Effect :
    (p : LongRunParams) (n now : ℕ) (e : UsageEvent) (db db' : Db)
    → IsJobRow p e
    → Effect p db db'
    → Effect p db (record_usage_upto n now e db')
write-Effect p n now e db db' i (untouched jobs h) = rw h (first_write p n now e jobs db i)
write-Effect p n now e db db' i (written m t e0 jobs i0 h) =
    elim (Bool-cases (any (event_conflicts e0) db.usage_events)) [
      | inl old ↦ rw h (rw (upto-old (suc m) t e0 db old) (first_write p n now e jobs db i))
      | inr new ↦
          let before = record_usage_upto (suc m) t e0 db in
          let stands : Stands p before =
            rw (upto-new m t e0 db new)
              (any-append (is_row_of p) db.usage_events _ ∙ ground (arith, own_row p e0 t i0)) in
          rw h (
            rw
              (upto-old n now e (with_jobs jobs before)
                (row_conflicts p e before.usage_events i stands))
              (written m t e0 jobs i0 refl))
    ]

update-Effect :
    (p : LongRunParams) (u : JobUpdate) (db db' : Db)
    → Effect p db db'
    → Effect p db (update_async_job u db')
update-Effect p u db db' (untouched jobs h) =
    untouched (update_async_job u db').async_jobs (update_async_job-with_jobs u db' ∙ rw h refl)
update-Effect p u db db' (written n now e jobs i h) =
    written n now e (update_async_job u db').async_jobs i
      (update_async_job-with_jobs u db' ∙ rw h refl)

module _ (stringify : Json → String) (p : LongRunParams) (asset : String × Bool)
    (log : Option String) (db : Db) where
  pub meter-Effect :
      (f : Finalization) (db' : Db) → Effect p db db' → Effect p db (meter_job p log f db').0
  unfolding meter_job try_record record_usage
  meter-Effect f db' x = elim (Option-cases (get_account p.account_id db')) [
    | inl e ↦ rw (e, meter_job) x
    | inr (account, e) ↦ rw (e, meter_job) (by_fault f.fault)
  ]
    where
      by_fault :
          (fault : Option ℕ) → Effect p db (try_record f.now (job_event p log f db') fault db').0
      by_fault none =
          write-Effect p 3 f.now (job_event p log f db') db db' (job_event-IsJobRow p log f db') x
      by_fault (some n) =
          write-Effect p n f.now (job_event p log f db') db db' (job_event-IsJobRow p log f db') x

  finalize-Effect :
      (k : ℕ) (f : Finalization) (db' : Db)
      → Effect p db db'
      → AfterAttempt
          (Effect p db)
          (Effect p db)
          (λ d u. Effect p db d)
          (finalize stringify p asset log f db')
  unfolding finalize
  finalize-Effect k f db' x =
      let metered = meter-Effect f db' x in
      elim (Bool-cases (meter_job p log f db').1) [
        | inr e ↦ rw e metered
        | inl e ↦ elim (Bool-cases f.can_update) [
          | inl u ↦
              let result = stringify (result_json p.kind asset.0 asset.1 p.model_id f.now) in
              rw e (
                rw u (
                  update-Effect p (done_update p result f.now) db (meter_job p log f db').0
                    metered))
          | inr u ↦ rw e (rw u metered)
        ]
      ]

module _ (p : LongRunParams) (c : Course) where
  fail-Effect : (db db' : Db) → Effect p db db' → Effect p db (fail_job p c db')
  fail-Effect db db' x = elim (Option-cases c.failed_at) [
    | inl e ↦ rw e x
    | inr (now, e) ↦ rw e (update-Effect p (failed_update p c.detail now) db db' x)
  ]

  settle-Effect :
      (db : Db) (r : Db × Option (Unit {0}))
      → AfterStep (Effect p db) (λ d u. Effect p db d) r
      → Effect p db (settle_run p c r)
  settle-Effect db (d, some u) x = x
  settle-Effect db (d, none) x = fail-Effect db d x

  run_asset-Effect :
      (stringify : Json → String) (found : Option (String × Option String)) (db : Db)
      → Effect p db (run_asset stringify p c found db)
  run_asset-Effect stringify none db = fail-Effect db db (untouched db.async_jobs refl)
  run_asset-Effect stringify (some (url, log)) db =
      let asset = rehost_asset p.kind url c.hosted in
      settle-Effect db (step_do (finalize stringify p asset log) 4 c.finalizations db) (
        step_do-AfterStep (finalize stringify p asset log) (λ k. Effect p db) (Effect p db)
          (λ d u. Effect p db d) (λ f. Unit)
          (λ k f d m. finalize-Effect stringify p asset log db k f d) (λ d x. x) 4 c.finalizations
          db (λ i. tt) (untouched db.async_jobs refl))

-- Whatever the attempts of a job's run meet, the books after it are those before, or those after one
-- single ledger write, whole or cut off after some statement: a metered row of the job's request,
-- for the price of its units, which is split over allowance and credit without loss. So a job is
-- never charged twice, however often its last step is tried.
pub run-Effect :
    (stringify : Json → String) (p : LongRunParams) (c : Course) (db : Db)
    → Effect p db (run stringify p c db)
unfolding run
run-Effect stringify p c db =
    run_asset-Effect p c stringify
      (step_do (invoke_model p) 2 c.invocations (record { made = 0; results = 0 })).1 db
