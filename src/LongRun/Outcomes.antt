-- ===== src/LongRun/Outcomes.antt =====
-- How a job of src/routes/longrun-workflow.ts ends.
use prism_control_plane.Prelude.{
  ℕ, suc, zero, ◌≡◌, ◌⊎◌, refl, ◌∙◌, Bool, true, false, String, Option, none, some, arith, any,
  any-append, str_eq, Bool-cases, Option-cases, inl, inr,
}
use prism_control_plane.Prelude.Json.{Json}
use prism_control_plane.Store.Schema.{Db, UsageEvent, AsyncJobRow, succeeded, failed}
use prism_control_plane.Store.Sql.{first_where-update_where, first_where-holds}
use prism_control_plane.Store.Usage.{
  event_conflicts, insert_event, advance_spent, record_usage, record_usage_upto,
}
use prism_control_plane.Store.Accounts.{get_account}
use prism_control_plane.Store.Jobs.{is_job, get_async_job, update_async_job, JobUpdate, set_job}
use prism_control_plane.NonChat.Meter.{try_record, unit_event}
use prism_control_plane.LongRun.{
  LongRunParams, step_do, Finalization, job_event, meter_job, finalize, done_update, failed_update,
  Course, fail_job, settle_run, run_asset, run, rehost_asset, invoke_model, result_json,
}
use prism_control_plane.LongRun.Steps.{AfterAttempt, AfterStep, step_do-AfterStep}
use prism_control_plane.LongRun.Charged.{
  with_jobs, Effect, untouched, written, IsJobRow, job_event-IsJobRow, is_row_of, Stands, upto-old,
  upto-new, upto-Stands, update_async_job-with_jobs, row_conflicts, own_row, meter-Effect,
}

-- No ledger row has the random id that an attempt draws.
abbrev pub IsFresh : Db → Finalization → Type 0
IsFresh db f = any (λ r. str_eq r.event.id f.event_id) db.usage_events ≡ false

write-Stands :
    (p : LongRunParams) (n now : ℕ) (e : UsageEvent) (db db' : Db)
    → IsJobRow p e
    → any (λ r. str_eq r.event.id e.id) db.usage_events ≡ false
    → Effect p db db'
    → Stands p (record_usage_upto (suc n) now e db')
write-Stands p n now e db db' i fresh (untouched jobs h) =
    rw h (upto-Stands p n now e (with_jobs jobs db) i fresh)
write-Stands p n now e db db' i fresh (written m t e0 jobs i0 h) =
    elim (Bool-cases (any (event_conflicts e0) db.usage_events)) [
      | inl old ↦
          rw h
            (rw (upto-old (suc m) t e0 db old) (upto-Stands p n now e (with_jobs jobs db) i fresh))
      | inr new ↦
          let before = record_usage_upto (suc m) t e0 db in
          let stands : Stands p before =
            rw (upto-new m t e0 db new)
              (any-append (is_row_of p) db.usage_events _ ∙ ground (arith, own_row p e0 t i0)) in
          rw h (
            rw
              (upto-old (suc n) now e (with_jobs jobs before)
                (row_conflicts p e before.usage_events i stands))
              stands)
    ]

upto-async_jobs :
    (n now : ℕ) (e : UsageEvent) (db : Db)
    → (record_usage_upto n now e db).async_jobs ≡ db.async_jobs
unfolding record_usage_upto insert_event advance_spent
upto-async_jobs zero now e db = refl
upto-async_jobs (suc zero) now e db = ground arith
upto-async_jobs (suc (suc zero)) now e db = ground arith
upto-async_jobs (suc (suc (suc n))) now e db = ground arith

-- The job of an update that finds it.
update_found :
    (u : JobUpdate) (db : Db) (row : AsyncJobRow)
    → get_async_job u.id db ≡ some row
    → get_async_job u.id (update_async_job u db) ≡ some (set_job u row row)
unfolding get_async_job update_async_job
update_found u db row h =
    let same =
      first_where-update_where (is_job u.id) (is_job u.id) (set_job u row) db.async_jobs
        (λ r. refl) in
    let mine = first_where-holds (is_job u.id) db.async_jobs row h in
    rw (h, update_async_job) (rw same (rw h (rw mine refl)))

module _ (stringify : Json → String) (p : LongRunParams) (log : Option String) (db : Db)
    (row : AsyncJobRow) (there : get_async_job p.job_id db ≡ some row) where
  -- While the job is open, its row is as it was.
  abbrev IsOpen : Db → Type 0
  IsOpen d = Effect p db d × (get_async_job p.job_id d ≡ some row)

  abbrev pub IsDone : Db → Type 0
  IsDone d =
      Stands p d
      × ((r : AsyncJobRow) × (get_async_job p.job_id d ≡ some r) × (r.status ≡ succeeded))

  meter-job :
      (f : Finalization) (d : Db)
      → get_async_job p.job_id d ≡ some row
      → get_async_job p.job_id (meter_job p log f d).0 ≡ some row
  unfolding meter_job try_record record_usage get_async_job
  meter-job f d h = elim (Option-cases (get_account p.account_id d)) [
    | inl e ↦ rw (e, meter_job) h
    | inr (account, e) ↦ rw (e, meter_job) (by_fault f.fault)
  ]
    where
      by_fault :
          (fault : Option ℕ)
          → get_async_job p.job_id (try_record f.now (job_event p log f d) fault d).0 ≡ some row
      by_fault none = rw (upto-async_jobs 3 f.now (job_event p log f d) d) h
      by_fault (some n) = rw (upto-async_jobs n f.now (job_event p log f d) d) h

  meter-Stands :
      (f : Finalization) (d : Db)
      → IsFresh db f
      → Effect p db d
      → (meter_job p log f d).1 ≡ true
      → Stands p (meter_job p log f d).0
  unfolding meter_job try_record record_usage
  meter-Stands f d fresh x h = elim (Option-cases (get_account p.account_id d)) [
    | inl e ↦ absurd (unmetered (rw (e, meter_job) at h))
    | inr (account, e) ↦ rw (e, meter_job) (by_fault f.fault (rw (e, meter_job) at h))
  ]
    where
      unmetered : false ≡ true → ⊥
      unmetered e = cc

      by_fault :
          (fault : Option ℕ)
          → (try_record f.now (job_event p log f d) fault d).1 ≡ true
          → Stands p (try_record f.now (job_event p log f d) fault d).0
      by_fault none e =
          write-Stands p 2 f.now (job_event p log f d) db d (job_event-IsJobRow p log f d)
            (unfold unit_event in fresh) x
      by_fault (some n) e = absurd (cc)

  updated-Stands : (u : JobUpdate) (d : Db) → Stands p d → Stands p (update_async_job u d)
  unfolding update_async_job
  updated-Stands u d h = rw (update_async_job-with_jobs u d) h

  module _ (asset : String × Bool) where
    finalize-IsDone :
        (k : ℕ) (f : Finalization) (d : Db)
        → IsFresh db f
        → IsOpen d
        → AfterAttempt IsOpen IsOpen (λ t u. IsDone t) (finalize stringify p asset log f d)
    unfolding finalize
    finalize-IsDone k f d fresh (x, h) =
        let d' = (meter_job p log f d).0 in
        let effect = meter-Effect stringify p asset log db f d x in
        let kept = meter-job f d h in
        elim (Bool-cases (meter_job p log f d).1) [
          | inr e ↦ rw e (effect, kept)
          | inl e ↦ elim (Bool-cases f.can_update) [
            | inr u ↦ rw e (rw u (effect, kept))
            | inl u ↦
                let result = stringify (result_json p.kind asset.0 asset.1 p.model_id f.now) in
                let update = done_update p result f.now in
                rw e (
                  rw u (
                    updated-Stands update d' (meter-Stands f d fresh x e),
                    (set_job update row row, update_found update d' row kept, refl),
                  ))
          ]
        ]

-- How a job ended: done, with its row in the ledger, or failed.
abbrev pub IsSettled : LongRunParams → Db → Type 0
IsSettled p d =
    (r : AsyncJobRow) × (get_async_job p.job_id d ≡ some r)
    × ((r.status ≡ succeeded) × Stands p d ⊎ (r.status ≡ failed))

-- A job that is stored ends, whatever its attempts meet, if its failure can be stored in case it
-- fails: it is marked as failed, or it is marked as done, and then a row of its request stands in
-- the ledger, as long as no random id of a row is one that the ledger has.
pub run_settles :
    (stringify : Json → String) (p : LongRunParams) (c : Course) (db : Db) (row : AsyncJobRow)
    (now : ℕ)
    → get_async_job p.job_id db ≡ some row
    → c.failed_at ≡ some now
    → ((i : ℕ) → IsFresh db (c.finalizations i))
    → IsSettled p (run stringify p c db)
unfolding run
run_settles stringify p c db row now there writable fresh =
    by_asset (step_do (invoke_model p) 2 c.invocations (record { made = 0; results = 0 })).1
  where
    failing : (d : Db) → get_async_job p.job_id d ≡ some row → IsSettled p (fail_job p c d)
    failing d h =
        let update = failed_update p c.detail now in
        rw writable (set_job update row row, update_found update d row h, inr refl)

    ending :
        (log : Option String) (r : Db × Option (Unit {0}))
        → AfterStep
            (IsOpen stringify p log db row there)
            (λ d u. IsDone stringify p log db row there d)
            r
        → IsSettled p (settle_run p c r)
    ending log (d, some u) (stands, found) = (found.0, found.1, inl (found.2, stands))
    ending log (d, none) (x, h) = failing d h

    by_asset :
        (found : Option (String × Option String)) → IsSettled p (run_asset stringify p c found db)
    by_asset none = failing db there
    by_asset (some (url, log)) =
        let asset = rehost_asset p.kind url c.hosted in
        ending log (step_do (finalize stringify p asset log) 4 c.finalizations db) (
          step_do-AfterStep (finalize stringify p asset log)
            (λ k. IsOpen stringify p log db row there) (IsOpen stringify p log db row there)
            (λ d u. IsDone stringify p log db row there d) (IsFresh db)
            (finalize-IsDone stringify p log db row there asset) (λ d h. h) 4 c.finalizations db
            fresh (untouched db.async_jobs refl, there))
