-- ===== src/LongRun.antt =====
-- src/routes/longrun-workflow.ts: a long-running job as a durable workflow of three steps. The
-- runtime is that of Cloudflare Workflows, of which the code relies on what is documented: the body
-- of a step runs again after an exception, up to its limit of retries, but not after one that is
-- marked as not retryable, and what it returned is kept. What each attempt meets, be it an answer of
-- the provider or a failing store, is an argument.
pub mod Steps
pub mod Charged
pub mod Outcomes
mod Tests
use Prim.Native.String
use prism_control_plane.Prelude.{
  ℕ, suc, zero, ◌+◌, max, Bool, true, false, ◌||◌, not, String, Option, none, some, pos, negsuc,
  if◌then◌else◌, or_else,
}
use prism_control_plane.Prelude.Number.{integer}
use prism_control_plane.Prelude.Strings.{starts_with, is_empty}
use prism_control_plane.Prelude.Json.{Json, bool, num, str, arr, obj, nil, cons, end, field}
use prism_control_plane.Catalog.{UnitPrice}
use prism_control_plane.Meter.{price_units}
use prism_control_plane.Store.Schema.{
  Db, UsageEvent, AsyncJobKind, AsyncJobStatus, succeeded, failed,
}
use prism_control_plane.Store.Schema as Schema
use prism_control_plane.Store.Accounts.{get_account}
use prism_control_plane.Store.Jobs.{update_async_job, JobUpdate}
use prism_control_plane.NonChat.Meter.{
  RunResult, ok, upstream_error, timeout, unavailable, UnitCharge, unit_event, try_record,
}
use prism_control_plane.NonChat.Assets.{
  provider_state_failed, ImageAsset, inline, link, extract_image_asset, extract_audio_base64,
  extract_asset, filled,
}

-- `PlaneLongRunParams`, what the steps read of it
pub record LongRunParams : Type 0 where
  pub job_id : String
  pub kind : AsyncJobKind
  pub model_id : String
  pub account_id : String
  pub client_id : String
  pub request_id : String
  pub unit_price : UnitPrice
  pub billable_units : Option ℕ
  pub monthly_included_micro_usd : ℕ

-- An attempt at a step: its body returned, threw, or threw for good.
pub data Attempt (A : Type 0) : Type 0 where
  returned : A → Attempt A
  threw : Attempt A
  threw_for_good : Attempt A

-- `step.do` with so many attempts, on a state that the attempts leave behind.
module _ {E S A : Type 0} (body : E → S → S × Attempt A) where
  abbrev pub after_attempt : (S → S × Option A) → S × Attempt A → S × Option A
  after_attempt again (s, returned a) = (s, some a)
  after_attempt again (s, threw_for_good) = (s, none)
  after_attempt again (s, threw) = again s

  unfoldable pub step_do : ℕ → (ℕ → E) → S → S × Option A
  step_do zero env s = (s, none)
  step_do (suc n) env s = after_attempt (step_do n (λ i. env (suc i))) (body (env 0) s)

-- What an attempt at `invoke-model` meets: whether everything is configured and staged, the runner's
-- answer, the link that a stored result gets, where storing it goes well, and the link of a film
-- that the provider puts into the store itself.
pub record Invocation : Type 0 where
  pub is_ready : Bool
  pub answer : RunResult
  pub stored : Option String
  pub arrived : Option String

abbrev pub or_for_good : Option String → Attempt String
or_for_good none = threw_for_good
or_for_good (some url) = returned url

-- A result that is put into the store first; there is nothing to put where it has no payload.
abbrev pub stored_asset : Option String → Option String → Attempt String
stored_asset none url = threw_for_good
stored_asset (some payload) url = or_for_good url

abbrev pub stored_image : Option ImageAsset → Option String → Attempt String
stored_image none url = threw_for_good
stored_image (some (inline payload)) url = or_for_good url
stored_image (some (link found)) url = returned found

-- The link to the asset of an answer, by the kind of the job.
abbrev pub asset_of : AsyncJobKind → Invocation → Json → Attempt String
asset_of Schema.speech i body = stored_asset (filled (extract_audio_base64 body)) i.stored
asset_of Schema.image i body = stored_image (extract_image_asset body) i.stored
asset_of Schema.music i body = or_for_good (extract_asset "audio" body)
asset_of Schema.video i body = elim i.arrived [
  | some url ↦ returned url
  | none ↦ or_for_good (extract_asset "video" body)
]

abbrev pub with_log : Option String → Attempt String → Attempt (String × Option String)
with_log log (returned url) = returned (url, log)
with_log log threw = threw
with_log log threw_for_good = threw_for_good

abbrev pub read_answer : AsyncJobKind → Invocation → RunResult → Attempt (String × Option String)
read_answer kind i (ok body log) =
    if provider_state_failed body then threw else with_log log (asset_of kind i body)
read_answer kind i (upstream_error status) = threw
read_answer kind i (timeout waited_ms) = threw
read_answer kind i unavailable = threw

-- How often the provider was called, and how often it answered with a result. A call that timed out or
-- failed upstream may have been billed by the provider as well, which is not counted here.
pub record Calls : Type 0 where
  pub made : ℕ
  pub results : ℕ

abbrev pub is_result : RunResult → Bool
is_result (ok body log) = not (provider_state_failed body)
is_result _ = false

-- The body of `invoke-model`
unfoldable pub invoke_model :
    LongRunParams → Invocation → Calls → Calls × Attempt (String × Option String)
unfolding provider_state_failed extract_image_asset extract_audio_base64 extract_asset
invoke_model p i calls =
    if i.is_ready
    then (
      record {
        made = calls.made + 1;
        results = calls.results + (if is_result i.answer then 1 else 0);
      },
      read_answer p.kind i i.answer,
    )
    else (calls, threw)

-- `looksLikeHttpUrl`
abbrev pub looks_like_http_url : String → Bool
looks_like_http_url s = starts_with "https://" s || starts_with "http://" s

abbrev pub is_rehosted_kind : AsyncJobKind → Bool
is_rehosted_kind Schema.music = true
is_rehosted_kind Schema.image = true
is_rehosted_kind _ = false

abbrev pub is_stored_already : AsyncJobKind → String → Bool
is_stored_already Schema.speech url = true
is_stored_already Schema.image url = not (looks_like_http_url url)
is_stored_already _ url = false

-- The body of `rehost-asset`, which throws nothing: the link, and whether it is to our own store.
-- `hosted` is the link there, if the copy went well.
abbrev pub rehost_asset : AsyncJobKind → String → Option String → String × Bool
rehost_asset kind url none = (url, is_stored_already kind url)
rehost_asset kind url (some hosted) =
    if is_rehosted_kind kind
    then (if looks_like_http_url url then (hosted, true) else (url, is_stored_already kind url))
    else (url, is_stored_already kind url)

-- What an attempt at `finalize` meets: the time, the billing period and the row's id, the statement
-- of the ledger write after which it fails, if it does, and whether the job's row can be written.
pub record Finalization : Type 0 where
  pub now : ℕ
  pub period_key : String
  pub event_id : String
  pub fault : Option ℕ
  pub can_update : Bool

-- `Math.max(1, Math.floor(p.billableUnits ?? 1))`
abbrev pub units_of : LongRunParams → ℕ
units_of p = max 1 (or_else p.billable_units 1)

-- The metered row of `meterJob`.
abbrev pub job_charge : LongRunParams → String → Option String → UnitCharge
job_charge p period_key log = record {
  request_id = p.request_id;
  account_id = p.account_id;
  client_id = p.client_id;
  model_id = p.model_id;
  period_key = period_key;
  micro_usd = (price_units (integer (pos (units_of p))) p.unit_price).0;
  monthly_included_micro_usd = p.monthly_included_micro_usd;
  upstream_status = some 200;
  gateway_log_id = log;
}

abbrev pub job_event : LongRunParams → Option String → Finalization → Db → UsageEvent
job_event p log f db = unit_event f.event_id (job_charge p f.period_key log) db

-- `meterJob`: whether it returned.
unfoldable pub meter_job : LongRunParams → Option String → Finalization → Db → Db × Bool
unfolding unit_event try_record get_account price_units
meter_job p log f db = elim (get_account p.account_id db) [
  | none ↦ (db, false)
  | some account ↦ try_record f.now (job_event p log f db) f.fault db
]

-- `result_json`, before it is printed; `now` is in seconds.
abbrev pub result_json : AsyncJobKind → String → Bool → String → ℕ → Json
result_json Schema.music url rehosted model now =
    obj (field "audio" (str url) (field "rehosted" (bool rehosted) (field "model" (str model) end)))
result_json Schema.speech url rehosted model now =
    obj (field "audio" (str url) (field "format" (str "mp3") (field "model" (str model) end)))
result_json Schema.image url rehosted model now = obj (
    field "created" (num (integer (pos now))) (
      field "data" (arr (cons (obj (field "url" (str url) end)) nil))
        (field "model" (str model) (field "rehosted" (bool rehosted) end))))
result_json Schema.video url rehosted model now =
    obj (field "video" (str url) (field "model" (str model) end))

-- What is stored of a job that is done, and of one that failed.
abbrev pub done_update : LongRunParams → String → ℕ → JobUpdate
done_update p result now = record {
  id = p.job_id;
  status = succeeded;
  result_json = some (some result);
  error_code = some none;
  error_detail = some none;
  updated_at = now;
}

abbrev pub failed_update : LongRunParams → String → ℕ → JobUpdate
failed_update p detail now = record {
  id = p.job_id;
  status = failed;
  result_json = none;
  error_code = some (some "upstream_error");
  error_detail = some (some detail);
  updated_at = now;
}

-- The body of `finalize`: meter, then mark the job as done. `stringify` prints the result.
unfoldable pub finalize :
    (Json → String)
    → LongRunParams
    → String × Bool
    → Option String
    → Finalization
    → Db
    → Db × Attempt (Unit {0})
unfolding meter_job update_async_job
finalize stringify p (url, rehosted) log f db =
    let (db', metered) = meter_job p log f db in
    let result = stringify (result_json p.kind url rehosted p.model_id f.now) in
    if metered
    then (if f.can_update
        then (update_async_job (done_update p result f.now) db', returned tt)
        else (db', threw))
    else (db', threw)

-- What a whole run meets; `failed_at` is when its failure can be stored, if it can.
pub record Course : Type 0 where
  pub invocations : ℕ → Invocation
  pub hosted : Option String
  pub finalizations : ℕ → Finalization
  pub failed_at : Option ℕ
  pub detail : String

-- `failJob`
abbrev pub fail_job : LongRunParams → Course → Db → Db
fail_job p c db = elim c.failed_at [
  | none ↦ db
  | some now ↦ update_async_job (failed_update p c.detail now) db
]

-- The end of a run, by what its last step gave.
abbrev pub settle_run : LongRunParams → Course → Db × Option (Unit {0}) → Db
settle_run p c (db, some done) = db
settle_run p c (db, none) = fail_job p c db

abbrev pub run_asset :
    (Json → String) → LongRunParams → Course → Option (String × Option String) → Db → Db
run_asset stringify p c none db = fail_job p c db
run_asset stringify p c (some (url, log)) db =
    settle_run p c
      (step_do (finalize stringify p (rehost_asset p.kind url c.hosted) log) 4 c.finalizations db)

-- `run`: two attempts at the call, and four at the end.
unfoldable pub run : (Json → String) → LongRunParams → Course → Db → Db
unfolding invoke_model finalize
run stringify p c db =
    let calls : Calls = record { made = 0; results = 0 } in
    run_asset stringify p c (step_do (invoke_model p) 2 c.invocations calls).1 db
