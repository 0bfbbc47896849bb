-- ===== src/NonChat/Context.antt =====
-- What the doors of src/routes/nonchat.ts are given, and the start of a job, `startAsyncLongRun`.
use prism_control_plane.Prelude.{ℕ, ℤ, Bool, true, false, ◌||◌, String, Option, none, some}
use prism_control_plane.Prelude.Number.{Number}
use prism_control_plane.Prelude.Strings.{starts_with, is_empty}
use prism_control_plane.Prelude.Json.{Json}
use prism_control_plane.Http.{ErrorCode, ReadBodyResult, invalid_request}
use prism_control_plane.Http as Http
use prism_control_plane.Store.Schema.{Db, AsyncJobRow, AsyncJobKind, running, failed}
use prism_control_plane.Store.Jobs.{create_async_job, update_async_job}
use prism_control_plane.Jobs.{wants_async}
use prism_control_plane.LongRun.{LongRunParams}
use prism_control_plane.Chat.Context.{Ctx}
use prism_control_plane.NonChat.Assets.{else_try}
use prism_control_plane.NonChat.Gates.{Passed, require_string}
use prism_control_plane.NonChat.Meter.{RunResult, Answer, refused, serve}

-- What a door asks of the runner.
pub record DoorCall : Type 0 where
  pub prompt : String
  pub image_url : Option String
  pub voice : Option String
  pub lyrics : Option String
  pub duration : ℕ

abbrev pub plain_call : String → DoorCall
plain_call prompt = record {
  prompt = prompt;
  image_url = none;
  voice = none;
  lyrics = none;
  duration = 0;
}

-- What a door is given: the runner; the AI binding, which may throw; the workflows binding, and
-- whether it takes the job; the link to a film that the provider stores with us, where the store
-- is configured, whether it is there in time or late; a copy of a song; the header Prefer; what
-- is drawn; and where the ledger write fails, if it does.
pub record Env : Type 0 where
  pub run : Passed → DoorCall → RunResult
  pub binding : Option (Passed → String → Option Json)
  pub start : Option (LongRunParams → Bool)
  pub film_link : Option String
  pub is_ready : Bool
  pub is_late : Bool
  pub rehost : String → Option String
  pub round : Number → ℤ
  pub prefer : Option String
  pub start_problem : String
  pub row_id : String
  pub job_id : String
  pub fault : Option ℕ

-- What a door answers: at once, or with a job.
pub data DoorAnswer (A : Type 0) : Type 0 where
  answered : Answer A → DoorAnswer A
  accepted : AsyncJobRow → DoorAnswer A

abbrev pub at_once : {A : Type 0} → Db × Answer A → Db × DoorAnswer A
at_once (db, answer) = (db, answered answer)

-- `https?://`
abbrev pub is_link : String → Bool
is_link s = starts_with "https://" s || starts_with "http://" s

-- `s.includes(part)`
abbrev pub includes : String → String → Bool
includes part String.[] = is_empty part
includes part (String.◌∷◌ c s) =
    let later = includes part s in starts_with part (String.◌∷◌ c s) || later

module _ (ctx : Ctx) (env : Env) (p : Passed) where
  abbrev pub bad_request : {A : Type 0} → Db → Db × DoorAnswer A
  bad_request db = (db, answered (refused invalid_request))

  abbrev pub new_job : AsyncJobKind → AsyncJobRow
  new_job kind = record {
    id = env.job_id;
    account_id = p.account.id;
    client_id = p.client.id;
    kind = kind;
    model_id = p.model.id;
    status = running;
    result_json = none;
    error_code = none;
    error_detail = none;
    request_id = ctx.request_id;
    created_at = ctx.now;
    updated_at = ctx.now;
  }

  abbrev pub failed_start : Db → Db
  failed_start db =
      update_async_job
        (record {
          id = env.job_id;
          status = failed;
          result_json = none;
          error_code = some (some "unavailable");
          error_detail = some (some env.start_problem);
          updated_at = ctx.now;
        })
        db

  abbrev pub launched : {A : Type 0} → AsyncJobKind → Bool → Db → Db × DoorAnswer A
  launched kind true db = (db, accepted (new_job kind))
  launched kind false db = (failed_start db, answered (refused Http.unavailable))

  -- What the workflow is given of a job, so that it can charge for it.
  abbrev pub job_params : AsyncJobKind → ℕ → LongRunParams
  job_params kind billable_units = record {
    job_id = env.job_id;
    kind = kind;
    model_id = p.model.id;
    account_id = p.account.id;
    client_id = p.client.id;
    request_id = ctx.request_id;
    unit_price = p.unit_price;
    billable_units = some billable_units;
    monthly_included_micro_usd = p.plan.monthly_included_micro_usd;
  }

  abbrev pub start_by :
      {A : Type 0} → AsyncJobKind → ℕ → Option (LongRunParams → Bool) → Db → Db × DoorAnswer A
  start_by kind units none db = (db, answered (refused Http.unavailable))
  start_by kind units (some start) db =
      launched kind (start (job_params kind units)) (create_async_job (new_job kind) db)

  -- `startAsyncLongRun`
  unfoldable pub start_async_long_run : {A : Type 0} → AsyncJobKind → ℕ → Db → Db × DoorAnswer A
  unfolding create_async_job update_async_job
  start_async_long_run kind units db = start_by kind units env.start db

  -- The steps of a door from its call on.
  abbrev pub call_for :
      {A : Type 0} → DoorCall → (Json → Option A) → String → ℕ → Db → Db × DoorAnswer A
  call_for call extract missing units db =
      at_once (serve ctx p env.row_id env.fault extract missing units (env.run p call) db)

  abbrev pub is_async : Bool
  is_async = wants_async env.prefer p.body

  abbrev pub reference_image : Option String
  reference_image = else_try (require_string "image" p.body) (require_string "image_url" p.body)
