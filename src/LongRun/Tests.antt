-- ===== src/LongRun/Tests.antt =====
-- The results of LongRun at a song whose first ledger write is cut off.
use prism_control_plane.Prelude.{ℕ, suc, zero, ◌≡◌, refl, true, String, none, some, [], ◌∷◌}
use prism_control_plane.Prelude.Json.{Json, str, obj, end, field}
use prism_control_plane.Catalog.{request}
use prism_control_plane.Store.Schema.{Db, AsyncJobRow, music, running}
use prism_control_plane.Store.Sql.{first_where}
use prism_control_plane.Store.Jobs.{get_async_job}
use prism_control_plane.NonChat.Meter.{ok, upstream_error}
use prism_control_plane.Chat.Sample.{db}
use prism_control_plane.LongRun.{
  LongRunParams, Invocation, Calls, Finalization, Course, step_do, invoke_model, run,
}
use prism_control_plane.LongRun.Steps.{IsCalledOnce, invoke_model-IsCalledOnce}
use prism_control_plane.LongRun.Charged.{Effect, run-Effect}
use prism_control_plane.LongRun.Outcomes.{IsFresh, IsSettled, run_settles}

abbrev song : LongRunParams
song = record {
  job_id = "job_1";
  kind = music;
  model_id = "s";
  account_id = "acct_1";
  client_id = "cli_1";
  request_id = "req_1";
  unit_price = record { micro_usd_per_unit = 40; unit = request; priced_at = "2026-08-01" };
  billable_units = none;
  monthly_included_micro_usd = 10;
}

abbrev row : AsyncJobRow
row = record {
  id = "job_1";
  account_id = "acct_1";
  client_id = "cli_1";
  kind = music;
  model_id = "s";
  status = running;
  result_json = none;
  error_code = none;
  error_detail = none;
  request_id = "req_1";
  created_at = 10;
  updated_at = 10;
}

abbrev stored : Db
stored = record db { async_jobs = row ∷ [] }

abbrev found : Invocation
found = record {
  is_ready = true;
  answer = ok (obj (field "audio" (str "https://a/b.mp3") end)) none;
  stored = none;
  arrived = none;
}

-- The first call fails, the second one answers.
abbrev invocations : ℕ → Invocation
invocations zero = record found { answer = upstream_error (some 503) }
invocations (suc n) = found

abbrev finalization : Finalization
finalization = record {
  now = 80;
  period_key = "2026-08";
  event_id = "use_1";
  fault = none;
  can_update = true;
}

abbrev finalizations : ℕ → Finalization
finalizations zero = record finalization { fault = some 1 }
finalizations (suc n) = finalization

abbrev course : Course
course = record {
  invocations = invocations;
  hosted = none;
  finalizations = finalizations;
  failed_at = some 90;
  detail = "it failed";
}

abbrev stringify : Json → String
stringify j = "{}"

abbrev no_calls : Calls
no_calls = record { made = 0; results = 0 }

invoke_model-IsCalledOnce_example :
    IsCalledOnce (step_do (invoke_model song) 2 invocations no_calls).0
invoke_model-IsCalledOnce_example = invoke_model-IsCalledOnce song invocations

run-Effect_example : Effect song stored (run stringify song course stored)
run-Effect_example = run-Effect stringify song course stored

there : get_async_job "job_1" stored ≡ some row
unfolding get_async_job first_where
there = refl

fresh : (i : ℕ) → IsFresh stored (finalizations i)
fresh zero = refl
fresh (suc n) = refl

run_settles_example : IsSettled song (run stringify song course stored)
run_settles_example = run_settles stringify song course stored row 90 there refl fresh
