-- ===== src/Jobs/Tests.antt =====
-- The results of Jobs at one client with a job that is done and one that is not.
use prism_control_plane.Prelude.{◌≡◌, refl, true, String, Option, none, some, List, [], ◌∷◌}
use prism_control_plane.Prelude.Number.{Number, nan}
use prism_control_plane.Prelude.Text.{codes, trim, to_lower, break_at}
use prism_control_plane.Prelude.Json.{Json, str}
use prism_control_plane.Store.Schema.{Db, AsyncJobRow, video, music, running, succeeded}
use prism_control_plane.Store.Sql.{first_where}
use prism_control_plane.Store.Accounts.{get_account, get_plan}
use prism_control_plane.Store.Jobs.{get_async_job, list_async_jobs_by_client}
use prism_control_plane.Auth.{
  Caller, resolve_client, parse_client_key, is_key_id, is_secret, get_client_by_key_id,
  constant_time_equal, bearer_from_request,
}
use prism_control_plane.Auth as Auth
use prism_control_plane.Chat.Context.{Ctx}
use prism_control_plane.Chat.Sample.{client, account, dev_row, auth, db, header}
use prism_control_plane.Jobs.{
  match_job_path, JobSummary, job_summary_to_wire, listed, handle_get_job, handle_list_jobs,
  require_caller, wants_async,
}
use prism_control_plane.Jobs.Owner.{
  ShowsTo, handle_get_job-Shows, IsListed, handle_list_jobs-IsListed,
}

abbrev ctx : Ctx
ctx = record {
  sha256_hex = λ s. s;
  atob = λ s. some s;
  print_number = λ x. "a number";
  to_text = λ j. "[object Object]";
  catalog = [];
  has_runner = true;
  credentials = some (λ account_id. some auth);
  request_id = "req_1";
  period_key = "2026-08";
  now = 70;
}

abbrev film : AsyncJobRow
film = record {
  id = "job_1";
  account_id = "acct_1";
  client_id = "cli_1";
  kind = video;
  model_id = "v";
  status = succeeded;
  result_json = some "{}";
  error_code = none;
  error_detail = none;
  request_id = "req_0";
  created_at = 10;
  updated_at = 20;
}

abbrev song : AsyncJobRow
song = record film { id = "job_2"; kind = music; status = running; created_at = 30 }

abbrev stored : Db
stored = record db { async_jobs = film ∷ song ∷ [] }

abbrev caller : Caller
caller = record { client = client; account = account; plan = dev_row }

knows : resolve_client ctx.sha256_hex header stored ≡ Auth.ok caller
unfolding resolve_client bearer_from_request trim to_lower parse_client_key break_at is_key_id
    is_secret get_client_by_key_id first_where constant_time_equal get_account get_plan
knows = refl

abbrev parse_json : String → Option Json
parse_json s = some (str s)

handle_get_job-Shows_example :
    ShowsTo parse_json
      (resolve_client ctx.sha256_hex header stored)
      (handle_get_job ctx parse_json header "job_1" stored).1
      (get_async_job "job_1" stored)
handle_get_job-Shows_example = handle_get_job-Shows ctx parse_json header "job_1" stored

abbrev page : List JobSummary
page = job_summary_to_wire song ∷ job_summary_to_wire film ∷ []

abbrev to_number : String → Number
to_number s = nan

lists : (handle_list_jobs ctx to_number header none none stored).1 ≡ listed page
unfolding handle_list_jobs require_caller resolve_client bearer_from_request trim to_lower
    parse_client_key break_at is_key_id is_secret get_client_by_key_id first_where
    constant_time_equal get_account get_plan list_async_jobs_by_client
lists = refl

handle_list_jobs-IsListed_example : IsListed ctx to_number header none none stored page
handle_list_jobs-IsListed_example =
    handle_list_jobs-IsListed ctx to_number header none none stored page lists

reads_path : match_job_path (codes "/v1/jobs/job_1") ≡ some (codes "job_1")
unfolding match_job_path
reads_path = refl

reads_header : wants_async (some "wait=5, Respond-Async") (str "") ≡ true
unfolding wants_async to_lower
reads_header = refl
