-- ===== src/Jobs.antt =====
-- src/routes/jobs.ts: the list of a client's jobs and the poll of one, with `requireCaller` of
-- src/routes/shared.ts. `Number` of a text and `JSON.parse` are arguments.
pub mod Owner
mod Tests
use prism_control_plane.Prelude.{
  ℕ, Bool, true, false, ◌&&◌, ◌||◌, not, String, Option, none, some, List, [], ◌∷◌, map, leb, ◌==◌,
  str_eq, if◌then◌else◌, or_else, pos,
}
use prism_control_plane.Prelude.Number.{Number, integer}
use prism_control_plane.Prelude.Json.{Json, bool, member}
use prism_control_plane.Prelude.Text.{codes, to_lower}
use prism_control_plane.Prelude.Strings.{is_empty}
use prism_control_plane.Http.{ErrorCode, not_found, invalid_request}
use prism_control_plane.Store.Schema.{
  Db, AsyncJobRow, AsyncJobKind, AsyncJobStatus, queued, running, succeeded, failed,
}
use prism_control_plane.Store.Clients.{touch_client}
use prism_control_plane.Store.Jobs.{get_async_job, list_async_jobs_by_client}
use prism_control_plane.Auth.{Caller, ResolveResult, resolve_client}
use prism_control_plane.Auth as Auth
use prism_control_plane.Chat.Context.{Ctx, auth_failure_code}
use prism_control_plane.Chat.Gates.{Gate, pass, stop}

-- `[A-Za-z0-9_-]`
abbrev pub is_job_char : ℕ → Bool
is_job_char c =
    (leb b'a' c && leb c b'z')
    || (leb b'A' c && leb c b'Z')
    || (leb b'0' c && leb c b'9')
    || c == b'_'
    || c == b'-'

abbrev pub all_job_chars : List ℕ → Bool
all_job_chars [] = true
all_job_chars (c ∷ s) = is_job_char c && all_job_chars s

abbrev pub after_prefix : List ℕ → List ℕ → Option (List ℕ)
after_prefix [] s = some s
after_prefix (c ∷ p) [] = none
after_prefix (c ∷ p) (d ∷ s) = let rest = after_prefix p s in if c == d then rest else none

abbrev pub job_id_of : Option (List ℕ) → Option (List ℕ)
job_id_of none = none
job_id_of (some []) = none
job_id_of (some (c ∷ s)) = if all_job_chars (c ∷ s) then some (c ∷ s) else none

-- `matchJobPath`
unfoldable pub match_job_path : List ℕ → Option (List ℕ)
match_job_path path = job_id_of (after_prefix (codes "/v1/jobs/") path)

-- `jobToWire`, with the error of a job that failed
pub record JobWire : Type 0 where
  pub id : String
  pub kind : AsyncJobKind
  pub model : String
  pub status : AsyncJobStatus
  pub created_at : ℕ
  pub updated_at : ℕ
  pub result : Option Json
  pub problem : Option (String × String)

abbrev pub problem_of : AsyncJobRow → AsyncJobStatus → Option (String × String)
problem_of job failed =
    some (or_else job.error_code "internal", or_else job.error_detail "Job failed.")
problem_of job _ = none

abbrev pub result_of : (String → Option Json) → Option String → Option Json
result_of parse_json none = none
result_of parse_json (some s) = if is_empty s then none else parse_json s

unfoldable pub job_to_wire : (String → Option Json) → AsyncJobRow → JobWire
job_to_wire parse_json job = record {
  id = job.id;
  kind = job.kind;
  model = job.model_id;
  status = job.status;
  created_at = job.created_at;
  updated_at = job.updated_at;
  result = result_of parse_json job.result_json;
  problem = problem_of job job.status;
}

-- `jobSummaryToWire`
pub record JobSummary : Type 0 where
  pub id : String
  pub kind : AsyncJobKind
  pub model : String
  pub status : AsyncJobStatus
  pub created_at : ℕ
  pub updated_at : ℕ

abbrev pub job_summary_to_wire : AsyncJobRow → JobSummary
job_summary_to_wire job = record {
  id = job.id;
  kind = job.kind;
  model = job.model_id;
  status = job.status;
  created_at = job.created_at;
  updated_at = job.updated_at;
}

pub data JobAnswer : Type 0 where
  job : JobWire → JobAnswer
  listed : List JobSummary → JobAnswer
  refused : ErrorCode → JobAnswer

-- `requireCaller`; the stamp is written on the side.
abbrev pub caller_gate : ℕ → ResolveResult → Db → Db × Gate Caller
caller_gate now (Auth.failed failure) db = (db, stop (auth_failure_code failure))
caller_gate now (Auth.ok caller) db = (touch_client now caller.client.id db, pass caller)

unfoldable pub require_caller : Ctx → Option (List ℕ) → Db → Db × Gate Caller
unfolding resolve_client touch_client
require_caller ctx header db = caller_gate ctx.now (resolve_client ctx.sha256_hex header db) db

-- The job of the caller; a missing one and another client's are one answer.
abbrev pub own_job : (String → Option Json) → Caller → Option AsyncJobRow → JobAnswer
own_job parse_json caller none = refused not_found
own_job parse_json caller (some row) =
    if str_eq row.client_id caller.client.id
    then job (job_to_wire parse_json row)
    else refused not_found

abbrev pub polled : (String → Option Json) → String → Gate Caller → Db → JobAnswer
polled parse_json job_id (stop code) db = refused code
polled parse_json job_id (pass caller) db = own_job parse_json caller (get_async_job job_id db)

-- `handleGetJob`
unfoldable pub handle_get_job :
    Ctx → (String → Option Json) → Option (List ℕ) → String → Db → Db × JobAnswer
unfolding require_caller get_async_job job_to_wire
handle_get_job ctx parse_json header job_id db =
    let (db', gate) = require_caller ctx header db in (db', polled parse_json job_id gate db')

abbrev pub default_job_limit : ℕ
default_job_limit = 20

abbrev pub max_job_limit : ℕ
max_job_limit = 100

-- `?status=`: absent, one of the four, or refused.
abbrev pub status_of : Option String → Option (Option AsyncJobStatus)
status_of none = some none
status_of (some s) =
    if str_eq s "queued"
    then some (some queued)
    else if str_eq s "running"
    then some (some running)
    else if str_eq s "succeeded"
    then some (some succeeded)
    else if str_eq s "failed"
    then some (some failed)
    else none

abbrev pub limit_in : Number → Option ℕ
limit_in (integer (pos n)) = if leb 1 n && leb n max_job_limit then some n else none
limit_in _ = none

-- `?limit=`
abbrev pub limit_of : (String → Number) → Option String → Option ℕ
limit_of to_number none = some default_job_limit
limit_of to_number (some s) = limit_in (to_number s)

abbrev pub list_for : Caller → Option (Option AsyncJobStatus) → Option ℕ → Db → JobAnswer
list_for caller none limit db = refused invalid_request
list_for caller (some status) none db = refused invalid_request
list_for caller (some status) (some limit) db =
    listed (map job_summary_to_wire (list_async_jobs_by_client caller.client.id limit status db))

abbrev pub list_gate : Gate Caller → Option (Option AsyncJobStatus) → Option ℕ → Db → JobAnswer
list_gate (stop code) status limit db = refused code
list_gate (pass caller) status limit db = list_for caller status limit db

-- `handleListJobs`
unfoldable pub handle_list_jobs :
    Ctx → (String → Number) → Option (List ℕ) → Option String → Option String → Db → Db × JobAnswer
unfolding require_caller list_async_jobs_by_client
handle_list_jobs ctx to_number header raw_status raw_limit db =
    let (db', gate) = require_caller ctx header db in
    (db', list_gate gate (status_of raw_status) (limit_of to_number raw_limit) db')

-- `\w`
abbrev pub is_word_char : ℕ → Bool
is_word_char c = is_job_char c && not (c == b'-')

abbrev pub ends_word : List ℕ → Bool
ends_word [] = true
ends_word (c ∷ s) = not (is_word_char c)

abbrev pub lower_all : List ℕ → List ℕ
lower_all [] = []
lower_all (c ∷ s) = to_lower c ∷ lower_all s

-- `\bword\b` somewhere in the text; `open` is whether a word may start here.
abbrev pub has_word : List ℕ → Bool → List ℕ → Bool
has_word word may_start [] = false
has_word word may_start (c ∷ s) =
    let later = has_word word (not (is_word_char c)) s in
    (may_start && (elim (after_prefix word (c ∷ s)) [ none ↦ false | some rest ↦ ends_word rest ]))
    || later

-- `wantsAsync`, of the header Prefer
unfoldable pub wants_async : Option String → Json → Bool
unfolding to_lower
wants_async prefer body = elim (member "async" body) [
  | some (bool b) ↦ b
  | _ ↦ has_word (codes "respond-async") true (lower_all (codes (or_else prefer "")))
]
