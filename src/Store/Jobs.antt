-- ===== src/Store/Jobs.antt =====
-- Long-running jobs: `createAsyncJob`, `getAsyncJob`, `listAsyncJobsByClient` and `updateAsyncJob`
-- of src/store-d1.ts.
use prism_control_plane.Prelude.{
  ℕ, Bool, true, false, ◌&&◌, String, Option, none, some, List, [], ◌∷◌, ◌++◌, any, str_eq, ltb,
  take, if◌then◌else◌,
}
use prism_control_plane.Store.Schema.{
  Db, AsyncJobRow, AsyncJobStatus, queued, running, succeeded, failed,
}
use prism_control_plane.Store.Sql.{first_where, update_where}

abbrev pub is_job : String → AsyncJobRow → Bool
is_job id r = str_eq r.id id

-- `createAsyncJob`: INSERT OR IGNORE
unfoldable pub create_async_job : AsyncJobRow → Db → Db
create_async_job row db =
    if any (is_job row.id) db.async_jobs
    then db
    else record db { async_jobs = db.async_jobs ++ row ∷ [] }

-- `getAsyncJob`
unfoldable pub get_async_job : String → Db → Option AsyncJobRow
get_async_job id db = first_where (is_job id) db.async_jobs

abbrev pub status_eq : AsyncJobStatus → AsyncJobStatus → Bool
status_eq queued queued = true
status_eq running running = true
status_eq succeeded succeeded = true
status_eq failed failed = true
status_eq _ _ = false

abbrev pub has_status : Option AsyncJobStatus → AsyncJobRow → Bool
has_status none r = true
has_status (some s) r = status_eq r.status s

-- `ORDER BY created_at DESC`; rows of one time stand as they were inserted.
abbrev pub insert_by_age : AsyncJobRow → List AsyncJobRow → List AsyncJobRow
insert_by_age r [] = r ∷ []
insert_by_age r (x ∷ xs) =
    let rest = insert_by_age r xs in if ltb r.created_at x.created_at then x ∷ rest else r ∷ x ∷ xs

abbrev pub jobs_where : (AsyncJobRow → Bool) → List AsyncJobRow → List AsyncJobRow
jobs_where p [] = []
jobs_where p (r ∷ t) = let rest = jobs_where p t in if p r then insert_by_age r rest else rest

-- `listAsyncJobsByClient`
unfoldable pub list_async_jobs_by_client :
    String → ℕ → Option AsyncJobStatus → Db → List AsyncJobRow
list_async_jobs_by_client client_id limit status db =
    take limit (jobs_where (λ r. str_eq r.client_id client_id && has_status status r) db.async_jobs)

-- A column that an update leaves out keeps its value: `undefined` is the outer `none`.
abbrev pub set_or_keep : Option (Option String) → Option String → Option String
set_or_keep none old = old
set_or_keep (some new) old = new

pub record JobUpdate : Type 0 where
  pub id : String
  pub status : AsyncJobStatus
  pub result_json : Option (Option String)
  pub error_code : Option (Option String)
  pub error_detail : Option (Option String)
  pub updated_at : ℕ

-- The SET clause, with what was read before.
abbrev pub set_job : JobUpdate → AsyncJobRow → AsyncJobRow → AsyncJobRow
set_job u old r = record r {
  status = u.status;
  result_json = set_or_keep u.result_json old.result_json;
  error_code = set_or_keep u.error_code old.error_code;
  error_detail = set_or_keep u.error_detail old.error_detail;
  updated_at = u.updated_at;
}

-- `updateAsyncJob`
unfoldable pub update_async_job : JobUpdate → Db → Db
unfolding get_async_job
update_async_job u db = elim (get_async_job u.id db) [
  | none ↦ db
  | some old ↦ record db { async_jobs = update_where (is_job u.id) (set_job u old) db.async_jobs }
]
