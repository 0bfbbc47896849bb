-- ===== src/Jobs/Owner.antt =====
-- What src/routes/jobs.ts shows, and to whom.
use prism_control_plane.Prelude.{
  ℕ, ◌+◌, ◌≡◌, ◌≢◌, ◌⊎◌, true, false, ◌≤◌, refl, sym, Bool, ◌&&◌, String, Option, none, some, List,
  [], ◌∷◌, map, take, total, arith, ltb, str_eq, eq_iff, if◌then◌else◌, pos, negsuc, Bool-cases,
  inl, inr,
}
use prism_control_plane.Prelude.Number.{Number, integer, fraction, infinity, neg_infinity, nan}
use prism_control_plane.Prelude.Json.{Json}
use prism_control_plane.Http.{not_found}
use prism_control_plane.Store.Schema.{Db, AsyncJobRow, AsyncJobStatus}
use prism_control_plane.Store.Clients.{touch_client}
use prism_control_plane.Store.Jobs.{
  get_async_job, has_status, insert_by_age, jobs_where, list_async_jobs_by_client,
}
use prism_control_plane.Auth.{Caller, ResolveResult, resolve_client}
use prism_control_plane.Auth as Auth
use prism_control_plane.Chat.Context.{Ctx, auth_failure_code}
use prism_control_plane.Jobs.{
  JobAnswer, job, listed, refused, job_to_wire, JobSummary, job_summary_to_wire, require_caller,
  caller_gate, own_job, handle_get_job, max_job_limit, status_of, limit_in, limit_of, list_for,
  list_gate, handle_list_jobs,
}

-- The answer to a poll, by the row of that id.
abbrev pub Shows : (String → Option Json) → Caller → JobAnswer → Option AsyncJobRow → Type 0
Shows parse_json caller answer none = answer ≡ refused not_found
Shows parse_json caller answer (some row) =
    (row.client_id ≡ caller.client.id) × (answer ≡ job (job_to_wire parse_json row))
    ⊎ (row.client_id ≢ caller.client.id) × (answer ≡ refused not_found)

differs : (s t : String) → str_eq s t ≡ false → s ≢ t
differs s t e same = absurd (false_true (rw ((eq_iff s t).1 same) at e))
  where
    false_true : true ≡ false → ⊥
    false_true h = cc

own_job-Shows :
    (parse_json : String → Option Json) (caller : Caller) (o : Option AsyncJobRow)
    → Shows parse_json caller (own_job parse_json caller o) o
own_job-Shows parse_json caller none = refl
own_job-Shows parse_json caller (some row) =
    elim (Bool-cases (str_eq row.client_id caller.client.id)) [
      | inl e ↦ rw e (inl ((eq_iff row.client_id caller.client.id).0 e, refl))
      | inr e ↦ rw e (inr (differs row.client_id caller.client.id e, refl))
    ]

-- The answer to a poll, by what its bearer resolves to.
abbrev pub ShowsTo :
    (String → Option Json) → ResolveResult → JobAnswer → Option AsyncJobRow → Type 0
ShowsTo parse_json (Auth.failed failure) answer row = answer ≡ refused (auth_failure_code failure)
ShowsTo parse_json (Auth.ok caller) answer row = Shows parse_json caller answer row

-- A poll shows a job exactly to the client that it belongs to: a bearer that does not resolve to a
-- client is answered with its failure, whatever the job, and a job of another client is answered as
-- one that does not exist.
pub handle_get_job-Shows :
    (ctx : Ctx) (parse_json : String → Option Json) (header : Option (List ℕ)) (id : String)
    (db : Db)
    → ShowsTo parse_json
        (resolve_client ctx.sha256_hex header db)
        (handle_get_job ctx parse_json header id db).1
        (get_async_job id db)
unfolding handle_get_job require_caller touch_client get_async_job
handle_get_job-Shows ctx parse_json header id db =
    by_caller (resolve_client ctx.sha256_hex header db) refl
  where
    by_caller :
        (r : ResolveResult)
        → resolve_client ctx.sha256_hex header db ≡ r
        → ShowsTo parse_json r (handle_get_job ctx parse_json header id db).1 (get_async_job id db)
    by_caller (Auth.failed failure) known = rw (known, handle_get_job, require_caller) refl
    by_caller (Auth.ok caller) known =
        rw (known, handle_get_job, require_caller)
          (own_job-Shows parse_json caller (get_async_job id db))

-- Newest first.
abbrev pub IsNewestFirst : List AsyncJobRow → Type 0
IsNewestFirst [] = Unit
IsNewestFirst (r ∷ []) = Unit
IsNewestFirst (r ∷ x ∷ t) = (x.created_at ≤ r.created_at) × IsNewestFirst (x ∷ t)

abbrev pub count_jobs : (AsyncJobRow → Bool) → List AsyncJobRow → ℕ
count_jobs q = total (λ r. if q r then 1 else 0)

insert_by_age-IsNewestFirst :
    (r : AsyncJobRow) (t : List AsyncJobRow) → IsNewestFirst t → IsNewestFirst (insert_by_age r t)
insert_by_age-IsNewestFirst r [] h = tt
insert_by_age-IsNewestFirst r (x ∷ []) h = elim (Bool-cases (ltb r.created_at x.created_at)) [
  | inl e ↦ rw e (ground arith, tt)
  | inr e ↦ rw e (ground arith, tt)
]
insert_by_age-IsNewestFirst r (x ∷ y ∷ t) (p, h) =
    let rest = insert_by_age-IsNewestFirst r (y ∷ t) h in
    elim (Bool-cases (ltb r.created_at x.created_at)) [
      | inr e ↦ rw e (ground arith, (p, h))
      | inl e ↦ elim (Bool-cases (ltb r.created_at y.created_at)) [
        | inl f ↦ rw e (rw f (p, rw f at rest))
        | inr f ↦ rw e (rw f (ground arith, rw f at rest))
      ]
    ]

count-insert_by_age :
    (q : AsyncJobRow → Bool) (r : AsyncJobRow) (t : List AsyncJobRow)
    → count_jobs q (insert_by_age r t) ≡ (if q r then 1 else 0) + count_jobs q t
count-insert_by_age q r [] = refl
count-insert_by_age q r (x ∷ t) = ground (arith, count-insert_by_age q r t)

-- All the jobs that match, newest first.
module _ (p : AsyncJobRow → Bool) where
  jobs_where-IsNewestFirst : (t : List AsyncJobRow) → IsNewestFirst (jobs_where p t)
  jobs_where-IsNewestFirst [] = tt
  jobs_where-IsNewestFirst (r ∷ t) =
      let rest = jobs_where-IsNewestFirst t in
      elim (Bool-cases (p r)) [
        | inl e ↦ rw e (insert_by_age-IsNewestFirst r (jobs_where p t) rest)
        | inr e ↦ rw e rest
      ]

  count-jobs_where :
      (q : AsyncJobRow → Bool) (t : List AsyncJobRow)
      → count_jobs q (jobs_where p t) ≡ count_jobs (λ r. p r && q r) t
  count-jobs_where q [] = refl
  count-jobs_where q (r ∷ t) =
      ground (arith, count-jobs_where q t, count-insert_by_age q r (jobs_where p t))

-- A list of jobs as it is answered: the first `limit` of all jobs of the client and the status asked
-- for, each as often as it is stored, newest first.
pub record IsPage (client_id : String) (status : Option AsyncJobStatus) (limit : ℕ) (db : Db)
    (shown : List JobSummary) : Type 0 where
  pub jobs : List AsyncJobRow
  pub first : shown ≡ map job_summary_to_wire (take limit jobs)
  pub newest_first : IsNewestFirst jobs
  pub complete :
      (q : AsyncJobRow → Bool)
      → count_jobs q jobs
        ≡ count_jobs
            (λ r. (str_eq r.client_id client_id && has_status status r) && q r)
            db.async_jobs

-- What the answer to a list rests on.
pub record IsListed (ctx : Ctx) (to_number : String → Number) (header : Option (List ℕ))
    (raw_status raw_limit : Option String) (db : Db) (shown : List JobSummary) : Type 0 where
  pub caller : Caller
  pub known : resolve_client ctx.sha256_hex header db ≡ Auth.ok caller
  pub status : Option AsyncJobStatus
  pub asked : status_of raw_status ≡ some status
  pub limit : ℕ
  pub bound : limit_of to_number raw_limit ≡ some limit
  pub at_least_one : 1 ≤ limit
  pub capped : limit ≤ max_job_limit
  pub page : IsPage caller.client.id status limit db shown

limit_in-bounds : (x : Number) (n : ℕ) → limit_in x ≡ some n → (1 ≤ n) × (n ≤ max_job_limit)
limit_in-bounds (integer (pos m)) n h = ground arith
limit_in-bounds (integer (negsuc m)) n h = absurd (cc)
limit_in-bounds (fraction z) n h = absurd (cc)
limit_in-bounds infinity n h = absurd (cc)
limit_in-bounds neg_infinity n h = absurd (cc)
limit_in-bounds nan n h = absurd (cc)

limit_of-bounds :
    (to_number : String → Number) (o : Option String) (n : ℕ)
    → limit_of to_number o ≡ some n
    → (1 ≤ n) × (n ≤ max_job_limit)
limit_of-bounds to_number none n h = ground arith
limit_of-bounds to_number (some s) n h = limit_in-bounds (to_number s) n h

-- A client is listed its own jobs and no others: all those of the status it asks for, newest first,
-- up to a limit of 1 to 100. A list is answered to a known client only, and a status or a limit
-- that cannot be read gets none.
pub handle_list_jobs-IsListed :
    (ctx : Ctx) (to_number : String → Number) (header : Option (List ℕ))
    (raw_status raw_limit : Option String) (db : Db) (shown : List JobSummary)
    → (handle_list_jobs ctx to_number header raw_status raw_limit db).1 ≡ listed shown
    → IsListed ctx to_number header raw_status raw_limit db shown
unfolding handle_list_jobs require_caller touch_client list_async_jobs_by_client
handle_list_jobs-IsListed ctx to_number header raw_status raw_limit db shown h =
    of_caller (resolve_client ctx.sha256_hex header db) refl h
  where
    of_list :
        (caller : Caller) (s : Option (Option AsyncJobStatus)) (l : Option ℕ) (db' : Db)
        → resolve_client ctx.sha256_hex header db ≡ Auth.ok caller
        → status_of raw_status ≡ s
        → limit_of to_number raw_limit ≡ l
        → db'.async_jobs ≡ db.async_jobs
        → list_for caller s l db' ≡ listed shown
        → IsListed ctx to_number header raw_status raw_limit db shown
    of_list caller none l db' known asked bound same e = absurd (cc)
    of_list caller (some status) none db' known asked bound same e = absurd (cc)
    of_list caller (some status) (some limit) db' known asked bound same e =
        let p = λ (r : AsyncJobRow). str_eq r.client_id caller.client.id && has_status status r in
        let (low, high) = limit_of-bounds to_number raw_limit limit bound in
        let eq : map job_summary_to_wire (take limit (jobs_where p db'.async_jobs)) ≡ shown =
          ground arith in
        record {
          caller = caller;
          known = known;
          status = status;
          asked = asked;
          limit = limit;
          bound = bound;
          at_least_one = low;
          capped = high;
          page = record {
            jobs = jobs_where p db.async_jobs;
            first = rw (← same) (sym eq);
            newest_first = jobs_where-IsNewestFirst p db.async_jobs;
            complete = λ q. count-jobs_where p q db.async_jobs;
          };
        }

    of_caller :
        (r : ResolveResult)
        → resolve_client ctx.sha256_hex header db ≡ r
        → list_gate
            (caller_gate ctx.now r db).1
            (status_of raw_status)
            (limit_of to_number raw_limit)
            (caller_gate ctx.now r db).0
          ≡ listed shown
        → IsListed ctx to_number header raw_status raw_limit db shown
    of_caller (Auth.failed f) known e = absurd (cc)
    of_caller (Auth.ok caller) known e =
        of_list caller (status_of raw_status) (limit_of to_number raw_limit)
          (touch_client ctx.now caller.client.id db) known refl refl refl e
