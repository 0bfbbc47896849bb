-- ===== src/Store/Schema.antt =====
-- The rows of src/store.ts and the tables of migrations/. Money columns are natural numbers of
-- micro-USD, identifiers and texts are strings, times are seconds of the database's clock. SQLite
-- keeps the declared UNIQUE and PRIMARY KEY constraints; D1 does not enforce the foreign keys.
use prism_control_plane.Prelude.{ℕ, Bool, String, Option, List, [], ℤ}
use prism_control_plane.Prelude.Number.{Number}
use prism_control_plane.Meter.{ModelPriceRow}

-- The numeric columns of a plan as they are read back: `planFromRow` checks them.
pub record PlanRow : Type 0 where
  pub id : String
  pub name : String
  pub signup_credit_micro_usd : Number
  pub monthly_included_micro_usd : Number
  pub requests_per_minute : Number
  pub max_output_tokens : Number
  pub allowed_tiers : String

pub record AccountRow : Type 0 where
  pub id : String
  pub plan_id : String
  pub label : Option String
  pub suspended_at : Option ℕ
  pub credit_micro_usd : ℕ
  pub spent_micro_usd : ℕ

pub record CreditGrantRow : Type 0 where
  pub id : String
  pub account_id : String
  pub micro_usd : ℕ
  pub idempotency_key : String
  pub note : Option String

pub record ClientRow : Type 0 where
  pub id : String
  pub account_id : String
  pub key_id : String
  pub secret_hash : String
  pub label : Option String
  pub platform : Option String
  pub last_seen_at : Option ℕ
  pub revoked_at : Option ℕ

pub record EnrollmentRow : Type 0 where
  pub token_hash : String
  pub account_id : String
  pub expires_at : ℕ
  pub consumed_at : Option ℕ
  pub consumed_by_client : Option String
  pub note : Option String

pub record SttTicketRow : Type 0 where
  pub token_hash : String
  pub account_id : String
  pub client_id : String
  pub expires_at : ℕ
  pub consumed_at : Option ℕ

pub record UserTokenRow : Type 0 where
  pub account_id : String
  pub cf_token_id : String
  pub token_enc : String
  pub minted_at : ℕ
  pub revoked_at : Option ℕ
  pub last_used_at : Option ℕ

pub data AsyncJobStatus : Type 0 where
  queued running succeeded failed : AsyncJobStatus

pub data AsyncJobKind : Type 0 where
  video music speech image : AsyncJobKind

-- The time texts of a job are ISO texts of one length, which compare as the times do.
pub record AsyncJobRow : Type 0 where
  pub id : String
  pub account_id : String
  pub client_id : String
  pub kind : AsyncJobKind
  pub model_id : String
  pub status : AsyncJobStatus
  pub result_json : Option String
  pub error_code : Option String
  pub error_detail : Option String
  pub request_id : String
  pub created_at : ℕ
  pub updated_at : ℕ

pub record PeriodRow : Type 0 where
  pub account_id : String
  pub period_key : String
  pub micro_usd : ℕ
  pub requests : ℕ
  pub unmetered_requests : ℕ
  pub adjust_spend_micro_usd : ℕ
  pub adjust_credit_micro_usd : ℕ
  pub allowance_spent_micro_usd : ℕ

pub data PriceBasis : Type 0 where
  measured estimated_output unpriced : PriceBasis

pub record UsageEvent : Type 0 where
  pub id : String
  pub request_id : String
  pub account_id : String
  pub client_id : String
  pub model_id : String
  pub period_key : String
  pub input_tokens : Option ℕ
  pub output_tokens : Option ℕ
  pub micro_usd : ℕ
  pub from_allowance_micro_usd : ℕ
  pub from_credit_micro_usd : ℕ
  pub metered : Bool
  pub price_basis : PriceBasis
  pub unmetered_reason : Option String
  pub upstream_status : Option ℕ
  pub gateway_log_id : Option String

pub data Direction : Type 0 where
  spend credit : Direction

pub record UsageAdjustmentRow : Type 0 where
  pub id : String
  pub account_id : String
  pub usage_event_id : Option String
  pub request_id : String
  pub gateway_log_id : String
  pub period_key : String
  pub model_id : Option String
  pub estimate_micro_usd : ℕ
  pub gateway_micro_usd : ℕ
  pub delta_micro_usd : ℤ
  pub direction : Direction
  pub applied_micro_usd : ℕ
  pub idempotency_key : String
  pub note : Option String

pub record ReconcileStateRow : Type 0 where
  pub gateway_id : String
  pub watermark : Option ℕ
  pub last_log_id : Option String
  pub last_run_at : Option ℕ
  pub runs : ℕ
  pub rows_seen : ℕ
  pub rows_adjusted : ℕ

pub record RateBucket : Type 0 where
  pub bucket_key : String
  pub count : ℕ
  pub window_start : ℕ

-- A ledger row with the time that the database stamps on it.
pub record LedgerRow : Type 0 where
  pub event : UsageEvent
  pub created_at : ℕ

pub record Db : Type 0 where
  pub plans : List PlanRow
  pub accounts : List AccountRow
  pub credit_grants : List CreditGrantRow
  pub clients : List ClientRow
  pub enrollments : List EnrollmentRow
  pub usage_events : List LedgerRow
  pub usage_periods : List PeriodRow
  pub usage_adjustments : List UsageAdjustmentRow
  pub reconcile_state : List ReconcileStateRow
  pub rate_buckets : List RateBucket
  pub stt_tickets : List SttTicketRow
  pub user_tokens : List UserTokenRow
  pub model_prices : List ModelPriceRow
  pub async_jobs : List AsyncJobRow

abbrev pub empty_db : Db
empty_db = record {
  plans = [];
  accounts = [];
  credit_grants = [];
  clients = [];
  enrollments = [];
  usage_events = [];
  usage_periods = [];
  usage_adjustments = [];
  reconcile_state = [];
  rate_buckets = [];
  stt_tickets = [];
  user_tokens = [];
  model_prices = [];
  async_jobs = [];
}
