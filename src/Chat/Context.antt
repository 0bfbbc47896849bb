-- ===== src/Chat/Context.antt =====
-- What the handlers of src/routes/ are given, and what they answer: `Ctx` and
-- `authFailureResponse` of src/routes/shared.ts.
use prism_control_plane.Prelude.{ℕ, Bool, String, Option, List}
use prism_control_plane.Prelude.Number.{Number}
use prism_control_plane.Prelude.Json.{Json}
use prism_control_plane.Catalog.{CatalogEntry}
use prism_control_plane.Meter.{TokenUsage}
use prism_control_plane.Http.{ErrorCode, client_revoked, forbidden, unavailable}
use prism_control_plane.Auth.{ResolveFailure, revoked, suspended, misconfigured}
use prism_control_plane.Auth as Auth

pub record UpstreamAuth : Type 0 where
  pub token_id : String
  pub value : String

-- The platform's `sha256Hex` and `atob`, how it prints a number and joins a value that is no
-- string; the catalog; whether a runner is configured; the credential source, which answers an
-- account with a credential or with nothing; the request's id, period and time.
pub record Ctx : Type 0 where
  pub sha256_hex : List ℕ → List ℕ
  pub atob : List ℕ → Option (List ℕ)
  pub print_number : Number → String
  pub to_text : Json → String
  pub catalog : List CatalogEntry
  pub has_runner : Bool
  pub credentials : Option (String → Option UpstreamAuth)
  pub request_id : String
  pub period_key : String
  pub now : ℕ

-- `authFailureResponse`: the code of its answer.
abbrev pub auth_failure_code : ResolveFailure → ErrorCode
auth_failure_code Auth.unauthenticated = ErrorCode.unauthenticated
auth_failure_code revoked = client_revoked
auth_failure_code suspended = forbidden
auth_failure_code misconfigured = unavailable

-- The headers that say how the account stands.
pub record MoneyHeaders : Type 0 where
  pub period : String
  pub credit : ℕ
  pub spent : ℕ
  pub credit_remaining : ℕ
  pub monthly_included : ℕ
  pub allowance_remaining : ℕ

pub record Completion : Type 0 where
  pub model : String
  pub max_tokens_applied : ℕ
  pub usage_micro_usd : ℕ
  pub metered : Bool
  pub recorded : Bool
  pub money : MoneyHeaders
  pub content : String
  pub finish_reason : Option String
  pub usage : Option TokenUsage

pub data Response : Type 0 where
  refused : ErrorCode → Response
  completion : Completion → Response
  streaming : ℕ → MoneyHeaders → Response
