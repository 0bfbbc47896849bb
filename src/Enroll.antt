-- ===== src/Enroll.antt =====
-- src/routes/clients.ts: POST /v1/clients, with `clientIp` of src/routes/shared.ts. `TextDecoder`,
-- `JSON.parse` and the SHA-256 digest are arguments; so is the key that is minted, which is random.
-- Between two steps that wait, other requests may write: `Others` is what they do.
pub mod Devices
pub mod Granted
mod Tests
use Prim.Native.String
use prism_control_plane.Prelude.{
  ℕ, Bool, true, false, ◌||◌, not, is_some, String, Option, none, some, List, [], ◌∷◌, ltb,
  if◌then◌else◌,
}
use prism_control_plane.Prelude.Number.{Number}
use prism_control_plane.Prelude.Strings.{trim_text, utf16_length}
use prism_control_plane.Prelude.Json.{Json, str, obj, Fields, find_field}
use prism_control_plane.ChatRequest.Turns.{keys, is_in}
use prism_control_plane.Http.{
  ErrorCode, rate_limited, invalid_request, forbidden, unavailable, Read, ReadBodyResult,
  read_json_body, max_body_bytes,
}
use prism_control_plane.RateLimit.{
  check_rate_limit, enroll_bucket, enroll_limit, rate_window_seconds,
}
use prism_control_plane.Store.Schema.{Db, AccountRow, ClientRow}
use prism_control_plane.Store.Accounts.{get_account}
use prism_control_plane.Store.Clients.{NewClient, create_client, consume_enrollment}

-- `ALLOWED_FIELDS`, `ALLOWED_PLATFORMS`, `MAX_LABEL_CHARS`
abbrev pub allowed_fields : List String
allowed_fields = "enrollment_token" ∷ "label" ∷ "platform" ∷ []

abbrev pub allowed_platforms : List String
allowed_platforms = "ios" ∷ "android" ∷ "other" ∷ []

abbrev pub max_label_chars : ℕ
max_label_chars = 64

pub record EnrollBody : Type 0 where
  pub token : String
  pub label : Option String
  pub platform : Option String

pub data EnrollProblem : Type 0 where
  not_an_object no_token bad_label bad_platform : EnrollProblem
  unknown_field : String → EnrollProblem

pub data ParseResult : Type 0 where
  parsed : EnrollBody → ParseResult
  problem : EnrollProblem → ParseResult

-- The first key that is not allowed.
abbrev pub first_unknown : List String → Option String
first_unknown [] = none
first_unknown (k ∷ ks) =
    let rest = first_unknown ks in if is_in k allowed_fields then rest else some k

-- `typeof v === "string"`, and what it is then
abbrev pub string_or_null : Option Json → Option String
string_or_null (some (str s)) = some s
string_or_null _ = none

abbrev pub is_bad_token : Option Json → Bool
is_bad_token (some (str s)) = ltb (utf16_length (trim_text s)) 8
is_bad_token _ = true

abbrev pub is_bad_label : Option Json → Bool
is_bad_label none = false
is_bad_label (some (str s)) = ltb max_label_chars (utf16_length s)
is_bad_label (some _) = true

abbrev pub is_bad_platform : Option Json → Bool
is_bad_platform none = false
is_bad_platform (some (str s)) = not (is_in s allowed_platforms)
is_bad_platform (some _) = true

abbrev pub token_text : Option Json → String
token_text (some (str s)) = trim_text s
token_text _ = ""

abbrev pub parse_fields : Fields → ParseResult
parse_fields fields =
    let token = find_field "enrollment_token" fields in
    let label = find_field "label" fields in
    let platform = find_field "platform" fields in
    elim (first_unknown (keys fields)) [
      | some k ↦ problem (unknown_field k)
      | none ↦
          if is_bad_token token
          then problem no_token
          else if is_bad_label label
          then problem bad_label
          else if is_bad_platform platform
          then problem bad_platform
          else parsed (record {
            token = token_text token;
            label = string_or_null label;
            platform = string_or_null platform;
          })
    ]

-- `parseEnrollBody`
unfoldable pub parse_enroll_body : Json → ParseResult
unfolding trim_text utf16_length
parse_enroll_body (obj fields) = parse_fields fields
parse_enroll_body _ = problem not_an_object

-- `clientIp`, of the header cf-connecting-ip
abbrev pub client_ip : Option String → String
client_ip none = "unknown"
client_ip (some ip) = ip

pub record Platform : Type 0 where
  pub decode : List ℕ → String
  pub parse_json : String → Option Json
  pub sha256_hex : String → String

-- What `mintClientKey` returns.
pub record MintedKey : Type 0 where
  pub client_id : String
  pub key_id : String
  pub secret_hash : String
  pub key : String

-- A request, with what is drawn for it and when the database ran its two timed statements.
pub record Attempt : Type 0 where
  pub ip : Option String
  pub declared : Option Number
  pub body : Option (List Read)
  pub minted : MintedKey
  pub limited_at : ℕ
  pub redeemed_at : ℕ

-- The body of the answer, status 201.
pub record Enrolled : Type 0 where
  pub client_id : String
  pub key : String
  pub account_id : String
  pub plan_id : String
  pub is_suspended : Bool

-- An answer, or the exception of a refused insert.
pub data Answer : Type 0 where
  enrolled : Enrolled → Answer
  refused : ErrorCode → Answer
  thrown : Answer

-- What other requests write before the redemption, the look-up of the account and the insert.
pub record Others : Type 0 where
  pub before_redeem : Db → Db
  pub before_account : Db → Db
  pub before_create : Db → Db

module _ (others : Others) (a : Attempt) where
  abbrev pub new_client : EnrollBody → AccountRow → NewClient
  new_client body account = record {
    id = a.minted.client_id;
    account_id = account.id;
    key_id = a.minted.key_id;
    secret_hash = a.minted.secret_hash;
    label = body.label;
    platform = body.platform;
  }

  abbrev pub answer_created : AccountRow → Db → Option (Db × ClientRow) → Db × Answer
  answer_created account db none = (db, thrown)
  answer_created account db (some (db', client)) = (
    db',
    enrolled (record {
      client_id = client.id;
      key = a.minted.key;
      account_id = account.id;
      plan_id = account.plan_id;
      is_suspended = is_some account.suspended_at;
    }),
  )

  abbrev pub enroll_account : EnrollBody → Option AccountRow → Db → Db × Answer
  enroll_account body none db = (db, refused unavailable)
  enroll_account body (some account) db =
      if is_some account.suspended_at
      then (db, refused forbidden)
      else let db' = others.before_create db in
        answer_created account db' (create_client (new_client body account) db')

  abbrev pub enroll_redeemed : EnrollBody → Option String → Db → Db × Answer
  enroll_redeemed body none db = (db, refused forbidden)
  enroll_redeemed body (some account_id) db =
      let db' = others.before_account db in enroll_account body (get_account account_id db') db'

  abbrev pub enroll_parsed : (String → String) → ParseResult → Db → Db × Answer
  enroll_parsed sha256_hex (problem p) db = (db, refused invalid_request)
  enroll_parsed sha256_hex (parsed body) db =
      let (db', redeemed) =
        consume_enrollment a.redeemed_at (sha256_hex body.token) a.minted.client_id
          (others.before_redeem db) in
      enroll_redeemed body redeemed db'

  abbrev pub enroll_body : (String → String) → ReadBodyResult Json → Db → Db × Answer
  enroll_body sha256_hex (ReadBodyResult.refused code) db = (db, refused code)
  enroll_body sha256_hex (ReadBodyResult.ok value) db =
      enroll_parsed sha256_hex (parse_enroll_body value) db

-- The body of a request, read as JSON.
abbrev pub body_of : Platform → Attempt → ReadBodyResult Json
body_of p a = read_json_body p.decode p.parse_json a.declared a.body max_body_bytes

-- `handleEnroll`
unfoldable pub handle_enroll : Platform → Others → Attempt → Db → Db × Answer
unfolding check_rate_limit enroll_bucket get_account create_client consume_enrollment
    parse_enroll_body
handle_enroll p others a db =
    let (db', rate) =
      check_rate_limit (enroll_bucket (client_ip a.ip)) enroll_limit rate_window_seconds
        a.limited_at db in
    if rate.allowed
    then enroll_body others a p.sha256_hex (body_of p a) db'
    else (db', refused rate_limited)
