-- ===== src/Enroll/Tests.antt =====
-- Tests of src/routes/clients.ts: one token, two devices.
use prism_control_plane.Prelude.{ℕ, ◌≡◌, ◌≤◌, refl, true, false, String, none, some, [], ◌∷◌, arith}
use prism_control_plane.Prelude.Json.{Json, str, obj, end, field}
use prism_control_plane.Prelude.Strings.{trim_text, utf16_length}
use prism_control_plane.Prelude.Text.{is_space}
use prism_control_plane.Http.{
  bytes, end_of_body, ReadBodyResult, read_json_body, read_body_bytes_capped,
}
use prism_control_plane.RateLimit.{
  check_rate_limit, enroll_bucket, enroll_limit, rate_window_seconds,
}
use prism_control_plane.Store.Schema.{Db, AccountRow, empty_db}
use prism_control_plane.Store.Sql.{first_where, update_where, upsert}
use prism_control_plane.Store.Buckets.{claim_rate_bucket}
use prism_control_plane.Store.Accounts.{get_account}
use prism_control_plane.Store.Clients.{
  create_enrollment, new_enrollment, consume_enrollment, create_client, get_client,
}
use prism_control_plane.Enroll.{
  Platform, Others, Attempt, Enrolled, enrolled, parse_enroll_body, body_of, client_ip,
  handle_enroll,
}
use prism_control_plane.Enroll.Devices.{devices, devices_le_one}
use prism_control_plane.Enroll.Granted.{IsRedeemed, handle_enroll_sound}

abbrev request : Json
request = obj (field "enrollment_token" (str " 12345678 ") (field "platform" (str "ios") end))

-- A platform on which every body is that request, and a digest is the text itself.
abbrev platform : Platform
platform = record { decode = λ b. "{}"; parse_json = λ t. some request; sha256_hex = λ t. t }

abbrev alone : Others
alone = record { before_redeem = λ d. d; before_account = λ d. d; before_create = λ d. d }

abbrev attempt : String → ℕ → Attempt
attempt id now = record {
  ip = none;
  declared = none;
  body = some (bytes (123 ∷ 125 ∷ []) ∷ end_of_body ∷ []);
  minted = record { client_id = id; key_id = id; secret_hash = "digest"; key = "plain" };
  limited_at = now;
  redeemed_at = now;
}

abbrev acct : AccountRow
acct = record {
  id = "acct";
  plan_id = "free";
  label = none;
  suspended_at = none;
  credit_micro_usd = 0;
  spent_micro_usd = 0;
}

abbrev before : Db
before = record empty_db { accounts = acct ∷ [] }

abbrev issued : Db
issued = record before { enrollments = new_enrollment "12345678" "acct" 50 none ∷ [] }

made : create_enrollment "12345678" "acct" 50 none before ≡ some issued
unfolding create_enrollment
made = refl

devices_le_one_example :
    devices platform "12345678"
      ((alone, attempt "phone" 20) ∷ (alone, attempt "tablet" 21) ∷ [])
      issued
    ≤ 1
devices_le_one_example =
    devices_le_one platform "12345678" "acct" 50 none before issued
      ((alone, attempt "phone" 20) ∷ (alone, attempt "tablet" 21) ∷ []) made
      (
        (λ d. omega arith, λ d. omega arith, λ d. omega arith),
        ((λ d. omega arith, λ d. omega arith, λ d. omega arith), tt),
      )

abbrev phone : Enrolled
phone = record {
  client_id = "phone";
  key = "plain";
  account_id = "acct";
  plan_id = "free";
  is_suspended = false;
}

phone_enrolls : (handle_enroll platform alone (attempt "phone" 20) issued).1 ≡ enrolled phone
unfolding handle_enroll check_rate_limit claim_rate_bucket enroll_bucket get_account create_client
    get_client consume_enrollment first_where update_where upsert parse_enroll_body trim_text
    utf16_length is_space read_json_body read_body_bytes_capped
phone_enrolls = refl

one_device :
    devices platform "12345678"
      ((alone, attempt "phone" 20) ∷ (alone, attempt "tablet" 21) ∷ [])
      issued
    ≡ 1
unfolding devices handle_enroll check_rate_limit claim_rate_bucket enroll_bucket get_account
    create_client get_client consume_enrollment first_where update_where upsert parse_enroll_body
    trim_text utf16_length is_space read_json_body read_body_bytes_capped
one_device = refl

handle_enroll_sound_example :
    let a = attempt "phone" 20 in
    let (db', rate) =
      check_rate_limit
        (enroll_bucket (client_ip a.ip))
        enroll_limit
        rate_window_seconds
        a.limited_at
        issued in
    (rate.allowed ≡ true)
    × ((value : Json) × (body_of platform a ≡ ReadBodyResult.ok value)
        × IsRedeemed alone a
            (λ t. t)
            (parse_enroll_body value)
            db'
            (handle_enroll platform alone a issued).0
            phone)
handle_enroll_sound_example =
    handle_enroll_sound platform alone (attempt "phone" 20) issued phone phone_enrolls
