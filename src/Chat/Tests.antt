-- ===== src/Chat/Tests.antt =====
-- The results of Chat at one client, one model and a runner that answers.
use prism_control_plane.Prelude.{
  ℕ, ◌+◌, ◌≡◌, ◌≤◌, ◌⊎◌, refl, true, false, none, some, List, [], ◌∷◌, ◌++◌, pos,
}
use prism_control_plane.Prelude.Number.{integer}
use prism_control_plane.Prelude.Text.{codes, trim, to_lower, break_at}
use prism_control_plane.Prelude.Json.{Json, num, str, arr, obj, nil, cons, end, field}
use prism_control_plane.Http.{ReadBodyResult, ErrorCode, upstream_timeout}
use prism_control_plane.Http as Http
use prism_control_plane.Catalog.{CatalogEntry, TokenPrice, chat, unified_billing, standard}
use prism_control_plane.Store.Schema.{measured}
use prism_control_plane.Meter.{extract_usage, price_usage, exact_micro_usd}
use prism_control_plane.Balance.{remaining_micro_usd}
use prism_control_plane.Store.Sql.{first_where}
use prism_control_plane.Store.Accounts.{get_account, get_plan}
use prism_control_plane.Store.Audit.{Audit}
use prism_control_plane.Store.Audit.Spending.{recorded}
use prism_control_plane.Auth.{
  bearer_from_request, parse_client_key, is_key_id, is_secret, get_client_by_key_id,
  constant_time_equal,
}
use prism_control_plane.Store.Buckets.{claim_rate_bucket}
use prism_control_plane.ChatRequest.{ValidChatRequest}
use prism_control_plane.ChatRequest.Turns.{ChatTurnInput, user}
use prism_control_plane.Plans.{parse_tiers, effective_max_tokens}
use prism_control_plane.Stream.{
  StreamSettlement, chunk, client_gone, end_of_source, start_relay, relay_run, cancelled,
}
use prism_control_plane.Stream.Scanner.{Platform}
use prism_control_plane.Stream.Relay.{chunks_of}
use prism_control_plane.Inference.{InferenceRequest}
use prism_control_plane.Chat.{handle_chat_completions}
use prism_control_plane.Chat.Context.{Ctx, Completion, completion}
use prism_control_plane.Chat.Gates.{Admitted, pass, admit}
use prism_control_plane.Chat.Entry.{IsAdmissible, admit_sound}
use prism_control_plane.Chat.Spend.{
  stream, settle_all, InferenceResult, ok, timeout, Charge, charged, respond, settlement_charge,
  build_event,
}
use prism_control_plane.Chat.Charges.{
  IsCharged, settlement_charge-IsCharged, allowance_left, build_event_splits,
}
use prism_control_plane.Chat.Books.{handle_chat_completions-Audit}
use prism_control_plane.Chat.Settled.{
  row_of, stream-recorded, IsFree, respond_refused, spent_of, respond-spent,
}
use prism_control_plane.Chat.Sample.{client, account, dev, auth, db, header}

abbrev price : TokenPrice
price = record {
  input_micro_usd_per_mtok = integer (pos 2_000_000);
  output_micro_usd_per_mtok = integer (pos 4_000_000);
  cached_input_micro_usd_per_mtok = none;
  priced_at = "2026-08-01";
}

abbrev model : CatalogEntry
model = record {
  id = "m";
  upstream = "up/m";
  binding = false;
  api = none;
  modality = chat;
  billing = unified_billing;
  tier = standard;
  streaming = true;
  max_output_tokens = none;
  price = some price;
  unit_price = none;
}

abbrev ctx : Ctx
ctx = record {
  sha256_hex = λ s. s;
  atob = λ s. some s;
  print_number = λ x. "a number";
  to_text = λ j. "[object Object]";
  catalog = model ∷ [];
  has_runner = true;
  credentials = some (λ account_id. some auth);
  request_id = "req_1";
  period_key = "2026-08";
  now = 70;
}

abbrev question : Json
question = obj (
    field "model" (str "m") (
      field "messages"
        (arr (cons (obj (field "role" (str "user") (field "content" (str "hello, you") end))) nil))
        end))

abbrev request : ValidChatRequest
request = record {
  model = "m";
  messages = record { role = user; content = "hello, you"; images = [] } ∷ [];
  max_tokens = none;
  temperature = none;
  top_p = none;
  stream = false;
  image_bytes = none;
}

abbrev admitted : Admitted
admitted = record {
  request = request;
  client = client;
  account = account;
  plan = dev;
  model = model;
  price = price;
  auth = auth;
  max_tokens = 256;
  allowance_before = 10;
}

-- 3 and 4 tokens, at 2 and 4 micro-USD each.
abbrev reply : Json
reply = obj (
    field "response" (str "hi") (
      field "usage"
        (obj (
          field "prompt_tokens" (num (integer (pos 3)))
            (field "completion_tokens" (num (integer (pos 4))) end)))
        end))

-- A platform that decodes ASCII and parses nothing.
abbrev ascii : Platform
ascii = record {
  Decoder = Unit {0};
  initial = tt;
  decode = λ c d. (d, c);
  flush = λ d. [];
  parse_json = λ s. none;
}

-- A runner that answers with a stream.
abbrev runner : InferenceRequest ChatTurnInput → InferenceResult
runner r = stream (some "log_1")

passes : (admit ctx header (Http.ok question) db).1 ≡ pass admitted
unfolding admit bearer_from_request trim to_lower parse_client_key break_at is_key_id is_secret
    get_client_by_key_id first_where constant_time_equal get_account get_plan claim_rate_bucket
    parse_tiers effective_max_tokens
passes = refl

admit_sound_example : IsAdmissible ctx header (Http.ok question) db admitted
admit_sound_example = admit_sound ctx header (Http.ok question) db admitted passes

db-Audit : Audit ◌≡◌ db
unfolding first_where
db-Audit = record {
  credit = (refl, tt);
  spent = (refl, tt);
  micro = λ a k. refl;
  requests = λ a k. refl;
  unmetered = λ a k. refl;
  allowance = λ a k. refl;
  adjusted_spend = λ a k. refl;
  adjusted_credit = λ a k. refl;
}

handle_chat_completions-Audit_example :
    Audit ◌≡◌
      (handle_chat_completions ctx runner ascii
        (chunk (codes "data: x") ∷ client_gone ∷ [])
        "use_1"
        none
        header
        (Http.ok question)
        db).0
handle_chat_completions-Audit_example =
    handle_chat_completions-Audit ctx runner ascii (chunk (codes "data: x") ∷ client_gone ∷ [])
      header (Http.ok question) "use_1" db db-Audit

-- A stream that was cut off by the client after eight bytes of text.
abbrev hung_up : StreamSettlement
hung_up = record { usage = none; saw_frames = true; termination = cancelled; output_text_bytes = 8 }

settlement_charge-IsCharged_example :
    IsCharged ctx admitted hung_up none none cancelled (settlement_charge ctx admitted hung_up none)
settlement_charge-IsCharged_example = settlement_charge-IsCharged ctx admitted hung_up none

estimated_charge : (settlement_charge ctx admitted hung_up none).micro_usd ≡ 12
unfolding settlement_charge exact_micro_usd
estimated_charge = refl

abbrev measured_charge : Charge
measured_charge = charged measured 22 (record { input_tokens = 3; output_tokens = 4 }) none

build_event_splits_example :
    let e = build_event ctx admitted "use_1" measured_charge db in
    (e.micro_usd ≡ 22)
    × (e.metered ≡ true)
    × (e.from_allowance_micro_usd + e.from_credit_micro_usd ≡ 22)
    × (e.from_allowance_micro_usd ≤ allowance_left ctx admitted db)
    × ((e.from_credit_micro_usd ≡ 0)
        ⊎ (e.from_allowance_micro_usd ≡ allowance_left ctx admitted db))
build_event_splits_example = build_event_splits ctx admitted "use_1" measured_charge db

abbrev bytes : List (List ℕ)
bytes = codes "data: x" ∷ []

stream-recorded_example :
    settle_all ctx admitted
      (relay_run ascii
        (chunks_of bytes ++ client_gone ∷ end_of_source ∷ [])
        (start_relay ascii)).settlements
      none
      "use_1"
      none
      db
    ≡ recorded 70 (row_of ctx admitted ascii bytes client_gone none "use_1" db) db
stream-recorded_example =
    stream-recorded ctx admitted ascii bytes client_gone (end_of_source ∷ []) none "use_1" db tt
      refl

respond_refused_example : IsFree db (respond ctx admitted (timeout 30_000) "use_1" none db).0
respond_refused_example =
    respond_refused ctx admitted (timeout 30_000) "use_1" none db upstream_timeout
      (unfold respond in refl) (λ e. cc)

abbrev answered : Completion
answered = record {
  model = "m";
  max_tokens_applied = 256;
  usage_micro_usd = 22;
  metered = true;
  recorded = true;
  money = record {
    period = "2026-08";
    credit = 900;
    spent = 12;
    credit_remaining = 888;
    monthly_included = 10;
    allowance_remaining = 0;
  };
  content = "hi";
  finish_reason = none;
  usage = some (record { input_tokens = 3; output_tokens = 4 });
}

answers : (respond ctx admitted (ok reply none) "use_1" none db).1 ≡ completion answered
unfolding respond extract_usage remaining_micro_usd price_usage exact_micro_usd first_where
answers = refl

account_there : get_account "acct_1" db ≡ some account
unfolding get_account first_where
account_there = refl

respond-spent_example :
    spent_of (get_account "acct_1" (respond ctx admitted (ok reply none) "use_1" none db).0)
    ≡ some 12
respond-spent_example =
    respond-spent ctx admitted reply none "use_1" db answered account_there refl answers
