-- ===== src/NonChat/Tests.antt =====
-- The results of NonChat at one client, one image model and a runner that answers.
use prism_control_plane.Prelude.{◌≡◌, refl, true, false, none, some, [], ◌∷◌, pos}
use prism_control_plane.Prelude.Strings.{starts_with}
use prism_control_plane.Prelude.Json.{Json, str, obj, end, field}
use prism_control_plane.Http.{ReadBodyResult, upstream_timeout}
use prism_control_plane.Http as Http
use prism_control_plane.Catalog.{
  CatalogEntry, UnitPrice, image, tts, stt, video, music, request, unified_billing, standard,
}
use prism_control_plane.Store.Sql.{first_where, update_where, upsert}
use prism_control_plane.Store.Accounts.{add_spent}
use prism_control_plane.Store.Usage.{advance_period}
use prism_control_plane.Meter.{price_units}
use prism_control_plane.Balance.{remaining_micro_usd}
use prism_control_plane.Chat.Context.{Ctx}
use prism_control_plane.Chat.Sample.{client, account, dev, auth, db, header}
use prism_control_plane.NonChat.{
  handle_image_generations, handle_audio_speech, handle_audio_transcriptions,
  handle_video_generations, handle_music_generations,
}
use prism_control_plane.NonChat.Context.{Env}
use prism_control_plane.NonChat.Assets.{
  ImageAsset, inline, extract_image_asset, image_raw, image_in_result,
}
use prism_control_plane.NonChat.Gates.{Passed}
use prism_control_plane.NonChat.Meter.{RunResult, ok, Metered, charged, serve}
use prism_control_plane.NonChat.Paid.{IsPaid, serve-charged}
use prism_control_plane.NonChat.Handlers.{IsCosted, handlers-IsCosted}

abbrev price : UnitPrice
price = record { micro_usd_per_unit = 40; unit = request; priced_at = "2026-08-01" }

abbrev painter : CatalogEntry
painter = record {
  id = "i";
  upstream = "up/i";
  binding = false;
  api = none;
  modality = image;
  billing = unified_billing;
  tier = standard;
  streaming = false;
  max_output_tokens = none;
  price = none;
  unit_price = some price;
}

abbrev ctx : Ctx
ctx = record {
  sha256_hex = λ s. s;
  atob = λ s. some s;
  print_number = λ x. "a number";
  to_text = λ j. "[object Object]";
  catalog = painter ∷ [];
  has_runner = true;
  credentials = some (λ account_id. some auth);
  request_id = "req_1";
  period_key = "2026-08";
  now = 70;
}

abbrev wish : Json
wish = obj (field "model" (str "i") (field "prompt" (str "a fox") end))

abbrev admitted : Passed
admitted = record {
  client = client;
  account = account;
  plan = dev;
  model = painter;
  unit_price = price;
  auth = auth;
  body = wish;
}

abbrev picture : Json
picture =
    obj
      (field "state" (str "Completed") (field "result" (obj (field "image" (str "aWk=") end)) end))

abbrev env : Env
env = record {
  run = λ p call. ok picture (some "log_1");
  binding = none;
  start = none;
  film_link = none;
  is_ready = false;
  is_late = false;
  rehost = λ url. none;
  round = λ x. pos 1;
  prefer = none;
  start_problem = "no workflow";
  row_id = "use_1";
  job_id = "job_1";
  fault = none;
}

abbrev answer : Metered ImageAsset
answer = record {
  payload = inline "aWk=";
  model_id = "i";
  micro_usd = 40;
  units = 1;
  unit = request;
  recorded = true;
  period = "2026-08";
  credit = 900;
  spent = 30;
  credit_remaining = 870;
  allowance_remaining = 0;
}

abbrev served : RunResult
served = ok picture (some "log_1")

serves :
    (serve ctx admitted "use_1" none extract_image_asset "no_image_payload" 1 served db).1
    ≡ charged answer
unfolding serve extract_image_asset image_raw image_in_result remaining_micro_usd price_units
    first_where starts_with add_spent advance_period update_where upsert
serves = refl

serve-charged_example :
    IsPaid ctx admitted "use_1" none extract_image_asset "no_image_payload" 1 served db
      (serve ctx admitted "use_1" none extract_image_asset "no_image_payload" 1 served db).0
      answer
serve-charged_example =
    serve-charged ctx admitted "use_1" none extract_image_asset "no_image_payload" 1 served db
      answer serves

handlers-IsCosted_example :
    IsCosted ctx env true image header
      (Http.ok wish)
      db
      (handle_image_generations ctx env true header (Http.ok wish) db)
    × IsCosted ctx env true tts header
        (Http.ok wish)
        db
        (handle_audio_speech ctx env true header (Http.ok wish) db)
    × IsCosted ctx env true stt header
        (Http.ok wish)
        db
        (handle_audio_transcriptions ctx env true header (Http.ok wish) db)
    × IsCosted ctx env true video header
        (Http.ok wish)
        db
        (handle_video_generations ctx env true header (Http.ok wish) db)
    × IsCosted ctx env true music header
        (Http.ok wish)
        db
        (handle_music_generations ctx env true header (Http.ok wish) db)
handlers-IsCosted_example = handlers-IsCosted ctx env true header (Http.ok wish) db
