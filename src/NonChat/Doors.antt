-- ===== src/NonChat/Doors.antt =====
-- What each door of src/routes/nonchat.ts costs a request that has passed the gates.
use prism_control_plane.Prelude.{
  ℕ, max, ◌*◌, ◌≡◌, ◌≤◌, refl, ◌∙◌, Bool, true, false, ◌&&◌, ◌||◌, not, String, Option, none, some,
  is_some, arith, or_else, Bool-cases, Option-cases, inl, inr,
}
use prism_control_plane.Prelude.Json.{Json}
use prism_control_plane.Prelude.Strings.{starts_with, is_empty}
use prism_control_plane.Http.{ErrorCode, ReadBodyResult}
use prism_control_plane.Http as Http
use prism_control_plane.Catalog.{MeterUnit, k_characters, request, audio_minute}
use prism_control_plane.Store.Schema.{Db, AsyncJobKind, AsyncJobRow}
use prism_control_plane.Store.Schema as Schema
use prism_control_plane.Store.Jobs.{create_async_job, update_async_job, get_async_job}
use prism_control_plane.LongRun.{LongRunParams}
use prism_control_plane.LongRun.Charged.{price_of}
use prism_control_plane.Meter.{price_units}
use prism_control_plane.Chat.Context.{Ctx}
use prism_control_plane.NonChat.{
  image_call, speech_call, sound_of, film_of, video_call, song_of, music_call, image_door, units_by,
  speech_door, deepgram_answer, is_deepgram_batch_stt, transcription_door, run_by, is_grok_video,
  produce_video, video_door, music_door,
}
use prism_control_plane.NonChat.Context.{
  reference_image, DoorCall, plain_call, Env, DoorAnswer, answered, accepted, at_once, new_job,
  launched, start_by, job_params, start_async_long_run, call_for, is_async,
}
use prism_control_plane.NonChat.Assets.{
  ImageAsset, extract_image_asset, else_try, transcript_raw, prefers_async_image,
}
use prism_control_plane.NonChat.Gates.{Passed, require_string}
use prism_control_plane.NonChat.Meter.{
  Answer, charged, refused, Metered, charge_found, refuse, serve,
}
use prism_control_plane.Chat.Settled.{IsFree, unchanged-IsFree}
use prism_control_plane.NonChat.Paid.{
  IsWritten, serve-refused, serve-charged, serve-IsWritten, found_refused, found_price,
  found-IsWritten, refuse-IsFree,
}

-- A charge is for one unit or more, at the unit price that the gates found.
abbrev pub IsPriced : {A : Type 0} → Passed → Metered A → Type 0
IsPriced p m = (1 ≤ m.units) × (m.micro_usd ≡ m.units * p.unit_price.micro_usd_per_unit)

-- A job that is begun: it belongs to the account and the client of the request, and the workflow
-- has taken it, with the price of one unit or more to charge for it.
pub record IsBegun (env : Env) (p : Passed) (row : AsyncJobRow) : Type 0 where
  pub of_account : row.account_id ≡ p.account.id
  pub of_client : row.client_id ≡ p.client.id
  pub start : LongRunParams → Bool
  pub bound : env.start ≡ some start
  pub params : LongRunParams
  pub taken : start params ≡ true
  pub same_job : params.job_id ≡ row.id
  pub charged_account : params.account_id ≡ p.account.id
  pub charged_client : params.client_id ≡ p.client.id
  pub units : ℕ
  pub some_units : 1 ≤ units
  pub price : price_of params ≡ units * p.unit_price.micro_usd_per_unit

-- What a door costs: a charge is priced and a row of that price is written, and anything else is free;
-- a job is begun as above.
abbrev pub IsFair : {A : Type 0} → Ctx → Env → Passed → Db → Db × DoorAnswer A → Type 0
IsFair ctx env p db (db', answered (charged m)) = IsPriced p m × IsWritten ctx p env.fault m db db'
IsFair ctx env p db (db', answered (refused code)) = IsFree db db'
IsFair ctx env p db (db', accepted row) =
    IsBegun env p row × (db'.accounts ≡ db.accounts) × (db'.usage_events ≡ db.usage_events)

at_once-IsFair :
    {A : Type 0} (ctx : Ctx) (env : Env) (p : Passed) (db : Db) (x : Db × Answer A)
    → ((m : Metered A) → x.1 ≡ charged m → IsPriced p m × IsWritten ctx p env.fault m db x.0)
    → ((code : ErrorCode) → x.1 ≡ refused code → IsFree db x.0)
    → IsFair ctx env p db (at_once x)
at_once-IsFair ctx env p db (db', charged m) c r = c m refl
at_once-IsFair ctx env p db (db', refused code) c r = r code refl

module _ (ctx : Ctx) (env : Env) (p : Passed) where
  called-IsFair :
      (A : Type 0) (call : DoorCall) (extract : Json → Option A) (missing : String) (units : ℕ)
      (db : Db)
      → 1 ≤ units
      → IsFair ctx env p db (call_for ctx env p call extract missing units db)
  called-IsFair A call extract missing units db u =
      let r = env.run p call in
      at_once-IsFair ctx env p db (serve ctx p env.row_id env.fault extract missing units r db)
        (λ m h.
          let paid = serve-charged ctx p env.row_id env.fault extract missing units r db m h in
          (
            (rw paid.charged_units u, paid.price ∙ rw paid.charged_units refl),
            serve-IsWritten ctx p env.row_id env.fault extract missing units r db m h,
          ))
        (serve-refused ctx p env.row_id env.fault extract missing units r db)

  priced_job :
      (kind : AsyncJobKind) (units : ℕ)
      → price_of (job_params ctx env p kind units) ≡ max 1 units * p.unit_price.micro_usd_per_unit
  unfolding price_units
  priced_job kind units = ground arith

  launched-IsFair :
      (A : Type 0) (kind : AsyncJobKind) (units : ℕ) (start : LongRunParams → Bool) (b : Bool)
      (db : Db)
      → env.start ≡ some start
      → start (job_params ctx env p kind units) ≡ b
      → IsFair {A = A} ctx env p db
          (launched ctx env p kind b (create_async_job (new_job ctx env p kind) db))
  unfolding create_async_job update_async_job get_async_job
  launched-IsFair A kind units start false db bound taken = ground arith
  launched-IsFair A kind units start true db bound taken = (
    record {
      of_account = refl;
      of_client = refl;
      start = start;
      bound = bound;
      params = job_params ctx env p kind units;
      taken = taken;
      same_job = refl;
      charged_account = refl;
      charged_client = refl;
      units = max 1 units;
      some_units = omega arith;
      price = priced_job kind units;
    },
    ground arith,
    ground arith,
  )

  started-IsFair :
      (A : Type 0) (kind : AsyncJobKind) (units : ℕ) (db : Db)
      → IsFair {A = A} ctx env p db (start_async_long_run ctx env p kind units db)
  unfolding start_async_long_run
  started-IsFair A kind units db = by_binding env.start refl
    where
      by_binding :
          (o : Option (LongRunParams → Bool))
          → env.start ≡ o
          → IsFair {A = A} ctx env p db (start_by ctx env p kind units o db)
      by_binding none bound = unchanged-IsFree db
      by_binding (some start) bound =
          launched-IsFair A kind units start (start (job_params ctx env p kind units)) db bound refl

  pub image_door-IsFair : (db : Db) → IsFair ctx env p db (image_door ctx env p db)
  unfolding image_door
  image_door-IsFair db = elim (Option-cases (require_string "prompt" p.body)) [
    | inl e ↦ rw (e, image_door) (unchanged-IsFree db)
    | inr (prompt, e) ↦ elim (Bool-cases (is_async ctx env p || prefers_async_image p.model.id)) [
      | inl a ↦ rw (e, image_door) (rw a (started-IsFair ImageAsset Schema.image 1 db))
      | inr a ↦
          rw (e, image_door)
            (rw a (
              called-IsFair ImageAsset (image_call ctx env p prompt) extract_image_asset
                "no_image_payload" 1 db (omega arith)))
    ]
  ]

  units_by-ge : (unit : MeterUnit) (input : String) → 1 ≤ units_by ctx env p unit input
  units_by-ge k_characters input = omega arith
  units_by-ge request input = omega arith
  units_by-ge audio_minute input = omega arith

  pub speech_door-IsFair : (db : Db) → IsFair ctx env p db (speech_door ctx env p db)
  unfolding speech_door
  speech_door-IsFair db =
      elim (Option-cases
        (else_try (require_string "input" p.body) (require_string "text" p.body))) [
          | inl e ↦ rw (e, speech_door) (unchanged-IsFree db)
          | inr (input, e) ↦ elim (Bool-cases (is_async ctx env p)) [
            | inl a ↦
                rw (e, speech_door)
                  (rw a (
                    started-IsFair String Schema.speech (units_by ctx env p p.unit_price.unit input)
                      db))
            | inr a ↦
                rw (e, speech_door)
                  (rw a (
                    called-IsFair String (speech_call ctx env p input) (sound_of ctx env p)
                      "no_audio_payload" (units_by ctx env p p.unit_price.unit input) db
                      (units_by-ge p.unit_price.unit input)))
          ]
        ]

  deepgram-IsFair :
      (o : Option Json) (db : Db) → IsFair ctx env p db (at_once (deepgram_answer ctx env p o db))
  unfolding refuse
  deepgram-IsFair none db =
      refuse-IsFree ctx p env.row_id env.fault transcript_raw "no_transcript" 1 "upstream_error"
        none Http.upstream_error db
  deepgram-IsFair (some body) db =
      let found = transcript_raw body in
      at_once-IsFair ctx env p db
        (charge_found ctx p env.row_id env.fault "no_transcript" 1 none found db)
        (λ m h.
          let (units, price) =
            found_price ctx p env.row_id env.fault transcript_raw "no_transcript" 1 none found db m
              h in
          (
            (rw units (omega arith), price ∙ rw units refl),
            found-IsWritten ctx p env.row_id env.fault transcript_raw "no_transcript" 1 none found
                db m h,
          ))
        (found_refused ctx p env.row_id env.fault transcript_raw "no_transcript" 1 found none db)

  pub transcription_door-IsFair : (db : Db) → IsFair ctx env p db (transcription_door ctx env p db)
  unfolding transcription_door
  transcription_door-IsFair db =
      elim (Option-cases
        (else_try (require_string "audio" p.body) (require_string "file" p.body))) [
          | inl e ↦ rw (e, transcription_door) (unchanged-IsFree db)
          | inr (audio, e) ↦ elim (Bool-cases (is_deepgram_batch_stt ctx env p p.model.id)) [
            | inl d ↦ rw (e, transcription_door) (rw d (by_binding audio env.binding))
            | inr d ↦
                rw (e, transcription_door)
                  (rw d (
                    called-IsFair String (plain_call audio) transcript_raw "no_transcript" 1 db
                      (omega arith)))
          ]
        ]
    where
      by_binding :
          (audio : String) (o : Option (Passed → String → Option Json))
          → IsFair {A = String} ctx env p db (run_by ctx env p o audio db)
      by_binding audio none = unchanged-IsFree db
      by_binding audio (some binding) = deepgram-IsFair (binding p audio) db

  produced-IsFair :
      (call : DoorCall) (db : Db)
      → IsFair {A = String} ctx env p db (produce_video ctx env p call db)
  produced-IsFair call db =
      elim (Bool-cases (is_grok_video ctx env p p.model.id && not (is_some env.film_link))) [
        | inl e ↦ rw e (unchanged-IsFree db)
        | inr e ↦
            rw e
              (called-IsFair String call (film_of ctx env p) "no_video_payload" 1 db (omega arith))
      ]

  pub video_door-IsFair : (db : Db) → IsFair ctx env p db (video_door ctx env p db)
  unfolding video_door
  video_door-IsFair db =
      let prompt = or_else (require_string "prompt" p.body) "" in
      let unpictured = not (is_some (reference_image ctx env p)) in
      elim (Bool-cases (is_empty prompt && unpictured)) [
        | inl e ↦ rw (video_door, e) (unchanged-IsFree db)
        | inr e ↦ elim (Bool-cases (starts_with "minimax/hailuo" p.model.id && unpictured)) [
          | inl h ↦ rw (video_door, e, h) (unchanged-IsFree db)
          | inr h ↦ elim (Bool-cases (is_async ctx env p)) [
            | inl a ↦ rw (video_door, e, h, a) (started-IsFair String Schema.video 1 db)
            | inr a ↦ rw (video_door, e, h, a) (produced-IsFair (video_call ctx env p prompt) db)
          ]
        ]
      ]

  pub music_door-IsFair : (db : Db) → IsFair ctx env p db (music_door ctx env p db)
  unfolding music_door
  music_door-IsFair db = elim (Option-cases (require_string "prompt" p.body)) [
    | inl e ↦ rw (e, music_door) (unchanged-IsFree db)
    | inr (prompt, e) ↦ elim (Bool-cases (is_async ctx env p)) [
      | inl a ↦ rw (e, music_door) (rw a (started-IsFair (String × Bool) Schema.music 1 db))
      | inr a ↦
          rw (e, music_door)
            (rw a (
              called-IsFair (String × Bool) (music_call ctx env p prompt) (song_of ctx env p)
                "no_music_payload" 1 db (omega arith)))
    ]
  ]
