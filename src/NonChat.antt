-- ===== src/NonChat.antt =====
-- src/routes/nonchat.ts: the doors for images, speech, transcription, video and music. Gates holds
-- `gateNonChat`, Assets the readers of a provider's answer, Meter what is written to the ledger. The
-- runner, with the parameters that it builds for a provider, the AI binding, the workflows binding
-- and the media store are arguments.
pub mod Assets
pub mod Context
pub mod Gates
pub mod Entry
pub mod Touches
pub mod Meter
pub mod Paid
pub mod Doors
pub mod Handlers
mod Tests
use Prim.Native.String
use prism_control_plane.Prelude.{
  ℕ, ◌+◌, ◌/◌, max, ℤ, Bool, true, false, ◌&&◌, ◌||◌, not, String, Option, none, some, is_some,
  List, str_eq, if◌then◌else◌, or_else,
}
use prism_control_plane.Prelude.Number.{Number}
use prism_control_plane.Prelude.Strings.{starts_with, is_empty, utf16_length}
use prism_control_plane.Prelude.Json.{Json, member, coalesce}
use prism_control_plane.Http.{ErrorCode, ReadBodyResult, invalid_request}
use prism_control_plane.Http as Http
use prism_control_plane.Catalog.{Modality, image, tts, stt, video, music, MeterUnit, k_characters}
use prism_control_plane.Store.Schema.{Db, AsyncJobRow, AsyncJobKind, running, failed}
use prism_control_plane.Store.Schema as Schema
use prism_control_plane.Store.Jobs.{create_async_job, update_async_job}
use prism_control_plane.VideoDuration.{resolve_video_duration}
use prism_control_plane.Jobs.{wants_async}
use prism_control_plane.LongRun.{LongRunParams}
use prism_control_plane.Chat.Context.{Ctx}
use prism_control_plane.Chat.Gates.{Gate, pass, stop}
use prism_control_plane.NonChat.Assets.{
  else_try, filled, ImageAsset, extract_image_asset, extract_audio_base64, transcript_raw,
  extract_asset, prefers_async_image, provider_state_failed,
}
use prism_control_plane.NonChat.Gates.{Passed, require_string, gate_non_chat}
use prism_control_plane.NonChat.Meter.{RunResult, Answer, refused, serve, refuse, charge_found}
use prism_control_plane.NonChat.Context.{
  DoorCall, plain_call, Env, DoorAnswer, at_once, is_link, includes, bad_request, new_job,
  failed_start, launched, job_params, start_by, start_async_long_run, call_for, is_async,
  reference_image, answered, accepted,
}

module _ (ctx : Ctx) (env : Env) (p : Passed) where
  abbrev pub image_call : String → DoorCall
  image_call prompt = record (plain_call prompt) { image_url = reference_image ctx env p }

  -- `handleImageGenerations`
  unfoldable pub image_door : Db → Db × DoorAnswer ImageAsset
  unfolding require_string wants_async start_async_long_run serve extract_image_asset
  image_door db = elim (require_string "prompt" p.body) [
    | none ↦ bad_request ctx env p db
    | some prompt ↦
        if is_async ctx env p || prefers_async_image p.model.id
        then start_async_long_run ctx env p Schema.image 1 db
        else call_for ctx env p (image_call prompt) extract_image_asset "no_image_payload" 1 db
  ]

  -- `Math.max(1, Math.ceil(input.length / 1000))` where the rate is by thousand characters
  abbrev pub units_by : MeterUnit → String → ℕ
  units_by k_characters input = max 1 ((utf16_length input + 999) / 1000)
  units_by _ input = 1

  abbrev pub speech_call : String → DoorCall
  speech_call input = record (plain_call input) {
    voice = else_try (require_string "voice" p.body) (require_string "speaker" p.body);
  }

  -- An empty sound is taken for none.
  abbrev pub sound_of : Json → Option String
  sound_of body = filled (extract_audio_base64 body)

  -- `handleAudioSpeech`
  unfoldable pub speech_door : Db → Db × DoorAnswer String
  unfolding require_string wants_async start_async_long_run serve extract_audio_base64 utf16_length
  speech_door db = elim (else_try (require_string "input" p.body) (require_string "text" p.body)) [
    | none ↦ bad_request ctx env p db
    | some input ↦
        if is_async ctx env p
        then start_async_long_run ctx env p Schema.speech (units_by p.unit_price.unit input) db
        else call_for ctx env p (speech_call input) sound_of "no_audio_payload"
            (units_by p.unit_price.unit input) db
  ]

  -- `isDeepgramBatchStt`
  abbrev pub is_deepgram_batch_stt : String → Bool
  is_deepgram_batch_stt id = starts_with "@cf/deepgram/" id && not (includes "flux" id)

  -- `runDeepgramBatchStt`
  abbrev pub deepgram_answer : Option Json → Db → Db × Answer String
  deepgram_answer none db =
      refuse ctx p env.row_id env.fault "upstream_error" none Http.upstream_error db
  deepgram_answer (some body) db =
      charge_found ctx p env.row_id env.fault "no_transcript" 1 none (transcript_raw body) db

  abbrev pub run_by : Option (Passed → String → Option Json) → String → Db → Db × DoorAnswer String
  run_by none audio db = (db, answered (refused Http.unavailable))
  run_by (some binding) audio db = at_once (deepgram_answer (binding p audio) db)

  abbrev pub run_deepgram_batch_stt : String → Db → Db × DoorAnswer String
  run_deepgram_batch_stt = run_by env.binding

  -- `handleAudioTranscriptions`; a `data:` prefix of the recording is left to the runner and to the
  -- binding.
  unfoldable pub transcription_door : Db → Db × DoorAnswer String
  unfolding require_string serve refuse starts_with
  transcription_door db =
      elim (else_try (require_string "audio" p.body) (require_string "file" p.body)) [
        | none ↦ bad_request ctx env p db
        | some audio ↦
            if is_deepgram_batch_stt p.model.id
            then run_deepgram_batch_stt audio db
            else call_for ctx env p (plain_call audio) transcript_raw "no_transcript" 1 db
      ]

  abbrev pub is_grok_video : String → Bool
  is_grok_video id = starts_with "xai/grok-imagine-video" id

  -- The film of an answer: our own link where the provider stored it with us.
  abbrev pub film_asset : Option String → Option String → Option String
  film_asset none found = found
  film_asset (some link) found =
      if env.is_ready
      then some link
      else elim found [ none ↦ none | some url ↦ some (if env.is_late then link else url) ]

  abbrev pub film_of : Json → Option String
  film_of body =
      film_asset (if is_grok_video p.model.id then env.film_link else none)
        (extract_asset "video" body)

  -- `produceVideo` and the metering behind it
  abbrev pub produce_video : DoorCall → Db → Db × DoorAnswer String
  produce_video call db =
      if is_grok_video p.model.id && not (is_some env.film_link)
      then (db, answered (refused Http.unavailable))
      else call_for ctx env p call film_of "no_video_payload" 1 db

  abbrev pub video_call : String → DoorCall
  video_call prompt = record (plain_call prompt) {
    image_url = reference_image ctx env p;
    duration =
        (resolve_video_duration env.round p.model.id
          (coalesce (member "duration" p.body) (member "seconds" p.body))).0;
  }

  -- `handleVideoGenerations`
  unfoldable pub video_door : Db → Db × DoorAnswer String
  unfolding require_string wants_async start_async_long_run serve extract_asset starts_with
      resolve_video_duration
  video_door db =
      let prompt = or_else (require_string "prompt" p.body) "" in
      if is_empty prompt && not (is_some (reference_image ctx env p))
      then bad_request ctx env p db
      else if starts_with "minimax/hailuo" p.model.id && not (is_some (reference_image ctx env p))
      then bad_request ctx env p db
      else if is_async ctx env p
      then start_async_long_run ctx env p Schema.video 1 db
      else produce_video (video_call prompt) db

  -- A song, and whether it is our own copy.
  abbrev pub song_asset : Option String → Option (String × Bool)
  song_asset none = none
  song_asset (some url) = some (
      if is_link url
      then (elim (env.rehost url) [ none ↦ (url, false) | some ours ↦ (ours, true) ])
      else (url, false))

  abbrev pub song_of : Json → Option (String × Bool)
  song_of body = song_asset (extract_asset "audio" body)

  abbrev pub music_call : String → DoorCall
  music_call prompt = record (plain_call prompt) { lyrics = require_string "lyrics" p.body }

  -- `handleMusicGenerationsInner`, `produceMusic`
  unfoldable pub music_door : Db → Db × DoorAnswer (String × Bool)
  unfolding require_string wants_async start_async_long_run serve extract_asset
  music_door db = elim (require_string "prompt" p.body) [
    | none ↦ bad_request ctx env p db
    | some prompt ↦
        if is_async ctx env p
        then start_async_long_run ctx env p Schema.music 1 db
        else call_for ctx env p (music_call prompt) song_of "no_music_payload" 1 db
  ]

-- A door behind its gates.
abbrev pub through :
    {A : Type 0} → (Passed → Db → Db × DoorAnswer A) → Gate Passed → Db → Db × DoorAnswer A
through door (stop code) db = (db, answered (refused code))
through door (pass p) db = door p db

-- A handler: the gates of the modality, then the door.
unfoldable pub handle :
    {A : Type 0}
    → Ctx
    → Bool
    → Modality
    → (Passed → Db → Db × DoorAnswer A)
    → Option (List ℕ)
    → ReadBodyResult Json
    → Db
    → Db × DoorAnswer A
unfolding gate_non_chat
handle ctx has_runner modality door header body db =
    let (db', gate) = gate_non_chat ctx has_runner modality header body db in through door gate db'

module _ (ctx : Ctx) (env : Env) (has_runner : Bool) where
  unfoldable pub handle_image_generations :
      Option (List ℕ) → ReadBodyResult Json → Db → Db × DoorAnswer ImageAsset
  unfolding handle image_door
  handle_image_generations = handle ctx has_runner image (image_door ctx env)

  unfoldable pub handle_audio_speech :
      Option (List ℕ) → ReadBodyResult Json → Db → Db × DoorAnswer String
  unfolding handle speech_door
  handle_audio_speech = handle ctx has_runner tts (speech_door ctx env)

  unfoldable pub handle_audio_transcriptions :
      Option (List ℕ) → ReadBodyResult Json → Db → Db × DoorAnswer String
  unfolding handle transcription_door
  handle_audio_transcriptions = handle ctx has_runner stt (transcription_door ctx env)

  unfoldable pub handle_video_generations :
      Option (List ℕ) → ReadBodyResult Json → Db → Db × DoorAnswer String
  unfolding handle video_door
  handle_video_generations = handle ctx has_runner video (video_door ctx env)

  unfoldable pub handle_music_generations :
      Option (List ℕ) → ReadBodyResult Json → Db → Db × DoorAnswer (String × Bool)
  unfolding handle music_door
  handle_music_generations = handle ctx has_runner music (music_door ctx env)
