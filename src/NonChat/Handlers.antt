-- ===== src/NonChat/Handlers.antt =====
-- The five handlers of src/routes/nonchat.ts, from the request to the answer.
use prism_control_plane.Prelude.{ℕ, ◌≡◌, refl, ap, ◌∙◌, Bool, Option, List}
use prism_control_plane.Prelude.Json.{Json}
use prism_control_plane.Http.{ReadBodyResult}
use prism_control_plane.Catalog.{Modality, image, tts, stt, video, music}
use prism_control_plane.Store.Schema.{Db}
use prism_control_plane.Chat.Context.{Ctx}
use prism_control_plane.Chat.Gates.{Gate, pass, stop}
use prism_control_plane.Chat.Settled.{IsFree, unchanged-IsFree}
use prism_control_plane.Store.Audit.{period_at}
use prism_control_plane.Chat.Touches.{OnlyTouches}
use prism_control_plane.NonChat.{
  image_door, speech_door, transcription_door, video_door, music_door, through, handle,
  handle_image_generations, handle_audio_speech, handle_audio_transcriptions,
  handle_video_generations, handle_music_generations,
}
use prism_control_plane.NonChat.Context.{Env, DoorAnswer, answered, accepted}
use prism_control_plane.NonChat.Gates.{Passed, gate_non_chat}
use prism_control_plane.NonChat.Entry.{IsPassed, gate_non_chat_sound}
use prism_control_plane.NonChat.Touches.{gate_non_chat-OnlyTouches}
use prism_control_plane.NonChat.Meter.{charged, refused}
use prism_control_plane.NonChat.Paid.{IsWritten}
use prism_control_plane.NonChat.Doors.{
  IsPriced, IsBegun, IsFair, image_door-IsFair, speech_door-IsFair, transcription_door-IsFair,
  video_door-IsFair, music_door-IsFair,
}

-- What an answer to a request costs: a charge is priced for a request that has passed every gate, and
-- a row of that price is written on what the gates left; a refusal leaves every account and every
-- allowance as they were; a job is begun for a request that has passed the gates too, and leaves the
-- accounts and the ledger as they were.
abbrev pub IsCosted :
    {A : Type 0}
    → Ctx
    → Env
    → Bool
    → Modality
    → Option (List ℕ)
    → ReadBodyResult Json
    → Db
    → Db × DoorAnswer A
    → Type 0
IsCosted ctx env has_runner modality header read db (db', answered (charged m)) =
    (p : Passed) × IsPassed ctx has_runner modality header read db p
    × IsPriced p m
    × ((gated : Db) × OnlyTouches db gated × IsWritten ctx p env.fault m gated db')
IsCosted ctx env has_runner modality header read db (db', answered (refused code)) = IsFree db db'
IsCosted ctx env has_runner modality header read db (db', accepted row) =
    (p : Passed) × IsPassed ctx has_runner modality header read db p
    × IsBegun env p row
    × (db'.accounts ≡ db.accounts)
    × (db'.usage_events ≡ db.usage_events)

-- What the gates touch costs nothing.
OnlyTouches-IsFree :
    (db gated after : Db) → OnlyTouches db gated → IsFree gated after → IsFree db after
OnlyTouches-IsFree db gated after kept (accounts, periods) = (
  accounts ∙ ap (λ d. d.accounts) kept,
  λ a k.
      let same = ap (λ d. period_at a k d.usage_periods) kept in
      (
        (periods a k).0 ∙ ap (λ r. r.micro_usd) same,
        (periods a k).1 ∙ ap (λ r. r.allowance_spent_micro_usd) same,
      ),
)

module _ (ctx : Ctx) (env : Env) (has_runner : Bool) (modality : Modality)
    (header : Option (List ℕ)) (read : ReadBodyResult Json) (db : Db) where
  priced-IsCosted :
      {A : Type 0} (p : Passed) (db' : Db) (r : Db × DoorAnswer A)
      → IsPassed ctx has_runner modality header read db p
      → OnlyTouches db db'
      → IsFair ctx env p db' r
      → IsCosted ctx env has_runner modality header read db r
  priced-IsCosted p db' (after, answered (charged m)) passed kept (priced, written) =
      (p, passed, priced, (db', kept, written))
  priced-IsCosted p db' (after, answered (refused code)) passed kept fair =
      OnlyTouches-IsFree db db' after kept fair
  priced-IsCosted p db' (after, accepted row) passed kept (begun, accounts, events) = (
    p,
    passed,
    begun,
    accounts ∙ ap (λ d. d.accounts) kept,
    events ∙ ap (λ d. d.usage_events) kept,
  )

  through-IsCosted :
      {A : Type 0} (door : Passed → Db → Db × DoorAnswer A) (db' : Db) (g : Gate Passed)
      → ((p : Passed) (d : Db) → IsFair ctx env p d (door p d))
      → ((p : Passed) → g ≡ pass p → IsPassed ctx has_runner modality header read db p)
      → OnlyTouches db db'
      → IsCosted ctx env has_runner modality header read db (through door g db')
  through-IsCosted door db' (stop code) fair sound kept =
      OnlyTouches-IsFree db db' db' kept (unchanged-IsFree db')
  through-IsCosted door db' (pass p) fair sound kept =
      priced-IsCosted p db' (door p db') (sound p refl) kept (fair p db')

  handle-IsCosted :
      {A : Type 0} (door : Passed → Db → Db × DoorAnswer A)
      → ((p : Passed) (d : Db) → IsFair ctx env p d (door p d))
      → IsCosted ctx env has_runner modality header read db
          (handle ctx has_runner modality door header read db)
  unfolding handle
  handle-IsCosted door fair =
      let gate = gate_non_chat ctx has_runner modality header read db in
      through-IsCosted door gate.0 gate.1 fair
        (gate_non_chat_sound ctx has_runner modality header read db)
        (gate_non_chat-OnlyTouches ctx has_runner modality header read db)

-- Whatever a request asks of the five doors and whatever the runner, the binding and the workflows
-- answer: a charge is for a request that has passed every gate of the door and is the price of one
-- unit or more at the unit price that the gates found; the one write behind it is that of a metered
-- row of the caller's, of just that price, split without loss and with no more from the allowance
-- than was left of it, and the answer says that it was recorded exactly when that write was not cut
-- off; a request that is refused, also behind a failed call or a failed start of a job, leaves every
-- account, and the money and the spent allowance of every account in every period, as they were; and
-- a job is begun for a request that has passed the gates too, it belongs to the account and the
-- client that asked, the workflow has taken it and is to charge that account the price of one unit or
-- more, and until then the accounts and the ledger are as they were.
pub handlers-IsCosted :
    (ctx : Ctx) (env : Env) (has_runner : Bool) (header : Option (List ℕ))
    (read : ReadBodyResult Json) (db : Db)
    → IsCosted ctx env has_runner image header read db
        (handle_image_generations ctx env has_runner header read db)
      × IsCosted ctx env has_runner tts header read db
          (handle_audio_speech ctx env has_runner header read db)
      × IsCosted ctx env has_runner stt header read db
          (handle_audio_transcriptions ctx env has_runner header read db)
      × IsCosted ctx env has_runner video header read db
          (handle_video_generations ctx env has_runner header read db)
      × IsCosted ctx env has_runner music header read db
          (handle_music_generations ctx env has_runner header read db)
unfolding handle_image_generations handle_audio_speech handle_audio_transcriptions
    handle_video_generations handle_music_generations
handlers-IsCosted ctx env has_runner header read db = (
  handle-IsCosted ctx env has_runner image header read db (image_door ctx env)
      (image_door-IsFair ctx env),
  handle-IsCosted ctx env has_runner tts header read db (speech_door ctx env)
      (speech_door-IsFair ctx env),
  handle-IsCosted ctx env has_runner stt header read db (transcription_door ctx env)
      (transcription_door-IsFair ctx env),
  handle-IsCosted ctx env has_runner video header read db (video_door ctx env)
      (video_door-IsFair ctx env),
  handle-IsCosted ctx env has_runner music header read db (music_door ctx env)
      (music_door-IsFair ctx env),
)
