-- ===== src/Chat.antt =====
-- src/routes/chat.ts: POST /v1/chat/completions. Context holds what the handler is given, Gates the
-- steps up to the upstream credential, Spend what happens after the model was called. Between two
-- steps that wait, other requests may write: each step takes the database as it stands then.
pub mod Context
pub mod Gates
pub mod Spend
pub mod Lets
pub mod Entry
pub mod Touches
pub mod Charges
pub mod Books
pub mod Settled
pub mod Sample
mod Tests
use prism_control_plane.Prelude.{ℕ, String, Option, none, some, List}
use prism_control_plane.Prelude.Json.{Json}
use prism_control_plane.Http.{ErrorCode, ReadBodyResult}
use prism_control_plane.Store.Schema.{Db}
use prism_control_plane.ChatRequest.Turns.{ChatTurnInput}
use prism_control_plane.Inference.{InferenceRequest}
use prism_control_plane.Chat.Context.{Ctx, Response, refused}
use prism_control_plane.Chat.Gates.{Admitted, Gate, pass, stop, admit}
use prism_control_plane.Stream.{Event, start_relay, relay_run}
use prism_control_plane.Stream.Scanner.{Platform}
use prism_control_plane.Chat.Spend.{
  InferenceResult, stream, request_of, respond, settle_stream, settle_all,
}

module _ (ctx : Ctx) (run : InferenceRequest ChatTurnInput → InferenceResult) (p : Platform)
    (events : List Event) (id : String) (fault : Option ℕ) where
  -- What is left once the response stands: for a stream the relay runs, and its callback settles.
  abbrev pub relayed : Admitted → InferenceResult → Db × Response → Db × Response
  relayed a (stream log_id) (db, response) = (
    settle_all ctx a (relay_run p events (start_relay p)).settlements log_id id fault db,
    response,
  )
  relayed a _ x = x

  -- The answer to what the gates said: the runner is called for an admitted request only.
  unfoldable pub answer : Gate Admitted → Db → Db × Response
  unfolding respond settle_stream
  answer (stop code) db = (db, refused code)
  answer (pass a) db =
      let result = run (request_of ctx a) in relayed a result (respond ctx a result id fault db)

  -- `handleChatCompletions` up to the end of its stream, if it answers with one, with no other
  -- request between its steps. `run` is the configured runner, `events` what happens to the stream
  -- under the platform `p`, `id` the id that is drawn for the ledger row, and `fault` where its write
  -- fails, if it does.
  unfoldable pub handle_chat_completions :
      Option (List ℕ) → ReadBodyResult Json → Db → Db × Response
  unfolding admit answer
  handle_chat_completions header body db =
      let (db', admission) = admit ctx header body db in answer admission db'
