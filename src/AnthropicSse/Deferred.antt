-- ===== src/AnthropicSse/Deferred.antt =====
-- `openAIStreamFromCompletion` and `openAIStreamFromDeferredCompletion` of
-- src/anthropic-sse-to-openai.ts: the stream of an answer that comes whole. A text is its list of
-- UTF-16 units. What happens to the stream is a list of events: the timer fires, the answer comes or
-- fails with a message, cut to what is shown of it, the client hangs up.
use prism_control_plane.Prelude.{
  ℕ, zero, suc, Bool, true, false, String, Option, none, some, List, [], ◌∷◌, ◌++◌, map, length,
  take, drop, ℤ, if◌then◌else◌,
}
use prism_control_plane.Prelude.Number.{Number, integer}
use prism_control_plane.AnthropicSse.{
  Head, TranslationState, new_state, Piece, text, problem, keepalive, open_chunk, finish_and_usage,
  count_or,
}

-- `DeferredCompletionResult`
pub record Completion : Type 0 where
  pub text : List ℕ
  pub prompt_tokens : Option Number
  pub completion_tokens : Option Number

abbrev pub integer_in : Option Number → Option ℤ
integer_in (some (integer z)) = some z
integer_in _ = none

abbrev pub told : Completion → TranslationState → TranslationState
told c s = record s {
  input_tokens = count_or (integer_in c.prompt_tokens) s.input_tokens;
  output_tokens = count_or (integer_in c.completion_tokens) s.output_tokens;
}

abbrev pub chunk_size : ℕ
chunk_size = 48

-- `text.slice(i, i + chunkSize)` for each `i` of the loop, as often as the first argument says
unfoldable pub slices : ℕ → List ℕ → List (List ℕ)
slices zero s = []
slices (suc n) [] = []
slices (suc n) (c ∷ s) = take chunk_size (c ∷ s) ∷ slices n (drop chunk_size (c ∷ s))

abbrev pub text_chunks : Head → List ℕ → List (Piece (List ℕ))
text_chunks head s = map (text head) (slices (length s) s)

-- `openAIStreamFromCompletion`
unfoldable pub stream_from_completion : Head → Completion → List (Piece (List ℕ))
unfolding slices
stream_from_completion head c =
    let (s, first) = open_chunk (told c (new_state head)) in
    first ++ text_chunks head c.text ++ (finish_and_usage s).1

-- The variables of `start`, and what has been sent. The controller of a stream that was hung up on
-- throws at an `enqueue`.
pub record Deferred : Type 0 where
  pub state : TranslationState
  pub sent : List (Piece (List ℕ))
  pub is_closed : Bool
  pub is_gone : Bool
  pub has_timer : Bool

-- `enqueue`
abbrev pub enqueue : List (Piece (List ℕ)) → Deferred → Deferred
enqueue [] d = d
enqueue (x ∷ xs) d =
    if d.is_closed
    then d
    else if d.is_gone
    then record d { is_closed = true }
    else record d { sent = d.sent ++ x ∷ xs }

abbrev pub enqueue_each : List (Piece (List ℕ)) → Deferred → Deferred
enqueue_each [] d = d
enqueue_each (x ∷ xs) d = enqueue_each xs (enqueue (x ∷ []) d)

-- `finish`
abbrev pub finish_deferred : Deferred → Deferred
finish_deferred d = if d.is_closed then d else record d { is_closed = true; has_timer = false }

abbrev pub start_deferred : Head → Deferred
start_deferred head =
    let (s, first) = open_chunk (new_state head) in
    enqueue first
      (record { state = s; sent = []; is_closed = false; is_gone = false; has_timer = true })

pub data DeferredEvent : Type 0 where
  tick : DeferredEvent
  resolved : Completion → DeferredEvent
  rejected : String → DeferredEvent
  hung_up : DeferredEvent

abbrev pub send_finish : Deferred → Deferred
send_finish d =
    let (s, out) = finish_and_usage d.state in
    finish_deferred (enqueue out (record d { state = s }))

unfoldable pub deferred_step : DeferredEvent → Deferred → Deferred
unfolding slices
deferred_step tick d = if d.has_timer then enqueue (keepalive ∷ []) d else d
deferred_step (resolved c) d =
    send_finish
      (enqueue_each (text_chunks d.state.head c.text) (record d { state = told c d.state }))
deferred_step (rejected message) d =
    let failed = enqueue (problem message ∷ []) d in
    if failed.state.finished then finish_deferred failed else send_finish failed
deferred_step hung_up d = if d.is_closed then d else record d { is_gone = true }

-- `openAIStreamFromDeferredCompletion`, over all that happens to it.
unfoldable pub deferred_run : List DeferredEvent → Deferred → Deferred
unfolding deferred_step
deferred_run [] d = d
deferred_run (e ∷ es) d = deferred_run es (deferred_step e d)
