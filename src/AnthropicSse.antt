-- ===== src/AnthropicSse.antt =====
-- src/anthropic-sse-to-openai.ts: the frames of a chat completion, made from those of Anthropic
-- Messages. A frame is a value and is not printed: `encodeFrame` and the text encoder are left out.
-- The platform is that of Stream.
pub mod Grammar
pub mod Deferred
pub mod Completion
mod Tests
use Prim.Native.String
use prism_control_plane.Prelude.{
  ℕ, ◌&&◌, ◌||◌, Bool, true, false, not, String, Option, none, some, List, [], ◌∷◌, ◌++◌, str_eq,
  ◌==◌, if◌then◌else◌, or_else, ℤ, pos, sub_ℕ, ◌+◌, pos_part, neg_part,
}
use prism_control_plane.Prelude.Number.{Number, integer}
use prism_control_plane.Prelude.Strings.{drop_prefix, is_empty}
use prism_control_plane.Prelude.Text.{codes, split, trim}
use prism_control_plane.Prelude.Json.{
  Json, null, num, str, arr, obj, Items, nil, cons, Fields, end, field, member, is_object,
}
use prism_control_plane.Stream.Scanner.{Platform, strip_prefix, is_silent}

-- What every chunk carries.
pub record Head : Type 0 where
  pub id : String
  pub model : String
  pub created : ℕ

-- `AnthropicToOpenAIState`
pub record TranslationState : Type 0 where
  pub head : Head
  pub input_tokens : Option ℤ
  pub output_tokens : Option ℤ
  pub opened : Bool
  pub finished : Bool

-- `newAnthropicToOpenAIState`
abbrev pub new_state : Head → TranslationState
new_state head = record {
  head = head;
  input_tokens = none;
  output_tokens = none;
  opened = false;
  finished = false;
}

-- What is sent to the client; `done` is the sentinel, and a text is of the type `T`.
pub data Piece (T : Type 0) : Type 0 where
  opening finish : Head → Piece T
  text : Head → T → Piece T
  usage : Head → ℤ → ℤ → Piece T
  problem : String → Piece T
  done keepalive : Piece T

-- The payload of a frame that is JSON; `as_json` is how a text reads there.
abbrev pub chunk_json : Head → Items → Fields → Json
chunk_json h choices more = obj (
    field "id" (str h.id) (
      field "object" (str "chat.completion.chunk") (
        field "created" (num (integer (pos h.created)))
          (field "model" (str h.model) (field "choices" (arr choices) more)))))

abbrev pub choice_json : Fields → Json → Items
choice_json delta reason =
    cons
      (obj (
        field "index" (num (integer (pos 0)))
          (field "delta" (obj delta) (field "finish_reason" reason end))))
      nil

abbrev pub usage_json : ℤ → ℤ → Json
usage_json prompt completion = obj (
    field "prompt_tokens" (num (integer prompt)) (
      field "completion_tokens" (num (integer completion)) (
        field "total_tokens"
          (num (
            integer (
              sub_ℕ (pos_part prompt + pos_part completion)
                (neg_part prompt + neg_part completion))))
          end)))

module _ {T : Type 0} (as_json : T → Json) where
  abbrev pub payload_of : Piece T → Option Json
  payload_of (opening h) = some (
      chunk_json h
        (choice_json (field "role" (str "assistant") (field "content" (str "") end)) null) end)
  payload_of (finish h) = some (chunk_json h (choice_json end (str "stop")) end)
  payload_of (text h t) =
      some (chunk_json h (choice_json (field "content" (as_json t) end) null) end)
  payload_of (usage h prompt completion) =
      some (chunk_json h nil (field "usage" (usage_json prompt completion) end))
  payload_of (problem message) = some (
      obj (
        field "error"
          (obj (field "message" (str message) (field "type" (str "upstream_error") end))) end))
  payload_of done = none
  payload_of keepalive = none

module _ {T : Type 0} where
  -- `openChunk`, where the stream is not open yet
  abbrev pub open_chunk : TranslationState → TranslationState × List (Piece T)
  open_chunk s = if s.opened then (s, []) else (record s { opened = true }, opening s.head ∷ [])

  abbrev pub usage_frame : Head → Option ℤ → Option ℤ → List (Piece T)
  usage_frame h none none = []
  usage_frame h input output = usage h (or_else input (pos 0)) (or_else output (pos 0)) ∷ []

  -- `finishAndUsage`
  abbrev pub finish_and_usage : TranslationState → TranslationState × List (Piece T)
  finish_and_usage s = (
    record s { finished = true },
    finish s.head ∷ (usage_frame s.head s.input_tokens s.output_tokens ++ done ∷ []),
  )

  -- The end of a stream, once.
  abbrev pub close_once : TranslationState → TranslationState × List (Piece T)
  close_once s =
      if s.finished
      then (s, [])
      else let (opened, first) = open_chunk s in
        let (closed, rest) = finish_and_usage opened in (closed, first ++ rest)

-- The value where `Number.isInteger` holds.
abbrev pub integer_of : Option Json → Option ℤ
integer_of (some (num (integer z))) = some z
integer_of _ = none

abbrev pub count_or : Option ℤ → Option ℤ → Option ℤ
count_or none old = old
count_or (some z) old = some z

abbrev pub member_of : String → Option Json → Option Json
member_of k none = none
member_of k (some x) = member k x

-- The counts of a `usage`, where they are integers.
abbrev pub take_usage : Option Json → TranslationState → TranslationState
take_usage found s = record s {
  input_tokens = count_or (integer_of (member_of "input_tokens" found)) s.input_tokens;
  output_tokens = count_or (integer_of (member_of "output_tokens" found)) s.output_tokens;
}

-- `chatcmpl-` and the message's id without `msg_`
abbrev pub message_id : Option Json → String → String
message_id (some (str s)) old =
    if is_empty s then old else String.◌++◌ "chatcmpl-" (or_else (drop_prefix "msg_" s) s)
message_id _ old = old

abbrev pub message_start : Option Json → TranslationState → TranslationState × List (Piece String)
message_start message s = open_chunk (
    take_usage (member_of "usage" message)
      (record s { head = record s.head { id = message_id (member_of "id" message) s.head.id } }))

-- The text of a `text_delta`, if it has one.
abbrev pub delta_text : Option Json → Option Json → Option String
delta_text (some (str kind)) (some (str t)) =
    if str_eq kind "text_delta" && not (is_empty t) then some t else none
delta_text _ _ = none

abbrev pub text_chunk : Option String → TranslationState → TranslationState × List (Piece String)
text_chunk none s = (s, keepalive ∷ [])
text_chunk (some t) s = let (opened, first) = open_chunk s in (opened, first ++ text s.head t ∷ [])

abbrev pub is_quiet : String → Bool
is_quiet kind =
    str_eq kind "content_block_start" || str_eq kind "content_block_stop" || str_eq kind "ping"

abbrev pub frames_of_kind :
    String → Json → TranslationState → TranslationState × List (Piece String)
frames_of_kind kind frame s =
    if str_eq kind "message_start"
    then message_start (member "message" frame) s
    else if str_eq kind "content_block_delta"
    then (let delta = member "delta" frame in
        text_chunk (delta_text (member_of "type" delta) (member_of "text" delta)) s)
    else if str_eq kind "message_delta"
    then (take_usage (member "usage" frame) s, keepalive ∷ [])
    else if str_eq kind "message_stop"
    then close_once s
    else if is_quiet kind
    then (s, keepalive ∷ [])
    else (s, [])

-- `typeof d.type === "string"`
abbrev pub kind_of : Option Json → Option String
kind_of (some (str kind)) = some kind
kind_of _ = none

abbrev pub frames_of :
    Option String → Json → TranslationState → TranslationState × List (Piece String)
frames_of none frame s = (s, [])
frames_of (some kind) frame s = frames_of_kind kind frame s

-- `anthropicPayloadToOpenAIFrames`
unfoldable pub payload_to_frames : Json → TranslationState → TranslationState × List (Piece String)
payload_to_frames frame s = frames_of (kind_of (member "type" frame)) frame s

-- `rawLine.replace(/\r$/, "")`
abbrev pub drop_return : List ℕ → List ℕ
drop_return [] = []
drop_return (c ∷ []) = if c == 13 then [] else c ∷ []
drop_return (c ∷ d ∷ s) = c ∷ drop_return (d ∷ s)

module _ (p : Platform) where
  abbrev pub translate_payload : List ℕ → TranslationState → TranslationState × List (Piece String)
  translate_payload payload s =
      if is_silent payload
      then (s, [])
      else elim (p.parse_json payload) [ none ↦ (s, []) | some frame ↦ payload_to_frames frame s ]

  -- `consumeLine`
  unfoldable pub translate_line : List ℕ → TranslationState → TranslationState × List (Piece String)
  unfolding payload_to_frames trim
  translate_line raw_line s = elim (strip_prefix (codes "data:") (drop_return raw_line)) [
    | none ↦ (s, [])
    | some payload ↦ translate_payload (trim payload) s
  ]

  -- The lines before the last piece are translated, and the last piece is kept.
  abbrev pub translate_lines :
      List (List ℕ) → TranslationState → List ℕ × TranslationState × List (Piece String)
  translate_lines [] s = ([], s, [])
  translate_lines (last ∷ []) s = (last, s, [])
  translate_lines (line ∷ next ∷ lines) s =
      let (s', out) = translate_line line s in
      let (last, after, more) = translate_lines (next ∷ lines) s' in (last, after, out ++ more)

  -- `AnthropicSseToOpenAI`
  pub record Transformer : Type 0 where
    pub buffer : List ℕ
    pub decoder : p.Decoder
    pub state : TranslationState

  abbrev pub new_transformer : Head → Transformer
  new_transformer head = record { buffer = []; decoder = p.initial; state = new_state head }

  -- `push`
  unfoldable pub push_bytes : List ℕ → Transformer → Transformer × List (Piece String)
  unfolding split translate_line
  push_bytes chunk t =
      let (decoder, decoded) = p.decode chunk t.decoder in
      let (buffer, state, out) = translate_lines (split b'\n' (t.buffer ++ decoded)) t.state in
      (record { buffer = buffer; decoder = decoder; state = state }, out)

  -- The line that no line feed ended.
  abbrev pub last_line : List ℕ → TranslationState → TranslationState × List (Piece String)
  last_line [] s = (s, [])
  last_line (c ∷ buffer) s = translate_line (c ∷ buffer) s

  -- `end`
  unfoldable pub end_stream : Transformer → TranslationState × List (Piece String)
  unfolding translate_line
  end_stream t =
      let (s, out) = last_line (t.buffer ++ p.flush t.decoder) t.state in
      let (closed, rest) = close_once s in (closed, out ++ rest)

  -- `anthropicSseToOpenAIStream` on a source that is read to its end, or that fails: its chunks, then
  -- the end. The keepalives of the timer are left out.
  unfoldable pub transform : List (List ℕ) → Transformer → List (Piece String)
  unfolding push_bytes end_stream
  transform [] t = (end_stream t).1
  transform (chunk ∷ chunks) t = let (t', out) = push_bytes chunk t in out ++ transform chunks t'
