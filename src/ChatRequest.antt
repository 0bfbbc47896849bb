-- ===== src/ChatRequest.antt =====
-- src/chat-request.ts: which bodies of POST /v1/chat/completions are a request. `atob`, the
-- platform's base64 decoder, is an argument. The members of an object are given once each, as
-- `JSON.parse` leaves them.
pub mod Image
pub mod Turns
pub mod Limits
mod Tests
use Prim.Native.String
use prism_control_plane.Prelude.{
  ℕ, suc, ◌+◌, Bool, true, false, ◌&&◌, ◌||◌, not, String, Option, none, some, List, [], ◌∷◌, ◌++◌,
  ltb, leb, str_eq, if◌then◌else◌, length, any, total, pos, negsuc, ℤ,
}
use prism_control_plane.Prelude.Number.{Number, integer, fraction, is_finite, is_negative}
use prism_control_plane.Prelude.Strings.{is_empty, trim_text, utf16_length}
use prism_control_plane.Prelude.Json.{
  Json, str, num, bool, arr, obj, Items, nil, cons, Fields, end, field, find_field, member,
}
use prism_control_plane.ChatRequest.Image.{
  max_image_bytes, parse_image_data_url, ImageResult, image_ok, image_bad,
}
use prism_control_plane.ChatRequest.Turns.{
  Checked, ok, bad, ◌>>=◌, ◌>>◌, Role, ChatTurnInput, RequestProblem, not_an_object, unknown_field,
  no_model, no_messages, too_many_messages, bad_max_tokens, bad_temperature, bad_top_p, bad_stream,
  bad_image, items, keys, is_in, parse_turns,
}

-- `ALLOWED_FIELDS`
abbrev pub allowed_fields : List String
allowed_fields =
    "model" ∷ "messages" ∷ "max_tokens" ∷ "temperature" ∷ "top_p" ∷ "stream" ∷ "image" ∷ []

-- `MAX_MESSAGES`
abbrev pub max_messages : ℕ
max_messages = 200

pub record ValidChatRequest : Type 0 where
  pub model : String
  pub messages : List ChatTurnInput
  pub max_tokens : Option ℕ
  pub temperature : Option Number
  pub top_p : Option Number
  pub stream : Bool
  pub image_bytes : Option (List ℕ)

-- The loop over `Object.keys(raw)`.
abbrev pub check_fields : List String → Checked (Unit {0})
check_fields [] = ok tt
check_fields (k ∷ ks) =
    let rest = check_fields ks in if is_in k allowed_fields then rest else bad (unknown_field k)

abbrev pub parse_model : Option Json → Checked String
parse_model (some (str s)) = let t = trim_text s in if is_empty t then bad no_model else ok t
parse_model _ = bad no_model

abbrev pub parse_messages : (List ℕ → Option (List ℕ)) → Option Json → Checked (List ChatTurnInput)
parse_messages atob (some (arr nil)) = bad no_messages
parse_messages atob (some (arr (cons x xs))) =
    let turns = items (cons x xs) in
    if ltb max_messages (length turns)
    then bad (too_many_messages (length turns))
    else parse_turns atob 0 turns
parse_messages atob _ = bad no_messages

abbrev pub parse_max_tokens : Option Json → Checked (Option ℕ)
parse_max_tokens none = ok none
parse_max_tokens (some (num (integer (pos n)))) =
    if ltb n 1 then bad bad_max_tokens else ok (some n)
parse_max_tokens (some _) = bad bad_max_tokens

-- `x > n`, for a finite `x`
abbrev pub exceeds : Number → ℕ → Bool
exceeds (integer (pos m)) n = ltb n m
exceeds (fraction (pos m)) n = leb n m
exceeds _ n = false

-- `x <= 0`, for a finite `x`
abbrev pub is_not_positive : Number → Bool
is_not_positive (integer (pos m)) = leb m 0
is_not_positive x = is_negative x

abbrev pub parse_temperature : Option Json → Checked (Option Number)
parse_temperature none = ok none
parse_temperature (some (num x)) =
    if is_finite x
    then (if is_negative x || exceeds x 2 then bad bad_temperature else ok (some x))
    else bad bad_temperature
parse_temperature (some _) = bad bad_temperature

abbrev pub parse_top_p : Option Json → Checked (Option Number)
parse_top_p none = ok none
parse_top_p (some (num x)) =
    if is_finite x
    then (if is_not_positive x || exceeds x 1 then bad bad_top_p else ok (some x))
    else bad bad_top_p
parse_top_p (some _) = bad bad_top_p

abbrev pub parse_stream : Option Json → Checked Bool
parse_stream none = ok false
parse_stream (some (bool b)) = ok b
parse_stream (some _) = bad bad_stream

abbrev pub image_checked : ImageResult → Checked (Option (List ℕ))
image_checked (image_ok bytes mime) = ok (some bytes)
image_checked image_bad = bad bad_image

abbrev pub parse_image : (List ℕ → Option (List ℕ)) → Option Json → Checked (Option (List ℕ))
parse_image atob none = ok none
parse_image atob (some (str s)) =
    if is_empty (trim_text s)
    then bad bad_image
    else image_checked (parse_image_data_url atob (trim_text s))
parse_image atob (some _) = bad bad_image

-- `parseChatRequest`
unfoldable pub parse_chat_request : (List ℕ → Option (List ℕ)) → Json → Checked ValidChatRequest
unfolding trim_text parse_turns parse_image_data_url
parse_chat_request atob (obj fields) = do
  check_fields (keys fields)
  model ← parse_model (find_field "model" fields)
  messages ← parse_messages atob (find_field "messages" fields)
  max_tokens ← parse_max_tokens (find_field "max_tokens" fields)
  temperature ← parse_temperature (find_field "temperature" fields)
  top_p ← parse_top_p (find_field "top_p" fields)
  stream ← parse_stream (find_field "stream" fields)
  image_bytes ← parse_image atob (find_field "image" fields)
  ok (record {
    model = model;
    messages = messages;
    max_tokens = max_tokens;
    temperature = temperature;
    top_p = top_p;
    stream = stream;
    image_bytes = image_bytes;
  })
parse_chat_request atob _ = bad not_an_object

-- `promptTextBytes`
unfoldable pub prompt_text_bytes : List ChatTurnInput → ℕ
prompt_text_bytes = total (λ t. String.len t.content)
