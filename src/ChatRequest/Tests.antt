-- ===== src/ChatRequest/Tests.antt =====
-- Tests of src/chat-request.ts, with a decoder that decodes nothing away.
use prism_control_plane.Prelude.{◌≡◌, refl, List, [], ◌∷◌, Option, none, some, ℕ, pos, String, true}
use prism_control_plane.Prelude.Number.{integer}
use prism_control_plane.Prelude.Json.{Json, num, str, arr, obj, nil, cons, Fields, end, field, bool}
use prism_control_plane.ChatRequest.{ValidChatRequest, parse_chat_request, prompt_text_bytes}
use prism_control_plane.ChatRequest.Turns.{ok, bad, user, images_not_allowed, bad_turn}
use prism_control_plane.ChatRequest.Limits.{IsBounded, parse_chat_request-IsBounded}

abbrev keep : List ℕ → Option (List ℕ)
keep s = some s

abbrev turn : String → Json → Json
turn role content = obj (field "role" (str role) (field "content" content end))

abbrev picture : Json
picture = arr (
    cons (obj (field "type" (str "text") (field "text" (str "look") end))) (
      cons (obj (field "type" (str "image_url") (field "image_url" (str "https://x/y.png") end)))
        nil))

abbrev body : Fields
body = field "model" (str " m ") (
    field "messages" (arr (cons (turn "user" picture) nil))
      (field "max_tokens" (num (integer (pos 64))) (field "stream" (bool true) end)))

abbrev request : ValidChatRequest
request = record {
  model = "m";
  messages = record { role = user; content = "look"; images = "https://x/y.png" ∷ [] } ∷ [];
  max_tokens = some 64;
  temperature = none;
  top_p = none;
  stream = true;
  image_bytes = none;
}

accepted : parse_chat_request keep (obj body) ≡ ok request
unfolding parse_chat_request
accepted = refl

parse_chat_request-IsBounded_example :
    (fields : Fields) × (obj body ≡ obj fields) × IsBounded fields request
parse_chat_request-IsBounded_example = parse_chat_request-IsBounded keep (obj body) request accepted

-- Only a user's turn holds an image.
no_image_by_assistant :
    parse_chat_request keep (
      obj (
        field "model" (str "m") (field "messages" (arr (cons (turn "assistant" picture) nil)) end)))
    ≡ bad (bad_turn 0 images_not_allowed)
unfolding parse_chat_request
no_image_by_assistant = refl

bytes_of_prompt : prompt_text_bytes request.messages ≡ 4
unfolding prompt_text_bytes
bytes_of_prompt = refl
