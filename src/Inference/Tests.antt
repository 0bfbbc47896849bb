-- ===== src/Inference/Tests.antt =====
-- Tests of src/inference.ts.
use prism_control_plane.Prelude.{◌≡◌, refl, String}
use prism_control_plane.Prelude.Json.{Json, null, str, arr, obj, nil, cons, end, field}
use prism_control_plane.Inference.{text, unreadable, thrown, extract_text, extract_finish_reason}

abbrev raw : Json → String
raw j = "[object Object]"

abbrev one : Json → Json
one j = arr (cons j nil)

openai :
    extract_text raw (
      obj (
        field "choices"
          (one (obj (field "message" (obj (field "content" (str "hi") end)) end)))
          end))
    ≡ text "hi"
unfolding extract_text
openai = refl

thinking :
    extract_text raw (
      obj (
        field "content"
          (one (obj (field "type" (str "thinking") (field "thinking" (str "hm") end))))
          end))
    ≡ text "hm"
unfolding extract_text
thinking = refl

wrapped :
    extract_text raw (obj (field "result" (obj (field "response" (str "ok") end)) end)) ≡ text "ok"
unfolding extract_text
wrapped = refl

nothing : extract_text raw (obj (field "usage" null end)) ≡ unreadable
unfolding extract_text
nothing = refl

null_choice : extract_finish_reason (obj (field "choices" (one null) end)) ≡ thrown
unfolding extract_finish_reason
null_choice = refl
