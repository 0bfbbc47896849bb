-- ===== src/NonChat/Assets.antt =====
-- The readers of a provider's answer in src/nonchat-upstream.ts: whether it says that it failed, and
-- the image, sound, transcript or film in it. What a failure says in words is left out.
use Prim.Native.Char.{code}
use prism_control_plane.Prelude.{
  ℕ, Bool, true, false, ◌&&◌, ◌||◌, not, String, Option, none, some, str_eq, leb, ltb, pos, ◌==◌,
  if◌then◌else◌,
}
use prism_control_plane.Prelude.Number.{integer, nan}
use prism_control_plane.Prelude.Strings.{drop_prefix, is_empty, trim_text, starts_with}
use prism_control_plane.Prelude.Json.{
  Json, null, bool, num, str, arr, obj, cons, Fields, end, field, find_field, member,
}

-- `a ?? b`, where both may be absent
abbrev pub else_try : Option String → Option String → Option String
else_try none b = b
else_try (some a) b = some a

-- `typeof v === "string"`, and with `v.length > 0`
abbrev pub text_of : Option Json → Option String
text_of (some (str s)) = some s
text_of _ = none

abbrev pub filled : Option String → Option String
filled none = none
filled (some s) = if is_empty s then none else some s

abbrev pub text_at : String → Fields → Option String
text_at k fs = text_of (find_field k fs)

abbrev pub filled_at : String → Fields → Option String
filled_at k fs = filled (text_at k fs)

abbrev pub fields_at : String → Fields → Fields
fields_at k fs = elim (find_field k fs) [ some (obj inner) ↦ inner | _ ↦ end ]

-- `a[0]`, of what may be no array
abbrev pub first_item : Option Json → Option Json
first_item (some (arr (cons x xs))) = some x
first_item _ = none

-- `providerStateFailed`, as a test
abbrev pub is_failed_state : Option Json → Bool
is_failed_state (some (str s)) = not (str_eq s "Completed" || str_eq s "succeeded")
is_failed_state _ = false

abbrev pub is_no_success : Option Json → Bool
is_no_success (some (bool b)) = not b
is_no_success _ = false

abbrev pub is_error_text : Option Json → Bool
is_error_text (some (str s)) = not (is_empty s)
is_error_text _ = false

unfoldable pub provider_state_failed : Json → Bool
provider_state_failed (obj fs) =
    is_error_text (find_field "error" fs)
    || is_failed_state (find_field "state" fs)
    || is_no_success (find_field "success" fs)
provider_state_failed _ = false

-- `{ data: [{ b64_json | url }] }`
abbrev pub image_in_data : Option Json → Option String
image_in_data (some (obj fs)) = else_try (filled_at "b64_json" fs) (filled_at "url" fs)
image_in_data _ = none

abbrev pub link_at : String → Fields → Option String
link_at k fs = elim (filled_at k fs) [
  | none ↦ none
  | some s ↦ if starts_with "http" s then some s else none
]

abbrev pub flat_image : Fields → Option String
flat_image fs = else_try (filled_at "image" fs) (
    else_try (link_at "url" fs) (
      else_try (text_of (first_item (find_field "images" fs)))
        (image_in_data (first_item (find_field "data" fs)))))

unfoldable mutual
  -- `extractImageRaw`: the members first, then those of `result`.
  pub image_raw : Json → Option String
  image_raw (obj fs) = let inner = image_in_result fs in else_try (flat_image fs) inner
  image_raw _ = none

  pub image_in_result : Fields → Option String
  image_in_result end = none
  image_in_result (field k v fs) =
      let here = image_raw v in
      let there = image_in_result fs in if str_eq k "result" then here else there

pub data ImageAsset : Type 0 where
  inline : String → ImageAsset
  link : String → ImageAsset

-- `[a-zA-Z0-9.+-]`
abbrev is_mime_char : ℕ → Bool
is_mime_char c =
    (leb b'a' c && leb c b'z')
    || (leb b'A' c && leb c b'Z')
    || (leb b'0' c && leb c b'9')
    || c == b'.'
    || c == b'+'
    || c == b'-'

-- `[a-zA-Z0-9.+-]+` and what follows it
abbrev skip_mime : Bool → String → Option String
skip_mime seen String.[] = none
skip_mime seen (String.◌∷◌ c s) =
    let rest = skip_mime true s in
    if is_mime_char (code c) then rest else (if seen then some (String.◌∷◌ c s) else none)

-- `(.+)$`: what is left has no line end.
abbrev is_one_line : String → Bool
is_one_line String.[] = true
is_one_line (String.◌∷◌ c s) =
    not (code c == 10 || code c == 13 || code c == 0x2028 || code c == 0x2029) && is_one_line s

-- `stripDataUrl`
unfoldable pub strip_data_url : String → String
strip_data_url s = elim (drop_prefix "data:image/" s) [
  | none ↦ s
  | some mime ↦ elim (skip_mime false mime) [
    | none ↦ s
    | some tail ↦ elim (drop_prefix ";base64," tail) [
      | none ↦ s
      | some content ↦ if not (is_empty content) && is_one_line content then content else s
    ]
  ]
]

abbrev pub image_asset : String → ImageAsset
image_asset raw =
    if starts_with "https://" raw || starts_with "http://" raw
    then link raw
    else if starts_with "data:image/" raw
    then inline (strip_data_url raw)
    else inline raw

-- `extractImageAsset`, and the test of it in the handlers: an asset with neither part is none.
unfoldable pub extract_image_asset : Json → Option ImageAsset
unfolding strip_data_url
extract_image_asset body = elim (filled (image_raw body)) [
  | none ↦ none
  | some raw ↦ some (image_asset raw)
]

-- `extractAudioBase64`, where the handlers take an empty text for none
unfoldable pub extract_audio_base64 : Json → Option String
extract_audio_base64 (obj fs) =
    else_try (text_at "audio" fs) (text_at "audio" (fields_at "result" fs))
extract_audio_base64 _ = none

abbrev pub transcript_of : Option Json → Option String
transcript_of none = none
transcript_of (some item) = text_of (member "transcript" item)

abbrev pub truthy_member : Option Json → Bool
truthy_member none = false
truthy_member (some null) = false
truthy_member (some (bool b)) = b
truthy_member (some (str s)) = not (is_empty s)
truthy_member (some (num (integer (pos n)))) = ltb 0 n
truthy_member (some (num nan)) = false
truthy_member (some _) = true

abbrev pub first_in : String → Option Json → Option Json
first_in k none = none
first_in k (some x) = first_item (member k x)

abbrev pub member_of : String → Option Json → Option Json
member_of k none = none
member_of k (some x) = member k x

abbrev pub trimmed : Option String → Option String
trimmed none = none
trimmed (some s) = some (trim_text s)

-- `extractDeepgramTranscript`
abbrev pub deepgram_transcript : Fields → Option String
deepgram_transcript fs =
    let results = find_field "results" fs in
    let channels = member_of "channels" results in
    let alternatives = member_of "alternatives" results in
    else_try (trimmed (transcript_of (first_in "alternatives" (first_item channels)))) (
      else_try (trimmed (transcript_of (first_item alternatives))) (
        if truthy_member channels || truthy_member alternatives
        then some ""
        else else_try (trimmed (text_at "transcript" fs)) (trimmed (text_at "text" fs))))

-- The last two readings of `extractTranscript`: a `result` that is an object decides alone.
abbrev pub result_or_response : Fields → Option String → Option String
result_or_response fs inner = elim (find_field "result" fs) [
  | some (obj found) ↦ inner
  | some (arr found) ↦ none
  | _ ↦ text_at "response" fs
]

mutual
  -- `extractTranscript`
  pub transcript_raw : Json → Option String
  transcript_raw (obj fs) =
      let inner = transcript_in_result fs in
      else_try (text_at "text" fs) (
        else_try (text_at "transcript" fs)
          (else_try (deepgram_transcript fs) (result_or_response fs inner)))
  transcript_raw _ = none

  pub transcript_in_result : Fields → Option String
  transcript_in_result end = none
  transcript_in_result (field k v fs) =
      let here = transcript_raw v in
      let there = transcript_in_result fs in if str_eq k "result" then here else there

-- `{ video }` or `{ audio }`, in the members or in those of `result`, or a `url` there
abbrev pub asset_at : String → Fields → Option String
asset_at k fs =
    let inner = fields_at "result" fs in
    else_try (filled_at k fs)
      (else_try (filled_at k inner) (else_try (filled_at "url" inner) (filled_at "url" fs)))

-- `extractVideoAsset`, `extractMusicAsset`
unfoldable pub extract_asset : String → Json → Option String
unfolding provider_state_failed
extract_asset k (obj fs) = if provider_state_failed (obj fs) then none else asset_at k fs
extract_asset k _ = none

-- `prefersAsyncImage`
abbrev pub prefers_async_image : String → Bool
prefers_async_image model_id = str_eq model_id "openai/gpt-image-2"
