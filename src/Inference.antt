-- ===== src/Inference.antt =====
-- src/inference.ts: the readers of what an upstream answers. A reader may throw, on an array item
-- that is `null`, on a `content` or `finish_reason` of a value with no members, or on a `content`
-- that is no array. The text that `join` makes of a value that is no string is an argument.
mod Tests
use Prim.Native.String
use prism_control_plane.Prelude.{
  ℕ, zero, pos, ◌++◌, Bool, true, false, ◌&&◌, ◌||◌, not, String, Option, none, some, List, [], ◌∷◌,
  map, any, str_eq, if◌then◌else◌,
}
use prism_control_plane.Prelude.Number.{Number, integer}
use prism_control_plane.Prelude.Strings.{is_empty}
use prism_control_plane.Catalog.{Api, Billing}
use prism_control_plane.Prelude.Json.{
  Json, null, bool, num, str, arr, obj, Items, nil, cons, Fields, end, field, find_field, is_object,
  member, coalesce,
}

-- What a reader finds: a text, nothing that it can read, or an exception.
pub data Found : Type 0 where
  text : String → Found
  unreadable thrown : Found

-- The next reader, where this one read nothing.
infixr 20 ◌or_else◌
abbrev pub ◌or_else◌ : Found → Found → Found
unreadable or_else next = next
found or_else next = found

abbrev pub items : Items → List Json
items nil = []
items (cons x xs) = x ∷ items xs

abbrev pub is_nil : Items → Bool
is_nil nil = true
is_nil (cons x xs) = false

abbrev pub concat : List String → String
concat [] = ""
concat (s ∷ rest) = String.◌++◌ s (concat rest)

-- A text that is not empty.
abbrev pub unless_empty : String → Found
unless_empty s = if is_empty s then unreadable else text s

-- `typeof v === "string"`
abbrev pub text_of : Option Json → Found
text_of (some (str s)) = text s
text_of _ = unreadable

-- `typeof v === "string" && v.length > 0`
abbrev pub full_text_of : Option Json → Found
full_text_of (some (str s)) = unless_empty s
full_text_of _ = unreadable

-- `x?.k`: nothing has a member by the names that are read but an object.
abbrev pub member? : String → Option Json → Option Json
member? k none = none
member? k (some x) = member k x

abbrev pub is_text : String → Option Json → Bool
is_text s (some (str t)) = str_eq s t
is_text s _ = false

-- `typeof v === "string" ? v : ""`
abbrev pub string_or_empty : Option Json → String
string_or_empty (some (str s)) = s
string_or_empty _ = ""

-- The texts of the objects among the parts.
abbrev pub part_texts : List Json → List String
part_texts [] = []
part_texts (p ∷ ps) =
    let rest = part_texts ps in
    if is_object p then string_or_empty (member "text" p) ∷ rest else rest

abbrev pub is_empty_text : Option Json → Bool
is_empty_text (some (str s)) = is_empty s
is_empty_text _ = false

abbrev pub array_text : Option Json → Found
array_text (some (arr xs)) = unless_empty (concat (part_texts (items xs)))
array_text _ = unreadable

-- What the first choice holds.
abbrev pub choice_text : Json → Found
choice_text first =
    let message = member "message" first in
    let content = member? "content" message in
    full_text_of content
    or_else array_text content
    or_else full_text_of (member "text" first)
    or_else full_text_of
        (coalesce (member? "reasoning_content" message) (member? "reasoning" message))
    or_else (if is_empty_text content then text "" else unreadable)

abbrev pub choices_text : Option Json → Found
choices_text (some (arr (cons first rest))) = choice_text first
choices_text _ = unreadable

-- The member `k` of each block of type `type` where it is a string.
abbrev pub block_texts : String → String → List Json → List String
block_texts type k [] = []
block_texts type k (b ∷ bs) =
    let rest = block_texts type k bs in
    elim (member k b) [
      | some (str s) ↦ if is_text type (member "type" b) then s ∷ rest else rest
      | _ ↦ rest
    ]

-- Anthropic: texts, and thinking where there is no text.
abbrev pub content_text : Option Json → Found
content_text (some (arr xs)) =
    unless_empty (concat (block_texts "text" "text" (items xs)))
    or_else unless_empty (concat (block_texts "thinking" "thinking" (items xs)))
content_text _ = unreadable

-- The Responses API: the texts of the items of a message's content. An item's text that is no
-- string is joined as `to_text` makes it; what is missing or null is empty.
abbrev pub joined : (Json → String) → Option Json → String
joined to_text none = ""
joined to_text (some null) = ""
joined to_text (some (str s)) = s
joined to_text (some x) = to_text x

abbrev pub output_items : (Json → String) → List Json → List String
output_items to_text [] = []
output_items to_text (c ∷ cs) =
    let rest = output_items to_text cs in
    if is_text "output_text" (member "type" c) || is_text "text" (member "type" c)
    then joined to_text (member "text" c) ∷ rest
    else rest

-- `none` where a message's content is there and is no array.
abbrev pub block_output : (Json → String) → Json → Option (List String)
block_output to_text b = elim (member "content" b) [
  | some (arr xs) ↦ some (output_items to_text (items xs))
  | none ↦ some []
  | some null ↦ some []
  | some x ↦ if is_text "message" (member "type" b) then none else some []
]

abbrev pub output_blocks : (Json → String) → List Json → Option (List String)
output_blocks to_text [] = some []
output_blocks to_text (b ∷ bs) = elim (block_output to_text b) [
  | none ↦ none
  | some texts ↦ elim (output_blocks to_text bs) [ none ↦ none | some rest ↦ some (texts ++ rest) ]
]

abbrev pub output_text : (Json → String) → Option Json → Found
output_text to_text (some (arr xs)) = elim (output_blocks to_text (items xs)) [
  | none ↦ thrown
  | some texts ↦ unless_empty (concat texts)
]
output_text to_text _ = unreadable

-- Gemini: the parts of the first candidate. A part that is `null` throws.
abbrev pub is_null : Json → Bool
is_null null = true
is_null _ = false

abbrev pub is_thought : Json → Bool
is_thought p = elim (member "thought" p) [ some (bool b) ↦ b | _ ↦ false ]

abbrev pub answer_texts : Bool → List Json → List String
answer_texts thoughts [] = []
answer_texts thoughts (p ∷ ps) =
    let rest = answer_texts thoughts ps in
    elim (member "text" p) [
      | some (str s) ↦ if thoughts || not (is_thought p) then s ∷ rest else rest
      | _ ↦ rest
    ]

-- `Boolean(v)`: zero is the one JSON number that is false.
abbrev pub truthy : Option Json → Bool
truthy none = false
truthy (some null) = false
truthy (some (bool b)) = b
truthy (some (str s)) = not (is_empty s)
truthy (some (num (integer (pos zero)))) = false
truthy (some _) = true

-- The parts of a candidate, where `ended` says that it has a finish reason.
abbrev pub parts_text : Bool → Option Json → Found
parts_text ended (some (arr xs)) =
    if any is_null (items xs)
    then thrown
    else unless_empty (concat (answer_texts false (items xs)))
      or_else unless_empty (concat (answer_texts true (items xs)))
      or_else (if is_nil xs || ended then text "" else unreadable)
parts_text ended _ = unreadable

abbrev pub candidates_text : Option Json → Found
candidates_text (some (arr (cons first rest))) =
    if is_object first
    then parts_text (truthy (member "finishReason" first))
        (member? "parts" (member "content" first))
    else unreadable
candidates_text _ = unreadable

-- `result`, read by the same reader, one level down at a time.
mutual
  pub text_in : (Json → String) → Json → Found
  text_in to_text (obj fields) =
      text_of (find_field "response" fields)
      or_else text_of (find_field "description" fields)
      or_else choices_text (find_field "choices" fields)
      or_else content_text (find_field "content" fields)
      or_else output_text to_text (find_field "output" fields)
      or_else candidates_text (find_field "candidates" fields)
      or_else text_in_result to_text fields
  text_in to_text _ = unreadable

  pub text_in_result : (Json → String) → Fields → Found
  text_in_result to_text end = unreadable
  text_in_result to_text (field k v fields) =
      let inner = text_in to_text v in
      let rest = text_in_result to_text fields in if str_eq k "result" then inner else rest

-- `extractText`
unfoldable pub extract_text : (Json → String) → Json → Found
unfolding text_in
extract_text to_text body = text_in to_text body

-- `extractFinishReason`, from the first choice.
abbrev pub finish_reason_of : Option Json → Found
finish_reason_of (some (arr (cons null rest))) = thrown
finish_reason_of (some (arr (cons first rest))) = text_of (member "finish_reason" first)
finish_reason_of _ = unreadable

unfoldable pub extract_finish_reason : Json → Found
extract_finish_reason body = finish_reason_of (member "choices" body)

-- What is attached to the gateway's log entry: ids only.
pub record Metadata : Type 0 where
  pub account_id : String
  pub client_id : String
  pub plan_id : String
  pub request_id : String
  pub cf_token_id : String

-- What a chat request is sent upstream with.
pub record InferenceRequest (Turn : Type 0) : Type 0 where
  pub upstream_model : String
  pub binding_model : Option String
  pub api : Option Api
  pub billing : Billing
  pub messages : List Turn
  pub max_tokens : ℕ
  pub temperature : Option Number
  pub top_p : Option Number
  pub stream : Bool
  pub image_bytes : Option (List ℕ)
  pub token_id : String
  pub token_value : String
  pub metadata : Metadata
