-- ===== src/ChatRequest/Turns.antt =====
-- The turns of src/chat-request.ts: the loop of `parseChatRequest` over `messages`. A refusal says
-- which rule was broken and where, in place of the prose.
use prism_control_plane.Prelude.{
  ℕ, ◌+◌, Bool, true, false, ◌&&◌, ◌||◌, not, String, Option, none, some, List, [], ◌∷◌, ◌++◌, ltb,
  leb, str_eq, if◌then◌else◌, length, any, ◌≡◌, refl,
}
use prism_control_plane.Prelude.Strings.{is_empty, trim_text, utf16_length, starts_with, join}
use prism_control_plane.Prelude.Json.{
  Json, str, arr, obj, Items, nil, cons, Fields, end, field, find_field,
}
use prism_control_plane.ChatRequest.Image.{parse_image_data_url, image_ok, image_bad}

-- `MAX_CONTENT_CHARS`
abbrev pub max_content_chars : ℕ
max_content_chars = 200_000

pub data Role : Type 0 where
  system user assistant : Role

pub record ChatTurnInput : Type 0 where
  pub role : Role
  pub content : String
  pub images : List String

pub data PartProblem : Type 0 where
  not_an_object text_not_a_string no_url bad_scheme bad_data_url : PartProblem
  bad_type : String → PartProblem

pub data TurnProblem : Type 0 where
  not_an_object bad_role bad_content nothing_in_it too_long images_not_allowed : TurnProblem
  unknown_field : String → TurnProblem
  bad_part : ℕ → PartProblem → TurnProblem

pub data RequestProblem : Type 0 where
  not_an_object no_model no_messages bad_max_tokens bad_temperature bad_top_p bad_stream bad_image :
      RequestProblem
  unknown_field : String → RequestProblem
  too_many_messages : ℕ → RequestProblem
  bad_turn : ℕ → TurnProblem → RequestProblem

-- What a check answers: a value, or the problem found first.
pub data Checked {ℓ} (A : Type ℓ) : Type ℓ where
  ok : A → Checked A
  bad : RequestProblem → Checked A

infixl 5 ◌>>=◌ ◌>>◌
abbrev pub ◌>>=◌ {κ ℓ} : {X : Type κ} {Y : Type ℓ} → Checked X → (X → Checked Y) → Checked Y
bad problem >>= next = bad problem
ok value >>= next = next value

-- The first of two checks has nothing to hand on.
abbrev pub ◌>>◌ {κ} : {Y : Type κ} → Checked (Unit {0}) → Checked Y → Checked Y
check >> next = check >>= λ done. next

abbrev pub items : Items → List Json
items nil = []
items (cons x xs) = x ∷ items xs

-- `Object.keys(o)`
abbrev pub keys : Fields → List String
keys end = []
keys (field k v fs) = k ∷ keys fs

abbrev pub is_in : String → List String → Bool
is_in k = any (str_eq k)

-- `ALLOWED_ROLES`
abbrev pub role_of : Option Json → Option Role
role_of (some (str s)) =
    if str_eq s "system"
    then some system
    else if str_eq s "user"
    then some user
    else if str_eq s "assistant"
    then some assistant
    else none
role_of _ = none

-- The loop over the keys of a turn.
abbrev pub check_turn_fields : ℕ → List String → Checked (Unit {0})
check_turn_fields i [] = ok tt
check_turn_fields i (k ∷ ks) =
    let rest = check_turn_fields i ks in
    if str_eq k "role" || str_eq k "content"
    then rest
    else bad (bad_turn i (TurnProblem.unknown_field k))

-- The texts and the urls of the parts of one content.
pub record Parts : Type 0 where
  pub texts : List String
  pub urls : List String

-- The url of an `image_url` part: a string, or an object with one.
abbrev pub url_of : Option Json → Option String
url_of (some (str s)) = some s
url_of (some (obj fs)) = elim (find_field "url" fs) [ some (str s) ↦ some s | _ ↦ none ]
url_of _ = none

abbrev pub has_scheme : String → Bool
has_scheme u = starts_with "data:image/" u || starts_with "https://" u || starts_with "http://" u

abbrev pub is_user : Role → Bool
is_user user = true
is_user _ = false

-- The two checks on what a turn holds.
abbrev pub check_turn : ℕ → Role → String × List String → Checked ChatTurnInput
check_turn i role (content, images) =
    if ltb max_content_chars (utf16_length content)
    then bad (bad_turn i too_long)
    else if ltb 0 (length images) && not (is_user role)
    then bad (bad_turn i images_not_allowed)
    else ok (record { role = role; content = content; images = images })

abbrev pub parse_role : ℕ → Option Json → Checked Role
parse_role i r = elim (role_of r) [ none ↦ bad (bad_turn i bad_role) | some role ↦ ok role ]

module _ (atob : List ℕ → Option (List ℕ)) where
  -- A trimmed url: its scheme, and its payload where it is a data url.
  abbrev pub check_url : ℕ → ℕ → String → Checked String
  check_url i j u =
      if has_scheme u
      then (if starts_with "data:image/" u
          then elim (parse_image_data_url atob u) [
            | image_ok bytes mime ↦ ok u
            | image_bad ↦ bad (bad_turn i (bad_part j bad_data_url))
          ]
          else ok u)
      else bad (bad_turn i (bad_part j bad_scheme))

  -- One part of a content that is an array.
  abbrev pub parse_part : ℕ → ℕ → Json → Parts → Checked Parts
  parse_part i j (obj fs) p =
      let type : String = elim (find_field "type" fs) [ some (str s) ↦ s | _ ↦ "" ] in
      if str_eq type "text"
      then elim (find_field "text" fs) [
        | some (str s) ↦ ok (record p { texts = p.texts ++ s ∷ [] })
        | _ ↦ bad (bad_turn i (bad_part j text_not_a_string))
      ]
      else if str_eq type "image_url"
      then elim (url_of (find_field "image_url" fs)) [
        | none ↦ bad (bad_turn i (bad_part j no_url))
        | some url ↦
            if is_empty (trim_text url)
            then bad (bad_turn i (bad_part j no_url))
            else check_url i j (trim_text url) >>= λ u. ok (record p { urls = p.urls ++ u ∷ [] })
      ]
      else bad (bad_turn i (bad_part j (bad_type type)))
  parse_part i j (arr xs) p = bad (bad_turn i (bad_part j (bad_type "")))
  parse_part i j _ p = bad (bad_turn i (bad_part j PartProblem.not_an_object))

  abbrev pub parse_parts : ℕ → ℕ → List Json → Parts → Checked Parts
  parse_parts i j [] p = ok p
  parse_parts i j (x ∷ xs) p = parse_part i j x p >>= λ q. parse_parts i (j + 1) xs q

  abbrev pub no_parts : Parts
  no_parts = record { texts = []; urls = [] }

  -- The content of a turn as its text and its images.
  abbrev pub parse_content : ℕ → Option Json → Checked (String × List String)
  parse_content i (some (str s)) = ok (s, [])
  parse_content i (some (arr xs)) = parse_parts i 0 (items xs) no_parts >>= λ p.
      if is_empty (join "\n" p.texts) && leb (length p.urls) 0
      then bad (bad_turn i nothing_in_it)
      else ok (join "\n" p.texts, p.urls)
  parse_content i _ = bad (bad_turn i bad_content)

  abbrev pub parse_turn : ℕ → Json → Checked ChatTurnInput
  parse_turn i (obj fs) = do
    check_turn_fields i (keys fs)
    role ← parse_role i (find_field "role" fs)
    content ← parse_content i (find_field "content" fs)
    check_turn i role content
  parse_turn i _ = bad (bad_turn i TurnProblem.not_an_object)

  unfoldable pub parse_turns : ℕ → List Json → Checked (List ChatTurnInput)
  unfolding trim_text utf16_length starts_with join parse_image_data_url
  parse_turns i [] = ok []
  parse_turns i (x ∷ xs) = parse_turn i x >>= λ t. parse_turns (i + 1) xs >>= λ ts. ok (t ∷ ts)

-- Where a chain of checks went through, its first one did.
pub >>=-eq-ok {κ ℓ} :
    {X : Type κ} {Y : Type ℓ} (check : Checked X) (next : X → Checked Y) {y : Y}
    → (check >>= next) ≡ ok y
    → (x : X) × (check ≡ ok x) × (next x ≡ ok y)
>>=-eq-ok (bad problem) next went = cc
>>=-eq-ok (ok value) next went = (value, refl, went)
