-- ===== src/ChatRequest/Limits.antt =====
-- The limits of src/chat-request.ts, on every request that it accepts.
use prism_control_plane.Prelude.{
  ℕ, ◌+◌, ◌≤◌, ◌<◌, ◌≡◌, refl, Bool, true, false, String, Option, none, some, List, [], ◌∷◌, arith,
  ◌==◌, ◌⊎◌, inl, inr, Bool-cases, Option-cases, ltb, length, All, pos,
}
use prism_control_plane.Prelude.Number.{Number, integer, is_finite, is_negative}
use prism_control_plane.Prelude.Strings.{is_empty, trim_text, utf16_length}
use prism_control_plane.Prelude.Text.{codes}
use prism_control_plane.Prelude.Json.{
  Json, str, num, bool, arr, obj, null, nil, cons, Fields, find_field,
}
use prism_control_plane.ChatRequest.Image.{
  max_image_bytes, parse_image_data_url, image_ok, image_bad, check_bytes, match_data_url, strip,
  ImageResult,
}
use prism_control_plane.ChatRequest.Turns.{
  Checked, ok, bad, >>=-eq-ok, Role, ChatTurnInput, keys, items, is_in, is_user, check_turn,
  parse_turn, parse_turns, max_content_chars, check_turn_fields, parse_role, parse_content,
}
use prism_control_plane.ChatRequest.{
  allowed_fields, max_messages, ValidChatRequest, check_fields, parse_model, parse_messages,
  parse_max_tokens, parse_temperature, parse_top_p, parse_stream, parse_image, image_checked,
  parse_chat_request, exceeds, is_not_positive,
}

-- A turn no longer than the cap, with images on a user's turn only.
abbrev pub IsWithin : ChatTurnInput → Type 0
IsWithin t =
    (utf16_length t.content ≤ max_content_chars) × ((t.images ≡ []) ⊎ (is_user t.role ≡ true))

no_images : (l : List String) → ltb 0 (length l) ≡ false → l ≡ []
no_images [] h = refl
no_images (x ∷ l) h = absurd (ground arith)

check_turn-IsWithin :
    (i : ℕ) (role : Role) (content : String) (images : List String) {t : ChatTurnInput}
    → check_turn i role (content, images) ≡ ok t
    → IsWithin t
check_turn-IsWithin i role content images {t} h =
    elim (Bool-cases (ltb max_content_chars (utf16_length content))) [
      | inl long ↦ absurd (ground arith)
      | inr short ↦ elim (Bool-cases (ltb 0 (length images))) [
        | inl some_images ↦ elim (Bool-cases (is_user role)) [
          | inl u ↦
              let made : (record { role = role; content = content; images = images }) ≡ t =
                ground arith in
              rw (← made) (ground arith, inr u)
          | inr u ↦ absurd (ground arith)
        ]
        | inr no_image ↦
            let made : (record { role = role; content = content; images = images }) ≡ t =
              ground arith in
            rw (← made) (ground arith, inl (no_images images no_image))
      ]
    ]

module _ (atob : List ℕ → Option (List ℕ)) where
  parse_turn-IsWithin :
      (i : ℕ) (x : Json) {t : ChatTurnInput} → parse_turn atob i x ≡ ok t → IsWithin t
  parse_turn-IsWithin i (obj fs) h =
      let (_, _, a) = >>=-eq-ok (check_turn_fields i (keys fs)) _ h in
      let (role, _, b) = >>=-eq-ok (parse_role i (find_field "role" fs)) _ a in
      let (c, _, d) = >>=-eq-ok (parse_content atob i (find_field "content" fs)) _ b in
      check_turn-IsWithin i role c.0 c.1 d
  parse_turn-IsWithin i null h = cc
  parse_turn-IsWithin i (bool b) h = cc
  parse_turn-IsWithin i (num x) h = cc
  parse_turn-IsWithin i (str s) h = cc
  parse_turn-IsWithin i (arr xs) h = cc

  parse_turns-IsWithin :
      (i : ℕ) (xs : List Json) (ts : List ChatTurnInput)
      → parse_turns atob i xs ≡ ok ts
      → All IsWithin ts × (length ts ≡ length xs)
  unfolding parse_turns
  parse_turns-IsWithin i [] ts h = let same : [] ≡ ts = ground arith in rw (← same) (tt, refl)
  parse_turns-IsWithin i (x ∷ xs) ts h =
      let (t, e, a) = >>=-eq-ok (parse_turn atob i x) _ h in
      let (rest, f, b) = >>=-eq-ok (parse_turns atob (i + 1) xs) _ a in
      let (ih, l) = parse_turns-IsWithin (i + 1) xs rest f in
      let same : t ∷ rest ≡ ts = ground arith in
      rw (← same) ((parse_turn-IsWithin i x e, ih), omega arith)

-- A limit on an optional value.
abbrev pub Optional {ℓ} : {A : Type ℓ} → (A → Type 0) → Option A → Type 0
Optional P none = Unit
Optional P (some a) = P a

-- Between 0 and 2; above 0 and up to 1.
abbrev pub IsTemperature : Number → Type 0
IsTemperature x = (is_finite x ≡ true) × (is_negative x ≡ false) × (exceeds x 2 ≡ false)

abbrev pub IsTopP : Number → Type 0
IsTopP x = (is_finite x ≡ true) × (is_not_positive x ≡ false) × (exceeds x 1 ≡ false)

pub record IsBounded (fields : Fields) (r : ValidChatRequest) : Type 0 where
  pub only_known : All (λ k. is_in k allowed_fields ≡ true) (keys fields)
  pub model : is_empty r.model ≡ false
  pub some_messages : 1 ≤ length r.messages
  pub few_messages : length r.messages ≤ max_messages
  pub turns : All IsWithin r.messages
  pub max_tokens : Optional (λ n. 1 ≤ n) r.max_tokens
  pub temperature : Optional IsTemperature r.temperature
  pub top_p : Optional IsTopP r.top_p
  pub image :
      Optional (λ bytes. (0 < length bytes) × (length bytes ≤ max_image_bytes)) r.image_bytes

check_fields-known :
    (ks : List String) (u : Unit {0})
    → check_fields ks ≡ ok u
    → All (λ k. is_in k allowed_fields ≡ true) ks
check_fields-known [] u h = tt
check_fields-known (k ∷ ks) u h = elim (Bool-cases (is_in k allowed_fields)) [
  | inl e ↦ (e, check_fields-known ks u (ground arith))
  | inr e ↦ absurd (ground arith)
]

-- What holds of the value of a check that went through.
abbrev Sound {ℓ} : {A : Type ℓ} → (A → Type 0) → Checked A → Type 0
Sound P (ok a) = P a
Sound P (bad e) = Unit

sound {ℓ} : {A : Type ℓ} (P : A → Type 0) (r : Checked A) {a : A} → Sound P r → r ≡ ok a → P a
sound P r s h = rw h at s

parse_model-Sound : (o : Option Json) → Sound (λ m. is_empty m ≡ false) (parse_model o)
parse_model-Sound (some (str s)) = elim (Bool-cases (is_empty (trim_text s))) [
  | inl e ↦ rw e tt
  | inr e ↦ rw e e
]
parse_model-Sound _ = tt

parse_max_tokens-Sound : (o : Option Json) → Sound (Optional (λ n. 1 ≤ n)) (parse_max_tokens o)
parse_max_tokens-Sound none = tt
parse_max_tokens-Sound (some (num (integer (pos k)))) = elim (Bool-cases (ltb k 1)) [
  | inl e ↦ rw e tt
  | inr e ↦ rw e (ground arith)
]
parse_max_tokens-Sound (some _) = tt

parse_temperature-Sound : (o : Option Json) → Sound (Optional IsTemperature) (parse_temperature o)
parse_temperature-Sound none = tt
parse_temperature-Sound (some (num x)) = elim (Bool-cases (is_finite x)) [
  | inr e ↦ rw e tt
  | inl e ↦ elim (Bool-cases (is_negative x)) [
    | inl f ↦ rw (e, f) tt
    | inr f ↦ elim (Bool-cases (exceeds x 2)) [
      | inl g ↦ rw (e, f, g) tt
      | inr g ↦ rw (e, f, g) (e, f, g)
    ]
  ]
]
parse_temperature-Sound (some _) = tt

parse_top_p-Sound : (o : Option Json) → Sound (Optional IsTopP) (parse_top_p o)
parse_top_p-Sound none = tt
parse_top_p-Sound (some (num x)) = elim (Bool-cases (is_finite x)) [
  | inr e ↦ rw e tt
  | inl e ↦ elim (Bool-cases (is_not_positive x)) [
    | inl f ↦ rw (e, f) tt
    | inr f ↦ elim (Bool-cases (exceeds x 1)) [
      | inl g ↦ rw (e, f, g) tt
      | inr g ↦ rw (e, f, g) (e, f, g)
    ]
  ]
]
parse_top_p-Sound (some _) = tt

abbrev request_of :
    String
    → List ChatTurnInput
    → Option ℕ
    → Option Number
    → Option Number
    → Bool
    → Option (List ℕ)
    → ValidChatRequest
request_of model ts n t p s i = record {
  model = model;
  messages = ts;
  max_tokens = n;
  temperature = t;
  top_p = p;
  stream = s;
  image_bytes = i;
}

abbrev IsImage : List ℕ → Type 0
IsImage bytes = (0 < length bytes) × (length bytes ≤ max_image_bytes)

abbrev SoundImage : ImageResult → Type 0
SoundImage (image_ok bytes mime) = IsImage bytes
SoundImage image_bad = Unit

check_bytes-Sound : (mime : List ℕ) (o : Option (List ℕ)) → SoundImage (check_bytes mime o)
check_bytes-Sound mime none = tt
check_bytes-Sound mime (some b) = elim (Bool-cases (length b == 0)) [
  | inl e ↦ rw e tt
  | inr e ↦ elim (Bool-cases (ltb max_image_bytes (length b))) [
    | inl f ↦ rw (e, f) tt
    | inr f ↦ rw (e, f) (ground arith)
  ]
]

parse_image_data_url-Sound :
    (atob : List ℕ → Option (List ℕ)) (s : String) → SoundImage (parse_image_data_url atob s)
unfolding parse_image_data_url
parse_image_data_url-Sound atob s = elim (Option-cases (match_data_url (codes s))) [
  | inl e ↦ rw (e, parse_image_data_url) tt
  | inr ((k, b), e) ↦ rw (e, parse_image_data_url) (check_bytes-Sound _ (atob (strip b)))
]

image_checked-Sound : (r : ImageResult) → SoundImage r → Sound (Optional IsImage) (image_checked r)
image_checked-Sound (image_ok b m) h = h
image_checked-Sound image_bad h = tt

parse_image-Sound :
    (atob : List ℕ → Option (List ℕ)) (o : Option Json)
    → Sound (Optional IsImage) (parse_image atob o)
parse_image-Sound atob none = tt
parse_image-Sound atob (some (str s)) = elim (Bool-cases (is_empty (trim_text s))) [
  | inl e ↦ rw e tt
  | inr e ↦ rw e (image_checked-Sound _ (parse_image_data_url-Sound atob (trim_text s)))
]
parse_image-Sound atob (some _) = tt

abbrev IsSized : List ChatTurnInput → Type 0
IsSized ts = (1 ≤ length ts) × (length ts ≤ max_messages) × All IsWithin ts

parse_messages-Sound :
    (atob : List ℕ → Option (List ℕ)) (o : Option Json) (ts : List ChatTurnInput)
    → parse_messages atob o ≡ ok ts
    → IsSized ts
parse_messages-Sound atob (some (arr (cons x xs))) ts h =
    elim (Bool-cases (ltb max_messages (length (items (cons x xs))))) [
      | inl e ↦ absurd (ground arith)
      | inr e ↦
          let (w, l) = parse_turns-IsWithin atob 0 (items (cons x xs)) ts (ground arith) in
          (ground arith, ground arith, w)
    ]
parse_messages-Sound atob (some (arr nil)) ts h = cc
parse_messages-Sound atob (some null) ts h = cc
parse_messages-Sound atob (some (bool b)) ts h = cc
parse_messages-Sound atob (some (num b)) ts h = cc
parse_messages-Sound atob (some (str b)) ts h = cc
parse_messages-Sound atob (some (obj b)) ts h = cc
parse_messages-Sound atob none ts h = cc

object-IsBounded :
    (atob : List ℕ → Option (List ℕ)) (fields : Fields) (r : ValidChatRequest)
    → parse_chat_request atob (obj fields) ≡ ok r
    → IsBounded fields r
unfolding parse_chat_request
object-IsBounded atob fields r h =
    let (u, known, a) = >>=-eq-ok (check_fields (keys fields)) _ h in
    let (model, named, b) = >>=-eq-ok (parse_model (find_field "model" fields)) _ a in
    let (ts, turns, c) = >>=-eq-ok (parse_messages atob (find_field "messages" fields)) _ b in
    let (n, tokens, d) = >>=-eq-ok (parse_max_tokens (find_field "max_tokens" fields)) _ c in
    let (t, temperature, e) = >>=-eq-ok (parse_temperature (find_field "temperature" fields)) _ d in
    let (p, top_p, f) = >>=-eq-ok (parse_top_p (find_field "top_p" fields)) _ e in
    let (s, stream, g) = >>=-eq-ok (parse_stream (find_field "stream" fields)) _ f in
    let (i, image, k) = >>=-eq-ok (parse_image atob (find_field "image" fields)) _ g in
    let sized = parse_messages-Sound atob (find_field "messages" fields) ts turns in
    let made : request_of model ts n t p s i ≡ r = ground arith in
    rw (← made) (record {
      only_known = check_fields-known (keys fields) u known;
      model = sound _ _ (parse_model-Sound (find_field "model" fields)) named;
      some_messages = sized.0;
      few_messages = sized.1;
      turns = sized.2;
      max_tokens = sound _ _ (parse_max_tokens-Sound (find_field "max_tokens" fields)) tokens;
      temperature =
          sound _ _ (parse_temperature-Sound (find_field "temperature" fields)) temperature;
      top_p = sound _ _ (parse_top_p-Sound (find_field "top_p" fields)) top_p;
      image = sound _ _ (parse_image-Sound atob (find_field "image" fields)) image;
    })

-- A body that is accepted is an object with no unknown member, and the request made of it keeps
-- every limit: a model, between 1 and 200 turns, no content past its cap, images on a user's turns
-- only, a positive token cap, a temperature in 0 to 2, a `top_p` above 0 and up to 1, and an image
-- of at least one byte and at most 4 MiB.
pub parse_chat_request-IsBounded :
    (atob : List ℕ → Option (List ℕ)) (body : Json) (r : ValidChatRequest)
    → parse_chat_request atob body ≡ ok r
    → (fields : Fields) × (body ≡ obj fields) × IsBounded fields r
unfolding parse_chat_request
parse_chat_request-IsBounded atob (obj fields) r h =
    (fields, refl, object-IsBounded atob fields r h)
parse_chat_request-IsBounded atob null r h = absurd (cc)
parse_chat_request-IsBounded atob (bool b) r h = absurd (cc)
parse_chat_request-IsBounded atob (num x) r h = absurd (cc)
parse_chat_request-IsBounded atob (str s) r h = absurd (cc)
parse_chat_request-IsBounded atob (arr xs) r h = absurd (cc)
