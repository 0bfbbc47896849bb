-- ===== src/ChatRequest/Image.antt =====
-- `parseImageDataUrl` of src/chat-request.ts. Its regular expression has one way to match: a type
-- holds no semicolon.
use prism_control_plane.Prelude.{
  ℕ, ◌*◌, ◌+◌, Bool, true, false, ◌&&◌, ◌||◌, String, Option, none, some, List, [], ◌∷◌, ◌++◌, map,
  ◌==◌, leb, ltb, if◌then◌else◌, length,
}
use prism_control_plane.Prelude.Text.{codes, is_space}

-- `MAX_IMAGE_BYTES`
abbrev pub max_image_bytes : ℕ
max_image_bytes = 4 * 1024 * 1024

-- A letter without its case, as the flag `i` has it.
abbrev pub fold_case : ℕ → ℕ
fold_case c = if leb b'A' c && leb c b'Z' then c + 32 else c

abbrev pub is_alphanumeric : ℕ → Bool
is_alphanumeric c = (leb b'a' (fold_case c) && leb (fold_case c) b'z') || (leb b'0' c && leb c b'9')

-- `[a-z0-9.+-]`
abbrev pub is_type_char : ℕ → Bool
is_type_char c = is_alphanumeric c || c == b'.' || c == b'+' || c == b'-'

-- `[A-Za-z0-9+/=\s]`
abbrev pub is_base64_char : ℕ → Bool
is_base64_char c = is_alphanumeric c || c == b'+' || c == b'/' || c == b'=' || is_space c

-- The rest of a text after a prefix, in any case.
abbrev pub after_prefix : List ℕ → List ℕ → Option (List ℕ)
after_prefix [] s = some s
after_prefix (p ∷ ps) [] = none
after_prefix (p ∷ ps) (c ∷ s) =
    let rest = after_prefix ps s in if fold_case c == p then rest else none

-- The longest run at the front, and the rest.
abbrev pub span : (ℕ → Bool) → List ℕ → List ℕ × List ℕ
span p [] = ([], [])
span p (c ∷ s) = let (run, rest) = span p s in if p c then (c ∷ run, rest) else ([], c ∷ s)

abbrev pub every : (ℕ → Bool) → List ℕ → Bool
every p [] = true
every p (c ∷ s) = p c && every p s

-- `s.replace(/\s+/g, "")`
abbrev pub strip : List ℕ → List ℕ
strip [] = []
strip (c ∷ s) = let rest = strip s in if is_space c then rest else c ∷ rest

abbrev pub is_nil : List ℕ → Bool
is_nil [] = true
is_nil (c ∷ s) = false

-- The two groups of the match: the type after `image/`, and the payload.
abbrev pub match_data_url : List ℕ → Option (List ℕ × List ℕ)
match_data_url s = elim (after_prefix (codes "data:image/") s) [
  | none ↦ none
  | some t ↦
      let (kind, rest) = span is_type_char t in
      if is_nil kind then none else elim (after_prefix (codes ";base64,") rest) [
        | none ↦ none
        | some payload ↦
            if is_nil payload
            then none
            else (if every is_base64_char payload then some (kind, payload) else none)
      ]
]

pub data ImageResult : Type 0 where
  image_ok : List ℕ → List ℕ → ImageResult
  image_bad : ImageResult

-- The decoded bytes, if there are some and no more than the cap.
abbrev pub check_bytes : List ℕ → Option (List ℕ) → ImageResult
check_bytes mime none = image_bad
check_bytes mime (some bytes) =
    if length bytes == 0
    then image_bad
    else (if ltb max_image_bytes (length bytes) then image_bad else image_ok bytes mime)

-- `parseImageDataUrl`
unfoldable pub parse_image_data_url : (List ℕ → Option (List ℕ)) → String → ImageResult
unfolding is_space
parse_image_data_url atob data_url = elim (match_data_url (codes data_url)) [
  | none ↦ image_bad
  | some (kind, payload) ↦ check_bytes (codes "image/" ++ map fold_case kind) (atob (strip payload))
]
