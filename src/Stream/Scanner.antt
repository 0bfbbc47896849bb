-- ===== src/Stream/Scanner.antt =====
-- `SseUsageScanner` of src/stream.ts.
use Prim.Native.String
use prism_control_plane.Prelude.{
  ℕ, ◌+◌, Bool, true, false, ◌||◌, Option, none, some, List, [], ◌∷◌, ◌++◌, leb, length, str_eq,
  if◌then◌else◌,
}
use prism_control_plane.Prelude.Text.{codes, codes_eq, is_space, trim, trim_start, split}
use prism_control_plane.Prelude.Json.{
  Json, null, str, arr, Items, nil, cons, member, coalesce, is_object,
}

-- What the platform gives: a streaming decoder of bytes, and a parser of JSON.
pub record Platform : Type 1 where
  pub Decoder : Type 0
  pub initial : Decoder
  pub decode : List ℕ → Decoder → Decoder × List ℕ
  pub flush : Decoder → List ℕ
  pub parse_json : List ℕ → Option Json

-- The fields that frames change.
pub record Seen : Type 0 where
  pub last_usage : Option Json
  pub saw_any_frame : Bool
  pub output_bytes : ℕ

abbrev pub nothing_seen : Seen
nothing_seen = record { last_usage = none; saw_any_frame = false; output_bytes = 0 }

-- The rest of a text after a prefix: `startsWith` and `slice`.
abbrev pub strip_prefix : List ℕ → List ℕ → Option (List ℕ)
strip_prefix [] s = some s
strip_prefix (p ∷ ps) [] = none
strip_prefix (p ∷ ps) (c ∷ s) =
    let rest = strip_prefix ps s in if codes_eq (p ∷ []) (c ∷ []) then rest else none

-- `SENTINELS`, and no payload at all
abbrev pub is_silent : List ℕ → Bool
is_silent payload =
    leb (length payload) 0 || codes_eq payload (codes "[DONE]") || codes_eq payload (codes "[done]")

-- `typeof v === "string"`, measured in UTF-8
abbrev pub text_bytes : Option Json → ℕ
text_bytes (some (str s)) = String.len s
text_bytes _ = 0

-- One choice of a chat-completions frame: `choice.delta.content`.
abbrev pub choice_bytes : Json → ℕ
choice_bytes choice = elim (member "delta" choice) [
  | none ↦ 0
  | some delta ↦ text_bytes (member "content" delta)
]

abbrev pub choices_bytes : Items → ℕ
choices_bytes nil = 0
choices_bytes (cons x xs) = choice_bytes x + choices_bytes xs

abbrev pub frame_choices : Option Json → ℕ
frame_choices (some (arr xs)) = choices_bytes xs
frame_choices _ = 0

abbrev pub is_text_delta : Option Json → Bool
is_text_delta (some (str s)) = str_eq s "response.output_text.delta"
is_text_delta _ = false

-- `countOutputText`
unfoldable pub count_output_text : Json → ℕ
count_output_text frame =
    frame_choices (member "choices" frame)
    + (if is_text_delta (member "type" frame) then text_bytes (member "delta" frame) else 0)

-- `frame.usage ?? frame.response?.usage`
abbrev pub frame_usage : Json → Option Json
frame_usage frame =
    coalesce (member "usage" frame)
      (elim (member "response" frame) [ none ↦ none | some response ↦ member "usage" response ])

-- What is neither `undefined` nor `null` replaces what was there.
abbrev pub latest : Option Json → Option Json → Option Json
latest none old = old
latest (some null) old = old
latest (some usage) old = some usage

-- A frame that parsed to an object.
unfoldable pub read_frame : Json → Seen → Seen
unfolding count_output_text
read_frame frame s = record s {
  last_usage = latest (frame_usage frame) s.last_usage;
  output_bytes = s.output_bytes + count_output_text frame;
}

module _ (p : Platform) where
  abbrev pub consume_payload : List ℕ → Seen → Seen
  consume_payload payload s =
      if is_silent payload
      then s
      else let seen = record s { saw_any_frame = true } in
        elim (p.parse_json payload) [
          | none ↦ seen
          | some frame ↦ if is_object frame then read_frame frame seen else seen
        ]

  -- `consumeLine`
  unfoldable pub consume_line : List ℕ → Seen → Seen
  unfolding trim is_space trim_start read_frame
  consume_line raw_line s = elim (strip_prefix (codes "data:") (trim raw_line)) [
    | none ↦ s
    | some payload ↦ consume_payload (trim payload) s
  ]

  -- The lines before the last piece are consumed, and the last piece is kept: `lines.pop()`.
  abbrev pub consume_lines : List (List ℕ) → Seen → List ℕ × Seen
  consume_lines [] s = ([], s)
  consume_lines (last ∷ []) s = (last, s)
  consume_lines (line ∷ next ∷ lines) s = consume_lines (next ∷ lines) (consume_line line s)

  pub record ScannerState : Type 0 where
    pub buffer : List ℕ
    pub decoder : p.Decoder
    pub seen : Seen

  abbrev pub fresh : ScannerState
  fresh = record { buffer = []; decoder = p.initial; seen = nothing_seen }

  -- `push`
  unfoldable pub push : List ℕ → ScannerState → ScannerState
  unfolding split consume_line
  push chunk s =
      let (decoder, text) = p.decode chunk s.decoder in
      let (buffer, seen) = consume_lines (split b'\n' (s.buffer ++ text)) s.seen in
      record { buffer = buffer; decoder = decoder; seen = seen }

  -- The line that no line feed ended.
  abbrev pub last_line : List ℕ → Seen → Seen
  last_line [] s = s
  last_line (c ∷ buffer) s = consume_line (c ∷ buffer) s

  -- `end`
  unfoldable pub finish_scan : ScannerState → Seen
  unfolding consume_line
  finish_scan s = last_line (s.buffer ++ p.flush s.decoder) s.seen
