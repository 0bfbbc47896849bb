-- ===== src/Http.antt =====
-- src/http.ts: the error codes of the contract, their status, and the reading of a request's body
-- under a cap. The platform's `TextDecoder` and `JSON.parse` are arguments.
pub mod Body
mod Tests
use Prim.Native.String
use prism_control_plane.Prelude.{
  ℕ, ◌+◌, ◌*◌, Bool, true, false, String, Option, none, some, List, [], ◌∷◌, ◌++◌, ltb, length,
  if◌then◌else◌, pos, negsuc,
}
use prism_control_plane.Prelude.Number.{Number, integer, fraction, infinity, neg_infinity, nan}
use prism_control_plane.Prelude.Strings.{is_empty, trim_text}
use prism_control_plane.Prelude.Json.{Json}

pub data ErrorCode : Type 0 where
  invalid_request unauthenticated client_revoked forbidden model_not_entitled : ErrorCode
  model_not_found model_unpriced model_unsupported not_found payload_too_large : ErrorCode
  rate_limited quota_exhausted not_implemented upstream_error upstream_timeout : ErrorCode
  unavailable internal : ErrorCode

-- `STATUS_BY_CODE`
unfoldable pub status_for_code : ErrorCode → ℕ
status_for_code invalid_request = 400
status_for_code unauthenticated = 401
status_for_code client_revoked = 401
status_for_code forbidden = 403
status_for_code model_not_entitled = 403
status_for_code model_not_found = 404
status_for_code model_unpriced = 409
status_for_code model_unsupported = 501
status_for_code not_found = 404
status_for_code payload_too_large = 413
status_for_code rate_limited = 429
status_for_code quota_exhausted = 402
status_for_code not_implemented = 501
status_for_code upstream_error = 502
status_for_code upstream_timeout = 504
status_for_code unavailable = 503
status_for_code internal = 500

-- `MAX_BODY_BYTES`
abbrev pub max_body_bytes : ℕ
max_body_bytes = 256 * 1024

-- One answer of `reader.read()`: bytes, the end, or an exception.
pub data Read : Type 0 where
  bytes : List ℕ → Read
  end_of_body broken : Read

pub data ReadBodyResult (A : Type 0) : Type 0 where
  ok : A → ReadBodyResult A
  refused : ErrorCode → ReadBodyResult A

-- What reading leaves: the outcome, and how many bytes had come in when it stopped.
pub record Reading : Type 0 where
  pub outcome : ReadBodyResult (List ℕ)
  pub pulled : ℕ

-- `Number.isFinite(n) && n > maxBytes`, of the declared length read as a number
abbrev pub declares_more : ℕ → Option Number → Bool
declares_more max_bytes none = false
declares_more max_bytes (some (integer (pos n))) = ltb max_bytes n
declares_more max_bytes (some (fraction (pos n))) = if ltb n max_bytes then false else true
declares_more max_bytes (some _) = false

-- The loop over the reader; a body that gives no more is at its end.
abbrev pub read_chunks : ℕ → List Read → List ℕ → Reading
read_chunks max_bytes [] sofar = record { outcome = ok sofar; pulled = length sofar }
read_chunks max_bytes (end_of_body ∷ rest) sofar = record {
  outcome = ok sofar;
  pulled = length sofar;
}
read_chunks max_bytes (broken ∷ rest) sofar = record {
  outcome = refused invalid_request;
  pulled = length sofar;
}
read_chunks max_bytes (bytes b ∷ rest) sofar =
    let more = read_chunks max_bytes rest (sofar ++ b) in
    if ltb max_bytes (length sofar + length b)
    then record { outcome = refused payload_too_large; pulled = length sofar + length b }
    else more

-- `readBodyBytesCapped`
unfoldable pub read_body_bytes_capped : Option Number → Option (List Read) → ℕ → Reading
read_body_bytes_capped declared none max_bytes =
    if declares_more max_bytes declared
    then record { outcome = refused payload_too_large; pulled = 0 }
    else record { outcome = ok []; pulled = 0 }
read_body_bytes_capped declared (some reads) max_bytes =
    if declares_more max_bytes declared
    then record { outcome = refused payload_too_large; pulled = 0 }
    else read_chunks max_bytes reads []

-- The text of a body as JSON.
abbrev pub parse_body : (String → Option Json) → String → ReadBodyResult Json
parse_body parse_json text =
    if is_empty (trim_text text)
    then refused invalid_request
    else elim (parse_json text) [ none ↦ refused invalid_request | some value ↦ ok value ]

-- `readJsonBody`
unfoldable pub read_json_body :
    (List ℕ → String)
    → (String → Option Json)
    → Option Number
    → Option (List Read)
    → ℕ
    → ReadBodyResult Json
unfolding read_body_bytes_capped trim_text
read_json_body decode parse_json declared body max_bytes =
    elim (read_body_bytes_capped declared body max_bytes).outcome [
      | refused code ↦ refused code
      | ok raw ↦ parse_body parse_json (decode raw)
    ]
