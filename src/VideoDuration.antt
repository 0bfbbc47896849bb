-- ===== src/VideoDuration.antt =====
-- src/video-duration.ts: how long a video a model is asked for. A duration that a client sends is a
-- whole number of seconds once it has been rounded, or infinite, where its digits are past what a
-- number holds. A number holds each whole value up to 2^53, and past it the nearest one of 53 binary
-- digits: `double` rounds to that. `Math.round` is an argument.
pub mod Clamp
mod Tests
use Prim.Native.String
use prism_control_plane.Prelude.{
  ℕ, zero, suc, ◌/◌, ◌%◌, ◌+◌, ◌-◌, ◌*◌, ◌^◌, Bool, true, false, ◌&&◌, ◌||◌, not, String, Option,
  none, some, List, [], ◌∷◌, ltb, leb, length, min, max, str_eq, ◌==◌, if◌then◌else◌, ℤ, pos,
  negsuc, pos_part, map,
}
use prism_control_plane.Prelude.Decimal.{decimal}
use prism_control_plane.Prelude.Number.{
  Number, integer, fraction, infinity, neg_infinity, nan, is_finite,
}
use prism_control_plane.Prelude.Strings.{starts_with}
use prism_control_plane.Prelude.Text.{codes, trim, to_lower, is_space}
use prism_control_plane.Prelude.Json.{Json, num, str}

pub data Wire : Type 0 where
  int veo_string : Wire

pub record VideoDurationSpec : Type 0 where
  pub min_sec : ℕ
  pub max_sec : ℕ
  pub default_sec : ℕ
  pub allowed_sec : List ℕ
  pub wire : Wire

-- A range of whole seconds.
abbrev pub range : ℕ → ℕ → ℕ → VideoDurationSpec
range lo hi d = record { min_sec = lo; max_sec = hi; default_sec = d; allowed_sec = []; wire = int }

abbrev pub one_of : List ℕ → ℕ → ℕ → ℕ → Wire → VideoDurationSpec
one_of allowed lo hi d w = record {
  min_sec = lo;
  max_sec = hi;
  default_sec = d;
  allowed_sec = allowed;
  wire = w;
}

-- `videoDurationSpec`
unfoldable pub video_duration_spec : String → VideoDurationSpec
unfolding starts_with
video_duration_spec id =
    if starts_with "xai/grok-imagine-video" id
    then range 1 15 5
    else if starts_with "bytedance/seedance" id
    then range 4 12 5
    else if starts_with "google/veo" id
    then one_of (4 ∷ 6 ∷ 8 ∷ []) 4 8 8 veo_string
    else if starts_with "minimax/hailuo" id
    then one_of (6 ∷ 10 ∷ []) 6 10 6 int
    else if starts_with "runwayml/" id
    then range 2 10 5
    else if str_eq id "alibaba/hh1-t2v"
        || str_eq id "alibaba/hh1-i2v"
        || str_eq id "alibaba/hh1.1-t2v"
        || str_eq id "alibaba/hh1.1-i2v"
    then range 3 15 5
    else if str_eq id "alibaba/wan-2.7-i2v" || starts_with "alibaba/wan" id
    then range 2 15 5
    else if str_eq id "pixverse/v6"
    then range 1 15 5
    else if starts_with "pixverse/" id
    then one_of (5 ∷ 8 ∷ []) 5 8 5 int
    else if starts_with "vidu/" id
    then range 1 16 5
    else range 1 15 5

-- A number of seconds that is whole or infinite.
pub data Seconds : Type 0 where
  whole : ℤ → Seconds
  endless : Seconds

abbrev pub is_digit : ℕ → Bool
is_digit c = leb b'0' c && leb c b'9'

-- `\s*s?$`
abbrev pub is_unit : List ℕ → Bool
is_unit [] = true
is_unit (c ∷ s) = let rest = is_unit s in if is_space c then rest else c == b's' && leb (length s) 0

-- `^(\d+)\s*s?$`: the value of the digits, where `any` says that there was one.
abbrev pub match_seconds : Bool → ℕ → List ℕ → Option ℕ
match_seconds any value [] = if any then some value else none
match_seconds any value (c ∷ s) =
    let more = match_seconds true (value * 10 + (c - b'0')) s in
    if is_digit c then more else if any && is_unit (c ∷ s) then some value else none

-- Up to this every whole value is a number.
abbrev pub exact_max : ℕ
exact_max = 2 ^ 53

-- What a whole value is a multiple of, for at most 53 binary digits of it to count. Doubled 971 times
-- it is enough for every finite number.
abbrev unit_of : ℕ → ℕ → ℕ → ℕ
unit_of zero unit n = unit
unit_of (suc k) unit n = elim (ltb n (exact_max * unit)) [
  | true ↦ unit
  | false ↦ unit_of k (2 * unit) n
]

-- The nearest multiple, and of two as near the even one.
abbrev round_to : ℕ → ℕ → ℕ
round_to unit n =
    let q = n / unit in
    let r = n % unit in
    if ltb (2 * r) unit || (2 * r) == unit && (q % 2) == 0 then q * unit else (q + 1) * unit

-- The number nearest to a whole value.
unfoldable pub double : ℕ → ℕ
double n = if leb n exact_max then n else round_to (unit_of 971 1 n) n

-- `Number(digits)`: from halfway past the largest finite number on, it is infinite.
number_of_digits : ℕ → Seconds
unfolding double
number_of_digits n = if ltb n (2 ^ 1024 - 2 ^ 970) then whole (pos (double n)) else endless

-- `parseClientDuration`
unfoldable pub parse_client_duration : (Number → ℤ) → Option Json → Option Seconds
unfolding trim to_lower is_space number_of_digits
parse_client_duration round (some (num x)) = if is_finite x then some (whole (round x)) else none
parse_client_duration round (some (str s)) =
    elim (match_seconds false 0 (map to_lower (trim (codes s)))) [
      | none ↦ none
      | some n ↦ some (number_of_digits n)
    ]
parse_client_duration round _ = none

-- How far a value is off.
abbrev pub gap : ℤ → ℕ → ℕ
gap (pos n) a = a - n + (n - a)
gap (negsuc n) a = a + n + 1

-- `Math.abs(a - base)`
unfoldable pub distance : ℤ → ℕ → ℕ
unfolding double
distance base a = double (gap base a)

-- The loop over the allowed values.
abbrev pub nearest : ℤ → List ℕ → ℕ → ℕ
nearest base [] best = best
nearest base (x ∷ xs) best =
    nearest base xs (if ltb (distance base x) (distance base best) then x else best)

-- `requestedSec`, or the default where it is absent or infinite
abbrev pub base_of : VideoDurationSpec → Option Seconds → ℤ
base_of spec (some (whole z)) = z
base_of spec _ = pos spec.default_sec

abbrev pub clamp_to : VideoDurationSpec → ℤ → List ℕ → ℕ
clamp_to spec base (x ∷ xs) = nearest base (x ∷ xs) x
clamp_to spec base [] = min spec.max_sec (max spec.min_sec (pos_part base))

-- `clampVideoDurationSec`
unfoldable pub clamp_video_duration_sec : String → Option Seconds → ℕ
unfolding video_duration_spec distance
clamp_video_duration_sec id requested =
    let spec = video_duration_spec id in clamp_to spec (base_of spec requested) spec.allowed_sec

pub data WireDuration : Type 0 where
  seconds : ℕ → WireDuration
  text : String → WireDuration

-- `wireVideoDuration`
unfoldable pub wire_video_duration : String → ℕ → WireDuration
unfolding video_duration_spec decimal
wire_video_duration id s = elim (video_duration_spec id).wire [
  | veo_string ↦ text (String.◌++◌ (decimal s) "s")
  | int ↦ seconds s
]

-- `resolveVideoDuration`
unfoldable pub resolve_video_duration : (Number → ℤ) → String → Option Json → ℕ × WireDuration
unfolding clamp_video_duration_sec parse_client_duration wire_video_duration
resolve_video_duration round id raw =
    let s = clamp_video_duration_sec id (parse_client_duration round raw) in
    (s, wire_video_duration id s)
