-- ===== src/GatewayLog.antt =====
-- src/aig-logs.ts: a row of the gateway's log as it comes in, and the conversion of its cost. How
-- JavaScript prints a number, `JSON.parse` and `Date.parse` are arguments.
pub mod Cost
mod Tests
use prism_control_plane.Prelude.{
  ℕ, suc, ◌+◌, ◌-◌, ◌*◌, ◌/◌, ◌%◌, ◌^◌, Bool, true, false, ◌&&◌, ◌||◌, String, Option, none, some,
  List, [], ◌∷◌, ◌++◌, ltb, leb, ◌==◌, if◌then◌else◌, length, ℤ, pos, negsuc, sub_ℕ, pos_part,
  neg_part,
}
use prism_control_plane.Prelude.Number.{Number, is_finite}
use prism_control_plane.Prelude.Text.{codes, trim}
use prism_control_plane.Prelude.Strings.{trim_text, is_empty}
use prism_control_plane.Prelude.Json.{Json, num, str, obj, bool, Fields, end, find_field, member}
use prism_control_plane.Reconcile.{GatewayLogRow}

-- `MAX_SAFE_INTEGER`
abbrev pub max_safe : ℕ
max_safe = 2 ^ 53 - 1

abbrev pub is_digit : ℕ → Bool
is_digit c = leb b'0' c && leb c b'9'

-- `(\d*)`: the digits in front, and the rest.
abbrev pub take_digits : List ℕ → List ℕ × List ℕ
take_digits [] = ([], [])
take_digits (c ∷ s) =
    let (front, rest) = take_digits s in if is_digit c then (c ∷ front, rest) else ([], c ∷ s)

-- The value of a text of digits, read after the value `n` of those before.
abbrev pub digits_value : ℕ → List ℕ → ℕ
digits_value n [] = n
digits_value n (c ∷ s) = digits_value (n * 10 + (c - b'0')) s

-- `digits x 10^exponent`
pub record DecimalParts : Type 0 where
  pub digits : ℕ
  pub exponent : ℤ

-- `\+?`
abbrev pub skip_plus : List ℕ → List ℕ
skip_plus [] = []
skip_plus (c ∷ s) = if c == b'+' then s else c ∷ s

-- `(?:\.(\d*))?`: the fraction's digits, and the rest.
abbrev pub take_fraction : List ℕ → List ℕ × List ℕ
take_fraction [] = ([], [])
take_fraction (c ∷ s) = if c == b'.' then take_digits s else ([], c ∷ s)

-- `\d+` to the end of the text, of a value of at most 60
abbrev pub exponent_size : List ℕ → Option ℕ
exponent_size [] = none
exponent_size (c ∷ s) =
    let (front, rest) = take_digits (c ∷ s) in
    let size = digits_value 0 front in
    elim rest [ [] ↦ if leb size 60 then some size else none | x ∷ more ↦ none ]

-- `[+-]?\d+`
abbrev pub signed_size : List ℕ → Option ℤ
signed_size [] = none
signed_size (c ∷ s) =
    if c == b'-'
    then (elim (exponent_size s) [ none ↦ none | some n ↦ some (sub_ℕ 0 n) ])
    else if c == b'+'
    then (elim (exponent_size s) [ none ↦ none | some n ↦ some (pos n) ])
    else elim (exponent_size (c ∷ s)) [ none ↦ none | some n ↦ some (pos n) ]

-- `(?:[eE]([+-]?\d+))?$`
abbrev pub take_exponent : List ℕ → Option ℤ
take_exponent [] = some (pos 0)
take_exponent (c ∷ s) = if c == b'e' || c == b'E' then signed_size s else none

-- `exponent - fracPart.length`
abbrev pub minus_length : ℤ → ℕ → ℤ
minus_length e n = sub_ℕ (pos_part e) (neg_part e + n)

abbrev pub parts_of : List ℕ → List ℕ → List ℕ → Option DecimalParts
parts_of [] [] rest = none
parts_of int_part frac_part rest = elim (take_exponent rest) [
  | none ↦ none
  | some e ↦ some (record {
    digits = digits_value 0 (int_part ++ frac_part);
    exponent = minus_length e (length frac_part);
  })
]

-- `decimalParts`
unfoldable pub decimal_parts : List ℕ → Option DecimalParts
decimal_parts text =
    let (int_part, after_int) = take_digits (skip_plus text) in
    let (frac_part, rest) = take_fraction after_int in parts_of int_part frac_part rest

-- `withinSafeRange`
abbrev pub within_safe_range : ℕ → Option ℕ
within_safe_range value = if ltb max_safe value then none else some value

-- The value at a scale, rounded up.
abbrev pub scaled_up : ℕ → ℤ → ℕ
scaled_up digits (pos n) = digits * 10 ^ n
scaled_up digits (negsuc n) =
    let divisor = 10 ^ suc n in
    if digits % divisor == 0 then digits / divisor else digits / divisor + 1

-- `microUsdFromUsd`, of the text
unfoldable pub micro_usd_of_text : List ℕ → Option ℕ
unfolding decimal_parts
micro_usd_of_text [] = none
micro_usd_of_text (c ∷ text) = elim (decimal_parts (c ∷ text)) [
  | none ↦ none
  | some p ↦
      within_safe_range (scaled_up p.digits (sub_ℕ (pos_part p.exponent + 6) (neg_part p.exponent)))
]

-- `microUsdFromUsd`
unfoldable pub micro_usd_from_usd : (Number → List ℕ) → Option Json → Option ℕ
unfolding micro_usd_of_text
micro_usd_from_usd to_text (some (num x)) =
    if is_finite x then micro_usd_of_text (to_text x) else none
micro_usd_from_usd to_text (some (str s)) = micro_usd_of_text (trim (codes s))
micro_usd_from_usd to_text _ = none

-- `stringOrNull`
unfoldable pub string_or_null : Option Json → Option String
unfolding trim_text
string_or_null (some (str s)) = if is_empty (trim_text s) then none else some (trim_text s)
string_or_null _ = none

-- An object's members; those of anything else are none.
abbrev pub object_fields : Option Json → Fields
object_fields (some (obj fields)) = fields
object_fields _ = end

-- `metadataOf`
unfoldable pub metadata_of : (String → Option Json) → Option Json → Fields
unfolding trim_text
metadata_of parse_json (some (str s)) =
    if is_empty (trim_text s) then end else object_fields (parse_json s)
metadata_of parse_json raw = object_fields raw

abbrev pub is_true : Option Json → Bool
is_true (some (bool b)) = b
is_true _ = false

pub record RowReaders : Type 0 where
  pub to_text : Number → List ℕ
  pub parse_json : String → Option Json
  pub parse_date : String → Option ℕ

-- `Date.parse(createdAt)`, of a text that is there
abbrev pub parsed_date : RowReaders → Option String → Option ℕ
parsed_date r none = none
parsed_date r (some created) = r.parse_date created

-- `parseGatewayLogRow`: the fields that reconciliation reads.
unfoldable pub parse_gateway_log_row : RowReaders → Json → Option GatewayLogRow
unfolding string_or_null metadata_of micro_usd_from_usd
parse_gateway_log_row r raw =
    let created = string_or_null (member "created_at" raw) in
    let metadata = metadata_of r.parse_json (member "metadata" raw) in
    elim (string_or_null (member "id" raw)) [
      | none ↦ none
      | some id ↦ elim (parsed_date r created) [
        | none ↦ none
        | some created_at ↦ some (record {
          id = id;
          created_at = created_at;
          model = string_or_null (member "model" raw);
          cached = is_true (member "cached" raw);
          cost_micro_usd = micro_usd_from_usd r.to_text (member "cost" raw);
          request_id = string_or_null (find_field "request_id" metadata);
          account_id = string_or_null (find_field "account_id" metadata);
        })
      ]
    ]
