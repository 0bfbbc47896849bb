-- ===== src/Prelude/Strings.antt =====
-- Texts as strings, for the code that trims, measures and tests them. A JavaScript string is taken
-- as its Unicode scalar values; `length` counts a scalar past U+FFFF twice, as UTF-16 does.
use Prim.Native.Char.{code}
use Prim.Native.String
use prism_control_plane.Prelude.{
  ℕ, ◌+◌, ◌≡◌, refl, Bool, true, false, ◌&&◌, Option, none, some, String, ltb, ◌==◌, if◌then◌else◌,
  List, [], ◌∷◌,
}
use prism_control_plane.Prelude.Text.{is_space}

abbrev pub is_empty : String → Bool
is_empty String.[] = true
is_empty (String.◌∷◌ c s) = false

abbrev trim_end : String → String
trim_end String.[] = ""
trim_end (String.◌∷◌ c s) =
    let rest = trim_end s in if is_empty rest && is_space (code c) then "" else String.◌∷◌ c rest

abbrev trim_front : String → String
trim_front String.[] = ""
trim_front (String.◌∷◌ c s) =
    let rest = trim_front s in if is_space (code c) then rest else String.◌∷◌ c s

-- `s.trim()`
unfoldable pub trim_text : String → String
unfolding is_space
trim_text s = trim_end (trim_front s)

-- `s.length`
unfoldable pub utf16_length : String → ℕ
utf16_length String.[] = 0
utf16_length (String.◌∷◌ c s) = (if ltb 0xffff (code c) then 2 else 1) + utf16_length s

-- `s.startsWith(p)`
unfoldable pub starts_with : String → String → Bool
starts_with String.[] s = true
starts_with (String.◌∷◌ c p) String.[] = false
starts_with (String.◌∷◌ c p) (String.◌∷◌ d s) = code c == code d && starts_with p s

-- The rest of a text after a prefix.
abbrev pub drop_prefix : String → String → Option String
drop_prefix String.[] s = some s
drop_prefix (String.◌∷◌ c p) String.[] = none
drop_prefix (String.◌∷◌ c p) (String.◌∷◌ d s) =
    let rest = drop_prefix p s in if code c == code d then rest else none

-- `parts.join(sep)`
unfoldable pub join : String → List String → String
join sep [] = ""
join sep (s ∷ []) = s
join sep (s ∷ t ∷ r) = String.◌++◌ s (String.◌++◌ sep (join sep (t ∷ r)))

trim_test : trim_text "  a b " ≡ "a b"
unfolding trim_text is_space
trim_test = refl
