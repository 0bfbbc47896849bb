-- ===== src/Prelude/Text.antt =====
-- Texts as lists of code points, for the code that walks them.
use Prim.Native.Char.{code}
use prism_control_plane.Prelude.{
  ℕ, ◌+◌, ◌≡◌, ◌≢◌, refl, ap, Bool, true, false, ◌&&◌, ◌||◌, String, Option, none, some, List, [],
  ◌∷◌, ◌++◌, arith, ◌==◌, leb, if◌then◌else◌, Bool-cases, Option-cases, inl, inr, All,
}
use mathlib.Core.List.{reverse}

abbrev pub codes : String → List ℕ
codes String.[] = []
codes (String.◌∷◌ c s) = code c ∷ codes s

abbrev pub codes_eq : List ℕ → List ℕ → Bool
codes_eq [] [] = true
codes_eq (a ∷ s) (b ∷ t) = a == b && codes_eq s t
codes_eq _ _ = false

pub codes_eq→eq : (s t : List ℕ) → codes_eq s t ≡ true → s ≡ t
codes_eq→eq [] [] h = refl
codes_eq→eq [] (b ∷ t) h = cc
codes_eq→eq (a ∷ s) [] h = cc
codes_eq→eq (a ∷ s) (b ∷ t) h = ground (arith, codes_eq→eq s t)

pub codes_eq_refl : (s : List ℕ) → codes_eq s s ≡ true
codes_eq_refl [] = refl
codes_eq_refl (a ∷ s) = ground (arith, codes_eq_refl s)

-- JavaScript's white space and line terminators, what `trim` removes and `\s` matches.
unfoldable pub is_space : ℕ → Bool
is_space c =
    c == 32
    || (leb 9 c && leb c 13)
    || c == 160
    || c == 0x1680
    || (leb 0x2000 c && leb c 0x200a)
    || c == 0x2028
    || c == 0x2029
    || c == 0x202f
    || c == 0x205f
    || c == 0x3000
    || c == 0xfeff

-- `toLowerCase` on ASCII letters. The one other character with an ASCII lower case, the Kelvin
-- sign, gives `k`.
unfoldable pub to_lower : ℕ → ℕ
to_lower c = if leb b'A' c && leb c b'Z' then c + 32 else if c == 0x212a then b'k' else c

unfoldable pub trim_start : List ℕ → List ℕ
trim_start [] = []
trim_start (c ∷ s) = let rest = trim_start s in if is_space c then rest else c ∷ s

-- `s.trim()`
unfoldable pub trim : List ℕ → List ℕ
unfolding trim_start is_space
trim s = reverse (trim_start (reverse (trim_start s)))

abbrev pub push_head : ℕ → List (List ℕ) → List (List ℕ)
push_head c [] = (c ∷ []) ∷ []
push_head c (p ∷ ps) = (c ∷ p) ∷ ps

-- `s.split(sep)` for a separator of one character
unfoldable pub split : ℕ → List ℕ → List (List ℕ)
split sep [] = [] ∷ []
split sep (c ∷ s) = let rest = split sep s in if c == sep then [] ∷ rest else push_head c rest

-- The text before and after the first `sep`: `indexOf` and the two slices around it.
unfoldable pub break_at : ℕ → List ℕ → Option (List ℕ × List ℕ)
break_at sep [] = none
break_at sep (c ∷ s) =
    if c == sep
    then some ([], s)
    else elim (break_at sep s) [ none ↦ none | some (before, after) ↦ some (c ∷ before, after) ]

-- Breaking a text where it was joined gives the parts back, if the first part has no separator.
pub break_at_join :
    (sep : ℕ) (before after : List ℕ)
    → All (λ c. c ≢ sep) before
    → break_at sep (before ++ sep ∷ after) ≡ some (before, after)
unfolding break_at
break_at_join sep [] after h = ground arith
break_at_join sep (c ∷ s) after (h, hs) = ground (arith, break_at_join sep s after hs)

-- What was broken is the parts with the separator between them.
pub break_at_sound :
    (sep : ℕ) (s before after : List ℕ)
    → break_at sep s ≡ some (before, after)
    → s ≡ before ++ sep ∷ after
unfolding break_at
break_at_sound sep [] before after h = cc
break_at_sound sep (c ∷ s) before after h = elim (Bool-cases (c == sep)) [
  | inl here ↦
      let b : [] ≡ before = ground arith in
      let a : s ≡ after = ground arith in rw (← b, ← a) (ground arith)
  | inr there ↦ elim (Option-cases (break_at sep s)) [
    | inl e ↦ absurd (ground arith)
    | inr (p, e) ↦
        let b : c ∷ p.0 ≡ before = ground arith in
        let a : p.1 ≡ after = ground arith in
        rw (← b, ← a) (ap (◌∷◌ c) (break_at_sound sep s p.0 p.1 e))
  ]
]
