-- ===== src/Prelude/Number.antt =====
-- A JavaScript number as the code tests it: whether it is an integer, finite, or negative, and
-- its floor. A value that is no integer is kept as its floor, NaN and the infinities apart.
use prism_control_plane.Prelude.{
  ℕ, ◌≡◌, ◌↔◌, Bool, true, false, Option, none, some, not, ◌||◌, arith, ℤ, pos, negsuc,
}

pub data Number : Type 0 where
  integer : ℤ → Number
  fraction : ℤ → Number
  infinity neg_infinity nan : Number

-- `Number.isInteger(x)`
abbrev pub is_integer : Number → Bool
is_integer (integer z) = true
is_integer _ = false

-- `Number.isFinite(x)`
abbrev pub is_finite : Number → Bool
is_finite (integer z) = true
is_finite (fraction z) = true
is_finite _ = false

abbrev pub is_negsuc : ℤ → Bool
is_negsuc (pos n) = false
is_negsuc (negsuc n) = true

-- `x < 0`
abbrev pub is_negative : Number → Bool
is_negative (integer z) = is_negsuc z
is_negative (fraction z) = is_negsuc z
is_negative neg_infinity = true
is_negative _ = false

-- The value of `x` where `Number.isInteger(x) && x >= 0`.
abbrev pub count? : Number → Option ℕ
count? (integer (pos n)) = some n
count? _ = none

-- `count?` is the code's guard `!Number.isInteger(x) || x < 0`.
pub count?-eq-none_iff :
    (x : Number) → (count? x ≡ none) ↔ ((not (is_integer x) || is_negative x) ≡ true)
count?-eq-none_iff (integer (pos n)) = ground arith
count?-eq-none_iff (integer (negsuc n)) = ground arith
count?-eq-none_iff (fraction z) = ground arith
count?-eq-none_iff infinity = ground arith
count?-eq-none_iff neg_infinity = ground arith
count?-eq-none_iff nan = ground arith
