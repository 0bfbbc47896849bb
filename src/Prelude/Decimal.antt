-- ===== src/Prelude/Decimal.antt =====
-- A whole number as the template strings of the sources print it. Twenty digits are enough for every
-- integer that a JavaScript number holds exactly.
use Prim.Native.String
use prism_control_plane.Prelude.{
  ℕ, suc, zero, ◌/◌, ◌%◌, ◌==◌, String, ltb, if◌then◌else◌, ◌≡◌, refl,
}

abbrev digit : ℕ → String
digit n =
    if n == 0
    then "0"
    else if n == 1
    then "1"
    else if n == 2
    then "2"
    else if n == 3
    then "3"
    else if n == 4
    then "4"
    else if n == 5
    then "5"
    else if n == 6
    then "6"
    else if n == 7
    then "7"
    else if n == 8
    then "8"
    else "9"

abbrev digits_of : ℕ → ℕ → String
digits_of zero n = ""
digits_of (suc fuel) n =
    let front = digits_of fuel (n / 10) in
    if ltb n 10 then digit n else String.◌++◌ front (digit (n % 10))

unfoldable pub decimal : ℕ → String
decimal n = digits_of 20 n

decimal_207 : decimal 207 ≡ "207"
unfolding decimal
decimal_207 = refl
