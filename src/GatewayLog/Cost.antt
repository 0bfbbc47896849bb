-- ===== src/GatewayLog/Cost.antt =====
-- The exact conversion of a cost in src/aig-logs.ts.
use prism_control_plane.Prelude.{
  ℕ, suc, ◌+◌, ◌-◌, ◌*◌, ◌/◌, ◌%◌, ◌^◌, ◌≡◌, ◌≢◌, ◌≤◌, ◌<◌, refl, sym, ◌∙◌, true, false, none, some,
  List, [], ◌∷◌, ◌++◌, arith, ltb, leb, ◌==◌, length, All, Bool-cases, inl, inr, pos, negsuc, sub_ℕ,
  pos_part, neg_part, zero, if◌then◌else◌,
}
use native.Mathlib.Nat.{
  div-add-mod, mod-lt, mul_comm, add-mul, mul_assoc, one-le-pow, zero-add, pow-succ',
  mul-le-mul_right, mul-lt-mul_of_pos_right,
}
use prism_control_plane.Prelude.Number.{Number, is_finite}
use prism_control_plane.Prelude.Json.{num}
use prism_control_plane.GatewayLog.{
  micro_usd_from_usd, max_safe, is_digit, take_digits, digits_value, decimal_parts, scaled_up,
  micro_usd_of_text,
}

abbrev pub Digits : List ℕ → Type 0
Digits = All (λ c. is_digit c ≡ true)

take_digits_all : (s : List ℕ) → Digits s → take_digits s ≡ (s, [])
take_digits_all [] h = refl
take_digits_all (c ∷ s) (d, ds) = rw (take_digits_all s ds) (rw d refl)

take_digits_to :
    (s rest : List ℕ) (c : ℕ)
    → Digits s
    → is_digit c ≡ false
    → take_digits (s ++ c ∷ rest) ≡ (s, c ∷ rest)
take_digits_to [] rest c h e = rw e refl
take_digits_to (x ∷ s) rest c (d, ds) e = rw (take_digits_to s rest c ds e) (rw d refl)

-- The value rounded up to a multiple of the divisor.
ceil_bounds :
    (n d : ℕ)
    → 0 < d
    → let m = if n % d == 0 then n / d else n / d + 1 in (n ≤ m * d) × (m * d < n + d)
ceil_bounds n d h = elim (Bool-cases (n % d == 0)) [
  | inl e ↦ rw e (
    ground (arith, div-add-mod n d, mul_comm d (n / d)),
    ground (arith, div-add-mod n d, mul_comm d (n / d)),
  )
  | inr e ↦ rw e (
    ground (arith, div-add-mod n d, mod-lt n h, mul_comm d (n / d), add-mul (n / d) 1 d),
    ground (arith, div-add-mod n d, mod-lt n h, mul_comm d (n / d), add-mul (n / d) 1 d),
  )
]

-- The text of digits with a point among them.
plain_parts :
    (int_part frac_part : List ℕ)
    → int_part ≢ []
    → Digits int_part
    → Digits frac_part
    → decimal_parts (int_part ++ b'.' ∷ frac_part)
      ≡ some (record {
        digits = digits_value 0 (int_part ++ frac_part);
        exponent = sub_ℕ 0 (length frac_part);
      })
unfolding decimal_parts
plain_parts [] frac_part n d ds = absurd (n refl)
plain_parts (c ∷ int_part) frac_part n (d, ds) fs =
    let plus : c == b'+' ≡ false = ground arith in
    rw plus (
      rw (take_digits_to (c ∷ int_part) frac_part b'.' (d, ds) refl)
        (rw (take_digits_all frac_part fs) (rw (zero-add (length frac_part)) refl)))

-- `m` is the least number with n * 10 ^ a ≤ m * 10 ^ b.
abbrev pub RoundsUp : ℕ → ℕ → ℕ → ℕ → Type 0
RoundsUp n a b m = (n * 10 ^ a ≤ m * 10 ^ b) × (m * 10 ^ b < n * 10 ^ a + 10 ^ b)

ten_pow_add : (a b : ℕ) → 10 ^ (a + b) ≡ 10 ^ a * 10 ^ b
ten_pow_add zero b = rw (zero-add b) (omega arith)
ten_pow_add (suc a) b =
    let next : suc a + b ≡ suc (a + b) = omega arith in
    rw next (
      pow-succ' 10 (a + b)
      ∙ rw (ten_pow_add a b) (sym (mul_assoc 10 (10 ^ a) (10 ^ b)) ∙ rw (← pow-succ' 10 a) refl))

raised : (n k b : ℕ) → RoundsUp n (k + b) b (n * 10 ^ k)
raised n k b =
    let same : n * 10 ^ k * 10 ^ b ≡ n * 10 ^ (k + b) =
      mul_assoc n (10 ^ k) (10 ^ b) ∙ rw (ten_pow_add k b) refl in
    let one = one-le-pow b 10 (omega arith) in (omega (arith, same), omega (arith, same, one))

lowered : (n k a : ℕ) → RoundsUp n a (suc k + a) (scaled_up n (negsuc k))
lowered n k a =
    let d = 10 ^ suc k in
    let m = scaled_up n (negsuc k) in
    let (low, high) = ceil_bounds n d (one-le-pow (suc k) 10 (omega arith)) in
    let same : m * d * 10 ^ a ≡ m * 10 ^ (suc k + a) =
      mul_assoc m d (10 ^ a) ∙ rw (ten_pow_add (suc k) a) refl in
    let one = one-le-pow a 10 (omega arith) in
    let wide : (n + d) * 10 ^ a ≡ n * 10 ^ a + 10 ^ (suc k + a) =
      add-mul n d (10 ^ a) ∙ rw (ten_pow_add (suc k) a) refl in
    (
      omega (arith, same, mul-le-mul_right (10 ^ a) low),
      omega (arith, same, wide, mul-lt-mul_of_pos_right high one),
    )

scaled_up-RoundsUp : (n a b : ℕ) → RoundsUp n a b (scaled_up n (sub_ℕ a b))
scaled_up-RoundsUp n a b = elim (Bool-cases (leb b a)) [
  | inl e ↦ rw (whole e) (rw (down e) at (raised n (a - b) b))
  | inr e ↦ rw (part e) (rw (up e) at (lowered n (b - a - 1) a))
]
  where
    whole : leb b a ≡ true → sub_ℕ a b ≡ pos (a - b)
    whole e = rw e refl

    down : leb b a ≡ true → a - b + b ≡ a
    down e = ground arith

    part : leb b a ≡ false → sub_ℕ a b ≡ negsuc (b - a - 1)
    part e = rw e refl

    up : leb b a ≡ false → suc (b - a - 1) + a ≡ b
    up e = ground arith

micro_usd_of_text-RoundsUp :
    (int_part frac_part : List ℕ)
    → int_part ≢ []
    → Digits int_part
    → Digits frac_part
    → (m : ℕ) × RoundsUp (digits_value 0 (int_part ++ frac_part)) 6 (length frac_part) m
      × (micro_usd_of_text (int_part ++ b'.' ∷ frac_part)
          ≡ (if ltb max_safe m then none else some m))
unfolding micro_usd_of_text
micro_usd_of_text-RoundsUp [] frac_part n ds fs = absurd (n refl)
micro_usd_of_text-RoundsUp (c ∷ int_part) frac_part n ds fs =
    let f = length frac_part in
    let value = digits_value 0 (c ∷ int_part ++ frac_part) in
    (
      scaled_up value (sub_ℕ 6 f),
      scaled_up-RoundsUp value 6 f,
      rw (plain_parts (c ∷ int_part) frac_part n ds fs, micro_usd_of_text) (rw (six_more f) refl),
    )
  where
    six_more : (f : ℕ) → sub_ℕ (pos_part (sub_ℕ 0 f) + 6) (neg_part (sub_ℕ 0 f)) ≡ sub_ℕ 6 f
    six_more f = ground arith

-- What a cost becomes that is printed as digits, a point and digits, with no sign and no exponent: the
-- least number of micro-USD that is not
-- below it, or nothing where that is past the safe integers.
pub micro_usd_from_usd-RoundsUp :
    (to_text : Number → List ℕ) (x : Number) (int_part frac_part : List ℕ)
    → is_finite x ≡ true
    → to_text x ≡ int_part ++ b'.' ∷ frac_part
    → int_part ≢ []
    → Digits int_part
    → Digits frac_part
    → (m : ℕ) × RoundsUp (digits_value 0 (int_part ++ frac_part)) 6 (length frac_part) m
      × (micro_usd_from_usd to_text (some (num x)) ≡ (if ltb max_safe m then none else some m))
unfolding micro_usd_from_usd
micro_usd_from_usd-RoundsUp to_text x int_part frac_part finite prints n ds fs =
    let (m, bounds, e) = micro_usd_of_text-RoundsUp int_part frac_part n ds fs in
    (m, bounds, rw finite (rw prints e))
