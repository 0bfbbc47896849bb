-- ===== src/Auth/Keys.antt =====
-- The client keys of src/auth.ts: minting and parsing are inverse.
use prism_control_plane.Prelude.{
  ℕ, ◌≡◌, ◌≢◌, ◌↔◌, refl, ◌∙◌, true, ◌&&◌, some, List, [], ◌∷◌, ◌++◌, arith, All, length,
  Bool-cases, Option-cases, inl, inr,
}
use Prim.Native.Nat.{bit_or, bit_xor}
use mathlib.Core.Path.{ap₂}
use prism_control_plane.Prelude.Bits.{bit_or-eq-zero, bit_xor-eq-zero, bit_xor_self}
use prism_control_plane.Prelude.Text.{
  codes_eq, codes_eq→eq, break_at, break_at_join, break_at_sound,
}
use prism_control_plane.Auth.{
  ParsedKey, key_prefix, all_of, is_hex, is_key_id, is_secret, parse_rest, diff_of,
  constant_time_equal, parse_client_key, format_client_key,
}

abbrev key_of : List ℕ → List ℕ → ParsedKey
key_of i s = record { key_id = i; secret = s }

-- A key id has no separator: it is hexadecimal. (A secret may have some.)
all_of-is_hex : (s : List ℕ) → all_of is_hex s ≡ true → All (λ c. c ≢ b'_') s
all_of-is_hex [] h = tt
all_of-is_hex (c ∷ s) h = (ground arith, all_of-is_hex s (ground arith))

is_key_id-no_separator : (s : List ℕ) → is_key_id s ≡ true → All (λ c. c ≢ b'_') s
unfolding is_key_id
is_key_id-no_separator s h = all_of-is_hex s (ground arith)

parse_rest_sound :
    (rest : List ℕ) {k : ParsedKey}
    → parse_rest rest ≡ some k
    → (rest ≡ k.key_id ++ (b'_' ∷ k.secret))
      × (is_key_id k.key_id ≡ true)
      × (is_secret k.secret ≡ true)
parse_rest_sound rest {k} h = elim (Option-cases (break_at b'_' rest)) [
  | inl e ↦ absurd (ground arith)
  | inr (p, e) ↦ elim (Bool-cases (is_key_id p.0 && is_secret p.1)) [
    | inl valid ↦
        let same : key_of p.0 p.1 ≡ k = ground arith in
        rw (← same) (break_at_sound b'_' rest p.0 p.1 e, ground arith, ground arith)
    | inr invalid ↦ absurd (ground arith)
  ]
]

parse_rest_complete :
    (k : ParsedKey)
    → is_key_id k.key_id ≡ true
    → is_secret k.secret ≡ true
    → parse_rest (k.key_id ++ (b'_' ∷ k.secret)) ≡ some k
parse_rest_complete k i s =
    rw (break_at_join b'_' k.key_id k.secret (is_key_id-no_separator k.key_id i), i, s, parse_rest)

-- A well-formed key that is minted parses to its two parts.
pub parse-format_client_key :
    (k : ParsedKey)
    → is_key_id k.key_id ≡ true
    → is_secret k.secret ≡ true
    → parse_client_key (format_client_key k.key_id k.secret) ≡ some k
unfolding parse_client_key format_client_key break_at
parse-format_client_key k i s = parse_rest_complete k i s

-- A key is accepted exactly when it is the prefix, a well-formed key id and a well-formed secret
-- with the separators between them, and it is then taken apart into just these two.
pub parse_client_key-eq-some_iff :
    (raw : List ℕ) (k : ParsedKey)
    → (parse_client_key raw ≡ some k) ↔ (
        (raw ≡ format_client_key k.key_id k.secret)
        × (is_key_id k.key_id ≡ true)
        × (is_secret k.secret ≡ true))
unfolding parse_client_key format_client_key
parse_client_key-eq-some_iff raw k = (
  λ h. elim (Option-cases (break_at b'_' raw)) [
    | inl e ↦ absurd (ground arith)
    | inr (p, e) ↦ elim (Bool-cases (codes_eq p.0 key_prefix)) [
      | inl same ↦
          let (r, i, s) = parse_rest_sound p.1 (rw (e, same, parse_client_key) at h) in
          (
            break_at_sound b'_' raw p.0 p.1 e
                ∙ ap₂ (λ a b. a ++ (b'_' ∷ b)) (codes_eq→eq p.0 key_prefix same) r,
            i,
            s,
          )
      | inr other ↦ absurd (ground arith)
    ]
  ],
  λ (e, i, s). rw e (parse-format_client_key k i s),
)

diff_of-eq-zero :
    (a b : List ℕ) (d : ℕ) → length a ≡ length b → diff_of a b d ≡ 0 → (d ≡ 0) × (a ≡ b)
diff_of-eq-zero [] [] d l h = (h, refl)
diff_of-eq-zero [] (y ∷ b) d l h = absurd (omega arith)
diff_of-eq-zero (x ∷ a) [] d l h = absurd (omega arith)
diff_of-eq-zero (x ∷ a) (y ∷ b) d l h =
    let (z, e) = diff_of-eq-zero a b (bit_or d (bit_xor x y)) (omega arith) h in
    let (dz, xz) = bit_or-eq-zero d (bit_xor x y) z in (dz, ap₂ ◌∷◌ (bit_xor-eq-zero x y xz) e)

diff_of_self : (a : List ℕ) → diff_of a a 0 ≡ 0
diff_of_self [] = refl
diff_of_self (x ∷ a) = rw (bit_xor_self x) (diff_of_self a)

-- The comparison that does not stop early answers exactly whether the two texts are equal.
pub constant_time_equal_iff : (a b : List ℕ) → (constant_time_equal a b ≡ true) ↔ (a ≡ b)
unfolding constant_time_equal
constant_time_equal_iff a b = (
  λ h. (diff_of-eq-zero a b 0 (ground arith) (ground arith)).1,
  λ e. rw e (ground (arith, diff_of_self b)),
)
